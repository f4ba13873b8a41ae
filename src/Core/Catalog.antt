-- ===== src/Core/Catalog.antt =====
-- core/runner.go: the catalogs of the rules, and what is refused before a rule runs.
use go_arch_guard.Prelude.{
  String, Bool, not, ◌&&◌, Option, none, some, List, [], ◌∷◌, ◌++◌, ◌==◌, ◌^^◌, Map, put, contains,
  has_prefix, map, filter, flat_map, if◌then◌else◌,
}
use go_arch_guard.Prelude.Order.{str_lt}
use go_arch_guard.Prelude.Sort.{sort}
use go_arch_guard.Core.Violation.{
  Severity, Format, RuleSpec, ViolationSpec, is_valid_severity, severity_int,
}
use go_arch_guard.Core.Validate.{join}
use go_arch_guard.Core.RuleSet.{Rule, RuleSet}

-- strings.HasPrefix(id, "meta.")
abbrev pub is_meta : String → Bool
is_meta id = has_prefix id "meta."

unfoldable pub rule_known_ids : RuleSpec → List String
rule_known_ids spec =
    (if spec.id == "" then [] else spec.id ∷ []) ++ map (λ v. v.id) spec.violations

unfoldable pub known_violation_ids : RuleSet → List String
known_violation_ids rs = flat_map (λ r. rule_known_ids r.spec) rs.rules

unfoldable pub defaults_from : Map Severity → List ViolationSpec → Map Severity
defaults_from out [] = out
defaults_from out (v ∷ vs) = defaults_from (put out v.id v.default_severity) vs

unfoldable pub defaults_by_id : RuleSpec → Map Severity
unfolding defaults_from
defaults_by_id spec = defaults_from [] spec.violations

module _ (fmt : Format) where
  -- the loop over the declared violations: invalid severities
  unfoldable pub violation_severity_errors : List ViolationSpec → List String
  violation_severity_errors = flat_map λ v.
      if is_valid_severity v.default_severity
      then []
      else ("violation "
          ^^ fmt.quote v.id
          ^^ " has invalid severity "
          ^^ fmt.integer (severity_int v.default_severity))
        ∷ []

  -- the loop over the declared violations: duplicates
  unfoldable pub duplicate_errors : String → List String → List ViolationSpec → List String
  duplicate_errors rule seen [] = []
  duplicate_errors rule seen (v ∷ vs) =
      (if contains seen v.id
        then ("rule "
            ^^ fmt.quote rule
            ^^ " declares duplicate violation ID "
            ^^ fmt.quote v.id
            ^^ " in Spec().Violations")
          ∷ []
        else [])
      ++ duplicate_errors rule (v.id ∷ seen) vs

  -- what follows `if spec.ID == "" { continue }`
  unfoldable pub named_errors : List String → RuleSpec → List String
  named_errors seen spec =
      if spec.id == ""
      then []
      else (if contains seen spec.id
          then ("RuleSet contains duplicate rule-type ID " ^^ fmt.quote spec.id) ∷ []
          else [])
        ++ duplicate_errors spec.id [] spec.violations

  unfoldable pub spec_errors : List String → RuleSpec → List String
  spec_errors seen spec =
      (if is_valid_severity spec.default_severity
        then []
        else ("rule "
            ^^ fmt.quote spec.id
            ^^ " has invalid severity "
            ^^ fmt.integer (severity_int spec.default_severity))
          ∷ [])
      ++ (violation_severity_errors spec.violations ++ named_errors seen spec)

  -- the loop over the rules; `seen` is the set `seenRule`
  unfoldable pub rule_set_errors : List String → List Rule → List String
  rule_set_errors seen [] = []
  rule_set_errors seen (r ∷ rs) =
      spec_errors seen r.spec
      ++ rule_set_errors (if r.spec.id == "" then seen else r.spec.id ∷ seen) rs

  abbrev pub join_errors : List String → Option String
  join_errors [] = none
  join_errors (e ∷ es) = some (join (sort str_lt (e ∷ es)) "; ")

  unfoldable pub validate_rule_set : RuleSet → Option String
  unfolding rule_set_errors spec_errors named_errors duplicate_errors violation_severity_errors
  validate_rule_set rs = join_errors (rule_set_errors [] rs.rules)

  -- the loop over the overrides, up to the first invalid one
  unfoldable pub invalid_override : Map Severity → Option String
  invalid_override [] = none
  invalid_override ((id, s) ∷ rest) =
      if is_valid_severity s
      then invalid_override rest
      else some ("invalid severity " ^^ fmt.integer (severity_int s) ^^ " for " ^^ fmt.quote id)

  unfoldable pub unknown_ids : List String → List String → List String
  unknown_ids known = filter λ id. not (contains known id) && not (is_meta id)

  abbrev pub unknown_message : String → List String → Option String
  unknown_message label [] = none
  unknown_message label (id ∷ ids) =
      some (label ^^ " references unknown violation IDs: " ^^ join (sort str_lt (id ∷ ids)) ", ")

  -- the closure `checkUnknown`
  unfoldable pub check_unknown : List String → String → List String → Option String
  unfolding unknown_ids
  check_unknown known label ids = unknown_message label (unknown_ids known ids)

  -- `sortedKeys`
  unfoldable pub sorted_keys : List String → List String
  sorted_keys = sort str_lt
