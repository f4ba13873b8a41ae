-- ===== src/Core/Runner.antt =====
-- core/runner.go: the run of a rule set over a context.
pub mod Declared
pub mod Accepts
pub mod Settled
pub mod Emitted
pub mod Dedupe
pub mod Output
pub mod Without
pub mod Override
use go_arch_guard.Prelude.{
  ℕ, String, ◌≡◌, Bool, true, false, not, ◌&&◌, ◌||◌, Option, none, some, List, [], ◌∷◌, ◌++◌, ◌==◌,
  ◌^^◌, Map, lookup, put, keys, contains, has_prefix, map, filter, filter_map, flat_map,
  if◌then◌else◌, eqb, ltb,
}
use go_arch_guard.Prelude.Order.{str_lt}
use go_arch_guard.Prelude.Sort.{sort}
use go_arch_guard.Core.Violation.{
  Severity, error, warning, Format, Violation, RuleSpec, ViolationSpec, is_valid_severity,
  severity_int,
}
use go_arch_guard.Core.Validate.{validate, join}
use go_arch_guard.Core.Context.{Context, context_arch}
use go_arch_guard.Core.RuleSet.{Rule, RuleSet, Checked, returned, panicked, is_violation_skipped}
use go_arch_guard.Core.Options.{
  RunOpts, RunOption, with_severity_override, apply_options, new_run_opts, severity_for,
}
use go_arch_guard.Core.Catalog.{
  is_meta, rule_known_ids, known_violation_ids, defaults_from, defaults_by_id,
  violation_severity_errors, duplicate_errors, named_errors, spec_errors, rule_set_errors,
  join_errors, validate_rule_set, invalid_override, unknown_ids, unknown_message, check_unknown,
  sorted_keys,
}

module _ (fmt : Format) where
  abbrev rule_panic : String → String → Violation
  rule_panic id recovered = record {
    file = "";
    line = 0;
    rule = "meta.rule-panic";
    message = "rule " ^^ fmt.quote id ^^ " panicked: " ^^ recovered;
    fix = "report the panic to the rule author; other rules continue to run";
    default_severity = error;
    effective_severity = error;
  }

  unfoldable pub safe_check : Rule → Context → List Violation
  safe_check r ctx = elim (r.check ctx) [
    | returned vs ↦ vs
    | panicked recovered ↦ rule_panic r.spec.id recovered ∷ []
  ]

  -- an undeclared ID is replaced
  unfoldable pub declare : RuleSpec → Violation → Violation
  declare spec v =
      if not (contains (rule_known_ids spec) v.rule) && not (is_meta v.rule)
      then record {
        file = v.file;
        line = v.line;
        rule = "meta.unknown-violation-id";
        message =
            "rule " ^^ fmt.quote spec.id ^^ " emitted undeclared violation ID " ^^ fmt.quote v.rule;
        fix =
            "declare "
            ^^ fmt.quote v.rule
            ^^ " in "
            ^^ spec.id
            ^^ ".Spec().Violations or fix the typo in Check()";
        default_severity = error;
        effective_severity = error;
      }
      else v

-- the severity of an ID that the rule does not list
abbrev pub unlisted_severity : RuleSpec → String → Severity
unlisted_severity spec id =
    if id == "meta.rule-panic" || id == "meta.unknown-violation-id"
    then error
    else if is_meta id
    then warning
    else spec.default_severity

abbrev pub or_else : Option Severity → Severity → Severity
or_else none s = s
or_else (some t) s = t

unfoldable pub declared_severity : RuleSpec → String → Severity
declared_severity spec id = or_else (lookup (defaults_by_id spec) id) (unlisted_severity spec id)

unfoldable pub effective_severity : RuleSpec → RunOpts → String → Severity
effective_severity spec o id = or_else (severity_for o id) (declared_severity spec id)

abbrev pub weigh : RuleSpec → RunOpts → Violation → Violation
weigh spec o v = record v {
  default_severity = declared_severity spec v.rule;
  effective_severity = effective_severity spec o v.rule;
}

module _ (fmt : Format) where
  -- the body of the loop over the emitted violations
  unfoldable pub settle : (String → Bool) → RunOpts → RuleSpec → Violation → Option Violation
  settle skipped o spec v =
      let v' = declare fmt spec v in if skipped v'.rule then none else some (weigh spec o v')

  -- the loop over the rules
  unfoldable pub collect : (String → Bool) → RunOpts → Context → List Rule → List Violation
  unfolding settle
  collect skipped o ctx = flat_map λ r. filter_map (settle skipped o r.spec) (safe_check fmt r ctx)

-- whether the pair of rule and message is in the set `seen`
unfoldable pub seen_key : List (String × String) → String → String → Bool
seen_key [] rule message = false
seen_key ((r, m) ∷ seen) rule message = r == rule && m == message || seen_key seen rule message

-- the loop of `dedupeMetaViolations`
unfoldable pub dedupe : List (String × String) → List Violation → List Violation
unfolding seen_key
dedupe seen [] = []
dedupe seen (v ∷ vs) = elim (is_meta v.rule) [
  | false ↦ v ∷ dedupe seen vs
  | true ↦ elim (seen_key seen v.rule v.message) [
    | true ↦ dedupe seen vs
    | false ↦ v ∷ dedupe ((v.rule, v.message) ∷ seen) vs
  ]
]

-- the order of the report
unfoldable pub violation_less : Violation → Violation → Bool
violation_less a b =
    if a.file == b.file
    then if eqb a.line b.line
      then if a.rule == b.rule then str_lt a.message b.message else str_lt a.rule b.rule
      else ltb a.line b.line
    else str_lt a.file b.file

pub data Outcome : Type 0 where
  panics : String → Outcome
  returns : List Violation → Outcome

-- `if err != nil { panic(err) }` before the rest
abbrev pub unless_panic : Option String → Outcome → Outcome
unless_panic none rest = rest
unless_panic (some e) rest = panics ("core.Run: " ^^ e)

module _ (fmt : Format) where
  -- what `Run` returns once nothing is refused
  unfoldable pub report : Context → RuleSet → RunOpts → List Violation
  unfolding collect dedupe violation_less
  report ctx rules o =
      sort violation_less (dedupe [] (collect fmt (is_violation_skipped rules) o ctx rules.rules))

  unfoldable pub run_with : Context → RuleSet → RunOpts → Outcome
  unfolding report invalid_override check_unknown sorted_keys
  run_with ctx rules o =
      let known = known_violation_ids rules in
      unless_panic (validate fmt (context_arch ctx)) (
        unless_panic (validate_rule_set fmt rules) (
          unless_panic (invalid_override fmt o.severity_overrides) (
            unless_panic
              (check_unknown fmt known "RuleSet.Without" (sorted_keys fmt rules.skip_violation_ids))
              (unless_panic
                (check_unknown fmt known "WithSeverityOverride"
                  (sorted_keys fmt (keys o.severity_overrides)))
                (returns (report ctx rules o))))))

  unfoldable pub run : Context → RuleSet → List RunOption → Outcome
  unfolding run_with
  run ctx rules opts = run_with ctx rules (new_run_opts opts)
