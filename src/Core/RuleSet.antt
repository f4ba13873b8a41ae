-- ===== src/Core/RuleSet.antt =====
-- core/rule.go, core/ruleset.go: rules and immutable sets of rules.
use go_arch_guard.Prelude.{String, Bool, Option, none, some, List, [], ◌∷◌, ◌++◌, contains, add}
use go_arch_guard.Core.Violation.{Violation, RuleSpec}
use go_arch_guard.Core.Context.{Context}

-- How a call of `Check` ends; a panic carries what `%v` prints of the recovered value.
pub data Checked : Type 0 where
  returned : List Violation → Checked
  panicked : String → Checked

-- A `Spec` that panics stops `Run` before any rule runs, so it is a value here.
pub record Rule : Type 0 where
  pub spec : RuleSpec
  pub check : Context → Checked

-- The set `skipViolationIDs` is a list of its members, each of them once.
pub record RuleSet : Type 0 where
  pub rules : List Rule
  pub skip_violation_ids : List String

-- the loop of `With`; `none` is a nil rule
unfoldable pub append_rules : List Rule → List (Option Rule) → List Rule
append_rules out [] = out
append_rules out (none ∷ rest) = append_rules out rest
append_rules out (some r ∷ rest) = append_rules (out ++ r ∷ []) rest

unfoldable pub with_rules : RuleSet → List (Option Rule) → RuleSet
unfolding append_rules
with_rules rs rules = record rs { rules = append_rules rs.rules rules }

unfoldable pub new_rule_set : List (Option Rule) → RuleSet
unfolding with_rules
new_rule_set = with_rules (record { rules = []; skip_violation_ids = [] })

-- `out.skipViolationIDs[id] = true` for each id
unfoldable pub skip_ids : List String → List String → List String
skip_ids skip [] = skip
skip_ids skip (id ∷ ids) = skip_ids (add id skip) ids

unfoldable pub without : RuleSet → List String → RuleSet
unfolding skip_ids
without rs ids = record rs { skip_violation_ids = skip_ids rs.skip_violation_ids ids }

unfoldable pub is_violation_skipped : RuleSet → String → Bool
is_violation_skipped rs id = contains rs.skip_violation_ids id
