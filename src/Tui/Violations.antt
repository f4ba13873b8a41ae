-- ===== src/Tui/Violations.antt =====
-- tui/violations.go: the violations by path, and the severity that the tree shows for a path.
pub mod Worst
use go_arch_guard.Prelude.{
  String, Bool, Option, none, some, List, [], ◌∷◌, ◌++◌, ◌^^◌, Map, lookup, put, has_prefix,
  if◌then◌else◌,
}
use go_arch_guard.Core.Violation.{Severity, error, warning, other, Violation, Format}
use go_arch_guard.Core.Architecture.{Architecture}
use go_arch_guard.Core.Paths.{trim_right_slash}
use go_arch_guard.Core.Context.{Package, new_context}
use go_arch_guard.Core.RuleSet.{RuleSet}
use go_arch_guard.Core.Runner.{Outcome, panics, returns, run}

pub data Level : Type 0 where
  sev_none sev_warning sev_error : Level

-- `idx[key]`, which is nil for a key that is not there
abbrev pub entries : Map (List Violation) → String → List Violation
entries idx key = elim (lookup idx key) [ none ↦ [] | some vs ↦ vs ]

-- the body of the loop over the violations
unfoldable pub index_violation : Map (List Violation) → Violation → Map (List Violation)
unfolding trim_right_slash put
index_violation idx v = let key = trim_right_slash v.file in put idx key (entries idx key ++ v ∷ [])

unfoldable pub index_violations : Map (List Violation) → List Violation → Map (List Violation)
unfolding index_violation
index_violations idx [] = idx
index_violations idx (v ∷ vs) = index_violations (index_violation idx v) vs

-- the index of what a run returns, unless the run panics
abbrev pub index_outcome : Outcome → Option (Map (List Violation))
index_outcome (panics message) = none
index_outcome (returns vs) = some (index_violations [] vs)

unfoldable pub build_violation_index :
    Format → List Package → String → String → Architecture → RuleSet → Option (Map (List Violation))
unfolding run new_context
build_violation_index fmt pkgs project_module root arch rules =
    index_outcome (run fmt (new_context pkgs project_module root arch []) rules [])

abbrev at_least_warning : Level → Level
at_least_warning sev_none = sev_warning
at_least_warning worst = worst

-- the function that `Severity` calls for the violations of a path
unfoldable pub worsen : Level → List Violation → Level
worsen worst [] = worst
worsen worst (v ∷ vs) =
    let with_warning = worsen (at_least_warning worst) vs in
    let without = worsen worst vs in
    elim v.effective_severity [ error ↦ sev_error | warning ↦ with_warning | other i ↦ without ]

-- the loop of `walkPath` over the index
unfoldable pub walk_below : String → Level → Map (List Violation) → Level
unfolding worsen has_prefix
walk_below prefix worst [] = worst
walk_below prefix worst ((k, vs) ∷ idx) =
    walk_below prefix (if has_prefix k prefix then worsen worst vs else worst) idx

unfoldable pub severity : Map (List Violation) → String → Level
unfolding walk_below
severity idx rel_path = walk_below (rel_path ^^ "/") (worsen sev_none (entries idx rel_path)) idx
