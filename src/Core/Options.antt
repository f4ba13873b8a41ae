-- ===== src/Core/Options.antt =====
-- core/run_option.go: the options of a run.
use go_arch_guard.Prelude.{String, Option, List, [], ◌∷◌, Map, lookup, put}
use go_arch_guard.Core.Violation.{Severity}

-- `runOpts`: the map `severityOverrides`
pub record RunOpts : Type 0 where
  pub severity_overrides : Map Severity

abbrev pub RunOption : Type 0
RunOption = RunOpts → RunOpts

unfoldable pub with_severity_override : String → Severity → RunOption
with_severity_override id s o = record { severity_overrides = put o.severity_overrides id s }

unfoldable pub apply_options : List RunOption → RunOpts → RunOpts
apply_options [] o = o
apply_options (opt ∷ opts) o = apply_options opts (opt o)

unfoldable pub new_run_opts : List RunOption → RunOpts
unfolding apply_options
new_run_opts opts = apply_options opts (record { severity_overrides = [] })

unfoldable pub severity_for : RunOpts → String → Option Severity
severity_for o id = lookup o.severity_overrides id
