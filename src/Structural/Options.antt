-- ===== src/Structural/Options.antt =====
-- rules/structural/option.go: the options that the rules of the package share.
use go_arch_guard.Prelude.{String, Bool, true, false, not, List, [], ◌∷◌, ◌==◌, filter}
use go_arch_guard.Core.Violation.{Severity, ℤ, pos}

pub record RuleConfig : Type 0 where
  pub severity : Severity
  pub repo_port_suffixes : List String
  pub max_branches : ℤ
  pub max_statements : ℤ
  pub max_cyclomatic : ℤ
  pub count_error_branches : Bool
  pub ignored_functions : List String
  pub ignored_paths : List String
  pub orchestration_dirs : List String

pub data ConfigOption : Type 0 where
  with_severity : Severity → ConfigOption
  with_repo_port_suffixes : List String → ConfigOption
  with_max_branches : ℤ → ConfigOption
  with_max_statements : ℤ → ConfigOption
  with_max_cyclomatic : ℤ → ConfigOption
  with_count_error_branches : ConfigOption
  with_ignored_functions : List String → ConfigOption
  with_ignored_paths : List String → ConfigOption
  with_orchestration_dirs : List String → ConfigOption

unfoldable pub non_blank_strings : List String → List String
unfolding filter
non_blank_strings xs = filter (λ s. not (s == "")) xs

unfoldable pub apply_option : ConfigOption → RuleConfig → RuleConfig
unfolding non_blank_strings
apply_option (with_severity severity) cfg = record cfg { severity = severity }
apply_option (with_repo_port_suffixes xs) cfg = record cfg {
  repo_port_suffixes = non_blank_strings xs;
}
apply_option (with_max_branches n) cfg = record cfg { max_branches = n }
apply_option (with_max_statements n) cfg = record cfg { max_statements = n }
apply_option (with_max_cyclomatic n) cfg = record cfg { max_cyclomatic = n }
apply_option with_count_error_branches cfg = record cfg { count_error_branches = true }
apply_option (with_ignored_functions xs) cfg = record cfg {
  ignored_functions = non_blank_strings xs;
}
apply_option (with_ignored_paths xs) cfg = record cfg { ignored_paths = non_blank_strings xs }
apply_option (with_orchestration_dirs xs) cfg = record cfg {
  orchestration_dirs = non_blank_strings xs;
}

apply_options : List ConfigOption → RuleConfig → RuleConfig
unfolding apply_option
apply_options [] cfg = cfg
apply_options (o ∷ os) cfg = apply_options os (apply_option o cfg)

unfoldable pub new_config : List ConfigOption → Severity → RuleConfig
unfolding apply_options
new_config opts severity = apply_options opts (record {
  severity = severity;
  repo_port_suffixes = [];
  max_branches = pos 8;
  max_statements = pos 40;
  max_cyclomatic = pos 10;
  count_error_branches = false;
  ignored_functions = [];
  ignored_paths = [];
  orchestration_dirs = [];
})
