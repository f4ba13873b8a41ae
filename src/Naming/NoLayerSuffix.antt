-- ===== src/Naming/NoLayerSuffix.antt =====
-- rules/naming/no_layer_suffix.go: the rule `naming.no-layer-suffix`. `dir` is filepath.Dir.
pub mod Clean
use go_arch_guard.Prelude.{
  String, Bool, true, false, not, ◌&&◌, ◌||◌, Option, none, some, List, [], ◌∷◌, ◌==◌, ◌^^◌, Map,
  flag, has_prefix, any, map, if◌then◌else◌,
}
use go_arch_guard.Prelude.Order.{str_lt}
use go_arch_guard.Prelude.Sort.{sort}
use go_arch_guard.Core.Violation.{Severity, Violation, RuleSpec}
use go_arch_guard.Core.Architecture.{TypePattern}
use go_arch_guard.Core.Paths.{has_suffix, trim_suffix}
use go_arch_guard.Core.Context.{Package, Context, context_arch, is_excluded}
use go_arch_guard.Analysis.Packages.{Host, relative_path_for_package}
use go_arch_guard.Naming.Files.{base, each_file}

unfoldable pub spec : Severity → RuleSpec
spec severity = record {
  id = "naming.no-layer-suffix";
  description = "layer files must not repeat their layer name as a filename suffix";
  default_severity = severity;
  violations = [];
}

-- the loop over the map
unfoldable pub enabled_suffixes : Map Bool → List String
enabled_suffixes [] = []
enabled_suffixes ((dir, enabled) ∷ rest) =
    if enabled && not (dir == "")
    then ("_" ^^ dir) ∷ enabled_suffixes rest
    else enabled_suffixes rest

unfoldable pub layer_suffixes : Map Bool → List String
unfolding enabled_suffixes sort str_lt
layer_suffixes names = sort str_lt (enabled_suffixes names)

unfoldable pub is_type_pattern_file : List TypePattern → String → String → Bool
unfolding trim_suffix has_prefix any
is_type_pattern_file patterns dir filename =
    any (λ p. p.dir == dir && has_prefix (trim_suffix filename ".go") (p.file_prefix ^^ "_"))
      patterns

module _ (host : Host) (dir : String → String) (severity : Severity) where
  unfoldable pub suffix_violation : String → String → String → String → Violation
  suffix_violation rel_path name suffix trimmed = record {
    file = rel_path;
    line = 0;
    rule = "naming.no-layer-suffix";
    message = "filename \"" ^^ name ^^ "\" has redundant layer suffix \"" ^^ suffix ^^ "\"";
    fix = "rename to \"" ^^ trimmed ^^ ".go\"";
    default_severity = severity;
    effective_severity = severity;
  }

  -- the loop over the suffixes, which stops at the first one that fits
  unfoldable pub check_suffixes : String → String → List String → Option Violation
  unfolding suffix_violation trim_suffix has_suffix
  check_suffixes rel_path file [] = none
  check_suffixes rel_path file (suffix ∷ rest) =
      let name = trim_suffix file ".go" in
      let later = check_suffixes rel_path file rest in
      if has_suffix name suffix
      then some (suffix_violation rel_path file suffix (trim_suffix name suffix))
      else later

  -- a file that is not looked at
  unfoldable pub passes_over : Context → Package → String → Bool
  unfolding base has_suffix is_type_pattern_file
  passes_over ctx pkg file =
      let name = base file in
      let layer = base (dir file) in
      has_suffix name "_test.go"
      || is_excluded ctx (relative_path_for_package host pkg file)
      || not (flag (context_arch ctx).layers.layer_dir_names layer)
      || is_type_pattern_file (context_arch ctx).structure.type_patterns layer name

  -- the body of the loop, for a file that is met first
  unfoldable pub check_layer_file : Context → Package → String → Option Violation
  unfolding check_suffixes passes_over layer_suffixes
  check_layer_file ctx pkg file =
      if passes_over ctx pkg file
      then none
      else check_suffixes (relative_path_for_package host pkg file) (base file)
          (layer_suffixes (context_arch ctx).layers.layer_dir_names)

  unfoldable pub check : Context → List Violation
  unfolding each_file check_layer_file
  check ctx = each_file (check_layer_file ctx) ctx.pkgs
