-- ===== src/Naming/SnakeCaseFiles.antt =====
-- rules/naming/snake_case_files.go: the rule `naming.snake-case-file`.
pub mod Fix
use Prim.Native.Char.{Char}
use Prim.Native.String
use go_arch_guard.Prelude.{
  String, Bool, true, false, not, ◌&&◌, ◌||◌, Option, none, some, List, [], ◌∷◌, ◌==◌, ◌^^◌,
  char_eq, if◌then◌else◌,
}
use go_arch_guard.Core.Violation.{Severity, Violation, RuleSpec}
use go_arch_guard.Core.Paths.{trim_suffix}
use go_arch_guard.Core.Context.{Package, Context, is_excluded}
use go_arch_guard.Analysis.Packages.{Host, relative_path_for_package}
use go_arch_guard.Analysis.Case.{Unicode, split_on, pascal_to_snake}
use go_arch_guard.Naming.Files.{base, ext, each_file}

unfoldable pub spec : Severity → RuleSpec
spec severity = record {
  id = "naming.snake-case-file";
  description = "Go filenames must use snake_case";
  default_severity = severity;
  violations = [];
}

abbrev pub trim_name : String → String
trim_name filename = trim_suffix (trim_suffix filename ".go") "_test"

-- strings.Contains(name, ".")
abbrev pub has_dot : String → Bool
has_dot String.[] = false
has_dot (String.◌∷◌ c s) = char_eq c "." || has_dot s

module _ (u : Unicode) where
  -- the loop over the characters
  unfoldable pub all_snake : String → Bool
  all_snake String.[] = true
  all_snake (String.◌∷◌ r s) = (u.is_lower r || u.is_digit r || char_eq r "_") && all_snake s

  -- `isSnakeCase` of a part, which has no dot
  unfoldable pub is_snake_part : String → Bool
  unfolding all_snake trim_suffix
  is_snake_part part = not (trim_name part == "") && all_snake (trim_name part)

  -- the loop over the parts
  unfoldable pub all_snake_parts : List String → Bool
  unfolding is_snake_part
  all_snake_parts [] = true
  all_snake_parts (part ∷ parts) = not (part == "") && is_snake_part part && all_snake_parts parts

  unfoldable pub is_snake_case : String → Bool
  unfolding is_snake_part all_snake_parts split_on trim_suffix
  is_snake_case filename =
      if has_dot (trim_name filename)
      then all_snake_parts (split_on "." (trim_name filename))
      else is_snake_part filename

  unfoldable pub to_snake_case : String → String
  unfolding ext pascal_to_snake trim_suffix
  to_snake_case filename = pascal_to_snake u (trim_suffix filename (ext filename)) ^^ ext filename

module _ (host : Host) (u : Unicode) (severity : Severity) where
  -- the body of the loop, for a file that is met first
  unfoldable pub check_snake_file : Context → Package → String → Option Violation
  unfolding base is_snake_case to_snake_case
  check_snake_file ctx pkg file =
      let rel_path = relative_path_for_package host pkg file in
      let name = base file in
      if is_excluded ctx rel_path || is_snake_case u name
      then none
      else some (record {
        file = rel_path;
        line = 0;
        rule = "naming.snake-case-file";
        message = "filename \"" ^^ name ^^ "\" must be snake_case";
        fix = "rename to \"" ^^ to_snake_case u name ^^ "\"";
        default_severity = severity;
        effective_severity = severity;
      })

  unfoldable pub check : Context → List Violation
  unfolding each_file check_snake_file
  check ctx = each_file (check_snake_file ctx) ctx.pkgs
