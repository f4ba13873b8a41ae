-- ===== src/Naming/Types.antt =====
-- rules/naming/no_stutter.go, impl_suffix.go and option.go: the rules on the names of types. `types` gives,
-- file by file, the top-level types of a package with the place of their names.
pub mod Stutter
use Prim.Native.Char.{Char}
use Prim.Native.String
use go_arch_guard.Prelude.{
  ℕ, zero, suc, leb, ◌||◌, String, Bool, true, false, not, ◌&&◌, Option, none, some, List, [], ◌∷◌,
  ◌==◌, ◌^^◌, filter, filter_map, flat_map, if◌then◌else◌,
}
use go_arch_guard.Core.Violation.{Severity, Violation, RuleSpec}
use go_arch_guard.Core.Paths.{has_suffix}
use go_arch_guard.Core.Context.{Package, Context, is_excluded}
use go_arch_guard.Analysis.Packages.{Host, relative_path_for_package}
use go_arch_guard.Analysis.Case.{Unicode}

-- The options of the package.
pub record RuleConfig : Type 0 where
  pub severity : Severity
  pub allowed_constructor_names : List String
  pub infra_sublayers : List String

pub data ConfigOption : Type 0 where
  with_severity : Severity → ConfigOption
  with_allowed_constructor_names : List String → ConfigOption
  with_infra_sublayers : List String → ConfigOption

unfoldable pub non_blank_strings : List String → List String
unfolding filter
non_blank_strings xs = filter (λ s. not (s == "")) xs

unfoldable pub apply_option : ConfigOption → RuleConfig → RuleConfig
unfolding non_blank_strings
apply_option (with_severity severity) cfg = record cfg { severity = severity }
apply_option (with_allowed_constructor_names xs) cfg = record cfg {
  allowed_constructor_names = non_blank_strings xs;
}
apply_option (with_infra_sublayers xs) cfg = record cfg { infra_sublayers = non_blank_strings xs }

apply_options : List ConfigOption → RuleConfig → RuleConfig
unfolding apply_option
apply_options [] cfg = cfg
apply_options (o ∷ os) cfg = apply_options os (apply_option o cfg)

abbrev or_new : List String → List String
or_new [] = "New" ∷ []
or_new (x ∷ xs) = x ∷ xs

unfoldable pub new_config : List ConfigOption → Severity → RuleConfig
unfolding apply_options
new_config opts severity =
    let cfg = apply_options opts (record {
      severity = severity;
      allowed_constructor_names = "New" ∷ [];
      infra_sublayers = [];
    }) in
    record cfg { allowed_constructor_names = or_new cfg.allowed_constructor_names }

-- A type's declaration, with what `fset.Position` and `IsExported` say of its name.
pub record TypeDecl : Type 0 where
  pub name : String
  pub filename : String
  pub line : ℕ
  pub exported : Bool

pub record TypeFile : Type 0 where
  pub filename : String
  pub types : List TypeDecl

-- `s[:n]` and `s[n:]` of the runes of a text
unfoldable pub take_runes : ℕ → String → String
take_runes zero s = ""
take_runes (suc n) String.[] = ""
take_runes (suc n) (String.◌∷◌ c s) = String.◌∷◌ c (take_runes n s)

unfoldable pub drop_runes : ℕ → String → String
drop_runes zero s = s
drop_runes (suc n) String.[] = ""
drop_runes (suc n) (String.◌∷◌ c s) = drop_runes n s

module _ (u : Unicode) where
  -- strings.ToLower(s)
  unfoldable pub lower : String → String
  lower String.[] = ""
  lower (String.◌∷◌ c s) = String.◌∷◌ (u.to_lower c) (lower s)

  abbrev pub starts_upper : String → Bool
  starts_upper String.[] = false
  starts_upper (String.◌∷◌ c s) = u.is_upper c

  unfoldable pub stutters : String → String → Bool
  unfolding lower take_runes drop_runes
  stutters pkg_name type_name =
      let n = String.count pkg_name in
      if leb (String.count type_name) n
      then false
      else if not (lower (take_runes n type_name) == lower pkg_name)
      then false
      else starts_upper (drop_runes n type_name)

module _ (host : Host) (u : Unicode) (types : Package → List TypeFile) (severity : Severity) where
  abbrev type_violation : Package → TypeDecl → String → String → String → Violation
  type_violation pkg t rule message fix = record {
    file = relative_path_for_package host pkg t.filename;
    line = t.line;
    rule = rule;
    message = message;
    fix = fix;
    default_severity = severity;
    effective_severity = severity;
  }

  -- the function that no_stutter.go calls for each type; `name` is the name of the package
  unfoldable pub check_stutter : String → Package → TypeDecl → Option Violation
  unfolding stutters drop_runes
  check_stutter name pkg t =
      if not t.exported || not (stutters u name t.name)
      then none
      else some (
          type_violation pkg t "naming.no-stutter"
            ("type \"" ^^ t.name ^^ "\" stutters with package \"" ^^ name ^^ "\"")
            ("rename to \"" ^^ drop_runes (String.count name) t.name ^^ "\""))

  -- the function that impl_suffix.go calls for each type
  unfoldable pub check_impl : Package → TypeDecl → Option Violation
  unfolding has_suffix
  check_impl pkg t =
      if not t.exported || not (has_suffix t.name "Impl")
      then none
      else some (
          type_violation pkg t "naming.no-impl-suffix"
            ("type \"" ^^ t.name ^^ "\" uses banned suffix \"Impl\"") "rename without Impl suffix")

  -- the loops of both rules over the packages and their files
  unfoldable pub each_type : (Package → TypeDecl → Option Violation) → Context → List Violation
  unfolding flat_map filter_map
  each_type f ctx =
      flat_map
        (λ pkg.
          flat_map
            (λ file.
              if is_excluded ctx (relative_path_for_package host pkg file.filename)
              then []
              else filter_map (f pkg) file.types)
            (types pkg))
        ctx.pkgs

  -- the two rules; `name_of` is the name of a package
  unfoldable pub check_no_stutter : (Package → String) → Context → List Violation
  unfolding each_type check_stutter
  check_no_stutter name_of ctx = each_type (λ pkg. check_stutter (name_of pkg) pkg) ctx

  unfoldable pub check_impl_suffix : Context → List Violation
  unfolding each_type check_impl
  check_impl_suffix ctx = each_type check_impl ctx
