-- ===== src/Naming/NoLayerSuffix/Clean.antt =====
-- When the rule reports nothing.
use go_arch_guard.Prelude.{
  String, Bool, true, false, none, List, [], ◌∷◌, ◌^^◌, ◌≡◌, ◌≢◌, ◌↔◌, ◌⊎◌, Map, All, arith, eq_iff,
}
use go_arch_guard.Prelude.Order.{str_lt}
use go_arch_guard.Prelude.Sort.{sort, All-sort_iff}
use go_arch_guard.Core.Violation.{Severity}
use go_arch_guard.Core.Paths.{has_suffix, trim_suffix}
use go_arch_guard.Core.Context.{Package, Context, context_arch}
use go_arch_guard.Analysis.Packages.{Host, relative_path_for_package}
use go_arch_guard.Naming.Files.{base}
use go_arch_guard.Naming.NoLayerSuffix.{
  enabled_suffixes, layer_suffixes, check_suffixes, passes_over, check_layer_file,
}

-- the name ends in no underscore and name of a layer that is on
abbrev pub IsBare : Map Bool → String → Type 0
IsBare [] name = Unit
IsBare ((layer, on) ∷ names) name =
    (on ≡ true → layer ≢ "" → has_suffix name ("_" ^^ layer) ≡ false) × IsBare names name

enabled_suffixes-IsBare :
    (names : Map Bool) (name : String)
    → All (λ s. has_suffix name s ≡ false) (enabled_suffixes names) ↔ IsBare names name
unfolding enabled_suffixes
enabled_suffixes-IsBare [] name = ground arith
enabled_suffixes-IsBare ((k, on) ∷ m) name =
    ground (arith, enabled_suffixes-IsBare m name, eq_iff k "")

module _ (host : Host) (dir : String → String) (severity : Severity) where
  check_suffixes-none_iff :
      (rel_path file : String) (suffixes : List String)
      → (check_suffixes host dir severity rel_path file suffixes ≡ none)
        ↔ All (λ s. has_suffix (trim_suffix file ".go") s ≡ false) suffixes
  unfolding check_suffixes
  check_suffixes-none_iff rel_path file [] = ground arith
  check_suffixes-none_iff rel_path file (s ∷ rest) =
      ground (arith, check_suffixes-none_iff rel_path file rest)

  -- The body of the loop passes a file exactly where it is passed over or its name ends in no
  -- underscore and name of a layer that is on.
  pub check_layer_file-none_iff :
      (ctx : Context) (pkg : Package) (file : String)
      → (check_layer_file host dir severity ctx pkg file ≡ none) ↔ (
          (passes_over host dir severity ctx pkg file ≡ true)
          ⊎ IsBare (context_arch ctx).layers.layer_dir_names (trim_suffix (base file) ".go"))
  unfolding check_layer_file layer_suffixes
  check_layer_file-none_iff ctx pkg file =
      let names = (context_arch ctx).layers.layer_dir_names in
      let rel_path = relative_path_for_package host pkg file in
      let suffixes = enabled_suffixes names in
      ground (
        arith,
        check_suffixes-none_iff rel_path (base file) (sort str_lt suffixes),
        All-sort_iff str_lt (λ s. has_suffix (trim_suffix (base file) ".go") s ≡ false) suffixes,
        enabled_suffixes-IsBare names (trim_suffix (base file) ".go"),
      )
