-- ===== src/Dependency/Classify/Metas.antt =====
-- rules/dependency/isolation.go: what the rules of the package say of a module they cannot check.
use go_arch_guard.Prelude.{
  String, true, List, ◌==◌, ◌||◌, ◌^^◌, ◌≡◌, refl, inr, any, has_prefix, All, All-if, All-map,
}
use go_arch_guard.Core.Violation.{Format, Violation, RuleSpec}
use go_arch_guard.Core.Context.{Package}
use go_arch_guard.Core.Catalog.{is_meta}
use go_arch_guard.Core.Runner.Declared.{Admits}
use go_arch_guard.Dependency.Classify.{validate_module, meta_no_matching_packages}

abbrev IsMeta : Violation → Type 0
IsMeta v = is_meta v.rule ≡ true

validate_module-IsMeta :
    (fmt : Format) (pkgs : List Package) (project_module : String)
    → All IsMeta (validate_module fmt pkgs project_module)
unfolding validate_module meta_no_matching_packages has_prefix
validate_module-IsMeta fmt pkgs project_module =
    All-if IsMeta _ _ (project_module == "") (refl, tt)
      (All-if IsMeta _ _
        (any
          (λ pkg. pkg.pkg_path == project_module || has_prefix pkg.pkg_path (project_module ^^ "/"))
          pkgs)
        tt (refl, tt))

-- A violation on the module has an ID that every rule may emit.
pub validate_module-Admits :
    (fmt : Format) (spec : RuleSpec) (pkgs : List Package) (project_module : String)
    → All (λ v. Admits spec v.rule) (validate_module fmt pkgs project_module)
validate_module-Admits fmt spec pkgs project_module =
    All-map {P = IsMeta} {Q = λ v. Admits spec v.rule} (λ v m. inr m)
      (validate_module fmt pkgs project_module) (validate_module-IsMeta fmt pkgs project_module)
