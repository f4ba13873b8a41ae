-- ===== src/Dependency/Isolation/Emitted.antt =====
-- The IDs that the rule `dependency.isolation` emits, against its catalog.
use go_arch_guard.Prelude.{
  String, Bool, true, not, ◌&&◌, ◌∷◌, List, [], ◌^^◌, ◌==◌, ◌||◌, ◌≡◌, inl, inr, refl, sym, subst,
  map, All, All-flat_map, All-append, All-if, contains, contains_iff, has_prefix, is_nil,
}
use go_arch_guard.Core.Violation.{Severity, Violation}
use go_arch_guard.Core.Architecture.{Architecture}
use go_arch_guard.Core.Context.{Package, Context, context_arch}
use go_arch_guard.Core.Runner.Declared.{Admits}
use go_arch_guard.Analysis.Packages.{Host, resolve_module_from_context, resolve_root_from_context}
use go_arch_guard.Dependency.Classify.Metas.{validate_module-Admits}
use go_arch_guard.Dependency.Classify.{
  InternalKind, kind_domain, kind_orchestration, kind_shared, kind_domain_root, kind_cmd,
  kind_unclassified, kind_app, kind_transport, Classified, classify_internal_package,
  violation_specs, kind_eq, is_excluded_package, validate_module, has_internal_packages,
  meta_rule_disabled_by_config, meta_layout_not_supported,
}
use go_arch_guard.Dependency.Isolation.{
  spec, check, check_package, check_import, check_cmd_import, check_cmd_package, alias_warning,
}
use go_arch_guard.Dependency.Isolation.Table.{
  broken, between_domains, from_domain, from_transport, from_shared, from_orchestration,
  from_unclassified, from_outside, check_internal_import-reports,
}

abbrev ids : Severity → List String
ids severity = map (λ v. v.id) (spec severity).violations

module _ (severity : Severity) where
  abbrev AllIn : List String → Type 0
  AllIn = All (λ id. contains (ids severity) id ≡ true)

  between_domains-AllIn : (a b : String) → AllIn (between_domains a b)
  unfolding spec violation_specs contains
  between_domains-AllIn a b =
      All-if _ _ _ (not (a == "") && not (b == "") && not (a == b)) (refl, tt) tt

  from_domain-AllIn : (a b : String) (k : InternalKind) → AllIn (from_domain a b k)
  unfolding spec violation_specs contains
  from_domain-AllIn a b kind_domain = between_domains-AllIn a b
  from_domain-AllIn a b kind_domain_root = between_domains-AllIn a b
  from_domain-AllIn a b kind_orchestration = (refl, tt)
  from_domain-AllIn a b kind_app = (refl, tt)
  from_domain-AllIn a b kind_transport = (refl, tt)
  from_domain-AllIn a b _ = tt

  from_transport-AllIn : (k : InternalKind) → AllIn (from_transport k)
  unfolding spec violation_specs contains
  from_transport-AllIn kind_domain = (refl, tt)
  from_transport-AllIn kind_domain_root = (refl, tt)
  from_transport-AllIn kind_orchestration = (refl, tt)
  from_transport-AllIn kind_unclassified = (refl, tt)
  from_transport-AllIn _ = tt

  from_shared-AllIn : (k : InternalKind) → AllIn (from_shared k)
  unfolding spec violation_specs contains
  from_shared-AllIn kind_domain = (refl, tt)
  from_shared-AllIn kind_domain_root = (refl, tt)
  from_shared-AllIn kind_orchestration = (refl, tt)
  from_shared-AllIn _ = tt

  from_orchestration-AllIn : (alias : Bool) (k : InternalKind) → AllIn (from_orchestration alias k)
  unfolding spec violation_specs contains
  from_orchestration-AllIn alias kind_domain = All-if _ _ _ alias (refl, tt) tt
  from_orchestration-AllIn alias _ = tt

  from_unclassified-AllIn : (k : InternalKind) → AllIn (from_unclassified k)
  unfolding spec violation_specs contains
  from_unclassified-AllIn kind_domain = (refl, tt)
  from_unclassified-AllIn kind_domain_root = (refl, tt)
  from_unclassified-AllIn kind_orchestration = (refl, tt)
  from_unclassified-AllIn _ = tt

  from_outside-AllIn : (k : InternalKind) → AllIn (from_outside k)
  unfolding spec violation_specs contains
  from_outside-AllIn kind_orchestration = (refl, tt)
  from_outside-AllIn _ = tt

  broken-AllIn :
      (alias : Bool) (k : InternalKind) (a : String) (k' : InternalKind) (b : String)
      → AllIn (broken alias k a k' b)
  broken-AllIn alias kind_domain a k' b = from_domain-AllIn a b k'
  broken-AllIn alias kind_domain_root a k' b = from_domain-AllIn a b k'
  broken-AllIn alias kind_transport a k' b = from_transport-AllIn k'
  broken-AllIn alias kind_shared a k' b = from_shared-AllIn k'
  broken-AllIn alias kind_orchestration a k' b = from_orchestration-AllIn alias k'
  broken-AllIn alias kind_unclassified a k' b = from_unclassified-AllIn k'
  broken-AllIn alias kind_app a k' b = from_outside-AllIn k'
  broken-AllIn alias kind_cmd a k' b = from_outside-AllIn k'

  abbrev IsEmitted : Violation → Type 0
  IsEmitted v = Admits (spec severity) v.rule

  Admits-of_contains : (id : String) → contains (ids severity) id ≡ true → Admits (spec severity) id
  Admits-of_contains id h = inl (inr ((contains_iff (ids severity) id).0 h))

  All-of_rules : (vs : List Violation) → AllIn (map (λ v. v.rule) vs) → All IsEmitted vs
  All-of_rules [] h = tt
  All-of_rules (v ∷ vs) (p, h) = (Admits-of_contains v.rule p, All-of_rules vs h)

  module _ (host : Host) where
    check_import-Emitted :
        (pkg : Package) (src : Classified) (arch : Architecture) (root prefix path : String)
        → All IsEmitted (check_import host severity pkg src arch root prefix path)
    unfolding check_import
    check_import-Emitted pkg src arch root prefix path =
        let imp = classify_internal_package arch path prefix in
        All-if IsEmitted _ _ (not (has_prefix path prefix)) tt (
          All-of_rules _ (
            subst AllIn
              (sym (check_internal_import-reports host severity pkg arch path root prefix src imp))
              (broken-AllIn arch.structure.require_alias src.kind src.domain imp.kind imp.domain)))

    check_cmd_import-Emitted :
        (pkg : Package) (arch : Architecture) (root prefix path : String)
        → All IsEmitted (check_cmd_import host severity pkg arch root prefix path)
    unfolding check_cmd_import spec violation_specs contains
    check_cmd_import-Emitted pkg arch root prefix path =
        let imp = classify_internal_package arch path prefix in
        All-if IsEmitted _ _ (not (has_prefix path prefix)) tt (
          All-if IsEmitted _ _ (not (kind_eq imp.kind kind_domain)) tt
            (Admits-of_contains "dependency.cmd-deep-import" refl, tt))

    check_package-Emitted :
        (ctx : Context) (arch : Architecture) (project_module root prefix : String) (pkg : Package)
        → All IsEmitted (check_package host severity ctx arch project_module root prefix pkg)
    unfolding check_package check_cmd_package
    check_package-Emitted ctx arch project_module root prefix pkg =
        let src = classify_internal_package arch pkg.pkg_path prefix in
        All-if IsEmitted _ _ (is_excluded_package ctx pkg.pkg_path project_module) tt (
          All-if IsEmitted _ _
            (pkg.pkg_path == (project_module ^^ "/cmd")
              || has_prefix pkg.pkg_path ((project_module ^^ "/cmd") ^^ "/"))
            (All-if IsEmitted _ _ (not arch.structure.require_alias) tt (
              All-flat_map IsEmitted _ pkg.imports
                λ path m. check_cmd_import-Emitted pkg arch root prefix path))
            (All-if IsEmitted _ _ (not (has_prefix pkg.pkg_path prefix)) tt (
              All-if IsEmitted _ _ (kind_eq src.kind kind_app) tt (
                All-flat_map IsEmitted _ pkg.imports
                  λ path m. check_import-Emitted pkg src arch root prefix path))))

    -- Every violation that the rule emits has an ID that its catalog declares, or a meta ID, so that
    -- `Run` never replaces it by one on an undeclared ID.
    pub isolation_check-AllEmitted :
        (ctx : Context) → All (λ v. Admits (spec severity) v.rule) (check host severity ctx)
    unfolding check alias_warning meta_rule_disabled_by_config meta_layout_not_supported has_prefix
    isolation_check-AllEmitted ctx =
        let arch = context_arch ctx in
        let project_module = resolve_module_from_context ctx "" in
        All-if IsEmitted _ _ (arch.layout.domain_dir == "") (inr refl, tt)
          (All-if IsEmitted _ _ (not (is_nil (validate_module host.format ctx.pkgs project_module)))
            (validate_module-Admits host.format (spec severity) ctx.pkgs project_module)
            (All-if IsEmitted _ _
              (not (has_internal_packages ctx.pkgs project_module arch.layout.internal_root))
              (inr refl, tt)
              (All-append IsEmitted _ _
                (All-if IsEmitted _ _ arch.structure.require_alias tt (inr refl, tt))
                (All-flat_map IsEmitted _ ctx.pkgs λ pkg m.
                  check_package-Emitted ctx arch project_module (resolve_root_from_context ctx "") _
                    pkg))))
