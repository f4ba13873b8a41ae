-- ===== src/Dependency/LayerDirection/Emitted.antt =====
-- The IDs that the rule `dependency.layer-direction` emits, against its catalog.
use go_arch_guard.Prelude.{
  String, true, not, ◌&&◌, ◌||◌, List, ◌==◌, ◌≡◌, inl, inr, refl, Map, lookup, Option-cases, All,
  All-if, All-flat_map, contains, contains_iff, has_prefix, flag, map, is_nil,
}
use go_arch_guard.Core.Violation.{Severity, Violation}
use go_arch_guard.Core.Architecture.{Architecture}
use go_arch_guard.Core.Context.{Package, Context, context_arch}
use go_arch_guard.Core.Runner.Declared.{Admits}
use go_arch_guard.Analysis.Packages.{Host, resolve_module_from_context, resolve_root_from_context}
use go_arch_guard.Analysis.Sublayer.{is_known_sublayer}
use go_arch_guard.Dependency.Classify.Metas.{validate_module-Admits}
use go_arch_guard.Dependency.Classify.{
  kind_domain, kind_orchestration, kind_shared, kind_unclassified, kind_eq, Classified,
  classify_internal_package, is_excluded_package, meta_layout_not_supported, validate_module,
  has_internal_packages, violation_specs,
}
use go_arch_guard.Dependency.LayerDirection.{
  spec, check_direction, check_domain_import, check_domain_package, check_domain, check_flat_import,
  check_flat_package, check_flat, check,
}

module _ (severity : Severity) where
  abbrev IsEmitted : Violation → Type 0
  IsEmitted v = Admits (spec severity) v.rule

  Admits-of_contains :
      (id : String)
      → contains (map (λ v. v.id) (spec severity).violations) id ≡ true
      → Admits (spec severity) id
  Admits-of_contains id h = inl (inr ((contains_iff _ id).0 h))

  direction_admitted : Admits (spec severity) "dependency.invalid-import-direction"
  unfolding spec violation_specs contains
  direction_admitted = Admits-of_contains "dependency.invalid-import-direction" refl

  pkg_admitted : Admits (spec severity) "dependency.inner-imports-pkg"
  unfolding spec violation_specs contains
  pkg_admitted = Admits-of_contains "dependency.inner-imports-pkg" refl

  unknown_admitted : Admits (spec severity) "dependency.unknown-sublayer"
  unfolding spec violation_specs contains
  unknown_admitted = Admits-of_contains "dependency.unknown-sublayer" refl

  module _ (host : Host) where
    check_direction-Emitted :
        (pkg : Package) (root path : String) (direction : Map (List String)) (domain a b : String)
        → All IsEmitted (check_direction host severity pkg root path direction domain a b)
    unfolding check_direction
    check_direction-Emitted pkg root path direction domain a b =
        All-if IsEmitted _ _ (b == "" || a == b) tt (elim (Option-cases (lookup direction a)) [
          | inl e ↦ rw e tt
          | inr (allowed, e) ↦
              rw e (All-if IsEmitted _ _ (contains allowed b) tt (direction_admitted, tt))
        ])

    check_domain_import-Emitted :
        (arch : Architecture) (pkg : Package) (src : Classified) (root prefix path : String)
        → All IsEmitted (check_domain_import host severity arch pkg src root prefix path)
    unfolding check_domain_import
    check_domain_import-Emitted arch pkg src root prefix path =
        let imp = classify_internal_package arch path prefix in
        All-if IsEmitted _ _ (not (has_prefix path prefix)) tt (
          All-if IsEmitted _ _ (kind_eq imp.kind kind_shared)
            (All-if IsEmitted _ _ (flag arch.layers.pkg_restricted src.sublayer) (pkg_admitted, tt)
              tt)
            (All-if IsEmitted _ _
              (kind_eq imp.kind kind_orchestration || kind_eq imp.kind kind_unclassified) tt
              (All-if IsEmitted _ _ (not (imp.domain == src.domain)) tt (
                All-if IsEmitted _ _
                  (not (imp.sublayer == "") && not (is_known_sublayer arch.layers imp.sublayer))
                  (unknown_admitted, tt)
                  (check_direction-Emitted pkg root path arch.layers.direction src.domain
                    src.sublayer imp.sublayer)))))

    check_domain_package-Emitted :
        (ctx : Context) (arch : Architecture) (project_module root prefix : String) (pkg : Package)
        → All IsEmitted (check_domain_package host severity ctx arch project_module root prefix pkg)
    unfolding check_domain_package
    check_domain_package-Emitted ctx arch project_module root prefix pkg =
        let src = classify_internal_package arch pkg.pkg_path prefix in
        All-if IsEmitted _ _
          (is_excluded_package ctx pkg.pkg_path project_module
            || not (has_prefix pkg.pkg_path prefix))
          tt
          (All-if IsEmitted _ _ (not (kind_eq src.kind kind_domain)) tt (
            All-if IsEmitted _ _
              (not (src.sublayer == "") && not (is_known_sublayer arch.layers src.sublayer))
              (unknown_admitted, tt)
              (All-flat_map IsEmitted _ pkg.imports
                λ path m. check_domain_import-Emitted arch pkg src root prefix path)))

    check_flat_import-Emitted :
        (arch : Architecture) (pkg : Package) (src : Classified) (root prefix path : String)
        → All IsEmitted (check_flat_import host severity arch pkg src root prefix path)
    unfolding check_flat_import
    check_flat_import-Emitted arch pkg src root prefix path =
        let imp = classify_internal_package arch path prefix in
        All-if IsEmitted _ _ (not (has_prefix path prefix)) tt (
          All-if IsEmitted _ _ (kind_eq imp.kind kind_shared)
            (All-if IsEmitted _ _ (flag arch.layers.pkg_restricted src.sublayer) (pkg_admitted, tt)
              tt)
            (All-if IsEmitted _ _
              (kind_eq imp.kind kind_orchestration || kind_eq imp.kind kind_unclassified) tt
              (check_direction-Emitted pkg root path arch.layers.direction "" src.sublayer
                imp.sublayer)))

    check_flat_package-Emitted :
        (ctx : Context) (arch : Architecture) (project_module root prefix : String) (pkg : Package)
        → All IsEmitted (check_flat_package host severity ctx arch project_module root prefix pkg)
    unfolding check_flat_package
    check_flat_package-Emitted ctx arch project_module root prefix pkg =
        let src = classify_internal_package arch pkg.pkg_path prefix in
        All-if IsEmitted _ _
          (is_excluded_package ctx pkg.pkg_path project_module
            || not (has_prefix pkg.pkg_path prefix))
          tt
          (All-if IsEmitted _ _ (not (kind_eq src.kind kind_domain)) tt (
            All-flat_map IsEmitted _ pkg.imports
              λ path m. check_flat_import-Emitted arch pkg src root prefix path))

    -- Every violation that the rule emits, on a domain or a flat layout, has an ID that its catalog
    -- declares, or a meta ID, so that `Run` never replaces it by one on an undeclared ID.
    pub layer_check-AllEmitted :
        (ctx : Context) → All (λ v. Admits (spec severity) v.rule) (check host severity ctx)
    unfolding check check_domain check_flat meta_layout_not_supported has_prefix
    layer_check-AllEmitted ctx =
        let arch = context_arch ctx in
        let project_module = resolve_module_from_context ctx "" in
        let root = resolve_root_from_context ctx "" in
        All-if IsEmitted _ _ (not (is_nil (validate_module host.format ctx.pkgs project_module)))
          (validate_module-Admits host.format (spec severity) ctx.pkgs project_module)
          (All-if IsEmitted _ _
            (not (has_internal_packages ctx.pkgs project_module arch.layout.internal_root))
            (inr refl, tt)
            (All-if IsEmitted _ _ (arch.layout.domain_dir == "")
              (All-flat_map IsEmitted _ ctx.pkgs
                λ pkg m. check_flat_package-Emitted ctx arch project_module root _ pkg)
              (All-flat_map IsEmitted _ ctx.pkgs
                λ pkg m. check_domain_package-Emitted ctx arch project_module root _ pkg)))
