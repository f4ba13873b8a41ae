-- ===== src/Dependency/LayerDirection/Allowed.antt =====
-- Which imports the rule `dependency.layer-direction` accepts.
use go_arch_guard.Prelude.{
  String, true, false, not, ◌&&◌, ◌||◌, Option, none, some, List, [], ◌==◌, ◌^^◌, ◌≡◌, ◌↔◌, ◌⊎◌,
  inl, inr, refl, sym, subst, Map, lookup, contains_iff, flag, has_prefix, All, In, arith, eq_iff,
  Option-cases, flat_map-nil_iff, skip-nil_iff, open-nil_iff, branch-nil_iff, report-nil_iff,
  unless-nil_iff,
}
use go_arch_guard.Core.Violation.{Severity}
use go_arch_guard.Core.Architecture.{Architecture}
use go_arch_guard.Core.Context.{Package, Context, context_arch}
use go_arch_guard.Analysis.Packages.{Host, resolve_module_from_context, resolve_root_from_context}
use go_arch_guard.Analysis.Sublayer.{is_known_sublayer}
use go_arch_guard.Dependency.Classify.{
  kind_domain, kind_orchestration, kind_shared, kind_unclassified, kind_eq, Classified,
  classify_internal_package, is_excluded_package, validate_module, has_internal_packages,
}
use go_arch_guard.Dependency.LayerDirection.{
  check_direction, check_domain_import, check_domain_package, check_domain, check,
}

-- where there is an entry, it names the layer
abbrev pub Names : Option (List String) → String → Type 0
Names none b = Unit
Names (some allowed) b = In b allowed

-- an import between two sublayers of one domain; an empty name is the root of the domain
abbrev pub Directed : Map (List String) → String → String → Type 0
Directed direction a b = (b ≡ "") ⊎ ((a ≡ b) ⊎ Names (lookup direction a) b)

-- an import inside one domain: the sublayer imported is known, or the root, and the direction is kept
abbrev pub Inner : Architecture → Classified → Classified → Type 0
Inner arch src imp =
    ((not (imp.sublayer == "") && not (is_known_sublayer arch.layers imp.sublayer)) ≡ false)
    × Directed arch.layers.direction src.sublayer imp.sublayer

abbrev pub ImportKeeps : Architecture → String → Classified → String → Type 0
ImportKeeps arch prefix src path =
    let imp = classify_internal_package arch path prefix in
    has_prefix path prefix ≡ true
    → (kind_eq imp.kind kind_shared ≡ true → flag arch.layers.pkg_restricted src.sublayer ≡ false)
      × (kind_eq imp.kind kind_shared ≡ false
          → (kind_eq imp.kind kind_orchestration || kind_eq imp.kind kind_unclassified) ≡ false
          → (imp.domain == src.domain) ≡ true
          → Inner arch src imp)

abbrev pub Keeps : Context → Architecture → String → String → Package → Type 0
Keeps ctx arch project_module prefix pkg =
    let src = classify_internal_package arch pkg.pkg_path prefix in
    (is_excluded_package ctx pkg.pkg_path project_module || not (has_prefix pkg.pkg_path prefix))
      ≡ false
    → kind_eq src.kind kind_domain ≡ true
    → ((not (src.sublayer == "") && not (is_known_sublayer arch.layers src.sublayer)) ≡ false)
      × All (ImportKeeps arch prefix src) pkg.imports

module _ (host : Host) (severity : Severity) where
  -- `check_direction` finds nothing exactly when the import is to the root of the domain, stays in
  -- its sublayer, or goes to a sublayer that the entry of `Direction` names, if there is an entry.
  pub check_direction-nil_iff :
      (pkg : Package) (root path : String) (direction : Map (List String)) (domain a b : String)
      → (check_direction host severity pkg root path direction domain a b ≡ [])
        ↔ Directed direction a b
  unfolding check_direction
  check_direction-nil_iff pkg root path direction domain a b =
      elim (Option-cases (lookup direction a)) [
        | inl n ↦ rw n (ground (arith, eq_iff a b, eq_iff b ""))
        | inr (allowed, e) ↦ rw e (ground (arith, eq_iff a b, eq_iff b "", contains_iff allowed b))
      ]

  check_domain_import-nil_iff :
      (arch : Architecture) (pkg : Package) (src : Classified) (root prefix path : String)
      → (check_domain_import host severity arch pkg src root prefix path ≡ [])
        ↔ ImportKeeps arch prefix src path
  unfolding check_domain_import
  check_domain_import-nil_iff arch pkg src root prefix path =
      let imp = classify_internal_package arch path prefix in
      open-nil_iff (has_prefix path prefix) (
        branch-nil_iff (kind_eq imp.kind kind_shared)
          (unless-nil_iff (flag arch.layers.pkg_restricted src.sublayer) _)
          (skip-nil_iff (kind_eq imp.kind kind_orchestration || kind_eq imp.kind kind_unclassified)
            (open-nil_iff (imp.domain == src.domain) (
              report-nil_iff
                (not (imp.sublayer == "") && not (is_known_sublayer arch.layers imp.sublayer)) _
                (check_direction-nil_iff pkg root path arch.layers.direction src.domain src.sublayer
                  imp.sublayer)))))

  check_domain_package-nil_iff :
      (ctx : Context) (arch : Architecture) (project_module root prefix : String) (pkg : Package)
      → (check_domain_package host severity ctx arch project_module root prefix pkg ≡ [])
        ↔ Keeps ctx arch project_module prefix pkg
  unfolding check_domain_package
  check_domain_package-nil_iff ctx arch project_module root prefix pkg =
      let src = classify_internal_package arch pkg.pkg_path prefix in
      skip-nil_iff
        (is_excluded_package ctx pkg.pkg_path project_module
          || not (has_prefix pkg.pkg_path prefix))
        (open-nil_iff (kind_eq src.kind kind_domain) (
          report-nil_iff
            (not (src.sublayer == "") && not (is_known_sublayer arch.layers src.sublayer)) _
            (flat_map-nil_iff (check_domain_import host severity arch pkg src root prefix)
              (ImportKeeps arch prefix src) (check_domain_import-nil_iff arch pkg src root prefix)
              pkg.imports)))

  layer_check-runs :
      (ctx : Context)
      → let arch = context_arch ctx in
        let project_module = resolve_module_from_context ctx "" in
        let prefix = project_module ^^ "/" ^^ arch.layout.internal_root ^^ "/" in
        (arch.layout.domain_dir == "") ≡ false
        → validate_module host.format ctx.pkgs project_module ≡ []
        → has_internal_packages ctx.pkgs project_module arch.layout.internal_root ≡ true
        → check host severity ctx
          ≡ check_domain host severity ctx project_module (resolve_root_from_context ctx "") prefix
  unfolding check
  layer_check-runs ctx dir known internal = rw (known, internal, dir) refl

  -- In a project with a domain directory, a module that its packages belong to and internal packages,
  -- the rule finds nothing exactly when every package of a domain that is not excluded lies in a
  -- known sublayer, and imports shared code only where its sublayer is not restricted, and its own
  -- domain only at the root or at known sublayers that the entry of `Direction` allows.
  pub layer_check-nil_iff :
      (ctx : Context)
      → let arch = context_arch ctx in
        let project_module = resolve_module_from_context ctx "" in
        let prefix = project_module ^^ "/" ^^ arch.layout.internal_root ^^ "/" in
        (arch.layout.domain_dir == "") ≡ false
        → validate_module host.format ctx.pkgs project_module ≡ []
        → has_internal_packages ctx.pkgs project_module arch.layout.internal_root ≡ true
        → (check host severity ctx ≡ []) ↔ All (Keeps ctx arch project_module prefix) ctx.pkgs
  unfolding check_domain
  layer_check-nil_iff ctx dir known internal =
      let arch = context_arch ctx in
      let project_module = resolve_module_from_context ctx "" in
      let root = resolve_root_from_context ctx "" in
      let prefix = project_module ^^ "/" ^^ arch.layout.internal_root ^^ "/" in
      subst (λ found. (found ≡ []) ↔ All (Keeps ctx arch project_module prefix) ctx.pkgs)
        (sym (layer_check-runs ctx dir known internal))
        (flat_map-nil_iff (check_domain_package host severity ctx arch project_module root prefix)
          (Keeps ctx arch project_module prefix)
          (check_domain_package-nil_iff ctx arch project_module root prefix) ctx.pkgs)
