-- ===== src/Dependency/SideEffects/Inspected.antt =====
-- Which packages the rule looks into, and when it knows the module.
use go_arch_guard.Prelude.{
  String, Bool, true, false, ◌==◌, ◌^^◌, ◌++◌, Option, none, some, List, [], ◌∷◌, ◌≡◌, ◌≢◌, ◌↔◌,
  ◌⊎◌, inl, inr, refl, sym, ap, subst, ◌||◌, In, has_prefix, has_prefix_iff, cut_prefix,
  cut_prefix-append, eq-append_of_cut_prefix, arith, eq_iff, Map,
}
use go_arch_guard.Prelude.Order.{str_lt}
use go_arch_guard.Prelude.Sort.{In-sort_iff}
use go_arch_guard.Prelude.Search.{any_iff}
use go_arch_guard.Prelude.Split.{split_slash}
use go_arch_guard.Core.Violation.{Format}
use go_arch_guard.Core.Architecture.{Architecture}
use go_arch_guard.Core.Context.{Package}
use go_arch_guard.Analysis.Packages.{project_relative_package_path}
use go_arch_guard.Dependency.Options.{RuleConfig}
use go_arch_guard.Dependency.SideEffects.{
  restricted_layers, inspected_layers, matches_path_prefix, matches_layer, root_or_internal,
  below_domain, is_layer_path, is_inspected_layer_package, validate_side_effect_module,
}

-- the layer is configured, or is one that the architecture restricts, or one of the usual four
abbrev pub IsInspected : RuleConfig → Architecture → String → Type 0
IsInspected cfg arch layer =
    ((cfg.inspected_layers ≢ []) × In layer cfg.inspected_layers)
    ⊎ ((cfg.inspected_layers ≡ [])
        × (((arch.layers.pkg_restricted ≢ []) × In (layer, true) arch.layers.pkg_restricted)
            ⊎ ((arch.layers.pkg_restricted ≡ [])
                × ((layer ≡ "core/model")
                    ⊎ (layer ≡ "entity")
                    ⊎ (layer ≡ "domain")
                    ⊎ (layer ≡ "event")))))

restricted_layers_iff :
    (m : Map Bool) (layer : String) → In layer (restricted_layers m) ↔ In (layer, true) m
unfolding restricted_layers
restricted_layers_iff [] layer = (λ h. h, λ h. h)
restricted_layers_iff ((l, true) ∷ m) layer =
    let (down, up) = restricted_layers_iff m layer in
    (
      λ h. elim h [ inl e ↦ inl (ap (λ k. (k, true)) e) | inr k ↦ inr (down k) ],
      λ h. elim h [ inl e ↦ inl (ap (λ k. k.0) e) | inr k ↦ inr (up k) ],
    )
restricted_layers_iff ((l, false) ∷ m) layer =
    let (down, up) = restricted_layers_iff m layer in
    (λ h. inr (down h), λ h. elim h [ inl e ↦ absurd (cc (ap (λ k. k.1) e)) | inr k ↦ up k ])

pub inspected_layers_iff :
    (cfg : RuleConfig) (arch : Architecture) (layer : String)
    → In layer (inspected_layers cfg arch) ↔ IsInspected cfg arch layer
unfolding inspected_layers
inspected_layers_iff cfg arch layer = ground (
  arith,
  In-sort_iff str_lt layer (restricted_layers arch.layers.pkg_restricted),
  restricted_layers_iff arch.layers.pkg_restricted layer,
)

matches_path_prefix_iff :
    (parts want : List String)
    → (matches_path_prefix parts want ≡ true) ↔ ((rest : List String) × (parts ≡ want ++ rest))
unfolding matches_path_prefix
matches_path_prefix_iff parts [] = (λ h. (parts, refl), λ h. refl)
matches_path_prefix_iff [] (w ∷ want) = (λ h. absurd (cc h), λ (r, e). absurd (cc e))
matches_path_prefix_iff (p ∷ parts) (w ∷ want) =
    let (down, up) = matches_path_prefix_iff parts want in
    (
      λ h. let (rest, e) = down (ground arith) in (rest, ground (arith, eq_iff p w, e)),
      λ (rest, e). ground (arith, eq_iff p w, up (rest, ground (arith, e)), e),
    )

-- The path `after`, below the root, is in the layer, of some domain where domains have a directory.
abbrev pub LiesIn : String → String → String → Type 0
LiesIn domain_dir layer after =
    ((domain_dir ≡ "") × ((rest : List String) × (split_slash after ≡ split_slash layer ++ rest)))
    ⊎ ((domain_dir ≢ "")
        × ((domain : String) × (rest : List String) × (split_slash after
              ≡ domain_dir ∷ domain ∷ (split_slash layer ++ rest))))

below_domain_iff :
    (parts : List String) (domain_dir : String) (want : List String)
    → (below_domain parts domain_dir want ≡ true)
      ↔ ((domain : String) × (rest : List String) × (parts ≡ domain_dir ∷ domain ∷ (want ++ rest)))
below_domain_iff [] domain_dir want = (λ h. absurd (cc h), λ (n, r, e). absurd (cc e))
below_domain_iff (d ∷ []) domain_dir want = (λ h. absurd (cc h), λ (n, r, e). absurd (cc e))
below_domain_iff (d ∷ name ∷ rest) domain_dir want =
    let (down, up) = matches_path_prefix_iff rest want in
    (
      λ h. let (r, e) = down (ground arith) in (name, r, ground (arith, eq_iff d domain_dir, e)),
      λ (n, r, e). ground (arith, eq_iff d domain_dir, up (r, ground (arith, e)), e),
    )

matches_layer_iff :
    (after domain_dir layer : String)
    → (matches_layer (split_slash after) domain_dir layer ≡ true) ↔ LiesIn domain_dir layer after
unfolding matches_layer
matches_layer_iff after domain_dir layer = ground (
  arith,
  eq_iff domain_dir "",
  below_domain_iff (split_slash after) domain_dir (split_slash layer),
  matches_path_prefix_iff (split_slash after) (split_slash layer),
)

-- The package lies in an inspected layer of the project's module, below the internal root.
abbrev pub IsLookedAt : RuleConfig → Architecture → String → Package → Type 0
IsLookedAt cfg arch project_module pkg =
    let rel = project_relative_package_path pkg.pkg_path project_module in
    (project_module ≢ "")
    × (rel ≢ "")
    × (rel ≢ ".")
    × ((after : String) × (rel ≡ (root_or_internal arch.layout.internal_root ^^ "/") ^^ after)
        × ((layer : String) × IsInspected cfg arch layer
            × LiesIn arch.layout.domain_dir layer after))

some_injective : {a b : String} → some a ≡ some b → a ≡ b
some_injective e = cc e

cut_prefix_iff : (p s r : String) → (cut_prefix p s ≡ some r) ↔ (s ≡ p ^^ r)
cut_prefix_iff p s r = (eq-append_of_cut_prefix p s r, λ e. rw e (cut_prefix-append p r))

module _ (cfg : RuleConfig) (arch : Architecture) where
  is_layer_path_iff :
      (o : Option String)
      → (is_layer_path (inspected_layers cfg arch) arch.layout.domain_dir o ≡ true) ↔ (
          (after : String) × (o ≡ some after)
          × ((layer : String) × IsInspected cfg arch layer
              × LiesIn arch.layout.domain_dir layer after))
  is_layer_path_iff none = (λ h. absurd (cc h), λ (after, e, found). absurd (cc e))
  is_layer_path_iff (some after) =
      let dir = arch.layout.domain_dir in
      let search =
        any_iff (λ layer. matches_layer (split_slash after) dir layer)
          (inspected_layers cfg arch) in
      (
        λ h.
            let (layer, m, k) = search.0 h in
            (
              after,
              refl,
              (
                layer,
                (inspected_layers_iff cfg arch layer).0 m,
                (matches_layer_iff after dir layer).0 k,
              ),
            ),
        λ (a, e, found). search.1 (
          found.0,
          (inspected_layers_iff cfg arch found.0).1 found.1,
          (matches_layer_iff after dir found.0).1
              (subst (LiesIn dir found.0) (some_injective (sym e)) found.2),
        ),
      )

  pub is_inspected_layer_package_iff :
      (pkg : Package) (project_module : String)
      → (is_inspected_layer_package pkg project_module arch.layout (inspected_layers cfg arch)
          ≡ true)
        ↔ IsLookedAt cfg arch project_module pkg
  unfolding is_inspected_layer_package
  is_inspected_layer_package_iff pkg project_module =
      let rel = project_relative_package_path pkg.pkg_path project_module in
      let prefix = root_or_internal arch.layout.internal_root ^^ "/" in
      let (down, up) = is_layer_path_iff (cut_prefix prefix rel) in
      (
        λ h.
            let (after, e, found) = down (ground (arith, h)) in
            (
              ground (arith, h, eq_iff project_module ""),
              ground (arith, h, eq_iff rel ""),
              ground (arith, h, eq_iff rel "."),
              (after, eq-append_of_cut_prefix prefix rel after e, found),
            ),
        λ (a, b, c, d).
            let path = up (d.0, (cut_prefix_iff prefix rel d.0).1 d.1, d.2) in
            ground (arith, a, b, c, eq_iff project_module "", eq_iff rel "", eq_iff rel ".", path),
      )

-- The module has a name, and some package of the project is it or lies below it.
abbrev pub IsModuleKnown : List Package → String → Type 0
IsModuleKnown pkgs project_module =
    (project_module ≢ "")
    × ((pkg : Package) × In pkg pkgs
        × ((pkg.pkg_path ≡ project_module)
            ⊎ ((r : String) × (pkg.pkg_path ≡ (project_module ^^ "/") ^^ r))))

pub validate_side_effect_module-nil_iff :
    (fmt : Format) (pkgs : List Package) (project_module : String)
    → (validate_side_effect_module fmt pkgs project_module ≡ []) ↔ IsModuleKnown pkgs project_module
unfolding validate_side_effect_module
validate_side_effect_module-nil_iff fmt pkgs m =
    let belongs = λ (pkg : Package). pkg.pkg_path == m || has_prefix pkg.pkg_path (m ^^ "/") in
    let (down, up) = any_iff belongs pkgs in
    (
      λ h.
          let (pkg, at, k) = down (ground (arith, h)) in
          (
            ground (arith, h, eq_iff m ""),
            (
              pkg,
              at,
              ground (arith, k, eq_iff pkg.pkg_path m, has_prefix_iff pkg.pkg_path (m ^^ "/")),
            ),
          ),
      λ (ne, found).
          let k : belongs found.0 ≡ true = ground (
            arith,
            found.2,
            eq_iff found.0.pkg_path m,
            has_prefix_iff found.0.pkg_path (m ^^ "/"),
          ) in
          let some_belongs = up (found.0, found.1, k) in
          ground (arith, ne, eq_iff m "", some_belongs),
    )
