-- ===== src/Dependency/LayerDirection.antt =====
-- rules/dependency/layer_direction.go: the rule `dependency.layer-direction`. `severity` is the one
-- that `NewLayerDirection` took from its options.
pub mod Allowed
pub mod Acyclic
pub mod Emitted
use go_arch_guard.Prelude.{
  ℕ, String, Bool, true, false, not, ◌&&◌, ◌||◌, Option, none, some, List, [], ◌∷◌, ◌==◌, ◌^^◌, Map,
  lookup, contains, flag, has_prefix, flat_map, is_nil, if◌then◌else◌,
}
use go_arch_guard.Core.Violation.{Severity, Violation, RuleSpec}
use go_arch_guard.Core.Architecture.{Architecture}
use go_arch_guard.Core.Context.{Package, Context, context_arch}
use go_arch_guard.Analysis.Packages.{
  Host, find_import_position, relative_path_for_package, resolve_module_from_context,
  resolve_root_from_context,
}
use go_arch_guard.Analysis.Sublayer.{is_known_sublayer}
use go_arch_guard.Dependency.Classify.{
  kind_domain, kind_orchestration, kind_shared, kind_unclassified, kind_eq, Classified,
  classify_internal_package, is_excluded_package, meta_layout_not_supported, validate_module,
  has_internal_packages, violation_specs,
}

unfoldable pub spec : Severity → RuleSpec
unfolding violation_specs
spec severity = record {
  id = "dependency.layer-direction";
  description = "domain sublayers must import only allowed inner dependencies";
  default_severity = severity;
  violations = violation_specs severity (
      "dependency.invalid-import-direction" ∷ "dependency.inner-imports-pkg"
      ∷ "dependency.unknown-sublayer" ∷ []);
}

-- `r.violation(file, line, rule, message, fix)`
abbrev pub violation : Severity → String × ℕ → String → String → String → Violation
violation severity (file, line) rule message fix = record {
  file = file;
  line = line;
  rule = rule;
  message = message;
  fix = fix;
  default_severity = severity;
  effective_severity = severity;
}

module _ (host : Host) (severity : Severity) where
  unfoldable pub relative_package_file : Package → String
  relative_package_file pkg = elim pkg.go_files [
    | [] ↦ pkg.pkg_path
    | f ∷ fs ↦ relative_path_for_package host pkg f
  ]

  unfoldable pub check_direction :
      Package → String → String → Map (List String) → String → String → String → List Violation
  check_direction pkg root path direction domain src_sublayer imp_sublayer =
      if imp_sublayer == "" || src_sublayer == imp_sublayer
      then []
      else elim (lookup direction src_sublayer) [
        | none ↦ []
        | some allowed ↦
            if contains allowed imp_sublayer
            then []
            else (let message =
                  "sublayer "
                  ^^ host.format.quote src_sublayer
                  ^^ " must not import sublayer "
                  ^^ host.format.quote imp_sublayer in
                violation severity (find_import_position host pkg path root)
                  "dependency.invalid-import-direction"
                  (if domain == ""
                    then message
                    else message ^^ " in domain " ^^ host.format.quote domain)
                  ("allowed imports for "
                    ^^ host.format.quote src_sublayer
                    ^^ ": "
                    ^^ host.format.listing allowed)
                ∷ [])
      ]

  -- the body of the loop over the imports in `checkDomain`
  unfoldable pub check_domain_import :
      Architecture → Package → Classified → String → String → String → List Violation
  unfolding check_direction
  check_domain_import arch pkg src root prefix path =
      let imp = classify_internal_package arch path prefix in
      if not (has_prefix path prefix)
      then []
      else if kind_eq imp.kind kind_shared
      then (if flag arch.layers.pkg_restricted src.sublayer
          then violation severity (find_import_position host pkg path root)
              "dependency.inner-imports-pkg"
              ("inner sublayer "
                ^^ host.format.quote src.sublayer
                ^^ " must not import "
                ^^ arch.layout.internal_root
                ^^ "/"
                ^^ arch.layout.shared_dir
                ^^ " in domain "
                ^^ host.format.quote src.domain)
              "keep core and event layers self-contained; move shared concerns outward to app, handler, or infra"
            ∷ []
          else [])
      else if kind_eq imp.kind kind_orchestration || kind_eq imp.kind kind_unclassified
      then []
      else if not (imp.domain == src.domain)
      then []
      else if not (imp.sublayer == "") && not (is_known_sublayer arch.layers imp.sublayer)
      then violation severity (find_import_position host pkg path root)
          "dependency.unknown-sublayer"
          ("unknown sublayer "
            ^^ host.format.quote imp.sublayer
            ^^ " in domain "
            ^^ host.format.quote src.domain)
          ("use one of the supported sublayers: " ^^ host.format.listing arch.layers.sublayers)
        ∷ []
      else check_direction pkg root path arch.layers.direction src.domain src.sublayer imp.sublayer

  -- the body of the loop over the packages in `checkDomain`
  unfoldable pub check_domain_package :
      Context → Architecture → String → String → String → Package → List Violation
  unfolding check_domain_import relative_package_file
  check_domain_package ctx arch project_module root prefix pkg =
      let src = classify_internal_package arch pkg.pkg_path prefix in
      if is_excluded_package ctx pkg.pkg_path project_module || not (has_prefix pkg.pkg_path prefix)
      then []
      else if not (kind_eq src.kind kind_domain)
      then []
      else if not (src.sublayer == "") && not (is_known_sublayer arch.layers src.sublayer)
      then violation severity (relative_package_file pkg, 0) "dependency.unknown-sublayer"
          ("unknown sublayer "
            ^^ host.format.quote src.sublayer
            ^^ " in domain "
            ^^ host.format.quote src.domain)
          ("use one of the supported sublayers: " ^^ host.format.listing arch.layers.sublayers)
        ∷ []
      else flat_map (check_domain_import arch pkg src root prefix) pkg.imports

  unfoldable pub check_domain : Context → String → String → String → List Violation
  unfolding check_domain_package
  check_domain ctx project_module root prefix =
      flat_map (check_domain_package ctx (context_arch ctx) project_module root prefix) ctx.pkgs

  -- the bodies of the two loops of `checkFlat`
  unfoldable pub check_flat_import :
      Architecture → Package → Classified → String → String → String → List Violation
  unfolding check_direction
  check_flat_import arch pkg src root prefix path =
      let imp = classify_internal_package arch path prefix in
      if not (has_prefix path prefix)
      then []
      else if kind_eq imp.kind kind_shared
      then (if flag arch.layers.pkg_restricted src.sublayer
          then violation severity (find_import_position host pkg path root)
              "dependency.inner-imports-pkg"
              ("inner sublayer "
                ^^ host.format.quote src.sublayer
                ^^ " must not import "
                ^^ arch.layout.internal_root
                ^^ "/"
                ^^ arch.layout.shared_dir)
              "keep inner layers self-contained; move shared concerns to an outer layer"
            ∷ []
          else [])
      else if kind_eq imp.kind kind_orchestration || kind_eq imp.kind kind_unclassified
      then []
      else check_direction pkg root path arch.layers.direction "" src.sublayer imp.sublayer

  unfoldable pub check_flat_package :
      Context → Architecture → String → String → String → Package → List Violation
  unfolding check_flat_import
  check_flat_package ctx arch project_module root prefix pkg =
      let src = classify_internal_package arch pkg.pkg_path prefix in
      if is_excluded_package ctx pkg.pkg_path project_module || not (has_prefix pkg.pkg_path prefix)
      then []
      else if not (kind_eq src.kind kind_domain)
      then []
      else flat_map (check_flat_import arch pkg src root prefix) pkg.imports

  unfoldable pub check_flat : Context → String → String → String → List Violation
  unfolding check_flat_package
  check_flat ctx project_module root prefix =
      flat_map (check_flat_package ctx (context_arch ctx) project_module root prefix) ctx.pkgs

  unfoldable pub check : Context → List Violation
  unfolding check_domain check_flat
  check ctx =
      let arch = context_arch ctx in
      let project_module = resolve_module_from_context ctx "" in
      let root = resolve_root_from_context ctx "" in
      let warns = validate_module host.format ctx.pkgs project_module in
      let prefix = project_module ^^ "/" ^^ arch.layout.internal_root ^^ "/" in
      if not (is_nil warns)
      then warns
      else if not (has_internal_packages ctx.pkgs project_module arch.layout.internal_root)
      then meta_layout_not_supported host.format "dependency.layer-direction" project_module ∷ []
      else if arch.layout.domain_dir == ""
      then check_flat ctx project_module root prefix
      else check_domain ctx project_module root prefix
