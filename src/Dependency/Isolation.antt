-- ===== src/Dependency/Isolation.antt =====
-- rules/dependency/isolation.go: the rule `dependency.isolation`. `severity` is the one that
-- `NewIsolation` took from its options; the map `Imports` is met in the order of its list of keys.
pub mod Import
pub mod Table
pub mod Matrix
pub mod Report
pub mod Emitted
use go_arch_guard.Prelude.{
  ℕ, String, Bool, true, false, not, ◌&&◌, ◌||◌, List, [], ◌∷◌, ◌++◌, ◌==◌, ◌^^◌, has_prefix,
  flat_map, is_nil, if◌then◌else◌,
}
use go_arch_guard.Core.Violation.{Severity, Format, Violation, RuleSpec}
use go_arch_guard.Core.Architecture.{Architecture, LayoutModel}
use go_arch_guard.Core.Context.{Package, Context, context_arch}
use go_arch_guard.Analysis.Packages.{
  Host, find_import_position, resolve_module_from_context, resolve_root_from_context,
}
use go_arch_guard.Dependency.Classify.{
  kind_eq, InternalKind, kind_domain, kind_orchestration, kind_shared, kind_domain_root, kind_cmd,
  kind_unclassified, kind_app, kind_transport, Classified, classify_internal_package,
  is_orchestration_handler_with, is_excluded_package, meta_rule_disabled_by_config,
  meta_layout_not_supported, validate_module, has_internal_packages, violation_specs,
}
use Import.{
  is_domain_kind, is_same_domain, is_cross_domain, violation, check_transport_import,
  stray_domain_violation, cross_domain_violation, check_orchestration_dependent,
  check_shared_import, check_orchestration_deep_import, check_internal_import,
}

unfoldable pub spec : Severity → RuleSpec
unfolding violation_specs
spec severity = record {
  id = "dependency.isolation";
  description = "internal packages must respect domain isolation boundaries";
  default_severity = severity;
  violations = violation_specs severity (
      "dependency.cross-domain" ∷ "dependency.domain-imports-composition"
      ∷ "dependency.cmd-deep-import" ∷ "dependency.orchestration-deep-import"
      ∷ "dependency.pkg-imports-domain" ∷ "dependency.pkg-imports-orchestration"
      ∷ "dependency.domain-imports-orchestration" ∷ "dependency.stray-imports-orchestration"
      ∷ "dependency.stray-imports-domain" ∷ "dependency.transport-imports-domain"
      ∷ "dependency.transport-imports-orchestration" ∷ "dependency.transport-imports-unclassified"
      ∷ []);
}

module _ (host : Host) (severity : Severity) where
  -- the body of the loop of `checkCmdPackage`
  unfoldable pub check_cmd_import :
      Package → Architecture → String → String → String → List Violation
  check_cmd_import pkg arch root prefix path =
      let imp = classify_internal_package arch path prefix in
      if not (has_prefix path prefix)
      then []
      else if not (kind_eq imp.kind kind_domain)
      then []
      else violation severity (find_import_position host pkg path root) "dependency.cmd-deep-import"
          ("cmd/ must only import domain alias, not sub-package " ^^ host.format.quote path)
          ("import the domain alias package instead: " ^^ prefix ^^ arch.layout.domain_dir ^^ "/"
            ^^ imp.domain)
        ∷ []

  unfoldable pub check_cmd_package : Package → Architecture → String → String → List Violation
  unfolding check_cmd_import
  check_cmd_package pkg arch root prefix =
      if not arch.structure.require_alias
      then []
      else flat_map (check_cmd_import pkg arch root prefix) pkg.imports

  -- the bodies of the two loops of `Check`, over the imports of a package and over the packages
  unfoldable pub check_import :
      Package → Classified → Architecture → String → String → String → List Violation
  unfolding check_internal_import
  check_import pkg src arch root prefix path =
      if not (has_prefix path prefix)
      then []
      else check_internal_import host severity pkg src (classify_internal_package arch path prefix)
          path arch root prefix

  unfoldable pub check_package :
      Context → Architecture → String → String → String → Package → List Violation
  unfolding check_cmd_package check_import
  check_package ctx arch project_module root prefix pkg =
      let cmd = project_module ^^ "/cmd" in
      let src = classify_internal_package arch pkg.pkg_path prefix in
      if is_excluded_package ctx pkg.pkg_path project_module
      then []
      else if pkg.pkg_path == cmd || has_prefix pkg.pkg_path (cmd ^^ "/")
      then check_cmd_package pkg arch root prefix
      else if not (has_prefix pkg.pkg_path prefix)
      then []
      else if kind_eq src.kind kind_app
      then []
      else flat_map (check_import pkg src arch root prefix) pkg.imports

  unfoldable pub alias_warning : Architecture → List Violation
  alias_warning arch =
      if arch.structure.require_alias
      then []
      else meta_rule_disabled_by_config "dependency.isolation"
          "Structure.RequireAlias is false; dependency.cmd-deep-import and dependency.orchestration-deep-import sub-checks will not fire"
          "set Structure.RequireAlias = true to enforce alias-only imports from cmd/ and orchestration/"
        ∷ []

  unfoldable pub check : Context → List Violation
  unfolding check_package
  check ctx =
      let arch = context_arch ctx in
      let project_module = resolve_module_from_context ctx "" in
      let root = resolve_root_from_context ctx "" in
      let warns = validate_module host.format ctx.pkgs project_module in
      let prefix = project_module ^^ "/" ^^ arch.layout.internal_root ^^ "/" in
      if arch.layout.domain_dir == ""
      then meta_rule_disabled_by_config "dependency.isolation"
          "Layout.DomainDir is empty (flat layout); cross-domain isolation requires a domain directory"
          "set Layout.DomainDir to your domain root, or remove dependency.NewIsolation() from your RuleSet"
        ∷ []
      else if not (is_nil warns)
      then warns
      else if not (has_internal_packages ctx.pkgs project_module arch.layout.internal_root)
      then meta_layout_not_supported host.format "dependency.isolation" project_module ∷ []
      else alias_warning arch
        ++ flat_map (check_package ctx arch project_module root prefix) ctx.pkgs
