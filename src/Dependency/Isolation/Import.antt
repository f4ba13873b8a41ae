-- ===== src/Dependency/Isolation/Import.antt =====
-- rules/dependency/isolation.go: what the rule `dependency.isolation` says of one import.
use go_arch_guard.Prelude.{
  ℕ, String, Bool, true, false, not, ◌&&◌, ◌||◌, List, [], ◌∷◌, ◌==◌, ◌^^◌, is_nil, if◌then◌else◌,
}
use go_arch_guard.Core.Violation.{Severity, Violation}
use go_arch_guard.Core.Architecture.{Architecture, LayoutModel}
use go_arch_guard.Core.Context.{Package}
use go_arch_guard.Analysis.Packages.{Host, find_import_position}
use go_arch_guard.Dependency.Classify.{
  kind_eq, InternalKind, kind_domain, kind_orchestration, kind_shared, kind_domain_root, kind_cmd,
  kind_unclassified, kind_app, kind_transport, Classified, is_orchestration_handler_with,
}

unfoldable pub is_domain_kind : InternalKind → Bool
is_domain_kind kind_domain = true
is_domain_kind kind_domain_root = true
is_domain_kind _ = false

unfoldable pub is_same_domain : Classified → Classified → Bool
is_same_domain a b =
    is_domain_kind a.kind && is_domain_kind b.kind && not (a.domain == "") && a.domain == b.domain

unfoldable pub is_cross_domain : Classified → Classified → Bool
is_cross_domain a b =
    is_domain_kind a.kind
    && is_domain_kind b.kind
    && not (a.domain == "")
    && not (b.domain == "")
    && not (a.domain == b.domain)

-- `r.violation(file, line, rule, message, fix)`
abbrev pub violation : Severity → String × ℕ → String → String → String → Violation
violation severity (file, line) rule message fix = record {
  file = file;
  line = line;
  rule = rule;
  message = message;
  fix = fix;
  default_severity = severity;
  effective_severity = severity;
}

module _ (host : Host) (severity : Severity) where
  unfoldable pub check_transport_import :
      Package → String → String → LayoutModel → InternalKind → String → List Violation
  check_transport_import pkg root path layout kind_app name = []
  check_transport_import pkg root path layout kind_shared name = []
  check_transport_import pkg root path layout kind_transport name = []
  check_transport_import pkg root path layout kind_cmd name = []
  check_transport_import pkg root path layout kind_orchestration name =
      violation severity (find_import_position host pkg path root)
        "dependency.transport-imports-orchestration"
        ("transport package "
          ^^ host.format.quote pkg.pkg_path
          ^^ " must not import "
          ^^ layout.orchestration_dir
          ^^ " directly")
        ("transport layers should only import " ^^ layout.app_dir ^^ "/ (composition root) and "
          ^^ layout.shared_dir ^^ "/ (shared utilities)")
      ∷ []
  check_transport_import pkg root path layout kind_unclassified name =
      violation severity (find_import_position host pkg path root)
        "dependency.transport-imports-unclassified"
        ("transport package "
          ^^ host.format.quote pkg.pkg_path
          ^^ " must not import unclassified internal package "
          ^^ host.format.quote path)
        ("move the dependency into " ^^ layout.internal_root ^^ "/" ^^ layout.app_dir
          ^^ " (expose via Container), " ^^ layout.internal_root ^^ "/" ^^ layout.shared_dir
          ^^ ", or another transport package")
      ∷ []
  check_transport_import pkg root path layout _ name =
      violation severity (find_import_position host pkg path root)
        "dependency.transport-imports-domain"
        ("transport package "
          ^^ host.format.quote pkg.pkg_path
          ^^ " must not import domain "
          ^^ host.format.quote name
          ^^ " directly")
        ("import " ^^ layout.app_dir
          ^^ "/ (the app/composition root) instead of domain sub-packages directly")
      ∷ []

  unfoldable pub stray_domain_violation :
      Package → Classified → String → LayoutModel → String → List Violation
  stray_domain_violation pkg imp path layout root =
      violation severity (find_import_position host pkg path root) "dependency.stray-imports-domain"
        ("package "
          ^^ host.format.quote pkg.pkg_path
          ^^ " must not import domain "
          ^^ host.format.quote imp.domain)
        ("move domain orchestration to " ^^ layout.internal_root ^^ "/" ^^ layout.orchestration_dir
          ^^ " or app wiring to cmd/")
      ∷ []

  unfoldable pub cross_domain_violation :
      Package → Classified → Classified → String → LayoutModel → String → List Violation
  cross_domain_violation pkg src imp path layout root =
      violation severity (find_import_position host pkg path root) "dependency.cross-domain"
        ("domain "
          ^^ host.format.quote src.domain
          ^^ " must not import domain "
          ^^ host.format.quote imp.domain)
        ("use " ^^ layout.orchestration_dir
          ^^ "/ for cross-domain orchestration or move shared types to " ^^ layout.shared_dir
          ^^ "/")
      ∷ []

  unfoldable pub check_orchestration_dependent :
      Package → Classified → String → LayoutModel → String → List Violation
  check_orchestration_dependent pkg src path layout root =
      let at = find_import_position host pkg path root in
      if is_domain_kind src.kind
      then violation severity at "dependency.domain-imports-orchestration"
          ("domain "
            ^^ host.format.quote src.domain
            ^^ " must not import "
            ^^ layout.orchestration_dir)
          ("move cross-domain coordination to " ^^ layout.internal_root ^^ "/"
            ^^ layout.orchestration_dir ^^ " callers instead of domain internals")
        ∷ []
      else violation severity at "dependency.stray-imports-orchestration"
          ("package "
            ^^ host.format.quote pkg.pkg_path
            ^^ " must not import "
            ^^ layout.orchestration_dir)
          ("only cmd/ and " ^^ layout.internal_root ^^ "/" ^^ layout.orchestration_dir
            ^^ " may depend on " ^^ layout.orchestration_dir)
        ∷ []

  unfoldable pub check_shared_import :
      Package → Classified → String → LayoutModel → String → List Violation
  check_shared_import pkg imp path layout root =
      let at = find_import_position host pkg path root in
      if is_domain_kind imp.kind
      then violation severity at "dependency.pkg-imports-domain"
          (layout.shared_dir ^^ "/ must not import domain " ^^ host.format.quote imp.domain)
          (layout.shared_dir
            ^^ "/ should only contain shared utilities with no domain or orchestration dependencies")
        ∷ []
      else elim imp.kind [
        | kind_orchestration ↦
            violation severity at "dependency.pkg-imports-orchestration"
              (layout.shared_dir ^^ "/ must not import " ^^ layout.orchestration_dir)
              ("move " ^^ layout.orchestration_dir ^^ "-aware code to " ^^ layout.internal_root
                ^^ "/" ^^ layout.orchestration_dir ^^ " or cmd/")
            ∷ []
        | _ ↦ []
      ]

  unfoldable pub check_orchestration_deep_import :
      Package → Classified → String → Architecture → String → String → List Violation
  check_orchestration_deep_import pkg imp path arch root prefix =
      let dir = arch.layout.orchestration_dir in
      let label =
        if is_orchestration_handler_with arch pkg.pkg_path prefix then dir ^^ " handler" else dir in
      elim imp.kind [
        | kind_domain ↦
            if arch.structure.require_alias
            then violation severity (find_import_position host pkg path root)
                "dependency.orchestration-deep-import"
                (label
                  ^^ " must only import domain alias, not sub-package "
                  ^^ host.format.quote path)
                ("import the domain alias package instead: " ^^ prefix ^^ arch.layout.domain_dir
                  ^^ "/" ^^ imp.domain)
              ∷ []
            else []
        | _ ↦ []
      ]

  unfoldable pub check_internal_import :
      Package → Classified → Classified → String → Architecture → String → String → List Violation
  check_internal_import pkg src imp path arch root prefix =
      let layout = arch.layout in
      if is_domain_kind src.kind && (kind_eq imp.kind kind_app || kind_eq imp.kind kind_transport)
      then violation severity (find_import_position host pkg path root)
          "dependency.domain-imports-composition"
          ("domain "
            ^^ host.format.quote src.domain
            ^^ " must not import composition or transport package "
            ^^ host.format.quote path)
          "keep composition and transport outside domain packages"
        ∷ []
      else if kind_eq imp.kind kind_shared && not (kind_eq src.kind kind_shared)
      then []
      else if kind_eq src.kind kind_transport
      then check_transport_import pkg root path layout imp.kind imp.domain
      else if is_same_domain src imp
      then []
      else if kind_eq src.kind kind_orchestration
      then check_orchestration_deep_import pkg imp path arch root prefix
      else (let shared =
            if kind_eq src.kind kind_shared
            then check_shared_import pkg imp path layout root
            else [] in
          if not (is_nil shared)
          then shared
          else if kind_eq imp.kind kind_orchestration
          then check_orchestration_dependent pkg src path layout root
          else if is_cross_domain src imp
          then cross_domain_violation pkg src imp path layout root
          else if kind_eq src.kind kind_unclassified && is_domain_kind imp.kind
          then stray_domain_violation pkg imp path layout root
          else [])
