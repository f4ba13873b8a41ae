-- ===== src/Dependency/Isolation/Report.antt =====
-- When the rule `dependency.isolation` finds nothing, over all packages of a context. What it accepts
-- is wider than the import matrix of README.md: see Dependency/Isolation/Matrix and the loop over the
-- packages, which passes over app and reports of cmd only imports of subpackages of domains.
use go_arch_guard.Prelude.{
  String, Bool, true, false, ◌||◌, List, [], ◌∷◌, ◌==◌, ◌^^◌, map, ◌≡◌, ◌↔◌, ◌∙◌, refl, subst, sym,
  arith, All, has_prefix, flat_map, flat_map-nil_iff, skip-nil_iff, open-nil_iff, branch-nil_iff,
}
use go_arch_guard.Core.Violation.{Severity}
use go_arch_guard.Core.Architecture.{Architecture}
use go_arch_guard.Core.Context.{Package, Context, context_arch}
use go_arch_guard.Analysis.Packages.{Host, resolve_module_from_context, resolve_root_from_context}
use go_arch_guard.Dependency.Classify.{
  kind_domain, kind_app, kind_eq, Classified, classify_internal_package, is_excluded_package,
  validate_module, has_internal_packages,
}
use go_arch_guard.Dependency.Isolation.{
  check_import, check_cmd_import, check_cmd_package, check_package, check, alias_warning,
}
use go_arch_guard.Dependency.Isolation.Import.{check_internal_import}
use go_arch_guard.Dependency.Isolation.Table.{broken, check_internal_import-reports}

-- the package is the one of the commands, or below it
abbrev is_cmd : String → Package → Bool
is_cmd project_module pkg =
    pkg.pkg_path == (project_module ^^ "/cmd")
    || has_prefix pkg.pkg_path ((project_module ^^ "/cmd") ^^ "/")

-- a command imports no subpackage of a domain
abbrev pub CmdKeeps : Architecture → String → String → Type 0
CmdKeeps arch prefix path =
    has_prefix path prefix ≡ true
    → kind_eq (classify_internal_package arch path prefix).kind kind_domain ≡ false

-- an internal package imports what the table allows it
abbrev pub ImportKeeps : Architecture → String → Classified → String → Type 0
ImportKeeps arch prefix src path =
    has_prefix path prefix ≡ true
    → let imp = classify_internal_package arch path prefix in
      broken arch.structure.require_alias src.kind src.domain imp.kind imp.domain ≡ []

-- the imports of a package that is not excluded pass the code's checks
abbrev pub Keeps : Context → Architecture → String → String → Package → Type 0
Keeps ctx arch project_module prefix pkg =
    let src = classify_internal_package arch pkg.pkg_path prefix in
    is_excluded_package ctx pkg.pkg_path project_module ≡ false
    → (is_cmd project_module pkg ≡ true → All (CmdKeeps arch prefix) pkg.imports)
      × (is_cmd project_module pkg ≡ false
          → has_prefix pkg.pkg_path prefix ≡ true
          → kind_eq src.kind kind_app ≡ false
          → All (ImportKeeps arch prefix src) pkg.imports)

map-nil_iff : {A B : Type 0} → (f : A → B) → (xs : List A) → (map f xs ≡ []) ↔ (xs ≡ [])
map-nil_iff f [] = (λ h. refl, λ h. refl)
map-nil_iff f (x ∷ xs) = (λ h. absurd (cc h), λ h. absurd (cc h))

module _ (host : Host) (severity : Severity) where
  alias_warning-nil :
      (arch : Architecture)
      → arch.structure.require_alias ≡ true
      → alias_warning host severity arch ≡ []
  unfolding alias_warning
  alias_warning-nil arch alias = rw alias refl

  check_cmd_import-nil_iff :
      (pkg : Package) (arch : Architecture) (root prefix path : String)
      → (check_cmd_import host severity pkg arch root prefix path ≡ []) ↔ CmdKeeps arch prefix path
  unfolding check_cmd_import
  check_cmd_import-nil_iff pkg arch root prefix path = ground arith

  check_import-nil_iff :
      (pkg : Package) (src : Classified) (arch : Architecture) (root prefix path : String)
      → (check_import host severity pkg src arch root prefix path ≡ [])
        ↔ ImportKeeps arch prefix src path
  unfolding check_import
  check_import-nil_iff pkg src arch root prefix path =
      let imp = classify_internal_package arch path prefix in
      let found = check_internal_import host severity pkg src imp path arch root prefix in
      let e = check_internal_import-reports host severity pkg arch path root prefix src imp in
      let m = map-nil_iff (λ v. v.rule) found in
      open-nil_iff (has_prefix path prefix) (λ h. sym e ∙ m.1 h, λ h. m.0 (e ∙ h))

  check_cmd_package-nil_iff :
      (pkg : Package) (arch : Architecture) (root prefix : String)
      → arch.structure.require_alias ≡ true
      → (check_cmd_package host severity pkg arch root prefix ≡ [])
        ↔ All (CmdKeeps arch prefix) pkg.imports
  unfolding check_cmd_package
  check_cmd_package-nil_iff pkg arch root prefix alias =
      let gate = open-nil_iff arch.structure.require_alias (
        flat_map-nil_iff (check_cmd_import host severity pkg arch root prefix)
          (CmdKeeps arch prefix) (check_cmd_import-nil_iff pkg arch root prefix) pkg.imports) in
      (λ h. gate.0 h alias, λ h. gate.1 (λ i. h))

  check_package-nil_iff :
      (ctx : Context) (arch : Architecture) (project_module root prefix : String) (pkg : Package)
      → arch.structure.require_alias ≡ true
      → (check_package host severity ctx arch project_module root prefix pkg ≡ [])
        ↔ Keeps ctx arch project_module prefix pkg
  unfolding check_package
  check_package-nil_iff ctx arch project_module root prefix pkg alias =
      let src = classify_internal_package arch pkg.pkg_path prefix in
      skip-nil_iff (is_excluded_package ctx pkg.pkg_path project_module) (
        branch-nil_iff (is_cmd project_module pkg)
          (check_cmd_package-nil_iff pkg arch root prefix alias)
          (open-nil_iff (has_prefix pkg.pkg_path prefix) (
            skip-nil_iff (kind_eq src.kind kind_app) (
              flat_map-nil_iff (check_import host severity pkg src arch root prefix)
                (ImportKeeps arch prefix src) (check_import-nil_iff pkg src arch root prefix)
                pkg.imports))))

  check-runs :
      (ctx : Context)
      → let arch = context_arch ctx in
        let project_module = resolve_module_from_context ctx "" in
        let root = resolve_root_from_context ctx "" in
        let prefix = project_module ^^ "/" ^^ arch.layout.internal_root ^^ "/" in
        (arch.layout.domain_dir == "") ≡ false
        → arch.structure.require_alias ≡ true
        → validate_module host.format ctx.pkgs project_module ≡ []
        → has_internal_packages ctx.pkgs project_module arch.layout.internal_root ≡ true
        → check host severity ctx
          ≡ flat_map (check_package host severity ctx arch project_module root prefix) ctx.pkgs
  unfolding check
  check-runs ctx dir alias known internal =
      rw (dir, known, internal, alias_warning-nil (context_arch ctx) alias) refl

  -- In a project with a domain directory, required aliases, a module that its packages belong to and
  -- internal packages, the rule finds nothing exactly when no package that is not excluded has an
  -- import that the rule is against: a command one of a subpackage of a domain, and any other internal
  -- package outside app one that the table `broken` of the code's checks lists. That is less than
  -- README.md's import matrix forbids: cmd, orchestration and shared packages may import app and
  -- transport, and app may import transport, without a violation.
  pub isolation_check-nil_iff :
      (ctx : Context)
      → let arch = context_arch ctx in
        let project_module = resolve_module_from_context ctx "" in
        let prefix = project_module ^^ "/" ^^ arch.layout.internal_root ^^ "/" in
        (arch.layout.domain_dir == "") ≡ false
        → arch.structure.require_alias ≡ true
        → validate_module host.format ctx.pkgs project_module ≡ []
        → has_internal_packages ctx.pkgs project_module arch.layout.internal_root ≡ true
        → (check host severity ctx ≡ []) ↔ All (Keeps ctx arch project_module prefix) ctx.pkgs
  isolation_check-nil_iff ctx dir alias known internal =
      let arch = context_arch ctx in
      let project_module = resolve_module_from_context ctx "" in
      let root = resolve_root_from_context ctx "" in
      let prefix = project_module ^^ "/" ^^ arch.layout.internal_root ^^ "/" in
      subst (λ found. (found ≡ []) ↔ All (Keeps ctx arch project_module prefix) ctx.pkgs)
        (sym (check-runs ctx dir alias known internal))
        (flat_map-nil_iff (check_package host severity ctx arch project_module root prefix)
          (Keeps ctx arch project_module prefix)
          (λ pkg. check_package-nil_iff ctx arch project_module root prefix pkg alias) ctx.pkgs)
