-- ===== src/Dependency/Classify.antt =====
-- rules/dependency/isolation.go, the part that all rules of the package share: the kinds of internal
-- packages, the checks of the module, and the meta violations.
pub mod Metas
use go_arch_guard.Prelude.{
  ℕ, eqb, String, Bool, false, not, ◌&&◌, ◌||◌, List, [], ◌∷◌, ◌==◌, ◌^^◌, contains, any, map,
  has_prefix, trim_prefix, if◌then◌else◌,
}
use go_arch_guard.Prelude.Split.{split_n}
use go_arch_guard.Core.Violation.{Severity, warning, Format, Violation, ViolationSpec}
use go_arch_guard.Core.Architecture.{Architecture}
use go_arch_guard.Core.Context.{Package, Context, is_excluded}
use go_arch_guard.Analysis.Packages.{project_relative_package_path}

pub data InternalKind : Type 0 where
  kind_domain kind_orchestration kind_shared kind_domain_root kind_cmd kind_unclassified kind_app
        kind_transport :
      InternalKind

-- the constants in their order, from 0
abbrev pub kind_index : InternalKind → ℕ
kind_index kind_domain = 0
kind_index kind_orchestration = 1
kind_index kind_shared = 2
kind_index kind_domain_root = 3
kind_index kind_cmd = 4
kind_index kind_unclassified = 5
kind_index kind_app = 6
kind_index kind_transport = 7

abbrev pub kind_eq : InternalKind → InternalKind → Bool
kind_eq a b = eqb (kind_index a) (kind_index b)

pub record Classified : Type 0 where
  pub kind : InternalKind
  pub domain : String
  pub sublayer : String

-- `classified{Kind: kind}`
abbrev pub of_kind : InternalKind → Classified
of_kind k = record { kind = k; domain = ""; sublayer = "" }

unfoldable pub is_under_internal_dir : String → String → String → Bool
is_under_internal_dir pkg_path prefix dir =
    if dir == ""
    then false
    else (let rel = trim_prefix pkg_path prefix in rel == dir || has_prefix rel (dir ^^ "/"))

abbrev pub head_or : List String → String
head_or [] = ""
head_or (x ∷ xs) = x

unfoldable pub identify_domain_with : Architecture → String → String → String
identify_domain_with arch pkg_path prefix =
    let rel = trim_prefix pkg_path prefix in
    if not (has_prefix rel (arch.layout.domain_dir ^^ "/"))
    then ""
    else head_or (split_n 2 (trim_prefix rel (arch.layout.domain_dir ^^ "/")))

unfoldable pub has_nested_sublayers : Architecture → String → Bool
has_nested_sublayers arch root =
    any (λ sublayer. has_prefix sublayer (root ^^ "/")) arch.layers.sublayers

-- what follows the split into `parts`
unfoldable pub pick_sublayer : Architecture → List String → String
pick_sublayer arch [] = ""
pick_sublayer arch (p ∷ []) = p
pick_sublayer arch (p ∷ q ∷ rest) =
    let nested = p ^^ "/" ^^ q in
    if contains arch.layers.sublayers nested
    then nested
    else if has_nested_sublayers arch p
    then nested
    else p

unfoldable pub identify_sublayer_with : Architecture → String → String → String → String
identify_sublayer_with arch pkg_path prefix domain =
    let domain_prefix = prefix ^^ arch.layout.domain_dir ^^ "/" ^^ domain ^^ "/" in
    if not (has_prefix pkg_path domain_prefix)
    then ""
    else pick_sublayer arch (split_n 3 (trim_prefix pkg_path domain_prefix))

unfoldable pub is_transport_path : Architecture → String → Bool
is_transport_path arch rel =
    let server = arch.layout.server_dir ^^ "/" in
    has_prefix rel server && not (trim_prefix rel server == "")

unfoldable pub classify_domain : Architecture → String → String → Classified
classify_domain arch pkg_path prefix =
    let name = identify_domain_with arch pkg_path prefix in
    if name == ""
    then of_kind kind_unclassified
    else (let sub = identify_sublayer_with arch pkg_path prefix name in
        if sub == ""
        then record { kind = kind_domain_root; domain = name; sublayer = "" }
        else record { kind = kind_domain; domain = name; sublayer = sub })

unfoldable pub classify_flat : Architecture → String → Classified
classify_flat arch rel =
    let first = head_or (split_n 2 rel) in
    if first == ""
    then of_kind kind_unclassified
    else if contains arch.layers.sublayers first
    then record { kind = kind_domain; domain = ""; sublayer = first }
    else of_kind kind_unclassified

unfoldable pub classify_internal_package : Architecture → String → String → Classified
classify_internal_package arch pkg_path prefix =
    let layout = arch.layout in
    if not (has_prefix pkg_path prefix)
    then of_kind kind_unclassified
    else if not (layout.shared_dir == "") && is_under_internal_dir pkg_path prefix layout.shared_dir
    then of_kind kind_shared
    else if not (layout.app_dir == "") && is_under_internal_dir pkg_path prefix layout.app_dir
    then of_kind kind_app
    else if not (layout.server_dir == "") && is_transport_path arch (trim_prefix pkg_path prefix)
    then of_kind kind_transport
    else if not (layout.orchestration_dir == "")
        && is_under_internal_dir pkg_path prefix layout.orchestration_dir
    then of_kind kind_orchestration
    else if not (layout.domain_dir == "")
    then classify_domain arch pkg_path prefix
    else classify_flat arch (trim_prefix pkg_path prefix)

unfoldable pub is_orchestration_handler_with : Architecture → String → String → Bool
is_orchestration_handler_with arch pkg_path prefix =
    has_prefix (trim_prefix pkg_path prefix) (arch.layout.orchestration_dir ^^ "/handler")

unfoldable pub is_excluded_package : Context → String → String → Bool
is_excluded_package ctx pkg_path project_module =
    is_excluded ctx (project_relative_package_path pkg_path project_module)

abbrev pub meta_violation : String → String → String → Violation
meta_violation rule message fix = record {
  file = "";
  line = 0;
  rule = rule;
  message = message;
  fix = fix;
  default_severity = warning;
  effective_severity = warning;
}

unfoldable pub meta_no_matching_packages : String → Violation
meta_no_matching_packages message =
    meta_violation "meta.no-matching-packages" message "verify the module argument matches go.mod"

unfoldable pub meta_rule_disabled_by_config : String → String → String → Violation
meta_rule_disabled_by_config rule_id reason fix =
    meta_violation "meta.rule-disabled-by-config" (rule_id ^^ ": " ^^ reason) fix

unfoldable pub meta_layout_not_supported : Format → String → String → Violation
meta_layout_not_supported fmt rule_id project_module =
    meta_violation "meta.layout-not-supported"
      (rule_id
        ^^ " requires an internal/-based layout; no internal/ packages found in module "
        ^^ fmt.quote project_module)
      "use this rule with internal/-based presets (DDD, CleanArch, Hexagonal, ModularMonolith), or remove it from your ruleset for flat layouts"

unfoldable pub validate_module : Format → List Package → String → List Violation
validate_module fmt pkgs project_module =
    if project_module == ""
    then meta_no_matching_packages
        "project module could not be determined - all import checks will be skipped"
      ∷ []
    else if any
        (λ pkg. pkg.pkg_path == project_module || has_prefix pkg.pkg_path (project_module ^^ "/"))
        pkgs
    then []
    else meta_no_matching_packages (
        "module "
        ^^ fmt.quote project_module
        ^^ " does not match any loaded package - all import checks will be skipped")
      ∷ []

unfoldable pub has_internal_packages : List Package → String → String → Bool
has_internal_packages pkgs project_module internal_root =
    any (λ pkg. has_prefix pkg.pkg_path (project_module ^^ "/" ^^ internal_root ^^ "/")) pkgs

unfoldable pub violation_specs : Severity → List String → List ViolationSpec
violation_specs severity ids =
    map (λ id. record { id = id; description = id; default_severity = severity }) ids
