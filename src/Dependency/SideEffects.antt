-- ===== src/Dependency/SideEffects.antt =====
-- rules/dependency/no_side_effect_call_in_core.go: the rule `purity.no-side-effect-call-in-core`. `files`
-- gives, file by file, the calls of a package with what `ResolveCalleeID` says of them.
pub mod Patterns
pub mod Inspected
pub mod Clean
use Prim.Native.String
use go_arch_guard.Prelude.{
  ℕ, char_eq, String, Bool, true, false, not, ◌&&◌, ◌||◌, Option, none, some, List, [], ◌∷◌, ◌==◌,
  ◌^^◌, Map, has_prefix, cut_prefix, any, filter, filter_map, flat_map, is_nil, if◌then◌else◌,
}
use go_arch_guard.Prelude.Order.{str_lt}
use go_arch_guard.Prelude.Sort.{sort}
use go_arch_guard.Prelude.Split.{split_slash}
use go_arch_guard.Core.Violation.{Severity, warning, Violation, RuleSpec, Format}
use go_arch_guard.Core.Architecture.{Architecture, LayoutModel}
use go_arch_guard.Core.Paths.{has_suffix, trim_suffix, trim_right_slash}
use go_arch_guard.Core.Context.{Package, Context, context_arch, is_excluded}
use go_arch_guard.Analysis.Packages.{
  Host, relative_path_for_package, resolve_module_from_context, project_relative_package_path,
}
use go_arch_guard.Dependency.Classify.{meta_no_matching_packages}
use go_arch_guard.Dependency.Options.{RuleConfig}

unfoldable pub spec : RuleConfig → RuleSpec
spec cfg = record {
  id = "purity.no-side-effect-call-in-core";
  description = "domain core layers should not call side-effectful runtime APIs directly";
  default_severity = cfg.severity;
  violations =
      record {
        id = "purity.no-side-effect-call-in-core";
        description = "domain core calls a side-effectful runtime API directly";
        default_severity = cfg.severity;
      }
      ∷ [];
}

-- A call, and what `ast.IsGenerated` says of a file.
pub record CallSite : Type 0 where
  pub call_id : String
  pub filename : String
  pub line : ℕ

pub record CallFile : Type 0 where
  pub filename : String
  pub generated : Bool
  pub calls : List CallSite

-- the loop over the map
unfoldable pub restricted_layers : Map Bool → List String
restricted_layers [] = []
restricted_layers ((layer, restricted) ∷ rest) =
    if restricted then layer ∷ restricted_layers rest else restricted_layers rest

unfoldable pub inspected_layers : RuleConfig → Architecture → List String
unfolding restricted_layers sort str_lt
inspected_layers cfg arch =
    if not (is_nil cfg.inspected_layers)
    then cfg.inspected_layers
    else if not (is_nil arch.layers.pkg_restricted)
    then sort str_lt (restricted_layers arch.layers.pkg_restricted)
    else "core/model" ∷ "entity" ∷ "domain" ∷ "event" ∷ []

unfoldable pub match_call_pattern : String → String → Bool
unfolding has_suffix trim_suffix has_prefix
match_call_pattern pattern call_id =
    if has_suffix pattern "*"
    then has_prefix call_id (trim_suffix pattern "*")
    else pattern == call_id

unfoldable pub matches_any_call_pattern : List String → String → Bool
unfolding any match_call_pattern
matches_any_call_pattern patterns call_id = any (λ p. match_call_pattern p call_id) patterns

unfoldable pub matches_path_prefix : List String → List String → Bool
matches_path_prefix parts [] = true
matches_path_prefix [] (w ∷ want) = false
matches_path_prefix (p ∷ parts) (w ∷ want) = p == w && matches_path_prefix parts want

-- the layer of `afterInternal[2:]`
abbrev below_domain : List String → String → List String → Bool
below_domain [] domain_dir want = false
below_domain (d ∷ []) domain_dir want = false
below_domain (d ∷ name ∷ rest) domain_dir want = d == domain_dir && matches_path_prefix rest want

unfoldable pub matches_layer : List String → String → String → Bool
unfolding matches_path_prefix split_slash
matches_layer after_internal domain_dir layer =
    if not (domain_dir == "")
    then below_domain after_internal domain_dir (split_slash layer)
    else matches_path_prefix after_internal (split_slash layer)

-- strings.TrimLeft(s, "/")
unfoldable pub trim_left_slash : String → String
trim_left_slash String.[] = ""
trim_left_slash (String.◌∷◌ c s) =
    let rest = trim_left_slash s in if char_eq c "/" then rest else String.◌∷◌ c s

-- the root, without slashes around it
unfoldable pub root_or_internal : String → String
unfolding trim_right_slash trim_left_slash
root_or_internal root =
    let root' = trim_left_slash (trim_right_slash root) in if root' == "" then "internal" else root'

abbrev pub is_layer_path : List String → String → Option String → Bool
is_layer_path layers domain_dir none = false
is_layer_path layers domain_dir (some after) =
    any (λ layer. matches_layer (split_slash after) domain_dir layer) layers

unfoldable pub is_inspected_layer_package : Package → String → LayoutModel → List String → Bool
unfolding cut_prefix root_or_internal any matches_layer split_slash
is_inspected_layer_package pkg project_module layout layers =
    let rel = project_relative_package_path pkg.pkg_path project_module in
    if project_module == "" || rel == "" || rel == "."
    then false
    else is_layer_path layers layout.domain_dir
        (cut_prefix (root_or_internal layout.internal_root ^^ "/") rel)

unfoldable pub validate_side_effect_module : Format → List Package → String → List Violation
unfolding any has_prefix
validate_side_effect_module fmt pkgs project_module =
    if project_module == ""
    then meta_no_matching_packages
        "project module could not be determined - purity checks will be skipped"
      ∷ []
    else if any
        (λ pkg. pkg.pkg_path == project_module || has_prefix pkg.pkg_path (project_module ^^ "/"))
        pkgs
    then []
    else meta_no_matching_packages (
        "module "
        ^^ fmt.quote project_module
        ^^ " does not match any loaded package - purity checks will be skipped")
      ∷ []

module _ (host : Host) (files : Package → List CallFile) (cfg : RuleConfig) where
  abbrev pub is_denied : String → Bool
  is_denied call_id = matches_any_call_pattern cfg.denied_calls call_id

  abbrev pub is_allowed : String → Bool
  is_allowed call_id = matches_any_call_pattern cfg.allowed_calls call_id

  unfoldable pub side_effect : Package → CallSite → Violation
  side_effect pkg call = record {
    file = relative_path_for_package host pkg call.filename;
    line = call.line;
    rule = "purity.no-side-effect-call-in-core";
    message =
        "domain core calls side-effectful API " ^^ host.format.quote call.call_id ^^ " directly";
    fix =
        "pass runtime values in from an outer layer or configure dependency.WithAllowedCalls for intentional exceptions";
    default_severity = cfg.severity;
    effective_severity = cfg.severity;
  }

  -- the function that is called for each call
  unfoldable pub check_call : Package → CallSite → Option Violation
  unfolding side_effect matches_any_call_pattern
  check_call pkg call =
      if call.call_id == "" || not (is_denied call.call_id) || is_allowed call.call_id
      then none
      else some (side_effect pkg call)

  -- a file that is not looked into
  abbrev pub is_skipped : Context → Package → CallFile → Bool
  is_skipped ctx pkg file =
      has_suffix file.filename "_test.go"
      || file.generated
      || is_excluded ctx (relative_path_for_package host pkg file.filename)

  unfoldable pub check_call_file : Context → Package → CallFile → List Violation
  unfolding check_call filter_map
  check_call_file ctx pkg file =
      if is_skipped ctx pkg file then [] else filter_map (check_call pkg) file.calls

  unfoldable pub check_package : Context → Package → List Violation
  unfolding check_call_file flat_map
  check_package ctx pkg = flat_map (check_call_file ctx pkg) (files pkg)

  unfoldable pub check : Context → List Violation
  unfolding check_package is_inspected_layer_package inspected_layers validate_side_effect_module
  check ctx =
      let arch = context_arch ctx in
      let project_module = resolve_module_from_context ctx "" in
      let warns = validate_side_effect_module host.format ctx.pkgs project_module in
      let layers = inspected_layers cfg arch in
      if not (is_nil warns)
      then warns
      else if project_module == "" || is_nil layers || is_nil cfg.denied_calls
      then []
      else flat_map (check_package ctx) (
          filter (λ pkg. is_inspected_layer_package pkg project_module arch.layout layers) ctx.pkgs)
