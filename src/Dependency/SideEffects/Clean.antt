-- ===== src/Dependency/SideEffects/Clean.antt =====
-- When the rule reports nothing.
use go_arch_guard.Prelude.{
  false, flat_map, ◌≢◌, In, All-of_forall, subst, String, true, false, Option, none, List, [], ◌∷◌,
  ◌≡◌, ◌↔◌, All, is_nil, filter, filter_map, flat_map-nil_iff, arith, eq_iff,
}
use go_arch_guard.Prelude.Search.{any_iff, All-filter_iff}
use go_arch_guard.Core.Paths.{has_suffix}
use go_arch_guard.Core.Context.{Package, Context, context_arch, is_excluded}
use go_arch_guard.Analysis.Packages.{Host, relative_path_for_package, resolve_module_from_context}
use go_arch_guard.Dependency.Options.{RuleConfig}
use go_arch_guard.Dependency.SideEffects.{
  CallSite, CallFile, match_call_pattern, matches_any_call_pattern, check_call, check_call_file,
  check_package, check, inspected_layers, is_inspected_layer_package, validate_side_effect_module,
}
use go_arch_guard.Dependency.SideEffects.Patterns.{Matches, match_call_pattern_iff}
use go_arch_guard.Dependency.SideEffects.Inspected.{
  IsLookedAt, inspected_layers_iff, is_inspected_layer_package_iff, IsModuleKnown,
  validate_side_effect_module-nil_iff,
}

module _ {A B : Type 0} (f : A → Option B) where
  filter_map-none_iff : (xs : List A) → (filter_map f xs ≡ []) ↔ All (λ x. f x ≡ none) xs
  unfolding filter_map
  filter_map-none_iff [] = ground arith
  filter_map-none_iff (x ∷ xs) = ground (arith, filter_map-none_iff xs)

module _ {A : Type 0} (P Q : A → Type 0) (each : (x : A) → P x ↔ Q x) where
  All-iff : (xs : List A) → All P xs ↔ All Q xs
  All-iff [] = (λ h. tt, λ h. tt)
  All-iff (x ∷ xs) =
      (λ (h, hs). ((each x).0 h, (All-iff xs).0 hs), λ (h, hs). ((each x).1 h, (All-iff xs).1 hs))

-- one of the patterns matches the call
abbrev pub IsMatched : List String → String → Type 0
IsMatched patterns call_id = (p : String) × In p patterns × Matches p call_id

matches_any_call_pattern_iff :
    (patterns : List String) (call_id : String)
    → (matches_any_call_pattern patterns call_id ≡ true) ↔ IsMatched patterns call_id
unfolding matches_any_call_pattern
matches_any_call_pattern_iff patterns call_id =
    let (down, up) = any_iff (λ p. match_call_pattern p call_id) patterns in
    (
      λ h. let (p, m, k) = down h in (p, m, (match_call_pattern_iff p call_id).0 k),
      λ (p, m, k). up (p, m, (match_call_pattern_iff p call_id).1 k),
    )

is_nil_iff : {A : Type 0} → (xs : List A) → (is_nil xs ≡ true) ↔ (xs ≡ [])
is_nil_iff [] = ground arith
is_nil_iff (x ∷ xs) = ground arith

-- the path of the architecture's module
abbrev pub module_of : Context → String
module_of ctx = resolve_module_from_context ctx ""

module _ (host : Host) (files : Package → List CallFile) (cfg : RuleConfig) where
  -- a known call that is denied is also allowed
  abbrev pub IsPure : CallSite → Type 0
  IsPure call =
      call.call_id ≢ ""
      → IsMatched cfg.denied_calls call.call_id
      → IsMatched cfg.allowed_calls call.call_id

  check_call-none_iff :
      (pkg : Package) (call : CallSite) → (check_call host files cfg pkg call ≡ none) ↔ IsPure call
  unfolding check_call
  check_call-none_iff pkg call = ground (
    arith,
    eq_iff call.call_id "",
    matches_any_call_pattern_iff cfg.denied_calls call.call_id,
    matches_any_call_pattern_iff cfg.allowed_calls call.call_id,
  )

  -- a file that is no test, not generated and not excluded
  abbrev pub IsLookedInto : Context → Package → CallFile → Type 0
  IsLookedInto ctx pkg file =
      (has_suffix file.filename "_test.go" ≡ false)
      × (file.generated ≡ false)
      × (is_excluded ctx (relative_path_for_package host pkg file.filename) ≡ false)

  abbrev pub PureFile : Context → Package → CallFile → Type 0
  PureFile ctx pkg file = IsLookedInto ctx pkg file → All IsPure file.calls

  check_call_file-nil_iff :
      (ctx : Context) (pkg : Package) (file : CallFile)
      → (check_call_file host files cfg ctx pkg file ≡ []) ↔ PureFile ctx pkg file
  unfolding check_call_file
  check_call_file-nil_iff ctx pkg file = ground (
    arith,
    filter_map-none_iff (check_call host files cfg pkg) file.calls,
    All-iff (λ c. check_call host files cfg pkg c ≡ none) IsPure (check_call-none_iff pkg)
        file.calls,
  )

  abbrev pub PurePackage : Context → Package → Type 0
  PurePackage ctx pkg = All (PureFile ctx pkg) (files pkg)

  check_package-nil_iff :
      (ctx : Context) (pkg : Package)
      → (check_package host files cfg ctx pkg ≡ []) ↔ PurePackage ctx pkg
  unfolding check_package
  check_package-nil_iff ctx pkg =
      flat_map-nil_iff (check_call_file host files cfg ctx pkg) (PureFile ctx pkg)
        (check_call_file-nil_iff ctx pkg) (files pkg)

  -- what the inspected packages of a project hold
  abbrev AllPure : Context → Type 0
  AllPure ctx =
      All (λ pkg. IsLookedAt cfg (context_arch ctx) (module_of ctx) pkg → PurePackage ctx pkg)
        ctx.pkgs

  AllPure-no_denied : (ctx : Context) → cfg.denied_calls ≡ [] → AllPure ctx
  AllPure-no_denied ctx e = All-of_forall _ ctx.pkgs λ pkg m at.
      All-of_forall (PureFile ctx pkg) (files pkg) λ file k into.
        All-of_forall IsPure file.calls
          λ call l known denied. absurd (subst (In denied.0) e denied.1)

  AllPure-no_layers : (ctx : Context) → inspected_layers cfg (context_arch ctx) ≡ [] → AllPure ctx
  AllPure-no_layers ctx e =
      All-of_forall _ ctx.pkgs λ pkg m (a, b, c, (after, below, (layer, is, lies))).
        absurd (subst (In layer) e ((inspected_layers_iff cfg (context_arch ctx) layer).1 is))

  -- the loop over the inspected packages
  found-nil_iff :
      (ctx : Context)
      → (flat_map (check_package host files cfg ctx) (
            filter
              (λ pkg.
                is_inspected_layer_package pkg
                  (module_of ctx)
                  (context_arch ctx).layout
                  (inspected_layers cfg (context_arch ctx)))
              ctx.pkgs)
          ≡ [])
        ↔ AllPure ctx
  found-nil_iff ctx =
      let arch = context_arch ctx in
      let m = module_of ctx in
      let chosen = λ (pkg : Package).
        is_inspected_layer_package pkg m arch.layout (inspected_layers cfg arch) in
      let inspected =
        flat_map-nil_iff (check_package host files cfg ctx) (PurePackage ctx)
          (check_package-nil_iff ctx) (filter chosen ctx.pkgs) in
      let kept = All-filter_iff chosen (PurePackage ctx) ctx.pkgs in
      let looked =
        All-iff (λ pkg. chosen pkg ≡ true → PurePackage ctx pkg)
          (λ pkg. IsLookedAt cfg arch m pkg → PurePackage ctx pkg)
          (λ pkg.
            let (down, up) = is_inspected_layer_package_iff cfg arch pkg m in
            (λ pure at. pure (up at), λ pure at. pure (down at)))
          ctx.pkgs in
      (λ h. looked.0 (kept.0 (inspected.0 h)), λ h. inspected.1 (kept.1 (looked.1 h)))

  -- The rule reports nothing exactly where the module has a name that some package has or lies below, and
  -- in each package of an inspected layer (one that is configured, or else that the architecture
  -- restricts, or else one of the usual four), in each file that is no test, not generated and not
  -- excluded, each known call that a denied pattern matches is matched by an allowed one.
  pub side_effect_check-nil_iff :
      (ctx : Context)
      → (check host files cfg ctx ≡ []) ↔ (
          IsModuleKnown ctx.pkgs (module_of ctx)
          × All
              (λ pkg. IsLookedAt cfg (context_arch ctx) (module_of ctx) pkg → PurePackage ctx pkg)
              ctx.pkgs)
  unfolding check
  side_effect_check-nil_iff ctx =
      let m = module_of ctx in
      ground (
        arith,
        validate_side_effect_module-nil_iff host.format ctx.pkgs m,
        is_nil_iff (validate_side_effect_module host.format ctx.pkgs m),
        is_nil_iff (inspected_layers cfg (context_arch ctx)),
        is_nil_iff cfg.denied_calls,
        eq_iff m "",
        found-nil_iff ctx,
        AllPure-no_denied ctx,
        AllPure-no_layers ctx,
      )
