-- ===== src/Core/Runner/Without.antt =====
-- `Without` only removes violations from the report.
use go_arch_guard.Prelude.{
  In-add_iff, contains_iff, eq_iff, add, All-of_forall, All-at, subst, inl, inr, String, ◌≡◌, refl,
  sym, ap, ◌∙◌, Bool, true, false, not, ◌||◌, List, [], ◌∷◌, contains, filter, filter-append,
  filter_map, flat_map, All, arith, eq_iff,
}
use go_arch_guard.Prelude.Sort.{sort, filter-sort}
use go_arch_guard.Core.Violation.{Format, Violation, RuleSpec}
use go_arch_guard.Core.Context.{Context}
use go_arch_guard.Core.RuleSet.{Rule, RuleSet, is_violation_skipped, without, skip_ids}
use go_arch_guard.Core.Runner.{
  safe_check, declare, settle, collect, seen_key, dedupe, violation_less, returns, report, run,
}
use go_arch_guard.Core.Options.{RunOpts, RunOption, new_run_opts}
use go_arch_guard.Core.Runner.Accepts.{Knows, IsRunnable, run_with-returns_iff}
use go_arch_guard.Core.Runner.Output.{violation_order}

module _ (p : String → Bool) where
  -- the violations whose ID passes the test
  abbrev keep : Violation → Bool
  keep v = p v.rule

  -- The two sets of seen keys agree on the IDs that pass.
  abbrev Agree : List (String × String) → List (String × String) → Type 0
  Agree seen seen' =
      (rule message : String)
      → p rule ≡ true
      → seen_key seen rule message ≡ seen_key seen' rule message

  Agree-cons :
      (v : Violation) (seen seen' : List (String × String))
      → Agree seen seen'
      → Agree ((v.rule, v.message) ∷ seen) ((v.rule, v.message) ∷ seen')
  unfolding seen_key
  Agree-cons v seen seen' h rule message k = rw (h rule message k)

  Agree-drop :
      (v : Violation) (seen seen' : List (String × String))
      → p v.rule ≡ false
      → Agree seen seen'
      → Agree ((v.rule, v.message) ∷ seen) seen'
  unfolding seen_key
  Agree-drop v seen seen' e h rule message k = ground (arith, h rule message k, eq_iff v.rule rule)

  filter-dedupe :
      (seen seen' : List (String × String)) (vs : List Violation)
      → Agree seen seen'
      → filter keep (dedupe seen vs) ≡ dedupe seen' (filter keep vs)
  unfolding filter dedupe
  filter-dedupe seen seen' [] h = refl
  filter-dedupe seen seen' (v ∷ vs) h = ground (
    arith,
    h v.rule v.message,
    filter-dedupe seen seen' vs h,
    filter-dedupe ((v.rule, v.message) ∷ seen) ((v.rule, v.message) ∷ seen') vs
        (Agree-cons v seen seen' h),
    λ (e : p v.rule ≡ false).
        filter-dedupe ((v.rule, v.message) ∷ seen) seen' vs (Agree-drop v seen seen' e h),
  )

  module _ (fmt : Format) (o : RunOpts) (ctx : Context) (skipped skipped' : String → Bool)
      (more : (id : String) → skipped' id ≡ (skipped id || not (p id))) where
    filter_map-settle :
        (spec : RuleSpec) (vs : List Violation)
        → filter keep (filter_map (settle fmt skipped o spec) vs)
          ≡ filter_map (settle fmt skipped' o spec) vs
    unfolding filter filter_map settle
    filter_map-settle spec [] = refl
    filter_map-settle spec (v ∷ vs) =
        ground (arith, more (declare fmt spec v).rule, filter_map-settle spec vs)

    filter-collect :
        (rs : List Rule)
        → filter keep (collect fmt skipped o ctx rs) ≡ collect fmt skipped' o ctx rs
    unfolding collect filter flat_map
    filter-collect [] = refl
    filter-collect (r ∷ rs) =
        rw (filter-append, filter_map-settle r.spec (safe_check fmt r ctx), filter-collect rs)

contains-skip_ids :
    (skip ids : List String) (id : String)
    → contains (skip_ids skip ids) id ≡ (contains skip id || contains ids id)
unfolding skip_ids contains
contains-skip_ids skip [] id = ground arith
contains-skip_ids skip (i ∷ ids) id = ground (
  arith,
  contains-skip_ids (add i skip) ids id,
  In-add_iff id i skip,
  contains_iff (add i skip) id,
  contains_iff skip id,
  eq_iff i id,
)

All-skip_ids :
    (P : String → Type 0) (skip ids : List String)
    → All P skip
    → All P ids
    → All P (skip_ids skip ids)
unfolding skip_ids
All-skip_ids P skip [] h k = h
All-skip_ids P skip (i ∷ ids) h (p, k) =
    All-skip_ids P (add i skip) ids
      (All-of_forall P (add i skip) λ j m. elim ((In-add_iff j i skip).0 m) [
        | inl old ↦ All-at P skip j h old
        | inr same ↦ subst P (sym same) p
      ])
      k

is_skipped-without :
    (rules : RuleSet) (ids : List String) (id : String)
    → is_violation_skipped (without rules ids) id
      ≡ (is_violation_skipped rules id || not (not (contains ids id)))
unfolding without is_violation_skipped
is_skipped-without rules ids id = ground (arith, contains-skip_ids rules.skip_violation_ids ids id)

-- the violations that none of the IDs names
abbrev pub not_named : List String → Violation → Bool
not_named ids v = not (contains ids v.rule)

module _ (fmt : Format) (ctx : Context) (rules : RuleSet) (ids : List String) where
  report-without :
      (o : RunOpts)
      → report fmt ctx (without rules ids) o ≡ filter (not_named ids) (report fmt ctx rules o)
  unfolding report without
  report-without o =
      let p = λ (id : String). not (contains ids id) in
      let skipped = is_violation_skipped rules in
      sym (
        filter-sort violation_less violation_order (keep p) _
        ∙ ap (sort violation_less) (
            filter-dedupe p [] [] (collect fmt skipped o ctx rules.rules) (λ r m k. refl)
            ∙ ap (dedupe []) (
                filter-collect p fmt o ctx skipped (is_violation_skipped (without rules ids))
                  (is_skipped-without rules ids) rules.rules)))

  IsRunnable-without :
      (o : RunOpts)
      → All (Knows rules) ids
      → IsRunnable ctx rules o
      → IsRunnable ctx (without rules ids) o
  unfolding without
  IsRunnable-without o known r = record {
    arch = r.arch;
    sound = r.sound;
    distinct = r.distinct;
    severities = r.severities;
    skipped = All-skip_ids (Knows rules) rules.skip_violation_ids ids r.skipped known;
    overridden = r.overridden;
  }

  -- If a run returns violations, and every given ID is declared by a rule of the set or begins with
  -- "meta.", the run of the set without these IDs returns the same list less the violations that
  -- have one of the IDs, in the same order and with the same severities.
  pub run-without :
      (opts : List RunOption) (vs : List Violation)
      → All (Knows rules) ids
      → run fmt ctx rules opts ≡ returns vs
      → run fmt ctx (without rules ids) opts ≡ returns (filter (not_named ids) vs)
  unfolding run
  run-without opts vs known ran =
      let o = new_run_opts opts in
      let (runnable, same) = (run_with-returns_iff fmt ctx rules o vs).0 ran in
      (run_with-returns_iff fmt ctx (without rules ids) o _).1
        (IsRunnable-without o known runnable, report-without o ∙ ap (filter (not_named ids)) same)
