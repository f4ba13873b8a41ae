-- ===== src/Core/Runner/Accepts.antt =====
-- When `Run` refuses its arguments.
use go_arch_guard.Prelude.{
  IsDistinct, String, ◌≡◌, refl, ap, ◌↔◌, ◌⊎◌, inl, inr, ⊎_elim, Bool, true, false, not, ◌&&◌,
  Option, none, some, List, [], ◌∷◌, Map, keys, contains, contains_iff, In, In-flat_map,
  In-of_flat_map, All, All-of_forall, All-map, filter, filter-nil_iff, arith, Bool-cases,
}
use go_arch_guard.Prelude.Order.{str_lt}
use go_arch_guard.Prelude.Sort.{sort, All-sort_iff}
use go_arch_guard.Core.Violation.{Violation, Severity, Format, is_valid_severity}
use go_arch_guard.Core.Validate.Laws.{IsValid, validate-none_iff}
use go_arch_guard.Core.Context.{Context, context_arch}
use go_arch_guard.Core.RuleSet.{Rule, RuleSet}
use go_arch_guard.Core.Runner.Declared.{
  IsSeverity, is_valid_severity_iff, rule_names, IsSound, Declares, rule_known_ids_iff,
  rule_set_errors-nil_iff,
}
use go_arch_guard.Core.Runner.{Outcome, returns, unless_panic, report, run_with, run}
use go_arch_guard.Core.Options.{RunOpts, RunOption, new_run_opts}
use go_arch_guard.Core.Catalog.{
  is_meta, rule_known_ids, known_violation_ids, rule_set_errors, join_errors, validate_rule_set,
  invalid_override, unknown_ids, unknown_message, check_unknown, sorted_keys,
}

abbrev pub Knows : RuleSet → String → Type 0
Knows rules id = ((r : Rule) × In r rules.rules × Declares r.spec id) ⊎ (is_meta id ≡ true)

pub record IsRunnable (ctx : Context) (rules : RuleSet) (o : RunOpts) : Type 0 where
  pub arch : IsValid (context_arch ctx)
  pub sound : All (λ r. IsSound r.spec) rules.rules
  pub distinct : IsDistinct (rule_names rules.rules)
  pub severities : All (λ e. IsSeverity e.1) o.severity_overrides
  pub skipped : All (Knows rules) rules.skip_violation_ids
  pub overridden : All (Knows rules) (keys o.severity_overrides)

known_violation_ids_iff :
    (rules : RuleSet) (id : String)
    → In id (known_violation_ids rules) ↔ ((r : Rule) × In r rules.rules × Declares r.spec id)
unfolding known_violation_ids
known_violation_ids_iff rules id = (
  λ m.
      let (r, k, d) = In-of_flat_map (λ (r : Rule). rule_known_ids r.spec) id rules.rules m in
      (r, k, (rule_known_ids_iff r.spec id).0 d),
  λ (r, k, d). In-flat_map _ id rules.rules r k ((rule_known_ids_iff r.spec id).1 d),
)

module _ (fmt : Format) where
  join_errors-none : (es : List String) → (join_errors fmt es ≡ none) ↔ (es ≡ [])
  join_errors-none [] = (λ h. refl, λ h. refl)
  join_errors-none (e ∷ es) = (λ h. cc, λ h. cc)

  validate_rule_set-none_iff :
      (rules : RuleSet)
      → (validate_rule_set fmt rules ≡ none)
        ↔ (All (λ r. IsSound r.spec) rules.rules × IsDistinct (rule_names rules.rules))
  unfolding validate_rule_set
  validate_rule_set-none_iff rules =
      let (nil, nil') = join_errors-none (rule_set_errors fmt [] rules.rules) in
      let (down, up) = rule_set_errors-nil_iff fmt [] rules.rules in
      (
        λ h. let (sound, distinct, _) = down (nil h) in (sound, distinct),
        λ (sound, distinct). nil' (up (sound, distinct, All-of_forall _ _ λ l m n. n)),
      )

  invalid_override-none_iff :
      (m : Map Severity) → (invalid_override fmt m ≡ none) ↔ All (λ e. IsSeverity e.1) m
  unfolding invalid_override
  invalid_override-none_iff [] = (λ h. tt, λ h. refl)
  invalid_override-none_iff ((id, s) ∷ rest) =
      let (to, of) = is_valid_severity_iff s in
      let (down, up) = invalid_override-none_iff rest in
      elim (Bool-cases (is_valid_severity s)) [
        | inl e ↦ rw e (λ h. (to e, down h), λ (v, h). up h)
        | inr e ↦ rw e (λ h. absurd (cc h), λ (v, h). absurd (cc (e, of v)))
      ]

  unknown_message-none :
      (label : String) (ids : List String) → (unknown_message fmt label ids ≡ none) ↔ (ids ≡ [])
  unknown_message-none label [] = (λ h. refl, λ h. refl)
  unknown_message-none label (id ∷ ids) = (λ h. cc, λ h. cc)

  Knows-iff :
      (rules : RuleSet) (id : String)
      → ((not (contains (known_violation_ids rules) id) && not (is_meta id)) ≡ false)
        ↔ Knows rules id
  Knows-iff rules id =
      let (member, listed) = contains_iff (known_violation_ids rules) id in
      let (named, named') = known_violation_ids_iff rules id in
      (
        λ h. ⊎_elim (λ c. inl (named (member c))) inr (cases _ (is_meta id) h),
        λ k. ⊎_elim (λ d. rw (listed (named' d)) refl) (λ m. rw m (ground arith)) k,
      )
    where
      cases : (b c : Bool) → (not b && not c) ≡ false → (b ≡ true) ⊎ (c ≡ true)
      cases b c h = ground arith

  check_unknown-none_iff :
      (rules : RuleSet) (label : String) (ids : List String)
      → (check_unknown fmt (known_violation_ids rules) label (sorted_keys fmt ids) ≡ none)
        ↔ All (Knows rules) ids
  unfolding check_unknown unknown_ids sorted_keys
  check_unknown-none_iff rules label ids =
      let test =
        λ (id : String). not (contains (known_violation_ids rules) id) && not (is_meta id) in
      let (nil, nil') = unknown_message-none label (filter test (sort str_lt ids)) in
      let (down, up) = filter-nil_iff test (sort str_lt ids) in
      let (back, forth) = All-sort_iff str_lt (λ id. test id ≡ false) ids in
      (
        λ h. All-map (λ id. (Knows-iff rules id).0) ids (back (down (nil h))),
        λ h. nil' (up (forth (All-map (λ id. (Knows-iff rules id).1) ids h))),
      )

  unless_panic-returns_iff :
      (e : Option String) (rest : Outcome) (vs : List Violation)
      → (unless_panic e rest ≡ returns vs) ↔ ((e ≡ none) × (rest ≡ returns vs))
  unless_panic-returns_iff none rest vs = (λ h. (refl, h), λ h. h.1)
  unless_panic-returns_iff (some e) rest vs = (λ h. absurd (cc h), λ h. absurd (cc h.0))

  pub run_with-returns_iff :
      (ctx : Context) (rules : RuleSet) (o : RunOpts) (vs : List Violation)
      → (run_with fmt ctx rules o ≡ returns vs)
        ↔ (IsRunnable ctx rules o × (report fmt ctx rules o ≡ vs))
  unfolding run_with
  run_with-returns_iff ctx rules o vs =
      let known = known_violation_ids rules in
      let (arch, arch') = validate-none_iff fmt (context_arch ctx) in
      let (set, set') = validate_rule_set-none_iff rules in
      let (sev, sev') = invalid_override-none_iff o.severity_overrides in
      let (skip, skip') = check_unknown-none_iff rules "RuleSet.Without" rules.skip_violation_ids in
      let (over, over') =
        check_unknown-none_iff rules "WithSeverityOverride" (keys o.severity_overrides) in
      (
        λ h.
            let (a, h1) = (unless_panic-returns_iff _ _ vs).0 h in
            let (b, h2) = (unless_panic-returns_iff _ _ vs).0 h1 in
            let (c, h3) = (unless_panic-returns_iff _ _ vs).0 h2 in
            let (d, h4) = (unless_panic-returns_iff _ _ vs).0 h3 in
            let (e, h5) = (unless_panic-returns_iff _ _ vs).0 h4 in
            (
              record {
                arch = arch a;
                sound = (set b).0;
                distinct = (set b).1;
                severities = sev c;
                skipped = skip d;
                overridden = over e;
              },
              cc h5,
            ),
        λ (r, same).
            rw
              (
                arch' r.arch,
                set' (r.sound, r.distinct),
                sev' r.severities,
                skip' r.skipped,
                over' r.overridden,
              )
              (ap returns same),
      )

  -- `Run` returns a list of violations exactly where the architecture is valid, the rules are sound
  -- with distinct IDs, the overriding severities are Error or Warning, and every ID given to
  -- `Without` or to an override is declared by a rule or begins with "meta."; else it panics.
  pub run-returns_iff :
      (ctx : Context) (rules : RuleSet) (opts : List RunOption)
      → ((vs : List Violation) × (run fmt ctx rules opts ≡ returns vs))
        ↔ IsRunnable ctx rules (new_run_opts opts)
  unfolding run
  run-returns_iff ctx rules opts = (
    λ (vs, h). ((run_with-returns_iff ctx rules (new_run_opts opts) vs).0 h).0,
    λ r.
        let vs = report fmt ctx rules (new_run_opts opts) in
        (vs, (run_with-returns_iff ctx rules (new_run_opts opts) vs).1 (r, refl)),
  )
