-- ===== src/Core/Runner/Settled.antt =====
-- What becomes of one emitted violation: its ID, and the precedence of severities.
use go_arch_guard.Prelude.{
  String, ◌≡◌, refl, sym, subst, ◌≢◌, ◌⊎◌, inl, inr, ⊎_elim, Bool, true, false, none, some, List,
  [], ◌∷◌, ◌==◌, Map, lookup, put, lookup-put, contains, contains_iff, map, In, arith, eq_iff,
  Bool-cases, Option-cases, has_prefix,
}
use go_arch_guard.Core.Violation.{
  Severity, error, warning, Format, Violation, RuleSpec, ViolationSpec,
}
use go_arch_guard.Core.Runner.{
  declare, unlisted_severity, declared_severity, effective_severity, weigh, settle,
}
use go_arch_guard.Core.Options.{RunOpts, severity_for}
use go_arch_guard.Core.Catalog.{is_meta, rule_known_ids, defaults_from, defaults_by_id}
use go_arch_guard.Core.Runner.Declared.{violation_names, Declares, rule_known_ids_iff}

abbrev pub Listed : List ViolationSpec → String → Severity → Type 0
Listed vs id s = (w : ViolationSpec) × In w vs × (w.id ≡ id) × (w.default_severity ≡ s)

-- The default of an ID that the catalog does not list.
abbrev pub Unlisted : RuleSpec → String → Severity → Type 0
Unlisted spec id s =
    (((id ≡ "meta.rule-panic") ⊎ (id ≡ "meta.unknown-violation-id")) × (s ≡ error))
    ⊎ (((id ≢ "meta.rule-panic")
          × (id ≢ "meta.unknown-violation-id")
          × (is_meta id ≡ true)
          × (s ≡ warning))
        ⊎ ((is_meta id ≡ false) × (s ≡ spec.default_severity)))

abbrev pub HasDefault : RuleSpec → String → Severity → Type 0
HasDefault spec id s =
    Listed spec.violations id s ⊎ ((¬ In id (violation_names spec)) × Unlisted spec id s)

-- An override wins over the default `d`.
abbrev pub HasEffective : RunOpts → String → Severity → Severity → Type 0
HasEffective o id d s =
    (lookup o.severity_overrides id ≡ some s) ⊎ ((lookup o.severity_overrides id ≡ none) × (s ≡ d))

-- The ID is one that the rule may emit, and the severities follow the precedence.
pub record IsWeighed (o : RunOpts) (spec : RuleSpec) (v : Violation) : Type 0 where
  pub known : Declares spec v.rule ⊎ (is_meta v.rule ≡ true)
  pub default : HasDefault spec v.rule v.default_severity
  pub effective : HasEffective o v.rule v.default_severity v.effective_severity

Listed-cons :
    (w : ViolationSpec) (vs : List ViolationSpec) (id : String) (s : Severity)
    → Listed vs id s
    → Listed (w ∷ vs) id s
Listed-cons w vs id s (x, m, e, k) = (x, inr m, e, k)

defaults_from-some :
    (out : Map Severity) (vs : List ViolationSpec) (id : String) (s : Severity)
    → lookup (defaults_from out vs) id ≡ some s
    → Listed vs id s ⊎ ((lookup out id ≡ some s) × (¬ In id (map (λ v. v.id) vs)))
unfolding defaults_from
defaults_from-some out [] id s h = inr (h, λ m. m)
defaults_from-some out (v ∷ vs) id s h =
    elim (defaults_from-some (put out v.id v.default_severity) vs id s h) [
      | inl l ↦ inl (Listed-cons v vs id s l)
      | inr (e, fresh) ↦ elim (Bool-cases (v.id == id)) [
        | inl same ↦ inl (
          v,
          inl refl,
          (eq_iff v.id id).0 same,
          ground (arith, lookup-put out v.id id v.default_severity),
        )
        | inr other ↦ inr (
          ground (arith, lookup-put out v.id id v.default_severity),
          ⊎_elim (λ p. absurd (cc (other, (eq_iff v.id id).1 (sym p)))) fresh,
        )
      ]
    ]

defaults_from-none :
    (out : Map Severity) (vs : List ViolationSpec) (id : String)
    → lookup (defaults_from out vs) id ≡ none
    → (lookup out id ≡ none) × (¬ In id (map (λ v. v.id) vs))
unfolding defaults_from
defaults_from-none out [] id h = (h, λ m. m)
defaults_from-none out (v ∷ vs) id h =
    let (e, fresh) = defaults_from-none (put out v.id v.default_severity) vs id h in
    let put' = lookup-put out v.id id v.default_severity in
    elim (Bool-cases (v.id == id)) [
      | inl same ↦ absurd (ground (arith, put'))
      | inr other ↦ (
        ground (arith, put'),
        ⊎_elim (λ p. absurd (cc (other, (eq_iff v.id id).1 (sym p)))) fresh,
      )
    ]

unlisted_severity-Unlisted :
    (spec : RuleSpec) (id : String) → Unlisted spec id (unlisted_severity spec id)
unlisted_severity-Unlisted spec id =
    ground (arith, eq_iff id "meta.rule-panic", eq_iff id "meta.unknown-violation-id")

declared_severity-HasDefault :
    (spec : RuleSpec) (id : String) → HasDefault spec id (declared_severity spec id)
unfolding declared_severity defaults_by_id lookup
declared_severity-HasDefault spec id = elim (Option-cases (lookup (defaults_by_id spec) id)) [
  | inl e ↦
      rw e
        (inr ((defaults_from-none [] spec.violations id e).1, unlisted_severity-Unlisted spec id))
  | inr (s, e) ↦ rw e (elim (defaults_from-some [] spec.violations id s e) [
    | inl l ↦ inl l
    | inr (h, fresh) ↦ absurd (cc h)
  ])
]

effective_severity-HasEffective :
    (spec : RuleSpec) (o : RunOpts) (id : String)
    → HasEffective o id (declared_severity spec id) (effective_severity spec o id)
unfolding effective_severity severity_for
effective_severity-HasEffective spec o id = ground (arith, declared_severity spec id)

module _ (fmt : Format) (spec : RuleSpec) (o : RunOpts) where
  pub weigh-IsWeighed :
      (v : Violation)
      → Declares spec v.rule ⊎ (is_meta v.rule ≡ true)
      → IsWeighed o spec (weigh spec o v)
  weigh-IsWeighed v k = record {
    known = k;
    default = declared_severity-HasDefault spec v.rule;
    effective = effective_severity-HasEffective spec o v.rule;
  }

  pub declare-known :
      (v : Violation)
      → Declares spec (declare fmt spec v).rule ⊎ (is_meta (declare fmt spec v).rule ≡ true)
  unfolding declare has_prefix
  declare-known v = elim (Bool-cases (contains (rule_known_ids spec) v.rule)) [
    | inl k ↦ rw k (inl ((rule_known_ids_iff spec v.rule).0 ((contains_iff _ v.rule).0 k)))
    | inr u ↦ elim (Bool-cases (is_meta v.rule)) [
      | inl m ↦ rw (u, m) (inr m)
      | inr m ↦ rw (u, m) (inr refl)
    ]
  ]

  pub settle-eq-some :
      (skipped : String → Bool) (v w : Violation)
      → settle fmt skipped o spec v ≡ some w
      → (w ≡ weigh spec o (declare fmt spec v)) × (skipped w.rule ≡ false)
  unfolding settle
  settle-eq-some skipped v w h = ground arith

  -- A violation that is reported for a rule has an ID that the rule may emit, is not filtered out,
  -- and has the severities of the precedence.
  pub settle-IsWeighed :
      (skipped : String → Bool) (v w : Violation)
      → settle fmt skipped o spec v ≡ some w
      → IsWeighed o spec w × (skipped w.rule ≡ false)
  settle-IsWeighed skipped v w h =
      let (same, kept) = settle-eq-some skipped v w h in
      (
        subst (IsWeighed o spec) (sym same)
            (weigh-IsWeighed (declare fmt spec v) (declare-known v)),
        kept,
      )
