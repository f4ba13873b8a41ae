-- ===== src/Core/Runner/Declared.antt =====
-- `validateRuleSet` finds no fault exactly in the rule sets whose rules are sound and distinct.
use go_arch_guard.Prelude.{
  IsDistinct, String, ◌≡◌, refl, sym, ◌∙◌, ◌≢◌, ◌↔◌, ◌⊎◌, inl, inr, ⊎_elim, Bool, true, false, List,
  [], ◌∷◌, ◌++◌, ◌==◌, contains, contains_iff, map, In, All, All-of_forall, append-nil_iff,
  flat_map-nil_iff, arith, eq_iff, Bool-cases, if◌then◌else◌,
}
use go_arch_guard.Core.Violation.{
  Severity, error, warning, other, Format, RuleSpec, ViolationSpec, is_valid_severity,
}
use go_arch_guard.Core.Validate.Laws.{fresh-cons}
use go_arch_guard.Core.RuleSet.{Rule}
use go_arch_guard.Core.Catalog.{
  is_meta, rule_known_ids, violation_severity_errors, duplicate_errors, named_errors, spec_errors,
  rule_set_errors,
}

abbrev pub IsSeverity : Severity → Type 0
IsSeverity s = (s ≡ error) ⊎ (s ≡ warning)

pub is_valid_severity_iff : (s : Severity) → (is_valid_severity s ≡ true) ↔ IsSeverity s
unfolding is_valid_severity
is_valid_severity_iff error = (λ h. inl refl, λ h. refl)
is_valid_severity_iff warning = (λ h. inr refl, λ h. refl)
is_valid_severity_iff (other i) = (λ h. cc, λ h. absurd (ground arith))

abbrev pub violation_names : RuleSpec → List String
violation_names spec = map (λ v. v.id) spec.violations

-- the IDs of the rules that have one
abbrev pub rule_names : List Rule → List String
rule_names [] = []
rule_names (r ∷ rs) = if r.spec.id == "" then rule_names rs else r.spec.id ∷ rule_names rs

pub record IsSound (spec : RuleSpec) : Type 0 where
  pub severity : IsSeverity spec.default_severity
  pub severities : All (λ v. IsSeverity v.default_severity) spec.violations
  pub distinct : spec.id ≢ "" → IsDistinct (violation_names spec)

-- The rule declares the ID: as its own, or in its catalog.
abbrev pub Declares : RuleSpec → String → Type 0
Declares spec id = ((id ≢ "") × (id ≡ spec.id)) ⊎ In id (violation_names spec)

-- the IDs that `Run` leaves as they are
abbrev pub Admits : RuleSpec → String → Type 0
Admits spec id = Declares spec id ⊎ (is_meta id ≡ true)

pub rule_known_ids_iff :
    (spec : RuleSpec) (id : String) → In id (rule_known_ids spec) ↔ Declares spec id
unfolding rule_known_ids
rule_known_ids_iff spec id = elim (Bool-cases (spec.id == "")) [
  | inl e ↦ rw e (inr, ⊎_elim (λ h. absurd (h.0 (h.1 ∙ (eq_iff spec.id "").0 e))) (λ m. m))
  | inr e ↦ rw e (
    ⊎_elim (λ p. inl (λ q. absurd (cc (e, (eq_iff spec.id "").1 (sym p ∙ q))), p)) inr,
    ⊎_elim (λ h. inl h.1) inr,
  )
]

-- A list that begins with a fault unless `b`, and one that begins with a fault if `b`.
unless-nil_iff :
    (b : Bool) (e : String) (rest : List String)
    → ((if b then [] else e ∷ []) ++ rest ≡ []) ↔ ((b ≡ true) × (rest ≡ []))
unless-nil_iff true e rest = (λ h. (refl, h), λ h. h.1)
unless-nil_iff false e rest = (λ h. absurd (cc h), λ h. absurd (cc h.0))

when-nil_iff :
    (b : Bool) (e : String) (rest : List String)
    → ((if b then e ∷ [] else []) ++ rest ≡ []) ↔ ((b ≡ false) × (rest ≡ []))
when-nil_iff true e rest = (λ h. absurd (cc h), λ h. absurd (cc h.0))
when-nil_iff false e rest = (λ h. (refl, h), λ h. h.1)

fault-nil_iff : (b : Bool) (e : String) → ((if b then [] else e ∷ []) ≡ []) ↔ (b ≡ true)
fault-nil_iff true e = (λ h. refl, λ h. refl)
fault-nil_iff false e = (λ h. cc, λ h. cc)

not-contains_iff : (seen : List String) (l : String) → (contains seen l ≡ false) ↔ ¬ In l seen
not-contains_iff seen l = ground (arith, contains_iff seen l)

module _ (fmt : Format) where
  violation_severity_errors-nil_iff :
      (vs : List ViolationSpec)
      → (violation_severity_errors fmt vs ≡ []) ↔ All (λ v. IsSeverity v.default_severity) vs
  unfolding violation_severity_errors
  violation_severity_errors-nil_iff = flat_map-nil_iff _ _ λ v.
      let (to, of) = is_valid_severity_iff v.default_severity in
      let (back, forth) = fault-nil_iff (is_valid_severity v.default_severity) _ in
      (λ h. to (back h), λ h. forth (of h))

  duplicate_errors-nil_iff :
      (rule : String) (seen : List String) (vs : List ViolationSpec)
      → (duplicate_errors fmt rule seen vs ≡ [])
        ↔ (IsDistinct (map (λ v. v.id) vs) × All (λ l. ¬ In l seen) (map (λ v. v.id) vs))
  unfolding duplicate_errors
  duplicate_errors-nil_iff rule seen [] = (λ h. (tt, tt), λ h. refl)
  duplicate_errors-nil_iff rule seen (v ∷ vs) =
      let (split, join) =
        when-nil_iff (contains seen v.id) _ (duplicate_errors fmt rule (v.id ∷ seen) vs) in
      let (absent, known) = not-contains_iff seen v.id in
      let (down, up) = duplicate_errors-nil_iff rule (v.id ∷ seen) vs in
      let (apart, together) = fresh-cons v.id seen (map (λ w. w.id) vs) in
      (
        λ h.
            let (here, later) = split h in
            let (distinct, fresh) = down later in
            let (unlike, rest) = apart fresh in ((unlike, distinct), (absent here, rest)),
        λ ((unlike, distinct), (new, rest)).
            join (known new, up (distinct, together (unlike, rest))),
      )

  named_errors-nil_iff :
      (seen : List String) (spec : RuleSpec)
      → (named_errors fmt seen spec ≡ [])
        ↔ ((spec.id ≢ "" → IsDistinct (violation_names spec)) × (spec.id ≢ "" → ¬ In spec.id seen))
  unfolding named_errors
  named_errors-nil_iff seen spec = elim (Bool-cases (spec.id == "")) [
    | inl e ↦
        let same = (eq_iff spec.id "").0 e in
        rw e (λ h. (λ n. absurd (n same), λ n. absurd (n same)), λ h. refl)
    | inr e ↦
        let named : spec.id ≢ "" = λ p. absurd (cc (e, (eq_iff spec.id "").1 p)) in
        let (split, join) =
          when-nil_iff (contains seen spec.id) _
            (duplicate_errors fmt spec.id [] spec.violations) in
        let (absent, known) = not-contains_iff seen spec.id in
        let (down, up) = duplicate_errors-nil_iff spec.id [] spec.violations in
        rw e (
          λ h. let (here, later) = split h in (λ n. (down later).0, λ n. absent here),
          λ (distinct, new).
              join (known (new named), up (distinct named, All-of_forall _ _ λ l m k. k)),
        )
  ]

  spec_errors-nil_iff :
      (seen : List String) (spec : RuleSpec)
      → (spec_errors fmt seen spec ≡ []) ↔ (IsSound spec × (spec.id ≢ "" → ¬ In spec.id seen))
  unfolding spec_errors
  spec_errors-nil_iff seen spec =
      let (first, first') = unless-nil_iff (is_valid_severity spec.default_severity) _ _ in
      let (second, second') = append-nil_iff (violation_severity_errors fmt spec.violations) _ in
      let (named, named') = named_errors-nil_iff seen spec in
      let (valid, valid') = is_valid_severity_iff spec.default_severity in
      let (listed, listed') = violation_severity_errors-nil_iff spec.violations in
      (
        λ h.
            let (a, bc) = first h in
            let (b, c) = second bc in
            let (distinct, new) = named c in
            (record { severity = valid a; severities = listed b; distinct = distinct }, new),
        λ (sound, new). first' (
          valid' sound.severity,
          second' (listed' sound.severities, named' (sound.distinct, new)),
        ),
      )

  pub rule_set_errors-nil_iff :
      (seen : List String) (rs : List Rule)
      → (rule_set_errors fmt seen rs ≡ []) ↔ (
          All (λ r. IsSound r.spec) rs
          × IsDistinct (rule_names rs)
          × All (λ l. ¬ In l seen) (rule_names rs))
  unfolding rule_set_errors
  rule_set_errors-nil_iff seen [] = (λ h. (tt, tt, tt), λ h. refl)
  rule_set_errors-nil_iff seen (r ∷ rs) =
      let (here, there) = spec_errors-nil_iff seen r.spec in
      elim (Bool-cases (r.spec.id == "")) [
        | inl e ↦
            let same = (eq_iff r.spec.id "").0 e in
            let (split, join) = append-nil_iff (spec_errors fmt seen r.spec) _ in
            let (down, up) = rule_set_errors-nil_iff seen rs in
            rw e (
              λ h.
                  let (a, b) = split h in
                  let (sounds, distinct, fresh) = down b in (((here a).0, sounds), distinct, fresh),
              λ ((sound, sounds), distinct, fresh).
                  join (there (sound, λ n. absurd (n same)), (up (sounds, distinct, fresh))),
            )
        | inr e ↦
            let named : r.spec.id ≢ "" = λ p. absurd (cc (e, (eq_iff r.spec.id "").1 p)) in
            let (split, join) = append-nil_iff (spec_errors fmt seen r.spec) _ in
            let (down, up) = rule_set_errors-nil_iff (r.spec.id ∷ seen) rs in
            let (apart, together) = fresh-cons r.spec.id seen (rule_names rs) in
            rw e (
              λ h.
                  let (a, b) = split h in
                  let (sounds, distinct, fresh) = down b in
                  let (unlike, rest) = apart fresh in
                  (((here a).0, sounds), (unlike, distinct), ((here a).1 named, rest)),
              λ ((sound, sounds), (unlike, distinct), (new, rest)).
                  join (there (sound, λ n. new), (up (sounds, distinct, together (unlike, rest)))),
            )
      ]
