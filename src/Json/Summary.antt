-- ===== src/Json/Summary.antt =====
-- The numbers of the summary against the violations.
use go_arch_guard.Prelude.{
  ℕ, suc, Bool, true, not, filter, Bool-cases, ◌+◌, String, ◌==◌, List, [], ◌∷◌, ◌≡◌, ◌≢◌, ◌↔◌, ◌⊎◌,
  inl, inr, ⊎_elim, refl, sym, ◌∙◌, ap, subst, arith, length, In, All-of_forall, IsDistinct,
  IsDistinct-add, In-add_iff, add, eq_iff, if◌then◌else◌,
}
use go_arch_guard.Prelude.Order.{str_lt, str-IsLinear}
use go_arch_guard.Prelude.Sort.{
  sort, length-sort, filter-sort, In-sort_iff, Pairs, Pairs-sort, IsSorted, sort-IsSorted,
}
use go_arch_guard.Core.Violation.{Severity, error, warning, other, Violation}
use go_arch_guard.Core.Runner.Output.{violation_order}
use go_arch_guard.Core.Runner.{violation_less}
use go_arch_guard.Json.{
  Tally, count_violation, count_violations, no_violations, is_warning, build_json_report,
}

-- Among the violations, `errors` are in effect no warnings and `warnings` are warnings.
pub data Counted : List Violation → ℕ → ℕ → Type 0 where
  none_left : Counted [] 0 0
  warns :
      {v : Violation} {vs : List Violation} {errors warnings : ℕ}
      → v.effective_severity ≡ warning
      → Counted vs errors warnings
      → Counted (v ∷ vs) errors (suc warnings)
  fails :
      {v : Violation} {vs : List Violation} {errors warnings : ℕ}
      → v.effective_severity ≢ warning
      → Counted vs errors warnings
      → Counted (v ∷ vs) (suc errors) warnings

abbrev warns_in_effect : Violation → Bool
warns_in_effect v = is_warning v.effective_severity

is_warning_iff : (s : Severity) → (is_warning s ≡ true) ↔ (s ≡ warning)
is_warning_iff error = (λ h. cc h, λ h. cc h)
is_warning_iff warning = (λ h. refl, λ h. refl)
is_warning_iff (other i) = (λ h. cc h, λ h. cc h)

abbrev errors_of : List Violation → ℕ
errors_of vs = length (filter (λ v. not (warns_in_effect v)) vs)

abbrev warnings_of : List Violation → ℕ
warnings_of vs = length (filter warns_in_effect vs)

Counted-of : (vs : List Violation) → Counted vs (errors_of vs) (warnings_of vs)
unfolding filter
Counted-of [] = none_left
Counted-of (v ∷ vs) = elim (Bool-cases (warns_in_effect v)) [
  | inl e ↦ rw e (warns ((is_warning_iff v.effective_severity).0 e) (Counted-of vs))
  | inr e ↦
      rw e (fails (λ p. absurd (cc (e, (is_warning_iff v.effective_severity).1 p))) (Counted-of vs))
]

counts_lem :
    (t : Tally) (vs : List Violation)
    → ((count_violations t vs).errors ≡ t.errors + errors_of vs)
      × ((count_violations t vs).warnings ≡ t.warnings + warnings_of vs)
      × ((count_violations t vs).total ≡ t.total + length vs)
unfolding count_violations filter
counts_lem t [] = (omega arith, omega arith, omega arith)
counts_lem t (v ∷ vs) = ground (arith, counts_lem (count_violation t v) vs)

length-filter-sort :
    (p : Violation → Bool) (vs : List Violation)
    → length (filter p (sort violation_less vs)) ≡ length (filter p vs)
length-filter-sort p vs =
    ap length (filter-sort violation_less violation_order p vs)
    ∙ length-sort violation_less (filter p vs)

-- a name that is not empty and is the key of one of the violations
module _ (key : Violation → String) where
  abbrev pub Names : List Violation → String → Type 0
  Names vs r = (r ≢ "") × ((v : Violation) × In v vs × (r ≡ key v))

  -- the loop's update of one of its sets
  abbrev pub add_key : List String → Violation → List String
  add_key set v = if key v == "" then set else add (key v) set

  abbrev pub add_keys : List String → List Violation → List String
  add_keys set [] = set
  add_keys set (v ∷ vs) = add_keys (add_key set v) vs

  add_keys-IsDistinct :
      (set : List String) (vs : List Violation) → IsDistinct set → IsDistinct (add_keys set vs)
  add_keys-IsDistinct set [] d = d
  add_keys-IsDistinct set (v ∷ vs) d =
      add_keys-IsDistinct (add_key set v) vs (ground (arith, IsDistinct-add (key v) set d))

  Names-cons :
      (v : Violation) (vs : List Violation) (r : String)
      → Names (v ∷ vs) r ↔ (((r ≢ "") × (r ≡ key v)) ⊎ Names vs r)
  Names-cons v vs r = (
    λ (ne, found).
        let (w, m, e) = found in
        elim m [ inl same ↦ inl (ne, e ∙ ap key same) | inr m' ↦ inr (ne, (w, m', e)) ],
    ⊎_elim (λ (ne, e). (ne, (v, inl refl, e)))
        (λ (ne, found). (ne, (found.0, inr found.1, found.2))),
  )

  In-add_keys :
      (set : List String) (vs : List Violation) (r : String)
      → In r (add_keys set vs) ↔ (In r set ⊎ Names vs r)
  In-add_keys set [] r = (inl, ⊎_elim (λ m. m) (λ (ne, found). elim found.1 [ ]))
  In-add_keys set (v ∷ vs) r =
      let here : In r (add_key set v) ↔ (In r set ⊎ ((r ≢ "") × (r ≡ key v))) =
        ground (arith, In-add_iff r (key v) set, eq_iff (key v) "") in
      ground (arith, here, In-add_keys (add_key set v) vs r, Names-cons v vs r)

rule_set_lem :
    (t : Tally) (vs : List Violation)
    → (count_violations t vs).rule_set ≡ add_keys (λ v. v.rule) t.rule_set vs
unfolding count_violations
rule_set_lem t [] = refl
rule_set_lem t (v ∷ vs) = rule_set_lem (count_violation t v) vs

files_lem :
    (t : Tally) (vs : List Violation)
    → (count_violations t vs).files ≡ add_keys (λ v. v.file) t.files vs
unfolding count_violations
files_lem t [] = refl
files_lem t (v ∷ vs) = files_lem (count_violation t v) vs

Names-sort :
    (key : Violation → String) (vs : List Violation) (r : String)
    → Names key (sort violation_less vs) r ↔ Names key vs r
Names-sort key vs r = (
  λ (ne, found). (ne, (found.0, (In-sort_iff violation_less found.0 vs).0 found.1, found.2)),
  λ (ne, found). (ne, (found.0, (In-sort_iff violation_less found.0 vs).1 found.1, found.2)),
)

Pairs-of_IsDistinct : (xs : List String) → IsDistinct xs → Pairs (λ a b. a ≢ b) xs
Pairs-of_IsDistinct [] d = tt
Pairs-of_IsDistinct (x ∷ xs) (n, d) =
    (All-of_forall _ xs λ y m e. n (subst (λ z. In z xs) (sym e) m), Pairs-of_IsDistinct xs d)

-- The total is the number of violations, `warnings` is the number of those whose effective severity is
-- Warning, and `errors` the number of the others.
pub build_json_report_counts :
    (vs : List Violation)
    → let s = (build_json_report vs).summary in
      Counted vs s.errors s.warnings × (s.total ≡ length vs)
unfolding build_json_report
build_json_report_counts vs =
    let t = count_violations no_violations (sort violation_less vs) in
    let counted = counts_lem no_violations (sort violation_less vs) in
    let errors : t.errors ≡ errors_of vs =
      omega (arith, counted, length-filter-sort (λ v. not (warns_in_effect v)) vs) in
    let warnings : t.warnings ≡ warnings_of vs =
      omega (arith, counted, length-filter-sort warns_in_effect vs) in
    (rw (errors, warnings) (Counted-of vs), omega (arith, counted, length-sort violation_less vs))

-- The rules are the names of rules that are not empty, each once, in order.
pub build_json_report-rules :
    (vs : List Violation)
    → let rules = (build_json_report vs).summary.rules in
      IsSorted str_lt rules
      × Pairs (λ a b. a ≢ b) rules
      × ((r : String) → In r rules ↔ Names (λ v. v.rule) vs r)
unfolding build_json_report
build_json_report-rules vs =
    let sorted = sort violation_less vs in
    let set = (count_violations no_violations sorted).rule_set in
    let e = rule_set_lem no_violations sorted in
    let distinct : IsDistinct set =
      subst IsDistinct (sym e) (add_keys-IsDistinct (λ v. v.rule) [] sorted tt) in
    (
      sort-IsSorted str_lt str-IsLinear.weak set,
      Pairs-sort str_lt (λ a b. a ≢ b) (λ a b n e. n (sym e)) set
          (Pairs-of_IsDistinct set distinct),
      λ r.
          let member : In r set ↔ Names (λ v. v.rule) sorted r =
            rw e ground (arith, In-add_keys (λ v. v.rule) [] sorted r) in
          let (a, b) = In-sort_iff str_lt r set in
          let (c, d) = Names-sort (λ v. v.rule) vs r in
          (λ m. c (member.0 (a m)), λ n. b (member.1 (d n))),
    )

-- The number of files is the number of distinct names of files that are not empty.
pub build_json_report-files :
    (vs : List Violation)
    → (files : List String) × IsDistinct files
      × ((f : String) → In f files ↔ Names (λ v. v.file) vs f)
      × ((build_json_report vs).summary.files ≡ length files)
unfolding build_json_report
build_json_report-files vs =
    let sorted = sort violation_less vs in
    let e = files_lem no_violations sorted in
    (
      add_keys (λ v. v.file) [] sorted,
      add_keys-IsDistinct (λ v. v.file) [] sorted tt,
      λ f.
          let member = In-add_keys (λ v. v.file) [] sorted f in
          let (c, d) = Names-sort (λ v. v.file) vs f in
          (λ m. ⊎_elim (λ k. elim k [ ]) c (member.0 m), λ n. member.1 (inr (d n))),
      ap length e,
    )
