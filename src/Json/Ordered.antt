-- ===== src/Json/Ordered.antt =====
-- The violations of the report.
use go_arch_guard.Prelude.{List, [], ◌∷◌, ◌++◌, ◌≡◌, refl, sym, ◌∙◌, ap, map}
use go_arch_guard.Prelude.Sort.{sort, sort_of_IsSorted}
use go_arch_guard.Core.Violation.{Format, Violation}
use go_arch_guard.Core.Context.{Context}
use go_arch_guard.Core.Options.{RunOption}
use go_arch_guard.Core.RuleSet.{RuleSet}
use go_arch_guard.Core.Runner.{violation_less, returns, run}
use go_arch_guard.Core.Runner.Output.{violation_order, run-IsSorted}
use go_arch_guard.Json.{
  Tally, json_violation, count_violation, count_violations, no_violations, build_json_report,
}

append_nil : {A : Type 0} (xs : List A) → xs ++ [] ≡ xs
append_nil [] = refl
append_nil (x ∷ xs) = ap (λ zs. x ∷ zs) (append_nil xs)

append_snoc : {A : Type 0} (xs ys : List A) (a : A) → (xs ++ a ∷ []) ++ ys ≡ xs ++ a ∷ ys
append_snoc [] ys a = refl
append_snoc (x ∷ xs) ys a = ap (λ zs. x ∷ zs) (append_snoc xs ys a)

listed_lem :
    (t : Tally) (vs : List Violation)
    → (count_violations t vs).listed ≡ t.listed ++ map json_violation vs
unfolding count_violations
listed_lem t [] = sym (append_nil t.listed)
listed_lem t (v ∷ vs) =
    listed_lem (count_violation t v) vs
    ∙ append_snoc t.listed (map json_violation vs) (json_violation v)

-- The report of what a run returns lists its violations one by one in the run's own order.
pub build_json_report-run :
    (fmt : Format) (ctx : Context) (rules : RuleSet) (opts : List RunOption) (vs : List Violation)
    → run fmt ctx rules opts ≡ returns vs
    → (build_json_report vs).violations ≡ map json_violation vs
unfolding build_json_report
build_json_report-run fmt ctx rules opts vs returned =
    listed_lem no_violations (sort violation_less vs)
    ∙ ap (map json_violation) (
        sort_of_IsSorted violation_less violation_order vs
          (run-IsSorted fmt ctx rules opts vs returned))
