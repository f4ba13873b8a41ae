-- ===== src/Dependency/BlastRadius/Report.antt =====
-- What the rule reports over the threshold.
use go_arch_guard.Prelude.{
  ℕ, ◌+◌, ◌*◌, ◌≤◌, String, Option, none, some, List, [], ◌∷◌, ◌≡◌, length, ltb, map, filter,
  filter_map, arith, refl, ◌∙◌, ap,
}
use go_arch_guard.Prelude.Order.{str_lt, ℕ-IsLinear}
use go_arch_guard.Prelude.Sort.{sort, length-sort, sort-IsSorted, filter-sort}
use go_arch_guard.Core.Violation.{Severity}
use go_arch_guard.Analysis.Packages.{Host}
use go_arch_guard.Dependency.BlastRadius.{
  BlastMetrics, Rounding, check_metrics, report_over, report_metrics,
}
use go_arch_guard.Dependency.BlastRadius.Threshold.{blast_threshold}
use go_arch_guard.Dependency.BlastRadius.Threshold.Bounds.{above, above-blast_threshold}

length-above-sort : (t : ℕ) (xs : List ℕ) → length (above t (sort ltb xs)) ≡ length (above t xs)
length-above-sort t xs =
    ap length (filter-sort ltb ℕ-IsLinear.weak (λ v. ltb t (8 * v)) xs)
    ∙ length-sort ltb (above t xs)

module _ (host : Host) (rounding : Rounding) (severity : Severity) where
  -- the values of the metrics
  abbrev values : List BlastMetrics → List ℕ
  values metrics = map (λ m. m.transitive_dependents) metrics

  length-values : (metrics : List BlastMetrics) → length (values metrics) ≡ length metrics
  length-values [] = omega arith
  length-values (m ∷ metrics) = omega (arith, length-values metrics)

  reported_count :
      (project_module : String) (t : ℕ) (metrics : List BlastMetrics)
      → length (filter_map (check_metrics host rounding severity project_module t) metrics)
        ≡ length (above t (values metrics))
  unfolding check_metrics filter_map filter
  reported_count project_module t [] = omega arith
  reported_count project_module t (m ∷ metrics) =
      ground (arith, reported_count project_module t metrics)

  report_over_bounds :
      (project_module : String) (metrics : List BlastMetrics) (o : Option ℕ)
      → blast_threshold (sort ltb (values metrics)) ≡ o
      → 4 * length (report_over host rounding severity project_module metrics o)
        ≤ length metrics + 2
  unfolding report_over
  report_over_bounds project_module metrics none e = omega arith
  report_over_bounds project_module metrics (some t) e = omega (
    arith,
    length-sort (λ a b. str_lt a.file b.file)
        (filter_map (check_metrics host rounding severity project_module t) metrics),
    reported_count project_module t metrics,
    above-blast_threshold (sort ltb (values metrics)) t
        (sort-IsSorted ltb ℕ-IsLinear.weak (values metrics)) e,
    length-above-sort t (values metrics),
    length-sort ltb (values metrics),
    length-values metrics,
  )

  -- Whatever the metrics, the rule reports at most a quarter of the packages, rounded to
  -- the nearest number.
  pub report_metrics_bounds :
      (project_module : String) (metrics : List BlastMetrics)
      → 4 * length (report_metrics host rounding severity project_module metrics)
        ≤ length metrics + 2
  unfolding report_metrics
  report_metrics_bounds project_module metrics =
      report_over_bounds project_module metrics (blast_threshold (sort ltb (values metrics))) refl
