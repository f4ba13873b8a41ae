-- ===== src/Examples/Hotspots.antt =====
-- The claims on the graph of imports, on the rule over it and on the report for other programs.
use go_arch_guard.Prelude.{
  ℕ, ◌+◌, ◌*◌, ◌≤◌, String, some, List, [], ◌∷◌, ◌≡◌, ◌≢◌, ◌↔◌, inl, inr, refl, arith, eq_iff, In,
  All, IsDistinct, Map, length, lookup,
}
use go_arch_guard.Prelude.Order.{str_lt}
use go_arch_guard.Prelude.Sort.{IsSorted, Pairs}
use go_arch_guard.Core.Violation.{warning}
use go_arch_guard.Core.Context.{Package}
use go_arch_guard.Coupling.{neighbours, forward_of, reverse_of, search}
use go_arch_guard.Coupling.Visits.{HeadIs, Reach, search_correct}
use go_arch_guard.Coupling.Edges.{Imports, paths, reverse_of-Imports}
use go_arch_guard.Dependency.BlastRadius.{BlastMetrics, Rounding, blast_metrics, report_metrics}
use go_arch_guard.Dependency.BlastRadius.Dependents.{DependsOn, transitive_dependents_correct}
use go_arch_guard.Dependency.BlastRadius.Report.{report_metrics_bounds}
use go_arch_guard.Json.{build_json_report}
use go_arch_guard.Json.Summary.{
  Counted, Names, build_json_report_counts, build_json_report-rules, build_json_report-files,
}
use go_arch_guard.Examples.Project.{host, importing, panic_violation}

-- a chain of three packages
abbrev three : List Package
three = importing "a" "b" ∷ importing "b" "c" ∷ importing "c" "fmt" ∷ []

abbrev names : List String
names = "a" ∷ "b" ∷ "c" ∷ []

three-IsDistinct : IsDistinct (paths three)
three-IsDistinct = (
  λ m. ground (arith, eq_iff "a" "b", eq_iff "a" "c"),
  (λ m. ground (arith, eq_iff "b" "c"), ((λ m. m), tt)),
)

abbrev graph : Map (List String)
graph = ("a", "b" ∷ []) ∷ ("b", "a" ∷ []) ∷ []

graph-closed : (u : String) → All (λ d. In d names) (neighbours graph u)
unfolding lookup
graph-closed u = ground arith

search_correct_example :
    (t : List String) × (search graph 3 ("a" ∷ []) ("a" ∷ []) ≡ some t)
    × IsDistinct t
    × HeadIs "a" t
    × ((x : String) → In x t ↔ Reach graph "a" x)
search_correct_example = search_correct graph names graph-closed "a" 3 (inl refl) (omega arith)

reverse_of-Imports_example :
    In "a" (neighbours (reverse_of names (forward_of names three)) "b")
    ↔ Imports names three "a" "b"
reverse_of-Imports_example = reverse_of-Imports names three "a" "b" three-IsDistinct

transitive_dependents_correct_example :
    (ds : List String) × IsDistinct ds
    × ((x : String) → In x ds ↔ (DependsOn names three "c" x × (x ≢ "c")))
    × ((blast_metrics names
          (forward_of names three)
          (reverse_of names (forward_of names three))
          "c").transitive_dependents
        ≡ length ds)
transitive_dependents_correct_example =
    transitive_dependents_correct names three three-IsDistinct "c" (inr (inr (inl refl)))

abbrev rounding : Rounding
rounding = record { two_digits = λ r. "r"; eighths = λ n. "t" }

abbrev metric : String → ℕ → BlastMetrics
metric path n = record {
  path = path;
  ca = n;
  ce = 1;
  instability = (1, n + 1);
  transitive_dependents = n;
}

-- one package far above the four others
abbrev metrics : List BlastMetrics
metrics = metric "m/a" 0 ∷ metric "m/b" 1 ∷ metric "m/c" 1 ∷ metric "m/d" 2 ∷ metric "m/e" 9 ∷ []

report_metrics_bounds_example :
    4 * length (report_metrics host rounding warning "m" metrics) ≤ length metrics + 2
report_metrics_bounds_example = report_metrics_bounds host rounding warning "m" metrics

build_json_report_counts_example :
    let s = (build_json_report (panic_violation ∷ [])).summary in
    Counted (panic_violation ∷ []) s.errors s.warnings × (s.total ≡ 1)
build_json_report_counts_example = build_json_report_counts (panic_violation ∷ [])

build_json_report-rules_example :
    let rules = (build_json_report (panic_violation ∷ [])).summary.rules in
    IsSorted str_lt rules
    × Pairs (λ a b. a ≢ b) rules
    × ((r : String) → In r rules ↔ Names (λ v. v.rule) (panic_violation ∷ []) r)
build_json_report-rules_example = build_json_report-rules (panic_violation ∷ [])

build_json_report-files_example :
    (files : List String) × IsDistinct files
    × ((f : String) → In f files ↔ Names (λ v. v.file) (panic_violation ∷ []) f)
    × ((build_json_report (panic_violation ∷ [])).summary.files ≡ length files)
build_json_report-files_example = build_json_report-files (panic_violation ∷ [])
