-- ===== src/Examples/Purity.antt =====
-- The claims on calls with side effects and on the metrics of the terminal interface.
use go_arch_guard.Prelude.{
  String, true, false, some, List, [], ◌∷◌, ◌^^◌, ◌≡◌, ◌≢◌, ◌↔◌, inl, inr, refl, arith, eq_iff, In,
  All, IsDistinct, length, lookup, has_prefix, cut_prefix,
}
use go_arch_guard.Core.Violation.{warning, error, Violation}
use go_arch_guard.Core.Context.{Package, context_arch}
use go_arch_guard.Coupling.Edges.{paths}
use go_arch_guard.Dependency.BlastRadius.Dependents.{DependsOn}
use go_arch_guard.Dependency.Options
use go_arch_guard.Dependency.SideEffects as Purity
use go_arch_guard.Dependency.SideEffects.{
  CallFile, match_call_pattern, inspected_layers, is_inspected_layer_package,
  validate_side_effect_module, restricted_layers,
}
use go_arch_guard.Dependency.SideEffects.Patterns.{Matches, match_call_pattern_iff}
use go_arch_guard.Dependency.SideEffects.Inspected.{IsLookedAt, IsModuleKnown}
use go_arch_guard.Dependency.SideEffects.Clean.{module_of, PurePackage, side_effect_check-nil_iff}
use go_arch_guard.Tui.{PkgMetrics, internal_pkgs, build_metrics_index}
use go_arch_guard.Tui.Shown.{build_metrics_index_correct}
use go_arch_guard.Tui.Violations.{index_violations, severity, sev_error}
use go_arch_guard.Tui.Violations.Worst.{Some, IsErrorUnder, severity-error_iff}
use go_arch_guard.Examples.Project.{clean, host, importing}

-- two packages under internal
abbrev inside : List Package
inside = importing "m/internal/a" "m/internal/b" ∷ importing "m/internal/b" "fmt" ∷ []

inside-IsDistinct : IsDistinct (paths inside)
inside-IsDistinct = (λ m. ground (arith, eq_iff "m/internal/a" "m/internal/b"), ((λ m. m), tt))

under_internal : has_prefix "m/internal/b" ("m" ^^ "/internal/") ≡ true
unfolding has_prefix cut_prefix
under_internal = refl

build_metrics_index_correct_example :
    (m : PkgMetrics) × (lookup (build_metrics_index inside "m") "m/internal/b" ≡ some m)
    × ((ds : List String) × IsDistinct ds
        × ((x : String)
            → In x ds ↔ (
                DependsOn (internal_pkgs inside "m") inside "m/internal/b" x
                × (x ≢ "m/internal/b")))
        × (m.transitive_dependents ≡ length ds))
build_metrics_index_correct_example =
    build_metrics_index_correct inside "m" (importing "m/internal/b" "fmt") inside-IsDistinct
      (inr (inl refl)) under_internal

match_call_pattern_iff_example :
    (match_call_pattern "math/rand.*" "math/rand.Intn" ≡ true)
    ↔ Matches "math/rand.*" "math/rand.Intn"
match_call_pattern_iff_example = match_call_pattern_iff "math/rand.*" "math/rand.Intn"

abbrev calls : Package → List CallFile
calls pkg =
    record {
      filename = "order.go";
      generated = false;
      calls = record { call_id = "time.Now"; filename = "order.go"; line = 7 } ∷ [];
    }
    ∷ []

abbrev purity : Options.RuleConfig
purity = Options.new_config [] warning

side_effect_check-nil_iff_example : (Purity.check host calls purity clean ≡ []) ↔ (
    IsModuleKnown clean.pkgs (module_of clean)
    × All
        (λ pkg.
          IsLookedAt purity (context_arch clean) (module_of clean) pkg
          → PurePackage host calls purity clean pkg)
        clean.pkgs)
side_effect_check-nil_iff_example = side_effect_check-nil_iff host calls purity clean

abbrev leak : Violation
leak = record {
  file = "internal/a/";
  line = 0;
  rule = "isolation.cross-domain";
  message = "";
  fix = "";
  default_severity = error;
  effective_severity = error;
}

severity-error_iff_example :
    (severity (index_violations [] (leak ∷ [])) "internal" ≡ sev_error)
    ↔ Some (IsErrorUnder "internal") (leak ∷ [])
severity-error_iff_example = severity-error_iff (leak ∷ []) "internal"
