-- ===== src/Dependency/BlastRadius.antt =====
-- rules/dependency/blast_radius.go: the rule `dependency.blast-radius`. `severity` is the one that
-- `NewBlastRadius` took from its options; the maps are met in the order in which their keys came in.
pub mod Threshold
pub mod Dependents
pub mod Report
use go_arch_guard.Prelude.{
  ℕ, ◌+◌, ◌-◌, ◌*◌, String, Bool, not, ◌&&◌, Option, none, some, List, [], ◌∷◌, ◌==◌, ◌^^◌, Map,
  contains, has_prefix, map, length, ltb, leb, is_nil, filter_map, if◌then◌else◌,
}
use go_arch_guard.Prelude.Order.{str_lt}
use go_arch_guard.Prelude.Sort.{sort}
use go_arch_guard.Core.Violation.{Severity, Violation, RuleSpec}
use go_arch_guard.Core.Context.{Package, Context, context_arch}
use go_arch_guard.Analysis.Packages.{
  Host, resolve_module_from_context, project_relative_package_path,
}
use go_arch_guard.Coupling.{collect_nodes, forward_of, reverse_of, neighbours, search}
use go_arch_guard.Dependency.Classify.{
  is_excluded_package, validate_module, has_internal_packages, meta_layout_not_supported,
  violation_specs,
}
use Threshold.{blast_threshold}

unfoldable pub spec : Severity → RuleSpec
unfolding violation_specs
spec severity = record {
  id = "dependency.blast-radius";
  description = "internal packages with unusually many transitive dependents are coupling hotspots";
  default_severity = severity;
  violations = violation_specs severity ("dependency.high-coupling" ∷ []);
}

-- `instability` is a fraction: its numerator and its denominator.
pub record BlastMetrics : Type 0 where
  pub path : String
  pub ca : ℕ
  pub ce : ℕ
  pub instability : ℕ × ℕ
  pub transitive_dependents : ℕ

abbrev visited_or_nil : Option (List String) → List String
visited_or_nil none = []
visited_or_nil (some visited) = visited

-- `visited` after the loop; the fuel is the number of nodes
unfoldable pub visited_from : List String → Map (List String) → String → List String
visited_from nodes reverse pkg =
    visited_or_nil (search reverse (length nodes) (pkg ∷ []) (pkg ∷ []))

-- the body of the loop of `collectBlastMetrics`
unfoldable pub blast_metrics :
    List String → Map (List String) → Map (List String) → String → BlastMetrics
unfolding visited_from
blast_metrics nodes forward reverse pkg =
    let ca = length (neighbours reverse pkg) in
    let ce = length (neighbours forward pkg) in
    record {
      path = pkg;
      ca = ca;
      ce = ce;
      instability = if ltb 0 (ca + ce) then (ce, ca + ce) else (0, 1);
      transitive_dependents = length (visited_from nodes reverse pkg) - 1;
    }

unfoldable pub collect_blast_metrics :
    List String → Map (List String) → Map (List String) → List BlastMetrics
collect_blast_metrics nodes forward reverse = map (blast_metrics nodes forward reverse) nodes

-- How `fmt` prints a fraction with two digits, and eighths with none.
pub record Rounding : Type 0 where
  pub two_digits : ℕ × ℕ → String
  pub eighths : ℕ → String

module _ (host : Host) (rounding : Rounding) (severity : Severity) where
  -- the violation of a package over the threshold
  unfoldable pub hotspot : String → ℕ → BlastMetrics → Violation
  hotspot project_module threshold m =
      let rel_path = project_relative_package_path m.path project_module in
      let decimal = host.format.decimal in
      record {
        file = rel_path;
        line = 0;
        rule = "dependency.high-coupling";
        message =
            "package "
            ^^ host.format.quote rel_path
            ^^ " has "
            ^^ decimal m.transitive_dependents
            ^^ " transitive dependents (Ca:"
            ^^ decimal m.ca
            ^^ " Ce:"
            ^^ decimal m.ce
            ^^ " Instability:"
            ^^ rounding.two_digits m.instability
            ^^ ", threshold:"
            ^^ rounding.eighths threshold
            ^^ ")";
        fix =
            "consider breaking this package into smaller units or introducing an interface boundary";
        default_severity = severity;
        effective_severity = severity;
      }

  -- the body of the loop over the metrics
  unfoldable pub check_metrics : String → ℕ → BlastMetrics → Option Violation
  check_metrics project_module threshold m =
      if leb (8 * m.transitive_dependents) threshold
      then none
      else some (hotspot project_module threshold m)

  -- what follows the threshold
  unfoldable pub report_over : String → List BlastMetrics → Option ℕ → List Violation
  unfolding check_metrics
  report_over project_module metrics none = []
  report_over project_module metrics (some threshold) =
      sort (λ a b. str_lt a.file b.file)
        (filter_map (check_metrics project_module threshold) metrics)

  -- what follows the metrics
  unfoldable pub report_metrics : String → List BlastMetrics → List Violation
  unfolding report_over
  report_metrics project_module metrics =
      report_over project_module metrics
        (blast_threshold (sort ltb (map (λ m. m.transitive_dependents) metrics)))

  -- `internalPkgs`
  unfoldable pub internal_packages : Context → String → String → List String
  unfolding collect_nodes
  internal_packages ctx project_module prefix =
      collect_nodes
        (λ pkg.
          has_prefix pkg.pkg_path prefix
          && not (is_excluded_package ctx pkg.pkg_path project_module))
        [] ctx.pkgs

  unfoldable pub check : Context → List Violation
  unfolding report_metrics collect_blast_metrics internal_packages
  check ctx =
      let project_module = resolve_module_from_context ctx "" in
      let root = (context_arch ctx).layout.internal_root in
      let warns = validate_module host.format ctx.pkgs project_module in
      let nodes = internal_packages ctx project_module (project_module ^^ "/" ^^ root ^^ "/") in
      let forward = forward_of nodes ctx.pkgs in
      if not (is_nil warns)
      then warns
      else if not (has_internal_packages ctx.pkgs project_module root)
      then meta_layout_not_supported host.format "dependency.blast-radius" project_module ∷ []
      else if ltb (length nodes) 5
      then []
      else report_metrics project_module
          (collect_blast_metrics nodes forward (reverse_of nodes forward))
