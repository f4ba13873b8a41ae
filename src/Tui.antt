-- ===== src/Tui.antt =====
-- tui/metrics.go: the metrics that the terminal interface shows of a package. `instability` is a
-- fraction; the graph and the search are those of the module Coupling.
pub mod Shown
pub mod Violations
use go_arch_guard.Prelude.{
  ℕ, ◌+◌, ◌-◌, String, ltb, List, [], ◌^^◌, Map, length, has_prefix, map, if◌then◌else◌,
}
use go_arch_guard.Core.Context.{Package}
use go_arch_guard.Coupling.{collect_nodes, forward_of, reverse_of, neighbours}
use go_arch_guard.Dependency.BlastRadius.{visited_from}

pub record PkgMetrics : Type 0 where
  pub ca : ℕ
  pub ce : ℕ
  pub instability : ℕ × ℕ
  pub transitive_dependents : ℕ

unfoldable pub internal_pkgs : List Package → String → List String
unfolding collect_nodes has_prefix
internal_pkgs pkgs project_module =
    collect_nodes (λ pkg. has_prefix pkg.pkg_path (project_module ^^ "/internal/")) [] pkgs

-- the body of the loop over the packages
unfoldable pub pkg_metrics :
    List String → Map (List String) → Map (List String) → String → PkgMetrics
unfolding visited_from
pkg_metrics nodes forward reverse pkg =
    let ca = length (neighbours reverse pkg) in
    let ce = length (neighbours forward pkg) in
    record {
      ca = ca;
      ce = ce;
      instability = if ltb 0 (ca + ce) then (ce, ca + ce) else (0, 1);
      transitive_dependents = length (visited_from nodes reverse pkg) - 1;
    }

unfoldable pub build_metrics_index : List Package → String → Map PkgMetrics
unfolding internal_pkgs pkg_metrics forward_of reverse_of
build_metrics_index pkgs project_module =
    let nodes = internal_pkgs pkgs project_module in
    let forward = forward_of nodes pkgs in
    map (λ pkg. (pkg, pkg_metrics nodes forward (reverse_of nodes forward) pkg)) nodes
