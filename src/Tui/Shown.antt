-- ===== src/Tui/Shown.antt =====
-- What the interface shows of a package.
use go_arch_guard.Prelude.{
  String, true, some, List, [], ◌∷◌, ◌==◌, ◌^^◌, ◌≡◌, ◌≢◌, ◌↔◌, inl, inr, refl, ap, lookup, map,
  length, has_prefix, In, IsDistinct, arith, eq_iff, Bool-cases,
}
use go_arch_guard.Core.Context.{Package}
use go_arch_guard.Coupling.{forward_of, reverse_of}
use go_arch_guard.Coupling.Edges.{paths, In-collect_nodes}
use go_arch_guard.Dependency.BlastRadius.{blast_metrics}
use go_arch_guard.Dependency.BlastRadius.Dependents.{DependsOn, transitive_dependents_correct}
use go_arch_guard.Tui.{PkgMetrics, internal_pkgs, pkg_metrics, build_metrics_index}

lookup-map :
    {A : Type 0} (f : String → A) (keys : List String) (k : String)
    → In k keys
    → lookup (map (λ n. (n, f n)) keys) k ≡ some (f k)
unfolding lookup
lookup-map f [] k m = elim m [ ]
lookup-map f (n ∷ keys) k m = elim (Bool-cases (n == k)) [
  | inl e ↦ rw e (ap (λ x. some (f x)) ((eq_iff n k).0 e))
  | inr e ↦ rw e (lookup-map f keys k (ground (arith, m, e, eq_iff n k)))
]

In-internal_pkgs :
    (pkgs : List Package) (project_module : String) (p : Package)
    → In p pkgs
    → has_prefix p.pkg_path (project_module ^^ "/internal/") ≡ true
    → In p.pkg_path (internal_pkgs pkgs project_module)
unfolding internal_pkgs
In-internal_pkgs pkgs project_module p m h =
    (In-collect_nodes (λ pkg. has_prefix pkg.pkg_path (project_module ^^ "/internal/")) [] pkgs
        p.pkg_path).1
      (inr (p, m, h, refl))

-- Over packages with distinct paths, a package under `internal` has metrics, and the transitive
-- dependents shown are the other packages under `internal` from which a chain of imports leads to it.
pub build_metrics_index_correct :
    (pkgs : List Package) (project_module : String) (p : Package)
    → IsDistinct (paths pkgs)
    → In p pkgs
    → has_prefix p.pkg_path (project_module ^^ "/internal/") ≡ true
    → (m : PkgMetrics) × (lookup (build_metrics_index pkgs project_module) p.pkg_path ≡ some m)
      × ((ds : List String) × IsDistinct ds
          × ((x : String)
              → In x ds ↔ (
                  DependsOn (internal_pkgs pkgs project_module) pkgs p.pkg_path x
                  × (x ≢ p.pkg_path)))
          × (m.transitive_dependents ≡ length ds))
unfolding build_metrics_index pkg_metrics blast_metrics
build_metrics_index_correct pkgs project_module p distinct member inside =
    let nodes = internal_pkgs pkgs project_module in
    let forward = forward_of nodes pkgs in
    let node = In-internal_pkgs pkgs project_module p member inside in
    (
      pkg_metrics nodes forward (reverse_of nodes forward) p.pkg_path,
      lookup-map (pkg_metrics nodes forward (reverse_of nodes forward)) nodes p.pkg_path node,
      transitive_dependents_correct nodes pkgs distinct p.pkg_path node,
    )
