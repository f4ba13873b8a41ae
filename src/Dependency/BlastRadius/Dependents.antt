-- ===== src/Dependency/BlastRadius/Dependents.antt =====
-- What the metrics count: the packages from which a chain of imports leads to a package.
use go_arch_guard.Prelude.{
  ◌-◌, String, List, [], ◌∷◌, ◌≡◌, ◌≢◌, ◌↔◌, refl, sym, Map, In, All, All-of_forall, length,
  IsDistinct, arith,
}
use go_arch_guard.Core.Context.{Package}
use go_arch_guard.Coupling.{neighbours, reverse_of, forward_of}
use go_arch_guard.Coupling.Visits.{HeadIs, Reach, here, step, search_correct}
use go_arch_guard.Coupling.Edges.{Imports, paths, reverse_of-Imports}
use go_arch_guard.Dependency.BlastRadius.{visited_from, blast_metrics}

-- a chain of imports from the second package to the first
pub data DependsOn (nodes : List String) (pkgs : List Package) (target : String)
    : String → Type 0 where
  itself : DependsOn nodes pkgs target target
  through :
      {a b : String}
      → Imports nodes pkgs a b
      → DependsOn nodes pkgs target b
      → DependsOn nodes pkgs target a

module _ (nodes : List String) (pkgs : List Package) (distinct : IsDistinct (paths pkgs)) where
  abbrev reverse : Map (List String)
  reverse = reverse_of nodes (forward_of nodes pkgs)

  reverse-closed : (u : String) → All (λ d. In d nodes) (neighbours reverse u)
  reverse-closed u =
      All-of_forall _ (neighbours reverse u)
        λ d m. let (p, i, e, b, x, y) = (reverse_of-Imports nodes pkgs d u distinct).0 m in x

  DependsOn-of_Reach : (target a : String) → Reach reverse target a → DependsOn nodes pkgs target a
  DependsOn-of_Reach target _ here = itself
  DependsOn-of_Reach target a (step {u} r m) =
      through ((reverse_of-Imports nodes pkgs a u distinct).0 m) (DependsOn-of_Reach target u r)

  Reach-of_DependsOn : (target a : String) → DependsOn nodes pkgs target a → Reach reverse target a
  Reach-of_DependsOn target _ itself = here
  Reach-of_DependsOn target a (through {b} i d) =
      step (Reach-of_DependsOn target b d) ((reverse_of-Imports nodes pkgs a b distinct).1 i)

  -- the search of the metrics
  visited_from_correct :
      (target : String)
      → In target nodes
      → (t : List String) × (visited_from nodes reverse target ≡ t)
        × IsDistinct t
        × HeadIs target t
        × ((x : String) → In x t ↔ Reach reverse target x)
  unfolding visited_from
  visited_from_correct target m =
      let (t, e, d, h, r) =
        search_correct reverse nodes reverse-closed target (length nodes) m (omega arith) in
      (t, rw (e) refl, d, h, r)

  tail_correct :
      (target : String) (t : List String)
      → IsDistinct t
      → HeadIs target t
      → (ds : List String) × IsDistinct ds
        × (length ds ≡ length t - 1)
        × ((x : String) → In x ds ↔ (In x t × (x ≢ target)))
  tail_correct target [] d h = elim h [ ]
  tail_correct target (y ∷ ds) (n, d) h = (ds, d, omega arith, λ x. ground (arith, h))

  -- Over packages with distinct paths, the number of transitive dependents of a package of the graph
  -- is the number of the other packages from which a chain of imports inside the graph leads to it.
  pub transitive_dependents_correct :
      (target : String)
      → In target nodes
      → (ds : List String) × IsDistinct ds
        × ((x : String) → In x ds ↔ (DependsOn nodes pkgs target x × (x ≢ target)))
        × ((blast_metrics nodes (forward_of nodes pkgs) reverse target).transitive_dependents
            ≡ length ds)
  unfolding blast_metrics
  transitive_dependents_correct target m =
      let (t, e, d, h, r) = visited_from_correct target m in
      let (ds, dd, len, members) = tail_correct target t d h in
      (
        ds,
        dd,
        λ x. (
          λ i. let (it, ne) = (members x).0 i in (DependsOn-of_Reach target x ((r x).0 it), ne),
          λ (dep, ne). (members x).1 ((r x).1 (Reach-of_DependsOn target x dep), ne),
        ),
        rw (e) (sym len),
      )
