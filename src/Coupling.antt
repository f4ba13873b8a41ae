-- ===== src/Coupling.antt =====
-- The graph of imports and its searches, as rules/dependency/blast_radius.go and tui/metrics.go both
-- write them out.
pub mod Visits
pub mod Edges
use go_arch_guard.Prelude.{
  ℕ, zero, suc, String, Bool, Option, none, some, List, [], ◌∷◌, ◌++◌, Map, lookup, put, contains,
  add, map, if◌then◌else◌,
}
use go_arch_guard.Core.Context.{Package}

-- the keys of `internalPkgs`, after the loop over the packages
unfoldable pub collect_nodes : (Package → Bool) → List String → List Package → List String
collect_nodes keep set [] = set
collect_nodes keep set (p ∷ ps) = collect_nodes keep (if keep p then add p.pkg_path set else set) ps

-- the loop over the imports of one package
unfoldable pub collect_deps : List String → List String → List String → List String
collect_deps nodes deps [] = deps
collect_deps nodes deps (i ∷ imports) =
    collect_deps nodes (if contains nodes i then add i deps else deps) imports

-- the loop that fills `forward`
unfoldable pub collect_forward : List String → Map (List String) → List Package → Map (List String)
collect_forward nodes forward [] = forward
collect_forward nodes forward (p ∷ ps) =
    collect_forward nodes
      (if contains nodes p.pkg_path
        then put forward p.pkg_path (collect_deps nodes [] p.imports)
        else forward)
      ps

abbrev or_nil : Option (List String) → List String
or_nil none = []
or_nil (some xs) = xs

-- `m[n]` of a map to sets
abbrev pub neighbours : Map (List String) → String → List String
neighbours m n = or_nil (lookup m n)

-- `for dep := range deps { reverse[dep][src] = true }`; each `dep` is a key, since it is a node
unfoldable pub link : String → Map (List String) → List String → Map (List String)
link src reverse [] = reverse
link src reverse (d ∷ ds) = link src (put reverse d (add src (neighbours reverse d))) ds

unfoldable pub link_all : Map (List String) → Map (List String) → Map (List String)
unfolding link
link_all reverse [] = reverse
link_all reverse ((src, deps) ∷ rest) = link_all (link src reverse deps) rest

-- the two maps of the graph
unfoldable pub forward_of : List String → List Package → Map (List String)
unfolding collect_forward collect_deps
forward_of nodes pkgs = collect_forward nodes [] pkgs

unfoldable pub reverse_of : List String → Map (List String) → Map (List String)
unfolding link_all
reverse_of nodes forward = link_all (map (λ n. (n, [])) nodes) forward

-- `visited` and `queue`
pub record Search : Type 0 where
  pub visited : List String
  pub queue : List String

-- the body of the loop over `reverse[cur]`
abbrev pub offer : Search → String → Search
offer s dep =
    if contains s.visited dep
    then s
    else record { visited = s.visited ++ dep ∷ []; queue = s.queue ++ dep ∷ [] }

unfoldable pub scan : Search → List String → Search
scan s [] = s
scan s (d ∷ ds) = scan (offer s d) ds

-- `for len(queue) > 0`, on fuel; the result is `visited`
unfoldable pub search : Map (List String) → ℕ → List String → List String → Option (List String)
unfolding scan
search graph fuel visited [] = some visited
search graph zero visited (cur ∷ queue) = none
search graph (suc fuel) visited (cur ∷ queue) =
    let s = scan (record { visited = visited; queue = queue }) (neighbours graph cur) in
    search graph fuel s.visited s.queue
