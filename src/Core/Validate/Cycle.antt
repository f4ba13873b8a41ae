-- ===== src/Core/Validate/Cycle.antt =====
-- `findDirectionCycle`: depth-first search with three colours over the graph of `Direction`. The
-- recursion takes fuel, one unit for each node and one more.
pub mod Graph
pub mod Steps
pub mod Promise
pub mod Correct
use go_arch_guard.Prelude.{
  ℕ, zero, suc, String, Option, none, some, List, [], ◌∷◌, ◌++◌, ◌==◌, Map, lookup, put, keys,
  if◌then◌else◌, length,
}
use go_arch_guard.Prelude.Order.{str_lt}
use go_arch_guard.Prelude.Sort.{sort}

pub data Color : Type 0 where
  white gray black : Color

-- the variables that the closure `dfs` shares; the top of the stack is its last element
pub record Search : Type 0 where
  pub colors : Map Color
  pub stack : List String

abbrev or_white : Option Color → Color
or_white none = white
or_white (some c) = c

-- `color[node]`
abbrev pub color_of : Search → String → Color
color_of s node = or_white (lookup s.colors node)

abbrev or_nil : Option (List String) → List String
or_nil none = []
or_nil (some targets) = targets

-- `direction[node]`
abbrev pub targets : Map (List String) → String → List String
targets direction node = or_nil (lookup direction node)

pub data Outcome : Type 0 where
  found : List String → Outcome
  explored : Search → Outcome
  out_of_fuel : Outcome

-- how the loop over the targets ends: at its end, or by a `return` from `dfs`
pub data Loop : Type 0 where
  done : Search → Loop
  exit : Outcome → Loop

-- `stack[start:]` for the first index `start` of `node`; `none` where `start` is -1
unfoldable pub suffix_from : String → List String → Option (List String)
suffix_from node [] = none
suffix_from node (n ∷ rest) = if n == node then some (n ∷ rest) else suffix_from node rest

-- `stack[:len(stack)-1]`
unfoldable pub drop_last : List String → List String
drop_last [] = []
drop_last (x ∷ []) = []
drop_last (x ∷ y ∷ rest) = x ∷ drop_last (y ∷ rest)

-- the case `gray`
unfoldable pub close : String → Search → Option (List String) → Outcome
close next s none = explored s
close next s (some cycle) = found (cycle ++ next ∷ [])

-- `if c := dfs(next); c != nil { return c }` before the rest of the loop
abbrev pub after : Outcome → (Search → Loop) → Loop
after (found cycle) rest = exit (found cycle)
after (explored s) rest = rest s
after out_of_fuel rest = exit out_of_fuel

-- the loop over `direction[node]`; `dfs` is the call for a white target
unfoldable pub loop : (String → Search → Outcome) → List String → Search → Loop
unfolding close suffix_from
loop dfs [] s = done s
loop dfs (next ∷ rest) s = elim (color_of s next) [
  | gray ↦ exit (close next s (suffix_from next s.stack))
  | white ↦ after (dfs next s) (λ s'. loop dfs rest s')
  | black ↦ loop dfs rest s
]

abbrev pub enter : String → Search → Search
enter node s = record { colors = put s.colors node gray; stack = s.stack ++ node ∷ [] }

abbrev pub leave : String → Search → Search
leave node s = record { colors = put s.colors node black; stack = drop_last s.stack }

abbrev pub finish : String → Loop → Outcome
finish node (done s) = explored (leave node s)
finish node (exit o) = o

abbrev pub next_source : Outcome → (Search → Outcome) → Outcome
next_source (found cycle) rest = found cycle
next_source (explored s) rest = rest s
next_source out_of_fuel rest = out_of_fuel

module _ (direction : Map (List String)) where
  unfoldable pub dfs : ℕ → String → Search → Outcome
  unfolding loop drop_last
  dfs zero node s = out_of_fuel
  dfs (suc fuel) node s = finish node (loop (dfs fuel) (targets direction node) (enter node s))

  -- the loop over the sorted sources
  unfoldable pub search_all : ℕ → List String → Search → Outcome
  unfolding dfs
  search_all fuel [] s = explored s
  search_all fuel (src ∷ rest) s = elim (color_of s src) [
    | white ↦ next_source (dfs fuel src s) (λ s'. search_all fuel rest s')
    | gray ↦ search_all fuel rest s
    | black ↦ search_all fuel rest s
  ]

-- every source and every target
unfoldable pub nodes : Map (List String) → List String
nodes [] = []
nodes ((src, out) ∷ rest) = src ∷ out ++ nodes rest

unfoldable pub find_direction_cycle : Map (List String) → Outcome
unfolding search_all nodes
find_direction_cycle direction =
    search_all direction (suc (length (nodes direction))) (sort str_lt (keys direction))
      (record { colors = []; stack = [] })
