-- ===== src/Prelude/Maps.antt =====
-- Go's maps with text keys as association lists. The order of the entries is the order in which a
-- `range` loop meets them.
use Prim.Native.String.{String}
use mathlib.Core.Path.{◌≡◌, refl}
use mathlib.Core.Logic.{◌↔◌}
use mathlib.Core.Bool.{Bool, true, false, ◌||◌}
use mathlib.Core.Option.{Option, none, some}
use mathlib.Core.List.{List, [], ◌∷◌}
use native.Mathlib.Omega.{arith}
use text.Mathlib.Text.{◌==◌}
use text.Mathlib.TextEquality.{eq_iff}
use go_arch_guard.Prelude.Tests.{if◌then◌else◌}
use go_arch_guard.Prelude.Lists.{In}

abbrev pub Map : Type 0 → Type 0
Map V = List (String × V)

-- slices.Contains(xs, k), and the test of a set that is kept as a list
unfoldable pub contains : List String → String → Bool
contains [] k = false
contains (x ∷ xs) k = x == k || contains xs k

pub contains_iff : (xs : List String) (k : String) → (contains xs k ≡ true) ↔ In k xs
unfolding contains
contains_iff [] k = (λ h. cc, λ m. elim m [ ])
contains_iff (x ∷ xs) k = ground (arith, contains_iff xs k, eq_iff x k)

module _ {V : Type 0} where
  -- `v, ok := m[k]`
  unfoldable pub lookup : Map V → String → Option V
  lookup [] k = none
  lookup ((j, v) ∷ m) k = if j == k then some v else lookup m k

  -- `m[k] = v`
  unfoldable pub put : Map V → String → V → Map V
  put [] k v = (k, v) ∷ []
  put ((j, w) ∷ m) k v = if j == k then (j, v) ∷ m else (j, w) ∷ put m k v

  pub lookup-put :
      (m : Map V) (k j : String) (v : V)
      → lookup (put m k v) j ≡ (if k == j then some v else lookup m j)
  unfolding lookup put
  lookup-put [] k j v = refl
  lookup-put ((i, w) ∷ m) k j v =
      ground (arith, eq_iff k j, eq_iff i k, eq_iff i j, lookup-put m k j v)

  abbrev pub keys : Map V → List String
  keys [] = []
  keys ((k, v) ∷ m) = k ∷ keys m

  pub lookup-none_iff : (m : Map V) (k : String) → (lookup m k ≡ none) ↔ ¬ In k (keys m)
  unfolding lookup
  lookup-none_iff [] k = (λ h m. elim m [ ], λ h. refl)
  lookup-none_iff ((j, v) ∷ m) k = ground (arith, eq_iff j k, lookup-none_iff m k)

-- `m[k]` of a set, `false` where the key is missing
unfoldable pub flag : Map Bool → String → Bool
flag [] k = false
flag ((j, v) ∷ m) k = if j == k then v else flag m k
