-- ===== src/Prelude/Sets.antt =====
-- Sets of texts, kept as lists in the order in which their elements came in.
use Prim.Native.String.{String}
use mathlib.Core.Path.{◌≡◌}
use mathlib.Core.Logic.{◌↔◌, ◌⊎◌, inr}
use mathlib.Core.Bool.{◌||◌}
use mathlib.Core.List.{List, [], ◌∷◌, ◌++◌}
use native.Mathlib.Omega.{arith}
use text.Mathlib.Text.{◌==◌}
use text.Mathlib.TextEquality.{eq_iff}
use go_arch_guard.Prelude.Tests.{if◌then◌else◌}
use go_arch_guard.Prelude.Lists.{In}
use go_arch_guard.Prelude.Maps.{Map, keys, put, contains, contains_iff}

-- no name stands twice
abbrev pub IsDistinct : List String → Type 0
IsDistinct [] = Unit
IsDistinct (x ∷ xs) = (¬ In x xs) × IsDistinct xs

-- `set[k] = true`
unfoldable pub add : String → List String → List String
add k s = if contains s k then s else s ++ k ∷ []

pub In-snoc_iff : (a k : String) (xs : List String) → In a (xs ++ k ∷ []) ↔ (In a xs ⊎ (a ≡ k))
In-snoc_iff a k [] = ground arith
In-snoc_iff a k (x ∷ xs) = ground (arith, In-snoc_iff a k xs)

pub contains-snoc :
    (xs : List String) (k a : String) → contains (xs ++ k ∷ []) a ≡ (contains xs a || k == a)
unfolding contains
contains-snoc [] k a = ground arith
contains-snoc (x ∷ xs) k a = ground (arith, contains-snoc xs k a)

pub In-add_iff : (a k : String) (s : List String) → In a (add k s) ↔ (In a s ⊎ (a ≡ k))
unfolding add
In-add_iff a k s = ground (arith, In-snoc_iff a k s, contains_iff s k, contains_iff s a, eq_iff a k)

pub IsDistinct-snoc :
    (k : String) (xs : List String) → IsDistinct xs → ¬ In k xs → IsDistinct (xs ++ k ∷ [])
IsDistinct-snoc k [] d h = ground arith
IsDistinct-snoc k (x ∷ xs) (n, d) h =
    (ground (arith, In-snoc_iff x k xs), IsDistinct-snoc k xs d (λ m. h (inr m)))

pub IsDistinct-add : (k : String) (s : List String) → IsDistinct s → IsDistinct (add k s)
unfolding add
IsDistinct-add k s d = ground (arith, IsDistinct-snoc k s d, contains_iff s k)

module _ {A : Type 0} where
  pub In-keys-put :
      (m : Map A) (k : String) (a : A) (j : String)
      → In j (keys (put m k a)) ↔ (In j (keys m) ⊎ (j ≡ k))
  unfolding put
  In-keys-put [] k a j = ground arith
  In-keys-put ((i, b) ∷ m) k a j = ground (arith, eq_iff i k, In-keys-put m k a j)

  pub IsDistinct-put :
      (m : Map A) (k : String) (a : A) → IsDistinct (keys m) → IsDistinct (keys (put m k a))
  unfolding put
  IsDistinct-put [] k a d = ground arith
  IsDistinct-put ((i, b) ∷ m) k a (n, d) =
      ground (arith, eq_iff i k, In-keys-put m k a i, IsDistinct-put m k a d)
