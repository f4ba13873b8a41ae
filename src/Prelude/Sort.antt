-- ===== src/Prelude/Sort.antt =====
-- `sort.SliceStable` and `sort.Strings` by the order `less`, as a stable insertion sort.
use Prim.Native.Nat.{suc}
use mathlib.Core.Path.{◌≡◌, refl, ap, ◌∙◌}
use mathlib.Core.Logic.{inl, inr, ◌⊎◌, ◌↔◌}
use mathlib.Core.Bool.{Bool, false}
use mathlib.Core.List.{List, [], ◌∷◌, map, Perm}
use mathlib.Core.List.Perm
use native.Mathlib.Omega.{arith}
use go_arch_guard.Prelude.Tests.{if◌then◌else◌, Bool-cases}
use go_arch_guard.Prelude.Lists.{length, filter, In, All, All-of_forall, All-at}
use go_arch_guard.Prelude.Order.{IsWeakOrder}

-- `R` between each element and those behind it.
abbrev pub Pairs : {A : Type 0} → (A → A → Type 0) → List A → Type 0
Pairs R [] = Unit
Pairs R (x ∷ xs) = All (R x) xs × Pairs R xs

module _ {A : Type 0} (less : A → A → Bool) where
  -- before the first element that is not below `x`
  unfoldable pub insert : A → List A → List A
  insert x [] = x ∷ []
  insert x (y ∷ ys) = if less y x then y ∷ insert x ys else x ∷ y ∷ ys

  unfoldable pub sort : List A → List A
  unfolding insert
  sort [] = []
  sort (x ∷ xs) = insert x (sort xs)

  abbrev pub IsSorted : List A → Type 0
  IsSorted [] = Unit
  IsSorted (x ∷ xs) = All (λ y. less y x ≡ false) xs × IsSorted xs

  insert-perm : (x : A) (xs : List A) → Perm (insert x xs) (x ∷ xs)
  unfolding insert
  insert-perm x [] = Perm.refl _
  insert-perm x (y ∷ ys) = elim (Bool-cases (less y x)) [
    | inl e ↦ rw e (Perm.trans (Perm.cons y (insert-perm x ys)) (Perm.swap x y ys))
    | inr e ↦ rw e (Perm.refl _)
  ]

  pub sort-perm : (xs : List A) → Perm (sort xs) xs
  unfolding sort
  sort-perm [] = Perm.refl _
  sort-perm (x ∷ xs) = Perm.trans (insert-perm x (sort xs)) (Perm.cons x (sort-perm xs))

  pub All-insert {κ} : (P : A → Type κ) (x : A) (xs : List A) → P x → All P xs → All P (insert x xs)
  unfolding insert
  All-insert P x [] p h = (p, tt)
  All-insert P x (y ∷ ys) p (q, h) = elim (Bool-cases (less y x)) [
    | inl e ↦ rw e (q, All-insert P x ys p h)
    | inr e ↦ rw e (p, (q, h))
  ]

  pub All-sort {κ} : (P : A → Type κ) (xs : List A) → All P xs → All P (sort xs)
  unfolding sort
  All-sort P [] h = tt
  All-sort P (x ∷ xs) (p, h) = All-insert P x (sort xs) p (All-sort P xs h)

  In-insert : (a x : A) (xs : List A) → (a ≡ x) ⊎ In a xs → In a (insert x xs)
  unfolding insert
  In-insert a x [] h = h
  In-insert a x (y ∷ ys) h = ground (arith, In-insert a x ys)

  pub In-sort : (a : A) (xs : List A) → In a xs → In a (sort xs)
  unfolding sort
  In-sort a [] h = h
  In-sort a (x ∷ xs) (inl p) = In-insert a x (sort xs) (inl p)
  In-sort a (x ∷ xs) (inr m) = In-insert a x (sort xs) (inr (In-sort a xs m))

  pub All-sort_iff {κ} : (P : A → Type κ) (xs : List A) → All P (sort xs) ↔ All P xs
  All-sort_iff P xs =
      (λ h. All-of_forall P xs λ a m. All-at P (sort xs) a h (In-sort a xs m), All-sort P xs)

  pub In-sort_iff : (a : A) (xs : List A) → In a (sort xs) ↔ In a xs
  In-sort_iff a xs = (
    λ m.
        All-at (λ y. In y xs) (sort xs) a
          (All-sort (λ y. In y xs) xs (All-of_forall (λ y. In y xs) xs λ y k. k)) m,
    In-sort a xs,
  )

  length-insert : (x : A) (xs : List A) → length (insert x xs) ≡ suc (length xs)
  unfolding insert
  length-insert x [] = omega arith
  length-insert x (y ∷ ys) = ground (arith, length-insert x ys)

  pub length-sort : (xs : List A) → length (sort xs) ≡ length xs
  unfolding sort
  length-sort [] = omega arith
  length-sort (x ∷ xs) = omega (arith, length-insert x (sort xs), length-sort xs)

  module _ (R : A → A → Type 0) (symmetric : (x y : A) → R x y → R y x) where
    Pairs-insert : (x : A) (xs : List A) → All (R x) xs → Pairs R xs → Pairs R (insert x xs)
    unfolding insert
    Pairs-insert x [] h p = (tt, tt)
    Pairs-insert x (y ∷ ys) (r, h) (k, p) = elim (Bool-cases (less y x)) [
      | inl e ↦ rw e (All-insert (R y) x ys (symmetric x y r) k, Pairs-insert x ys h p)
      | inr e ↦ rw e ((r, h), (k, p))
    ]

    -- A symmetric relation between all pairs survives the sort.
    pub Pairs-sort : (xs : List A) → Pairs R xs → Pairs R (sort xs)
    unfolding sort
    Pairs-sort [] p = tt
    Pairs-sort (x ∷ xs) (h, p) = Pairs-insert x (sort xs) (All-sort (R x) xs h) (Pairs-sort xs p)

  module _ (weak : IsWeakOrder less) where
    All-le_trans :
        (x y : A) (ys : List A)
        → less y x ≡ false
        → All (λ z. less z y ≡ false) ys
        → All (λ z. less z x ≡ false) ys
    All-le_trans x y [] h k = tt
    All-le_trans x y (z ∷ zs) h (p, k) = (weak.le_trans x y z h p, All-le_trans x y zs h k)

    insert-IsSorted : (x : A) (xs : List A) → IsSorted xs → IsSorted (insert x xs)
    unfolding insert
    insert-IsSorted x [] s = (tt, tt)
    insert-IsSorted x (y ∷ ys) (a, s) = elim (Bool-cases (less y x)) [
      | inl e ↦
          rw e (All-insert (λ z. less z y ≡ false) x ys (weak.asym y x e) a, insert-IsSorted x ys s)
      | inr e ↦ rw e ((e, All-le_trans x y ys e a), (a, s))
    ]

    pub sort-IsSorted : (xs : List A) → IsSorted (sort xs)
    unfolding sort
    sort-IsSorted [] = tt
    sort-IsSorted (x ∷ xs) = insert-IsSorted x (sort xs) (sort-IsSorted xs)

    All-filter {κ} : (P : A → Type κ) (p : A → Bool) (xs : List A) → All P xs → All P (filter p xs)
    unfolding filter
    All-filter P p [] h = tt
    All-filter P p (x ∷ xs) (q, h) = elim (Bool-cases (p x)) [
      | inl e ↦ rw e (q, All-filter P p xs h)
      | inr e ↦ rw e (All-filter P p xs h)
    ]

    insert_of_All : (x : A) (xs : List A) → All (λ y. less y x ≡ false) xs → insert x xs ≡ x ∷ xs
    unfolding insert
    insert_of_All x [] h = refl
    insert_of_All x (y ∷ ys) (p, h) = rw p

    filter-insert :
        (p : A → Bool) (x : A) (xs : List A)
        → IsSorted xs
        → filter p (insert x xs) ≡ (if p x then insert x (filter p xs) else filter p xs)
    unfolding insert filter
    filter-insert p x [] s = refl
    filter-insert p x (y ∷ ys) (a, s) = ground (
      arith,
      filter-insert p x ys s,
      insert_of_All x (filter p ys),
      λ (e : less y x ≡ false). All-filter (λ z. less z x ≡ false) p ys (All-le_trans x y ys e a),
    )

    -- A sorted list is left as it is.
    pub sort_of_IsSorted : (xs : List A) → IsSorted xs → sort xs ≡ xs
    unfolding sort
    sort_of_IsSorted [] s = refl
    sort_of_IsSorted (x ∷ xs) (a, s) = ap (insert x) (sort_of_IsSorted xs s) ∙ insert_of_All x xs a

    -- Sorting and then dropping elements is dropping them and then sorting.
    pub filter-sort : (p : A → Bool) (xs : List A) → filter p (sort xs) ≡ sort (filter p xs)
    unfolding sort filter
    filter-sort p [] = refl
    filter-sort p (x ∷ xs) =
        ground (arith, filter-insert p x (sort xs) (sort-IsSorted xs), filter-sort p xs)

  module _ (f : A → A) (keeps : (a b : A) → less (f a) (f b) ≡ less a b) where
    map-insert : (x : A) (xs : List A) → map f (insert x xs) ≡ insert (f x) (map f xs)
    unfolding insert
    map-insert x [] = refl
    map-insert x (y ∷ ys) = ground (arith, keeps y x, map-insert x ys)

    -- A change that the order does not see may be made before or after the sort.
    pub map-sort : (xs : List A) → map f (sort xs) ≡ sort (map f xs)
    unfolding sort
    map-sort [] = refl
    map-sort (x ∷ xs) = map-insert x (sort xs) ∙ ap (insert (f x)) (map-sort xs)
