-- ===== src/Prelude/Lists.antt =====
-- Lists under native indices, membership by recursion, and loops that collect results.
use Prim.Native.Nat.{ℕ, suc, ◌+◌}
use mathlib.Core.Path.{◌≡◌, refl, sym, subst}
use mathlib.Core.Logic.{◌⊎◌, inl, inr, ◌↔◌}
use mathlib.Core.Bool.{Bool, true, false, ◌||◌}
use mathlib.Core.Option.{Option, none, some}
use mathlib.Core.List.{List, [], ◌∷◌, ◌++◌}
use native.Mathlib.Omega.{arith}
use go_arch_guard.Prelude.Tests.{if◌then◌else◌, Option-cases}

module _ {ℓ} {A : Type ℓ} where
  abbrev pub length : List A → ℕ
  length [] = 0
  length (x ∷ xs) = suc (length xs)

  pub length-append : (xs ys : List A) → length (xs ++ ys) ≡ length xs + length ys
  length-append [] ys = omega arith
  length-append (x ∷ xs) ys = omega (arith, length-append xs ys)

  abbrev pub is_nil : List A → Bool
  is_nil [] = true
  is_nil (x ∷ xs) = false

  unfoldable pub filter : (A → Bool) → List A → List A
  filter p [] = []
  filter p (x ∷ xs) = let rest = filter p xs in if p x then x ∷ rest else rest

  unfoldable pub any : (A → Bool) → List A → Bool
  any p [] = false
  any p (x ∷ xs) = p x || any p xs

module _ {ℓ κ} {A : Type ℓ} (P : A → Type κ) where
  abbrev pub All : List A → Type κ
  All [] = Unit
  All (x ∷ xs) = P x × All xs

  pub All-append : (xs ys : List A) → All xs → All ys → All (xs ++ ys)
  All-append [] ys h k = k
  All-append (x ∷ xs) ys (p, h) k = (p, All-append xs ys h k)

  pub All-append_left : (xs ys : List A) → All (xs ++ ys) → All xs
  All-append_left [] ys h = tt
  All-append_left (x ∷ xs) ys (p, h) = (p, All-append_left xs ys h)

  pub All-append_right : (xs ys : List A) → All (xs ++ ys) → All ys
  All-append_right [] ys h = h
  All-append_right (x ∷ xs) ys (p, h) = All-append_right xs ys h

module _ {A : Type 0} where
  -- `a` stands in the list.
  abbrev pub In : A → List A → Type 0
  In a [] = ⊥
  In a (x ∷ xs) = (a ≡ x) ⊎ In a xs

  pub In-append_left : (a : A) (xs ys : List A) → In a xs → In a (xs ++ ys)
  In-append_left a [] ys h = elim h [ ]
  In-append_left a (x ∷ xs) ys (inl e) = inl e
  In-append_left a (x ∷ xs) ys (inr h) = inr (In-append_left a xs ys h)

  pub In-append_right : (a : A) (xs ys : List A) → In a ys → In a (xs ++ ys)
  In-append_right a [] ys h = h
  In-append_right a (x ∷ xs) ys h = inr (In-append_right a xs ys h)

  pub In-append_cases : (a : A) (xs ys : List A) → In a (xs ++ ys) → In a xs ⊎ In a ys
  In-append_cases a [] ys h = inr h
  In-append_cases a (x ∷ xs) ys (inl e) = inl (inl e)
  In-append_cases a (x ∷ xs) ys (inr h) = elim (In-append_cases a xs ys h) [
    | inl l ↦ inl (inr l)
    | inr r ↦ inr r
  ]

  pub All-of_forall {κ} : (P : A → Type κ) (xs : List A) → ((x : A) → In x xs → P x) → All P xs
  All-of_forall P [] h = tt
  All-of_forall P (x ∷ xs) h = (h x (inl refl), All-of_forall P xs λ y m. h y (inr m))

  pub All-at {κ} : (P : A → Type κ) (xs : List A) (x : A) → All P xs → In x xs → P x
  All-at P [] x h m = elim m [ ]
  All-at P (y ∷ ys) x (p, h) (inl e) = subst P (sym e) p
  All-at P (y ∷ ys) x (p, h) (inr m) = All-at P ys x h m

module _ {ℓ κ} {A : Type ℓ} {B : Type κ} where
  -- A loop `for x := range xs { out = append(out, f(x)...) }`.
  unfoldable pub flat_map : (A → List B) → List A → List B
  flat_map f [] = []
  flat_map f (x ∷ xs) = f x ++ flat_map f xs

  -- A loop over a collection that keeps some of what it computes.
  unfoldable pub filter_map : (A → Option B) → List A → List B
  filter_map f [] = []
  filter_map f (x ∷ xs) =
      let rest = filter_map f xs in elim (f x) [ none ↦ rest | some y ↦ y ∷ rest ]

module _ {ℓ κ} {A : Type 0} {B : Type ℓ} (P : B → Type κ) (f : A → List B) where
  pub All-flat_map : (xs : List A) → ((x : A) → In x xs → All P (f x)) → All P (flat_map f xs)
  unfolding flat_map
  All-flat_map [] h = tt
  All-flat_map (x ∷ xs) h =
      All-append P (f x) (flat_map f xs) (h x (inl refl)) (All-flat_map xs λ y m. h y (inr m))

  pub All-of_flat_map : (xs : List A) (x : A) → In x xs → All P (flat_map f xs) → All P (f x)
  unfolding flat_map
  All-of_flat_map [] x m h = elim m [ ]
  All-of_flat_map (y ∷ ys) x (inl e) h =
      subst (λ z. All P (f z)) (sym e) (All-append_left P (f y) (flat_map f ys) h)
  All-of_flat_map (y ∷ ys) x (inr m) h =
      All-of_flat_map ys x m (All-append_right P (f y) (flat_map f ys) h)

pub append-nil_iff {ℓ} : {A : Type ℓ} (xs ys : List A) → (xs ++ ys ≡ []) ↔ ((xs ≡ []) × (ys ≡ []))
append-nil_iff [] ys = (λ h. (refl, h), λ h. h.1)
append-nil_iff (x ∷ xs) ys = (λ h. absurd (cc h), λ h. absurd (cc h.0))

module _ {ℓ κ μ} {A : Type ℓ} {B : Type κ} (f : A → List B) (P : A → Type μ)
    (each : (x : A) → (f x ≡ []) ↔ P x) where
  -- A loop collects nothing exactly where no element contributes.
  pub flat_map-nil_iff : (xs : List A) → (flat_map f xs ≡ []) ↔ All P xs
  unfolding flat_map
  flat_map-nil_iff [] = (λ h. tt, λ h. refl)
  flat_map-nil_iff (x ∷ xs) =
      let (split, join) = append-nil_iff (f x) (flat_map f xs) in
      let (down, up) = flat_map-nil_iff xs in
      let (here, back) = each x in
      (λ h. (here (split h).0, down (split h).1), λ h. join (back h.0, up h.1))

module _ {ℓ} {A : Type ℓ} (p : A → Bool) where
  pub filter-nil_iff : (xs : List A) → (filter p xs ≡ []) ↔ All (λ x. p x ≡ false) xs
  unfolding filter
  filter-nil_iff [] = (λ h. tt, λ h. refl)
  filter-nil_iff (x ∷ xs) = ground (arith, filter-nil_iff xs)

  pub filter-append : (xs ys : List A) → filter p (xs ++ ys) ≡ filter p xs ++ filter p ys
  unfolding filter
  filter-append [] ys = refl
  filter-append (x ∷ xs) ys = ground (arith, filter-append xs ys)

module _ {ℓ κ μ} {A : Type ℓ} {P : A → Type κ} {Q : A → Type μ} (f : (x : A) → P x → Q x) where
  pub All-map : (xs : List A) → All P xs → All Q xs
  All-map [] h = tt
  All-map (x ∷ xs) (p, h) = (f x p, All-map xs h)

module _ {A B : Type 0} (f : A → List B) where
  pub In-flat_map : (b : B) (xs : List A) (x : A) → In x xs → In b (f x) → In b (flat_map f xs)
  unfolding flat_map
  In-flat_map b [] x m k = elim m [ ]
  In-flat_map b (y ∷ ys) x (inl e) k =
      In-append_left b (f y) (flat_map f ys) (subst (λ z. In b (f z)) e k)
  In-flat_map b (y ∷ ys) x (inr m) k =
      In-append_right b (f y) (flat_map f ys) (In-flat_map b ys x m k)

  pub In-of_flat_map : (b : B) (xs : List A) → In b (flat_map f xs) → (x : A) × In x xs × In b (f x)
  unfolding flat_map
  In-of_flat_map b [] m = elim m [ ]
  In-of_flat_map b (y ∷ ys) m = elim (In-append_cases b (f y) (flat_map f ys) m) [
    | inl k ↦ (y, inl refl, k)
    | inr k ↦ let (x, l, n) = In-of_flat_map b ys k in (x, inr l, n)
  ]

module _ {A B : Type 0} (f : A → Option B) where
  pub In-filter_map :
      (x : A) (b : B) (xs : List A) → In x xs → f x ≡ some b → In b (filter_map f xs)
  unfolding filter_map
  In-filter_map x b [] m e = elim m [ ]
  In-filter_map x b (y ∷ ys) (inl p) e = rw (← p, e, filter_map) (inl refl)
  In-filter_map x b (y ∷ ys) (inr m) e = ground (arith, In-filter_map x b ys m e)

  pub All-filter_map {κ} :
      (P : B → Type κ) (xs : List A)
      → ((x : A) (b : B) → In x xs → f x ≡ some b → P b)
      → All P (filter_map f xs)
  unfolding filter_map
  All-filter_map P [] h = tt
  All-filter_map P (x ∷ xs) h = elim (Option-cases (f x)) [
    | inl e ↦ rw (e, filter_map) (All-filter_map P xs λ y b m. h y b (inr m))
    | inr (b, e) ↦
        rw (e, filter_map) (h x b (inl refl) e, All-filter_map P xs λ y c m. h y c (inr m))
  ]
