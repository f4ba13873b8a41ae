-- ===== src/Prelude/Search.antt =====
-- Searches through a list: `any`, and what a filter keeps.
use mathlib.Core.Path.{◌≡◌, refl, subst}
use mathlib.Core.Logic.{◌↔◌, inl, inr}
use mathlib.Core.Bool.{Bool, true}
use mathlib.Core.List.{List, [], ◌∷◌}
use native.Mathlib.Omega.{arith}
use go_arch_guard.Prelude.Tests.{Bool-cases}
use go_arch_guard.Prelude.Lists.{any, filter, In, All}

module _ {A : Type 0} (p : A → Bool) where
  abbrev pub Found : List A → Type 0
  Found xs = (x : A) × In x xs × (p x ≡ true)

  any-Found : (xs : List A) → any p xs ≡ true → Found xs
  unfolding any
  any-Found [] h = absurd (cc h)
  any-Found (x ∷ xs) h = elim (Bool-cases (p x)) [
    | inl e ↦ (x, inl refl, e)
    | inr e ↦ let (y, m, k) = any-Found xs (ground (arith, h, e)) in (y, inr m, k)
  ]

  Found-any : (xs : List A) (x : A) → In x xs → p x ≡ true → any p xs ≡ true
  unfolding any
  Found-any [] x m k = elim m [ ]
  Found-any (y ∷ ys) x (inl e) k =
      let here : p y ≡ true = subst (λ z. p z ≡ true) e k in ground (arith, here)
  Found-any (y ∷ ys) x (inr m) k = ground (arith, Found-any ys x m k)

  -- The search finds something exactly where an element passes the test.
  pub any_iff : (xs : List A) → (any p xs ≡ true) ↔ Found xs
  any_iff xs = (any-Found xs, λ (x, m, k). Found-any xs x m k)

  -- What holds of all that a filter keeps holds of all that pass its test.
  pub All-filter_iff :
      (P : A → Type 0) (xs : List A) → All P (filter p xs) ↔ All (λ x. p x ≡ true → P x) xs
  unfolding filter
  All-filter_iff P [] = (λ h. tt, λ h. tt)
  All-filter_iff P (x ∷ xs) = elim (Bool-cases (p x)) [
    | inl e ↦ rw e (
      λ (h, hs). (λ t. h, (All-filter_iff P xs).0 hs),
      λ (h, hs). (h refl, (All-filter_iff P xs).1 hs),
    )
    | inr e ↦ rw e (
      λ hs. (λ t. absurd (cc t), (All-filter_iff P xs).0 hs),
      λ (h, hs). (All-filter_iff P xs).1 hs,
    )
  ]
