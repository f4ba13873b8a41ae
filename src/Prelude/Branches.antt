-- ===== src/Prelude/Branches.antt =====
-- Lists that loops build under tests.
use mathlib.Core.Path.{◌≡◌, refl}
use mathlib.Core.Logic.{◌↔◌}
use mathlib.Core.Bool.{Bool, true, false, not}
use mathlib.Core.List.{List, [], ◌∷◌}
use go_arch_guard.Prelude.Tests.{if◌then◌else◌}
use go_arch_guard.Prelude.Lists.{All}

-- When a list under a test has no element, by what stands in its branches.
pub skip-nil_iff {ℓ ℓ'} :
    {A : Type ℓ}
    → {P : Type ℓ'} → (b : Bool) → {xs : List A} → ((xs ≡ []) ↔ P)
    → ((if b then [] else xs) ≡ []) ↔ (b ≡ false → P)
skip-nil_iff true h = (λ e i. absurd (cc i), λ k. refl)
skip-nil_iff false h = (λ e i. h.0 e, λ k. h.1 (k refl))

pub open-nil_iff {ℓ ℓ'} :
    {A : Type ℓ}
    → {P : Type ℓ'} → (b : Bool) → {xs : List A} → ((xs ≡ []) ↔ P)
    → ((if not b then [] else xs) ≡ []) ↔ (b ≡ true → P)
open-nil_iff true h = (λ e i. h.0 e, λ k. h.1 (k refl))
open-nil_iff false h = (λ e i. absurd (cc i), λ k. refl)

pub branch-nil_iff {ℓ ℓ' ℓ''} :
    {A : Type ℓ}
    → {P : Type ℓ'} → {Q : Type ℓ''} → (b : Bool) → {xs ys : List A} → ((xs ≡ []) ↔ P)
    → ((ys ≡ []) ↔ Q)
    → ((if b then xs else ys) ≡ []) ↔ ((b ≡ true → P) × (b ≡ false → Q))
branch-nil_iff true h k = (λ e. (λ i. h.0 e, λ i. absurd (cc i)), λ f. h.1 (f.0 refl))
branch-nil_iff false h k = (λ e. (λ i. absurd (cc i), λ i. k.0 e), λ f. k.1 (f.1 refl))

-- A test that reports an element, and else goes on.
pub report-nil_iff {ℓ ℓ'} :
    {A : Type ℓ}
    → {P : Type ℓ'} → (b : Bool) (x : A) → {xs : List A} → ((xs ≡ []) ↔ P)
    → ((if b then x ∷ [] else xs) ≡ []) ↔ ((b ≡ false) × P)
report-nil_iff true x h = (λ e. absurd (cc e), λ (i, p). absurd (cc i))
report-nil_iff false x h = (λ e. (refl, h.0 e), λ (i, p). h.1 p)

pub unless-nil_iff {ℓ} :
    {A : Type ℓ} → (b : Bool) (x : A) → ((if b then x ∷ [] else []) ≡ []) ↔ (b ≡ false)
unless-nil_iff true x = (λ e. absurd (cc e), λ i. absurd (cc i))
unless-nil_iff false x = (λ e. refl, λ i. refl)

pub All-if :
    {A : Type 0}
    → (P : A → Type 0) → (xs ys : List A) → (b : Bool) → All P xs
    → All P ys
    → All P (if b then xs else ys)
All-if P xs ys true h k = h
All-if P xs ys false h k = k
