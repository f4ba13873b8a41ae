-- ===== src/Dependency/BlastRadius/Threshold/Bounds.antt =====
-- How the percentiles and the threshold lie among the values.
use go_arch_guard.Prelude.{
  ℕ, zero, suc, ◌+◌, ◌-◌, ◌*◌, ◌/◌, ◌%◌, ◌≤◌, ◌<◌, Bool, false, none, some, List, [], ◌∷◌, ◌≡◌,
  length, ltb, All, filter, arith, refl,
}
use go_arch_guard.Prelude.Sort.{IsSorted}
use go_arch_guard.Dependency.BlastRadius.Threshold.{nth, percentile, blast_threshold}

All-nth : (P : ℕ → Type 0) (xs : List ℕ) (i : ℕ) → All P xs → i < length xs → P (nth xs i)
All-nth P [] i h lt = absurd (omega arith)
All-nth P (x ∷ xs) zero (p, h) lt = p
All-nth P (x ∷ xs) (suc i) (p, h) lt = All-nth P xs i h (omega arith)

length-filter-le : (p : ℕ → Bool) (xs : List ℕ) → length (filter p xs) ≤ length xs
unfolding filter
length-filter-le p [] = omega arith
length-filter-le p (x ∷ xs) = ground (arith, length-filter-le p xs)

-- a later position holds no smaller value
nth-le : (xs : List ℕ) (i j : ℕ) → IsSorted ltb xs → i ≤ j → j < length xs → nth xs i ≤ nth xs j
nth-le [] i j s le lt = absurd (omega arith)
nth-le (x ∷ xs) zero zero s le lt = omega arith
nth-le (x ∷ xs) zero (suc j) (a, s) le lt =
    let below = All-nth (λ y. ltb y x ≡ false) xs j a (omega arith) in ground arith
nth-le (x ∷ xs) (suc i) zero s le lt = absurd (omega arith)
nth-le (x ∷ xs) (suc i) (suc j) (a, s) le lt = nth-le xs i j s (omega arith) (omega arith)

-- A blend of two values in quarters lies between them.
blend_bounds :
    (a b m d : ℕ)
    → a ≤ b
    → b ≤ m
    → d < 4
    → (4 * a ≤ a * (4 - d) + b * d) × (a * (4 - d) + b * d ≤ 4 * m)
blend_bounds a b m zero h k l = omega arith
blend_bounds a b m (suc zero) h k l = omega arith
blend_bounds a b m (suc (suc zero)) h k l = omega arith
blend_bounds a b m (suc (suc (suc zero))) h k l = omega arith
blend_bounds a b m (suc (suc (suc (suc d)))) h k l = absurd (omega arith)

module _ (x : ℕ) (xs : List ℕ) (sorted : IsSorted ltb (x ∷ xs)) where
  percentile_bounds :
      (quarter m : ℕ)
      → quarter * length xs ≤ 4 * length xs
      → nth (x ∷ xs) (length xs) ≤ m
      → (4 * nth (x ∷ xs) (quarter * length xs / 4) ≤ percentile (x ∷ xs) quarter)
        × (percentile (x ∷ xs) quarter ≤ 4 * m)
  unfolding percentile
  percentile_bounds quarter m product top =
      let f = quarter * length xs / 4 in
      ground (
        arith,
        nth-le (x ∷ xs) f (f + 1) sorted,
        nth-le (x ∷ xs) f (length xs) sorted,
        nth-le (x ∷ xs) (f + 1) (length xs) sorted,
        blend_bounds (nth (x ∷ xs) f) (nth (x ∷ xs) (f + 1)) m (quarter * length xs % 4),
      )

  -- The upper quartile is not below the lower one, so their difference is what the program computes.
  percentile-le : percentile (x ∷ xs) 1 ≤ percentile (x ∷ xs) 3
  unfolding percentile
  percentile-le =
      let value = nth (x ∷ xs) in
      let m = length xs in
      let low = 1 * m / 4 in
      let high = 3 * m / 4 in
      ground (
        arith,
        nth-le (x ∷ xs) low (low + 1) sorted,
        nth-le (x ∷ xs) (low + 1) high sorted,
        nth-le (x ∷ xs) high (high + 1) sorted,
        blend_bounds (value low) (value (low + 1)) (value (low + 1)) (1 * m % 4),
        blend_bounds (value high) (value (high + 1)) (value (high + 1)) (3 * m % 4),
      )

  -- A threshold lies at or above the upper quartile.
  percentile-le-blast_threshold :
      (t : ℕ) → blast_threshold (x ∷ xs) ≡ some t → 2 * percentile (x ∷ xs) 3 ≤ t
  unfolding blast_threshold
  percentile-le-blast_threshold t e = ground arith

-- the values of which more than `t` eighths are made
abbrev pub above : ℕ → List ℕ → List ℕ
above t = filter (λ v. ltb t (8 * v))

above_few :
    (xs : List ℕ) (t f : ℕ)
    → IsSorted ltb xs
    → f < length xs
    → 8 * nth xs f ≤ t
    → length (above t xs) + f < length xs
unfolding filter
above_few [] t f s l h = absurd (omega arith)
above_few (x ∷ xs) t zero s l h = ground (arith, length-filter-le (λ v. ltb t (8 * v)) xs)
above_few (x ∷ xs) t (suc f) (a, s) l h =
    let below = All-nth (λ y. ltb y x ≡ false) xs f a (omega arith) in
    ground (arith, above_few xs t f s (omega arith) h)

blast_threshold-nil : blast_threshold [] ≡ none
unfolding blast_threshold
blast_threshold-nil = refl

-- At most a quarter of the values, rounded to the nearest number, lie above a threshold.
pub above-blast_threshold :
    (xs : List ℕ) (t : ℕ)
    → IsSorted ltb xs
    → blast_threshold xs ≡ some t
    → 4 * length (above t xs) ≤ length xs + 2
above-blast_threshold [] t s e = absurd (cc (blast_threshold-nil, e))
above-blast_threshold (x ∷ xs) t s e =
    let f = 3 * length xs / 4 in
    omega (
      arith,
      above_few (x ∷ xs) t f s (omega arith) (
          omega (
            arith,
            percentile-le-blast_threshold x xs s t e,
            percentile_bounds x xs s 3 (nth (x ∷ xs) (length xs)) (omega arith) (omega arith),
          )),
    )
