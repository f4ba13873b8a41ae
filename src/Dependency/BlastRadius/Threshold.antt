-- ===== src/Dependency/BlastRadius/Threshold.antt =====
-- rules/dependency/blast_radius.go: `percentile` and `blastThreshold`. The program computes with
-- float64; all its values here are multiples of a quarter or an eighth of an int, which float64 holds
-- exactly below 2^50, so a percentile counts in quarters and the threshold in eighths.
pub mod Bounds
use go_arch_guard.Prelude.{
  ℕ, zero, suc, ◌+◌, ◌-◌, ◌*◌, ◌/◌, ◌%◌, Bool, ◌||◌, Option, none, some, List, [], ◌∷◌, length, leb,
  ltb, eqb, if◌then◌else◌,
}

-- `xs[i]` of an index in range
abbrev pub nth : List ℕ → ℕ → ℕ
nth [] i = 0
nth (x ∷ xs) zero = x
nth (x ∷ xs) (suc i) = nth xs i

-- `percentile(sorted, 25 * quarter)` in quarters: `k` is the position in quarters
unfoldable pub percentile : List ℕ → ℕ → ℕ
percentile [] quarter = 0
percentile (x ∷ xs) quarter =
    let sorted = x ∷ xs in
    let k = quarter * length xs in
    let f = k / 4 in
    let d = k % 4 in
    if leb (length sorted) (f + 1)
    then 4 * nth sorted f
    else nth sorted f * (4 - d) + nth sorted (f + 1) * d

-- the threshold in eighths; `iqr` is a difference of a lower percentile from a higher one
unfoldable pub blast_threshold : List ℕ → Option ℕ
unfolding percentile
blast_threshold [] = none
blast_threshold (x ∷ xs) =
    let sorted = x ∷ xs in
    let q1 = percentile sorted 1 in
    let q3 = percentile sorted 3 in
    let iqr = q3 - q1 in
    let largest = nth sorted (length xs) in
    let threshold = 2 * q3 + 3 * iqr in
    if eqb iqr 0
    then (if leb (4 * largest) q3 || ltb largest 3 then none else some (2 * q3))
    else some (if ltb threshold 16 then 16 else threshold)
