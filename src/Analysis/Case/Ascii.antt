-- ===== src/Analysis/Case/Ascii.antt =====
-- The letters, digits and cases of ASCII, by code, and what package unicode gives for them.
use Prim.Native.Char.{Char, code}
use text.Mathlib.TextEquality.{Char-path}
use go_arch_guard.Prelude.{
  ◌+◌, ◌≤◌, ◌<◌, true, false, ◌||◌, ◌≡◌, ◌↔◌, ◌⊎◌, inl, inr, ap, ◌∙◌, char_eq, char_eq_iff, arith,
  Bool-cases,
}
use go_arch_guard.Analysis.Case.{Unicode}

abbrev pub IsLower : Char → Type 0
IsLower c = (97 ≤ code c) × (code c ≤ 122)

abbrev pub IsUpper : Char → Type 0
IsUpper c = (65 ≤ code c) × (code c ≤ 90)

abbrev pub IsDigit : Char → Type 0
IsDigit c = (48 ≤ code c) × (code c ≤ 57)

-- a lower letter or a digit
abbrev pub IsSmall : Char → Type 0
IsSmall c = IsLower c ⊎ IsDigit c

-- What package unicode documents of ASCII: which of its characters are lower letters, upper letters
-- and digits, that the cases of a letter are 32 apart, and that nothing else has a lower case.
pub record IsAsciiLawful (u : Unicode) : Type 0 where
  pub lower : (c : Char) → code c < 128 → (u.is_lower c ≡ true) ↔ IsLower c
  pub upper : (c : Char) → code c < 128 → (u.is_upper c ≡ true) ↔ IsUpper c
  pub digit : (c : Char) → code c < 128 → (u.is_digit c ≡ true) ↔ IsDigit c
  pub upper_case : (c : Char) → IsLower c → code (u.to_upper c) + 32 ≡ code c
  pub lower_case : (c : Char) → IsUpper c → code (u.to_lower c) ≡ code c + 32
  pub lower_same : (c : Char) → code c < 128 → ¬ IsUpper c → u.to_lower c ≡ c

module _ (u : Unicode) (law : IsAsciiLawful u) where
  pub small_lem :
      (c : Char)
      → IsSmall c
      → (u.is_upper c ≡ false) × ((u.is_lower c || u.is_digit c) ≡ true) × (u.to_lower c ≡ c)
  small_lem c h =
      let ascii : code c < 128 = ground arith in
      (
        ground (arith, law.upper c ascii),
        ground (arith, law.lower c ascii, law.digit c ascii),
        law.lower_same c ascii (λ k. absurd (ground arith)),
      )

  -- the upper case of a lower letter is an upper letter, and its lower case is the letter again
  pub upper_lem :
      (c : Char) → IsLower c → (u.is_upper (u.to_upper c) ≡ true) × (u.to_lower (u.to_upper c) ≡ c)
  upper_lem c h =
      let shifted = law.upper_case c h in
      let is_upper : IsUpper (u.to_upper c) =
        (omega (arith, shifted, h), omega (arith, shifted, h)) in
      (
        (law.upper (u.to_upper c) (omega (arith, is_upper))).1 is_upper,
        Char-path _ c (law.lower_case (u.to_upper c) is_upper ∙ shifted),
      )

code_of_eq : (c d : Char) → char_eq c d ≡ true → code c ≡ code d
code_of_eq c d h = ap code ((char_eq_iff c d).0 h)

pub differs : (c d : Char) → (code c ≡ code d → ⊥) → char_eq c d ≡ false
differs c d h = elim (Bool-cases (char_eq c d)) [
  | inl e ↦ absurd (h (code_of_eq c d e))
  | inr e ↦ e
]

pub small_underscore : (c : Char) → IsSmall c → char_eq c "_" ≡ false
small_underscore c h = differs c "_" λ e. ground (arith, e, h)
