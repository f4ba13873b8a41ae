-- ===== src/Prelude/Order.antt =====
-- The orders that the program sorts by: texts by code point, and one key after another.
use Prim.Native.Char.{code}
use Prim.Native.String.{String}
use mathlib.Core.Path.{◌≡◌, refl}
use mathlib.Core.Logic.{◌↔◌}
use mathlib.Core.Bool.{Bool, true, false}
use native.Mathlib.Omega.{arith}
use text.Mathlib.Text.{◌==◌}
use text.Mathlib.TextEquality.{eq_iff}
use go_arch_guard.Prelude.Tests.{ltb, eqb, if◌then◌else◌}
use go_arch_guard.Prelude.Text.{char_eq, char_eq_iff}

-- `a < b` on texts. UTF-8 keeps the order of code points.
unfoldable pub str_lt : String → String → Bool
str_lt s String.[] = false
str_lt String.[] (String.◌∷◌ d t) = true
str_lt (String.◌∷◌ c s) (String.◌∷◌ d t) =
    let rest = str_lt s t in if char_eq c d then rest else ltb (code c) (code d)

-- `less` is the strict part of a total preorder.
pub record IsWeakOrder {A : Type 0} (less : A → A → Bool) : Type 0 where
  pub asym : (a b : A) → less a b ≡ true → less b a ≡ false
  pub le_trans : (a b c : A) → less b a ≡ false → less c b ≡ false → less c a ≡ false

-- In a linear order, what is below neither way is equal.
pub record IsLinear {A : Type 0} (same less : A → A → Bool) : Type 0 where
  pub weak : IsWeakOrder less
  pub same_iff : (a b : A) → (same a b ≡ true) ↔ (a ≡ b)
  pub antisym : (a b : A) → less a b ≡ false → less b a ≡ false → a ≡ b

str_lt_asym : (a b : String) → str_lt a b ≡ true → str_lt b a ≡ false
unfolding str_lt
str_lt_asym s String.[] h = cc
str_lt_asym String.[] (String.◌∷◌ d t) h = refl
str_lt_asym (String.◌∷◌ c s) (String.◌∷◌ d t) h =
    ground (arith, str_lt_asym s t, char_eq_iff c d, char_eq_iff d c)

str_le_trans : (a b c : String) → str_lt b a ≡ false → str_lt c b ≡ false → str_lt c a ≡ false
unfolding str_lt
str_le_trans String.[] b c h k = refl_of c b k h
  where
    refl_of :
        (c b : String)
        → str_lt c b ≡ false
        → str_lt b String.[] ≡ false
        → str_lt c String.[] ≡ false
    refl_of c b k h = refl
str_le_trans (String.◌∷◌ x a) String.[] c h k = cc
str_le_trans (String.◌∷◌ x a) (String.◌∷◌ y b) String.[] h k = cc
str_le_trans (String.◌∷◌ x a) (String.◌∷◌ y b) (String.◌∷◌ z c) h k =
    ground (arith, str_le_trans a b c)

str_lt_antisym : (a b : String) → str_lt a b ≡ false → str_lt b a ≡ false → a ≡ b
unfolding str_lt
str_lt_antisym String.[] String.[] h k = refl
str_lt_antisym String.[] (String.◌∷◌ d t) h k = cc
str_lt_antisym (String.◌∷◌ c s) String.[] h k = cc
str_lt_antisym (String.◌∷◌ c s) (String.◌∷◌ d t) h k =
    ground (arith, str_lt_antisym s t, char_eq_iff c d, char_eq_iff d c)

pub str-IsLinear : IsLinear ◌==◌ str_lt
str-IsLinear = record {
  weak = record { asym = str_lt_asym; le_trans = str_le_trans };
  same_iff = eq_iff;
  antisym = str_lt_antisym;
}

pub ℕ-IsLinear : IsLinear eqb ltb
ℕ-IsLinear = record {
  weak = record { asym = λ a b h. ground arith; le_trans = λ a b c h k. ground arith };
  same_iff = λ a b. (λ h. ground arith, λ h. ground arith);
  antisym = λ a b h k. ground arith;
}

-- `if key(a) != key(b) { return key(a) < key(b) }` before another order.
module _ {A K : Type 0} {same less : K → K → Bool} (linear : IsLinear same less) (key : A → K)
    {rest : A → A → Bool} (weak : IsWeakOrder rest) where
  abbrev pub by_key : A → A → Bool
  by_key a b = if same (key a) (key b) then rest a b else less (key a) (key b)

  by_key_asym : (a b : A) → by_key a b ≡ true → by_key b a ≡ false
  by_key_asym a b h = ground (
    arith,
    linear.same_iff (key a) (key b),
    linear.same_iff (key b) (key a),
    linear.weak.asym (key a) (key b),
    weak.asym a b,
  )

  by_key_trans : (a b c : A) → by_key b a ≡ false → by_key c b ≡ false → by_key c a ≡ false
  by_key_trans a b c h k = ground (
    arith,
    linear.same_iff (key b) (key a),
    linear.same_iff (key c) (key b),
    linear.same_iff (key c) (key a),
    linear.weak.le_trans (key a) (key b) (key c),
    linear.antisym (key a) (key b),
    weak.le_trans a b c,
  )

  pub by_key-IsWeakOrder : IsWeakOrder by_key
  by_key-IsWeakOrder = record { asym = by_key_asym; le_trans = by_key_trans }
