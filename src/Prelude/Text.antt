-- ===== src/Prelude/Text.antt =====
-- Go's `strings` over native texts: prefixes, suffixes, splitting at a slash, the order of texts.
use Prim.Native.Char.{Char, code}
use Prim.Native.String
use Prim.Native.String.{String}
use mathlib.Core.Path.{◌≡◌, refl, ap}
use mathlib.Core.Logic.{inl, inr, ◌↔◌}
use mathlib.Core.Bool.{Bool, true, false}
use mathlib.Core.Option.{Option, none, some}
use native.Mathlib.Omega.{arith}
use text.Mathlib.TextEquality.{Char-path}
use text.Mathlib.TextLemmas.{nil-append, cons-append}
use go_arch_guard.Prelude.Tests.{eqb, if◌then◌else◌, Bool-cases}

infixr 65 ◌^^◌
-- `a + b` on texts.
abbrev pub ◌^^◌ : String → String → String
a ^^ b = String.◌++◌ a b

-- The decision `c == d` on characters.
abbrev pub char_eq : Char → Char → Bool
char_eq c d = eqb (code c) (code d)

pub char_eq_iff : (c d : Char) → (char_eq c d ≡ true) ↔ (c ≡ d)
char_eq_iff c d = (λ h. Char-path c d (ground arith), λ e. ground arith)

-- strings.CutPrefix(s, prefix), the prefix first.
unfoldable pub cut_prefix : String → String → Option String
cut_prefix String.[] s = some s
cut_prefix (String.◌∷◌ c p) String.[] = none
cut_prefix (String.◌∷◌ c p) (String.◌∷◌ d s) = if char_eq c d then cut_prefix p s else none

abbrev pub is_some {ℓ} : {A : Type ℓ} → Option A → Bool
is_some none = false
is_some (some a) = true

-- strings.HasPrefix(s, prefix)
unfoldable pub has_prefix : String → String → Bool
unfolding cut_prefix
has_prefix s p = is_some (cut_prefix p s)

abbrev get_or : Option String → String → String
get_or none s = s
get_or (some r) s = r

-- strings.TrimPrefix(s, prefix)
unfoldable pub trim_prefix : String → String → String
unfolding cut_prefix
trim_prefix s p = get_or (cut_prefix p s) s

pub cut_prefix-append : (p r : String) → cut_prefix p (p ^^ r) ≡ some r
unfolding cut_prefix
cut_prefix-append String.[] r = ap some (nil-append r)
cut_prefix-append (String.◌∷◌ c p) r =
    rw cons-append (rw ((char_eq_iff c c).1 refl) (cut_prefix-append p r))

pub eq-append_of_cut_prefix : (p s r : String) → cut_prefix p s ≡ some r → s ≡ p ^^ r
unfolding cut_prefix
eq-append_of_cut_prefix String.[] s r h = rw nil-append (ground arith)
eq-append_of_cut_prefix (String.◌∷◌ c p) String.[] r h = cc
eq-append_of_cut_prefix (String.◌∷◌ c p) (String.◌∷◌ d s) r h = elim (Bool-cases (char_eq c d)) [
  | inl e ↦ rw cons-append (cc ((char_eq_iff c d).0 e, eq-append_of_cut_prefix p s r (rw e at h)))
  | inr e ↦ absurd (cc (rw e at h))
]

pub has_prefix_iff : (s p : String) → (has_prefix s p ≡ true) ↔ ((r : String) × (s ≡ p ^^ r))
unfolding has_prefix
has_prefix_iff s p = (λ h. go (cut_prefix p s) refl h, λ (r, e). rw (e, cut_prefix-append p r))
  where
    go : (o : Option String) → cut_prefix p s ≡ o → is_some o ≡ true → (r : String) × (s ≡ p ^^ r)
    go none e h = cc
    go (some r) e h = (r, eq-append_of_cut_prefix p s r e)

pub has_prefix-append : (p r : String) → has_prefix (p ^^ r) p ≡ true
has_prefix-append p r = (has_prefix_iff (p ^^ r) p).1 (r, refl)

pub trim_prefix-append : (p r : String) → trim_prefix (p ^^ r) p ≡ r
unfolding trim_prefix
trim_prefix-append p r = rw (cut_prefix-append p r)
