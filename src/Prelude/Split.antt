-- ===== src/Prelude/Split.antt =====
-- strings.Split and strings.SplitN at a slash, and paths as lists of segments.
use Prim.Native.Char.{Char}
use Prim.Native.String.{String}
use Prim.Native.Nat.{ℕ, zero, suc}
use mathlib.Core.Path.{◌≡◌, refl, sym, ap, ◌∙◌}
use mathlib.Core.Logic.{◌≢◌, inl, inr}
use mathlib.Core.Bool.{false}
use mathlib.Core.Option.{Option, none, some}
use mathlib.Core.List.{List, [], ◌∷◌}
use text.Mathlib.Text.{◌==◌}
use text.Mathlib.TextEquality.{eq_iff}
use text.Mathlib.TextLemmas.{nil-append, cons-append, append_assoc}
use go_arch_guard.Prelude.Tests.{if◌then◌else◌, Bool-cases, Option-cases}
use go_arch_guard.Prelude.Text.{
  ◌^^◌, char_eq, cut_prefix, cut_prefix-append, eq-append_of_cut_prefix,
}

-- strings.Cut(s, "/"): what stands before the first slash, and what follows it, if there is one
unfoldable pub before_slash : String → String
before_slash String.[] = ""
before_slash (String.◌∷◌ c s) = if char_eq c "/" then "" else String.◌∷◌ c (before_slash s)

unfoldable pub after_slash : String → Option String
after_slash String.[] = none
after_slash (String.◌∷◌ c s) = if char_eq c "/" then some s else after_slash s

unfoldable pub split_n : ℕ → String → List String
unfolding before_slash after_slash
split_n zero s = []
split_n (suc zero) s = s ∷ []
split_n (suc (suc n)) s = elim (after_slash s) [
  | none ↦ s ∷ []
  | some rest ↦ before_slash s ∷ split_n (suc n) rest
]

abbrev extend : Char → List String → List String
extend c [] = String.◌∷◌ c "" ∷ []
extend c (p ∷ ps) = String.◌∷◌ c p ∷ ps

unfoldable pub split_slash : String → List String
split_slash String.[] = "" ∷ []
split_slash (String.◌∷◌ c s) =
    let rest = split_slash s in if char_eq c "/" then "" ∷ rest else extend c rest

unfoldable pub join_slash : List String → String
join_slash [] = ""
join_slash (s ∷ []) = s
join_slash (s ∷ t ∷ rest) = s ^^ "/" ^^ join_slash (t ∷ rest)

-- no slash
abbrev pub IsFlat : String → Type 0
IsFlat String.[] = Unit
IsFlat (String.◌∷◌ c s) = (char_eq c "/" ≡ false) × IsFlat s

-- a segment of a path: not empty, and no slash
abbrev pub IsSegment : String → Type 0
IsSegment s = (s ≢ "") × IsFlat s

pub before_slash-append : (s t : String) → IsFlat s → before_slash (s ^^ "/" ^^ t) ≡ s
unfolding before_slash
before_slash-append String.[] t h = rw (nil-append, cons-append) refl
before_slash-append (String.◌∷◌ c s) t (e, h) = rw (cons-append, e, before_slash-append s t h)

pub after_slash-append : (s t : String) → IsFlat s → after_slash (s ^^ "/" ^^ t) ≡ some t
unfolding after_slash
after_slash-append String.[] t h = rw (nil-append, cons-append, nil-append) refl
after_slash-append (String.◌∷◌ c s) t (e, h) = rw (cons-append, e, after_slash-append s t h)

-- Whatever stands before it, a slash is found.
after_slash-some : (s t : String) → (r : String) × (after_slash (s ^^ "/" ^^ t) ≡ some r)
unfolding after_slash
after_slash-some String.[] t = (t, rw (nil-append, cons-append, nil-append) refl)
after_slash-some (String.◌∷◌ c s) t = elim (Bool-cases (char_eq c "/")) [
  | inl e ↦ (s ^^ "/" ^^ t, rw (cons-append, e) refl)
  | inr e ↦ let (r, h) = after_slash-some s t in (r, rw (cons-append, e) h)
]

pub after_slash-none : (s : String) → IsFlat s → after_slash s ≡ none
unfolding after_slash
after_slash-none String.[] h = refl
after_slash-none (String.◌∷◌ c s) (e, h) = rw e (after_slash-none s h)

eq_of_cut :
    (dir s t r : String) → IsFlat dir → IsFlat s → (s ^^ "/" ^^ t) ≡ ((dir ^^ "/") ^^ r) → s ≡ dir
eq_of_cut dir s t r d h e =
    sym (before_slash-append s t h)
    ∙ ap before_slash (e ∙ append_assoc dir "/" r)
    ∙ before_slash-append dir r d

-- Cutting a directory off a path compares its first segment, and leaves the others.
pub cut_prefix-dir :
    (dir s t : String)
    → IsFlat dir
    → IsFlat s
    → cut_prefix (dir ^^ "/") (s ^^ "/" ^^ t) ≡ (if s == dir then some t else none)
cut_prefix-dir dir s t d h = elim (Bool-cases (s == dir)) [
  | inl e ↦
      rw (e, (eq_iff s dir).0 e)
        (ap (cut_prefix (dir ^^ "/")) (sym (append_assoc dir "/" t))
          ∙ cut_prefix-append (dir ^^ "/") t)
  | inr e ↦ rw e (elim (Option-cases (cut_prefix (dir ^^ "/") (s ^^ "/" ^^ t))) [
    | inl n ↦ n
    | inr (r, k) ↦ absurd (
        cc (
          e,
          (eq_iff s dir).1
              (eq_of_cut dir s t r d h (eq-append_of_cut_prefix (dir ^^ "/") (s ^^ "/" ^^ t) r k)),
        ))
  ])
]

pub cut_prefix-flat : (dir s : String) → IsFlat s → cut_prefix (dir ^^ "/") s ≡ none
cut_prefix-flat dir s h = elim (Option-cases (cut_prefix (dir ^^ "/") s)) [
  | inl n ↦ n
  | inr (r, k) ↦
      let e = eq-append_of_cut_prefix (dir ^^ "/") s r k ∙ append_assoc dir "/" r in
      let (q, found) = after_slash-some dir r in
      absurd (cc (after_slash-none s h, ap after_slash e, found))
]
