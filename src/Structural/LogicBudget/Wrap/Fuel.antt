-- ===== src/Structural/LogicBudget/Wrap/Fuel.antt =====
-- The loop over the format ends within its fuel.
use Prim.Native.Char.{Char}
use Prim.Native.String
use text.Mathlib.TextLemmas.{length-cons}
use go_arch_guard.Prelude.{
  ℕ, zero, suc, ◌≤◌, String, Bool, true, false, Option, none, some, List, [], ◌∷◌, ◌≡◌, refl, arith,
  inl, inr, char_eq, Option-cases, if◌then◌else◌,
}
use go_arch_guard.Structural.LogicBudget.Wrap.{
  skip_digits, parse_fmt_index, consume_fmt_width_or_precision_arg, consume_precision, skip_flags,
  Verb, read_verb, wrap_loop, fmt_wrap_arg_indexes, after, index_at, read_index, finish, prepend,
  or_nil,
}

-- a rest of at most `n` characters, if any
abbrev Short : ℕ → Option String → Type 0
Short n none = Unit
Short n (some t) = String.count t ≤ n

abbrev ShortPair : ℕ → Option (ℕ × String) → Type 0
ShortPair n none = Unit
ShortPair n (some (i, t)) = String.count t ≤ n

abbrev ShortVerb : ℕ → Option Verb → Type 0
ShortVerb n none = Unit
ShortVerb n (some v) = String.count v.rest ≤ n

after-Short : (c : Char) (s : String) → Short (String.count s) (after c s)
after-Short c String.[] = tt
after-Short c (String.◌∷◌ d s) = ground (arith, length-cons d s)

skip_digits-le : (s : String) → String.count (skip_digits s) ≤ String.count s
unfolding skip_digits
skip_digits-le String.[] = omega arith
skip_digits-le (String.◌∷◌ c s) = ground (arith, skip_digits-le s, length-cons c s)

skip_flags-le : (s : String) → String.count (skip_flags s) ≤ String.count s
unfolding skip_flags
skip_flags-le String.[] = omega arith
skip_flags-le (String.◌∷◌ c s) = ground (arith, skip_flags-le s, length-cons c s)

index_at-ShortPair : (s : String) → ShortPair (String.count s) (index_at s)
index_at-ShortPair s = ground (arith, skip_digits-le s, after-Short "]" (skip_digits s))

widen : (m n : ℕ) (o : Option (ℕ × String)) → m ≤ n → ShortPair m o → ShortPair n o
widen m n none h k = tt
widen m n (some (i, t)) h k = omega arith

then-ShortPair :
    (n : ℕ) (o : Option String) (f : String → Option (ℕ × String))
    → Short n o
    → ((t : String) → ShortPair (String.count t) (f t))
    → ShortPair n (elim o [ none ↦ none | some t ↦ f t ])
then-ShortPair n none f h k = tt
then-ShortPair n (some t) f h k = widen (String.count t) n (f t) h (k t)

parse_fmt_index-ShortPair : (s : String) → ShortPair (String.count s) (parse_fmt_index s)
unfolding parse_fmt_index
parse_fmt_index-ShortPair s =
    then-ShortPair (String.count s) (after "[" s) index_at (after-Short "[" s) index_at-ShortPair

consume-le :
    (s : String) (next_arg : ℕ)
    → String.count (consume_fmt_width_or_precision_arg s next_arg).0 ≤ String.count s
unfolding consume_fmt_width_or_precision_arg
consume-le s next_arg = elim (Option-cases (parse_fmt_index s)) [
  | inl e ↦ ground (arith, after-Short "*" s, skip_digits-le s)
  | inr ((idx, next), e) ↦ ground (arith, after-Short "*" next, parse_fmt_index-ShortPair s)
]

consume_precision-le :
    (s : String) (next_arg : ℕ) → String.count (consume_precision s next_arg).0 ≤ String.count s
unfolding consume_precision
consume_precision-le s next_arg = elim (Option-cases (after "." s)) [
  | inl e ↦ ground arith
  | inr (t, e) ↦ ground (arith, after-Short "." s, consume-le t next_arg)
]

read_index-le : (s : String) (o : Option ℕ) → String.count (read_index s o).1 ≤ String.count s
read_index-le s o = ground (arith, parse_fmt_index-ShortPair s)

finish-ShortVerb : (s : String) (o : Option ℕ) (n : ℕ) → ShortVerb (String.count s) (finish s o n)
finish-ShortVerb String.[] o n = tt
finish-ShortVerb (String.◌∷◌ c s) o n = omega (arith, length-cons c s)

widen_verb : (m n : ℕ) (o : Option Verb) → m ≤ n → ShortVerb m o → ShortVerb n o
widen_verb m n none h k = tt
widen_verb m n (some v) h k = omega arith

read_verb-ShortVerb : (s : String) (n : ℕ) → ShortVerb (String.count s) (read_verb s n)
unfolding read_verb
read_verb-ShortVerb s n =
    let s1 = (read_index s none).1 in
    let width = consume_fmt_width_or_precision_arg (skip_flags s1) n in
    let precise = consume_precision width.0 width.1 in
    let last = read_index precise.0 (read_index s none).0 in
    widen_verb (String.count last.1) (String.count s) (finish last.1 last.0 precise.1)
      (omega (
        arith,
        read_index-le s none,
        skip_flags-le s1,
        consume-le (skip_flags s1) n,
        consume_precision-le width.0 width.1,
        read_index-le precise.0 (read_index s none).0,
      ))
      (finish-ShortVerb last.1 last.0 precise.1)

-- The loop has ended.
abbrev Ends : Option (List ℕ) → Type 0
Ends o = (is : List ℕ) × (o ≡ some is)

prepend-Ends : (o : Option ℕ) (is : Option (List ℕ)) → Ends is → Ends (prepend o is)
prepend-Ends none is h = h
prepend-Ends (some i) none (js, e) = absurd (cc e)
prepend-Ends (some i) (some is) h = (i ∷ is, refl)

module _ (r : String → ℕ → Option (List ℕ)) (bound : ℕ)
    (ends : (t : String) (n : ℕ) → String.count t ≤ bound → Ends (r t n)) where
  verb-Ends :
      (o : Option Verb)
      → ShortVerb bound o
      → Ends (elim o as (λ o'. Option (List ℕ)) [
        | none ↦ some []
        | some v ↦ prepend v.wraps (r v.rest v.next_arg)
      ])
  verb-Ends none h = ([], refl)
  verb-Ends (some v) h = prepend-Ends v.wraps (r v.rest v.next_arg) (ends v.rest v.next_arg h)

  percent-Ends :
      (o : Option String) (n : ℕ) {x : Option (List ℕ)}
      → Short bound o
      → Ends x
      → Ends (elim o as (λ o'. Option (List ℕ)) [ some t ↦ r t n | none ↦ x ])
  percent-Ends none n h e = e
  percent-Ends (some t) n h e = ends t n h

if-Ends : (b : Bool) {x y : Option (List ℕ)} → Ends x → Ends y → Ends (if b then x else y)
if-Ends true e d = e
if-Ends false e d = d

-- The loop ends with as much fuel as the rest of the format has characters.
wrap_loop-Ends : (f : ℕ) (s : String) (n : ℕ) → String.count s ≤ f → Ends (wrap_loop f s n)
unfolding wrap_loop
wrap_loop-Ends f String.[] n h = ([], refl)
wrap_loop-Ends zero (String.◌∷◌ c s) n h = absurd (omega (arith, length-cons c s))
wrap_loop-Ends (suc f) (String.◌∷◌ c s) n h =
    let ends : (t : String) (m : ℕ) → String.count t ≤ String.count s → Ends (wrap_loop f t m) =
      λ t m le. wrap_loop-Ends f t m (omega (arith, length-cons c s)) in
    if-Ends (char_eq c "%")
      (percent-Ends (wrap_loop f) (String.count s) ends (after "%" s) n (after-Short "%" s)
        (verb-Ends (wrap_loop f) (String.count s) ends (read_verb s n) (read_verb-ShortVerb s n)))
      (ends s n (omega arith))

-- A loop that has ended ends alike with more fuel.
abbrev Same : Option (List ℕ) → Option (List ℕ) → Type 0
Same o o' = (is : List ℕ) → o ≡ some is → o' ≡ some is

prepend-Same : (o : Option ℕ) (x y : Option (List ℕ)) → Same x y → Same (prepend o x) (prepend o y)
prepend-Same none x y h = h
prepend-Same (some i) none y h = λ is e. absurd (cc e)
prepend-Same (some i) (some is) y h = λ js e. rw (h is refl) e

module _ (r r' : String → ℕ → Option (List ℕ))
    (same : (t : String) (n : ℕ) → Same (r t n) (r' t n)) where
  verb-Same :
      (o : Option Verb)
      → Same
          (elim o as (λ o'. Option (List ℕ)) [
            | none ↦ some []
            | some v ↦ prepend v.wraps (r v.rest v.next_arg)
          ])
          (elim o as (λ o'. Option (List ℕ)) [
            | none ↦ some []
            | some v ↦ prepend v.wraps (r' v.rest v.next_arg)
          ])
  verb-Same none = λ is e. e
  verb-Same (some v) =
      prepend-Same v.wraps (r v.rest v.next_arg) (r' v.rest v.next_arg) (same v.rest v.next_arg)

  percent-Same :
      (o : Option String) (n : ℕ) {x y : Option (List ℕ)}
      → Same x y
      → Same
          (elim o as (λ o'. Option (List ℕ)) [ some t ↦ r t n | none ↦ x ])
          (elim o as (λ o'. Option (List ℕ)) [ some t ↦ r' t n | none ↦ y ])
  percent-Same none n e = e
  percent-Same (some t) n e = same t n

if-Same :
    (b : Bool) {x x' y y' : Option (List ℕ)}
    → Same x x'
    → Same y y'
    → Same (if b then x else y) (if b then x' else y')
if-Same true e d = e
if-Same false e d = d

wrap_loop-Same : (f g : ℕ) (s : String) (n : ℕ) → f ≤ g → Same (wrap_loop f s n) (wrap_loop g s n)
unfolding wrap_loop
wrap_loop-Same f g String.[] n le = λ is e. e
wrap_loop-Same zero g (String.◌∷◌ c s) n le = λ is e. absurd (cc e)
wrap_loop-Same (suc f) zero (String.◌∷◌ c s) n le = absurd (omega arith)
wrap_loop-Same (suc f) (suc g) (String.◌∷◌ c s) n le =
    let same : (t : String) (m : ℕ) → Same (wrap_loop f t m) (wrap_loop g t m) =
      λ t m. wrap_loop-Same f g t m (omega arith) in
    if-Same (char_eq c "%")
      (percent-Same (wrap_loop f) (wrap_loop g) same (after "%" s) n
        (verb-Same (wrap_loop f) (wrap_loop g) same (read_verb s n)))
      (same s n)

-- The loop over the format ends: with at least as much fuel as the format has characters it does not run
-- out, and gives the indexes of `fmt_wrap_arg_indexes`, the same for all such amounts.
pub fmt_wrap_arg_indexes-fuel :
    (fuel : ℕ) (format : String)
    → String.count format ≤ fuel
    → wrap_loop fuel format 0 ≡ some (fmt_wrap_arg_indexes format)
unfolding fmt_wrap_arg_indexes
fmt_wrap_arg_indexes-fuel fuel format h =
    let (is, e) = wrap_loop-Ends (String.count format) format 0 (omega arith) in
    wrap_loop-Same (String.count format) fuel format 0 h
      (or_nil (wrap_loop (String.count format) format 0)) (rw e refl)
