-- ===== src/Structural/LogicBudget/Wrap.antt =====
-- rules/structural/logic_budget.go: `fmtWrapArgIndexes` and its helpers. An index into the format is the
-- text that begins there; the program's bytes are characters here, and all that it looks for is ASCII.
-- An int of 64 bits is its two's complement, a number below 2 ^ 64.
pub mod Fuel
use Prim.Native.Char.{Char, code}
use Prim.Native.String
use go_arch_guard.Prelude.{
  ℕ, zero, suc, ◌+◌, ◌-◌, ◌*◌, ◌%◌, String, Bool, true, false, not, ◌&&◌, ◌||◌, Option, none, some,
  List, [], ◌∷◌, ◌==◌, length, eqb, ltb, leb, char_eq, if◌then◌else◌,
}

abbrev is_digit : Char → Bool
is_digit c = leb 48 (code c) && leb (code c) 57

-- `for j < len(format) && format[j] >= '0' && format[j] <= '9'`
unfoldable pub skip_digits : String → String
skip_digits String.[] = String.[]
skip_digits (String.◌∷◌ c s) =
    let rest = skip_digits s in if is_digit c then rest else String.◌∷◌ c s

-- the number that the leading digits spell, behind `n`
unfoldable pub read_digits : ℕ → String → ℕ
read_digits n String.[] = n
read_digits n (String.◌∷◌ c s) =
    let rest = read_digits (10 * n + (code c - 48)) s in if is_digit c then rest else n

abbrev starts_with_digit : String → Bool
starts_with_digit String.[] = false
starts_with_digit (String.◌∷◌ c s) = is_digit c

abbrev after : Char → String → Option String
after c String.[] = none
after c (String.◌∷◌ d s) = if char_eq d c then some s else none

-- `n + 1` on ints, which wraps around
abbrev pub next_int : ℕ → ℕ
next_int n = (n + 1) % 18446744073709551616

abbrev pub is_negative : ℕ → Bool
is_negative n = leb 9223372036854775808 n

-- behind the `[`; strconv.Atoi refuses what an int of 64 bits does not hold
abbrev index_at : String → Option (ℕ × String)
index_at s =
    let n = read_digits 0 s in
    if not (starts_with_digit s) || not (ltb n 9223372036854775808) || eqb n 0
    then none
    else elim (after "]" (skip_digits s)) [ none ↦ none | some next ↦ some (n - 1, next) ]

unfoldable pub parse_fmt_index : String → Option (ℕ × String)
unfolding skip_digits read_digits
parse_fmt_index s = elim (after "[" s) [ none ↦ none | some t ↦ index_at t ]

unfoldable pub consume_fmt_width_or_precision_arg : String → ℕ → String × ℕ
unfolding parse_fmt_index skip_digits
consume_fmt_width_or_precision_arg s next_arg = elim (parse_fmt_index s) [
  | some (idx, next) ↦ elim (after "*" next) [ some t ↦ (t, next_int idx) | none ↦ (s, next_arg) ]
  | none ↦ elim (after "*" s) [ some t ↦ (t, next_int next_arg) | none ↦ (skip_digits s, next_arg) ]
]

-- `strings.ContainsRune("#0+- ", c)`
abbrev is_flag : Char → Bool
is_flag c = char_eq c "#" || char_eq c "0" || char_eq c "+" || char_eq c "-" || char_eq c " "

unfoldable pub skip_flags : String → String
skip_flags String.[] = String.[]
skip_flags (String.◌∷◌ c s) = let rest = skip_flags s in if is_flag c then rest else String.◌∷◌ c s

-- an index written before the verb, and what follows it
abbrev read_index : String → Option ℕ → Option ℕ × String
read_index s verb_arg = elim (parse_fmt_index s) [
  | none ↦ (verb_arg, s)
  | some (idx, next) ↦ (some idx, next)
]

-- What one verb leaves: the argument that it wraps, the next argument, and the rest of the format.
pub record Verb : Type 0 where
  pub wraps : Option ℕ
  pub next_arg : ℕ
  pub rest : String

abbrev get_or : Option ℕ → ℕ → ℕ
get_or none n = n
get_or (some m) n = m

-- from the `%` up to the verb's letter; a verb that ends the format has none
abbrev finish : String → Option ℕ → ℕ → Option Verb
finish String.[] verb_arg next_arg = none
finish (String.◌∷◌ c s) verb_arg next_arg =
    let arg = get_or verb_arg next_arg in
    some (record {
      wraps = if char_eq c "w" then some arg else none;
      next_arg = if char_eq c "%" then next_arg else next_int arg;
      rest = s;
    })

-- `if i < len(format) && format[i] == '.'`
unfoldable pub consume_precision : String → ℕ → String × ℕ
unfolding consume_fmt_width_or_precision_arg
consume_precision s next_arg = elim (after "." s) [
  | none ↦ (s, next_arg)
  | some t ↦ consume_fmt_width_or_precision_arg t next_arg
]

unfoldable pub read_verb : String → ℕ → Option Verb
unfolding parse_fmt_index skip_flags consume_fmt_width_or_precision_arg consume_precision
read_verb s next_arg =
    let (verb_arg, s1) = read_index s none in
    let (s2, next2) = consume_fmt_width_or_precision_arg (skip_flags s1) next_arg in
    let (s3, next3) = consume_precision s2 next2 in
    let (verb_arg', s4) = read_index s3 verb_arg in finish s4 verb_arg' next3

abbrev prepend : Option ℕ → Option (List ℕ) → Option (List ℕ)
prepend none is = is
prepend (some i) none = none
prepend (some i) (some is) = some (i ∷ is)

-- the loop, on fuel; `none` where the fuel runs out before the format does
unfoldable pub wrap_loop : ℕ → String → ℕ → Option (List ℕ)
unfolding read_verb
wrap_loop fuel String.[] next_arg = some []
wrap_loop zero (String.◌∷◌ c s) next_arg = none
wrap_loop (suc fuel) (String.◌∷◌ c s) next_arg =
    if char_eq c "%"
    then elim (after "%" s) [
      | some t ↦ wrap_loop fuel t next_arg
      | none ↦ elim (read_verb s next_arg) [
        | none ↦ some []
        | some v ↦ prepend v.wraps (wrap_loop fuel v.rest v.next_arg)
      ]
    ]
    else wrap_loop fuel s next_arg

abbrev or_nil : Option (List ℕ) → List ℕ
or_nil none = []
or_nil (some is) = is

unfoldable pub fmt_wrap_arg_indexes : String → List ℕ
unfolding wrap_loop
fmt_wrap_arg_indexes format = or_nil (wrap_loop (String.count format) format 0)
