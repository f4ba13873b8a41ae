-- ===== src/Examples/Names.antt =====
-- The claims on names, at the letters and digits of ASCII.
use Prim.Native.Nat.{compare, Ordering}
use Prim.Native.Char.{Char, char, code, IsScalar}
use Prim.Native.String
use go_arch_guard.Prelude.{
  ℕ, ◌+◌, ◌-◌, Bool, false, ◌&&◌, ltb, leb, some, inl, inr, String, true, ◌≡◌, ◌↔◌, ◌⊎◌, none, refl,
  [], ◌∷◌, ◌^^◌, All, arith,
}
use go_arch_guard.Core.Violation.{warning}
use go_arch_guard.Core.Context.{context_arch}
use go_arch_guard.Core.Paths.{trim_suffix}
use go_arch_guard.Analysis.Case.Ascii.{IsLower, IsUpper, IsAsciiLawful}
use go_arch_guard.Analysis.Case.{Unicode, snake_to_pascal, pascal_to_snake}
use go_arch_guard.Analysis.Case.RoundTrip.{join_snake, IsWord, pascal_to_snake-snake_to_pascal}
use go_arch_guard.Naming.Files.{base}
use go_arch_guard.Naming.SnakeCaseFiles.{is_snake_case, to_snake_case}
use go_arch_guard.Naming.SnakeCaseFiles.Fix.{IsName, is_snake_case-to_snake_case}
use go_arch_guard.Naming.NoLayerSuffix.{check_layer_file, passes_over}
use go_arch_guard.Naming.NoLayerSuffix.Clean.{IsBare, check_layer_file-none_iff}
use go_arch_guard.Naming.Types.{stutters, drop_runes, lower, starts_upper}
use go_arch_guard.Naming.Types.Stutter.{stutters_iff}
use go_arch_guard.Examples.Project.{host, importing, clean, handler_path, app_path}

lt_of_test : (o : Ordering) → (elim o [ Ordering.lt ↦ true | _ ↦ false ]) ≡ true → o ≡ Ordering.lt
lt_of_test Ordering.lt h = refl
lt_of_test Ordering.eq h = absurd (cc h)
lt_of_test Ordering.gt h = absurd (cc h)

small-IsScalar : (n : ℕ) → ltb n 55296 ≡ true → IsScalar n
small-IsScalar n h = rw (lt_of_test (compare n 55296) h) tt

-- the ASCII letters and digits, and the cases of its letters
abbrev in_range : ℕ → ℕ → Char → Bool
in_range low high c = leb low (code c) && leb (code c) high

abbrev decide : (b : Bool) → (b ≡ true) ⊎ (b ≡ false)
decide true = inl refl
decide false = inr refl

raised-IsScalar : (c : Char) → in_range 65 90 c ≡ true → IsScalar (code c + 32)
raised-IsScalar c h = small-IsScalar (code c + 32) (ground (arith, h))

lowered-IsScalar : (c : Char) → in_range 97 122 c ≡ true → IsScalar (code c - 32)
lowered-IsScalar c h = small-IsScalar (code c - 32) (ground (arith, h))

abbrev to_lower_if : (c : Char) → (in_range 65 90 c ≡ true) ⊎ (in_range 65 90 c ≡ false) → Char
to_lower_if c (inl h) = char (code c + 32) (raised-IsScalar c h)
to_lower_if c (inr h) = c

abbrev to_upper_if : (c : Char) → (in_range 97 122 c ≡ true) ⊎ (in_range 97 122 c ≡ false) → Char
to_upper_if c (inl h) = char (code c - 32) (lowered-IsScalar c h)
to_upper_if c (inr h) = c

abbrev ascii : Unicode
ascii = record {
  is_upper = in_range 65 90;
  is_lower = in_range 97 122;
  is_digit = in_range 48 57;
  to_upper = λ c. to_upper_if c (decide (in_range 97 122 c));
  to_lower = λ c. to_lower_if c (decide (in_range 65 90 c));
}

upper_case_lem :
    (c : Char) (o : (in_range 97 122 c ≡ true) ⊎ (in_range 97 122 c ≡ false))
    → IsLower c
    → code (to_upper_if c o) + 32 ≡ code c
upper_case_lem c (inl h) l = omega (arith, l)
upper_case_lem c (inr h) l = absurd (ground (arith, h, l))

lower_case_lem :
    (c : Char) (o : (in_range 65 90 c ≡ true) ⊎ (in_range 65 90 c ≡ false))
    → IsUpper c
    → code (to_lower_if c o) ≡ code c + 32
lower_case_lem c (inl h) k = refl
lower_case_lem c (inr h) k = absurd (ground (arith, h, k))

lower_same_lem :
    (c : Char) (o : (in_range 65 90 c ≡ true) ⊎ (in_range 65 90 c ≡ false))
    → ¬ IsUpper c
    → to_lower_if c o ≡ c
lower_same_lem c (inl h) n = absurd (n (ground (arith, h)))
lower_same_lem c (inr h) n = refl

ascii-IsAsciiLawful : IsAsciiLawful ascii
ascii-IsAsciiLawful = record {
  lower = λ c h. ground arith;
  upper = λ c h. ground arith;
  digit = λ c h. ground arith;
  upper_case = λ c l. upper_case_lem c (decide (in_range 97 122 c)) l;
  lower_case = λ c k. lower_case_lem c (decide (in_range 65 90 c)) k;
  lower_same = λ c h n. lower_same_lem c (decide (in_range 65 90 c)) n;
}

words-AreWords : All IsWord ("user" ∷ "v2" ∷ [])
words-AreWords = ground arith

pascal_to_snake-snake_to_pascal_example :
    (pascal : String) × (snake_to_pascal ascii (join_snake ("user" ∷ "v2" ∷ [])) ≡ some pascal)
    × (pascal_to_snake ascii pascal ≡ join_snake ("user" ∷ "v2" ∷ []))
pascal_to_snake-snake_to_pascal_example =
    pascal_to_snake-snake_to_pascal ascii ascii-IsAsciiLawful "user" ("v2" ∷ []) words-AreWords

to_pascal : snake_to_pascal ascii "user_v2" ≡ some "UserV2"
unfolding snake_to_pascal
to_pascal = refl

no_pascal : snake_to_pascal ascii "é_a" ≡ none
unfolding snake_to_pascal
no_pascal = refl

sample-IsName : IsName "XMLParser_2"
sample-IsName = ground arith

is_snake_case-to_snake_case_example :
    is_snake_case ascii (to_snake_case ascii ("XMLParser_2" ^^ ".go")) ≡ true
is_snake_case-to_snake_case_example =
    is_snake_case-to_snake_case ascii ascii-IsAsciiLawful "XMLParser_2" sample-IsName

check_layer_file-none_iff_example :
    (check_layer_file host
        (λ f. "/r/handler")
        warning
        clean
        (importing handler_path app_path)
        "/r/handler/order_handler.go"
      ≡ none)
    ↔ ((passes_over host
            (λ f. "/r/handler")
            warning
            clean
            (importing handler_path app_path)
            "/r/handler/order_handler.go"
          ≡ true)
        ⊎ IsBare
            (context_arch clean).layers.layer_dir_names
            (trim_suffix (base "/r/handler/order_handler.go") ".go"))
check_layer_file-none_iff_example =
    check_layer_file-none_iff host (λ f. "/r/handler") warning clean
      (importing handler_path app_path) "/r/handler/order_handler.go"

stutters_iff_example : (stutters ascii "ab" "AbBa" ≡ true) ↔ (
    (p : String) × (r : String) × ("AbBa" ≡ p ^^ r)
    × (lower ascii p ≡ lower ascii "ab")
    × (starts_upper ascii r ≡ true)
    × (drop_runes (String.count "ab") "AbBa" ≡ r))
stutters_iff_example = stutters_iff ascii "ab" "AbBa"
