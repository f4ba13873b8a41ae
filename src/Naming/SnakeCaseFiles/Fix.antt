-- ===== src/Naming/SnakeCaseFiles/Fix.antt =====
-- The name that the rule proposes is one that it accepts.
use Prim.Native.Char.{Char, code}
use text.Mathlib.TextEquality.{Char-path}
use text.Mathlib.TextLemmas.{cons-append, head-eq_of_cons-eq, cons≢nil}
use go_arch_guard.Prelude.{
  String, true, false, not, ◌&&◌, ◌||◌, ◌⊎◌, ◌≡◌, refl, sym, ap, subst, ◌∙◌, ◌==◌, ◌^^◌, char_eq,
  char_eq_iff, arith, eq_iff, Bool-cases, inl, inr, if◌then◌else◌,
}
use go_arch_guard.Core.Paths.{trim_suffix}
use go_arch_guard.Analysis.Case.{split_on, Unicode, snake_loop, pascal_to_snake}
use go_arch_guard.Analysis.Case.Ascii.{
  IsUpper, IsSmall, IsAsciiLawful, small_lem, differs, small_underscore,
}
use go_arch_guard.Naming.Files.{ext}
use go_arch_guard.Naming.SnakeCaseFiles.{
  all_snake, trim_name, has_dot, is_snake_case, to_snake_case, all_snake_parts,
}

ext-append : (name : String) → ext (name ^^ ".go") ≡ ".go"
unfolding ext
ext-append String.[] = refl
ext-append (String.◌∷◌ c s) = rw cons-append (rw (ext-append s) refl)

head_differs :
    (c d : Char) (s t : String) → char_eq c d ≡ false → (String.◌∷◌ c s == String.◌∷◌ d t) ≡ false
head_differs c d s t h = elim (Bool-cases (String.◌∷◌ c s == String.◌∷◌ d t)) [
  | inl e ↦
      let same =
        (char_eq_iff c d).1 (head-eq_of_cons-eq ((eq_iff (String.◌∷◌ c s) (String.◌∷◌ d t)).0 e)) in
      absurd (cc (h, same))
  | inr e ↦ e
]

not_nil : (c : Char) (s : String) → (String.◌∷◌ c s == "") ≡ false
not_nil c s = elim (Bool-cases (String.◌∷◌ c s == "")) [
  | inl e ↦ absurd (cons≢nil ((eq_iff (String.◌∷◌ c s) "").0 e))
  | inr e ↦ e
]

-- no dot in the name
abbrev IsDotless : String → Type 0
IsDotless String.[] = Unit
IsDotless (String.◌∷◌ c s) = (char_eq c "." ≡ false) × IsDotless s

trim_suffix-append : (name : String) → IsDotless name → trim_suffix (name ^^ ".go") ".go" ≡ name
unfolding trim_suffix
trim_suffix-append String.[] h = refl
trim_suffix-append (String.◌∷◌ c s) (h, hs) =
    ap (λ x. trim_suffix x ".go") (cons-append c s ".go")
    ∙ rw (head_differs c "." (s ^^ ".go") "go" h, trim_suffix-append s hs) refl

has_dot-IsDotless : (s : String) → IsDotless s → has_dot s ≡ false
has_dot-IsDotless String.[] h = refl
has_dot-IsDotless (String.◌∷◌ c s) (h, hs) = ground (arith, h, has_dot-IsDotless s hs)

trim_suffix-IsDotless : (s p : String) → IsDotless s → IsDotless (trim_suffix s p)
unfolding trim_suffix
trim_suffix-IsDotless String.[] p h = tt
trim_suffix-IsDotless (String.◌∷◌ c s) p (h, hs) = elim (Bool-cases (String.◌∷◌ c s == p)) [
  | inl e ↦ rw e tt
  | inr e ↦ rw e (h, trim_suffix-IsDotless s p hs)
]

-- an underscore, or a letter or digit of ASCII
abbrev pub IsNameChar : Char → Type 0
IsNameChar c = IsUpper c ⊎ IsSmall c ⊎ (code c ≡ 95)

abbrev pub AreNameChars : String → Type 0
AreNameChars String.[] = Unit
AreNameChars (String.◌∷◌ c s) = IsNameChar c × AreNameChars s

-- not empty, no underscore first, and letters, digits and underscores
abbrev pub IsName : String → Type 0
IsName String.[] = ⊥
IsName (String.◌∷◌ c s) = (IsUpper c ⊎ IsSmall c) × AreNameChars s

char_no_dot : (c : Char) → IsNameChar c → char_eq c "." ≡ false
char_no_dot c h = differs c "." λ e. ground (arith, e, h)

IsDotless-of_AreNameChars : (s : String) → AreNameChars s → IsDotless s
IsDotless-of_AreNameChars String.[] h = tt
IsDotless-of_AreNameChars (String.◌∷◌ c s) (h, hs) =
    (char_no_dot c h, IsDotless-of_AreNameChars s hs)

module _ (u : Unicode) (law : IsAsciiLawful u) where
  -- what the rule takes
  abbrev IsSnakeChar : Char → Type 0
  IsSnakeChar c = (u.is_lower c || u.is_digit c || char_eq c "_") ≡ true

  IsSnakeChar-dotless : (c : Char) → IsSnakeChar c → char_eq c "." ≡ false
  IsSnakeChar-dotless c h = elim (Bool-cases (char_eq c ".")) [
    | inl e ↦ absurd (
        ground (
          arith,
          subst IsSnakeChar ((char_eq_iff c ".").0 e) h,
          law.lower "." (omega arith),
          law.digit "." (omega arith),
        ))
    | inr e ↦ e
  ]

  to_lower-IsSmall : (c : Char) → IsUpper c ⊎ IsSmall c → IsSmall (u.to_lower c)
  to_lower-IsSmall c (inl k) =
      inl (omega (arith, law.lower_case c k), omega (arith, law.lower_case c k))
  to_lower-IsSmall c (inr k) = subst IsSmall (sym (small_lem u law c k).2) k

  small-IsSnakeChar : (c : Char) → IsSmall c → IsSnakeChar c
  small-IsSnakeChar c h = ground (arith, (small_lem u law c h).1)

  to_lower-IsSnakeChar : (c : Char) → IsNameChar c → IsSnakeChar (u.to_lower c)
  to_lower-IsSnakeChar c (inl k) = small-IsSnakeChar (u.to_lower c) (to_lower-IsSmall c (inl k))
  to_lower-IsSnakeChar c (inr (inl k)) =
      small-IsSnakeChar (u.to_lower c) (to_lower-IsSmall c (inr k))
  to_lower-IsSnakeChar c (inr (inr e)) =
      let same : u.to_lower c ≡ c = law.lower_same c (omega arith) (λ k. absurd (omega arith)) in
      let here : char_eq c "_" ≡ true = (char_eq_iff c "_").1 (Char-path c "_" e) in
      rw same ground (arith, here)

  all_snake-snake_loop :
      (prev : Char) (s : String) → AreNameChars s → all_snake u (snake_loop u prev s) ≡ true
  unfolding all_snake snake_loop
  all_snake-snake_loop prev String.[] h = refl
  all_snake-snake_loop prev (String.◌∷◌ r s) (h, hs) =
      ground (arith, to_lower-IsSnakeChar r h, all_snake-snake_loop r s hs)

  all_snake-trim_suffix :
      (s p : String) → all_snake u s ≡ true → all_snake u (trim_suffix s p) ≡ true
  unfolding all_snake trim_suffix
  all_snake-trim_suffix String.[] p h = refl
  all_snake-trim_suffix (String.◌∷◌ c s) p h = elim (Bool-cases (String.◌∷◌ c s == p)) [
    | inl e ↦ rw e refl
    | inr e ↦
        let rest = all_snake-trim_suffix s p (ground (arith, h)) in rw e ground (arith, h, rest)
  ]

  IsDotless-of_all_snake : (s : String) → all_snake u s ≡ true → IsDotless s
  unfolding all_snake
  IsDotless-of_all_snake String.[] h = tt
  IsDotless-of_all_snake (String.◌∷◌ c s) h =
      (IsSnakeChar-dotless c (ground arith), IsDotless-of_all_snake s (ground arith))

  -- A text of snake characters whose first one is no underscore is accepted, with `.go` behind it.
  is_snake_case_go :
      (c : Char) (s : String)
      → char_eq c "_" ≡ false
      → all_snake u (String.◌∷◌ c s) ≡ true
      → is_snake_case u (String.◌∷◌ c s ^^ ".go") ≡ true
  unfolding is_snake_case trim_suffix
  is_snake_case_go c s h a =
      let snake = String.◌∷◌ c s in
      let bare : trim_name (snake ^^ ".go") ≡ trim_suffix snake "_test" =
        ap (λ x. trim_suffix x "_test")
          (trim_suffix-append snake (IsDotless-of_all_snake snake a)) in
      let kept : trim_suffix snake "_test" ≡ String.◌∷◌ c (trim_suffix s "_test") =
        rw (head_differs c "_" s "test" h) refl in
      let end = trim_suffix snake "_test" in
      let fine = all_snake-trim_suffix snake "_test" a in
      subst
        (λ t.
          (if has_dot t then all_snake_parts u (split_on "." t) else not (t == "") && all_snake u t)
          ≡ true)
        (sym bare)
        (rw (has_dot-IsDotless end (IsDotless-of_all_snake end fine))
          (rw fine (rw kept (rw (not_nil c (trim_suffix s "_test")) refl))))

  -- For a name of ASCII letters and digits and underscores that does not begin with an underscore, the
  -- rule accepts the name that it proposes.
  pub is_snake_case-to_snake_case :
      (name : String) → IsName name → is_snake_case u (to_snake_case u (name ^^ ".go")) ≡ true
  unfolding to_snake_case pascal_to_snake all_snake
  is_snake_case-to_snake_case String.[] h = elim h [ ]
  is_snake_case-to_snake_case (String.◌∷◌ r s) (h, hs) =
      let name = String.◌∷◌ r s in
      let first : IsNameChar r = ground arith in
      let small = to_lower-IsSmall r h in
      rw (ext-append name, trim_suffix-append name (IsDotless-of_AreNameChars name (first, hs)))
        (is_snake_case_go (u.to_lower r) (snake_loop u r s) (small_underscore (u.to_lower r) small)
          (ground (arith, small-IsSnakeChar (u.to_lower r) small, all_snake-snake_loop r s hs)))
