-- ===== src/Dependency/SideEffects/Patterns.antt =====
-- What a pattern of calls matches.
use Prim.Native.Char.{Char}
use Prim.Native.String
use text.Mathlib.TextLemmas.{nil-append, cons-append, length-cons, length-append}
use go_arch_guard.Prelude.{
  String, true, false, ◌==◌, ◌^^◌, ◌≡◌, ◌↔◌, ◌⊎◌, inl, inr, refl, sym, subst, ap, ◌∙◌, has_prefix,
  cut_prefix, cut_prefix-append, eq-append_of_cut_prefix, arith, eq_iff, Bool-cases, Option-cases,
}
use go_arch_guard.Core.Paths.{has_suffix, trim_suffix}
use go_arch_guard.Dependency.SideEffects.{match_call_pattern}

has_prefix_iff : (s p : String) → (has_prefix s p ≡ true) ↔ ((r : String) × (s ≡ p ^^ r))
unfolding has_prefix
has_prefix_iff s p = (
  λ h. elim (Option-cases (cut_prefix p s)) [
    | inl e ↦ absurd (ground (arith, e))
    | inr (r, e) ↦ (r, eq-append_of_cut_prefix p s r e)
  ],
  λ (r, e). subst (λ x. has_prefix x p ≡ true) (sym e) (ground (arith, cut_prefix-append p r)),
)

-- A text ends in a star exactly where it is another text and a star.
star-append : (s : String) → has_suffix s "*" ≡ true → s ≡ trim_suffix s "*" ^^ "*"
unfolding has_suffix trim_suffix
star-append String.[] h = absurd (cc h)
star-append (String.◌∷◌ c s) h = elim (Bool-cases (String.◌∷◌ c s == "*")) [
  | inl e ↦ rw e ((eq_iff (String.◌∷◌ c s) "*").0 e ∙ sym (nil-append "*"))
  | inr e ↦
      let more : has_suffix s "*" ≡ true = ground (arith, h, e) in
      rw e (
        ap (λ x. String.◌∷◌ c x) (star-append s more) ∙ sym (cons-append c (trim_suffix s "*") "*"))
]

longer : (c : Char) (p : String) → (String.◌∷◌ c (p ^^ "*") == "*") ≡ false
longer c p = elim (Bool-cases (String.◌∷◌ c (p ^^ "*") == "*")) [
  | inl e ↦ absurd (
      omega (
        arith,
        ap String.count ((eq_iff (String.◌∷◌ c (p ^^ "*")) "*").0 e),
        length-cons c (p ^^ "*"),
        length-append p "*",
        length-cons "*" "",
      ))
  | inr e ↦ e
]

has_suffix-star : (p : String) → has_suffix (p ^^ "*") "*" ≡ true
unfolding has_suffix
has_suffix-star String.[] = refl
has_suffix-star (String.◌∷◌ c p) =
    ap (λ x. has_suffix x "*") (cons-append c p "*") ∙ rw (longer c p) (has_suffix-star p)

trim_suffix-star : (p : String) → trim_suffix (p ^^ "*") "*" ≡ p
unfolding trim_suffix
trim_suffix-star String.[] = refl
trim_suffix-star (String.◌∷◌ c p) =
    ap (λ x. trim_suffix x "*") (cons-append c p "*")
    ∙ rw (longer c p) (ap (λ x. String.◌∷◌ c x) (trim_suffix-star p))

-- the call itself, or a beginning of it and a star
abbrev pub Matches : String → String → Type 0
Matches pattern call_id =
    (pattern ≡ call_id) ⊎ ((p : String) × (r : String) × (pattern ≡ p ^^ "*") × (call_id ≡ p ^^ r))

match-star :
    (p call_id : String)
    → (match_call_pattern (p ^^ "*") call_id ≡ true) ↔ ((r : String) × (call_id ≡ p ^^ r))
unfolding match_call_pattern
match-star p call_id = rw (has_suffix-star p) (rw (trim_suffix-star p) (has_prefix_iff call_id p))

match-plain :
    (pattern call_id : String)
    → has_suffix pattern "*" ≡ false
    → (match_call_pattern pattern call_id ≡ true) ↔ (pattern ≡ call_id)
unfolding match_call_pattern
match-plain pattern call_id h = rw h (eq_iff pattern call_id)

-- A pattern matches exactly the calls that it is, or whose beginning it is before a star at its end.
pub match_call_pattern_iff :
    (pattern call_id : String)
    → (match_call_pattern pattern call_id ≡ true) ↔ Matches pattern call_id
match_call_pattern_iff pattern call_id = elim (Bool-cases (has_suffix pattern "*")) [
  | inl star ↦
      let p = trim_suffix pattern "*" in
      let e = star-append pattern star in
      (
        λ h.
            let (r, k) =
              (match-star p call_id).0 (subst (λ x. match_call_pattern x call_id ≡ true) e h) in
            inr (p, r, e, k),
        λ m. elim m [
          | inl same ↦
              subst (λ x. match_call_pattern x call_id ≡ true) (sym e)
                ((match-star p call_id).1 ("*", sym same ∙ e))
          | inr (q, r, f, k) ↦
              subst (λ x. match_call_pattern x call_id ≡ true) (sym f)
                ((match-star q call_id).1 (r, k))
        ],
      )
  | inr plain ↦ (
    λ h. inl ((match-plain pattern call_id plain).0 h),
    λ m. elim m [
      | inl same ↦ (match-plain pattern call_id plain).1 same
      | inr (q, r, f, k) ↦
          subst (λ x. match_call_pattern x call_id ≡ true) (sym f) ((match-star q call_id).1 (r, k))
    ],
  )
]
