-- ===== src/Naming/Types/Stutter.antt =====
-- Which names repeat the name of their package.
use Prim.Native.String
use text.Mathlib.TextLemmas.{nil-append, cons-append, length-cons, length-append}
use go_arch_guard.Prelude.{
  ℕ, zero, suc, leb, ◌+◌, ◌≤◌, String, true, false, ◌^^◌, ◌≡◌, ◌↔◌, refl, sym, subst, ap, ◌∙◌,
  arith, eq_iff,
}
use go_arch_guard.Analysis.Case.{Unicode}
use go_arch_guard.Naming.Types.{take_runes, drop_runes, lower, starts_upper, stutters}

take_runes-drop_runes : (n : ℕ) (s : String) → take_runes n s ^^ drop_runes n s ≡ s
unfolding take_runes drop_runes
take_runes-drop_runes zero s = nil-append s
take_runes-drop_runes (suc n) String.[] = nil-append ""
take_runes-drop_runes (suc n) (String.◌∷◌ c s) =
    cons-append c (take_runes n s) (drop_runes n s)
    ∙ ap (λ x. String.◌∷◌ c x) (take_runes-drop_runes n s)

take_runes-append : (p r : String) → take_runes (String.count p) (p ^^ r) ≡ p
unfolding take_runes
take_runes-append String.[] r = refl
take_runes-append (String.◌∷◌ c p) r =
    ap (take_runes (String.count (String.◌∷◌ c p))) (cons-append c p r)
    ∙ ap (λ n. take_runes n (String.◌∷◌ c (p ^^ r))) (length-cons c p)
    ∙ ap (λ x. String.◌∷◌ c x) (take_runes-append p r)

drop_runes-append : (p r : String) → drop_runes (String.count p) (p ^^ r) ≡ r
unfolding drop_runes
drop_runes-append String.[] r = nil-append r
drop_runes-append (String.◌∷◌ c p) r =
    ap (drop_runes (String.count (String.◌∷◌ c p))) (cons-append c p r)
    ∙ ap (λ n. drop_runes n (String.◌∷◌ c (p ^^ r))) (length-cons c p)
    ∙ drop_runes-append p r

module _ (u : Unicode) where
  count-lower : (s : String) → String.count (lower u s) ≡ String.count s
  unfolding lower
  count-lower String.[] = refl
  count-lower (String.◌∷◌ c s) =
      omega (arith, length-cons (u.to_lower c) (lower u s), length-cons c s, count-lower s)

  starts_upper-count : (r : String) → starts_upper u r ≡ true → 1 ≤ String.count r
  starts_upper-count String.[] h = absurd (cc h)
  starts_upper-count (String.◌∷◌ c r) h = omega (arith, length-cons c r)

  -- the runes of the package's name in the name of a type
  split_name :
      (pkg_name p r : String)
      → lower u p ≡ lower u pkg_name
      → (take_runes (String.count pkg_name) (p ^^ r) ≡ p)
        × (drop_runes (String.count pkg_name) (p ^^ r) ≡ r)
        × (String.count (p ^^ r) ≡ String.count pkg_name + String.count r)
  split_name pkg_name p r e =
      let same : String.count pkg_name ≡ String.count p =
        sym (count-lower pkg_name) ∙ sym (ap String.count e) ∙ count-lower p in
      (
        ap (λ n. take_runes n (p ^^ r)) same ∙ take_runes-append p r,
        ap (λ n. drop_runes n (p ^^ r)) same ∙ drop_runes-append p r,
        omega (arith, length-append p r, same),
      )

  stutters-append :
      (pkg_name p r : String)
      → lower u p ≡ lower u pkg_name
      → starts_upper u r ≡ true
      → stutters u pkg_name (p ^^ r) ≡ true
  unfolding stutters
  stutters-append pkg_name p r e up =
      let (t, d, c) = split_name pkg_name p r e in
      let equal = (eq_iff (lower u p) (lower u pkg_name)).1 e in
      let longer : leb (String.count (p ^^ r)) (String.count pkg_name) ≡ false =
        ground (arith, c, starts_upper-count r up) in
      rw longer (rw t (rw equal (rw d up)))

  -- A type stutters exactly where its name is the package's, whatever the case of its letters, followed by
  -- a rest that begins with an upper letter; that rest is the name that the rule proposes.
  pub stutters_iff :
      (pkg_name type_name : String)
      → (stutters u pkg_name type_name ≡ true) ↔ (
          (p : String) × (r : String) × (type_name ≡ p ^^ r)
          × (lower u p ≡ lower u pkg_name)
          × (starts_upper u r ≡ true)
          × (drop_runes (String.count pkg_name) type_name ≡ r))
  unfolding stutters
  stutters_iff pkg_name type_name =
      let n = String.count pkg_name in
      (
        λ h. (
          take_runes n type_name,
          drop_runes n type_name,
          sym (take_runes-drop_runes n type_name),
          ground (arith, h, eq_iff (lower u (take_runes n type_name)) (lower u pkg_name)),
          ground (arith, h),
          refl,
        ),
        λ (p, r, e, same, up, proposed).
            subst (λ t. stutters u pkg_name t ≡ true) (sym e)
              (stutters-append pkg_name p r same up),
      )
