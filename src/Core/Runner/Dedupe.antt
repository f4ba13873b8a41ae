-- ===== src/Core/Runner/Dedupe.antt =====
-- `dedupeMetaViolations` keeps one violation of each meta key and all that are not meta.
use go_arch_guard.Prelude.{
  String, ◌≡◌, refl, sym, subst, ◌↔◌, ◌⊎◌, inl, inr, true, false, ◌&&◌, List, [], ◌∷◌, ◌==◌, In,
  All, All-of_forall, All-map, arith, eq_iff, Bool-cases,
}
use go_arch_guard.Prelude.Sort.{Pairs}
use go_arch_guard.Core.Violation.{Violation}
use go_arch_guard.Core.Runner.{seen_key, dedupe}
use go_arch_guard.Core.Catalog.{is_meta}

-- the same dedup key
pub record SameKey (v w : Violation) : Type 0 where
  pub rule : v.rule ≡ w.rule
  pub message : v.message ≡ w.message

-- not both one meta key
abbrev pub Apart : Violation → Violation → Type 0
Apart v w = is_meta v.rule ≡ true → ¬ SameKey v w

pub Apart-sym : (v w : Violation) → Apart v w → Apart w v
Apart-sym v w a m same =
    a (subst (λ r. is_meta r ≡ true) same.rule m)
      (record { rule = sym same.rule; message = sym same.message })

pub seen_key_iff :
    (seen : List (String × String)) (rule message : String)
    → (seen_key seen rule message ≡ true) ↔ In (rule, message) seen
unfolding seen_key
seen_key_iff [] rule message = (λ h. cc, λ m. elim m [ ])
seen_key_iff ((r, m) ∷ seen) rule message =
    ground (arith, eq_iff r rule, eq_iff m message, seen_key_iff seen rule message)

pub All-dedupe {κ} :
    (P : Violation → Type κ) (seen : List (String × String)) (vs : List Violation)
    → All P vs
    → All P (dedupe seen vs)
unfolding dedupe
All-dedupe P seen [] h = tt
All-dedupe P seen (v ∷ vs) (p, h) = elim (Bool-cases (is_meta v.rule)) [
  | inr m ↦ rw (m, dedupe) (p, All-dedupe P seen vs h)
  | inl m ↦ elim (Bool-cases (seen_key seen v.rule v.message)) [
    | inl s ↦ rw (m, dedupe) (rw (s, dedupe) (All-dedupe P seen vs h))
    | inr s ↦ rw (m, dedupe) (rw (s, dedupe) (p, All-dedupe P _ vs h))
  ]
]

abbrev Fresh : List (String × String) → Violation → Type 0
Fresh seen w = is_meta w.rule ≡ true → seen_key seen w.rule w.message ≡ false

Fresh-cons :
    (r m : String) (seen : List (String × String)) (w : Violation)
    → Fresh ((r, m) ∷ seen) w
    → Fresh seen w
unfolding seen_key
Fresh-cons r m seen w h k = ground (arith, h k)

dedupe-Fresh :
    (seen : List (String × String)) (vs : List Violation) → All (Fresh seen) (dedupe seen vs)
unfolding dedupe
dedupe-Fresh seen [] = tt
dedupe-Fresh seen (v ∷ vs) = elim (Bool-cases (is_meta v.rule)) [
  | inr m ↦ rw (m, dedupe) ((λ k. cc (m, k)), dedupe-Fresh seen vs)
  | inl m ↦ elim (Bool-cases (seen_key seen v.rule v.message)) [
    | inl s ↦ rw (m, dedupe) (rw (s, dedupe) (dedupe-Fresh seen vs))
    | inr s ↦
        rw (m, dedupe)
          (rw (s, dedupe)
            (
              (λ k. s),
              All-map (Fresh-cons v.rule v.message seen) _
                  (dedupe-Fresh ((v.rule, v.message) ∷ seen) vs),
            ))
  ]
]

Apart-of_Fresh :
    (v : Violation) (seen : List (String × String)) (w : Violation)
    → Fresh ((v.rule, v.message) ∷ seen) w
    → Apart v w
unfolding seen_key
Apart-of_Fresh v seen w h m same =
    let k = h (subst (λ r. is_meta r ≡ true) same.rule m) in
    absurd
      (ground (arith, k, same.rule, same.message, eq_iff v.rule w.rule, eq_iff v.message w.message))

-- No two violations of the result share a meta key.
pub dedupe-Apart :
    (seen : List (String × String)) (vs : List Violation) → Pairs Apart (dedupe seen vs)
unfolding dedupe
dedupe-Apart seen [] = tt
dedupe-Apart seen (v ∷ vs) = elim (Bool-cases (is_meta v.rule)) [
  | inr m ↦
      rw (m, dedupe)
        (All-of_forall _ (dedupe seen vs) (λ w i k. absurd (cc (m, k))), dedupe-Apart seen vs)
  | inl m ↦ elim (Bool-cases (seen_key seen v.rule v.message)) [
    | inl s ↦ rw (m, dedupe) (rw (s, dedupe) (dedupe-Apart seen vs))
    | inr s ↦
        rw (m, dedupe)
          (rw (s, dedupe)
            (
              All-map (Apart-of_Fresh v seen) _ (dedupe-Fresh ((v.rule, v.message) ∷ seen) vs),
              dedupe-Apart ((v.rule, v.message) ∷ seen) vs,
            ))
  ]
]

-- A violation is kept, or a kept one or a key of `seen` stands for it.
abbrev pub Kept : List (String × String) → Violation → List Violation → Type 0
Kept seen v out =
    In v out
    ⊎ ((is_meta v.rule ≡ true)
        × ((seen_key seen v.rule v.message ≡ true) ⊎ ((w : Violation) × In w out × SameKey v w)))

Kept-cons :
    (seen : List (String × String)) (v w : Violation) (out : List Violation)
    → Kept seen v out
    → Kept seen v (w ∷ out)
Kept-cons seen v w out (inl m) = inl (inr m)
Kept-cons seen v w out (inr (k, inl s)) = inr (k, inl s)
Kept-cons seen v w out (inr (k, inr (u, m, same))) = inr (k, inr (u, inr m, same))

Kept-key :
    (seen : List (String × String)) (v w : Violation) (out : List Violation)
    → Kept ((w.rule, w.message) ∷ seen) v out
    → Kept seen v (w ∷ out)
unfolding seen_key
Kept-key seen v w out (inl m) = inl (inr m)
Kept-key seen v w out (inr (k, inr (u, m, same))) = inr (k, inr (u, inr m, same))
Kept-key seen v w out (inr (k, inl s)) =
    elim (Bool-cases (w.rule == v.rule && w.message == v.message)) [
      | inl e ↦ inr (
        k,
        inr (
          w,
          inl refl,
          record {
            rule = ground (arith, eq_iff w.rule v.rule);
            message = ground (arith, eq_iff w.rule v.rule, eq_iff w.message v.message);
          },
        ),
      )
      | inr e ↦ inr (k, inl (ground arith))
    ]

pub dedupe-Kept :
    (seen : List (String × String)) (vs : List Violation) (v : Violation)
    → In v vs
    → Kept seen v (dedupe seen vs)
unfolding dedupe
dedupe-Kept seen [] v m = elim m [ ]
dedupe-Kept seen (x ∷ vs) v (inl e) = elim (Bool-cases (is_meta x.rule)) [
  | inr m ↦ rw (m, dedupe) (inl (inl e))
  | inl m ↦ elim (Bool-cases (seen_key seen x.rule x.message)) [
    | inl s ↦ rw (m, dedupe) (rw (s, dedupe) (rw e (inr (m, inl s))))
    | inr s ↦ rw (m, dedupe) (rw (s, dedupe) (inl (inl e)))
  ]
]
dedupe-Kept seen (x ∷ vs) v (inr i) = elim (Bool-cases (is_meta x.rule)) [
  | inr m ↦ rw (m, dedupe) (Kept-cons seen v x _ (dedupe-Kept seen vs v i))
  | inl m ↦ elim (Bool-cases (seen_key seen x.rule x.message)) [
    | inl s ↦ rw (m, dedupe) (rw (s, dedupe) (dedupe-Kept seen vs v i))
    | inr s ↦
        rw (m, dedupe)
          (rw (s, dedupe) (Kept-key seen v x _ (dedupe-Kept ((x.rule, x.message) ∷ seen) vs v i)))
  ]
]
