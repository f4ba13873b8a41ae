-- ===== src/Core/Validate/Cycle/Steps.antt =====
-- The invariant of the depth-first search, and what entering and leaving a node do to it.
use go_arch_guard.Prelude.{
  ℕ, suc, ◌≤◌, ◌<◌, String, ◌≡◌, refl, sym, subst, ◌↔◌, ◌⊎◌, inl, inr, List, [], ◌∷◌, ◌++◌, ◌==◌,
  Map, lookup-put, arith, eq_iff, if◌then◌else◌, Bool-cases, In,
}
use go_arch_guard.Core.Validate.Cycle.{
  white, gray, black, Search, color_of, drop_last, enter, leave,
}
use go_arch_guard.Core.Validate.Cycle.Graph.{Edge, Leads, one, more, IsWalk}

pub color-enter :
    (n v : String) (s : Search) → color_of (enter n s) v ≡ (if n == v then gray else color_of s v)
color-enter n v s = rw lookup-put (ground arith)

pub color-leave :
    (n v : String) (s : Search) → color_of (leave n s) v ≡ (if n == v then black else color_of s v)
color-leave n v s = rw lookup-put (ground arith)

black-leave : (n v : String) (s : Search) → color_of s v ≡ black → color_of (leave n s) v ≡ black
black-leave n v s h = ground (arith, color-leave n v s)

-- the nodes of a list that are still white
abbrev pub whites : List String → Search → ℕ
whites [] s = 0
whites (u ∷ us) s = elim (color_of s u) [
  | white ↦ suc (whites us s)
  | gray ↦ whites us s
  | black ↦ whites us s
]

-- From `s` to `t` the stack is as it was, black nodes stay black, and no node turns white.
pub record Grows (s t : Search) : Type 0 where
  pub stack : t.stack ≡ s.stack
  pub black_stays : (u : String) → color_of s u ≡ black → color_of t u ≡ black
  pub white_was : (u : String) → color_of t u ≡ white → color_of s u ≡ white

pub Grows-refl : (s : Search) → Grows s s
Grows-refl s = record { stack = refl; black_stays = λ u h. h; white_was = λ u h. h }

pub Grows-trans : (s t r : Search) → Grows s t → Grows t r → Grows s r
Grows-trans s t r g h = record {
  stack = cc (g.stack, h.stack);
  black_stays = λ u b. h.black_stays u (g.black_stays u b);
  white_was = λ u w. g.white_was u (h.white_was u w);
}

pub whites-le :
    (us : List String) (s t : Search)
    → ((u : String) → color_of t u ≡ white → color_of s u ≡ white)
    → whites us t ≤ whites us s
whites-le [] s t h = omega arith
whites-le (u ∷ us) s t h = ground (arith, h u, whites-le us s t h)

pub whites-enter :
    (us : List String) (n : String) (s : Search)
    → color_of s n ≡ white
    → In n us
    → whites us (enter n s) < whites us s
whites-enter [] n s w m = elim m [ ]
whites-enter (u ∷ us) n s w m = ground (
  arith,
  color-enter n u s,
  eq_iff n u,
  whites-enter us n s w,
  whites-le us s (enter n s) λ v k. ground (arith, color-enter n v s),
)

pub In-snoc : (u n : String) (st : List String) → In u (st ++ n ∷ []) ↔ (In u st ⊎ (u ≡ n))
In-snoc u n [] = (λ m. ground arith, λ m. ground arith)
In-snoc u n (x ∷ st) = ground (arith, In-snoc u n st)

pub drop_last-snoc : (st : List String) (n : String) → drop_last (st ++ n ∷ []) ≡ st
unfolding drop_last
drop_last-snoc [] n = refl
drop_last-snoc (x ∷ []) n = refl
drop_last-snoc (x ∷ y ∷ st) n = rw (drop_last-snoc (y ∷ st) n)

module _ (d : Map (List String)) where
  pub record Inv (s : Search) : Type 0 where
    pub gray_iff : (u : String) → (color_of s u ≡ gray) ↔ In u s.stack
    pub walk : IsWalk d s.stack
    pub closed : (u v : String) → color_of s u ≡ black → Edge d u v → color_of s v ≡ black
    pub acyclic : (u : String) → color_of s u ≡ black → ¬ Leads d u u

  pub Inv-enter :
      (n : String) (s : Search)
      → Inv s
      → color_of s n ≡ white
      → IsWalk d (s.stack ++ n ∷ [])
      → Inv (enter n s)
  Inv-enter n s i w walk = record {
    gray_iff =
        λ u. ground (arith, color-enter n u s, eq_iff n u, i.gray_iff u, In-snoc u n s.stack);
    walk = walk;
    closed =
        λ u v b e. ground (arith, color-enter n u s, color-enter n v s, eq_iff n v, i.closed u v);
    acyclic = λ u b. i.acyclic u (ground (arith, color-enter n u s));
  }

  -- What is reached from a black node is black.
  black_of_Leads :
      (s : Search)
      → Inv s
      → {u v : String} → Leads d u v
      → color_of s u ≡ black
      → color_of s v ≡ black
  black_of_Leads s i (one {u} {v} e) b = i.closed u v b e
  black_of_Leads s i (more {u} {v} e l) b = black_of_Leads s i l (i.closed u v b e)

  -- A gray node all of whose targets are black is on no cycle.
  not-Leads_of_targets :
      (n : String) (s : Search)
      → Inv s
      → color_of s n ≡ gray
      → ((v : String) → Edge d n v → color_of s v ≡ black)
      → ¬ Leads d n n
  not-Leads_of_targets n s i g h (one e) = cc (h n e)
  not-Leads_of_targets n s i g h (more {u} {v} e l) = cc (black_of_Leads s i l (h v e))

  pub Inv-leave :
      (n : String) (st : List String) (s : Search)
      → Inv s
      → s.stack ≡ st ++ n ∷ []
      → ¬ In n st
      → IsWalk d st
      → ((v : String) → Edge d n v → color_of s v ≡ black)
      → Inv (leave n s)
  Inv-leave n st s i top fresh walk h =
      let rest : drop_last s.stack ≡ st = rw top (drop_last-snoc st n) in
      let listed =
        λ (u : String). subst (λ l. In u l ↔ (In u st ⊎ (u ≡ n))) (sym top) (In-snoc u n st) in
      let on_stack : color_of s n ≡ gray = (i.gray_iff n).1 ((listed n).1 (inr refl)) in
      record {
        gray_iff = λ u.
            subst (λ l. (color_of (leave n s) u ≡ gray) ↔ In u l) (sym rest)
              (ground (arith, color-leave n u s, eq_iff n u, i.gray_iff u, listed u));
        walk = subst (IsWalk d) (sym rest) walk;
        closed = λ u v b e. black-leave n v s (elim (Bool-cases (n == u)) [
          | inl same ↦ h v (subst (λ z. Edge d z v) (sym ((eq_iff n u).0 same)) e)
          | inr other ↦ i.closed u v (ground (arith, color-leave n u s)) e
        ]);
        acyclic = λ u b l. elim (Bool-cases (n == u)) [
          | inl e ↦
              not-Leads_of_targets n s i on_stack h
                (subst (λ z. Leads d z z) (sym ((eq_iff n u).0 e)) l)
          | inr e ↦ i.acyclic u (ground (arith, color-leave n u s)) l
        ];
      }
