-- ===== src/Core/Validate/Cycle/Graph.antt =====
-- The graph of `Direction`: its edges, walks and cycles, independent of the search.
use go_arch_guard.Prelude.{
  String, ◌≡◌, refl, sym, subst, inl, inr, some, List, [], ◌∷◌, ◌++◌, ◌==◌, Map, lookup, arith,
  eq_iff, Bool-cases, In, In-append_left, In-append_right,
}
use go_arch_guard.Core.Validate.Cycle.{targets, nodes, suffix_from}

module _ (d : Map (List String)) where
  -- `u` may import `v`
  abbrev pub Edge : String → String → Type 0
  Edge u v = In v (targets d u)

  -- one step or more
  pub data Leads : String → String → Type 0 where
    one : {u v : String} → Edge u v → Leads u v
    more : {u v w : String} → Edge u v → Leads v w → Leads u w

  abbrev pub IsAcyclic : Type 0
  IsAcyclic = (u : String) → ¬ Leads u u

  -- each element has an edge to the next
  abbrev pub IsWalk : List String → Type 0
  IsWalk [] = Unit
  IsWalk (x ∷ []) = Unit
  IsWalk (x ∷ y ∷ rest) = Edge x y × IsWalk (y ∷ rest)

  -- a walk of at least one step back to its first node
  abbrev pub IsCycle : List String → Type 0
  IsCycle c = (x : String) × (mid : List String) × (c ≡ x ∷ mid ++ x ∷ []) × IsWalk c

  pub IsWalk-snoc :
      (st : List String) (x y : String)
      → IsWalk (st ++ x ∷ [])
      → Edge x y
      → IsWalk ((st ++ x ∷ []) ++ y ∷ [])
  IsWalk-snoc [] x y h e = (e, tt)
  IsWalk-snoc (a ∷ []) x y (h, _) e = (h, (e, tt))
  IsWalk-snoc (a ∷ b ∷ rest) x y (h, k) e = (h, IsWalk-snoc (b ∷ rest) x y k e)

  IsWalk-tail : (x : String) (rest : List String) → IsWalk (x ∷ rest) → IsWalk rest
  IsWalk-tail x [] h = tt
  IsWalk-tail x (y ∷ rest) (_, h) = h

  -- A suffix that starts at `n` and is closed by an edge to `n` is a cycle.
  pub suffix_from-IsCycle :
      (n : String) (st c : List String)
      → suffix_from n st ≡ some c
      → IsWalk (st ++ n ∷ [])
      → IsCycle (c ++ n ∷ [])
  unfolding suffix_from
  suffix_from-IsCycle n [] c h w = absurd (ground arith)
  suffix_from-IsCycle n (x ∷ rest) c h w = elim (Bool-cases (x == n)) [
    | inl e ↦
        let same : (x ∷ rest) ≡ c = ground arith in
        let at : x ≡ n = (eq_iff x n).0 e in
        subst (λ k. IsCycle (k ++ n ∷ [])) same
          (n, rest, subst (λ z. (z ∷ rest ++ n ∷ []) ≡ n ∷ rest ++ n ∷ []) (sym at) refl, w)
    | inr e ↦ suffix_from-IsCycle n rest c (ground arith) (IsWalk-tail x (rest ++ n ∷ []) w)
  ]

  -- A cycle of the list form is a closed walk of the graph.
  pub Leads-of_IsWalk : (x y : String) (mid : List String) → IsWalk (x ∷ mid ++ y ∷ []) → Leads x y
  Leads-of_IsWalk x y [] (e, _) = one e
  Leads-of_IsWalk x y (z ∷ mid) (e, h) = more e (Leads-of_IsWalk z y mid h)

  pub Leads-of_IsCycle : (c : List String) → IsCycle c → (u : String) × Leads u u
  Leads-of_IsCycle c (x, mid, e, w) = (x, Leads-of_IsWalk x x mid (subst IsWalk e w))

pub mem-suffix_from :
    (n : String) (st : List String) → In n st → (c : List String) × (suffix_from n st ≡ some c)
unfolding suffix_from
mem-suffix_from n [] m = elim m [ ]
mem-suffix_from n (x ∷ rest) m = elim (Bool-cases (x == n)) [
  | inl e ↦ (x ∷ rest, rw e)
  | inr e ↦ let (c, h) = mem-suffix_from n rest (ground (arith, eq_iff x n)) in (c, rw e h)
]

-- Every target of a node is one of the nodes.
pub Edge-nodes : (d : Map (List String)) (u v : String) → Edge d u v → In v (nodes d)
unfolding nodes lookup
Edge-nodes [] u v m = elim m [ ]
Edge-nodes ((src, out) ∷ rest) u v m = elim (Bool-cases (src == u)) [
  | inl e ↦ inr (In-append_left v out (nodes rest) (rw e at m))
  | inr e ↦ inr (In-append_right v out (nodes rest) (Edge-nodes rest u v (rw e at m)))
]
