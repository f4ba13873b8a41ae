-- ===== src/Core/Validate/Cycle/Promise.antt =====
-- What `dfs` and the loop over the targets promise: a cycle, or all that they visit is black.
use go_arch_guard.Prelude.{
  ℕ, ◌≤◌, String, ◌≡◌, refl, sym, subst, ◌∙◌, ◌⊎◌, inl, inr, List, [], ◌∷◌, ◌++◌, Map, arith, In,
}
use go_arch_guard.Core.Validate.Cycle.{
  Color, white, gray, black, Search, color_of, Outcome, found, explored, out_of_fuel, Loop, done,
  exit, suffix_from, close, loop, nodes, after,
}
use go_arch_guard.Core.Validate.Cycle.Graph.{
  Edge, IsWalk, IsCycle, IsWalk-snoc, suffix_from-IsCycle, mem-suffix_from, Edge-nodes,
}
use go_arch_guard.Core.Validate.Cycle.Steps.{whites, Grows, Grows-refl, Grows-trans, whites-le, Inv}

pub Color-cases : (c : Color) → (c ≡ white) ⊎ (c ≡ gray) ⊎ (c ≡ black)
Color-cases white = inl refl
Color-cases gray = inr (inl refl)
Color-cases black = inr (inr refl)

module _ (d : Map (List String)) where
  pub record Visited (n : String) (s t : Search) : Type 0 where
    pub inv : Inv d t
    pub grows : Grows s t
    pub node : color_of t n ≡ black

  -- What a call of `dfs` for `n` in `s` promises.
  abbrev pub Promise : String → Search → Outcome → Type 0
  Promise n s (found c) = IsCycle d c
  Promise n s (explored t) = Visited n s t
  Promise n s out_of_fuel = ⊥

  pub record Scanned (ns : List String) (s t : Search) : Type 0 where
    pub inv : Inv d t
    pub grows : Grows s t
    pub listed : (v : String) → In v ns → color_of t v ≡ black

  abbrev pub LoopPromise : List String → Search → Loop → Type 0
  LoopPromise ns s (done t) = Scanned ns s t
  LoopPromise ns s (exit (found c)) = IsCycle d c
  LoopPromise ns s (exit (explored t)) = ⊥
  LoopPromise ns s (exit out_of_fuel) = ⊥

  -- When a call may be made with `fuel`.
  pub record Ready (fuel : ℕ) (n : String) (s : Search) : Type 0 where
    pub inv : Inv d s
    pub fresh : color_of s n ≡ white
    pub walk : IsWalk d (s.stack ++ n ∷ [])
    pub listed : In n (nodes d)
    pub enough : whites (nodes d) s ≤ fuel

  close-IsCycle :
      (next n : String) (st : List String) (s : Search)
      → Inv d s
      → s.stack ≡ st ++ n ∷ []
      → Edge d n next
      → color_of s next ≡ gray
      → LoopPromise (next ∷ []) s (exit (close next s (suffix_from next s.stack)))
  unfolding close
  close-IsCycle next n st s i top e g =
      let (c, is) = mem-suffix_from next s.stack ((i.gray_iff next).0 g) in
      let w : IsWalk d (s.stack ++ next ∷ []) =
        subst (λ l. IsWalk d (l ++ next ∷ [])) (sym top)
          (IsWalk-snoc d st n next (subst (IsWalk d) top i.walk) e) in
      rw is (suffix_from-IsCycle d next s.stack c is w)

  pub Scanned-cons :
      (v : String) (ns : List String) (s t r : Search)
      → Grows s t
      → color_of t v ≡ black
      → Scanned ns t r
      → Scanned (v ∷ ns) s r
  Scanned-cons v ns s t r g b h = record {
    inv = h.inv;
    grows = Grows-trans s t r g h.grows;
    listed = λ u m. elim m [
      | inl e ↦ subst (λ z. color_of r z ≡ black) (sym e) (h.grows.black_stays v b)
      | inr k ↦ h.listed u k
    ];
  }

  LoopPromise-cons :
      (v : String) (ns : List String) (s t : Search) (l : Loop)
      → Grows s t
      → color_of t v ≡ black
      → LoopPromise ns t l
      → LoopPromise (v ∷ ns) s l
  LoopPromise-cons v ns s t (done r) g b h = Scanned-cons v ns s t r g b h
  LoopPromise-cons v ns s t (exit (found c)) g b h = h
  LoopPromise-cons v ns s t (exit (explored r)) g b h = h
  LoopPromise-cons v ns s t (exit out_of_fuel) g b h = h

  LoopPromise-more :
      (v : String) (ns ms : List String) (s : Search) (o : Outcome)
      → LoopPromise ns s (exit o)
      → LoopPromise ms s (exit o)
  LoopPromise-more v ns ms s (found c) h = h
  LoopPromise-more v ns ms s (explored r) h = h
  LoopPromise-more v ns ms s out_of_fuel h = h

  after-LoopPromise :
      (v : String) (ns : List String) (s : Search) (o : Outcome) (rest : Search → Loop)
      → Promise v s o
      → ((t : Search) → Inv d t → Grows s t → LoopPromise ns t (rest t))
      → LoopPromise (v ∷ ns) s (after o rest)
  after-LoopPromise v ns s (found c) rest p k = p
  after-LoopPromise v ns s (explored t) rest p k =
      LoopPromise-cons v ns s t (rest t) p.grows p.node (k t p.inv p.grows)
  after-LoopPromise v ns s out_of_fuel rest p k = p

  -- The loop over the targets `ns` of the node `n` on top of the stack.
  pub loop-LoopPromise :
      (fuel : ℕ) (call : String → Search → Outcome)
      → ((m : String) (s : Search) → Ready fuel m s → Promise m s (call m s))
      → (n : String) (st ns : List String) (s : Search) → Inv d s
      → s.stack ≡ st ++ n ∷ []
      → ((v : String) → In v ns → Edge d n v)
      → whites (nodes d) s ≤ fuel
      → LoopPromise ns s (loop call ns s)
  unfolding loop
  loop-LoopPromise fuel call ok n st [] s i top edges enough = record {
    inv = i;
    grows = Grows-refl s;
    listed = λ v m. elim m [ ];
  }
  loop-LoopPromise fuel call ok n st (next ∷ rest) s i top edges enough =
      elim (Color-cases (color_of s next)) [
        | inl w ↦
            let ready : Ready fuel next s = record {
              inv = i;
              fresh = w;
              walk =
                  subst (λ l. IsWalk d (l ++ next ∷ [])) (sym top)
                    (IsWalk-snoc d st n next (subst (IsWalk d) top i.walk) (edges next (inl refl)));
              listed = Edge-nodes d n next (edges next (inl refl));
              enough = enough;
            } in
            rw (w, loop)
              (after-LoopPromise next rest s (call next s) (loop call rest) (ok next s ready)
                λ t it g.
                  loop-LoopPromise fuel call ok n st rest t it (g.stack ∙ top)
                    (λ v m. edges v (inr m)) (omega (arith, whites-le (nodes d) s t g.white_was)))
        | inr (inl g) ↦
            rw (g, loop)
              (LoopPromise-more next (next ∷ []) (next ∷ rest) s
                (close next s (suffix_from next s.stack))
                (close-IsCycle next n st s i top (edges next (inl refl)) g))
        | inr (inr b) ↦
            rw (b, loop)
              (LoopPromise-cons next rest s s (loop call rest s) (Grows-refl s) b
                (loop-LoopPromise fuel call ok n st rest s i top (λ v m. edges v (inr m)) enough))
      ]
