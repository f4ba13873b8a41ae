-- ===== src/Core/Validate/Cycle/Correct.antt =====
-- The search finds a cycle exactly where there is one, and always ends within its fuel.
use go_arch_guard.Prelude.{
  ℕ, zero, suc, ◌≤◌, String, ◌≡◌, refl, sym, subst, ap, ◌∙◌, ◌⊎◌, inl, inr, List, [], ◌∷◌, ◌++◌,
  ◌==◌, Map, length, keys, lookup, arith, Bool-cases, eq_iff, In-append_right, In, All,
  All-of_forall,
}
use go_arch_guard.Prelude.Order.{str_lt}
use go_arch_guard.Prelude.Sort.{sort, In-sort, All-sort}
use go_arch_guard.Core.Validate.Cycle.{
  white, black, Search, color_of, targets, Outcome, found, explored, out_of_fuel, Loop, done, exit,
  loop, enter, leave, finish, dfs, search_all, nodes, drop_last, find_direction_cycle, next_source,
}
use go_arch_guard.Core.Validate.Cycle.Graph.{
  Edge, one, more, IsAcyclic, IsWalk, IsCycle, Leads-of_IsCycle,
}
use go_arch_guard.Core.Validate.Cycle.Promise.{
  Color-cases, Promise, Scanned, LoopPromise, Ready, Scanned-cons, loop-LoopPromise,
}
use go_arch_guard.Core.Validate.Cycle.Steps.{
  whites, Grows, Grows-refl, whites-le, whites-enter, drop_last-snoc, Inv, Inv-enter, Inv-leave,
  color-enter, color-leave,
}

module _ (d : Map (List String)) where
  finish-Grows :
      (n : String) (s t : Search) → color_of s n ≡ white → Grows (enter n s) t → Grows s (leave n t)
  finish-Grows n s t w g = record {
    stack = ap drop_last g.stack ∙ drop_last-snoc s.stack n;
    black_stays =
        λ u b. ground (arith, color-enter n u s, color-leave n u t, g.black_stays u, eq_iff n u);
    white_was = λ u b. ground (arith, color-enter n u s, color-leave n u t, g.white_was u);
  }

  finish-Promise :
      (n : String) (s : Search) (l : Loop)
      → Inv d s
      → color_of s n ≡ white
      → LoopPromise d (targets d n) (enter n s) l
      → Promise d n s (finish n l)
  finish-Promise n s (exit (found c)) i w h = h
  finish-Promise n s (exit (explored t)) i w h = absurd h
  finish-Promise n s (exit out_of_fuel) i w h = h
  finish-Promise n s (done t) i w h = record {
    inv =
        Inv-leave d n s.stack t h.inv h.grows.stack (λ m. absurd (cc (w, (i.gray_iff n).1 m)))
          i.walk h.listed;
    grows = finish-Grows n s t w h.grows;
    node = ground (arith, color-leave n n t, eq_iff n n);
  }

  dfs-Promise :
      (fuel : ℕ) (n : String) (s : Search) → Ready d fuel n s → Promise d n s (dfs d fuel n s)
  unfolding dfs
  dfs-Promise zero n s r =
      absurd (omega (arith, r.enough, whites-enter (nodes d) n s r.fresh r.listed))
  dfs-Promise (suc fuel) n s r =
      finish-Promise n s (loop (dfs d fuel) (targets d n) (enter n s)) r.inv r.fresh (
        loop-LoopPromise d fuel (dfs d fuel) (dfs-Promise fuel) n s.stack (targets d n) (enter n s)
          (Inv-enter d n s r.inv r.fresh r.walk) refl (λ v m. m)
          (omega (arith, r.enough, whites-enter (nodes d) n s r.fresh r.listed)))

  -- What the search from all of `srcs` promises, from a state with an empty stack.
  abbrev AllPromise : List String → Search → Outcome → Type 0
  AllPromise srcs s (found c) = IsCycle d c
  AllPromise srcs s (explored t) = Scanned d srcs s t
  AllPromise srcs s out_of_fuel = ⊥

  AllPromise-cons :
      (v : String) (ns : List String) (s t : Search) (o : Outcome)
      → Grows s t
      → color_of t v ≡ black
      → AllPromise ns t o
      → AllPromise (v ∷ ns) s o
  AllPromise-cons v ns s t (explored r) g b h = Scanned-cons d v ns s t r g b h
  AllPromise-cons v ns s t (found c) g b h = h
  AllPromise-cons v ns s t out_of_fuel g b h = h

  next_source-AllPromise :
      (v : String) (ns : List String) (s : Search) (o : Outcome) (rest : Search → Outcome)
      → Promise d v s o
      → ((t : Search) → Inv d t → Grows s t → AllPromise ns t (rest t))
      → AllPromise (v ∷ ns) s (next_source o rest)
  next_source-AllPromise v ns s (found c) rest p k = p
  next_source-AllPromise v ns s (explored t) rest p k =
      AllPromise-cons v ns s t (rest t) p.grows p.node (k t p.inv p.grows)
  next_source-AllPromise v ns s out_of_fuel rest p k = p

  search_all-AllPromise :
      (fuel : ℕ) (srcs : List String) (s : Search)
      → Inv d s
      → s.stack ≡ []
      → All (λ u. In u (nodes d)) srcs
      → whites (nodes d) s ≤ fuel
      → AllPromise srcs s (search_all d fuel srcs s)
  unfolding search_all
  search_all-AllPromise fuel [] s i e a enough = record {
    inv = i;
    grows = Grows-refl s;
    listed = λ v m. elim m [ ];
  }
  search_all-AllPromise fuel (src ∷ rest) s i e (m, a) enough =
      elim (Color-cases (color_of s src)) [
        | inl w ↦
            let ready : Ready d fuel src s = record {
              inv = i;
              fresh = w;
              walk = subst (λ l. IsWalk d (l ++ src ∷ [])) (sym e) tt;
              listed = m;
              enough = enough;
            } in
            rw (w, search_all)
              (next_source-AllPromise src rest s (dfs d fuel src s) (search_all d fuel rest)
                (dfs-Promise fuel src s ready)
                λ t it g.
                  search_all-AllPromise fuel rest t it (g.stack ∙ e) a
                    (omega (arith, whites-le (nodes d) s t g.white_was)))
        | inr (inl g) ↦ absurd (subst (In src) e ((i.gray_iff src).0 g))
        | inr (inr b) ↦
            rw (b, search_all)
              (AllPromise-cons src rest s s (search_all d fuel rest s) (Grows-refl s) b
                (search_all-AllPromise fuel rest s i e a enough))
      ]

abbrev blank : Search
blank = record { colors = []; stack = [] }

Inv-blank : (d : Map (List String)) → Inv d blank
unfolding lookup
Inv-blank d = record {
  gray_iff = λ u. (λ h. cc, λ m. elim m [ ]);
  walk = tt;
  closed = λ u v b e. cc;
  acyclic = λ u b. cc;
}

whites-le-length : (us : List String) (s : Search) → whites us s ≤ length us
whites-le-length [] s = omega arith
whites-le-length (u ∷ us) s = ground (arith, whites-le-length us s)

keys-nodes : (d : Map (List String)) → All (λ u. In u (nodes d)) (keys d)
unfolding nodes
keys-nodes d = All-of_forall _ (keys d) (λ u m. go d u m)
  where
    go : (e : Map (List String)) (u : String) → In u (keys e) → In u (nodes e)
    go [] u m = m
    go ((k, out) ∷ rest) u (inl p) = inl p
    go ((k, out) ∷ rest) u (inr m) = inr (In-append_right u out (nodes rest) (go rest u m))

-- A node with a target is a key.
key_of_Edge : (d : Map (List String)) (u v : String) → Edge d u v → In u (keys d)
unfolding lookup
key_of_Edge [] u v m = m
key_of_Edge ((k, out) ∷ rest) u v m = elim (Bool-cases (k == u)) [
  | inl e ↦ inl (sym ((eq_iff k u).0 e))
  | inr e ↦ inr (key_of_Edge rest u v (rw e at m))
]

acyclic_of_Scanned :
    (d : Map (List String)) (s t : Search) → Scanned d (sort str_lt (keys d)) s t → IsAcyclic d
acyclic_of_Scanned d s t h u (one e) =
    h.inv.acyclic u (h.listed u (In-sort str_lt u (keys d) (key_of_Edge d u u e))) (one e)
acyclic_of_Scanned d s t h u (more {v = v} e l) =
    h.inv.acyclic u (h.listed u (In-sort str_lt u (keys d) (key_of_Edge d u v e))) (more e l)

search-AllPromise :
    (d : Map (List String)) → AllPromise d (sort str_lt (keys d)) blank (find_direction_cycle d)
unfolding find_direction_cycle
search-AllPromise d =
    search_all-AllPromise d (suc (length (nodes d))) (sort str_lt (keys d)) blank (Inv-blank d) refl
      (All-sort str_lt _ (keys d) (keys-nodes d)) (omega (arith, whites-le-length (nodes d) blank))

-- For every `Direction` the search ends within its fuel, and either returns a list of nodes that is
-- a cycle of the graph, which is then not acyclic, or explores all and the graph is acyclic.
pub find_direction_cycle_decides :
    (d : Map (List String))
    → ((c : List String) × (find_direction_cycle d ≡ found c) × IsCycle d c × ¬ IsAcyclic d)
      ⊎ ((t : Search) × (find_direction_cycle d ≡ explored t) × IsAcyclic d)
find_direction_cycle_decides d = go (find_direction_cycle d) refl (search-AllPromise d)
  where
    go :
        (o : Outcome)
        → find_direction_cycle d ≡ o
        → AllPromise d (sort str_lt (keys d)) blank o
        → ((c : List String) × (find_direction_cycle d ≡ found c) × IsCycle d c × ¬ IsAcyclic d)
          ⊎ ((t : Search) × (find_direction_cycle d ≡ explored t) × IsAcyclic d)
    go (found c) e h = inl (c, e, h, λ a. let (u, l) = Leads-of_IsCycle d c h in a u l)
    go (explored t) e h = inr (t, e, acyclic_of_Scanned d blank t h)
    go out_of_fuel e h = absurd h
