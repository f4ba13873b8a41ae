-- ===== src/Coupling/Visits.antt =====
-- The search visits exactly what can be reached, and ends.
use go_arch_guard.Prelude.{
  ℕ, zero, suc, ◌+◌, ◌≤◌, String, true, false, some, List, [], ◌∷◌, ◌++◌, ◌≡◌, ◌↔◌, ◌⊎◌, inl, inr,
  ⊎_elim, refl, sym, subst, Map, contains, contains_iff, contains-snoc, In, All, length,
  length-append, IsDistinct, IsDistinct-snoc, In-snoc_iff, arith, eq_iff, Bool-cases, if◌then◌else◌,
}
use go_arch_guard.Coupling.{neighbours, Search, offer, scan, search}

-- the names of `nodes` that are not visited
abbrev pub unseen : List String → List String → ℕ
unseen [] visited = 0
unseen (n ∷ nodes) visited =
    if contains visited n then unseen nodes visited else suc (unseen nodes visited)

unseen-snoc-le :
    (nodes visited : List String) (d : String)
    → unseen nodes (visited ++ d ∷ []) ≤ unseen nodes visited
unseen-snoc-le [] visited d = omega arith
unseen-snoc-le (n ∷ nodes) visited d =
    ground (arith, unseen-snoc-le nodes visited d, contains-snoc visited d n)

unseen-snoc :
    (nodes visited : List String) (d : String)
    → In d nodes
    → contains visited d ≡ false
    → suc (unseen nodes (visited ++ d ∷ [])) ≤ unseen nodes visited
unseen-snoc [] visited d m h = elim m [ ]
unseen-snoc (n ∷ nodes) visited d (inl e) h = ground (
  arith,
  unseen-snoc-le nodes visited d,
  contains-snoc visited d n,
  eq_iff d n,
  subst (λ x. contains visited x ≡ false) e h,
)
unseen-snoc (n ∷ nodes) visited d (inr m) h =
    ground (arith, unseen-snoc nodes visited d m h, contains-snoc visited d n)

unseen-nil-le : (nodes : List String) → unseen nodes [] ≤ length nodes
unfolding contains
unseen-nil-le [] = omega arith
unseen-nil-le (n ∷ nodes) = omega (arith, unseen-nil-le nodes)

singleton_lem : (a x : String) → (contains (a ∷ []) x ≡ true) ↔ (x ≡ a)
unfolding contains
singleton_lem a x = ground (arith, eq_iff a x)

offer-work :
    (nodes : List String) (s : Search) (d : String)
    → In d nodes
    → unseen nodes (offer s d).visited + length (offer s d).queue
      ≤ unseen nodes s.visited + length s.queue
offer-work nodes s d m =
    ground (arith, unseen-snoc nodes s.visited d m, length-append s.queue (d ∷ []))

-- what one call of `scan` keeps: the work left does not grow
scan-work :
    (nodes : List String) (s : Search) (ds : List String)
    → All (λ d. In d nodes) ds
    → unseen nodes (scan s ds).visited + length (scan s ds).queue
      ≤ unseen nodes s.visited + length s.queue
unfolding scan
scan-work nodes s [] h = omega arith
scan-work nodes s (d ∷ ds) (m, h) =
    omega (arith, offer-work nodes s d m, scan-work nodes (offer s d) ds h)

offer-marks :
    (s : Search) (d x : String)
    → (contains (offer s d).visited x ≡ true) ↔ ((contains s.visited x ≡ true) ⊎ (x ≡ d))
offer-marks s d x = ground (arith, contains-snoc s.visited d x, eq_iff d x)

offer-queue :
    (s : Search) (d x : String)
    → In x (offer s d).queue
      ↔ (In x s.queue ⊎ ((contains (offer s d).visited x ≡ true) × (contains s.visited x ≡ false)))
offer-queue s d x = ground (arith, contains-snoc s.visited d x, In-snoc_iff x d s.queue, eq_iff d x)

scan-marks :
    (s : Search) (ds : List String) (x : String)
    → (contains (scan s ds).visited x ≡ true) ↔ ((contains s.visited x ≡ true) ⊎ In x ds)
unfolding scan
scan-marks s [] x = ground arith
scan-marks s (d ∷ ds) x = ground (arith, offer-marks s d x, scan-marks (offer s d) ds x)

scan-queue :
    (s : Search) (ds : List String) (x : String)
    → In x (scan s ds).queue
      ↔ (In x s.queue ⊎ ((contains (scan s ds).visited x ≡ true) × (contains s.visited x ≡ false)))
unfolding scan
scan-queue s [] x = ground arith
scan-queue s (d ∷ ds) x = ground (
  arith,
  offer-marks s d x,
  offer-queue s d x,
  scan-marks (offer s d) ds x,
  scan-queue (offer s d) ds x,
)

offer-IsDistinct : (s : Search) (d : String) → IsDistinct s.visited → IsDistinct (offer s d).visited
offer-IsDistinct s d h = ground (arith, IsDistinct-snoc d s.visited h, contains_iff s.visited d)

scan-IsDistinct :
    (s : Search) (ds : List String) → IsDistinct s.visited → IsDistinct (scan s ds).visited
unfolding scan
scan-IsDistinct s [] h = h
scan-IsDistinct s (d ∷ ds) h = scan-IsDistinct (offer s d) ds (offer-IsDistinct s d h)

-- `visited` begins with its first element throughout
abbrev pub HeadIs : String → List String → Type 0
HeadIs src [] = ⊥
HeadIs src (x ∷ xs) = x ≡ src

HeadIs-append : (src : String) (xs ys : List String) → HeadIs src xs → HeadIs src (xs ++ ys)
HeadIs-append src [] ys h = elim h [ ]
HeadIs-append src (x ∷ xs) ys h = h

offer-HeadIs :
    (src : String) (s : Search) (d : String) → HeadIs src s.visited → HeadIs src (offer s d).visited
offer-HeadIs src s d h = ground (arith, HeadIs-append src s.visited (d ∷ []) h)

scan-HeadIs :
    (src : String) (s : Search) (ds : List String)
    → HeadIs src s.visited
    → HeadIs src (scan s ds).visited
unfolding scan
scan-HeadIs src s [] h = h
scan-HeadIs src s (d ∷ ds) h = scan-HeadIs src (offer s d) ds (offer-HeadIs src s d h)

-- The chains of a graph from `src`.
pub data Reach (graph : Map (List String)) (src : String) : String → Type 0 where
  here : Reach graph src src
  step : {u v : String} → Reach graph src u → In v (neighbours graph u) → Reach graph src v

module _ (graph : Map (List String)) (nodes : List String)
    (closed : (u : String) → All (λ d. In d nodes) (neighbours graph u)) where
  -- The loop ends within as many rounds as there are unseen nodes and queued ones.
  search_ends :
      (fuel : ℕ) (visited queue : List String)
      → unseen nodes visited + length queue ≤ fuel
      → (t : List String) × (search graph fuel visited queue ≡ some t)
  unfolding search
  search_ends fuel visited [] h = (visited, refl)
  search_ends zero visited (cur ∷ queue) h = absurd (omega arith)
  search_ends (suc fuel) visited (cur ∷ queue) h =
      let s = scan (record { visited = visited; queue = queue }) (neighbours graph cur) in
      search_ends fuel s.visited s.queue (
        omega (
          arith,
          scan-work nodes (record { visited = visited; queue = queue }) (neighbours graph cur)
              (closed cur),
        ))

  module _ (src : String) where
    record Inv (visited queue : List String) : Type 0 where
      distinct : IsDistinct visited
      first : HeadIs src visited
      source : contains visited src ≡ true
      queued : (x : String) → In x queue → contains visited x ≡ true
      sound : (x : String) → contains visited x ≡ true → Reach graph src x
      done :
          (u v : String)
          → contains visited u ≡ true
          → In v (neighbours graph u)
          → In u queue ⊎ (contains visited v ≡ true)

    Inv-step :
        (visited queue : List String) (cur : String)
        → Inv visited (cur ∷ queue)
        → let s = scan (record { visited = visited; queue = queue }) (neighbours graph cur) in
          Inv s.visited s.queue
    Inv-step visited queue cur h =
        let s0 : Search = record { visited = visited; queue = queue } in
        let ds = neighbours graph cur in
        let marks = scan-marks s0 ds in
        let waits = scan-queue s0 ds in
        let to_cur = h.sound cur (h.queued cur (inl refl)) in
        record {
          distinct = scan-IsDistinct s0 ds h.distinct;
          first = scan-HeadIs src s0 ds h.first;
          source = (marks src).1 (inl h.source);
          queued = λ x q. ground (arith, marks x, waits x, h.queued x);
          sound = λ x m. ⊎_elim (h.sound x) (λ e. step to_cur e) ((marks x).0 m);
          done = λ u v m e. elim (Bool-cases (contains visited u)) [
            | inr fresh ↦ inl ((waits u).1 (inr (m, fresh)))
            | inl old ↦ elim (h.done u v old e) [
              | inr seen ↦ inr ((marks v).1 (inl seen))
              | inl (inr q) ↦ inl ((waits u).1 (inl q))
              | inl (inl p) ↦ inr ((marks v).1 (inr (subst (λ x. In v (neighbours graph x)) p e)))
            ]
          ];
        }

    Inv-start : Inv (src ∷ []) (src ∷ [])
    unfolding contains
    Inv-start = record {
      distinct = ground arith;
      first = refl;
      source = ground (arith, eq_iff src src);
      queued = λ x q. ground (arith, eq_iff src x);
      sound = λ x m. subst (Reach graph src) (sym ((singleton_lem src x).0 m)) here;
      done = λ u v m e. inl (inl ((singleton_lem src u).0 m));
    }

    -- At the end the invariant holds with an empty queue.
    search-Inv :
        (fuel : ℕ) (visited queue t : List String)
        → Inv visited queue
        → search graph fuel visited queue ≡ some t
        → Inv t []
    unfolding search
    search-Inv fuel visited [] t h e = subst (λ v. Inv v []) (cc) h
    search-Inv zero visited (cur ∷ queue) t h e = absurd (cc e)
    search-Inv (suc fuel) visited (cur ∷ queue) t h e =
        let s = scan (record { visited = visited; queue = queue }) (neighbours graph cur) in
        search-Inv fuel s.visited s.queue t (Inv-step visited queue cur h) e

    complete : (t : List String) → Inv t [] → {x : String} → Reach graph src x → contains t x ≡ true
    complete t h here = h.source
    complete t h (step {u} {v} r e) = elim (h.done u v (complete t h r) e) [
      | inl q ↦ elim q [ ]
      | inr m ↦ m
    ]

    -- Where the edges stay among the nodes, the search from a node returns, within as many rounds as
    -- there are nodes, the names that can be reached, each once and the source first.
    pub search_correct :
        (fuel : ℕ)
        → In src nodes
        → length nodes ≤ fuel
        → (t : List String) × (search graph fuel (src ∷ []) (src ∷ []) ≡ some t)
          × IsDistinct t
          × HeadIs src t
          × ((x : String) → In x t ↔ Reach graph src x)
    unfolding contains
    search_correct fuel m enough =
        let (t, e) =
          search_ends fuel (src ∷ []) (src ∷ [])
            (omega (arith, unseen-snoc nodes [] src m refl, unseen-nil-le nodes)) in
        let h = search-Inv fuel (src ∷ []) (src ∷ []) t Inv-start e in
        (
          t,
          e,
          h.distinct,
          h.first,
          λ x.
              let (out, into) = contains_iff t x in
              (λ i. h.sound x (into i), λ r. out (complete t h r)),
        )
