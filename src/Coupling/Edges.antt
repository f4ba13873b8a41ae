-- ===== src/Coupling/Edges.antt =====
-- The maps of the graph against the imports of the packages.
use go_arch_guard.Prelude.{
  String, Bool, true, List, [], ◌∷◌, ◌==◌, ◌≡◌, ◌↔◌, ◌⊎◌, inl, inr, ⊎_elim, refl, sym, subst, ◌∙◌,
  ap, Map, lookup, put, lookup-put, keys, contains, contains_iff, add, In, In-add_iff, All,
  All-of_forall, IsDistinct, IsDistinct-add, In-keys-put, map, arith, eq_iff, All-at, Bool-cases,
  if◌then◌else◌,
}
use go_arch_guard.Core.Context.{Package}
use go_arch_guard.Coupling.{
  collect_nodes, collect_deps, collect_forward, neighbours, link, link_all, forward_of, reverse_of,
}

-- nodes
pub In-collect_nodes :
    (keep : Package → Bool) (set : List String) (ps : List Package) (n : String)
    → In n (collect_nodes keep set ps)
      ↔ (In n set ⊎ ((p : Package) × In p ps × (keep p ≡ true) × (n ≡ p.pkg_path)))
unfolding collect_nodes
In-collect_nodes keep set [] n = (inl, ⊎_elim (λ m. m) (λ (p, m, k, e). elim m [ ]))
In-collect_nodes keep set (p ∷ ps) n =
    let rest = In-collect_nodes keep (if keep p then add p.pkg_path set else set) ps n in
    (
      λ m. elim (rest.0 m) [
        | inr (q, i, k, e) ↦ inr (q, inr i, k, e)
        | inl i ↦ elim (Bool-cases (keep p)) [
          | inl t ↦
              ⊎_elim inl (λ e. inr (p, inl refl, t, e))
                ((In-add_iff n p.pkg_path set).0 (rw t at i))
          | inr f ↦ inl (rw f at i)
        ]
      ],
      ⊎_elim (λ i. rest.1 (inl (ground (arith, In-add_iff n p.pkg_path set))))
          (λ (q, m, k, e). elim m [
            | inr i ↦ rest.1 (inr (q, i, k, e))
            | inl same ↦
                let k' : keep p ≡ true = subst (λ x. keep x ≡ true) same k in
                let e' : n ≡ p.pkg_path = e ∙ ap (λ x. x.pkg_path) same in
                rest.1 (inl (ground (arith, In-add_iff n p.pkg_path set)))
          ]),
    )

pub IsDistinct-collect_nodes :
    (keep : Package → Bool) (set : List String) (ps : List Package)
    → IsDistinct set
    → IsDistinct (collect_nodes keep set ps)
unfolding collect_nodes
IsDistinct-collect_nodes keep set [] d = d
IsDistinct-collect_nodes keep set (p ∷ ps) d =
    IsDistinct-collect_nodes keep (if keep p then add p.pkg_path set else set) ps
      (ground (arith, IsDistinct-add p.pkg_path set d))

In-collect_deps :
    (nodes deps imports : List String) (d : String)
    → In d (collect_deps nodes deps imports) ↔ (In d deps ⊎ (In d imports × In d nodes))
unfolding collect_deps
In-collect_deps nodes deps [] d = ground arith
In-collect_deps nodes deps (i ∷ imports) d =
    let more = if contains nodes i then add i deps else deps in
    let step : In d more ↔ (In d deps ⊎ ((d ≡ i) × In d nodes)) =
      ground (arith, In-add_iff d i deps, contains_iff nodes i, eq_iff d i) in
    ground (arith, In-collect_deps nodes more imports d, step)

-- `src` stands in the entry of `d`
abbrev pub Linked : Map (List String) → String → String → Type 0
Linked reverse d src = In src (neighbours reverse d)

Linked-put :
    (m : Map (List String)) (k d src new : String)
    → Linked (put m k (add new (neighbours m k))) d src ↔ (Linked m d src ⊎ ((src ≡ new) × (d ≡ k)))
Linked-put m k d src new = elim (Bool-cases (k == d)) [
  | inl t ↦ ground (
    arith,
    In-add_iff src new (neighbours m k),
    eq_iff k d,
    lookup-put m k d (add new (neighbours m k)),
  )
  | inr f ↦ ground (arith, eq_iff k d, lookup-put m k d (add new (neighbours m k)))
]

Linked-link :
    (new : String) (m : Map (List String)) (ds : List String) (d src : String)
    → Linked (link new m ds) d src ↔ (Linked m d src ⊎ ((src ≡ new) × In d ds))
unfolding link
Linked-link new m [] d src = ground arith
Linked-link new m (x ∷ ds) d src =
    let rest = Linked-link new (put m x (add new (neighbours m x))) ds d src in
    ground (arith, rest, Linked-put m x d src new)

-- an entry `src` whose set has `d`
abbrev pub Entry : Map (List String) → String → String → Type 0
Entry [] src d = ⊥
Entry ((k, ds) ∷ m) src d = ((src ≡ k) × In d ds) ⊎ Entry m src d

Linked-link_all :
    (m es : Map (List String)) (d src : String)
    → Linked (link_all m es) d src ↔ (Linked m d src ⊎ Entry es src d)
unfolding link_all
Linked-link_all m [] d src = ground arith
Linked-link_all m ((k, ds) ∷ es) d src =
    ground (arith, Linked-link_all (link k m ds) es d src, Linked-link k m ds d src)

Linked-blank : (nodes : List String) (d src : String) → ¬ Linked (map (λ n. (n, [])) nodes) d src
unfolding lookup
Linked-blank [] d src m = elim m [ ]
Linked-blank (n ∷ nodes) d src m = ground (arith, Linked-blank nodes d src)

-- The reverse map holds exactly the entries of the forward one, turned round.
pub Linked-reverse_of :
    (nodes : List String) (forward : Map (List String)) (d src : String)
    → Linked (reverse_of nodes forward) d src ↔ Entry forward src d
unfolding reverse_of
Linked-reverse_of nodes forward d src =
    ground
      (arith, Linked-link_all (map (λ n. (n, [])) nodes) forward d src, Linked-blank nodes d src)

Entry-put :
    (m : Map (List String)) (k : String) (ds : List String) (src d : String)
    → ¬ In k (keys m)
    → Entry (put m k ds) src d ↔ (Entry m src d ⊎ ((src ≡ k) × In d ds))
unfolding put
Entry-put [] k ds src d h = ground arith
Entry-put ((j, es) ∷ m) k ds src d h =
    ground (arith, eq_iff j k, Entry-put m k ds src d (λ i. h (inr i)))

-- a package `a` of the graph imports a package `b` of the graph
abbrev pub Imports : List String → List Package → String → String → Type 0
Imports nodes ps a b =
    (p : Package) × In p ps × (p.pkg_path ≡ a) × In b p.imports × In a nodes × In b nodes

abbrev pub paths : List Package → List String
paths = map (λ p. p.pkg_path)

In-paths : (ps : List Package) (p : Package) → In p ps → In p.pkg_path (paths ps)
In-paths [] p m = elim m [ ]
In-paths (q ∷ ps) p (inl e) = inl (ap (λ r. r.pkg_path) e)
In-paths (q ∷ ps) p (inr m) = inr (In-paths ps p m)

Imports-cons :
    (nodes : List String) (p : Package) (ps : List Package) (a b : String)
    → Imports nodes (p ∷ ps) a b
      ↔ (((a ≡ p.pkg_path) × In b p.imports × In a nodes × In b nodes) ⊎ Imports nodes ps a b)
Imports-cons nodes p ps a b = (
  λ (q, m, e, i, x, y). elim m [
    | inl same ↦ inl (sym e ∙ ap (λ r. r.pkg_path) same, subst (λ r. In b r.imports) same i, x, y)
    | inr m' ↦ inr (q, m', e, i, x, y)
  ],
  ⊎_elim (λ (e, i, x, y). (p, inl refl, sym e, i, x, y))
      (λ (q, m, e, i, x, y). (q, inr m, e, i, x, y)),
)

Entry-collect_forward :
    (nodes : List String) (m : Map (List String)) (ps : List Package) (a b : String)
    → IsDistinct (paths ps)
    → All (λ p. ¬ In p.pkg_path (keys m)) ps
    → Entry (collect_forward nodes m ps) a b ↔ (Entry m a b ⊎ Imports nodes ps a b)
unfolding collect_forward
Entry-collect_forward nodes m [] a b d fresh = (inl, ⊎_elim (λ e. e) (λ h. elim h.1 [ ]))
Entry-collect_forward nodes m (p ∷ ps) a b (n, d) (new, fresh) =
    let deps = collect_deps nodes [] p.imports in
    let m' = if contains nodes p.pkg_path then put m p.pkg_path deps else m in
    let fresh' : All (λ q. ¬ In q.pkg_path (keys m')) ps = All-of_forall _ ps λ q i k.
      let old = All-at (λ r. ¬ In r.pkg_path (keys m)) ps q fresh i in
      let other : ¬ (q.pkg_path ≡ p.pkg_path) =
        λ e. n (subst (λ x. In x (paths ps)) e (In-paths ps q i)) in
      ground (arith, In-keys-put m p.pkg_path deps q.pkg_path) in
    let rest = Entry-collect_forward nodes m' ps a b d fresh' in
    let here : Entry m' a b
        ↔ (Entry m a b ⊎ ((a ≡ p.pkg_path) × In b p.imports × In a nodes × In b nodes)) =
      ground (
        arith,
        Entry-put m p.pkg_path deps a b new,
        In-collect_deps nodes [] p.imports b,
        contains_iff nodes a,
        contains_iff nodes p.pkg_path,
      ) in
    ground (arith, rest, here, Imports-cons nodes p ps a b)

All-fresh : (ps : List Package) → All (λ p. ¬ In p.pkg_path []) ps
All-fresh [] = tt
All-fresh (p ∷ ps) = ((λ m. m), All-fresh ps)

-- Over packages with distinct paths, the edges of the reverse map are the imports, turned round.
pub reverse_of-Imports :
    (nodes : List String) (ps : List Package) (a b : String)
    → IsDistinct (paths ps)
    → In a (neighbours (reverse_of nodes (forward_of nodes ps)) b) ↔ Imports nodes ps a b
unfolding forward_of
reverse_of-Imports nodes ps a b d = ground (
  arith,
  Linked-reverse_of nodes (forward_of nodes ps) b a,
  Entry-collect_forward nodes [] ps a b d (All-fresh ps),
)
