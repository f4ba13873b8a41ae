-- ===== src/Tui/Violations/Worst.antt =====
-- When the tree shows an error for a path.
use go_arch_guard.Prelude.{
  String, true, false, List, [], ◌∷◌, ◌++◌, ◌^^◌, ◌==◌, ◌≡◌, ◌↔◌, ◌⊎◌, inl, inr, refl, sym, subst,
  ap, ◌∙◌, Map, lookup, put, keys, has_prefix, In, IsDistinct, IsDistinct-put, arith, eq_iff,
  Bool-cases, if◌then◌else◌,
}
use go_arch_guard.Core.Violation.{error, Violation}
use go_arch_guard.Core.Paths.{trim_right_slash}
use go_arch_guard.Tui.Violations.{
  Level, sev_none, sev_warning, sev_error, entries, index_violation, index_violations, worsen,
  walk_below, severity,
}

-- one of the violations satisfies `P`
abbrev pub Some : (Violation → Type 0) → List Violation → Type 0
Some P [] = ⊥
Some P (v ∷ vs) = P v ⊎ Some P vs

abbrev IsError : Violation → Type 0
IsError v = v.effective_severity ≡ error

worsen-IsError_iff :
    (worst : Level) (vs : List Violation)
    → (worsen worst vs ≡ sev_error) ↔ ((worst ≡ sev_error) ⊎ Some IsError vs)
unfolding worsen
worsen-IsError_iff worst [] = ground arith
worsen-IsError_iff sev_none (v ∷ vs) =
    ground (arith, worsen-IsError_iff sev_none vs, worsen-IsError_iff sev_warning vs)
worsen-IsError_iff sev_warning (v ∷ vs) = ground (arith, worsen-IsError_iff sev_warning vs)
worsen-IsError_iff sev_error (v ∷ vs) = ground (arith, worsen-IsError_iff sev_error vs)

-- an entry of the index whose key satisfies `K` has an error
abbrev HasError : (String → Type 0) → Map (List Violation) → Type 0
HasError K [] = ⊥
HasError K ((k, vs) ∷ idx) = (K k × Some IsError vs) ⊎ HasError K idx

walk_below-error_iff :
    (prefix : String) (worst : Level) (idx : Map (List Violation))
    → (walk_below prefix worst idx ≡ sev_error)
      ↔ ((worst ≡ sev_error) ⊎ HasError (λ k. has_prefix k prefix ≡ true) idx)
unfolding walk_below
walk_below-error_iff prefix worst [] = ground arith
walk_below-error_iff prefix worst ((k, vs) ∷ idx) =
    let next = if has_prefix k prefix then worsen worst vs else worst in
    let here : (next ≡ sev_error)
        ↔ ((worst ≡ sev_error) ⊎ ((has_prefix k prefix ≡ true) × Some IsError vs)) =
      ground (arith, worsen-IsError_iff worst vs) in
    ground (arith, here, walk_below-error_iff prefix next idx)

Some-snoc :
    (P : Violation → Type 0) (vs : List Violation) (v : Violation)
    → Some P (vs ++ v ∷ []) ↔ (Some P vs ⊎ P v)
Some-snoc P [] v = ground arith
Some-snoc P (w ∷ vs) v = ground (arith, Some-snoc P vs v)

HasError-key :
    (path : String) (idx : Map (List Violation)) → HasError (λ k. k ≡ path) idx → In path (keys idx)
HasError-key path [] h = h
HasError-key path ((k, vs) ∷ idx) h = ground (arith, h, HasError-key path idx)

module _ (k : String) (vs : List Violation) (idx : Map (List Violation)) where
  entries-same : (path : String) → k == path ≡ true → entries ((k, vs) ∷ idx) path ≡ vs
  unfolding lookup
  entries-same path e = rw (e, entries) refl

  entries-other :
      (path : String) → k == path ≡ false → entries ((k, vs) ∷ idx) path ≡ entries idx path
  unfolding lookup
  entries-other path e = rw (e, entries) refl

  put-same :
      (key : String) (ws : List Violation)
      → k == key ≡ true
      → put ((k, vs) ∷ idx) key ws ≡ (k, ws) ∷ idx
  unfolding put
  put-same key ws e = rw e refl

  put-other :
      (key : String) (ws : List Violation)
      → k == key ≡ false
      → put ((k, vs) ∷ idx) key ws ≡ (k, vs) ∷ put idx key ws
  unfolding put
  put-other key ws e = rw e refl

entries-IsError_iff :
    (path : String) (idx : Map (List Violation))
    → IsDistinct (keys idx)
    → Some IsError (entries idx path) ↔ HasError (λ k. k ≡ path) idx
unfolding lookup
entries-IsError_iff path [] d = ground arith
entries-IsError_iff path ((k, vs) ∷ idx) (n, d) = elim (Bool-cases (k == path)) [
  | inl e ↦
      let same = (eq_iff k path).0 e in
      let fresh = subst (λ x. ¬ In x (keys idx)) same n in
      subst (λ xs. Some IsError xs ↔ HasError (λ j. j ≡ path) ((k, vs) ∷ idx))
        (sym (entries-same k vs idx path e)) (ground (arith, same, fresh, HasError-key path idx))
  | inr e ↦
      subst (λ xs. Some IsError xs ↔ HasError (λ j. j ≡ path) ((k, vs) ∷ idx))
        (sym (entries-other k vs idx path e))
        (ground (arith, e, eq_iff k path, entries-IsError_iff path idx d))
]

-- the index with one more violation
abbrev more : Map (List Violation) → String → Violation → Map (List Violation)
more idx key v = put idx key (entries idx key ++ v ∷ [])

HasError-more :
    (K : String → Type 0) (idx : Map (List Violation)) (key : String) (v : Violation)
    → HasError K (more idx key v) ↔ (HasError K idx ⊎ (K key × IsError v))
unfolding put lookup
HasError-more K [] key v = ground arith
HasError-more K ((k, vs) ∷ idx) key v =
    let after : Map (List Violation) → Type 0 =
      λ m. HasError K m ↔ (HasError K ((k, vs) ∷ idx) ⊎ (K key × IsError v)) in
    elim (Bool-cases (k == key)) [
      | inl e ↦
          let same = (eq_iff k key).0 e in
          let there = subst K same in
          let back = subst K (sym same) in
          let whole =
            put-same k vs idx key (entries ((k, vs) ∷ idx) key ++ v ∷ []) e
            ∙ ap (λ ws. (k, ws ++ v ∷ []) ∷ idx) (entries-same k vs idx key e) in
          subst after (sym whole) (ground (arith, there, back, Some-snoc IsError vs v))
      | inr e ↦
          let whole =
            put-other k vs idx key (entries ((k, vs) ∷ idx) key ++ v ∷ []) e
            ∙ ap (λ ws. (k, vs) ∷ put idx key (ws ++ v ∷ [])) (entries-other k vs idx key e) in
          subst after (sym whole) (ground (arith, HasError-more K idx key v))
    ]

-- the key of a violation
abbrev pub key_of : Violation → String
key_of v = trim_right_slash v.file

HasError-index :
    (K : String → Type 0) (idx : Map (List Violation)) (vs : List Violation)
    → HasError K (index_violations idx vs)
      ↔ (HasError K idx ⊎ Some (λ v. K (key_of v) × IsError v) vs)
unfolding index_violations
HasError-index K idx [] = ground arith
HasError-index K idx (v ∷ vs) =
    ground (arith, HasError-index K (index_violation idx v) vs, HasError-more K idx (key_of v) v)

index-IsDistinct :
    (idx : Map (List Violation)) (vs : List Violation)
    → IsDistinct (keys idx)
    → IsDistinct (keys (index_violations idx vs))
unfolding index_violations
index-IsDistinct idx [] d = d
index-IsDistinct idx (v ∷ vs) d =
    index-IsDistinct (index_violation idx v) vs
      (IsDistinct-put idx (key_of v) (entries idx (key_of v) ++ v ∷ []) d)

Some-or :
    (P Q R : Violation → Type 0)
    → ((v : Violation) → R v ↔ (P v ⊎ Q v))
    → (vs : List Violation) → Some R vs ↔ (Some P vs ⊎ Some Q vs)
Some-or P Q R each [] = ground arith
Some-or P Q R each (v ∷ vs) = ground (arith, each v, Some-or P Q R each vs)

-- an error in the path itself or below it
abbrev pub IsErrorUnder : String → Violation → Type 0
IsErrorUnder path v =
    (v.effective_severity ≡ error)
    × ((key_of v ≡ path) ⊎ (has_prefix (key_of v) (path ^^ "/") ≡ true))

-- The tree shows an error for a path exactly where one of the violations is an error whose file, without
-- slashes at its end, is the path or lies below it.
pub severity-error_iff :
    (vs : List Violation) (path : String)
    → (severity (index_violations [] vs) path ≡ sev_error) ↔ Some (IsErrorUnder path) vs
unfolding severity
severity-error_iff vs path =
    let idx = index_violations [] vs in
    ground (
      arith,
      walk_below-error_iff (path ^^ "/") (worsen sev_none (entries idx path)) idx,
      worsen-IsError_iff sev_none (entries idx path),
      entries-IsError_iff path idx (index-IsDistinct [] vs tt),
      HasError-index (λ k. k ≡ path) [] vs,
      HasError-index (λ k. has_prefix k (path ^^ "/") ≡ true) [] vs,
      Some-or (λ v. (key_of v ≡ path) × IsError v)
          (λ v. (has_prefix (key_of v) (path ^^ "/") ≡ true) × IsError v) (IsErrorUnder path)
          (λ v. ground arith) vs,
    )
