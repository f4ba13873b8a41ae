-- ===== src/Core/Validate/Laws.antt =====
-- What an architecture that `Validate` accepts satisfies, stated without the loops.
use go_arch_guard.Prelude.{
  IsDistinct, String, ◌≡◌, refl, sym, subst, ◌≢◌, ◌↔◌, ⊎_elim, inl, inr, Bool, true, false, none,
  List, [], ◌∷◌, ◌==◌, ◌^^◌, Map, lookup, contains, contains_iff, keys, arith, eq_iff, In, All,
  All-of_forall, is_some, append-nil_iff, flat_map-nil_iff,
}
use go_arch_guard.Core.Violation.{Format}
use go_arch_guard.Core.Architecture.{Architecture, TypePattern}
use go_arch_guard.Core.Validate.{
  passes, known_layers, when, unless, sublayer_errors, missing_key_errors, unknown_errors,
  direction_errors, port_subset_errors, empty_key_errors, type_pattern_errors, cycle_errors, errors,
  report, validate,
}
use go_arch_guard.Core.Validate.Cycle.{find_direction_cycle}
use go_arch_guard.Core.Validate.Cycle.Graph.{IsAcyclic}
use go_arch_guard.Core.Validate.Cycle.Correct.{find_direction_cycle_decides}

abbrev pub NonEmpty : List String → Type 0
NonEmpty = All (λ l. l ≢ "")

-- every element of the second list stands in the first
abbrev pub Within : List String → List String → Type 0
Within known = All (λ l. In l known)

abbrev pub Declared : List String → Map (List String) → Type 0
Declared known = All (λ e. In e.0 known × Within known e.1)

pub record IsValid (a : Architecture) : Type 0 where
  pub distinct : IsDistinct a.layers.sublayers
  pub named : NonEmpty a.layers.sublayers
  pub keyed : All (λ l. lookup a.layers.direction l ≢ none) a.layers.sublayers
  pub declared : Declared a.layers.sublayers a.layers.direction
  pub ports : Within a.layers.sublayers a.layers.port_layers
  pub contracts : Within a.layers.sublayers a.layers.contract_layers
  pub ports_contracts : Within a.layers.contract_layers a.layers.port_layers
  pub restricted : Within a.layers.sublayers (keys a.layers.pkg_restricted)
  pub excluded : Within a.layers.sublayers (keys a.structure.interface_pattern_exclude)
  pub dir_names : NonEmpty (keys a.layers.layer_dir_names)
  pub top_level : NonEmpty (keys a.layers.internal_top_level)
  pub patterns : All (λ tp. (tp.dir ≢ "") × In tp.dir a.layers.sublayers) a.structure.type_patterns
  pub acyclic : IsAcyclic a.layers.direction

known_layers_of_NonEmpty : (ls : List String) → NonEmpty ls → known_layers ls ≡ ls
unfolding known_layers
known_layers_of_NonEmpty [] h = refl
known_layers_of_NonEmpty (l ∷ ls) (p, h) =
    ground (arith, eq_iff l "", known_layers_of_NonEmpty ls h)

unless-nil_iff : (b : Bool) (e : String) → (unless b e ≡ []) ↔ (b ≡ true)
unless-nil_iff true e = (λ h. refl, λ h. refl)
unless-nil_iff false e = (λ h. cc, λ h. cc)

when-nil_iff : (b : Bool) (e : String) → (when b e ≡ []) ↔ (b ≡ false)
when-nil_iff true e = (λ h. cc, λ h. cc)
when-nil_iff false e = (λ h. refl, λ h. refl)

contains-nil_iff :
    (known : List String) (l e : String) → (unless (contains known l) e ≡ []) ↔ In l known
contains-nil_iff known l e =
    ground (arith, unless-nil_iff (contains known l) e, contains_iff known l)

pub fresh-cons :
    (l : String) (seen ls : List String)
    → All (λ x. ¬ In x (l ∷ seen)) ls ↔ ((¬ In l ls) × All (λ x. ¬ In x seen) ls)
fresh-cons l seen [] = (λ h. (λ m. m, tt), λ h. tt)
fresh-cons l seen (x ∷ xs) =
    let (down, up) = fresh-cons l seen xs in
    (
      λ h.
          let (p, q) = down h.1 in
          (λ m. ⊎_elim (λ e. h.0 (inl (sym e))) p m, (λ m. h.0 (inr m), q)),
      λ h. (λ m. ⊎_elim (λ e. h.0 (inl (sym e))) h.1.0 m, up (λ m. h.0 (inr m), h.1.1)),
    )

module _ (fmt : Format) where
  report-none : (es : List String) → report fmt es ≡ none → es ≡ []
  report-none [] h = refl
  report-none (e ∷ es) h = cc

  sublayer_errors-nil_iff :
      (seen ls : List String)
      → (sublayer_errors fmt seen ls ≡ [])
        ↔ (NonEmpty ls × IsDistinct ls × All (λ l. ¬ In l seen) ls)
  unfolding sublayer_errors
  sublayer_errors-nil_iff seen [] = (λ h. (tt, tt, tt), λ h. refl)
  sublayer_errors-nil_iff seen (l ∷ ls) = ground (
    arith,
    eq_iff l "",
    append-nil_iff (when (contains seen l) ("Sublayers contains duplicate entry " ^^ fmt.quote l))
        (sublayer_errors fmt (l ∷ seen) ls),
    when-nil_iff (contains seen l) ("Sublayers contains duplicate entry " ^^ fmt.quote l),
    contains_iff seen l,
    sublayer_errors-nil_iff (l ∷ seen) ls,
    fresh-cons l seen ls,
  )

  missing_key_errors-nil_iff :
      (d : Map (List String)) (ls : List String)
      → (missing_key_errors fmt d ls ≡ []) ↔ All (λ l. lookup d l ≢ none) ls
  unfolding missing_key_errors
  missing_key_errors-nil_iff d =
      flat_map-nil_iff _ _ λ l. ground (arith, unless-nil_iff (is_some (lookup d l)))

  unknown_errors-nil_iff :
      (known : List String) (label : String) (ls : List String)
      → (unknown_errors fmt known label ls ≡ []) ↔ Within known ls
  unfolding unknown_errors
  unknown_errors-nil_iff known label = flat_map-nil_iff _ _ λ l. contains-nil_iff known l _

  port_subset_errors-nil_iff :
      (contract ls : List String) → (port_subset_errors fmt contract ls ≡ []) ↔ Within contract ls
  unfolding port_subset_errors
  port_subset_errors-nil_iff contract = flat_map-nil_iff _ _ λ l. contains-nil_iff contract l _

  empty_key_errors-nil_iff :
      (label : String) (ls : List String) → (empty_key_errors fmt label ls ≡ []) ↔ NonEmpty ls
  unfolding empty_key_errors
  empty_key_errors-nil_iff label =
      flat_map-nil_iff _ _ λ l. ground (arith, when-nil_iff (l == ""), eq_iff l "")

  type_pattern_errors-nil_iff :
      (known : List String) (tps : List TypePattern)
      → (type_pattern_errors fmt known tps ≡ []) ↔ All (λ tp. (tp.dir ≢ "") × In tp.dir known) tps
  unfolding type_pattern_errors
  type_pattern_errors-nil_iff known = flat_map-nil_iff _ _ λ tp. ground (
    arith,
    eq_iff tp.dir "",
    unless-nil_iff (contains known tp.dir)
        ("TypePatterns references unknown layer " ^^ fmt.quote tp.dir),
    contains_iff known tp.dir,
  )

  direction_errors-nil_iff :
      (known : List String) (d : Map (List String))
      → (direction_errors fmt known d ≡ []) ↔ Declared known d
  unfolding direction_errors
  direction_errors-nil_iff known [] = (λ h. tt, λ h. refl)
  direction_errors-nil_iff known ((src, out) ∷ rest) =
      let here = contains-nil_iff known src _ in
      let targets = unknown_errors-nil_iff known ("Direction[" ^^ fmt.quote src ^^ "]") out in
      let later = direction_errors-nil_iff known rest in
      let outer = append-nil_iff (unless (contains known src) _) _ in
      let inner =
        append-nil_iff (unknown_errors fmt known _ out) (direction_errors fmt known rest) in
      (
        λ h.
            let (a, bc) = outer.0 h in
            let (b, c) = inner.0 bc in ((here.0 a, targets.0 b), later.0 c),
        λ ((a, b), c). outer.1 (here.1 a, inner.1 (targets.1 b, later.1 c)),
      )

  cycle_errors-nil_iff :
      (d : Map (List String)) → (cycle_errors fmt (find_direction_cycle d) ≡ []) ↔ IsAcyclic d
  unfolding cycle_errors
  cycle_errors-nil_iff d = elim (find_direction_cycle_decides d) [
    | inl (c, e, is, cyclic) ↦ (λ h. absurd (cc (rw e at h)), λ a. absurd (cyclic a))
    | inr (t, e, acyclic) ↦ (λ h. acyclic, λ a. rw e refl)
  ]

  abbrev Clean : List (List String) → Type 0
  Clean = All (λ es. es ≡ [])

  IsValid-of_passes : (a : Architecture) → Clean (passes fmt a.layers.sublayers a) → IsValid a
  unfolding passes
  IsValid-of_passes a
        (
          sub,
          (key, (dir, (port, (contr, (subset, (restr, (excl, (names, (top, (tps, (cyc, _))))))))))),
        ) =
      let known = a.layers.sublayers in
      let (named, distinct, _) = (sublayer_errors-nil_iff [] known).0 sub in
      record {
        distinct = distinct;
        named = named;
        keyed = (missing_key_errors-nil_iff a.layers.direction known).0 key;
        declared = (direction_errors-nil_iff known a.layers.direction).0 dir;
        ports = (unknown_errors-nil_iff known "PortLayers" _).0 port;
        contracts = (unknown_errors-nil_iff known "ContractLayers" _).0 contr;
        ports_contracts = (port_subset_errors-nil_iff a.layers.contract_layers _).0 subset;
        restricted = (unknown_errors-nil_iff known "PkgRestricted" _).0 restr;
        excluded = (unknown_errors-nil_iff known "InterfacePatternExclude" _).0 excl;
        dir_names = (empty_key_errors-nil_iff "LayerDirNames" _).0 names;
        top_level = (empty_key_errors-nil_iff "InternalTopLevel" _).0 top;
        patterns = (type_pattern_errors-nil_iff known _).0 tps;
        acyclic = (cycle_errors-nil_iff a.layers.direction).0 cyc;
      }

  passes-Clean : (a : Architecture) → IsValid a → Clean (passes fmt a.layers.sublayers a)
  unfolding passes
  passes-Clean a v =
      let known = a.layers.sublayers in
      (
        (sublayer_errors-nil_iff [] known).1
            (v.named, v.distinct, All-of_forall _ known λ l m n. n),
        (
          (missing_key_errors-nil_iff a.layers.direction known).1 v.keyed,
          (
            (direction_errors-nil_iff known a.layers.direction).1 v.declared,
            (
              (unknown_errors-nil_iff known "PortLayers" _).1 v.ports,
              (
                (unknown_errors-nil_iff known "ContractLayers" _).1 v.contracts,
                (
                  (port_subset_errors-nil_iff a.layers.contract_layers _).1 v.ports_contracts,
                  (
                    (unknown_errors-nil_iff known "PkgRestricted" _).1 v.restricted,
                    (
                      (unknown_errors-nil_iff known "InterfacePatternExclude" _).1 v.excluded,
                      (
                        (empty_key_errors-nil_iff "LayerDirNames" _).1 v.dir_names,
                        (
                          (empty_key_errors-nil_iff "InternalTopLevel" _).1 v.top_level,
                          (
                            (type_pattern_errors-nil_iff known _).1 v.patterns,
                            ((cycle_errors-nil_iff a.layers.direction).1 v.acyclic, tt),
                          ),
                        ),
                      ),
                    ),
                  ),
                ),
              ),
            ),
          ),
        ),
      )

  -- The first loop faults an empty name, so without faults `known` holds all sublayers.
  known_layers_of_Clean :
      (known : List String) (a : Architecture)
      → Clean (passes fmt known a)
      → known_layers a.layers.sublayers ≡ a.layers.sublayers
  unfolding passes
  known_layers_of_Clean known a h =
      known_layers_of_NonEmpty a.layers.sublayers ((sublayer_errors-nil_iff [] _).0 h.0).0

  errors-nil_iff : (a : Architecture) → (errors fmt a ≡ []) ↔ IsValid a
  unfolding errors
  errors-nil_iff a =
      let Faultless = λ (known : List String). Clean (passes fmt known a) in
      let all = flat_map-nil_iff (λ es. es) (λ es. es ≡ []) (λ es. (λ e. e, λ e. e)) in
      (
        λ h.
            let clean = (all (passes fmt (known_layers a.layers.sublayers) a)).0 h in
            IsValid-of_passes a (subst Faultless (known_layers_of_Clean _ a clean) clean),
        λ v.
            let clean = passes-Clean a v in
            (all (passes fmt (known_layers a.layers.sublayers) a)).1
              (subst Faultless (sym (known_layers_of_Clean _ a clean)) clean),
      )

  -- `Validate` returns no error exactly for the architectures that are valid: sublayers distinct and
  -- not empty, every sublayer a key of `Direction`, every name that a field mentions a sublayer,
  -- ports among the contracts, no empty key, and no cycle in `Direction`.
  pub validate-none_iff : (a : Architecture) → (validate fmt a ≡ none) ↔ IsValid a
  unfolding validate
  validate-none_iff a =
      (λ h. (errors-nil_iff a).0 (report-none (errors fmt a) h), λ v. rw ((errors-nil_iff a).1 v))
