-- ===== src/Core/Validate.antt =====
-- core/architecture_validate.go: `Validate` collects every fault of an architecture; the faults are
-- sorted and joined to one error, and `none` is the error `nil`.
pub mod Cycle
pub mod Laws
use go_arch_guard.Prelude.{
  ◌≡◌, String, Bool, true, false, Option, none, some, List, [], ◌∷◌, ◌++◌, ◌==◌, ◌^^◌, Map, lookup,
  contains, keys, is_some, if◌then◌else◌, flat_map,
}
use go_arch_guard.Prelude.Order.{str_lt}
use go_arch_guard.Prelude.Sort.{sort}
use go_arch_guard.Core.Violation.{Format}
use go_arch_guard.Core.Architecture.{Architecture, TypePattern}
use Cycle.{Outcome, found, explored, out_of_fuel, find_direction_cycle}

-- what the first loop leaves in `known`
unfoldable pub known_layers : List String → List String
known_layers [] = []
known_layers (l ∷ ls) = let rest = known_layers ls in if l == "" then rest else l ∷ rest

-- strings.Join
unfoldable pub join : List String → String → String
join [] separator = ""
join (x ∷ []) separator = x
join (x ∷ y ∷ rest) separator = x ^^ separator ^^ join (y ∷ rest) separator

abbrev pub when : {A : Type 0} → Bool → A → List A
when true e = e ∷ []
when false e = []

abbrev pub unless : {A : Type 0} → Bool → A → List A
unless true e = []
unless false e = e ∷ []

module _ (fmt : Format) where
  -- the first loop: `seen` is `known` before the element
  unfoldable pub sublayer_errors : List String → List String → List String
  sublayer_errors seen [] = []
  sublayer_errors seen (l ∷ ls) =
      if l == ""
      then "Sublayers contains empty-string entry" ∷ sublayer_errors seen ls
      else when (contains seen l) ("Sublayers contains duplicate entry " ^^ fmt.quote l)
        ++ sublayer_errors (l ∷ seen) ls

  unfoldable pub missing_key_errors : Map (List String) → List String → List String
  missing_key_errors direction = flat_map λ l.
      unless (is_some (lookup direction l))
        ("Direction missing key for sublayer " ^^ fmt.quote l ^^ " (silent enforcement hole)")

  -- a loop over the entries of a list, with a fault for each name that is not in `known`
  unfoldable pub unknown_errors : List String → String → List String → List String
  unknown_errors known label =
      flat_map λ l. unless (contains known l) (label ^^ " references unknown layer " ^^ fmt.quote l)

  unfoldable pub direction_errors : List String → Map (List String) → List String
  direction_errors known [] = []
  direction_errors known ((src, targets) ∷ rest) =
      unless (contains known src)
        ("Direction[" ^^ fmt.quote src ^^ "] has unknown source layer (key not in Sublayers)")
      ++ (unknown_errors known ("Direction[" ^^ fmt.quote src ^^ "]") targets
          ++ direction_errors known rest)

  unfoldable pub port_subset_errors : List String → List String → List String
  port_subset_errors contract = flat_map λ l.
      unless (contains contract l)
        ("PortLayers must be a subset of ContractLayers (missing " ^^ fmt.quote l ^^ ")")

  unfoldable pub empty_key_errors : String → List String → List String
  empty_key_errors label = flat_map λ k. when (k == "") (label ^^ " contains empty-string key")

  unfoldable pub type_pattern_errors : List String → List TypePattern → List String
  type_pattern_errors known = flat_map λ tp.
      if tp.dir == ""
      then "TypePatterns entry has empty Dir" ∷ []
      else unless (contains known tp.dir)
          ("TypePatterns references unknown layer " ^^ fmt.quote tp.dir)

  unfoldable pub cycle_errors : Outcome → List String
  cycle_errors (found cycle) = ("Direction contains cycle " ^^ join cycle " -> ") ∷ []
  cycle_errors (explored s) = []
  cycle_errors out_of_fuel = []

  -- what each loop appends to `errs`, in order
  unfoldable pub passes : List String → Architecture → List (List String)
  passes known a =
      sublayer_errors [] a.layers.sublayers
      ∷ missing_key_errors a.layers.direction a.layers.sublayers
      ∷ direction_errors known a.layers.direction
      ∷ unknown_errors known "PortLayers" a.layers.port_layers
      ∷ unknown_errors known "ContractLayers" a.layers.contract_layers
      ∷ port_subset_errors a.layers.contract_layers a.layers.port_layers
      ∷ unknown_errors known "PkgRestricted" (keys a.layers.pkg_restricted)
      ∷ unknown_errors known "InterfacePatternExclude" (keys a.structure.interface_pattern_exclude)
      ∷ empty_key_errors "LayerDirNames" (keys a.layers.layer_dir_names)
      ∷ empty_key_errors "InternalTopLevel" (keys a.layers.internal_top_level)
      ∷ type_pattern_errors known a.structure.type_patterns
      ∷ cycle_errors (find_direction_cycle a.layers.direction)
      ∷ []

  unfoldable pub errors : Architecture → List String
  unfolding passes sublayer_errors missing_key_errors unknown_errors direction_errors
      port_subset_errors empty_key_errors type_pattern_errors cycle_errors known_layers
  errors a = flat_map (λ es. es) (passes (known_layers a.layers.sublayers) a)

  abbrev report : List String → Option String
  report [] = none
  report (e ∷ es) = some ("invalid Architecture: " ^^ join (sort str_lt (e ∷ es)) "; ")

  unfoldable pub validate : Architecture → Option String
  unfolding errors
  validate a = report (errors a)
