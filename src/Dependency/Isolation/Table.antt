-- ===== src/Dependency/Isolation/Table.antt =====
-- Which imports between internal packages the rule `dependency.isolation` reports, as a table over the
-- code's cases. Dependency/Isolation/Matrix compares it with the import matrix of README.md.
use go_arch_guard.Prelude.{
  String, Bool, not, ◌&&◌, List, [], ◌∷◌, ◌==◌, map, ◌≡◌, refl, if◌then◌else◌, arith,
}
use go_arch_guard.Core.Violation.{Severity}
use go_arch_guard.Core.Architecture.{Architecture}
use go_arch_guard.Core.Context.{Package}
use go_arch_guard.Analysis.Packages.{Host}
use go_arch_guard.Dependency.Classify.{
  InternalKind, kind_domain, kind_orchestration, kind_shared, kind_domain_root, kind_cmd,
  kind_unclassified, kind_app, kind_transport, Classified,
}
use go_arch_guard.Dependency.Isolation.Import.{
  check_internal_import, check_transport_import, check_shared_import,
  check_orchestration_deep_import, check_orchestration_dependent, is_domain_kind, is_same_domain,
  is_cross_domain, cross_domain_violation, stray_domain_violation,
}

-- from a domain to a domain, by their names: both are set and they differ
abbrev pub between_domains : String → String → List String
between_domains a b =
    if not (a == "") && not (b == "") && not (a == b) then "dependency.cross-domain" ∷ [] else []

abbrev pub from_domain : String → String → InternalKind → List String
from_domain a b kind_domain = between_domains a b
from_domain a b kind_domain_root = between_domains a b
from_domain a b kind_orchestration = "dependency.domain-imports-orchestration" ∷ []
from_domain a b kind_app = "dependency.domain-imports-composition" ∷ []
from_domain a b kind_transport = "dependency.domain-imports-composition" ∷ []
from_domain a b _ = []

abbrev pub from_transport : InternalKind → List String
from_transport kind_domain = "dependency.transport-imports-domain" ∷ []
from_transport kind_domain_root = "dependency.transport-imports-domain" ∷ []
from_transport kind_orchestration = "dependency.transport-imports-orchestration" ∷ []
from_transport kind_unclassified = "dependency.transport-imports-unclassified" ∷ []
from_transport _ = []

abbrev pub from_shared : InternalKind → List String
from_shared kind_domain = "dependency.pkg-imports-domain" ∷ []
from_shared kind_domain_root = "dependency.pkg-imports-domain" ∷ []
from_shared kind_orchestration = "dependency.pkg-imports-orchestration" ∷ []
from_shared _ = []

-- only the subpackages of a domain are closed to orchestration, where aliases are required
abbrev pub from_orchestration : Bool → InternalKind → List String
from_orchestration alias kind_domain =
    if alias then "dependency.orchestration-deep-import" ∷ [] else []
from_orchestration alias _ = []

abbrev pub from_unclassified : InternalKind → List String
from_unclassified kind_domain = "dependency.stray-imports-domain" ∷ []
from_unclassified kind_domain_root = "dependency.stray-imports-domain" ∷ []
from_unclassified kind_orchestration = "dependency.stray-imports-orchestration" ∷ []
from_unclassified _ = []

-- app and cmd, which the loop over the packages leaves out before
abbrev pub from_outside : InternalKind → List String
from_outside kind_orchestration = "dependency.stray-imports-orchestration" ∷ []
from_outside _ = []

-- the IDs that the code reports for an import; README.md marks four of the empty cells "No"
abbrev pub broken : Bool → InternalKind → String → InternalKind → String → List String
broken alias kind_domain a kind b = from_domain a b kind
broken alias kind_domain_root a kind b = from_domain a b kind
broken alias kind_transport a kind b = from_transport kind
broken alias kind_shared a kind b = from_shared kind
broken alias kind_orchestration a kind b = from_orchestration alias kind
broken alias kind_unclassified a kind b = from_unclassified kind
broken alias kind_app a kind b = from_outside kind
broken alias kind_cmd a kind b = from_outside kind

module _ (host : Host) (severity : Severity) (pkg : Package) (arch : Architecture)
    (path root prefix : String) where
  abbrev rules : InternalKind → String → String → InternalKind → String → String → List String
  rules k a s k' b t =
      map (λ v. v.rule)
        (check_internal_import host severity pkg (record { kind = k; domain = a; sublayer = s })
          (record { kind = k'; domain = b; sublayer = t }) path arch root prefix)

  rules-from_transport :
      (a s b t : String) → (k : InternalKind) → rules kind_transport a s k b t ≡ from_transport k
  unfolding check_internal_import check_transport_import is_domain_kind
  rules-from_transport a s b t k =
      elim k as (λ k. rules kind_transport a s k b t ≡ from_transport k) [
        | kind_domain ↦ refl
        | kind_domain_root ↦ refl
        | _ ↦ refl
      ]

  rules-from_shared :
      (a s b t : String) → (k : InternalKind) → rules kind_shared a s k b t ≡ from_shared k
  unfolding check_internal_import check_shared_import is_domain_kind check_orchestration_dependent
      is_same_domain is_cross_domain
  rules-from_shared a s b t k = elim k as (λ k. rules kind_shared a s k b t ≡ from_shared k) [
    | kind_domain ↦ refl
    | kind_domain_root ↦ refl
    | _ ↦ refl
  ]

  rules-from_unclassified :
      (a s b t : String)
      → (k : InternalKind) → rules kind_unclassified a s k b t ≡ from_unclassified k
  unfolding check_internal_import is_domain_kind check_orchestration_dependent is_same_domain
      is_cross_domain stray_domain_violation
  rules-from_unclassified a s b t k =
      elim k as (λ k. rules kind_unclassified a s k b t ≡ from_unclassified k) [
        | kind_domain ↦ refl
        | _ ↦ refl
      ]

  rules-from_app :
      (a s b t : String) → (k : InternalKind) → rules kind_app a s k b t ≡ from_outside k
  unfolding check_internal_import is_domain_kind check_orchestration_dependent is_same_domain
      is_cross_domain
  rules-from_app a s b t k = elim k as (λ k. rules kind_app a s k b t ≡ from_outside k) [
    | kind_domain ↦ refl
    | _ ↦ refl
  ]

  rules-from_cmd :
      (a s b t : String) → (k : InternalKind) → rules kind_cmd a s k b t ≡ from_outside k
  unfolding check_internal_import is_domain_kind check_orchestration_dependent is_same_domain
      is_cross_domain
  rules-from_cmd a s b t k = elim k as (λ k. rules kind_cmd a s k b t ≡ from_outside k) [
    | kind_domain ↦ refl
    | _ ↦ refl
  ]

  rules-from_orchestration :
      (a s b t : String)
      → (k : InternalKind)
      → rules kind_orchestration a s k b t ≡ from_orchestration arch.structure.require_alias k
  unfolding check_internal_import check_orchestration_deep_import is_domain_kind is_same_domain
  rules-from_orchestration a s b t k =
      elim k
        as (λ k.
          rules kind_orchestration a s k b t ≡ from_orchestration arch.structure.require_alias k) [
            | kind_domain ↦ ground arith
            | _ ↦ refl
          ]

  rules-from_domain :
      (a s b t : String) → (k : InternalKind) → rules kind_domain a s k b t ≡ from_domain a b k
  unfolding check_internal_import is_domain_kind check_orchestration_dependent is_same_domain
      is_cross_domain cross_domain_violation
  rules-from_domain a s b t k = elim k as (λ k. rules kind_domain a s k b t ≡ from_domain a b k) [
    | kind_domain ↦ ground arith
    | kind_domain_root ↦ ground arith
    | _ ↦ refl
  ]

  rules-from_domain_root :
      (a s b t : String) → (k : InternalKind) → rules kind_domain_root a s k b t ≡ from_domain a b k
  unfolding check_internal_import is_domain_kind check_orchestration_dependent is_same_domain
      is_cross_domain cross_domain_violation
  rules-from_domain_root a s b t k =
      elim k as (λ k. rules kind_domain_root a s k b t ≡ from_domain a b k) [
        | kind_domain ↦ ground arith
        | kind_domain_root ↦ ground arith
        | _ ↦ refl
      ]

  -- The rules of the violations that `check_internal_import` reports for an import are those that the
  -- table `broken` lists for the kinds of its two ends and the names of their domains, for every
  -- source and import, with the aliases required or not. The table is that of the code's checks: it
  -- has no entry for an import of app or transport by orchestration or a shared package, which
  -- README.md's import matrix forbids.
  pub check_internal_import-reports :
      (src imp : Classified)
      → map (λ v. v.rule) (check_internal_import host severity pkg src imp path arch root prefix)
        ≡ broken arch.structure.require_alias src.kind src.domain imp.kind imp.domain
  check_internal_import-reports src imp =
      elim src.kind
        as (λ k.
          rules k src.domain src.sublayer imp.kind imp.domain imp.sublayer
          ≡ broken arch.structure.require_alias k src.domain imp.kind imp.domain) [
            | kind_domain ↦
                rules-from_domain src.domain src.sublayer imp.domain imp.sublayer imp.kind
            | kind_orchestration ↦
                rules-from_orchestration src.domain src.sublayer imp.domain imp.sublayer imp.kind
            | kind_shared ↦
                rules-from_shared src.domain src.sublayer imp.domain imp.sublayer imp.kind
            | kind_domain_root ↦
                rules-from_domain_root src.domain src.sublayer imp.domain imp.sublayer imp.kind
            | kind_cmd ↦ rules-from_cmd src.domain src.sublayer imp.domain imp.sublayer imp.kind
            | kind_unclassified ↦
                rules-from_unclassified src.domain src.sublayer imp.domain imp.sublayer imp.kind
            | kind_app ↦ rules-from_app src.domain src.sublayer imp.domain imp.sublayer imp.kind
            | kind_transport ↦
                rules-from_transport src.domain src.sublayer imp.domain imp.sublayer imp.kind
          ]
