-- ===== src/Dependency/Isolation/Matrix.antt =====
-- The import matrix of README.md ("Isolation Rules") against what the rule `dependency.isolation`
-- reports for one import. The rows for cmd and app belong to the loop over the packages.
use go_arch_guard.Prelude.{String, Bool, true, false, Option, none, some, [], ◌==◌, ◌≡◌, ◌↔◌, ◌⊎◌}
use go_arch_guard.Core.Architecture.{Architecture}
use go_arch_guard.Dependency.Classify.{
  InternalKind, kind_domain, kind_orchestration, kind_shared, kind_domain_root, kind_app,
  kind_transport,
}
use go_arch_guard.Dependency.Isolation.Table.{broken}

-- a row of the matrix: from the domain root to transport
pub record Row : Type 0 where
  pub domain_root : Bool
  pub domain_sub_pkg : Bool
  pub orchestration : Bool
  pub shared_pkg : Bool
  pub app : Bool
  pub transport : Bool

abbrev pub row : Bool → Bool → Bool → Bool → Bool → Bool → Row
row a b c d e f = record {
  domain_root = a;
  domain_sub_pkg = b;
  orchestration = c;
  shared_pkg = d;
  app = e;
  transport = f;
}

-- the column of a kind of package; an unclassified package and cmd have none
abbrev pub column : Row → InternalKind → Option Bool
column r kind_domain_root = some r.domain_root
column r kind_domain = some r.domain_sub_pkg
column r kind_orchestration = some r.orchestration
column r kind_shared = some r.shared_pkg
column r kind_app = some r.app
column r kind_transport = some r.transport
column r _ = none

abbrev pub domain_row : Bool → Row
domain_row true = row true true false true false false
domain_row false = row false false false true false false

-- the matrix: from a kind of package, within one domain or not, to a kind of package
abbrev pub matrix : InternalKind → Bool → InternalKind → Option Bool
matrix kind_domain same k = column (domain_row same) k
matrix kind_domain_root same k = column (domain_row same) k
matrix kind_orchestration same k = column (row true false true true false false) k
matrix kind_shared same k = column (row false false false true false false) k
matrix kind_transport same k = column (row false false false true true true) k
matrix _ same k = none

-- the cells marked "No" that the rule has no check for
abbrev pub is_unchecked : InternalKind → InternalKind → Bool
is_unchecked kind_orchestration kind_app = true
is_unchecked kind_orchestration kind_transport = true
is_unchecked kind_shared kind_app = true
is_unchecked kind_shared kind_transport = true
is_unchecked _ _ = false

-- The table has no rule against an import that the matrix allows, and one against each that the matrix
-- forbids and that is not unchecked.
abbrev Agrees : InternalKind → String → InternalKind → String → Type 0
Agrees k a k' b =
    (allowed : Bool)
    → matrix k (a == b) k' ≡ some allowed
    → (broken true k a k' b ≡ []) ↔ ((allowed ≡ true) ⊎ (is_unchecked k k' ≡ true))

-- a domain package has a domain
abbrev pub IsNamed : InternalKind → String → Type 0
IsNamed kind_domain a = (a == "") ≡ false
IsNamed kind_domain_root a = (a == "") ≡ false
IsNamed _ a = Unit
