-- ===== src/Core/Context.antt =====
-- core/context.go: what a rule sees. `Package` and `Module` hold the fields that the program reads of
-- golang.org/x/tools/go/packages; its loader never gives a nil package, so the list has none.
use go_arch_guard.Prelude.{
  ℕ, String, Bool, ◌&&◌, not, Option, none, some, List, [], ◌∷◌, ◌==◌, any, map, if◌then◌else◌,
}
use go_arch_guard.Core.Architecture.{Architecture, clone_architecture}
use go_arch_guard.Core.Paths.{normalize_match_path, match_exclude_pattern}

pub record Module : Type 0 where
  pub path : String
  pub dir : String

-- An import of a syntax file: the value that `strconv.Unquote` gives for its path, if any, and what
-- `fset.Position` says of it.
pub record ImportSpec : Type 0 where
  pub path : Option String
  pub filename : String
  pub line : ℕ

-- `imports` holds the keys of the map `Imports`, in the order in which a loop meets them.
pub record Package : Type 0 where
  pub pkg_path : String
  pub parent : Option Module
  pub imports : List String
  pub go_files : List String
  pub syntax : List (List ImportSpec)

pub record Context : Type 0 where
  pub pkgs : List Package
  pub module_path : String
  pub root : String
  pub arch : Architecture
  pub exclude : List String

-- the loop of `resolveContextDefaults`, with `module` and `root` as they stand
resolve_loop : List Package → String → String → String × String
resolve_loop [] path root = (path, root)
resolve_loop (pkg ∷ rest) path root = elim pkg.parent [
  | none ↦ resolve_loop rest path root
  | some m ↦
      let path' = if path == "" && not (m.path == "") then m.path else path in
      let root' = if root == "" && not (m.dir == "") then m.dir else root in
      let later = resolve_loop rest path' root' in
      if not (path' == "") && not (root' == "") then (path', root') else later
]

unfoldable pub resolve_context_defaults : List Package → String → String → String × String
unfolding resolve_loop
resolve_context_defaults pkgs path root =
    if not (path == "") && not (root == "") then (path, root) else resolve_loop pkgs path root

unfoldable pub new_context : List Package → String → String → Architecture → List String → Context
unfolding resolve_context_defaults
new_context pkgs path root arch exclude =
    let (path', root') = resolve_context_defaults pkgs path root in
    record {
      pkgs = pkgs;
      module_path = path';
      root = root';
      arch = clone_architecture arch;
      exclude = map normalize_match_path exclude;
    }

-- `ctx.Arch()`
unfoldable pub context_arch : Context → Architecture
unfolding clone_architecture
context_arch ctx = clone_architecture ctx.arch

unfoldable pub is_excluded : Context → String → Bool
is_excluded ctx path =
    let path' = normalize_match_path path in any (λ p. match_exclude_pattern p path') ctx.exclude
