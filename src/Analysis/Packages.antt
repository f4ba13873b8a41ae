-- ===== src/Analysis/Packages.antt =====
-- core/analysisutil/path.go: modules, roots and positions of packages.
use go_arch_guard.Prelude.{
  ℕ, String, not, Option, none, some, List, [], ◌∷◌, ◌==◌, ◌^^◌, cut_prefix, if◌then◌else◌,
}
use go_arch_guard.Core.Violation.{Format}
use go_arch_guard.Core.Context.{Module, ImportSpec, Package, Context}

-- What the host gives: the verbs of `fmt`, `filepath.Abs` (it asks for the working directory),
-- `filepath.Rel` and `filepath.ToSlash`.
pub record Host : Type 0 where
  pub format : Format
  pub abs : String → Option String
  pub rel : String → String → Option String
  pub to_slash : String → String

module _ (host : Host) where
  unfoldable pub rel_path_from_root : String → String → String
  rel_path_from_root root filename = elim (host.abs root) [
    | none ↦ filename
    | some abs_root ↦ elim (host.rel abs_root filename) [
      | none ↦ filename
      | some r ↦ host.to_slash r
    ]
  ]

  -- the loop over the imports of one file, and then the files after it
  unfoldable pub find_import : List ImportSpec → String → Option ImportSpec
  find_import [] path = none
  find_import (imp ∷ rest) path =
      let later = find_import rest path in
      elim imp.path [ none ↦ later | some p ↦ if p == path then some imp else later ]

  unfoldable pub find_in_files : List (List ImportSpec) → String → Option ImportSpec
  unfolding find_import
  find_in_files [] path = none
  find_in_files (file ∷ files) path =
      let later = find_in_files files path in
      elim (find_import file path) [ none ↦ later | some imp ↦ some imp ]

  unfoldable pub first_file : List String → Package → String → String × ℕ
  first_file [] pkg root = (pkg.pkg_path, 0)
  first_file (f ∷ fs) pkg root = (rel_path_from_root root f, 0)

  unfoldable pub find_import_position : Package → String → String → String × ℕ
  unfolding find_in_files rel_path_from_root first_file
  find_import_position pkg path root = elim (find_in_files pkg.syntax path) [
    | some imp ↦ (rel_path_from_root root imp.filename, imp.line)
    | none ↦ first_file pkg.go_files pkg root
  ]

  unfoldable pub relative_path_for_package : Package → String → String
  relative_path_for_package pkg path = elim pkg.parent [
    | none ↦ host.to_slash path
    | some m ↦
        if m.dir == ""
        then host.to_slash path
        else elim (host.rel m.dir path) [ none ↦ host.to_slash path | some r ↦ host.to_slash r ]
  ]

-- the loops of `ResolveModule` and `ResolveRoot`
unfoldable pub first_module_field : (Module → String) → List Package → String
first_module_field field [] = ""
first_module_field field (pkg ∷ rest) =
    let later = first_module_field field rest in
    elim pkg.parent [ none ↦ later | some m ↦ if field m == "" then later else field m ]

unfoldable pub resolve_module : List Package → String → String
unfolding first_module_field
resolve_module pkgs explicit =
    if not (explicit == "") then explicit else first_module_field (λ m. m.path) pkgs

unfoldable pub resolve_root : List Package → String → String
unfolding first_module_field
resolve_root pkgs explicit =
    if not (explicit == "") then explicit else first_module_field (λ m. m.dir) pkgs

unfoldable pub first_non_empty : String → String → String
first_non_empty a b = if not (a == "") then a else b

-- The context is never nil here.
unfoldable pub resolve_module_from_context : Context → String → String
unfolding first_non_empty resolve_module
resolve_module_from_context ctx explicit =
    let m = first_non_empty explicit ctx.module_path in
    if not (m == "") then m else resolve_module ctx.pkgs ""

unfoldable pub resolve_root_from_context : Context → String → String
unfolding first_non_empty resolve_root
resolve_root_from_context ctx explicit =
    let r = first_non_empty explicit ctx.root in
    if not (r == "") then r else resolve_root ctx.pkgs ""

abbrev or_empty : Option String → String
or_empty none = ""
or_empty (some s) = s

unfoldable pub project_relative_package_path : String → String → String
unfolding cut_prefix
project_relative_package_path pkg_path project_module =
    if pkg_path == ""
    then ""
    else if project_module == ""
    then ""
    else if pkg_path == project_module
    then "."
    else or_empty (cut_prefix (project_module ^^ "/") pkg_path)
