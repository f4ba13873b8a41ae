-- ===== src/Naming/Files.antt =====
-- rules/naming: the loop over the files of the packages, each once, as snake_case_files.go and
-- no_layer_suffix.go both write it out; filepath.Base and filepath.Ext.

use go_arch_guard.Prelude.{
  String, ◌&&◌, Option, List, [], ◌∷◌, ◌==◌, char_eq, contains, flat_map, map, filter_map,
  if◌then◌else◌,
}
use go_arch_guard.Prelude.Split.{split_slash}
use go_arch_guard.Core.Violation.{Violation}
use go_arch_guard.Core.Paths.{trim_right_slash}
use go_arch_guard.Core.Context.{Package}

abbrev last_segment : List String → String
last_segment [] = ""
last_segment (s ∷ []) = s
last_segment (s ∷ t ∷ rest) = last_segment (t ∷ rest)

-- filepath.Base(path)
unfoldable pub base : String → String
unfolding trim_right_slash split_slash
base path =
    if path == ""
    then "."
    else if trim_right_slash path == ""
    then "/"
    else last_segment (split_slash (trim_right_slash path))

-- filepath.Ext(name), of a name without slashes
unfoldable pub ext : String → String
ext String.[] = ""
ext (String.◌∷◌ c s) =
    let rest = ext s in if rest == "" && char_eq c "." then String.◌∷◌ c s else rest

abbrev pub pairs : List Package → List (Package × String)
pairs pkgs = flat_map (λ pkg. map (λ file. (pkg, file)) pkg.go_files) pkgs

-- what `seen` lets through
unfoldable pub unseen : List String → List (Package × String) → List (Package × String)
unfolding contains
unseen seen [] = []
unseen seen ((pkg, file) ∷ rest) =
    if contains seen file then unseen seen rest else (pkg, file) ∷ unseen (file ∷ seen) rest

unfoldable pub each_file : (Package → String → Option Violation) → List Package → List Violation
unfolding unseen flat_map filter_map
each_file f pkgs = filter_map (λ p. f p.0 p.1) (unseen [] (pairs pkgs))
