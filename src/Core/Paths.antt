-- ===== src/Core/Paths.antt =====
-- core/utils.go and `matchExcludePattern` of core/context.go: paths and exclude patterns.
use Prim.Native.String
use go_arch_guard.Prelude.{
  String, Bool, true, false, not, ◌&&◌, ◌||◌, ◌==◌, ◌^^◌, char_eq, has_prefix, trim_prefix,
  if◌then◌else◌, ltb,
}

-- strings.ReplaceAll(path, "\\", "/")
pub to_slashes : String → String
to_slashes String.[] = String.[]
to_slashes (String.◌∷◌ c s) = String.◌∷◌ (if char_eq c "\\" then "/" else c) (to_slashes s)

-- `for strings.HasPrefix(path, "./") { path = strings.TrimPrefix(path, "./") }`
pub trim_dots : String → String
trim_dots (String.◌∷◌ c (String.◌∷◌ d s)) =
    if char_eq c "." && char_eq d "/" then trim_dots s else String.◌∷◌ c (String.◌∷◌ d s)
trim_dots s = s

-- strings.HasSuffix(s, suffix)
unfoldable pub has_suffix : String → String → Bool
has_suffix String.[] p = String.[] == p
has_suffix (String.◌∷◌ c s) p = String.◌∷◌ c s == p || has_suffix s p

-- strings.TrimSuffix(s, suffix)
unfoldable pub trim_suffix : String → String → String
trim_suffix String.[] p = String.[]
trim_suffix (String.◌∷◌ c s) p =
    if String.◌∷◌ c s == p then String.[] else String.◌∷◌ c (trim_suffix s p)

-- `filepath.ToSlash` changes nothing after `to_slashes`.
unfoldable pub normalize_match_path : String → String
unfolding to_slashes trim_dots has_suffix trim_suffix
normalize_match_path path =
    let path' = trim_dots (trim_prefix (to_slashes path) "/") in
    if has_suffix path' "/" && not (has_suffix path' "...") then trim_suffix path' "/" else path'

abbrev is_nil : String → Bool
is_nil String.[] = true
is_nil (String.◌∷◌ c s) = false

-- strings.TrimRight(s, "/")
unfoldable pub trim_right_slash : String → String
trim_right_slash String.[] = String.[]
trim_right_slash (String.◌∷◌ c s) =
    let rest = trim_right_slash s in
    if char_eq c "/" && is_nil rest then String.[] else String.◌∷◌ c rest

unfoldable pub match_exclude_pattern : String → String → Bool
unfolding has_suffix trim_suffix trim_right_slash
match_exclude_pattern pattern path =
    if ltb 3 (String.len pattern) && has_suffix pattern "..."
    then (let prefix = trim_right_slash (trim_suffix pattern "...") in
        path == prefix || has_prefix path (prefix ^^ "/"))
    else pattern == path
