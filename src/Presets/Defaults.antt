-- ===== src/Presets/Defaults.antt =====
-- presets/preset.go: the values that the presets share.
use go_arch_guard.Prelude.{String, Bool, true, List, [], ◌∷◌, Map}

abbrev pub default_banned_pkg_names : List String
default_banned_pkg_names = "util" ∷ "common" ∷ "misc" ∷ "helper" ∷ "shared" ∷ "services" ∷ []

abbrev pub default_legacy_pkg_names : List String
default_legacy_pkg_names = "router" ∷ "bootstrap" ∷ []

-- a map literal whose values are all `true`
abbrev pub flags : List String → Map Bool
flags [] = []
flags (k ∷ ks) = (k, true) ∷ flags ks

abbrev pub domain_top_level : Map Bool
domain_top_level = ("domain", true) ∷ ("orchestration", true) ∷ ("pkg", true) ∷ []
