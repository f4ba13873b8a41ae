-- ===== src/Analysis/Sublayer.antt =====
-- core/analysisutil/sublayer.go: ports, contracts, and the sublayer that a path lies in.

use go_arch_guard.Prelude.{
  String, Bool, true, false, ◌&&◌, ◌||◌, List, [], ◌∷◌, ◌==◌, contains, any, is_nil, if◌then◌else◌,
  not,
}
use go_arch_guard.Prelude.Split.{split_slash}
use go_arch_guard.Core.Architecture.{LayerModel, LayoutModel}

unfoldable pub is_known_sublayer : LayerModel → String → Bool
is_known_sublayer layers name = contains layers.sublayers name

last_of : String → List String → String
last_of x [] = x
last_of x (y ∷ ys) = last_of y ys

-- `name[strings.LastIndex(name, "/")+1:]`
base_of : List String → String
unfolding last_of
base_of [] = ""
base_of (x ∷ xs) = last_of x xs

abbrev base_name : String → String
base_name name = base_of (split_slash name)

unfoldable pub is_port_sublayer : LayerModel → String → Bool
unfolding base_of
is_port_sublayer layers name =
    if not (is_nil layers.port_layers)
    then contains layers.port_layers name
    else base_name name == "repo" || base_name name == "gateway"

unfoldable pub is_contract_sublayer : LayerModel → String → Bool
unfolding is_port_sublayer
is_contract_sublayer layers name =
    if not (is_nil layers.contract_layers) || not (is_nil layers.port_layers)
    then contains layers.contract_layers name || contains layers.port_layers name
    else is_port_sublayer layers name || base_name name == "svc"

unfoldable pub has_port_sublayer : LayerModel → Bool
unfolding is_port_sublayer
has_port_sublayer layers = any (is_port_sublayer layers) layers.sublayers

-- the loop over the parts of the sublayer, from `relParts[1]` on
starts_with_parts : List String → List String → Bool
starts_with_parts parts [] = true
starts_with_parts [] (want ∷ wants) = false
starts_with_parts (p ∷ parts) (want ∷ wants) = p == want && starts_with_parts parts wants

-- the test on the lengths is the second clause of `starts_with_parts`
matches_sublayer_parts : List String → String → Bool
unfolding starts_with_parts
matches_sublayer_parts [] sublayer = false
matches_sublayer_parts (domain ∷ parts) sublayer = starts_with_parts parts (split_slash sublayer)

-- the loop over `i`, which needs two parts and one more
boundary_loop : String → String → List String → String → Bool
unfolding matches_sublayer_parts
boundary_loop root dir (a ∷ b ∷ c ∷ rest) sublayer =
    a == root && b == dir && matches_sublayer_parts (c ∷ rest) sublayer
    || boundary_loop root dir (b ∷ c ∷ rest) sublayer
boundary_loop root dir _ sublayer = false

unfoldable pub matches_sublayer_boundary : LayoutModel → String → String → Bool
unfolding boundary_loop
matches_sublayer_boundary layout pkg_path sublayer =
    let root = if layout.internal_root == "" then "internal" else layout.internal_root in
    let dir = if layout.domain_dir == "" then "domain" else layout.domain_dir in
    boundary_loop root dir (split_slash pkg_path) sublayer

-- the loop over `Sublayers`: the first that passes both tests, or ""
first_match : (String → Bool) → (String → Bool) → List String → String
first_match kind boundary [] = ""
first_match kind boundary (sl ∷ rest) =
    let later = first_match kind boundary rest in
    if not (kind sl) then later else if boundary sl then sl else later

unfoldable pub match_port_sublayer_in_layout : LayerModel → LayoutModel → String → String
unfolding first_match
match_port_sublayer_in_layout layers layout pkg_path =
    first_match (is_port_sublayer layers) (matches_sublayer_boundary layout pkg_path)
      layers.sublayers

unfoldable pub match_contract_sublayer_in_layout : LayerModel → LayoutModel → String → String
unfolding first_match
match_contract_sublayer_in_layout layers layout pkg_path =
    first_match (is_contract_sublayer layers) (matches_sublayer_boundary layout pkg_path)
      layers.sublayers

abbrev default_layout : LayoutModel
default_layout = record {
  internal_root = "internal";
  domain_dir = "domain";
  orchestration_dir = "";
  shared_dir = "";
  app_dir = "";
  server_dir = "";
}

unfoldable pub match_port_sublayer : LayerModel → String → String
match_port_sublayer layers pkg_path = match_port_sublayer_in_layout layers default_layout pkg_path

unfoldable pub match_contract_sublayer : LayerModel → String → String
match_contract_sublayer layers pkg_path =
    match_contract_sublayer_in_layout layers default_layout pkg_path

first_port : (String → Bool) → List String → String
first_port kind [] = "core/repo"
first_port kind (sl ∷ rest) = if kind sl then sl else first_port kind rest

unfoldable pub port_sublayer_name : LayerModel → String
unfolding first_port
port_sublayer_name layers = first_port (is_port_sublayer layers) layers.sublayers
