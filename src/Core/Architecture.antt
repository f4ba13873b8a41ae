-- ===== src/Core/Architecture.antt =====
-- core/architecture.go: the description of a project's layers, layout and naming. Values are copied
-- by nature here, so of `cloneArchitecture` the default of `InternalRoot` is left.
use go_arch_guard.Prelude.{String, Bool, List, Map, if◌then◌else◌, ◌==◌}

pub record LayerModel : Type 0 where
  pub sublayers : List String
  pub direction : Map (List String)
  pub port_layers : List String
  pub contract_layers : List String
  pub pkg_restricted : Map Bool
  pub internal_top_level : Map Bool
  pub layer_dir_names : Map Bool

pub record LayoutModel : Type 0 where
  pub internal_root : String
  pub domain_dir : String
  pub orchestration_dir : String
  pub shared_dir : String
  pub app_dir : String
  pub server_dir : String

pub record NamingPolicy : Type 0 where
  pub banned_pkg_names : List String
  pub legacy_pkg_names : List String
  pub alias_file_name : String

pub record TypePattern : Type 0 where
  pub dir : String
  pub file_prefix : String
  pub type_suffix : String
  pub require_method : String

pub record StructurePolicy : Type 0 where
  pub require_alias : Bool
  pub require_model : Bool
  pub model_path : String
  pub type_patterns : List TypePattern
  pub interface_pattern_exclude : Map Bool

pub record Architecture : Type 0 where
  pub layers : LayerModel
  pub layout : LayoutModel
  pub naming : NamingPolicy
  pub structure : StructurePolicy

unfoldable pub clone_architecture : Architecture → Architecture
clone_architecture a = record a {
  layout = record a.layout {
    internal_root = if a.layout.internal_root == "" then "internal" else a.layout.internal_root;
  };
}
