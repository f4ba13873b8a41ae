-- ===== src/Presets/Domains.antt =====
-- presets/ddd.go, cleanarch.go, layered.go, hexagonal.go, modular_monolith.go: the architectures, as they stand before `Validate`.
use go_arch_guard.Prelude.{true, false, [], ◌∷◌}
use go_arch_guard.Core.Architecture.{Architecture}
use go_arch_guard.Presets.Defaults.{
  default_banned_pkg_names, default_legacy_pkg_names, domain_top_level, flags,
}

unfoldable pub ddd_architecture : Architecture
ddd_architecture = record {
  layers = record {
    sublayers =
        ("handler" ∷ "app" ∷ "core" ∷ "core/model" ∷ "core/repo" ∷ "core/svc" ∷ "event" ∷ "infra"
          ∷ []);
    direction =
        ("handler", ("app" ∷ []))
        ∷ ("app", ("core/model" ∷ "core/repo" ∷ "core/svc" ∷ "event" ∷ []))
        ∷ ("core", ("core/model" ∷ []))
        ∷ ("core/model", [])
        ∷ ("core/repo", ("core/model" ∷ []))
        ∷ ("core/svc", ("core/model" ∷ []))
        ∷ ("event", ("core/model" ∷ []))
        ∷ ("infra", ("core/repo" ∷ "core/model" ∷ "event" ∷ []))
        ∷ [];
    port_layers = ("core/repo" ∷ []);
    contract_layers = ("core/repo" ∷ "core/svc" ∷ []);
    pkg_restricted = flags ("core" ∷ "core/model" ∷ "core/repo" ∷ "core/svc" ∷ "event" ∷ []);
    internal_top_level = flags ("domain" ∷ "orchestration" ∷ "pkg" ∷ "app" ∷ "server" ∷ []);
    layer_dir_names = flags (
        "handler" ∷ "app" ∷ "core" ∷ "model" ∷ "repo" ∷ "svc" ∷ "event" ∷ "infra" ∷ "service"
        ∷ "controller" ∷ "entity" ∷ "store" ∷ "persistence" ∷ "domain" ∷ []);
  };
  layout = record {
    internal_root = "";
    domain_dir = "domain";
    orchestration_dir = "orchestration";
    shared_dir = "pkg";
    app_dir = "app";
    server_dir = "server";
  };
  naming = record {
    banned_pkg_names = default_banned_pkg_names;
    legacy_pkg_names = default_legacy_pkg_names;
    alias_file_name = "alias.go";
  };
  structure = record {
    require_alias = true;
    require_model = true;
    model_path = "core/model";
    type_patterns = [];
    interface_pattern_exclude =
        flags ("handler" ∷ "app" ∷ "core/model" ∷ "core/repo" ∷ "event" ∷ []);
  };
}

unfoldable pub cleanarch_architecture : Architecture
cleanarch_architecture = record {
  layers = record {
    sublayers = ("handler" ∷ "usecase" ∷ "entity" ∷ "gateway" ∷ "infra" ∷ []);
    direction =
        ("handler", ("usecase" ∷ []))
        ∷ ("usecase", ("entity" ∷ "gateway" ∷ []))
        ∷ ("entity", [])
        ∷ ("gateway", ("entity" ∷ []))
        ∷ ("infra", ("gateway" ∷ "entity" ∷ []))
        ∷ [];
    port_layers = ("gateway" ∷ []);
    contract_layers = ("gateway" ∷ []);
    pkg_restricted = flags ("entity" ∷ []);
    internal_top_level = domain_top_level;
    layer_dir_names = flags (
        "handler" ∷ "usecase" ∷ "entity" ∷ "gateway" ∷ "infra" ∷ "service" ∷ "controller" ∷ "store"
        ∷ "persistence" ∷ "domain" ∷ []);
  };
  layout = record {
    internal_root = "";
    domain_dir = "domain";
    orchestration_dir = "orchestration";
    shared_dir = "pkg";
    app_dir = "";
    server_dir = "";
  };
  naming = record {
    banned_pkg_names = default_banned_pkg_names;
    legacy_pkg_names = default_legacy_pkg_names;
    alias_file_name = "alias.go";
  };
  structure = record {
    require_alias = false;
    require_model = false;
    model_path = "entity";
    type_patterns = [];
    interface_pattern_exclude = flags ("handler" ∷ "entity" ∷ []);
  };
}

unfoldable pub layered_architecture : Architecture
layered_architecture = record {
  layers = record {
    sublayers = ("handler" ∷ "service" ∷ "repository" ∷ "model" ∷ []);
    direction =
        ("handler", ("service" ∷ []))
        ∷ ("service", ("repository" ∷ "model" ∷ []))
        ∷ ("repository", ("model" ∷ []))
        ∷ ("model", [])
        ∷ [];
    port_layers = [];
    contract_layers = [];
    pkg_restricted = flags ("model" ∷ []);
    internal_top_level = domain_top_level;
    layer_dir_names = flags (
        "handler" ∷ "service" ∷ "repository" ∷ "model" ∷ "controller" ∷ "entity" ∷ "store"
        ∷ "persistence" ∷ "domain" ∷ []);
  };
  layout = record {
    internal_root = "";
    domain_dir = "domain";
    orchestration_dir = "orchestration";
    shared_dir = "pkg";
    app_dir = "";
    server_dir = "";
  };
  naming = record {
    banned_pkg_names = default_banned_pkg_names;
    legacy_pkg_names = default_legacy_pkg_names;
    alias_file_name = "alias.go";
  };
  structure = record {
    require_alias = false;
    require_model = false;
    model_path = "model";
    type_patterns = [];
    interface_pattern_exclude = flags ("handler" ∷ "model" ∷ []);
  };
}

unfoldable pub hexagonal_architecture : Architecture
hexagonal_architecture = record {
  layers = record {
    sublayers = ("handler" ∷ "usecase" ∷ "port" ∷ "domain" ∷ "adapter" ∷ []);
    direction =
        ("handler", ("usecase" ∷ []))
        ∷ ("usecase", ("port" ∷ "domain" ∷ []))
        ∷ ("port", ("domain" ∷ []))
        ∷ ("domain", [])
        ∷ ("adapter", ("port" ∷ "domain" ∷ []))
        ∷ [];
    port_layers = ("port" ∷ []);
    contract_layers = ("port" ∷ []);
    pkg_restricted = flags ("domain" ∷ []);
    internal_top_level = domain_top_level;
    layer_dir_names = flags (
        "handler" ∷ "usecase" ∷ "port" ∷ "domain" ∷ "adapter" ∷ "controller" ∷ "service" ∷ "entity"
        ∷ "store" ∷ "persistence" ∷ []);
  };
  layout = record {
    internal_root = "";
    domain_dir = "domain";
    orchestration_dir = "orchestration";
    shared_dir = "pkg";
    app_dir = "";
    server_dir = "";
  };
  naming = record {
    banned_pkg_names = default_banned_pkg_names;
    legacy_pkg_names = default_legacy_pkg_names;
    alias_file_name = "alias.go";
  };
  structure = record {
    require_alias = false;
    require_model = false;
    model_path = "domain";
    type_patterns = [];
    interface_pattern_exclude = flags ("handler" ∷ "domain" ∷ []);
  };
}

unfoldable pub modular_monolith_architecture : Architecture
modular_monolith_architecture = record {
  layers = record {
    sublayers = ("api" ∷ "application" ∷ "core" ∷ "infrastructure" ∷ []);
    direction =
        ("api", ("application" ∷ []))
        ∷ ("application", ("core" ∷ []))
        ∷ ("core", [])
        ∷ ("infrastructure", ("core" ∷ []))
        ∷ [];
    port_layers = [];
    contract_layers = [];
    pkg_restricted = flags ("core" ∷ []);
    internal_top_level = domain_top_level;
    layer_dir_names = flags (
        "api" ∷ "application" ∷ "core" ∷ "infrastructure" ∷ "controller" ∷ "service" ∷ "entity"
        ∷ "store" ∷ "persistence" ∷ []);
  };
  layout = record {
    internal_root = "";
    domain_dir = "domain";
    orchestration_dir = "orchestration";
    shared_dir = "pkg";
    app_dir = "";
    server_dir = "";
  };
  naming = record {
    banned_pkg_names = default_banned_pkg_names;
    legacy_pkg_names = default_legacy_pkg_names;
    alias_file_name = "alias.go";
  };
  structure = record {
    require_alias = false;
    require_model = false;
    model_path = "core";
    type_patterns = [];
    interface_pattern_exclude = flags ("api" ∷ "core" ∷ []);
  };
}
