-- ===== src/Presets/Flat.antt =====
-- presets/consumer_worker.go, batch.go, event_pipeline.go: the architectures, as they stand before `Validate`.
use go_arch_guard.Prelude.{false, [], ◌∷◌}
use go_arch_guard.Core.Architecture.{Architecture}
use go_arch_guard.Presets.Defaults.{default_banned_pkg_names, default_legacy_pkg_names, flags}

unfoldable pub consumer_worker_architecture : Architecture
consumer_worker_architecture = record {
  layers = record {
    sublayers = ("worker" ∷ "service" ∷ "store" ∷ "model" ∷ []);
    direction =
        ("worker", ("service" ∷ "model" ∷ []))
        ∷ ("service", ("store" ∷ "model" ∷ []))
        ∷ ("store", ("model" ∷ []))
        ∷ ("model", [])
        ∷ [];
    port_layers = [];
    contract_layers = [];
    pkg_restricted = flags ("model" ∷ []);
    internal_top_level = flags ("worker" ∷ "service" ∷ "store" ∷ "model" ∷ "pkg" ∷ []);
    layer_dir_names = flags ("worker" ∷ "service" ∷ "store" ∷ "model" ∷ []);
  };
  layout = record {
    internal_root = "";
    domain_dir = "";
    orchestration_dir = "";
    shared_dir = "pkg";
    app_dir = "";
    server_dir = "";
  };
  naming = record {
    banned_pkg_names = default_banned_pkg_names;
    legacy_pkg_names = default_legacy_pkg_names;
    alias_file_name = "";
  };
  structure = record {
    require_alias = false;
    require_model = false;
    model_path = "model";
    type_patterns =
        (record {
          dir = "worker";
          file_prefix = "worker";
          type_suffix = "Worker";
          require_method = "Process";
        }
          ∷ []);
    interface_pattern_exclude = flags ("model" ∷ "worker" ∷ []);
  };
}

unfoldable pub batch_architecture : Architecture
batch_architecture = record {
  layers = record {
    sublayers = ("job" ∷ "service" ∷ "store" ∷ "model" ∷ []);
    direction =
        ("job", ("service" ∷ "model" ∷ []))
        ∷ ("service", ("store" ∷ "model" ∷ []))
        ∷ ("store", ("model" ∷ []))
        ∷ ("model", [])
        ∷ [];
    port_layers = [];
    contract_layers = [];
    pkg_restricted = flags ("model" ∷ []);
    internal_top_level = flags ("job" ∷ "service" ∷ "store" ∷ "model" ∷ "pkg" ∷ []);
    layer_dir_names = flags ("job" ∷ "service" ∷ "store" ∷ "model" ∷ []);
  };
  layout = record {
    internal_root = "";
    domain_dir = "";
    orchestration_dir = "";
    shared_dir = "pkg";
    app_dir = "";
    server_dir = "";
  };
  naming = record {
    banned_pkg_names = default_banned_pkg_names;
    legacy_pkg_names = default_legacy_pkg_names;
    alias_file_name = "";
  };
  structure = record {
    require_alias = false;
    require_model = false;
    model_path = "model";
    type_patterns =
        (record { dir = "job"; file_prefix = "job"; type_suffix = "Job"; require_method = "Run" }
          ∷ []);
    interface_pattern_exclude = flags ("model" ∷ "job" ∷ []);
  };
}

unfoldable pub event_pipeline_architecture : Architecture
event_pipeline_architecture = record {
  layers = record {
    sublayers =
        ("command" ∷ "aggregate" ∷ "event" ∷ "projection" ∷ "eventstore" ∷ "readstore" ∷ "model"
          ∷ []);
    direction =
        ("command", ("aggregate" ∷ "eventstore" ∷ "model" ∷ []))
        ∷ ("aggregate", ("event" ∷ "model" ∷ []))
        ∷ ("event", ("model" ∷ []))
        ∷ ("projection", ("event" ∷ "readstore" ∷ "model" ∷ []))
        ∷ ("eventstore", ("event" ∷ "model" ∷ []))
        ∷ ("readstore", ("model" ∷ []))
        ∷ ("model", [])
        ∷ [];
    port_layers = [];
    contract_layers = [];
    pkg_restricted = flags ("model" ∷ "event" ∷ []);
    internal_top_level = flags (
        "command" ∷ "aggregate" ∷ "event" ∷ "projection" ∷ "eventstore" ∷ "readstore" ∷ "model"
        ∷ "pkg" ∷ []);
    layer_dir_names = flags (
        "command" ∷ "aggregate" ∷ "event" ∷ "projection" ∷ "eventstore" ∷ "readstore" ∷ "model"
        ∷ []);
  };
  layout = record {
    internal_root = "";
    domain_dir = "";
    orchestration_dir = "";
    shared_dir = "pkg";
    app_dir = "";
    server_dir = "";
  };
  naming = record {
    banned_pkg_names = default_banned_pkg_names;
    legacy_pkg_names = default_legacy_pkg_names;
    alias_file_name = "";
  };
  structure = record {
    require_alias = false;
    require_model = false;
    model_path = "model";
    type_patterns =
        (record {
          dir = "command";
          file_prefix = "command";
          type_suffix = "Command";
          require_method = "Execute";
        }
          ∷ record {
            dir = "aggregate";
            file_prefix = "aggregate";
            type_suffix = "Aggregate";
            require_method = "Apply";
          }
          ∷ []);
    interface_pattern_exclude = flags ("model" ∷ "event" ∷ "command" ∷ "aggregate" ∷ []);
  };
}
