-- ===== src/Examples/Project.antt =====
-- A project under the DDD preset: an order domain whose model imports its handler, and one whose
-- handler imports its app.
use go_arch_guard.Prelude.{String, some, List, [], ◌∷◌, ◌^^◌}
use go_arch_guard.Core.Violation.{error, warning, Format, Violation}
use go_arch_guard.Core.Context.{Package, Context}
use go_arch_guard.Core.RuleSet.{Rule, RuleSet, returned, panicked}
use go_arch_guard.Analysis.Packages.{Host}
use go_arch_guard.Presets.Domains.{ddd_architecture}
use go_arch_guard.Dependency.LayerDirection.{spec, check}

abbrev listing : List String → String
listing [] = "[]"
listing (x ∷ xs) = "[" ^^ x ^^ " ...]"

abbrev pub fmt : Format
fmt = record {
  quote = λ s. "'" ^^ s ^^ "'";
  listing = listing;
  decimal = λ n. "n";
  integer = λ i. "i";
}

abbrev pub host : Host
host = record { format = fmt; abs = λ r. some r; rel = λ r f. some f; to_slash = λ f. f }

abbrev pub importing : String → String → Package
importing path imported = record {
  pkg_path = path;
  parent = some (record { path = "m"; dir = "/r" });
  imports = imported ∷ [];
  go_files = [];
  syntax = (record { path = some imported; filename = "a.go"; line = 3 } ∷ []) ∷ [];
}

abbrev pub project : String → String → Context
project path imported = record {
  pkgs = importing path imported ∷ [];
  module_path = "m";
  root = "/r";
  arch = ddd_architecture;
  exclude = [];
}

abbrev pub model_path : String
model_path = "m/internal/domain/order/core/model"

abbrev pub handler_path : String
handler_path = "m/internal/domain/order/handler"

abbrev pub app_path : String
app_path = "m/internal/domain/order/app"

-- the model imports the handler
abbrev pub faulty : Context
faulty = project model_path handler_path

-- the handler imports the app
abbrev pub clean : Context
clean = project handler_path app_path

abbrev pub layer_rule : Rule
layer_rule = record { spec = spec error; check = λ ctx. returned (check host error ctx) }

abbrev pub broken_rule : Rule
broken_rule = record {
  spec = record {
    id = "custom.broken";
    description = "";
    default_severity = warning;
    violations = [];
  };
  check = λ ctx. panicked "boom";
}

abbrev pub rules : RuleSet
rules = record { rules = layer_rule ∷ broken_rule ∷ []; skip_violation_ids = [] }

abbrev pub panic_violation : Violation
panic_violation = record {
  file = "";
  line = 0;
  rule = "meta.rule-panic";
  message = "rule 'custom.broken' panicked: boom";
  fix = "report the panic to the rule author; other rules continue to run";
  default_severity = error;
  effective_severity = error;
}

abbrev pub direction_violation : Violation
direction_violation = record {
  file = "a.go";
  line = 3;
  rule = "dependency.invalid-import-direction";
  message = "sublayer 'core/model' must not import sublayer 'handler' in domain 'order'";
  fix = "allowed imports for 'core/model': []";
  default_severity = error;
  effective_severity = error;
}

abbrev pub found : List Violation
found = panic_violation ∷ direction_violation ∷ []
