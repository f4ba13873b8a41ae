-- ===== src/Presets/Valid.antt =====
-- The shipped architectures are valid.
use go_arch_guard.Prelude.{◌≡◌, refl, none, inr, contains, lookup, put, flat_map}
use go_arch_guard.Prelude.Order.{str_lt}
use go_arch_guard.Prelude.Sort.{sort, insert}
use go_arch_guard.Core.Violation.{Format}
use go_arch_guard.Core.Validate.{
  known_layers, sublayer_errors, missing_key_errors, unknown_errors, direction_errors,
  port_subset_errors, empty_key_errors, type_pattern_errors, cycle_errors, passes, errors, validate,
}
use go_arch_guard.Core.Validate.Cycle.{
  suffix_from, drop_last, close, loop, dfs, search_all, nodes, find_direction_cycle,
}
use go_arch_guard.Core.Validate.Laws.{IsValid, validate-none_iff}
use go_arch_guard.Presets.{
  Preset, preset_ddd, preset_cleanarch, preset_layered, preset_hexagonal, preset_modular_monolith,
  preset_consumer_worker, preset_batch, preset_event_pipeline, preset_architecture, build,
}
use go_arch_guard.Presets.Domains.{
  ddd_architecture, cleanarch_architecture, layered_architecture, hexagonal_architecture,
  modular_monolith_architecture,
}
use go_arch_guard.Presets.Flat.{
  consumer_worker_architecture, batch_architecture, event_pipeline_architecture,
}

module _ (fmt : Format) where
  validate-preset : (p : Preset) → validate fmt (preset_architecture p) ≡ none
  unfolding contains lookup put flat_map str_lt sort insert validate known_layers sublayer_errors
      missing_key_errors unknown_errors direction_errors port_subset_errors empty_key_errors
      type_pattern_errors cycle_errors passes errors suffix_from drop_last close loop dfs search_all
      nodes find_direction_cycle ddd_architecture cleanarch_architecture layered_architecture
      hexagonal_architecture modular_monolith_architecture consumer_worker_architecture
      batch_architecture event_pipeline_architecture
  validate-preset preset_ddd = refl
  validate-preset preset_cleanarch = refl
  validate-preset preset_layered = refl
  validate-preset preset_hexagonal = refl
  validate-preset preset_modular_monolith = refl
  validate-preset preset_consumer_worker = refl
  validate-preset preset_batch = refl
  validate-preset preset_event_pipeline = refl

  -- No preset panics: each function returns its architecture, and that architecture is valid.
  pub build-IsValid :
      (p : Preset) → (build fmt p ≡ inr (preset_architecture p)) × IsValid (preset_architecture p)
  unfolding build
  build-IsValid p = (
    rw (validate-preset p, build) refl,
    (validate-none_iff fmt (preset_architecture p)).0 (validate-preset p),
  )
