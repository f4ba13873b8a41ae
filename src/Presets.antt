-- ===== src/Presets.antt =====
-- The package `presets`: the architectures that the library ships.
pub mod Defaults
pub mod Domains
pub mod Flat
pub mod Valid
use go_arch_guard.Prelude.{String, Option, none, some, ◌⊎◌, inl, inr, ◌^^◌}
use go_arch_guard.Core.Violation.{Format}
use go_arch_guard.Core.Architecture.{Architecture}
use go_arch_guard.Core.Validate.{validate}
use Domains.{
  ddd_architecture, cleanarch_architecture, layered_architecture, hexagonal_architecture,
  modular_monolith_architecture,
}
use Flat.{consumer_worker_architecture, batch_architecture, event_pipeline_architecture}

-- the constants of `type Preset string`
pub data Preset : Type 0 where
  preset_ddd preset_cleanarch preset_layered preset_hexagonal preset_modular_monolith
        preset_consumer_worker preset_batch preset_event_pipeline :
      Preset

-- the name of the function of a preset
abbrev pub preset_name : Preset → String
preset_name preset_ddd = "DDD"
preset_name preset_cleanarch = "CleanArch"
preset_name preset_layered = "Layered"
preset_name preset_hexagonal = "Hexagonal"
preset_name preset_modular_monolith = "ModularMonolith"
preset_name preset_consumer_worker = "ConsumerWorker"
preset_name preset_batch = "Batch"
preset_name preset_event_pipeline = "EventPipeline"

abbrev pub preset_architecture : Preset → Architecture
preset_architecture preset_ddd = ddd_architecture
preset_architecture preset_cleanarch = cleanarch_architecture
preset_architecture preset_layered = layered_architecture
preset_architecture preset_hexagonal = hexagonal_architecture
preset_architecture preset_modular_monolith = modular_monolith_architecture
preset_architecture preset_consumer_worker = consumer_worker_architecture
preset_architecture preset_batch = batch_architecture
preset_architecture preset_event_pipeline = event_pipeline_architecture

-- The functions `DDD()`, `CleanArch()` and so on: the text of a panic, or the architecture.
unfoldable pub build : Format → Preset → String ⊎ Architecture
build fmt p = elim (validate fmt (preset_architecture p)) [
  | none ↦ inr (preset_architecture p)
  | some e ↦ inl ("preset " ^^ preset_name p ^^ ": " ^^ e)
]
