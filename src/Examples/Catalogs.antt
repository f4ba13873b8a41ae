-- ===== src/Examples/Catalogs.antt =====
-- The claims on the catalogs of the rules, at the project whose model imports its handler.
use go_arch_guard.Prelude.{All}
use go_arch_guard.Core.Violation.{error}
use go_arch_guard.Core.Runner.Declared.{Admits}
use go_arch_guard.Dependency.Isolation as Isolated
use go_arch_guard.Dependency.Isolation.Emitted.{isolation_check-AllEmitted}
use go_arch_guard.Dependency.LayerDirection as Layered
use go_arch_guard.Dependency.LayerDirection.Emitted.{layer_check-AllEmitted}
use go_arch_guard.Examples.Project.{host, faulty}

isolation_check-AllEmitted_example :
    All (λ v. Admits (Isolated.spec error) v.rule) (Isolated.check host error faulty)
isolation_check-AllEmitted_example = isolation_check-AllEmitted error host faulty

layer_check-AllEmitted_example :
    All (λ v. Admits (Layered.spec error) v.rule) (Layered.check host error faulty)
layer_check-AllEmitted_example = layer_check-AllEmitted error host faulty
