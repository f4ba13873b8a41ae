-- ===== src/Lib.antt =====
-- A model of go-arch-guard, a linter for the architecture of Go projects, and proofs about it.
--
-- The program. A project describes its architecture (layers, the directions in which they may import
-- each other, directories) as a value, or takes one of the presets. The analyzer loads the packages;
-- a context joins them with the architecture and with patterns of excluded paths. A rule has a
-- catalog of violations and a check from a context to violations. The runner refuses a faulty
-- architecture, rule set or option with a panic; else it runs all rules, turns the panic of a rule and
-- an ID that is not in a catalog into meta violations, filters, weighs, deduplicates and sorts.
--
-- The files, with the sources they model:
--   Core/Violation        core/severity.go, core/violation.go, core/spec.go
--   Core/Architecture     core/architecture.go
--   Core/Validate         core/architecture_validate.go: `Validate`; its child Cycle is
--                         `findDirectionCycle`, with Graph, Steps, Promise and Correct for its proof
--   Core/Paths            core/utils.go and `matchExcludePattern`
--   Core/Context          core/context.go
--   Core/RuleSet          core/rule.go, core/ruleset.go
--   Core/Options          core/run_option.go
--   Core/Catalog          core/runner.go: the catalogs and the checks before a run
--   Core/Runner           core/runner.go: the run
--   Analysis/Packages     core/analysisutil/path.go
--   Analysis/Sublayer     core/analysisutil/sublayer.go
--   Analysis/Case         core/analysisutil/ast.go: `SnakeToPascal` and `PascalToSnake`
--   Dependency/Classify   rules/dependency/isolation.go, the helpers that its rules share
--   Dependency/Isolation  rules/dependency/isolation.go, the rule; Matrix compares it with README.md
--   Dependency/LayerDirection   rules/dependency/layer_direction.go
--   Dependency/BlastRadius      rules/dependency/blast_radius.go; its child Threshold is `blastThreshold`
--   Dependency/Options    rules/dependency/option.go
--   Dependency/SideEffects      rules/dependency/no_side_effect_call_in_core.go
--   Naming                rules/naming: Files holds the loop over files, SnakeCaseFiles, NoLayerSuffix and
--                         Types the rules and the options
--   Tui                   tui/metrics.go; its child Violations is tui/violations.go
--   Coupling              the graph of imports of blast_radius.go and of tui/metrics.go, and the search
--   Syntax                the parts of go/ast that the rules look into
--   Structural/Options    rules/structural/option.go
--   Structural/LogicBudget      rules/structural/logic_budget.go: the measure; its children Wrap and
--                         ErrorReturn tell the branches that pass an error on, Report is the rule
--   Json                  report/json.go
--   Presets               presets/preset.go and the eight presets: the architectures
--   Prelude, Examples     shared helpers; a small project, the claims at it
-- A function keeps its name in snake case (`checkInternalImport` is `check_internal_import`); the body
-- of a loop is a function of its own. A loop over a slice is a recursion over the list.
--
-- State. Contexts, rule sets and options are immutable in the program and records here. The search for
-- a cycle keeps its colors and its stack in the record `Search`, which each step passes on. A panic is
-- a value: `Checked` for a rule, `Outcome` for the runner, the left side of a sum for a preset.
--
-- Maps. A Go map is an association list, whose order is that in which a `range` loop meets the keys,
-- so what is stated for all lists holds for every order of iteration.
--
-- Fuel. The search for a cycle has as fuel one more than the number of names in `Direction`. Each call
-- of `dfs` colors one more of them, so it is enough: the search never runs out. The breadth-first search
-- has the number of nodes, since each round takes one node from the queue that never returns to it; the
-- loop over a format string has its number of characters, since each round reads at least one.
--
-- Numbers. The percentiles of the blast radius are counted in quarters and the threshold in eighths,
-- which float64 holds exactly below 2^50. A budget is a Go int and may be negative; a count is not. The
-- positions of arguments that a format string names wrap around at 64 bits, as a number below 2^64.
--
-- Syntax trees. A tree carries what go/types and strconv say of its nodes: whether a result implements
-- `error`, which function a selector names, the value of a quoted text. The declarations of a
-- package's files are a parameter of the logic budget.
--
-- Parameters. `Format` holds the verbs of Go's fmt that messages use, `Host` the functions of
-- path/filepath that ask the system, `Rounding` the verbs for fractions. Nothing is assumed of them.
-- `Unicode` holds the functions of package unicode; `IsAsciiLawful` is what package unicode says of the
-- characters of ASCII, which the names rely on. The calls
-- of a package with the functions they call, and its types, are parameters of the rules that read them.
--
-- Not modelled: a rule whose `Spec` panics; nil contexts and nil packages, which the program's loader does
-- not give; the analyzer, the rules over types, the recommended rule sets, the names of constructors, the
-- placement of packages, scaffolding, and of the terminal interface all but the metrics and the
-- index of violations.
pub mod Prelude
pub mod Core
pub mod Analysis
pub mod Coupling
pub mod Syntax
pub mod Dependency
pub mod Structural
pub mod Naming
pub mod Json
pub mod Tui
pub mod Presets
pub mod Examples
