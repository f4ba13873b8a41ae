-- ===== src/Core/Violation.antt =====
-- core/severity.go, core/violation.go, core/spec.go: severities, violations and the metadata of a rule.
use go_arch_guard.Prelude.{ℕ, String, Bool, true, false, List, ◌^^◌, ltb, if◌then◌else◌, map}

-- Go's `int`; `negsuc n` is -(n + 1).
pub data ℤ : Type 0 where
  pos : ℕ → ℤ
  negsuc : ℕ → ℤ

-- `type Severity int`: its two constants, and any other int.
pub data Severity : Type 0 where
  error warning : Severity
  other : ℤ → Severity

-- The verbs of `fmt` that the messages use: `%q`, `%v` of a list of texts, `%d`.
pub record Format : Type 0 where
  pub quote : String → String
  pub listing : List String → String
  pub decimal : ℕ → String
  pub integer : ℤ → String

pub severity_string : Severity → String
severity_string warning = "WARNING"
severity_string _ = "ERROR"

-- the int behind a severity
abbrev pub severity_int : Severity → ℤ
severity_int error = pos 0
severity_int warning = pos 1
severity_int (other i) = i

-- `s != Error && s != Warning` is false
unfoldable pub is_valid_severity : Severity → Bool
is_valid_severity error = true
is_valid_severity warning = true
is_valid_severity (other i) = false

-- `Line` is 0 where there is no position, and never negative.
pub record Violation : Type 0 where
  pub file : String
  pub line : ℕ
  pub rule : String
  pub message : String
  pub fix : String
  pub default_severity : Severity
  pub effective_severity : Severity

unfoldable pub violation_string : Format → Violation → String
unfolding severity_string
violation_string fmt v =
    let at = if ltb 0 v.line then v.file ^^ ":" ^^ fmt.decimal v.line else v.file in
    "["
    ^^ severity_string v.effective_severity
    ^^ "] violation: "
    ^^ v.message
    ^^ " (file: "
    ^^ at
    ^^ ", rule: "
    ^^ v.rule
    ^^ ", fix: "
    ^^ v.fix
    ^^ ")"

pub record ViolationSpec : Type 0 where
  pub id : String
  pub description : String
  pub default_severity : Severity

pub record RuleSpec : Type 0 where
  pub id : String
  pub description : String
  pub default_severity : Severity
  pub violations : List ViolationSpec

-- `nil` where no violation is declared, as a list with no element
unfoldable pub violation_ids : RuleSpec → List String
violation_ids spec = map (λ v. v.id) spec.violations
