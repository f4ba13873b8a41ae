-- ===== src/Json.antt =====
-- report/json.go: the report for other programs. `json.Encoder` and `json.MarshalIndent`, which print
-- it, belong to encoding/json.
pub mod Summary
pub mod Ordered
use go_arch_guard.Prelude.{
  ℕ, suc, String, Bool, true, false, List, [], ◌∷◌, ◌++◌, ◌==◌, length, add, if◌then◌else◌,
}
use go_arch_guard.Prelude.Order.{str_lt}
use go_arch_guard.Prelude.Sort.{sort}
use go_arch_guard.Core.Violation.{Severity, warning, Violation}
use go_arch_guard.Core.Runner.{violation_less}

pub record JsonSummary : Type 0 where
  pub total : ℕ
  pub errors : ℕ
  pub warnings : ℕ
  pub files : ℕ
  pub rules : List String

pub record JsonViolation : Type 0 where
  pub file : String
  pub line : ℕ
  pub rule : String
  pub message : String
  pub fix : String
  pub effective_severity : String
  pub default_severity : String

pub record JsonReport : Type 0 where
  pub schema : String
  pub summary : JsonSummary
  pub violations : List JsonViolation

-- `strings.ToLower(s.String())`
unfoldable pub lower_severity : Severity → String
lower_severity warning = "warning"
lower_severity _ = "error"

abbrev pub is_warning : Severity → Bool
is_warning warning = true
is_warning _ = false

unfoldable pub json_violation : Violation → JsonViolation
unfolding lower_severity
json_violation v = record {
  file = v.file;
  line = v.line;
  rule = v.rule;
  message = v.message;
  fix = v.fix;
  effective_severity = lower_severity v.effective_severity;
  default_severity = lower_severity v.default_severity;
}

-- The variables of the loop; the maps `files` and `ruleSet` are the lists of their keys.
pub record Tally : Type 0 where
  pub listed : List JsonViolation
  pub total : ℕ
  pub errors : ℕ
  pub warnings : ℕ
  pub files : List String
  pub rule_set : List String

-- the body of the loop over the sorted violations
unfoldable pub count_violation : Tally → Violation → Tally
unfolding json_violation
count_violation t v =
    let is_warn = is_warning v.effective_severity in
    record {
      listed = t.listed ++ json_violation v ∷ [];
      total = suc t.total;
      errors = if is_warn then t.errors else suc t.errors;
      warnings = if is_warn then suc t.warnings else t.warnings;
      files = if v.file == "" then t.files else add v.file t.files;
      rule_set = if v.rule == "" then t.rule_set else add v.rule t.rule_set;
    }

unfoldable pub count_violations : Tally → List Violation → Tally
unfolding count_violation
count_violations t [] = t
count_violations t (v ∷ vs) = count_violations (count_violation t v) vs

abbrev pub no_violations : Tally
no_violations = record {
  listed = [];
  total = 0;
  errors = 0;
  warnings = 0;
  files = [];
  rule_set = [];
}

unfoldable pub build_json_report : List Violation → JsonReport
unfolding count_violations violation_less
build_json_report violations =
    let t = count_violations no_violations (sort violation_less violations) in
    record {
      schema = "go-arch-guard.report.v2";
      summary = record {
        total = t.total;
        errors = t.errors;
        warnings = t.warnings;
        files = length t.files;
        rules = sort str_lt t.rule_set;
      };
      violations = t.listed;
    }
