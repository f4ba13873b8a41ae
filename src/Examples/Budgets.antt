-- ===== src/Examples/Budgets.antt =====
-- The claims on the budget of orchestration functions.

use go_arch_guard.Prelude.{
  String, ◌+◌, ◌≤◌, true, false, some, none, List, [], ◌∷◌, ◌≡◌, ◌↔◌, refl, arith, All,
}
use go_arch_guard.Core.Violation.{warning}
use go_arch_guard.Core.Context.{Package, Context, context_arch}
use go_arch_guard.Core.RuleSet.{returned}
use go_arch_guard.Analysis.Packages.{resolve_module_from_context}
use go_arch_guard.Syntax.{
  Expr, ident, binary, neq, land, call, selector, basic_lit, Exprs, no_exprs, expr_cons, Stmt,
  if_stmt, for_stmt, return_stmt, labeled_stmt, simple_stmt, Stmts, no_stmts, stmt_cons, FuncDecl,
  SourceFile,
}
use go_arch_guard.Structural.Options.{RuleConfig, new_config}
use go_arch_guard.Structural.LogicBudget.{FunctionMetrics, measure, measure_stmt, count_statement}
use go_arch_guard.Structural.LogicBudget.ErrorReturn.{ReturnContext}
use go_arch_guard.Structural.LogicBudget.Wrap.{wrap_loop, fmt_wrap_arg_indexes}
use go_arch_guard.Structural.LogicBudget.Wrap.Fuel.{fmt_wrap_arg_indexes-fuel}
use go_arch_guard.Structural.LogicBudget.Measure.{measure_cyclomatic}
use go_arch_guard.Structural.LogicBudget.Discount.{measure-Below}
use go_arch_guard.Structural.LogicBudget.ErrorReturn.Fits.{FitsStmts}
use go_arch_guard.Structural.LogicBudget.SideBySide.{Below}
use go_arch_guard.Structural.LogicBudget.Hidden.{measure-HasBareFor, measure_stmt-labeled}
use go_arch_guard.Structural.LogicBudget.Report.{check}
use go_arch_guard.Structural.LogicBudget.Report.Orchestration.{IsOrchestration}
use go_arch_guard.Structural.LogicBudget.Report.Clean.{PassesFile, check-returned_nil_iff}
use go_arch_guard.Examples.Project.{host, project}

abbrev one : Expr → Exprs
one e = expr_cons e no_exprs

abbrev only : Stmt → Stmts
only s = stmt_cons s no_stmts

-- `if err != nil { return err }`
abbrev passes_on : Stmt
passes_on =
    if_stmt no_stmts (binary neq (ident "err") (ident "nil"))
      (only (return_stmt (one (ident "err")))) no_stmts

-- `if a && b { f() }`
abbrev decides : Stmt
decides =
    if_stmt no_stmts (binary land (ident "a") (ident "b"))
      (only (simple_stmt (one (call (ident "f") no_exprs)))) no_stmts

abbrev body : Stmts
body = stmt_cons decides (only passes_on)

-- `for { f() }`
abbrev forever : Stmt
forever = for_stmt no_stmts no_exprs no_stmts (only (simple_stmt (one (call (ident "f") no_exprs))))

abbrev decl : Stmts → FuncDecl
decl b = record {
  name = "Run";
  filename = "run.go";
  line = 3;
  results = record { names = 0; is_error = true } ∷ [];
  body = some b;
}

abbrev counted : FunctionMetrics
counted = record { branches = 1; statements = 2; cyclomatic = 3 }

measure_body : measure false true (decl body) body ≡ some counted
unfolding measure
measure_body = refl

measure_body_counted :
    measure true true (decl body) body
    ≡ some (record { branches = 2; statements = 4; cyclomatic = 4 })
unfolding measure
measure_body_counted = refl

-- `%[2]w: %*d %w`
wraps : fmt_wrap_arg_indexes "%[2]w: %*d %w" ≡ 1 ∷ 4 ∷ []
unfolding fmt_wrap_arg_indexes
wraps = refl

measure_cyclomatic_example : counted.branches + 1 ≤ counted.cyclomatic
measure_cyclomatic_example = measure_cyclomatic false true (decl body) body counted measure_body

fits : FitsStmts body
fits = ((tt, (tt, tt), (((tt, tt), tt), tt), tt), ((tt, (tt, tt), ((tt, tt), tt), tt), tt))

-- `return fmt.Errorf("%[9223372036854775807]d %w", x, err)`
overflow : fmt_wrap_arg_indexes "%[9223372036854775807]d %w" ≡ 9223372036854775807 ∷ []
unfolding fmt_wrap_arg_indexes
overflow = refl

abbrev wrapped : String → Stmts
wrapped format = only (
    if_stmt no_stmts (binary neq (ident "err") (ident "nil"))
      (only (
        return_stmt (
          one (
            call (selector (ident "fmt") (some "fmt.Errorf")) (
              expr_cons (basic_lit true "" (some format))
                (expr_cons (ident "x") (one (ident "err"))))))))
      no_stmts)

-- the count without the branch panics on it, and the count with it does not
overflow_stops : measure false true (decl body) (wrapped "%[9223372036854775807]d %w") ≡ none
unfolding measure
overflow_stops = refl

overflow_counted :
    measure true true (decl body) (wrapped "%[9223372036854775807]d %w")
    ≡ some (record { branches = 1; statements = 2; cyclomatic = 2 })
unfolding measure
overflow_counted = refl

measure-Below_example :
    Below (measure false true (decl body) body) (measure true true (decl body) body)
measure-Below_example = measure-Below true (decl body) body fits

measure-HasBareFor_example :
    measure false true (decl (only forever)) (stmt_cons decides (only forever)) ≡ none
measure-HasBareFor_example =
    measure-HasBareFor false true (decl (only forever)) (stmt_cons decides (only forever)) tt

abbrev context : ReturnContext
context = record { has_info = true; result_types = [] }

measure_stmt-labeled_example :
    measure_stmt false (labeled_stmt "loop" decides) context counted
    ≡ some (count_statement counted)
measure_stmt-labeled_example =
    measure_stmt-labeled false "loop" decides context counted
      (tt, (tt, tt), (((tt, tt), tt), tt), tt)

fmt_wrap_arg_indexes-fuel_example :
    wrap_loop 20 "at %s: %w" 0 ≡ some (fmt_wrap_arg_indexes "at %s: %w")
fmt_wrap_arg_indexes-fuel_example = fmt_wrap_arg_indexes-fuel 20 "at %s: %w" (omega arith)

abbrev cfg : RuleConfig
cfg = new_config [] warning

abbrev flow : Context
flow = project "m/internal/orchestration/order" "m/internal/domain/order"

abbrev sources : Package → List SourceFile
sources pkg = record { filename = "order.go"; decls = decl body ∷ [] } ∷ []

check-returned_nil_iff_example :
    (check host sources (λ pkg. true) cfg "nil node" flow ≡ returned [])
    ↔ All
        (λ pkg.
          IsOrchestration cfg (context_arch flow).layout (resolve_module_from_context flow "") pkg
          → All (PassesFile host sources (λ p. true) cfg flow pkg) (sources pkg))
        flow.pkgs
check-returned_nil_iff_example =
    check-returned_nil_iff host sources (λ pkg. true) cfg "nil node" flow
