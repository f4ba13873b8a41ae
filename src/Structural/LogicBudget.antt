-- ===== src/Structural/LogicBudget.antt =====
-- rules/structural/logic_budget.go: the rule `orchestration.logic-budget`. ast.Inspect panics on a nil
-- node, and so does `measure` where a `for` has no condition; it also panics where the test of an `if`
-- for a simple error return does. Its result is then `none`.
pub mod Wrap
pub mod ErrorReturn
pub mod Measure
pub mod SideBySide
pub mod Discount
pub mod Hidden
pub mod Report
use go_arch_guard.Prelude.{ℕ, suc, ◌+◌, Bool, true, false, Option, none, some, if◌then◌else◌}
use go_arch_guard.Syntax.{
  Operator, land, lor, neq, other_operator, Expr, ident, basic_lit, composite_lit, func_lit,
  selector, call, binary, compound, Exprs, no_exprs, expr_cons, Stmt, block_stmt, if_stmt, for_stmt,
  range_stmt, switch_stmt, type_switch_stmt, select_stmt, return_stmt, labeled_stmt, simple_stmt,
  Stmts, no_stmts, stmt_cons, Clauses, no_clauses, case_clause, comm_clause, FuncDecl,
}
use go_arch_guard.Structural.LogicBudget.ErrorReturn.{
  ReturnContext, new_return_context, is_simple_error_return,
}

pub record FunctionMetrics : Type 0 where
  pub branches : ℕ
  pub statements : ℕ
  pub cyclomatic : ℕ

abbrev pub weight : Operator → ℕ
weight land = 1
weight lor = 1
weight _ = 0

-- `booleanComplexity`: ast.Inspect goes through everything below the node.
unfoldable mutual
  pub boolean_complexity : Expr → ℕ
  boolean_complexity (ident name) = 0
  boolean_complexity (basic_lit text value unquoted) = 0
  boolean_complexity (composite_lit typ elts) = booleans_exprs typ + booleans_exprs elts
  boolean_complexity (func_lit results typ body) = booleans_exprs typ + booleans_stmts body
  boolean_complexity (selector x name) = boolean_complexity x
  boolean_complexity (call fun args) = boolean_complexity fun + booleans_exprs args
  boolean_complexity (binary op x y) = weight op + boolean_complexity x + boolean_complexity y
  boolean_complexity (compound parts) = booleans_exprs parts

  pub booleans_exprs : Exprs → ℕ
  booleans_exprs no_exprs = 0
  booleans_exprs (expr_cons e es) = boolean_complexity e + booleans_exprs es

  pub booleans_stmt : Stmt → ℕ
  booleans_stmt (block_stmt body) = booleans_stmts body
  booleans_stmt (if_stmt init cond body els) =
      booleans_stmts init + boolean_complexity cond + booleans_stmts body + booleans_stmts els
  booleans_stmt (for_stmt init cond post body) =
      booleans_stmts init + booleans_exprs cond + booleans_stmts post + booleans_stmts body
  booleans_stmt (range_stmt vars x body) =
      booleans_exprs vars + boolean_complexity x + booleans_stmts body
  booleans_stmt (switch_stmt init tag body) =
      booleans_stmts init + booleans_exprs tag + booleans_clauses body
  booleans_stmt (type_switch_stmt init assign body) =
      booleans_stmts init + booleans_stmt assign + booleans_clauses body
  booleans_stmt (select_stmt body) = booleans_clauses body
  booleans_stmt (return_stmt results) = booleans_exprs results
  booleans_stmt (labeled_stmt label stmt) = booleans_stmt stmt
  booleans_stmt (simple_stmt parts) = booleans_exprs parts

  pub booleans_stmts : Stmts → ℕ
  booleans_stmts no_stmts = 0
  booleans_stmts (stmt_cons s ss) = booleans_stmt s + booleans_stmts ss

  pub booleans_clauses : Clauses → ℕ
  booleans_clauses no_clauses = 0
  booleans_clauses (case_clause list body rest) =
      booleans_exprs list + booleans_stmts body + booleans_clauses rest
  booleans_clauses (comm_clause comm body rest) =
      booleans_stmts comm + booleans_stmts body + booleans_clauses rest

-- `booleanComplexity(s.Cond)` of a loop's condition; there is none to inspect in `for { … }`
unfoldable pub loop_complexity : Exprs → Option ℕ
unfolding boolean_complexity
loop_complexity no_exprs = none
loop_complexity (expr_cons cond rest) = some (boolean_complexity cond)

abbrev pub count_statement : FunctionMetrics → FunctionMetrics
count_statement m = record m { statements = m.statements + 1 }

-- one more branch, with so many operators in its condition
abbrev pub count_branch : ℕ → FunctionMetrics → FunctionMetrics
count_branch operators m = record m {
  branches = m.branches + 1;
  cyclomatic = m.cyclomatic + 1 + operators;
}

unfoldable pub chain :
    {A : Type 0} → Option A → (A → Option FunctionMetrics) → Option FunctionMetrics
chain none f = none
chain (some m) f = f m

abbrev pub count_case : Exprs → FunctionMetrics → FunctionMetrics
count_case no_exprs m = m
count_case (expr_cons e es) m = count_branch 0 m

abbrev pub count_comm : Stmts → FunctionMetrics → FunctionMetrics
count_comm no_stmts m = m
count_comm (stmt_cons s ss) m = count_branch 0 m

-- `!r.cfg.countErrorBranches && isSimpleErrorReturn(…)`
abbrev pub discounted : Bool → Expr → Stmts → Stmts → ReturnContext → Option Bool
discounted true cond body els ret = some false
discounted false cond body els ret = is_simple_error_return cond body els ret

module _ (count_error_branches : Bool) where
  -- `lits_…` is `measureFuncLits` below a node of each kind; `measure_cases` and `measure_comms` are the
  -- loops over the clauses of a body.
  unfoldable mutual
    unfolding chain loop_complexity boolean_complexity is_simple_error_return new_return_context

    pub measure_block : Stmts → ReturnContext → FunctionMetrics → Option FunctionMetrics
    measure_block no_stmts ret m = some m
    measure_block (stmt_cons s ss) ret m = chain (measure_stmt s ret m) (measure_block ss ret)

    pub measure_stmt : Stmt → ReturnContext → FunctionMetrics → Option FunctionMetrics
    measure_stmt (block_stmt body) ret m = measure_block body ret m
    measure_stmt (if_stmt init cond body els) ret m =
        chain (discounted count_error_branches cond body els ret) λ skip.
          if skip
          then measure_block init ret m
          else chain
              (lits_expr cond ret (count_branch (boolean_complexity cond) (count_statement m)))
              λ m1.
                chain (measure_block init ret m1)
                  λ m2. chain (measure_block body ret m2) λ m3. measure_block els ret m3
    measure_stmt (for_stmt init cond post body) ret m = chain (loop_complexity cond) λ n.
        chain (lits_exprs cond ret (count_branch n (count_statement m))) λ m1.
          chain (measure_block init ret m1)
            λ m2. chain (measure_block post ret m2) λ m3. measure_block body ret m3
    measure_stmt (range_stmt vars x body) ret m =
        chain (lits_expr x ret (count_branch 0 (count_statement m))) λ m1. measure_block body ret m1
    measure_stmt (switch_stmt init tag body) ret m =
        chain (lits_exprs tag ret (count_branch 0 (count_statement m)))
          λ m1. chain (measure_block init ret m1) λ m2. measure_cases body ret m2
    measure_stmt (type_switch_stmt init assign body) ret m =
        chain (measure_block init ret (count_branch 0 (count_statement m)))
          λ m1. chain (lits_stmt assign ret m1) λ m2. measure_cases body ret m2
    measure_stmt (select_stmt body) ret m =
        measure_comms body ret (count_branch 0 (count_statement m))
    measure_stmt (return_stmt results) ret m = lits_exprs results ret (count_statement m)
    measure_stmt (labeled_stmt label stmt) ret m = lits_stmt stmt ret (count_statement m)
    measure_stmt (simple_stmt parts) ret m = lits_exprs parts ret (count_statement m)

    pub measure_cases : Clauses → ReturnContext → FunctionMetrics → Option FunctionMetrics
    measure_cases no_clauses ret m = some m
    measure_cases (case_clause list body rest) ret m =
        chain (lits_exprs list ret (count_case list m))
          λ m1. chain (measure_block body ret m1) λ m2. measure_cases rest ret m2
    measure_cases (comm_clause comm body rest) ret m = measure_cases rest ret m

    pub measure_comms : Clauses → ReturnContext → FunctionMetrics → Option FunctionMetrics
    measure_comms no_clauses ret m = some m
    measure_comms (case_clause list body rest) ret m = measure_comms rest ret m
    measure_comms (comm_clause comm body rest) ret m =
        chain (lits_stmts comm ret (count_comm comm m))
          λ m1. chain (measure_block body ret m1) λ m2. measure_comms rest ret m2

    pub lits_expr : Expr → ReturnContext → FunctionMetrics → Option FunctionMetrics
    lits_expr (ident name) ret m = some m
    lits_expr (basic_lit text value unquoted) ret m = some m
    lits_expr (composite_lit typ elts) ret m = chain (lits_exprs typ ret m) (lits_exprs elts ret)
    lits_expr (func_lit results typ body) ret m =
        measure_block body (new_return_context ret.has_info results) m
    lits_expr (selector x name) ret m = lits_expr x ret m
    lits_expr (call fun args) ret m = chain (lits_expr fun ret m) (lits_exprs args ret)
    lits_expr (binary op x y) ret m = chain (lits_expr x ret m) (lits_expr y ret)
    lits_expr (compound parts) ret m = lits_exprs parts ret m

    pub lits_exprs : Exprs → ReturnContext → FunctionMetrics → Option FunctionMetrics
    lits_exprs no_exprs ret m = some m
    lits_exprs (expr_cons e es) ret m = chain (lits_expr e ret m) (lits_exprs es ret)

    pub lits_stmt : Stmt → ReturnContext → FunctionMetrics → Option FunctionMetrics
    lits_stmt (block_stmt body) ret m = lits_stmts body ret m
    lits_stmt (if_stmt init cond body els) ret m = chain (lits_stmts init ret m) λ m1.
        chain (lits_expr cond ret m1)
          λ m2. chain (lits_stmts body ret m2) λ m3. lits_stmts els ret m3
    lits_stmt (for_stmt init cond post body) ret m = chain (lits_stmts init ret m) λ m1.
        chain (lits_exprs cond ret m1)
          λ m2. chain (lits_stmts post ret m2) λ m3. lits_stmts body ret m3
    lits_stmt (range_stmt vars x body) ret m =
        chain (lits_exprs vars ret m) λ m1. chain (lits_expr x ret m1) λ m2. lits_stmts body ret m2
    lits_stmt (switch_stmt init tag body) ret m =
        chain (lits_stmts init ret m)
          λ m1. chain (lits_exprs tag ret m1) λ m2. lits_clauses body ret m2
    lits_stmt (type_switch_stmt init assign body) ret m =
        chain (lits_stmts init ret m)
          λ m1. chain (lits_stmt assign ret m1) λ m2. lits_clauses body ret m2
    lits_stmt (select_stmt body) ret m = lits_clauses body ret m
    lits_stmt (return_stmt results) ret m = lits_exprs results ret m
    lits_stmt (labeled_stmt label stmt) ret m = lits_stmt stmt ret m
    lits_stmt (simple_stmt parts) ret m = lits_exprs parts ret m

    pub lits_stmts : Stmts → ReturnContext → FunctionMetrics → Option FunctionMetrics
    lits_stmts no_stmts ret m = some m
    lits_stmts (stmt_cons s ss) ret m = chain (lits_stmt s ret m) (lits_stmts ss ret)

    pub lits_clauses : Clauses → ReturnContext → FunctionMetrics → Option FunctionMetrics
    lits_clauses no_clauses ret m = some m
    lits_clauses (case_clause list body rest) ret m =
        chain (lits_exprs list ret m)
          λ m1. chain (lits_stmts body ret m1) λ m2. lits_clauses rest ret m2
    lits_clauses (comm_clause comm body rest) ret m =
        chain (lits_stmts comm ret m)
          λ m1. chain (lits_stmts body ret m1) λ m2. lits_clauses rest ret m2

  -- `measure`, of a function's results and body
  unfoldable pub measure : Bool → FuncDecl → Stmts → Option FunctionMetrics
  unfolding measure_block
  measure has_info fd body =
      measure_block body (new_return_context has_info fd.results)
        (record { branches = 0; statements = 0; cyclomatic = 1 })
