-- ===== src/Structural/LogicBudget/Discount.antt =====
-- Discounting the branches that only pass an error on never raises a number, where the test for them ends.
use go_arch_guard.Prelude.{Bool, true, false, arith}
use go_arch_guard.Syntax.{
  Expr, ident, basic_lit, composite_lit, func_lit, selector, call, binary, compound, Exprs,
  no_exprs, expr_cons, Stmt, block_stmt, if_stmt, for_stmt, range_stmt, switch_stmt,
  type_switch_stmt, select_stmt, return_stmt, labeled_stmt, simple_stmt, Stmts, no_stmts, stmt_cons,
  Clauses, no_clauses, case_clause, comm_clause, FuncDecl,
}
use go_arch_guard.Structural.LogicBudget.ErrorReturn.{ReturnContext, new_return_context}
use go_arch_guard.Structural.LogicBudget.ErrorReturn.Fits.{
  FitsStmts, FitsStmt, FitsClauses, Fits, FitsExprs, is_simple_error_return-Decides,
}
use go_arch_guard.Structural.LogicBudget.{
  FunctionMetrics, boolean_complexity, count_statement, count_branch, discounted, count_case,
  count_comm, measure_block, measure_stmt, measure_cases, measure_comms, lits_expr, lits_exprs,
  lits_stmt, lits_stmts, lits_clauses, measure,
}
use go_arch_guard.Structural.LogicBudget.Measure.{chain-Grows, measure_block-Grows, lits_expr-Grows}
use go_arch_guard.Structural.LogicBudget.SideBySide.{
  Le, Below, goes, chain-Below, Below-then, Below-skip, if-Below, test-Below, loop-Below, Le-branch,
  Le-both_branch, Le-both_statement, Le-case, Le-comm,
}

mutual
  unfolding measure_block

  measure_block-Below :
      (t : Stmts) (p : FitsStmts t) (ret : ReturnContext) (a b : FunctionMetrics)
      → Le a b
      → Below (measure_block false t ret a) (measure_block true t ret b)
  measure_block-Below no_stmts p ret a b h = goes h
  measure_block-Below (stmt_cons s ss) (p_s, p_ss) ret a b h =
      chain-Below (measure_stmt-Below s p_s ret a b h)
        λ a1 b1 h1. measure_block-Below ss p_ss ret a1 b1 h1

  measure_stmt-Below :
      (t : Stmt) (p : FitsStmt t) (ret : ReturnContext) (a b : FunctionMetrics)
      → Le a b
      → Below (measure_stmt false t ret a) (measure_stmt true t ret b)
  measure_stmt-Below (block_stmt body) p_body ret a b h = measure_block-Below body p_body ret a b h
  measure_stmt-Below (if_stmt init cond body els) (p_init, p_cond, p_body, p_els) ret a b h =
      test-Below (discounted false cond body els ret)
        (is_simple_error_return-Decides cond body els ret p_body)
        λ skip.
          if-Below skip
            (Below-skip (Le-branch (boolean_complexity cond) a b h)
              (lits_expr-Grows true cond ret
                (count_branch (boolean_complexity cond) (count_statement b)))
              λ b1 h1. Below-then (measure_block-Below init p_init ret a b1 h1) λ b2.
                chain-Grows b2 (measure_block-Grows true body ret b2)
                  (λ b3. measure_block-Grows true els ret b3))
            (chain-Below
              (lits_expr-Below cond p_cond ret
                (count_branch (boolean_complexity cond) (count_statement a))
                (count_branch (boolean_complexity cond) (count_statement b))
                (Le-both_branch (boolean_complexity cond) a b h))
              λ a1 b1 h1. chain-Below (measure_block-Below init p_init ret a1 b1 h1) λ a2 b2 h2.
                chain-Below (measure_block-Below body p_body ret a2 b2 h2)
                  λ a3 b3 h3. measure_block-Below els p_els ret a3 b3 h3)
  measure_stmt-Below (for_stmt init cond post body) (p_init, p_cond, p_post, p_body) ret a b h =
      loop-Below cond λ n.
        chain-Below
          (lits_exprs-Below cond p_cond ret (count_branch n (count_statement a))
            (count_branch n (count_statement b)) (Le-both_branch n a b h))
          λ a1 b1 h1. chain-Below (measure_block-Below init p_init ret a1 b1 h1) λ a2 b2 h2.
            chain-Below (measure_block-Below post p_post ret a2 b2 h2)
              λ a3 b3 h3. measure_block-Below body p_body ret a3 b3 h3
  measure_stmt-Below (range_stmt vars x body) (p_vars, p_x, p_body) ret a b h =
      chain-Below
        (lits_expr-Below x p_x ret (count_branch 0 (count_statement a))
          (count_branch 0 (count_statement b)) (Le-both_branch 0 a b h))
        λ a1 b1 h1. measure_block-Below body p_body ret a1 b1 h1
  measure_stmt-Below (switch_stmt init tag body) (p_init, p_tag, p_body) ret a b h =
      chain-Below
        (lits_exprs-Below tag p_tag ret (count_branch 0 (count_statement a))
          (count_branch 0 (count_statement b)) (Le-both_branch 0 a b h))
        λ a1 b1 h1.
          chain-Below (measure_block-Below init p_init ret a1 b1 h1)
            λ a2 b2 h2. measure_cases-Below body p_body ret a2 b2 h2
  measure_stmt-Below (type_switch_stmt init assign body) (p_init, p_assign, p_body) ret a b h =
      chain-Below
        (measure_block-Below init p_init ret (count_branch 0 (count_statement a))
          (count_branch 0 (count_statement b)) (Le-both_branch 0 a b h))
        λ a1 b1 h1.
          chain-Below (lits_stmt-Below assign p_assign ret a1 b1 h1)
            λ a2 b2 h2. measure_cases-Below body p_body ret a2 b2 h2
  measure_stmt-Below (select_stmt body) p_body ret a b h =
      measure_comms-Below body p_body ret (count_branch 0 (count_statement a))
        (count_branch 0 (count_statement b)) (Le-both_branch 0 a b h)
  measure_stmt-Below (return_stmt results) p_results ret a b h =
      lits_exprs-Below results p_results ret (count_statement a) (count_statement b)
        (Le-both_statement a b h)
  measure_stmt-Below (labeled_stmt label stmt) p_stmt ret a b h =
      lits_stmt-Below stmt p_stmt ret (count_statement a) (count_statement b)
        (Le-both_statement a b h)
  measure_stmt-Below (simple_stmt parts) p_parts ret a b h =
      lits_exprs-Below parts p_parts ret (count_statement a) (count_statement b)
        (Le-both_statement a b h)

  measure_cases-Below :
      (t : Clauses) (p : FitsClauses t) (ret : ReturnContext) (a b : FunctionMetrics)
      → Le a b
      → Below (measure_cases false t ret a) (measure_cases true t ret b)
  measure_cases-Below no_clauses p ret a b h = goes h
  measure_cases-Below (case_clause list body rest) (p_list, p_body, p_rest) ret a b h =
      chain-Below
        (lits_exprs-Below list p_list ret (count_case list a) (count_case list b)
          (Le-case list a b h))
        λ a1 b1 h1.
          chain-Below (measure_block-Below body p_body ret a1 b1 h1)
            λ a2 b2 h2. measure_cases-Below rest p_rest ret a2 b2 h2
  measure_cases-Below (comm_clause comm body rest) (p_comm, p_body, p_rest) ret a b h =
      measure_cases-Below rest p_rest ret a b h

  measure_comms-Below :
      (t : Clauses) (p : FitsClauses t) (ret : ReturnContext) (a b : FunctionMetrics)
      → Le a b
      → Below (measure_comms false t ret a) (measure_comms true t ret b)
  measure_comms-Below no_clauses p ret a b h = goes h
  measure_comms-Below (case_clause list body rest) (p_list, p_body, p_rest) ret a b h =
      measure_comms-Below rest p_rest ret a b h
  measure_comms-Below (comm_clause comm body rest) (p_comm, p_body, p_rest) ret a b h =
      chain-Below
        (lits_stmts-Below comm p_comm ret (count_comm comm a) (count_comm comm b)
          (Le-comm comm a b h))
        λ a1 b1 h1.
          chain-Below (measure_block-Below body p_body ret a1 b1 h1)
            λ a2 b2 h2. measure_comms-Below rest p_rest ret a2 b2 h2

  lits_expr-Below :
      (t : Expr) (p : Fits t) (ret : ReturnContext) (a b : FunctionMetrics)
      → Le a b
      → Below (lits_expr false t ret a) (lits_expr true t ret b)
  lits_expr-Below (ident name) p ret a b h = goes h
  lits_expr-Below (basic_lit text value unquoted) p ret a b h = goes h
  lits_expr-Below (composite_lit typ elts) (p_typ, p_elts) ret a b h =
      chain-Below (lits_exprs-Below typ p_typ ret a b h)
        λ a1 b1 h1. lits_exprs-Below elts p_elts ret a1 b1 h1
  lits_expr-Below (func_lit results typ body) (p_typ, p_body) ret a b h =
      measure_block-Below body p_body (new_return_context ret.has_info results) a b h
  lits_expr-Below (selector x name) p_x ret a b h = lits_expr-Below x p_x ret a b h
  lits_expr-Below (call fun args) (p_fun, p_args) ret a b h =
      chain-Below (lits_expr-Below fun p_fun ret a b h)
        λ a1 b1 h1. lits_exprs-Below args p_args ret a1 b1 h1
  lits_expr-Below (binary op x y) (p_x, p_y) ret a b h =
      chain-Below (lits_expr-Below x p_x ret a b h) λ a1 b1 h1. lits_expr-Below y p_y ret a1 b1 h1
  lits_expr-Below (compound parts) p_parts ret a b h = lits_exprs-Below parts p_parts ret a b h

  lits_exprs-Below :
      (t : Exprs) (p : FitsExprs t) (ret : ReturnContext) (a b : FunctionMetrics)
      → Le a b
      → Below (lits_exprs false t ret a) (lits_exprs true t ret b)
  lits_exprs-Below no_exprs p ret a b h = goes h
  lits_exprs-Below (expr_cons e es) (p_e, p_es) ret a b h =
      chain-Below (lits_expr-Below e p_e ret a b h)
        λ a1 b1 h1. lits_exprs-Below es p_es ret a1 b1 h1

  lits_stmt-Below :
      (t : Stmt) (p : FitsStmt t) (ret : ReturnContext) (a b : FunctionMetrics)
      → Le a b
      → Below (lits_stmt false t ret a) (lits_stmt true t ret b)
  lits_stmt-Below (block_stmt body) p_body ret a b h = lits_stmts-Below body p_body ret a b h
  lits_stmt-Below (if_stmt init cond body els) (p_init, p_cond, p_body, p_els) ret a b h =
      chain-Below (lits_stmts-Below init p_init ret a b h) λ a1 b1 h1.
        chain-Below (lits_expr-Below cond p_cond ret a1 b1 h1) λ a2 b2 h2.
          chain-Below (lits_stmts-Below body p_body ret a2 b2 h2)
            λ a3 b3 h3. lits_stmts-Below els p_els ret a3 b3 h3
  lits_stmt-Below (for_stmt init cond post body) (p_init, p_cond, p_post, p_body) ret a b h =
      chain-Below (lits_stmts-Below init p_init ret a b h) λ a1 b1 h1.
        chain-Below (lits_exprs-Below cond p_cond ret a1 b1 h1) λ a2 b2 h2.
          chain-Below (lits_stmts-Below post p_post ret a2 b2 h2)
            λ a3 b3 h3. lits_stmts-Below body p_body ret a3 b3 h3
  lits_stmt-Below (range_stmt vars x body) (p_vars, p_x, p_body) ret a b h =
      chain-Below (lits_exprs-Below vars p_vars ret a b h) λ a1 b1 h1.
        chain-Below (lits_expr-Below x p_x ret a1 b1 h1)
          λ a2 b2 h2. lits_stmts-Below body p_body ret a2 b2 h2
  lits_stmt-Below (switch_stmt init tag body) (p_init, p_tag, p_body) ret a b h =
      chain-Below (lits_stmts-Below init p_init ret a b h) λ a1 b1 h1.
        chain-Below (lits_exprs-Below tag p_tag ret a1 b1 h1)
          λ a2 b2 h2. lits_clauses-Below body p_body ret a2 b2 h2
  lits_stmt-Below (type_switch_stmt init assign body) (p_init, p_assign, p_body) ret a b h =
      chain-Below (lits_stmts-Below init p_init ret a b h) λ a1 b1 h1.
        chain-Below (lits_stmt-Below assign p_assign ret a1 b1 h1)
          λ a2 b2 h2. lits_clauses-Below body p_body ret a2 b2 h2
  lits_stmt-Below (select_stmt body) p_body ret a b h = lits_clauses-Below body p_body ret a b h
  lits_stmt-Below (return_stmt results) p_results ret a b h =
      lits_exprs-Below results p_results ret a b h
  lits_stmt-Below (labeled_stmt label stmt) p_stmt ret a b h = lits_stmt-Below stmt p_stmt ret a b h
  lits_stmt-Below (simple_stmt parts) p_parts ret a b h = lits_exprs-Below parts p_parts ret a b h

  lits_stmts-Below :
      (t : Stmts) (p : FitsStmts t) (ret : ReturnContext) (a b : FunctionMetrics)
      → Le a b
      → Below (lits_stmts false t ret a) (lits_stmts true t ret b)
  lits_stmts-Below no_stmts p ret a b h = goes h
  lits_stmts-Below (stmt_cons s ss) (p_s, p_ss) ret a b h =
      chain-Below (lits_stmt-Below s p_s ret a b h)
        λ a1 b1 h1. lits_stmts-Below ss p_ss ret a1 b1 h1

  lits_clauses-Below :
      (t : Clauses) (p : FitsClauses t) (ret : ReturnContext) (a b : FunctionMetrics)
      → Le a b
      → Below (lits_clauses false t ret a) (lits_clauses true t ret b)
  lits_clauses-Below no_clauses p ret a b h = goes h
  lits_clauses-Below (case_clause list body rest) (p_list, p_body, p_rest) ret a b h =
      chain-Below (lits_exprs-Below list p_list ret a b h) λ a1 b1 h1.
        chain-Below (lits_stmts-Below body p_body ret a1 b1 h1)
          λ a2 b2 h2. lits_clauses-Below rest p_rest ret a2 b2 h2
  lits_clauses-Below (comm_clause comm body rest) (p_comm, p_body, p_rest) ret a b h =
      chain-Below (lits_stmts-Below comm p_comm ret a b h) λ a1 b1 h1.
        chain-Below (lits_stmts-Below body p_body ret a1 b1 h1)
          λ a2 b2 h2. lits_clauses-Below rest p_rest ret a2 b2 h2

-- A function whose format strings wrap no argument past the ints and that can be measured with its
-- error branches can be measured without them, and then no number is larger.
pub measure-Below :
    (has_info : Bool) (fd : FuncDecl) (body : Stmts)
    → FitsStmts body
    → Below (measure false has_info fd body) (measure true has_info fd body)
unfolding measure
measure-Below has_info fd body fits =
    let start : FunctionMetrics = record { branches = 0; statements = 0; cyclomatic = 1 } in
    measure_block-Below body fits (new_return_context has_info fd.results) start start
      (ground arith)
