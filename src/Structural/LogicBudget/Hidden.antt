-- ===== src/Structural/LogicBudget/Hidden.antt =====
-- Where the measure stops, and what it does not see.
use go_arch_guard.Prelude.{String, Bool, Option, none, some, ◌≡◌, refl}
use go_arch_guard.Syntax.{
  Expr, ident, basic_lit, composite_lit, func_lit, selector, call, binary, compound, Exprs,
  no_exprs, expr_cons, Stmt, block_stmt, if_stmt, for_stmt, range_stmt, switch_stmt,
  type_switch_stmt, select_stmt, return_stmt, labeled_stmt, simple_stmt, Stmts, no_stmts, stmt_cons,
  Clauses, no_clauses, case_clause, comm_clause, FuncDecl,
}
use go_arch_guard.Structural.LogicBudget.ErrorReturn.{ReturnContext, new_return_context}
use go_arch_guard.Structural.LogicBudget.{
  FunctionMetrics, chain, loop_complexity, measure_block, measure_stmt, count_statement, lits_expr,
  lits_exprs, lits_stmt, lits_stmts, lits_clauses, measure,
}

-- a loop without a condition stands among the statements themselves
abbrev pub HasBareFor : Stmts → Type 0
HasBareFor no_stmts = ⊥
HasBareFor (stmt_cons (for_stmt init no_exprs post body) ss) = Unit
HasBareFor (stmt_cons s ss) = HasBareFor ss

-- no function literal stands in the tree
abbrev mutual
  pub Plain : Expr → Type 0
  Plain (ident name) = Unit
  Plain (basic_lit text value unquoted) = Unit
  Plain (composite_lit typ elts) = PlainExprs typ × PlainExprs elts
  Plain (func_lit results typ body) = ⊥
  Plain (selector x name) = Plain x
  Plain (call fun args) = Plain fun × PlainExprs args
  Plain (binary op x y) = Plain x × Plain y
  Plain (compound parts) = PlainExprs parts

  pub PlainExprs : Exprs → Type 0
  PlainExprs no_exprs = Unit
  PlainExprs (expr_cons e es) = Plain e × PlainExprs es

  pub PlainStmt : Stmt → Type 0
  PlainStmt (block_stmt body) = PlainStmts body
  PlainStmt (if_stmt init cond body els) =
      PlainStmts init × Plain cond × PlainStmts body × PlainStmts els
  PlainStmt (for_stmt init cond post body) =
      PlainStmts init × PlainExprs cond × PlainStmts post × PlainStmts body
  PlainStmt (range_stmt vars x body) = PlainExprs vars × Plain x × PlainStmts body
  PlainStmt (switch_stmt init tag body) = PlainStmts init × PlainExprs tag × PlainClauses body
  PlainStmt (type_switch_stmt init assign body) =
      PlainStmts init × PlainStmt assign × PlainClauses body
  PlainStmt (select_stmt body) = PlainClauses body
  PlainStmt (return_stmt results) = PlainExprs results
  PlainStmt (labeled_stmt label stmt) = PlainStmt stmt
  PlainStmt (simple_stmt parts) = PlainExprs parts

  pub PlainStmts : Stmts → Type 0
  PlainStmts no_stmts = Unit
  PlainStmts (stmt_cons s ss) = PlainStmt s × PlainStmts ss

  pub PlainClauses : Clauses → Type 0
  PlainClauses no_clauses = Unit
  PlainClauses (case_clause list body rest) = PlainExprs list × PlainStmts body × PlainClauses rest
  PlainClauses (comm_clause comm body rest) = PlainStmts comm × PlainStmts body × PlainClauses rest

chain-none :
    (o : Option FunctionMetrics) (f : FunctionMetrics → Option FunctionMetrics)
    → ((m : FunctionMetrics) → f m ≡ none)
    → chain o f ≡ none
unfolding chain
chain-none none f h = refl
chain-none (some m) f h = h m

chain-some :
    {o : Option FunctionMetrics} {m : FunctionMetrics}
    (f : FunctionMetrics → Option FunctionMetrics)
    → o ≡ some m
    → f m ≡ some m
    → chain o f ≡ some m
unfolding chain
chain-some f e h = rw e h

module _ (c : Bool) where
  measure_block-HasBareFor :
      (body : Stmts) (ret : ReturnContext) (m : FunctionMetrics)
      → HasBareFor body
      → measure_block c body ret m ≡ none
  unfolding measure_block chain loop_complexity
  measure_block-HasBareFor no_stmts ret m h = elim h [ ]
  measure_block-HasBareFor (stmt_cons (for_stmt init no_exprs post body) ss) ret m h = refl
  measure_block-HasBareFor (stmt_cons s ss) ret m h =
      chain-none (measure_stmt c s ret m) (measure_block c ss ret)
        λ m1. measure_block-HasBareFor ss ret m1 h

  mutual
    unfolding measure_block

    lits_expr_lem :
        (e : Expr) (ret : ReturnContext) (m : FunctionMetrics)
        → Plain e
        → lits_expr c e ret m ≡ some m
    lits_expr_lem (ident name) ret m h = refl
    lits_expr_lem (basic_lit text value unquoted) ret m h = refl
    lits_expr_lem (composite_lit typ elts) ret m (a, b) =
        chain-some _ (lits_exprs_lem typ ret m a) (lits_exprs_lem elts ret m b)
    lits_expr_lem (func_lit results typ body) ret m h = elim h [ ]
    lits_expr_lem (selector x name) ret m h = lits_expr_lem x ret m h
    lits_expr_lem (call fun args) ret m (a, b) =
        chain-some _ (lits_expr_lem fun ret m a) (lits_exprs_lem args ret m b)
    lits_expr_lem (binary op x y) ret m (a, b) =
        chain-some _ (lits_expr_lem x ret m a) (lits_expr_lem y ret m b)
    lits_expr_lem (compound parts) ret m h = lits_exprs_lem parts ret m h

    lits_exprs_lem :
        (es : Exprs) (ret : ReturnContext) (m : FunctionMetrics)
        → PlainExprs es
        → lits_exprs c es ret m ≡ some m
    lits_exprs_lem no_exprs ret m h = refl
    lits_exprs_lem (expr_cons e es) ret m (a, b) =
        chain-some _ (lits_expr_lem e ret m a) (lits_exprs_lem es ret m b)

    lits_stmt_lem :
        (s : Stmt) (ret : ReturnContext) (m : FunctionMetrics)
        → PlainStmt s
        → lits_stmt c s ret m ≡ some m
    lits_stmt_lem (block_stmt body) ret m h = lits_stmts_lem body ret m h
    lits_stmt_lem (if_stmt init cond body els) ret m (p, q, r, s) =
        chain-some _ (lits_stmts_lem init ret m p) (
          chain-some _ (lits_expr_lem cond ret m q)
            (chain-some _ (lits_stmts_lem body ret m r) (lits_stmts_lem els ret m s)))
    lits_stmt_lem (for_stmt init cond post body) ret m (p, q, r, s) =
        chain-some _ (lits_stmts_lem init ret m p) (
          chain-some _ (lits_exprs_lem cond ret m q)
            (chain-some _ (lits_stmts_lem post ret m r) (lits_stmts_lem body ret m s)))
    lits_stmt_lem (range_stmt vars x body) ret m (p, q, r) =
        chain-some _ (lits_exprs_lem vars ret m p)
          (chain-some _ (lits_expr_lem x ret m q) (lits_stmts_lem body ret m r))
    lits_stmt_lem (switch_stmt init tag body) ret m (p, q, r) =
        chain-some _ (lits_stmts_lem init ret m p)
          (chain-some _ (lits_exprs_lem tag ret m q) (lits_clauses_lem body ret m r))
    lits_stmt_lem (type_switch_stmt init assign body) ret m (p, q, r) =
        chain-some _ (lits_stmts_lem init ret m p)
          (chain-some _ (lits_stmt_lem assign ret m q) (lits_clauses_lem body ret m r))
    lits_stmt_lem (select_stmt body) ret m h = lits_clauses_lem body ret m h
    lits_stmt_lem (return_stmt results) ret m h = lits_exprs_lem results ret m h
    lits_stmt_lem (labeled_stmt label stmt) ret m h = lits_stmt_lem stmt ret m h
    lits_stmt_lem (simple_stmt parts) ret m h = lits_exprs_lem parts ret m h

    lits_stmts_lem :
        (ss : Stmts) (ret : ReturnContext) (m : FunctionMetrics)
        → PlainStmts ss
        → lits_stmts c ss ret m ≡ some m
    lits_stmts_lem no_stmts ret m h = refl
    lits_stmts_lem (stmt_cons s ss) ret m (a, b) =
        chain-some _ (lits_stmt_lem s ret m a) (lits_stmts_lem ss ret m b)

    lits_clauses_lem :
        (cs : Clauses) (ret : ReturnContext) (m : FunctionMetrics)
        → PlainClauses cs
        → lits_clauses c cs ret m ≡ some m
    lits_clauses_lem no_clauses ret m h = refl
    lits_clauses_lem (case_clause list body rest) ret m (p, q, r) =
        chain-some _ (lits_exprs_lem list ret m p)
          (chain-some _ (lits_stmts_lem body ret m q) (lits_clauses_lem rest ret m r))
    lits_clauses_lem (comm_clause comm body rest) ret m (p, q, r) =
        chain-some _ (lits_stmts_lem comm ret m p)
          (chain-some _ (lits_stmts_lem body ret m q) (lits_clauses_lem rest ret m r))

  -- A function with a loop without a condition among the statements of its body cannot be measured: the
  -- rule panics.
  pub measure-HasBareFor :
      (has_info : Bool) (fd : FuncDecl) (body : Stmts)
      → HasBareFor body
      → measure c has_info fd body ≡ none
  unfolding measure
  measure-HasBareFor has_info fd body h =
      measure_block-HasBareFor body (new_return_context has_info fd.results) _ h

  -- A label in front of a statement without function literals hides it: whatever it holds, it counts as
  -- one statement and no branch.
  pub measure_stmt-labeled :
      (label : String) (stmt : Stmt) (ret : ReturnContext) (m : FunctionMetrics)
      → PlainStmt stmt
      → measure_stmt c (labeled_stmt label stmt) ret m ≡ some (count_statement m)
  unfolding measure_stmt
  measure_stmt-labeled label stmt ret m h = lits_stmt_lem stmt ret (count_statement m) h
