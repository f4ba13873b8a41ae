-- ===== src/Structural/LogicBudget/Measure.antt =====
-- What the measure of a function counts: each step adds to the cyclomatic complexity at least what it
-- adds to the branches.
use go_arch_guard.Prelude.{
  ℕ, ◌+◌, ◌≤◌, Bool, true, false, Option, none, some, ◌≡◌, arith, subst, if◌then◌else◌,
}
use go_arch_guard.Syntax.{
  Expr, ident, basic_lit, composite_lit, func_lit, selector, call, binary, compound, Exprs,
  no_exprs, expr_cons, Stmt, block_stmt, if_stmt, for_stmt, range_stmt, switch_stmt,
  type_switch_stmt, select_stmt, return_stmt, labeled_stmt, simple_stmt, Stmts, no_stmts, stmt_cons,
  Clauses, no_clauses, case_clause, comm_clause, FuncDecl,
}
use go_arch_guard.Structural.LogicBudget.ErrorReturn.{ReturnContext, new_return_context}
use go_arch_guard.Structural.LogicBudget.{
  FunctionMetrics, boolean_complexity, loop_complexity, count_statement, count_branch, discounted,
  chain, count_case, count_comm, measure_block, measure_stmt, measure_cases, measure_comms,
  lits_expr, lits_exprs, lits_stmt, lits_stmts, lits_clauses, measure,
}

abbrev pub Adds : FunctionMetrics → FunctionMetrics → Type 0
Adds a b =
    (a.branches ≤ b.branches)
    × (a.statements ≤ b.statements)
    × (a.cyclomatic + b.branches ≤ b.cyclomatic + a.branches)

-- Whatever comes out has grown from `m`.
pub data Grows (m : FunctionMetrics) : Option FunctionMetrics → Type 0 where
  stops : Grows m none
  grows : {m' : FunctionMetrics} → Adds m m' → Grows m (some m')

Adds-refl : (m : FunctionMetrics) → Adds m m
Adds-refl m = ground arith

Adds-trans : (a b c : FunctionMetrics) → Adds a b → Adds b c → Adds a c
Adds-trans a b c h k = ground arith

Grows-from :
    (m m0 : FunctionMetrics) {o : Option FunctionMetrics} → Adds m m0 → Grows m0 o → Grows m o
Grows-from m m0 a stops = stops
Grows-from m m0 a (grows {m'} h) = grows (Adds-trans m m0 m' a h)

pub chain-Grows :
    (m : FunctionMetrics) {o : Option FunctionMetrics}
    {f : FunctionMetrics → Option FunctionMetrics}
    → Grows m o
    → ((m1 : FunctionMetrics) → Grows m1 (f m1))
    → Grows m (chain o f)
unfolding chain
chain-Grows m stops h = stops
chain-Grows m (grows {m'} g) h = Grows-from m m' g (h m')

if-Grows :
    (m : FunctionMetrics) (b : Bool) {x y : Option FunctionMetrics}
    → Grows m x
    → Grows m y
    → Grows m (if b then x else y)
if-Grows m true g h = g
if-Grows m false g h = h

test-Grows :
    (m : FunctionMetrics) (o : Option Bool) {f : Bool → Option FunctionMetrics}
    → ((b : Bool) → Grows m (f b))
    → Grows m (chain o f)
unfolding chain
test-Grows m none h = stops
test-Grows m (some b) h = h b

loop-Grows :
    (m : FunctionMetrics) (cond : Exprs) {f : ℕ → Option FunctionMetrics}
    → ((n : ℕ) → Grows m (f n))
    → Grows m (chain (loop_complexity cond) f)
unfolding chain loop_complexity
loop-Grows m no_exprs h = stops
loop-Grows m (expr_cons e es) h = h (boolean_complexity e)

Adds-statement : (m : FunctionMetrics) → Adds m (count_statement m)
Adds-statement m = ground arith

Adds-branch : (n : ℕ) (m : FunctionMetrics) → Adds m (count_branch n (count_statement m))
Adds-branch n m = ground arith

Adds-case : (list : Exprs) (m : FunctionMetrics) → Adds m (count_case list m)
Adds-case no_exprs m = ground arith
Adds-case (expr_cons e es) m = ground arith

Adds-comm : (comm : Stmts) (m : FunctionMetrics) → Adds m (count_comm comm m)
Adds-comm no_stmts m = ground arith
Adds-comm (stmt_cons s ss) m = ground arith

grown-some : (a m : FunctionMetrics) → Grows a (some m) → Adds a m
grown-some a m (grows h) = h

module _ (c : Bool) where
  mutual
    unfolding measure_block

    pub measure_block-Grows :
        (t : Stmts) (ret : ReturnContext) (m : FunctionMetrics) → Grows m (measure_block c t ret m)
    measure_block-Grows no_stmts ret m = grows (Adds-refl m)
    measure_block-Grows (stmt_cons s ss) ret m =
        chain-Grows m (measure_stmt-Grows s ret m) λ m1. measure_block-Grows ss ret m1

    pub measure_stmt-Grows :
        (t : Stmt) (ret : ReturnContext) (m : FunctionMetrics) → Grows m (measure_stmt c t ret m)
    measure_stmt-Grows (block_stmt body) ret m = measure_block-Grows body ret m
    measure_stmt-Grows (if_stmt init cond body els) ret m =
        test-Grows m (discounted c cond body els ret) λ skip.
          if-Grows m skip (measure_block-Grows init ret m) (
            Grows-from m _ (Adds-branch (boolean_complexity cond) m) (
              chain-Grows (count_branch (boolean_complexity cond) (count_statement m))
                (lits_expr-Grows cond ret
                  (count_branch (boolean_complexity cond) (count_statement m)))
                λ m1. chain-Grows m1 (measure_block-Grows init ret m1) λ m2.
                  chain-Grows m2 (measure_block-Grows body ret m2)
                    λ m3. measure_block-Grows els ret m3))
    measure_stmt-Grows (for_stmt init cond post body) ret m = loop-Grows m cond λ n.
        Grows-from m _ (Adds-branch n m) (
          chain-Grows (count_branch n (count_statement m))
            (lits_exprs-Grows cond ret (count_branch n (count_statement m)))
            λ m1. chain-Grows m1 (measure_block-Grows init ret m1) λ m2.
              chain-Grows m2 (measure_block-Grows post ret m2)
                λ m3. measure_block-Grows body ret m3)
    measure_stmt-Grows (range_stmt vars x body) ret m = Grows-from m _ (Adds-branch 0 m) (
        chain-Grows (count_branch 0 (count_statement m))
          (lits_expr-Grows x ret (count_branch 0 (count_statement m)))
          λ m1. measure_block-Grows body ret m1)
    measure_stmt-Grows (switch_stmt init tag body) ret m = Grows-from m _ (Adds-branch 0 m) (
        chain-Grows (count_branch 0 (count_statement m))
          (lits_exprs-Grows tag ret (count_branch 0 (count_statement m)))
          λ m1.
            chain-Grows m1 (measure_block-Grows init ret m1) λ m2. measure_cases-Grows body ret m2)
    measure_stmt-Grows (type_switch_stmt init assign body) ret m =
        Grows-from m _ (Adds-branch 0 m) (
          chain-Grows (count_branch 0 (count_statement m))
            (measure_block-Grows init ret (count_branch 0 (count_statement m)))
            λ m1.
              chain-Grows m1 (lits_stmt-Grows assign ret m1) λ m2. measure_cases-Grows body ret m2)
    measure_stmt-Grows (select_stmt body) ret m =
        Grows-from m _ (Adds-branch 0 m)
          (measure_comms-Grows body ret (count_branch 0 (count_statement m)))
    measure_stmt-Grows (return_stmt results) ret m =
        Grows-from m _ (Adds-statement m) (lits_exprs-Grows results ret (count_statement m))
    measure_stmt-Grows (labeled_stmt label stmt) ret m =
        Grows-from m _ (Adds-statement m) (lits_stmt-Grows stmt ret (count_statement m))
    measure_stmt-Grows (simple_stmt parts) ret m =
        Grows-from m _ (Adds-statement m) (lits_exprs-Grows parts ret (count_statement m))

    pub measure_cases-Grows :
        (t : Clauses) (ret : ReturnContext) (m : FunctionMetrics)
        → Grows m (measure_cases c t ret m)
    measure_cases-Grows no_clauses ret m = grows (Adds-refl m)
    measure_cases-Grows (case_clause list body rest) ret m = Grows-from m _ (Adds-case list m) (
        chain-Grows (count_case list m) (lits_exprs-Grows list ret (count_case list m)) λ m1.
          chain-Grows m1 (measure_block-Grows body ret m1) λ m2. measure_cases-Grows rest ret m2)
    measure_cases-Grows (comm_clause comm body rest) ret m = measure_cases-Grows rest ret m

    pub measure_comms-Grows :
        (t : Clauses) (ret : ReturnContext) (m : FunctionMetrics)
        → Grows m (measure_comms c t ret m)
    measure_comms-Grows no_clauses ret m = grows (Adds-refl m)
    measure_comms-Grows (case_clause list body rest) ret m = measure_comms-Grows rest ret m
    measure_comms-Grows (comm_clause comm body rest) ret m = Grows-from m _ (Adds-comm comm m) (
        chain-Grows (count_comm comm m) (lits_stmts-Grows comm ret (count_comm comm m)) λ m1.
          chain-Grows m1 (measure_block-Grows body ret m1) λ m2. measure_comms-Grows rest ret m2)

    pub lits_expr-Grows :
        (t : Expr) (ret : ReturnContext) (m : FunctionMetrics) → Grows m (lits_expr c t ret m)
    lits_expr-Grows (ident name) ret m = grows (Adds-refl m)
    lits_expr-Grows (basic_lit text value unquoted) ret m = grows (Adds-refl m)
    lits_expr-Grows (composite_lit typ elts) ret m =
        chain-Grows m (lits_exprs-Grows typ ret m) λ m1. lits_exprs-Grows elts ret m1
    lits_expr-Grows (func_lit results typ body) ret m =
        measure_block-Grows body (new_return_context ret.has_info results) m
    lits_expr-Grows (selector x name) ret m = lits_expr-Grows x ret m
    lits_expr-Grows (call fun args) ret m =
        chain-Grows m (lits_expr-Grows fun ret m) λ m1. lits_exprs-Grows args ret m1
    lits_expr-Grows (binary op x y) ret m =
        chain-Grows m (lits_expr-Grows x ret m) λ m1. lits_expr-Grows y ret m1
    lits_expr-Grows (compound parts) ret m = lits_exprs-Grows parts ret m

    pub lits_exprs-Grows :
        (t : Exprs) (ret : ReturnContext) (m : FunctionMetrics) → Grows m (lits_exprs c t ret m)
    lits_exprs-Grows no_exprs ret m = grows (Adds-refl m)
    lits_exprs-Grows (expr_cons e es) ret m =
        chain-Grows m (lits_expr-Grows e ret m) λ m1. lits_exprs-Grows es ret m1

    pub lits_stmt-Grows :
        (t : Stmt) (ret : ReturnContext) (m : FunctionMetrics) → Grows m (lits_stmt c t ret m)
    lits_stmt-Grows (block_stmt body) ret m = lits_stmts-Grows body ret m
    lits_stmt-Grows (if_stmt init cond body els) ret m =
        chain-Grows m (lits_stmts-Grows init ret m) λ m1.
          chain-Grows m1 (lits_expr-Grows cond ret m1)
            λ m2. chain-Grows m2 (lits_stmts-Grows body ret m2) λ m3. lits_stmts-Grows els ret m3
    lits_stmt-Grows (for_stmt init cond post body) ret m =
        chain-Grows m (lits_stmts-Grows init ret m) λ m1.
          chain-Grows m1 (lits_exprs-Grows cond ret m1)
            λ m2. chain-Grows m2 (lits_stmts-Grows post ret m2) λ m3. lits_stmts-Grows body ret m3
    lits_stmt-Grows (range_stmt vars x body) ret m =
        chain-Grows m (lits_exprs-Grows vars ret m)
          λ m1. chain-Grows m1 (lits_expr-Grows x ret m1) λ m2. lits_stmts-Grows body ret m2
    lits_stmt-Grows (switch_stmt init tag body) ret m =
        chain-Grows m (lits_stmts-Grows init ret m)
          λ m1. chain-Grows m1 (lits_exprs-Grows tag ret m1) λ m2. lits_clauses-Grows body ret m2
    lits_stmt-Grows (type_switch_stmt init assign body) ret m =
        chain-Grows m (lits_stmts-Grows init ret m)
          λ m1. chain-Grows m1 (lits_stmt-Grows assign ret m1) λ m2. lits_clauses-Grows body ret m2
    lits_stmt-Grows (select_stmt body) ret m = lits_clauses-Grows body ret m
    lits_stmt-Grows (return_stmt results) ret m = lits_exprs-Grows results ret m
    lits_stmt-Grows (labeled_stmt label stmt) ret m = lits_stmt-Grows stmt ret m
    lits_stmt-Grows (simple_stmt parts) ret m = lits_exprs-Grows parts ret m

    pub lits_stmts-Grows :
        (t : Stmts) (ret : ReturnContext) (m : FunctionMetrics) → Grows m (lits_stmts c t ret m)
    lits_stmts-Grows no_stmts ret m = grows (Adds-refl m)
    lits_stmts-Grows (stmt_cons s ss) ret m =
        chain-Grows m (lits_stmt-Grows s ret m) λ m1. lits_stmts-Grows ss ret m1

    pub lits_clauses-Grows :
        (t : Clauses) (ret : ReturnContext) (m : FunctionMetrics) → Grows m (lits_clauses c t ret m)
    lits_clauses-Grows no_clauses ret m = grows (Adds-refl m)
    lits_clauses-Grows (case_clause list body rest) ret m =
        chain-Grows m (lits_exprs-Grows list ret m)
          λ m1. chain-Grows m1 (lits_stmts-Grows body ret m1) λ m2. lits_clauses-Grows rest ret m2
    lits_clauses-Grows (comm_clause comm body rest) ret m =
        chain-Grows m (lits_stmts-Grows comm ret m)
          λ m1. chain-Grows m1 (lits_stmts-Grows body ret m1) λ m2. lits_clauses-Grows rest ret m2

  -- The complexity of a function that is measured exceeds its number of branches.
  pub measure_cyclomatic :
      (has_info : Bool) (fd : FuncDecl) (body : Stmts) (m : FunctionMetrics)
      → measure c has_info fd body ≡ some m
      → m.branches + 1 ≤ m.cyclomatic
  unfolding measure
  measure_cyclomatic has_info fd body m e =
      let start : FunctionMetrics = record { branches = 0; statements = 0; cyclomatic = 1 } in
      let grown =
        subst (Grows start) e
          (measure_block-Grows body (new_return_context has_info fd.results) start) in
      omega (arith, grown-some start m grown)
