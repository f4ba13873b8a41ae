-- ===== src/Structural/LogicBudget/ErrorReturn/Fits.antt =====
-- The test for a simple error return ends where the format strings index no argument past the ints.
use go_arch_guard.Prelude.{
  ℕ, ◌<◌, String, Bool, true, false, Option, none, some, List, [], ◌∷◌, ◌≡◌, refl, All, arith,
  Option-cases, inl, inr, ◌==◌, if◌then◌else◌,
}
use go_arch_guard.Syntax.{
  Expr, ident, basic_lit, composite_lit, func_lit, selector, call, binary, compound, Exprs,
  no_exprs, expr_cons, Stmt, block_stmt, if_stmt, for_stmt, range_stmt, switch_stmt,
  type_switch_stmt, select_stmt, return_stmt, labeled_stmt, simple_stmt, Stmts, no_stmts, stmt_cons,
  Clauses, no_clauses, case_clause, comm_clause,
}
use go_arch_guard.Structural.LogicBudget.Wrap.{next_int, fmt_wrap_arg_indexes}
use go_arch_guard.Structural.LogicBudget.ErrorReturn.{
  ReturnContext, all_wrap, fmt_errorf_wraps, is_error_propagation_expr, propagates, and_then,
  is_error_propagation_return, returns_error, is_simple_error_return, error_nil_check_ident,
  wraps_at, arg_at, is_ident, qualified_call_name,
}

-- each index of a `%w` has a successor among the ints
abbrev pub FormatFits : Option String → Type 0
FormatFits none = Unit
FormatFits (some format) = All (λ i. i < 9223372036854775807) (fmt_wrap_arg_indexes format)

-- Every string literal of the tree fits.
abbrev mutual
  pub Fits : Expr → Type 0
  Fits (ident name) = Unit
  Fits (basic_lit text value unquoted) = FormatFits unquoted
  Fits (composite_lit typ elts) = FitsExprs typ × FitsExprs elts
  Fits (func_lit results typ body) = FitsExprs typ × FitsStmts body
  Fits (selector x name) = Fits x
  Fits (call fun args) = Fits fun × FitsExprs args
  Fits (binary op x y) = Fits x × Fits y
  Fits (compound parts) = FitsExprs parts

  pub FitsExprs : Exprs → Type 0
  FitsExprs no_exprs = Unit
  FitsExprs (expr_cons e es) = Fits e × FitsExprs es

  pub FitsStmt : Stmt → Type 0
  FitsStmt (block_stmt body) = FitsStmts body
  FitsStmt (if_stmt init cond body els) =
      FitsStmts init × Fits cond × FitsStmts body × FitsStmts els
  FitsStmt (for_stmt init cond post body) =
      FitsStmts init × FitsExprs cond × FitsStmts post × FitsStmts body
  FitsStmt (range_stmt vars x body) = FitsExprs vars × Fits x × FitsStmts body
  FitsStmt (switch_stmt init tag body) = FitsStmts init × FitsExprs tag × FitsClauses body
  FitsStmt (type_switch_stmt init assign body) = FitsStmts init × FitsStmt assign × FitsClauses body
  FitsStmt (select_stmt body) = FitsClauses body
  FitsStmt (return_stmt results) = FitsExprs results
  FitsStmt (labeled_stmt label stmt) = FitsStmt stmt
  FitsStmt (simple_stmt parts) = FitsExprs parts

  pub FitsStmts : Stmts → Type 0
  FitsStmts no_stmts = Unit
  FitsStmts (stmt_cons s ss) = FitsStmt s × FitsStmts ss

  pub FitsClauses : Clauses → Type 0
  FitsClauses no_clauses = Unit
  FitsClauses (case_clause list body rest) = FitsExprs list × FitsStmts body × FitsClauses rest
  FitsClauses (comm_clause comm body rest) = FitsStmts comm × FitsStmts body × FitsClauses rest

-- The test ends.
abbrev pub Decides : Option Bool → Type 0
Decides o = (b : Bool) × (o ≡ some b)

and_then-Decides : (o rest : Option Bool) → Decides o → Decides rest → Decides (and_then o rest)
and_then-Decides none rest (b, e) k = absurd (cc e)
and_then-Decides (some false) rest h k = (false, refl)
and_then-Decides (some true) rest h k = k

if-Decides : (c : Bool) {x y : Option Bool} → Decides x → Decides y → Decides (if c then x else y)
if-Decides true h k = h
if-Decides false h k = k

wraps_at-Decides :
    (args : Exprs) (err_name : String) (i : ℕ)
    → i < 9223372036854775807
    → Decides (wraps_at args err_name (next_int i))
wraps_at-Decides args err_name i lt = elim (Option-cases (arg_at args (next_int i))) [
  | inl e ↦ (false, ground arith)
  | inr (x, e) ↦ (is_ident err_name x, ground arith)
]

all_wrap-Decides :
    (args : Exprs) (err_name : String) (is : List ℕ) (has_wrap : Bool)
    → All (λ i. i < 9223372036854775807) is
    → Decides (all_wrap args err_name is has_wrap)
unfolding all_wrap
all_wrap-Decides args err_name [] has_wrap h = (has_wrap, refl)
all_wrap-Decides args err_name (i ∷ is) has_wrap (lt, h) =
    and_then-Decides _ _ (wraps_at-Decides args err_name i lt)
      (all_wrap-Decides args err_name is true h)

fmt_errorf_wraps-Decides :
    (args : Exprs) (err_name : String) → FitsExprs args → Decides (fmt_errorf_wraps args err_name)
unfolding fmt_errorf_wraps
fmt_errorf_wraps-Decides (expr_cons (basic_lit true value (some format)) rest) err_name (h, k) =
    all_wrap-Decides (expr_cons (basic_lit true value (some format)) rest) err_name
      (fmt_wrap_arg_indexes format) false h
fmt_errorf_wraps-Decides _ err_name h = (false, refl)

is_error_propagation_expr-Decides :
    (e : Expr) (err_name : String) → Fits e → Decides (is_error_propagation_expr e err_name)
unfolding is_error_propagation_expr
is_error_propagation_expr-Decides (ident name) err_name h = (_, refl)
is_error_propagation_expr-Decides (call fun args) err_name (h, k) =
    if-Decides (qualified_call_name fun == "fmt.Errorf") (fmt_errorf_wraps-Decides args err_name k)
      (if-Decides (qualified_call_name fun == "errors.Join") (_, refl) (false, refl))
is_error_propagation_expr-Decides _ err_name h = (false, refl)

propagates-Decides :
    (types : List Bool) (results : Exprs) (err_name : String) (propagated : Bool)
    → FitsExprs results
    → Decides (propagates types results err_name propagated)
unfolding propagates
propagates-Decides [] results err_name propagated h = (propagated, refl)
propagates-Decides (t ∷ types) no_exprs err_name propagated h = (propagated, refl)
propagates-Decides (true ∷ types) (expr_cons e es) err_name propagated (h, k) =
    and_then-Decides _ _ (is_error_propagation_expr-Decides e err_name h)
      (propagates-Decides types es err_name true k)
propagates-Decides (false ∷ types) (expr_cons e es) err_name propagated (h, k) =
    and_then-Decides _ _ (_, refl) (propagates-Decides types es err_name propagated k)

returns_error-Decides :
    (o : Option String) (results : Exprs) (ret : ReturnContext)
    → FitsExprs results
    → Decides (returns_error o results ret)
unfolding is_error_propagation_return
returns_error-Decides none results ret h = (false, refl)
returns_error-Decides (some err_name) results ret h =
    if-Decides _ (false, refl) (propagates-Decides ret.result_types results err_name false h)

-- Where every literal of the body fits, the test for a simple error return ends.
pub is_simple_error_return-Decides :
    (cond : Expr) (body els : Stmts) (ret : ReturnContext)
    → FitsStmts body
    → Decides (is_simple_error_return cond body els ret)
unfolding is_simple_error_return
is_simple_error_return-Decides cond (stmt_cons (return_stmt results) no_stmts) no_stmts ret (h, k) =
    returns_error-Decides (error_nil_check_ident cond) results ret h
is_simple_error_return-Decides cond body els ret h = (false, refl)
