-- ===== src/Syntax.antt =====
-- The syntax trees of go/ast, as far as the rules look into them. Where go/ast has a nil for a missing
-- part, a list of at most one element stands here. What go/types and strconv say of a node stands in
-- the node.
use go_arch_guard.Prelude.{ℕ, String, Bool, Option, List}

pub data Operator : Type 0 where
  land lor neq : Operator
  other_operator : String → Operator

-- A field of a function's results: the number of its names, and whether its type implements `error`.
pub record ResultField : Type 0 where
  pub names : ℕ
  pub is_error : Bool

-- `basic_lit`: whether it is a text, its spelling, and what `strconv.Unquote` gives; `composite_lit`: its
-- type and its elements; `func_lit`: its results, the expressions of its type, and its body; `selector`:
-- the qualified name of the function that its name stands for; `compound`: the parts of any other
-- expression.
mutual
  pub data Expr : Type 0 where
    ident : String → Expr
    basic_lit : Bool → String → Option String → Expr
    composite_lit : Exprs → Exprs → Expr
    func_lit : List ResultField → Exprs → Stmts → Expr
    selector : Expr → Option String → Expr
    call : Expr → Exprs → Expr
    binary : Operator → Expr → Expr → Expr
    compound : Exprs → Expr

  pub data Exprs : Type 0 where
    no_exprs : Exprs
    expr_cons : Expr → Exprs → Exprs

  -- `if_stmt`: init, cond, body, else; `for_stmt`: init, cond, post, body; `range_stmt`: key and value, x,
  -- body; `switch_stmt`: init, tag, body; `type_switch_stmt`: init, assign, body; `simple_stmt`: the
  -- expressions of any statement that holds no other.
  pub data Stmt : Type 0 where
    block_stmt : Stmts → Stmt
    if_stmt : Stmts → Expr → Stmts → Stmts → Stmt
    for_stmt : Stmts → Exprs → Stmts → Stmts → Stmt
    range_stmt : Exprs → Expr → Stmts → Stmt
    switch_stmt : Stmts → Exprs → Clauses → Stmt
    type_switch_stmt : Stmts → Stmt → Clauses → Stmt
    select_stmt : Clauses → Stmt
    return_stmt : Exprs → Stmt
    labeled_stmt : String → Stmt → Stmt
    simple_stmt : Exprs → Stmt

  pub data Stmts : Type 0 where
    no_stmts : Stmts
    stmt_cons : Stmt → Stmts → Stmts

  -- the statements of a body: case clauses and communication clauses
  pub data Clauses : Type 0 where
    no_clauses : Clauses
    case_clause : Exprs → Stmts → Clauses → Clauses
    comm_clause : Stmts → Stmts → Clauses → Clauses

-- A function's declaration, with the file and the line of its name's position, which a `//line`
-- directive can set apart from those of the file.
pub record FuncDecl : Type 0 where
  pub name : String
  pub filename : String
  pub line : ℕ
  pub results : List ResultField
  pub body : Option Stmts

pub record SourceFile : Type 0 where
  pub filename : String
  pub decls : List FuncDecl
