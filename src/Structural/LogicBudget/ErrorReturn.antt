-- ===== src/Structural/LogicBudget/ErrorReturn.antt =====
-- rules/structural/logic_budget.go: which branches only pass an error on. The test panics where the
-- position of a wrapped argument overflows, and is then `none`.
pub mod Fits
use go_arch_guard.Prelude.{
  ℕ, zero, suc, ◌+◌, String, Bool, true, false, not, ◌&&◌, ◌||◌, Option, none, some, List, [], ◌∷◌,
  ◌==◌, ◌++◌, length, eqb, if◌then◌else◌,
}
use go_arch_guard.Syntax.{
  neq, ResultField, Expr, ident, basic_lit, composite_lit, selector, call, binary, Exprs, no_exprs,
  expr_cons, return_stmt, Stmts, no_stmts, stmt_cons,
}
use go_arch_guard.Structural.LogicBudget.Wrap.{next_int, is_negative, fmt_wrap_arg_indexes}

-- `resultTypes` holds, of each type, whether `isErrorType` finds that it implements `error`.
pub record ReturnContext : Type 0 where
  pub has_info : Bool
  pub result_types : List Bool

-- `count` times `append(ctx.resultTypes, t)`
repeat : ℕ → Bool → List Bool
repeat zero t = []
repeat (suc n) t = t ∷ repeat n t

result_types : List ResultField → List Bool
unfolding repeat
result_types [] = []
result_types (field ∷ fields) =
    repeat (if eqb field.names 0 then 1 else field.names) field.is_error ++ result_types fields

unfoldable pub new_return_context : Bool → List ResultField → ReturnContext
unfolding result_types
new_return_context has_info fields = record {
  has_info = has_info;
  result_types = if has_info then result_types fields else [];
}

abbrev is_nil_ident : Expr → Bool
is_nil_ident (ident name) = name == "nil"
is_nil_ident _ = false

-- the name of an identifier that is not empty
abbrev ident_name : Expr → Option String
ident_name (ident name) = if name == "" then none else some name
ident_name _ = none

abbrev checked_ident : Option String → Bool → Option String → Bool → Option String
checked_ident x y_nil y x_nil =
    let second : Option String = elim y [
      | none ↦ none
      | some name ↦ if x_nil then some name else none
    ] in
    elim x [ none ↦ second | some name ↦ if y_nil then some name else second ]

unfoldable pub error_nil_check_ident : Expr → Option String
error_nil_check_ident (binary neq x y) =
    checked_ident (ident_name x) (is_nil_ident y) (ident_name y) (is_nil_ident x)
error_nil_check_ident _ = none

abbrev is_zero_return_expr : Expr → Bool
is_zero_return_expr (ident name) = name == "nil" || name == "false"
is_zero_return_expr (basic_lit text value unquoted) = value == "0" || value == "\"\""
is_zero_return_expr (composite_lit typ no_exprs) = true
is_zero_return_expr _ = false

abbrev qualified_call_name : Expr → String
qualified_call_name (selector x (some name)) = name
qualified_call_name _ = ""

abbrev is_ident : String → Expr → Bool
is_ident err_name (ident name) = name == err_name
is_ident err_name _ = false

-- `args[i]`
abbrev arg_at : Exprs → ℕ → Option Expr
arg_at no_exprs i = none
arg_at (expr_cons e es) zero = some e
arg_at (expr_cons e es) (suc i) = arg_at es i

-- `call.Args[argPos]` is that identifier; behind the last argument it is not, and a negative
-- position, which passes the comparison with the length, panics: the result is then `none`.
abbrev wraps_at : Exprs → String → ℕ → Option Bool
wraps_at args err_name arg_pos =
    if is_negative arg_pos
    then none
    else elim (arg_at args arg_pos) [ none ↦ some false | some e ↦ some (is_ident err_name e) ]

-- `if !ok { return false }` before the rest, where `ok` may not come about
abbrev pub and_then : Option Bool → Option Bool → Option Bool
and_then none rest = none
and_then (some false) rest = some false
and_then (some true) rest = rest

-- the loop of `fmtErrorfWraps` over the indexes, and `hasWrap` after it, which stands as `has_wrap`
unfoldable pub all_wrap : Exprs → String → List ℕ → Bool → Option Bool
all_wrap args err_name [] has_wrap = some has_wrap
all_wrap args err_name (idx ∷ rest) has_wrap =
    and_then (wraps_at args err_name (next_int idx)) (all_wrap args err_name rest true)

unfoldable pub fmt_errorf_wraps : Exprs → String → Option Bool
unfolding all_wrap fmt_wrap_arg_indexes
fmt_errorf_wraps (expr_cons (basic_lit true value (some format)) rest) err_name =
    all_wrap (expr_cons (basic_lit true value (some format)) rest) err_name
      (fmt_wrap_arg_indexes format) false
fmt_errorf_wraps _ err_name = some false

-- the loop of `errorsJoinPropagatesOnlyCheckedErr`, with `hasErr` as it stands
unfoldable pub joins_only : Exprs → String → Bool → Bool
joins_only no_exprs err_name has_err = has_err
joins_only (expr_cons (ident name) rest) err_name has_err =
    if name == err_name
    then joins_only rest err_name true
    else if name == "nil"
    then joins_only rest err_name has_err
    else false
joins_only (expr_cons _ rest) err_name has_err = false

unfoldable pub is_error_propagation_expr : Expr → String → Option Bool
unfolding fmt_errorf_wraps joins_only
is_error_propagation_expr (ident name) err_name = some (name == err_name)
is_error_propagation_expr (call fun args) err_name =
    let name = qualified_call_name fun in
    if name == "fmt.Errorf"
    then fmt_errorf_wraps args err_name
    else if name == "errors.Join"
    then some (joins_only args err_name false)
    else some false
is_error_propagation_expr _ err_name = some false

-- the loop over the results, with `propagated` as it stands; none of the two lists is shorter
unfoldable pub propagates : List Bool → Exprs → String → Bool → Option Bool
unfolding is_error_propagation_expr
propagates [] results err_name propagated = some propagated
propagates (t ∷ types) no_exprs err_name propagated = some propagated
propagates (true ∷ types) (expr_cons e es) err_name propagated =
    and_then (is_error_propagation_expr e err_name) (propagates types es err_name true)
propagates (false ∷ types) (expr_cons e es) err_name propagated =
    and_then (some (is_zero_return_expr e)) (propagates types es err_name propagated)

abbrev pub count : Exprs → ℕ
count no_exprs = 0
count (expr_cons e es) = suc (count es)

unfoldable pub is_error_propagation_return : Exprs → String → ReturnContext → Option Bool
unfolding propagates
is_error_propagation_return results err_name ret =
    if not ret.has_info
      || eqb (length ret.result_types) 0
      || not (eqb (count results) (length ret.result_types))
    then some false
    else propagates ret.result_types results err_name false

abbrev pub returns_error : Option String → Exprs → ReturnContext → Option Bool
returns_error none results ret = some false
returns_error (some err_name) results ret = is_error_propagation_return results err_name ret

-- of an `if` statement: its condition, its body and its else branch
unfoldable pub is_simple_error_return : Expr → Stmts → Stmts → ReturnContext → Option Bool
unfolding error_nil_check_ident is_error_propagation_return
is_simple_error_return cond (stmt_cons (return_stmt results) no_stmts) no_stmts ret =
    returns_error (error_nil_check_ident cond) results ret
is_simple_error_return cond body els ret = some false
