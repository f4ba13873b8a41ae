-- ===== src/Structural/LogicBudget/SideBySide.antt =====
-- Two counts side by side: the smaller one stays the smaller one.
use go_arch_guard.Prelude.{ℕ, ◌≤◌, Bool, true, false, Option, none, some, arith, if◌then◌else◌}
use go_arch_guard.Syntax.{Exprs, no_exprs, expr_cons, Stmts, no_stmts, stmt_cons}
use go_arch_guard.Structural.LogicBudget.{
  FunctionMetrics, boolean_complexity, loop_complexity, count_statement, count_branch, chain,
  count_case, count_comm,
}
use go_arch_guard.Structural.LogicBudget.ErrorReturn.Fits.{Decides}
use go_arch_guard.Structural.LogicBudget.Measure.{Adds, Grows, grows}

abbrev pub Le : FunctionMetrics → FunctionMetrics → Type 0
Le a b = (a.branches ≤ b.branches) × (a.statements ≤ b.statements) × (a.cyclomatic ≤ b.cyclomatic)

-- Where the second gives numbers, the first gives numbers that are no larger.
pub data Below : Option FunctionMetrics → Option FunctionMetrics → Type 0 where
  stops : {o : Option FunctionMetrics} → Below o none
  goes : {a b : FunctionMetrics} → Le a b → Below (some a) (some b)

pub chain-Below :
    {o o' : Option FunctionMetrics} {f g : FunctionMetrics → Option FunctionMetrics}
    → Below o o'
    → ((a b : FunctionMetrics) → Le a b → Below (f a) (g b))
    → Below (chain o f) (chain o' g)
unfolding chain
chain-Below stops k = stops
chain-Below (goes {a} {b} h) k = k a b h

pub Le-Adds : (a b c : FunctionMetrics) → Le a b → Adds b c → Le a c
Le-Adds a b c h k = ground arith

pub Below-trans :
    {a b : FunctionMetrics} {o : Option FunctionMetrics} → Le a b → Grows b o → Below (some a) o
Below-trans h Grows.stops = stops
Below-trans {a} {b} h (grows {m'} k) = goes (Le-Adds a b m' h k)

-- The second side goes on from `b` and grows.
pub Below-then :
    {o o' : Option FunctionMetrics} {g : FunctionMetrics → Option FunctionMetrics}
    → Below o o'
    → ((b : FunctionMetrics) → Grows b (g b))
    → Below o (chain o' g)
unfolding chain
Below-then stops k = stops
Below-then (goes {a} {b} h) k = Below-trans h (k b)

pub Below-skip :
    {a b : FunctionMetrics} {o o' : Option FunctionMetrics}
    {g : FunctionMetrics → Option FunctionMetrics}
    → Le a b
    → Grows b o'
    → ((b1 : FunctionMetrics) → Le a b1 → Below o (g b1))
    → Below o (chain o' g)
unfolding chain
Below-skip h Grows.stops k = stops
Below-skip {a} {b} h (grows {m'} grown) k = k m' (Le-Adds a b m' h grown)

pub if-Below :
    (skip : Bool) {x y z : Option FunctionMetrics}
    → Below x z
    → Below y z
    → Below (if skip then x else y) z
if-Below true h k = h
if-Below false h k = k

-- The first side goes on after a test that ends.
pub test-Below :
    (o : Option Bool) {f : Bool → Option FunctionMetrics} {z : Option FunctionMetrics}
    → Decides o
    → ((b : Bool) → Below (f b) z)
    → Below (chain o f) z
unfolding chain
test-Below none (b, e) k = absurd (cc e)
test-Below (some b) d k = k b

pub loop-Below :
    (cond : Exprs) {f g : ℕ → Option FunctionMetrics}
    → ((n : ℕ) → Below (f n) (g n))
    → Below (chain (loop_complexity cond) f) (chain (loop_complexity cond) g)
unfolding chain loop_complexity
loop-Below no_exprs h = stops
loop-Below (expr_cons e es) h = h (boolean_complexity e)

pub Le-branch : (n : ℕ) (a b : FunctionMetrics) → Le a b → Le a (count_branch n (count_statement b))
Le-branch n a b h = ground arith

pub Le-both_branch :
    (n : ℕ) (a b : FunctionMetrics)
    → Le a b
    → Le (count_branch n (count_statement a)) (count_branch n (count_statement b))
Le-both_branch n a b h = ground arith

pub Le-both_statement :
    (a b : FunctionMetrics) → Le a b → Le (count_statement a) (count_statement b)
Le-both_statement a b h = ground arith

pub Le-case :
    (list : Exprs) (a b : FunctionMetrics) → Le a b → Le (count_case list a) (count_case list b)
Le-case no_exprs a b h = h
Le-case (expr_cons e es) a b h = ground arith

pub Le-comm :
    (comm : Stmts) (a b : FunctionMetrics) → Le a b → Le (count_comm comm a) (count_comm comm b)
Le-comm no_stmts a b h = h
Le-comm (stmt_cons s ss) a b h = ground arith
