-- ===== src/Structural/LogicBudget/Report/Clean.antt =====
-- When the rule reports nothing.
use go_arch_guard.Prelude.{
  All-of_forall, All-at, ℕ, ◌≤◌, String, Bool, true, false, Option, none, some, List, [], ◌∷◌, ◌≡◌,
  ◌↔◌, ◌⊎◌, refl, All, is_nil, any, filter, arith, if◌then◌else◌,
}
use go_arch_guard.Core.Violation.{Violation, Format, ℤ, pos, negsuc}
use go_arch_guard.Core.Context.{Package, Context, context_arch}
use go_arch_guard.Core.RuleSet.{returned}
use go_arch_guard.Analysis.Packages.{Host, resolve_module_from_context}
use go_arch_guard.Syntax.{FuncDecl, SourceFile, Stmts}
use go_arch_guard.Structural.Options.{RuleConfig}
use go_arch_guard.Structural.LogicBudget.{FunctionMetrics, measure}
use go_arch_guard.Prelude.Search.{All-filter_iff}
use go_arch_guard.Structural.LogicBudget.Report.Orchestration.{
  IsOrchestration, is_orchestration_package_iff,
}
use go_arch_guard.Structural.LogicBudget.Report.{
  exceeds, exceeded_reasons, collect_reports, is_ignored, is_skipped, orchestration_dirs,
  is_orchestration_package, report_metrics, over_budget, check_body, check_decl, check_file,
  check_package, check, to_checked,
}

-- an int that is at least `n`
abbrev pub AtLeast : ℤ → ℕ → Type 0
AtLeast (pos budget) n = n ≤ budget
AtLeast (negsuc k) n = ⊥

abbrev pub IsWithin : RuleConfig → FunctionMetrics → Type 0
IsWithin cfg m =
    AtLeast cfg.max_branches m.branches
    × AtLeast cfg.max_statements m.statements
    × AtLeast cfg.max_cyclomatic m.cyclomatic

exceeds-AtLeast : (n : ℕ) (budget : ℤ) → (exceeds n budget ≡ false) ↔ AtLeast budget n
exceeds-AtLeast n (pos budget) = ground arith
exceeds-AtLeast n (negsuc k) = ground arith

-- No reason is given exactly where the three budgets hold; a negative budget never holds.
pub exceeded_reasons-nil_iff :
    (fmt : Format) (cfg : RuleConfig) (m : FunctionMetrics)
    → (exceeded_reasons fmt cfg m ≡ []) ↔ IsWithin cfg m
unfolding exceeded_reasons
exceeded_reasons-nil_iff fmt cfg m = ground (
  arith,
  exceeds-AtLeast m.branches cfg.max_branches,
  exceeds-AtLeast m.statements cfg.max_statements,
  exceeds-AtLeast m.cyclomatic cfg.max_cyclomatic,
)

module _ {A : Type 0} (f : A → Option (List Violation)) (P : A → Type 0)
    (each : (x : A) → (f x ≡ some []) ↔ P x) where
  -- The loop ends with nothing exactly where no element panics or reports.
  collect_reports-nil_iff : (xs : List A) → (collect_reports f xs ≡ some []) ↔ All P xs
  unfolding collect_reports
  collect_reports-nil_iff [] = (λ h. tt, λ h. refl)
  collect_reports-nil_iff (x ∷ xs) = ground (arith, each x, collect_reports-nil_iff xs)

module _ (host : Host) (files : Package → List SourceFile) (typed : Package → Bool)
    (cfg : RuleConfig) where
  -- the measure ends and stays within the budgets
  abbrev pub Measured : Option FunctionMetrics → Type 0
  Measured none = ⊥
  Measured (some m) = IsWithin cfg m

  -- a declaration without a body, or whose function is ignored or within the budgets
  abbrev pub PassesBody : Package → FuncDecl → Option Stmts → Type 0
  PassesBody pkg fd none = Unit
  PassesBody pkg fd (some body) =
      (is_ignored cfg fd.name ≡ true)
      ⊎ Measured (measure cfg.count_error_branches (typed pkg) fd body)

  abbrev pub Passes : Package → FuncDecl → Type 0
  Passes pkg fd = PassesBody pkg fd fd.body

  report_metrics-nil_iff :
      (pkg : Package) (fd : FuncDecl) (o : Option FunctionMetrics)
      → (report_metrics host files typed cfg pkg fd o ≡ some []) ↔ Measured o
  unfolding over_budget
  report_metrics-nil_iff pkg fd none = ground arith
  report_metrics-nil_iff pkg fd (some m) =
      ground (arith, exceeded_reasons-nil_iff host.format cfg m)

  check_body-nil_iff :
      (pkg : Package) (fd : FuncDecl) (o : Option Stmts)
      → (check_body host files typed cfg pkg fd o ≡ some []) ↔ PassesBody pkg fd o
  check_body-nil_iff pkg fd none = ground arith
  check_body-nil_iff pkg fd (some body) =
      ground (
        arith,
        report_metrics-nil_iff pkg fd (measure cfg.count_error_branches (typed pkg) fd body),
      )

  check_decl-nil_iff :
      (pkg : Package) (fd : FuncDecl)
      → (check_decl host files typed cfg pkg fd ≡ some []) ↔ Passes pkg fd
  unfolding check_decl
  check_decl-nil_iff pkg fd = check_body-nil_iff pkg fd fd.body

  -- a file that the rule passes over or whose declarations pass
  abbrev pub PassesFile : Context → Package → SourceFile → Type 0
  PassesFile ctx pkg file =
      (is_skipped host files typed cfg ctx pkg file ≡ true) ⊎ All (Passes pkg) file.decls

  check_file-nil_iff :
      (ctx : Context) (pkg : Package) (file : SourceFile)
      → (check_file host files typed cfg ctx pkg file ≡ some []) ↔ PassesFile ctx pkg file
  unfolding check_file
  check_file-nil_iff ctx pkg file = ground (
    arith,
    collect_reports-nil_iff (check_decl host files typed cfg pkg) (Passes pkg)
        (check_decl-nil_iff pkg) file.decls,
  )

  check_package-nil_iff :
      (ctx : Context) (pkg : Package)
      → (check_package host files typed cfg ctx pkg ≡ some [])
        ↔ All (PassesFile ctx pkg) (files pkg)
  unfolding check_package
  check_package-nil_iff ctx pkg =
      collect_reports-nil_iff (check_file host files typed cfg ctx pkg) (PassesFile ctx pkg)
        (check_file-nil_iff ctx pkg) (files pkg)

  to_checked-nil_iff :
      (recovered : String) (o : Option (List Violation))
      → (to_checked recovered o ≡ returned []) ↔ (o ≡ some [])
  to_checked-nil_iff recovered none = ground arith
  to_checked-nil_iff recovered (some vs) = ground arith

  -- the packages that the rule looks at
  abbrev pub looked_at : Context → List String → List Package
  looked_at ctx dirs =
      filter (λ pkg. is_orchestration_package pkg (resolve_module_from_context ctx "") dirs)
        ctx.pkgs

  no_dirs-nil :
      (project_module : String) (pkgs : List Package)
      → filter (λ pkg. is_orchestration_package pkg project_module []) pkgs ≡ []
  unfolding filter is_orchestration_package any
  no_dirs-nil project_module [] = refl
  no_dirs-nil project_module (p ∷ ps) = ground (arith, no_dirs-nil project_module ps)

  collect_reports-returned_nil_iff :
      (recovered : String) (ctx : Context) (dirs : List String)
      → ((if is_nil dirs
            then returned []
            else to_checked recovered
                (collect_reports (check_package host files typed cfg ctx) (looked_at ctx dirs)))
          ≡ returned [])
        ↔ All (λ pkg. All (PassesFile ctx pkg) (files pkg)) (looked_at ctx dirs)
  collect_reports-returned_nil_iff recovered ctx [] =
      (λ h. rw (no_dirs-nil (resolve_module_from_context ctx "") ctx.pkgs) tt, λ h. refl)
  collect_reports-returned_nil_iff recovered ctx (d ∷ ds) =
      let chosen = looked_at ctx (d ∷ ds) in
      let run = collect_reports (check_package host files typed cfg ctx) chosen in
      ground (
        arith,
        to_checked-nil_iff recovered run,
        collect_reports-nil_iff (check_package host files typed cfg ctx)
            (λ pkg. All (PassesFile ctx pkg) (files pkg)) (check_package-nil_iff ctx) chosen,
      )

  -- The rule ends and reports nothing exactly where, in each package that is or lies below one of the
  -- named directories of orchestration, each file is passed over or holds only functions that have no
  -- body, are ignored, or are measured within the budgets.
  pub check-returned_nil_iff :
      (recovered : String) (ctx : Context)
      → (check host files typed cfg recovered ctx ≡ returned [])
        ↔ All
            (λ pkg.
              IsOrchestration cfg (context_arch ctx).layout (resolve_module_from_context ctx "") pkg
              → All (PassesFile ctx pkg) (files pkg))
            ctx.pkgs
  unfolding check check_package
  check-returned_nil_iff recovered ctx =
      let dirs = orchestration_dirs cfg (context_arch ctx).layout in
      let (down, up) = collect_reports-returned_nil_iff recovered ctx dirs in
      let (apart, together) =
        All-filter_iff
          (λ pkg. is_orchestration_package pkg (resolve_module_from_context ctx "") dirs)
          (λ pkg. All (PassesFile ctx pkg) (files pkg)) ctx.pkgs in
      let guard = λ (pkg : Package).
        is_orchestration_package_iff cfg (context_arch ctx).layout
          (resolve_module_from_context ctx "") pkg in
      (
        λ h.
            All-of_forall _ ctx.pkgs
              λ pkg m is. All-at _ ctx.pkgs pkg (apart (down h)) m ((guard pkg).1 is),
        λ h. up (
            together
              (All-of_forall _ ctx.pkgs λ pkg m is. All-at _ ctx.pkgs pkg h m ((guard pkg).0 is))),
      )
