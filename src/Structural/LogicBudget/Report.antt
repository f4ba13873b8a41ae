-- ===== src/Structural/LogicBudget/Report.antt =====
-- rules/structural/logic_budget.go: what the rule looks at and what it reports. `files` gives the
-- declarations of a package's syntax files, and `typed` whether it has its types; `recovered` is what a
-- panic of the measure prints.
pub mod Orchestration
pub mod Clean
use go_arch_guard.Prelude.{
  ℕ, String, Bool, true, not, ◌&&◌, ◌||◌, ◌==◌, ◌^^◌, Option, none, some, List, [], ◌∷◌, ◌++◌, any,
  filter, map, is_nil, contains, has_prefix, is_some, ltb, if◌then◌else◌,
}
use go_arch_guard.Prelude.Split.{after_slash}
use go_arch_guard.Core.Violation.{Severity, Violation, RuleSpec, Format, ℤ, pos, negsuc}
use go_arch_guard.Core.Architecture.{LayoutModel}
use go_arch_guard.Core.Paths.{normalize_match_path, has_suffix, trim_suffix, trim_right_slash}
use go_arch_guard.Core.Context.{Package, Context, context_arch, is_excluded}
use go_arch_guard.Core.RuleSet.{Checked, returned, panicked}
use go_arch_guard.Analysis.Packages.{
  Host, relative_path_for_package, resolve_module_from_context, project_relative_package_path,
}
use go_arch_guard.Syntax.{FuncDecl, SourceFile, Stmts}
use go_arch_guard.Structural.Options.{RuleConfig}
use go_arch_guard.Structural.LogicBudget.{FunctionMetrics, measure}

unfoldable pub spec : RuleConfig → RuleSpec
spec cfg = record {
  id = "orchestration.logic-budget";
  description = "orchestration functions should stay within configurable control-flow budgets";
  default_severity = cfg.severity;
  violations = [];
}

-- `n > budget`
abbrev pub exceeds : ℕ → ℤ → Bool
exceeds n (pos budget) = ltb budget n
exceeds n (negsuc k) = true

abbrev reason : Format → String → ℕ → ℤ → List String
reason fmt name n budget =
    if exceeds n budget
    then (name ^^ " " ^^ fmt.decimal n ^^ " > " ^^ fmt.integer budget) ∷ []
    else []

unfoldable pub exceeded_reasons : Format → RuleConfig → FunctionMetrics → List String
exceeded_reasons fmt cfg m =
    reason fmt "branches" m.branches cfg.max_branches
    ++ reason fmt "statements" m.statements cfg.max_statements
    ++ reason fmt "cyclomatic" m.cyclomatic cfg.max_cyclomatic

-- `strings.Join(reasons, ", ")`
join_comma : List String → String
join_comma [] = ""
join_comma (s ∷ []) = s
join_comma (s ∷ t ∷ rest) = s ^^ ", " ^^ join_comma (t ∷ rest)

unfoldable pub match_path_pattern : String → String → Bool
unfolding has_suffix trim_suffix trim_right_slash has_prefix
match_path_pattern pattern path =
    if has_suffix pattern "..."
    then (let prefix = trim_right_slash (trim_suffix pattern "...") in
        path == prefix || has_prefix path (prefix ^^ "/"))
    else pattern == path

unfoldable pub is_ignored_path : RuleConfig → String → Bool
unfolding normalize_match_path match_path_pattern any
is_ignored_path cfg path =
    let path' = normalize_match_path path in
    any (λ pattern. match_path_pattern (normalize_match_path pattern) path') cfg.ignored_paths

abbrev pub is_ignored : RuleConfig → String → Bool
is_ignored cfg name = contains cfg.ignored_functions name

unfoldable pub normalize_orchestration_dirs : List String → String → List String
unfolding normalize_match_path filter after_slash
normalize_orchestration_dirs dirs internal_root =
    let root = if internal_root == "" then "internal" else internal_root in
    map (λ dir. if is_some (after_slash dir) then dir else root ^^ "/" ^^ dir)
      (filter (λ dir. not (dir == "")) (map normalize_match_path dirs))

unfoldable pub orchestration_dirs : RuleConfig → LayoutModel → List String
unfolding normalize_orchestration_dirs
orchestration_dirs cfg layout =
    if not (is_nil cfg.orchestration_dirs)
    then normalize_orchestration_dirs cfg.orchestration_dirs layout.internal_root
    else if layout.orchestration_dir == ""
    then []
    else normalize_orchestration_dirs (layout.orchestration_dir ∷ []) layout.internal_root

unfoldable pub is_orchestration_package : Package → String → List String → Bool
unfolding any has_prefix
is_orchestration_package pkg project_module dirs =
    let rel = project_relative_package_path pkg.pkg_path project_module in
    not (project_module == "" || rel == "" || rel == ".")
    && any (λ dir. rel == dir || has_prefix rel (dir ^^ "/")) dirs

-- a loop that appends what each element gives, until one panics
unfoldable pub collect_reports :
    {A : Type 0} → (A → Option (List Violation)) → List A → Option (List Violation)
collect_reports f [] = some []
collect_reports f (x ∷ xs) =
    let rest = collect_reports f xs in
    elim (f x) [ none ↦ none | some vs ↦ elim rest [ none ↦ none | some ws ↦ some (vs ++ ws) ] ]

abbrev pub to_checked : String → Option (List Violation) → Checked
to_checked recovered none = panicked recovered
to_checked recovered (some vs) = returned vs

module _ (host : Host) (files : Package → List SourceFile) (typed : Package → Bool)
    (cfg : RuleConfig) where
  unfoldable pub over_budget : Package → FuncDecl → List String → Violation
  unfolding join_comma
  over_budget pkg fd reasons = record {
    file = relative_path_for_package host pkg fd.filename;
    line = fd.line;
    rule = "orchestration.logic-budget";
    message =
        "orchestration function "
        ^^ host.format.quote fd.name
        ^^ " exceeds logic budget: "
        ^^ join_comma reasons;
    fix = "move business decisions into domain/app services or raise the configured budget";
    default_severity = cfg.severity;
    effective_severity = cfg.severity;
  }

  -- what follows the measure
  abbrev report_metrics : Package → FuncDecl → Option FunctionMetrics → Option (List Violation)
  report_metrics pkg fd none = none
  report_metrics pkg fd (some m) =
      let reasons = exceeded_reasons host.format cfg m in
      if is_nil reasons then some [] else some (over_budget pkg fd reasons ∷ [])

  abbrev check_body : Package → FuncDecl → Option Stmts → Option (List Violation)
  check_body pkg fd none = some []
  check_body pkg fd (some body) =
      if is_ignored cfg fd.name
      then some []
      else report_metrics pkg fd (measure cfg.count_error_branches (typed pkg) fd body)

  -- the function that is called for each declaration
  unfoldable pub check_decl : Package → FuncDecl → Option (List Violation)
  unfolding exceeded_reasons over_budget measure contains
  check_decl pkg fd = check_body pkg fd fd.body

  -- a file that the rule passes over
  abbrev pub is_skipped : Context → Package → SourceFile → Bool
  is_skipped ctx pkg file =
      let path = relative_path_for_package host pkg file.filename in
      has_suffix file.filename "_test.go" || is_excluded ctx path || is_ignored_path cfg path

  unfoldable pub check_file : Context → Package → SourceFile → Option (List Violation)
  unfolding collect_reports check_decl is_ignored_path has_suffix
  check_file ctx pkg file =
      if is_skipped ctx pkg file then some [] else collect_reports (check_decl pkg) file.decls

  unfoldable pub check_package : Context → Package → Option (List Violation)
  unfolding check_file
  check_package ctx pkg = collect_reports (check_file ctx pkg) (files pkg)

  unfoldable pub check : String → Context → Checked
  unfolding check_package is_orchestration_package orchestration_dirs
  check recovered ctx =
      let dirs = orchestration_dirs cfg (context_arch ctx).layout in
      let project_module = resolve_module_from_context ctx "" in
      if is_nil dirs
      then returned []
      else to_checked recovered (
          collect_reports (check_package ctx)
            (filter (λ pkg. is_orchestration_package pkg project_module dirs) ctx.pkgs))
