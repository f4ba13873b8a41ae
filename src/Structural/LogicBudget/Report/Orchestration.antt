-- ===== src/Structural/LogicBudget/Report/Orchestration.antt =====
-- Which packages the rule looks at.
use go_arch_guard.Prelude.{
  String, true, false, ◌||◌, ◌==◌, ◌^^◌, List, [], ◌∷◌, ◌≡◌, ◌≢◌, ◌↔◌, ◌⊎◌, inl, inr, refl, subst,
  In, filter, is_nil, is_some, has_prefix, has_prefix_iff, arith, eq_iff, Bool-cases,
}
use go_arch_guard.Prelude.Search.{any_iff}
use go_arch_guard.Prelude.Split.{after_slash}
use go_arch_guard.Core.Architecture.{LayoutModel}
use go_arch_guard.Core.Paths.{normalize_match_path}
use go_arch_guard.Core.Context.{Package}
use go_arch_guard.Analysis.Packages.{project_relative_package_path}
use go_arch_guard.Structural.Options.{RuleConfig}
use go_arch_guard.Structural.LogicBudget.Report.{
  normalize_orchestration_dirs, orchestration_dirs, is_orchestration_package,
}

-- a directory as it is named: one of the configured, or the layout's where none is configured
abbrev pub IsNamedDir : RuleConfig → LayoutModel → String → Type 0
IsNamedDir cfg layout name =
    ((cfg.orchestration_dirs ≢ []) × In name cfg.orchestration_dirs)
    ⊎ ((cfg.orchestration_dirs ≡ [])
        × (layout.orchestration_dir ≢ "")
        × (name ≡ layout.orchestration_dir))

-- A directory of which the normalized name is `dir`, or of which it is the one segment below the internal
-- root, which is "internal" where the layout names none.
abbrev pub IsDirOf : LayoutModel → String → String → Type 0
IsDirOf layout name dir =
    let path = normalize_match_path name in
    (path ≢ "")
    × (((is_some (after_slash path) ≡ true) × (dir ≡ path))
        ⊎ ((is_some (after_slash path) ≡ false)
            × (((layout.internal_root ≢ "") × (dir ≡ layout.internal_root ^^ "/" ^^ path))
                ⊎ ((layout.internal_root ≡ "") × (dir ≡ "internal" ^^ "/" ^^ path)))))

abbrev HasDir : LayoutModel → List String → String → Type 0
HasDir layout names dir = (name : String) × In name names × IsDirOf layout name dir

IsDirOf-cons :
    (layout : LayoutModel) (name : String) (names : List String) (dir : String)
    → HasDir layout (name ∷ names) dir ↔ (IsDirOf layout name dir ⊎ HasDir layout names dir)
IsDirOf-cons layout name names dir = (
  λ (n, m, d). elim m [
    | inl e ↦ inl (subst (λ x. IsDirOf layout x dir) e d)
    | inr k ↦ inr (n, k, d)
  ],
  λ h. elim h [ inl d ↦ (name, inl refl, d) | inr (n, k, d) ↦ (n, inr k, d) ],
)

normalize_orchestration_dirs_iff :
    (layout : LayoutModel) (names : List String) (dir : String)
    → In dir (normalize_orchestration_dirs names layout.internal_root) ↔ HasDir layout names dir
unfolding normalize_orchestration_dirs filter
normalize_orchestration_dirs_iff layout [] dir = (λ h. absurd h, λ (n, m, d). absurd m)
normalize_orchestration_dirs_iff layout (name ∷ names) dir = ground (
  arith,
  IsDirOf-cons layout name names dir,
  normalize_orchestration_dirs_iff layout names dir,
  eq_iff (normalize_match_path name) "",
  eq_iff layout.internal_root "",
)

is_nil-cases :
    {A : Type 0}
    → (xs : List A) → ((is_nil xs ≡ true) × (xs ≡ [])) ⊎ ((is_nil xs ≡ false) × (xs ≢ []))
is_nil-cases [] = inl (refl, refl)
is_nil-cases (x ∷ xs) = inr (refl, λ e. absurd (cc e))

-- one of the directories that the rule looks at
abbrev pub IsOrchestrationDir : RuleConfig → LayoutModel → String → Type 0
IsOrchestrationDir cfg layout dir =
    (name : String) × IsNamedDir cfg layout name × IsDirOf layout name dir

pub orchestration_dirs_iff :
    (cfg : RuleConfig) (layout : LayoutModel) (dir : String)
    → In dir (orchestration_dirs cfg layout) ↔ IsOrchestrationDir cfg layout dir
unfolding orchestration_dirs
orchestration_dirs_iff cfg layout dir =
    let given = normalize_orchestration_dirs_iff layout cfg.orchestration_dirs dir in
    let usual = normalize_orchestration_dirs_iff layout (layout.orchestration_dir ∷ []) dir in
    elim (is_nil-cases cfg.orchestration_dirs) [
      | inl (e, empty) ↦ elim (Bool-cases (layout.orchestration_dir == "")) [
        | inl unset ↦
            rw (e, unset)
              (
                λ h. absurd h,
                λ (name, named, d). elim named [
                  | inl (ne, m) ↦ absurd (ne empty)
                  | inr (k, ne, same) ↦ absurd (ne ((eq_iff layout.orchestration_dir "").0 unset))
                ],
              )
        | inr set ↦
            rw (e, set)
              (
                λ h.
                    let (name, m, d) = usual.0 h in
                    elim m [
                      | inl same ↦ (
                        name,
                        inr (
                          empty,
                          (λ k. absurd (cc (set, (eq_iff layout.orchestration_dir "").1 k))),
                          same,
                        ),
                        d,
                      )
                      | inr k ↦ absurd k
                    ],
                λ (name, named, d). elim named [
                  | inl (ne, m) ↦ absurd (ne empty)
                  | inr (k, ne, same) ↦ usual.1 (name, inl same, d)
                ],
              )
      ]
      | inr (e, full) ↦ rw e (
        λ h. let (name, m, d) = given.0 h in (name, inl (full, m), d),
        λ (name, named, d). elim named [
          | inl (ne, m) ↦ given.1 (name, m, d)
          | inr (empty, ne, same) ↦ absurd (full empty)
        ],
      )
    ]

-- The package is a directory of orchestration or lies below one, by its path from the project's module.
abbrev pub IsOrchestration : RuleConfig → LayoutModel → String → Package → Type 0
IsOrchestration cfg layout project_module pkg =
    let rel = project_relative_package_path pkg.pkg_path project_module in
    (project_module ≢ "")
    × (rel ≢ "")
    × (rel ≢ ".")
    × ((dir : String) × IsOrchestrationDir cfg layout dir
        × ((rel ≡ dir) ⊎ ((r : String) × (rel ≡ (dir ^^ "/") ^^ r))))

pub is_orchestration_package_iff :
    (cfg : RuleConfig) (layout : LayoutModel) (project_module : String) (pkg : Package)
    → (is_orchestration_package pkg project_module (orchestration_dirs cfg layout) ≡ true)
      ↔ IsOrchestration cfg layout project_module pkg
unfolding is_orchestration_package
is_orchestration_package_iff cfg layout m pkg =
    let rel = project_relative_package_path pkg.pkg_path m in
    let holds = λ (dir : String). rel == dir || has_prefix rel (dir ^^ "/") in
    let (down, up) = any_iff holds (orchestration_dirs cfg layout) in
    (
      λ h.
          let (dir, at, k) = down (ground (arith, h)) in
          (
            ground (arith, h, eq_iff m ""),
            ground (arith, h, eq_iff rel ""),
            ground (arith, h, eq_iff rel "."),
            (
              dir,
              (orchestration_dirs_iff cfg layout dir).0 at,
              ground (arith, k, eq_iff rel dir, has_prefix_iff rel (dir ^^ "/")),
            ),
          ),
      λ (a, b, c, (dir, is, where_it_is)).
          let k : holds dir ≡ true =
            ground (arith, where_it_is, eq_iff rel dir, has_prefix_iff rel (dir ^^ "/")) in
          let listed = up (dir, (orchestration_dirs_iff cfg layout dir).1 is, k) in
          ground (arith, a, b, c, listed, eq_iff m "", eq_iff rel "", eq_iff rel "."),
    )
