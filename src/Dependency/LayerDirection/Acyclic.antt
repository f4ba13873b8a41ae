-- ===== src/Dependency/LayerDirection/Acyclic.antt =====
-- What a clean run of `dependency.layer-direction` gives under a valid architecture: the imports
-- between the sublayers of the domains have no cycle.
use go_arch_guard.Prelude.{
  String, true, false, not, ◌||◌, ◌&&◌, none, List, [], ◌==◌, ◌^^◌, ◌≡◌, ◌≢◌, inl, inr, ap, Map,
  subst, lookup, contains, contains_iff, has_prefix, All, All-at, In, arith, eq_iff, Option-cases,
}
use go_arch_guard.Core.Violation.{Severity}
use go_arch_guard.Core.Context.{Package, Context, context_arch}
use go_arch_guard.Core.Validate.Laws.{IsValid}
use go_arch_guard.Core.Validate.Cycle.Graph.{Edge, Leads, one, more}
use go_arch_guard.Analysis.Packages.{Host, resolve_module_from_context}
use go_arch_guard.Analysis.Sublayer.{is_known_sublayer}
use go_arch_guard.Dependency.Classify.{
  kind_domain, kind_shared, kind_orchestration, kind_unclassified, kind_eq, Classified,
  classify_internal_package, is_excluded_package, validate_module, has_internal_packages,
}
use go_arch_guard.Dependency.LayerDirection.{check}
use go_arch_guard.Dependency.LayerDirection.Allowed.{Names, Directed, Keeps, layer_check-nil_iff}

-- what separates internal packages from the rest
abbrev pub internal_prefix : Context → String
internal_prefix ctx =
    resolve_module_from_context ctx "" ^^ "/" ^^ (context_arch ctx).layout.internal_root ^^ "/"

abbrev pub class_of : Context → String → Classified
class_of ctx path = classify_internal_package (context_arch ctx) path (internal_prefix ctx)

-- A package that is not excluded, in the sublayer `a` of a domain, imports a package in another
-- sublayer `b` of that domain.
pub record Imports (ctx : Context) (a b : String) : Type 0 where
  pub pkg : Package
  pub path : String
  pub loaded : In pkg ctx.pkgs
  pub checked :
      (is_excluded_package ctx pkg.pkg_path (resolve_module_from_context ctx "")
        || not (has_prefix pkg.pkg_path (internal_prefix ctx)))
      ≡ false
  pub source_kind : (class_of ctx pkg.pkg_path).kind ≡ kind_domain
  pub source : (class_of ctx pkg.pkg_path).sublayer ≡ a
  pub imported : In path pkg.imports
  pub internal : has_prefix path (internal_prefix ctx) ≡ true
  pub target_kind : (class_of ctx path).kind ≡ kind_domain
  pub target : (class_of ctx path).sublayer ≡ b
  pub same_domain : ((class_of ctx path).domain == (class_of ctx pkg.pkg_path).domain) ≡ true
  pub from_named : a ≢ ""
  pub to_named : b ≢ ""
  pub apart : a ≢ b

-- a chain of such imports
pub data Reaches (ctx : Context) : String → String → Type 0 where
  step : {a b : String} → Imports ctx a b → Reaches ctx a b
  steps : {a b c : String} → Imports ctx a b → Reaches ctx b c → Reaches ctx a c

Edge-of_Names :
    (direction : Map (List String)) (a b : String)
    → lookup direction a ≢ none
    → Names (lookup direction a) b
    → Edge direction a b
Edge-of_Names direction a b h n = elim (Option-cases (lookup direction a)) [
  | inl e ↦ absurd (h e)
  | inr (allowed, e) ↦ (let n' = subst (λ o. Names o b) e n in rw e n')
]

Known-of_test :
    (known : List String) (a : String)
    → a ≢ ""
    → (not (a == "") && not (contains known a)) ≡ false
    → contains known a ≡ true
Known-of_test known a named test = ground (arith, eq_iff a "")

module _ (ctx : Context) (valid : IsValid (context_arch ctx))
    (keeps : All
      (Keeps ctx (context_arch ctx) (resolve_module_from_context ctx "") (internal_prefix ctx))
      ctx.pkgs) where
  Edge-of_Imports : {a b : String} → Imports ctx a b → Edge (context_arch ctx).layers.direction a b
  unfolding is_known_sublayer
  Edge-of_Imports {a = a} {b = b} i =
      let arch = context_arch ctx in
      let src = class_of ctx i.pkg.pkg_path in
      let imp = class_of ctx i.path in
      let (known, imports) =
        All-at _ ctx.pkgs i.pkg keeps i.loaded i.checked
          (ap (λ k. kind_eq k kind_domain) i.source_kind) in
      let import = All-at _ i.pkg.imports i.path imports i.imported i.internal in
      let inner =
        import.1 (ap (λ k. kind_eq k kind_shared) i.target_kind)
          (ap (λ k. kind_eq k kind_orchestration || kind_eq k kind_unclassified) i.target_kind)
          i.same_domain in
      let directed =
        subst (λ x. Directed arch.layers.direction x b) i.source
          (subst (λ y. Directed arch.layers.direction src.sublayer y) i.target inner.1) in
      let member = (contains_iff arch.layers.sublayers a).0 (
        Known-of_test arch.layers.sublayers a i.from_named (
          subst (λ x. (not (x == "") && not (contains arch.layers.sublayers x)) ≡ false) i.source
            known)) in
      elim directed [
        | inl e ↦ absurd (i.to_named e)
        | inr (inl e) ↦ absurd (i.apart e)
        | inr (inr n) ↦
            Edge-of_Names arch.layers.direction a b
              (All-at _ arch.layers.sublayers a valid.keyed member) n
      ]

  Leads-of_Reaches :
      {a b : String} → Reaches ctx a b → Leads (context_arch ctx).layers.direction a b
  Leads-of_Reaches (step i) = one (Edge-of_Imports i)
  Leads-of_Reaches (steps i r) = more (Edge-of_Imports i) (Leads-of_Reaches r)

-- Under a valid architecture with a domain directory, a run of the rule that finds nothing, on a
-- module that its packages belong to and that has internal packages, leaves no chain of imports that
-- goes from a sublayer through other sublayers of the domains back to it.
pub check-Acyclic :
    (host : Host) (severity : Severity) (ctx : Context)
    → IsValid (context_arch ctx)
    → ((context_arch ctx).layout.domain_dir == "") ≡ false
    → validate_module host.format ctx.pkgs (resolve_module_from_context ctx "") ≡ []
    → has_internal_packages ctx.pkgs
        (resolve_module_from_context ctx "")
        (context_arch ctx).layout.internal_root
      ≡ true
    → check host severity ctx ≡ []
    → (a : String) → ¬ Reaches ctx a a
check-Acyclic host severity ctx valid dir known internal clean a r = valid.acyclic a (
    Leads-of_Reaches ctx valid ((layer_check-nil_iff host severity ctx dir known internal).0 clean)
      r)
