-- ===== src/Core/Runner/Emitted.antt =====
-- What a rule hands to `Run`, and what `Run` makes of it before the severities.
use go_arch_guard.Prelude.{
  String, ◌≡◌, refl, sym, subst, ◌⊎◌, ◌↔◌, inl, inr, Bool, true, false, some, List, ◌^^◌, In,
  contains_iff, arith,
}
use go_arch_guard.Core.Violation.{error, Format, Violation, RuleSpec}
use go_arch_guard.Core.Context.{Context}
use go_arch_guard.Core.RuleSet.{Rule, Checked, returned, panicked}
use go_arch_guard.Core.Options.{RunOpts}
use go_arch_guard.Core.Runner.{safe_check, declare, weigh, settle}
use go_arch_guard.Core.Catalog.{is_meta, rule_known_ids}
use go_arch_guard.Core.Runner.Declared.{Declares, rule_known_ids_iff}
use go_arch_guard.Core.Runner.Settled.{settle-eq-some}

Checked-cases :
    (c : Checked) → ((vs : List Violation) × (c ≡ returned vs)) ⊎ ((e : String) × (c ≡ panicked e))
Checked-cases (returned vs) = inl (vs, refl)
Checked-cases (panicked e) = inr (e, refl)

module _ (fmt : Format) where
  -- `v` reports that the rule `id` panicked with `e`.
  abbrev pub IsPanic : String → String → Violation → Type 0
  IsPanic id e v =
      (v.file ≡ "")
      × (v.line ≡ 0)
      × (v.rule ≡ "meta.rule-panic")
      × (v.message ≡ "rule " ^^ fmt.quote id ^^ " panicked: " ^^ e)
      × (v.fix ≡ "report the panic to the rule author; other rules continue to run")
      × (v.default_severity ≡ error)
      × (v.effective_severity ≡ error)

  -- The check of the rule returned `v`, or it panicked and `v` reports that.
  abbrev pub Emits : Context → Rule → Violation → Type 0
  Emits ctx r v =
      ((vs : List Violation) × (r.check ctx ≡ returned vs) × In v vs)
      ⊎ ((e : String) × (r.check ctx ≡ panicked e) × IsPanic r.spec.id e v)

  -- `w` names an ID that the rule emitted and neither declares nor takes from "meta.".
  abbrev pub NamesUndeclared : RuleSpec → Violation → Violation → Type 0
  NamesUndeclared spec v w =
      (w.rule ≡ "meta.unknown-violation-id")
      × (w.message
          ≡ "rule " ^^ fmt.quote spec.id ^^ " emitted undeclared violation ID " ^^ fmt.quote v.rule)
      × (w.fix
          ≡ "declare "
            ^^ fmt.quote v.rule
            ^^ " in "
            ^^ spec.id
            ^^ ".Spec().Violations or fix the typo in Check()")

  abbrev pub SameText : Violation → Violation → Type 0
  SameText v w = (w.rule ≡ v.rule) × (w.message ≡ v.message) × (w.fix ≡ v.fix)

  -- What `Run` shows for `v`, the severities aside: the same position, and the same ID and texts, or,
  -- where the rule may not emit the ID, those that report this.
  abbrev pub Becomes : RuleSpec → Violation → Violation → Type 0
  Becomes spec v w =
      (w.file ≡ v.file)
      × (w.line ≡ v.line)
      × (((Declares spec v.rule ⊎ (is_meta v.rule ≡ true)) × SameText v w)
          ⊎ ((¬ Declares spec v.rule) × (is_meta v.rule ≡ false) × NamesUndeclared spec v w))

  Emits-safe_check :
      (ctx : Context) (r : Rule) (v : Violation) → In v (safe_check fmt r ctx) → Emits ctx r v
  unfolding safe_check
  Emits-safe_check ctx r v m = elim (Checked-cases (r.check ctx)) [
    | inl (vs, e) ↦ inl (vs, e, ground arith)
    | inr (e, h) ↦ inr (e, h, ground arith)
  ]

  safe_check-Emits :
      (ctx : Context) (r : Rule) (v : Violation) → Emits ctx r v → In v (safe_check fmt r ctx)
  unfolding safe_check
  safe_check-Emits ctx r v (inl (vs, e, m)) = ground (arith, e, m)
  safe_check-Emits ctx r v (inr (e, h, p)) = ground (arith, h, p)

  -- Both directions of what the check hands over.
  pub safe_check_iff :
      (ctx : Context) (r : Rule) (v : Violation) → In v (safe_check fmt r ctx) ↔ Emits ctx r v
  safe_check_iff ctx r v = (Emits-safe_check ctx r v, safe_check-Emits ctx r v)

  pub declare-Becomes :
      (o : RunOpts) (spec : RuleSpec) (v : Violation)
      → Becomes spec v (weigh spec o (declare fmt spec v))
  unfolding declare
  declare-Becomes o spec v =
      ground (arith, rule_known_ids_iff spec v.rule, contains_iff (rule_known_ids spec) v.rule)

  pub settle-Becomes :
      (skipped : String → Bool) (o : RunOpts) (spec : RuleSpec) (v w : Violation)
      → settle fmt skipped o spec v ≡ some w
      → Becomes spec v w
  settle-Becomes skipped o spec v w h =
      subst (Becomes spec v) (sym (settle-eq-some fmt spec o skipped v w h).0)
        (declare-Becomes o spec v)
