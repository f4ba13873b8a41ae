-- ===== src/Core/Runner/Output.antt =====
-- The list that `Run` returns: sound, complete, without meta duplicates, and in order.
use go_arch_guard.Prelude.{
  ◌≡◌, refl, subst, ◌⊎◌, ◌↔◌, ◌<◌, ◌∷◌, String, contains_iff, arith, eq_iff, All-of_forall, All-at,
  Bool-cases, inl, inr, true, false, some, List, [], In, All, All-flat_map, All-filter_map,
  In-flat_map, In-filter_map,
}
use go_arch_guard.Prelude.Order.{IsWeakOrder, by_key-IsWeakOrder, str-IsLinear, ℕ-IsLinear, str_lt}
use go_arch_guard.Prelude.Sort.{IsSorted, sort-IsSorted, All-sort, In-sort, Pairs, Pairs-sort}
use go_arch_guard.Core.Violation.{Format, Violation, RuleSpec}
use go_arch_guard.Core.Context.{Context}
use go_arch_guard.Core.RuleSet.{Rule, RuleSet, is_violation_skipped}
use go_arch_guard.Core.Runner.{
  safe_check, declare, weigh, settle, collect, dedupe, seen_key, violation_less, returns, report,
  run,
}
use go_arch_guard.Core.Options.{RunOpts, RunOption, new_run_opts}
use go_arch_guard.Core.Catalog.{is_meta}
use go_arch_guard.Core.Runner.Accepts.{run_with-returns_iff}
use go_arch_guard.Core.Runner.Settled.{IsWeighed, weigh-IsWeighed, declare-known, settle-IsWeighed}
use go_arch_guard.Core.Runner.Emitted.{
  Emits, Becomes, safe_check_iff, declare-Becomes, settle-Becomes,
}
use go_arch_guard.Core.Runner.Dedupe.{
  SameKey, Apart, Apart-sym, All-dedupe, dedupe-Apart, dedupe-Kept,
}

pub violation_order : IsWeakOrder violation_less
unfolding violation_less
violation_order =
    by_key-IsWeakOrder str-IsLinear (λ v. v.file)
      (by_key-IsWeakOrder ℕ-IsLinear (λ v. v.line)
        (by_key-IsWeakOrder str-IsLinear (λ v. v.rule) (message_order)))
  where
    message_order : IsWeakOrder (λ (a b : Violation). str_lt a.message b.message)
    message_order = record {
      asym = λ a b. str-IsLinear.weak.asym a.message b.message;
      le_trans = λ a b c. str-IsLinear.weak.le_trans a.message b.message c.message;
    }

-- The order of the report: by file, then line, then rule, then message.
abbrev pub InOrder : Violation → Violation → Type 0
InOrder a b =
    (str_lt a.file b.file ≡ true)
    ⊎ ((a.file ≡ b.file)
        × ((a.line < b.line)
            ⊎ ((a.line ≡ b.line)
                × ((str_lt a.rule b.rule ≡ true)
                    ⊎ ((a.rule ≡ b.rule) × (str_lt b.message a.message ≡ false))))))

violation_less-InOrder : (a b : Violation) → violation_less b a ≡ false → InOrder a b
unfolding violation_less
violation_less-InOrder a b h = ground (
  arith,
  eq_iff b.file a.file,
  eq_iff b.rule a.rule,
  str-IsLinear.antisym a.file b.file,
  str-IsLinear.antisym a.rule b.rule,
)

IsSorted-Pairs : (vs : List Violation) → IsSorted violation_less vs → Pairs InOrder vs
IsSorted-Pairs [] s = tt
IsSorted-Pairs (v ∷ vs) (a, s) = (
  All-of_forall (InOrder v) vs λ w m. violation_less-InOrder v w (All-at _ vs w a m),
  IsSorted-Pairs vs s,
)

-- A violation of the result: what became of one that a rule of the set emitted. Its ID is one that this
-- rule may emit and is not filtered out, and its severities follow the precedence.
pub record IsReported (fmt : Format) (ctx : Context) (rules : RuleSet) (o : RunOpts) (v : Violation)
    : Type 0 where
  pub rule : Rule
  pub member : In rule rules.rules
  pub emitted : (u : Violation) × Emits fmt ctx rule u × Becomes fmt rule.spec u v
  pub weighed : IsWeighed o rule.spec v
  pub kept : ¬ In v.rule rules.skip_violation_ids

module _ (fmt : Format) (ctx : Context) (rules : RuleSet) where
  is_violation_skipped_iff :
      (id : String) → (is_violation_skipped rules id ≡ true) ↔ In id rules.skip_violation_ids
  unfolding is_violation_skipped
  is_violation_skipped_iff id = contains_iff rules.skip_violation_ids id

  collect-IsReported :
      (o : RunOpts)
      → All
          (IsReported fmt ctx rules o)
          (collect fmt (is_violation_skipped rules) o ctx rules.rules)
  unfolding collect
  collect-IsReported o = All-flat_map _ _ rules.rules λ r member.
      All-filter_map _ _ (safe_check fmt r ctx) λ u v emitted settled.
        let (weighed, kept) =
          settle-IsWeighed fmt r.spec o (is_violation_skipped rules) u v settled in
        record {
          rule = r;
          member = member;
          emitted = (
            u,
            (safe_check_iff fmt ctx r u).0 emitted,
            settle-Becomes fmt (is_violation_skipped rules) o r.spec u v settled,
          );
          weighed = weighed;
          kept = λ m. absurd (cc (kept, (is_violation_skipped_iff v.rule).1 m));
        }

  -- Where a violation of rule `r` ends up.
  abbrev pub Shown : Violation → List Violation → Type 0
  Shown w out = In w out ⊎ ((is_meta w.rule ≡ true) × ((u : Violation) × In u out × SameKey w u))

  report-Shown :
      (o : RunOpts) (r : Rule) (v w : Violation)
      → In r rules.rules
      → In v (safe_check fmt r ctx)
      → settle fmt (is_violation_skipped rules) o r.spec v ≡ some w
      → Shown w (report fmt ctx rules o)
  unfolding report collect seen_key
  report-Shown o r v w member emitted settled =
      let all = collect fmt (is_violation_skipped rules) o ctx rules.rules in
      let listed : In w all =
        In-flat_map _ w rules.rules r member
          (In-filter_map _ v w (safe_check fmt r ctx) emitted settled) in
      elim (dedupe-Kept [] all w listed) [
        | inl m ↦ inl (In-sort violation_less w (dedupe [] all) m)
        | inr (m, inl s) ↦ absurd (cc s)
        | inr (m, inr (u, i, same)) ↦ inr (m, (u, In-sort violation_less u (dedupe [] all) i, same))
      ]

  settled-or :
      (spec : RuleSpec) (u : Violation) (o : RunOpts)
      → (w : Violation) × Becomes fmt spec u w
        × IsWeighed o spec w
        × (In w.rule rules.skip_violation_ids
            ⊎ (settle fmt (is_violation_skipped rules) o spec u ≡ some w))
  unfolding settle
  settled-or spec u o =
      let w = weigh spec o (declare fmt spec u) in
      (
        w,
        declare-Becomes fmt o spec u,
        weigh-IsWeighed fmt spec o (declare fmt spec u) (declare-known fmt spec o u),
        elim (Bool-cases (is_violation_skipped rules w.rule)) [
          | inl e ↦ inl ((is_violation_skipped_iff w.rule).0 e)
          | inr e ↦ inr (rw e refl)
        ],
      )

  module _ (opts : List RunOption) (vs : List Violation)
      (ran : run fmt ctx rules opts ≡ returns vs) where
    returned : report fmt ctx rules (new_run_opts opts) ≡ vs
    unfolding run
    returned = ((run_with-returns_iff fmt ctx rules (new_run_opts opts) vs).0 ran).1

    -- Every violation that `Run` returns is what became of one that a rule of the set emitted: one that
    -- its check returned, or the report of its panic. It has that one's file, line, ID and texts, or
    -- reports its ID as undeclared. Its ID is declared by that rule or begins with "meta.", `Without`
    -- does not name it, its default severity is that of the rule's catalog, or else Error for a panic
    -- and an undeclared ID, Warning for another meta ID and the rule's own default for the rest, and an
    -- override replaces the effective severity.
    pub run-IsReported : All (IsReported fmt ctx rules (new_run_opts opts)) vs
    unfolding report
    run-IsReported =
        subst (All _) returned
          (All-sort violation_less _ _ (All-dedupe _ [] _ (collect-IsReported (new_run_opts opts))))

    pub run-IsSorted : IsSorted violation_less vs
    unfolding report
    run-IsSorted =
        subst (IsSorted violation_less) returned (sort-IsSorted violation_less violation_order _)

    -- Each violation of the result is, against every later one, of a smaller file, or of the same file
    -- and a smaller line, or of the same line too and a smaller rule, or of the same rule too and a
    -- message that is not greater.
    pub run-InOrder : Pairs InOrder vs
    run-InOrder = IsSorted-Pairs vs run-IsSorted

    -- No two violations of the result have the same meta ID and message.
    pub run-Apart : Pairs Apart vs
    unfolding report
    run-Apart =
        subst (Pairs Apart) returned
          (Pairs-sort violation_less Apart Apart-sym _ (dedupe-Apart [] _))

    -- What a rule of the set emits, which is each violation that its check returns and the report of its
    -- panic, becomes a violation with the same file, line, ID and texts, or with those that report an
    -- undeclared ID, whose severities follow the precedence. `Without` names the ID of that violation,
    -- or the violation is in the result, or, for a meta ID, another with the same ID and message is.
    pub run-Shown :
        (r : Rule) (u : Violation)
        → In r rules.rules
        → Emits fmt ctx r u
        → (w : Violation) × Becomes fmt r.spec u w
          × IsWeighed (new_run_opts opts) r.spec w
          × (In w.rule rules.skip_violation_ids ⊎ Shown w vs)
    run-Shown r u member emits =
        let o = new_run_opts opts in
        let (w, becomes, weighed, out) = settled-or r.spec u o in
        (
          w,
          becomes,
          weighed,
          elim out [
            | inl skipped ↦ inl skipped
            | inr settled ↦ inr (
                subst (Shown w) returned
                  (report-Shown o r u w member ((safe_check_iff fmt ctx r u).1 emits) settled))
          ],
        )
