-- ===== src/Core/Runner/Override.antt =====
-- One more override changes the effective severity of its ID, and nothing else of the report.
use go_arch_guard.Prelude.{
  String, ◌≡◌, refl, sym, ap, ◌∙◌, inl, inr, Bool, List, [], ◌∷◌, ◌++◌, ◌==◌, Map, put, lookup-put,
  keys, map, filter_map, flat_map, All, arith, eq_iff, Bool-cases, if◌then◌else◌,
}
use mathlib.Core.List.{map-append}
use go_arch_guard.Prelude.Sort.{sort, map-sort}
use go_arch_guard.Core.Violation.{Severity, Format, Violation, RuleSpec}
use go_arch_guard.Core.Context.{Context}
use go_arch_guard.Core.RuleSet.{Rule, RuleSet, is_violation_skipped}
use go_arch_guard.Core.Runner.{
  safe_check, declare, effective_severity, weigh, settle, collect, dedupe, violation_less, returns,
  report, run,
}
use go_arch_guard.Core.Options.{
  RunOpts, RunOption, with_severity_override, apply_options, new_run_opts, severity_for,
}
use go_arch_guard.Core.Runner.Declared.{IsSeverity}
use go_arch_guard.Core.Runner.Accepts.{Knows, IsRunnable, run_with-returns_iff}

-- a violation of the ID with the effective severity `s`
abbrev pub reweigh : String → Severity → Violation → Violation
reweigh id s v = if v.rule == id then record v { effective_severity = s } else v

module _ (id : String) (s : Severity) where
  reweigh-fields :
      (v : Violation)
      → ((reweigh id s v).file ≡ v.file)
        × ((reweigh id s v).line ≡ v.line)
        × ((reweigh id s v).rule ≡ v.rule)
        × ((reweigh id s v).message ≡ v.message)
  reweigh-fields v = ground arith

  violation_less-reweigh :
      (a b : Violation) → violation_less (reweigh id s a) (reweigh id s b) ≡ violation_less a b
  unfolding violation_less
  violation_less-reweigh a b =
      let (af, al, ar, am) = reweigh-fields a in
      let (bf, bl, br, bm) = reweigh-fields b in rw (af, al, ar, am, bf, bl, br, bm)

  dedupe-reweigh :
      (seen : List (String × String)) (vs : List Violation)
      → map (reweigh id s) (dedupe seen vs) ≡ dedupe seen (map (reweigh id s) vs)
  unfolding dedupe
  dedupe-reweigh seen [] = refl
  dedupe-reweigh seen (v ∷ vs) = ground (
    arith,
    dedupe-reweigh seen vs,
    dedupe-reweigh ((v.rule, v.message) ∷ seen) vs,
    reweigh-fields v,
  )

  weigh-override :
      (spec : RuleSpec) (o : RunOpts) (v : Violation)
      → weigh spec (with_severity_override id s o) v ≡ reweigh id s (weigh spec o v)
  unfolding effective_severity severity_for with_severity_override
  weigh-override spec o v =
      ground
        (arith, lookup-put o.severity_overrides id v.rule s, eq_iff id v.rule, eq_iff v.rule id)

  module _ (fmt : Format) (o : RunOpts) (ctx : Context) (skipped : String → Bool) where
    filter_map-override :
        (spec : RuleSpec) (vs : List Violation)
        → filter_map (settle fmt skipped (with_severity_override id s o) spec) vs
          ≡ map (reweigh id s) (filter_map (settle fmt skipped o spec) vs)
    unfolding filter_map settle
    filter_map-override spec [] = refl
    filter_map-override spec (v ∷ vs) =
        ground (arith, weigh-override spec o (declare fmt spec v), filter_map-override spec vs)

    collect-override :
        (rs : List Rule)
        → collect fmt skipped (with_severity_override id s o) ctx rs
          ≡ map (reweigh id s) (collect fmt skipped o ctx rs)
    unfolding collect flat_map
    collect-override [] = refl
    collect-override (r ∷ rs) =
        rw (map-append, filter_map-override r.spec (safe_check fmt r ctx), collect-override rs)

apply_options-append :
    (opts : List RunOption) (opt : RunOption) (o : RunOpts)
    → apply_options (opts ++ opt ∷ []) o ≡ opt (apply_options opts o)
unfolding apply_options
apply_options-append [] opt o = refl
apply_options-append (p ∷ opts) opt o = apply_options-append opts opt (p o)

All-put :
    (P : Severity → Type 0) (m : Map Severity) (id : String) (s : Severity)
    → P s
    → All (λ e. P e.1) m
    → All (λ e. P e.1) (put m id s)
unfolding put
All-put P [] id s p h = (p, tt)
All-put P ((k, t) ∷ m) id s p (q, h) = elim (Bool-cases (k == id)) [
  | inl e ↦ rw e (p, h)
  | inr e ↦ rw e (q, All-put P m id s p h)
]

All-keys-put :
    (P : String → Type 0) (m : Map Severity) (id : String) (s : Severity)
    → P id
    → All P (keys m)
    → All P (keys (put m id s))
unfolding put
All-keys-put P [] id s p h = (p, tt)
All-keys-put P ((k, t) ∷ m) id s p (q, h) = elim (Bool-cases (k == id)) [
  | inl e ↦ rw e (q, h)
  | inr e ↦ rw e (q, All-keys-put P m id s p h)
]

module _ (fmt : Format) (ctx : Context) (rules : RuleSet) (id : String) (s : Severity) where
  report-override :
      (o : RunOpts)
      → report fmt ctx rules (with_severity_override id s o)
        ≡ map (reweigh id s) (report fmt ctx rules o)
  unfolding report
  report-override o =
      let skipped = is_violation_skipped rules in
      ap (λ vs. sort violation_less (dedupe [] vs))
        (collect-override id s fmt o ctx skipped rules.rules)
      ∙ sym (
          map-sort violation_less (reweigh id s) (violation_less-reweigh id s) _
          ∙ ap (sort violation_less)
              (dedupe-reweigh id s [] (collect fmt skipped o ctx rules.rules)))

  IsRunnable-override :
      (o : RunOpts)
      → IsSeverity s
      → Knows rules id
      → IsRunnable ctx rules o
      → IsRunnable ctx rules (with_severity_override id s o)
  unfolding with_severity_override
  IsRunnable-override o severe known r = record {
    arch = r.arch;
    sound = r.sound;
    distinct = r.distinct;
    severities = All-put IsSeverity o.severity_overrides id s severe r.severities;
    skipped = r.skipped;
    overridden = All-keys-put (Knows rules) o.severity_overrides id s known r.overridden;
  }

  -- If a run returns violations, one more override at the end, of an ID that is declared by a rule or
  -- begins with "meta." and with the severity Error or Warning, gives the same list with that
  -- effective severity on the violations of the ID; an earlier override of the ID is lost.
  pub run-override :
      (opts : List RunOption) (vs : List Violation)
      → IsSeverity s
      → Knows rules id
      → run fmt ctx rules opts ≡ returns vs
      → run fmt ctx rules (opts ++ with_severity_override id s ∷ [])
        ≡ returns (map (reweigh id s) vs)
  unfolding run new_run_opts
  run-override opts vs severe known ran =
      let o = new_run_opts opts in
      let (runnable, same) = (run_with-returns_iff fmt ctx rules o vs).0 ran in
      rw apply_options-append (
        (run_with-returns_iff fmt ctx rules (with_severity_override id s o) _).1 (
          IsRunnable-override o severe known runnable,
          report-override o ∙ ap (map (reweigh id s)) same,
        ))
