-- ===== src/Examples/Runs.antt =====
-- The claims on `Run`, at the run of a rule set over the project whose model imports its handler.
use go_arch_guard.Prelude.{◌≡◌, refl, ◌⊎◌, inl, inr, List, [], ◌∷◌, ◌++◌, ◌↔◌, map, All, In}
use go_arch_guard.Prelude.{
  contains, lookup, put, flat_map, filter, any, filter_map, cut_prefix, has_prefix, trim_prefix,
  flag,
}
use go_arch_guard.Prelude.Order.{str_lt}
use go_arch_guard.Prelude.Sort.{sort, insert, Pairs}
use go_arch_guard.Prelude.Split.{split_n, before_slash, after_slash}
use go_arch_guard.Core.Architecture.{clone_architecture}
use go_arch_guard.Core.Context.{context_arch, is_excluded}
use go_arch_guard.Core.Violation.{is_valid_severity, Violation, warning}
use go_arch_guard.Core.RuleSet.{is_violation_skipped, without}
use go_arch_guard.Core.Validate.{
  known_layers, sublayer_errors, missing_key_errors, unknown_errors, direction_errors,
  port_subset_errors, empty_key_errors, type_pattern_errors, cycle_errors, passes, errors, validate,
  join,
}
use go_arch_guard.Core.Validate.Cycle.{
  suffix_from, drop_last, close, loop, dfs, search_all, nodes, find_direction_cycle,
}
use go_arch_guard.Core.Runner.{
  settle, collect, seen_key, dedupe, report, safe_check, declare, declared_severity,
  effective_severity, violation_less, run_with, run,
}
use go_arch_guard.Core.Options.{apply_options, new_run_opts, severity_for}
use go_arch_guard.Core.Catalog.{
  rule_set_errors, spec_errors, named_errors, duplicate_errors, violation_severity_errors,
  invalid_override, unknown_ids, check_unknown, sorted_keys, defaults_from, validate_rule_set,
  rule_known_ids, known_violation_ids, defaults_by_id,
}
use go_arch_guard.Analysis.Packages.{
  rel_path_from_root, find_import, find_in_files, first_file, first_module_field,
  find_import_position, relative_path_for_package, resolve_module, resolve_root, first_non_empty,
  resolve_module_from_context, resolve_root_from_context, project_relative_package_path,
}
use go_arch_guard.Analysis.Sublayer.{is_known_sublayer}
use go_arch_guard.Core.Paths.{normalize_match_path, match_exclude_pattern}
use go_arch_guard.Dependency.Classify.{
  is_under_internal_dir, identify_domain_with, has_nested_sublayers, pick_sublayer,
  identify_sublayer_with, is_transport_path, classify_domain, classify_flat,
  classify_internal_package, is_excluded_package, validate_module, has_internal_packages,
  violation_specs,
}
use go_arch_guard.Dependency.LayerDirection.{
  spec, relative_package_file, check_direction, check_domain_import, check_domain_package,
  check_domain, check,
}
use go_arch_guard.Presets.Domains.{ddd_architecture}
use go_arch_guard.Examples.Project.{
  fmt, faulty, layer_rule, broken_rule, rules, panic_violation, found,
}
use go_arch_guard.Core.Runner.{returns}
use go_arch_guard.Core.Options.{with_severity_override}
use go_arch_guard.Core.Runner.Accepts.{Knows, IsRunnable, run-returns_iff}
use go_arch_guard.Core.Runner.Dedupe.{Apart}
use go_arch_guard.Core.Runner.Output.{
  IsReported, InOrder, Shown, run-IsReported, run-InOrder, run-Apart, run-Shown,
}
use go_arch_guard.Core.Runner.Emitted.{Emits, Becomes}
use go_arch_guard.Core.Runner.Settled.{IsWeighed}
use go_arch_guard.Core.Runner.Without.{not_named, run-without}
use go_arch_guard.Core.Runner.Override.{reweigh, run-override}
use go_arch_guard.Json.{json_violation, build_json_report}
use go_arch_guard.Json.Ordered.{build_json_report-run}

run-found : run fmt faulty rules [] ≡ returns found
unfolding contains lookup put flat_map filter any filter_map cut_prefix has_prefix trim_prefix flag
    str_lt sort insert split_n before_slash after_slash clone_architecture context_arch is_excluded
    is_valid_severity is_violation_skipped known_layers sublayer_errors missing_key_errors
    unknown_errors direction_errors port_subset_errors empty_key_errors type_pattern_errors
    cycle_errors passes errors validate join suffix_from drop_last close loop dfs search_all nodes
    find_direction_cycle rule_set_errors spec_errors named_errors duplicate_errors
    violation_severity_errors invalid_override unknown_ids check_unknown sorted_keys settle collect
    seen_key dedupe report apply_options defaults_from validate_rule_set new_run_opts severity_for
    rule_known_ids known_violation_ids defaults_by_id safe_check declare declared_severity
    effective_severity violation_less run_with run rel_path_from_root find_import find_in_files
    first_file first_module_field find_import_position relative_path_for_package resolve_module
    resolve_root first_non_empty resolve_module_from_context resolve_root_from_context
    project_relative_package_path is_known_sublayer normalize_match_path match_exclude_pattern
    is_under_internal_dir identify_domain_with has_nested_sublayers pick_sublayer
    identify_sublayer_with is_transport_path classify_domain classify_flat classify_internal_package
    is_excluded_package validate_module has_internal_packages violation_specs spec
    relative_package_file check_direction check_domain_import check_domain_package check_domain
    check ddd_architecture
run-found = refl

panic_emitted : Emits fmt faulty broken_rule panic_violation
panic_emitted = inr ("boom", refl, (refl, refl, refl, refl, refl, refl, refl))

direction_known : Knows rules "dependency.invalid-import-direction"
unfolding spec violation_specs
direction_known = inl (layer_rule, inl refl, inr (inl refl))

run-returns_iff_example :
    ((vs : List Violation) × (run fmt faulty rules [] ≡ returns vs))
    ↔ IsRunnable faulty rules (new_run_opts [])
run-returns_iff_example = run-returns_iff fmt faulty rules []

run-IsReported_example : All (IsReported fmt faulty rules (new_run_opts [])) found
run-IsReported_example = run-IsReported fmt faulty rules [] found run-found

run-InOrder_example : Pairs InOrder found
run-InOrder_example = run-InOrder fmt faulty rules [] found run-found

build_json_report-run_example : (build_json_report found).violations ≡ map json_violation found
build_json_report-run_example = build_json_report-run fmt faulty rules [] found run-found

run-Apart_example : Pairs Apart found
run-Apart_example = run-Apart fmt faulty rules [] found run-found

run-Shown_example :
    (w : Violation) × Becomes fmt broken_rule.spec panic_violation w
    × IsWeighed (new_run_opts []) broken_rule.spec w
    × (In w.rule rules.skip_violation_ids ⊎ Shown fmt faulty rules w found)
run-Shown_example =
    run-Shown fmt faulty rules [] found run-found broken_rule panic_violation (inr (inl refl))
      panic_emitted

run-without_example :
    run fmt faulty (without rules ("dependency.invalid-import-direction" ∷ [])) []
    ≡ returns (filter (not_named ("dependency.invalid-import-direction" ∷ [])) found)
run-without_example =
    run-without fmt faulty rules ("dependency.invalid-import-direction" ∷ []) [] found
      (direction_known, tt) run-found

run-override_example :
    run fmt faulty rules ([] ++ with_severity_override "meta.rule-panic" warning ∷ [])
    ≡ returns (map (reweigh "meta.rule-panic" warning) found)
unfolding has_prefix
run-override_example =
    run-override fmt faulty rules "meta.rule-panic" warning [] found (inr refl) (inr refl) run-found
