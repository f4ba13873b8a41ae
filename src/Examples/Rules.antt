-- ===== src/Examples/Rules.antt =====
-- The claims on the architecture and on the rules, at the projects and the presets.
use go_arch_guard.Prelude.{
  Map, ◌==◌, ◌≡◌, ◌↔◌, refl, inr, none, List, [], ◌∷◌, String, All, map, ◌⊎◌, false, true,
}
use go_arch_guard.Prelude.{
  contains, lookup, put, flat_map, filter, any, filter_map, cut_prefix, has_prefix, trim_prefix,
  flag,
}
use go_arch_guard.Prelude.Split.{split_n, before_slash, after_slash}
use go_arch_guard.Core.Architecture.{clone_architecture}
use go_arch_guard.Core.Context.{context_arch, is_excluded}
use go_arch_guard.Analysis.Packages.{
  rel_path_from_root, find_import, find_in_files, first_file, first_module_field,
  find_import_position, relative_path_for_package, resolve_module, resolve_root, first_non_empty,
  resolve_module_from_context, resolve_root_from_context, project_relative_package_path,
}
use go_arch_guard.Analysis.Sublayer.{is_known_sublayer}
use go_arch_guard.Core.Paths.{normalize_match_path, match_exclude_pattern}
use go_arch_guard.Dependency.Classify.{
  is_under_internal_dir, identify_domain_with, has_nested_sublayers, pick_sublayer,
  identify_sublayer_with, is_transport_path, classify_domain, classify_flat,
  classify_internal_package, is_excluded_package, validate_module, has_internal_packages,
  violation_specs,
}
use go_arch_guard.Dependency.LayerDirection.{
  spec, relative_package_file, check_direction, check_domain_import, check_domain_package,
  check_domain, check,
}
use go_arch_guard.Presets.Domains.{ddd_architecture}
use go_arch_guard.Core.Violation.{error}
use go_arch_guard.Prelude.Order.{str_lt}
use go_arch_guard.Prelude.Sort.{sort, insert}
use go_arch_guard.Core.Validate.{
  known_layers, sublayer_errors, missing_key_errors, unknown_errors, direction_errors,
  port_subset_errors, empty_key_errors, type_pattern_errors, cycle_errors, passes, errors, validate,
  join,
}
use go_arch_guard.Core.Validate.Laws.{IsValid, validate-none_iff}
use go_arch_guard.Core.Validate.Cycle.{
  suffix_from, drop_last, close, loop, dfs, search_all, nodes, Search, found, explored,
  find_direction_cycle,
}
use go_arch_guard.Core.Validate.Cycle.Graph.{IsCycle, IsAcyclic}
use go_arch_guard.Core.Validate.Cycle.Correct.{find_direction_cycle_decides}
use go_arch_guard.Dependency.Classify.{kind_domain, Classified}
use go_arch_guard.Dependency.LayerDirection.Acyclic.{Reaches, internal_prefix, check-Acyclic}
use go_arch_guard.Dependency.LayerDirection.Allowed as Layering
use go_arch_guard.Dependency.Isolation as Isolated
use go_arch_guard.Dependency.Isolation.Import.{check_internal_import}
use go_arch_guard.Dependency.Isolation.Report as Boundaries
use go_arch_guard.Dependency.Isolation.Table.{check_internal_import-reports}
use go_arch_guard.Presets.{preset_ddd, build}
use go_arch_guard.Presets.Valid.{build-IsValid}
use go_arch_guard.Examples.Project.{fmt, host, clean, handler_path, importing}

abbrev ring : Map (List String)
ring = ("a", "b" ∷ []) ∷ ("b", "a" ∷ []) ∷ []

validate-none_iff_example : (validate fmt ddd_architecture ≡ none) ↔ IsValid ddd_architecture
validate-none_iff_example = validate-none_iff fmt ddd_architecture

find_direction_cycle_decides_example :
    ((c : List String) × (find_direction_cycle ring ≡ found c) × IsCycle ring c × ¬ IsAcyclic ring)
    ⊎ ((t : Search) × (find_direction_cycle ring ≡ explored t) × IsAcyclic ring)
find_direction_cycle_decides_example = find_direction_cycle_decides ring

build-IsValid_example : (build fmt preset_ddd ≡ inr ddd_architecture) × IsValid ddd_architecture
build-IsValid_example = build-IsValid fmt preset_ddd

domain_dir_set : ((context_arch clean).layout.domain_dir == "") ≡ false
unfolding contains lookup put flat_map filter any filter_map cut_prefix has_prefix trim_prefix flag
    split_n before_slash after_slash clone_architecture context_arch is_excluded rel_path_from_root
    find_import find_in_files first_file first_module_field find_import_position
    relative_path_for_package resolve_module resolve_root first_non_empty
    resolve_module_from_context resolve_root_from_context project_relative_package_path
    is_known_sublayer normalize_match_path match_exclude_pattern is_under_internal_dir
    identify_domain_with has_nested_sublayers pick_sublayer identify_sublayer_with is_transport_path
    classify_domain classify_flat classify_internal_package is_excluded_package validate_module
    has_internal_packages violation_specs spec relative_package_file check_direction
    check_domain_import check_domain_package check_domain check ddd_architecture
domain_dir_set = refl

alias_required : (context_arch clean).structure.require_alias ≡ true
unfolding contains lookup put flat_map filter any filter_map cut_prefix has_prefix trim_prefix flag
    split_n before_slash after_slash clone_architecture context_arch is_excluded rel_path_from_root
    find_import find_in_files first_file first_module_field find_import_position
    relative_path_for_package resolve_module resolve_root first_non_empty
    resolve_module_from_context resolve_root_from_context project_relative_package_path
    is_known_sublayer normalize_match_path match_exclude_pattern is_under_internal_dir
    identify_domain_with has_nested_sublayers pick_sublayer identify_sublayer_with is_transport_path
    classify_domain classify_flat classify_internal_package is_excluded_package validate_module
    has_internal_packages violation_specs spec relative_package_file check_direction
    check_domain_import check_domain_package check_domain check ddd_architecture
alias_required = refl

module_known : validate_module fmt clean.pkgs (resolve_module_from_context clean "") ≡ []
unfolding contains lookup put flat_map filter any filter_map cut_prefix has_prefix trim_prefix flag
    split_n before_slash after_slash clone_architecture context_arch is_excluded rel_path_from_root
    find_import find_in_files first_file first_module_field find_import_position
    relative_path_for_package resolve_module resolve_root first_non_empty
    resolve_module_from_context resolve_root_from_context project_relative_package_path
    is_known_sublayer normalize_match_path match_exclude_pattern is_under_internal_dir
    identify_domain_with has_nested_sublayers pick_sublayer identify_sublayer_with is_transport_path
    classify_domain classify_flat classify_internal_package is_excluded_package validate_module
    has_internal_packages violation_specs spec relative_package_file check_direction
    check_domain_import check_domain_package check_domain check ddd_architecture
module_known = refl

internal_found :
    has_internal_packages clean.pkgs
      (resolve_module_from_context clean "")
      (context_arch clean).layout.internal_root
    ≡ true
unfolding contains lookup put flat_map filter any filter_map cut_prefix has_prefix trim_prefix flag
    split_n before_slash after_slash clone_architecture context_arch is_excluded rel_path_from_root
    find_import find_in_files first_file first_module_field find_import_position
    relative_path_for_package resolve_module resolve_root first_non_empty
    resolve_module_from_context resolve_root_from_context project_relative_package_path
    is_known_sublayer normalize_match_path match_exclude_pattern is_under_internal_dir
    identify_domain_with has_nested_sublayers pick_sublayer identify_sublayer_with is_transport_path
    classify_domain classify_flat classify_internal_package is_excluded_package validate_module
    has_internal_packages violation_specs spec relative_package_file check_direction
    check_domain_import check_domain_package check_domain check ddd_architecture
internal_found = refl

nothing_found : check host error clean ≡ []
unfolding contains lookup put flat_map filter any filter_map cut_prefix has_prefix trim_prefix flag
    split_n before_slash after_slash clone_architecture context_arch is_excluded rel_path_from_root
    find_import find_in_files first_file first_module_field find_import_position
    relative_path_for_package resolve_module resolve_root first_non_empty
    resolve_module_from_context resolve_root_from_context project_relative_package_path
    is_known_sublayer normalize_match_path match_exclude_pattern is_under_internal_dir
    identify_domain_with has_nested_sublayers pick_sublayer identify_sublayer_with is_transport_path
    classify_domain classify_flat classify_internal_package is_excluded_package validate_module
    has_internal_packages violation_specs spec relative_package_file check_direction
    check_domain_import check_domain_package check_domain check ddd_architecture
nothing_found = refl

clean_valid : validate fmt (context_arch clean) ≡ none
unfolding contains lookup put flat_map filter any filter_map cut_prefix has_prefix trim_prefix flag
    split_n before_slash after_slash clone_architecture context_arch is_excluded rel_path_from_root
    find_import find_in_files first_file first_module_field find_import_position
    relative_path_for_package resolve_module resolve_root first_non_empty
    resolve_module_from_context resolve_root_from_context project_relative_package_path
    is_known_sublayer normalize_match_path match_exclude_pattern is_under_internal_dir
    identify_domain_with has_nested_sublayers pick_sublayer identify_sublayer_with is_transport_path
    classify_domain classify_flat classify_internal_package is_excluded_package validate_module
    has_internal_packages violation_specs spec relative_package_file check_direction
    check_domain_import check_domain_package check_domain check ddd_architecture known_layers
    sublayer_errors missing_key_errors unknown_errors direction_errors port_subset_errors
    empty_key_errors type_pattern_errors cycle_errors passes errors validate join suffix_from
    drop_last close loop dfs search_all nodes find_direction_cycle str_lt sort insert
clean_valid = refl

check-Acyclic_example : ¬ Reaches clean "handler" "handler"
check-Acyclic_example =
    check-Acyclic host error clean ((validate-none_iff fmt (context_arch clean)).0 clean_valid)
      domain_dir_set module_known internal_found nothing_found "handler"

layer_check-nil_iff_example :
    (check host error clean ≡ [])
    ↔ All
        (Layering.Keeps clean
          (context_arch clean)
          (resolve_module_from_context clean "")
          (internal_prefix clean))
        clean.pkgs
layer_check-nil_iff_example =
    Layering.layer_check-nil_iff host error clean domain_dir_set module_known internal_found

isolation_check-nil_iff_example :
    (Isolated.check host error clean ≡ [])
    ↔ All
        (Boundaries.Keeps clean
          (context_arch clean)
          (resolve_module_from_context clean "")
          (internal_prefix clean))
        clean.pkgs
isolation_check-nil_iff_example =
    Boundaries.isolation_check-nil_iff host error clean domain_dir_set alias_required module_known
      internal_found

abbrev order_handler : Classified
order_handler = record { kind = kind_domain; domain = "order"; sublayer = "handler" }

abbrev user_app : Classified
user_app = record { kind = kind_domain; domain = "user"; sublayer = "app" }

check_internal_import-reports_example :
    map
      (λ v. v.rule)
      (check_internal_import host error
        (importing handler_path "m/internal/domain/user/app")
        order_handler
        user_app
        "m/internal/domain/user/app"
        ddd_architecture
        "/r"
        "m/internal/")
    ≡ "dependency.cross-domain" ∷ []
check_internal_import-reports_example =
    check_internal_import-reports host error (importing handler_path "m/internal/domain/user/app")
      ddd_architecture "m/internal/domain/user/app" "/r" "m/internal/" order_handler user_app
