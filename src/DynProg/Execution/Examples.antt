-- ===== src/DynProg/Execution/Examples.antt =====
-- The enumeration of plans for two tables.
use post_bound.Base.{
  true, ◌≡◌, refl, none, [], ◌∷◌, ok, ◌>>=◌, OnOk, mem, mem-append, union, insert, set_eq, subset,
  set_key, text_eq, inter, get, put, for_each, ◌||◌,
}
use post_bound.Core.Table.{TableReference, table_key, table_eq, normalize}
use post_bound.Core.Cardinality.Rows.{rows, repr}
use post_bound.DynProg.MergePaths.{
  sort_inner_outer, determine_join_keys, merge_key_paths, extract_join_columns,
}
use post_bound.DynProg.Create.{Rel, view}
use post_bound.DynProg.Create.Joins.{create_nestloop_path, priced_nestloop, create_hashjoin_path}
use post_bound.DynProg.Paths.{
  set_cheapest, add_path, standard_add_path, sort_paths, insert_path, add_to_paths, compete,
  new_dominates,
}
use post_bound.DynProg.Sorting.{sorting_subsumes, same_sorting}
use post_bound.DynProg.Search.{rels_at}
use post_bound.DynProg.Search.Levels.{Joined}
use post_bound.DynProg.Create.{create_memoize_path, create_materialize_path, get_value}
use post_bound.DynProg.JoinPaths.{
  add_paths_to_joinrel, match_unsorted_outer, nestloop, memoized, memo_paths, memo_join,
  materialized, hash_inner_outer, hash_join_path,
}
use post_bound.DynProg.JoinPaths.Tables.{IsFor}
use post_bound.DynProg.JoinPaths.Relation.{IsRelFor}
use post_bound.DynProg.JoinPaths.Joined.{add_paths_to_joinrel-IsRelFor}
use post_bound.DynProg.ScanPaths.{
  create_sequential_paths, create_index_paths, generate_gather_paths, gather_partial,
}
use post_bound.DynProg.Enumerate.{
  quiet, search_joins, search_all, search_one_level, join_all, join_sizes, join_rels, build_rel,
  finish_rels,
}
use post_bound.DynProg.Enumerate.Whole.{IsComplete, search_joins-IsComplete}
use post_bound.Plans.Build.{init, init_params, init_estimates, init_measures, cardinality_of}
use post_bound.Plans.Updates.{with_estimates, parallelize}
use post_bound.Plans.Tables.{tables, params_tables, tables_all}
use post_bound.DynProg.Search.{init_base_rels}
use post_bound.DynProg.ScanPaths.{
  create_sequential_paths, create_index_paths, set_base_rel_pathlists, base_rel_paths,
  create_seqscan_path, add_scan, index_paths_of, append_index_path, create_bitmap_path, get_item,
}
use post_bound.DynProg.Enumerate.Base.{AreFor, set_base_rel_pathlists-AreFor}
use post_bound.DynProg.Execution.{generate_execution_plan, choose_plan}
use post_bound.DynProg.Execution.Tables.{generate_execution_plan-IsFor}
use post_bound.DynProg.Execution.Planners.{
  by_tables, planner, a, b, no_hook, estimate, base_rel, c, initial_rels, planner-NamesTables,
  planner-NamesColumns, planner-NamesFilters, scan-IsFor, base_rel-IsProper, both_Distinct,
}

abbrev join_rel : Rel planner
join_rel = record {
  intermediate = a ∷ b ∷ [];
  pathlist = [];
  partial_paths = [];
  cheapest_path = none;
  cheapest_partial_path = none;
  cardinality = repr (rows 9);
}

-- The paths of a join of the two tables: the call returns.
join_returns :
    (add_paths_to_joinrel planner join_rel (base_rel a) (base_rel b) >>= λ r. ok r.intermediate)
    ≡ ok (a ∷ b ∷ [])
unfolding add_paths_to_joinrel match_unsorted_outer nestloop create_nestloop_path init init_params
    init_estimates init_measures cardinality_of priced_nestloop with_estimates memoized memo_paths
    memo_join for_each create_memoize_path materialized create_materialize_path sort_inner_outer
    determine_join_keys merge_key_paths extract_join_columns hash_inner_outer hash_join_path
    create_hashjoin_path add_path standard_add_path mem table_eq normalize text_eq union insert
    get_value get
join_returns = refl

-- The search returns.
search_returns :
    (search_joins (view planner) c initial_rels >>= λ rel. ok rel.intermediate) ≡ ok (a ∷ b ∷ [])
unfolding search_joins search_all search_one_level join_all join_sizes join_rels build_rel
    finish_rels rels_at put get inter set_eq subset set_cheapest generate_gather_paths
    gather_partial parallelize sort_paths insert_path add_to_paths compete new_dominates
    sorting_subsumes same_sorting tables params_tables tables_all add_paths_to_joinrel
    match_unsorted_outer nestloop create_nestloop_path init init_params init_estimates init_measures
    cardinality_of priced_nestloop with_estimates memoized memo_paths memo_join for_each
    create_memoize_path materialized create_materialize_path sort_inner_outer determine_join_keys
    merge_key_paths extract_join_columns hash_inner_outer hash_join_path create_hashjoin_path
    add_path standard_add_path mem table_eq normalize text_eq union insert get_value
search_returns = refl

-- A plan is returned, and it is for the two tables.
plan_returns :
    (generate_execution_plan planner estimate (a ∷ b ∷ []) >>= λ t.
    ok (set_eq (tables t) (a ∷ b ∷ [])))
    ≡ ok true
unfolding generate_execution_plan choose_plan set_base_rel_pathlists base_rel_paths
    create_sequential_paths create_seqscan_path add_scan create_index_paths index_paths_of
    append_index_path create_bitmap_path get_item init_base_rels search_joins search_all
    search_one_level join_all join_sizes join_rels build_rel finish_rels rels_at put get inter
    set_eq subset set_cheapest generate_gather_paths gather_partial parallelize sort_paths
    insert_path add_to_paths compete new_dominates sorting_subsumes same_sorting tables
    params_tables tables_all add_paths_to_joinrel match_unsorted_outer nestloop create_nestloop_path
    init init_params init_estimates init_measures cardinality_of priced_nestloop with_estimates
    memoized memo_paths memo_join for_each create_memoize_path materialized create_materialize_path
    sort_inner_outer determine_join_keys merge_key_paths extract_join_columns hash_inner_outer
    hash_join_path create_hashjoin_path add_path standard_add_path mem table_eq normalize text_eq
    union insert get_value
plan_returns = refl

split : (k : TableReference) → mem k (a ∷ b ∷ []) ≡ (mem k (a ∷ []) || mem k (b ∷ []))
split k = mem-append k (a ∷ []) (b ∷ [])

add_paths_to_joinrel-IsRelFor_example :
    OnOk
      (IsRelFor planner (a ∷ b ∷ []))
      (add_paths_to_joinrel planner join_rel (base_rel a) (base_rel b))
add_paths_to_joinrel-IsRelFor_example =
    add_paths_to_joinrel-IsRelFor planner no_hook planner-NamesTables planner-NamesColumns (a ∷ [])
      (b ∷ []) (a ∷ b ∷ []) split join_rel (base_rel a) (base_rel b) refl
      (scan-IsFor a, scan-IsFor a) (scan-IsFor b, scan-IsFor b) (refl, tt, tt, (tt, tt))

search_joins-IsComplete_example :
    OnOk
      (λ rel.
        Joined (a ∷ b ∷ []) c.joins_between rel.intermediate
        × IsComplete planner estimate no_hook (a ∷ b ∷ []) rel)
      (search_joins (view planner) c initial_rels)
search_joins-IsComplete_example =
    search_joins-IsComplete planner estimate no_hook (a ∷ b ∷ []) initial_rels planner-NamesTables
      planner-NamesColumns (refl, both_Distinct) (base_rel-IsProper a, (base_rel-IsProper b, tt))

set_base_rel_pathlists-AreFor_example :
    OnOk
      (AreFor planner estimate no_hook planner-NamesFilters (a ∷ b ∷ []))
      (set_base_rel_pathlists planner (init_base_rels (view planner) (quiet c) (a ∷ b ∷ [])))
set_base_rel_pathlists-AreFor_example =
    set_base_rel_pathlists-AreFor planner estimate no_hook planner-NamesFilters (a ∷ b ∷ [])

generate_execution_plan-IsFor_example :
    OnOk (IsFor (a ∷ b ∷ [])) (generate_execution_plan planner estimate (a ∷ b ∷ []))
generate_execution_plan-IsFor_example =
    generate_execution_plan-IsFor planner estimate (a ∷ b ∷ []) both_Distinct no_hook
      planner-NamesTables planner-NamesColumns planner-NamesFilters
