-- ===== src/DynProg/MergePaths.antt =====
-- The merge joins of postbound/opt/_dynprog.py: `_sort_inner_outer`, with `_determine_join_keys` and
-- `_extract_join_columns`.
pub mod Unsorted
use post_bound.Base.{
  for_each, for_each-OnOk, Bool, true, false, not, ◌&&◌, ◌||◌, Option, none, some, List, [], ◌∷◌,
  mem, Key, Result, ok, err, logic_error, attribute_error, unbound_error, if◌then◌else◌, ◌>>=◌,
  some_of, is_some,
}
use post_bound.Core.Operators.{JoinOperator, nested_loop_join, hash_join, sort_merge_join, join_eq}
use post_bound.Core.Table.{TableReference, table_key}
use post_bound.DynProg.Create.{Rel, added}
use post_bound.DynProg.Create.Joins.{
  create_hashjoin_path, create_mergejoin_path, create_nestloop_path,
}
use post_bound.DynProg.Paths.{Plan, RelOptInfo, add_path}
use post_bound.DynProg.Create.{
  Planner, is_sorted_by, create_sort_path, create_memoize_path, create_materialize_path,
}
use post_bound.Plans.{QueryPlan, node}
use post_bound.Plans.Tables.{HasTables}

module _ {C E : Type 0} ⦃key : Key E⦄ ⦃source : HasTables E⦄ (planner : Planner C E) where
  open planner use {enable_sort, joins_between, conjuncts, join_partners}

  -- `_determine_join_keys`
  unfoldable pub determine_join_keys : Rel planner → Rel planner → Result (List E)
  determine_join_keys outer_rel inner_rel =
      elim (joins_between outer_rel.intermediate inner_rel.intermediate) [
        | none ↦ err logic_error
        | some join_predicates ↦ ok (conjuncts join_predicates)
      ]

  -- `_extract_join_columns`. The join partners of a predicate are a set of pairs of columns. A set of
  -- any size but two is passed over; a set of two is not unwrapped by `simplify`, so its two pairs are
  -- taken for the columns, and a pair has no attribute `table`.
  unfoldable pub extract_join_columns : E → Rel planner → Rel planner → Result (Option (C × C))
  extract_join_columns join_key outer_rel inner_rel = elim (join_partners join_key) [
    | first_pair ∷ second_pair ∷ [] ↦ err attribute_error
    | partners ↦ ok none
  ]

  -- `path if self._is_sorted_by(path, col) else self._create_sort_path(path, sort_key=col)`
  unfoldable pub sorted_path : QueryPlan E → C → Result (QueryPlan E)
  unfolding is_sorted_by create_sort_path
  sorted_path path column =
      if is_sorted_by path column then ok path else create_sort_path planner path column

  abbrev pub is_skipped : QueryPlan E → C → Bool
  is_skipped path column = not (is_sorted_by path column) && not enable_sort

  -- The loop over the inner paths, for one outer path.
  unfoldable pub merge_inner :
      Bool → QueryPlan E → C → List (QueryPlan E) → Rel planner → Result (Rel planner)
  unfolding for_each sorted_path create_mergejoin_path add_path is_sorted_by
  merge_inner is_partial outer_path inner_col = for_each (λ inner_path join_rel.
      if is_skipped inner_path inner_col
      then ok join_rel
      else (sorted_path inner_path inner_col >>= λ inner_sorted.
          create_mergejoin_path planner join_rel outer_path inner_sorted >>= λ merge_path.
          ok (added planner is_partial merge_path join_rel)))

  -- The two loops over the outer paths. The variable `outer_path` keeps its last value: the second loop
  -- reads it where the partial path is sorted already.
  unfoldable pub merge_outer :
      C
      → C
      → List (QueryPlan E)
      → List (QueryPlan E)
      → Rel planner × Option (QueryPlan E)
      → Result (Rel planner × Option (QueryPlan E))
  unfolding for_each sorted_path merge_inner is_sorted_by
  merge_outer outer_col inner_col outer_paths inner_paths =
      for_each
        (λ outer_path (join_rel, last).
          if is_skipped outer_path outer_col
          then ok (join_rel, some outer_path)
          else (sorted_path outer_path outer_col >>= λ outer_sorted.
              merge_inner false outer_sorted inner_col inner_paths join_rel >>= λ r.
              ok (r, some outer_sorted)))
        outer_paths

  abbrev pub bound : Option (QueryPlan E) → Result (QueryPlan E)
  bound none = err unbound_error
  bound (some path) = ok path

  unfoldable pub merge_partial :
      C
      → C
      → List (QueryPlan E)
      → List (QueryPlan E)
      → Rel planner × Option (QueryPlan E)
      → Result (Rel planner × Option (QueryPlan E))
  unfolding for_each create_sort_path merge_inner is_sorted_by
  merge_partial outer_col inner_col partial_paths inner_paths =
      for_each
        (λ outer_partial (join_rel, last).
          if is_skipped outer_partial outer_col
          then ok (join_rel, last)
          else ((if is_sorted_by outer_partial outer_col
                then bound last
                else create_sort_path planner outer_partial outer_col)
              >>= λ outer_path. merge_inner true outer_path inner_col inner_paths join_rel >>= λ r.
                  ok (r, some outer_path)))
        partial_paths

  -- The body of the loop over the join keys.
  unfoldable pub merge_key_paths :
      Rel planner
      → Rel planner
      → E
      → Rel planner × Option (QueryPlan E)
      → Result (Rel planner × Option (QueryPlan E))
  unfolding extract_join_columns merge_outer merge_partial
  merge_key_paths outer_rel inner_rel join_key state =
      extract_join_columns join_key outer_rel inner_rel >>= λ columns. elim columns [
        | none ↦ ok state
        | some (outer_col, inner_col) ↦
            (merge_outer outer_col inner_col outer_rel.pathlist inner_rel.pathlist state >>= λ next.
            merge_partial outer_col inner_col outer_rel.partial_paths inner_rel.pathlist next)
      ]

  -- `_sort_inner_outer`
  unfoldable pub sort_inner_outer : Rel planner → Rel planner → Rel planner → Result (Rel planner)
  unfolding determine_join_keys for_each merge_key_paths
  sort_inner_outer join_rel outer_rel inner_rel =
      determine_join_keys outer_rel inner_rel >>= λ join_keys.
      for_each (merge_key_paths outer_rel inner_rel) join_keys (join_rel, none) >>= λ (r, last).
      ok r
