-- ===== src/DynProg/JoinPaths.antt =====
-- The construction of the paths of a join (postbound/opt/_dynprog.py): `_add_paths_to_joinrel`,
-- `_match_unsorted_outer` and `_hash_inner_outer`.
pub mod Joined
pub mod Relation
pub mod Tables
pub mod Unchanged
use post_bound.Base.{
  for_each, for_each-OnOk, Bool, true, false, not, ◌&&◌, ◌||◌, Option, none, some, List, [], ◌∷◌,
  mem, Key, Result, ok, err, logic_error, attribute_error, unbound_error, if◌then◌else◌, ◌>>=◌,
  some_of, is_some,
}
use post_bound.Core.Operators.{JoinOperator, nested_loop_join, hash_join, sort_merge_join, join_eq}
use post_bound.Core.Table.{TableReference, table_key}
use post_bound.DynProg.Create.{Rel, added}
use post_bound.DynProg.MergePaths.{sort_inner_outer}
use post_bound.DynProg.Create.Joins.{
  create_hashjoin_path, create_mergejoin_path, create_nestloop_path,
}
use post_bound.DynProg.Paths.{Plan, RelOptInfo, add_path}
use post_bound.DynProg.Create.{
  Planner, is_sorted_by, create_sort_path, create_memoize_path, create_materialize_path,
}
use post_bound.Plans.{QueryPlan, node}
use post_bound.Plans.Tables.{HasTables}

module _ {C E : Type 0} ⦃key : Key E⦄ ⦃source : HasTables E⦄ (planner : Planner C E) where
  open planner use {
    join_ops, enable_materialize, enable_memoize, enable_sort, hook, cost_of, joins_between,
    conjuncts, join_partners, table_of,
  }

  -- `column.table in intermediate`
  abbrev pub is_of : C → List TableReference → Bool
  is_of column intermediate = elim (table_of column) [ none ↦ false | some t ↦ mem t intermediate ]

  unfoldable pub nestloop : Bool → QueryPlan E → QueryPlan E → Rel planner → Result (Rel planner)
  unfolding create_nestloop_path add_path
  nestloop is_partial outer_path inner_path join_rel =
      create_nestloop_path planner join_rel outer_path inner_path >>= λ nlj_path.
      ok (added planner is_partial nlj_path join_rel)

  -- The column whose values are the keys of the cache.
  abbrev pub cache_column : List TableReference → C × C → C
  cache_column intermediate (first_col, second_col) =
      if is_of first_col intermediate then first_col else second_col

  -- The memoized join for a pair of join partners.
  unfoldable pub memo_join :
      Bool
      → QueryPlan E
      → QueryPlan E
      → List TableReference
      → C × C
      → Rel planner
      → Result (Rel planner)
  unfolding create_memoize_path nestloop
  memo_join is_partial outer_path inner_path intermediate pair join_rel =
      let cache_key = cache_column intermediate pair in
      if not (is_of cache_key intermediate)
      then err logic_error
      else (create_memoize_path planner inner_path cache_key >>= λ memo_inner.
          nestloop is_partial outer_path memo_inner join_rel)

  -- The memoized joins, one for each pair of join partners.
  unfoldable pub memo_paths :
      Bool
      → QueryPlan E
      → QueryPlan E
      → List TableReference
      → List (C × C)
      → Rel planner
      → Result (Rel planner)
  unfolding for_each memo_join
  memo_paths is_partial outer_path inner_path intermediate =
      for_each (memo_join is_partial outer_path inner_path intermediate)

  unfoldable pub memoized :
      Bool
      → QueryPlan E
      → QueryPlan E
      → Rel planner
      → Rel planner
      → Rel planner
      → Result (Rel planner)
  unfolding memo_paths
  memoized is_partial outer_path inner_path outer_rel inner_rel join_rel =
      if not enable_memoize
      then ok join_rel
      else elim (joins_between outer_rel.intermediate inner_rel.intermediate) [
        | none ↦ err logic_error
        | some join_predicate ↦
            memo_paths is_partial outer_path inner_path inner_rel.intermediate
              (join_partners join_predicate) join_rel
      ]

  unfoldable pub materialized : QueryPlan E → QueryPlan E → Rel planner → Result (Rel planner)
  unfolding create_materialize_path nestloop
  materialized outer_path inner_path join_rel =
      if not enable_materialize
      then ok join_rel
      else (create_materialize_path planner inner_path >>= λ mat_path.
          nestloop false outer_path mat_path join_rel)

  -- The cheapest paths, which must be set.
  abbrev pub both_paths :
      Option (QueryPlan E) → Option (QueryPlan E) → Result (QueryPlan E × QueryPlan E)
  both_paths none inner_path = err logic_error
  both_paths (some outer_path) none = err logic_error
  both_paths (some outer_path) (some inner_path) = ok (outer_path, inner_path)

  abbrev pub bound_paths : Rel planner → Rel planner → Result (QueryPlan E × QueryPlan E)
  bound_paths outer_rel inner_rel = both_paths outer_rel.cheapest_path inner_rel.cheapest_path

  -- `_match_unsorted_outer`
  unfoldable pub match_unsorted_outer :
      Rel planner → Rel planner → Rel planner → Result (Rel planner)
  unfolding nestloop memoized materialized
  match_unsorted_outer join_rel outer_rel inner_rel =
      bound_paths outer_rel inner_rel >>= λ (outer_path, inner_path).
      nestloop false outer_path inner_path join_rel >>= λ plain.
      memoized false outer_path inner_path outer_rel inner_rel plain >>= λ memo.
      materialized outer_path inner_path memo >>= λ mat. elim outer_rel.cheapest_partial_path [
        | none ↦ ok mat
        | some outer_partial ↦
            (nestloop true outer_partial inner_path mat >>= λ partial.
            memoized true outer_partial inner_path outer_rel inner_rel partial)
      ]

  -- `_hash_inner_outer`
  unfoldable pub hash_join_path :
      Bool → QueryPlan E → QueryPlan E → Rel planner → Result (Rel planner)
  unfolding create_hashjoin_path add_path
  hash_join_path is_partial outer_path inner_path join_rel =
      create_hashjoin_path planner join_rel outer_path inner_path >>= λ hash_path.
      ok (added planner is_partial hash_path join_rel)

  unfoldable pub hash_inner_outer : Rel planner → Rel planner → Rel planner → Result (Rel planner)
  unfolding hash_join_path
  hash_inner_outer join_rel outer_rel inner_rel =
      bound_paths outer_rel inner_rel >>= λ (outer_path, inner_path).
      hash_join_path false outer_path inner_path join_rel >>= λ r.
      elim outer_rel.cheapest_partial_path [
        | none ↦ ok r
        | some outer_partial ↦ hash_join_path true outer_partial inner_path r
      ]

  -- `operator in self._join_ops`
  abbrev pub has_op : JoinOperator → Bool
  has_op operator = some_of (λ op. join_eq operator op) join_ops

  -- `_add_paths_to_joinrel`
  unfoldable pub add_paths_to_joinrel :
      Rel planner → Rel planner → Rel planner → Result (Rel planner)
  unfolding match_unsorted_outer sort_inner_outer hash_inner_outer
  add_paths_to_joinrel join_rel outer_rel inner_rel =
      (if has_op nested_loop_join
        then match_unsorted_outer join_rel outer_rel inner_rel
        else ok join_rel)
      >>= λ looped.
          (if has_op sort_merge_join
            then sort_inner_outer planner looped outer_rel inner_rel
            else ok looped)
          >>= λ merged.
              (if has_op hash_join then hash_inner_outer merged outer_rel inner_rel else ok merged)
