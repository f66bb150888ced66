-- ===== src/DynProg/ScanPaths.antt =====
-- The scan paths of a base relation, and the paths that gather partial ones, of
-- postbound/opt/_dynprog.py: `_create_seqscan_path`, `_create_sequential_paths`,
-- `_create_index_paths`, `_create_bitmap_path`, `_generate_gather_paths`,
-- `_generate_pseudo_gather_paths` and `_set_base_rel_pathlists`.
pub mod Kept
use post_bound.Base.{
  map, Bool, true, false, not, ◌&&◌, ◌||◌, Option, none, some, List, [], ◌∷◌, ◌++◌, Text, text_key,
  ℤ, pos, ℕ, Key, Result, ok, err, logic_error, key_error, attribute_error, if◌then◌else◌, ◌>>=◌,
  some_of, leb, length, eqb_ℤ, get, for_each,
}
use post_bound.Core.Operators.{
  ScanOperator, scan_op, sequential_scan, index_scan, index_only_scan, bitmap_scan, scan_eq,
}
use post_bound.Core.Table.{TableReference}
use post_bound.Core.Cardinality.{Num, whole, nan, card}
use post_bound.Core.Cardinality.Rows.{unknown, repr}
use post_bound.DynProg.Create.{view, Rel, added}
use post_bound.DynProg.Sorting.{of_column}
use post_bound.DynProg.Paths.{RelOptInfo, add_path, set_cheapest}
use post_bound.DynProg.Create.{
  Planner, get_value, workers_key, worker_entry, path_arguments, with_cost,
}
use post_bound.Plans.{
  Value, number, indexes, QueryPlan, Plans, nil, cons, no_subplan, node, has_measures,
}
use post_bound.Plans.Build.{Arguments, name, init, no_values}
use post_bound.Plans.Updates.{with_estimates, parallelize}
use post_bound.Plans.Tables.{HasTables}

abbrev pub indexes_key : Text
indexes_key = b'i' ∷ b'n' ∷ b'd' ∷ b'e' ∷ b'x' ∷ b'e' ∷ b's' ∷ []

-- `util.simplify(rel.intermediate)`, for a base relation. A set of another size is not unwrapped; no base
-- relation has one.
abbrev pub simplify : List TableReference → Result TableReference
simplify (baserel ∷ []) = ok baserel
simplify _ = err attribute_error

-- A value that counts as true: any number but zero.
abbrev pub is_truthy : Option Value → Bool
is_truthy none = false
is_truthy (some (number (whole n))) = not (eqb_ℤ n (pos 0))
is_truthy (some (number other)) = true
is_truthy (some (indexes [])) = false
is_truthy (some (indexes (l ∷ ls))) = true

module _ {E : Type 0} where
  -- `QueryPlan.__getitem__`, for an additional entry.
  unfoldable pub get_item : Text → QueryPlan E → Result (Option Value)
  unfolding get has_measures
  get_item key t = elim (get key (node t).params.additional) [
    | some value ↦ ok value
    | none ↦ elim (get key (node t).estimates.additional_estimates) [
      | some value ↦ ok value
      | none ↦
          if has_measures (node t).measures
          then elim (get key (node t).measures.additional_measures) [
            | some value ↦ ok value
            | none ↦ err key_error
          ]
          else err key_error
    ]
  ]

module _ {C E : Type 0} ⦃key : Key E⦄ ⦃source : HasTables E⦄ (planner : Planner C E) where
  open planner use {
    scan_ops, star_cost, fragment_cost, filters_for, column_expression, columns_of, indexes_on,
    table_workers, index_workers,
  }

  -- `operator in self._scan_ops`
  abbrev pub has_scan : ScanOperator → Bool
  has_scan operator = some_of (λ op. scan_eq operator op) scan_ops

  -- The arguments of a sequential scan.
  abbrev pub seqscan_arguments : Rel planner → TableReference → Arguments E
  seqscan_arguments rel baserel =
      path_arguments (scan_op sequential_scan) nil
        (record no_values {
          base_table = some baserel;
          filter_predicate = filters_for baserel;
          kwargs = worker_entry (some (number (whole (table_workers baserel))));
        })
        rel.cardinality nan

  -- `_create_seqscan_path`
  unfoldable pub create_seqscan_path : Rel planner → Result (QueryPlan E)
  unfolding init with_estimates
  create_seqscan_path rel = simplify rel.intermediate >>= λ baserel.
      init (seqscan_arguments rel baserel) >>= λ path. ok (with_cost (star_cost path) path)

  -- A path is added, and once more as a partial path where it has workers.
  unfoldable pub add_scan : QueryPlan E → Rel planner → Result (Rel planner)
  unfolding add_path get_item
  add_scan path rel =
      let full = added planner false path rel in
      get_item workers_key path >>= λ workers.
      if is_truthy workers then ok (added planner true path full) else ok full

  -- `_create_sequential_paths`
  unfoldable pub create_sequential_paths : Rel planner → Result (Rel planner)
  unfolding create_seqscan_path add_scan
  create_sequential_paths rel =
      if not (has_scan sequential_scan)
      then ok rel
      else (create_seqscan_path rel >>= λ seq_path. add_scan seq_path rel)

  -- The arguments of an index scan and of an index-only scan; the cardinality is left out.
  abbrev pub index_arguments : ScanOperator → TableReference → C → Text → Arguments E
  index_arguments operator base_table column index =
      path_arguments (scan_op operator) nil
        (record no_values {
          base_table = some base_table;
          filter_predicate = filters_for base_table;
          sort_keys = some (of_column (column_expression column) ∷ []);
          index = some index;
          kwargs = worker_entry (some (number (whole (index_workers index))));
        })
        (repr unknown) nan

  -- `index_paths.append(…)`, where the scan is wanted.
  unfoldable pub append_index_path :
      Bool → Arguments E → List (QueryPlan E) → Result (List (QueryPlan E))
  unfolding init
  append_index_path wanted arguments index_paths =
      if wanted
      then (init arguments >>= λ idx_path. ok (index_paths ++ (idx_path ∷ [])))
      else ok index_paths

  -- The loops over the columns and over their indexes.
  unfoldable pub index_paths_of :
      TableReference → Bool → List C → List (QueryPlan E) → Result (List (QueryPlan E))
  unfolding for_each append_index_path
  index_paths_of base_table idx_only_scan = for_each (λ column paths.
      for_each
        (λ index index_paths.
          append_index_path (has_scan index_scan)
            (index_arguments index_scan base_table column index) index_paths
          >>= λ scans.
              append_index_path idx_only_scan
                (index_arguments index_only_scan base_table column index) scans)
        (indexes_on column) paths)

  -- `_create_index_paths`
  unfoldable pub create_index_paths : Rel planner → Result (Rel planner)
  unfolding index_paths_of for_each add_scan with_estimates
  create_index_paths rel =
      if not (has_scan index_scan) && not (has_scan index_only_scan)
      then ok rel
      else (simplify rel.intermediate >>= λ base_table.
          let required_columns = columns_of base_table in
          let idx_only_scan = has_scan index_only_scan && leb (length required_columns) 1 in
          index_paths_of base_table idx_only_scan required_columns [] >>= λ index_paths.
          for_each (λ path r. add_scan (with_cost (star_cost path) path) r) index_paths rel)

  -- The indexes on the columns of the query, as metadata of a path.
  abbrev pub candidate_indexes : List C → List (Text × List Text)
  candidate_indexes required_columns =
      map (λ column. (planner.column_text column, indexes_on column)) required_columns

  -- The arguments of a bitmap scan; the cardinality is left out.
  abbrev pub bitmap_arguments : TableReference → List (Text × List Text) → Arguments E
  bitmap_arguments base_table candidates =
      path_arguments (scan_op bitmap_scan) nil
        (record no_values {
          base_table = some base_table;
          filter_predicate = filters_for base_table;
          kwargs =
              (indexes_key, some (indexes candidates))
              ∷ worker_entry (some (number (whole (table_workers base_table))));
        })
        (repr unknown) nan

  -- `_create_bitmap_path`, where there are candidate indexes.
  unfoldable pub add_bitmap :
      TableReference → List (Text × List Text) → Rel planner → Result (Rel planner)
  unfolding init with_estimates add_path
  add_bitmap base_table candidates rel = init (bitmap_arguments base_table candidates) >>= λ path.
      let bitmap_path = with_cost (star_cost path) path in
      let full = added planner false bitmap_path rel in
      if eqb_ℤ (table_workers base_table) (pos 0)
      then ok full
      else ok (added planner true bitmap_path full)

  -- `_create_bitmap_path`
  unfoldable pub create_bitmap_path : Rel planner → Result (Rel planner)
  unfolding add_bitmap
  create_bitmap_path rel =
      if not (has_scan bitmap_scan)
      then ok rel
      else (simplify rel.intermediate >>= λ base_table.
          elim (candidate_indexes (columns_of base_table)) [
            | [] ↦ ok rel
            | candidate ∷ candidates ↦ add_bitmap base_table (candidate ∷ candidates) rel
          ])

  -- The arguments of a node that is no operator.
  abbrev pub gather_arguments : ℤ → QueryPlan E → Arguments E
  gather_arguments n_workers partial_path =
      record (path_arguments (scan_op sequential_scan) (cons partial_path nil)
        (record no_values { parallel_workers = some n_workers }) (repr unknown) nan) {
          node_type = name (b'G' ∷ b'a' ∷ b't' ∷ b'h' ∷ b'e' ∷ b'r' ∷ []);
        }

  -- The number of workers of a partial path, which must be known.
  abbrev pub known_workers : QueryPlan E → Result ℤ
  unfolding get_value
  known_workers path = elim (get_value workers_key path) [
    | some (number (whole n_workers)) ↦ ok n_workers
    | other ↦ err logic_error
  ]

  -- The path that gathers the rows of a partial path is added.
  unfoldable pub gather_partial : QueryPlan E → Rel planner → Result (Rel planner)
  unfolding get_value parallelize with_estimates add_path
  gather_partial partial_path rel = known_workers partial_path >>= λ n_workers.
      let gather_path = parallelize n_workers partial_path in
      ok (added planner false (with_cost (fragment_cost gather_path) gather_path) rel)

  -- `_generate_gather_paths`
  unfoldable pub generate_gather_paths : Rel planner → Result (Rel planner)
  unfolding for_each gather_partial
  generate_gather_paths rel = for_each gather_partial rel.partial_paths rel

  -- `_generate_pseudo_gather_paths`
  unfoldable pub generate_pseudo_gather_paths : Rel planner → Result (List (QueryPlan E))
  unfolding for_each init get_value
  generate_pseudo_gather_paths rel =
      for_each
        (λ partial_path gather_paths. known_workers partial_path >>= λ n_workers.
          init (gather_arguments n_workers partial_path) >>= λ pseudo_node.
          ok (gather_paths ++ (pseudo_node ∷ [])))
        rel.partial_paths []

  -- The paths of a base relation.
  unfoldable pub base_rel_paths : Rel planner → Result (Rel planner)
  unfolding create_sequential_paths create_index_paths create_bitmap_path generate_gather_paths
      set_cheapest
  base_rel_paths rel = create_sequential_paths rel >>= λ scanned.
      create_index_paths scanned >>= λ indexed. create_bitmap_path indexed >>= λ mapped.
      generate_gather_paths mapped >>= λ gathered. set_cheapest (view planner) gathered

  -- `_set_base_rel_pathlists`
  unfoldable pub set_base_rel_pathlists : List (Rel planner) → Result (List (Rel planner))
  unfolding base_rel_paths
  set_base_rel_pathlists [] = ok []
  set_base_rel_pathlists (rel ∷ rels) =
      base_rel_paths rel >>= λ r. set_base_rel_pathlists rels >>= λ rs. ok (r ∷ rs)
