-- ===== src/DynProg/ScanPaths/Kept.antt =====
-- The relations that the scan paths and the gathered paths of postbound/opt/_dynprog.py extend.
use post_bound.Base.{
  ℤ, for_each-OnOk, for_each-All, All-append, Text, Bool, true, false, not, ◌≡◌, refl, arith, none,
  some, List, [], ◌∷◌, Key, OnOk, OnOk-any, OnOk-bind, mem, ◌&&◌, ◌||◌, All, Bool-cases,
  Option-cases, inl, inr, ◌∙◌,
}
use post_bound.Core.Operators.{ScanOperator, sequential_scan, index_scan, index_only_scan}
use post_bound.Core.Table.{TableReference, table_key}
use post_bound.DynProg.Create.{Rel, added}
use post_bound.DynProg.Create.{Planner, with_cost, workers_key}
use post_bound.Plans.{QueryPlan, plan, nil, no_subplan}
use post_bound.Plans.Build.{
  Arguments, init, init_params, init_estimates, init_measures, cardinality_of,
}
use post_bound.Plans.Updates.{parallelize}
use post_bound.Plans.Tables.{HasTables, tables, tables_all, params_tables, expression_tables}
use post_bound.DynProg.JoinPaths.Tables.{IsFor}
use post_bound.DynProg.JoinPaths.Tables.{made, mem-tables-plan, costed-IsFor}
use post_bound.DynProg.JoinPaths.Relation.{IsRelFor, added-IsRelFor}
use post_bound.DynProg.ScanPaths.{
  is_truthy, get_item, seqscan_arguments, create_seqscan_path, add_scan, create_sequential_paths,
  index_arguments, append_index_path, index_paths_of, create_index_paths, known_workers,
  gather_partial, generate_gather_paths, has_scan,
}

only_own : (t f : Bool) → (f ≡ true → t ≡ true) → (((t || f) || false) || false) ≡ t
only_own t f h = ground arith

parallel-IsFor :
    {E : Type 0} ⦃source : HasTables E⦄ (zs : List TableReference) (workers : ℤ)
    (path : QueryPlan E)
    → IsFor zs path
    → IsFor zs (parallelize workers path)
unfolding parallelize tables params_tables
parallel-IsFor zs workers (plan n cs s) h = h

module _ {C E : Type 0} ⦃key : Key E⦄ ⦃source : HasTables E⦄ (planner : Planner C E) where
  -- The filters of a table name only this table.
  abbrev pub NamesFilters : Type 0
  NamesFilters =
      (t : TableReference) (e : E) (k : TableReference)
      → planner.filters_for t ≡ some e
      → mem k (source.tables_of e) ≡ true
      → mem k (t ∷ []) ≡ true

module _ {C E : Type 0} ⦃key : Key E⦄ ⦃source : HasTables E⦄ (planner : Planner C E)
    (no_hook : planner.hook ≡ none) where
  open planner use {scan_ops, star_cost, fragment_cost, filters_for, columns_of, indexes_on}

  add_scan-IsRelFor :
      (zs : List TableReference) (path : QueryPlan E) (rel : Rel planner)
      → IsFor zs path
      → IsRelFor planner zs rel
      → OnOk (IsRelFor planner zs) (add_scan planner path rel)
  unfolding add_scan
  add_scan-IsRelFor zs path rel h g =
      let full = added-IsRelFor planner no_hook zs false path rel h g in
      OnOk-bind (λ workers. Unit {0}) (IsRelFor planner zs) (get_item workers_key path) _
        (OnOk-any _)
        (λ workers t. elim (Bool-cases (is_truthy workers)) [
          | inl some_workers ↦
              rw some_workers
                (added-IsRelFor planner no_hook zs true path (added planner false path rel) h full)
          | inr no_workers ↦ rw no_workers full
        ])

  gather_partial-IsRelFor :
      (zs : List TableReference) (path : QueryPlan E) (rel : Rel planner)
      → IsFor zs path
      → IsRelFor planner zs rel
      → OnOk (IsRelFor planner zs) (gather_partial planner path rel)
  unfolding gather_partial
  gather_partial-IsRelFor zs path rel h g =
      OnOk-bind (λ n. Unit {0}) (IsRelFor planner zs) (known_workers planner path) _ (OnOk-any _)
        (λ n t.
          let gather_path = parallelize n path in
          added-IsRelFor planner no_hook zs false
            (with_cost (fragment_cost gather_path) gather_path) rel
            (costed-IsFor zs (fragment_cost gather_path) gather_path (parallel-IsFor zs n path h))
            g)

  -- The gathering of the partial paths of a relation for a set of tables keeps it one.
  pub generate_gather_paths-IsRelFor :
      (zs : List TableReference) (rel : Rel planner)
      → IsRelFor planner zs rel
      → OnOk (IsRelFor planner zs) (generate_gather_paths planner rel)
  unfolding generate_gather_paths
  generate_gather_paths-IsRelFor zs rel (e, full, partial, cheapest) =
      for_each-All (IsFor zs) (IsRelFor planner zs) (gather_partial planner) rel.partial_paths rel
        (λ path r h g. gather_partial-IsRelFor zs path r h g) partial (e, full, partial, cheapest)

  module _ (filters : NamesFilters planner) where
    pub scan-IsFor :
        (a : Arguments E) (t : TableReference)
        → a.individual.base_table ≡ some t
        → a.individual.filter_predicate ≡ filters_for t
        → a.individual.lookup_key ≡ none
        → IsFor (t ∷ []) (plan (made a) nil no_subplan)
    unfolding made init_params mem tables_all
    scan-IsFor a t own filtered no_key k =
        mem-tables-plan k (made a) nil
        ∙ rw (own, filtered, no_key)
            (only_own (mem k (t ∷ [])) (mem k (expression_tables (filters_for t))) (covered t k))
      where
        covered :
            (t k : TableReference)
            → mem k (expression_tables (filters_for t)) ≡ true
            → mem k (t ∷ []) ≡ true
        covered t k h = elim (Option-cases (filters_for t)) [
          | inl missing ↦ absurd (cc)
          | inr (e, found) ↦ filters t e k found (rw found at h)
        ]

    seqscan-IsFor :
        (t : TableReference) (rel : Rel planner)
        → rel.intermediate ≡ t ∷ []
        → OnOk (IsFor (t ∷ [])) (create_seqscan_path planner rel)
    unfolding create_seqscan_path made init init_params init_estimates init_measures cardinality_of
    seqscan-IsFor t rel e = simp e (
        costed-IsFor (t ∷ []) _ (plan (made (seqscan_arguments planner rel t)) nil no_subplan)
          (scan-IsFor (seqscan_arguments planner rel t) t refl refl refl))

    appended :
        (wanted : Bool) (operator : ScanOperator) (t : TableReference) (column : C) (index : Text)
        (paths : List (QueryPlan E))
        → All (IsFor (t ∷ [])) paths
        → OnOk (All (IsFor (t ∷ []))) (
            append_index_path planner wanted
              (index_arguments planner operator t column index)
              paths)
    unfolding append_index_path made init init_params init_estimates init_measures cardinality_of
    appended true operator t column index paths all =
        All-append (IsFor (t ∷ [])) paths (_ ∷ []) all
          (scan-IsFor (index_arguments planner operator t column index) t refl refl refl, tt)
    appended false operator t column index paths all = all

    indexed :
        (t : TableReference) (idx_only_scan : Bool) (columns : List C)
        → OnOk (All (IsFor (t ∷ []))) (index_paths_of planner t idx_only_scan columns [])
    unfolding index_paths_of
    indexed t idx_only_scan columns =
        for_each-OnOk (All (IsFor (t ∷ []))) _ columns []
          (λ column paths h.
            for_each-OnOk (All (IsFor (t ∷ []))) _ (indexes_on column) paths
              (λ index scans g.
                OnOk-bind (All (IsFor (t ∷ []))) (All (IsFor (t ∷ [])))
                  (append_index_path planner (has_scan planner index_scan)
                    (index_arguments planner index_scan t column index) scans)
                  _ (appended (has_scan planner index_scan) index_scan t column index scans g)
                  (λ both k. appended idx_only_scan index_only_scan t column index both k))
              h)
          tt

    -- The scans of a table extend a relation for the table to one.
    pub scan_paths-IsRelFor :
        (t : TableReference) (rel : Rel planner)
        → IsRelFor planner (t ∷ []) rel
        → OnOk (IsRelFor planner (t ∷ [])) (create_sequential_paths planner rel)
          × OnOk (IsRelFor planner (t ∷ [])) (create_index_paths planner rel)
    unfolding create_sequential_paths create_index_paths
    scan_paths-IsRelFor t rel g = (seq, idx)
      where
        seq : OnOk (IsRelFor planner (t ∷ [])) (create_sequential_paths planner rel)
        seq = elim (Bool-cases (has_scan planner sequential_scan)) [
          | inl on ↦ simp on (
              OnOk-bind (IsFor (t ∷ [])) (IsRelFor planner (t ∷ []))
                (create_seqscan_path planner rel) _ (seqscan-IsFor t rel g.0)
                (λ path h. add_scan-IsRelFor (t ∷ []) path rel h g))
          | inr off ↦ simp off g
        ]

        idx : OnOk (IsRelFor planner (t ∷ [])) (create_index_paths planner rel)
        idx =
            elim (Bool-cases
              (not (has_scan planner index_scan) && not (has_scan planner index_only_scan))) [
                | inl none_wanted ↦ simp none_wanted g
                | inr some_wanted ↦ simp some_wanted (
                    simp g.0 (
                      OnOk-bind (All (IsFor (t ∷ []))) (IsRelFor planner (t ∷ []))
                        (index_paths_of planner t _ (columns_of t) []) _
                        (indexed t _ (columns_of t))
                        (λ paths all.
                          for_each-All (IsFor (t ∷ [])) (IsRelFor planner (t ∷ [])) _ paths rel
                            (λ path r h k.
                              add_scan-IsRelFor (t ∷ []) (with_cost (star_cost path) path) r
                                (costed-IsFor (t ∷ []) (star_cost path) path h) k)
                            all g)))
              ]
