-- ===== src/DynProg/JoinPaths/Relation.antt =====
-- The relation that `_add_paths_to_joinrel` of postbound/opt/_dynprog.py extends.
use post_bound.Base.{
  for_each-OnOk, Bool, true, false, ◌≡◌, arith, Option, none, some, List, [], ◌∷◌, Key, Result,
  OnOk, OnOk-bind, mem, mem-same, same_comm, ◌||◌, All, Bool-cases, Option-cases, inl, inr, ◌∙◌,
}
use post_bound.Core.Table.{TableReference, table_key}
use post_bound.DynProg.Create.{Rel, view, added}
use post_bound.DynProg.Create.Joins.{create_hashjoin_path, create_nestloop_path}
use post_bound.DynProg.Paths.{add_path, standard_add_path, isinf}
use post_bound.DynProg.Paths.Retained.{add_to_paths-All}
use post_bound.DynProg.Create.{Planner, create_memoize_path, create_materialize_path}
use post_bound.DynProg.JoinPaths.{
  is_of, memo_paths, memoized, nestloop, materialized, hash_join_path, memo_join, cache_column,
}
use post_bound.Plans.{QueryPlan, node}
use post_bound.Plans.Tables.{HasTables}
use post_bound.DynProg.JoinPaths.Tables.{IsFor, NamesTables, NamesColumns}
use post_bound.DynProg.JoinPaths.Tables.Kept.{
  memoize-IsFor, materialize-IsFor, hashjoin-IsFor, nestloop-IsFor,
}

module _ {C E : Type 0} ⦃key : Key E⦄ ⦃source : HasTables E⦄ (planner : Planner C E) where
  abbrev pub OfSome : (QueryPlan E → Type 0) → Option (QueryPlan E) → Type 0
  OfSome P none = Unit
  OfSome P (some path) = P path

  -- A relation whose cheapest paths are for the given tables.
  abbrev pub IsInput : List TableReference → Rel planner → Type 0
  IsInput xs rel = OfSome (IsFor xs) rel.cheapest_path × OfSome (IsFor xs) rel.cheapest_partial_path

  -- A relation for a set of tables, all of whose paths are for these tables.
  abbrev pub IsRelFor : List TableReference → Rel planner → Type 0
  IsRelFor zs rel =
      (rel.intermediate ≡ zs)
      × All (IsFor zs) rel.pathlist
      × All (IsFor zs) rel.partial_paths
      × IsInput zs rel

module _ {C E : Type 0} ⦃key : Key E⦄ ⦃source : HasTables E⦄ (planner : Planner C E)
    (no_hook : planner.hook ≡ none) where
  pub added-IsRelFor :
      (zs : List TableReference) (is_partial : Bool) (path : QueryPlan E) (rel : Rel planner)
      → IsFor zs path
      → IsRelFor planner zs rel
      → IsRelFor planner zs (added planner is_partial path rel)
  unfolding add_path standard_add_path
  added-IsRelFor zs is_partial path rel h (e, full, partial, cheapest) =
      elim (Bool-cases (isinf (planner.cost_of (node path).estimates.cost))) [
        | inl illegal ↦ rw illegal (e, full, partial, cheapest)
        | inr legal ↦ rw (legal, no_hook) (standard_added is_partial)
      ]
    where
      standard_added :
          (b : Bool) → IsRelFor planner zs (standard_add_path (view planner) b path rel)
      standard_added true = (
        e,
        full,
        add_to_paths-All (view planner) (IsFor zs) path rel.partial_paths h partial,
        cheapest,
      )
      standard_added false = (
        e,
        add_to_paths-All (view planner) (IsFor zs) path rel.pathlist h full,
        partial,
        cheapest,
      )

module _ {C E : Type 0} ⦃key : Key E⦄ ⦃source : HasTables E⦄ (planner : Planner C E)
    (no_hook : planner.hook ≡ none) (conditions : NamesTables planner)
    (columns : NamesColumns planner) where
  open planner use {
    joins_between, table_of, hook, enable_memoize, enable_materialize, column_expression,
  }

  outside :
      (column : C) (ys : List TableReference)
      → table_of column ≡ none
      → ¬ (is_of planner column ys ≡ true)
  outside column ys missing inside = ground (arith, (rw (is_of, missing) at inside))

  inside_of :
      (column : C) (ys : List TableReference) (t : TableReference)
      → table_of column ≡ some t
      → (k : TableReference) → is_of planner column ys ≡ true
      → mem k (t ∷ []) ≡ true
      → mem k ys ≡ true
  unfolding mem
  inside_of column ys t found k inside h =
      mem-same k t ys (ground (arith, same_comm k t)) ∙ (rw (is_of, found) at inside)

  cached :
      (ys : List TableReference) (column : C) (k : TableReference)
      → is_of planner column ys ≡ true
      → mem k (source.tables_of (column_expression column)) ≡ true
      → mem k ys ≡ true
  unfolding mem
  cached ys column k inside h = elim (Option-cases (table_of column)) [
    | inl missing ↦ absurd (outside column ys missing inside)
    | inr (t, found) ↦ inside_of column ys t found k inside (rw (columns column, found) at h)
  ]

  module _ (xs ys zs : List TableReference)
      (split : (k : TableReference) → mem k zs ≡ (mem k xs || mem k ys)) where
    abbrev Done : Result (Rel planner) → Type 0
    Done r = OnOk (IsRelFor planner zs) r

    pub looped :
        (is_partial : Bool) (o i : QueryPlan E) (rel : Rel planner)
        → IsFor xs o
        → IsFor ys i
        → IsRelFor planner zs rel
        → Done (nestloop planner is_partial o i rel)
    unfolding nestloop
    looped is_partial o i rel ho hi h =
        OnOk-bind (IsFor zs) (IsRelFor planner zs) (create_nestloop_path planner rel o i) _
          (nestloop-IsFor planner conditions xs ys zs split rel o i ho hi)
          (λ path g. added-IsRelFor planner no_hook zs is_partial path rel g h)

    pub hashed :
        (is_partial : Bool) (o i : QueryPlan E) (rel : Rel planner)
        → IsFor xs o
        → IsFor ys i
        → IsRelFor planner zs rel
        → Done (hash_join_path planner is_partial o i rel)
    unfolding hash_join_path
    hashed is_partial o i rel ho hi h =
        OnOk-bind (IsFor zs) (IsRelFor planner zs) (create_hashjoin_path planner rel o i) _
          (hashjoin-IsFor planner conditions xs ys zs split rel o i ho hi)
          (λ path g. added-IsRelFor planner no_hook zs is_partial path rel g h)

    pub materialized_lem :
        (o i : QueryPlan E) (rel : Rel planner)
        → IsFor xs o
        → IsFor ys i
        → IsRelFor planner zs rel
        → Done (materialized planner o i rel)
    unfolding materialized
    materialized_lem o i rel ho hi h = elim (Bool-cases enable_materialize) [
      | inl on ↦ simp on (
          OnOk-bind (IsFor ys) (IsRelFor planner zs) (create_materialize_path planner i) _
            (materialize-IsFor planner conditions ys i hi) (λ mat g. looped false o mat rel ho g h))
      | inr off ↦ simp off h
    ]

    memo_path :
        (is_partial : Bool) (o i : QueryPlan E) (pair : C × C) (rel : Rel planner)
        → IsFor xs o
        → IsFor ys i
        → IsRelFor planner zs rel
        → Done (memo_join planner is_partial o i ys pair rel)
    unfolding memo_join
    memo_path is_partial o i pair rel ho hi h =
        let cache_key = cache_column planner ys pair in
        elim (Bool-cases (is_of planner cache_key ys)) [
          | inl inside ↦ rw inside (
              OnOk-bind (IsFor ys) (IsRelFor planner zs) (create_memoize_path planner i cache_key) _
                (memoize-IsFor planner conditions ys i cache_key (λ k. cached ys cache_key k inside)
                  hi)
                (λ memo g. looped is_partial o memo rel ho g h))
          | inr outside ↦ rw outside tt
        ]

    pub memoized_lem :
        (is_partial : Bool) (o i : QueryPlan E) (outer_rel inner_rel rel : Rel planner)
        → inner_rel.intermediate ≡ ys
        → IsFor xs o
        → IsFor ys i
        → IsRelFor planner zs rel
        → Done (memoized planner is_partial o i outer_rel inner_rel rel)
    unfolding memoized memo_paths
    memoized_lem is_partial o i outer_rel inner_rel rel e ho hi h =
        elim (Bool-cases enable_memoize) [
          | inl on ↦
              elim (Option-cases (joins_between outer_rel.intermediate inner_rel.intermediate)) [
                | inl missing ↦ simp on (simp missing tt)
                | inr (condition, found) ↦ simp on (
                    simp found (
                      simp e (
                        for_each-OnOk (IsRelFor planner zs) (memo_join planner is_partial o i ys)
                          (planner.join_partners condition) rel
                          (λ pair r g. memo_path is_partial o i pair r ho hi g) h)))
              ]
          | inr off ↦ simp off h
        ]
