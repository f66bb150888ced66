-- ===== src/DynProg/JoinPaths/Unchanged.antt =====
-- What `_add_paths_to_joinrel` of postbound/opt/_dynprog.py leaves as it is.
use post_bound.Base.{
  Bool, true, false, ◌≡◌, Option, none, some, List, Key, Result, ok, ◌>>=◌, OnOk, OnOk-any,
  OnOk-bind, OnOk-map, Bool-cases, Option-cases, inl, inr, if◌then◌else◌, sym, subst, for_each-OnOk,
}
use post_bound.Core.Operators.{nested_loop_join, sort_merge_join, hash_join}
use post_bound.Core.Table.{TableReference, table_key}
use post_bound.DynProg.MergePaths.{sort_inner_outer}
use post_bound.DynProg.Create.{Rel, added}
use post_bound.DynProg.Create.Joins.{create_hashjoin_path, create_nestloop_path}
use post_bound.DynProg.Create.{Planner, with_cost, create_memoize_path, create_materialize_path}
use post_bound.DynProg.JoinPaths.{
  is_of, memo_paths, memoized, nestloop, materialized, match_unsorted_outer, hash_join_path,
  memo_join, cache_column, hash_inner_outer, add_paths_to_joinrel, bound_paths, has_op,
}
use post_bound.DynProg.MergePaths.Unsorted.{sort_inner_outer_lem}
use post_bound.DynProg.ScanPaths.{gather_partial, generate_gather_paths, known_workers}
use post_bound.Plans.{QueryPlan}
use post_bound.Plans.Updates.{parallelize}
use post_bound.Plans.Tables.{HasTables}

module _ {C E : Type 0} ⦃key : Key E⦄ ⦃source : HasTables E⦄ (planner : Planner C E)
    (Q : Rel planner → Type 0)
    (adds : (is_partial : Bool) (path : QueryPlan E) (rel : Rel planner)
      → Q rel
      → Q (added planner is_partial path rel)) where
  open planner use {enable_memoize, enable_materialize, joins_between, join_partners, fragment_cost}

  -- A path is made by a call, and then added.
  made_and_added :
      (is_partial : Bool) (call : Result (QueryPlan E)) (rel : Rel planner)
      → Q rel
      → OnOk Q (call >>= λ path. ok (added planner is_partial path rel))
  made_and_added is_partial call rel q =
      OnOk-bind (λ path. Unit {0}) Q call _ (OnOk-any call) (λ path t. adds is_partial path rel q)

  kept_nestloop :
      (is_partial : Bool) (o i : QueryPlan E) (rel : Rel planner)
      → Q rel
      → OnOk Q (nestloop planner is_partial o i rel)
  unfolding nestloop
  kept_nestloop is_partial o i rel q =
      made_and_added is_partial (create_nestloop_path planner rel o i) rel q

  kept_hash :
      (is_partial : Bool) (o i : QueryPlan E) (rel : Rel planner)
      → Q rel
      → OnOk Q (hash_join_path planner is_partial o i rel)
  unfolding hash_join_path
  kept_hash is_partial o i rel q =
      made_and_added is_partial (create_hashjoin_path planner rel o i) rel q

  kept_memo :
      (is_partial : Bool) (o i : QueryPlan E) (ys : List TableReference) (pair : C × C)
      (rel : Rel planner)
      → Q rel
      → OnOk Q (memo_join planner is_partial o i ys pair rel)
  unfolding memo_join
  kept_memo is_partial o i ys pair rel q =
      let cache_key = cache_column planner ys pair in
      elim (Bool-cases (is_of planner cache_key ys)) [
        | inl inside ↦ rw inside (
            OnOk-bind (λ path. Unit {0}) Q (create_memoize_path planner i cache_key) _
              (OnOk-any (create_memoize_path planner i cache_key))
              (λ memo t. kept_nestloop is_partial o memo rel q))
        | inr outside ↦ rw outside tt
      ]

  kept_memoized :
      (is_partial : Bool) (o i : QueryPlan E) (outer_rel inner_rel rel : Rel planner)
      → Q rel
      → OnOk Q (memoized planner is_partial o i outer_rel inner_rel rel)
  unfolding memoized memo_paths
  kept_memoized is_partial o i outer_rel inner_rel rel q = elim (Bool-cases enable_memoize) [
    | inl on ↦ elim (Option-cases (joins_between outer_rel.intermediate inner_rel.intermediate)) [
      | inl missing ↦ simp on (simp missing tt)
      | inr (condition, found) ↦ simp on (
          simp found (
            for_each-OnOk Q (memo_join planner is_partial o i inner_rel.intermediate)
              (join_partners condition) rel
              (λ pair r g. kept_memo is_partial o i inner_rel.intermediate pair r g) q))
    ]
    | inr off ↦ simp off q
  ]

  kept_materialized :
      (o i : QueryPlan E) (rel : Rel planner) → Q rel → OnOk Q (materialized planner o i rel)
  unfolding materialized
  kept_materialized o i rel q = elim (Bool-cases enable_materialize) [
    | inl on ↦ simp on (
        OnOk-bind (λ path. Unit {0}) Q (create_materialize_path planner i) _
          (OnOk-any (create_materialize_path planner i)) (λ mat t. kept_nestloop false o mat rel q))
    | inr off ↦ simp off q
  ]

  kept_partial :
      (path : Option (QueryPlan E)) (rel : Rel planner) (body : QueryPlan E → Result (Rel planner))
      → Q rel
      → ((p : QueryPlan E) → OnOk Q (body p))
      → OnOk Q (elim path [ none ↦ ok rel | some p ↦ body p ])
  kept_partial none rel body q step = q
  kept_partial (some p) rel body q step = step p

  kept_looped :
      (is_partial : Bool) (o i : QueryPlan E) (outer_rel inner_rel rel : Rel planner)
      → Q rel
      → OnOk Q (
          nestloop planner is_partial o i rel >>= λ r.
          memoized planner is_partial o i outer_rel inner_rel r)
  kept_looped is_partial o i outer_rel inner_rel rel q =
      OnOk-bind Q Q (nestloop planner is_partial o i rel) _ (kept_nestloop is_partial o i rel q)
        (λ r g. kept_memoized is_partial o i outer_rel inner_rel r g)

  kept_match :
      (join_rel outer_rel inner_rel : Rel planner)
      → Q join_rel
      → OnOk Q (match_unsorted_outer planner join_rel outer_rel inner_rel)
  unfolding match_unsorted_outer
  kept_match join_rel outer_rel inner_rel q =
      OnOk-bind (λ paths. Unit {0}) Q (bound_paths planner outer_rel inner_rel) _
        (OnOk-any (bound_paths planner outer_rel inner_rel))
        (λ (o, i) t.
          OnOk-bind Q Q (nestloop planner false o i join_rel) _ (kept_nestloop false o i join_rel q)
            (λ plain p.
              OnOk-bind Q Q (memoized planner false o i outer_rel inner_rel plain) _
                (kept_memoized false o i outer_rel inner_rel plain p)
                (λ memo m.
                  OnOk-bind Q Q (materialized planner o i memo) _ (kept_materialized o i memo m)
                    (λ mat g.
                      kept_partial outer_rel.cheapest_partial_path mat _ g
                        (λ p. kept_looped true p i outer_rel inner_rel mat g)))))

  kept_hashed :
      (join_rel outer_rel inner_rel : Rel planner)
      → Q join_rel
      → OnOk Q (hash_inner_outer planner join_rel outer_rel inner_rel)
  unfolding hash_inner_outer
  kept_hashed join_rel outer_rel inner_rel q =
      OnOk-bind (λ paths. Unit {0}) Q (bound_paths planner outer_rel inner_rel) _
        (OnOk-any (bound_paths planner outer_rel inner_rel))
        (λ (o, i) t.
          OnOk-bind Q Q (hash_join_path planner false o i join_rel) _
            (kept_hash false o i join_rel q)
            (λ r g.
              kept_partial outer_rel.cheapest_partial_path r _ g (λ p. kept_hash true p i r g)))

  kept_optional :
      (b : Bool) (rel : Rel planner) (r : Result (Rel planner))
      → OnOk Q r
      → Q rel
      → OnOk Q (if b then r else ok rel)
  kept_optional true rel r h q = h
  kept_optional false rel r h q = q

  -- What every addition of a path keeps, the construction of the paths of a join keeps.
  pub kept_joinrel :
      (join_rel outer_rel inner_rel : Rel planner)
      → Q join_rel
      → OnOk Q (add_paths_to_joinrel planner join_rel outer_rel inner_rel)
  unfolding add_paths_to_joinrel
  kept_joinrel join_rel outer_rel inner_rel q =
      OnOk-bind Q Q _ _
        (kept_optional (has_op planner nested_loop_join) join_rel
          (match_unsorted_outer planner join_rel outer_rel inner_rel)
          (kept_match join_rel outer_rel inner_rel q) q)
        (λ looped g.
          OnOk-bind Q Q _ _
            (kept_optional (has_op planner sort_merge_join) looped
              (sort_inner_outer planner looped outer_rel inner_rel)
              (OnOk-map (λ r. r ≡ looped) Q (sort_inner_outer planner looped outer_rel inner_rel)
                (λ r e. subst Q (sym e) g)
                (sort_inner_outer_lem planner looped outer_rel inner_rel))
              g)
            (λ merged k.
              kept_optional (has_op planner hash_join) merged
                (hash_inner_outer planner merged outer_rel inner_rel)
                (kept_hashed merged outer_rel inner_rel k) k))

  -- So does the gathering of partial paths.
  pub kept_gathered : (rel : Rel planner) → Q rel → OnOk Q (generate_gather_paths planner rel)
  unfolding generate_gather_paths gather_partial
  kept_gathered rel q =
      for_each-OnOk Q (gather_partial planner) rel.partial_paths rel
        (λ path r g.
          OnOk-bind (λ n. Unit {0}) Q (known_workers planner path) _
            (OnOk-any (known_workers planner path))
            (λ n t.
              let gather_path = parallelize n path in
              adds false (with_cost (fragment_cost gather_path) gather_path) r g))
        q
