-- ===== src/DynProg/JoinPaths/Joined.antt =====
-- What `_add_paths_to_joinrel` of postbound/opt/_dynprog.py makes of a relation.
use post_bound.Base.{
  Bool, true, false, ◌≡◌, Option, none, some, List, Key, Result, ok, ◌>>=◌, OnOk, OnOk-bind,
  OnOk-map, mem, ◌||◌, if◌then◌else◌, sym, subst,
}
use post_bound.Core.Operators.{nested_loop_join, sort_merge_join, hash_join}
use post_bound.Core.Table.{TableReference, table_key}
use post_bound.DynProg.MergePaths.{sort_inner_outer}
use post_bound.DynProg.Create.{Rel}
use post_bound.DynProg.Create.{Planner}
use post_bound.DynProg.JoinPaths.{
  memoized, nestloop, materialized, match_unsorted_outer, hash_join_path, hash_inner_outer,
  add_paths_to_joinrel, bound_paths, both_paths, has_op,
}
use post_bound.DynProg.MergePaths.Unsorted.{sort_inner_outer_lem}
use post_bound.Plans.{QueryPlan}
use post_bound.Plans.Tables.{HasTables}
use post_bound.DynProg.JoinPaths.Tables.{IsFor, NamesTables, NamesColumns}
use post_bound.DynProg.JoinPaths.Relation.{
  IsRelFor, IsInput, OfSome, looped, hashed, materialized_lem, memoized_lem,
}

module _ {C E : Type 0} ⦃key : Key E⦄ ⦃source : HasTables E⦄ (planner : Planner C E)
    (no_hook : planner.hook ≡ none) (conditions : NamesTables planner)
    (columns : NamesColumns planner) (xs ys zs : List TableReference)
    (split : (k : TableReference) → mem k zs ≡ (mem k xs || mem k ys)) where
  bound-Input :
      (outer_rel inner_rel : Rel planner)
      → IsInput planner xs outer_rel
      → IsInput planner ys inner_rel
      → OnOk
          (λ paths. IsFor xs paths.0 × IsFor ys paths.1)
          (bound_paths planner outer_rel inner_rel)
  bound-Input outer_rel inner_rel (ho, hp) (hi, hq) =
      go outer_rel.cheapest_path inner_rel.cheapest_path ho hi
    where
      go :
          (o i : Option (QueryPlan E))
          → OfSome planner (IsFor xs) o
          → OfSome planner (IsFor ys) i
          → OnOk (λ paths. IsFor xs paths.0 × IsFor ys paths.1) (both_paths planner o i)
      go none i ho hi = tt
      go (some o) none ho hi = tt
      go (some o) (some i) ho hi = (ho, hi)

  with_partial :
      (path : Option (QueryPlan E)) (rel : Rel planner) (body : QueryPlan E → Result (Rel planner))
      → OfSome planner (IsFor xs) path
      → IsRelFor planner zs rel
      → ((p : QueryPlan E) → IsFor xs p → OnOk (IsRelFor planner zs) (body p))
      → OnOk (IsRelFor planner zs) (elim path [ none ↦ ok rel | some p ↦ body p ])
  with_partial none rel body hp h step = h
  with_partial (some p) rel body hp h step = step p hp

  looped_memoized :
      (is_partial : Bool) (o i : QueryPlan E) (outer_rel inner_rel rel : Rel planner)
      → inner_rel.intermediate ≡ ys
      → IsFor xs o
      → IsFor ys i
      → IsRelFor planner zs rel
      → OnOk (IsRelFor planner zs) (
          nestloop planner is_partial o i rel >>= λ r.
          memoized planner is_partial o i outer_rel inner_rel r)
  looped_memoized is_partial o i outer_rel inner_rel rel e ho hi h =
      OnOk-bind (IsRelFor planner zs) (IsRelFor planner zs) (nestloop planner is_partial o i rel) _
        (looped planner no_hook conditions columns xs ys zs split is_partial o i rel ho hi h)
        (λ r g.
          memoized_lem planner no_hook conditions columns xs ys zs split is_partial o i outer_rel
            inner_rel r e ho hi g)

  matched :
      (join_rel outer_rel inner_rel : Rel planner)
      → inner_rel.intermediate ≡ ys
      → IsInput planner xs outer_rel
      → IsInput planner ys inner_rel
      → IsRelFor planner zs join_rel
      → OnOk (IsRelFor planner zs) (match_unsorted_outer planner join_rel outer_rel inner_rel)
  unfolding match_unsorted_outer
  matched join_rel outer_rel inner_rel e ho hi h =
      OnOk-bind (λ paths. IsFor xs paths.0 × IsFor ys paths.1) (IsRelFor planner zs)
        (bound_paths planner outer_rel inner_rel) _ (bound-Input outer_rel inner_rel ho hi)
        (λ (o, i) (go, gi).
          OnOk-bind (IsRelFor planner zs) (IsRelFor planner zs)
            (nestloop planner false o i join_rel) _
            (looped planner no_hook conditions columns xs ys zs split false o i join_rel go gi h)
            (λ plain p.
              OnOk-bind (IsRelFor planner zs) (IsRelFor planner zs)
                (memoized planner false o i outer_rel inner_rel plain) _
                (memoized_lem planner no_hook conditions columns xs ys zs split false o i outer_rel
                  inner_rel plain e go gi p)
                (λ memo q.
                  OnOk-bind (IsRelFor planner zs) (IsRelFor planner zs)
                    (materialized planner o i memo) _
                    (materialized_lem planner no_hook conditions columns xs ys zs split o i memo go
                      gi q)
                    (λ mat m.
                      with_partial outer_rel.cheapest_partial_path mat
                        (λ p. nestloop planner true p i mat >>= λ r.
                          memoized planner true p i outer_rel inner_rel r)
                        ho.1 m
                        (λ p hp. looped_memoized true p i outer_rel inner_rel mat e hp gi m)))))

  hash_matched :
      (join_rel outer_rel inner_rel : Rel planner)
      → IsInput planner xs outer_rel
      → IsInput planner ys inner_rel
      → IsRelFor planner zs join_rel
      → OnOk (IsRelFor planner zs) (hash_inner_outer planner join_rel outer_rel inner_rel)
  unfolding hash_inner_outer
  hash_matched join_rel outer_rel inner_rel ho hi h =
      OnOk-bind (λ paths. IsFor xs paths.0 × IsFor ys paths.1) (IsRelFor planner zs)
        (bound_paths planner outer_rel inner_rel) _ (bound-Input outer_rel inner_rel ho hi)
        (λ (o, i) (go, gi).
          OnOk-bind (IsRelFor planner zs) (IsRelFor planner zs)
            (hash_join_path planner false o i join_rel) _
            (hashed planner no_hook conditions columns xs ys zs split false o i join_rel go gi h)
            (λ r g.
              with_partial outer_rel.cheapest_partial_path r
                (λ p. hash_join_path planner true p i r) ho.1 g
                (λ p hp.
                  hashed planner no_hook conditions columns xs ys zs split true p i r hp gi g)))

  -- If the enumerator has no hook, the condition between two sets of tables names only these, and
  -- the expression of a column names the table of the column: if the paths of a relation are for
  -- its tables, these are those of the outer and of the inner relation together, and the cheapest
  -- paths of these two are for their tables, then _add_paths_to_joinrel raises or leaves a
  -- relation for the same tables, all of whose paths are for them.
  pub add_paths_to_joinrel-IsRelFor :
      (join_rel outer_rel inner_rel : Rel planner)
      → inner_rel.intermediate ≡ ys
      → IsInput planner xs outer_rel
      → IsInput planner ys inner_rel
      → IsRelFor planner zs join_rel
      → OnOk (IsRelFor planner zs) (add_paths_to_joinrel planner join_rel outer_rel inner_rel)
  unfolding add_paths_to_joinrel
  add_paths_to_joinrel-IsRelFor join_rel outer_rel inner_rel e ho hi h =
      OnOk-bind (IsRelFor planner zs) (IsRelFor planner zs) _ _
        (optional (has_op planner nested_loop_join) join_rel
          (match_unsorted_outer planner join_rel outer_rel inner_rel)
          (matched join_rel outer_rel inner_rel e ho hi h) h)
        (λ looped_rel g.
          OnOk-bind (IsRelFor planner zs) (IsRelFor planner zs) _ _
            (optional (has_op planner sort_merge_join) looped_rel
              (sort_inner_outer planner looped_rel outer_rel inner_rel)
              (OnOk-map (λ r. r ≡ looped_rel) (IsRelFor planner zs)
                (sort_inner_outer planner looped_rel outer_rel inner_rel)
                (λ r same. subst (IsRelFor planner zs) (sym same) g)
                (sort_inner_outer_lem planner looped_rel outer_rel inner_rel))
              g)
            (λ merged k.
              optional (has_op planner hash_join) merged
                (hash_inner_outer planner merged outer_rel inner_rel)
                (hash_matched merged outer_rel inner_rel ho hi k) k))
    where
      optional :
          (b : Bool) (rel : Rel planner) (r : Result (Rel planner))
          → OnOk (IsRelFor planner zs) r
          → IsRelFor planner zs rel
          → OnOk (IsRelFor planner zs) (if b then r else ok rel)
      optional true rel r h g = h
      optional false rel r h g = g
