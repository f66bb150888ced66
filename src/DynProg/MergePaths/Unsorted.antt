-- ===== src/DynProg/MergePaths/Unsorted.antt =====
-- What `_sort_inner_outer` of postbound/opt/_dynprog.py adds to a relation.
use post_bound.Base.{
  for_each, for_each-OnOk, ◌≡◌, refl, Option, none, List, [], ◌∷◌, Key, ok, err, attribute_error,
  OnOk, OnOk-any, OnOk-bind, OnOk-map, ap, ◌∙◌,
}
use post_bound.DynProg.MergePaths.{
  determine_join_keys, extract_join_columns, merge_key_paths, sort_inner_outer,
}
use post_bound.DynProg.Create.{Rel}
use post_bound.DynProg.Create.{Planner}
use post_bound.Plans.{QueryPlan}
use post_bound.Plans.Tables.{HasTables}

module _ {C E : Type 0} ⦃key : Key E⦄ ⦃source : HasTables E⦄ (planner : Planner C E) where
  no_columns :
      (join_key : E) (outer_rel inner_rel : Rel planner)
      → OnOk (λ columns. columns ≡ none) (extract_join_columns planner join_key outer_rel inner_rel)
  unfolding extract_join_columns
  no_columns join_key outer_rel inner_rel = passed_over (planner.join_partners join_key)
    where
      passed_over :
          (pairs : List (C × C))
          → OnOk
              (λ (columns : Option (C × C)). columns ≡ none)
              (elim pairs [
                | first_pair ∷ second_pair ∷ [] ↦ err attribute_error
                | partners ↦ ok none
              ])
      passed_over [] = refl
      passed_over (p ∷ []) = refl
      passed_over (p ∷ q ∷ []) = tt
      passed_over (p ∷ q ∷ r ∷ rest) = refl

  kept :
      (outer_rel inner_rel : Rel planner) (join_key : E)
      (state : Rel planner × Option (QueryPlan E))
      → OnOk (λ next. next ≡ state) (merge_key_paths planner outer_rel inner_rel join_key state)
  unfolding merge_key_paths
  kept outer_rel inner_rel join_key state =
      OnOk-bind (λ columns. columns ≡ none) (λ next. next ≡ state)
        (extract_join_columns planner join_key outer_rel inner_rel) _
        (no_columns join_key outer_rel inner_rel) (λ columns e. rw e refl)

  pub sort_inner_outer_lem :
      (join_rel outer_rel inner_rel : Rel planner)
      → OnOk (λ r. r ≡ join_rel) (sort_inner_outer planner join_rel outer_rel inner_rel)
  unfolding sort_inner_outer
  sort_inner_outer_lem join_rel outer_rel inner_rel =
      OnOk-bind (λ keys. Unit {0}) (λ r. r ≡ join_rel)
        (determine_join_keys planner outer_rel inner_rel) _
        (OnOk-any (determine_join_keys planner outer_rel inner_rel))
        (λ join_keys t.
          OnOk-bind (λ s. s ≡ (join_rel, none)) (λ r. r ≡ join_rel)
            (for_each (merge_key_paths planner outer_rel inner_rel) join_keys (join_rel, none)) _
            (for_each-OnOk (λ s. s ≡ (join_rel, none)) _ join_keys (join_rel, none)
              (λ x s e.
                OnOk-map _ _ (merge_key_paths planner outer_rel inner_rel x s) (λ next f. f ∙ e)
                  (kept outer_rel inner_rel x s))
              refl)
            (λ s e. ap (λ q. q.0) e))
