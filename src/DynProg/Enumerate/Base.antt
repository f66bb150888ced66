-- ===== src/DynProg/Enumerate/Base.antt =====
-- The paths of the base relations of postbound/opt/_dynprog.py.
use post_bound.Base.{
  true, false, ◌≡◌, refl, Key, List, [], ◌∷◌, none, Text, pos, eqb_ℤ, ok, OnOk, OnOk-bind, All,
  Bool-cases, inl, inr, map, set_key,
}
use post_bound.Core.Operators.{bitmap_scan}
use post_bound.Core.Table.{TableReference, table_key}
use post_bound.Core.Cardinality.{Cardinality}
use post_bound.DynProg.Search.{init_base_rels, new_rel}
use post_bound.DynProg.Search.Levels.{intermediates}
use post_bound.DynProg.Create.{Planner, Rel, view, added, with_cost}
use post_bound.DynProg.JoinPaths.Tables.{made, costed-IsFor}
use post_bound.DynProg.JoinPaths.Relation.{IsRelFor, added-IsRelFor}
use post_bound.DynProg.ScanPaths.{
  has_scan, candidate_indexes, bitmap_arguments, add_bitmap, create_bitmap_path,
  create_sequential_paths, create_index_paths, generate_gather_paths, base_rel_paths,
  set_base_rel_pathlists,
}
use post_bound.DynProg.ScanPaths.Kept.{
  NamesFilters, scan-IsFor, scan_paths-IsRelFor, generate_gather_paths-IsRelFor,
}
use post_bound.DynProg.Enumerate.{quiet, construction}
use post_bound.DynProg.Enumerate.Whole.{IsProper, IsRelFor-IsProper, set_cheapest-IsRelFor}
use post_bound.Plans.{plan, nil, no_subplan}
use post_bound.Plans.Build.{init, init_params, init_estimates, init_measures, cardinality_of}
use post_bound.Plans.Tables.{HasTables}

module _ {C E : Type 0} ⦃key : Key E⦄ ⦃source : HasTables E⦄ (planner : Planner C E)
    (estimate : List TableReference → Cardinality) (no_hook : planner.hook ≡ none)
    (filters : NamesFilters planner) where
  open planner use {star_cost, table_workers, columns_of}

  add_bitmap-IsRelFor :
      (t : TableReference) (candidates : List (Text × List Text)) (rel : Rel planner)
      → IsRelFor planner (t ∷ []) rel
      → OnOk (IsRelFor planner (t ∷ [])) (add_bitmap planner t candidates rel)
  unfolding add_bitmap made init init_params init_estimates init_measures cardinality_of
  add_bitmap-IsRelFor t candidates rel h =
      let path = plan (made (bitmap_arguments planner t candidates)) nil no_subplan in
      let bitmap_path = with_cost (star_cost path) path in
      let own = costed-IsFor (t ∷ []) (star_cost path) path (
        scan-IsFor planner no_hook filters (bitmap_arguments planner t candidates) t refl refl
          refl) in
      let full = added-IsRelFor planner no_hook (t ∷ []) false bitmap_path rel own h in
      elim (Bool-cases (eqb_ℤ (table_workers t) (pos 0))) [
        | inl no_workers ↦ rw no_workers full
        | inr some_workers ↦ rw some_workers (
            added-IsRelFor planner no_hook (t ∷ []) true bitmap_path
              (added planner false bitmap_path rel) own full)
      ]

  bitmap-IsRelFor :
      (t : TableReference) (rel : Rel planner)
      → IsRelFor planner (t ∷ []) rel
      → OnOk (IsRelFor planner (t ∷ [])) (create_bitmap_path planner rel)
  unfolding create_bitmap_path
  bitmap-IsRelFor t rel h = elim (Bool-cases (has_scan planner bitmap_scan)) [
    | inl on ↦ simp on (simp h.0 (with_candidates (candidate_indexes planner (columns_of t))))
    | inr off ↦ simp off h
  ]
    where
      with_candidates :
          (candidates : List (Text × List Text))
          → OnOk (IsRelFor planner (t ∷ [])) (elim candidates [
            | [] ↦ ok rel
            | candidate ∷ rest ↦ add_bitmap planner t (candidate ∷ rest) rel
          ])
      with_candidates [] = h
      with_candidates (candidate ∷ rest) = add_bitmap-IsRelFor t (candidate ∷ rest) rel h

  -- The paths of a base relation are for its table.
  base_rel_paths-IsRelFor :
      (t : TableReference) (rel : Rel planner)
      → IsRelFor planner (t ∷ []) rel
      → OnOk (IsRelFor planner (t ∷ [])) (base_rel_paths planner rel)
  unfolding base_rel_paths
  base_rel_paths-IsRelFor t rel h =
      let One = IsRelFor planner (t ∷ []) in
      OnOk-bind One One (create_sequential_paths planner rel) _
        (scan_paths-IsRelFor planner no_hook filters t rel h).0
        (λ scanned s.
          OnOk-bind One One (create_index_paths planner scanned) _
            (scan_paths-IsRelFor planner no_hook filters t scanned s).1
            (λ indexed i.
              OnOk-bind One One (create_bitmap_path planner indexed) _ (bitmap-IsRelFor t indexed i)
                (λ mapped m.
                  OnOk-bind One One (generate_gather_paths planner mapped) _
                    (generate_gather_paths-IsRelFor planner no_hook (t ∷ []) mapped m)
                    (λ gathered g.
                      set_cheapest-IsRelFor planner (t ∷ []) gathered gathered.pathlist refl g))))

  -- The relations are one for each table, and their paths are for their tables.
  abbrev pub AreFor : List TableReference → List (Rel planner) → Type 0
  AreFor ts rels =
      (intermediates rels ≡ map (λ (t : TableReference). t ∷ []) ts)
      × All (IsProper planner estimate no_hook) rels

  -- If the enumerator has no hook and the filter of a table names only this table: on the
  -- relations that _init_base_rels builds, _set_base_rel_pathlists raises or returns relations one
  -- for each table, in the same order, all of whose paths, the gathered, the partial and the
  -- cheapest ones included, are for the table.
  pub set_base_rel_pathlists-AreFor :
      (ts : List TableReference)
      → OnOk (AreFor ts) (
          set_base_rel_pathlists planner
            (init_base_rels (view planner) (quiet (construction planner estimate)) ts))
  unfolding set_base_rel_pathlists init_base_rels
  set_base_rel_pathlists-AreFor [] = (refl, tt)
  set_base_rel_pathlists-AreFor (t ∷ ts) =
      let rel = new_rel (view planner) (quiet (construction planner estimate)) (t ∷ []) in
      let rest =
        set_base_rel_pathlists planner
          (init_base_rels (view planner) (quiet (construction planner estimate)) ts) in
      OnOk-bind (IsRelFor planner (t ∷ [])) (AreFor (t ∷ ts)) (base_rel_paths planner rel) _
        (base_rel_paths-IsRelFor t rel (refl, tt, tt, (tt, tt)))
        (λ r h.
          OnOk-bind (AreFor ts) (AreFor (t ∷ ts)) rest _ (set_base_rel_pathlists-AreFor ts)
            (λ rs (e, all).
              (cc (h.0, e), (IsRelFor-IsProper planner estimate no_hook (t ∷ []) r h, all))))
