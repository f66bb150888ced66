-- ===== src/DynProg/Paths/Retained.antt =====
-- The path list of `standard_add_path` (postbound/opt/_dynprog.py) after a path is added.
use post_bound.Base.{
  Bool, true, false, ◌≡◌, refl, arith, Key, List, [], ◌∷◌, ◌++◌, if◌then◌else◌, Bool-cases, inl,
  inr, ◌⊎◌, All, Any, Any-append_left, Any-append_right, Any-map, All-map, All-append, sym, subst,
}
use post_bound.DynProg.Sorting.{SortKey, sorting_subsumes, same_sorting}
use post_bound.DynProg.Paths.{
  Cost, cheaper, at_most, about_at_most, Plan, new_dominates, compete, add_to_paths,
}

about_of_cheaper : (a b : Cost) → cheaper a b ≡ true → about_at_most a b ≡ true
about_of_cheaper a b h = ground arith

about_of_at_most : (a b : Cost) → at_most a b ≡ true → about_at_most a b ≡ true
about_of_at_most a b h = ground arith

at_most_of_not_cheaper : (a b : Cost) → cheaper a b ≡ false → at_most b a ≡ true
at_most_of_not_cheaper a b h = ground arith

at_most_of_not_about : (a b : Cost) → about_at_most a b ≡ false → at_most b a ≡ true
at_most_of_not_about a b h = ground arith

about_trans :
    (a b c : Cost) → at_most a b ≡ true → about_at_most b c ≡ true → about_at_most a c ≡ true
about_trans a b c h g = ground arith

about_refl : (a : Cost) → about_at_most a a ≡ true
about_refl a = ground arith

module _ {E P : Type 0} ⦃key : Key E⦄ (plan : Plan E P) where
  open plan use {estimated_cost, sort_keys}

  -- Path `q` costs at most 1.01 times as much as `p`.
  abbrev pub Rivals : P → P → Type 0
  Rivals p q = about_at_most (estimated_cost q) (estimated_cost p) ≡ true

  -- Path `q` costs at most as much as `p`.
  abbrev Beats : P → P → Type 0
  Beats p q = at_most (estimated_cost q) (estimated_cost p) ≡ true

  -- A path that is evicted is about as expensive as the new one.
  dominated : (path old : P) → new_dominates plan path old ≡ true → Rivals old path
  unfolding new_dominates
  dominated path old h = elim (Bool-cases (same_sorting (sort_keys path) (sort_keys old))) [
    | inl same ↦ about_of_cheaper (estimated_cost path) (estimated_cost old) (rw same at h)
    | inr differs ↦ rw differs at h
  ]

  -- A path that is not evicted by the comparison is no more expensive than the new one.
  undominated : (path old : P) → new_dominates plan path old ≡ false → Beats path old
  unfolding new_dominates
  undominated path old h = elim (Bool-cases (same_sorting (sort_keys path) (sort_keys old))) [
    | inl same ↦ at_most_of_not_cheaper (estimated_cost path) (estimated_cost old) (rw same at h)
    | inr differs ↦
        at_most_of_not_about (estimated_cost path) (estimated_cost old) (rw differs at h)
  ]

  kept_self : (ps : List P) → All (λ p. Any (Rivals p) ps) ps
  kept_self [] = tt
  kept_self (p ∷ ps) =
      (inl (about_refl (estimated_cost p)), All-map _ _ ps (λ q h. inr h) (kept_self ps))

  -- After the loop each current path has a rival that is kept, or the new path is one; and the new
  -- path is to be kept, or a kept one beats it.
  abbrev Outcome : P → List P → List P × Bool → Type 0
  Outcome path current (kept, keep_new) =
      All (λ p. Any (Rivals p) kept ⊎ Rivals p path) current
      × ((keep_new ≡ true) ⊎ Any (Beats path) kept)

  keep_old :
      (path old : P) (rest : List P) (r : List P × Bool)
      → Outcome path rest r
      → Outcome path (old ∷ rest) (old ∷ r.0, r.1)
  keep_old path old rest (kept, keep_new) (rivals, wins) = (
    (inl (inl (about_refl (estimated_cost old))), All-map _ _ rest later rivals),
    elim wins [ inl e ↦ inl e | inr h ↦ inr (inr h) ],
  )
    where
      later :
          (p : P)
          → Any (Rivals p) kept ⊎ Rivals p path
          → Any (Rivals p) (old ∷ kept) ⊎ Rivals p path
      later p (inl h) = inl (inr h)
      later p (inr h) = inr h

  compete_apart :
      (path old : P) (rest : List P)
      → sorting_subsumes (sort_keys path) (sort_keys old) ≡ false
      → compete plan path (old ∷ rest)
        ≡ (old ∷ (compete plan path rest).0, (compete plan path rest).1)
  unfolding compete
  compete_apart path old rest h = rw h refl

  compete_evicts :
      (path old : P) (rest : List P)
      → sorting_subsumes (sort_keys path) (sort_keys old) ≡ true
      → new_dominates plan path old ≡ true
      → compete plan path (old ∷ rest) ≡ compete plan path rest
  unfolding compete
  compete_evicts path old rest h g = rw (h, g) refl

  compete_loses :
      (path old : P) (rest : List P)
      → sorting_subsumes (sort_keys path) (sort_keys old) ≡ true
      → new_dominates plan path old ≡ false
      → compete plan path (old ∷ rest) ≡ (old ∷ rest, false)
  unfolding compete
  compete_loses path old rest h g = rw (h, g) refl

  compete_lem : (path : P) (current : List P) → Outcome path current (compete plan path current)
  unfolding compete
  compete_lem path [] = (tt, inl refl)
  compete_lem path (old ∷ rest) =
      elim (Bool-cases (sorting_subsumes (sort_keys path) (sort_keys old))) [
        | inr no_rival ↦
            subst (Outcome path (old ∷ rest)) (sym (compete_apart path old rest no_rival))
              (keep_old path old rest _ (compete_lem path rest))
        | inl subsumes ↦ elim (Bool-cases (new_dominates plan path old)) [
          | inl wins ↦
              let (rivals, others) = compete_lem path rest in
              subst (Outcome path (old ∷ rest)) (sym (compete_evicts path old rest subsumes wins))
                ((inr (dominated path old wins), rivals), others)
          | inr loses ↦
              subst (Outcome path (old ∷ rest)) (sym (compete_loses path old rest subsumes loses)) (
                All-map _ _ (old ∷ rest) (λ p h. inl h) (kept_self (old ∷ rest)),
                inr (inl (undominated path old loses)),
              )
        ]
      ]

  closed :
      (path : P) (current kept : List P) (keep_new : Bool)
      → Outcome path current (kept, keep_new)
      → All (λ p. Any (Rivals p) (if keep_new then kept ++ (path ∷ []) else kept)) (path ∷ current)
  closed path current kept true (rivals, wins) = (
    Any-append_right _ kept (path ∷ []) (inl (about_refl (estimated_cost path))),
    All-map _ _ current both rivals,
  )
    where
      both : (p : P) → Any (Rivals p) kept ⊎ Rivals p path → Any (Rivals p) (kept ++ (path ∷ []))
      both p (inl h) = Any-append_left _ kept (path ∷ []) h
      both p (inr h) = Any-append_right _ kept (path ∷ []) (inl h)
  closed path current kept false (rivals, inl e) = cc
  closed path current kept false (rivals, inr beaten) = (
    Any-map _ _ kept (λ q h. about_of_at_most (estimated_cost q) (estimated_cost path) h) beaten,
    All-map _ _ current both rivals,
  )
    where
      both : (p : P) → Any (Rivals p) kept ⊎ Rivals p path → Any (Rivals p) kept
      both p (inl h) = h
      both p (inr h) =
          Any-map _ _ kept
            (λ q g. about_trans (estimated_cost q) (estimated_cost path) (estimated_cost p) g h)
            beaten

  -- After standard_add_path, the list has for the new path and for each path that was in it a path
  -- that costs at most 1.01 times as much.
  pub add_to_paths_retains :
      (path : P) (current : List P)
      → All (λ p. Any (Rivals p) (add_to_paths plan path current)) (path ∷ current)
  unfolding add_to_paths
  add_to_paths_retains path [] = (inl (about_refl (estimated_cost path)), tt)
  add_to_paths_retains path (p ∷ ps) = closed path (p ∷ ps) _ _ (compete_lem path (p ∷ ps))

  compete-All :
      (Q : P → Type 0) (path : P) (current : List P)
      → All Q current
      → All Q (compete plan path current).0
  unfolding compete
  compete-All Q path [] h = tt
  compete-All Q path (old ∷ rest) (q, h) =
      elim (Bool-cases (sorting_subsumes (sort_keys path) (sort_keys old))) [
        | inr no_rival ↦ rw no_rival (q, compete-All Q path rest h)
        | inl subsumes ↦ elim (Bool-cases (new_dominates plan path old)) [
          | inl wins ↦ rw (subsumes, wins) (compete-All Q path rest h)
          | inr loses ↦ rw (subsumes, loses) (q, h)
        ]
      ]

  -- No path is invented: what holds of the new path and of the paths before holds of all afterwards.
  pub add_to_paths-All :
      (Q : P → Type 0) (path : P) (current : List P)
      → Q path
      → All Q current
      → All Q (add_to_paths plan path current)
  unfolding add_to_paths
  add_to_paths-All Q path [] q h = (q, tt)
  add_to_paths-All Q path (p ∷ ps) q h = elim (Bool-cases (compete plan path (p ∷ ps)).1) [
    | inl kept ↦ rw kept (All-append Q _ (path ∷ []) (compete-All Q path (p ∷ ps) h) (q, tt))
    | inr dropped ↦ rw dropped (compete-All Q path (p ∷ ps) h)
  ]

  sorted_not_dominating :
      (path old : P) (k : SortKey E) (ks : List (SortKey E))
      → sort_keys path ≡ k ∷ ks
      → sort_keys old ≡ []
      → about_at_most (estimated_cost path) (estimated_cost old) ≡ false
      → (sorting_subsumes (sort_keys path) (sort_keys old) ≡ true)
        × (new_dominates plan path old ≡ false)
  unfolding sorting_subsumes new_dominates same_sorting
  sorted_not_dominating path old k ks sorted unsorted dearer =
      (rw (sorted, unsorted) refl, ground arith)

  -- standard_add_path leaves the list as it is, and drops the new path, wherever that is sorted
  -- and the first path of the list is unsorted and cheaper by more than one percent of its own
  -- cost.
  pub add_to_paths_drops_sorted :
      (path old : P) (rest : List P) (k : SortKey E) (ks : List (SortKey E))
      → sort_keys path ≡ k ∷ ks
      → sort_keys old ≡ []
      → about_at_most (estimated_cost path) (estimated_cost old) ≡ false
      → add_to_paths plan path (old ∷ rest) ≡ old ∷ rest
  unfolding add_to_paths compete
  add_to_paths_drops_sorted path old rest k ks sorted unsorted dearer =
      let (subsumes, loses) = sorted_not_dominating path old k ks sorted unsorted dearer in
      rw (subsumes, loses) refl
