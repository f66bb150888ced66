-- ===== src/DynProg/Paths/Cheapest.antt =====
-- `_set_cheapest` of postbound/opt/_dynprog.py.
use post_bound.Base.{
  true, false, ◌≡◌, refl, arith, Key, List, [], ◌∷◌, Bool-cases, inl, inr, All, All-map, Option,
  none, some, Returns, ◌≢◌, sym, subst, Any,
}
use post_bound.DynProg.Paths.{
  Cost, at_most, Plan, RelOptInfo, insert_path, sort_paths, set_cheapest, first,
}

at_most_trans : (a b c : Cost) → at_most a b ≡ true → at_most b c ≡ true → at_most a c ≡ true
at_most_trans a b c h g = ground arith

at_most_total : (a b : Cost) → at_most a b ≡ false → at_most b a ≡ true
at_most_total a b h = ground arith

at_most_refl : (a : Cost) → at_most a a ≡ true
at_most_refl a = ground arith

module _ {E P : Type 0} ⦃key : Key E⦄ (plan : Plan E P) where
  open plan use {estimated_cost}

  -- Path `p` is no dearer than any path of the list.
  abbrev pub IsCheapest : List P → P → Type 0
  IsCheapest ps p = All (λ q. at_most (estimated_cost p) (estimated_cost q) ≡ true) ps

  -- The costs do not fall along the list.
  abbrev pub Ascending : List P → Type 0
  Ascending [] = Unit
  Ascending (p ∷ ps) = IsCheapest ps p × Ascending ps

  insert_path-All :
      (Q : P → Type 0) (p : P) (ps : List P) → Q p → All Q ps → All Q (insert_path plan p ps)
  unfolding insert_path
  insert_path-All Q p [] h g = (h, tt)
  insert_path-All Q p (q ∷ qs) h (f, g) =
      elim (Bool-cases (at_most (estimated_cost p) (estimated_cost q))) [
        | inl le ↦ rw le (h, (f, g))
        | inr gt ↦ rw gt (f, insert_path-All Q p qs h g)
      ]

  insert_path-Ascending : (p : P) (ps : List P) → Ascending ps → Ascending (insert_path plan p ps)
  unfolding insert_path
  insert_path-Ascending p [] h = (tt, tt)
  insert_path-Ascending p (q ∷ qs) (least, h) =
      elim (Bool-cases (at_most (estimated_cost p) (estimated_cost q))) [
        | inl le ↦ rw le (
          (
            le,
            All-map _ _ qs
                (λ r g. at_most_trans (estimated_cost p) (estimated_cost q) (estimated_cost r) le g)
                least,
          ),
          (least, h),
        )
        | inr gt ↦ rw gt (
          insert_path-All (λ r. at_most (estimated_cost q) (estimated_cost r) ≡ true) p qs
              (at_most_total (estimated_cost p) (estimated_cost q) gt) least,
          insert_path-Ascending p qs h,
        )
      ]

  pub sort_paths-Ascending : (ps : List P) → Ascending (sort_paths plan ps)
  unfolding sort_paths
  sort_paths-Ascending [] = tt
  sort_paths-Ascending (p ∷ ps) = insert_path-Ascending p _ (sort_paths-Ascending ps)

  pub sort_paths-All : (Q : P → Type 0) (ps : List P) → All Q ps → All Q (sort_paths plan ps)
  unfolding sort_paths
  sort_paths-All Q [] h = tt
  sort_paths-All Q (p ∷ ps) (q, h) = insert_path-All Q p _ q (sort_paths-All Q ps h)

  insert_path-All_inv :
      (Q : P → Type 0) (p : P) (ps : List P) → All Q (insert_path plan p ps) → Q p × All Q ps
  unfolding insert_path
  insert_path-All_inv Q p [] (h, g) = (h, tt)
  insert_path-All_inv Q p (q ∷ qs) h =
      elim (Bool-cases (at_most (estimated_cost p) (estimated_cost q))) [
        | inl le ↦ rw le at h
        | inr gt ↦
            let (f, g) : Q q × All Q (insert_path plan p qs) = rw gt at h in
            let (a, b) = insert_path-All_inv Q p qs g in (a, (f, b))
      ]

  sort_paths-All_inv : (Q : P → Type 0) (ps : List P) → All Q (sort_paths plan ps) → All Q ps
  unfolding sort_paths
  sort_paths-All_inv Q [] h = tt
  sort_paths-All_inv Q (p ∷ ps) h =
      let (q, g) = insert_path-All_inv Q p (sort_paths plan ps) h in (q, sort_paths-All_inv Q ps g)

  among_self : (ps : List P) → All (λ q. Any (λ r. r ≡ q) ps) ps
  among_self [] = tt
  among_self (p ∷ ps) = (inl refl, All-map _ _ ps (λ q h. inr h) (among_self ps))

  -- The chosen path is one of the list, and no path of the list is cheaper.
  abbrev pub Chosen : List P → Option P → Type 0
  Chosen ps none = ⊥
  Chosen ps (some c) = IsCheapest ps c × Any (λ r. r ≡ c) ps

  first_of_sorted :
      (ps sorted : List P) (otherwise : Option P)
      → sorted ≢ []
      → Ascending sorted
      → All (λ q. Any (λ r. r ≡ q) ps) sorted
      → ((c : P) → IsCheapest sorted c → IsCheapest ps c)
      → Chosen ps (first plan sorted otherwise)
  first_of_sorted ps [] otherwise n a m back = absurd (n refl)
  first_of_sorted ps (c ∷ cs) otherwise n (least, a) (m, ms) back =
      (back c (at_most_refl (estimated_cost c), least), m)

  insert_path-ne_nil : (p : P) (ps : List P) → insert_path plan p ps ≢ []
  unfolding insert_path
  insert_path-ne_nil p [] e = cc
  insert_path-ne_nil p (q ∷ qs) e = ground arith

  sort_paths-Chosen :
      (p : P) (ps : List P) (otherwise : Option P)
      → Chosen (p ∷ ps) (first plan (sort_paths plan (p ∷ ps)) otherwise)
  unfolding sort_paths
  sort_paths-Chosen p ps otherwise =
      first_of_sorted (p ∷ ps) (insert_path plan p (sort_paths plan ps)) otherwise
        (insert_path-ne_nil p (sort_paths plan ps)) (sort_paths-Ascending (p ∷ ps))
        (sort_paths-All (λ q. Any (λ r. r ≡ q) (p ∷ ps)) (p ∷ ps) (among_self (p ∷ ps)))
        (λ c.
          sort_paths-All_inv (λ q. at_most (estimated_cost c) (estimated_cost q) ≡ true) (p ∷ ps))

  set_cheapest_at :
      (rel : RelOptInfo P) (ps : List P)
      → rel.pathlist ≡ ps
      → rel.pathlist ≢ []
      → Returns (λ r. Chosen rel.pathlist r.cheapest_path) (set_cheapest plan rel)
  unfolding set_cheapest
  set_cheapest_at rel [] e n = absurd (n e)
  set_cheapest_at rel (p ∷ ps) e n =
      rw (e, set_cheapest)
        (subst (λ q. Chosen (p ∷ ps) (first plan (sort_paths plan q) rel.cheapest_path)) (sym e)
          (sort_paths-Chosen p ps rel.cheapest_path))

  -- If there is a path, _set_cheapest does not raise, and the cheapest path that it sets is one of
  -- the path list before, and no path of that list is cheaper.
  pub set_cheapest_lem :
      (rel : RelOptInfo P)
      → rel.pathlist ≢ []
      → Returns (λ r. Chosen rel.pathlist r.cheapest_path) (set_cheapest plan rel)
  set_cheapest_lem rel n = set_cheapest_at rel rel.pathlist refl n
