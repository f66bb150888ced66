-- ===== src/Plans/Traverse/Visits.antt =====
-- What `find_first_node` and `find_all_nodes` of postbound/_qep.py return.
use post_bound.Base.{
  Bool, true, false, ◌≡◌, refl, arith, Option, none, some, List, [], ◌∷◌, ◌++◌, ok, ◌&&◌, first,
  select, or_else, sym, Bool-cases, inl, inr,
}
use post_bound.Hints.JoinTree.{Direction, inner, outer}
use post_bound.Plans.{QueryPlan, plan, Plans, nil, cons, Subplan, no_subplan, subplan, joins}
use post_bound.Plans.Traverse.{
  iter, iter_all, iter_subplan, find_all_nodes, find_all_children, find_all_subplan,
  find_first_node, find_first_below, find_first_subplan, or_next, in_direction,
}

module _ {ℓ} {A : Type ℓ} where
  pub select-append :
      (p : A → Bool) (xs ys : List A) → select p (xs ++ ys) ≡ select p xs ++ select p ys
  select-append p [] ys = refl
  select-append p (x ∷ xs) ys = ground (arith, select-append p xs ys)

  first-append : (xs ys : List A) → first (xs ++ ys) ≡ or_else (first xs) (first ys)
  first-append [] ys = refl
  first-append (x ∷ xs) ys = refl

  pub first-select-append :
      (p : A → Bool) (xs ys : List A)
      → first (select p (xs ++ ys)) ≡ or_else (first (select p xs)) (first (select p ys))
  first-select-append p xs ys =
      rw (select-append p xs ys) (first-append (select p xs) (select p ys))

  or_next_lem : (a b : Option A) → or_next (ok a) (ok b) ≡ ok (or_else a b)
  or_next_lem none b = refl
  or_next_lem (some a) b = refl

module _ {E : Type 0} where
  -- Each node has at most two inputs, and two only if it is a join.
  unfoldable mutual
    pub regular : QueryPlan E → Bool
    regular (plan n cs s) = regular_below (joins n.operator) cs && regular_subplan s

    pub regular_below : Bool → Plans E → Bool
    regular_below join nil = true
    regular_below join (cons c nil) = regular c
    regular_below join (cons o (cons i nil)) = join && regular o && regular i
    regular_below join (cons a (cons b (cons c cs))) = false

    pub regular_subplan : Subplan E → Bool
    regular_subplan no_subplan = true
    regular_subplan (subplan root name) = regular root

  abbrev in_order :
      Direction → List (QueryPlan E) → List (QueryPlan E) → List (QueryPlan E) → List (QueryPlan E)
  in_order outer of_outer of_inner of_subplan = of_inner ++ (of_outer ++ of_subplan)
  in_order inner of_outer of_inner of_subplan = of_outer ++ (of_inner ++ of_subplan)

  -- The nodes in the order in which a search visits them: a node, then its inputs, of which with the
  -- direction `outer` the inner one comes first, and after the inputs of a join its subplan.
  unfoldable mutual
    pub visit : Direction → QueryPlan E → List (QueryPlan E)
    visit direction (plan n cs s) =
        plan n cs s ∷ visit_below direction (visit_subplan direction s) cs

    pub visit_below : Direction → List (QueryPlan E) → Plans E → List (QueryPlan E)
    visit_below direction of_subplan nil = []
    visit_below direction of_subplan (cons c nil) = visit direction c
    visit_below direction of_subplan (cons o (cons i nil)) =
        in_order direction (visit direction o) (visit direction i) of_subplan
    visit_below direction of_subplan (cons a (cons b (cons c cs))) = []

    pub visit_subplan : Direction → Subplan E → List (QueryPlan E)
    visit_subplan direction no_subplan = []
    visit_subplan direction (subplan root name) = visit direction root

module _ {E : Type 0} (p : QueryPlan E → Bool) where
  mutual
    unfolding find_all_nodes iter

    all_of_nodes : (t : QueryPlan E) → find_all_nodes p t ≡ select p (iter t)
    all_of_nodes (plan n cs s) = ground (
      arith,
      select-append p (iter_all cs) (iter_subplan s),
      all_of_children cs,
      all_of_subplan s,
    )

    all_of_children : (cs : Plans E) → find_all_children p cs ≡ select p (iter_all cs)
    all_of_children nil = refl
    all_of_children (cons c cs) =
        rw (all_of_nodes c, all_of_children cs) (sym (select-append p (iter c) (iter_all cs)))

    all_of_subplan : (s : Subplan E) → find_all_subplan p s ≡ select p (iter_subplan s)
    all_of_subplan no_subplan = refl
    all_of_subplan (subplan root name) = all_of_nodes root

  abbrev hit : List (QueryPlan E) → Option (QueryPlan E)
  hit xs = first (select p xs)

  in_direction_lem :
      (d : Direction) (xs ys zs : List (QueryPlan E))
      → in_direction d (ok (hit xs)) (ok (hit ys)) (ok (hit zs)) ≡ ok (hit (in_order d xs ys zs))
  in_direction_lem inner xs ys zs =
      rw
        (
          or_next_lem (hit ys) (hit zs),
          or_next_lem (hit xs) (or_else (hit ys) (hit zs)),
          first-select-append p xs (ys ++ zs),
          first-select-append p ys zs,
        )
        refl
  in_direction_lem outer xs ys zs =
      rw
        (
          or_next_lem (hit xs) (hit zs),
          or_next_lem (hit ys) (or_else (hit xs) (hit zs)),
          first-select-append p ys (xs ++ zs),
          first-select-append p xs zs,
        )
        refl

  mutual
    unfolding find_first_node visit regular

    first_node :
        (d : Direction) (t : QueryPlan E)
        → regular t ≡ true
        → find_first_node p d t ≡ ok (hit (visit d t))
    first_node d (plan n cs s) h = elim (Bool-cases (p (plan n cs s))) [
      | inl here ↦ rw here refl
      | inr other ↦
          rw
            (
              other,
              first_subplan d s (ground arith),
              first_below d (joins n.operator) (visit_subplan d s) cs (ground arith),
            )
            refl
    ]

    first_below :
        (d : Direction) (join : Bool) (zs : List (QueryPlan E)) (cs : Plans E)
        → regular_below join cs ≡ true
        → find_first_below p d join (ok (hit zs)) cs ≡ ok (hit (visit_below d zs cs))
    first_below d join zs nil h = refl
    first_below d join zs (cons c nil) h = first_node d c h
    first_below d true zs (cons o (cons i nil)) h =
        rw (first_node d o (ground arith), first_node d i (ground arith))
          (in_direction_lem d (visit d o) (visit d i) zs)
    first_below d false zs (cons o (cons i nil)) h = cc
    first_below d join zs (cons a (cons b (cons c cs))) h = cc

    first_subplan :
        (d : Direction) (s : Subplan E)
        → regular_subplan s ≡ true
        → find_first_subplan p d s ≡ ok (hit (visit_subplan d s))
    first_subplan d no_subplan h = refl
    first_subplan d (subplan root name) h = first_node d root h

  pub find_first_node_lem :
      (d : Direction) (t : QueryPlan E)
      → regular t ≡ true
      → find_first_node p d t ≡ ok (first (select p (visit d t)))
  find_first_node_lem = first_node

  -- find_all_nodes returns the nodes that match the predicate among those that the iteration over
  -- the plan yields, in the same order, subplans included.
  pub find_all_nodes_lem : (t : QueryPlan E) → find_all_nodes p t ≡ select p (iter t)
  find_all_nodes_lem = all_of_nodes
