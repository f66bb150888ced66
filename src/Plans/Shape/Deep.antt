-- ===== src/Plans/Shape/Deep.antt =====
-- What `is_left_deep` and `is_right_deep` of postbound/_qep.py decide.
use post_bound.Base.{
  Bool, true, false, ◌≡◌, refl, arith, Option, none, some, List, [], ◌∷◌, ◌++◌, ok, if◌then◌else◌,
  ◌&&◌, ◌||◌, not, first, select, some_of, every, is_some, ap,
}
use post_bound.Core.Operators.{PhysicalOperator, scan_op, join_op, intermediate_op}
use post_bound.Hints.JoinTree.{outer}
use post_bound.Plans.{
  QueryPlan, plan, Plans, nil, cons, Subplan, no_subplan, subplan, joins, scans, is_join, children,
  both,
}
use post_bound.Plans.Traverse.{iternodes, iternodes_all}
use post_bound.Plans.Traverse.Visits.{
  regular, regular_below, visit, visit_below, find_first_node_lem,
}
use post_bound.Plans.Shape.{has_join, is_left_deep, is_right_deep}

module _ {ℓ} {A : Type ℓ} where
  pub every-append :
      (p : A → Bool) (xs ys : List A) → every p (xs ++ ys) ≡ (every p xs && every p ys)
  every-append p [] ys = refl
  every-append p (x ∷ xs) ys = ground (arith, every-append p xs ys)

  pub some_of-append :
      (p : A → Bool) (xs ys : List A) → some_of p (xs ++ ys) ≡ (some_of p xs || some_of p ys)
  some_of-append p [] ys = refl
  some_of-append p (x ∷ xs) ys = ground (arith, some_of-append p xs ys)

  pub is_some-first : (p : A → Bool) (xs : List A) → is_some (first (select p xs)) ≡ some_of p xs
  is_some-first p [] = refl
  is_some-first p (x ∷ xs) = ground (arith, is_some-first p xs)

  -- A test that holds wherever another one does not.
  pub every_of_none :
      (p q : A → Bool) (xs : List A)
      → ((x : A) → p x ≡ false → q x ≡ true)
      → some_of p xs ≡ false
      → every q xs ≡ true
  every_of_none p q [] f h = refl
  every_of_none p q (x ∷ xs) f h = ground (arith, f x, every_of_none p q xs f)

and_last : (a : Bool) → a ≡ ((a && true) && true)
and_last a = ground arith

-- A join is deep on one side if there is no join in the other one and the side itself is deep.
combine :
    (j b d g : Bool)
    → g ≡ true
    → (j ≡ false → b ≡ true)
    → (if j then ok false else ok d) ≡ ok ((d && (b && true)) && ((not g || not j) && true))
combine true b true g k f = rw k (ground arith)
combine true b false g k f = refl
combine false b d g k f = rw (k, f refl) (ground arith)

combine_right :
    (j b d g : Bool)
    → g ≡ true
    → (j ≡ false → b ≡ true)
    → (if j then ok false else ok d) ≡ ok ((b && (d && true)) && ((not g || not j) && true))
combine_right true b true g k f = rw k (ground arith)
combine_right true b false g k f = rw k (ground arith)
combine_right false b d g k f = rw (k, f refl) (ground arith)

pub not_scan : (op : Option PhysicalOperator) → joins op ≡ true → scans op ≡ false
not_scan none h = refl
not_scan (some (scan_op s)) h = cc
not_scan (some (join_op j)) h = refl
not_scan (some (intermediate_op i)) h = refl

or_swap : (a b : Bool) → (b || (a || false)) ≡ (a || (b || false))
or_swap a b = ground arith

or_nil : (a : Bool) → a ≡ (a || false)
or_nil a = ground arith

or_last : (a b : Bool) → (a || b) ≡ (b || (a || false))
or_last a b = ground arith

module _ {E : Type 0} where
  abbrev bare : Subplan E → Bool
  bare no_subplan = true
  bare (subplan root name) = false

  -- A plan without subplans, whose leaves are scans, whose nodes with one input are neither scans nor
  -- joins, and whose nodes with two inputs are joins.
  unfoldable mutual
    pub proper : QueryPlan E → Bool
    proper (plan n cs s) = bare s && proper_below n.operator cs

    pub proper_below : Option PhysicalOperator → Plans E → Bool
    proper_below op nil = scans op
    proper_below op (cons c nil) = not (scans op) && (not (joins op) && proper c)
    proper_below op (cons o (cons i nil)) = joins op && (proper o && proper i)
    proper_below op (cons a (cons b (cons c cs))) = false

  mutual
    unfolding proper regular

    proper-regular : (t : QueryPlan E) → proper t ≡ true → regular t ≡ true
    proper-regular (plan n cs no_subplan) h = ground (arith, proper-regular_below n.operator cs)
    proper-regular (plan n cs (subplan root name)) h = cc

    proper-regular_below :
        (op : Option PhysicalOperator) (cs : Plans E)
        → proper_below op cs ≡ true
        → regular_below (joins op) cs ≡ true
    proper-regular_below op nil h = refl
    proper-regular_below op (cons c nil) h = proper-regular c (ground arith)
    proper-regular_below op (cons o (cons i nil)) h =
        ground (arith, proper-regular o, proper-regular i)
    proper-regular_below op (cons a (cons b (cons c cs))) h = cc

  mutual
    unfolding proper visit iternodes

    visited :
        (p : QueryPlan E → Bool) (t : QueryPlan E)
        → proper t ≡ true
        → some_of p (visit outer t) ≡ some_of p (iternodes t)
    visited p (plan n cs no_subplan) h =
        rw
          (
            some_of-append p (iternodes_all cs) (plan n cs no_subplan ∷ []),
            visited_below p n.operator cs (ground arith),
          )
          (or_last (p (plan n cs no_subplan)) (some_of p (iternodes_all cs)))
    visited p (plan n cs (subplan root name)) h = cc

    visited_below :
        (p : QueryPlan E → Bool) (op : Option PhysicalOperator) (cs : Plans E)
        → proper_below op cs ≡ true
        → some_of p (visit_below outer [] cs) ≡ some_of p (iternodes_all cs)
    visited_below p op nil h = refl
    visited_below p op (cons c nil) h =
        rw (some_of-append p (iternodes c) [], visited p c (ground arith))
          (or_nil (some_of p (iternodes c)))
    visited_below p op (cons o (cons i nil)) h =
        rw
          (
            some_of-append p (visit outer i) (visit outer o ++ []),
            some_of-append p (visit outer o) [],
            some_of-append p (iternodes o) (iternodes i ++ []),
            some_of-append p (iternodes i) [],
            visited p o (ground arith),
            visited p i (ground arith),
          )
          (or_swap (some_of p (iternodes o)) (some_of p (iternodes i)))
    visited_below p op (cons a (cons b (cons c cs))) h = cc

  pub has_join_lem :
      (t : QueryPlan E) → proper t ≡ true → has_join t ≡ ok (some_of is_join (iternodes t))
  unfolding has_join
  has_join_lem t h =
      rw
        (
          find_first_node_lem is_join outer t (proper-regular t h),
          is_some-first is_join (visit outer t),
          visited is_join t h,
        )
        refl

  abbrev no_join : QueryPlan E → Bool
  no_join t = not (some_of is_join (iternodes t))

  -- The node is not a join, or its inner input contains no join; and the same of the outer input.
  abbrev pub inner_is_base : QueryPlan E → Bool
  inner_is_base m = elim (both (children m)) [
    | some (o, i) ↦ not (is_join m) || no_join i
    | none ↦ true
  ]

  abbrev pub outer_is_base : QueryPlan E → Bool
  outer_is_base m = elim (both (children m)) [
    | some (o, i) ↦ not (is_join m) || no_join o
    | none ↦ true
  ]

  base_of_no_join : (t : QueryPlan E) → is_join t ≡ false → inner_is_base t ≡ true
  base_of_no_join (plan n nil s) h = refl
  base_of_no_join (plan n (cons c nil) s) h = refl
  base_of_no_join (plan n (cons o (cons i nil)) s) h = rw h refl
  base_of_no_join (plan n (cons a (cons b (cons c cs))) s) h = refl

  outer_of_no_join : (t : QueryPlan E) → is_join t ≡ false → outer_is_base t ≡ true
  outer_of_no_join (plan n nil s) h = refl
  outer_of_no_join (plan n (cons c nil) s) h = refl
  outer_of_no_join (plan n (cons o (cons i nil)) s) h = rw h refl
  outer_of_no_join (plan n (cons a (cons b (cons c cs))) s) h = refl

  mutual
    unfolding is_left_deep proper iternodes

    left_deep :
        (t : QueryPlan E)
        → proper t ≡ true
        → is_left_deep t ≡ ok (every inner_is_base (iternodes t))
    left_deep (plan n nil no_subplan) h =
        let leaf : scans n.operator ≡ true = ground arith in rw leaf refl
    left_deep (plan n (cons c nil) no_subplan) h =
        let no_scan : scans n.operator ≡ false = ground arith in
        rw
          (
            no_scan,
            left_deep c (ground arith),
            every-append inner_is_base (iternodes c ++ []) (plan n (cons c nil) no_subplan ∷ []),
            every-append inner_is_base (iternodes c) [],
          )
          (ap ok (and_last (every inner_is_base (iternodes c))))
    left_deep (plan n (cons o (cons i nil)) no_subplan) h =
        let join : joins n.operator ≡ true = ground arith in
        let none_there : some_of is_join (iternodes i) ≡ false
            → every inner_is_base (iternodes i) ≡ true =
          every_of_none is_join inner_is_base (iternodes i) base_of_no_join in
        rw
          (
            not_scan n.operator join,
            join,
            has_join_lem i (ground arith),
            left_deep o (ground arith),
            every-append inner_is_base (iternodes o ++ (iternodes i ++ []))
                (plan n (cons o (cons i nil)) no_subplan ∷ []),
            every-append inner_is_base (iternodes o) (iternodes i ++ []),
            every-append inner_is_base (iternodes i) [],
          )
          (combine (some_of is_join (iternodes i)) (every inner_is_base (iternodes i))
            (every inner_is_base (iternodes o)) (joins n.operator) join none_there)
    left_deep (plan n (cons a (cons b (cons c cs))) no_subplan) h = cc
    left_deep (plan n cs (subplan root name)) h = cc

  mutual
    unfolding is_right_deep proper iternodes

    right_deep :
        (t : QueryPlan E)
        → proper t ≡ true
        → is_right_deep t ≡ ok (every outer_is_base (iternodes t))
    right_deep (plan n nil no_subplan) h =
        let leaf : scans n.operator ≡ true = ground arith in rw leaf refl
    right_deep (plan n (cons c nil) no_subplan) h =
        let no_scan : scans n.operator ≡ false = ground arith in
        rw
          (
            no_scan,
            right_deep c (ground arith),
            every-append outer_is_base (iternodes c ++ []) (plan n (cons c nil) no_subplan ∷ []),
            every-append outer_is_base (iternodes c) [],
          )
          (ap ok (and_last (every outer_is_base (iternodes c))))
    right_deep (plan n (cons o (cons i nil)) no_subplan) h =
        let join : joins n.operator ≡ true = ground arith in
        let none_there : some_of is_join (iternodes o) ≡ false
            → every outer_is_base (iternodes o) ≡ true =
          every_of_none is_join outer_is_base (iternodes o) outer_of_no_join in
        rw
          (
            not_scan n.operator join,
            join,
            has_join_lem o (ground arith),
            right_deep i (ground arith),
            every-append outer_is_base (iternodes o ++ (iternodes i ++ []))
                (plan n (cons o (cons i nil)) no_subplan ∷ []),
            every-append outer_is_base (iternodes o) (iternodes i ++ []),
            every-append outer_is_base (iternodes i) [],
          )
          (combine_right (some_of is_join (iternodes o)) (every outer_is_base (iternodes o))
            (every outer_is_base (iternodes i)) (joins n.operator) join none_there)
    right_deep (plan n (cons a (cons b (cons c cs))) no_subplan) h = cc
    right_deep (plan n cs (subplan root name)) h = cc

  -- On a plan without subplans whose leaves are scans, whose nodes with one input are neither
  -- scans nor joins, and whose nodes with two inputs are joins, is_left_deep and is_right_deep do
  -- not raise; is_left_deep returns whether the inner input of every join contains no join, and
  -- is_right_deep the same of the outer inputs.
  pub deep_lem :
      (t : QueryPlan E)
      → proper t ≡ true
      → (is_left_deep t ≡ ok (every inner_is_base (iternodes t)))
        × (is_right_deep t ≡ ok (every outer_is_base (iternodes t)))
  deep_lem t h = (left_deep t h, right_deep t h)
