-- ===== src/Plans/Extract/Trees.antt =====
-- The join tree that `jointree_from_plan` of postbound/_hints.py reads off a plan.
use post_bound.Base.{
  Bool, true, false, ◌≡◌, refl, arith, ok, ◌>>=◌, Returns, Returns-map, if◌then◌else◌, Option, none,
  some, List, [], ◌∷◌, ◌++◌, every, ◌≤◌, is_some, sym, ◌∙◌, subst, Returns-bind, Option-cases, inl,
  inr,
}
use post_bound.Core.Table.{TableReference}
use post_bound.Core.Cardinality.{Cardinality}
use post_bound.Hints.JoinTree.{JoinTree, scan, join, itertables}
use post_bound.Hints.JoinTree as Tree
use post_bound.Hints.JoinTree.Shape.{IsFull}
use post_bound.Plans.{
  QueryPlan, plan, Plans, nil, cons, Subplan, no_subplan, subplan, joins, scans, Node, is_scan,
  node,
}
use post_bound.Plans.Traverse.{iternodes, plan_depth}
use post_bound.Plans.Shape.Deep.{proper, not_scan}
use post_bound.Plans.Shape.Linear.{every_left, every_right, both_true}
use mathlib.Core.List.{append-nil}
use post_bound.Plans.Extract.{CardSource, card_of, jointree_from_plan}

module _ {E : Type 0} where
  -- The base tables of the scans among some nodes.
  abbrev pub scanned : List (QueryPlan E) → List TableReference
  scanned [] = []
  scanned (t ∷ ts) =
      if is_scan t
      then elim (node t).params.base_table [ none ↦ scanned ts | some table ↦ table ∷ scanned ts ]
      else scanned ts

  abbrev pub has_table : QueryPlan E → Bool
  has_table t = if is_scan t then is_some (node t).params.base_table else true

  scanned-append : (ts us : List (QueryPlan E)) → scanned (ts ++ us) ≡ scanned ts ++ scanned us
  scanned-append [] us = refl
  scanned-append (t ∷ ts) us = ground (arith, scanned-append ts us)

  -- A tree without empty parts that scans the tables of the plan in the plan's order, and is at most
  -- as deep.
  abbrev pub TreeOf : QueryPlan E → JoinTree Cardinality → Type 0
  TreeOf t j =
      IsFull j × (itertables j ≡ scanned (iternodes t)) × (Tree.plan_depth j ≤ plan_depth t)

  jointree_leaf :
      (source : CardSource) (n : Node E) (cs : Plans E) (s : Subplan E) (table : TableReference)
      → scans n.operator ≡ true
      → n.params.base_table ≡ some table
      → jointree_from_plan source (plan n cs s) ≡ ok (scan table (some (card_of source n)))
  unfolding jointree_from_plan
  jointree_leaf source n cs s table leaf e = simp (leaf, e)

  jointree_one :
      (source : CardSource) (n : Node E) (c : QueryPlan E) (s : Subplan E)
      → scans n.operator ≡ false
      → joins n.operator ≡ false
      → jointree_from_plan source (plan n (cons c nil) s) ≡ jointree_from_plan source c
  unfolding jointree_from_plan
  jointree_one source n c s no_scan no_join = rw (no_scan, no_join) refl

  jointree_two :
      (source : CardSource) (n : Node E) (o i : QueryPlan E) (s : Subplan E)
      → joins n.operator ≡ true
      → jointree_from_plan source (plan n (cons o (cons i nil)) s) ≡ (
          jointree_from_plan source o >>= λ outer.
          jointree_from_plan source i >>= λ inner. ok (join outer inner (some (card_of source n))))
  unfolding jointree_from_plan
  jointree_two source n o i s joined = rw (not_scan n.operator joined, joined) refl

  -- The nodes of a plan with one and with two inputs.
  scanned_one :
      (n : Node E) (c : QueryPlan E) (s : Subplan E)
      → scans n.operator ≡ false
      → scanned (iternodes (plan n (cons c nil) s)) ≡ scanned (iternodes c)
  unfolding iternodes
  scanned_one n c s no_scan =
      rw
        (
          scanned-append (iternodes c ++ []) (plan n (cons c nil) s ∷ []),
          scanned-append (iternodes c) [],
          no_scan,
          append-nil (scanned (iternodes c) ++ []),
          append-nil (scanned (iternodes c)),
        )
        refl

  scanned_two :
      (n : Node E) (o i : QueryPlan E) (s : Subplan E)
      → joins n.operator ≡ true
      → scanned (iternodes (plan n (cons o (cons i nil)) s))
        ≡ scanned (iternodes o) ++ scanned (iternodes i)
  unfolding iternodes
  scanned_two n o i s joined =
      rw
        (
          scanned-append (iternodes o ++ (iternodes i ++ [])) (plan n (cons o (cons i nil)) s ∷ []),
          scanned-append (iternodes o) (iternodes i ++ []),
          scanned-append (iternodes i) [],
          not_scan n.operator joined,
          append-nil (scanned (iternodes i)),
          append-nil (scanned (iternodes o) ++ scanned (iternodes i)),
        )
        refl

  has_tables_two :
      (n : Node E) (o i : QueryPlan E) (s : Subplan E)
      → every has_table (iternodes (plan n (cons o (cons i nil)) s)) ≡ true
      → (every has_table (iternodes o) ≡ true) × (every has_table (iternodes i) ≡ true)
  unfolding iternodes
  has_tables_two n o i s g =
      let below : every has_table (iternodes o ++ (iternodes i ++ [])) ≡ true =
        every_left has_table (iternodes o ++ (iternodes i ++ []))
          (plan n (cons o (cons i nil)) s ∷ []) g in
      (
        every_left has_table (iternodes o) (iternodes i ++ []) below,
        every_left has_table (iternodes i) []
            (every_right has_table (iternodes o) (iternodes i ++ []) below),
      )

  has_tables_one :
      (n : Node E) (c : QueryPlan E) (s : Subplan E)
      → every has_table (iternodes (plan n (cons c nil) s)) ≡ true
      → every has_table (iternodes c) ≡ true
  unfolding iternodes
  has_tables_one n c s g =
      every_left has_table (iternodes c) []
        (every_left has_table (iternodes c ++ []) (plan n (cons c nil) s ∷ []) g)

  one_deeper :
      (n : Node E) (c : QueryPlan E) (s : Subplan E)
      → plan_depth c ≤ plan_depth (plan n (cons c nil) s)
  unfolding plan_depth
  one_deeper n c s = omega arith

  TreeOf-one :
      (n : Node E) (c : QueryPlan E) (s : Subplan E) (j : JoinTree Cardinality)
      → scans n.operator ≡ false
      → TreeOf c j
      → TreeOf (plan n (cons c nil) s) j
  TreeOf-one n c s j no_scan (full, listed, depth) =
      (full, listed ∙ sym (scanned_one n c s no_scan), omega (arith, depth, one_deeper n c s))

  TreeOf-two :
      (n : Node E) (o i : QueryPlan E) (s : Subplan E) (p q : JoinTree Cardinality)
      (x : Option Cardinality)
      → joins n.operator ≡ true
      → TreeOf o p
      → TreeOf i q
      → TreeOf (plan n (cons o (cons i nil)) s) (join p q x)
  unfolding plan_depth itertables Tree.plan_depth
  TreeOf-two n o i s p q x joined (fp, lp, dp) (fq, lq, dq) =
      ((fp, fq), rw (lp, lq) (sym (scanned_two n o i s joined)), omega (arith, dp, dq))

  TreeOf-leaf :
      (n : Node E) (s : Subplan E) (table : TableReference) (x : Option Cardinality)
      → scans n.operator ≡ true
      → n.params.base_table ≡ some table
      → TreeOf (plan n nil s) (scan table x)
  unfolding plan_depth itertables Tree.plan_depth iternodes
  TreeOf-leaf n s table x leaf e = (tt, rw (leaf, e) refl, omega arith)

  given_table :
      (n : Node E) (s : Subplan E)
      → scans n.operator ≡ true
      → every has_table (iternodes (plan n nil s)) ≡ true
      → is_some n.params.base_table ≡ true
  unfolding iternodes
  given_table n s leaf g = ground arith

  mutual
    unfolding proper

    tree_of :
        (source : CardSource) (t : QueryPlan E)
        → proper t ≡ true
        → every has_table (iternodes t) ≡ true
        → Returns (TreeOf t) (jointree_from_plan source t)
    tree_of source (plan n nil no_subplan) h g = elim (Option-cases n.params.base_table) [
      | inl missing ↦ cc (given_table n no_subplan h g)
      | inr (table, e) ↦
          subst (Returns (TreeOf _)) (sym (jointree_leaf source n nil no_subplan table h e))
            (TreeOf-leaf n no_subplan table (some (card_of source n)) h e)
    ]
    tree_of source (plan n (cons c nil) no_subplan) h g =
        let no_scan : scans n.operator ≡ false = ground arith in
        let no_join : joins n.operator ≡ false = ground arith in
        subst (Returns (TreeOf _)) (sym (jointree_one source n c no_subplan no_scan no_join)) (
          Returns-map _ _ (jointree_from_plan source c) (λ j. TreeOf-one n c no_subplan j no_scan)
            (tree_of source c (ground arith) (has_tables_one n c no_subplan g)))
    tree_of source (plan n (cons o (cons i nil)) no_subplan) h g =
        let (joined, outer, inner) = both_true (joins n.operator) (proper o) (proper i) h in
        let (go, gi) = has_tables_two n o i no_subplan g in
        subst (Returns (TreeOf _)) (sym (jointree_two source n o i no_subplan joined)) (
          Returns-bind (TreeOf o) _ (jointree_from_plan source o) _ (tree_of source o outer go)
            (λ p hp.
              Returns-bind (TreeOf i) _ (jointree_from_plan source i) _ (tree_of source i inner gi)
                (λ q hq. TreeOf-two n o i no_subplan p q (some (card_of source n)) joined hp hq)))
    tree_of source (plan n (cons a (cons b (cons c cs))) no_subplan) h g = cc
    tree_of source (plan n cs (subplan root name)) h g = cc

  -- jointree_from_plan returns a join tree for a plan without subplans whose leaves are scans with
  -- a base table, whose nodes with one input are neither scans nor joins, and whose nodes with two
  -- inputs are joins; the tree has no empty parts, scans the base tables of the scans of the plan
  -- in their order, and is at most as deep as the plan.
  pub jointree_from_plan_lem :
      (source : CardSource) (t : QueryPlan E)
      → proper t ≡ true
      → every has_table (iternodes t) ≡ true
      → Returns
          (λ j.
            IsFull j × (itertables j ≡ scanned (iternodes t)) × (Tree.plan_depth j ≤ plan_depth t))
          (jointree_from_plan source t)
  jointree_from_plan_lem = tree_of
