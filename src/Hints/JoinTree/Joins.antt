-- ===== src/Hints/JoinTree/Joins.antt =====
-- Building join trees, and their equality.
use post_bound.Base.{
  Bool, true, false, ◌≡◌, refl, arith, ok, Option, none, some, ◌||◌, ◌+◌, max, Returns, mem,
  mem-union, Key, set_eq, set_eq_intro, if◌then◌else◌, same_left,
}
use post_bound.Core.Table.{TableReference, table_key}
use post_bound.Hints.JoinTree.{
  JoinTree, empty, scan, join, is_empty, tables, plan_depth, Partner, tree, table, Direction, inner,
  outer, join_with, update_annotation, annotation, tree_eq, oriented,
}

or_false : (b : Bool) → b ≡ (b || false)
or_false true = refl
or_false false = refl

module _ {A : Type 0} where
  -- The tree of a partner, without annotation.
  abbrev pub bare : Partner A → JoinTree A
  bare (tree t) = t
  bare (table t) = scan t none

  oriented_lem :
      (x : Option A) (d : Direction) (t p : JoinTree A) (k : TableReference)
      → (mem k (tables (oriented d t p x)) ≡ (mem k (tables t) || mem k (tables p)))
        × (plan_depth (oriented d t p x) ≡ 1 + max (plan_depth t) (plan_depth p))
  unfolding tables plan_depth
  oriented_lem x inner t p k = (mem-union k (tables t) (tables p), refl)
  oriented_lem x outer t p k = (ground (arith, mem-union k (tables p) (tables t)), omega arith)

  -- join_with never raises; the tables of the result are those of both sides, and it is one deeper
  -- than the deeper side, or as deep as the other side if one is empty.
  pub join_with_lem :
      (p : Partner A) (x y : Option A) (d : Direction) (t : JoinTree A) (k : TableReference)
      → Returns
          (λ r.
            (mem k (tables r) ≡ (mem k (tables t) || mem k (tables (bare p))))
            × (plan_depth r ≡ (
                if is_empty t
                then plan_depth (bare p)
                else if is_empty (bare p)
                then plan_depth t
                else 1 + max (plan_depth t) (plan_depth (bare p)))))
          (join_with p x y d t)
  unfolding join_with tables plan_depth mem
  join_with_lem (table u) x y d empty k = (refl, refl)
  join_with_lem (table u) x y d (scan v z) k = oriented_lem x d (scan v z) (scan u y) k
  join_with_lem (table u) x y d (join o i z) k = oriented_lem x d (join o i z) (scan u y) k
  join_with_lem (tree empty) x y d empty k = (refl, refl)
  join_with_lem (tree empty) x y d (scan v z) k = ground arith
  join_with_lem (tree empty) x y d (join o i z) k = (or_false _, refl)
  join_with_lem (tree (scan u w)) x none d empty k = (refl, refl)
  join_with_lem (tree (scan u w)) x none d (scan v z) k = oriented_lem x d (scan v z) (scan u w) k
  join_with_lem (tree (scan u w)) x none d (join o i z) k =
      oriented_lem x d (join o i z) (scan u w) k
  join_with_lem (tree (scan u w)) x (some a) d empty k = (refl, refl)
  join_with_lem (tree (scan u w)) x (some a) d (scan v z) k =
      oriented_lem x d (scan v z) (scan u (some a)) k
  join_with_lem (tree (scan u w)) x (some a) d (join o i z) k =
      oriented_lem x d (join o i z) (scan u (some a)) k
  join_with_lem (tree (join p q w)) x none d empty k = (refl, refl)
  join_with_lem (tree (join p q w)) x none d (scan v z) k =
      oriented_lem x d (scan v z) (join p q w) k
  join_with_lem (tree (join p q w)) x none d (join o i z) k =
      oriented_lem x d (join o i z) (join p q w) k
  join_with_lem (tree (join p q w)) x (some a) d empty k = (refl, refl)
  join_with_lem (tree (join p q w)) x (some a) d (scan v z) k =
      oriented_lem x d (scan v z) (join p q (some a)) k
  join_with_lem (tree (join p q w)) x (some a) d (join o i z) k =
      oriented_lem x d (join o i z) (join p q (some a)) k

  pub tree_eq_refl : (t : JoinTree A) → tree_eq t t ≡ true
  unfolding tree_eq
  tree_eq_refl empty = refl
  tree_eq_refl (scan t x) = table_key.same_refl t
  tree_eq_refl (join o i x) = ground (arith, tree_eq_refl o, tree_eq_refl i)

  pub tree_eq-sym : (s t : JoinTree A) → tree_eq s t ≡ true → tree_eq t s ≡ true
  unfolding tree_eq
  tree_eq-sym empty empty h = refl
  tree_eq-sym (scan t x) (scan u y) h = table_key.same_sym t u h
  tree_eq-sym (join o i x) (join p j y) h = ground (arith, tree_eq-sym o p, tree_eq-sym i j)
  tree_eq-sym _ _ h = cc

  pub tree_eq_trans :
      (r s t : JoinTree A) → tree_eq r s ≡ true → tree_eq s t ≡ true → tree_eq r t ≡ true
  unfolding tree_eq
  tree_eq_trans empty empty empty g h = refl
  tree_eq_trans (scan t x) (scan u y) (scan v z) g h = table_key.same_trans t u v g h
  tree_eq_trans (join o i x) (join p j y) (join q k z) g h =
      ground (arith, tree_eq_trans o p q, tree_eq_trans i j k)
  tree_eq_trans _ _ _ g h = cc

  -- A join tree is a key of dictionaries and sets.
  instance abbrev pub tree_key : Key (JoinTree A)
  tree_key = record {
    same = tree_eq;
    same_refl = tree_eq_refl;
    same_sym = tree_eq-sym;
    same_trans = tree_eq_trans;
  }

  mem-tree_eq :
      (k : TableReference) (s t : JoinTree A)
      → tree_eq s t ≡ true
      → mem k (tables s) ≡ mem k (tables t)
  unfolding tree_eq tables mem
  mem-tree_eq k empty empty h = refl
  mem-tree_eq k (scan t x) (scan u y) h = rw (same_left t u k h) refl
  mem-tree_eq k (join o i x) (join p j y) h = ground (
    arith,
    mem-union k (tables o) (tables i),
    mem-union k (tables p) (tables j),
    mem-tree_eq k o p,
    mem-tree_eq k i j,
  )
  mem-tree_eq k _ _ h = cc

  depth-tree_eq : (s t : JoinTree A) → tree_eq s t ≡ true → plan_depth s ≡ plan_depth t
  unfolding tree_eq plan_depth
  depth-tree_eq empty empty h = refl
  depth-tree_eq (scan t x) (scan u y) h = refl
  depth-tree_eq (join o i x) (join p j y) h = ground (arith, depth-tree_eq o p, depth-tree_eq i j)
  depth-tree_eq _ _ h = cc

  -- Join trees that are equal scan the same set of tables and are equally deep.
  pub tree_eq-tables :
      (s t : JoinTree A)
      → tree_eq s t ≡ true
      → (set_eq (tables s) (tables t) ≡ true) × (plan_depth s ≡ plan_depth t)
  tree_eq-tables s t h =
      (set_eq_intro (tables s) (tables t) (λ k. mem-tree_eq k s t h), depth-tree_eq s t h)

  -- update_annotation on a tree that is not empty never raises; the annotation is read back, and
  -- the tree stays equal to what it was.
  pub update_annotation_lem :
      (a : A) (t : JoinTree A)
      → is_empty t ≡ false
      → Returns (λ u. (annotation u ≡ ok (some a)) × (tree_eq t u ≡ true)) (update_annotation a t)
  unfolding update_annotation annotation tree_eq
  update_annotation_lem a empty h = cc
  update_annotation_lem a (scan t x) h = (refl, table_key.same_refl t)
  update_annotation_lem a (join o i x) h = (refl, ground (arith, tree_eq_refl o, tree_eq_refl i))
