-- ===== src/Hints/JoinTree/Shape.antt =====
-- The shape of join trees: linear and bushy trees, and the numbers of their nodes.
use post_bound.Base.{
  Bool, true, false, ◌≡◌, refl, arith, ok, Option, [], ◌∷◌, ◌++◌, ◌&&◌, ◌||◌, ◌+◌, ◌≤◌, length,
  length-append, mem, mem-union, mem-append, Distinct, union-Distinct,
}
use post_bound.Core.Table.{TableReference, table_key}
use post_bound.Hints.JoinTree.{
  JoinTree, empty, scan, join, is_scan, is_empty, is_linear, is_bushy, tables, itertables,
  iterjoins, iternodes, plan_depth,
}

module _ {A : Type 0} where
  -- What the documentation calls a linear tree: at each join node one child is a base table.
  abbrev pub linear_everywhere : JoinTree A → Bool
  linear_everywhere (join o i x) =
      (is_scan o || is_scan i) && linear_everywhere o && linear_everywhere i
  linear_everywhere _ = true

  -- A join of a base table with any tree that is not empty is reported as linear and as not bushy,
  -- although it is linear at each node only if the other tree is.
  pub is_linear_root :
      (t : JoinTree A) (r : TableReference) (x y : Option A)
      → is_empty t ≡ false
      → (linear_everywhere (join (scan r x) t y) ≡ linear_everywhere t)
        × (is_linear (join (scan r x) t y) ≡ ok true)
        × (is_bushy (join t (scan r x) y) ≡ ok false)
  unfolding is_bushy
  is_linear_root t r x y h = (ground arith, refl, ground arith)

  -- No part of the tree is empty.
  abbrev pub IsFull : JoinTree A → Type 0
  IsFull empty = ⊥
  IsFull (scan t x) = Unit
  IsFull (join o i x) = IsFull o × IsFull i

  -- A join tree without empty parts has one join less than it has scans, its nodes are its scans
  -- and its joins, and it is at most as deep as it has scans.
  pub node_counts :
      (t : JoinTree A)
      → IsFull t
      → (length (itertables t) ≡ length (iterjoins t) + 1)
        × (length (iternodes t) ≡ length (itertables t) + length (iterjoins t))
        × (plan_depth t ≤ length (itertables t))
  unfolding itertables iterjoins iternodes plan_depth
  node_counts empty h = absurd h
  node_counts (scan t x) h = omega arith
  node_counts (join o i x) (ho, hi) = omega (
    arith,
    node_counts o ho,
    node_counts i hi,
    length-append {0} (itertables o) (itertables i),
    length-append {0} (iternodes o) (iternodes i),
    length-append {0} (iterjoins o) (iterjoins i ++ (join o i x ∷ [])),
    length-append {0} (iterjoins i) (join o i x ∷ []),
  )

  -- `tables` is the set of the tables that `itertables` lists.
  pub mem-tables : (k : TableReference) (t : JoinTree A) → mem k (tables t) ≡ mem k (itertables t)
  unfolding tables itertables
  mem-tables k empty = refl
  mem-tables k (scan t x) = refl
  mem-tables k (join o i x) = ground (
    arith,
    mem-union k (tables o) (tables i),
    mem-append k (itertables o) (itertables i),
    mem-tables k o,
    mem-tables k i,
  )

  pub tables-Distinct : (t : JoinTree A) → Distinct (tables t)
  unfolding tables mem
  tables-Distinct empty = tt
  tables-Distinct (scan t x) = (refl, tt)
  tables-Distinct (join o i x) = union-Distinct (tables o) (tables i) (tables-Distinct o)
