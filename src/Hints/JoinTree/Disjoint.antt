-- ===== src/Hints/JoinTree/Disjoint.antt =====
-- Join trees in which no table stands on both sides of a join.
use post_bound.Base.{
  true, false, ◌≡◌, arith, Option, mem, mem-union, Bool-cases, inl, inr, sym, subst, Apart, ◌||◌,
  Apart-mem,
}
use post_bound.Core.Table.{TableReference, table_key}
use post_bound.Hints.JoinTree.{JoinTree, empty, scan, join, tables}
use post_bound.Hints.JoinTree.Lookup.{Within, mem-tables-Within}
use post_bound.Hints.JoinTree.Shape.{IsFull}

module _ {A : Type 0} where
  -- No table stands on both sides of a join.
  abbrev pub IsDisjoint : JoinTree A → Type 0
  IsDisjoint (join o i x) = Apart (tables i) (tables o) × IsDisjoint o × IsDisjoint i
  IsDisjoint t = Unit

  -- Some table of a tree without empty parts.
  pub some_table : (t : JoinTree A) → IsFull t → (k : TableReference) × (mem k (tables t) ≡ true)
  unfolding tables mem
  some_table empty h = absurd h
  some_table (scan t x) h = (t, ground (arith, table_key.same_refl t))
  some_table (join o i x) (ho, hi) =
      let (k, m) = some_table o ho in (k, ground (arith, mem-union k (tables o) (tables i)))

  pub mem-tables-join :
      (k : TableReference) (o i : JoinTree A) (x : Option A)
      → mem k (tables (join o i x)) ≡ (mem k (tables o) || mem k (tables i))
  unfolding tables
  mem-tables-join k o i x = mem-union k (tables o) (tables i)

  pub outside_outer :
      (k : TableReference) (o i : JoinTree A) (x : Option A)
      → mem k (tables (join o i x)) ≡ false
      → mem k (tables o) ≡ false
  outside_outer k o i x n = ground (arith, mem-tables-join k o i x)

  pub outside_inner :
      (k : TableReference) (o i : JoinTree A) (x : Option A)
      → mem k (tables (join o i x)) ≡ false
      → mem k (tables i) ≡ false
  outside_inner k o i x n = ground (arith, mem-tables-join k o i x)

  pub Within-IsFull : (n t : JoinTree A) → Within n t → IsFull t → IsFull n
  Within-IsFull n empty w h = absurd h
  Within-IsFull n (scan t x) w h = subst IsFull (sym w) h
  Within-IsFull n (join o i x) (inl w) h = subst IsFull (sym w) h
  Within-IsFull n (join o i x) (inr (inl w)) (ho, hi) = Within-IsFull n o w ho
  Within-IsFull n (join o i x) (inr (inr w)) (ho, hi) = Within-IsFull n i w hi

  pub not_outer :
      (k : TableReference) (o i : JoinTree A)
      → Apart (tables i) (tables o)
      → mem k (tables i) ≡ true
      → mem k (tables o) ≡ false
  not_outer k o i a m = elim (Bool-cases (mem k (tables o))) [
    | inl both ↦ cc (Apart-mem k (tables i) (tables o) a both)
    | inr other ↦ other
  ]

  pub outside_part :
      (k : TableReference) (n t : JoinTree A)
      → Within n t
      → mem k (tables t) ≡ false
      → mem k (tables n) ≡ false
  outside_part k n t w out = elim (Bool-cases (mem k (tables n))) [
    | inl inside ↦ cc (mem-tables-Within k n t w inside)
    | inr other ↦ other
  ]
