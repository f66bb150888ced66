-- ===== src/Hints/JoinTree.antt =====
-- `JoinTree` of postbound/_hints.py. A tree is one of those that the factory methods `empty`,
-- `create_scan` and `create_join` build; an annotation that is left out is `none`.
pub mod Lookup
pub mod Shape
pub mod Joins
pub mod Disjoint
use post_bound.Base.{
  Bool, true, false, Result, ok, err, state_error, assertion_error, not, if◌then◌else◌, Option,
  none, some, List, [], ◌∷◌, ◌++◌, ◌&&◌, ◌||◌, same, union, subset, set_eq, length, ◌>>=◌, is_some,
  ℕ, suc, ◌+◌, max, set_key, to_set,
}
use post_bound.Core.Table.{TableReference, table_key, table_eq}

pub data JoinTree (A : Type 0) : Type 0 where
  empty : JoinTree A
  scan : TableReference → Option A → JoinTree A
  join : JoinTree A → JoinTree A → Option A → JoinTree A

-- `JoinDirection`
pub data Direction : Type 0 where
  inner outer : Direction

-- What a tree is joined with.
pub data Partner (A : Type 0) : Type 0 where
  tree : JoinTree A → Partner A
  table : TableReference → Partner A

module _ {A : Type 0} where
  abbrev pub is_empty : JoinTree A → Bool
  is_empty empty = true
  is_empty _ = false

  -- `is_join`, which holds of the empty tree too.
  unfoldable pub is_join : JoinTree A → Bool
  is_join (scan t x) = false
  is_join _ = true

  abbrev pub is_scan : JoinTree A → Bool
  is_scan (scan t x) = true
  is_scan _ = false

  -- `base_table`
  unfoldable pub base_table : JoinTree A → Result TableReference
  base_table (scan t x) = ok t
  base_table _ = err state_error

  -- `outer_child` and `inner_child`; an empty child is false as a truth value, and raises.
  unfoldable pub outer_child : JoinTree A → Result (JoinTree A)
  outer_child (join o i x) = if is_empty o then err state_error else ok o
  outer_child _ = err state_error

  unfoldable pub inner_child : JoinTree A → Result (JoinTree A)
  inner_child (join o i x) = if is_empty i then err state_error else ok i
  inner_child _ = err state_error

  -- `children`
  unfoldable pub children : JoinTree A → Result (List (JoinTree A))
  children empty = err state_error
  children (scan t x) = ok []
  children (join o i x) = ok (o ∷ i ∷ [])

  -- `annotation`
  unfoldable pub annotation : JoinTree A → Result (Option A)
  annotation empty = err state_error
  annotation (scan t x) = ok x
  annotation (join o i x) = ok x

  -- `is_linear`
  unfoldable pub is_linear : JoinTree A → Result Bool
  is_linear empty = err state_error
  is_linear (scan t x) = ok true
  is_linear (join o i x) = ok (is_scan o || is_scan i)

  -- `is_bushy`
  unfoldable pub is_bushy : JoinTree A → Result Bool
  unfolding is_linear
  is_bushy t = is_linear t >>= λ linear. ok (not linear)

  -- `is_base_join`; on the empty tree the assertion fails.
  unfoldable pub is_base_join : JoinTree A → Result Bool
  is_base_join empty = err assertion_error
  is_base_join (scan t x) = ok false
  is_base_join (join o i x) = ok (is_scan o && is_scan i)

  -- `tables`
  unfoldable pub tables : JoinTree A → List TableReference
  unfolding union
  tables empty = []
  tables (scan t x) = t ∷ []
  tables (join o i x) = union (tables o) (tables i)

  -- `plan_depth`
  unfoldable pub plan_depth : JoinTree A → ℕ
  plan_depth empty = 0
  plan_depth (scan t x) = 1
  plan_depth (join o i x) = 1 + max (plan_depth o) (plan_depth i)

  -- `lookup`, on the set of tables that are looked for.
  unfoldable pub lookup_set : List TableReference → JoinTree A → Result (Option (JoinTree A))
  lookup_set needle empty =
      if set_eq needle []
      then ok (some empty)
      else if not (subset needle [])
      then ok none
      else err state_error
  lookup_set needle (scan t x) =
      if set_eq needle (t ∷ [])
      then ok (some (scan t x))
      else if not (subset needle (t ∷ []))
      then ok none
      else ok none
  lookup_set needle (join o i x) =
      let in_inner = lookup_set needle i in
      let in_outer = lookup_set needle o >>= λ result. elim result [
        | some node ↦ ok (some node)
        | none ↦ in_inner
      ] in
      let candidates = tables (join o i x) in
      if set_eq needle candidates
      then ok (some (join o i x))
      else if not (subset needle candidates)
      then ok none
      else in_outer

  unfoldable pub lookup : List TableReference → JoinTree A → Result (Option (JoinTree A))
  lookup needle t = lookup_set (to_set needle) t

  -- `__contains__`
  unfoldable pub contains : TableReference → JoinTree A → Result Bool
  contains item t = lookup (item ∷ []) t >>= λ result. ok (is_some result)

  -- `__len__`
  unfoldable pub len : JoinTree A → ℕ
  len t = length (tables t)

  -- `update_annotation`
  unfoldable pub update_annotation : A → JoinTree A → Result (JoinTree A)
  update_annotation new_annotation empty = err state_error
  update_annotation new_annotation (scan t x) = ok (scan t (some new_annotation))
  update_annotation new_annotation (join o i x) = ok (join o i (some new_annotation))

  abbrev annotated : Option A → JoinTree A → Result (JoinTree A)
  annotated none t = ok t
  annotated (some x) t = update_annotation x t

  -- `_init_empty_join_tree`
  unfoldable pub init_empty_join_tree : Partner A → Option A → Result (JoinTree A)
  unfolding update_annotation
  init_empty_join_tree (table t) annotation = ok (scan t annotation)
  init_empty_join_tree (tree t) annotation = annotated annotation t

  abbrev oriented : Direction → JoinTree A → JoinTree A → Option A → JoinTree A
  oriented inner t partner annotation = join t partner annotation
  oriented outer t partner annotation = join partner t annotation

  abbrev as_tree : Partner A → Option A → Result (JoinTree A)
  as_tree (table t) annotation = ok (scan t annotation)
  as_tree (tree t) annotation = annotated annotation t

  abbrev is_empty_partner : Partner A → Bool
  is_empty_partner (tree t) = is_empty t
  is_empty_partner (table t) = false

  -- `join_with`
  unfoldable pub join_with :
      Partner A → Option A → Option A → Direction → JoinTree A → Result (JoinTree A)
  unfolding init_empty_join_tree
  join_with partner annotation partner_annotation direction t =
      if is_empty_partner partner
      then ok t
      else if is_empty t
      then init_empty_join_tree partner partner_annotation
      else (as_tree partner partner_annotation >>= λ p. ok (oriented direction t p annotation))

  -- `iternodes`
  unfoldable pub iternodes : JoinTree A → List (JoinTree A)
  iternodes empty = []
  iternodes (scan t x) = scan t x ∷ []
  iternodes (join o i x) = join o i x ∷ (iternodes o ++ iternodes i)

  -- `itertables`
  unfoldable pub itertables : JoinTree A → List TableReference
  itertables empty = []
  itertables (scan t x) = t ∷ []
  itertables (join o i x) = itertables o ++ itertables i

  -- `iterjoins`
  unfoldable pub iterjoins : JoinTree A → List (JoinTree A)
  iterjoins empty = []
  iterjoins (scan t x) = []
  iterjoins (join o i x) = iterjoins o ++ (iterjoins i ++ (join o i x ∷ []))

  -- `__eq__`, which does not compare annotations.
  unfoldable pub tree_eq : JoinTree A → JoinTree A → Bool
  tree_eq empty empty = true
  tree_eq (scan t x) (scan u y) = same t u
  tree_eq (join o i x) (join p j y) = tree_eq o p && tree_eq i j
  tree_eq _ _ = false
