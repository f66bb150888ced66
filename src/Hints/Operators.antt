-- ===== src/Hints/Operators.antt =====
-- `ScanOperatorAssignment`, `JoinOperatorAssignment` and `DirectionalJoinOperatorAssignment` of
-- postbound/_hints.py.
use post_bound.Base.{
  Bool, true, false, ◌≡◌, refl, arith, Result, ok, err, value_error, ◌&&◌, if◌then◌else◌, Option,
  none, some, List, [], ◌∷◌, ◌++◌, same, set_key, to_set, union, length, ltb, ◌||◌, is_some,
  Distinct, to_set-Distinct, to_set_self, mem, insert, subst, union-Distinct, OnOk, Bool-cases, inl,
  inr,
}
use post_bound.Core.Operators.{ScanOperator, JoinOperator, scan_eq, join_eq}
use post_bound.Core.Table.{TableReference, table_key}
use post_bound.Core.Cardinality.{Num, nan, eq_num}

pub record ScanOperatorAssignment : Type 0 where
  pub operator : ScanOperator
  pub table : TableReference
  pub parallel_workers : Num

-- The sides of a join, if the assignment names them.
pub record Sides : Type 0 where
  pub inner : List TableReference
  pub outer : List TableReference

-- A join assignment; `sides` is there for the directional subclass.
pub record JoinOperatorAssignment : Type 0 where
  pub operator : JoinOperator
  pub join : List TableReference
  pub parallel_workers : Num
  pub sides : Option Sides

-- `JoinOperatorAssignment.__init__`
unfoldable pub create_join :
    JoinOperator → List TableReference → Num → Result JoinOperatorAssignment
create_join operator tables workers =
    let join = to_set tables in
    if ltb (length join) 2
    then err value_error
    else ok (record { operator = operator; join = join; parallel_workers = workers; sides = none })

abbrev pub is_empty {ℓ} : {A : Type ℓ} → List A → Bool
is_empty [] = true
is_empty (x ∷ xs) = false

-- `DirectionalJoinOperatorAssignment.__init__`
unfoldable pub create_directional :
    JoinOperator → List TableReference → List TableReference → Num → Result JoinOperatorAssignment
create_directional operator inner outer workers =
    if is_empty inner || is_empty outer
    then err value_error
    else let join = union (to_set inner) (to_set outer) in
      if ltb (length join) 2
      then err value_error
      else ok (record {
        operator = operator;
        join = join;
        parallel_workers = workers;
        sides = some (record { inner = to_set inner; outer = to_set outer });
      })

-- `is_directional`
unfoldable pub is_directional : JoinOperatorAssignment → Bool
is_directional j = is_some j.sides

-- `ScanOperatorAssignment.__eq__`
unfoldable pub scan_assignment_eq : ScanOperatorAssignment → ScanOperatorAssignment → Bool
scan_assignment_eq s t =
    scan_eq s.operator t.operator
    && same s.table t.table
    && eq_num s.parallel_workers t.parallel_workers

-- The tests of `JoinOperatorAssignment.__eq__` on the fields.
abbrev base_join_eq : JoinOperatorAssignment → JoinOperatorAssignment → Bool
base_join_eq j k =
    join_eq j.operator k.operator
    && same j.join k.join
    && eq_num j.parallel_workers k.parallel_workers

-- The tests of `DirectionalJoinOperatorAssignment.__eq__` on the sides. Python asks the subclass
-- first, so an assignment with sides is not equal to one without.
abbrev sides_eq : Option Sides → Option Sides → Bool
sides_eq none none = true
sides_eq (some s) (some t) = same s.inner t.inner && same s.outer t.outer
sides_eq _ _ = false

-- `==` on join assignments.
unfoldable pub join_assignment_eq : JoinOperatorAssignment → JoinOperatorAssignment → Bool
join_assignment_eq j k = sides_eq j.sides k.sides && base_join_eq j k

-- The sides of a join are not empty, and the join is their union.
abbrev pub AreSides : List TableReference → Option Sides → Type 0
AreSides join none = Unit
AreSides join (some s) =
    (is_empty s.inner ≡ false)
    × (is_empty s.outer ≡ false)
    × Distinct s.inner
    × Distinct s.outer
    × (join ≡ union s.inner s.outer)

-- A join joins at least two tables, without repetition.
pub record IsJoin (j : JoinOperatorAssignment) : Type 0 where
  pub two : ltb (length j.join) 2 ≡ false
  pub distinct : Distinct j.join
  pub sided : AreSides j.join j.sides

pub create_join-IsJoin :
    (operator : JoinOperator) (tables : List TableReference) (workers : Num)
    → OnOk IsJoin (create_join operator tables workers)
unfolding create_join
create_join-IsJoin operator tables workers = elim (Bool-cases (ltb (length (to_set tables)) 2)) [
  | inl few ↦ rw few tt
  | inr more ↦ rw more (record { two = more; distinct = to_set-Distinct tables; sided = tt })
]

is_empty-union :
    (x : TableReference) (xs ys : List TableReference) → is_empty (union (x ∷ xs) ys) ≡ false
unfolding union insert
is_empty-union x xs [] = refl
is_empty-union x xs (y ∷ ys) = elim (Bool-cases (mem y (x ∷ xs))) [
  | inl old ↦ rw old (is_empty-union x xs ys)
  | inr new ↦ rw new (is_empty-union x (xs ++ (y ∷ [])) ys)
]

is_empty-to_set :
    (t : TableReference) (ts : List TableReference) → is_empty (to_set (t ∷ ts)) ≡ false
unfolding to_set mem insert
is_empty-to_set t ts = is_empty-union t [] ts

pub create_directional-IsJoin :
    (operator : JoinOperator) (inner outer : List TableReference) (workers : Num)
    → OnOk IsJoin (create_directional operator inner outer workers)
unfolding create_directional
create_directional-IsJoin operator [] outer workers = tt
create_directional-IsJoin operator (i ∷ inner) [] workers = tt
create_directional-IsJoin operator (i ∷ inner) (o ∷ outer) workers =
    elim (Bool-cases (ltb (length (union (to_set (i ∷ inner)) (to_set (o ∷ outer)))) 2)) [
      | inl few ↦ rw few tt
      | inr more ↦ rw more (record {
        two = more;
        distinct = union-Distinct _ (to_set (o ∷ outer)) (to_set-Distinct (i ∷ inner));
        sided = (
          is_empty-to_set i inner,
          is_empty-to_set o outer,
          to_set-Distinct (i ∷ inner),
          to_set-Distinct (o ∷ outer),
          refl,
        );
      })
    ]

-- Building a join again with another number of workers changes that number alone.
pub rebuild_join :
    (j : JoinOperatorAssignment) (workers : Num)
    → IsJoin j
    → j.sides ≡ none
    → create_join j.operator j.join workers ≡ ok (record j { parallel_workers = workers })
unfolding create_join
rebuild_join j workers h e = rw (to_set_self j.join h.distinct, h.two) (ground arith)

-- Building a directional join, that a constructor returned, again from its operator and sides with
-- another number of workers changes that number alone.
pub rebuild_directional :
    (j : JoinOperatorAssignment) (s : Sides) (workers : Num)
    → IsJoin j
    → j.sides ≡ some s
    → create_directional j.operator s.inner s.outer workers
      ≡ ok (record j { parallel_workers = workers })
unfolding create_directional
rebuild_directional j s workers h e =
    let (some_inner, some_outer, inner, outer, joined) = subst (AreSides j.join) e h.sided in
    rw
      (
        some_inner,
        some_outer,
        to_set_self s.inner inner,
        to_set_self s.outer outer,
        ← joined,
        h.two,
      )
      (ground arith)

-- Scan assignments of which the first has no number of workers are never equal, not even to
-- themselves.
pub scan_assignment_eq_nan :
    (s t : ScanOperatorAssignment) → s.parallel_workers ≡ nan → scan_assignment_eq s t ≡ false
unfolding scan_assignment_eq
scan_assignment_eq_nan s t h = ground arith
