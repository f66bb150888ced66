-- ===== src/Hints/Assignment/Queries.antt =====
-- Lookups in an operator assignment, and `integrate_workers_from`.
use post_bound.Base.{
  Bool, Result, ok, err, value_error, not, if◌then◌else◌, Option, none, some, List, [], ◌∷◌, ◌||◌,
  to_set, Dict, get, ◌>>=◌, set_key, is_some, ℤ,
}
use post_bound.Core.Table.{TableReference, table_key}
use post_bound.Core.Cardinality.{whole}
use post_bound.Hints.Operators.{
  ScanOperatorAssignment, JoinOperatorAssignment, Sides, create_join, create_directional, is_empty,
}
use post_bound.Hints.Assignment.{PhysicalOperatorAssignment, Addition, scan, join, add}

-- A scan or a join assignment.
pub data Assigned : Type 0 where
  scan_assigned : ScanOperatorAssignment → Assigned
  join_assigned : JoinOperatorAssignment → Assigned

abbrev pub as_scan : Option ScanOperatorAssignment → Option Assigned
as_scan none = none
as_scan (some s) = some (scan_assigned s)

abbrev pub as_join : Option JoinOperatorAssignment → Option Assigned
as_join none = none
as_join (some j) = some (join_assigned j)

-- The choice of `get` by the size of the set.
unfoldable pub get_set : List TableReference → PhysicalOperatorAssignment → Option Assigned
unfolding get
get_set [] a = none
get_set (table ∷ []) a = as_scan (get table a.scan_operators)
get_set (t ∷ u ∷ rest) a = as_join (get (t ∷ u ∷ rest) a.join_operators)

-- `get` without a default, for one table and for several.
unfoldable pub get_table : TableReference → PhysicalOperatorAssignment → Option Assigned
unfolding get
get_table table a = as_scan (get table a.scan_operators)

unfoldable pub get_tables : List TableReference → PhysicalOperatorAssignment → Option Assigned
unfolding get_set to_set
get_tables intermediate a = get_set (to_set intermediate) a

-- `__contains__` for several tables.
unfoldable pub contains : List TableReference → PhysicalOperatorAssignment → Bool
unfolding get_set to_set
contains item a = is_some (get_set (to_set item) a)

-- `__bool__`
unfoldable pub is_set : PhysicalOperatorAssignment → Bool
is_set a =
    not (is_empty a.global_settings)
    || not (is_empty a.join_operators)
    || not (is_empty a.scan_operators)
    || not (is_empty a.intermediate_operators)

-- The assignments that `integrate_workers_from` builds in place of an operator: a directional join
-- is matched first, and keeps its sides.
unfoldable pub rebuild : ℤ → JoinOperatorAssignment → Option Sides → Result Addition
rebuild workers j (some sides) =
    create_directional j.operator sides.inner sides.outer (whole workers) >>= λ k. ok (join k)
rebuild workers j none = create_join j.operator j.join (whole workers) >>= λ k. ok (join k)

unfoldable pub with_workers : ℤ → Assigned → Result Addition
unfolding rebuild
with_workers workers (scan_assigned s) =
    ok (scan (record { operator = s.operator; table = s.table; parallel_workers = whole workers }))
with_workers workers (join_assigned j) = rebuild workers j j.sides

-- The loop of `integrate_workers_from` over the entries of `params.parallel_workers`. The keys are
-- frozen sets, so `get` reads them as they are.
unfoldable pub integrate :
    Bool
    → Dict (List TableReference) ℤ
    → PhysicalOperatorAssignment
    → Result PhysicalOperatorAssignment
integrate fail_on_missing [] a = ok a
integrate fail_on_missing ((intermediate, workers) ∷ entries) a = elim (get_set intermediate a) [
  | none ↦ if fail_on_missing then err value_error else integrate fail_on_missing entries a
  | some operator ↦ with_workers workers operator >>= λ updated.
      add updated a >>= λ b. integrate fail_on_missing entries b
]
