-- ===== src/Hints/Assignment.antt =====
-- `PhysicalOperatorAssignment` of postbound/_hints.py.
pub mod Queries
pub mod Consistent
pub mod Lookups
pub mod Globals
pub mod Workers
pub mod Strict
mod Examples
use post_bound.Base.{
  Bool, true, false, Result, ok, err, value_error, type_error, not, if◌then◌else◌, Option, none,
  some, List, [], ◌∷◌, ◌++◌, ◌&&◌, ◌||◌, same, to_set, length, Dict, get, put, merge, restrict,
  ◌>>=◌, set_key, is_some, map, ◌==◌, select, ℤ, ℕ,
}
use post_bound.Core.Operators.{
  ScanOperator, JoinOperator, IntermediateOperator, PhysicalOperator, scan_op, join_op,
  intermediate_op, sequential_scan, index_scan, index_only_scan, bitmap_scan, nested_loop_join,
  hash_join, sort_merge_join, sort, memoize, materialize, intermediate_eq, operator_key,
}
use post_bound.Core.Table.{TableReference, table_key}
use post_bound.Core.Cardinality.{Num, nan, whole}
use post_bound.Hints.Operators.{
  ScanOperatorAssignment, JoinOperatorAssignment, Sides, create_join, create_directional, is_empty,
  scan_assignment_eq, join_assignment_eq,
}

pub record PhysicalOperatorAssignment : Type 0 where
  pub global_settings : Dict PhysicalOperator Bool
  pub join_operators : Dict (List TableReference) JoinOperatorAssignment
  pub intermediate_operators : Dict (List TableReference) IntermediateOperator
  pub scan_operators : Dict TableReference ScanOperatorAssignment

-- `__init__`
abbrev pub no_operators : PhysicalOperatorAssignment
no_operators = record {
  global_settings = [];
  join_operators = [];
  intermediate_operators = [];
  scan_operators = [];
}

-- An argument that is left out, one table, or a list of tables.
pub data Tables : Type 0 where
  no_tables : Tables
  one : TableReference → Tables
  many : List TableReference → Tables

abbrev scan_operators_all : List PhysicalOperator
scan_operators_all = map scan_op (sequential_scan ∷ index_scan ∷ index_only_scan ∷ bitmap_scan ∷ [])

abbrev join_operators_all : List PhysicalOperator
join_operators_all = map join_op (nested_loop_join ∷ hash_join ∷ sort_merge_join ∷ [])

abbrev intermediate_operators_all : List PhysicalOperator
intermediate_operators_all = map intermediate_op (sort ∷ memoize ∷ materialize ∷ [])

-- `global_settings.get(operator, include_by_default)`
abbrev pub setting : PhysicalOperator → Bool → Dict PhysicalOperator Bool → Bool
setting operator otherwise d = elim (get operator d) [ none ↦ otherwise | some b ↦ b ]

-- `get_globally_enabled_operators`
unfoldable pub get_globally_enabled_operators :
    PhysicalOperatorAssignment → Bool → List PhysicalOperator
unfolding to_set get
get_globally_enabled_operators a include_by_default =
    let enabled = select (λ operator. setting operator include_by_default a.global_settings) in
    to_set (
      enabled scan_operators_all
      ++ (enabled join_operators_all ++ enabled intermediate_operators_all))

-- `current_setting != operator` for an assignment and an operator: an assignment is equal only to
-- assignments (`ScanOperatorAssignment.__eq__`, `JoinOperatorAssignment.__eq__`).
abbrev scan_differs : ScanOperator → ScanOperatorAssignment → Bool
scan_differs operator current_setting = true

abbrev join_differs : JoinOperator → JoinOperatorAssignment → Bool
join_differs operator current_setting = true

abbrev intermediate_differs : IntermediateOperator → IntermediateOperator → Bool
intermediate_differs operator current_setting = not (intermediate_eq current_setting operator)

-- The removal of assignments that contradict a disabled operator.
unfoldable pub drop_contradicting :
    PhysicalOperator → PhysicalOperatorAssignment → PhysicalOperatorAssignment
unfolding restrict
drop_contradicting (scan_op operator) a = record a {
  scan_operators = restrict (scan_differs operator) a.scan_operators;
}
drop_contradicting (join_op operator) a = record a {
  join_operators = restrict (join_differs operator) a.join_operators;
}
drop_contradicting (intermediate_op operator) a = record a {
  intermediate_operators = restrict (intermediate_differs operator) a.intermediate_operators;
}

-- `set_operator_enabled_globally`
unfoldable pub set_operator_enabled_globally :
    PhysicalOperator → Bool → Bool → PhysicalOperatorAssignment → PhysicalOperatorAssignment
unfolding put drop_contradicting
set_operator_enabled_globally operator enabled overwrite_fine_grained_selection a =
    let updated = record a { global_settings = put operator enabled a.global_settings } in
    if not overwrite_fine_grained_selection || enabled
    then updated
    else drop_contradicting operator updated

-- `set_join_operator` with an assignment, and with a plain operator.
unfoldable pub set_join_assignment :
    JoinOperatorAssignment → PhysicalOperatorAssignment → PhysicalOperatorAssignment
unfolding put
set_join_assignment operator a = record a {
  join_operators = put operator.join operator a.join_operators;
}

unfoldable pub set_join_operator :
    JoinOperator
    → Option (List TableReference)
    → PhysicalOperatorAssignment
    → Result PhysicalOperatorAssignment
unfolding create_join set_join_assignment
set_join_operator operator none a = err value_error
set_join_operator operator (some tables) a =
    create_join operator tables nan >>= λ assignment. ok (set_join_assignment assignment a)

-- `set_scan_operator` with an assignment, and with a plain operator.
unfoldable pub set_scan_assignment :
    ScanOperatorAssignment → PhysicalOperatorAssignment → PhysicalOperatorAssignment
unfolding put
set_scan_assignment operator a = record a {
  scan_operators = put operator.table operator a.scan_operators;
}

-- A list of one table is unwrapped by `simplify`. Another list is kept, and the hash of the
-- assignment that is built with it raises.
unfoldable pub set_scan_operator :
    ScanOperator → Tables → PhysicalOperatorAssignment → Result PhysicalOperatorAssignment
unfolding set_scan_assignment
set_scan_operator operator no_tables a = err value_error
set_scan_operator operator (one table) a =
    ok (
      set_scan_assignment (record { operator = operator; table = table; parallel_workers = nan }) a)
set_scan_operator operator (many (table ∷ [])) a =
    ok (
      set_scan_assignment (record { operator = operator; table = table; parallel_workers = nan }) a)
set_scan_operator operator (many tables) a = err type_error

-- `set_intermediate_operator`
unfoldable pub set_intermediate_operator :
    IntermediateOperator
    → List TableReference
    → PhysicalOperatorAssignment
    → PhysicalOperatorAssignment
unfolding put to_set
set_intermediate_operator operator tables a = record a {
  intermediate_operators = put (to_set tables) operator a.intermediate_operators;
}

-- What `add` is called with.
pub data Addition : Type 0 where
  plain : PhysicalOperator → Tables → Addition
  scan : ScanOperatorAssignment → Addition
  join : JoinOperatorAssignment → Addition

-- `[tables] if isinstance(tables, TableReference) else tables`
abbrev as_list : Tables → Option (List TableReference)
as_list no_tables = none
as_list (one table) = some (table ∷ [])
as_list (many tables) = some tables

-- `add`
unfoldable pub add : Addition → PhysicalOperatorAssignment → Result PhysicalOperatorAssignment
unfolding set_scan_operator set_join_operator set_intermediate_operator
add (plain (scan_op operator) tables) a = set_scan_operator operator tables a
add (plain (join_op operator) tables) a = set_join_operator operator (as_list tables) a
add (plain (intermediate_op operator) tables) a = elim (as_list tables) [
  | none ↦ err value_error
  | some ts ↦ ok (set_intermediate_operator operator ts a)
]
add (scan assignment) a = ok (set_scan_assignment assignment a)
add (join assignment) a = ok (set_join_assignment assignment a)

-- `merge_with`
unfoldable pub merge_with :
    PhysicalOperatorAssignment → PhysicalOperatorAssignment → PhysicalOperatorAssignment
unfolding merge
merge_with a other = record {
  global_settings = merge a.global_settings other.global_settings;
  join_operators = merge a.join_operators other.join_operators;
  intermediate_operators = merge a.intermediate_operators other.intermediate_operators;
  scan_operators = merge a.scan_operators other.scan_operators;
}

-- `global_settings_only`
unfoldable pub global_settings_only : PhysicalOperatorAssignment → PhysicalOperatorAssignment
global_settings_only a = record no_operators { global_settings = a.global_settings }
