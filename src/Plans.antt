-- ===== src/Plans.antt =====
-- The data of query plans: `PlanParams`, `PlanEstimates`, `PlanMeasures`, `Subplan` and `QueryPlan` of
-- postbound/_qep.py. The expressions of the query abstraction are a parameter.
pub mod Build
pub mod Traverse
pub mod Tables
pub mod Shape
pub mod Canonical
pub mod Updates
pub mod Cout
pub mod Extract
mod Examples
use post_bound.Base.{
  Bool, true, false, Option, none, some, List, [], ◌∷◌, Text, Dict, ℤ, pos, not, ◌||◌, ◌&&◌, ◌≡◌,
  Result, ok, err, value_error, if◌then◌else◌, is_some,
}
use post_bound.Core.Operators.{
  ScanOperator, JoinOperator, PhysicalOperator, scan_op, join_op, intermediate_op,
}
use post_bound.Core.Table.{TableReference}
use post_bound.Core.Cardinality.{Cardinality, Num, nan, isnan, get}
use post_bound.DynProg.Sorting.{SortKey}

-- The values of additional entries that are not `None`: numbers, or the lists of the names of the indexes
-- on columns.
pub data Value : Type 0 where
  number : Num → Value
  indexes : List (Text × List Text) → Value

abbrev pub Extra : Type 0
Extra = Dict Text (Option Value)

abbrev pub is_nan : Value → Bool
is_nan (number v) = isnan v
is_nan (indexes lists) = false

-- `PlanParams`; `E` stands for the predicates and expressions.
pub record PlanParams (E : Type 0) : Type 0 where
  pub base_table : Option TableReference
  pub filter_predicate : Option E
  pub sort_keys : List (SortKey E)
  pub parallel_workers : ℤ
  pub index : Text
  pub lookup_key : Option E
  pub additional : Extra

pub record PlanEstimates : Type 0 where
  pub cardinality : Cardinality
  pub cost : Num
  pub additional_estimates : Extra

pub record PlanMeasures : Type 0 where
  pub cardinality : Cardinality
  pub execution_time : Num
  pub cache_hits : Option Num
  pub cache_misses : Option Num
  pub additional_measures : Extra

-- What a node of a plan holds beside its children and its subplan.
pub record Node (E : Type 0) : Type 0 where
  pub node_type : Text
  pub operator : Option PhysicalOperator
  pub params : PlanParams E
  pub estimates : PlanEstimates
  pub measures : PlanMeasures

-- The children of a node are a sequence, and its subplan is there or not.
mutual
  pub data QueryPlan (E : Type 0) : Type 0 where
    plan : Node E → Plans E → Subplan E → QueryPlan E

  pub data Plans (E : Type 0) : Type 0 where
    nil : Plans E
    cons : QueryPlan E → Plans E → Plans E

  pub data Subplan (E : Type 0) : Type 0 where
    no_subplan : Subplan E
    subplan : QueryPlan E → Text → Subplan E

-- `not math.isnan(v) if isinstance(v, Number) else (v is not None)`
abbrev pub is_measured : Option Num → Bool
is_measured none = false
is_measured (some v) = not (isnan v)

abbrev pub is_known_value : Option Value → Bool
is_known_value none = false
is_known_value (some v) = not (is_nan v)

abbrev pub any_measured : Extra → Bool
any_measured [] = false
any_measured ((k, v) ∷ d) = is_known_value v || any_measured d

-- `PlanMeasures.__bool__`
unfoldable pub has_measures : PlanMeasures → Bool
unfolding get
has_measures m =
    not (isnan (get m.cardinality))
    || not (isnan m.execution_time)
    || is_measured m.cache_hits
    || is_measured m.cache_misses
    || any_measured m.additional_measures

abbrev pub joins : Option PhysicalOperator → Bool
joins (some (join_op j)) = true
joins _ = false

abbrev pub scans : Option PhysicalOperator → Bool
scans (some (scan_op s)) = true
scans _ = false

module _ {E : Type 0} where
  abbrev pub node : QueryPlan E → Node E
  node (plan n cs s) = n

  -- `children`
  abbrev pub children : QueryPlan E → Plans E
  children (plan n cs s) = cs

  -- `is_join`, `is_scan`, `is_auxiliary`, `is_analyze`
  abbrev pub is_join : QueryPlan E → Bool
  is_join t = joins (node t).operator

  abbrev pub is_scan : QueryPlan E → Bool
  is_scan t = scans (node t).operator

  abbrev pub is_auxiliary : QueryPlan E → Bool
  is_auxiliary t = not (is_join t) && not (is_scan t)

  unfoldable pub is_analyze : QueryPlan E → Bool
  is_analyze t = has_measures (node t).measures

  -- `is_ordered`
  unfoldable pub is_ordered : QueryPlan E → Bool
  is_ordered t = elim (node t).params.sort_keys [ [] ↦ false | k ∷ ks ↦ true ]

  -- `input_node`
  abbrev pub only : Plans E → Option (QueryPlan E)
  only (cons c nil) = some c
  only _ = none

  unfoldable pub input_node : QueryPlan E → Option (QueryPlan E)
  input_node t = only (children t)

  -- `outer_child`, `inner_child` and `join_nodes`
  abbrev pub both : Plans E → Option (QueryPlan E × QueryPlan E)
  both (cons o (cons i nil)) = some (o, i)
  both _ = none

  unfoldable pub outer_child : QueryPlan E → Option (QueryPlan E)
  outer_child t = elim (both (children t)) [ some (o, i) ↦ some o | none ↦ none ]

  unfoldable pub inner_child : QueryPlan E → Option (QueryPlan E)
  inner_child t = elim (both (children t)) [ some (o, i) ↦ some i | none ↦ none ]

  unfoldable pub join_nodes : QueryPlan E → Result (QueryPlan E × QueryPlan E)
  join_nodes t = elim (both (children t)) [
    | some two ↦ if is_join t then ok two else err value_error
    | none ↦ err value_error
  ]
