-- ===== src/Plans/Extract.antt =====
-- What postbound/_hints.py reads off query plans: `jointree_from_plan`, `parameters_from_plan` and
-- `operators_from_plan`.
pub mod Trees
pub mod Cardinalities
pub mod Assigned
use post_bound.Base.{
  Bool, true, false, Option, none, some, List, [], Result, ok, err, assertion_error, if◌then◌else◌,
  ◌>>=◌, not, ◌&&◌, ◌||◌, eqb_ℤ, pos, ℤ,
}
use post_bound.Core.Operators.{
  ScanOperator, JoinOperator, PhysicalOperator, scan_op, join_op, intermediate_op,
}
use post_bound.Core.Table.{TableReference, table_key}
use post_bound.Core.Cardinality.{Cardinality, Num, nan, whole, isnan, get}
use post_bound.Hints.Operators.{create_join}
use post_bound.Hints.JoinTree.{JoinTree, scan, join}
use post_bound.Hints.Parameters.{
  PlanParameterization, no_parameters, add_cardinality, set_workers, merge_with,
}
use post_bound.Hints.Assignment.{
  PhysicalOperatorAssignment, no_operators, Addition, add, plain, many,
  merge_with as merge_operators,
}
use post_bound.Plans.{QueryPlan, plan, Plans, nil, cons, Node, joins, scans}
use post_bound.Plans.Tables.{HasTables, tables}

pub data CardSource : Type 0 where
  estimates actual : CardSource

module _ {E : Type 0} where
  abbrev pub card_of : CardSource → Node E → Cardinality
  card_of estimates n = n.estimates.cardinality
  card_of actual n = n.measures.cardinality

  -- `jointree_from_plan`
  unfoldable mutual
    pub jointree_from_plan : CardSource → QueryPlan E → Result (JoinTree Cardinality)
    jointree_from_plan card_source (plan n cs s) =
        let of_input = jointree_input card_source cs in
        let of_both = jointree_both card_source (card_of card_source n) cs in
        if scans n.operator
        then elim n.params.base_table [
          | none ↦ err assertion_error
          | some table ↦ ok (scan table (some (card_of card_source n)))
        ]
        else if joins n.operator
        then of_both
        else of_input

    pub jointree_input : CardSource → Plans E → Result (JoinTree Cardinality)
    jointree_input card_source (cons c nil) = jointree_from_plan card_source c
    jointree_input card_source _ = err assertion_error

    pub jointree_both : CardSource → Cardinality → Plans E → Result (JoinTree Cardinality)
    jointree_both card_source card (cons o (cons i nil)) =
        jointree_from_plan card_source o >>= λ outer.
        jointree_from_plan card_source i >>= λ inner. ok (join outer inner (some card))
    jointree_both card_source card _ = err assertion_error

module _ {E : Type 0} ⦃source : HasTables E⦄ where
  -- `parameters_from_plan`: what one node contributes.
  abbrev pub target_cardinality : CardSource → Bool → Node E → Cardinality
  target_cardinality estimates fallback_estimated n = n.estimates.cardinality
  target_cardinality actual fallback_estimated n =
      if not fallback_estimated || n.measures.cardinality.is_valid
      then n.measures.cardinality
      else n.estimates.cardinality

  abbrev pub own_parameters :
      {Value : Type 0} → CardSource → Bool → QueryPlan E → PlanParameterization Value
  unfolding get add_cardinality set_workers tables
  own_parameters source_of fallback_estimated (plan n cs s) =
      let ts = tables (plan n cs s) in
      let card = target_cardinality source_of fallback_estimated n in
      let with_card =
        if not (isnan (get card)) then add_cardinality ts card no_parameters else no_parameters in
      if not (eqb_ℤ n.params.parallel_workers (pos 0))
      then set_workers ts n.params.parallel_workers with_card
      else with_card

  -- The loop over the children merges their parameters into those of the node.
  unfoldable mutual
    unfolding merge_with

    pub parameters_from_plan :
        {Value : Type 0} → CardSource → Bool → QueryPlan E → PlanParameterization Value
    parameters_from_plan source_of fallback_estimated (plan n cs s) =
        parameters_from_all source_of fallback_estimated
          (own_parameters source_of fallback_estimated (plan n cs s)) cs

    pub parameters_from_all :
        {Value : Type 0}
        → CardSource
        → Bool
        → PlanParameterization Value
        → Plans E
        → PlanParameterization Value
    parameters_from_all source_of fallback_estimated params nil = params
    parameters_from_all source_of fallback_estimated params (cons c cs) =
        parameters_from_all source_of fallback_estimated
          (merge_with params (parameters_from_plan source_of fallback_estimated c)) cs

-- `operators_from_plan`: the assignment of one node. A scan without a table is ignored.
unfoldable pub assign :
    Option PhysicalOperator
    → Option TableReference
    → Num
    → List TableReference
    → Result PhysicalOperatorAssignment
unfolding add create_join
assign none base_table workers ts = ok no_operators
assign (some (scan_op operator)) none workers ts = ok no_operators
assign (some (scan_op operator)) (some table) workers ts =
    add (Addition.scan (record { operator = operator; table = table; parallel_workers = workers }))
      no_operators
assign (some (join_op operator)) base_table workers ts =
    create_join operator ts workers >>= λ assignment. add (Addition.join assignment) no_operators
assign (some (intermediate_op operator)) base_table workers ts =
    add (plain (intermediate_op operator) (many ts)) no_operators

module _ {E : Type 0} where
  abbrev pub own_operators : Bool → Node E → List TableReference → Result PhysicalOperatorAssignment
  own_operators include_workers n ts =
      assign n.operator n.params.base_table
        (if include_workers then whole n.params.parallel_workers else nan) ts

module _ {E : Type 0} ⦃source : HasTables E⦄ where
  -- The loop over the children does not pass `include_workers` on.
  unfoldable mutual
    unfolding assign tables merge_operators

    pub operators_from_plan : Bool → QueryPlan E → Result PhysicalOperatorAssignment
    operators_from_plan include_workers (plan n cs s) =
        let of_input = operators_input cs in
        let of_children = λ (a : PhysicalOperatorAssignment). operators_all a cs in
        let of_node =
          (own_operators include_workers n (tables (plan n cs s)) >>= λ assignment.
          of_children assignment) in
        elim n.operator [
          | none ↦ elim of_input [ some assignment ↦ assignment | none ↦ of_node ]
          | some operator ↦ of_node
        ]

    pub operators_input : Plans E → Option (Result PhysicalOperatorAssignment)
    operators_input (cons c nil) = some (operators_from_plan false c)
    operators_input _ = none

    pub operators_all : PhysicalOperatorAssignment → Plans E → Result PhysicalOperatorAssignment
    operators_all assignment nil = ok assignment
    operators_all assignment (cons c cs) = operators_from_plan false c >>= λ child_assignment.
        operators_all (merge_operators assignment child_assignment) cs
