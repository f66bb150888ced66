-- ===== src/Hints/Extract.antt =====
-- `parameters_from_plan` of postbound/_hints.py, on logical join trees.
pub mod Cardinalities
use post_bound.Base.{
  Bool, not, if◌then◌else◌, Option, none, some, List, [], ◌∷◌, Result, ok, err, state_error, ◌>>=◌,
}
use post_bound.Core.Table.{TableReference}
use post_bound.Core.Cardinality.{Cardinality, get, isnan}
use post_bound.Hints.Parameters.{PlanParameterization, no_parameters, add_cardinality, merge_with}
use post_bound.Hints.JoinTree.{JoinTree, empty, scan, join, tables}

-- `card is not None and not math.isnan(card)`
abbrev pub known : Option Cardinality → Option Cardinality
unfolding get
known none = none
known (some card) = if isnan (get card) then none else some card

module _ {Value : Type 0} where
  -- The parameters of one node.
  abbrev pub own : List TableReference → Option Cardinality → PlanParameterization Value
  unfolding add_cardinality
  own ts none = no_parameters
  own ts (some card) = add_cardinality ts card no_parameters

  -- `parameters_from_plan`
  unfoldable pub parameters_from_plan : JoinTree Cardinality → Result (PlanParameterization Value)
  unfolding merge_with tables
  parameters_from_plan empty = err state_error
  parameters_from_plan (scan t x) = ok (own (tables (scan t x)) (known x))
  parameters_from_plan (join o i x) =
      let params = own (tables (join o i x)) (known x) in
      parameters_from_plan o >>= λ p.
      parameters_from_plan i >>= λ q. ok (merge_with (merge_with params p) q)
