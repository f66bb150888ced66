-- ===== src/Hints/Assignment/Globals.antt =====
-- Global settings and their effect on the assignments of single scans and joins.
use post_bound.Base.{
  Bool, true, false, ◌≡◌, arith, List, ◌++◌, same, get, set_key, get-restrict, mem, mem-to_set,
  mem-append, mem-select, ◌||◌, keep, select, ap,
}
use post_bound.Core.Operators.{
  PhysicalOperator, intermediate_op, operator_key, eq_of_operator_eq, IntermediateOperator,
}
use post_bound.Core.Table.{TableReference, table_key}
use post_bound.Hints.Assignment.{
  PhysicalOperatorAssignment, set_operator_enabled_globally, drop_contradicting, setting,
  intermediate_differs, get_globally_enabled_operators, scan_operators_all, join_operators_all,
  intermediate_operators_all,
}
use post_bound.Hints.Assignment.Consistent.{IsConsistent}

-- Disabling an intermediate operator with overwriting removes exactly its assignments, from an
-- assignment that is consistent.
pub set_globally_drops_intermediates :
    (operator : IntermediateOperator) (a : PhysicalOperatorAssignment) (ts : List TableReference)
    → IsConsistent a
    → get ts
        (set_operator_enabled_globally
          (intermediate_op operator)
          false
          true
          a).intermediate_operators
      ≡ keep (intermediate_differs operator) (get ts a.intermediate_operators)
unfolding set_operator_enabled_globally drop_contradicting
set_globally_drops_intermediates operator a ts h =
    get-restrict (intermediate_differs operator) ts a.intermediate_operators h.intermediates

listed :
    (j : PhysicalOperator)
    → (mem j scan_operators_all || (mem j join_operators_all || mem j intermediate_operators_all))
      ≡ true
unfolding mem
listed j = ground arith

-- The operators that get_globally_enabled_operators returns are those that are enabled and, if
-- they are to be included, those without a setting.
pub mem-globally_enabled :
    (a : PhysicalOperatorAssignment) (include_by_default : Bool) (j : PhysicalOperator)
    → mem j (get_globally_enabled_operators a include_by_default)
      ≡ setting j include_by_default a.global_settings
unfolding get_globally_enabled_operators
mem-globally_enabled a d j =
    let p = λ (o : PhysicalOperator). setting o d a.global_settings in
    let stable = λ (x y : PhysicalOperator) (h : same x y ≡ true). ap p (eq_of_operator_eq x y h) in
    let joins = select p join_operators_all in
    let intermediates = select p intermediate_operators_all in
    ground (
      arith,
      mem-to_set j (select p scan_operators_all ++ (joins ++ intermediates)),
      mem-append j (select p scan_operators_all) (joins ++ intermediates),
      mem-append j joins intermediates,
      mem-select p j scan_operators_all stable,
      mem-select p j join_operators_all stable,
      mem-select p j intermediate_operators_all stable,
      listed j,
    )
