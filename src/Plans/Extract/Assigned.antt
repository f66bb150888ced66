-- ===== src/Plans/Extract/Assigned.antt =====
-- The assignment that `operators_from_plan` of postbound/_hints.py reads off a plan.
use post_bound.Base.{
  Bool, false, ◌≡◌, refl, arith, Result, ok, OnOk, OnOk-bind, Option, none, some, List, Entries,
  merge-Entries, set_key, put,
}
use post_bound.Core.Operators.{PhysicalOperator, JoinOperator, scan_op, join_op, intermediate_op}
use post_bound.Core.Table.{TableReference, table_key}
use post_bound.Core.Cardinality.{Num, nan}
use post_bound.Hints.Operators.{
  ScanOperatorAssignment, JoinOperatorAssignment, IsJoin, create_join, create_join-IsJoin,
}
use post_bound.Hints.Assignment.{
  PhysicalOperatorAssignment, no_operators, Addition, add, plain, many, merge_with,
  set_scan_assignment, set_join_assignment, set_intermediate_operator,
}
use post_bound.Hints.Assignment.Consistent.{IsConsistent, add-IsConsistent, merge_with-IsConsistent}
use post_bound.Plans.{QueryPlan, plan, Plans, nil, cons, Node}
use post_bound.Plans.Tables.{HasTables, tables}
use post_bound.Plans.Extract.{
  assign, own_operators, operators_from_plan, operators_input, operators_all,
}

module _ (P : PhysicalOperatorAssignment → Type 0) where
  branch :
      (operator : Option PhysicalOperator) (input : Option (Result PhysicalOperatorAssignment))
      (of_node : Result PhysicalOperatorAssignment)
      → OnOk P (elim input [ some a ↦ a | none ↦ ok no_operators ])
      → OnOk P of_node
      → OnOk P (elim operator [
        | none ↦ elim input [ some assignment ↦ assignment | none ↦ of_node ]
        | some op ↦ of_node
      ])
  branch none none of_node h g = g
  branch none (some a) of_node h g = h
  branch (some op) input of_node h g = g

-- A property of what is assigned for single nodes, that merging keeps, holds of the whole.
module _ {E : Type 0} ⦃source : HasTables E⦄ (P : PhysicalOperatorAssignment → Type 0)
    (merged : (a b : PhysicalOperatorAssignment) → P a → P b → P (merge_with a b))
    (start : P no_operators)
    (single : (n : Node E) (ts : List TableReference) → OnOk P (own_operators false n ts)) where
  mutual
    unfolding operators_from_plan

    each :
        (include_workers : Bool) (t : QueryPlan E)
        → ((n : Node E) (ts : List TableReference) → OnOk P (own_operators include_workers n ts))
        → OnOk P (operators_from_plan include_workers t)
    each include_workers (plan n cs s) own =
        branch P n.operator (operators_input cs) _ (each_input cs) (
          OnOk-bind P P (own_operators include_workers n (tables (plan n cs s))) _ (own n _)
            (λ a h. each_all a cs h))

    each_input :
        (cs : Plans E) → OnOk P (elim (operators_input cs) [ some a ↦ a | none ↦ ok no_operators ])
    each_input nil = start
    each_input (cons c nil) = each false c single
    each_input (cons a (cons b cs)) = start

    each_all : (a : PhysicalOperatorAssignment) (cs : Plans E) → P a → OnOk P (operators_all a cs)
    each_all a nil h = h
    each_all a (cons c cs) h =
        OnOk-bind P P (operators_from_plan false c) _ (each false c single)
          (λ b g. each_all (merge_with a b) cs (merged a b h g))

start-IsConsistent : IsConsistent no_operators
start-IsConsistent = record {
  globals = tt;
  joins = tt;
  intermediates = tt;
  scans = tt;
  scans_at = tt;
  joins_at = tt;
}

assign-IsConsistent :
    (operator : Option PhysicalOperator) (table : Option TableReference) (workers : Num)
    (ts : List TableReference)
    → OnOk IsConsistent (assign operator table workers ts)
unfolding assign
assign-IsConsistent none table workers ts = start-IsConsistent
assign-IsConsistent (some (scan_op s)) none workers ts = start-IsConsistent
assign-IsConsistent (some (scan_op s)) (some t) workers ts =
    add-IsConsistent no_operators start-IsConsistent (Addition.scan _) tt
assign-IsConsistent (some (join_op j)) table workers ts =
    OnOk-bind IsJoin IsConsistent (create_join j ts workers) _ (create_join-IsJoin j ts workers)
      (λ a built. add-IsConsistent no_operators start-IsConsistent (Addition.join a) built)
assign-IsConsistent (some (intermediate_op i)) table workers ts =
    add-IsConsistent no_operators start-IsConsistent (plain (intermediate_op i) (many ts)) tt

-- No number of workers is assigned.
abbrev pub IdleScan : TableReference → ScanOperatorAssignment → Type 0
IdleScan t s = s.parallel_workers ≡ nan

abbrev pub IdleJoin : List TableReference → JoinOperatorAssignment → Type 0
IdleJoin ts j = j.parallel_workers ≡ nan

abbrev pub Idle : PhysicalOperatorAssignment → Type 0
Idle a = Entries IdleScan a.scan_operators × Entries IdleJoin a.join_operators

merge-Idle : (a b : PhysicalOperatorAssignment) → Idle a → Idle b → Idle (merge_with a b)
unfolding merge_with
merge-Idle a b (s, j) (t, k) = (
  merge-Entries IdleScan (λ x y v e h. h) a.scan_operators b.scan_operators s t,
  merge-Entries IdleJoin (λ x y v e h. h) a.join_operators b.join_operators j k,
)

create_join-workers :
    (operator : JoinOperator) (ts : List TableReference) (workers : Num)
    → OnOk (λ j. j.parallel_workers ≡ workers) (create_join operator ts workers)
unfolding create_join
create_join-workers operator ts workers = ground arith

assign-Idle :
    (operator : Option PhysicalOperator) (table : Option TableReference) (ts : List TableReference)
    → OnOk Idle (assign operator table nan ts)
unfolding assign add set_scan_assignment set_join_assignment set_intermediate_operator put
assign-Idle none table ts = (tt, tt)
assign-Idle (some (scan_op s)) none ts = (tt, tt)
assign-Idle (some (scan_op s)) (some t) ts = ((refl, tt), tt)
assign-Idle (some (join_op j)) table ts =
    OnOk-bind (λ k. k.parallel_workers ≡ nan) Idle (create_join j ts nan) _
      (create_join-workers j ts nan) (λ a e. (tt, (e, tt)))
assign-Idle (some (intermediate_op i)) table ts = (tt, tt)

module _ {E : Type 0} ⦃source : HasTables E⦄ where
  -- Whatever assignment operators_from_plan returns is consistent, with and without workers; and
  -- without workers it assigns no number of workers to any scan or join.
  pub operators_from_plan-IsConsistent :
      (include_workers : Bool) (t : QueryPlan E)
      → OnOk IsConsistent (operators_from_plan include_workers t)
        × OnOk Idle (operators_from_plan false t)
  operators_from_plan-IsConsistent include_workers t = (
    each IsConsistent merge_with-IsConsistent start-IsConsistent
        (λ n ts. assign-IsConsistent n.operator n.params.base_table nan ts) include_workers t
        (λ n ts. assign-IsConsistent n.operator n.params.base_table _ ts),
    each Idle merge-Idle (tt, tt) (λ n ts. assign-Idle n.operator n.params.base_table ts) false t
        (λ n ts. assign-Idle n.operator n.params.base_table ts),
  )
