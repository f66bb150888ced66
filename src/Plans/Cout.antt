-- ===== src/Plans/Cout.antt =====
-- `QueryPlan.cout` of postbound/_qep.py.
pub mod Sums
use post_bound.Base.{Bool, true, false, if◌then◌else◌, ◌>>=◌, not, ◌&&◌, ◌||◌, Result, ok, pos}
use post_bound.Core.Cardinality.{
  Cardinality, Num, whole, Operand, card, number, create, add, get, add_num,
}
use post_bound.Core.Cardinality.Rows.{unknown, rows, repr}
use post_bound.Plans.{
  QueryPlan, plan, Plans, nil, cons, is_analyze, is_auxiliary, has_measures, joins, scans,
}

-- One step of `sum`, which starts with the number 0: `Cardinality.__radd__` and `__add__`.
unfoldable pub plus : Operand → Cardinality → Result Cardinality
unfolding create add get
plus (number n) c = create (add_num n (get c))
plus (card a) c = add a (card c)

module _ {E : Type 0} (include_auxiliaries : Bool) where
  -- `cout`
  unfoldable mutual
    unfolding add plus has_measures

    pub cout : QueryPlan E → Result Cardinality
    cout (plan n cs s) =
        let below = cout_children (number (whole (pos 0))) cs in
        let auxiliary = not (joins n.operator) && not (scans n.operator) in
        if not (has_measures n.measures)
        then ok (repr unknown)
        else let own_card =
            if include_auxiliaries || not auxiliary
            then n.measures.cardinality
            else repr (rows 0) in
          (below >>= λ total. add own_card total)

    pub cout_children : Operand → Plans E → Result Operand
    cout_children acc nil = ok acc
    cout_children acc (cons c cs) =
        cout c >>= λ x. plus acc x >>= λ sum. cout_children (card sum) cs
