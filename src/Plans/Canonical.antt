-- ===== src/Plans/Canonical.antt =====
-- `QueryPlan.canonical` of postbound/_qep.py. A node that is built again from the fields of another
-- one is that node (Build).
pub mod Stable
use post_bound.Base.{Bool, true, false, Result, ok, err, assertion_error, if◌then◌else◌, ◌>>=◌, not}
use post_bound.Plans.{QueryPlan, plan, Plans, nil, cons, Subplan, no_subplan, subplan, joins, scans}

module _ {E : Type 0} where
  unfoldable mutual
    pub canonical : QueryPlan E → Result (QueryPlan E)
    canonical (plan n cs s) =
        let input = canonical_input cs in
        let all = canonical_all cs in
        canonical_subplan s >>= λ updated_subplan.
        if scans n.operator
        then ok (plan n nil updated_subplan)
        else if not (joins n.operator)
        then input
        else (all >>= λ children. ok (plan n children updated_subplan))

    -- The canonical form of the only input.
    pub canonical_input : Plans E → Result (QueryPlan E)
    canonical_input (cons c nil) = canonical c
    canonical_input _ = err assertion_error

    pub canonical_all : Plans E → Result (Plans E)
    canonical_all nil = ok nil
    canonical_all (cons c cs) =
        canonical c >>= λ child. canonical_all cs >>= λ rest. ok (cons child rest)

    pub canonical_subplan : Subplan E → Result (Subplan E)
    canonical_subplan no_subplan = ok no_subplan
    canonical_subplan (subplan root name) = canonical root >>= λ updated. ok (subplan updated name)
