-- ===== src/Plans/Traverse.antt =====
-- The traversals of `QueryPlan` of postbound/_qep.py.
pub mod Visits
pub mod Sizes
use post_bound.Base.{
  Bool, true, false, Option, none, some, List, [], ◌∷◌, ◌++◌, Result, ok, err, value_error,
  assertion_error, if◌then◌else◌, ◌>>=◌, ℕ, ◌+◌, max, not, ◌&&◌, ◌||◌, every, Text,
}
use post_bound.Core.Table.{TableReference}
use post_bound.Hints.JoinTree.{Direction, inner, outer}
use post_bound.Plans.{
  QueryPlan, plan, Plans, nil, cons, Subplan, no_subplan, subplan, Node, is_join, is_scan, joins,
  scans,
}

module _ {E : Type 0} where
  -- `plan_depth`
  unfoldable mutual
    pub plan_depth : QueryPlan E → ℕ
    plan_depth (plan n cs s) = 1 + plan_depths cs

    pub plan_depths : Plans E → ℕ
    plan_depths nil = 0
    plan_depths (cons c cs) = max (plan_depth c) (plan_depths cs)

  -- `iternodes`
  unfoldable mutual
    pub iternodes : QueryPlan E → List (QueryPlan E)
    iternodes (plan n cs s) = iternodes_all cs ++ (plan n cs s ∷ [])

    pub iternodes_all : Plans E → List (QueryPlan E)
    iternodes_all nil = []
    iternodes_all (cons c cs) = iternodes c ++ iternodes_all cs

  -- `__iter__`
  unfoldable mutual
    pub iter : QueryPlan E → List (QueryPlan E)
    iter (plan n cs s) = plan n cs s ∷ (iter_all cs ++ iter_subplan s)

    pub iter_all : Plans E → List (QueryPlan E)
    iter_all nil = []
    iter_all (cons c cs) = iter c ++ iter_all cs

    pub iter_subplan : Subplan E → List (QueryPlan E)
    iter_subplan no_subplan = []
    iter_subplan (subplan root name) = iter root

  -- `is_scan_branch`
  unfoldable mutual
    pub is_scan_branch : QueryPlan E → Bool
    is_scan_branch (plan n cs s) = scans n.operator || is_input_branch cs

    pub is_input_branch : Plans E → Bool
    is_input_branch (cons c nil) = is_scan_branch c
    is_input_branch _ = false

  abbrev pub all_branches : Plans E → Bool
  unfolding is_scan_branch
  all_branches nil = true
  all_branches (cons c cs) = is_scan_branch c && all_branches cs

  -- `is_base_join`
  unfoldable pub is_base_join : QueryPlan E → Bool
  is_base_join (plan n cs s) = if not (joins n.operator) then false else all_branches cs

  -- `fetch_base_table`
  unfoldable mutual
    pub fetch_base_table : QueryPlan E → Option TableReference
    fetch_base_table (plan n cs s) =
        let below = fetch_input cs in
        if scans n.operator then n.params.base_table else if joins n.operator then none else below

    pub fetch_input : Plans E → Option TableReference
    fetch_input (cons c nil) = fetch_base_table c
    fetch_input _ = none

  -- `outermost_scan`: of a join the outer child, of another node its only input.
  unfoldable mutual
    pub outermost_scan : QueryPlan E → Result (QueryPlan E)
    outermost_scan (plan n cs s) =
        let below = outermost_below (joins n.operator) cs in
        if scans n.operator then ok (plan n cs s) else below

    pub outermost_below : Bool → Plans E → Result (QueryPlan E)
    outermost_below true (cons o (cons i nil)) = outermost_scan o
    outermost_below false (cons c nil) = outermost_scan c
    outermost_below _ _ = err assertion_error

module _ {E : Type 0} (predicate : QueryPlan E → Bool) where
  -- `find_all_nodes`
  unfoldable mutual
    pub find_all_nodes : QueryPlan E → List (QueryPlan E)
    find_all_nodes (plan n cs s) =
        let below = find_all_children cs ++ find_all_subplan s in
        (if predicate (plan n cs s) then plan n cs s ∷ [] else []) ++ below

    pub find_all_children : Plans E → List (QueryPlan E)
    find_all_children nil = []
    find_all_children (cons c cs) = find_all_nodes c ++ find_all_children cs

    pub find_all_subplan : Subplan E → List (QueryPlan E)
    find_all_subplan no_subplan = []
    find_all_subplan (subplan root name) = find_all_nodes root

-- A match, and else what the rest of the search returns. A plan that is found is true as a truth
-- value, since its length is its depth.
abbrev pub or_next {ℓ} : {A : Type ℓ} → Result (Option A) → Result (Option A) → Result (Option A)
or_next (ok (some a)) rest = ok (some a)
or_next (ok none) rest = rest
or_next (err e) rest = err e

module _ {E : Type 0} where
  -- The two candidates of a join, which the code swaps for the direction `outer`.
  abbrev pub in_direction :
      Direction
      → Result (Option (QueryPlan E))
      → Result (Option (QueryPlan E))
      → Result (Option (QueryPlan E))
      → Result (Option (QueryPlan E))
  in_direction outer in_outer in_inner in_subplan = or_next in_inner (or_next in_outer in_subplan)
  in_direction inner in_outer in_inner in_subplan = or_next in_outer (or_next in_inner in_subplan)

module _ {E : Type 0} (predicate : QueryPlan E → Bool) (direction : Direction) where
  -- `find_first_node`: the subplan of a node is searched only after the two inputs of a join.
  unfoldable mutual
    pub find_first_node : QueryPlan E → Result (Option (QueryPlan E))
    find_first_node (plan n cs s) =
        let in_subplan = find_first_subplan s in
        let below = find_first_below (joins n.operator) in_subplan cs in
        if predicate (plan n cs s) then ok (some (plan n cs s)) else below

    pub find_first_below :
        Bool → Result (Option (QueryPlan E)) → Plans E → Result (Option (QueryPlan E))
    find_first_below join in_subplan nil = ok none
    find_first_below join in_subplan (cons c nil) = find_first_node c
    find_first_below join in_subplan (cons o (cons i nil)) =
        let in_outer = find_first_node o in
        let in_inner = find_first_node i in
        if join then in_direction direction in_outer in_inner in_subplan else err value_error
    find_first_below join in_subplan (cons a (cons b (cons c cs))) = err value_error

    pub find_first_subplan : Subplan E → Result (Option (QueryPlan E))
    find_first_subplan no_subplan = ok none
    find_first_subplan (subplan root name) = find_first_node root
