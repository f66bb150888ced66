-- ===== src/Plans/Shape.antt =====
-- The tests of `QueryPlan` of postbound/_qep.py on the order of the joins.
pub mod Deep
pub mod Linear
use post_bound.Base.{
  Bool, true, false, Option, none, some, Result, ok, err, value_error, if◌then◌else◌, ◌>>=◌, not,
  is_some, ◌||◌, ◌&&◌,
}
use post_bound.Hints.JoinTree.{Direction, outer}
use post_bound.Plans.{QueryPlan, plan, Plans, nil, cons, is_join, is_scan, joins, scans}
use post_bound.Plans.Traverse.{find_first_node}

module _ {E : Type 0} where
  -- `find_first_node(QueryPlan.is_join) is not None`
  unfoldable pub has_join : QueryPlan E → Result Bool
  unfolding find_first_node
  has_join t = find_first_node is_join outer t >>= λ found. ok (is_some found)

  -- `is_linear`
  unfoldable mutual
    unfolding has_join

    pub is_linear : QueryPlan E → Result Bool
    is_linear (plan n cs s) =
        let below = linear_below (joins n.operator) cs in
        if scans n.operator then ok true else below

    pub linear_below : Bool → Plans E → Result Bool
    linear_below join nil = err value_error
    linear_below join (cons c nil) = is_linear c
    linear_below join (cons o (cons i nil)) =
        if join
        then (has_join o >>= λ in_outer.
            has_join i >>= λ in_inner. ok (not in_outer || not in_inner))
        else err value_error
    linear_below join (cons a (cons b (cons c cs))) = err value_error

  -- `is_bushy`
  unfoldable mutual
    unfolding has_join

    pub is_bushy : QueryPlan E → Result Bool
    is_bushy (plan n cs s) =
        let below = bushy_below (joins n.operator) cs in
        if scans n.operator then ok false else below

    pub bushy_below : Bool → Plans E → Result Bool
    bushy_below join nil = err value_error
    bushy_below join (cons c nil) = is_bushy c
    bushy_below join (cons o (cons i nil)) =
        if join
        then (has_join o >>= λ in_outer. has_join i >>= λ in_inner. ok (in_outer && in_inner))
        else err value_error
    bushy_below join (cons a (cons b (cons c cs))) = err value_error

  -- `is_left_deep`
  unfoldable mutual
    unfolding has_join

    pub is_left_deep : QueryPlan E → Result Bool
    is_left_deep (plan n cs s) =
        let below = left_below (joins n.operator) cs in if scans n.operator then ok true else below

    pub left_below : Bool → Plans E → Result Bool
    left_below join nil = err value_error
    left_below join (cons c nil) = is_left_deep c
    left_below join (cons o (cons i nil)) =
        let outer_child = is_left_deep o in
        if join
        then (has_join i >>= λ in_inner. if in_inner then ok false else outer_child)
        else err value_error
    left_below join (cons a (cons b (cons c cs))) = err value_error

  -- `is_right_deep`
  unfoldable mutual
    unfolding has_join

    pub is_right_deep : QueryPlan E → Result Bool
    is_right_deep (plan n cs s) =
        let below = right_below (joins n.operator) cs in if scans n.operator then ok true else below

    pub right_below : Bool → Plans E → Result Bool
    right_below join nil = err value_error
    right_below join (cons c nil) = is_right_deep c
    right_below join (cons o (cons i nil)) =
        let inner_child = is_right_deep i in
        if join
        then (has_join o >>= λ in_outer. if in_outer then ok false else inner_child)
        else err value_error
    right_below join (cons a (cons b (cons c cs))) = err value_error

  -- `is_zigzag`
  unfoldable pub is_zigzag : QueryPlan E → Result Bool
  unfolding is_linear is_left_deep is_right_deep
  is_zigzag t =
      if is_scan t
      then ok true
      else (is_linear t >>= λ linear.
          if not linear
          then ok false
          else (is_left_deep t >>= λ left.
              if left then ok false else (is_right_deep t >>= λ right. ok (not right))))
