-- ===== src/Plans/Traverse/Sizes.antt =====
-- The number of nodes and the depth of query plans.
use post_bound.Base.{
  Bool, true, ◌≡◌, arith, [], ◌∷◌, length, length-append, ℕ, zero, suc, ◌+◌, ◌≤◌, max, ap,
}
use post_bound.Plans.{QueryPlan, plan, Plans, nil, cons, joins}
use post_bound.Plans.Traverse.{plan_depth, plan_depths, iternodes, iternodes_all}
use post_bound.Plans.Traverse.Visits.{regular, regular_below}

-- `2 ** n`
abbrev pub power : ℕ → ℕ
power zero = 1
power (suc n) = power n + power n

power-pos : (n : ℕ) → 1 ≤ power n
power-pos zero = omega arith
power-pos (suc n) = omega (arith, power-pos n)

power_mono : (a b : ℕ) → a ≤ b → power a ≤ power b
power_mono zero b h = power-pos b
power_mono (suc a) zero h = absurd (omega arith)
power_mono (suc a) (suc b) h = omega (arith, power_mono a b (omega arith))

power_next : (n : ℕ) → power (1 + n) ≡ power (suc n)
power_next n = ap power {x = 1 + n} {y = suc n} (omega arith)

module _ {E : Type 0} where
  mutual
    unfolding plan_depth iternodes

    depth_most : (t : QueryPlan E) → plan_depth t ≤ length (iternodes t)
    depth_most (plan n cs s) =
        omega (arith, length-append (iternodes_all cs) (plan n cs s ∷ []), depths_most cs)

    depths_most : (cs : Plans E) → plan_depths cs ≤ length (iternodes_all cs)
    depths_most nil = omega arith
    depths_most (cons c cs) =
        omega (arith, length-append (iternodes c) (iternodes_all cs), depth_most c, depths_most cs)

  mutual
    unfolding plan_depth iternodes regular

    nodes_most :
        (t : QueryPlan E) → regular t ≡ true → suc (length (iternodes t)) ≤ power (plan_depth t)
    nodes_most (plan n cs s) h =
        let below : suc (suc (length (iternodes_all cs))) ≤ power (suc (plan_depths cs)) =
          nodes_below (joins n.operator) cs (ground arith) in
        let deep : power (plan_depth (plan n cs s)) ≡ power (suc (plan_depths cs)) =
          power_next (plan_depths cs) in
        let long : length (iternodes (plan n cs s)) ≡ length (iternodes_all cs) + 1 =
          length-append (iternodes_all cs) (plan n cs s ∷ []) in
        omega (arith, below, deep, long)

    nodes_below :
        (join : Bool) (cs : Plans E)
        → regular_below join cs ≡ true
        → suc (suc (length (iternodes_all cs))) ≤ power (suc (plan_depths cs))
    nodes_below join nil h = omega arith
    nodes_below join (cons c nil) h = omega (
      arith,
      length-append (iternodes c) [],
      nodes_most c h,
      power-pos (plan_depth c),
      power_mono (plan_depth c) (max (plan_depth c) 0) (omega arith),
    )
    nodes_below join (cons o (cons i nil)) h =
        let here : suc (length (iternodes o)) ≤ power (plan_depth o) =
          nodes_most o (ground arith) in
        let there : suc (length (iternodes i)) ≤ power (plan_depth i) =
          nodes_most i (ground arith) in
        omega (
          arith,
          here,
          there,
          length-append (iternodes o) (iternodes_all (cons i nil)),
          length-append (iternodes i) [],
          power_mono (plan_depth o) (max (plan_depth o) (max (plan_depth i) 0)) (omega arith),
          power_mono (plan_depth i) (max (plan_depth o) (max (plan_depth i) 0)) (omega arith),
        )
    nodes_below join (cons a (cons b (cons c cs))) h = cc

  -- A plan in which each node has at most two inputs, and two only if it is a join, is at most as
  -- deep as it has nodes outside of subplans, and has fewer nodes than two to the power of its
  -- depth.
  pub node_bounds :
      (t : QueryPlan E)
      → regular t ≡ true
      → (plan_depth t ≤ length (iternodes t)) × (suc (length (iternodes t)) ≤ power (plan_depth t))
  node_bounds t h = (depth_most t, nodes_most t h)
