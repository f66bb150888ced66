-- ===== src/Hints/Examples.antt =====
-- Join trees, assignments and parameters at which the theorems are applied.
use post_bound.Base.{
  true, false, ◌≡◌, refl, [], ◌∷◌, none, some, ℕ, Returns, text_key, set_key, mem, ◌||◌, ◌+◌, ◌≤◌,
  length, to_set, max,
}
use post_bound.Core.Operators.{operator_key}
use post_bound.Core.Table.{TableReference, table_key, table_eq}
use post_bound.Base.{All, get, union, insert, text_eq}
use post_bound.Core.Table.{normalize}
use post_bound.Core.Cardinality.{Cardinality}
use post_bound.Core.Cardinality.Rows.{unknown, rows, repr}
use post_bound.Hints.Parameters.{PlanParameterization}
use post_bound.Hints.Extract.{known, parameters_from_plan}
use post_bound.Hints.Extract.Cardinalities.{noted, parameters_from_plan_lem}
use post_bound.Hints.JoinTree.Disjoint.{IsDisjoint}
use post_bound.Hints.JoinTree.Lookup.{parts}
use post_bound.Hints.JoinTree.{
  JoinTree, scan, join, tree, outer, lookup, tables, join_with, plan_depth, itertables, iterjoins,
  iternodes, tree_eq,
}
use post_bound.Hints.JoinTree.Lookup.{Answer, lookup_lem}
use post_bound.Hints.JoinTree.Joins.{join_with_lem}
use post_bound.Hints.JoinTree.Shape.{node_counts}

abbrev named : ℕ → TableReference
named n = record { full_name = n ∷ []; alias = []; virtual = false; schema = []; catalog = [] }

abbrev ab : JoinTree ℕ
ab = join (scan (named b'a') (some 10)) (scan (named b'b') none) (some 20)

abbrev cd : JoinTree ℕ
cd = join (scan (named b'c') none) (scan (named b'd') (some 5)) none

lookup_lem_example :
    Returns
      (Answer (to_set (named b'd' ∷ named b'c' ∷ [])) (join ab cd none))
      (lookup (named b'd' ∷ named b'c' ∷ []) (join ab cd none))
lookup_lem_example = lookup_lem (named b'd' ∷ named b'c' ∷ []) (join ab cd none)

join_with_lem_example :
    Returns
      (λ r.
        (mem (named b'd') (tables r)
          ≡ (mem (named b'd') (tables ab) || mem (named b'd') (tables cd)))
        × (plan_depth r ≡ 1 + max (plan_depth ab) (plan_depth cd)))
      (join_with (tree cd) (some 7) none outer ab)
join_with_lem_example = join_with_lem (tree cd) (some 7) none outer ab (named b'd')

node_counts_example :
    (length (itertables ab) ≡ length (iterjoins ab) + 1)
    × (length (iternodes ab) ≡ length (itertables ab) + length (iterjoins ab))
    × (plan_depth ab ≤ length (itertables ab))
node_counts_example = node_counts ab (tt, tt)

-- The same tables and shape, other annotations.
abbrev ab_plain : JoinTree ℕ
ab_plain = join (scan (named b'A') none) (scan (named b'b') none) none

ab_equal : tree_eq ab ab_plain ≡ true
unfolding tree_eq table_eq
ab_equal = refl

-- A logical join tree with cardinalities; the scan of `b` has none.
abbrev logical : JoinTree Cardinality
logical =
    join
      (join (scan (named b'a') (some (repr (rows 10)))) (scan (named b'b') none)
        (some (repr (rows 40))))
      (scan (named b'c') (some (repr unknown))) (some (repr (rows 7)))

logical-IsDisjoint : IsDisjoint logical
unfolding mem union insert tables table_eq normalize text_eq
logical-IsDisjoint = ((refl, (refl, tt)), ((refl, tt), tt, tt), tt)

parameters_from_plan_lem_example :
    Returns
      (λ (p : PlanParameterization ℕ).
        All (λ n. get (tables n) p.cardinalities ≡ known (noted n)) (parts logical))
      (parameters_from_plan logical)
parameters_from_plan_lem_example =
    parameters_from_plan_lem ℕ logical ((tt, tt), tt) logical-IsDisjoint
