-- ===== src/Plans/Examples.antt =====
-- Query plans at which the theorems are applied.
use post_bound.Base.{
  true, false, ◌≡◌, refl, Option, none, some, List, [], ◌∷◌, ℕ, ◌≤◌, suc, ok, Returns, OnOk, get,
  to_set, set_key, text_eq, every, not, map, select, length, pos, ◌>>=◌, Text,
}
use post_bound.Core.Operators.{PhysicalOperator, scan_op, join_op, sequential_scan, hash_join}
use post_bound.Core.Table.{TableReference, table_key, table_eq, normalize}
use post_bound.Core.Cardinality.{Cardinality, nan, whole}
use post_bound.Core.Cardinality as Card
use post_bound.Core.Cardinality.Rows.{rows, repr}
use post_bound.Hints.JoinTree.{itertables}
use post_bound.Hints.JoinTree as Tree
use post_bound.Hints.JoinTree.Shape.{IsFull}
use post_bound.Hints.Assignment.Consistent.{IsConsistent}
use post_bound.Plans.{QueryPlan, plan, nil, cons, no_subplan, Node, node, is_scan}
use post_bound.Plans.Traverse.{iternodes, iter, plan_depth, find_all_nodes}
use post_bound.Plans.Traverse.Visits.{regular, find_all_nodes_lem}
use post_bound.Plans.Traverse.Sizes.{node_bounds, power}
use post_bound.Plans.Tables.{HasTables, lookup}
use post_bound.Plans.Tables.Lookup.{Found, lookup-Found}
use post_bound.Plans.Shape.{is_left_deep, is_right_deep, is_linear, is_bushy}
use post_bound.Plans.Shape.Deep.{proper, inner_is_base, outer_is_base, deep_lem}
use post_bound.Plans.Shape.Linear.{one_is_base, linear_lem}
use post_bound.Plans.Canonical.{canonical}
use post_bound.Plans.Canonical.Stable.{core, canonical_lem}
use post_bound.Plans.Updates.{plan_eq, with_card_as_cost, with_runtime_as_cost}
use post_bound.Plans.Updates.Kept.{Unchanged, with_card_as_cost_lem}
use post_bound.Plans.Updates.Equal.{plan_eq_lem}
use post_bound.Plans.Extract.{
  CardSource, estimates, actual, jointree_from_plan, operators_from_plan,
}
use post_bound.Plans.Extract.Trees.{scanned, has_table, jointree_from_plan_lem}
use post_bound.Plans.Extract.Assigned.{Idle, operators_from_plan-IsConsistent}

-- Expressions are represented by the tables that they name.
instance abbrev by_tables : HasTables (List TableReference)
by_tables = record { tables_of = λ e. e }

abbrev Expression : Type 0
Expression = List TableReference

abbrev named : ℕ → TableReference
named n = record { full_name = n ∷ []; alias = []; virtual = false; schema = []; catalog = [] }

abbrev node_of : Text → Option PhysicalOperator → Option TableReference → ℕ → ℕ → Node Expression
node_of name operator table estimated actual_rows = record {
  node_type = name;
  operator = operator;
  params = record {
    base_table = table;
    filter_predicate = none;
    sort_keys = [];
    parallel_workers = pos 2;
    index = [];
    lookup_key = none;
    additional = [];
  };
  estimates = record {
    cardinality = repr (rows estimated);
    cost = whole (pos 3);
    additional_estimates = [];
  };
  measures = record {
    cardinality = repr (rows actual_rows);
    execution_time = nan;
    cache_hits = none;
    cache_misses = none;
    additional_measures = [];
  };
}

abbrev scan_of : ℕ → ℕ → ℕ → QueryPlan Expression
scan_of n estimated actual_rows =
    plan
      (node_of (b'S' ∷ []) (some (scan_op sequential_scan)) (some (named n)) estimated actual_rows)
      nil no_subplan

abbrev hashed : QueryPlan Expression → QueryPlan Expression
hashed t = plan (node_of (b'H' ∷ []) none none 5 6) (cons t nil) no_subplan

abbrev join_of : QueryPlan Expression → QueryPlan Expression → QueryPlan Expression
join_of o i =
    plan (node_of (b'J' ∷ []) (some (join_op hash_join)) none 40 50) (cons o (cons (hashed i) nil))
      no_subplan

-- A left-deep plan of three tables.
abbrev abc : QueryPlan Expression
abc = join_of (join_of (scan_of b'a' 10 11) (scan_of b'b' 20 21)) (scan_of b'c' 30 31)

abc-regular : regular abc ≡ true
unfolding regular
abc-regular = refl

abc-proper : proper abc ≡ true
unfolding proper
abc-proper = refl

abc-tables : every has_table (iternodes abc) ≡ true
unfolding iternodes
abc-tables = refl

abc-equal : plan_eq abc abc ≡ true
unfolding plan_eq text_eq table_eq normalize
abc-equal = refl

find_all_nodes_lem_example : find_all_nodes is_scan abc ≡ select is_scan (iter abc)
find_all_nodes_lem_example = find_all_nodes_lem is_scan abc

node_bounds_example :
    (plan_depth abc ≤ length (iternodes abc))
    × (suc (length (iternodes abc)) ≤ power (plan_depth abc))
node_bounds_example = node_bounds abc abc-regular

lookup-Found_example :
    Found (to_set (named b'b' ∷ named b'a' ∷ [])) abc (lookup (named b'b' ∷ named b'a' ∷ []) abc)
lookup-Found_example = lookup-Found (named b'b' ∷ named b'a' ∷ []) abc

deep_lem_example :
    (is_left_deep abc ≡ ok (every inner_is_base (iternodes abc)))
    × (is_right_deep abc ≡ ok (every outer_is_base (iternodes abc)))
deep_lem_example = deep_lem abc abc-proper

linear_lem_example :
    (is_bushy abc ≡ (is_linear abc >>= λ linear. ok (not linear)))
    × (every one_is_base (iternodes abc) ≡ true → is_linear abc ≡ ok true)
    × (is_left_deep abc ≡ ok true → is_linear abc ≡ ok true)
    × (is_right_deep abc ≡ ok true → is_linear abc ≡ ok true)
linear_lem_example = linear_lem abc abc-proper

canonical_lem_example :
    OnOk
      (λ c.
        (core c ≡ true)
        × (canonical c ≡ ok c)
        × ((card_source : CardSource)
            → jointree_from_plan card_source c ≡ jointree_from_plan card_source abc))
      (canonical abc)
canonical_lem_example = canonical_lem abc

jointree_from_plan_lem_example :
    Returns
      (λ j.
        IsFull j × (itertables j ≡ scanned (iternodes abc)) × (Tree.plan_depth j ≤ plan_depth abc))
      (jointree_from_plan actual abc)
jointree_from_plan_lem_example = jointree_from_plan_lem actual abc abc-proper abc-tables

operators_from_plan-IsConsistent_example :
    OnOk IsConsistent (operators_from_plan true abc) × OnOk Idle (operators_from_plan false abc)
operators_from_plan-IsConsistent_example = operators_from_plan-IsConsistent true abc

with_card_as_cost_lem_example :
    Unchanged abc (with_card_as_cost true abc)
    × (with_card_as_cost true (with_card_as_cost true abc) ≡ with_card_as_cost true abc)
    × (map (λ m. (node m).estimates.cost) (iter (with_card_as_cost false abc))
        ≡ map (λ m. Card.get (node m).estimates.cardinality) (iter abc))
    × (map (λ m. (node m).estimates.cost) (iter (with_runtime_as_cost false abc))
        ≡ map (λ m. (node m).measures.execution_time) (iter abc))
with_card_as_cost_lem_example = with_card_as_cost_lem true abc

plan_eq_lem_example :
    (plan_eq abc abc ≡ true)
    × (plan_eq abc abc ≡ true)
    × (plan_eq abc abc ≡ true)
    × (plan_depth abc ≡ plan_depth abc)
plan_eq_lem_example = plan_eq_lem abc abc abc abc-equal abc-equal
