-- ===== src/DynProg/JoinPaths/Tables.antt =====
-- The tables of the paths that `_add_paths_to_joinrel` of postbound/opt/_dynprog.py adds.
pub mod Kept
use post_bound.Base.{
  Bool, true, false, ◌≡◌, refl, arith, Option, none, some, List, [], Key, Result, ok, ◌>>=◌, OnOk,
  OnOk-any, OnOk-bind, mem, mem-union, union, ◌&&◌, ◌||◌, Bool-cases, Option-cases, inl, inr, ◌∙◌,
  ap,
}
use post_bound.Core.Operators.{
  JoinOperator, IntermediateOperator, join_op, nested_loop_join, hash_join, memoize, materialize,
}
use post_bound.Core.Cardinality.Rows.{unknown, repr}
use post_bound.Core.Table.{TableReference, table_key}
use post_bound.Core.Cardinality.{Num, nan, Cardinality, Operand, card}
use post_bound.DynProg.Create.{Rel}
use post_bound.DynProg.Create.Joins.{
  create_hashjoin_path, create_nestloop_path, from_native_plan, join_arguments, same_operator,
  found_cost, is_weird, priced_nestloop,
}
use post_bound.DynProg.Create.{
  Planner, create_memoize_path, create_materialize_path, with_cost, with_own_cost, above_path,
  get_value, workers_key,
}
use post_bound.Plans.{QueryPlan, plan, Plans, nil, cons, no_subplan, Node, node}
use post_bound.Plans.Build.{
  Arguments, type_name, type_operator, init, init_params, init_estimates, init_measures,
  cardinality_of,
}
use post_bound.Plans.Updates.{with_estimates}
use post_bound.Plans.Traverse.{find_first_node}
use post_bound.Hints.JoinTree.{outer, inner}
use post_bound.Plans.Tables.{
  HasTables, tables, tables_all, params_tables, expression_tables, own_table,
}

one_side : (l y : Bool) → (l ≡ true → y ≡ true) → (((false || false) || l) || (y || false)) ≡ y
one_side l y h = ground arith

two_sides :
    (f x y : Bool)
    → (f ≡ true → (x || y) ≡ true)
    → (((false || f) || false) || (x || (y || false))) ≡ (x || y)
two_sides f x y h = ground arith

-- The node that `QueryPlan.__init__` builds where no container is given.
unfoldable pub made : {E : Type 0} → Arguments E → Node E
unfolding init_params
made a = record {
  node_type = type_name a.node_type;
  operator = type_operator a.node_type a.operator;
  params = init_params a.individual;
  estimates = record {
    cardinality = given a.estimated_cardinality;
    cost = a.estimated_cost;
    additional_estimates = [];
  };
  measures = record {
    cardinality = repr unknown;
    execution_time = nan;
    cache_hits = none;
    cache_misses = none;
    additional_measures = [];
  };
}
  where
    given : Option Operand → Cardinality
    given (some (card c)) = c
    given other = repr unknown

module _ {E : Type 0} ⦃source : HasTables E⦄ where
  -- The tables of a path are those of a set.
  abbrev pub IsFor : List TableReference → QueryPlan E → Type 0
  IsFor xs path = (k : TableReference) → mem k (tables path) ≡ mem k xs

  pub mem-tables-plan :
      (k : TableReference) (n : Node E) (cs : Plans E)
      → mem k (tables (plan n cs no_subplan)) ≡ (
          ((mem k (own_table n.params.base_table)
              || mem k (expression_tables n.params.filter_predicate))
            || mem k (expression_tables n.params.lookup_key))
          || mem k (tables_all cs))
  unfolding tables params_tables union
  mem-tables-plan k n cs =
      rw
        (
          mem-union k (params_tables n.params) (tables_all cs),
          mem-union k
              (union (own_table n.params.base_table) (expression_tables n.params.filter_predicate))
              (expression_tables n.params.lookup_key),
          mem-union k (own_table n.params.base_table) (expression_tables n.params.filter_predicate),
        )
        refl

  -- A new cost does not change the tables of a path.
  pub costed-IsFor :
      (xs : List TableReference) (cost : Num) (path : QueryPlan E)
      → IsFor xs path
      → IsFor xs (with_cost cost path)
  unfolding with_estimates tables
  costed-IsFor xs cost (plan n cs s) h = h

  mem-tables_all-one :
      (k : TableReference) (path : QueryPlan E)
      → mem k (tables_all (cons path nil)) ≡ (mem k (tables path) || false)
  unfolding tables mem
  mem-tables_all-one k path = mem-union k (tables path) []

  mem-tables_all-two :
      (k : TableReference) (o i : QueryPlan E)
      → mem k (tables_all (cons o (cons i nil))) ≡ (mem k (tables o) || (mem k (tables i) || false))
  unfolding tables mem
  mem-tables_all-two k o i =
      mem-union k (tables o) (union (tables i) [])
      ∙ ap (λ b. mem k (tables o) || b) (mem-union k (tables i) [])

  -- A path on top of one path, which looks up only a key of the same relation.
  pub above_one :
      (ys : List TableReference) (n : Node E) (path : QueryPlan E)
      → n.params.base_table ≡ none
      → n.params.filter_predicate ≡ none
      → ((k : TableReference)
          → mem k (expression_tables n.params.lookup_key) ≡ true
          → mem k ys ≡ true)
      → IsFor ys path
      → IsFor ys (plan n (cons path nil) no_subplan)
  unfolding mem
  above_one ys n path no_table no_filter covered h k =
      mem-tables-plan k n (cons path nil)
      ∙ rw (no_table, no_filter, mem-tables_all-one k path, h k)
          (one_side (mem k (expression_tables n.params.lookup_key)) (mem k ys) (covered k))

  -- A path on top of two paths, whose condition names only tables of these.
  pub above_two :
      (xs ys zs : List TableReference) (n : Node E) (o i : QueryPlan E)
      → n.params.base_table ≡ none
      → n.params.lookup_key ≡ none
      → ((k : TableReference)
          → mem k (expression_tables n.params.filter_predicate) ≡ true
          → (mem k xs || mem k ys) ≡ true)
      → ((k : TableReference) → mem k zs ≡ (mem k xs || mem k ys))
      → IsFor xs o
      → IsFor ys i
      → IsFor zs (plan n (cons o (cons i nil)) no_subplan)
  unfolding mem
  above_two xs ys zs n o i no_table no_key covered split ho hi k =
      mem-tables-plan k n (cons o (cons i nil))
      ∙ rw (no_table, no_key, mem-tables_all-two k o i, ho k, hi k, split k)
          (two_sides (mem k (expression_tables n.params.filter_predicate)) (mem k xs) (mem k ys)
            (covered k))

module _ {C E : Type 0} ⦃key : Key E⦄ ⦃source : HasTables E⦄ (planner : Planner C E) where
  open planner use {joins_between, column_expression, table_of, hook}

  -- The condition between two sets of tables names only these.
  abbrev pub NamesTables : Type 0
  NamesTables =
      (xs ys : List TableReference) (e : E) (k : TableReference)
      → joins_between xs ys ≡ some e
      → mem k (source.tables_of e) ≡ true
      → (mem k xs || mem k ys) ≡ true

  -- The expression of a column names the table of the column.
  abbrev pub NamesColumns : Type 0
  NamesColumns =
      (column : C) → source.tables_of (column_expression column) ≡ own_table (table_of column)
