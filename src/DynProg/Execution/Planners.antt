-- ===== src/DynProg/Execution/Planners.antt =====
-- A planner for queries whose tables are joined with each other.
use post_bound.Base.{
  true, false, ◌≡◌, refl, Option, none, some, List, [], ◌∷◌, ℕ, pos, mem, mem-union, union, set_key,
  text_eq, Distinct, sym, ap, subst, ◌∙◌,
}
use post_bound.Core.Operators.{
  scan_op, sequential_scan, index_scan, nested_loop_join, hash_join, sort_merge_join,
}
use post_bound.Core.Table.{TableReference, table_key, table_eq, normalize}
use post_bound.Core.Cardinality.{Cardinality, Num, whole, nan}
use post_bound.Core.Cardinality.Rows.{rows, repr, unknown}
use post_bound.DynProg.Create.{Rel}
use post_bound.DynProg.Paths.{Cost, finite, infinite}
use post_bound.DynProg.Create.{Planner, workers_key}
use post_bound.DynProg.JoinPaths.Tables.{IsFor, NamesTables, NamesColumns}
use post_bound.DynProg.ScanPaths.Kept.{NamesFilters}
use post_bound.DynProg.Enumerate.{Construction, construction}
use post_bound.DynProg.Enumerate.Whole.{IsProper}
use post_bound.Plans.{number, QueryPlan, plan, nil, no_subplan}
use post_bound.Plans.Tables.{HasTables, tables, params_tables, tables_all}

-- A predicate is represented by the tables that it names, and a column by its table.
instance abbrev pub by_tables : HasTables (List TableReference)
by_tables = record { tables_of = λ e. e }

abbrev pub named : ℕ → TableReference
named n = record { full_name = n ∷ []; alias = []; virtual = false; schema = []; catalog = [] }

abbrev pub in_units : Num → Cost
in_units (whole (pos n)) = finite n
in_units other = infinite

-- The first table of a predicate and the second one are its join partners.
abbrev pub partners : List TableReference → List (TableReference × TableReference)
partners (a ∷ b ∷ rest) = (a, b) ∷ []
partners other = []

abbrev pub planner : Planner TableReference (List TableReference)
planner = record {
  scan_ops = sequential_scan ∷ index_scan ∷ [];
  join_ops = nested_loop_join ∷ hash_join ∷ sort_merge_join ∷ [];
  enable_materialize = true;
  enable_memoize = true;
  enable_sort = true;
  is_pg_cost = false;
  hook = none;
  cost_of = in_units;
  estimate_cost = λ t. whole (pos 100);
  star_cost = λ t. whole (pos 10);
  pg_plan = λ t. none;
  joins_between = λ xs ys. some (union xs ys);
  conjuncts = λ e. e ∷ [];
  join_partners = partners;
  filters_for = λ t. some (t ∷ []);
  columns_of = λ t. t ∷ [];
  indexes_on = λ t. (b'i' ∷ []) ∷ [];
  table_workers = λ t. pos 2;
  index_workers = λ index. pos 0;
  fragment_cost = λ t. whole (pos 5);
  column_text = λ t. t.full_name;
  pg_cost_estimate = λ t. finite 100;
  table_of = λ t. some t;
  column_expression = λ t. t ∷ [];
}

abbrev pub value_of : Option (List TableReference) → List TableReference
value_of none = []
value_of (some e) = e

pub planner-NamesTables : NamesTables planner
planner-NamesTables xs ys e k same m =
    sym (mem-union k xs ys) ∙ subst (λ v. mem k v ≡ true) (sym (ap value_of same)) m

pub planner-NamesColumns : NamesColumns planner
planner-NamesColumns column = refl

pub planner-NamesFilters : NamesFilters planner
planner-NamesFilters t e k same m = subst (λ v. mem k v ≡ true) (sym (ap value_of same)) m

abbrev pub a : TableReference
a = named b'a'

abbrev pub b : TableReference
b = named b'b'

abbrev pub no_hook : planner.hook ≡ none
no_hook = refl

abbrev pub estimate : List TableReference → Cardinality
estimate ts = repr (rows 9)

-- A scan of a table with two workers.
abbrev pub scan : TableReference → QueryPlan (List TableReference)
scan t =
    plan
      (record {
        node_type = b'S' ∷ b'c' ∷ b'a' ∷ b'n' ∷ [];
        operator = some (scan_op sequential_scan);
        params = record {
          base_table = some t;
          filter_predicate = none;
          sort_keys = [];
          parallel_workers = pos 0;
          index = [];
          lookup_key = none;
          additional = (workers_key, some (number (whole (pos 2)))) ∷ [];
        };
        estimates = record {
          cardinality = repr (rows 7);
          cost = whole (pos 10);
          additional_estimates = [];
        };
        measures = record {
          cardinality = repr unknown;
          execution_time = nan;
          cache_hits = none;
          cache_misses = none;
          additional_measures = [];
        };
      })
      nil no_subplan

abbrev pub base_rel : TableReference → Rel planner
base_rel t = record {
  intermediate = t ∷ [];
  pathlist = scan t ∷ [];
  partial_paths = scan t ∷ [];
  cheapest_path = some (scan t);
  cheapest_partial_path = some (scan t);
  cardinality = repr (rows 7);
}

pub scan-IsFor : (t : TableReference) → IsFor (t ∷ []) (scan t)
unfolding tables params_tables tables_all union
scan-IsFor t k = refl

pub base_rel-IsProper : (t : TableReference) → IsProper planner estimate no_hook (base_rel t)
base_rel-IsProper t = (refl, (scan-IsFor t, tt), (scan-IsFor t, tt), (scan-IsFor t, scan-IsFor t))

abbrev pub c : Construction (QueryPlan (List TableReference))
c = construction planner estimate

abbrev pub initial_rels : List (Rel planner)
initial_rels = base_rel a ∷ base_rel b ∷ []

pub both_Distinct : Distinct (a ∷ b ∷ [])
unfolding mem table_eq normalize text_eq
both_Distinct = (refl, (refl, tt))
