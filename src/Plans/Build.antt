-- ===== src/Plans/Build.antt =====
-- The constructors of postbound/_qep.py: `PlanParams`, `PlanEstimates`, `PlanMeasures` and `QueryPlan`,
-- and the shallow copy of a plan.
pub mod Copies
use post_bound.Base.{
  Bool, true, false, Option, none, some, List, [], ◌∷◌, Text, ℤ, pos, not, ◌||◌, ◌&&◌, Result, ok,
  err, value_error, if◌then◌else◌, is_some, is_blank, ◌>>=◌, eqb_ℤ,
}
use post_bound.Core.Operators.{
  PhysicalOperator, scan_op, join_op, intermediate_op, sequential_scan, index_scan, index_only_scan,
  bitmap_scan, nested_loop_join, hash_join, sort_merge_join, sort, memoize, materialize,
}
use post_bound.Core.Table.{TableReference}
use post_bound.Core.Cardinality.{
  Cardinality, Num, nan, isnan, get, Operand, card, number, create, operand,
}
use post_bound.Core.Cardinality.Rows.{unknown, repr}
use post_bound.DynProg.Sorting.{SortKey}
use post_bound.Plans.{
  QueryPlan, plan, Plans, nil, cons, Subplan, no_subplan, subplan, PlanParams, PlanEstimates,
  PlanMeasures, Extra, has_measures, is_measured,
}

-- `operator.name`
abbrev pub operator_name : PhysicalOperator → Text
operator_name (scan_op sequential_scan) =
    b'S' ∷ b'e' ∷ b'q' ∷ b'u' ∷ b'e' ∷ b'n' ∷ b't' ∷ b'i' ∷ b'a' ∷ b'l' ∷ b'S' ∷ b'c' ∷ b'a' ∷ b'n'
    ∷ []
operator_name (scan_op index_scan) =
    b'I' ∷ b'n' ∷ b'd' ∷ b'e' ∷ b'x' ∷ b'S' ∷ b'c' ∷ b'a' ∷ b'n' ∷ []
operator_name (scan_op index_only_scan) =
    b'I' ∷ b'n' ∷ b'd' ∷ b'e' ∷ b'x' ∷ b'O' ∷ b'n' ∷ b'l' ∷ b'y' ∷ b'S' ∷ b'c' ∷ b'a' ∷ b'n' ∷ []
operator_name (scan_op bitmap_scan) =
    b'B' ∷ b'i' ∷ b't' ∷ b'm' ∷ b'a' ∷ b'p' ∷ b'S' ∷ b'c' ∷ b'a' ∷ b'n' ∷ []
operator_name (join_op nested_loop_join) =
    b'N' ∷ b'e' ∷ b's' ∷ b't' ∷ b'e' ∷ b'd' ∷ b'L' ∷ b'o' ∷ b'o' ∷ b'p' ∷ b'J' ∷ b'o' ∷ b'i' ∷ b'n'
    ∷ []
operator_name (join_op hash_join) = b'H' ∷ b'a' ∷ b's' ∷ b'h' ∷ b'J' ∷ b'o' ∷ b'i' ∷ b'n' ∷ []
operator_name (join_op sort_merge_join) =
    b'S' ∷ b'o' ∷ b'r' ∷ b't' ∷ b'M' ∷ b'e' ∷ b'r' ∷ b'g' ∷ b'e' ∷ b'J' ∷ b'o' ∷ b'i' ∷ b'n' ∷ []
operator_name (intermediate_op sort) = b'S' ∷ b'o' ∷ b'r' ∷ b't' ∷ []
operator_name (intermediate_op memoize) = b'M' ∷ b'e' ∷ b'm' ∷ b'o' ∷ b'i' ∷ b'z' ∷ b'e' ∷ []
operator_name (intermediate_op materialize) =
    b'M' ∷ b'a' ∷ b't' ∷ b'e' ∷ b'r' ∷ b'i' ∷ b'a' ∷ b'l' ∷ b'i' ∷ b'z' ∷ b'e' ∷ []

-- `Cardinality.of`
unfoldable pub cardinality_of : Option Operand → Result Cardinality
unfolding create
cardinality_of none = ok (repr unknown)
cardinality_of (some (card c)) = ok c
cardinality_of (some (number n)) = create n

-- `value if value else default`, for texts and numbers of workers.
abbrev or_empty : Option Text → Text
or_empty none = []
or_empty (some s) = s

abbrev or_zero : Option ℤ → ℤ
or_zero none = pos 0
or_zero (some n) = n

-- The parameters of a plan by themselves.
pub record Individual (E : Type 0) : Type 0 where
  pub base_table : Option TableReference
  pub filter_predicate : Option E
  pub sort_keys : Option (List (SortKey E))
  pub lookup_key : Option E
  pub parallel_workers : Option ℤ
  pub index : Option Text
  pub kwargs : Extra

-- `PlanParams.__init__`
unfoldable pub init_params : {E : Type 0} → Individual E → PlanParams E
init_params a = record {
  base_table = a.base_table;
  filter_predicate = a.filter_predicate;
  sort_keys = elim a.sort_keys [ none ↦ [] | some keys ↦ keys ];
  parallel_workers = or_zero a.parallel_workers;
  index = or_empty a.index;
  lookup_key = a.lookup_key;
  additional = a.kwargs;
}

-- `PlanEstimates.__init__`
unfoldable pub init_estimates : Option Operand → Num → Extra → Result PlanEstimates
unfolding cardinality_of
init_estimates cardinality cost kwargs = cardinality_of cardinality >>= λ c.
    ok (record { cardinality = c; cost = cost; additional_estimates = kwargs })

-- `PlanMeasures.__init__`
unfoldable pub init_measures :
    Option Operand → Num → Option Num → Option Num → Extra → Result PlanMeasures
unfolding cardinality_of
init_measures cardinality execution_time cache_hits cache_misses kwargs =
    cardinality_of cardinality >>= λ c. ok (record {
      cardinality = c;
      execution_time = execution_time;
      cache_hits = cache_hits;
      cache_misses = cache_misses;
      additional_measures = kwargs;
    })

-- A node type is a name or an operator.
pub data NodeType : Type 0 where
  name : Text → NodeType
  of_operator : PhysicalOperator → NodeType

-- The arguments of `QueryPlan.__init__`; children that are left out are no children.
pub record Arguments (E : Type 0) : Type 0 where
  pub node_type : NodeType
  pub operator : Option PhysicalOperator
  pub children : Plans E
  pub plan_params : Option (PlanParams E)
  pub subplan : Subplan E
  pub estimates : Option PlanEstimates
  pub measures : Option PlanMeasures
  pub individual : Individual E
  pub estimated_cardinality : Option Operand
  pub estimated_cost : Num
  pub actual_cardinality : Option Operand
  pub execution_time : Num
  pub cache_hits : Option Num
  pub cache_misses : Option Num
  pub subplan_root : Subplan E

-- `v is not None and not math.isnan(v)`
abbrev pub is_known : Option Operand → Bool
is_known none = false
is_known (some x) = not (isnan (operand x))

abbrev pub has_extra : Extra → Bool
has_extra [] = false
has_extra (x ∷ xs) = true

abbrev pub has_subplan : {E : Type 0} → Subplan E → Bool
has_subplan no_subplan = false
has_subplan (subplan root target_name) = true

abbrev pub has_custom_params : {E : Type 0} → Individual E → Bool
has_custom_params a =
    is_some a.base_table
    || is_some a.filter_predicate
    || is_some a.parallel_workers
    || is_some a.index
    || is_some a.sort_keys
    || is_some a.lookup_key
    || has_extra a.kwargs

abbrev pub is_unnamed : NodeType → Bool
is_unnamed (name s) = is_blank s
is_unnamed (of_operator op) = false

abbrev pub type_name : NodeType → Text
type_name (name s) = s
type_name (of_operator op) = operator_name op

abbrev pub type_operator : NodeType → Option PhysicalOperator → Option PhysicalOperator
type_operator (name s) operator = operator
type_operator (of_operator op) operator = some op

-- The containers are taken as they are given, and may not be given together with single values.
abbrev pub params_or : {E : Type 0} → Option (PlanParams E) → Individual E → Result (PlanParams E)
params_or none a = ok (init_params a)
params_or (some params) a = if has_custom_params a then err value_error else ok params

abbrev pub estimates_or : Option PlanEstimates → Option Operand → Num → Result PlanEstimates
estimates_or none cardinality cost = init_estimates cardinality cost []
estimates_or (some estimates) cardinality cost =
    if is_known cardinality || not (isnan cost) then err value_error else ok estimates

abbrev pub measures_or :
    Option PlanMeasures → Option Operand → Num → Option Num → Option Num → Result PlanMeasures
measures_or none cardinality time hits misses = init_measures cardinality time hits misses []
measures_or (some measures) cardinality time hits misses =
    if not (isnan time) || is_measured hits || is_measured misses
    then err value_error
    else ok measures

abbrev pub subplan_or : {E : Type 0} → Subplan E → Subplan E → Result (Subplan E)
subplan_or no_subplan root = ok root
subplan_or (subplan t s) root = if has_subplan root then err value_error else ok (subplan t s)

-- `QueryPlan.__init__`
unfoldable pub init : {E : Type 0} → Arguments E → Result (QueryPlan E)
init a =
    if is_unnamed a.node_type
    then err value_error
    else (params_or a.plan_params a.individual >>= λ params.
        estimates_or a.estimates a.estimated_cardinality a.estimated_cost >>= λ estimates.
        measures_or a.measures a.actual_cardinality a.execution_time a.cache_hits a.cache_misses
        >>= λ measures. subplan_or a.subplan a.subplan_root >>= λ sub. ok (
            plan
              (record {
                node_type = type_name a.node_type;
                operator = type_operator a.node_type a.operator;
                params = params;
                estimates = estimates;
                measures = measures;
              })
              a.children sub))

-- The arguments of the copy of parameters, `PlanParams(**self._params)`.
abbrev pub spread : {E : Type 0} → PlanParams E → Individual E
spread p = record {
  base_table = p.base_table;
  filter_predicate = p.filter_predicate;
  sort_keys = some p.sort_keys;
  lookup_key = p.lookup_key;
  parallel_workers = some p.parallel_workers;
  index = some p.index;
  kwargs = p.additional;
}

abbrev pub copy_estimates : PlanEstimates → Result PlanEstimates
copy_estimates e = init_estimates (some (card e.cardinality)) e.cost e.additional_estimates

abbrev pub copy_measures : PlanMeasures → Result PlanMeasures
copy_measures m =
    init_measures (some (card m.cardinality)) m.execution_time m.cache_hits m.cache_misses
      m.additional_measures

-- `measures.clone() if measures else None`
abbrev pub some_measures : PlanMeasures → Result (Option PlanMeasures)
some_measures m = if has_measures m then (copy_measures m >>= λ copy. ok (some copy)) else ok none

-- The default values of the arguments that take single values.
abbrev pub no_values : {E : Type 0} → Individual E
no_values = record {
  base_table = none;
  filter_predicate = none;
  sort_keys = none;
  lookup_key = none;
  parallel_workers = none;
  index = none;
  kwargs = [];
}

-- `QueryPlan(node_type, operator=…, children=…, plan_params=…, estimates=…, measures=…, subplan=…)`
abbrev pub from_containers :
    {E : Type 0}
    → NodeType
    → Option PhysicalOperator
    → Plans E
    → PlanParams E
    → PlanEstimates
    → Option PlanMeasures
    → Subplan E
    → Arguments E
from_containers node_type operator children params estimates measures sub = record {
  node_type = node_type;
  operator = operator;
  children = children;
  plan_params = some params;
  subplan = sub;
  estimates = some estimates;
  measures = measures;
  individual = no_values;
  estimated_cardinality = some (card (repr unknown));
  estimated_cost = nan;
  actual_cardinality = some (card (repr unknown));
  execution_time = nan;
  cache_hits = none;
  cache_misses = none;
  subplan_root = no_subplan;
}

-- `__copy__` of a plan and of its subplan; the children are shared.
unfoldable mutual
  unfolding init init_params init_estimates init_measures has_measures

  pub clone : {E : Type 0} → QueryPlan E → Result (QueryPlan E)
  clone (plan n cs s) = copy_estimates n.estimates >>= λ estimates.
      some_measures n.measures >>= λ measures. clone_subplan s >>= λ sub. init (
        from_containers (name n.node_type) n.operator cs (init_params (spread n.params)) estimates
          measures sub)

  pub clone_subplan : {E : Type 0} → Subplan E → Result (Subplan E)
  clone_subplan no_subplan = ok no_subplan
  clone_subplan (subplan root target_name) = clone root >>= λ copy. ok (subplan copy target_name)
