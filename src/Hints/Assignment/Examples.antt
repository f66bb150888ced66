-- ===== src/Hints/Assignment/Examples.antt =====
-- Assignments and parameters at which the theorems are applied.
use post_bound.Base.{
  true, false, ◌≡◌, refl, List, [], ◌∷◌, none, some, ℕ, Returns, text_key, set_key, pos, ℤ, mem,
  set_eq, IsDict, Distinct, get, or_else, if◌then◌else◌, text_eq, union, insert,
}
use post_bound.Core.Operators.{
  hash_join, nested_loop_join, index_scan, join_op, memoize, operator_key,
}
use post_bound.Core.Table.{TableReference, table_key, table_eq, normalize}
use post_bound.Core.Cardinality.{nan}
use post_bound.Core.Cardinality.Rows.{rows, repr}
use post_bound.Hints.Operators.{ScanOperatorAssignment, JoinOperatorAssignment, IsJoin}
use post_bound.Hints.Parameters.{PlanParameterization, IsParameterization, merge_with_precedence}
use post_bound.Hints.Parameters
use post_bound.Hints.Assignment.{PhysicalOperatorAssignment, no_operators, set_join_assignment}
use post_bound.Hints.Assignment.Queries.{join_assigned, get_set, integrate}
use post_bound.Hints.Assignment.Consistent.{IsConsistent}
use post_bound.Hints.Assignment.Lookups.{get_set-set_join}
use post_bound.Base.{err, value_error}
use post_bound.Hints.Assignment.Strict.{all_set, integrate_strict}
use post_bound.Hints.Assignment.Workers.{hinted, integrate_lem}

abbrev named : ℕ → TableReference
named n = record { full_name = n ∷ []; alias = []; virtual = false; schema = []; catalog = [] }

abbrev a_and_b : List TableReference
a_and_b = named b'a' ∷ named b'b' ∷ []

abbrev b_and_a : List TableReference
b_and_a = named b'b' ∷ named b'a' ∷ []

abbrev scan_a : ScanOperatorAssignment
scan_a = record { operator = index_scan; table = named b'a'; parallel_workers = nan }

abbrev join_ab : JoinOperatorAssignment
join_ab = record {
  operator = hash_join;
  join = a_and_b;
  parallel_workers = nan;
  sides = some (record { inner = named b'a' ∷ []; outer = named b'b' ∷ [] });
}

abbrev hints : PhysicalOperatorAssignment
hints = record {
  global_settings = (join_op nested_loop_join, false) ∷ [];
  join_operators = (a_and_b, join_ab) ∷ [];
  intermediate_operators = (b_and_a, memoize) ∷ [];
  scan_operators = (named b'a', scan_a) ∷ [];
}

a_and_b-Distinct : Distinct a_and_b
unfolding mem table_eq normalize text_eq
a_and_b-Distinct = (refl, (refl, tt))

b_and_a-Distinct : Distinct b_and_a
unfolding mem table_eq normalize text_eq
b_and_a-Distinct = (refl, (refl, tt))

single-Distinct : (n : ℕ) → Distinct (named n ∷ [])
unfolding mem
single-Distinct n = (refl, tt)

join_ab-IsJoin : IsJoin join_ab
unfolding union insert mem table_eq normalize text_eq
join_ab-IsJoin = record {
  two = refl;
  distinct = a_and_b-Distinct;
  sided = (refl, refl, single-Distinct b'a', single-Distinct b'b', refl);
}

hints-IsConsistent : IsConsistent hints
unfolding get mem
hints-IsConsistent = record {
  globals = (refl, tt);
  joins = (refl, tt);
  intermediates = (refl, tt);
  scans = (refl, tt);
  scans_at = (table_key.same_refl (named b'a'), tt);
  joins_at = ((set_key.same_refl a_and_b, join_ab-IsJoin), tt);
}

abbrev workers : List (List TableReference × ℤ)
workers = (b_and_a, pos 4) ∷ []

workers-IsDict : IsDict workers
unfolding get
workers-IsDict = (refl, tt)

integrate_lem_example :
    Returns
      (λ b.
        IsConsistent b × (get_set a_and_b b ≡ hinted (get a_and_b workers) (get_set a_and_b hints)))
      (integrate false workers hints)
integrate_lem_example =
    integrate_lem workers hints a_and_b hints-IsConsistent workers-IsDict (b_and_a-Distinct, tt)
      a_and_b-Distinct

get_set-set_join_example : get_set b_and_a (set_join_assignment join_ab no_operators) ≡ (
    if set_eq a_and_b b_and_a then some (join_assigned join_ab) else get_set b_and_a no_operators)
get_set-set_join_example =
    get_set-set_join join_ab no_operators b_and_a join_ab-IsJoin b_and_a-Distinct

abbrev parameters : PlanParameterization ℕ
parameters = record {
  cardinalities = (a_and_b, repr (rows 12)) ∷ [];
  parallel_workers = workers;
  system_settings = (b'g' ∷ [], 1) ∷ [];
  execution_mode = none;
}

parameters-IsParameterization : IsParameterization parameters
unfolding get
parameters-IsParameterization = record {
  cardinalities = (refl, tt);
  workers = (refl, tt);
  settings = (refl, tt);
}

merge_with_precedence_example :
    (get b_and_a (Parameters.merge_with parameters parameters).cardinalities
      ≡ or_else (get b_and_a parameters.cardinalities) (get b_and_a parameters.cardinalities))
    × (get b_and_a (Parameters.merge_with parameters parameters).parallel_workers
        ≡ or_else
            (get b_and_a parameters.parallel_workers)
            (get b_and_a parameters.parallel_workers))
    × (get (b'g' ∷ []) (Parameters.merge_with parameters parameters).system_settings
        ≡ or_else
            (get (b'g' ∷ []) parameters.system_settings)
            (get (b'g' ∷ []) parameters.system_settings))
    × ((Parameters.merge_with parameters parameters).execution_mode ≡ none)
merge_with_precedence_example =
    merge_with_precedence parameters parameters b_and_a (b'g' ∷ []) parameters-IsParameterization

integrate_strict_example : integrate true workers no_operators ≡ (
    if all_set workers no_operators then integrate false workers no_operators else err value_error)
integrate_strict_example =
    integrate_strict workers no_operators
      (record {
        globals = tt;
        joins = tt;
        intermediates = tt;
        scans = tt;
        scans_at = tt;
        joins_at = tt;
      })
      (b_and_a-Distinct, tt)
