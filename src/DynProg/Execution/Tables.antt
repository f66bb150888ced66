-- ===== src/DynProg/Execution/Tables.antt =====
-- The tables of the plan that `generate_execution_plan` of postbound/opt/_dynprog.py returns.
use post_bound.Base.{
  ◌≡◌, refl, Key, List, [], ◌∷◌, ◌++◌, Option, none, some, ℤ, Dict, put, ok, err, ◌>>=◌,
  if◌then◌else◌, OnOk, OnOk-any, OnOk-bind, All, All-append, Entries, Distinct, Bool-cases, inl,
  inr, mem, set_key, same, for_each-All, assertion_error,
}
use post_bound.Core.Table.{TableReference, table_key}
use post_bound.Core.Cardinality.{Cardinality}
use post_bound.DynProg.Paths.{Cost, cheaper}
use post_bound.DynProg.Search.{init_base_rels}
use post_bound.DynProg.Create.{Planner, Rel, view}
use post_bound.DynProg.JoinPaths.Tables.{made, IsFor, above_one, NamesTables, NamesColumns}
use post_bound.DynProg.JoinPaths.Relation.{OfSome}
use post_bound.DynProg.ScanPaths.{
  set_base_rel_pathlists, generate_pseudo_gather_paths, gather_arguments, known_workers,
}
use post_bound.DynProg.ScanPaths.Kept.{NamesFilters}
use post_bound.DynProg.Enumerate.{quiet, search_joins, construction}
use post_bound.DynProg.Enumerate.Base.{AreFor, set_base_rel_pathlists-AreFor}
use post_bound.DynProg.Enumerate.Whole.{IsComplete, search_joins-IsComplete}
use post_bound.DynProg.Search.Levels.{Joined}
use post_bound.DynProg.Execution.{
  least, argmin, plan_key, plan_costs, choose_plan, generate_execution_plan,
}
use post_bound.Plans.{QueryPlan}
use post_bound.Plans.Build.{init, init_params, init_estimates, init_measures, cardinality_of}
use post_bound.Plans.Tables.{HasTables}

least-Keys :
    {K : Type 0} ⦃key : Key K⦄ (Q : K → Type 0) (best : K) (cost : Cost) (d : Dict K Cost)
    → Q best
    → Entries (λ k v. Q k) d
    → Q (least best cost d)
unfolding least
least-Keys Q best cost [] q h = q
least-Keys Q best cost ((k, v) ∷ d) q (p, h) = elim (Bool-cases (cheaper v cost)) [
  | inl better ↦ rw better (least-Keys Q k v d p h)
  | inr worse ↦ rw worse (least-Keys Q best cost d q h)
]

argmin-Keys :
    {K : Type 0} ⦃key : Key K⦄ (Q : K → Type 0) (d : Dict K Cost)
    → Entries (λ k v. Q k) d
    → OnOk Q (argmin d)
unfolding argmin
argmin-Keys Q [] h = tt
argmin-Keys Q ((k, v) ∷ d) (p, h) = least-Keys Q k v d p h

-- An assignment keeps the key that is there.
put-Keys :
    {K V : Type 0} ⦃key : Key K⦄ (Q : K → Type 0) (k : K) (v : V) (d : Dict K V)
    → Q k
    → Entries (λ j w. Q j) d
    → Entries (λ j w. Q j) (put k v d)
unfolding put
put-Keys Q k v [] q h = (q, tt)
put-Keys Q k v ((j, w) ∷ d) q (p, h) = elim (Bool-cases (same j k)) [
  | inl old ↦ rw old (p, h)
  | inr new ↦ rw new (p, put-Keys Q k v d q h)
]

module _ {C E : Type 0} ⦃key : Key E⦄ ⦃source : HasTables E⦄ (planner : Planner C E)
    (estimate : List TableReference → Cardinality) where
  open planner use {is_pg_cost, pg_cost_estimate}

  plan_costs-Keys :
      (Q : QueryPlan E → Type 0) (plans : List (QueryPlan E)) (d : Dict (QueryPlan E) Cost)
      → All Q plans
      → Entries (λ k v. Q k) d
      → Entries (λ k v. Q k) (plan_costs planner estimate plans d)
  unfolding plan_costs
  plan_costs-Keys Q [] d all h = h
  plan_costs-Keys Q (t ∷ plans) d (q, all) h =
      plan_costs-Keys Q plans (put t (pg_cost_estimate t) d) all
        (put-Keys Q t (pg_cost_estimate t) d q h)

  pseudo-IsFor :
      (zs : List TableReference) (n : ℤ) (path : QueryPlan E)
      → IsFor zs path
      → OnOk (IsFor zs) (init (gather_arguments planner n path))
  unfolding made init init_params init_estimates init_measures cardinality_of mem
  pseudo-IsFor zs n path h =
      above_one zs (made (gather_arguments planner n path)) path refl refl (λ k c. cc) h

  pseudo_gathers-IsFor :
      (zs : List TableReference) (rel : Rel planner)
      → All (IsFor zs) rel.partial_paths
      → OnOk (All (IsFor zs)) (generate_pseudo_gather_paths planner rel)
  unfolding generate_pseudo_gather_paths
  pseudo_gathers-IsFor zs rel all =
      for_each-All (IsFor zs) (All (IsFor zs)) _ rel.partial_paths []
        (λ path gathered h g.
          OnOk-bind (λ n. Unit {0}) (All (IsFor zs)) (known_workers planner path) _
            (OnOk-any (known_workers planner path))
            (λ n t.
              OnOk-bind (IsFor zs) (All (IsFor zs)) (init (gather_arguments planner n path)) _
                (pseudo-IsFor zs n path h)
                (λ node k. All-append (IsFor zs) gathered (node ∷ []) g (k, tt))))
        all tt

  chosen :
      (zs : List TableReference) (rel : Rel planner) (cheapest : Option (QueryPlan E))
      → All (IsFor zs) rel.pathlist
      → All (IsFor zs) rel.partial_paths
      → OfSome planner (IsFor zs) cheapest
      → OnOk (IsFor zs) (elim cheapest [
        | none ↦ err assertion_error
        | some cheapest_path ↦
            if is_pg_cost
            then (generate_pseudo_gather_paths planner rel >>= λ gathered.
                argmin (plan_costs planner estimate (rel.pathlist ++ gathered) []))
            else ok cheapest_path
      ])
  chosen zs rel none full partial h = tt
  chosen zs rel (some cheapest_path) full partial h = elim (Bool-cases is_pg_cost) [
    | inl native ↦ simp native (
        OnOk-bind (All (IsFor zs)) (IsFor zs) (generate_pseudo_gather_paths planner rel) _
          (pseudo_gathers-IsFor zs rel partial)
          (λ gathered g.
            argmin-Keys (IsFor zs) (plan_costs planner estimate (rel.pathlist ++ gathered) []) (
              plan_costs-Keys (IsFor zs) (rel.pathlist ++ gathered) []
                (All-append (IsFor zs) rel.pathlist gathered full g) tt)))
    | inr other ↦ simp other h
  ]

  -- If no table of the query stands twice, the enumerator has no hook, the conditions and the
  -- filters name only the tables that they are asked for, and the expression of a column names the
  -- table of the column: generate_execution_plan raises or returns a plan for exactly the tables
  -- of the query, whether the plan is the cheapest path or chosen by the costs of Postgres.
  pub generate_execution_plan-IsFor :
      (tables : List TableReference)
      → Distinct tables
      → planner.hook ≡ none
      → NamesTables planner
      → NamesColumns planner
      → NamesFilters planner
      → OnOk (IsFor tables) (generate_execution_plan planner estimate tables)
  unfolding generate_execution_plan choose_plan
  generate_execution_plan-IsFor tables distinct no_hook conditions columns filters =
      let c = construction planner estimate in
      OnOk-bind (AreFor planner estimate no_hook filters tables) (IsFor tables)
        (set_base_rel_pathlists planner (init_base_rels (view planner) (quiet c) tables)) _
        (set_base_rel_pathlists-AreFor planner estimate no_hook filters tables)
        (λ base_rels (e, proper).
          OnOk-bind
            (λ rel.
              Joined tables c.joins_between rel.intermediate
              × IsComplete planner estimate no_hook tables rel)
            (IsFor tables) (search_joins (view planner) c base_rels) _
            (search_joins-IsComplete planner estimate no_hook tables base_rels conditions columns
              (e, distinct) proper)
            (λ rel (joined, (full, partial, cheapest)).
              chosen tables rel rel.cheapest_path full partial cheapest))
