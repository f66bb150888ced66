-- ===== src/DynProg/Enumerate.antt =====
-- The join search of `PostgresDynProg` (postbound/opt/_dynprog.py) where the construction of paths may
-- raise, which ends the search: `_join_search_one_level`, `_build_join_rel` and
-- `_standard_join_search` over `_add_paths_to_joinrel` and `_generate_gather_paths`.
pub mod Agrees
pub mod Kept
pub mod Whole
pub mod Base
use post_bound.Base.{
  Bool, not, Key, List, [], ◌∷◌, ◌++◌, Option, none, some, ℕ, zero, suc, ◌-◌, ◌/◌, ltb,
  if◌then◌else◌, is_some, Result, ok, err, ◌>>=◌, length, same, set_key, number_key, put, inter,
  union, for_each,
}
use post_bound.Core.Table.{TableReference, table_key}
use post_bound.Core.Cardinality.{Cardinality}
use post_bound.DynProg.Create.{Rel, view}
use post_bound.DynProg.Paths.{Plan, RelOptInfo, set_cheapest}
use post_bound.DynProg.Search.{Search, JoinRelLevel, rels_at, new_rel, the_only}
use post_bound.DynProg.Create.{Planner}
use post_bound.DynProg.JoinPaths.{add_paths_to_joinrel}
use post_bound.DynProg.ScanPaths.{generate_gather_paths}
use post_bound.Plans.{QueryPlan}
use post_bound.Plans.Tables.{HasTables}

-- The construction of paths, which may raise.
pub record Construction (P : Type 0) : Type 0 where
  pub calculate_estimate : List TableReference → Cardinality
  pub joins_between : List TableReference → List TableReference → Bool
  -- The relation that is changed, the outer one and the inner one.
  pub add_paths : RelOptInfo P → RelOptInfo P → RelOptInfo P → Result (RelOptInfo P)
  pub gather_paths : RelOptInfo P → Result (RelOptInfo P)

-- What a call returns, or a default where it raises.
abbrev pub returned {ℓ} : {A : Type ℓ} → A → Result A → A
returned a (ok b) = b
returned a (err e) = a

-- The same construction without errors: a call that raises changes nothing.
abbrev pub quiet : {P : Type 0} → Construction P → Search P
quiet c = record {
  calculate_estimate = c.calculate_estimate;
  joins_between = c.joins_between;
  add_paths_to_joinrel = λ rel outer inner. returned rel (c.add_paths rel outer inner);
  generate_gather_paths = λ rel. returned rel (c.gather_paths rel);
}

module _ {E P : Type 0} ⦃key : Key E⦄ (plan : Plan E P) (c : Construction P) where
  -- `_build_join_rel`, with the change that is then made to the relation that it returns.
  unfoldable pub build_rel :
      List TableReference
      → (RelOptInfo P → Result (RelOptInfo P))
      → List (RelOptInfo P)
      → Result (List (RelOptInfo P))
  build_rel intermediate change [] =
      change (new_rel plan (quiet c) intermediate) >>= λ r. ok (r ∷ [])
  build_rel intermediate change (rel ∷ rels) =
      let rest = build_rel intermediate change rels in
      if same rel.intermediate intermediate
      then (change rel >>= λ r. ok (r ∷ rels))
      else (rest >>= λ rs. ok (rel ∷ rs))

  -- Both directions of a join.
  abbrev pub both_ways : RelOptInfo P → RelOptInfo P → RelOptInfo P → Result (RelOptInfo P)
  both_ways rel1 rel2 join_rel = c.add_paths join_rel rel1 rel2 >>= λ r. c.add_paths r rel2 rel1

  -- The body of the loops over two relations.
  unfoldable pub join_rels : RelOptInfo P → RelOptInfo P → JoinRelLevel P → Result (JoinRelLevel P)
  unfolding build_rel rels_at
  join_rels rel1 rel2 levels =
      if ltb 0 (length (inter rel1.intermediate rel2.intermediate))
      then ok levels
      else if not (c.joins_between rel1.intermediate rel2.intermediate)
      then ok levels
      else (let intermediate = union rel1.intermediate rel2.intermediate in
          build_rel intermediate (both_ways rel1 rel2)
            (rels_at plan (quiet c) (length intermediate) levels)
          >>= λ rels. ok (put (length intermediate) rels levels))

  -- The loop over the outer relations, with the loop over the inner ones in it.
  unfoldable pub join_all : ℕ → List (RelOptInfo P) → JoinRelLevel P → Result (JoinRelLevel P)
  unfolding join_rels for_each rels_at
  join_all inner_size = for_each (λ rel1 levels.
      for_each (λ rel2. join_rels rel1 rel2) (rels_at plan (quiet c) inner_size levels) levels)

  unfoldable pub join_sizes : ℕ → ℕ → ℕ → JoinRelLevel P → Result (JoinRelLevel P)
  unfolding join_all rels_at
  join_sizes level outer_size zero levels = ok levels
  join_sizes level outer_size (suc count) levels =
      (if ltb (level - outer_size) 2
        then ok levels
        else join_all (level - outer_size) (rels_at plan (quiet c) outer_size levels) levels)
      >>= λ next. join_sizes level (suc outer_size) count next

  -- `_join_search_one_level`
  unfoldable pub search_one_level : ℕ → JoinRelLevel P → Result (JoinRelLevel P)
  unfolding join_all join_sizes rels_at
  search_one_level level levels =
      join_all 1 (rels_at plan (quiet c) (level - 1) levels) levels >>= λ next.
      join_sizes level 2 (level / 2 - 1) next

  -- The paths that are added to each relation of a finished level.
  unfoldable pub finish_rels : List (RelOptInfo P) → Result (List (RelOptInfo P))
  unfolding set_cheapest
  finish_rels [] = ok []
  finish_rels (rel ∷ rels) = c.gather_paths rel >>= λ gathered.
      set_cheapest plan gathered >>= λ r. finish_rels rels >>= λ rs. ok (r ∷ rs)

  -- The loop over the levels.
  unfoldable pub search_all : ℕ → ℕ → JoinRelLevel P → Result (JoinRelLevel P)
  unfolding search_one_level finish_rels rels_at
  search_all level zero levels = ok levels
  search_all level (suc count) levels = search_one_level level levels >>= λ joined.
      finish_rels (rels_at plan (quiet c) level joined) >>= λ rels.
      search_all (suc level) count (put level rels joined)

  -- `_standard_join_search`
  unfoldable pub search_joins : List (RelOptInfo P) → Result (RelOptInfo P)
  unfolding search_all rels_at
  search_joins initial_rels =
      search_all 2 (length initial_rels - 1) ((1, initial_rels) ∷ []) >>= λ levels.
      the_only plan (quiet c) (rels_at plan (quiet c) (length initial_rels) levels)

-- The construction of paths of the enumerator.
abbrev pub construction :
    {C E : Type 0} ⦃key : Key E⦄ ⦃source : HasTables E⦄
    → Planner C E
    → (List TableReference → Cardinality)
    → Construction (QueryPlan E)
construction planner estimate = record {
  calculate_estimate = estimate;
  joins_between = λ xs ys. is_some (planner.joins_between xs ys);
  add_paths = add_paths_to_joinrel planner;
  gather_paths = generate_gather_paths planner;
}
