-- ===== src/DynProg/Search.antt =====
-- The join search of `PostgresDynProg` (postbound/opt/_dynprog.py): `_standard_join_search`,
-- `_join_search_one_level` and `_build_join_rel`. Relations of lower levels do not change while a
-- level is built, so the lists that the source iterates over are values here.
pub mod Levels
pub mod Sound
pub mod Growth
pub mod Reached
pub mod Ready
pub mod Rounds
pub mod Total
mod Examples
use post_bound.Base.{
  Bool, not, Key, List, [], ◌∷◌, Option, none, some, ℕ, zero, suc, ◌-◌, ◌/◌, ltb, if◌then◌else◌,
  Result, ok, err, assertion_error, ◌>>=◌, length, same, set_key, number_key, Dict, get, put, inter,
  union,
}
use post_bound.Core.Table.{TableReference, table_key}
use post_bound.Core.Cardinality.{Cardinality}
use post_bound.DynProg.Paths.{Plan, RelOptInfo, set_cheapest}

-- What the search calls: the estimator, the predicates of the query, and the construction of paths.
pub record Search (P : Type 0) : Type 0 where
  pub calculate_estimate : List TableReference → Cardinality
  pub joins_between : List TableReference → List TableReference → Bool
  -- The relation that is changed, the outer one and the inner one.
  pub add_paths_to_joinrel : RelOptInfo P → RelOptInfo P → RelOptInfo P → RelOptInfo P
  pub generate_gather_paths : RelOptInfo P → RelOptInfo P

-- `JoinRelLevel`
abbrev pub JoinRelLevel : Type 0 → Type 0
JoinRelLevel P = Dict ℕ (List (RelOptInfo P))

module _ {E P : Type 0} ⦃key : Key E⦄ (plan : Plan E P) (search : Search P) where
  open search use {calculate_estimate, joins_between, add_paths_to_joinrel, generate_gather_paths}

  -- `self.join_rel_level[level]`
  unfoldable pub rels_at : ℕ → JoinRelLevel P → List (RelOptInfo P)
  rels_at level levels = elim (get level levels) [ none ↦ [] | some rels ↦ rels ]

  -- The relation without paths that is built for a set of tables.
  abbrev pub new_rel : List TableReference → RelOptInfo P
  new_rel intermediate = record {
    intermediate = intermediate;
    pathlist = [];
    partial_paths = [];
    cheapest_path = none;
    cheapest_partial_path = none;
    cardinality = calculate_estimate intermediate;
  }

  -- `_init_base_rels`, for the tables of the query.
  unfoldable pub init_base_rels : List TableReference → List (RelOptInfo P)
  init_base_rels [] = []
  init_base_rels (base_rel ∷ tables) = new_rel (base_rel ∷ []) ∷ init_base_rels tables

  -- `_build_join_rel`, with the change that is then made to the relation that it returns.
  unfoldable pub build_join_rel :
      List TableReference
      → (RelOptInfo P → RelOptInfo P)
      → List (RelOptInfo P)
      → List (RelOptInfo P)
  build_join_rel intermediate change [] = change (new_rel intermediate) ∷ []
  build_join_rel intermediate change (rel ∷ rels) =
      let rest = build_join_rel intermediate change rels in
      if same rel.intermediate intermediate then change rel ∷ rels else rel ∷ rest

  -- The body of the loops over two relations.
  unfoldable pub join_pair : RelOptInfo P → RelOptInfo P → JoinRelLevel P → JoinRelLevel P
  join_pair rel1 rel2 levels =
      if ltb 0 (length (inter rel1.intermediate rel2.intermediate))
      then levels
      else if not (joins_between rel1.intermediate rel2.intermediate)
      then levels
      else let intermediate = union rel1.intermediate rel2.intermediate in
        let change = λ (join_rel : RelOptInfo P).
          add_paths_to_joinrel (add_paths_to_joinrel join_rel rel1 rel2) rel2 rel1 in
        put (length intermediate)
          (build_join_rel intermediate change (rels_at (length intermediate) levels)) levels

  unfoldable pub join_inner : RelOptInfo P → List (RelOptInfo P) → JoinRelLevel P → JoinRelLevel P
  join_inner rel1 [] levels = levels
  join_inner rel1 (rel2 ∷ rels) levels = join_inner rel1 rels (join_pair rel1 rel2 levels)

  unfoldable pub join_outer : ℕ → List (RelOptInfo P) → JoinRelLevel P → JoinRelLevel P
  join_outer inner_size [] levels = levels
  join_outer inner_size (rel1 ∷ rels) levels =
      join_outer inner_size rels (join_inner rel1 (rels_at inner_size levels) levels)

  -- The loop over the sizes of the outer relation, `count` of them from `outer_size` on.
  unfoldable pub join_bushy : ℕ → ℕ → ℕ → JoinRelLevel P → JoinRelLevel P
  join_bushy level outer_size zero levels = levels
  join_bushy level outer_size (suc count) levels = join_bushy level (suc outer_size) count (
      if ltb (level - outer_size) 2
      then levels
      else join_outer (level - outer_size) (rels_at outer_size levels) levels)

  -- `_join_search_one_level`
  unfoldable pub join_search_one_level : ℕ → JoinRelLevel P → JoinRelLevel P
  join_search_one_level level levels =
      join_bushy level 2 (level / 2 - 1) (join_outer 1 (rels_at (level - 1) levels) levels)

  -- The paths that are added to each relation of a finished level.
  unfoldable pub finish_level : List (RelOptInfo P) → Result (List (RelOptInfo P))
  finish_level [] = ok []
  finish_level (rel ∷ rels) =
      set_cheapest plan (generate_gather_paths rel) >>= λ r. finish_level rels >>= λ rs. ok (r ∷ rs)

  -- The loop of `_standard_join_search` over `count` levels from `level` on.
  unfoldable pub search_levels : ℕ → ℕ → JoinRelLevel P → Result (JoinRelLevel P)
  search_levels level zero levels = ok levels
  search_levels level (suc count) levels =
      let joined = join_search_one_level level levels in
      finish_level (rels_at level joined) >>= λ rels.
      search_levels (suc level) count (put level rels joined)

  abbrev pub the_only : List (RelOptInfo P) → Result (RelOptInfo P)
  the_only (rel ∷ []) = ok rel
  the_only _ = err assertion_error

  -- `_standard_join_search`
  unfoldable pub standard_join_search : List (RelOptInfo P) → Result (RelOptInfo P)
  standard_join_search initial_rels =
      search_levels 2 (length initial_rels - 1) ((1, initial_rels) ∷ []) >>= λ levels.
      the_only (rels_at (length initial_rels) levels)
