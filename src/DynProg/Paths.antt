-- ===== src/DynProg/Paths.antt =====
-- The path lists of postbound/opt/_dynprog.py: `RelOptInfo`, `_add_path`, `standard_add_path` and
-- `_set_cheapest`. Costs are natural numbers in a fixed unit, or infinite; NaN is not modelled, and
-- the factor 1.01 is taken exactly.
pub mod Retained
pub mod Cheapest
use post_bound.Base.{
  Bool, true, false, not, Key, List, [], ◌∷◌, ◌++◌, Option, none, some, ℕ, ◌*◌, ltb, leb,
  if◌then◌else◌, Result, ok, err, logic_error,
}
use post_bound.Core.Table.{TableReference}
use post_bound.Core.Cardinality.{Cardinality}
use post_bound.DynProg.Sorting.{SortKey, sorting_subsumes, same_sorting}

pub data Cost : Type 0 where
  finite : ℕ → Cost
  infinite : Cost

-- `a < b`
abbrev pub cheaper : Cost → Cost → Bool
cheaper (finite a) (finite b) = ltb a b
cheaper (finite a) infinite = true
cheaper infinite b = false

-- `a <= b`
abbrev pub at_most : Cost → Cost → Bool
at_most (finite a) (finite b) = leb a b
at_most infinite (finite b) = false
at_most a infinite = true

-- `a <= 1.01 * b`
abbrev pub about_at_most : Cost → Cost → Bool
about_at_most (finite a) (finite b) = leb (100 * a) (101 * b)
about_at_most infinite (finite b) = false
about_at_most a infinite = true

-- `math.isinf`
abbrev pub isinf : Cost → Bool
isinf infinite = true
isinf (finite a) = false

-- What the path lists read of a query plan `P`.
pub record Plan (E P : Type 0) : Type 0 where
  pub estimated_cost : P → Cost
  pub sort_keys : P → List (SortKey E)

pub record RelOptInfo (P : Type 0) : Type 0 where
  pub intermediate : List TableReference
  pub pathlist : List P
  pub partial_paths : List P
  pub cheapest_path : Option P
  pub cheapest_partial_path : Option P
  pub cardinality : Cardinality

module _ {E P : Type 0} ⦃key : Key E⦄ (plan : Plan E P) where
  open plan use {estimated_cost, sort_keys}

  -- `new_dominates`
  unfoldable pub new_dominates : P → P → Bool
  new_dominates path old_path =
      if same_sorting (sort_keys path) (sort_keys old_path)
      then cheaper (estimated_cost path) (estimated_cost old_path)
      else about_at_most (estimated_cost path) (estimated_cost old_path)

  -- The loop over the current paths: `result_paths` and `keep_new` at its end.
  unfoldable pub compete : P → List P → List P × Bool
  compete path [] = ([], true)
  compete path (old_path ∷ rest) =
      let (result_paths, keep_new) = compete path rest in
      if not (sorting_subsumes (sort_keys path) (sort_keys old_path))
      then (old_path ∷ result_paths, keep_new)
      else if new_dominates path old_path
      then (result_paths, keep_new)
      else (old_path ∷ rest, false)

  -- The new path list of `standard_add_path`.
  unfoldable pub add_to_paths : P → List P → List P
  add_to_paths path [] = path ∷ []
  add_to_paths path (p ∷ paths) =
      let (result_paths, keep_new) = compete path (p ∷ paths) in
      if keep_new then result_paths ++ (path ∷ []) else result_paths

  -- `standard_add_path`
  unfoldable pub standard_add_path : Bool → P → RelOptInfo P → RelOptInfo P
  unfolding add_to_paths
  standard_add_path true path rel = record rel {
    partial_paths = add_to_paths path rel.partial_paths;
  }
  standard_add_path false path rel = record rel { pathlist = add_to_paths path rel.pathlist }

  -- `_add_path`, with the hook of the enumerator, if it has one.
  unfoldable pub add_path :
      Option (RelOptInfo P → P → Bool → RelOptInfo P) → Bool → P → RelOptInfo P → RelOptInfo P
  unfolding standard_add_path
  add_path hook is_partial path rel = if isinf (estimated_cost path) then rel else elim hook [
    | none ↦ standard_add_path is_partial path rel
    | some f ↦ f rel path is_partial
  ]

  -- `list.sort(key=lambda path: path.estimated_cost)`, which is stable.
  unfoldable pub insert_path : P → List P → List P
  insert_path p [] = p ∷ []
  insert_path p (q ∷ qs) =
      let rest = insert_path p qs in
      if at_most (estimated_cost p) (estimated_cost q) then p ∷ (q ∷ qs) else q ∷ rest

  unfoldable pub sort_paths : List P → List P
  unfolding insert_path
  sort_paths [] = []
  sort_paths (p ∷ ps) = insert_path p (sort_paths ps)

  abbrev pub first : List P → Option P → Option P
  first [] otherwise = otherwise
  first (p ∷ ps) otherwise = some p

  -- `_set_cheapest`
  unfoldable pub set_cheapest : RelOptInfo P → Result (RelOptInfo P)
  set_cheapest rel = elim rel.pathlist [
    | [] ↦ err logic_error
    | p ∷ ps ↦
        let pathlist = sort_paths rel.pathlist in
        let partial_paths = sort_paths rel.partial_paths in
        ok (record rel {
          pathlist = pathlist;
          partial_paths = partial_paths;
          cheapest_path = first pathlist rel.cheapest_path;
          cheapest_partial_path = first partial_paths rel.cheapest_partial_path;
        })
  ]
