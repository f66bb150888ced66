-- ===== src/DynProg/Search/Sound.antt =====
-- The tables of what `_standard_join_search` of postbound/opt/_dynprog.py returns.
use post_bound.Base.{
  true, ◌≡◌, refl, arith, Key, List, [], ◌∷◌, ℕ, zero, suc, ◌-◌, length, set_key, number_key, put,
  mem, mem-union, Distinct, All, map, sym, ◌∙◌, ap, subst, set_eq, set_eq_one, set_eq_of_size,
  Result, ok, err, ◌>>=◌, OnOk, OnOk-map, mem-same,
}
use post_bound.Core.Table.{TableReference, table_key}
use post_bound.DynProg.Paths.{Plan, RelOptInfo, set_cheapest}
use post_bound.DynProg.Search.{
  Search, JoinRelLevel, init_base_rels, rels_at, join_search_one_level, finish_level, search_levels,
  the_only, standard_join_search,
}
use post_bound.DynProg.Search.Levels.{
  Joined, table, join, IsAt, intermediates, IsLevel, AreLevels, KeepsTables, rels_at-IsLevel,
  put-AreLevels, join_search_one_level-AreLevels,
}

module _ {E P : Type 0} ⦃key : Key E⦄ (plan : Plan E P) (search : Search P) where
  open search use {joins_between, generate_gather_paths}

  cheapest_at :
      (rel : RelOptInfo P) (ps : List P)
      → rel.pathlist ≡ ps
      → OnOk (λ r. r.intermediate ≡ rel.intermediate) (set_cheapest plan rel)
  unfolding set_cheapest
  cheapest_at rel [] e = rw (e, set_cheapest) tt
  cheapest_at rel (p ∷ ps) e = rw (e, set_cheapest) refl

  set_cheapest-intermediate :
      (rel : RelOptInfo P) → OnOk (λ r. r.intermediate ≡ rel.intermediate) (set_cheapest plan rel)
  set_cheapest-intermediate rel = cheapest_at rel rel.pathlist refl

  -- The gathering of paths leaves the tables of a relation alone.
  abbrev pub GatherKeeps : Type 0
  GatherKeeps = (rel : RelOptInfo P) → (generate_gather_paths rel).intermediate ≡ rel.intermediate

  both_ok :
      (rel : RelOptInfo P) (rels : List (RelOptInfo P)) (r : Result (RelOptInfo P))
      (rs : Result (List (RelOptInfo P)))
      → OnOk (λ q. q.intermediate ≡ rel.intermediate) r
      → OnOk (λ qs. intermediates qs ≡ intermediates rels) rs
      → OnOk
          (λ qs. intermediates qs ≡ intermediates (rel ∷ rels))
          (r >>= λ q. rs >>= λ qs. ok (q ∷ qs))
  both_ok rel rels (ok q) (ok qs) e f = cc (e, f)
  both_ok rel rels (ok q) (err x) e f = tt
  both_ok rel rels (err x) rs e f = tt

  finish_level-tables :
      (gathers : GatherKeeps) (rels : List (RelOptInfo P))
      → OnOk (λ qs. intermediates qs ≡ intermediates rels) (finish_level plan search rels)
  unfolding finish_level
  finish_level-tables gathers [] = refl
  finish_level-tables gathers (rel ∷ rels) =
      both_ok rel rels (set_cheapest plan (generate_gather_paths rel))
        (finish_level plan search rels)
        (OnOk-map _ _ (set_cheapest plan (generate_gather_paths rel)) (λ q e. e ∙ gathers rel)
          (set_cheapest-intermediate (generate_gather_paths rel)))
        (finish_level-tables gathers rels)

module _ {E P : Type 0} ⦃key : Key E⦄ (plan : Plan E P) (search : Search P)
    (base : List TableReference) (keeps : KeepsTables search base)
    (gathers : GatherKeeps plan search) where
  open search use {joins_between}

  next_level :
      (level count : ℕ) (joined : JoinRelLevel P) (rels : Result (List (RelOptInfo P)))
      → OnOk (λ qs. intermediates qs ≡ intermediates (rels_at plan search level joined)) rels
      → AreLevels search base joined
      → ((levels : JoinRelLevel P)
          → AreLevels search base levels
          → OnOk (AreLevels search base) (search_levels plan search (suc level) count levels))
      → OnOk
          (AreLevels search base)
          (rels >>= λ qs. search_levels plan search (suc level) count (put level qs joined))
  next_level level count joined (err x) e h go = tt
  next_level level count joined (ok qs) e h go = go (put level qs joined) (
      put-AreLevels plan search base level qs joined
        (subst (λ xs. All (IsAt search base level) xs × Distinct xs) (sym e)
          (rels_at-IsLevel plan search base level joined h))
        h)

  search_levels-AreLevels :
      (level count : ℕ) (levels : JoinRelLevel P)
      → AreLevels search base levels
      → OnOk (AreLevels search base) (search_levels plan search level count levels)
  unfolding search_levels
  search_levels-AreLevels level zero levels h = h
  search_levels-AreLevels level (suc count) levels h =
      let joined = join_search_one_level plan search level levels in
      next_level level count joined (finish_level plan search (rels_at plan search level joined))
        (finish_level-tables plan search gathers (rels_at plan search level joined))
        (join_search_one_level-AreLevels plan search base keeps level levels h)
        (search_levels-AreLevels (suc level) count)

  the_only-IsAt :
      (level : ℕ) (rels : List (RelOptInfo P))
      → IsLevel search base level rels
      → OnOk (λ r. IsAt search base level r.intermediate) (the_only plan search rels)
  the_only-IsAt level [] h = tt
  the_only-IsAt level (rel ∷ []) ((p, ps), d) = p
  the_only-IsAt level (rel ∷ other ∷ rels) h = tt

  -- The base relations are one for each table.
  abbrev pub AreBase : List (RelOptInfo P) → Type 0
  AreBase rels = (intermediates rels ≡ map (λ (t : TableReference). t ∷ []) base) × Distinct base

  -- The tables of a joined set are tables of the query.
  Joined-mem :
      (xs : List TableReference)
      → Joined base joins_between xs
      → (k : TableReference) → mem k xs ≡ true
      → mem k base ≡ true
  unfolding mem
  Joined-mem _ (table t m) k h = sym (mem-same t k base (ground arith)) ∙ m
  Joined-mem _ (join xs ys p q apart between) k h =
      ground (arith, mem-union k xs ys, Joined-mem xs p k, Joined-mem ys q k)

  abbrev singles : List TableReference → List (List TableReference)
  singles ts = map (λ (t : TableReference). t ∷ []) ts

  singles-IsAt :
      (ts : List TableReference)
      → ((k : TableReference) → mem k ts ≡ true → mem k base ≡ true)
      → All (IsAt search base 1) (singles ts)
  unfolding mem
  singles-IsAt [] h = tt
  singles-IsAt (t ∷ ts) h = (
    record {
      size = refl;
      distinct = (refl, tt);
      joined = table t (h t (ground (arith, table_key.same_refl t)));
    },
    singles-IsAt ts (λ k m. h k (ground arith)),
  )

  mem-singles :
      (t : TableReference) (ts : List TableReference) → mem (t ∷ []) (singles ts) ≡ mem t ts
  unfolding mem
  mem-singles t [] = refl
  mem-singles t (u ∷ ts) = ground (arith, set_eq_one u t, mem-singles t ts)

  singles-Distinct : (ts : List TableReference) → Distinct ts → Distinct (singles ts)
  singles-Distinct [] d = tt
  singles-Distinct (t ∷ ts) (fresh, d) = (mem-singles t ts ∙ fresh, singles-Distinct ts d)

  pub length-intermediates :
      (rels : List (RelOptInfo P)) → length (intermediates rels) ≡ length rels
  length-intermediates [] = refl
  length-intermediates (rel ∷ rels) = rw (length-intermediates rels) refl

  pub length-singles : (ts : List TableReference) → length (singles ts) ≡ length ts
  length-singles [] = refl
  length-singles (t ∷ ts) = rw (length-singles ts) refl

  pub AreBase-IsLevel : (rels : List (RelOptInfo P)) → AreBase rels → IsLevel search base 1 rels
  AreBase-IsLevel rels (e, d) =
      subst (λ xs. All (IsAt search base 1) xs × Distinct xs) (sym e)
        (singles-IsAt base (λ k m. m), singles-Distinct base d)

  init_base_rels-singles :
      (ts : List TableReference) → intermediates (init_base_rels plan search ts) ≡ singles ts
  unfolding init_base_rels
  init_base_rels-singles [] = refl
  init_base_rels-singles (t ∷ ts) = rw (init_base_rels-singles ts) refl

  -- The relations that are initialised for the tables of the query are one for each table.
  pub init_base_rels-AreBase : Distinct base → AreBase (init_base_rels plan search base)
  init_base_rels-AreBase d = (init_base_rels-singles base, d)

  pub covers_base :
      (ts : List TableReference)
      → IsAt search base (length base) ts
      → (set_eq ts base ≡ true) × Joined base joins_between ts
  covers_base ts at =
      (set_eq_of_size ts base at.distinct at.size (Joined-mem ts at.joined), at.joined)

  search_only :
      (n : ℕ) (r : Result (JoinRelLevel P))
      → OnOk (AreLevels search base) r
      → OnOk
          (λ q. IsAt search base n q.intermediate)
          (r >>= λ levels. the_only plan search (rels_at plan search n levels))
  search_only n (ok levels) h =
      the_only-IsAt n (rels_at plan search n levels) (rels_at-IsLevel plan search base n levels h)
  search_only n (err x) h = tt

  -- If the initial relations are one for each table of the query and the construction of paths
  -- leaves the tables of relations alone, the relation that _standard_join_search returns, where
  -- it does not raise, is for exactly the tables of the query, and these are joined without a
  -- cross product, by joins of disjoint parts.
  pub standard_join_search_lem :
      (initial_rels : List (RelOptInfo P))
      → AreBase initial_rels
      → OnOk
          (λ rel.
            (set_eq rel.intermediate base ≡ true) × Joined base joins_between rel.intermediate)
          (standard_join_search plan search initial_rels)
  unfolding standard_join_search
  standard_join_search_lem initial_rels (e, d) =
      let size : length initial_rels ≡ length base =
        sym (length-intermediates initial_rels) ∙ ap length e ∙ length-singles base in
      OnOk-map _ _ (standard_join_search plan search initial_rels)
        (λ rel at.
          covers_base rel.intermediate (subst (λ n. IsAt search base n rel.intermediate) size at))
        (search_only (length initial_rels) _ (
          search_levels-AreLevels 2 (length initial_rels - 1) ((1, initial_rels) ∷ [])
            (AreBase-IsLevel initial_rels (e, d), tt)))
