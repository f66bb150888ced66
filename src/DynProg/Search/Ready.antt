-- ===== src/DynProg/Search/Ready.antt =====
-- The paths of the relations in the join search of postbound/opt/_dynprog.py.
use post_bound.Base.{
  true, ◌≡◌, ◌≢◌, arith, Key, List, [], ◌∷◌, ℕ, zero, suc, ◌-◌, ◌/◌, ◌<◌, ltb, ◌==◌, length, same,
  set_key, number_key, get, put, inter, union, Bool-cases, Option-cases, inl, inr, ◌⊎◌, sym, subst,
  All, Entries, put-Entries, get-Entries,
}
use post_bound.Core.Table.{TableReference, table_key}
use post_bound.DynProg.Paths.{Plan, RelOptInfo}
use post_bound.DynProg.Search.{
  Search, JoinRelLevel, rels_at, new_rel, build_join_rel, join_pair, join_inner, join_outer,
  join_bushy, join_search_one_level,
}
use post_bound.DynProg.Search.Levels.{rels_at-none, rels_at-some}

module _ {P : Type 0} where
  abbrev pub HasPath : RelOptInfo P → Type 0
  HasPath rel = rel.pathlist ≢ []

  -- From a level on, every relation has a path.
  abbrev pub IsReady : ℕ → ℕ → List (RelOptInfo P) → Type 0
  IsReady level n rels = (n < level) ⊎ All HasPath rels

  abbrev pub AreReady : ℕ → JoinRelLevel P → Type 0
  AreReady level levels = Entries (IsReady level) levels

  pub IsReady-stable :
      (level a b : ℕ) (rels : List (RelOptInfo P))
      → (a == b) ≡ true
      → IsReady level b rels
      → IsReady level a rels
  IsReady-stable level a b rels h p =
      let e : b ≡ a = ground arith in subst (λ n. IsReady level n rels) e p

  next-AreReady :
      (level : ℕ) (levels : JoinRelLevel P) → AreReady level levels → AreReady (suc level) levels
  next-AreReady level [] h = tt
  next-AreReady level ((n, rels) ∷ levels) (inl below, h) =
      (inl (omega arith), next-AreReady level levels h)
  next-AreReady level ((n, rels) ∷ levels) (inr all, h) = (inr all, next-AreReady level levels h)

  -- The level is done.
  pub put-AreReady :
      (level : ℕ) (rels : List (RelOptInfo P)) (levels : JoinRelLevel P)
      → AreReady level levels
      → AreReady (suc level) (put level rels levels)
  put-AreReady level rels levels h =
      put-Entries (IsReady (suc level)) (IsReady-stable (suc level)) level rels levels
        (inl (omega arith)) (next-AreReady level levels h)

module _ {E P : Type 0} ⦃key : Key E⦄ (plan : Plan E P) (search : Search P) where
  open search use {joins_between, add_paths_to_joinrel, generate_gather_paths}

  -- The construction of paths finds a path for every join, and the gathering of paths removes none.
  abbrev pub AddsPaths : Type 0
  AddsPaths = (rel outer inner : RelOptInfo P) → HasPath (add_paths_to_joinrel rel outer inner)

  abbrev pub GatherKeepsPaths : Type 0
  GatherKeepsPaths = (rel : RelOptInfo P) → HasPath rel → HasPath (generate_gather_paths rel)

  pub rels_at-IsReady :
      (base : List TableReference) (level n : ℕ) (levels : JoinRelLevel P)
      → AreReady level levels
      → IsReady level n (rels_at plan search n levels)
  rels_at-IsReady base level n levels h = elim (Option-cases (get n levels)) [
    | inl gone ↦
        subst (IsReady level n) (sym (rels_at-none plan search base n levels gone)) (inr tt)
    | inr (rels, found) ↦
        subst (IsReady level n) (sym (rels_at-some plan search base n rels levels found))
          (get-Entries (IsReady level) (IsReady-stable level) n rels levels h found)
  ]

  build-HasPath :
      (ts : List TableReference) (change : RelOptInfo P → RelOptInfo P) (rels : List (RelOptInfo P))
      → ((rel : RelOptInfo P) → HasPath (change rel))
      → All HasPath rels
      → All HasPath (build_join_rel plan search ts change rels)
  unfolding build_join_rel
  build-HasPath ts change [] some_path h = (some_path (new_rel plan search ts), tt)
  build-HasPath ts change (rel ∷ rels) some_path (p, h) =
      elim (Bool-cases (same rel.intermediate ts)) [
        | inl here ↦ rw here (some_path rel, h)
        | inr other ↦ rw other (p, build-HasPath ts change rels some_path h)
      ]

  module _ (adds : AddsPaths) (base : List TableReference) (level : ℕ) where
    build-IsReady :
        (n : ℕ) (ts : List TableReference) (rel1 rel2 : RelOptInfo P) (rels : List (RelOptInfo P))
        → IsReady level n rels
        → IsReady level n (
            build_join_rel plan search ts
              (λ rel. add_paths_to_joinrel (add_paths_to_joinrel rel rel1 rel2) rel2 rel1)
              rels)
    build-IsReady n ts rel1 rel2 rels (inl below) = inl below
    build-IsReady n ts rel1 rel2 rels (inr h) =
        inr (build-HasPath ts _ rels (λ rel. adds (add_paths_to_joinrel rel rel1 rel2) rel2 rel1) h)

    join_pair-AreReady :
        (rel1 rel2 : RelOptInfo P) (levels : JoinRelLevel P)
        → AreReady level levels
        → AreReady level (join_pair plan search rel1 rel2 levels)
    unfolding join_pair
    join_pair-AreReady rel1 rel2 levels h =
        elim (Bool-cases (ltb 0 (length (inter rel1.intermediate rel2.intermediate)))) [
          | inl overlap ↦ rw overlap h
          | inr apart ↦ elim (Bool-cases (joins_between rel1.intermediate rel2.intermediate)) [
            | inr crossing ↦ rw (apart, crossing) h
            | inl between ↦
                let ts = union rel1.intermediate rel2.intermediate in
                rw (apart, between)
                  (put-Entries (IsReady level) (IsReady-stable level) (length ts) _ levels
                    (build-IsReady (length ts) ts rel1 rel2 (rels_at plan search (length ts) levels)
                      (rels_at-IsReady base level (length ts) levels h))
                    h)
          ]
        ]

    join_inner-AreReady :
        (rel1 : RelOptInfo P) (rels : List (RelOptInfo P)) (levels : JoinRelLevel P)
        → AreReady level levels
        → AreReady level (join_inner plan search rel1 rels levels)
    unfolding join_inner
    join_inner-AreReady rel1 [] levels h = h
    join_inner-AreReady rel1 (rel2 ∷ rels) levels h =
        join_inner-AreReady rel1 rels _ (join_pair-AreReady rel1 rel2 levels h)

    join_outer-AreReady :
        (size : ℕ) (rels : List (RelOptInfo P)) (levels : JoinRelLevel P)
        → AreReady level levels
        → AreReady level (join_outer plan search size rels levels)
    unfolding join_outer
    join_outer-AreReady size [] levels h = h
    join_outer-AreReady size (rel1 ∷ rels) levels h =
        join_outer-AreReady size rels _
          (join_inner-AreReady rel1 (rels_at plan search size levels) levels h)

    join_bushy-AreReady :
        (l outer count : ℕ) (levels : JoinRelLevel P)
        → AreReady level levels
        → AreReady level (join_bushy plan search l outer count levels)
    unfolding join_bushy
    join_bushy-AreReady l outer zero levels h = h
    join_bushy-AreReady l outer (suc count) levels h =
        join_bushy-AreReady l (suc outer) count _ (elim (Bool-cases (ltb (l - outer) 2)) [
          | inl small ↦ rw small h
          | inr large ↦
              rw large (join_outer-AreReady (l - outer) (rels_at plan search outer levels) levels h)
        ])

    pub join_search_one_level-AreReady :
        (l : ℕ) (levels : JoinRelLevel P)
        → AreReady level levels
        → AreReady level (join_search_one_level plan search l levels)
    unfolding join_search_one_level
    join_search_one_level-AreReady l levels h =
        join_bushy-AreReady l 2 (l / 2 - 1) _
          (join_outer-AreReady 1 (rels_at plan search (l - 1) levels) levels h)
