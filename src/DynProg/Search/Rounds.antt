-- ===== src/DynProg/Search/Rounds.antt =====
-- The rounds of `_standard_join_search` (postbound/opt/_dynprog.py).
use post_bound.Base.{
  true, false, ◌≡◌, refl, arith, Key, List, [], ◌∷◌, ℕ, zero, suc, ◌-◌, ◌+◌, ◌≤◌, ltb, ◌==◌, length,
  set_key, number_key, put, mem, inl, inr, sym, ◌∙◌, subst, All, Any, Result, ok, err, ◌>>=◌,
  Returns, Returns-map, Distinct,
}
use post_bound.Core.Table.{TableReference, table_key}
use post_bound.DynProg.Paths.{Plan, RelOptInfo, set_cheapest}
use post_bound.DynProg.Search.{
  Search, JoinRelLevel, rels_at, join_search_one_level, finish_level, search_levels,
}
use post_bound.DynProg.Search.Levels.{
  Joined, intermediates, KeepsTables, IsAt, AreLevels, rels_at-IsLevel, put-AreLevels,
  join_search_one_level-AreLevels,
}
use post_bound.DynProg.Search.Sound.{GatherKeeps}
use post_bound.DynProg.Search.Growth.{IsIn, IsSome, sets_at, sets_at-put}
use post_bound.DynProg.Search.Reached.{join_search_one_level-IsIn, join_search_one_level-IsSome}
use post_bound.DynProg.Search.Ready.{
  HasPath, AreReady, put-AreReady, AddsPaths, GatherKeepsPaths, rels_at-IsReady,
  join_search_one_level-AreReady,
}

module _ {E P : Type 0} ⦃key : Key E⦄ (plan : Plan E P) (search : Search P) where
  open search use {joins_between, generate_gather_paths}

  cheapest-Returns :
      (rel : RelOptInfo P) (ps : List P)
      → rel.pathlist ≡ ps
      → HasPath rel
      → Returns (λ r. r.intermediate ≡ rel.intermediate) (set_cheapest plan rel)
  unfolding set_cheapest
  cheapest-Returns rel [] e h = absurd (h e)
  cheapest-Returns rel (p ∷ ps) e h = rw (e, set_cheapest) refl

  both_return :
      (rel : RelOptInfo P) (rels : List (RelOptInfo P)) (r : Result (RelOptInfo P))
      (rs : Result (List (RelOptInfo P)))
      → Returns (λ q. q.intermediate ≡ rel.intermediate) r
      → Returns (λ qs. intermediates qs ≡ intermediates rels) rs
      → Returns
          (λ qs. intermediates qs ≡ intermediates (rel ∷ rels))
          (r >>= λ q. rs >>= λ qs. ok (q ∷ qs))
  both_return rel rels (ok q) (ok qs) e f = cc (e, f)
  both_return rel rels (ok q) (err x) e f = f
  both_return rel rels (err x) rs e f = e

  finish_level-Returns :
      GatherKeeps plan search
      → GatherKeepsPaths plan search
      → (rels : List (RelOptInfo P)) → All HasPath rels
      → Returns (λ qs. intermediates qs ≡ intermediates rels) (finish_level plan search rels)
  unfolding finish_level
  finish_level-Returns gathers paths [] h = refl
  finish_level-Returns gathers paths (rel ∷ rels) (p, h) =
      let gathered = generate_gather_paths rel in
      both_return rel rels (set_cheapest plan gathered) (finish_level plan search rels)
        (Returns-map _ _ (set_cheapest plan gathered) (λ q e. e ∙ gathers rel)
          (cheapest-Returns gathered gathered.pathlist refl (paths rel p)))
        (finish_level-Returns gathers paths rels h)

  -- Every joined set that is not the whole query can be joined with one more table.
  abbrev pub IsConnected : List TableReference → Type 0
  IsConnected base =
      (xs : List TableReference)
      → Joined base joins_between xs
      → ltb (length xs) (length base) ≡ true
      → (t : TableReference) × Any (λ u. u ≡ t) base
        × (mem t xs ≡ false)
        × (joins_between xs (t ∷ []) ≡ true)

module _ {E P : Type 0} ⦃key : Key E⦄ (plan : Plan E P) (search : Search P)
    (base : List TableReference) (keeps : KeepsTables search base)
    (gathers : GatherKeeps plan search) (adds : AddsPaths plan search)
    (paths : GatherKeepsPaths plan search) (connected : IsConnected plan search base) where
  open search use {joins_between}

  abbrev pub sets : ℕ → JoinRelLevel P → List (List TableReference)
  sets n levels = sets_at plan search base keeps n levels

  -- The levels below `level` are built, the last one of them with a relation.
  pub record IsBuilt (level : ℕ) (levels : JoinRelLevel P) : Type 0 where
    pub right : AreLevels search base levels
    pub ready : AreReady level levels
    pub singles_in : (t : TableReference) → Any (λ u. u ≡ t) base → IsIn (t ∷ []) (sets 1 levels)
    pub reached : IsSome (sets (level - 1) levels)

  All-IsIn :
      (Q : List TableReference → Type 0) (xs : List TableReference)
      (all : List (List TableReference))
      → All Q all
      → IsIn xs all
      → Q xs
  All-IsIn Q xs [] h g = absurd g
  All-IsIn Q xs (ys ∷ all) (q, h) (inl e) = subst Q e q
  All-IsIn Q xs (ys ∷ all) (q, h) (inr g) = All-IsIn Q xs all h g

  -- The search of one level finds a relation.
  one_level_reached :
      (level : ℕ) (levels : JoinRelLevel P)
      → 2 ≤ level
      → level ≤ length base
      → IsBuilt level levels
      → IsSome (sets level (join_search_one_level plan search level levels))
  one_level_reached level levels low high b =
      let (xs, here) = b.reached in
      let at : IsAt search base (level - 1) xs =
        All-IsIn (IsAt search base (level - 1)) xs (sets (level - 1) levels)
          (rels_at-IsLevel plan search base (level - 1) levels b.right).0 here in
      let size : length xs ≡ level - 1 = at.size in
      let (t, in_base, fresh, between) = connected xs at.joined (ground arith) in
      let e : suc (length xs) ≡ level = omega arith in
      subst (λ n. IsSome (sets n (join_search_one_level plan search level levels))) e
        (join_search_one_level-IsSome plan search base keeps level levels xs t here
          (b.singles_in t in_base) fresh between)

  ready_paths :
      (level : ℕ) (levels : JoinRelLevel P)
      → AreReady level levels
      → All HasPath (rels_at plan search level levels)
  ready_paths level levels h = elim (rels_at-IsReady plan search base level level levels h) [
    | inl below ↦ absurd (omega arith)
    | inr all ↦ all
  ]

  sets-put_same :
      (level : ℕ) (qs : List (RelOptInfo P)) (levels : JoinRelLevel P)
      → sets level (put level qs levels) ≡ intermediates qs
  sets-put_same level qs levels =
      let e : (level == level) ≡ true = ground arith in
      sets_at-put plan search base keeps level level qs levels ∙ rw e refl

  sets-put_one :
      (level : ℕ) (qs : List (RelOptInfo P)) (levels : JoinRelLevel P)
      → 2 ≤ level
      → sets 1 (put level qs levels) ≡ sets 1 levels
  sets-put_one level qs levels low =
      let e : (level == 1) ≡ false = ground arith in
      sets_at-put plan search base keeps level 1 qs levels ∙ rw e refl

  next_IsBuilt :
      (level : ℕ) (levels : JoinRelLevel P) (qs : List (RelOptInfo P))
      → 2 ≤ level
      → level ≤ length base
      → IsBuilt level levels
      → intermediates qs
        ≡ intermediates (rels_at plan search level (join_search_one_level plan search level levels))
      → IsBuilt (suc level) (put level qs (join_search_one_level plan search level levels))
  next_IsBuilt level levels qs low high b e =
      let joined = join_search_one_level plan search level levels in
      let right = join_search_one_level-AreLevels plan search base keeps level levels b.right in
      let before : suc level - 1 ≡ level = omega arith in
      record {
        right =
            put-AreLevels plan search base level qs joined
              (subst (λ xs. All (IsAt search base level) xs × Distinct xs) (sym e)
                (rels_at-IsLevel plan search base level joined right))
              right;
        ready =
            put-AreReady level qs joined
              (join_search_one_level-AreReady plan search adds base level level levels b.ready);
        singles_in = λ t m. subst (IsIn (t ∷ [])) (sym (sets-put_one level qs joined low)) (
            join_search_one_level-IsIn plan search base keeps level levels 1 (t ∷ [])
              (b.singles_in t m));
        reached =
            subst (λ n. IsSome (sets n (put level qs joined))) (sym before)
              (subst IsSome (sym (sets-put_same level qs joined ∙ e))
                (one_level_reached level levels low high b));
      }

  next_round :
      (level count : ℕ) (levels : JoinRelLevel P) (rels : Result (List (RelOptInfo P)))
      → 2 ≤ level
      → level ≤ length base
      → IsBuilt level levels
      → Returns
          (λ qs.
            intermediates qs
            ≡ intermediates
                (rels_at plan search level (join_search_one_level plan search level levels)))
          rels
      → ((next : JoinRelLevel P)
          → IsBuilt (suc level) next
          → Returns
              (IsBuilt (suc level + count))
              (search_levels plan search (suc level) count next))
      → Returns (IsBuilt (suc level + count)) (
          rels >>= λ qs.
          search_levels plan search
            (suc level)
            count
            (put level qs (join_search_one_level plan search level levels)))
  next_round level count levels (err x) low high b h go = h
  next_round level count levels (ok qs) low high b h go =
      go _ (next_IsBuilt level levels qs low high b h)

  pub search_levels-Returns :
      (level count : ℕ) (levels : JoinRelLevel P)
      → 2 ≤ level
      → level + count ≤ length base + 1
      → IsBuilt level levels
      → Returns (IsBuilt (level + count)) (search_levels plan search level count levels)
  unfolding search_levels
  search_levels-Returns level zero levels low high b =
      let e : level ≡ level + 0 = omega arith in subst (λ n. IsBuilt n levels) e b
  search_levels-Returns level (suc count) levels low high b =
      let joined = join_search_one_level plan search level levels in
      let e : suc level + count ≡ level + suc count = omega arith in
      subst (λ n. Returns (IsBuilt n) (search_levels plan search level (suc count) levels)) e
        (next_round level count levels (finish_level plan search (rels_at plan search level joined))
          low (omega arith) b
          (finish_level-Returns plan search gathers paths (rels_at plan search level joined) (
            ready_paths level joined
              (join_search_one_level-AreReady plan search adds base level level levels b.ready)))
          (λ next built.
            search_levels-Returns (suc level) count next (omega arith) (omega arith) built))
