-- ===== src/DynProg/Search/Growth.antt =====
-- The growth of the levels in the join search of postbound/opt/_dynprog.py.
use post_bound.Base.{
  true, false, ◌≡◌, refl, arith, Key, List, [], ◌∷◌, ℕ, ltb, ◌==◌, if◌then◌else◌, length, set_key,
  number_key, put, get-put, inter, union, mem, insert, Any, Any-append_left, Bool-cases, inl, inr,
  sym, ◌∙◌, subst,
}
use post_bound.Core.Table.{TableReference, table_key}
use post_bound.DynProg.Paths.{Plan, RelOptInfo}
use post_bound.DynProg.Search.{
  Search, JoinRelLevel, rels_at, build_join_rel, join_pair, join_inner, join_outer,
}
use post_bound.DynProg.Search.Levels.{intermediates, KeepsTables, intermediates-build}

-- A set of tables stands in a list of sets.
abbrev pub IsIn : List TableReference → List (List TableReference) → Type 0
IsIn xs ts = Any (λ ys. ys ≡ xs) ts

insert-IsIn :
    (xs ts : List TableReference) (all : List (List TableReference))
    → IsIn xs all
    → IsIn xs (insert ts all)
unfolding insert
insert-IsIn xs ts all h = elim (Bool-cases (mem ts all)) [
  | inl old ↦ rw old h
  | inr new ↦ rw new (Any-append_left _ all (ts ∷ []) h)
]

-- A list of sets is not empty.
abbrev pub IsSome : List (List TableReference) → Type 0
IsSome ts = (xs : List TableReference) × IsIn xs ts

insert-IsSome :
    (ts : List TableReference) (all : List (List TableReference)) → IsSome (insert ts all)
unfolding insert mem
insert-IsSome ts [] = (ts, inl refl)
insert-IsSome ts (xs ∷ all) = (xs, insert-IsIn xs ts (xs ∷ all) (inl refl))

module _ {E P : Type 0} ⦃key : Key E⦄ (plan : Plan E P) (search : Search P)
    (base : List TableReference) (keeps : KeepsTables search base) where
  open search use {joins_between, add_paths_to_joinrel}

  -- The sets of tables of a level.
  abbrev pub sets_at : ℕ → JoinRelLevel P → List (List TableReference)
  sets_at n levels = intermediates (rels_at plan search n levels)

  rels_at-put :
      (m n : ℕ) (rels : List (RelOptInfo P)) (levels : JoinRelLevel P)
      → rels_at plan search n (put m rels levels)
        ≡ (if m == n then rels else rels_at plan search n levels)
  unfolding rels_at
  rels_at-put m n rels levels = ground (arith, get-put m n rels levels)

  -- The change that a pair makes to the relation of its join keeps the tables.
  pair_keeps :
      (rel1 rel2 rel : RelOptInfo P)
      → (add_paths_to_joinrel (add_paths_to_joinrel rel rel1 rel2) rel2 rel1).intermediate
        ≡ rel.intermediate
  pair_keeps rel1 rel2 rel =
      keeps (add_paths_to_joinrel rel rel1 rel2) rel2 rel1 ∙ keeps rel rel1 rel2

  pub sets_at-put :
      (m n : ℕ) (rels : List (RelOptInfo P)) (levels : JoinRelLevel P)
      → sets_at n (put m rels levels) ≡ (if m == n then intermediates rels else sets_at n levels)
  sets_at-put m n rels levels = elim (Bool-cases (m == n)) [
    | inl here ↦ rw (rels_at-put m n rels levels, here) refl
    | inr other ↦ rw (rels_at-put m n rels levels, other) refl
  ]

  -- The levels after a relation for `ts` was built.
  abbrev built :
      List TableReference → (RelOptInfo P → RelOptInfo P) → JoinRelLevel P → JoinRelLevel P
  built ts change levels =
      put (length ts)
        (build_join_rel plan search ts change (rels_at plan search (length ts) levels)) levels

  sets_at-built :
      (ts : List TableReference) (change : RelOptInfo P → RelOptInfo P) (levels : JoinRelLevel P)
      (n : ℕ)
      → ((rel : RelOptInfo P) → (change rel).intermediate ≡ rel.intermediate)
      → sets_at n (built ts change levels)
        ≡ (if length ts == n then insert ts (sets_at (length ts) levels) else sets_at n levels)
  sets_at-built ts change levels n same_tables =
      rw
        (
          sets_at-put (length ts) n
              (build_join_rel plan search ts change (rels_at plan search (length ts) levels))
              levels,
          intermediates-build plan search base ts change (rels_at plan search (length ts) levels)
              same_tables,
        )
        refl

  built-IsIn :
      (ts : List TableReference) (change : RelOptInfo P → RelOptInfo P) (levels : JoinRelLevel P)
      (n : ℕ) (xs : List TableReference)
      → ((rel : RelOptInfo P) → (change rel).intermediate ≡ rel.intermediate)
      → IsIn xs (sets_at n levels)
      → IsIn xs (sets_at n (built ts change levels))
  built-IsIn ts change levels n xs same_tables h =
      subst (IsIn xs) (sym (sets_at-built ts change levels n same_tables))
        (elim (Bool-cases (length ts == n)) [
          | inl here ↦
              let e : n ≡ length ts = ground arith in
              rw here (insert-IsIn xs ts _ (subst (λ m. IsIn xs (sets_at m levels)) e h))
          | inr other ↦ rw other h
        ])

  built-IsSome :
      (ts : List TableReference) (change : RelOptInfo P → RelOptInfo P) (levels : JoinRelLevel P)
      → ((rel : RelOptInfo P) → (change rel).intermediate ≡ rel.intermediate)
      → IsSome (sets_at (length ts) (built ts change levels))
  built-IsSome ts change levels same_tables =
      let e : (length ts == length ts) ≡ true = ground arith in
      subst IsSome (sym (sets_at-built ts change levels (length ts) same_tables))
        (rw e (insert-IsSome ts _))

  -- Relations are joined.
  abbrev pub Joins : List TableReference → List TableReference → Type 0
  Joins xs ys = (ltb 0 (length (inter xs ys)) ≡ false) × (joins_between xs ys ≡ true)

  join_pair-IsIn :
      (rel1 rel2 : RelOptInfo P) (levels : JoinRelLevel P) (n : ℕ) (xs : List TableReference)
      → IsIn xs (sets_at n levels)
      → IsIn xs (sets_at n (join_pair plan search rel1 rel2 levels))
  unfolding join_pair
  join_pair-IsIn rel1 rel2 levels n xs h =
      elim (Bool-cases (ltb 0 (length (inter rel1.intermediate rel2.intermediate)))) [
        | inl overlap ↦ rw overlap h
        | inr apart ↦ elim (Bool-cases (joins_between rel1.intermediate rel2.intermediate)) [
          | inr crossing ↦ rw (apart, crossing) h
          | inl between ↦
              rw (apart, between)
                (built-IsIn (union rel1.intermediate rel2.intermediate) _ levels n xs
                  (pair_keeps rel1 rel2) h)
        ]
      ]

  pub join_pair-IsSome :
      (rel1 rel2 : RelOptInfo P) (levels : JoinRelLevel P)
      → Joins rel1.intermediate rel2.intermediate
      → IsSome (
          sets_at
            (length (union rel1.intermediate rel2.intermediate))
            (join_pair plan search rel1 rel2 levels))
  unfolding join_pair
  join_pair-IsSome rel1 rel2 levels (apart, between) =
      rw (apart, between)
        (built-IsSome (union rel1.intermediate rel2.intermediate) _ levels (pair_keeps rel1 rel2))

  pub join_inner-IsIn :
      (rel1 : RelOptInfo P) (rels : List (RelOptInfo P)) (levels : JoinRelLevel P) (n : ℕ)
      (xs : List TableReference)
      → IsIn xs (sets_at n levels)
      → IsIn xs (sets_at n (join_inner plan search rel1 rels levels))
  unfolding join_inner
  join_inner-IsIn rel1 [] levels n xs h = h
  join_inner-IsIn rel1 (rel2 ∷ rels) levels n xs h =
      join_inner-IsIn rel1 rels _ n xs (join_pair-IsIn rel1 rel2 levels n xs h)

  pub join_outer-IsIn :
      (size : ℕ) (rels : List (RelOptInfo P)) (levels : JoinRelLevel P) (n : ℕ)
      (xs : List TableReference)
      → IsIn xs (sets_at n levels)
      → IsIn xs (sets_at n (join_outer plan search size rels levels))
  unfolding join_outer
  join_outer-IsIn size [] levels n xs h = h
  join_outer-IsIn size (rel1 ∷ rels) levels n xs h =
      join_outer-IsIn size rels _ n xs
        (join_inner-IsIn rel1 (rels_at plan search size levels) levels n xs h)
