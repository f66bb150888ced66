-- ===== src/DynProg/Search/Levels.antt =====
-- The invariant of the join search of postbound/opt/_dynprog.py: what stands at a level.
use post_bound.Base.{
  Bool, true, false, ◌≡◌, refl, arith, Key, List, [], ◌∷◌, none, some, ℕ, zero, suc, ◌-◌, ◌/◌, ltb,
  ◌==◌, length, set_key, number_key, get, put, inter, union, mem, insert, Distinct, insert-Distinct,
  union-Distinct, All, All-append, map, Bool-cases, Option-cases, inl, inr, sym, ◌∙◌, subst,
  Entries, put-Entries, get-Entries,
}
use post_bound.Core.Table.{TableReference, table_key}
use post_bound.DynProg.Paths.{Plan, RelOptInfo}
use post_bound.DynProg.Search.{
  Search, JoinRelLevel, rels_at, new_rel, build_join_rel, join_pair, join_inner, join_outer,
  join_bushy, join_search_one_level,
}

-- The sets of tables that can be joined without a cross product, by joins of disjoint parts.
pub data Joined (base : List TableReference)
    (joins_between : List TableReference → List TableReference → Bool)
    : List TableReference → Type 0 where
  table : (t : TableReference) → mem t base ≡ true → Joined base joins_between (t ∷ [])
  join :
      (xs ys : List TableReference)
      → Joined base joins_between xs
      → Joined base joins_between ys
      → length (inter xs ys) ≡ 0
      → joins_between xs ys ≡ true
      → Joined base joins_between (union xs ys)

module _ {P : Type 0} where
  abbrev pub intermediates : List (RelOptInfo P) → List (List TableReference)
  intermediates rels = map (λ (rel : RelOptInfo P). rel.intermediate) rels

module _ {P : Type 0} (search : Search P) (base : List TableReference) where
  open search use {joins_between, add_paths_to_joinrel}

  -- What stands at a level: a set of that many tables, joined without cross products.
  pub record IsAt (level : ℕ) (tables : List TableReference) : Type 0 where
    pub size : length tables ≡ level
    pub distinct : Distinct tables
    pub joined : Joined base joins_between tables

  -- No two relations of a level are for the same tables.
  abbrev pub IsLevel : ℕ → List (RelOptInfo P) → Type 0
  IsLevel level rels = All (IsAt level) (intermediates rels) × Distinct (intermediates rels)

  abbrev pub AreLevels : JoinRelLevel P → Type 0
  AreLevels levels = Entries IsLevel levels

  -- The construction of paths leaves the tables of a relation alone.
  abbrev pub KeepsTables : Type 0
  KeepsTables =
      (rel outer inner : RelOptInfo P)
      → (add_paths_to_joinrel rel outer inner).intermediate ≡ rel.intermediate

  IsLevel-stable :
      (a b : ℕ) (rels : List (RelOptInfo P)) → (a == b) ≡ true → IsLevel b rels → IsLevel a rels
  IsLevel-stable a b rels h p = let e : b ≡ a = ground arith in subst (λ n. IsLevel n rels) e p

module _ {E P : Type 0} ⦃key : Key E⦄ (plan : Plan E P) (search : Search P)
    (base : List TableReference) where
  open search use {joins_between, add_paths_to_joinrel}

  pub rels_at-none :
      (n : ℕ) (levels : JoinRelLevel P) → get n levels ≡ none → rels_at plan search n levels ≡ []
  unfolding rels_at
  rels_at-none n levels h = rw (h, rels_at) refl

  pub rels_at-some :
      (n : ℕ) (rels : List (RelOptInfo P)) (levels : JoinRelLevel P)
      → get n levels ≡ some rels
      → rels_at plan search n levels ≡ rels
  unfolding rels_at
  rels_at-some n rels levels h = rw (h, rels_at) refl

  pub rels_at-IsLevel :
      (n : ℕ) (levels : JoinRelLevel P)
      → AreLevels search base levels
      → IsLevel search base n (rels_at plan search n levels)
  rels_at-IsLevel n levels h = elim (Option-cases (get n levels)) [
    | inl gone ↦ subst (IsLevel search base n) (sym (rels_at-none n levels gone)) (tt, tt)
    | inr (rels, found) ↦
        subst (IsLevel search base n) (sym (rels_at-some n rels levels found))
          (get-Entries (IsLevel search base) (IsLevel-stable search base) n rels levels h found)
  ]

  pub put-AreLevels :
      (n : ℕ) (rels : List (RelOptInfo P)) (levels : JoinRelLevel P)
      → IsLevel search base n rels
      → AreLevels search base levels
      → AreLevels search base (put n rels levels)
  put-AreLevels n rels levels p h =
      put-Entries (IsLevel search base) (IsLevel-stable search base) n rels levels p h

  insert-All :
      (Q : List TableReference → Type 0) (ts : List TableReference)
      (xs : List (List TableReference))
      → Q ts
      → All Q xs
      → All Q (insert ts xs)
  unfolding insert
  insert-All Q ts xs q h = elim (Bool-cases (mem ts xs)) [
    | inl old ↦ rw old h
    | inr new ↦ rw new (All-append Q xs (ts ∷ []) h (q, tt))
  ]

  -- A relation is built for a set of tables unless there is one.
  pub intermediates-build :
      (ts : List TableReference) (change : RelOptInfo P → RelOptInfo P) (rels : List (RelOptInfo P))
      → ((rel : RelOptInfo P) → (change rel).intermediate ≡ rel.intermediate)
      → intermediates (build_join_rel plan search ts change rels) ≡ insert ts (intermediates rels)
  unfolding build_join_rel insert mem
  intermediates-build ts change [] keeps = rw (keeps (new_rel plan search ts)) refl
  intermediates-build ts change (rel ∷ rels) keeps =
      ground (arith, keeps rel, intermediates-build ts change rels keeps)

  module _ (keeps : KeepsTables search base) where
    build-IsLevel :
        (ts : List TableReference) (change : RelOptInfo P → RelOptInfo P)
        (rels : List (RelOptInfo P))
        → ((rel : RelOptInfo P) → (change rel).intermediate ≡ rel.intermediate)
        → IsAt search base (length ts) ts
        → IsLevel search base (length ts) rels
        → IsLevel search base (length ts) (build_join_rel plan search ts change rels)
    build-IsLevel ts change rels same_tables at (all, distinct) =
        subst (λ xs. All (IsAt search base (length ts)) xs × Distinct xs)
          (sym (intermediates-build ts change rels same_tables))
          (
            insert-All (IsAt search base (length ts)) ts (intermediates rels) at all,
            insert-Distinct ts (intermediates rels) distinct,
          )

    joined-IsAt :
        (a b : ℕ) (xs ys : List TableReference)
        → IsAt search base a xs
        → IsAt search base b ys
        → ltb 0 (length (inter xs ys)) ≡ false
        → joins_between xs ys ≡ true
        → IsAt search base (length (union xs ys)) (union xs ys)
    joined-IsAt a b xs ys p q apart between = record {
      size = refl;
      distinct = union-Distinct xs ys p.distinct;
      joined = join xs ys p.joined q.joined (ground arith) between;
    }

    join_pair-AreLevels :
        (a b : ℕ) (rel1 rel2 : RelOptInfo P) (levels : JoinRelLevel P)
        → IsAt search base a rel1.intermediate
        → IsAt search base b rel2.intermediate
        → AreLevels search base levels
        → AreLevels search base (join_pair plan search rel1 rel2 levels)
    unfolding join_pair
    join_pair-AreLevels a b rel1 rel2 levels p q h =
        elim (Bool-cases (ltb 0 (length (inter rel1.intermediate rel2.intermediate)))) [
          | inl overlap ↦ rw overlap h
          | inr apart ↦ elim (Bool-cases (joins_between rel1.intermediate rel2.intermediate)) [
            | inr crossing ↦ rw (apart, crossing) h
            | inl between ↦
                let ts = union rel1.intermediate rel2.intermediate in
                let at = joined-IsAt a b rel1.intermediate rel2.intermediate p q apart between in
                rw (apart, between)
                  (put-AreLevels (length ts) _ levels
                    (build-IsLevel ts _ (rels_at plan search (length ts) levels)
                      (λ rel.
                        keeps (add_paths_to_joinrel rel rel1 rel2) rel2 rel1 ∙ keeps rel rel1 rel2)
                      at (rels_at-IsLevel (length ts) levels h))
                    h)
          ]
        ]

    join_inner-AreLevels :
        (a b : ℕ) (rel1 : RelOptInfo P) (rels : List (RelOptInfo P)) (levels : JoinRelLevel P)
        → IsAt search base a rel1.intermediate
        → All (IsAt search base b) (intermediates rels)
        → AreLevels search base levels
        → AreLevels search base (join_inner plan search rel1 rels levels)
    unfolding join_inner
    join_inner-AreLevels a b rel1 [] levels p q h = h
    join_inner-AreLevels a b rel1 (rel2 ∷ rels) levels p (q, qs) h =
        join_inner-AreLevels a b rel1 rels (join_pair plan search rel1 rel2 levels) p qs
          (join_pair-AreLevels a b rel1 rel2 levels p q h)

    join_outer-AreLevels :
        (a b : ℕ) (rels : List (RelOptInfo P)) (levels : JoinRelLevel P)
        → All (IsAt search base a) (intermediates rels)
        → AreLevels search base levels
        → AreLevels search base (join_outer plan search b rels levels)
    unfolding join_outer
    join_outer-AreLevels a b [] levels ps h = h
    join_outer-AreLevels a b (rel1 ∷ rels) levels (p, ps) h =
        join_outer-AreLevels a b rels
          (join_inner plan search rel1 (rels_at plan search b levels) levels) ps
          (join_inner-AreLevels a b rel1 (rels_at plan search b levels) levels p
            (rels_at-IsLevel b levels h).0 h)

    join_bushy-AreLevels :
        (level outer count : ℕ) (levels : JoinRelLevel P)
        → AreLevels search base levels
        → AreLevels search base (join_bushy plan search level outer count levels)
    unfolding join_bushy
    join_bushy-AreLevels level outer zero levels h = h
    join_bushy-AreLevels level outer (suc count) levels h =
        join_bushy-AreLevels level (suc outer) count _ (elim (Bool-cases (ltb (level - outer) 2)) [
          | inl small ↦ rw small h
          | inr large ↦ rw large (
              join_outer-AreLevels outer (level - outer) (rels_at plan search outer levels) levels
                (rels_at-IsLevel outer levels h).0 h)
        ])

    -- A level of the search keeps the invariant.
    pub join_search_one_level-AreLevels :
        (level : ℕ) (levels : JoinRelLevel P)
        → AreLevels search base levels
        → AreLevels search base (join_search_one_level plan search level levels)
    unfolding join_search_one_level
    join_search_one_level-AreLevels level levels h =
        join_bushy-AreLevels level 2 (level / 2 - 1) _ (
          join_outer-AreLevels (level - 1) 1 (rels_at plan search (level - 1) levels) levels
            (rels_at-IsLevel (level - 1) levels h).0 h)
