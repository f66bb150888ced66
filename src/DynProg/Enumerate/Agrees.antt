-- ===== src/DynProg/Enumerate/Agrees.antt =====
-- The join search of postbound/opt/_dynprog.py with and without errors.
use post_bound.Base.{
  ◌≡◌, refl, Key, List, [], ◌∷◌, ℕ, zero, suc, ◌-◌, ◌/◌, ltb, Result, ok, err, ◌>>=◌, OnOk, length,
  same, set_key, number_key, put, inter, union, for_each, Bool-cases, inl, inr, sym, subst,
}
use post_bound.Core.Table.{TableReference, table_key}
use post_bound.DynProg.Paths.{Plan, RelOptInfo, set_cheapest}
use post_bound.DynProg.Search.{
  JoinRelLevel, rels_at, new_rel, the_only, build_join_rel, join_pair, join_inner, join_outer,
  join_bushy, join_search_one_level, finish_level, search_levels, standard_join_search,
}
use post_bound.DynProg.Enumerate.{
  Construction, returned, quiet, build_rel, both_ways, join_rels, join_all, join_sizes,
  search_one_level, finish_rels, search_all, search_joins,
}

-- The call raises, or it returns this value.
abbrev pub Gives : {A : Type 0} → A → Result A → Type 0
Gives a r = OnOk (λ b. b ≡ a) r

Gives-bind :
    {A B : Type 0} (a : A) (b : B) (r : Result A) (f : A → Result B)
    → Gives a r
    → Gives b (f a)
    → Gives b (r >>= f)
Gives-bind a b (ok x) f e g = subst (λ y. Gives b (f y)) (sym e) g
Gives-bind a b (err e) f h g = tt

-- The call returns what is returned, or it raises.
Gives-returned : {A : Type 0} (a : A) (r : Result A) → Gives (returned a r) r
Gives-returned a (ok b) = refl
Gives-returned a (err e) = tt

-- The call raises, or the other call returns the same.
abbrev pub Follows : {A : Type 0} → Result A → Result A → Type 0
Follows r q = OnOk (λ a. q ≡ ok a) r

Follows-refl : {A : Type 0} (r : Result A) → Follows r r
Follows-refl (ok a) = refl
Follows-refl (err e) = tt

Follows-bind :
    {A B : Type 0} (r q : Result A) (f g : A → Result B)
    → Follows r q
    → ((a : A) → Follows (f a) (g a))
    → Follows (r >>= f) (q >>= g)
Follows-bind (ok a) q f g e h = subst (λ y. Follows (f a) (y >>= g)) (sym e) (h a)
Follows-bind (err e) q f g t h = tt

Gives-Follows :
    {A B : Type 0} (a : A) (r : Result A) (f : A → Result B) (q : Result B)
    → Gives a r
    → Follows (f a) q
    → Follows (r >>= f) q
Gives-Follows a (ok x) f q e h = subst (λ y. Follows (f y) q) (sym e) h
Gives-Follows a (err e) f q t h = tt

module _ {E P : Type 0} ⦃key : Key E⦄ (plan : Plan E P) (c : Construction P) where
  open c use {add_paths, gather_paths, joins_between}

  abbrev both : RelOptInfo P → RelOptInfo P → RelOptInfo P → RelOptInfo P
  both rel1 rel2 rel =
      let first = returned rel (add_paths rel rel1 rel2) in
      returned first (add_paths first rel2 rel1)

  both_ways-both :
      (rel1 rel2 rel : RelOptInfo P) → Gives (both rel1 rel2 rel) (both_ways plan c rel1 rel2 rel)
  both_ways-both rel1 rel2 rel =
      let first = returned rel (add_paths rel rel1 rel2) in
      Gives-bind first (both rel1 rel2 rel) (add_paths rel rel1 rel2) _
        (Gives-returned rel (add_paths rel rel1 rel2))
        (Gives-returned first (add_paths first rel2 rel1))

  build_rel-build_join_rel :
      (ts : List TableReference) (change : RelOptInfo P → Result (RelOptInfo P))
      (f : RelOptInfo P → RelOptInfo P) (rels : List (RelOptInfo P))
      → ((rel : RelOptInfo P) → Gives (f rel) (change rel))
      → Gives (build_join_rel plan (quiet c) ts f rels) (build_rel plan c ts change rels)
  unfolding build_rel build_join_rel
  build_rel-build_join_rel ts change f [] h =
      let new = new_rel plan (quiet c) ts in
      Gives-bind (f new) (f new ∷ []) (change new) _ (h new) refl
  build_rel-build_join_rel ts change f (rel ∷ rels) h =
      elim (Bool-cases (same rel.intermediate ts)) [
        | inl found ↦ rw found (Gives-bind (f rel) (f rel ∷ rels) (change rel) _ (h rel) refl)
        | inr other ↦ rw other (
            Gives-bind (build_join_rel plan (quiet c) ts f rels)
              (rel ∷ build_join_rel plan (quiet c) ts f rels) (build_rel plan c ts change rels) _
              (build_rel-build_join_rel ts change f rels h) refl)
      ]

  join_rels-join_pair :
      (rel1 rel2 : RelOptInfo P) (levels : JoinRelLevel P)
      → Gives (join_pair plan (quiet c) rel1 rel2 levels) (join_rels plan c rel1 rel2 levels)
  unfolding join_rels join_pair
  join_rels-join_pair rel1 rel2 levels =
      elim (Bool-cases (ltb 0 (length (inter rel1.intermediate rel2.intermediate)))) [
        | inl overlap ↦ rw overlap refl
        | inr apart ↦ elim (Bool-cases (joins_between rel1.intermediate rel2.intermediate)) [
          | inr crossing ↦ simp apart (simp crossing refl)
          | inl between ↦
              let ts = union rel1.intermediate rel2.intermediate in
              let rels = rels_at plan (quiet c) (length ts) levels in
              let built = build_join_rel plan (quiet c) ts (both rel1 rel2) rels in
              simp apart (
                simp between (
                  Gives-bind built (put (length ts) built levels)
                    (build_rel plan c ts (both_ways plan c rel1 rel2) rels) _
                    (build_rel-build_join_rel ts (both_ways plan c rel1 rel2) (both rel1 rel2) rels
                      (both_ways-both rel1 rel2))
                    refl))
        ]
      ]

  inner_loop :
      (rel1 : RelOptInfo P) (rels : List (RelOptInfo P)) (levels : JoinRelLevel P)
      → Gives
          (join_inner plan (quiet c) rel1 rels levels)
          (for_each (join_rels plan c rel1) rels levels)
  unfolding join_inner for_each
  inner_loop rel1 [] levels = refl
  inner_loop rel1 (rel2 ∷ rels) levels =
      let next = join_pair plan (quiet c) rel1 rel2 levels in
      Gives-bind next (join_inner plan (quiet c) rel1 rels next) (join_rels plan c rel1 rel2 levels)
        _ (join_rels-join_pair rel1 rel2 levels) (inner_loop rel1 rels next)

  join_all-join_outer :
      (size : ℕ) (rels : List (RelOptInfo P)) (levels : JoinRelLevel P)
      → Gives (join_outer plan (quiet c) size rels levels) (join_all plan c size rels levels)
  unfolding join_outer join_all for_each
  join_all-join_outer size [] levels = refl
  join_all-join_outer size (rel1 ∷ rels) levels =
      let inner = rels_at plan (quiet c) size levels in
      let next = join_inner plan (quiet c) rel1 inner levels in
      Gives-bind next (join_outer plan (quiet c) size rels next)
        (for_each (join_rels plan c rel1) inner levels) _ (inner_loop rel1 inner levels)
        (join_all-join_outer size rels next)

  join_sizes-join_bushy :
      (level outer_size count : ℕ) (levels : JoinRelLevel P)
      → Gives
          (join_bushy plan (quiet c) level outer_size count levels)
          (join_sizes plan c level outer_size count levels)
  unfolding join_bushy join_sizes
  join_sizes-join_bushy level outer_size zero levels = refl
  join_sizes-join_bushy level outer_size (suc count) levels =
      elim (Bool-cases (ltb (level - outer_size) 2)) [
        | inl small ↦ simp small (join_sizes-join_bushy level (suc outer_size) count levels)
        | inr large ↦
            let rels = rels_at plan (quiet c) outer_size levels in
            let next = join_outer plan (quiet c) (level - outer_size) rels levels in
            simp large (
              Gives-bind next (join_bushy plan (quiet c) level (suc outer_size) count next)
                (join_all plan c (level - outer_size) rels levels) _
                (join_all-join_outer (level - outer_size) rels levels)
                (join_sizes-join_bushy level (suc outer_size) count next))
      ]

  level_agrees :
      (level : ℕ) (levels : JoinRelLevel P)
      → Gives
          (join_search_one_level plan (quiet c) level levels)
          (search_one_level plan c level levels)
  unfolding join_search_one_level search_one_level
  level_agrees level levels =
      let rels = rels_at plan (quiet c) (level - 1) levels in
      let next = join_outer plan (quiet c) 1 rels levels in
      Gives-bind next _ (join_all plan c 1 rels levels) _ (join_all-join_outer 1 rels levels)
        (join_sizes-join_bushy level 2 (level / 2 - 1) next)

  finish_rels-finish_level :
      (rels : List (RelOptInfo P))
      → Follows (finish_rels plan c rels) (finish_level plan (quiet c) rels)
  unfolding finish_rels finish_level
  finish_rels-finish_level [] = refl
  finish_rels-finish_level (rel ∷ rels) =
      let gathered = returned rel (gather_paths rel) in
      Gives-Follows gathered (gather_paths rel) _ _ (Gives-returned rel (gather_paths rel)) (
        Follows-bind (set_cheapest plan gathered) (set_cheapest plan gathered) _ _
          (Follows-refl (set_cheapest plan gathered))
          (λ r.
            Follows-bind (finish_rels plan c rels) (finish_level plan (quiet c) rels) _ _
              (finish_rels-finish_level rels) (λ rs. refl)))

  search_all-search_levels :
      (level count : ℕ) (levels : JoinRelLevel P)
      → Follows
          (search_all plan c level count levels)
          (search_levels plan (quiet c) level count levels)
  unfolding search_all search_levels
  search_all-search_levels level zero levels = refl
  search_all-search_levels level (suc count) levels =
      let joined = join_search_one_level plan (quiet c) level levels in
      let rels = rels_at plan (quiet c) level joined in
      Gives-Follows joined (search_one_level plan c level levels) _ _ (level_agrees level levels) (
        Follows-bind (finish_rels plan c rels) (finish_level plan (quiet c) rels) _ _
          (finish_rels-finish_level rels)
          (λ rs. search_all-search_levels (suc level) count (put level rs joined)))

  -- Where the search with a construction of paths that may raise returns, the search whose calls
  -- change nothing where they would raise returns the same relation.
  pub search_joins-standard_join_search :
      (initial_rels : List (RelOptInfo P))
      → Follows
          (search_joins plan c initial_rels)
          (standard_join_search plan (quiet c) initial_rels)
  unfolding search_joins standard_join_search
  search_joins-standard_join_search initial_rels =
      let n = length initial_rels in
      Follows-bind (search_all plan c 2 (n - 1) ((1, initial_rels) ∷ []))
        (search_levels plan (quiet c) 2 (n - 1) ((1, initial_rels) ∷ [])) _ _
        (search_all-search_levels 2 (n - 1) ((1, initial_rels) ∷ []))
        (λ levels. Follows-refl (the_only plan (quiet c) (rels_at plan (quiet c) n levels)))
