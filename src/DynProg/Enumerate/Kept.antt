-- ===== src/DynProg/Enumerate/Kept.antt =====
-- What the join search of postbound/opt/_dynprog.py keeps of every relation.
use post_bound.Base.{
  Bool, true, ◌≡◌, arith, Key, List, [], ◌∷◌, ℕ, zero, suc, ◌-◌, ◌/◌, ltb, Result, ok, OnOk,
  OnOk-bind, OnOk-map, length, same, set_key, number_key, get, put, inter, union, mem, mem-union,
  mem_of_set_eq, for_each-All, All, Entries, put-Entries, get-Entries, Bool-cases, Option-cases,
  inl, inr, sym, ◌∙◌, ap, subst, ◌||◌, if◌then◌else◌,
}
use post_bound.Core.Table.{TableReference, table_key}
use post_bound.DynProg.Paths.{Plan, RelOptInfo, set_cheapest}
use post_bound.DynProg.Search.{JoinRelLevel, rels_at, new_rel, the_only}
use post_bound.DynProg.Search.Levels.{rels_at-none, rels_at-some}
use post_bound.DynProg.Enumerate.{
  Construction, quiet, build_rel, both_ways, join_rels, join_all, join_sizes, search_one_level,
  finish_rels, search_all, search_joins,
}

or_comm : (a b : Bool) → (a || b) ≡ (b || a)
or_comm a b = ground arith

module _ {E P : Type 0} ⦃key : Key E⦄ (plan : Plan E P) (c : Construction P)
    (Kept : RelOptInfo P → Type 0) where
  open c use {add_paths, gather_paths, joins_between}

  -- The relation is for the tables of two relations.
  abbrev pub IsUnion : RelOptInfo P → RelOptInfo P → RelOptInfo P → Type 0
  IsUnion rel a b =
      (k : TableReference) → mem k rel.intermediate ≡ (mem k a.intermediate || mem k b.intermediate)

  -- The operations of the search keep a property of relations.
  pub record AreKept : Type 0 where
    pub new : (ts : List TableReference) → Kept (new_rel plan (quiet c) ts)
    pub adds :
        (rel outer inner : RelOptInfo P)
        → IsUnion rel outer inner
        → Kept outer
        → Kept inner
        → Kept rel
        → OnOk
            (λ (r : RelOptInfo P). (r.intermediate ≡ rel.intermediate) × Kept r)
            (add_paths rel outer inner)
    pub gathers : (rel : RelOptInfo P) → Kept rel → OnOk Kept (gather_paths rel)
    pub chooses : (rel : RelOptInfo P) → Kept rel → OnOk Kept (set_cheapest plan rel)

  abbrev pub AllKept : JoinRelLevel P → Type 0
  AllKept levels = Entries (λ n rels. All Kept rels) levels

module _ {E P : Type 0} ⦃key : Key E⦄ (plan : Plan E P) (c : Construction P)
    (Kept : RelOptInfo P → Type 0) (kept : AreKept plan c Kept) where
  open c use {add_paths, gather_paths, joins_between}

  either_way :
      (rel1 rel2 rel : RelOptInfo P)
      → IsUnion plan c Kept rel rel1 rel2
      → Kept rel1
      → Kept rel2
      → Kept rel
      → OnOk Kept (both_ways plan c rel1 rel2 rel)
  either_way rel1 rel2 rel u h1 h2 h =
      OnOk-bind (λ (r : RelOptInfo P). (r.intermediate ≡ rel.intermediate) × Kept r) Kept
        (add_paths rel rel1 rel2) _ (kept.adds rel rel1 rel2 u h1 h2 h)
        (λ r (e, g).
          OnOk-map (λ (q : RelOptInfo P). (q.intermediate ≡ r.intermediate) × Kept q) Kept
            (add_paths r rel2 rel1) (λ q b. b.1)
            (kept.adds r rel2 rel1 (λ k. ap (mem k) e ∙ swapped k) h2 h1 g))
    where
      swapped :
          (k : TableReference)
          → mem k rel.intermediate ≡ (mem k rel2.intermediate || mem k rel1.intermediate)
      swapped k = u k ∙ or_comm (mem k rel1.intermediate) (mem k rel2.intermediate)

  build_rel-Kept :
      (ts : List TableReference) (change : RelOptInfo P → Result (RelOptInfo P))
      (rels : List (RelOptInfo P))
      → ((rel : RelOptInfo P) → same rel.intermediate ts ≡ true → Kept rel → OnOk Kept (change rel))
      → All Kept rels
      → OnOk (All Kept) (build_rel plan c ts change rels)
  unfolding build_rel
  build_rel-Kept ts change [] step all =
      let new = new_rel plan (quiet c) ts in
      OnOk-bind Kept (All Kept) (change new) _ (step new (set_key.same_refl ts) (kept.new ts))
        (λ r h. (h, tt))
  build_rel-Kept ts change (rel ∷ rels) step (h, all) =
      elim (Bool-cases (same rel.intermediate ts)) [
        | inl found ↦
            rw found (OnOk-bind Kept (All Kept) (change rel) _ (step rel found h) (λ r g. (g, all)))
        | inr other ↦ rw other (
            OnOk-bind (All Kept) (All Kept) (build_rel plan c ts change rels) _
              (build_rel-Kept ts change rels step all) (λ rs g. (h, g)))
      ]

  rels_at-Kept :
      (n : ℕ) (levels : JoinRelLevel P)
      → AllKept plan c Kept levels
      → All Kept (rels_at plan (quiet c) n levels)
  rels_at-Kept n levels h = elim (Option-cases (get n levels)) [
    | inl gone ↦ subst (All Kept) (sym (rels_at-none plan (quiet c) [] n levels gone)) tt
    | inr (rels, found) ↦
        subst (All Kept) (sym (rels_at-some plan (quiet c) [] n rels levels found))
          (get-Entries (λ m rs. All Kept rs) (λ a b rs e g. g) n rels levels h found)
  ]

  put-Kept :
      (n : ℕ) (rels : List (RelOptInfo P)) (levels : JoinRelLevel P)
      → All Kept rels
      → AllKept plan c Kept levels
      → AllKept plan c Kept (put n rels levels)
  put-Kept n rels levels all h =
      put-Entries (λ m rs. All Kept rs) (λ a b rs e g. g) n rels levels all h

  join_rels-Kept :
      (rel1 rel2 : RelOptInfo P) (levels : JoinRelLevel P)
      → Kept rel1
      → Kept rel2
      → AllKept plan c Kept levels
      → OnOk (AllKept plan c Kept) (join_rels plan c rel1 rel2 levels)
  unfolding join_rels
  join_rels-Kept rel1 rel2 levels h1 h2 h =
      elim (Bool-cases (ltb 0 (length (inter rel1.intermediate rel2.intermediate)))) [
        | inl overlap ↦ rw overlap h
        | inr apart ↦ elim (Bool-cases (joins_between rel1.intermediate rel2.intermediate)) [
          | inr crossing ↦ simp apart (simp crossing h)
          | inl between ↦
              let ts = union rel1.intermediate rel2.intermediate in
              simp apart (
                simp between (
                  OnOk-bind (All Kept) (AllKept plan c Kept)
                    (build_rel plan c ts (both_ways plan c rel1 rel2)
                      (rels_at plan (quiet c) (length ts) levels))
                    _
                    (build_rel-Kept ts (both_ways plan c rel1 rel2)
                      (rels_at plan (quiet c) (length ts) levels)
                      (λ rel e g.
                        either_way rel1 rel2 rel
                          (λ k.
                            mem_of_set_eq k rel.intermediate ts e
                            ∙ mem-union k rel1.intermediate rel2.intermediate)
                          h1 h2 g)
                      (rels_at-Kept (length ts) levels h))
                    (λ rels all. put-Kept (length ts) rels levels all h)))
        ]
      ]

  join_all-Kept :
      (size : ℕ) (rels : List (RelOptInfo P)) (levels : JoinRelLevel P)
      → All Kept rels
      → AllKept plan c Kept levels
      → OnOk (AllKept plan c Kept) (join_all plan c size rels levels)
  unfolding join_all
  join_all-Kept size rels levels all h =
      for_each-All Kept (AllKept plan c Kept) _ rels levels
        (λ rel1 state h1 g.
          for_each-All Kept (AllKept plan c Kept) (join_rels plan c rel1)
            (rels_at plan (quiet c) size state) state
            (λ rel2 next h2 k. join_rels-Kept rel1 rel2 next h1 h2 k) (rels_at-Kept size state g) g)
        all h

  join_sizes-Kept :
      (level outer_size count : ℕ) (levels : JoinRelLevel P)
      → AllKept plan c Kept levels
      → OnOk (AllKept plan c Kept) (join_sizes plan c level outer_size count levels)
  unfolding join_sizes
  join_sizes-Kept level outer_size zero levels h = h
  join_sizes-Kept level outer_size (suc count) levels h =
      OnOk-bind (AllKept plan c Kept) (AllKept plan c Kept)
        (if ltb (level - outer_size) 2
          then ok levels
          else join_all plan c (level - outer_size) (rels_at plan (quiet c) outer_size levels)
              levels)
        _
        (elim (Bool-cases (ltb (level - outer_size) 2)) [
          | inl small ↦ rw small h
          | inr large ↦ rw large (
              join_all-Kept (level - outer_size) (rels_at plan (quiet c) outer_size levels) levels
                (rels_at-Kept outer_size levels h) h)
        ])
        (λ next g. join_sizes-Kept level (suc outer_size) count next g)

  search_one_level-Kept :
      (level : ℕ) (levels : JoinRelLevel P)
      → AllKept plan c Kept levels
      → OnOk (AllKept plan c Kept) (search_one_level plan c level levels)
  unfolding search_one_level
  search_one_level-Kept level levels h =
      OnOk-bind (AllKept plan c Kept) (AllKept plan c Kept)
        (join_all plan c 1 (rels_at plan (quiet c) (level - 1) levels) levels) _
        (join_all-Kept 1 (rels_at plan (quiet c) (level - 1) levels) levels
          (rels_at-Kept (level - 1) levels h) h)
        (λ next g. join_sizes-Kept level 2 (level / 2 - 1) next g)

  finish_rels-Kept :
      (rels : List (RelOptInfo P)) → All Kept rels → OnOk (All Kept) (finish_rels plan c rels)
  unfolding finish_rels
  finish_rels-Kept [] all = tt
  finish_rels-Kept (rel ∷ rels) (h, all) =
      OnOk-bind Kept (All Kept) (gather_paths rel) _ (kept.gathers rel h) (λ gathered g.
        OnOk-bind Kept (All Kept) (set_cheapest plan gathered) _ (kept.chooses gathered g) (λ r k.
          OnOk-bind (All Kept) (All Kept) (finish_rels plan c rels) _ (finish_rels-Kept rels all)
            (λ rs ks. (k, ks))))

  search_all-Kept :
      (level count : ℕ) (levels : JoinRelLevel P)
      → AllKept plan c Kept levels
      → OnOk (AllKept plan c Kept) (search_all plan c level count levels)
  unfolding search_all
  search_all-Kept level zero levels h = h
  search_all-Kept level (suc count) levels h =
      OnOk-bind (AllKept plan c Kept) (AllKept plan c Kept) (search_one_level plan c level levels) _
        (search_one_level-Kept level levels h)
        (λ joined g.
          let rels = rels_at plan (quiet c) level joined in
          OnOk-bind (All Kept) (AllKept plan c Kept) (finish_rels plan c rels) _
            (finish_rels-Kept rels (rels_at-Kept level joined g))
            (λ rs all.
              search_all-Kept (suc level) count (put level rs joined)
                (put-Kept level rs joined all g)))

  the_only-Kept :
      (rels : List (RelOptInfo P)) → All Kept rels → OnOk Kept (the_only plan (quiet c) rels)
  the_only-Kept [] all = tt
  the_only-Kept (rel ∷ []) (h, all) = h
  the_only-Kept (rel ∷ other ∷ rels) all = tt

  -- A property that every operation keeps holds of the relation that the search returns.
  pub search_joins-Kept :
      (initial_rels : List (RelOptInfo P))
      → All Kept initial_rels
      → OnOk Kept (search_joins plan c initial_rels)
  unfolding search_joins
  search_joins-Kept initial_rels all =
      let n = length initial_rels in
      OnOk-bind (AllKept plan c Kept) Kept (search_all plan c 2 (n - 1) ((1, initial_rels) ∷ [])) _
        (search_all-Kept 2 (n - 1) ((1, initial_rels) ∷ []) (all, tt))
        (λ levels h. the_only-Kept (rels_at plan (quiet c) n levels) (rels_at-Kept n levels h))
