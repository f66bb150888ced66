-- ===== src/DynProg/Search/Reached.antt =====
-- Relations that `_join_search_one_level` of postbound/opt/_dynprog.py reaches.
use post_bound.Base.{
  true, false, ◌≡◌, refl, arith, Key, List, [], ◌∷◌, ℕ, zero, suc, ◌-◌, ◌/◌, ltb, length,
  length-append, set_key, number_key, inter, union, mem, insert, Bool-cases, inl, inr, sym, subst,
  same_comm,
}
use post_bound.Core.Table.{TableReference, table_key}
use post_bound.DynProg.Paths.{Plan, RelOptInfo}
use post_bound.DynProg.Search.{
  Search, JoinRelLevel, rels_at, join_pair, join_inner, join_outer, join_bushy,
  join_search_one_level,
}
use post_bound.DynProg.Search.Levels.{intermediates, KeepsTables}
use post_bound.DynProg.Search.Growth.{
  IsIn, IsSome, sets_at, Joins, join_pair-IsSome, join_inner-IsIn, join_outer-IsIn,
}

-- A table that is not in a set is joined to it by itself.
inter_fresh :
    (t : TableReference) (xs : List TableReference) → mem t xs ≡ false → inter xs (t ∷ []) ≡ []
unfolding mem inter
inter_fresh t [] h = refl
inter_fresh t (x ∷ xs) h = ground (arith, inter_fresh t xs, same_comm x t)

length-union_fresh :
    (t : TableReference) (xs : List TableReference)
    → mem t xs ≡ false
    → length (union xs (t ∷ [])) ≡ suc (length xs)
unfolding union insert
length-union_fresh t xs h = rw h (omega (arith, length-append xs (t ∷ [])))

module _ {E P : Type 0} ⦃key : Key E⦄ (plan : Plan E P) (search : Search P)
    (base : List TableReference) (keeps : KeepsTables search base) where
  open search use {joins_between}

  abbrev sets : ℕ → JoinRelLevel P → List (List TableReference)
  sets n levels = sets_at plan search base keeps n levels

  abbrev CanJoin : List TableReference → List TableReference → Type 0
  CanJoin xs ys = Joins plan search base keeps xs ys

  join_inner-IsSome :
      (rel1 : RelOptInfo P) (rels : List (RelOptInfo P)) (levels : JoinRelLevel P)
      (ys : List TableReference)
      → IsIn ys (intermediates rels)
      → CanJoin rel1.intermediate ys
      → IsSome
          (sets (length (union rel1.intermediate ys)) (join_inner plan search rel1 rels levels))
  unfolding join_inner
  join_inner-IsSome rel1 [] levels ys h c = absurd h
  join_inner-IsSome rel1 (rel2 ∷ rels) levels ys (inl e) c =
      let made =
        join_pair-IsSome plan search base keeps rel1 rel2 levels
          (subst (CanJoin rel1.intermediate) (sym e) c) in
      let (xs, h) =
        subst
          (λ zs.
            IsSome
              (sets (length (union rel1.intermediate zs)) (join_pair plan search rel1 rel2 levels)))
          e made in
      (xs, join_inner-IsIn plan search base keeps rel1 rels _ _ xs h)
  join_inner-IsSome rel1 (rel2 ∷ rels) levels ys (inr h) c = join_inner-IsSome rel1 rels _ ys h c

  join_outer-IsSome :
      (size : ℕ) (rels : List (RelOptInfo P)) (levels : JoinRelLevel P)
      (xs ys : List TableReference)
      → IsIn xs (intermediates rels)
      → IsIn ys (sets size levels)
      → CanJoin xs ys
      → IsSome (sets (length (union xs ys)) (join_outer plan search size rels levels))
  unfolding join_outer
  join_outer-IsSome size [] levels xs ys h g c = absurd h
  join_outer-IsSome size (rel1 ∷ rels) levels xs ys (inl e) g c =
      let made =
        join_inner-IsSome rel1 (rels_at plan search size levels) levels ys g
          (subst (λ zs. CanJoin zs ys) (sym e) c) in
      let (zs, h) =
        subst
          (λ us. IsSome (
            sets (length (union us ys))
              (join_inner plan search rel1 (rels_at plan search size levels) levels)))
          e made in
      (zs, join_outer-IsIn plan search base keeps size rels _ _ zs h)
  join_outer-IsSome size (rel1 ∷ rels) levels xs ys (inr h) g c =
      join_outer-IsSome size rels _ xs ys h
        (join_inner-IsIn plan search base keeps rel1 (rels_at plan search size levels) levels size
          ys g)
        c

  join_bushy-IsIn :
      (level outer count : ℕ) (levels : JoinRelLevel P) (n : ℕ) (xs : List TableReference)
      → IsIn xs (sets n levels)
      → IsIn xs (sets n (join_bushy plan search level outer count levels))
  unfolding join_bushy
  join_bushy-IsIn level outer zero levels n xs h = h
  join_bushy-IsIn level outer (suc count) levels n xs h =
      join_bushy-IsIn level (suc outer) count _ n xs (elim (Bool-cases (ltb (level - outer) 2)) [
        | inl small ↦ rw small h
        | inr large ↦ rw large (
            join_outer-IsIn plan search base keeps (level - outer)
              (rels_at plan search outer levels) levels n xs h)
      ])

  pub join_search_one_level-IsIn :
      (level : ℕ) (levels : JoinRelLevel P) (n : ℕ) (xs : List TableReference)
      → IsIn xs (sets n levels)
      → IsIn xs (sets n (join_search_one_level plan search level levels))
  unfolding join_search_one_level
  join_search_one_level-IsIn level levels n xs h = join_bushy-IsIn level 2 (level / 2 - 1) _ n xs (
      join_outer-IsIn plan search base keeps 1 (rels_at plan search (level - 1) levels) levels n xs
        h)

  -- The level has a relation, if one of the level below can be joined with a table.
  pub join_search_one_level-IsSome :
      (level : ℕ) (levels : JoinRelLevel P) (xs : List TableReference) (t : TableReference)
      → IsIn xs (sets (level - 1) levels)
      → IsIn (t ∷ []) (sets 1 levels)
      → mem t xs ≡ false
      → joins_between xs (t ∷ []) ≡ true
      → IsSome (sets (suc (length xs)) (join_search_one_level plan search level levels))
  unfolding join_search_one_level
  join_search_one_level-IsSome level levels xs t h g fresh between =
      let apart : ltb 0 (length (inter xs (t ∷ []))) ≡ false = rw (inter_fresh t xs fresh) refl in
      let (zs, made) =
        subst
          (λ n.
            IsSome
              (sets n (join_outer plan search 1 (rels_at plan search (level - 1) levels) levels)))
          (length-union_fresh t xs fresh)
          (join_outer-IsSome 1 (rels_at plan search (level - 1) levels) levels xs (t ∷ []) h g
            (apart, between)) in
      (zs, join_bushy-IsIn level 2 (level / 2 - 1) _ _ zs made)
