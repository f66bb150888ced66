-- ===== src/Plans/Shape/Linear.antt =====
-- What `is_linear` and `is_bushy` of postbound/_qep.py decide.
use post_bound.Base.{
  Bool, true, false, ◌≡◌, refl, arith, List, [], ◌∷◌, ◌++◌, ok, ◌>>=◌, ◌&&◌, ◌||◌, not, some_of,
  every, ◌∙◌, sym,
}
use post_bound.Plans.{QueryPlan, plan, nil, cons, no_subplan, subplan, joins, scans, is_join}
use post_bound.Plans.Traverse.{iternodes}
use post_bound.Plans.Shape.{is_linear, is_bushy, is_left_deep, is_right_deep}
use post_bound.Plans.Shape.Deep.{
  proper, has_join_lem, every-append, inner_is_base, outer_is_base, deep_lem, not_scan,
}

every_map {ℓ} :
    {A : Type ℓ} (p q : A → Bool) (xs : List A)
    → ((x : A) → p x ≡ true → q x ≡ true)
    → every p xs ≡ true
    → every q xs ≡ true
every_map p q [] f h = refl
every_map p q (x ∷ xs) f h = ground (arith, f x, every_map p q xs f)

pub every_left {ℓ} :
    {A : Type ℓ} (p : A → Bool) (xs ys : List A) → every p (xs ++ ys) ≡ true → every p xs ≡ true
every_left p xs ys h = ground (arith, every-append p xs ys)

pub every_right {ℓ} :
    {A : Type ℓ} (p : A → Bool) (xs ys : List A) → every p (xs ++ ys) ≡ true → every p ys ≡ true
every_right p xs ys h = ground (arith, every-append p xs ys)

every_last {ℓ} :
    {A : Type ℓ} (p : A → Bool) (xs : List A) (y : A) → every p (xs ++ (y ∷ [])) ≡ true → p y ≡ true
every_last p xs y h = ground (arith, every-append p xs (y ∷ []))

either :
    (j i o : Bool)
    → j ≡ true
    → ((not j || not i) || (not j || not o)) ≡ true
    → ok (not o || not i) ≡ ok true
either j i o h g = ground arith

pub both_true : (a b c : Bool) → (a && (b && c)) ≡ true → (a ≡ true) × (b ≡ true) × (c ≡ true)
both_true a b c h = ground arith

bushy_of_linear : (a b : Bool) → ok (a && b) ≡ ok (not (not a || not b))
bushy_of_linear a b = ground arith

ok_inj : (a b : Bool) → ok a ≡ ok b → a ≡ b
ok_inj a b h = ground arith

module _ {E : Type 0} where
  -- What the documentation calls linear, at one node: an input of a join contains no join.
  abbrev pub one_is_base : QueryPlan E → Bool
  one_is_base m = inner_is_base m || outer_is_base m

  mutual
    unfolding is_bushy is_linear proper

    bushy :
        (t : QueryPlan E)
        → proper t ≡ true
        → is_bushy t ≡ (is_linear t >>= λ linear. ok (not linear))
    bushy (plan n nil no_subplan) h =
        let leaf : scans n.operator ≡ true = ground arith in rw leaf refl
    bushy (plan n (cons c nil) no_subplan) h =
        let no_scan : scans n.operator ≡ false = ground arith in rw no_scan (bushy c (ground arith))
    bushy (plan n (cons o (cons i nil)) no_subplan) h =
        let join : joins n.operator ≡ true = ground arith in
        rw
          (
            not_scan n.operator join,
            join,
            has_join_lem o (ground arith),
            has_join_lem i (ground arith),
          )
          (bushy_of_linear (some_of is_join (iternodes o)) (some_of is_join (iternodes i)))
    bushy (plan n (cons a (cons b (cons c cs))) no_subplan) h = cc
    bushy (plan n cs (subplan root name)) h = cc

  mutual
    unfolding is_linear proper iternodes

    linear :
        (t : QueryPlan E)
        → proper t ≡ true
        → every one_is_base (iternodes t) ≡ true
        → is_linear t ≡ ok true
    linear (plan n nil no_subplan) h g =
        let leaf : scans n.operator ≡ true = ground arith in rw leaf refl
    linear (plan n (cons c nil) no_subplan) h g =
        let no_scan : scans n.operator ≡ false = ground arith in
        let rest : every one_is_base (iternodes c) ≡ true =
          every_left one_is_base (iternodes c) []
            (every_left one_is_base (iternodes c ++ []) (plan n (cons c nil) no_subplan ∷ []) g) in
        rw no_scan (linear c (ground arith) rest)
    linear (plan n (cons o (cons i nil)) no_subplan) h g =
        let (join, outer, inner) = both_true (joins n.operator) (proper o) (proper i) h in
        let root : one_is_base (plan n (cons o (cons i nil)) no_subplan) ≡ true =
          every_last one_is_base (iternodes o ++ (iternodes i ++ []))
            (plan n (cons o (cons i nil)) no_subplan) g in
        rw (not_scan n.operator join, join, has_join_lem o outer, has_join_lem i inner)
          (either (joins n.operator) (some_of is_join (iternodes i)) (some_of is_join (iternodes o))
            join root)
    linear (plan n (cons a (cons b (cons c cs))) no_subplan) h g = cc
    linear (plan n cs (subplan root name)) h g = cc

  left_is_base : (m : QueryPlan E) → inner_is_base m ≡ true → one_is_base m ≡ true
  left_is_base m h = rw h refl

  right_is_base : (m : QueryPlan E) → outer_is_base m ≡ true → one_is_base m ≡ true
  right_is_base m h = ground (arith, h)

  -- On a plan without subplans whose leaves are scans, whose nodes with one input are neither
  -- scans nor joins, and whose nodes with two inputs are joins: is_bushy is the negation of
  -- is_linear; and is_linear returns True if at every join one input contains no join, and so if
  -- is_left_deep or is_right_deep returns True.
  pub linear_lem :
      (t : QueryPlan E)
      → proper t ≡ true
      → (is_bushy t ≡ (is_linear t >>= λ linear. ok (not linear)))
        × (every one_is_base (iternodes t) ≡ true → is_linear t ≡ ok true)
        × (is_left_deep t ≡ ok true → is_linear t ≡ ok true)
        × (is_right_deep t ≡ ok true → is_linear t ≡ ok true)
  linear_lem t h = (
    bushy t h,
    linear t h,
    (λ g. linear t h (
        every_map inner_is_base one_is_base (iternodes t) left_is_base
          (ok_inj (every inner_is_base (iternodes t)) true (sym ((deep_lem t h).0) ∙ g)))),
    (λ g. linear t h (
        every_map outer_is_base one_is_base (iternodes t) right_is_base
          (ok_inj (every outer_is_base (iternodes t)) true (sym ((deep_lem t h).1) ∙ g)))),
  )
