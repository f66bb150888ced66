-- ===== src/Util/SizedQueue/Newest.antt =====
-- What a `SizedQueue` holds.
use post_bound.Base.{
  ◌≡◌, refl, ap, sym, arith, ℕ, zero, suc, ◌-◌, ◌≤◌, ◌<◌, leb, List, [], ◌∷◌, ◌++◌, length,
  length-append, Result, ok, ◌>>=◌, Bool-cases, inl, inr, take,
}
use mathlib.Core.List.{append-nil, append_assoc}
use post_bound.Util.SizedQueue.{SizedQueue, append, extend}

module _ {ℓ} {A : Type ℓ} where
  abbrev drop : ℕ → List A → List A
  drop zero xs = xs
  drop (suc n) [] = []
  drop (suc n) (x ∷ xs) = drop n xs

  -- The last `n` elements.
  abbrev pub last : ℕ → List A → List A
  last n xs = drop (length xs - n) xs

  -- `append` for each value in turn.
  unfoldable pub append_each : List A → SizedQueue A → Result (SizedQueue A)
  append_each [] q = ok q
  append_each (v ∷ vs) q = append v q >>= λ r. append_each vs r

  last_all : (n : ℕ) (xs : List A) → length xs ≤ n → last n xs ≡ xs
  last_all n xs h = let none_dropped : length xs - n ≡ 0 = omega arith in rw none_dropped refl

  last_cons : (n : ℕ) (x : A) (xs : List A) → n ≤ length xs → last n (x ∷ xs) ≡ last n xs
  last_cons n x xs h =
      let one_more : suc (length xs) - n ≡ suc (length xs - n) = omega arith in rw one_more refl

  snoc-append : (xs : List A) (v : A) (vs : List A) → (xs ++ (v ∷ [])) ++ vs ≡ xs ++ (v ∷ vs)
  snoc-append xs v vs = append_assoc xs (v ∷ []) vs

  append_full :
      (c : ℕ) (x : A) (xs : List A) (v : A)
      → length (x ∷ xs) ≡ c
      → append v (record { capacity = c; items = x ∷ xs })
        ≡ ok (record { capacity = c; items = xs ++ (v ∷ []) })
  unfolding append
  append_full c x xs v h = ground arith

  append_free :
      (c : ℕ) (xs : List A) (v : A)
      → length xs < c
      → append v (record { capacity = c; items = xs })
        ≡ ok (record { capacity = c; items = xs ++ (v ∷ []) })
  unfolding append
  append_free c xs v h = ground arith

  abbrev holding : ℕ → List A → Result (SizedQueue A)
  holding c xs = ok (record { capacity = c; items = last c xs })

  -- Appending values one by one to a SizedQueue that holds at most as many items as its capacity,
  -- which is not 0, never raises, and the queue then holds the last items, as many as its
  -- capacity, of all items in order.
  pub append_each_lem :
      (values : List A) (c : ℕ) (xs : List A)
      → length xs ≤ c
      → 0 < c
      → append_each values (record { capacity = c; items = xs })
        ≡ ok (record { capacity = c; items = last c (xs ++ values) })
  unfolding append_each
  append_each_lem [] c xs h p = rw (append-nil xs, last_all c xs h) refl
  append_each_lem (v ∷ vs) c [] h p =
      rw (append_free c [] v p, append_each_lem vs c (v ∷ []) p p) refl
  append_each_lem (v ∷ vs) c (x ∷ xs) h p = elim (Bool-cases (leb c (length (x ∷ xs)))) [
    | inl full ↦
        let size : length (xs ++ (v ∷ [])) ≤ c = ground (arith, length-append xs (v ∷ [])) in
        let long : c ≤ length (xs ++ (v ∷ vs)) = ground (arith, length-append xs (v ∷ vs)) in
        rw
          (
            append_full c x xs v (ground arith),
            append_each_lem vs c (xs ++ (v ∷ [])) size p,
            snoc-append xs v vs,
            last_cons c x (xs ++ (v ∷ vs)) long,
          )
          refl
    | inr free ↦
        let size : length (x ∷ xs ++ (v ∷ [])) ≤ c = ground (arith, length-append xs (v ∷ [])) in
        rw
          (
            append_free c (x ∷ xs) v (ground arith),
            append_each_lem vs c (x ∷ xs ++ (v ∷ [])) size p,
          )
          (ap (holding c) (snoc-append (x ∷ xs) v vs))
  ]

  take_all : (c : ℕ) (xs ys : List A) → length xs ≡ c → take c (xs ++ ys) ≡ xs
  take_all c [] ys h = rw (sym h) refl
  take_all zero (x ∷ xs) ys h = absurd (omega arith)
  take_all (suc c) (x ∷ xs) ys h = rw (take_all c xs ys (omega arith)) refl

  -- `extend` on a full queue keeps the oldest items: it drops all of the new values.
  pub extend_full :
      (values : List A) (q : SizedQueue A) → length q.items ≡ q.capacity → extend values q ≡ q
  unfolding extend
  extend_full values q h = rw (take_all q.capacity q.items values h) refl
