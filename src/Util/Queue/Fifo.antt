-- ===== src/Util/Queue/Fifo.antt =====
-- The order in which `Queue.pop` returns the items.
use post_bound.Base.{
  Bool, true, false, ◌≡◌, refl, ℕ, zero, suc, List, [], ◌∷◌, ◌++◌, Option, some, length, map, All,
}
use post_bound.Util.Queue.{Queue, pop, extend, head}

module _ {ℓ} {A : Type ℓ} (is_true : A → Bool) where
  -- What `n` calls of `pop` return, and the queue after them.
  unfoldable pub pops : ℕ → Queue A → List (Option A) × Queue A
  unfolding pop head
  pops zero q = ([], q)
  pops (suc n) q =
      let (item, rest) = pop is_true q in
      let (returned, last) = pops n rest in (item ∷ returned, last)

  pops_front :
      (xs ys : List A)
      → All (λ x. is_true x ≡ true) xs
      → pops (length xs) (record { items = xs ++ ys }) ≡ (map some xs, record { items = ys })
  unfolding pops
  pops_front [] ys h = refl
  pops_front (x ∷ xs) ys (t, h) = rw (t, pops_front xs ys h) refl

  -- Items of a Queue that count as true come out in the order in which they were put in: after
  -- extend with some values, as many calls of pop as there were items return the old items in
  -- order, and leave the values.
  pub pops-extend :
      (q : Queue A) (values : List A)
      → All (λ x. is_true x ≡ true) q.items
      → pops (length q.items) (extend values q) ≡ (map some q.items, record { items = values })
  unfolding extend
  pops-extend q values h = pops_front q.items values h

  -- `n` copies of an item.
  abbrev pub copies : ℕ → Option A → List (Option A)
  copies zero x = []
  copies (suc n) x = x ∷ copies n x

  -- Queue.pop never removes an item that counts as false: every call returns it and leaves the
  -- queue as it is.
  pub pops_stuck :
      (x : A) (xs : List A) (n : ℕ)
      → is_true x ≡ false
      → pops n (record { items = x ∷ xs }) ≡ (copies n (some x), record { items = x ∷ xs })
  unfolding pops
  pops_stuck x xs zero h = refl
  pops_stuck x xs (suc n) h = rw (h, pops_stuck x xs n h) refl
