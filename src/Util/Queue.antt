-- ===== src/Util/Queue.antt =====
-- `Queue` of postbound/util/collections.py. `items` is the list `self.data`. The methods return the
-- new queue.
pub mod Fifo
use post_bound.Base.{Bool, List, [], ◌∷◌, ◌++◌, Option, none, some, if◌then◌else◌, first, tail}

pub record Queue {ℓ} (A : Type ℓ) : Type ℓ where
  pub items : List A

module _ {ℓ} {A : Type ℓ} where
  -- `enqueue`, and its names `push` and `append`.
  unfoldable pub enqueue : A → Queue A → Queue A
  enqueue value q = record { items = q.items ++ (value ∷ []) }

  unfoldable pub extend : List A → Queue A → Queue A
  extend values q = record { items = q.items ++ values }

  -- `head`, and its name `peak`.
  unfoldable pub head : Queue A → Option A
  head q = first q.items

  -- `pop`, which tests the truth value of the item and not whether there is one.
  unfoldable pub pop : (A → Bool) → Queue A → Option A × Queue A
  unfolding head
  pop is_true q = elim (head q) [
    | none ↦ (none, q)
    | some item ↦ (some item, if is_true item then record { items = tail q.items } else q)
  ]
