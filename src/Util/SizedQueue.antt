-- ===== src/Util/SizedQueue.antt =====
-- `SizedQueue` of postbound/util/collections.py. `items` is the list `self.data`. The methods return
-- the new queue.
pub mod Newest
use post_bound.Base.{
  ℕ, leb, List, [], ◌∷◌, ◌++◌, Option, none, some, length, if◌then◌else◌, Result, ok, err,
  index_error, first, tail, take,
}

pub record SizedQueue {ℓ} (A : Type ℓ) : Type ℓ where
  pub capacity : ℕ
  pub items : List A

module _ {ℓ} {A : Type ℓ} where
  -- `append`. Only a queue of capacity 0 can be full and empty, and then `data.pop(0)` raises.
  unfoldable pub append : A → SizedQueue A → Result (SizedQueue A)
  append value q =
      if leb q.capacity (length q.items)
      then elim q.items [
        | [] ↦ err index_error
        | x ∷ xs ↦ ok (record q { items = xs ++ (value ∷ []) })
      ]
      else ok (record q { items = q.items ++ (value ∷ []) })

  unfoldable pub extend : List A → SizedQueue A → SizedQueue A
  extend values q = record q { items = take q.capacity (q.items ++ values) }

  unfoldable pub head : SizedQueue A → Option A
  head q = first q.items

  unfoldable pub pop : SizedQueue A → Option A × SizedQueue A
  pop q = (first q.items, record q { items = tail q.items })
