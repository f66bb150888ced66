-- ===== src/Core/Cardinality/Order.antt =====
-- The comparisons of cardinalities.
use post_bound.Base.{Bool, true, false, ◌≡◌, arith, leb}
use post_bound.Core.Cardinality.{lt, le, gt, ge, card, card_eq}
use post_bound.Core.Cardinality.Rows.{Rows, unknown, infinite, rows, repr}

-- The order of the known states: the infinite one is above all numbers of rows.
abbrev pub at_most : Rows → Rows → Bool
at_most (rows m) (rows n) = leb m n
at_most (rows m) infinite = true
at_most infinite infinite = true
at_most _ _ = false

abbrev pub is_infinite : Rows → Bool
is_infinite infinite = true
is_infinite _ = false

-- An unknown cardinality is neither below nor above any other, but > and >= of an infinite
-- cardinality with it are True.
pub compare_unknown :
    (a : Rows)
    → (lt (repr unknown) (card (repr a)) ≡ false)
      × (le (repr unknown) (card (repr a)) ≡ false)
      × (gt (repr unknown) (card (repr a)) ≡ false)
      × (ge (repr unknown) (card (repr a)) ≡ false)
      × (lt (repr a) (card (repr unknown)) ≡ false)
      × (le (repr a) (card (repr unknown)) ≡ false)
      × (gt (repr a) (card (repr unknown)) ≡ is_infinite a)
      × (ge (repr a) (card (repr unknown)) ≡ is_infinite a)
unfolding lt le gt ge
compare_unknown a = ground arith

-- Equality of cardinalities is equality of their states; an unknown one is equal to itself.
pub card_eq_iff_state : (a b : Rows) → (card_eq (repr a) (repr b) ≡ true) → a ≡ b
unfolding card_eq
card_eq_iff_state a b h = ground arith
