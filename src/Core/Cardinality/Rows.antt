-- ===== src/Core/Cardinality/Rows.antt =====
-- The three states that `Cardinality` documents, and their representation in its slots.
use post_bound.Base.{true, false, ◌≡◌, refl, arith, ok, pos, negsuc, ℕ, pos_part}
use post_bound.Core.Cardinality.{Cardinality, Num, nan, inf, whole, create, get}

pub data Rows : Type 0 where
  unknown infinite : Rows
  rows : ℕ → Rows

abbrev pub repr : Rows → Cardinality
repr unknown = record { is_nan = true; is_inf = false; is_valid = false; raw = negsuc 0 }
repr infinite = record { is_nan = false; is_inf = true; is_valid = false; raw = negsuc 0 }
repr (rows n) = record { is_nan = false; is_inf = false; is_valid = true; raw = pos n }

-- The number that a state stands for.
abbrev pub as_num : Rows → Num
as_num unknown = nan
as_num infinite = inf
as_num (rows n) = whole (pos n)

-- The state that is built from a number, if the number is not negative.
abbrev pub state_of : Num → Rows
state_of nan = unknown
state_of (whole a) = rows (pos_part a)
state_of a = infinite

pub get-repr : (r : Rows) → get (repr r) ≡ as_num r
unfolding get
get-repr r = ground arith

pub create-as_num : (r : Rows) → create (as_num r) ≡ ok (repr r)
unfolding create
create-as_num unknown = refl
create-as_num infinite = refl
create-as_num (rows n) = ground arith
