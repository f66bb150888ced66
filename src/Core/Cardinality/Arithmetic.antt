-- ===== src/Core/Cardinality/Arithmetic.antt =====
-- Sums, differences and products of cardinalities.
use post_bound.Base.{
  ◌≡◌, arith, Result, ok, err, value_error, ◌+◌, ◌-◌, ◌*◌, leb, if◌then◌else◌, zero,
}
use post_bound.Core.Cardinality.{add, mul, card}
use post_bound.Core.Cardinality.Rows.{Rows, unknown, infinite, rows, repr}

abbrev pub plus : Rows → Rows → Rows
plus unknown b = unknown
plus a unknown = unknown
plus (rows m) (rows n) = rows (m + n)
plus a b = infinite

abbrev pub minus : Rows → Rows → Result Rows
minus unknown b = ok unknown
minus a unknown = ok unknown
minus infinite infinite = ok unknown
minus infinite (rows n) = ok infinite
minus (rows m) infinite = err value_error
minus (rows m) (rows n) = if leb n m then ok (rows (m - n)) else err value_error

abbrev pub times : Rows → Rows → Rows
times unknown b = unknown
times a unknown = unknown
times infinite infinite = infinite
times (rows m) (rows n) = rows (m * n)
times infinite (rows zero) = unknown
times (rows zero) infinite = unknown
times infinite (rows n) = infinite
times (rows m) infinite = infinite

-- Addition of cardinalities never raises and adds the numbers of rows; an unknown operand makes
-- the sum unknown, and else an infinite one makes it infinite.
pub add-repr : (a b : Rows) → add (repr a) (card (repr b)) ≡ ok (repr (plus a b))
unfolding add
add-repr a b = ground arith

-- Multiplication of cardinalities never raises and multiplies the numbers of rows; an infinite one
-- times zero is unknown.
pub mul-repr : (a b : Rows) → mul (repr a) (card (repr b)) ≡ ok (repr (times a b))
unfolding mul
mul-repr a b = ground arith
