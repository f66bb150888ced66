-- ===== src/Core/Cardinality.antt =====
-- `Cardinality` of postbound/_core.py. A Python number is NaN, an infinity or a whole number:
-- floats that are not whole, and with them the division operators, are not modelled.
pub mod Rows
pub mod Order
pub mod Arithmetic
use post_bound.Base.{
  Bool, true, false, ◌≡◌, refl, arith, Result, ok, err, value_error, state_error, type_error, ◌&&◌,
  not, if◌then◌else◌, Option, none, some, ℤ, pos, negsuc, ◌+ℤ◌, ◌-ℤ◌, ◌*ℤ◌, leb_ℤ, ltb_ℤ, eqb_ℤ,
  ◌||◌, zero, ℕ,
}

pub data Num : Type 0 where
  nan inf minus_inf : Num
  whole : ℤ → Num

-- Python's arithmetic on such numbers.
abbrev pub neg_num : Num → Num
neg_num nan = nan
neg_num inf = minus_inf
neg_num minus_inf = inf
neg_num (whole a) = whole (pos 0 -ℤ a)

abbrev pub add_num : Num → Num → Num
add_num nan b = nan
add_num inf nan = nan
add_num inf minus_inf = nan
add_num inf b = inf
add_num minus_inf nan = nan
add_num minus_inf inf = nan
add_num minus_inf b = minus_inf
add_num (whole a) (whole b) = whole (a +ℤ b)
add_num (whole a) b = b

abbrev pub sub_num : Num → Num → Num
sub_num (whole a) (whole b) = whole (a -ℤ b)
sub_num a b = add_num a (neg_num b)

-- An infinity times a whole number.
abbrev scale : ℤ → Num
scale (pos zero) = nan
scale (negsuc n) = minus_inf
scale a = inf

abbrev pub mul_num : Num → Num → Num
mul_num nan b = nan
mul_num inf nan = nan
mul_num inf inf = inf
mul_num inf minus_inf = minus_inf
mul_num inf (whole b) = scale b
mul_num minus_inf nan = nan
mul_num minus_inf inf = minus_inf
mul_num minus_inf minus_inf = inf
mul_num minus_inf (whole b) = neg_num (scale b)
mul_num (whole a) nan = nan
mul_num (whole a) inf = scale a
mul_num (whole a) minus_inf = neg_num (scale a)
mul_num (whole a) (whole b) = whole (a *ℤ b)

abbrev pub lt_num : Num → Num → Bool
lt_num nan b = false
lt_num inf b = false
lt_num minus_inf nan = false
lt_num minus_inf minus_inf = false
lt_num minus_inf b = true
lt_num (whole a) nan = false
lt_num (whole a) inf = true
lt_num (whole a) minus_inf = false
lt_num (whole a) (whole b) = ltb_ℤ a b

abbrev pub eq_num : Num → Num → Bool
eq_num inf inf = true
eq_num minus_inf minus_inf = true
eq_num (whole a) (whole b) = eqb_ℤ a b
eq_num a b = false

abbrev pub le_num : Num → Num → Bool
le_num a b = lt_num a b || eq_num a b

-- `math.isnan`, `math.isinf`
abbrev pub isnan : Num → Bool
isnan nan = true
isnan a = false

abbrev pub isinf : Num → Bool
isinf inf = true
isinf minus_inf = true
isinf a = false

-- The slots of the class.
pub record Cardinality : Type 0 where
  pub is_nan : Bool
  pub is_inf : Bool
  pub is_valid : Bool
  pub raw : ℤ

-- `round`, on a number that is neither NaN nor an infinity.
abbrev round : Num → ℤ
round (whole a) = a
round a = negsuc 0

-- `Cardinality.__init__`
unfoldable pub create : Num → Result Cardinality
create value =
    if lt_num value (whole (pos 0))
    then err value_error
    else let valid = not (isnan value) && not (isinf value) in
      ok (record {
        is_nan = isnan value;
        is_inf = isinf value;
        is_valid = valid;
        raw = if valid then round value else negsuc 0;
      })

-- `Cardinality.value`
unfoldable pub value : Cardinality → Result ℤ
value c = if c.is_valid then ok c.raw else err state_error

-- `Cardinality.raw_value`
unfoldable pub raw_value : Cardinality → Num
raw_value c = if c.is_nan then nan else if c.is_inf then inf else whole c.raw

-- `Cardinality.__float__`, which `get` returns. The `value` that it reads does not raise, since
-- the state is neither NaN nor infinite.
unfoldable pub get : Cardinality → Num
get c = if c.is_nan then nan else if c.is_inf then inf else whole c.raw

-- `Cardinality.is_zero`
unfoldable pub is_zero : Cardinality → Bool
is_zero c = c.is_valid && eqb_ℤ c.raw (pos 0)

-- The other operand of an operator.
pub data Operand : Type 0 where
  card : Cardinality → Operand
  number : Num → Operand

abbrev pub operand : Operand → Num
operand (card d) = get d
operand (number n) = n

-- `Cardinality.__add__`, `__sub__`, `__mul__`
unfoldable pub add : Cardinality → Operand → Result Cardinality
unfolding create get
add c other = create (add_num (get c) (operand other))

unfoldable pub sub : Cardinality → Operand → Result Cardinality
unfolding create get
sub c other = create (sub_num (get c) (operand other))

unfoldable pub mul : Cardinality → Operand → Result Cardinality
unfolding create get
mul c other = create (mul_num (get c) (operand other))

-- The number that the patterns of the comparisons bind.
abbrev pub otherval : Operand → Num
unfolding raw_value
otherval (card d) = raw_value d
otherval (number n) = n

-- `Cardinality.__lt__`, `__le__`, `__gt__`, `__ge__`
unfoldable pub lt : Cardinality → Operand → Bool
unfolding raw_value
lt c other = if c.is_nan || c.is_inf then false else lt_num (whole c.raw) (otherval other)

unfoldable pub le : Cardinality → Operand → Bool
unfolding raw_value get
le c other =
    if c.is_nan
    then false
    else if c.is_inf
    then isinf (operand other)
    else le_num (whole c.raw) (otherval other)

unfoldable pub gt : Cardinality → Operand → Bool
unfolding raw_value get
gt c other =
    if c.is_nan
    then false
    else if c.is_inf
    then not (isinf (operand other))
    else lt_num (otherval other) (whole c.raw)

unfoldable pub ge : Cardinality → Operand → Bool
unfolding raw_value
ge c other =
    if c.is_nan then false else if c.is_inf then true else le_num (otherval other) (whole c.raw)

-- `Cardinality.__eq__` on another cardinality.
unfoldable pub card_eq : Cardinality → Cardinality → Bool
card_eq c d =
    if c.is_nan
    then d.is_nan
    else if c.is_inf
    then d.is_inf
    else if d.is_nan || d.is_inf
    then false
    else eqb_ℤ c.raw d.raw
