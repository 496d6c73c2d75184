-- ===== src/Decimals.antt =====
-- Numbers of Python's `decimal` as revguard/rule_engine.py uses them: finite numbers, by their value,
-- in the default context of 28 digits that rounds half to even, with exponents from -999999 to 999999.
pub mod Exact
pub mod Outcomes
mod Digits
mod Examples
use revguard.Base.{
  ℕ, zero, suc, ◌+◌, ◌-◌, ◌*◌, ◌/◌, ◌^◌, ◌%◌, Bool, true, false, ◌&&◌, ◌||◌, leb, ltb, ◌==◌,
  if◌then◌else◌,
}
use revguard.Base.Int.{ℤ, pos, pos_part, neg_part, abs_ℤ, sub_ℕ, ◌+ℤ◌, neg_ℤ, eq_ℤ, ltb_ℤ}
use revguard.Model.Errors.{Result, ok, err, decimal_error}

-- coefficient * 10^-scale
pub record Decimal : Type 0 where
  pub coefficient : ℤ
  pub scale : ℕ

-- k times an integer.
unfoldable pub times_ℤ : ℕ → ℤ → ℤ
times_ℤ k z = sub_ℕ (k * pos_part z) (k * neg_part z)

abbrev pub max_ℕ : ℕ → ℕ → ℕ
max_ℕ a b = if leb a b then b else a

-- The coefficient in units of 10^-at, which are no coarser than the scale.
abbrev pub units_at : ℕ → Decimal → ℤ
units_at at d = times_ℤ (10 ^ (at - d.scale)) d.coefficient

-- The precision of the context.
abbrev pub precision : ℕ
precision = 28

-- The number of decimal digits, by at most `fuel` divisions.
pub count_digits : ℕ → ℕ → ℕ
count_digits zero n = 0
count_digits (suc fuel) n = elim (n == 0) [ true ↦ 0 | false ↦ suc (count_digits fuel (n / 10)) ]

-- A number below 10^n has at most n digits, and every number n is below 10^n.
abbrev pub digits : ℕ → ℕ
digits n = count_digits n n

-- n / d, to the nearest number, and to the even one in the middle.
abbrev pub half_even : ℕ → ℕ → ℕ
half_even n d =
    let q = n / d in
    let r = n % d in if ltb (2 * r) d || (2 * r == d && q % 2 == 0) then q else suc q

-- The integer of the sign of z and the absolute value n.
abbrev pub with_sign : ℤ → ℕ → ℤ
with_sign (pos _) n = pos n
with_sign _ n = neg_ℤ (pos n)

-- Cut to the precision: the dropped digits may reach past the point.
pub drop_digits : ℕ → Decimal → Decimal
drop_digits k d =
    let kept = half_even (abs_ℤ d.coefficient) (10 ^ k) in
    record {
      coefficient = with_sign d.coefficient (kept * 10 ^ (k - d.scale));
      scale = d.scale - k;
    }

-- `Emax` of the context.
abbrev pub largest_exponent : ℕ
largest_exponent = 999999

-- The finest scale of a number: the digits below 10^-999999 that the precision leaves.
abbrev pub finest_scale : ℕ
finest_scale = 1000026

-- Cut to the precision, and to the finest scale.
unfoldable pub rounded : Decimal → Decimal
unfolding drop_digits count_digits
rounded d =
    if ltb (abs_ℤ d.coefficient) (10 ^ precision) && leb d.scale finest_scale
    then d
    else drop_digits (max_ℕ (digits (abs_ℤ d.coefficient) - precision) (d.scale - finest_scale)) d

-- The first digit stands for more than 10^999999.
abbrev pub is_too_large : Decimal → Bool
is_too_large d = ltb (d.scale + suc largest_exponent) (digits (abs_ℤ d.coefficient))

-- What the context makes of an exact result: `Overflow` is an error, a number too small is rounded.
unfoldable pub fix : Decimal → Result Decimal
unfolding rounded count_digits
fix d = let r = rounded d in if is_too_large r then err decimal_error else ok r

unfoldable pub add : Decimal → Decimal → Result Decimal
unfolding fix
add a b =
    let at = max_ℕ a.scale b.scale in
    fix (record { coefficient = units_at at a +ℤ units_at at b; scale = at })

unfoldable pub negate : Decimal → Result Decimal
unfolding fix
negate a = fix (record { coefficient = neg_ℤ a.coefficient; scale = a.scale })

unfoldable pub subtract : Decimal → Decimal → Result Decimal
unfolding add
subtract a b = add a (record { coefficient = neg_ℤ b.coefficient; scale = b.scale })

-- Whether two signs differ: zero counts as positive.
abbrev pub signs_differ : ℤ → ℤ → Bool
signs_differ (pos _) (pos _) = false
signs_differ (pos _) _ = true
signs_differ _ (pos _) = true
signs_differ _ _ = false

abbrev pub signed : Bool → ℕ → ℤ
signed negative n = if negative then neg_ℤ (pos n) else pos n

unfoldable pub multiply : Decimal → Decimal → Result Decimal
unfolding fix
multiply a b = fix (record {
  coefficient =
      signed (signs_differ a.coefficient b.coefficient) (abs_ℤ a.coefficient * abs_ℤ b.coefficient);
  scale = a.scale + b.scale;
})

-- A quotient of at least 29 digits; a remainder shows in its last digit, so that it rounds as the
-- exact quotient does.
abbrev pub sticky : ℕ → ℕ → ℕ
sticky n d = let q = n / d in if not_zero (n % d) && q % 5 == 0 then suc q else q
  where
    not_zero : ℕ → Bool
    not_zero r = ltb 0 r

-- The divisor is not zero.
pub divide : Decimal → Decimal → Result Decimal
unfolding fix count_digits
divide a b =
    let n = abs_ℤ a.coefficient * 10 ^ b.scale in
    let d = abs_ℤ b.coefficient * 10 ^ a.scale in
    let shift = digits d + (precision + 1) - digits n in
    fix (record {
      coefficient = signed (signs_differ a.coefficient b.coefficient) (sticky (n * 10 ^ shift) d);
      scale = shift;
    })

-- The divisor is not zero; the remainder has the sign of the dividend, and a quotient of more digits
-- than the precision is an error.
pub remainder : Decimal → Decimal → Result Decimal
unfolding fix
remainder a b =
    let at = max_ℕ a.scale b.scale in
    let n = abs_ℤ (units_at at a) in
    let d = abs_ℤ (units_at at b) in
    if leb (10 ^ precision) (n / d)
    then err decimal_error
    else fix (record { coefficient = with_sign a.coefficient (n % d); scale = at })

abbrev pub is_zero : Decimal → Bool
is_zero d = abs_ℤ d.coefficient == 0

abbrev pub equal : Decimal → Decimal → Bool
equal a b = let at = max_ℕ a.scale b.scale in eq_ℤ (units_at at a) (units_at at b)

abbrev pub less : Decimal → Decimal → Bool
less a b = let at = max_ℕ a.scale b.scale in ltb_ℤ (units_at at a) (units_at at b)

-- `_ROUNDING_MODES`
pub data RoundingMode : Type 0 where
  half_up down up : RoundingMode

-- n / d, rounded as a mode says.
unfoldable pub round_quotient : RoundingMode → ℕ → ℕ → ℕ
round_quotient RoundingMode.half_up n d = (2 * n + d) / (2 * d)
round_quotient RoundingMode.down n d = n / d
round_quotient RoundingMode.up n d = if n % d == 0 then n / d else suc (n / d)

-- The number in units of 10^-at.
unfoldable pub rescale : ℕ → RoundingMode → Decimal → ℤ
unfolding round_quotient
rescale at mode d =
    if leb d.scale at
    then units_at at d
    else with_sign d.coefficient (round_quotient mode (abs_ℤ d.coefficient) (10 ^ (d.scale - at)))

-- `amount.quantize(quant, rounding=mode)`, where `quant` is 10^-at.
unfoldable pub quantize : ℕ → RoundingMode → Decimal → Result Decimal
unfolding rescale
quantize at mode d =
    let c = rescale at mode d in
    if leb (10 ^ precision) (abs_ℤ c) || ltb finest_scale at
    then err decimal_error
    else ok (record { coefficient = c; scale = at })
