-- ===== src/Decimals/Outcomes.antt =====
-- Operations on decimals end in a number or in an exception of the arithmetic: a result that is too
-- large, or a quotient of too many digits.
use revguard.Base.{
  ◌+◌, ◌*◌, ◌-◌, ◌^◌, ◌%◌, ◌/◌, leb, ◌≡◌, Bool, true, false, ◌⊎◌, inl, inr, refl, if◌then◌else◌,
}
use revguard.Base.Int.{abs_ℤ, neg_ℤ, ◌+ℤ◌}
use revguard.Model.Errors.{Result, ok, err, ◌>>=◌, decimal_error}
use revguard.Decimals.{
  Decimal, max_ℕ, units_at, precision, digits, with_sign, signs_differ, signed, sticky, rounded,
  is_too_large, fix, add, negate, subtract, multiply, divide, remainder,
}

abbrev pub IsNumberOrOverflow : Result Decimal → Type 0
IsNumberOrOverflow r = ((d : Decimal) × (r ≡ ok d)) ⊎ (r ≡ err decimal_error)

guarded :
    (stop : Bool) (r : Result Decimal)
    → IsNumberOrOverflow r
    → IsNumberOrOverflow (if stop then err decimal_error else r)
guarded true r fine = inr refl
guarded false r fine = fine

pub fix-IsNumberOrOverflow : (d : Decimal) → IsNumberOrOverflow (fix d)
unfolding fix
fix-IsNumberOrOverflow d =
    guarded (is_too_large (rounded d)) (ok (rounded d)) (inl (rounded d, refl))

pub add-IsNumberOrOverflow : (a b : Decimal) → IsNumberOrOverflow (add a b)
unfolding add
add-IsNumberOrOverflow a b =
    let at = max_ℕ a.scale b.scale in
    fix-IsNumberOrOverflow (record { coefficient = units_at at a +ℤ units_at at b; scale = at })

pub subtract-IsNumberOrOverflow : (a b : Decimal) → IsNumberOrOverflow (subtract a b)
unfolding subtract
subtract-IsNumberOrOverflow a b =
    add-IsNumberOrOverflow a (record { coefficient = neg_ℤ b.coefficient; scale = b.scale })

pub multiply-IsNumberOrOverflow : (a b : Decimal) → IsNumberOrOverflow (multiply a b)
unfolding multiply
multiply-IsNumberOrOverflow a b = fix-IsNumberOrOverflow (record {
  coefficient =
      signed (signs_differ a.coefficient b.coefficient) (abs_ℤ a.coefficient * abs_ℤ b.coefficient);
  scale = a.scale + b.scale;
})

pub negate-IsNumberOrOverflow : (a : Decimal) → IsNumberOrOverflow (negate a)
unfolding negate
negate-IsNumberOrOverflow a =
    fix-IsNumberOrOverflow (record { coefficient = neg_ℤ a.coefficient; scale = a.scale })

pub divide-IsNumberOrOverflow : (a b : Decimal) → IsNumberOrOverflow (divide a b)
unfolding divide
divide-IsNumberOrOverflow a b =
    let n = abs_ℤ a.coefficient * 10 ^ b.scale in
    let d = abs_ℤ b.coefficient * 10 ^ a.scale in
    let shift = digits d + (precision + 1) - digits n in
    fix-IsNumberOrOverflow (record {
      coefficient = signed (signs_differ a.coefficient b.coefficient) (sticky (n * 10 ^ shift) d);
      scale = shift;
    })

pub remainder-IsNumberOrOverflow : (a b : Decimal) → IsNumberOrOverflow (remainder a b)
unfolding remainder
remainder-IsNumberOrOverflow a b =
    let at = max_ℕ a.scale b.scale in
    let n = abs_ℤ (units_at at a) in
    let d = abs_ℤ (units_at at b) in
    let result : Decimal = record { coefficient = with_sign a.coefficient (n % d); scale = at } in
    guarded (leb (10 ^ precision) (n / d)) (fix result) (fix-IsNumberOrOverflow result)

pub >>=-IsNumberOrOverflow :
    (m : Result Decimal) (f : Decimal → Result Decimal)
    → IsNumberOrOverflow m
    → ((d : Decimal) → IsNumberOrOverflow (f d))
    → IsNumberOrOverflow (m >>= f)
>>=-IsNumberOrOverflow (ok d) f fine next' = next' d
>>=-IsNumberOrOverflow (err e) f (inl (d, is_number)) next' = absurd (cc)
>>=-IsNumberOrOverflow (err e) f (inr fails) next' = rw fails (inr refl)
