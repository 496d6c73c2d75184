-- ===== src/Commitment/Examples.antt =====
-- Amounts of an approval, and their canonical texts.
use revguard.Base.{◌+◌, ◌*◌, ◌-◌, ◌^◌, ◌≤◌, ◌<◌, ◌≡◌, false, true, refl}
use revguard.Base.Int.{pos, negsuc, abs_ℤ}
use revguard.Model.Errors.{ok, err, value_error}
use revguard.Commitment.{is_below_zero, canonical_amount}
use revguard.Commitment.Rounding.{canonical_amount_is_nearest}

-- 12.345 is written as 12.35, -12.344 as -12.34, and 5 as 5.00.
test_half_up : canonical_amount 3 (pos 12345) ≡ ok (record { is_negative = false; cents = 1235 })
unfolding canonical_amount
test_half_up = refl

test_below : canonical_amount 3 (negsuc 12343) ≡ ok (record { is_negative = true; cents = 1234 })
unfolding canonical_amount
test_below = refl

test_whole : canonical_amount 0 (pos 5) ≡ ok (record { is_negative = false; cents = 500 })
unfolding canonical_amount
test_whole = refl

test_too_long : canonical_amount 2 (pos (10 ^ 28)) ≡ err value_error
unfolding canonical_amount
test_too_long = refl

canonical_amount_is_nearest_example :
    (1235 < 10 ^ 28)
    × (false ≡ is_below_zero (pos 12345))
    × (2 * (1235 * 10 ^ (3 - 2)) ≤ 2 * (abs_ℤ (pos 12345) * 10 ^ (2 - 3)) + 10 ^ (3 - 2))
    × (2 * (abs_ℤ (pos 12345) * 10 ^ (2 - 3)) ≤ 2 * (1235 * 10 ^ (3 - 2)) + 10 ^ (3 - 2))
canonical_amount_is_nearest_example =
    canonical_amount_is_nearest 3 (pos 12345) (record { is_negative = false; cents = 1235 })
      test_half_up
