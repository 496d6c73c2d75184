-- ===== src/Decimals/Examples.antt =====
-- Decimal arithmetic on small numbers.
use revguard.Base.{◌≡◌, refl, true}
use revguard.Base.Int.{pos, negsuc, neg_ℤ}
use revguard.Model.Errors.{ok, ◌>>=◌}
use revguard.Decimals.{times_ℤ, count_digits, drop_digits, fix, divide, remainder, multiply, equal}

-- 10 / 4 is 2.5, and 1 / 3 has 28 digits.
test_divide :
    (divide (record { coefficient = pos 10; scale = 0 }) (record { coefficient = pos 4; scale = 0 })
      >>= λ d. ok (equal d (record { coefficient = pos 25; scale = 1 })))
    ≡ ok true
unfolding divide fix times_ℤ count_digits drop_digits
test_divide = refl

test_third :
    (divide (record { coefficient = pos 2; scale = 0 }) (record { coefficient = pos 3; scale = 0 })
      >>= λ d. ok (equal d (record { coefficient = pos 6666666666666666666666666667; scale = 28 })))
    ≡ ok true
unfolding divide fix times_ℤ count_digits drop_digits
test_third = refl

-- -7.5 % 2 is -1.5.
test_remainder :
    remainder
      (record { coefficient = negsuc 74; scale = 1 })
      (record { coefficient = pos 2; scale = 0 })
    ≡ ok (record { coefficient = negsuc 14; scale = 1 })
unfolding remainder fix times_ℤ neg_ℤ
test_remainder = refl

-- 15 * 10^-1000027 is rounded to the finest scale.
test_tiny :
    multiply
      (record { coefficient = pos 15; scale = 7 })
      (record { coefficient = pos 1; scale = 1000020 })
    ≡ ok (record { coefficient = pos 2; scale = 1000026 })
unfolding multiply fix times_ℤ neg_ℤ
test_tiny = refl
