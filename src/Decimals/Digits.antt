-- ===== src/Decimals/Digits.antt =====
-- The count of digits has fuel enough (`digits`).
use revguard.Base.{ℕ, zero, suc, ◌/◌, ◌^◌, ◌≤◌, ◌<◌, arith, ◌==◌, Bool-cases, inl, inr}
use revguard.Decimals.{count_digits, digits}
use native.Mathlib.Nat.{pow-zero, pow-succ'}

enough_fuel : (fuel n : ℕ) → n ≤ fuel → n < 10 ^ count_digits fuel n
unfolding count_digits
enough_fuel zero n few = rw (pow-zero 10) omega arith
enough_fuel (suc fuel) n few = elim (Bool-cases (n == 0)) [
  | inl nothing ↦ rw (nothing, count_digits, pow-zero 10) ground arith
  | inr something ↦
      let smaller : n / 10 ≤ fuel = ground arith in
      let below = enough_fuel fuel (n / 10) smaller in
      rw (something, count_digits, pow-succ' 10 (count_digits fuel (n / 10))) omega (arith, below)
]

-- A number has no more digits than are counted.
digits_suffice : (n : ℕ) → n < 10 ^ digits n
digits_suffice n = enough_fuel n n (omega arith)
