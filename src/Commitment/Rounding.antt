-- ===== src/Commitment/Rounding.antt =====
-- How near the committed text of an amount is to the amount (`canonical_amount`,
-- revguard/commitment.py).
use revguard.Base.{
  ℕ, ◌+◌, ◌-◌, ◌*◌, ◌^◌, ◌≤◌, ◌<◌, ◌≡◌, leb, arith, ap, refl, ◌∙◌, Bool-cases, inl, inr, false,
}
use revguard.Base.Int.{ℤ, abs_ℤ}
use revguard.Model.Errors.{ok, raise_if, value_error, >>=-eq-ok, raise_if-eq-ok, ok-injective}
use revguard.Commitment.{CanonicalAmount, half_up, cents_of, is_below_zero, canonical_amount}
use native.Mathlib.Omega.{div_any}
use native.Mathlib.Nat.{mod-lt, one-le-pow, mul_assoc, mul_comm}

doubled : (d q : ℕ) → 2 * d * q ≡ 2 * (q * d)
doubled d q = mul_assoc 2 d q ∙ ap (λ x. 2 * x) (mul_comm d q)

half_up_near :
    (n d : ℕ) → 0 < d → (2 * (half_up n d * d) ≤ 2 * n + d) × (2 * n ≤ 2 * (half_up n d * d) + d)
half_up_near n d h =
    let whole = div_any (2 * n + d) (2 * d) in
    let part = mod-lt (2 * n + d) {m = 2 * d} (omega arith) in
    let product = doubled d (half_up n d) in (omega arith, omega arith)

pub cents_near :
    (scale n : ℕ)
    → let step = 10 ^ (scale - 2) in
      let exact = n * 10 ^ (2 - scale) in
      (2 * (cents_of scale n * step) ≤ 2 * exact + step)
      × (2 * exact ≤ 2 * (cents_of scale n * step) + step)
cents_near scale n = elim (Bool-cases (leb scale 2)) [
  | inl few ↦
      let none_left : scale - 2 ≡ 0 = ground arith in rw (few, none_left) (omega arith, omega arith)
  | inr many ↦
      let none_left : 2 - scale ≡ 0 = ground arith in
      let near = half_up_near n (10 ^ (scale - 2)) (one-le-pow (scale - 2) 10 (omega arith)) in
      rw (many, none_left) (omega (arith, near.0), omega (arith, near.1))
]

-- An amount of units of 10^-scale that can be committed to has a text below 10^28 hundredths with
-- the sign of the amount, and both the text and the amount, in units of the finer of the two scales,
-- are at most half a hundredth apart: with up to two decimals the text is the amount.
pub canonical_amount_is_nearest :
    (scale : ℕ) (amount : ℤ) (c : CanonicalAmount)
    → canonical_amount scale amount ≡ ok c
    → (c.cents < 10 ^ 28)
      × (c.is_negative ≡ is_below_zero amount)
      × (2 * (c.cents * 10 ^ (scale - 2))
          ≤ 2 * (abs_ℤ amount * 10 ^ (2 - scale)) + 10 ^ (scale - 2))
      × (2 * (abs_ℤ amount * 10 ^ (2 - scale))
          ≤ 2 * (c.cents * 10 ^ (scale - 2)) + 10 ^ (scale - 2))
unfolding canonical_amount
canonical_amount_is_nearest scale amount c h =
    let cents = cents_of scale (abs_ℤ amount) in
    let (_, few_digits, last) = >>=-eq-ok (raise_if (leb (10 ^ 28) cents) value_error) _ h in
    let same = ok-injective last in
    let below : leb (10 ^ 28) cents ≡ false = raise_if-eq-ok _ _ few_digits in
    let (lower, upper) = cents_near scale (abs_ℤ amount) in
    rw (← same) (ground arith, refl, lower, upper)
