-- ===== src/Decimals/Exact.antt =====
-- Sums of decimals that the precision holds are exact (`add`, `quantize` as
-- revguard/rule_engine.py uses them).
use revguard.Base.{
  ℕ, zero, suc, ◌+◌, ◌-◌, ◌*◌, ◌/◌, ◌^◌, ◌==◌, ◌||◌, ltb, ◌≤◌, ◌<◌, ◌≡◌, true, false, leb, arith,
  ap, sym, ◌∙◌, subst, refl, Bool-cases, inl, inr,
}
use revguard.Base.Int.{ℤ, pos, negsuc, pos_part, neg_part, abs_ℤ, ◌+ℤ◌, eq_of_parts, +ℤ_parts}
use revguard.Model.Errors.{ok, ok-injective}
use revguard.Decimals.{
  Decimal, times_ℤ, max_ℕ, units_at, precision, finest_scale, rounded, is_too_large, count_digits,
  fix, add, rescale, quantize, RoundingMode,
}
use native.Mathlib.Nat.{pow-zero, pow-succ', one-le-pow, mul_assoc}

times_parts :
    (k : ℕ) (z : ℤ)
    → pos_part (times_ℤ k z) + k * neg_part z ≡ neg_part (times_ℤ k z) + k * pos_part z
unfolding times_ℤ
times_parts k z = ground arith

pub times_add : (k : ℕ) (a b : ℤ) → times_ℤ k (a +ℤ b) ≡ times_ℤ k a +ℤ times_ℤ k b
times_add k a b =
    let sums = ap (λ x. k * x) (+ℤ_parts a b) in
    eq_of_parts (times_ℤ k (a +ℤ b)) (times_ℤ k a +ℤ times_ℤ k b) (
      omega (
        arith,
        sums,
        times_parts k (a +ℤ b),
        times_parts k a,
        times_parts k b,
        +ℤ_parts (times_ℤ k a) (times_ℤ k b),
      ))

times_times : (j k : ℕ) (z : ℤ) → times_ℤ j (times_ℤ k z) ≡ times_ℤ (j * k) z
times_times j k z =
    let inner = ap (λ x. j * x) (times_parts k z) in
    eq_of_parts (times_ℤ j (times_ℤ k z)) (times_ℤ (j * k) z)
      (omega (arith, inner, times_parts j (times_ℤ k z), times_parts (j * k) z))

abs_times : (k : ℕ) (z : ℤ) → abs_ℤ (times_ℤ k z) ≡ k * abs_ℤ z
unfolding times_ℤ
abs_times k (pos n) = ground arith
abs_times k (negsuc n) = ground arith

pow_add : (c j k : ℕ) → c ^ (j + k) ≡ c ^ j * c ^ k
pow_add c zero k =
    let sum : zero + k ≡ k = omega arith in
    let unit : c ^ zero * c ^ k ≡ c ^ k = rw (pow-zero c) omega arith in
    ap (λ j. c ^ j) sum ∙ sym unit
pow_add c (suc j) k =
    let sum : suc j + k ≡ suc (j + k) = omega arith in
    ap (λ i. c ^ i) sum
    ∙ pow-succ' c (j + k)
    ∙ ap (λ x. c * x) (pow_add c j k)
    ∙ sym (mul_assoc c (c ^ j) (c ^ k))
    ∙ ap (λ x. x * c ^ k) (sym (pow-succ' c j))

-- A number is z units of 10^-at.
unfoldable pub HasUnits : ℕ → ℤ → Decimal → Type 0
HasUnits at z d = (d.scale ≤ at) × (units_at at d ≡ z)

-- Units of a scale in between.
units_through :
    (at middle : ℕ) (d : Decimal)
    → d.scale ≤ middle
    → middle ≤ at
    → times_ℤ (10 ^ (at - middle)) (units_at middle d) ≡ units_at at d
units_through at middle d low high =
    let powers : 10 ^ (at - middle) * 10 ^ (middle - d.scale) ≡ 10 ^ (at - d.scale) =
      sym (pow_add 10 (at - middle) (middle - d.scale)) ∙ ap (λ k. 10 ^ k) (omega arith) in
    times_times (10 ^ (at - middle)) (10 ^ (middle - d.scale)) d.coefficient
    ∙ ap (λ k. times_ℤ k d.coefficient) powers

abs_shrinks : (k : ℕ) (z : ℤ) → abs_ℤ z ≤ abs_ℤ (times_ℤ (10 ^ k) z)
abs_shrinks k z =
    let positive = one-le-pow k 10 (omega arith) in
    let larger : abs_ℤ z ≤ 10 ^ k * abs_ℤ z = grind (arith, positive) in
    rw (abs_times (10 ^ k) z) larger

-- What the precision holds is kept.
rounded_small :
    (d : Decimal) → abs_ℤ d.coefficient < 10 ^ precision → d.scale ≤ finest_scale → rounded d ≡ d
unfolding rounded
rounded_small d small fine = ground arith

few_digits : (fuel n k : ℕ) → n < 10 ^ k → count_digits fuel n ≤ k
unfolding count_digits
few_digits zero n k small = omega arith
few_digits (suc fuel) n zero small =
    let nothing : n == 0 ≡ true = ground (arith, pow-zero 10) in
    rw (nothing, count_digits) omega arith
few_digits (suc fuel) n (suc k) small =
    let power = pow-succ' 10 k in
    let smaller : n / 10 < 10 ^ k = omega (arith, power, small) in
    let rest = few_digits fuel (n / 10) k smaller in
    elim (Bool-cases (n == 0)) [
      | inl nothing ↦ rw (nothing, count_digits) omega arith
      | inr something ↦ rw (something, count_digits) omega (arith, rest)
    ]

pub fix_small :
    (d : Decimal) → abs_ℤ d.coefficient < 10 ^ precision → d.scale ≤ finest_scale → fix d ≡ ok d
unfolding fix
fix_small d small fine =
    let few = few_digits (abs_ℤ d.coefficient) (abs_ℤ d.coefficient) precision small in
    let inside : is_too_large d ≡ false = ground (arith, few) in
    rw (fix, rounded_small d small fine) (rw inside refl)

max_bounds : (a b : ℕ) → (a ≤ max_ℕ a b) × (b ≤ max_ℕ a b)
max_bounds a b = (ground arith, ground arith)

max_least : (a b c : ℕ) → a ≤ c → b ≤ c → max_ℕ a b ≤ c
max_least a b c first second = ground arith

pub add-HasUnits :
    (at : ℕ) (x y : ℤ) (a b : Decimal)
    → HasUnits at x a
    → HasUnits at y b
    → at ≤ finest_scale
    → abs_ℤ (x +ℤ y) < 10 ^ precision
    → (sum : Decimal) × (add a b ≡ ok sum) × HasUnits at (x +ℤ y) sum
unfolding HasUnits add
add-HasUnits at x y a b (a_low, is_x) (b_low, is_y) fine small =
    let middle = max_ℕ a.scale b.scale in
    let (a_in, b_in) = max_bounds a.scale b.scale in
    let low : middle ≤ at = max_least a.scale b.scale at a_low b_low in
    let c = units_at middle a +ℤ units_at middle b in
    let whole : times_ℤ (10 ^ (at - middle)) c ≡ x +ℤ y =
      times_add (10 ^ (at - middle)) (units_at middle a) (units_at middle b)
      ∙ ap (λ z. z +ℤ times_ℤ (10 ^ (at - middle)) (units_at middle b))
          (units_through at middle a a_in low ∙ is_x)
      ∙ ap (λ z. x +ℤ z) (units_through at middle b b_in low ∙ is_y) in
    let shrunk = subst (λ z. abs_ℤ c ≤ abs_ℤ z) whole (abs_shrinks (at - middle) c) in
    let few : abs_ℤ c < 10 ^ precision = omega (arith, shrunk) in
    (
      record { coefficient = c; scale = middle },
      fix_small (record { coefficient = c; scale = middle }) few (omega (arith, low, fine)),
      (low, whole),
    )

pub quantize-HasUnits :
    (at : ℕ) (mode : RoundingMode) (z : ℤ) (d : Decimal)
    → HasUnits at z d
    → at ≤ finest_scale
    → abs_ℤ z < 10 ^ precision
    → quantize at mode d ≡ ok (record { coefficient = z; scale = at })
unfolding HasUnits quantize rescale
quantize-HasUnits at mode z d (low, is_z) fine small =
    let few : leb d.scale at ≡ true = ground arith in
    let inside : leb (10 ^ precision) (abs_ℤ z) || ltb finest_scale at ≡ false = ground arith in
    rw (few, is_z, inside) refl

pub quantize-result :
    (at : ℕ) (mode : RoundingMode) (d q : Decimal)
    → quantize at mode d ≡ ok q
    → (q ≡ record { coefficient = rescale at mode d; scale = at })
      × (abs_ℤ (rescale at mode d) < 10 ^ precision)
unfolding quantize
quantize-result at mode d q h =
    elim (Bool-cases (leb (10 ^ precision) (abs_ℤ (rescale at mode d)) || ltb finest_scale at)) [
      | inl many ↦ let wrong = rw many at h in absurd (cc)
      | inr few ↦ let same = ok-injective (rw few at h) in (sym same, ground arith)
    ]

-- A scale that is finer than the context allows is an error.
pub quantize-fine :
    (at : ℕ) (mode : RoundingMode) (d q : Decimal) → quantize at mode d ≡ ok q → at ≤ finest_scale
unfolding quantize
quantize-fine at mode d q h =
    elim (Bool-cases (leb (10 ^ precision) (abs_ℤ (rescale at mode d)) || ltb finest_scale at)) [
      | inl refused ↦ let wrong = rw refused at h in absurd (cc)
      | inr kept ↦ ground arith
    ]
