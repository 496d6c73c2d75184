-- ===== src/Rules/Totals.antt =====
-- The total of a calculation is the sum of its components (`run_policy`, revguard/rule_engine.py).
use revguard.Base.{
  ℕ, ◌+◌, ◌-◌, ◌^◌, ◌≤◌, ◌<◌, ◌≡◌, Option, List, [], ◌∷◌, Text, Bool, true, false, All, refl, arith,
  ap, sym, ◌∙◌, subst, if◌then◌else◌,
}
use revguard.Base.Int.{ℤ, pos, abs_ℤ, ◌+ℤ◌, eq_of_parts, +ℤ_parts, +ℤ_assoc}
use revguard.Model.Errors.{ok, or_raise, >>=-eq-ok, ok-injective, lookup_error}
use revguard.Decimals.{Decimal, units_at, precision, finest_scale, times_ℤ, quantize, RoundingMode}
use revguard.Decimals.Exact.{
  HasUnits, add-HasUnits, quantize-HasUnits, quantize-result, quantize-fine,
}
use revguard.Formula.{Fields, evaluate_formula}
use revguard.Rules.{
  Reason, Component, Rule, RuleDsl, scale_of, mode_of, check_eligibility, match_condition,
}
use revguard.Rules.Run.{
  CalculationResult, HashPayload, zero_amount, add_amounts, skipped, substitute_formula,
  applied_component, rule_component, rule_components, components_if, run_policy,
}

-- The sum of the amounts in units of 10^-at, and of their sizes.
pub sum_units : ℕ → List Component → ℤ
sum_units at [] = pos 0
sum_units at (c ∷ rest) = units_at at c.amount +ℤ sum_units at rest

unfoldable pub sum_sizes : ℕ → List Component → ℕ
sum_sizes at [] = 0
sum_sizes at (c ∷ rest) = abs_ℤ (units_at at c.amount) + sum_sizes at rest

abs_add : (a b : ℤ) → abs_ℤ (a +ℤ b) ≤ abs_ℤ a + abs_ℤ b
unfolding ◌+ℤ◌
abs_add a b = ground arith

sum-sizes_bound : (at : ℕ) (cs : List Component) → abs_ℤ (sum_units at cs) ≤ sum_sizes at cs
unfolding sum_units sum_sizes
sum-sizes_bound at [] = omega arith
sum-sizes_bound at (c ∷ rest) =
    omega (arith, abs_add (units_at at c.amount) (sum_units at rest), sum-sizes_bound at rest)

+ℤ_nothing : (a : ℤ) → a +ℤ pos 0 ≡ a
+ℤ_nothing a = eq_of_parts (a +ℤ pos 0) a (omega (arith, +ℤ_parts a (pos 0)))

nothing_+ℤ : (a : ℤ) → pos 0 +ℤ a ≡ a
nothing_+ℤ a = eq_of_parts (pos 0 +ℤ a) a (omega (arith, +ℤ_parts (pos 0) a))

-- The amount has at most this many decimals.
abbrev HasScale : ℕ → Component → Type 0
HasScale at c = c.amount.scale ≤ at

add_amounts-HasUnits :
    (at : ℕ) (z : ℤ) (start : Decimal) (cs : List Component)
    → All (HasScale at) cs
    → HasUnits at z start
    → at ≤ finest_scale
    → abs_ℤ z + sum_sizes at cs < 10 ^ precision
    → (sum : Decimal) × (add_amounts start cs ≡ ok sum) × HasUnits at (z +ℤ sum_units at cs) sum
unfolding sum_units sum_sizes add_amounts HasUnits
add_amounts-HasUnits at z start [] low begins fine small = (start, refl, rw (+ℤ_nothing z) begins)
add_amounts-HasUnits at z start (c ∷ rest) (low, others) begins fine small =
    let here = units_at at c.amount in
    let near = abs_add z here in
    let (next', adds, added) =
      add-HasUnits at z here start c.amount begins (low, refl) fine (omega (arith, near, small)) in
    let (sum, sums, whole) =
      add_amounts-HasUnits at (z +ℤ here) next' rest others added fine
        (omega (arith, near, small)) in
    (sum, rw adds sums, rw (← +ℤ_assoc z here (sum_units at rest)) whole)

zero_sum :
    (at : ℕ) (cs : List Component)
    → All (HasScale at) cs
    → at ≤ finest_scale
    → sum_sizes at cs < 10 ^ precision
    → (sum : Decimal) × (add_amounts zero_amount cs ≡ ok sum) × HasUnits at (sum_units at cs) sum
unfolding HasUnits times_ℤ
zero_sum at cs low fine small =
    let nothing : times_ℤ (10 ^ (at - 0)) (pos 0) ≡ pos 0 = ground arith in
    rw (nothing_+ℤ (sum_units at cs)) at
      (add_amounts-HasUnits at (pos 0) zero_amount cs low (omega arith, nothing) fine (omega arith))

-- The total is the rounded sum.
abbrev pub IsTotal : RuleDsl → List Component → Decimal → Type 0
IsTotal policy cs total =
    (sum : Decimal) × (add_amounts zero_amount cs ≡ ok sum)
    × (quantize (scale_of policy) (mode_of policy) sum ≡ ok total)

module _ (decimal_of : Text → Option Decimal) where
  applied-HasScale :
      (scale : ℕ) (mode : RoundingMode) (rule : Rule) (facts : Fields) {c : Component}
      → applied_component decimal_of scale mode rule facts ≡ ok c
      → HasScale scale c
  unfolding applied_component
  applied-HasScale scale mode rule facts {c} h =
      let (formula, _, h1) = >>=-eq-ok (or_raise rule.formula lookup_error) _ h in
      let (exact, _, h2) = >>=-eq-ok (evaluate_formula decimal_of formula facts) _ h1 in
      let (amount, rounded, h3) = >>=-eq-ok (quantize scale mode exact) _ h2 in
      let (_, _, last) = >>=-eq-ok (substitute_formula decimal_of formula.source facts) _ h3 in
      let (is_amount, _) = quantize-result scale mode exact amount rounded in
      let same : c.amount.scale ≡ scale =
        sym (ap (λ (x : Component). x.amount.scale) (ok-injective last))
        ∙ ap (λ (d : Decimal). d.scale) is_amount in
      omega (arith, same)

  rule_component-HasScale :
      (scale : ℕ) (mode : RoundingMode) (rule : Rule) (facts : Fields) {c : Component}
      → rule_component decimal_of scale mode rule facts ≡ ok c
      → HasScale scale c
  unfolding rule_component
  rule_component-HasScale scale mode rule facts h =
      let ((matched, reasons), _, rest) =
        >>=-eq-ok (match_condition decimal_of rule.when facts) _ h in
      by_match matched reasons rest
    where
      by_match :
          (matched : Bool) (reasons : List Reason) {c : Component}
          → (if matched
              then applied_component decimal_of scale mode rule facts
              else ok (skipped rule reasons))
            ≡ ok c
          → HasScale scale c
      by_match true reasons e = applied-HasScale scale mode rule facts e
      by_match false reasons e = subst (HasScale scale) (ok-injective e) (omega arith)

  pub rule_components-HasScale :
      (scale : ℕ) (mode : RoundingMode) (rules : List Rule) (facts : Fields) {cs : List Component}
      → rule_components decimal_of scale mode rules facts ≡ ok cs
      → All (HasScale scale) cs
  unfolding rule_components
  rule_components-HasScale scale mode [] facts h = subst (All (HasScale scale)) (ok-injective h) tt
  rule_components-HasScale scale mode (rule ∷ rest) facts h =
      let (c, first, h1) = >>=-eq-ok (rule_component decimal_of scale mode rule facts) _ h in
      let (cs, others, last) = >>=-eq-ok (rule_components decimal_of scale mode rest facts) _ h1 in
      subst (All (HasScale scale)) (ok-injective last) (
        rule_component-HasScale scale mode rule facts first,
        rule_components-HasScale scale mode rest facts others,
      )

  components_if-HasScale :
      (eligible : Bool) (policy : RuleDsl) (facts : Fields) {cs : List Component}
      → components_if decimal_of eligible policy facts ≡ ok cs
      → All (HasScale (scale_of policy)) cs
  components_if-HasScale true policy facts h =
      rule_components-HasScale (scale_of policy) (mode_of policy) policy.rules facts h
  components_if-HasScale false policy facts h =
      subst (All (HasScale (scale_of policy))) (ok-injective h) tt

  -- The parts of a calculation.
  pub run_policy-parts :
      (hash : HashPayload → ℕ) (policy : RuleDsl) (facts : Fields) (currency : ℕ)
      (r : CalculationResult)
      → run_policy decimal_of hash policy facts currency ≡ ok r
      → (r.eligible ≡ (check_eligibility policy.eligibility facts).0)
        × (components_if decimal_of r.eligible policy facts ≡ ok r.components)
        × IsTotal policy r.components r.total_commission
  unfolding run_policy
  run_policy-parts hash policy facts currency r h =
      let (cs, run, h1) =
        >>=-eq-ok
          (components_if decimal_of (check_eligibility policy.eligibility facts).0 policy facts) _
          h in
      let (sum, added, h2) = >>=-eq-ok (add_amounts zero_amount cs) _ h1 in
      let (total, rounded, last) =
        >>=-eq-ok (quantize (scale_of policy) (mode_of policy) sum) _ h2 in
      let same = ok-injective last in
      let fits : CalculationResult → Type 0 = λ x.
        (x.eligible ≡ (check_eligibility policy.eligibility facts).0)
        × (components_if decimal_of x.eligible policy facts ≡ ok x.components)
        × IsTotal policy x.components x.total_commission in
      subst fits same (refl, run, (sum, added, rounded))

  -- Where the sizes of the amounts add up to less than 10^28 units of the policy's scale, the total
  -- that a calculation returns is exactly the sum of the amounts of its components, at that scale.
  pub commission_is_sum :
      (hash : HashPayload → ℕ) (policy : RuleDsl) (facts : Fields) (currency : ℕ)
      (r : CalculationResult)
      → run_policy decimal_of hash policy facts currency ≡ ok r
      → sum_sizes (scale_of policy) r.components < 10 ^ precision
      → r.total_commission
        ≡ record { coefficient = sum_units (scale_of policy) r.components; scale = scale_of policy }
  commission_is_sum hash policy facts currency r h small =
      let scale = scale_of policy in
      let (_, run, (sum, added, rounded)) = run_policy-parts hash policy facts currency r h in
      let fine = quantize-fine scale (mode_of policy) sum r.total_commission rounded in
      let low = components_if-HasScale r.eligible policy facts run in
      let (sum', added', units) = zero_sum scale r.components low fine small in
      let same_sum : sum' ≡ sum = ok-injective (sym added' ∙ added) in
      let size : abs_ℤ (sum_units scale r.components) < 10 ^ precision =
        omega (arith, sum-sizes_bound scale r.components, small) in
      ok-injective (
        sym rounded
        ∙ quantize-HasUnits scale (mode_of policy) (sum_units scale r.components) sum
            (subst (HasUnits scale (sum_units scale r.components)) same_sum units) fine size)
