-- ===== src/Rules/Components.antt =====
-- The components of a calculation, rule by rule (`run_policy`, revguard/rule_engine.py).
use revguard.Base.{
  ℕ, ◌≡◌, ◌↔◌, Option, some, List, [], ◌∷◌, Text, Bool, true, false, All, refl, sym, ◌∙◌, subst,
  if◌then◌else◌,
}
use revguard.Model.Errors.{ok, or_raise, >>=-eq-ok, ok-injective, or_raise-eq-ok, lookup_error}
use revguard.Decimals.{Decimal, rescale, quantize, RoundingMode}
use revguard.Decimals.Exact.{quantize-result}
use revguard.Formula.{Fields, Formula, Node, evaluate_formula}
use revguard.Formula.Meaning.{Denotes, evaluate_formula-Denotes}
use revguard.Rules.{Reason, Component, Rule, RuleDsl, scale_of, mode_of, match_condition}
use revguard.Rules.Conditions.{
  IsMet, IsEligible, match_condition_iff, match_condition-All, check_eligibility_iff,
}
use revguard.Rules.Run.{
  CalculationResult, HashPayload, zero_amount, skipped, substitute_formula, applied_component,
  rule_component, rule_components, run_policy,
}
use revguard.Rules.Totals.{run_policy-parts}

-- Lists of the same length, whose elements are related one by one.
pub data AllPairs {A B : Type 0} (R : A → B → Type 0) : List A → List B → Type 0 where
  no_pairs : AllPairs R [] []
  pair :
      {a : A} {b : B} {xs : List A} {ys : List B}
      → R a b
      → AllPairs R xs ys
      → AllPairs R (a ∷ xs) (b ∷ ys)

module _ (decimal_of : Text → Option Decimal) where
  -- The component that a rule stands for: the rounded value of its formula where its condition is
  -- met, and otherwise nothing.
  pub data IsOutcome (scale : ℕ) (mode : RoundingMode) (facts : Fields) (rule : Rule)
      (c : Component) : Type 0 where
    pays :
        (f : Formula) (n : Node) (exact : Decimal)
        → All (IsMet decimal_of facts) rule.when
        → rule.formula ≡ some f
        → f.tree ≡ some n
        → Denotes decimal_of facts n exact
        → c.amount ≡ record { coefficient = rescale scale mode exact; scale = scale }
        → c.applied ≡ true
        → c.kind ≡ rule.component
        → IsOutcome scale mode facts rule c
    skips :
        (All (IsMet decimal_of facts) rule.when → ⊥)
        → c.amount ≡ zero_amount
        → c.applied ≡ false
        → c.kind ≡ rule.component
        → IsOutcome scale mode facts rule c

  applied-IsOutcome :
      (scale : ℕ) (mode : RoundingMode) (rule : Rule) (facts : Fields) {c : Component}
      → All (IsMet decimal_of facts) rule.when
      → applied_component decimal_of scale mode rule facts ≡ ok c
      → IsOutcome scale mode facts rule c
  unfolding applied_component
  applied-IsOutcome scale mode rule facts {c} met h =
      let (formula, given, h1) = >>=-eq-ok (or_raise rule.formula lookup_error) _ h in
      let (exact, valued, h2) = >>=-eq-ok (evaluate_formula decimal_of formula facts) _ h1 in
      let (amount, rounded, h3) = >>=-eq-ok (quantize scale mode exact) _ h2 in
      let (_, _, last) = >>=-eq-ok (substitute_formula decimal_of formula.source facts) _ h3 in
      let (n, parses, denotes) = evaluate_formula-Denotes decimal_of facts formula exact valued in
      let (is_amount, _) = quantize-result scale mode exact amount rounded in
      subst (IsOutcome scale mode facts rule) (ok-injective last) (
        pays formula n exact met (or_raise-eq-ok rule.formula lookup_error given) parses denotes
          is_amount refl refl)

  rule_component-IsOutcome :
      (scale : ℕ) (mode : RoundingMode) (rule : Rule) (facts : Fields) {c : Component}
      → rule_component decimal_of scale mode rule facts ≡ ok c
      → IsOutcome scale mode facts rule c
  unfolding rule_component
  rule_component-IsOutcome scale mode rule facts h =
      let ((matched, reasons), run, rest) =
        >>=-eq-ok (match_condition decimal_of rule.when facts) _ h in
      by_match matched reasons run rest
    where
      by_match :
          (matched : Bool) (reasons : List Reason) {c : Component}
          → match_condition decimal_of rule.when facts ≡ ok (matched, reasons)
          → (if matched
              then applied_component decimal_of scale mode rule facts
              else ok (skipped rule reasons))
            ≡ ok c
          → IsOutcome scale mode facts rule c
      by_match true reasons run e =
          let met = match_condition-All decimal_of rule.when facts reasons run in
          applied-IsOutcome scale mode rule facts met e
      by_match false reasons run e = subst (IsOutcome scale mode facts rule) (ok-injective e) (
          skips
            (λ met.
              let clash = sym run ∙ (match_condition_iff decimal_of rule.when facts).1 met in cc)
            refl refl refl)

  rule_components-IsOutcome :
      (scale : ℕ) (mode : RoundingMode) (rules : List Rule) (facts : Fields) {cs : List Component}
      → rule_components decimal_of scale mode rules facts ≡ ok cs
      → AllPairs (IsOutcome scale mode facts) rules cs
  unfolding rule_components
  rule_components-IsOutcome scale mode [] facts h =
      subst (AllPairs (IsOutcome scale mode facts) []) (ok-injective h) no_pairs
  rule_components-IsOutcome scale mode (rule ∷ rest) facts h =
      let (c, first, h1) = >>=-eq-ok (rule_component decimal_of scale mode rule facts) _ h in
      let (cs, others, last) = >>=-eq-ok (rule_components decimal_of scale mode rest facts) _ h1 in
      subst (AllPairs (IsOutcome scale mode facts) (rule ∷ rest)) (ok-injective last) (
        pair (rule_component-IsOutcome scale mode rule facts first)
          (rule_components-IsOutcome scale mode rest facts others))

  -- A calculation that returns has judged the facts eligible exactly when they have every field of
  -- the eligibility with an allowed value. It then has one component for each rule, in order: the
  -- number that the rule's formula denotes, rounded to the policy's scale, where the facts meet the
  -- rule's condition, and zero where they do not. For other facts it has no component.
  pub components_follow_rules :
      (hash : HashPayload → ℕ) (policy : RuleDsl) (facts : Fields) (currency : ℕ)
      (r : CalculationResult)
      → run_policy decimal_of hash policy facts currency ≡ ok r
      → ((r.eligible ≡ true) ↔ All (IsEligible facts) policy.eligibility)
        × (r.eligible ≡ true
            → AllPairs
                (IsOutcome (scale_of policy) (mode_of policy) facts)
                policy.rules
                r.components)
        × (r.eligible ≡ false → r.components ≡ [])
  components_follow_rules hash policy facts currency r h =
      let (judged, run, _) = run_policy-parts decimal_of hash policy facts currency r h in
      let (met, back) = check_eligibility_iff policy.eligibility facts in
      (
        ((λ e. met (sym judged ∙ e)), (λ a. judged ∙ back a)),
        (λ e.
            rule_components-IsOutcome (scale_of policy) (mode_of policy) policy.rules facts
              (rw e at run)),
        (λ e. sym (ok-injective (rw e at run))),
      )
