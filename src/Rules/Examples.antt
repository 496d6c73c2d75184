-- ===== src/Rules/Examples.antt =====
-- A policy with two rules, and its calculation.
use revguard.Base.{ℕ, ◌≡◌, ◌↔◌, true, false, Option, none, some, [], ◌∷◌, Text, All, refl, arith}
use revguard.Base.Int.{pos, neg_ℤ, ◌+ℤ◌}
use revguard.Model.Errors.{ok, err, formula_error}
use revguard.Decimals.{Decimal, multiply, add, times_ℤ, RoundingMode}
use revguard.Formula.{Value, nil, cons, Fields, Operator, Formula, constant, name, binary}
use revguard.Rules.{Component, RuleDsl, scale_of, mode_of, unsatisfied, match_condition}
use revguard.Policy.{sort_desc, insert_desc}
use revguard.Rules.Conditions.{IsEligible}
use revguard.Rules.Components.{AllPairs, IsOutcome, components_follow_rules}
use revguard.Rules.Totals.{sum_units, sum_sizes, commission_is_sum}
use revguard.Rules.Run.{CalculationResult, HashPayload, run_policy}

abbrev no_texts : Text → Option Decimal
no_texts t = none

abbrev whole : ℕ → Value
whole n = Value.number (record { coefficient = pos n; scale = 0 })

abbrev tier : Text
tier = 116 ∷ []

abbrev gold : Text
gold = 71 ∷ []

abbrev amount : Text
amount = 97 ∷ []

abbrev days : Text
days = 100 ∷ []

abbrev days_lte : Text
days_lte = 100 ∷ 95 ∷ 108 ∷ 116 ∷ 101 ∷ []

abbrev facts : Fields
facts = (amount, whole 180001) ∷ (tier, Value.text gold) ∷ (days, whole 16) ∷ []

-- amount * 0.155, and its text.
abbrev formula : Formula
formula = record {
  source = 97 ∷ 42 ∷ 48 ∷ 46 ∷ 49 ∷ 53 ∷ 53 ∷ [];
  tree =
      some (
        binary Operator.mult (name amount)
          (constant (record { coefficient = pos 155; scale = 3 })));
}

-- Rules for a tier, for payment within 30 days, and within 10.
abbrev policy : RuleDsl
policy = record {
  policy_id = 1;
  version = 3;
  eligibility = (tier, Value.items (cons (Value.text gold) nil)) ∷ [];
  rules =
      record { component = some 1; when = (tier, Value.text gold) ∷ []; formula = some formula }
      ∷ record { component = some 2; when = (days_lte, whole 30) ∷ []; formula = some formula }
      ∷ record { component = some 3; when = (days_lte, whole 10) ∷ []; formula = none }
      ∷ [];
  scale = none;
  mode = none;
}

abbrev hash : HashPayload → ℕ
hash payload = payload.version

abbrev paid : ℕ → Component
paid kind = record {
  kind = some kind;
  amount = record { coefficient = pos 2790016; scale = 2 };
  formula = some formula;
  substituted = (amount, record { coefficient = pos 180001; scale = 0 }) ∷ [];
  applied = true;
  skip_reasons = [];
}

abbrev result : CalculationResult
result = record {
  eligible = true;
  total_commission = record { coefficient = pos 5580032; scale = 2 };
  currency = 7;
  components =
      paid 1
      ∷ paid 2
      ∷ record {
        kind = some 3;
        amount = record { coefficient = pos 0; scale = 0 };
        formula = none;
        substituted = [];
        applied = false;
        skip_reasons = unsatisfied days (whole 16) days_lte (whole 10) ∷ [];
      }
      ∷ [];
  rounding_rule = (2, RoundingMode.half_up);
  calculation_hash = 3;
  policy_version = 3;
  eligibility_failures = [];
  facts_snapshot = facts;
}

test_run : run_policy no_texts hash policy facts 7 ≡ ok result
unfolding run_policy sort_desc insert_desc multiply add times_ℤ neg_ℤ ◌+ℤ◌
test_run = refl

-- A field that is no number where the key asks for an order.
test_null :
    match_condition no_texts ((days_lte, whole 30) ∷ []) ((days, Value.null) ∷ [])
    ≡ err formula_error
unfolding match_condition
test_null = refl

commission_is_sum_example :
    result.total_commission
    ≡ record { coefficient = sum_units (scale_of policy) result.components; scale = 2 }
unfolding sum_sizes times_ℤ neg_ℤ
commission_is_sum_example =
    commission_is_sum no_texts hash policy facts 7 result test_run (omega arith)

components_follow_rules_example :
    ((result.eligible ≡ true) ↔ All (IsEligible facts) policy.eligibility)
    × (result.eligible ≡ true
        → AllPairs
            (IsOutcome no_texts (scale_of policy) (mode_of policy) facts)
            policy.rules
            result.components)
    × (result.eligible ≡ false → result.components ≡ [])
components_follow_rules_example =
    components_follow_rules no_texts hash policy facts 7 result test_run
