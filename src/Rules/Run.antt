-- ===== src/Rules/Run.antt =====
-- The calculation of a commission (`substitute_formula`, `run_policy` of revguard/rule_engine.py).
use revguard.Base.{
  ℕ, Bool, true, false, Option, some, List, [], ◌∷◌, map, Text, length, if◌then◌else◌, ltb, ◌==◌,
}
use revguard.Base.Int.{pos}
use revguard.Model.Errors.{Result, ok, ◌>>=◌, or_raise, lookup_error}
use revguard.Policy.{sort_desc}
use revguard.Decimals.{Decimal, add, RoundingMode, quantize}
use revguard.Formula.{Value, Fields, to_decimal, evaluate_formula}
use revguard.Rules.{
  Reason, Component, Rule, RuleDsl, scale_of, mode_of, is_within, check_eligibility,
  match_condition,
}

-- Texts in Python's order.
pub text_leb : Text → Text → Bool
text_leb [] t = true
text_leb (x ∷ xs) [] = false
text_leb (x ∷ xs) (y ∷ ys) = if x == y then text_leb xs ys else ltb x y

-- `sorted(facts.items())`; no two keys are the same.
pub insert_field : Text × Value → Fields → Fields
unfolding text_leb
insert_field entry [] = entry ∷ []
insert_field entry (other ∷ rest) =
    let later = insert_field entry rest in
    if text_leb entry.0 other.0 then entry ∷ other ∷ rest else other ∷ later

pub sort_fields : Fields → Fields
unfolding insert_field
sort_fields [] = []
sort_fields (entry ∷ rest) = insert_field entry (sort_fields rest)

-- What `calculation_hash` is the digest of; the digest takes each fact by its text.
pub record HashPayload : Type 0 where
  pub policy_id : ℕ
  pub version : ℕ
  pub facts : Fields
  pub components : List (Option ℕ × Decimal × Bool)

pub record CalculationResult : Type 0 where
  pub eligible : Bool
  pub total_commission : Decimal
  pub currency : ℕ
  pub components : List Component
  pub rounding_rule : ℕ × RoundingMode
  pub calculation_hash : ℕ
  pub policy_version : ℕ
  pub eligibility_failures : List Reason
  pub facts_snapshot : Fields

abbrev pub zero_amount : Decimal
zero_amount = record { coefficient = pos 0; scale = 0 }

-- `sum((to_decimal(c["amount"]) for c in components), start)`
unfoldable pub add_amounts : Decimal → List Component → Result Decimal
add_amounts start [] = ok start
add_amounts start (c ∷ rest) = do sum ← add start c.amount; add_amounts sum rest

-- The component of a rule whose condition is not met.
abbrev pub skipped : Rule → List Reason → Component
skipped rule reasons = record {
  kind = rule.component;
  amount = zero_amount;
  formula = rule.formula;
  substituted = [];
  applied = false;
  skip_reasons = reasons;
}

module _ (decimal_of : Text → Option Decimal) where
  -- `substitute_formula`, as the replacements that it makes, in order.
  pub replacements : Text → Fields → Result (List (Text × Decimal))
  unfolding is_within to_decimal
  replacements source [] = ok []
  replacements source ((name, value) ∷ rest) =
      let others = replacements source rest in
      if is_within name source
      then (do d ← to_decimal decimal_of value; more ← others; ok ((name, d) ∷ more))
      else others

  abbrev pub substitute_formula : Text → Fields → Result (List (Text × Decimal))
  substitute_formula source variables =
      replacements source (sort_desc (λ entry. length entry.0) variables)

  unfoldable pub applied_component : ℕ → RoundingMode → Rule → Fields → Result Component
  unfolding evaluate_formula replacements quantize
  applied_component scale mode rule facts = do
    formula ← or_raise rule.formula lookup_error
    exact ← evaluate_formula decimal_of formula facts
    amount ← quantize scale mode exact
    substituted ← substitute_formula formula.source facts
    ok (record {
      kind = rule.component;
      amount = amount;
      formula = some formula;
      substituted = substituted;
      applied = true;
      skip_reasons = [];
    })

  -- One turn of the loop over the rules.
  unfoldable pub rule_component : ℕ → RoundingMode → Rule → Fields → Result Component
  unfolding match_condition applied_component
  rule_component scale mode rule facts = do
    (matched, reasons) ← match_condition decimal_of rule.when facts
    if matched then applied_component scale mode rule facts else ok (skipped rule reasons)

  unfoldable pub rule_components : ℕ → RoundingMode → List Rule → Fields → Result (List Component)
  unfolding rule_component
  rule_components scale mode [] facts = ok []
  rule_components scale mode (rule ∷ rest) facts = do
    first ← rule_component scale mode rule facts
    others ← rule_components scale mode rest facts
    ok (first ∷ others)

  -- `if eligible: for rule in rules: ...`
  abbrev pub components_if : Bool → RuleDsl → Fields → Result (List Component)
  components_if true policy facts =
      rule_components (scale_of policy) (mode_of policy) policy.rules facts
  components_if false policy facts = ok []

  -- `hash` is the digest of the canonical JSON of the payload.
  unfoldable pub run_policy : (HashPayload → ℕ) → RuleDsl → Fields → ℕ → Result CalculationResult
  unfolding check_eligibility rule_components add_amounts sort_fields quantize
  run_policy hash policy facts currency = do
    let (eligible, failures) = check_eligibility policy.eligibility facts
    components ← components_if eligible policy facts
    sum ← add_amounts zero_amount components
    total ← quantize (scale_of policy) (mode_of policy) sum
    ok (record {
      eligible = eligible;
      total_commission = total;
      currency = currency;
      components = components;
      rounding_rule = (scale_of policy, mode_of policy);
      calculation_hash = hash (record {
        policy_id = policy.policy_id;
        version = policy.version;
        facts = sort_fields facts;
        components = map (λ c. (c.kind, c.amount, c.applied)) components;
      });
      policy_version = policy.version;
      eligibility_failures = failures;
      facts_snapshot = facts;
    })
