-- ===== src/Rules.antt =====
-- Conditions of commission rules, and the calculation of a commission (`match_condition`,
-- `check_eligibility`, `substitute_formula`, `run_policy` of revguard/rule_engine.py).
pub mod Run
pub mod Conditions
pub mod Totals
pub mod Components
mod Examples
use revguard.Base.{
  ℕ, zero, Bool, true, false, not, ◌&&◌, ◌||◌, Option, none, some, List, [], ◌∷◌, ◌++◌, Text,
  length, if◌then◌else◌, ◌==◌, ltb,
}
use revguard.Base.Int.{pos}
use revguard.Model.Errors.{Result, ok, err, ◌>>=◌, ◌>>◌, or_raise, lookup_error}
use revguard.Policy.{sort_desc}
use revguard.Decimals.{Decimal, add, equal, less, RoundingMode, quantize}
use revguard.Formula.{
  Value, Items, nil, cons, Fields, field, text_eq, Formula, to_decimal, evaluate_formula,
}

-- A value as the number that Python's `==` sees: `True` is 1.
abbrev pub as_number : Value → Option Decimal
as_number (Value.number d) = some d
as_number (Value.truth b) = some (record { coefficient = pos (if b then 1 else 0); scale = 0 })
as_number _ = none

abbrev pub both_equal : Option Decimal → Option Decimal → Bool
both_equal (some a) (some b) = equal a b
both_equal _ _ = false

-- Python's `==`, where a `float` and a `Decimal` of one text, which Python tells apart, are one number.
mutual
  pub same_value : Value → Value → Bool
  same_value Value.null Value.null = true
  same_value (Value.text s) (Value.text t) = text_eq s t
  same_value (Value.items xs) (Value.items ys) = same_items xs ys
  same_value v w = both_equal (as_number v) (as_number w)

  pub same_items : Items → Items → Bool
  same_items nil nil = true
  same_items (cons x xs) (cons y ys) = same_value x y && same_items xs ys
  same_items _ _ = false

-- `value in [...]`
pub is_item : Value → Items → Bool
unfolding same_value
is_item v nil = false
is_item v (cons x xs) = same_value x v || is_item v xs

pub is_prefix : Text → Text → Bool
is_prefix [] t = true
is_prefix (x ∷ xs) (y ∷ ys) = x == y && is_prefix xs ys
is_prefix (x ∷ xs) [] = false

-- `s in t` of texts
pub is_within : Text → Text → Bool
unfolding is_prefix
is_within s [] = is_prefix s []
is_within s (y ∷ ys) = is_prefix s (y ∷ ys) || is_within s ys

-- `value in container`; none where Python raises `TypeError`.
abbrev pub contained : Value → Value → Option Bool
contained v (Value.items xs) = some (is_item v xs)
contained (Value.text s) (Value.text t) = some (is_within s t)
contained _ _ = none

-- `_SUFFIX_OPS`
pub data Predicate : Type 0 where
  lte lt gte gt ne one_of : Predicate

-- `_lte`, `_lt`, `_gte`, `_gt`, `_ne` and `_in`, in this order.
abbrev pub suffix_ops : List (Text × Predicate)
suffix_ops =
    ((95 ∷ 108 ∷ 116 ∷ 101 ∷ []), lte)
    ∷ ((95 ∷ 108 ∷ 116 ∷ []), lt)
    ∷ ((95 ∷ 103 ∷ 116 ∷ 101 ∷ []), gte)
    ∷ ((95 ∷ 103 ∷ 116 ∷ []), gt)
    ∷ ((95 ∷ 110 ∷ 101 ∷ []), ne)
    ∷ ((95 ∷ 105 ∷ 110 ∷ []), one_of)
    ∷ []

-- `key[:-len(suffix)]` where the key ends with the suffix.
pub strip_suffix : Text → Text → Option Text
strip_suffix suffix [] = if text_eq [] suffix then some [] else none
strip_suffix suffix (x ∷ xs) =
    let rest = strip_suffix suffix xs in
    if text_eq (x ∷ xs) suffix
    then some []
    else elim rest [ none ↦ none | some front ↦ some (x ∷ front) ]

-- The field that a key names, and its predicate.
pub split_key : List (Text × Predicate) → Text → Text × Option Predicate
unfolding strip_suffix
split_key [] key = (key, none)
split_key ((suffix, op) ∷ rest) key = elim (strip_suffix suffix key) [
  | some name ↦ (name, some op)
  | none ↦ split_key rest key
]

-- Why a condition is not met.
pub data Reason : Type 0 where
  missing_field : Text → Reason
  unexpected : Text → Value → Value → Reason
  unsatisfied : Text → Value → Text → Value → Reason
  incomparable : Text → Reason

-- The amounts of what a rule yields.
pub record Component : Type 0 where
  pub kind : Option ℕ
  pub amount : Decimal
  pub formula : Option Formula
  pub substituted : List (Text × Decimal)
  pub applied : Bool
  pub skip_reasons : List Reason

pub record Rule : Type 0 where
  pub component : Option ℕ
  pub when : Fields
  pub formula : Option Formula

-- A version of a policy; a scale or a mode that is not given, or a mode of another name, is none.
pub record RuleDsl : Type 0 where
  pub policy_id : ℕ
  pub version : ℕ
  pub eligibility : Fields
  pub rules : List Rule
  pub scale : Option ℕ
  pub mode : Option RoundingMode

abbrev pub scale_of : RuleDsl → ℕ
scale_of p = elim p.scale [ none ↦ 2 | some s ↦ s ]

abbrev pub mode_of : RuleDsl → RoundingMode
mode_of p = elim p.mode [ none ↦ RoundingMode.half_up | some m ↦ m ]

abbrev pub no_failures : List Reason → Bool
no_failures [] = true
no_failures (r ∷ rs) = false

-- An entry of an eligibility: a list is a choice.
pub eligibility_entry : Text → Value → Option Value → List Reason
unfolding is_item same_value
eligibility_entry key allowed none = missing_field key ∷ []
eligibility_entry key (Value.items xs) (some actual) =
    if is_item actual xs then [] else unexpected key (Value.items xs) actual ∷ []
eligibility_entry key allowed (some actual) =
    if same_value actual allowed then [] else unexpected key allowed actual ∷ []

pub eligibility_failures : Fields → Fields → List Reason
unfolding eligibility_entry field
eligibility_failures [] facts = []
eligibility_failures ((key, allowed) ∷ rest) facts =
    eligibility_entry key allowed (field key facts) ++ eligibility_failures rest facts

unfoldable pub check_eligibility : Fields → Fields → Bool × List Reason
unfolding eligibility_failures
check_eligibility eligibility facts =
    let failures = eligibility_failures eligibility facts in (no_failures failures, failures)

-- The reasons after a test.
abbrev pub verdict : Text → Text → Value → Value → Option Bool → List Reason
verdict name key expected actual none = incomparable name ∷ []
verdict name key expected actual (some true) = []
verdict name key expected actual (some false) = unsatisfied name actual key expected ∷ []

module _ (decimal_of : Text → Option Decimal) where
  abbrev compare_values : (Decimal → Decimal → Bool) → Value → Value → Result (Option Bool)
  compare_values test actual expected = do
    a ← to_decimal decimal_of actual
    b ← to_decimal decimal_of expected
    ok (some (test a b))

  -- The entries of `_SUFFIX_OPS`; none is a `TypeError`, which `match_condition` catches.
  pub holds : Predicate → Value → Value → Result (Option Bool)
  unfolding to_decimal same_value is_within is_item
  holds lte actual expected = compare_values (λ a b. not (less b a)) actual expected
  holds lt actual expected = compare_values less actual expected
  holds gte actual expected = compare_values (λ a b. not (less a b)) actual expected
  holds gt actual expected = compare_values (λ a b. less b a) actual expected
  holds ne actual expected = ok (some (not (same_value actual expected)))
  holds one_of actual expected = ok (contained actual expected)

  -- The test of a field that the facts have.
  pub test_field : Option Predicate → Text → Text → Value → Value → Result (List Reason)
  unfolding same_value holds
  test_field none name key expected actual =
      ok (if same_value actual expected then [] else unexpected name expected actual ∷ [])
  test_field (some op) name key expected actual =
      holds op actual expected >>= λ v. ok (verdict name key expected actual v)

  -- One entry of a `when`.
  pub condition_entry : Text → Value → Fields → Result (List Reason)
  unfolding split_key field test_field
  condition_entry key expected facts =
      let (name, predicate) = split_key suffix_ops key in
      elim (field name facts) [
        | none ↦ ok (missing_field name ∷ [])
        | some actual ↦ test_field predicate name key expected actual
      ]

  pub condition_failures : Fields → Fields → Result (List Reason)
  unfolding condition_entry
  condition_failures [] facts = ok []
  condition_failures ((key, expected) ∷ rest) facts = do
    first ← condition_entry key expected facts
    others ← condition_failures rest facts
    ok (first ++ others)

  unfoldable pub match_condition : Fields → Fields → Result (Bool × List Reason)
  unfolding condition_failures
  match_condition when facts = do
    failures ← condition_failures when facts
    ok (no_failures failures, failures)
