-- ===== src/Formula/Examples.antt =====
-- Formulas on small facts.
use revguard.Base.{
  ℕ, ◌+◌, ◌-◌, ◌*◌, ◌≡◌, ◌↔◌, Option, none, some, [], ◌∷◌, Text, leb, ◌&&◌, if◌then◌else◌, refl,
}
use revguard.Base.Int.{pos, neg_ℤ, ◌+ℤ◌}
use revguard.Model.Errors.{ok, err, formula_error}
use revguard.Decimals.{Decimal, subtract, multiply, add, times_ℤ}
use revguard.Formula.{
  Value, Fields, field, Operator, Sign, Node, Formula, constant, name, binary, unary,
  evaluate_formula,
}
use revguard.Formula.Meaning.{Denotes, evaluate_formula_iff}
use revguard.Decimals.Outcomes.{IsNumberOrOverflow}
use revguard.Formula.Progress.{
  IsArithmetic, of_literal, of_name, of_number, of_text, of_operation, of_division, of_product,
  of_difference, of_remainder, arithmetic_raises_no_formula_error,
}

-- Digits only.
digits_from : ℕ → Text → Option Decimal
digits_from seen [] = some (record { coefficient = pos seen; scale = 0 })
digits_from seen (c ∷ rest) =
    let more = digits_from (10 * seen + (c - 48)) rest in
    if leb 48 c && leb c 57 then more else none

abbrev decimal_of_digits : Text → Option Decimal
decimal_of_digits = digits_from 0

-- {"a": 180000, "b": "12", "c": None}
abbrev facts : Fields
facts =
    ((97 ∷ []), Value.number (record { coefficient = pos 180000; scale = 0 }))
    ∷ ((98 ∷ []), Value.text (49 ∷ 50 ∷ []))
    ∷ ((99 ∷ []), Value.null)
    ∷ []

-- a * 0.15 - b
abbrev tree : Node
tree =
    binary Operator.sub
      (binary Operator.mult (name (97 ∷ []))
        (constant (record { coefficient = pos 15; scale = 2 })))
      (name (98 ∷ []))

abbrev formula : Node → Formula
formula n = record { source = []; tree = some n }

abbrev value : Decimal
value = record { coefficient = pos 2698800; scale = 2 }

test_formula : evaluate_formula decimal_of_digits (formula tree) facts ≡ ok value
unfolding evaluate_formula digits_from subtract multiply add times_ℤ neg_ℤ ◌+ℤ◌
test_formula = refl

-- a / 0, and a name without a number.
test_division :
    evaluate_formula decimal_of_digits
      (formula (
        binary Operator.div
          (name (97 ∷ []))
          (constant (record { coefficient = pos 0; scale = 0 }))))
      facts
    ≡ err formula_error
unfolding evaluate_formula digits_from subtract multiply add times_ℤ neg_ℤ ◌+ℤ◌
test_division = refl

test_null :
    evaluate_formula decimal_of_digits (formula (unary Sign.minus (name (99 ∷ [])))) facts
    ≡ err formula_error
unfolding evaluate_formula digits_from subtract multiply add times_ℤ neg_ℤ ◌+ℤ◌
test_null = refl

evaluate_formula_iff_example :
    (evaluate_formula decimal_of_digits (formula tree) facts ≡ ok value)
    ↔ Denotes decimal_of_digits facts tree value
evaluate_formula_iff_example =
    evaluate_formula_iff decimal_of_digits facts (formula tree) tree value refl

-- (a * 0.15 - b) % 7
abbrev rest_of : Node
rest_of = binary Operator.modulo tree (constant (record { coefficient = pos 7; scale = 0 }))

rest_of-IsArithmetic : IsArithmetic facts rest_of
unfolding field digits_from
rest_of-IsArithmetic =
    of_division of_remainder
      (of_operation of_difference (of_operation of_product (of_name refl of_number) of_literal)
        (of_name refl of_text))
      refl

arithmetic_raises_no_formula_error_example :
    IsNumberOrOverflow (evaluate_formula decimal_of_digits (formula rest_of) facts)
arithmetic_raises_no_formula_error_example =
    arithmetic_raises_no_formula_error decimal_of_digits facts (formula rest_of) rest_of refl
      rest_of-IsArithmetic
