-- ===== src/Formula/Progress.antt =====
-- How formulas fail (`_eval_node`, revguard/rule_engine.py): a typing that excludes `FormulaError`.
use revguard.Base.{◌≡◌, false, Option, some, Text, inl, inr, refl, true, Option-cases}
use revguard.Model.Errors.{◌>>=◌}
use revguard.Decimals.{Decimal, negate, is_zero}
use revguard.Decimals.Outcomes.{
  IsNumberOrOverflow, add-IsNumberOrOverflow, subtract-IsNumberOrOverflow,
  multiply-IsNumberOrOverflow, divide-IsNumberOrOverflow, remainder-IsNumberOrOverflow,
  negate-IsNumberOrOverflow, >>=-IsNumberOrOverflow,
}
use revguard.Formula.{
  Value, Fields, field, Operator, Sign, Node, constant, name, binary, unary, Formula, to_decimal,
  is_binary, apply, eval_node, evaluate_formula,
}

-- The permitted operators that every two numbers may be given to.
pub data IsTotal : Operator → Type 0 where
  of_sum : IsTotal Operator.add
  of_difference : IsTotal Operator.sub
  of_product : IsTotal Operator.mult

-- The permitted operators that need a divisor.
pub data IsDivision : Operator → Type 0 where
  of_quotient : IsDivision Operator.div
  of_remainder : IsDivision Operator.modulo

-- Values that are read as numbers: numbers and texts.
pub data IsNumeric : Value → Type 0 where
  of_number : {d : Decimal} → IsNumeric (Value.number d)
  of_text : {t : Text} → IsNumeric (Value.text t)

-- Formulas of numeric literals, names with numeric values, sums, differences, products, signs, and
-- quotients and remainders by a literal other than zero.
pub data IsArithmetic (variables : Fields) : Node → Type 0 where
  of_literal : {d : Decimal} → IsArithmetic variables (constant d)
  of_name :
      {n : Text} {v : Value}
      → field n variables ≡ some v
      → IsNumeric v
      → IsArithmetic variables (name n)
  of_operation :
      {op : Operator} {left right : Node}
      → IsTotal op
      → IsArithmetic variables left
      → IsArithmetic variables right
      → IsArithmetic variables (binary op left right)
  of_division :
      {op : Operator} {left : Node} {d : Decimal}
      → IsDivision op
      → IsArithmetic variables left
      → is_zero d ≡ false
      → IsArithmetic variables (binary op left (constant d))
  of_minus :
      {operand : Node}
      → IsArithmetic variables operand
      → IsArithmetic variables (unary Sign.minus operand)
  of_plus :
      {operand : Node}
      → IsArithmetic variables operand
      → IsArithmetic variables (unary Sign.plus operand)

total-IsNumberOrOverflow :
    {op : Operator} → IsTotal op → (a b : Decimal) → IsNumberOrOverflow (apply op a b)
unfolding apply
total-IsNumberOrOverflow of_sum a b = add-IsNumberOrOverflow a b
total-IsNumberOrOverflow of_difference a b = subtract-IsNumberOrOverflow a b
total-IsNumberOrOverflow of_product a b = multiply-IsNumberOrOverflow a b

division-IsNumberOrOverflow :
    {op : Operator}
    → IsDivision op
    → (a b : Decimal) → is_zero b ≡ false
    → IsNumberOrOverflow (apply op a b)
unfolding apply
division-IsNumberOrOverflow of_quotient a b other = rw other (divide-IsNumberOrOverflow a b)
division-IsNumberOrOverflow of_remainder a b other = rw other (remainder-IsNumberOrOverflow a b)

total_is_binary : {op : Operator} → IsTotal op → is_binary op ≡ true
total_is_binary of_sum = refl
total_is_binary of_difference = refl
total_is_binary of_product = refl

division_is_binary : {op : Operator} → IsDivision op → is_binary op ≡ true
division_is_binary of_quotient = refl
division_is_binary of_remainder = refl

module _ (decimal_of : Text → Option Decimal) where
  numeric-IsNumberOrOverflow :
      {v : Value} → IsNumeric v → IsNumberOrOverflow (to_decimal decimal_of v)
  unfolding to_decimal
  numeric-IsNumberOrOverflow (of_number {d}) = inl (d, refl)
  numeric-IsNumberOrOverflow (of_text {t}) = elim (Option-cases (decimal_of t)) [
    | inl malformed ↦ rw malformed (inr refl)
    | inr (d, denotes) ↦ rw denotes (inl (d, refl))
  ]

  eval_node-IsNumberOrOverflow :
      {variables : Fields} {n : Node}
      → IsArithmetic variables n
      → IsNumberOrOverflow (eval_node decimal_of variables n)
  unfolding eval_node
  eval_node-IsNumberOrOverflow (of_literal {d}) = inl (d, refl)
  eval_node-IsNumberOrOverflow (of_name found numeric) =
      rw found (numeric-IsNumberOrOverflow numeric)
  eval_node-IsNumberOrOverflow {variables} (of_operation {op} {left} {right} total first second) =
      let first' = eval_node-IsNumberOrOverflow first in
      let second' = eval_node-IsNumberOrOverflow second in
      rw (total_is_binary total) (
        >>=-IsNumberOrOverflow (eval_node decimal_of variables left)
          (λ a. eval_node decimal_of variables right >>= λ b. apply op a b) first'
          (λ a.
            >>=-IsNumberOrOverflow (eval_node decimal_of variables right) (λ b. apply op a b)
              second' (λ b. total-IsNumberOrOverflow total a b)))
  eval_node-IsNumberOrOverflow {variables} (of_division {op} {left} {d} division first other) =
      rw (division_is_binary division) (
        >>=-IsNumberOrOverflow (eval_node decimal_of variables left) (λ a. apply op a d)
          (eval_node-IsNumberOrOverflow first)
          (λ a. division-IsNumberOrOverflow division a d other))
  eval_node-IsNumberOrOverflow {variables} (of_minus {operand} first) =
      >>=-IsNumberOrOverflow (eval_node decimal_of variables operand) negate
        (eval_node-IsNumberOrOverflow first) negate-IsNumberOrOverflow
  eval_node-IsNumberOrOverflow (of_plus first) = eval_node-IsNumberOrOverflow first

  -- A formula whose tree has numeric literals, names bound to numbers or texts, sums, differences,
  -- products, signs, and quotients and remainders by literals other than zero raises no
  -- `FormulaError`: it evaluates to a number or ends in an exception of the decimal arithmetic.
  pub arithmetic_raises_no_formula_error :
      (variables : Fields) (f : Formula) (n : Node)
      → f.tree ≡ some n
      → IsArithmetic variables n
      → IsNumberOrOverflow (evaluate_formula decimal_of f variables)
  unfolding evaluate_formula
  arithmetic_raises_no_formula_error variables f n parses typed =
      rw parses (eval_node-IsNumberOrOverflow typed)
