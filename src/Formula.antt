-- ===== src/Formula.antt =====
-- Formulas of the rule engine (`to_decimal`, `evaluate_formula`, `_eval_node` of
-- revguard/rule_engine.py), on the tree that Python's `ast.parse` makes of their text.
pub mod Meaning
pub mod Progress
mod Examples
use revguard.Base.{
  Bool, true, false, ◌&&◌, ◌||◌, Option, none, some, List, [], ◌∷◌, Text, if◌then◌else◌, ◌==◌,
}
use revguard.Model.Errors.{Result, ok, err, ◌>>=◌, ◌>>◌, or_raise, formula_error, decimal_error}
use revguard.Decimals.{
  Decimal, add as add_decimals, subtract, multiply, divide, remainder, negate, is_zero,
}

-- A value of JSON or a `Decimal`. An `int` is a number; a `float` is the number of its text.
mutual
  pub data Value : Type 0 where
    null : Value
    truth : Bool → Value
    number : Decimal → Value
    text : Text → Value
    items : Items → Value

  pub data Items : Type 0 where
    nil : Items
    cons : Value → Items → Items

abbrev pub text_eq : Text → Text → Bool
text_eq [] [] = true
text_eq (x ∷ xs) (y ∷ ys) = x == y && text_eq xs ys
text_eq _ _ = false

-- A Python dict whose keys are texts.
abbrev pub Fields : Type 0
Fields = List (Text × Value)

-- `d.get(name)`
unfoldable pub field : Text → Fields → Option Value
field name [] = none
field name ((at, value) ∷ rest) = if text_eq name at then some value else field name rest

pub data Operator : Type 0 where
  add sub mult div modulo other_operator : Operator

pub data Sign : Type 0 where
  minus plus other_sign : Sign

-- The nodes of a parsed formula; a literal that is no number, and every other node, is told apart no
-- further.
pub data Node : Type 0 where
  constant : Decimal → Node
  other_constant : Node
  name : Text → Node
  binary : Operator → Node → Node → Node
  unary : Sign → Node → Node
  other_node : Node

-- The text of a formula, and its tree where it parses.
pub record Formula : Type 0 where
  pub source : Text
  pub tree : Option Node

-- The entries of `_BIN_OPS`, with the test of the divisor before them.
pub apply : Operator → Decimal → Decimal → Result Decimal
apply Operator.add a b = add_decimals a b
apply Operator.sub a b = subtract a b
apply Operator.mult a b = multiply a b
apply Operator.div a b = if is_zero b then err formula_error else divide a b
apply Operator.modulo a b = if is_zero b then err formula_error else remainder a b
apply Operator.other_operator a b = err formula_error

abbrev pub is_binary : Operator → Bool
is_binary Operator.other_operator = false
is_binary _ = true

abbrev pub with_sign : Sign → Result Decimal → Result Decimal
with_sign Sign.minus value = value >>= negate
with_sign Sign.plus value = value
with_sign Sign.other_sign value = err formula_error

-- What `Decimal(text)` makes of a text that denotes a finite number.
module _ (decimal_of : Text → Option Decimal) where
  unfoldable pub to_decimal : Value → Result Decimal
  to_decimal (number d) = ok d
  to_decimal (text t) = or_raise (decimal_of t) decimal_error
  to_decimal _ = err formula_error

  abbrev pub variable : Option Value → Result Decimal
  variable none = err formula_error
  variable (some v) = to_decimal v

  -- `_eval_node`: the operator is checked before its operands, the left operand before the right.
  unfoldable pub eval_node : Fields → Node → Result Decimal
  unfolding apply to_decimal field
  eval_node variables (constant d) = ok d
  eval_node variables other_constant = err formula_error
  eval_node variables (name n) = variable (field n variables)
  eval_node variables (binary op left right) =
      let first = eval_node variables left in
      let second = eval_node variables right in
      if is_binary op then first >>= (λ a. second >>= λ b. apply op a b) else err formula_error
  eval_node variables (unary sign operand) = with_sign sign (eval_node variables operand)
  eval_node variables other_node = err formula_error

  abbrev eval_tree : Fields → Option Node → Result Decimal
  eval_tree variables none = err formula_error
  eval_tree variables (some node) = eval_node variables node

  unfoldable pub evaluate_formula : Formula → Fields → Result Decimal
  unfolding eval_node
  evaluate_formula formula variables = eval_tree variables formula.tree
