-- ===== src/Formula/Meaning.antt =====
-- The arithmetic that a formula denotes, and that `_eval_node` (revguard/rule_engine.py) computes it.
use revguard.Base.{
  ◌≡◌, ◌↔◌, true, false, Option, some, Text, refl, Option-cases, Bool-cases, inl, inr, subst,
}
use revguard.Model.Errors.{ok, >>=-eq-ok, ok-injective, or_raise-eq-ok, decimal_error}
use revguard.Decimals.{
  Decimal, add as add_decimals, subtract, multiply, divide, remainder, negate, is_zero,
}
use revguard.Formula.{
  Value, Fields, field, Operator, Sign, Node, constant, other_constant, name, binary, unary,
  other_node, Formula, to_decimal, apply, is_binary, eval_node, evaluate_formula,
}

-- Operators on numbers, whose result is one that the context has; a quotient and a remainder need a divisor other than zero.
pub data Computes : Operator → Decimal → Decimal → Decimal → Type 0 where
  sums : {a b c : Decimal} → add_decimals a b ≡ ok c → Computes Operator.add a b c
  subtracts : {a b c : Decimal} → subtract a b ≡ ok c → Computes Operator.sub a b c
  multiplies : {a b c : Decimal} → multiply a b ≡ ok c → Computes Operator.mult a b c
  divides : {a b c : Decimal} → is_zero b ≡ false → divide a b ≡ ok c → Computes Operator.div a b c
  remains :
      {a b c : Decimal} → is_zero b ≡ false → remainder a b ≡ ok c → Computes Operator.modulo a b c

module _ (decimal_of : Text → Option Decimal) where
  -- The number of a value.
  pub data HasNumber : Value → Decimal → Type 0 where
    as_number : {d : Decimal} → HasNumber (Value.number d) d
    as_text : {t : Text} {d : Decimal} → decimal_of t ≡ some d → HasNumber (Value.text t) d

  -- The number that a formula denotes where the names stand for values.
  pub data Denotes (variables : Fields) : Node → Decimal → Type 0 where
    literal : {d : Decimal} → Denotes variables (constant d) d
    named :
        {n : Text} {v : Value} {d : Decimal}
        → field n variables ≡ some v
        → HasNumber v d
        → Denotes variables (name n) d
    combined :
        {op : Operator} {left right : Node} {a b c : Decimal}
        → Denotes variables left a
        → Denotes variables right b
        → Computes op a b c
        → Denotes variables (binary op left right) c
    negated :
        {operand : Node} {d opposite : Decimal}
        → Denotes variables operand d
        → negate d ≡ ok opposite
        → Denotes variables (unary Sign.minus operand) opposite
    kept :
        {operand : Node} {d : Decimal}
        → Denotes variables operand d
        → Denotes variables (unary Sign.plus operand) d

  pub to_decimal-HasNumber :
      (v : Value) {d : Decimal} → to_decimal decimal_of v ≡ ok d → HasNumber v d
  unfolding to_decimal
  to_decimal-HasNumber (Value.number c) h =
      subst (HasNumber (Value.number c)) (ok-injective h) as_number
  to_decimal-HasNumber (Value.text t) h = as_text (or_raise-eq-ok (decimal_of t) decimal_error h)
  to_decimal-HasNumber Value.null h = absurd (cc)
  to_decimal-HasNumber (Value.truth b) h = absurd (cc)
  to_decimal-HasNumber (Value.items xs) h = absurd (cc)

  pub HasNumber-to_decimal :
      {v : Value} {d : Decimal} → HasNumber v d → to_decimal decimal_of v ≡ ok d
  unfolding to_decimal
  HasNumber-to_decimal as_number = refl
  HasNumber-to_decimal (as_text e) = rw (e) refl

apply-Computes :
    (op : Operator) (a b : Decimal) {c : Decimal} → apply op a b ≡ ok c → Computes op a b c
unfolding apply
apply-Computes Operator.add a b h = sums h
apply-Computes Operator.sub a b h = subtracts h
apply-Computes Operator.mult a b h = multiplies h
apply-Computes Operator.div a b {c} h = elim (Bool-cases (is_zero b)) [
  | inl is_nil ↦ let wrong = rw is_nil at h in absurd (cc)
  | inr other ↦ divides other (rw other at h)
]
apply-Computes Operator.modulo a b {c} h = elim (Bool-cases (is_zero b)) [
  | inl is_nil ↦ let wrong = rw is_nil at h in absurd (cc)
  | inr other ↦ remains other (rw other at h)
]
apply-Computes Operator.other_operator a b h = absurd (cc)

Computes-apply : {op : Operator} {a b c : Decimal} → Computes op a b c → apply op a b ≡ ok c
unfolding apply
Computes-apply (sums e) = e
Computes-apply (subtracts e) = e
Computes-apply (multiplies e) = e
Computes-apply (divides other e) = rw (other, e) refl
Computes-apply (remains other e) = rw (other, e) refl

Computes-is_binary : {op : Operator} {a b c : Decimal} → Computes op a b c → is_binary op ≡ true
Computes-is_binary (sums e) = refl
Computes-is_binary (subtracts e) = refl
Computes-is_binary (multiplies e) = refl
Computes-is_binary (divides other e) = refl
Computes-is_binary (remains other e) = refl

module _ (decimal_of : Text → Option Decimal) (variables : Fields) where
  eval_node-Denotes :
      (n : Node) {d : Decimal}
      → eval_node decimal_of variables n ≡ ok d
      → Denotes decimal_of variables n d
  unfolding eval_node
  eval_node-Denotes (constant c) h =
      subst (Denotes decimal_of variables (constant c)) (ok-injective h) literal
  eval_node-Denotes other_constant h = absurd (cc)
  eval_node-Denotes (name n) h = elim (Option-cases (field n variables)) [
    | inl missing ↦ let wrong = rw missing at h in absurd (cc)
    | inr (v, found) ↦ named found (to_decimal-HasNumber decimal_of v (rw found at h))
  ]
  eval_node-Denotes (binary op left right) h = elim (Bool-cases (is_binary op)) [
    | inl allowed ↦
        let (a, first, rest) =
          >>=-eq-ok (eval_node decimal_of variables left) _ (rw allowed at h) in
        let (b, second, last) = >>=-eq-ok (eval_node decimal_of variables right) _ rest in
        combined (eval_node-Denotes left first) (eval_node-Denotes right second)
          (apply-Computes op a b last)
    | inr refused ↦ let wrong = rw refused at h in absurd (cc)
  ]
  eval_node-Denotes (unary Sign.minus operand) h =
      let (v, first, last) = >>=-eq-ok (eval_node decimal_of variables operand) _ h in
      negated (eval_node-Denotes operand first) last
  eval_node-Denotes (unary Sign.plus operand) h = kept (eval_node-Denotes operand h)
  eval_node-Denotes (unary Sign.other_sign operand) h = absurd (cc)
  eval_node-Denotes other_node h = absurd (cc)

  Denotes-eval_node :
      {n : Node} {d : Decimal}
      → Denotes decimal_of variables n d
      → eval_node decimal_of variables n ≡ ok d
  unfolding eval_node
  Denotes-eval_node literal = refl
  Denotes-eval_node (named found is_number) = rw found (HasNumber-to_decimal decimal_of is_number)
  Denotes-eval_node (combined first second computes) =
      rw (Computes-is_binary computes, Denotes-eval_node first, Denotes-eval_node second)
        (Computes-apply computes)
  Denotes-eval_node (negated first e) = rw (Denotes-eval_node first) e
  Denotes-eval_node (kept first) = Denotes-eval_node first

  -- Evaluation of a formula that parses gives a number exactly when its tree is built of numeric
  -- literals, bound names, the five operators and signs, with a number for every name, no divisor
  -- that is zero, and no result that is too large; the number is then the one that arithmetic gives.
  pub evaluate_formula_iff :
      (f : Formula) (n : Node) (d : Decimal)
      → f.tree ≡ some n
      → (evaluate_formula decimal_of f variables ≡ ok d) ↔ Denotes decimal_of variables n d
  unfolding evaluate_formula
  evaluate_formula_iff f n d parses = rw parses (eval_node-Denotes n, Denotes-eval_node)

  -- A formula with a value has a tree.
  pub evaluate_formula-Denotes :
      (f : Formula) (d : Decimal)
      → evaluate_formula decimal_of f variables ≡ ok d
      → (n : Node) × (f.tree ≡ some n) × Denotes decimal_of variables n d
  unfolding evaluate_formula
  evaluate_formula-Denotes f d h = elim (Option-cases f.tree) [
    | inl missing ↦ let wrong = rw missing at h in absurd (cc)
    | inr (n, parses) ↦ (n, parses, (evaluate_formula_iff f n d parses).0 h)
  ]
