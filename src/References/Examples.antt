-- ===== src/References/Examples.antt =====
-- Receipts of one case, and what they show.
use revguard.Base.{ℕ, ◌≡◌, refl, true, Option, none, some, List, [], ◌∷◌}
use revguard.Model.Actors.{Tool}
use revguard.Model.Money.{Receipt, order, contract, commission_ledger}
use revguard.References.{
  unread, inconsistent, other_currency, check_slot, verify_execution_references,
}

abbrev read : ℕ → Tool → Option ℕ → Option ℕ → Receipt
read n tool order_id partner_id = record {
  tool_receipt = n;
  tool_name = some tool;
  case_id = 7;
  is_success = true;
  order_id = order_id;
  partner_id = partner_id;
  currency = some 0;
  fact_digest = some n;
}

-- The order 9 of the partner 3, the contract of that partner, and a ledger read without its key.
abbrev pub receipts : List Receipt
receipts =
    read 1 Tool.get_order (some 9) (some 3)
    ∷ read 2 Tool.get_contract none (some 3)
    ∷ read 3 Tool.get_commission_ledger none none
    ∷ []

test_bindings : (verify_execution_references 7 (some 9) (some 0) receipts).1 ≡ []
unfolding verify_execution_references check_slot
test_bindings = refl

test_other_case :
    (verify_execution_references 8 (some 9) (some 0) receipts).1
    ≡ unread order ∷ unread contract ∷ unread commission_ledger ∷ []
unfolding verify_execution_references check_slot
test_other_case = refl

-- Another order: its read and the contract of an unknown partner do not fit.
test_other_order :
    (verify_execution_references 7 (some 8) (some 0) receipts).1
    ≡ inconsistent order ∷ inconsistent contract ∷ []
unfolding verify_execution_references check_slot
test_other_order = refl

test_other_currency :
    (verify_execution_references 7 (some 9) (some 1) receipts).1
    ≡ other_currency order ∷ other_currency contract ∷ other_currency commission_ledger ∷ []
unfolding verify_execution_references check_slot
test_other_currency = refl
