-- ===== src/References.antt =====
-- The facts that a posting must rest on: `verify_execution_references`
-- (revguard/execution_reference.py) over the receipts of the gateway.
pub mod Slots
pub mod Examples
use revguard.Base.{
  ℕ, Bool, true, false, not, ◌&&◌, Option, none, some, List, [], ◌∷◌, ◌==◌, option_eq,
  if◌then◌else◌,
}
use revguard.Model.Actors.{Tool}
use revguard.Model.Money.{
  Receipt, Slot, order, contract, commission_ledger, Binding, fact_bound, case_only, Reference,
}

-- `REQUIRED_REFERENCE_SLOTS`: the tools that fill a slot.
abbrev pub fills : Slot → Option Tool → Bool
fills order (some Tool.get_order) = true
fills contract (some Tool.get_contract) = true
fills contract (some Tool.get_effective_terms) = true
fills commission_ledger (some Tool.get_commission_ledger) = true
fills _ _ = false

-- `SLOT_BINDING_KEYS`, as the value of the key in a receipt.
abbrev pub binding_value : Slot → Receipt → Option ℕ
binding_value order r = r.order_id
binding_value contract r = r.partner_id
binding_value commission_ledger r = r.order_id

abbrev pub has_name : Option Tool → Bool
has_name none = false
has_name (some _) = true

-- `_successful_reads`
abbrev pub is_successful_read : ℕ → Receipt → Bool
is_successful_read case_id r = r.case_id == case_id && r.is_success && has_name r.tool_name

-- `[item for item in items if test(item)][-1]`, if there is one.
abbrev pub last_such : (Receipt → Bool) → List Receipt → Option Receipt
last_such test [] = none
last_such test (r ∷ rs) = elim (last_such test rs) [
  | some later ↦ some later
  | none ↦ if test r then some r else none
]

-- The order's partner, as the last read of that order told it.
abbrev pub expected_partner : ℕ → Option ℕ → List Receipt → Option ℕ
expected_partner case_id order_id receipts =
    elim (last_such
      (λ r.
        is_successful_read case_id r && fills order r.tool_name && option_eq r.order_id order_id)
      receipts) [ none ↦ none | some r ↦ r.partner_id ]

-- `expected.get(binding_key, "")`
abbrev pub wanted : ℕ → Option ℕ → List Receipt → Slot → Option ℕ
wanted case_id order_id receipts order = order_id
wanted case_id order_id receipts contract = expected_partner case_id order_id receipts
wanted case_id order_id receipts commission_ledger = order_id

abbrev pub is_present : Option ℕ → Bool
is_present none = false
is_present (some _) = true

abbrev pub is_candidate : ℕ → Slot → Receipt → Bool
is_candidate case_id slot r = is_successful_read case_id r && fills slot r.tool_name

abbrev pub is_bound : ℕ → Slot → Option ℕ → Receipt → Bool
is_bound case_id slot want r =
    is_candidate case_id slot r && is_present want && option_eq (binding_value slot r) want

abbrev pub is_case_only : ℕ → Slot → Receipt → Bool
is_case_only case_id slot r = is_candidate case_id slot r && not (is_present (binding_value slot r))

pub data Problem : Type 0 where
  unread inconsistent other_currency : Slot → Problem

pub data Finding : Type 0 where
  cites : Reference → Finding
  lacks : Problem → Finding

-- `keys.get("currency") and currency and keys["currency"] != currency`
abbrev pub differs : Option ℕ → Option ℕ → Bool
differs (some a) (some b) = not (a == b)
differs _ _ = false

abbrev pub cite : Slot → Option ℕ → Binding → Receipt → Finding
cite slot currency binding r =
    if differs r.currency currency
    then lacks (other_currency slot)
    else cites (record { slot = slot; receipt = r; binding = binding })

-- One round of the loop: a bound receipt, or else one without the key.
unfoldable pub check_slot : ℕ → Option ℕ → Option ℕ → List Receipt → Slot → Finding
check_slot case_id order_id currency receipts slot =
    let want = wanted case_id order_id receipts slot in
    elim (last_such (is_candidate case_id slot) receipts) [
      | none ↦ lacks (unread slot)
      | some _ ↦ elim (last_such (is_bound case_id slot want) receipts) [
        | some r ↦ cite slot currency fact_bound r
        | none ↦ elim (last_such (is_case_only case_id slot) receipts) [
          | some r ↦ cite slot currency case_only r
          | none ↦ lacks (inconsistent slot)
        ]
      ]
    ]

abbrev pub references_of : List Finding → List Reference
references_of [] = []
references_of (cites r ∷ fs) = r ∷ references_of fs
references_of (lacks p ∷ fs) = references_of fs

abbrev pub problems_of : List Finding → List Problem
problems_of [] = []
problems_of (cites r ∷ fs) = problems_of fs
problems_of (lacks p ∷ fs) = p ∷ problems_of fs

unfoldable pub verify_execution_references :
    ℕ → Option ℕ → Option ℕ → List Receipt → List Reference × List Problem
verify_execution_references case_id order_id currency receipts =
    let check = check_slot case_id order_id currency receipts in
    let findings = check order ∷ check contract ∷ check commission_ledger ∷ [] in
    (references_of findings, problems_of findings)

-- `if problems: raise`
abbrev pub has_problems : List Problem → Bool
has_problems [] = false
has_problems (p ∷ ps) = true
