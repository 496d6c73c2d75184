-- ===== src/Approvals/Renewal.antt =====
-- New capabilities for decisions that were made (revguard/mocks.py:
-- `_tool_workflow_renew_approval_capability`, `_tool_workflow_renew_rollback_capability`).
use revguard.Base.{
  Text, ℕ, ◌+◌, ◌-◌, Bool, true, false, not, ◌&&◌, Option, none, some, [], ◌∷◌, Dict, lookup, ltb,
  ◌==◌, option_eq, if◌then◌else◌,
}
use revguard.Base.Int.{ℤ, pos, pos_part, abs_ℤ}
use revguard.Model.Errors.{
  Result, ok, ◌>>=◌, ◌>>◌, raise_if, or_raise, tool_error, auth_failed, not_found, data_conflict,
}
use revguard.Model.Money.{Approval, Draft, DraftStatus, submitted, LedgerEntry, GatewayState}
use revguard.Commitment.{approval_digest}
use revguard.Gateway.{Claims, Env, issue, ledger_adjust, ledger_reverse}
use revguard.Gateway.Submission.{is_approved}
use revguard.Gateway.Reversal.{find_ledger, is_some}
use revguard.Approvals.{adjust_claims, store_approval}

abbrev pub is_submitted : DraftStatus → Bool
is_submitted submitted = true
is_submitted _ = false

-- What the submitted drafts of a case have consumed of a component.
abbrev pub consumed : ℕ → ℕ → Dict Draft → ℕ
consumed case_id component [] = 0
consumed case_id component ((_, draft) ∷ rest) =
    let others = consumed case_id component rest in
    if draft.case_id == case_id && is_submitted draft.status && draft.component == component
    then abs_ℤ draft.amount + others
    else others

-- `max(limit - consumed, 0)`
abbrev pub left_of : ℤ → ℕ → ℕ
left_of limit used = pos_part limit - used

-- The components of the quota with something left.
abbrev pub remaining_quota : (ℕ → ℕ) → Dict ℤ → Dict ℤ
remaining_quota used [] = []
remaining_quota used ((component, limit) ∷ quota) =
    let others = remaining_quota used quota in
    if ltb 0 (left_of limit (used component))
    then (component, pos (left_of limit (used component))) ∷ others
    else others

abbrev pub sum_positive : Dict ℤ → ℕ
sum_positive [] = 0
sum_positive ((_, n) ∷ rest) = pos_part n + sum_positive rest

-- `p.get("case_id") and p["case_id"] != approval.get("case_id")`
abbrev pub is_other_case : Option ℕ → ℕ → Bool
is_other_case none case_id = false
is_other_case (some c) case_id = not (c == case_id)

abbrev pub renewed : Env → ℕ → Approval → GatewayState → Approval
renewed env jti approval st =
    let used = λ (component : ℕ). consumed approval.case_id component st.adjustments in
    let quota = remaining_quota used approval.component_quota in
    let claims = adjust_claims approval (pos (sum_positive quota)) quota in
    record approval {
      approval_token =
          if ltb 0 (sum_positive quota)
          then some (issue env ledger_adjust claims 900 jti)
          else none;
      remaining_component_quota = some quota;
    }

-- `_tool_workflow_renew_approval_capability`; `jti` is the identifier of the new token.
unfoldable pub renew_approval_capability :
    Env → ℕ → ℕ → Option ℕ → GatewayState → Result (Approval × GatewayState)
renew_approval_capability env jti approval_id case_id st = do
  approval ← or_raise (lookup approval_id st.approvals) (tool_error not_found)
  raise_if (not (is_approved approval.status)) (tool_error data_conflict)
  raise_if (is_other_case case_id approval.case_id) (tool_error auth_failed)
  committed ← or_raise approval.parameters_digest (tool_error auth_failed)
  digest ← approval_digest env.digest env.amount_scale approval
  raise_if (not (digest == committed)) (tool_error auth_failed)
  ok (renewed env jti approval st, store_approval approval_id (renewed env jti approval st) st)

abbrev pub reverse_claims : ℕ → ℕ → ℕ → Claims
reverse_claims case_id ledger_id currency = record {
  jti = 0;
  case_id = case_id;
  currency = currency;
  approval_id = 0;
  parameters_digest = none;
  max_amount = pos 0;
  component_quota = none;
  ledger_id = ledger_id;
  human = none;
}

-- The entry and the draft that a rollback names.
unfoldable pub check_rollback : ℕ → ℕ → ℕ → GatewayState → Result LedgerEntry
check_rollback case_id ledger_id action_id st = do
  entry ← or_raise (find_ledger ledger_id st.ledger) (tool_error not_found)
  draft ← or_raise (lookup action_id st.adjustments) (tool_error not_found)
  raise_if
      (not (
        draft.case_id == case_id
        && option_eq entry.source (some case_id)
        && draft.action_id == action_id))
      (tool_error auth_failed)
  raise_if (is_some entry.reversed_by) (tool_error data_conflict)
  ok entry

-- `_tool_workflow_renew_rollback_capability`: the token.
unfoldable pub renew_rollback_capability : Env → ℕ → ℕ → ℕ → ℕ → GatewayState → Result Text
renew_rollback_capability env jti case_id ledger_id action_id st = do
  entry ← check_rollback case_id ledger_id action_id st
  ok (issue env ledger_reverse (reverse_claims case_id ledger_id entry.currency) 3600 jti)
