-- ===== src/Approvals.antt =====
-- Drafts of adjustments, and the approvals that pay for them (revguard/mocks.py:
-- `_tool_commission_create_adjustment_draft`, `_tool_workflow_create_approval`,
-- `_tool_workflow_get_approval_status`, `_tool_workflow_decide_approval`).
mod Drafts
pub mod Creation
pub mod Decision
pub mod Drift
pub mod Renewal
pub mod Remaining
pub mod Rollback
mod Examples
use revguard.Base.{
  ℕ, Bool, true, false, not, ◌&&◌, Option, none, some, List, [], ◌∷◌, Dict, lookup, insert, ◌==◌,
  if◌then◌else◌,
}
use revguard.Base.Int.{ℤ, pos, negsuc, ◌+ℤ◌, eq_ℤ, ltb_ℤ}
use revguard.Model.Errors.{
  Result, ok, err, ◌>>=◌, ◌>>◌, raise_if, or_raise, tool_error, invalid_params, not_found,
  data_conflict,
}
use revguard.Model.Actors.{Actor}
use revguard.Model.Money.{
  Approval, ApprovalStatus, pending, approved, rejected, Draft, DraftStatus, GatewayState,
}
use revguard.Gateway.{Claims, Env, issue, ledger_adjust}
use revguard.Gateway.Submission.{is_draft}
use revguard.Commitment.{approval_digest}

-- What a caller asks for; a draft has the same parts.
abbrev pub is_same_request : Draft → Draft → Bool
is_same_request a b =
    a.case_id == b.case_id
    && a.order_id == b.order_id
    && a.component == b.component
    && eq_ℤ a.amount b.amount
    && a.currency == b.currency

abbrev pub find_draft : Draft → Dict Draft → Option Draft
find_draft request [] = none
find_draft request ((_, existing) ∷ rest) =
    let later = find_draft request rest in
    if is_same_request existing request && is_draft existing.status then some existing else later

abbrev pub new_draft : ℕ → Draft → Draft
new_draft action_id request = record request { action_id = action_id; status = DraftStatus.draft }

-- `_tool_commission_create_adjustment_draft`; `action_id` is fresh.
unfoldable pub create_adjustment_draft : ℕ → Draft → GatewayState → Draft × GatewayState
create_adjustment_draft action_id request st = elim (find_draft request st.adjustments) [
  | some existing ↦ (existing, st)
  | none ↦ (
    new_draft action_id request,
    record st { adjustments = insert action_id (new_draft action_id request) st.adjustments },
  )
]

-- The parameters of an approval. An amount is `none` where its text is no number, and the quota is
-- `none` where it is no object.
pub record ApprovalRequest : Type 0 where
  pub case_id : ℕ
  pub action_summary : ℕ
  pub amount : Option ℤ
  pub component_quota : Option (Dict (Option ℤ))
  pub currency : ℕ
  pub risk_level : ℕ
  pub approver_role : ℕ

-- `Decimal(str(amount))` for each entry.
abbrev pub read_amounts : Dict (Option ℤ) → Option (Dict ℤ)
read_amounts [] = some []
read_amounts ((component, amount) ∷ rest) = elim amount [
  | none ↦ none
  | some n ↦ elim (read_amounts rest) [ none ↦ none | some read ↦ some ((component, n) ∷ read) ]
]

abbrev pub all_positive : Dict ℤ → Bool
all_positive [] = true
all_positive ((_, n) ∷ rest) = ltb_ℤ (pos 0) n && all_positive rest

abbrev pub sum_amounts : Dict ℤ → ℤ
sum_amounts [] = pos 0
sum_amounts ((_, n) ∷ rest) = n +ℤ sum_amounts rest

-- `not isinstance(raw_quota, dict) or not raw_quota`
abbrev pub non_empty {ℓ} : {V : Type ℓ} → Option (Dict V) → Option (Dict V)
non_empty none = none
non_empty (some []) = none
non_empty (some (entry ∷ rest)) = some (entry ∷ rest)

abbrev pub new_approval : ℕ → ApprovalRequest → ℤ → Dict ℤ → Approval
new_approval approval_id request amount quota = record {
  approval_id = approval_id;
  case_id = request.case_id;
  action_summary = request.action_summary;
  amount = amount;
  component_quota = quota;
  currency = request.currency;
  risk_level = request.risk_level;
  status = pending;
  release_version = none;
  parameters_digest = none;
  approver_role = request.approver_role;
  approver = none;
  approval_token = none;
  remaining_component_quota = none;
}

-- `_tool_workflow_create_approval`; `approval_id` is fresh.
unfoldable pub create_approval :
    ℕ → ApprovalRequest → GatewayState → Result (Approval × GatewayState)
create_approval approval_id request st = do
  raw_quota ← or_raise (non_empty request.component_quota) (tool_error invalid_params)
  quota ← or_raise (read_amounts raw_quota) (tool_error invalid_params)
  amount ← or_raise request.amount (tool_error invalid_params)
  raise_if (not (all_positive quota)) (tool_error invalid_params)
  raise_if (not (eq_ℤ (sum_amounts quota) amount)) (tool_error invalid_params)
  let approval = new_approval approval_id request amount quota
  ok (approval, record st { approvals = insert approval_id approval st.approvals })

-- `_tool_workflow_get_approval_status`
unfoldable pub get_approval_status : ℕ → GatewayState → Result Approval
get_approval_status approval_id st =
    or_raise (lookup approval_id st.approvals) (tool_error not_found)

abbrev pub is_pending : ApprovalStatus → Bool
is_pending pending = true
is_pending _ = false

abbrev pub store_approval : ℕ → Approval → GatewayState → GatewayState
store_approval approval_id approval st = record st {
  approvals = insert approval_id approval st.approvals;
}

-- The claims of a token for an approval; those of other purposes are absent.
abbrev pub adjust_claims : Approval → ℤ → Dict ℤ → Claims
adjust_claims approval max_amount quota = record {
  jti = 0;
  case_id = approval.case_id;
  currency = approval.currency;
  approval_id = approval.approval_id;
  parameters_digest = approval.parameters_digest;
  max_amount = max_amount;
  component_quota = some quota;
  ledger_id = 0;
  human = none;
}

-- The approval with the commitment to its parameters, and a token for 900 seconds.
abbrev pub commit_approval : Env → ℕ → ℕ → Approval → Approval
commit_approval env jti digest approval =
    let committed = record approval { parameters_digest = some digest } in
    let claims = adjust_claims committed committed.amount committed.component_quota in
    record committed { approval_token = some (issue env ledger_adjust claims 900 jti) }

abbrev pub approved_by : Env → Actor → Approval → Approval
approved_by env actor approval = record approval {
  status = approved;
  approver = some actor;
  release_version = env.release;
}

abbrev pub rejected_by : Actor → Approval → Approval
rejected_by actor approval = record approval { status = rejected; approver = some actor }

-- When the digest of the parameters is refused, the status has been set already.
abbrev pub approve : Env → ℕ → Actor → ℕ → Approval → GatewayState → Result Approval × GatewayState
approve env jti actor approval_id approval st =
    let decided = approved_by env actor approval in
    elim (approval_digest env.digest env.amount_scale decided) [
      | err e ↦ (err e, store_approval approval_id decided st)
      | ok digest ↦
          let committed = commit_approval env jti digest decided in
          (ok committed, store_approval approval_id committed st)
    ]

abbrev pub reject : Actor → ℕ → Approval → GatewayState → Result Approval × GatewayState
reject actor approval_id approval st =
    (ok (rejected_by actor approval), store_approval approval_id (rejected_by actor approval) st)

-- `_tool_workflow_decide_approval`
unfoldable pub decide_approval :
    Env → ℕ → Actor → ℕ → Bool → GatewayState → Result Approval × GatewayState
decide_approval env jti actor approval_id is_approval st = elim (lookup approval_id st.approvals) [
  | none ↦ (err (tool_error not_found), st)
  | some approval ↦ elim (is_pending approval.status) [
    | false ↦ (err (tool_error data_conflict), st)
    | true ↦
        if is_approval
        then approve env jti actor approval_id approval st
        else reject actor approval_id approval st
  ]
]
