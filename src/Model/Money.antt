-- ===== src/Model/Money.antt =====
-- The money side of the gateway's durable state (revguard/mocks.py: `_state_snapshot`). Amounts count
-- the smallest unit in which the case's amounts are written; Python's `Decimal` adds them exactly.
use revguard.Base.{Text, ℕ, Bool, Option, List, Dict}
use revguard.Model.Actors.{Actor, Tool}
use revguard.Base.Int.{ℤ}

pub data DraftStatus : Type 0 where
  draft submitted : DraftStatus

-- A value of `_adjustments`.
pub record Draft : Type 0 where
  pub action_id : ℕ
  pub order_id : ℕ
  pub case_id : ℕ
  pub component : ℕ
  pub amount : ℤ
  pub currency : ℕ
  pub status : DraftStatus

pub data ApprovalStatus : Type 0 where
  pending approved rejected : ApprovalStatus

-- A value of `_approvals`; the fields that are `none` are absent until set.
pub record Approval : Type 0 where
  pub approval_id : ℕ
  pub case_id : ℕ
  pub action_summary : ℕ
  pub amount : ℤ
  pub component_quota : Dict ℤ
  pub currency : ℕ
  pub risk_level : ℕ
  pub status : ApprovalStatus
  pub release_version : Option ℕ
  pub parameters_digest : Option ℕ
  pub approver_role : ℕ
  pub approver : Option Actor
  pub approval_token : Option Text
  pub remaining_component_quota : Option (Dict ℤ)

-- An entry of `_receipts`, with the reference that a successful read leaves in it (`attach_receipt_reference`,
-- revguard/execution_reference.py). An empty text counts as an absent one.
pub record Receipt : Type 0 where
  pub tool_receipt : ℕ
  pub tool_name : Option Tool
  pub case_id : ℕ
  pub is_success : Bool
  pub order_id : Option ℕ
  pub partner_id : Option ℕ
  pub currency : Option ℕ
  pub fact_digest : Option ℕ

-- The keys of `REQUIRED_REFERENCE_SLOTS`.
pub data Slot : Type 0 where
  order contract commission_ledger : Slot

pub data Binding : Type 0 where
  fact_bound case_only : Binding

-- A reference to a fact that a posting keeps in its ledger entry.
pub record Reference : Type 0 where
  pub slot : Slot
  pub receipt : Receipt
  pub binding : Binding

-- An entry of `_ledger`; `source` is the case of `REVGUARD:<case>`, and `none` for imported entries.
pub record LedgerEntry : Type 0 where
  pub ledger_id : ℕ
  pub order_id : ℕ
  pub component : ℕ
  pub amount : ℤ
  pub currency : ℕ
  pub is_posted : Bool
  pub source : Option ℕ
  pub reversal_of : Option ℕ
  pub reversed_by : Option ℕ
  pub execution_references : List Reference

-- A value of `_execution_results`, and a row of `executions`.
pub record Execution : Type 0 where
  pub action_id : ℕ
  pub case_id : ℕ
  pub idempotency_key : ℕ
  pub amount : ℤ
  pub currency : ℕ
  pub component : ℕ
  pub ledger_id : ℕ
  pub is_rolled_back : Bool
  pub rollback_token : Option Text

pub record GatewayState : Type 0 where
  pub ledger : List LedgerEntry
  pub adjustments : Dict Draft
  pub approvals : Dict Approval
  pub idempotency : Dict ℕ
  pub receipts : List Receipt
  pub token_consumed_amount : Dict ℕ
  pub token_consumed_by_component : Dict (Dict ℕ)
  pub used_rollback_tokens : List ℕ
  pub posting_tamper_used_cases : List ℕ
  pub execution_results : Dict Execution
  pub recording_epochs : Dict ℕ
