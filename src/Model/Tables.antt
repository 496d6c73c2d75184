-- ===== src/Model/Tables.antt =====
-- The rows of the database (revguard/store.py, revguard/money_journal.py). Texts that the program
-- only compares (identifiers, hashes, reasons, times) are natural numbers.
use revguard.Base.{ℕ, Bool, Option, List, Dict}
use revguard.Base.Int.{ℤ}
use revguard.Model.Status.{CaseStatus, StatusText, TaskStatus, OperationStatus}
use revguard.Model.Actors.{Actor}
use revguard.Model.Skills.{Skill}
use revguard.Model.Money.{Execution, LedgerEntry, GatewayState}

-- `phase` and `status` of the progress of a run; any other text is told apart by its number.
pub data Phase : Type 0 where
  rollback_phase execution_phase : Phase
  other_phase : ℕ → Phase

pub data RunStatus : Type 0 where
  queued starting in_progress broken : RunStatus
  other_run : ℕ → RunStatus

-- `team_run`; `body` stands for the fields that nothing here reads or writes.
pub record TeamRun : Type 0 where
  pub run_id : Option ℕ
  pub status : Option RunStatus
  pub phase : Option Phase
  pub updated_at : ℕ
  pub error : Option ℕ
  pub cancelled_task_ids : List ℕ
  pub body : ℕ

-- A case document; `approval_required` is that of its risk decision, and `body` stands for the domain fields that no guard here reads.
pub record Case : Type 0 where
  pub case_id : ℕ
  pub status : StatusText
  pub recording_id : Option ℕ
  pub state_version : Option ℕ
  pub case_revision : ℕ
  pub updated_at : ℕ
  pub team_run : Option TeamRun
  pub recovery_generation : ℕ
  pub recovery_phase : Option Phase
  pub approval_required : Bool
  pub body : ℕ

-- A row of `money_operations`: `recording` is the epoch in the suffix of its key, 0 without one, and
-- `executions` is what its stored result holds.
pub record Operation : Type 0 where
  pub case_id : ℕ
  pub channel : ℕ
  pub kind : ℕ
  pub request_hash : ℕ
  pub status : OperationStatus
  pub generation : ℕ
  pub recording : ℕ
  pub executions : List Execution

-- A row of `money_holds`; (channel, case) is its key.
pub record Hold : Type 0 where
  pub channel : ℕ
  pub case_id : ℕ
  pub reason : ℕ

-- A row of `agent_tasks`, without its times; a text that is not set is `none`.
pub record Task : Type 0 where
  pub task_id : ℕ
  pub case_id : ℕ
  pub status : TaskStatus
  pub attempt : ℕ
  pub case_version : ℕ
  pub skill_name : Skill
  pub assigned_actor : Actor
  pub case_status : StatusText
  pub input : ℕ
  pub result : Option ℕ
  pub skill_receipt : Option ℕ
  pub error : Option ℕ
  pub metadata : Dict ℕ
  pub matrix_retry_event_ids : List ℕ
  pub replaced_by_task_id : Option ℕ
  pub supersedes_task_id : Option ℕ
  pub cancellation_reason : Option ℕ

-- A row of `agent_task_results`.
pub record StageResult : Type 0 where
  pub task_id : ℕ
  pub case_id : ℕ
  pub attempt : ℕ
  pub status : TaskStatus
  pub result : Option ℕ
  pub skill_receipt : Option ℕ
  pub error : Option ℕ

-- `event` and `detail` of an audit row.
pub data EventDetail : Type 0 where
  state_transition : CaseStatus → CaseStatus → ℕ → EventDetail
  money_operation_committed : ℕ → ℕ → EventDetail
  stage_event : ℕ → EventDetail
  agent_task_started : ℕ → Skill → EventDetail
  agent_task_completed : Bool → ℕ → Skill → TaskStatus → ℕ → EventDetail
  agent_task_reassigned : ℕ → ℕ → ℕ → EventDetail
  agent_tasks_cancelled : List ℕ → ℕ → EventDetail
  money_recovery_reconciled : List (ℕ × OperationStatus × ℕ) → EventDetail
  human_recovery_authorized : ℕ → ℕ → EventDetail
  approval_capability_renewed : ℕ → ℕ → Dict ℤ → Option ℕ → EventDetail
  rollback_capability_renewed : List ℕ → ℕ → Option ℕ → EventDetail
  team_run_resume_requested : Option ℕ → Phase → ℕ → ℕ → ℕ → List ℕ → EventDetail
  approval_decided : Bool → ℕ → ℕ → EventDetail
  team_run_failed : Phase → ℕ → EventDetail

pub record Event : Type 0 where
  pub case_id : ℕ
  pub actor : Actor
  pub detail : EventDetail

-- A row of `evidence` or of `approvals`: its key, its case and its document.
pub record Projection : Type 0 where
  pub projection_id : ℕ
  pub case_id : ℕ
  pub body : ℕ

-- The tables, the append-only ones with their newest row first.
pub record Database : Type 0 where
  pub cases : Dict Case
  pub audit : List Event
  pub operations : Dict Operation
  pub holds : List Hold
  pub outbox : List ℕ
  pub executions : Dict Execution
  pub tasks : Dict Task
  pub results : List StageResult
  pub evidence : Dict Projection
  pub approvals : Dict Projection
  pub verifications : Dict ℕ
  pub money_ledger : Dict LedgerEntry
  pub state : GatewayState
