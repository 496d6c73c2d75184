-- ===== src/Journal.antt =====
-- The money journal (revguard/money_journal.py: `MoneyTransaction`, `MoneyJournal`) and the claim
-- check that it makes first (revguard/task_guard.py). Each public operation is one transaction: a
-- raised error leaves the database as it was.
pub mod Rows
pub mod Recovery
pub mod Calls
pub mod Steps
pub mod Once
pub mod Runs
pub mod Outcomes
pub mod Replay
pub mod Fence
pub mod Exclusive
mod Examples
use revguard.Base.{
  ℕ, ◌+◌, Bool, true, false, not, ◌&&◌, ◌||◌, Option, none, some, List, [], ◌∷◌, Dict, lookup,
  insert, adjust, map_rows, any_row, any, if◌then◌else◌, ◌==◌,
}
use revguard.Model.Status.{OperationStatus, prepared, committed, not_committed, TaskStatus}
use revguard.Model.Errors.{
  Error, Result, ok, err, ◌>>=◌, ◌>>◌, raise_if, recovery_required, value_error,
  stale_task_execution,
}
use revguard.Model.Actors.{Actor}
use revguard.Model.Money.{Execution, LedgerEntry, GatewayState}
use revguard.Cases.{audit}
use revguard.Model.Tables.{
  Case, Task, Operation, Hold, Event, EventDetail, Database, money_operation_committed,
  money_recovery_reconciled,
}

-- The `claimed_task` context of a running worker.
pub record Claim : Type 0 where
  pub task_id : ℕ
  pub case_id : ℕ
  pub attempt : ℕ
  pub case_version : ℕ

-- What the process brings: the recovery lock of its environment, its claim, the digest of a case
-- document, which `hashlib` computes, and the text `key:recording-epoch`.
pub record Process : Type 0 where
  pub recovery_lock : Bool
  pub claim : Option Claim
  pub digest : Case → ℕ
  pub recording_key : ℕ → ℕ → ℕ

-- `case_version` (revguard/agent_bridge.py): progress and storage revision do not count.
abbrev pub case_version : Process → Case → ℕ
case_version p c = p.digest (record c { team_run = none; case_revision = 0 })

abbrev pub is_running : TaskStatus → Bool
is_running TaskStatus.running = true
is_running _ = false

abbrev pub claim_holds : Process → Claim → ℕ → Option Case → Option Task → Bool
claim_holds p claim case_id (some c) (some task) =
    claim.case_id == case_id
    && is_running task.status
    && task.attempt == claim.attempt
    && task.case_version == claim.case_version
    && case_version p c == claim.case_version
claim_holds p claim case_id _ _ = false

unfoldable pub assert_active_claim : Process → ℕ → Database → Result (Unit {0})
assert_active_claim p case_id db = elim p.claim [
  | none ↦ ok tt
  | some claim ↦
      raise_if
        (not
          (claim_holds p claim case_id (lookup case_id db.cases) (lookup claim.task_id db.tasks)))
        stale_task_execution
]

-- `status IN ('PREPARED','RESULT_UNKNOWN')`
abbrev pub is_unresolved : OperationStatus → Bool
is_unresolved OperationStatus.prepared = true
is_unresolved OperationStatus.result_unknown = true
is_unresolved _ = false

-- `hold or pending` in `prepare`
pub is_frozen : ℕ → Database → Bool
is_frozen channel db =
    any (λ h. h.channel == channel) db.holds
    || any_row (λ o. o.channel == channel && is_unresolved o.status) db.operations

abbrev pub with_status : OperationStatus → Operation → Operation
with_status s o = record o { status = s }

-- The row that `INSERT INTO money_operations` writes.
abbrev pub new_operation : ℕ → ℕ → ℕ → ℕ → ℕ → Operation
new_operation recording case_id channel kind digest = record {
  case_id = case_id;
  channel = channel;
  kind = kind;
  request_hash = digest;
  status = prepared;
  generation = 1;
  recording = recording;
  executions = [];
}

-- `prepare` after its checks of the process, by what the table holds at the key.
pub prepare_row :
    ℕ → ℕ → ℕ → ℕ → ℕ → ℕ → Option Operation → Database → Result (Operation × Database)
unfolding is_frozen
prepare_row key recording case_id channel kind digest none db = do
  raise_if (is_frozen channel db) recovery_required
  let op = new_operation recording case_id channel kind digest
  ok (op, record db { operations = insert key op db.operations })
prepare_row key recording case_id channel kind digest (some op) db = do
  raise_if (not (op.request_hash == digest && op.case_id == case_id)) value_error
  elim op.status [
    | OperationStatus.committed ↦ ok (op, db)
    | OperationStatus.not_committed ↦ do
      raise_if (is_frozen channel db) recovery_required
      ok (
        with_status prepared op,
        record db { operations = adjust key (with_status prepared) db.operations },
      )
    | _ ↦ err recovery_required
  ]

pub prepare : Process → Option ℕ → ℕ → ℕ → ℕ → ℕ → ℕ → Database → Result (Operation × Database)
unfolding assert_active_claim prepare_row
prepare p none recording case_id channel kind digest db = do
  raise_if p.recovery_lock recovery_required
  err value_error
prepare p (some key) recording case_id channel kind digest db = do
  raise_if p.recovery_lock recovery_required
  assert_active_claim p case_id db
  prepare_row key recording case_id channel kind digest (lookup key db.operations) db

-- `resolve`
pub resolve : ℕ → ℕ → Database → Result (Option Operation)
resolve key case_id db = elim (lookup key db.operations) [
  | none ↦ ok none
  | some op ↦ do raise_if (not (op.case_id == case_id)) value_error; ok (some op)
]

abbrev pub if_prepared : (Operation → Operation) → Operation → Operation
if_prepared f o = elim o.status [ OperationStatus.prepared ↦ f o | _ ↦ o ]

-- `mark_unknown`
pub mark_unknown : ℕ → Database → Database
mark_unknown key db = record db {
  operations = adjust key (if_prepared (with_status OperationStatus.result_unknown)) db.operations;
}

abbrev pub retire : Operation → Operation
retire o = record o { status = not_committed; generation = o.generation + 1 }

-- The write of `ToolGateway.call` after a refused handler (revguard/mocks.py).
pub abort_operation : ℕ → Database → Database
abort_operation key db = record db { operations = adjust key (if_prepared retire) db.operations }

-- `MoneyTransaction.execution`, an upsert at the action. That `idempotency_key` is UNIQUE is left to the
-- tools.
abbrev pub save_executions : List Execution → Dict Execution → Dict Execution
save_executions [] d = d
save_executions (e ∷ es) d = save_executions es (insert e.action_id e d)

-- `MoneyTransaction.ledger`: rows that exist are left alone. That `reversal_of` is UNIQUE is left to the
-- tools.
abbrev pub save_ledger : List LedgerEntry → Dict LedgerEntry → Dict LedgerEntry
save_ledger [] d = d
save_ledger (e ∷ es) d =
    save_ledger es (elim (lookup e.ledger_id d) [ none ↦ insert e.ledger_id e d | some _ ↦ d ])

-- `commit_result`
pub commit_result : ℕ → Operation → List Execution → GatewayState → Database → Database
commit_result key operation results state db =
    audit operation.case_id Actor.executor (money_operation_committed key operation.generation)
      (record db {
        money_ledger = save_ledger state.ledger db.money_ledger;
        executions = save_executions results db.executions;
        state = state;
        operations =
            adjust key (λ o. record o { status = committed; executions = results }) db.operations;
        outbox = key ∷ db.outbox;
      })
