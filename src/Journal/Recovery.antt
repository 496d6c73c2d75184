-- ===== src/Journal/Recovery.antt =====
-- Recovery and the freeze of channels: `reconcile_with_tx`, `hold` and `freeze_case_with_tx` of
-- revguard/money_journal.py.
use revguard.Base.{
  ℕ, Bool, not, ◌&&◌, none, some, List, [], ◌∷◌, Dict, lookup, map_rows, any, if◌then◌else◌, ◌==◌,
}
use revguard.Model.Status.{OperationStatus}
use revguard.Model.Errors.{Result, ok, ◌>>◌, raise_if, recovery_required}
use revguard.Model.Actors.{Actor}
use revguard.Model.Money.{Execution, GatewayState}
use revguard.Cases.{audit}
use revguard.Model.Tables.{Operation, Hold, Database, money_recovery_reconciled}
use revguard.Journal.{Process, is_unresolved, retire, save_executions}

-- `recording_epochs.get(case_id, 0)`
abbrev pub epoch_of : ℕ → GatewayState → ℕ
epoch_of case_id state = elim (lookup case_id state.recording_epochs) [ none ↦ 0 | some n ↦ n ]

-- The rows that the loop of `reconcile_with_tx` does not skip.
abbrev pub is_concerned : ℕ → ℕ → Operation → Bool
is_concerned case_id epoch o = o.case_id == case_id && o.recording == epoch

abbrev pub settle : ℕ → ℕ → Operation → Operation
settle case_id epoch o =
    if is_concerned case_id epoch o && is_unresolved o.status then retire o else o

-- The operations that the reconciliation reports.
abbrev pub concerned_rows : ℕ → ℕ → Dict Operation → Dict Operation
concerned_rows case_id epoch [] = []
concerned_rows case_id epoch ((k, o) ∷ d) =
    if is_concerned case_id epoch o
    then (k, o) ∷ concerned_rows case_id epoch d
    else concerned_rows case_id epoch d

-- The gateway's latest image of an execution.
abbrev pub latest_image : GatewayState → Execution → Execution
latest_image state e = elim (lookup e.idempotency_key state.execution_results) [
  | none ↦ e
  | some current ↦ current
]

abbrev pub latest_images : GatewayState → List Execution → List Execution
latest_images state [] = []
latest_images state (e ∷ es) = latest_image state e ∷ latest_images state es

abbrev pub refresh_executions : GatewayState → Dict Operation → Dict Execution → Dict Execution
refresh_executions state [] d = d
refresh_executions state ((k, o) ∷ rows) d = refresh_executions state rows (elim o.status [
  | OperationStatus.committed ↦ save_executions (latest_images state o.executions) d
  | _ ↦ d
])

abbrev pub report : Dict Operation → List (ℕ × OperationStatus × ℕ)
report [] = []
report ((k, o) ∷ rows) = (k, o.status, o.generation) ∷ report rows

abbrev pub release_holds : ℕ → List Hold → List Hold
release_holds case_id [] = []
release_holds case_id (h ∷ hs) =
    if h.case_id == case_id then release_holds case_id hs else h ∷ release_holds case_id hs

-- `reconcile_with_tx`
unfoldable pub reconcile : Process → ℕ → Database → Result (Dict Operation × Database)
reconcile p case_id db = do
  raise_if p.recovery_lock recovery_required
  let epoch = epoch_of case_id db.state
  let settled = map_rows (settle case_id epoch) db.operations
  let rows = concerned_rows case_id epoch settled
  ok (
    rows,
    audit case_id Actor.executor (money_recovery_reconciled (report rows)) (record db {
      operations = settled;
      executions = refresh_executions db.state rows db.executions;
      holds = release_holds case_id db.holds;
    }),
  )

abbrev pub has_hold : ℕ → ℕ → List Hold → Bool
has_hold channel case_id = any (λ h. h.channel == channel && h.case_id == case_id)

abbrev pub put_hold : ℕ → ℕ → ℕ → List Hold → List Hold
put_hold channel case_id reason [] =
    record { channel = channel; case_id = case_id; reason = reason } ∷ []
put_hold channel case_id reason (h ∷ hs) =
    if h.channel == channel && h.case_id == case_id
    then record h { reason = reason } ∷ hs
    else h ∷ put_hold channel case_id reason hs

-- `hold`
unfoldable pub hold : ℕ → ℕ → ℕ → Database → Database
hold channel case_id reason db = record db { holds = put_hold channel case_id reason db.holds }

abbrev pub freeze_rows : ℕ → ℕ → Dict Operation → List Hold → List Hold
freeze_rows case_id reason [] hs = hs
freeze_rows case_id reason ((k, o) ∷ rows) hs = freeze_rows case_id reason rows (
    if o.case_id == case_id && not (has_hold o.channel case_id hs)
    then record { channel = o.channel; case_id = case_id; reason = reason } ∷ hs
    else hs)

-- `freeze_case_with_tx`, with the reason RESULT_UNKNOWN.
unfoldable pub freeze_case : ℕ → ℕ → Database → Database
freeze_case case_id result_unknown_reason db = record db {
  holds = freeze_rows case_id result_unknown_reason db.operations db.holds;
}
