-- ===== src/Recovery.antt =====
-- Human recovery of an interrupted run, and what a failed background run leaves
-- (revguard/recovery.py: `resume_case_run`, `record_background_failure`). Both are one transaction: a
-- raised error leaves the database and the gateway's image as they were.
pub mod Resume
pub mod Queue
pub mod Writes
pub mod Renewals
pub mod Channels
pub mod Fenced
pub mod Failures
mod Examples
use revguard.Base.{
  ℕ, ◌+◌, Bool, true, false, not, ◌&&◌, ◌||◌, Option, none, some, List, [], ◌∷◌, length, lookup,
  insert, option_eq, if◌then◌else◌, ◌==◌,
}
use revguard.Model.Status.{CaseStatus, StatusText, known, case_status_eq, status_text_eq}
use revguard.Model.Actors.{Actor}
use revguard.Model.Tables.{
  Case, TeamRun, Phase, rollback_phase, execution_phase, other_phase, broken, Projection, Database,
  team_run_failed,
}
use revguard.Model.Errors.{Result, ok, err, ◌>>=◌, ◌>>◌}
use revguard.Lifecycle.{is_member}
use revguard.Cases.{audit, locked_case, save_case_with_conn, persist_case_transition}
use revguard.Journal.Recovery.{freeze_case}

-- `case["status"] in {...}`
abbrev pub has_status : StatusText → List CaseStatus → Bool
has_status (known s) members = is_member s members
has_status _ members = false

-- `{**run}` of a run that may be absent.
abbrev pub run_of : Option TeamRun → TeamRun
run_of (some run) = run
run_of none = record {
  run_id = none;
  status = none;
  phase = none;
  updated_at = 0;
  error = none;
  cancelled_task_ids = [];
  body = 0;
}

abbrev pub is_rollback : Phase → Bool
is_rollback rollback_phase = true
is_rollback _ = false

-- The texts of reasons and errors.
abbrev pub interrupted : ℕ
interrupted = 1

abbrev pub background_failed : ℕ
background_failed = 2

abbrev pub result_unknown_reason : ℕ
result_unknown_reason = 3

-- What a failed run reports: its phase, the generation and the recording that it ran under, the type
-- of its error, and the stamps of the writes; `requires_rollback` reads the stored verification.
pub record Failure : Type 0 where
  pub case_id : ℕ
  pub phase : Phase
  pub generation : ℕ
  pub recording_id : Option ℕ
  pub error_type : ℕ
  pub now : ℕ
  pub version : ℕ
  pub requires_rollback : Option ℕ → Bool

-- The branches on the status: a run that may have written money freezes its channels.
unfoldable pub mark_failed : Failure → Case → Database → Result (Case × Database)
mark_failed f c db =
    if has_status c.status
      (CaseStatus.executing ∷ CaseStatus.verifying ∷ CaseStatus.rollback_required ∷ [])
    then (do
      (moved, written) ←
          persist_case_transition Actor.orchestrator CaseStatus.recovery_required interrupted f.now
            f.version c (freeze_case f.case_id result_unknown_reason db)
      let undo = is_rollback f.phase || f.requires_rollback (lookup f.case_id written.verifications)
      ok (
        record moved { recovery_phase = some (if undo then rollback_phase else execution_phase) },
        written,
      ))
    else if has_status c.status
        (CaseStatus.ready_to_execute ∷ CaseStatus.recovery_required ∷ CaseStatus.failed ∷ [])
    then ok (c, db)
    else persist_case_transition Actor.orchestrator CaseStatus.failed background_failed f.now
        f.version c db

abbrev pub failed_run : Failure → Option TeamRun → TeamRun
failed_run f run = record (run_of run) {
  status = some broken;
  updated_at = f.now;
  error = some f.error_type;
}

-- The run that failed is the one that the case is on, and the case has not ended.
abbrev pub is_own_run : Failure → Case → Bool
is_own_run f c =
    option_eq c.recording_id f.recording_id
    && c.recovery_generation == f.generation
    && not (has_status c.status (CaseStatus.closed ∷ CaseStatus.rolled_back ∷ []))

abbrev pub write_failure : Failure → Case → Database → Result (Bool × Database)
write_failure f c db = do
  (marked, written) ← mark_failed f c db
  (_, saved) ←
      save_case_with_conn false (record marked { team_run = some (failed_run f marked.team_run) })
        written
  ok (true, audit f.case_id Actor.orchestrator (team_run_failed f.phase f.error_type) saved)

-- `record_background_failure`
unfoldable pub record_background_failure : Failure → Database → Result (Bool × Database)
unfolding locked_case mark_failed
record_background_failure f db = elim (locked_case db f.case_id) [
  | none ↦ ok (false, db)
  | some c ↦ if is_own_run f c then write_failure f c db else ok (false, db)
]
