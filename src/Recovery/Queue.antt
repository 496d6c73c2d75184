-- ===== src/Recovery/Queue.antt =====
-- The resumption as a whole: fence, reconcile, renew and queue (`resume_case_run`,
-- revguard/recovery.py).
use revguard.Base.{
  ℕ, ◌+◌, false, not, none, some, List, [], ◌∷◌, length, lookup, option_eq, if◌then◌else◌,
}
use revguard.Model.Status.{CaseStatus}
use revguard.Model.Tables.{
  Case, TeamRun, queued, Database, human_recovery_authorized, team_run_resume_requested,
}
use revguard.Model.Errors.{Result, ok, ◌>>=◌, ◌>>◌, raise_if, stale_case_transition}
use revguard.Access.{authorize_tool, approval_decide}
use revguard.Model.Actors.{renew_approval_capability as renewal_tool}
use revguard.Cases.{audit, locked_case, save_case_with_conn, persist_case_transition}
use revguard.Journal.{Process}
use revguard.Journal.Recovery.{reconcile}
use revguard.Tasks.Lifecycle.{cancel_open_agent_tasks}
use revguard.Gateway.{Env}
use revguard.Recovery.{has_status, run_of}
use revguard.Recovery.Resume.{Recovery, same_case, same_approval, phase_of, renew_capabilities}

-- The texts of the reasons.
abbrev pub fenced_reason : ℕ
fenced_reason = 4

abbrev pub compensate_reason : ℕ
compensate_reason = 5

abbrev pub check_reason : ℕ
check_reason = 6

abbrev pub reconciled_reason : ℕ
reconciled_reason = 7

abbrev pub move_to_rollback : Recovery → Case → Database → Result (Case × Database)
move_to_rollback r c db =
    if has_status c.status (CaseStatus.rollback_required ∷ [])
    then ok (c, db)
    else persist_case_transition r.actor CaseStatus.rollback_required compensate_reason r.now
        r.first_version c db

abbrev pub move_to_check : Recovery → Case → Database → Result (Case × Database)
move_to_check r c db =
    if has_status c.status (CaseStatus.recovery_required ∷ [])
    then ok (c, db)
    else persist_case_transition r.actor CaseStatus.recovery_required check_reason r.now
        r.first_version c db

abbrev pub move_to_execution : Recovery → Case → Database → Result (Case × Database)
move_to_execution r c db =
    if has_status c.status (CaseStatus.ready_to_execute ∷ CaseStatus.executing ∷ [])
    then ok (c, db)
    else move_to_check r c db >>= λ pending.
        persist_case_transition r.actor CaseStatus.executing reconciled_reason r.now
          r.second_version pending.0 pending.1

-- The transitions to the status from which the run goes on.
unfoldable pub move_to_resume : Recovery → Case → Database → Result (Case × Database)
unfolding persist_case_transition
move_to_resume r c db = if r.rollback then move_to_rollback r c db else move_to_execution r c db

abbrev pub queued_run : Recovery → List ℕ → TeamRun → TeamRun
queued_run r cancelled run = record run {
  status = some queued;
  phase = some (phase_of r);
  updated_at = r.now;
  error = none;
  cancelled_task_ids = cancelled;
}

abbrev pub queued_case : Recovery → List ℕ → Case → Case → Case
queued_case r cancelled c pending = record pending {
  recovery_generation = pending.recovery_generation + 1;
  team_run = some (queued_run r cancelled (run_of c.team_run));
}

-- The snapshots that the human action was checked against are those that are stored.
unfoldable pub check_snapshots : Recovery → Case → Database → Result (Unit {0})
unfolding locked_case
check_snapshots r c db = do
  raise_if (not (same_case (locked_case db c.case_id) c)) stale_case_transition
  raise_if (not (option_eq (lookup c.case_id db.verifications) r.verification))
      stale_case_transition
  raise_if (not (same_approval c.case_id r.approval db)) stale_case_transition

-- The tail: the renewal, the transitions, and the queued run.
unfoldable pub queue_run : Env → Recovery → Case → List ℕ → Database → Result (Case × Database)
unfolding save_case_with_conn move_to_resume
queue_run env r c cancelled db = do
  renewed ← renew_capabilities env r c db
  (pending, moved) ← move_to_resume r c renewed
  (updated, written) ← save_case_with_conn false (queued_case r cancelled c pending) moved
  ok (
    updated,
    audit c.case_id r.actor
        (team_run_resume_requested (run_of c.team_run).run_id (phase_of r) r.subject r.assertion_ref
          updated.recovery_generation cancelled)
        written,
  )

-- `resume_case_run`: the caller's case and the database after the commit.
unfoldable pub resume_case_run :
    Process → Env → Recovery → Case → Database → Result (Case × Database)
unfolding check_snapshots cancel_open_agent_tasks reconcile queue_run authorize_tool
resume_case_run p env r c db = do
  _ ← authorize_tool r.actor (approval_decide ∷ []) renewal_tool
  check_snapshots r c db
  let (cancelled, fenced) = cancel_open_agent_tasks c.case_id r.actor fenced_reason db
  (operations, settled) ← reconcile p c.case_id fenced
  queue_run env r c cancelled
      (audit c.case_id r.actor (human_recovery_authorized r.subject (length operations)) settled)
