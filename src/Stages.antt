-- ===== src/Stages.antt =====
-- The stages of the coordinator (`commit_case_stage`, `update_case_run`,
-- revguard/workflow_persistence.py; `_save_evidence_with_conn` and its kin, revguard/store.py).
pub mod Commits
mod Examples
use revguard.Base.{
  ℕ, Bool, true, false, not, ◌&&◌, ◌||◌, Option, none, some, List, [], ◌∷◌, Dict, lookup, insert,
  option_eq, if◌then◌else◌, ◌==◌,
}
use revguard.Model.Status.{CaseStatus}
use revguard.Model.Errors.{
  Error, Result, ok, err, ◌>>=◌, ◌>>◌, raise_if, or_raise, value_error, stale_case_transition,
}
use revguard.Model.Actors.{Actor}
use revguard.Model.Money.{Execution}
use revguard.Model.Tables.{Case, TeamRun, Projection, Database, stage_event}
use revguard.Cases.{
  audit, locked_case, same_generation, persist_case_transition, save_case_with_conn, Outcome,
  commit,
}

-- What a stage writes besides the case; `audit_entry` is its actor, and its event with the detail.
pub record Stage : Type 0 where
  pub evidence : List Projection
  pub approval : Option Projection
  pub execution : Option Execution
  pub verification : Option ℕ
  pub to : Option CaseStatus
  pub reason : ℕ
  pub audit_entry : Option (Actor × ℕ)

abbrev pub belongs : ℕ → List Projection → Bool
belongs case_id [] = true
belongs case_id (p ∷ ps) = p.case_id == case_id && belongs case_id ps

abbrev pub approval_belongs : ℕ → Option Projection → Bool
approval_belongs case_id none = true
approval_belongs case_id (some p) = p.case_id == case_id

abbrev pub execution_belongs : ℕ → Option Execution → Bool
execution_belongs case_id none = true
execution_belongs case_id (some e) = e.case_id == case_id

abbrev pub all_belong : ℕ → Stage → Bool
all_belong case_id stage =
    belongs case_id stage.evidence
    && approval_belongs case_id stage.approval
    && execution_belongs case_id stage.execution

-- `current is not None`, and its generation and revision are those of the snapshot.
abbrev pub is_current : Option Case → Case → Bool
is_current none c = false
is_current (some d) c = same_generation d c && d.case_revision == c.case_revision

abbrev pub save_evidence : List Projection → Database → Database
save_evidence [] db = db
save_evidence (p ∷ ps) db =
    save_evidence ps (record db { evidence = insert p.projection_id p db.evidence })

abbrev pub save_approval : Option Projection → Database → Database
save_approval none db = db
save_approval (some p) db = record db { approvals = insert p.projection_id p db.approvals }

-- The rows of other actions with the key, which is unique, are replaced.
abbrev pub without_key : ℕ → ℕ → Dict Execution → Dict Execution
without_key key action_id [] = []
without_key key action_id ((at, e) ∷ rest) =
    let others = without_key key action_id rest in
    if e.idempotency_key == key && not (at == action_id) then others else (at, e) ∷ others

abbrev pub save_execution : Option Execution → Database → Database
save_execution none db = db
save_execution (some e) db = record db {
  executions = insert e.action_id e (without_key e.idempotency_key e.action_id db.executions);
}

abbrev pub save_verification : ℕ → Option ℕ → Database → Database
save_verification case_id none db = db
save_verification case_id (some v) db = record db {
  verifications = insert case_id v db.verifications;
}

abbrev pub save_audit : ℕ → Option (Actor × ℕ) → Database → Database
save_audit case_id none db = db
save_audit case_id (some (who, event)) db = audit case_id who (stage_event event) db

abbrev pub save_projections : ℕ → Stage → Database → Database
save_projections case_id stage db = save_audit case_id stage.audit_entry (
    save_verification case_id stage.verification (
      save_execution stage.execution
        (save_approval stage.approval (save_evidence stage.evidence db))))

-- The transition that the stage asks for, or an ordinary save of the snapshot.
abbrev pub save_progress :
    Option CaseStatus → ℕ → ℕ → ℕ → Case → Database → Result (Case × Database)
save_progress none reason stamp version c db = save_case_with_conn false c db
save_progress (some to) reason stamp version c db =
    persist_case_transition Actor.orchestrator to reason stamp version c db

unfoldable pub stage_writes : Stage → ℕ → ℕ → Case → Database → Result (Case × Database)
stage_writes stage stamp version c db = do
  raise_if (not (all_belong c.case_id stage)) value_error
  raise_if (not (is_current (locked_case db c.case_id) c)) stale_case_transition
  save_progress stage.to stage.reason stamp version c (save_projections c.case_id stage db)

-- `commit_case_stage`
unfoldable pub commit_case_stage : Stage → ℕ → ℕ → Case → Database → Outcome
commit_case_stage stage stamp version c db = commit c db (stage_writes stage stamp version c db)

-- The caller's copy takes over the progress and the revision of the stored case.
abbrev pub adopt_run : Case → Case → Case
adopt_run c stored = record c { team_run = stored.team_run; case_revision = stored.case_revision }

unfoldable pub run_writes : (Option TeamRun → TeamRun) → Case → Database → Result (Case × Database)
run_writes merged c db = do
  current ← or_raise (locked_case db c.case_id) stale_case_transition
  raise_if
      (not
        (current.case_revision == c.case_revision && option_eq current.recording_id c.recording_id))
      stale_case_transition
  (stored, written) ←
      save_case_with_conn false (record current { team_run = some (merged current.team_run) }) db
  ok (adopt_run c stored, written)

-- `update_case_run`: only the progress of the stored case changes, where `merged` is the stored
-- progress with the updates.
unfoldable pub update_case_run : (Option TeamRun → TeamRun) → Case → Database → Outcome
update_case_run merged c db = commit c db (run_writes merged c db)
