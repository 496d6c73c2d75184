-- ===== src/Recovery/Resume.antt =====
-- The transaction that resumes an interrupted run (`resume_case_run`, revguard/recovery.py).
use revguard.Base.{
  ℕ, ◌+◌, Bool, true, false, not, ◌&&◌, Option, none, some, List, [], ◌∷◌, ◌++◌, Dict, lookup,
  insert, option_eq, if◌then◌else◌, ◌==◌,
}
use revguard.Base.Int.{ℤ}
use revguard.Model.Status.{status_text_eq}
use revguard.Model.Actors.{Actor}
use revguard.Model.Money.{Approval, Execution}
use revguard.Model.Tables.{
  Case, TeamRun, Phase, rollback_phase, execution_phase, other_phase, RunStatus, queued, starting,
  in_progress, broken, other_run, Projection, Database, approval_capability_renewed,
  rollback_capability_renewed,
}
use revguard.Model.Errors.{Result, ok, err, ◌>>=◌, tool_error, value_error}
use revguard.Cases.{audit}
use revguard.Gateway.{Env}
use revguard.Approvals.Renewal.{renew_approval_capability, renew_rollback_capability}
use revguard.Recovery.{run_of}

abbrev run_status_index : RunStatus → ℕ
run_status_index queued = 0
run_status_index starting = 1
run_status_index in_progress = 2
run_status_index broken = 3
run_status_index (other_run n) = 4 + n

abbrev phase_index : Phase → ℕ
phase_index rollback_phase = 0
phase_index execution_phase = 1
phase_index (other_phase n) = 2 + n

abbrev map_index {ℓ} : {A : Type ℓ} → (A → ℕ) → Option A → Option ℕ
map_index f none = none
map_index f (some a) = some (f a)

abbrev same_ids : List ℕ → List ℕ → Bool
same_ids [] [] = true
same_ids (x ∷ xs) (y ∷ ys) = x == y && same_ids xs ys
same_ids _ _ = false

abbrev same_bool : Bool → Bool → Bool
same_bool a b = if a then b else not b

abbrev same_run : Option TeamRun → Option TeamRun → Bool
same_run none none = true
same_run (some a) (some b) =
    option_eq a.run_id b.run_id
    && option_eq (map_index run_status_index a.status) (map_index run_status_index b.status)
    && option_eq (map_index phase_index a.phase) (map_index phase_index b.phase)
    && a.updated_at == b.updated_at
    && option_eq a.error b.error
    && same_ids a.cancelled_task_ids b.cancelled_task_ids
    && a.body == b.body
same_run _ _ = false

-- `locked_case(tx, case_id) == case`
abbrev pub same_case : Option Case → Case → Bool
same_case none c = false
same_case (some d) c =
    d.case_id == c.case_id
    && status_text_eq d.status c.status
    && option_eq d.recording_id c.recording_id
    && option_eq d.state_version c.state_version
    && d.case_revision == c.case_revision
    && d.updated_at == c.updated_at
    && same_run d.team_run c.team_run
    && d.recovery_generation == c.recovery_generation
    && option_eq (map_index phase_index d.recovery_phase) (map_index phase_index c.recovery_phase)
    && same_bool d.approval_required c.approval_required
    && d.body == c.body

abbrev same_row : ℕ → Option Projection → Projection → Bool
same_row case_id none p = false
same_row case_id (some row) p =
    row.case_id == case_id
    && row.projection_id == p.projection_id
    && row.case_id == p.case_id
    && row.body == p.body

-- The stored approval of the case is the given one, or both are empty.
abbrev pub same_approval : ℕ → Option Projection → Database → Bool
same_approval case_id none db = true
same_approval case_id (some p) db = same_row case_id (lookup p.projection_id db.approvals) p

-- The human action, and what it was checked against: `tokens` are the identifiers of the new tokens
-- by the action they are for, `document` the JSON of an approval, and the versions those of the
-- transitions.
pub record Recovery : Type 0 where
  pub rollback : Bool
  pub actor : Actor
  pub subject : ℕ
  pub assertion_ref : ℕ
  pub approval : Option Projection
  pub verification : Option ℕ
  pub now : ℕ
  pub first_version : ℕ
  pub second_version : ℕ
  pub tokens : ℕ → ℕ
  pub document : Approval → ℕ

abbrev pub phase_of : Recovery → Phase
phase_of r = if r.rollback then rollback_phase else execution_phase

-- `approval.get("approval_id")`; no approval has the number 0.
abbrev pub approval_id_of : Option Projection → ℕ
approval_id_of none = 0
approval_id_of (some p) = p.projection_id

-- `except ToolError as exc: raise RecoveryCapabilityError`
abbrev pub as_capability_error {ℓ} : {A : Type ℓ} → Result A → Result A
as_capability_error (err (tool_error e)) = err value_error
as_capability_error other = other

abbrev quota_of : Option (Dict ℤ) → Dict ℤ
quota_of none = []
quota_of (some quota) = quota

-- The new capability of the approval, in the gateway's image and in the table.
unfoldable pub renew_execution : Env → Recovery → Case → Database → Result Database
unfolding renew_approval_capability
renew_execution env r c db = do
  let id = approval_id_of r.approval
  (renewed, state) ←
      as_capability_error (renew_approval_capability env (r.tokens id) id (some c.case_id) db.state)
  let row : Projection = record {
    projection_id = renewed.approval_id;
    case_id = renewed.case_id;
    body = r.document renewed;
  }
  ok (
      audit c.case_id r.actor
        (approval_capability_renewed renewed.approval_id r.subject
          (quota_of renewed.remaining_component_quota) (run_of c.team_run).run_id)
        (record db { state = state; approvals = insert renewed.approval_id row db.approvals }))

-- A row of the loop over the executions: one of the case that is not reversed gets a new token, in
-- the table and in the gateway's image.
unfoldable pub renew_row :
    Env → Recovery → ℕ → Execution → List ℕ × Database → Result (List ℕ × Database)
unfolding renew_rollback_capability
renew_row env r case_id e (ledgers, db) =
    let renewed = as_capability_error (
      renew_rollback_capability env (r.tokens e.action_id) case_id e.ledger_id e.action_id
        db.state) in
    if e.case_id == case_id && not e.is_rolled_back
    then (do
      token ← renewed
      let updated = record e { rollback_token = some token }
      ok (
        ledgers ++ (e.ledger_id ∷ []),
        record db {
          executions = insert e.action_id updated db.executions;
          state = record db.state {
            execution_results = insert e.idempotency_key updated db.state.execution_results;
          };
        },
      ))
    else ok (ledgers, db)

unfoldable pub renew_rows :
    Env → Recovery → ℕ → Dict Execution → List ℕ × Database → Result (List ℕ × Database)
unfolding renew_row
renew_rows env r case_id [] so_far = ok so_far
renew_rows env r case_id ((_, e) ∷ rows) so_far = do
  next ← renew_row env r case_id e so_far
  renew_rows env r case_id rows next

unfoldable pub renew_rollbacks : Env → Recovery → Case → Database → Result Database
unfolding renew_rows
renew_rollbacks env r c db = do
  (ledgers, written) ← renew_rows env r c.case_id db.executions ([], db)
  ok (
      audit c.case_id r.actor
        (rollback_capability_renewed ledgers r.subject (run_of c.team_run).run_id) written)

abbrev pub renew_capabilities : Env → Recovery → Case → Database → Result Database
renew_capabilities env r c db =
    if r.rollback
    then renew_rollbacks env r c db
    else if c.approval_required
    then renew_execution env r c db
    else ok db
