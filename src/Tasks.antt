-- ===== src/Tasks.antt =====
-- The tasks of the workers (revguard/agent_bridge.py, the task operations of revguard/store.py and of
-- revguard/workflow_persistence.py). Each operation is one transaction: a raised error leaves the
-- database as it was.
pub mod Lifecycle
pub mod Attempts
pub mod Steps
pub mod Results
pub mod Fencing
mod Examples
use revguard.Base.{
  ℕ, ◌+◌, Bool, true, false, not, ◌&&◌, ◌||◌, Option, none, some, List, [], ◌∷◌, ◌++◌, Dict, lookup,
  insert, any, ltb, map_rows, ◌==◌, if◌then◌else◌,
}
use revguard.Model.Status.{
  CaseStatus, case_status_eq, StatusText, known, unknown, status_text_eq, TaskStatus,
}
use revguard.Model.Errors.{
  Result, ok, err, ◌>>=◌, ◌>>◌, raise_if, or_raise, value_error, lookup_error, integrity_error,
}
use revguard.Model.Actors.{Actor, actor_eq}
use revguard.Model.Skills.{Skill}
use revguard.Model.Tables.{
  Case, Task, StageResult, Database, agent_task_started, agent_task_completed,
  agent_task_reassigned, agent_tasks_cancelled,
}
use revguard.Cases.{audit, locked_case}
use revguard.Journal.{Process, case_version, is_running}
use revguard.Gateway.Submission.{contains}

-- `SKILL_CASE_STATUSES`
abbrev pub skill_case_statuses : Skill → List CaseStatus
skill_case_statuses Skill.case_normalize = CaseStatus.created ∷ CaseStatus.waiting_for_evidence ∷ []
skill_case_statuses Skill.entity_resolve = CaseStatus.normalizing ∷ []
skill_case_statuses Skill.evidence_collect = CaseStatus.evidence_collecting ∷ []
skill_case_statuses Skill.policy_version_match = CaseStatus.policy_matching ∷ []
skill_case_statuses Skill.commission_calculate = CaseStatus.calculating ∷ []
skill_case_statuses Skill.difference_explain = CaseStatus.root_cause_analyzing ∷ []
skill_case_statuses Skill.risk_classify = CaseStatus.risk_review ∷ []
skill_case_statuses Skill.approval_route = CaseStatus.risk_review ∷ []
skill_case_statuses Skill.permission_check = CaseStatus.ready_to_execute ∷ CaseStatus.executing ∷ []
skill_case_statuses Skill.idempotency_guard =
    CaseStatus.ready_to_execute ∷ CaseStatus.executing ∷ []
skill_case_statuses Skill.adjustment_draft = CaseStatus.ready_to_execute ∷ CaseStatus.executing ∷ []
skill_case_statuses Skill.ledger_adjust = CaseStatus.executing ∷ []
skill_case_statuses Skill.ledger_reverse = CaseStatus.rollback_required ∷ []
skill_case_statuses Skill.post_action_verify = CaseStatus.verifying ∷ []
skill_case_statuses Skill.post_rollback_verify = CaseStatus.rollback_required ∷ []
skill_case_statuses Skill.case_to_dataset =
    CaseStatus.resolved ∷ CaseStatus.rejected ∷ CaseStatus.rolled_back ∷ CaseStatus.closed ∷ []

-- `SKILL_ACTORS`: each skill has exactly one actor.
abbrev pub skill_actor : Skill → Actor
skill_actor Skill.case_normalize = Actor.intake
skill_actor Skill.entity_resolve = Actor.intake
skill_actor Skill.evidence_collect = Actor.evidence
skill_actor Skill.policy_version_match = Actor.policy
skill_actor Skill.commission_calculate = Actor.calculation
skill_actor Skill.difference_explain = Actor.rootcause
skill_actor Skill.risk_classify = Actor.risk
skill_actor Skill.approval_route = Actor.risk
skill_actor Skill.permission_check = Actor.executor
skill_actor Skill.idempotency_guard = Actor.executor
skill_actor Skill.adjustment_draft = Actor.executor
skill_actor Skill.ledger_adjust = Actor.executor
skill_actor Skill.ledger_reverse = Actor.executor
skill_actor Skill.post_action_verify = Actor.verifier
skill_actor Skill.post_rollback_verify = Actor.verifier
skill_actor Skill.case_to_dataset = Actor.knowledge

-- The position in the registry.
abbrev pub skill_index : Skill → ℕ
skill_index Skill.case_normalize = 0
skill_index Skill.entity_resolve = 1
skill_index Skill.evidence_collect = 2
skill_index Skill.policy_version_match = 3
skill_index Skill.commission_calculate = 4
skill_index Skill.difference_explain = 5
skill_index Skill.risk_classify = 6
skill_index Skill.approval_route = 7
skill_index Skill.permission_check = 8
skill_index Skill.idempotency_guard = 9
skill_index Skill.adjustment_draft = 10
skill_index Skill.ledger_adjust = 11
skill_index Skill.ledger_reverse = 12
skill_index Skill.post_action_verify = 13
skill_index Skill.post_rollback_verify = 14
skill_index Skill.case_to_dataset = 15

abbrev pub skill_eq : Skill → Skill → Bool
skill_eq a b = skill_index a == skill_index b

abbrev pub admits : StatusText → List CaseStatus → Bool
admits (known s) statuses = any (λ t. case_status_eq s t) statuses
admits (unknown n) statuses = false

-- `create_agent_task`; `fits_schema` is the verdict of the skill's schema on the input.
unfoldable pub create_agent_task :
    Process → (Skill → ℕ → Bool) → ℕ → Case → Option Skill → ℕ → Result Task
create_agent_task p fits_schema task_id case skill_name input = do
  skill ← or_raise skill_name value_error
  raise_if (not (admits case.status (skill_case_statuses skill))) value_error
  raise_if (not (fits_schema skill input)) value_error
  ok (record {
    task_id = task_id;
    case_id = case.case_id;
    status = TaskStatus.pending;
    attempt = 0;
    case_version = case_version p case;
    skill_name = skill;
    assigned_actor = skill_actor skill;
    case_status = case.status;
    input = input;
    result = none;
    skill_receipt = none;
    error = none;
    metadata = [];
    matrix_retry_event_ids = [];
    replaced_by_task_id = none;
    supersedes_task_id = none;
    cancellation_reason = none;
  })

abbrev pub may_start : TaskStatus → Bool
may_start TaskStatus.pending = true
may_start TaskStatus.failed_retryable = true
may_start _ = false

unfoldable pub validate_task_invocation :
    Process → Task → Case → Skill → Actor → ℕ → Result (Unit {0})
validate_task_invocation p task case skill_name actor skill_input = do
  raise_if (not (task.case_id == case.case_id)) value_error
  raise_if (not (skill_eq task.skill_name skill_name && actor_eq task.assigned_actor actor))
      value_error
  raise_if (not (task.input == skill_input)) value_error
  raise_if
      (not
        (status_text_eq task.case_status case.status && task.case_version == case_version p case))
      value_error
  raise_if (not (may_start task.status)) value_error

-- `Store.save_agent_task`
unfoldable pub save_agent_task : Task → Database → Result Database
save_agent_task task db = do
  raise_if (contains task.task_id db.tasks) value_error
  ok (record db { tasks = insert task.task_id task db.tasks })

-- `TASK_METADATA` has twelve names, which are numbered here.
abbrev pub has_other_names : Dict ℕ → Bool
has_other_names [] = false
has_other_names ((name, _) ∷ updates) = not (ltb name 12) || has_other_names updates

-- `task.update(updates)`
abbrev pub update_names : Dict ℕ → Dict ℕ → Dict ℕ
update_names [] d = d
update_names ((name, value) ∷ updates) d = update_names updates (insert name value d)

abbrev pub start_task : Dict ℕ → Task → Task
start_task updates task = record task {
  metadata = update_names updates task.metadata;
  status = TaskStatus.running;
  attempt = task.attempt + 1;
}

-- `claim_agent_task`
unfoldable pub claim_agent_task :
    Process → ℕ → ℕ → Skill → Actor → ℕ → Dict ℕ → Database → Result (Task × Database)
claim_agent_task p task_id case_id skill_name actor skill_input updates db = do
  case ← or_raise (locked_case db case_id) lookup_error
  task ← or_raise (lookup task_id db.tasks) lookup_error
  validate_task_invocation p task case skill_name actor skill_input
  raise_if (has_other_names updates) value_error
  let started = start_task updates task
  ok (
    started,
    audit case_id actor (agent_task_started task_id skill_name)
        (record db { tasks = insert task_id started db.tasks }),
  )
