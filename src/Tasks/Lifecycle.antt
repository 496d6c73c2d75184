-- ===== src/Tasks/Lifecycle.antt =====
-- How a task ends (revguard/store.py: `transition_agent_task`, `complete_agent_task`,
-- `replace_agent_task`, `cancel_open_agent_tasks`; `update_task_metadata` of
-- revguard/workflow_persistence.py; `_execute_agent_task` of revguard/agent_bridge.py).
use revguard.Base.{
  ℕ, ◌+◌, Bool, true, false, not, ◌&&◌, Option, none, some, List, [], ◌∷◌, ◌++◌, Dict, lookup,
  insert, any, map_rows, ◌==◌, if◌then◌else◌,
}
use revguard.Model.Status.{TaskStatus}
use revguard.Model.Errors.{
  Result, ok, err, ◌>>=◌, ◌>>◌, raise_if, or_raise, value_error, lookup_error, integrity_error,
}
use revguard.Model.Actors.{Actor}
use revguard.Model.Skills.{Skill}
use revguard.Model.Tables.{
  Task, StageResult, Database, agent_task_completed, agent_task_reassigned, agent_tasks_cancelled,
}
use revguard.Cases.{audit, locked_case}
use revguard.Journal.{Process, Claim, is_running}
use revguard.Gateway.Submission.{contains}
use revguard.Tasks.{validate_task_invocation, claim_agent_task, has_other_names, update_names}

-- `terminal_statuses`
abbrev pub is_terminal : TaskStatus → Bool
is_terminal TaskStatus.succeeded = true
is_terminal TaskStatus.failed_retryable = true
is_terminal TaskStatus.failed_final = true
is_terminal TaskStatus.result_unknown = true
is_terminal _ = false

abbrev pub is_succeeded : TaskStatus → Bool
is_succeeded TaskStatus.succeeded = true
is_succeeded _ = false

-- `expected_attempt is not None and attempt != expected_attempt`
abbrev pub other_attempt : Option ℕ → ℕ → Bool
other_attempt none attempt = false
other_attempt (some n) attempt = not (attempt == n)

-- What a skill leaves: its data and receipt, or an error.
pub record Ending : Type 0 where
  pub status : TaskStatus
  pub result : Option ℕ
  pub skill_receipt : Option ℕ
  pub error : Option ℕ

abbrev pub end_task : Ending → Task → Task
end_task e task = record task {
  status = e.status;
  result = e.result;
  skill_receipt = e.skill_receipt;
  error = e.error;
}

abbrev pub stage_result : Ending → Task → StageResult
stage_result e task = record {
  task_id = task.task_id;
  case_id = task.case_id;
  attempt = task.attempt;
  status = e.status;
  result = e.result;
  skill_receipt = e.skill_receipt;
  error = e.error;
}

abbrev pub is_result_of : ℕ → ℕ → StageResult → Bool
is_result_of task_id attempt r = r.task_id == task_id && r.attempt == attempt

-- `complete_agent_task`; `UNIQUE(task_id, attempt)` refuses a second result.
unfoldable pub complete_agent_task :
    ℕ → Option ℕ → Ending → Database → Result ((Task × StageResult) × Database)
complete_agent_task task_id expected_attempt e db = do
  raise_if (not (is_terminal e.status)) value_error
  task ← or_raise (lookup task_id db.tasks) lookup_error
  raise_if (not (is_running task.status)) value_error
  raise_if (other_attempt expected_attempt task.attempt) value_error
  let done = end_task e task
  let row = record (stage_result e task) { task_id = task_id }
  raise_if (any (is_result_of task_id task.attempt) db.results) integrity_error
  ok (
    (done, row),
    audit task.case_id task.assigned_actor
        (agent_task_completed (is_succeeded e.status) task_id task.skill_name e.status task.attempt)
        (record db { tasks = insert task_id done db.tasks; results = row ∷ db.results }),
  )

-- `transition_agent_task`, where `updates` may change other fields.
unfoldable pub transition_agent_task :
    ℕ → (TaskStatus → Bool) → TaskStatus → (Task → Task) → Database → Result (Task × Database)
transition_agent_task task_id is_expected status updates db = do
  task ← or_raise (lookup task_id db.tasks) lookup_error
  raise_if (not (is_expected task.status)) value_error
  let updated = updates task
  let moved = record updated {
    attempt = if is_running status then updated.attempt + 1 else updated.attempt;
    status = status;
  }
  ok (moved, record db { tasks = insert task_id moved db.tasks })

abbrev pub may_be_replaced : TaskStatus → Bool
may_be_replaced TaskStatus.failed_retryable = true
may_be_replaced TaskStatus.failed_final = true
may_be_replaced TaskStatus.cancelled = true
may_be_replaced _ = false

abbrev pub retire_task : Task → Task → Task
retire_task replacement old = record old {
  status = TaskStatus.cancelled;
  replaced_by_task_id = some replacement.task_id;
}

-- `replace_agent_task`; the primary key refuses a replacement that is a task already.
unfoldable pub replace_agent_task :
    ℕ → Task → Actor → ℕ → Database → Result ((Task × Task) × Database)
replace_agent_task old_task_id replacement who reason db = do
  old ← or_raise (lookup old_task_id db.tasks) lookup_error
  raise_if (not (may_be_replaced old.status)) value_error
  raise_if (contains replacement.task_id db.tasks) integrity_error
  let retired = retire_task replacement old
  let successor = record replacement { supersedes_task_id = some old_task_id }
  ok (
    (retired, successor),
    audit replacement.case_id who (agent_task_reassigned old_task_id replacement.task_id reason)
        (record db {
          tasks = insert replacement.task_id successor (insert old_task_id retired db.tasks);
        }),
  )

-- `open_statuses`
abbrev pub is_open : TaskStatus → Bool
is_open TaskStatus.pending = true
is_open TaskStatus.running = true
is_open TaskStatus.waiting_tool = true
is_open TaskStatus.waiting_human = true
is_open TaskStatus.failed_retryable = true
is_open _ = false

abbrev pub is_affected : ℕ → Task → Bool
is_affected case_id task = task.case_id == case_id && is_open task.status

abbrev pub cancel_task : ℕ → ℕ → Task → Task
cancel_task case_id reason task =
    if is_affected case_id task
    then record task { status = TaskStatus.cancelled; cancellation_reason = some reason }
    else task

abbrev pub affected : ℕ → Dict Task → List ℕ
affected case_id [] = []
affected case_id ((task_id, task) ∷ rest) =
    let others = affected case_id rest in
    if is_affected case_id task then task_id ∷ others else others

abbrev pub audit_cancelled : ℕ → Actor → List ℕ → ℕ → Database → Database
audit_cancelled case_id who [] reason db = db
audit_cancelled case_id who (id ∷ ids) reason db =
    audit case_id who (agent_tasks_cancelled (id ∷ ids) reason) db

-- `cancel_open_agent_tasks`
unfoldable pub cancel_open_agent_tasks : ℕ → Actor → ℕ → Database → List ℕ × Database
cancel_open_agent_tasks case_id who reason db =
    let cancelled = affected case_id db.tasks in
    (
      cancelled,
      audit_cancelled case_id who cancelled reason
          (record db { tasks = map_rows (cancel_task case_id reason) db.tasks }),
    )

-- `if retry_event_id not in events: events.append(retry_event_id)`
abbrev pub add_event : Option ℕ → List ℕ → List ℕ
add_event none events = events
add_event (some e) events = if any (λ f. e == f) events then events else events ++ (e ∷ [])

-- `update_task_metadata`; the fields of `telemetry` count as names of their own.
unfoldable pub update_task_metadata : ℕ → Dict ℕ → Option ℕ → Database → Result (Task × Database)
update_task_metadata task_id updates retry_event_id db = do
  raise_if (has_other_names updates) value_error
  task ← or_raise (lookup task_id db.tasks) lookup_error
  let updated = record task {
    metadata = update_names updates task.metadata;
    matrix_retry_event_ids = add_event retry_event_id task.matrix_retry_event_ids;
  }
  ok (updated, record db { tasks = insert task_id updated db.tasks })

-- How the skill of a task returns: with data and a receipt, or by an exception, which is a
-- `ToolError` with an unknown result, one that may be tried again, or any other.
pub data SkillReply : Type 0 where
  returned : ℕ → ℕ → SkillReply
  unknown_result retryable fatal : ℕ → SkillReply

abbrev pub ending_of : SkillReply → Ending
ending_of (returned data_ receipt) = record {
  status = TaskStatus.succeeded;
  result = some data_;
  skill_receipt = some receipt;
  error = none;
}
ending_of (unknown_result e) = record {
  status = TaskStatus.result_unknown;
  result = none;
  skill_receipt = none;
  error = some e;
}
ending_of (retryable e) = record {
  status = TaskStatus.failed_retryable;
  result = none;
  skill_receipt = none;
  error = some e;
}
ending_of (fatal e) = record {
  status = TaskStatus.failed_final;
  result = none;
  skill_receipt = none;
  error = some e;
}

-- `claimed_task`
abbrev pub claim_of : Task → Claim
claim_of task = record {
  task_id = task.task_id;
  case_id = task.case_id;
  attempt = task.attempt;
  case_version = task.case_version;
}

-- The claim of `_execute_agent_task`: the task and the case are checked, and then once more under the
-- lock of the claim.
unfoldable pub begin_task :
    Process → ℕ → ℕ → Skill → Actor → ℕ → Dict ℕ → Database → Result (Task × Database)
begin_task p task_id case_id skill_name actor skill_input updates db = do
  task ← or_raise (lookup task_id db.tasks) lookup_error
  case ← or_raise (locked_case db case_id) lookup_error
  validate_task_invocation p task case skill_name actor skill_input
  claim_agent_task p task_id case_id skill_name actor skill_input updates db

-- The completion with the reply of the skill, which is then returned or raised again.
abbrev pub finish_task : Task → SkillReply × Database → Result SkillReply × Database
finish_task started (reply, db) =
    elim (complete_agent_task started.task_id (some started.attempt) (ending_of reply) db) [
      | err e ↦ (err e, db)
      | ok (_, written) ↦ (ok reply, written)
    ]

-- `_execute_agent_task`; `invoke` is the skill, which runs under the claim of the task.
unfoldable pub execute_agent_task :
    Process
    → (Claim → Database → SkillReply × Database)
    → ℕ
    → ℕ
    → Skill
    → Actor
    → ℕ
    → Dict ℕ
    → Database
    → Result SkillReply × Database
execute_agent_task p invoke task_id case_id skill_name actor skill_input updates db =
    elim (begin_task p task_id case_id skill_name actor skill_input updates db) [
      | err e ↦ (err e, db)
      | ok (started, claimed) ↦ finish_task started (invoke (claim_of started) claimed)
    ]
