-- ===== src/Recovery/Examples.antt =====
-- A run that is interrupted after a lost result, recovered, and then reported as failed by its old
-- coordinator.
use revguard.Base.{◌≡◌, refl, true, false, none, some, [], ◌∷◌, lookup}
use revguard.Base.Int.{pos}
use revguard.Model.Status.{CaseStatus, known, OperationStatus, not_committed, TaskStatus}
use revguard.Model.Actors.{Actor}
use revguard.Model.Skills.{Skill}
use revguard.Model.Errors.{ok, err, stale_case_transition}
use revguard.Model.Samples.{empty}
use revguard.Model.Tables.{
  Case, TeamRun, Task, Operation, Hold, Database, execution_phase, in_progress, queued,
  agent_tasks_cancelled, money_recovery_reconciled, human_recovery_authorized, state_transition,
  team_run_resume_requested,
}
use revguard.Access.{authorize_tool, allowed_scopes}
use revguard.Cases.{locked_case, save_case_with_conn, versioned_case_write, persist_case_transition}
use revguard.Lifecycle.{is_allowed}
use revguard.Journal.{Process}
use revguard.Journal.Recovery.{reconcile}
use revguard.Gateway.{Env}
use revguard.Tasks.Lifecycle.{cancel_open_agent_tasks}
use revguard.Recovery.{Failure, has_status, record_background_failure}
use revguard.Recovery.Resume.{Recovery}
use revguard.Recovery.Queue.{
  resume_case_run, check_snapshots, queue_run, move_to_resume, fenced_reason, reconciled_reason,
}
use revguard.Recovery.Fenced.{IsFenced, resumption_fences, late_failure_is_ignored}
use revguard.Recovery.Writes.{resumable}
use revguard.Recovery.Failures.{HasReport, own_failure_is_recorded}

abbrev run : TeamRun
run = record {
  run_id = some 1;
  status = some in_progress;
  phase = some execution_phase;
  updated_at = 9;
  error = none;
  cancelled_task_ids = [];
  body = 6;
}

abbrev case : CaseStatus → Case
case s = record {
  case_id = 7;
  status = known s;
  recording_id = none;
  state_version = some 1;
  case_revision = 4;
  updated_at = 0;
  team_run = some run;
  recovery_generation = 0;
  recovery_phase = none;
  approval_required = false;
  body = 55;
}

abbrev task : Task
task = record {
  task_id = 30;
  case_id = 7;
  status = TaskStatus.running;
  attempt = 1;
  case_version = 55;
  skill_name = Skill.commission_calculate;
  assigned_actor = Actor.calculation;
  case_status = known CaseStatus.executing;
  input = 3;
  result = none;
  skill_receipt = none;
  error = none;
  metadata = [];
  matrix_retry_event_ids = [];
  replaced_by_task_id = none;
  supersedes_task_id = none;
  cancellation_reason = none;
}

abbrev operation : Operation
operation = record {
  case_id = 7;
  channel = 3;
  kind = 1;
  request_hash = 5;
  status = OperationStatus.result_unknown;
  generation = 1;
  recording = 0;
  executions = [];
}

abbrev held_channel : Hold
held_channel = record { channel = 3; case_id = 7; reason = 3 }

abbrev start : CaseStatus → Database
start s = record empty {
  cases = (7, case s) ∷ [];
  operations = (50, operation) ∷ [];
  holds = held_channel ∷ [];
  tasks = (30, task) ∷ [];
}

abbrev process : Process
process = record {
  recovery_lock = false;
  claim = none;
  digest = λ c. c.body;
  recording_key = λ key epoch. key;
}

abbrev env : Env
env = record {
  open_token = λ t. none;
  seal = λ p. [];
  digest = λ m. 0;
  amount_scale = 0;
  issuer = 5;
  now = 1000;
  release = none;
  require_references = false;
  tamper_amount = pos 0;
  tamper_targets = λ _. false;
}

abbrev recovery : Recovery
recovery = record {
  rollback = false;
  actor = Actor.finance_lead;
  subject = 11;
  assertion_ref = 12;
  approval = none;
  verification = none;
  now = 20;
  first_version = 21;
  second_version = 22;
  tokens = λ action. action;
  document = λ approval. 0;
}

abbrev resumed : Case
resumed = record (case CaseStatus.executing) {
  state_version = some 22;
  case_revision = 6;
  updated_at = 20;
  recovery_generation = 1;
  team_run =
      some (record run { status = some queued; updated_at = 20; cancelled_task_ids = 30 ∷ [] });
}

abbrev after : Database
after = record (start CaseStatus.recovery_required) {
  cases = (7, resumed) ∷ [];
  operations = (50, record operation { status = not_committed; generation = 2 }) ∷ [];
  holds = [];
  tasks =
      (30, record task { status = TaskStatus.cancelled; cancellation_reason = some fenced_reason })
      ∷ [];
  audit =
      record {
        case_id = 7;
        actor = Actor.finance_lead;
        detail = team_run_resume_requested (some 1) execution_phase 11 12 1 (30 ∷ []);
      }
      ∷ record {
        case_id = 7;
        actor = Actor.finance_lead;
        detail =
            state_transition CaseStatus.recovery_required CaseStatus.executing reconciled_reason;
      }
      ∷ record { case_id = 7; actor = Actor.finance_lead; detail = human_recovery_authorized 11 1 }
      ∷ record {
        case_id = 7;
        actor = Actor.executor;
        detail = money_recovery_reconciled ((50, not_committed, 2) ∷ []);
      }
      ∷ record {
        case_id = 7;
        actor = Actor.finance_lead;
        detail = agent_tasks_cancelled (30 ∷ []) fenced_reason;
      }
      ∷ [];
}

resuming :
    resume_case_run process env recovery
      (case CaseStatus.recovery_required)
      (start CaseStatus.recovery_required)
    ≡ ok (resumed, after)
unfolding resume_case_run check_snapshots queue_run move_to_resume cancel_open_agent_tasks reconcile
    authorize_tool allowed_scopes locked_case save_case_with_conn versioned_case_write
    persist_case_transition is_allowed
resuming = refl

-- A case that has changed since the human action.
test_stale :
    resume_case_run process env recovery
      (case CaseStatus.executing)
      (start CaseStatus.recovery_required)
    ≡ err stale_case_transition
unfolding resume_case_run check_snapshots authorize_tool allowed_scopes locked_case
test_stale = refl

abbrev failure : Failure
failure = record {
  case_id = 7;
  phase = execution_phase;
  generation = 0;
  recording_id = none;
  error_type = 8;
  now = 30;
  version = 31;
  requires_rollback = λ v. false;
}

resumption_fences_example :
    IsFenced 7 0 after
    × (lookup 7 after.cases ≡ some resumed)
    × (has_status resumed.status (resumable false) ≡ true)
    × (resumed.recovery_generation ≡ 1)
    × (resumed.recording_id ≡ none)
resumption_fences_example =
    resumption_fences process env recovery (case CaseStatus.recovery_required) resumed
      (start CaseStatus.recovery_required) after resuming

late_failure_is_ignored_example : record_background_failure failure after ≡ ok (false, after)
late_failure_is_ignored_example =
    late_failure_is_ignored process env recovery (case CaseStatus.recovery_required) resumed
      (start CaseStatus.recovery_required) after failure resuming refl refl

own_failure_is_recorded_example :
    (w : Database) × (u : Case) × HasReport failure CaseStatus.executing
      (case CaseStatus.executing)
      (start CaseStatus.executing)
      w
      u
own_failure_is_recorded_example =
    own_failure_is_recorded failure CaseStatus.executing (case CaseStatus.executing)
      (start CaseStatus.executing) refl refl refl refl
