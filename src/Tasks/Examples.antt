-- ===== src/Tasks/Examples.antt =====
-- A task from its creation to its end, and the theorems at its values.
use revguard.Base.{map, Bool, ◌+◌, ◌≡◌, refl, true, false, none, some, [], ◌∷◌, lookup, arith}
use revguard.Model.Status.{CaseStatus, known, TaskStatus}
use revguard.Model.Errors.{ok, err, value_error, stale_task_execution}
use revguard.Model.Actors.{Actor}
use revguard.Model.Skills.{Skill}
use revguard.Model.Tables.{Case, Task, Database, agent_task_started}
use revguard.Model.Samples.{empty}
use revguard.Cases.{locked_case}
use revguard.Journal.{Process, assert_active_claim}
use revguard.Tasks.{
  create_agent_task, validate_task_invocation, start_task, save_agent_task, claim_agent_task,
}
use revguard.Tasks.Lifecycle.{
  Ending, end_task, stage_result, transition_agent_task, retryable, claim_of, begin_task,
  complete_agent_task, cancel_open_agent_tasks, execute_agent_task,
}
use revguard.Tasks.Attempts.{HasOrderlyResults}
use revguard.Tasks.Steps.{TaskSteps, no_step, by_save, by_claim, by_completion, by_transition}
use revguard.Tasks.Results.{results_stay_orderly, completed, completes}
use revguard.Tasks.Fencing.{claiming, cancelled_worker_is_refused}

abbrev case : Case
case = record {
  case_id = 7;
  status = known CaseStatus.calculating;
  recording_id = none;
  state_version = some 1;
  case_revision = 4;
  updated_at = 0;
  team_run = none;
  recovery_generation = 0;
  recovery_phase = none;
  approval_required = false;
  body = 55;
}

abbrev process : Process
process = record {
  recovery_lock = false;
  claim = none;
  digest = λ c. c.body + c.case_revision;
  recording_key = λ key epoch. key;
}

abbrev start : Database
start = record empty { cases = (7, case) ∷ [] }

abbrev task : Task
task = record {
  task_id = 30;
  case_id = 7;
  status = TaskStatus.pending;
  attempt = 0;
  case_version = 55;
  skill_name = Skill.commission_calculate;
  assigned_actor = Actor.calculation;
  case_status = known CaseStatus.calculating;
  input = 3;
  result = none;
  skill_receipt = none;
  error = none;
  metadata = [];
  matrix_retry_event_ids = [];
  replaced_by_task_id = none;
  supersedes_task_id = none;
  cancellation_reason = none;
}

test_creation :
    create_agent_task process (λ _ _. true) 30 case (some Skill.commission_calculate) 3 ≡ ok task
unfolding create_agent_task
test_creation = refl

-- The status of the case does not admit the skill.
test_wrong_status :
    create_agent_task process (λ _ _. true) 30 case (some Skill.ledger_adjust) 3 ≡ err value_error
unfolding create_agent_task
test_wrong_status = refl

abbrev saved : Database
saved = record start { tasks = (30, task) ∷ [] }

saving : save_agent_task task start ≡ ok saved
unfolding save_agent_task
saving = refl

test_saved_twice : save_agent_task task saved ≡ err value_error
unfolding save_agent_task
test_saved_twice = refl

abbrev started : Task
started = start_task [] task

abbrev claimed : Database
claimed = record saved {
  audit =
      record {
        case_id = 7;
        actor = Actor.calculation;
        detail = agent_task_started 30 Skill.commission_calculate;
      }
      ∷ [];
  tasks = (30, started) ∷ [];
}

claiming_it :
    claim_agent_task process 30 7 Skill.commission_calculate Actor.calculation 3 [] saved
    ≡ ok (started, claimed)
unfolding claim_agent_task locked_case validate_task_invocation
claiming_it = refl

-- Another worker cannot take the running task.
test_claimed_twice :
    claim_agent_task process 30 7 Skill.commission_calculate Actor.calculation 3 [] claimed
    ≡ err value_error
unfolding claim_agent_task locked_case validate_task_invocation
test_claimed_twice = refl

-- A skill that fails and may be tried again.
test_execution :
    (execute_agent_task process
      (λ _ db. (retryable 6, db))
      30
      7
      Skill.commission_calculate
      Actor.calculation
      3
      []
      saved).0
    ≡ ok (retryable 6)
unfolding execute_agent_task begin_task claim_agent_task locked_case validate_task_invocation
    complete_agent_task
test_execution = refl

start-HasOrderlyResults : HasOrderlyResults start
start-HasOrderlyResults = (tt, tt)

-- A first attempt that fails and may be tried again, its restart, and a second that succeeds.
abbrev failed : Ending
failed = record {
  status = TaskStatus.failed_retryable;
  result = none;
  skill_receipt = none;
  error = some 6;
}

abbrev succeeded_ending : Ending
succeeded_ending = record {
  status = TaskStatus.succeeded;
  result = some 8;
  skill_receipt = some 9;
  error = none;
}

abbrev failed_once : Database
failed_once = completed 30 started failed claimed

abbrev restarted : Task
restarted = record (end_task failed started) { status = TaskStatus.running; attempt = 2 }

abbrev running_again : Database
running_again = record failed_once { tasks = (30, restarted) ∷ [] }

is_failed : TaskStatus → Bool
is_failed TaskStatus.failed_retryable = true
is_failed _ = false

restarting :
    transition_agent_task 30 is_failed TaskStatus.running (λ t. t) failed_once
    ≡ ok (restarted, running_again)
unfolding transition_agent_task is_failed
restarting = refl

abbrev twice_ended : Database
twice_ended = completed 30 restarted succeeded_ending running_again

test_results : map (λ r. r.attempt) twice_ended.results ≡ 2 ∷ 1 ∷ []
test_results = refl

abbrev run : TaskSteps start twice_ended
run =
    by_completion 30 (some 2) succeeded_ending
      (
        end_task succeeded_ending restarted,
        record (stage_result succeeded_ending restarted) { task_id = 30 },
      )
      twice_ended
      (by_transition 30 is_failed TaskStatus.running (λ t. t) restarted running_again
        (by_completion 30 (some 1) failed
          (end_task failed started, record (stage_result failed started) { task_id = 30 })
          failed_once
          (by_claim process 30 7 Skill.commission_calculate Actor.calculation 3 [] started claimed
            (by_save task saved no_step saving) claiming_it)
          (completes claimed 30 started failed refl refl refl refl))
        restarting)
      (completes running_again 30 restarted succeeded_ending refl refl refl refl)

results_stay_orderly_example : HasOrderlyResults twice_ended
results_stay_orderly_example =
    results_stay_orderly run (tt, λ t. omega arith) start-HasOrderlyResults

in_claimed : lookup 30 claimed.tasks ≡ some started
in_claimed = refl

own_case : (c : Case) → lookup 7 saved.cases ≡ some c → c.case_id ≡ 7
own_case c h = ground arith

own_task : (t : Task) → lookup 30 saved.tasks ≡ some t → t.task_id ≡ 30
own_task t h = ground arith

of_case : (t : Task) → lookup 30 claimed.tasks ≡ some t → t.case_id ≡ 7
of_case t h = ground arith

cancelled_worker_is_refused_example :
    assert_active_claim
      (claiming (claim_of started) process)
      7
      (cancel_open_agent_tasks 7 Actor.orchestrator 2 claimed).1
    ≡ err stale_task_execution
cancelled_worker_is_refused_example =
    cancelled_worker_is_refused process (claim_of started) Actor.orchestrator 2 claimed of_case
