-- ===== src/Tasks/Results.antt =====
-- Each attempt at a task ends at most once, and can end (`complete_agent_task`, revguard/store.py).
use revguard.Base.{
  ℕ, ◌≡◌, true, false, not, Option, some, ◌∷◌, lookup, insert, lookup-insert, any, All, ==_refl,
  arith, refl, sym, ◌∙◌, inr, subst,
}
use revguard.Model.Status.{TaskStatus}
use revguard.Model.Errors.{
  ok, raise_if, or_raise, value_error, lookup_error, integrity_error, >>=-eq-ok, ok-injective,
  or_raise-eq-ok, raise_if-eq-ok,
}
use revguard.Model.Tables.{agent_task_completed, Task, StageResult, Database}
use revguard.Cases.{audit}
use revguard.Journal.{is_running}
use revguard.Tasks.Lifecycle.{
  Ending, is_terminal, other_attempt, end_task, stage_result, is_result_of, complete_agent_task,
  cancel_open_agent_tasks, is_succeeded,
}
use revguard.Tasks.Attempts.{
  IsOver, HasNoTwins, HasOrderlyResults, grown_results, Grows-insert, none_at,
}
use revguard.Tasks.Steps.{
  TaskSteps, KeepsAttempts, transition_agent_task-Extends, no_step, by_other, by_save, by_claim,
  by_completion, by_transition, by_replacement, by_cancellation, by_metadata,
  Extends-HasOrderlyResults, save_agent_task-Extends, claim_agent_task-Extends,
  replace_agent_task-Extends, update_task_metadata-Extends, cancel_open_agent_tasks-Extends,
}

terminal_is_stopped : (s : TaskStatus) → is_terminal s ≡ true → is_running s ≡ false
terminal_is_stopped s h = ground arith

complete_agent_task-HasOrderlyResults :
    (task_id : ℕ) (expected : Option ℕ) (e : Ending) (r : Task × StageResult) (db db' : Database)
    → complete_agent_task task_id expected e db ≡ ok (r, db')
    → HasOrderlyResults db
    → HasOrderlyResults db'
unfolding complete_agent_task
complete_agent_task-HasOrderlyResults task_id expected e r db db' h (over, alone) =
    let (_, ends, h1) = >>=-eq-ok (raise_if (not (is_terminal e.status)) value_error) _ h in
    let (t, at, h2) = >>=-eq-ok (or_raise (lookup task_id db.tasks) lookup_error) _ h1 in
    let (_, runs, h3) = >>=-eq-ok (raise_if (not (is_running t.status)) value_error) _ h2 in
    let (_, _, h4) = >>=-eq-ok (raise_if (other_attempt expected t.attempt) value_error) _ h3 in
    let (_, first, h5) =
      >>=-eq-ok (raise_if (any (is_result_of task_id t.attempt) db.results) integrity_error) _ h4 in
    let found = or_raise-eq-ok _ _ at in
    let stopped = terminal_is_stopped e.status (ground arith) in
    let done = end_task e t in
    let grows = Grows-insert db.tasks task_id t done found (inr (refl, λ _. stopped)) in
    let stored : lookup task_id (insert task_id done db.tasks) ≡ some done =
      lookup-insert task_id task_id done db.tasks ∙ rw (==_refl task_id) refl in
    subst (λ x. HasOrderlyResults x.1) (ok-injective h5)
      (
        (
          (done, stored, inr (refl, stopped)),
          grown_results db.tasks (insert task_id done db.tasks) db.results grows over,
        ),
        (raise_if-eq-ok _ _ first, alone),
      )

-- Through any run of the task operations in which no direct transition is given a lower attempt among
-- its updates, if it was so at the start: every result is of an attempt at a stored task that is over,
-- so that it does not run, and no attempt has two results.
pub results_stay_orderly :
    {start db : Database} (steps : TaskSteps start db)
    → KeepsAttempts steps
    → HasOrderlyResults start
    → HasOrderlyResults db
results_stay_orderly no_step _ h = h
results_stay_orderly {start} (by_other {db} db' steps same_tasks same_results) keeps h =
    let (over, alone) = results_stay_orderly steps keeps h in
    (
      subst (λ x. All (IsOver x) db'.results) (sym same_tasks)
          (subst (All (IsOver db.tasks)) (sym same_results) over),
      subst HasNoTwins (sym same_results) alone,
    )
results_stay_orderly (by_save {db} task db' steps done) keeps h =
    Extends-HasOrderlyResults db db' (save_agent_task-Extends task db db' done)
      (results_stay_orderly steps keeps h)
results_stay_orderly (by_claim {db} p task_id case_id skill actor input updates task db' steps done)
      keeps h =
    Extends-HasOrderlyResults db db'
      (claim_agent_task-Extends p task_id case_id skill actor input updates task db db' done)
      (results_stay_orderly steps keeps h)
results_stay_orderly (by_completion {db} task_id expected e r db' steps done) keeps h =
    complete_agent_task-HasOrderlyResults task_id expected e r db db' done
      (results_stay_orderly steps keeps h)
results_stay_orderly (by_transition {db} task_id is_expected status updates task db' steps done)
      (keeps, grows) h =
    Extends-HasOrderlyResults db db'
      (transition_agent_task-Extends task_id is_expected status updates task db db' grows done)
      (results_stay_orderly steps keeps h)
results_stay_orderly (by_replacement {db} old replacement who reason r db' steps done) keeps h =
    Extends-HasOrderlyResults db db'
      (replace_agent_task-Extends old replacement who reason r db db' done)
      (results_stay_orderly steps keeps h)
results_stay_orderly (by_cancellation {db} case_id who reason steps) keeps h =
    Extends-HasOrderlyResults db (cancel_open_agent_tasks case_id who reason db).1
      (cancel_open_agent_tasks-Extends case_id who reason db) (results_stay_orderly steps keeps h)
results_stay_orderly (by_metadata {db} task_id updates event task db' steps done) keeps h =
    Extends-HasOrderlyResults db db'
      (update_task_metadata-Extends task_id updates event task db db' done)
      (results_stay_orderly steps keeps h)

-- The completion stores the ending at the task and as the only result of its attempt.
abbrev pub IsCompleted : ℕ → Task → Ending → Database → Database → Type 0
IsCompleted task_id t e db db' =
    (lookup task_id db'.tasks ≡ some (end_task e t))
    × (db'.results ≡ record (stage_result e t) { task_id = task_id } ∷ db.results)

abbrev pub completed : ℕ → Task → Ending → Database → Database
completed task_id t e db =
    audit t.case_id t.assigned_actor
      (agent_task_completed (is_succeeded e.status) task_id t.skill_name e.status t.attempt)
      (record db {
        tasks = insert task_id (end_task e t) db.tasks;
        results = record (stage_result e t) { task_id = task_id } ∷ db.results;
      })

pub completes :
    (db : Database) (task_id : ℕ) (t : Task) (e : Ending)
    → lookup task_id db.tasks ≡ some t
    → is_running t.status ≡ true
    → is_terminal e.status ≡ true
    → any (is_result_of task_id t.attempt) db.results ≡ false
    → complete_agent_task task_id (some t.attempt) e db
      ≡ ok (
        (end_task e t, record (stage_result e t) { task_id = task_id }),
        completed task_id t e db,
      )
unfolding complete_agent_task
completes db task_id t e found running ends first =
    simp (complete_agent_task, ends, found, running, ==_refl t.attempt, first)

-- Through any run of the task operations from orderly results, where no direct transition is given a
-- lower attempt, a running task can be completed at its
-- attempt with any final status: no stored result is in the way, and the completion stores the ending
-- at the task and as one more result.
running_attempt_can_end :
    {start : Database} (db : Database) (task_id : ℕ) (t : Task) (e : Ending)
    → (steps : TaskSteps start db) → KeepsAttempts steps
    → HasOrderlyResults start
    → lookup task_id db.tasks ≡ some t
    → is_running t.status ≡ true
    → is_terminal e.status ≡ true
    → (r : Task × StageResult) × (db' : Database) × (complete_agent_task task_id
          (some t.attempt)
          e
          db
        ≡ ok (r, db'))
      × IsCompleted task_id t e db db'
running_attempt_can_end db task_id t e steps keeps h found running ends =
    let (over, _) = results_stay_orderly steps keeps h in
    let first = none_at db.tasks task_id t db.results found running over in
    (
      (end_task e t, record (stage_result e t) { task_id = task_id }),
      completed task_id t e db,
      completes db task_id t e found running ends first,
      (lookup-insert task_id task_id (end_task e t) db.tasks ∙ rw (==_refl task_id) refl, refl),
    )
