-- ===== src/Tasks/Steps.antt =====
-- Runs of the task operations, and what holds through them (revguard/store.py,
-- revguard/workflow_persistence.py).
use revguard.Base.{
  ℕ, ◌+◌, ◌≤◌, ◌≡◌, Bool, true, false, not, if◌then◌else◌, Option, some, List, [], ◌∷◌, Dict,
  lookup, insert, map_rows, All, arith, refl, sym, inl, inr, Bool-cases, subst,
}
use native.Mathlib.Decide.{dec_lt}
use revguard.Model.Status.{TaskStatus}
use revguard.Model.Errors.{
  ok, raise_if, or_raise, value_error, lookup_error, integrity_error, >>=-eq-ok, ok-injective,
  or_raise-eq-ok, raise_if-eq-ok,
}
use revguard.Model.Actors.{Actor}
use revguard.Model.Skills.{Skill}
use revguard.Model.Tables.{Task, StageResult, Database}
use revguard.Cases.{locked_case}
use revguard.Journal.{Process, is_running}
use revguard.Gateway.Submission.{contains}
use revguard.Tasks.{
  save_agent_task, claim_agent_task, validate_task_invocation, has_other_names, start_task,
}
use revguard.Tasks.Lifecycle.{
  Ending, complete_agent_task, transition_agent_task, may_be_replaced, retire_task,
  replace_agent_task, cancel_task, is_affected, affected, audit_cancelled, cancel_open_agent_tasks,
  update_task_metadata,
}
use revguard.Tasks.Attempts.{
  Follows, Grows, IsOver, HasNoTwins, HasOrderlyResults, grown_results, Grows-insert,
  Grows-insert_new, Grows-map_rows, Grows-trans, still_free,
}

-- Any task operations of any callers, and any writes that leave tasks and results alone.
pub data TaskSteps (start : Database) : Database → Type 0 where
  no_step : TaskSteps start start
  by_other :
      {db : Database} (db' : Database)
      → TaskSteps start db
      → db'.tasks ≡ db.tasks
      → db'.results ≡ db.results
      → TaskSteps start db'
  by_save :
      {db : Database} (task : Task) (db' : Database)
      → TaskSteps start db
      → save_agent_task task db ≡ ok db'
      → TaskSteps start db'
  by_claim :
      {db : Database} (p : Process) (task_id case_id : ℕ) (skill_name : Skill) (actor : Actor)
      (skill_input : ℕ) (updates : Dict ℕ) (task : Task) (db' : Database)
      → TaskSteps start db
      → claim_agent_task p task_id case_id skill_name actor skill_input updates db ≡ ok (task, db')
      → TaskSteps start db'
  by_completion :
      {db : Database} (task_id : ℕ) (expected : Option ℕ) (e : Ending) (r : Task × StageResult)
      (db' : Database)
      → TaskSteps start db
      → complete_agent_task task_id expected e db ≡ ok (r, db')
      → TaskSteps start db'
  by_transition :
      {db : Database} (task_id : ℕ) (is_expected : TaskStatus → Bool) (status : TaskStatus)
      (updates : Task → Task) (task : Task) (db' : Database)
      → TaskSteps start db
      → transition_agent_task task_id is_expected status updates db ≡ ok (task, db')
      → TaskSteps start db'
  by_replacement :
      {db : Database} (old : ℕ) (replacement : Task) (who : Actor) (reason : ℕ) (r : Task × Task)
      (db' : Database)
      → TaskSteps start db
      → replace_agent_task old replacement who reason db ≡ ok (r, db')
      → TaskSteps start db'
  by_cancellation :
      {db : Database} (case_id : ℕ) (who : Actor) (reason : ℕ)
      → TaskSteps start db
      → TaskSteps start (cancel_open_agent_tasks case_id who reason db).1
  by_metadata :
      {db : Database} (task_id : ℕ) (updates : Dict ℕ) (event : Option ℕ) (task : Task)
      (db' : Database)
      → TaskSteps start db
      → update_task_metadata task_id updates event db ≡ ok (task, db')
      → TaskSteps start db'

-- No direct transition is given a lower attempt among its updates.
abbrev pub KeepsAttempts : {start db : Database} → TaskSteps start db → Type 0
KeepsAttempts no_step = Unit
KeepsAttempts (by_other db' steps same_tasks same_results) = KeepsAttempts steps
KeepsAttempts (by_save task db' steps done) = KeepsAttempts steps
KeepsAttempts
      (by_claim p task_id case_id skill_name actor skill_input updates task db' steps done) =
    KeepsAttempts steps
KeepsAttempts (by_completion task_id expected e r db' steps done) = KeepsAttempts steps
KeepsAttempts (by_transition task_id is_expected status updates task db' steps done) =
    KeepsAttempts steps × ((t : Task) → t.attempt ≤ (updates t).attempt)
KeepsAttempts (by_replacement old replacement who reason r db' steps done) = KeepsAttempts steps
KeepsAttempts (by_cancellation case_id who reason steps) = KeepsAttempts steps
KeepsAttempts (by_metadata task_id updates event task db' steps done) = KeepsAttempts steps

-- The tasks grow, and the results stay.
abbrev pub Extends : Database → Database → Type 0
Extends db db' = Grows db.tasks db'.tasks × (db'.results ≡ db.results)

pub Extends-HasOrderlyResults :
    (db db' : Database) → Extends db db' → HasOrderlyResults db → HasOrderlyResults db'
Extends-HasOrderlyResults db db' (grows, same) (over, alone) = (
  subst (All (IsOver db'.tasks)) (sym same)
      (grown_results db.tasks db'.tasks db.results grows over),
  subst HasNoTwins (sym same) alone,
)

pub save_agent_task-Extends :
    (task : Task) (db db' : Database) → save_agent_task task db ≡ ok db' → Extends db db'
unfolding save_agent_task
save_agent_task-Extends task db db' h =
    let (_, free, h1) = >>=-eq-ok (raise_if (contains task.task_id db.tasks) value_error) _ h in
    subst (Extends db) (ok-injective h1)
      (Grows-insert_new db.tasks task.task_id task (raise_if-eq-ok _ _ free), refl)

pub claim_agent_task-Extends :
    (p : Process) (task_id case_id : ℕ) (skill_name : Skill) (actor : Actor) (skill_input : ℕ)
    (updates : Dict ℕ) (task : Task) (db db' : Database)
    → claim_agent_task p task_id case_id skill_name actor skill_input updates db ≡ ok (task, db')
    → Extends db db'
unfolding claim_agent_task
claim_agent_task-Extends p task_id case_id skill_name actor skill_input updates task db db' h =
    let (case, _, h1) = >>=-eq-ok (or_raise (locked_case db case_id) lookup_error) _ h in
    let (old, found, h2) = >>=-eq-ok (or_raise (lookup task_id db.tasks) lookup_error) _ h1 in
    let (_, _, h3) =
      >>=-eq-ok (validate_task_invocation p old case skill_name actor skill_input) _ h2 in
    let (_, _, h4) = >>=-eq-ok (raise_if (has_other_names updates) value_error) _ h3 in
    subst (λ r. Extends db r.1) (ok-injective h4)
      (
        Grows-insert db.tasks task_id old (start_task updates old) (or_raise-eq-ok _ _ found)
            (inl (omega arith)),
        refl,
      )

moved-Follows :
    (t u : Task) (status : TaskStatus) (moved : Task)
    → t.attempt ≤ u.attempt
    → moved.attempt ≡ (if is_running status then u.attempt + 1 else u.attempt)
    → moved.status ≡ status
    → Follows t moved
moved-Follows t u status moved grows attempt is_status = elim (Bool-cases (is_running status)) [
  | inl starts ↦ inl (ground arith)
  | inr stops ↦ elim (dec_lt t.attempt u.attempt) [
    | yes later ↦ inl (ground arith)
    | no same ↦ inr (ground arith, λ _. rw is_status stops)
  ]
]

pub transition_agent_task-Extends :
    (task_id : ℕ) (is_expected : TaskStatus → Bool) (status : TaskStatus) (updates : Task → Task)
    (task : Task) (db db' : Database)
    → ((t : Task) → t.attempt ≤ (updates t).attempt)
    → transition_agent_task task_id is_expected status updates db ≡ ok (task, db')
    → Extends db db'
unfolding transition_agent_task
transition_agent_task-Extends task_id is_expected status updates task db db' grows h =
    let (old, at, h1) = >>=-eq-ok (or_raise (lookup task_id db.tasks) lookup_error) _ h in
    let (_, _, h2) = >>=-eq-ok (raise_if (not (is_expected old.status)) value_error) _ h1 in
    let updated = updates old in
    let moved = record updated {
      attempt = if is_running status then updated.attempt + 1 else updated.attempt;
      status = status;
    } in
    subst (λ x. Extends db x.1) (ok-injective h2)
      (
        Grows-insert db.tasks task_id old moved (or_raise-eq-ok _ _ at)
            (moved-Follows old updated status moved (grows old) refl refl),
        refl,
      )

replaced_is_stopped : (s : TaskStatus) → may_be_replaced s ≡ true → is_running s ≡ false
replaced_is_stopped s h = ground arith

pub replace_agent_task-Extends :
    (old_task_id : ℕ) (replacement : Task) (who : Actor) (reason : ℕ) (r : Task × Task)
    (db db' : Database)
    → replace_agent_task old_task_id replacement who reason db ≡ ok (r, db')
    → Extends db db'
unfolding replace_agent_task
replace_agent_task-Extends old_task_id replacement who reason r db db' h =
    let (old, at, h1) = >>=-eq-ok (or_raise (lookup old_task_id db.tasks) lookup_error) _ h in
    let (_, allowed, h2) =
      >>=-eq-ok (raise_if (not (may_be_replaced old.status)) value_error) _ h1 in
    let (_, unused, h3) =
      >>=-eq-ok (raise_if (contains replacement.task_id db.tasks) integrity_error) _ h2 in
    let found = or_raise-eq-ok _ _ at in
    let free = raise_if-eq-ok _ _ unused in
    let retired = retire_task replacement old in
    let successor = record replacement { supersedes_task_id = some old_task_id } in
    let middle = insert old_task_id retired db.tasks in
    subst (λ x. Extends db x.1) (ok-injective h3)
      (
        Grows-trans db.tasks middle (insert replacement.task_id successor middle)
            (Grows-insert db.tasks old_task_id old retired found (inr (refl, λ _. refl)))
            (Grows-insert_new middle replacement.task_id successor
              (still_free db.tasks old_task_id replacement.task_id old retired found free)),
        refl,
      )

pub update_task_metadata-Extends :
    (task_id : ℕ) (updates : Dict ℕ) (event : Option ℕ) (task : Task) (db db' : Database)
    → update_task_metadata task_id updates event db ≡ ok (task, db')
    → Extends db db'
unfolding update_task_metadata
update_task_metadata-Extends task_id updates event task db db' h =
    let (_, _, h1) = >>=-eq-ok (raise_if (has_other_names updates) value_error) _ h in
    let (old, at, h2) = >>=-eq-ok (or_raise (lookup task_id db.tasks) lookup_error) _ h1 in
    subst (λ x. Extends db x.1) (ok-injective h2)
      (Grows-insert db.tasks task_id old _ (or_raise-eq-ok _ _ at) (inr (refl, λ k. k)), refl)

cancelled-Follows : (case_id reason : ℕ) (t : Task) → Follows t (cancel_task case_id reason t)
cancelled-Follows case_id reason t = elim (Bool-cases (is_affected case_id t)) [
  | inl hit ↦ rw hit (inr (refl, λ _. refl))
  | inr kept ↦ rw kept (inr (refl, λ k. k))
]

audit_cancelled_tasks :
    (case_id : ℕ) (who : Actor) (ids : List ℕ) (reason : ℕ) (db : Database)
    → ((audit_cancelled case_id who ids reason db).tasks ≡ db.tasks)
      × ((audit_cancelled case_id who ids reason db).results ≡ db.results)
audit_cancelled_tasks case_id who [] reason db = (refl, refl)
audit_cancelled_tasks case_id who (id ∷ ids) reason db = (refl, refl)

pub cancelled_tasks :
    (case_id : ℕ) (who : Actor) (reason : ℕ) (db : Database)
    → (cancel_open_agent_tasks case_id who reason db).1.tasks
      ≡ map_rows (cancel_task case_id reason) db.tasks
unfolding cancel_open_agent_tasks
cancelled_tasks case_id who reason db =
    (audit_cancelled_tasks case_id who (affected case_id db.tasks) reason
      (record db { tasks = map_rows (cancel_task case_id reason) db.tasks })).0

audit_cancelled_state :
    (case_id : ℕ) (who : Actor) (ids : List ℕ) (reason : ℕ) (db : Database)
    → (audit_cancelled case_id who ids reason db).state ≡ db.state
audit_cancelled_state case_id who [] reason db = refl
audit_cancelled_state case_id who (id ∷ ids) reason db = refl

pub cancelled_state :
    (case_id : ℕ) (who : Actor) (reason : ℕ) (db : Database)
    → (cancel_open_agent_tasks case_id who reason db).1.state ≡ db.state
unfolding cancel_open_agent_tasks
cancelled_state case_id who reason db =
    audit_cancelled_state case_id who (affected case_id db.tasks) reason
      (record db { tasks = map_rows (cancel_task case_id reason) db.tasks })

pub cancel_open_agent_tasks-Extends :
    (case_id : ℕ) (who : Actor) (reason : ℕ) (db : Database)
    → Extends db (cancel_open_agent_tasks case_id who reason db).1
unfolding cancel_open_agent_tasks
cancel_open_agent_tasks-Extends case_id who reason db = (
  subst (Grows db.tasks) (sym (cancelled_tasks case_id who reason db))
      (Grows-map_rows db.tasks (cancel_task case_id reason) (cancelled-Follows case_id reason)),
  (audit_cancelled_tasks case_id who (affected case_id db.tasks) reason
      (record db { tasks = map_rows (cancel_task case_id reason) db.tasks })).1,
)
