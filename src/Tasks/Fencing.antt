-- ===== src/Tasks/Fencing.antt =====
-- The claim of a worker before the guard of the money journal (`claim_agent_task`,
-- `cancel_open_agent_tasks`, and `assert_active_claim` of revguard/task_guard.py).
use revguard.Base.{
  ℕ, ◌≡◌, true, false, not, ◌&&◌, Option, none, some, Dict, lookup, insert, lookup-insert,
  lookup-map_rows, ◌==◌, ==_refl, arith, refl, ap, ◌∙◌, Bool-cases, Option-cases, inl, inr, subst,
}
use revguard.Model.Status.{TaskStatus, status_text_eq}
use revguard.Model.Errors.{
  ok, err, raise_if, or_raise, value_error, lookup_error, stale_task_execution, >>=-eq-ok,
  ok-injective, or_raise-eq-ok,
}
use revguard.Model.Actors.{Actor, actor_eq}
use revguard.Model.Skills.{Skill}
use revguard.Model.Tables.{Case, Task, Database}
use revguard.Cases.{locked_case}
use revguard.Journal.{Process, Claim, case_version, is_running, claim_holds, assert_active_claim}
use revguard.Tasks.{
  skill_eq, validate_task_invocation, has_other_names, start_task, claim_agent_task,
}
use revguard.Tasks.Lifecycle.{claim_of, cancel_task, is_affected, is_open, cancel_open_agent_tasks}
use revguard.Tasks.Steps.{cancelled_tasks}

-- The process with a claim.
abbrev pub claiming : Claim → Process → Process
claiming claim p = record p { claim = some claim }

-- What the validation of a task has found, as far as a claim needs it.
abbrev pub Fits : Process → Task → Case → Type 0
Fits p task case = (task.case_id ≡ case.case_id) × (task.case_version ≡ case_version p case)

validate_task_invocation-Fits :
    (p : Process) (task : Task) (case : Case) (skill : Skill) (actor : Actor) (input : ℕ)
    → validate_task_invocation p task case skill actor input ≡ ok tt
    → Fits p task case
unfolding validate_task_invocation
validate_task_invocation-Fits p task case skill actor input h =
    let (_, a, h1) = >>=-eq-ok (raise_if (not (task.case_id == case.case_id)) value_error) _ h in
    let (_, _, h2) =
      >>=-eq-ok
        (raise_if (not (skill_eq task.skill_name skill && actor_eq task.assigned_actor actor))
          value_error)
        _ h1 in
    let (_, _, h3) = >>=-eq-ok (raise_if (not (task.input == input)) value_error) _ h2 in
    let (_, b, _) =
      >>=-eq-ok
        (raise_if
          (not (
            status_text_eq task.case_status case.status
            && task.case_version == case_version p case))
          value_error)
        _ h3 in
    let version : (status_text_eq task.case_status case.status
          && task.case_version == case_version p case)
        ≡ true =
      ground arith in
    (ground arith, ground arith)

admitted :
    (p : Process) (claim : Claim) (case_id : ℕ) (case : Case) (task : Task) (db : Database)
    → lookup case_id db.cases ≡ some case
    → lookup claim.task_id db.tasks ≡ some task
    → claim_holds p claim case_id (some case) (some task) ≡ true
    → assert_active_claim (claiming claim p) case_id db ≡ ok tt
unfolding assert_active_claim
admitted p claim case_id case task db at_case at_task holds =
    rw (assert_active_claim, at_case, at_task, holds) refl

fresh_claim :
    (p : Process) (task : Task) (case_id : ℕ) (case : Case)
    → task.case_id ≡ case_id
    → is_running task.status ≡ true
    → task.case_version ≡ case_version p case
    → claim_holds p (claim_of task) case_id (some case) (some task) ≡ true
fresh_claim p task case_id case of_case running version = ground arith

-- A worker that has claimed a task of a case, where case and task are stored under their own
-- identifiers, is admitted by the guard of the money journal for that case.
claimed_worker_is_admitted :
    (p : Process) (task_id case_id : ℕ) (skill : Skill) (actor : Actor) (input : ℕ)
    (updates : Dict ℕ) (db db' : Database) (task : Task)
    → ((c : Case) → lookup case_id db.cases ≡ some c → c.case_id ≡ case_id)
    → ((t : Task) → lookup task_id db.tasks ≡ some t → t.task_id ≡ task_id)
    → claim_agent_task p task_id case_id skill actor input updates db ≡ ok (task, db')
    → assert_active_claim (claiming (claim_of task) p) case_id db' ≡ ok tt
unfolding claim_agent_task locked_case
claimed_worker_is_admitted p task_id case_id skill actor input updates db db' task own_case own_task
      h =
    let (case, e1, h1) = >>=-eq-ok (or_raise (locked_case db case_id) lookup_error) _ h in
    let (old, e2, h2) = >>=-eq-ok (or_raise (lookup task_id db.tasks) lookup_error) _ h1 in
    let (_, e3, h3) = >>=-eq-ok (validate_task_invocation p old case skill actor input) _ h2 in
    let (_, _, h4) = >>=-eq-ok (raise_if (has_other_names updates) value_error) _ h3 in
    let at_case = or_raise-eq-ok _ _ e1 in
    let at_task = or_raise-eq-ok _ _ e2 in
    let (of_case, version) = validate_task_invocation-Fits p old case skill actor input e3 in
    let started = start_task updates old in
    let own : (old.task_id == task_id) ≡ true =
      ap (λ k. k == task_id) (own_task old at_task) ∙ ==_refl task_id in
    let stored : lookup old.task_id (insert task_id started db.tasks) ≡ some started =
      lookup-insert old.task_id task_id started db.tasks ∙ rw own refl in
    subst (λ r. assert_active_claim (claiming (claim_of r.0) p) case_id r.1 ≡ ok tt)
      (ok-injective h4)
      (admitted p (claim_of started) case_id case started _ at_case stored
        (fresh_claim p started case_id case (of_case ∙ own_case case at_case) refl version))

no_task :
    (p : Process) (claim : Claim) (case_id : ℕ) (c : Option Case)
    → claim_holds p claim case_id c none ≡ false
no_task p claim case_id none = refl
no_task p claim case_id (some c) = refl

not_running :
    (p : Process) (claim : Claim) (case_id : ℕ) (c : Option Case) (t : Task)
    → is_running t.status ≡ false
    → claim_holds p claim case_id c (some t) ≡ false
not_running p claim case_id none t h = refl
not_running p claim case_id (some c) t h = ground arith

refused :
    (p : Process) (claim : Claim) (case_id : ℕ) (db : Database)
    → claim_holds p claim case_id (lookup case_id db.cases) (lookup claim.task_id db.tasks) ≡ false
    → assert_active_claim (claiming claim p) case_id db ≡ err stale_task_execution
unfolding assert_active_claim
refused p claim case_id db fails = rw (assert_active_claim, fails) refl

closed_is_stopped : (s : TaskStatus) → is_open s ≡ false → is_running s ≡ false
closed_is_stopped s h = ground arith

cancelled_is_stopped :
    (case_id reason : ℕ) (t : Task)
    → t.case_id ≡ case_id
    → is_running (cancel_task case_id reason t).status ≡ false
cancelled_is_stopped case_id reason t of_case = elim (Bool-cases (is_affected case_id t)) [
  | inl hit ↦ rw hit refl
  | inr kept ↦ rw kept (closed_is_stopped t.status (ground arith))
]

-- Once the open tasks of a case are cancelled, a worker that holds a claim on a task of the case is
-- refused by the guard of the money journal.
pub cancelled_worker_is_refused :
    (p : Process) (claim : Claim) (who : Actor) (reason : ℕ) (db : Database)
    → ((t : Task) → lookup claim.task_id db.tasks ≡ some t → t.case_id ≡ claim.case_id)
    → assert_active_claim
        (claiming claim p)
        claim.case_id
        (cancel_open_agent_tasks claim.case_id who reason db).1
      ≡ err stale_task_execution
cancelled_worker_is_refused p claim who reason db of_case =
    let db' = (cancel_open_agent_tasks claim.case_id who reason db).1 in
    refused p claim claim.case_id db' (elim (Option-cases (lookup claim.task_id db.tasks)) [
      | inl none_there ↦
          let missing : lookup claim.task_id db'.tasks ≡ none =
            ap (lookup claim.task_id) (cancelled_tasks claim.case_id who reason db)
            ∙ lookup-map_rows claim.task_id (cancel_task claim.case_id reason) db.tasks
            ∙ rw none_there refl in
          rw missing (no_task p claim claim.case_id (lookup claim.case_id db'.cases))
      | inr (t, at) ↦
          let changed : lookup claim.task_id db'.tasks ≡ some (cancel_task claim.case_id reason t) =
            ap (lookup claim.task_id) (cancelled_tasks claim.case_id who reason db)
            ∙ lookup-map_rows claim.task_id (cancel_task claim.case_id reason) db.tasks
            ∙ rw at refl in
          rw changed (
            not_running p claim claim.case_id (lookup claim.case_id db'.cases)
              (cancel_task claim.case_id reason t)
              (cancelled_is_stopped claim.case_id reason t (of_case t at)))
    ])
