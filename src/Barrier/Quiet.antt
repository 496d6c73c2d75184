-- ===== src/Barrier/Quiet.antt =====
-- What a quiescent recording excludes (`assert_recording_quiescent`, revguard/runtime_barrier.py).
use revguard.Base.{
  ℕ, ◌≡◌, true, false, ◌&&◌, Option, some, lookup, any, any_row, any_row-lookup, refl, arith,
}
use revguard.Model.Errors.{
  ok, err, raise_if, >>=-eq-ok, raise_if-eq-ok, recovery_required, runtime_busy,
  stale_task_execution,
}
use revguard.Model.Tables.{Case, Task, Operation, Hold, Database}
use revguard.Journal.{Process, Claim, is_unresolved, is_running, claim_holds, assert_active_claim}
use revguard.Barrier.{concerns, is_busy_case, is_live_run, is_working, assert_recording_quiescent}

-- No worker, operation or hold of a recording is active.
abbrev pub HasNoWork : Option ℕ → Database → Type 0
HasNoWork scope db =
    ((p : Process) (claim : Claim) (task : Task) (case_id : ℕ)
      → p.claim ≡ some claim
      → lookup claim.task_id db.tasks ≡ some task
      → concerns scope task.case_id ≡ true
      → assert_active_claim p case_id db ≡ err stale_task_execution)
    × ((k : ℕ) (o : Operation)
        → lookup k db.operations ≡ some o
        → concerns scope o.case_id ≡ true
        → is_unresolved o.status ≡ false)
    × ((k : ℕ) (c : Case)
        → lookup k db.cases ≡ some c
        → concerns scope c.case_id ≡ true
        → is_live_run c.team_run ≡ false)
    × (any (λ (h : Hold). concerns scope h.case_id) db.holds ≡ false)

idle_claim :
    (p : Process) (claim : Claim) (task : Task) (case_id : ℕ) (db : Database)
    → p.claim ≡ some claim
    → lookup claim.task_id db.tasks ≡ some task
    → is_working task.status ≡ false
    → assert_active_claim p case_id db ≡ err stale_task_execution
unfolding assert_active_claim
idle_claim p claim task case_id db own found idle =
    let stopped : is_running task.status ≡ false = ground arith in
    let refused : claim_holds p claim case_id (lookup case_id db.cases) (some task) ≡ false =
      ground arith in
    rw (own, found, refused) refl

-- If a recording is found quiescent, no operation of it is unresolved, no run of it is queued or
-- running, no channel is held for it, and a worker that holds a claim on a task of it is refused.
-- Without a case this holds of all recordings.
pub quiescent_recording_is_idle :
    (p : Process) (scope : Option ℕ) (db : Database)
    → assert_recording_quiescent p scope db ≡ ok tt
    → HasNoWork scope db
unfolding assert_recording_quiescent
quiescent_recording_is_idle p scope db h =
    let (_, _, h1) = >>=-eq-ok (raise_if p.recovery_lock recovery_required) _ h in
    let (_, cases, h2) =
      >>=-eq-ok (raise_if (any_row (is_busy_case scope) db.cases) runtime_busy) _ h1 in
    let (_, holds, h3) =
      >>=-eq-ok (raise_if (any (λ (x : Hold). concerns scope x.case_id) db.holds) runtime_busy) _
        h2 in
    let (_, operations, tasks) =
      >>=-eq-ok
        (raise_if
          (any_row (λ (o : Operation). concerns scope o.case_id && is_unresolved o.status)
            db.operations)
          runtime_busy)
        _ h3 in
    (
      (λ q claim task case_id own found mine.
          let idle =
            any_row-lookup _ claim.task_id task db.tasks (raise_if-eq-ok _ _ tasks) found in
          idle_claim q claim task case_id db own found (ground arith)),
      (λ k o found mine.
          let idle = any_row-lookup _ k o db.operations (raise_if-eq-ok _ _ operations) found in
          ground arith),
      (λ k c found mine.
          let idle = any_row-lookup _ k c db.cases (raise_if-eq-ok _ _ cases) found in
          ground arith),
      raise_if-eq-ok _ _ holds,
    )
