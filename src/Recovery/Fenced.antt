-- ===== src/Recovery/Fenced.antt =====
-- What a resumed run can rely on (`resume_case_run`, `record_background_failure`,
-- revguard/recovery.py).
use revguard.Base.{
  ℕ, ◌+◌, ◌≡◌, true, false, some, List, [], ◌∷◌, length, lookup, Dict, map_rows, lookup-map_rows,
  any, refl, sym, subst, ◌∙◌, arith, ◌==◌, Option-cases, inl, inr,
}
use revguard.Model.Tables.{Case, Task, Operation, Hold, Database, human_recovery_authorized}
use revguard.Model.Errors.{ok, raise_if, >>=-eq-ok, ok-injective, recovery_required}
use revguard.Access.{authorize_tool, approval_decide}
use revguard.Model.Actors.{Actor, renew_approval_capability as renewal_tool}
use revguard.Cases.{audit, locked_case}
use revguard.Journal.{Process, is_unresolved}
use revguard.Journal.Recovery.{reconcile, epoch_of, release_holds, settle}
use revguard.Gateway.{Env}
use revguard.Tasks.Lifecycle.{cancel_open_agent_tasks, cancel_task, is_open}
use revguard.Tasks.Steps.{cancelled_tasks, cancelled_state}
use revguard.Recovery.{Failure, is_own_run, record_background_failure, has_status}
use revguard.Recovery.Resume.{Recovery}
use revguard.Recovery.Queue.{check_snapshots, resume_case_run, fenced_reason}
use revguard.Recovery.Writes.{resumable}
use revguard.Recovery.Renewals.{IsQueued, queue_run-IsQueued}

-- The work of a case is fenced: no task of it is open, no operation of its recording is unresolved,
-- and no channel is held for it.
abbrev pub IsFenced : ℕ → ℕ → Database → Type 0
IsFenced case_id epoch db =
    ((k : ℕ) (t : Task)
      → lookup k db.tasks ≡ some t
      → t.case_id ≡ case_id
      → is_open t.status ≡ false)
    × ((k : ℕ) (o : Operation)
        → lookup k db.operations ≡ some o
        → o.case_id ≡ case_id
        → o.recording ≡ epoch
        → is_unresolved o.status ≡ false)
    × (any (λ (h : Hold). h.case_id == case_id) db.holds ≡ false)

pub cancelled_is_closed :
    (case_id reason : ℕ) (t : Task)
    → (cancel_task case_id reason t).case_id ≡ case_id
    → is_open (cancel_task case_id reason t).status ≡ false
cancelled_is_closed case_id reason t of_case = ground arith

settled_is_resolved :
    (case_id epoch : ℕ) (o : Operation)
    → (settle case_id epoch o).case_id ≡ case_id
    → (settle case_id epoch o).recording ≡ epoch
    → is_unresolved (settle case_id epoch o).status ≡ false
settled_is_resolved case_id epoch o of_case of_epoch = ground arith

released :
    (case_id : ℕ) (hs : List Hold)
    → any (λ (h : Hold). h.case_id == case_id) (release_holds case_id hs) ≡ false
released case_id [] = refl
released case_id (h ∷ hs) = ground (arith, released case_id hs)

reconcile-parts :
    (p : Process) (case_id : ℕ) (db w : Database) (rows : Dict Operation)
    → reconcile p case_id db ≡ ok (rows, w)
    → (w.tasks ≡ db.tasks)
      × (w.operations ≡ map_rows (settle case_id (epoch_of case_id db.state)) db.operations)
      × (w.holds ≡ release_holds case_id db.holds)
unfolding reconcile
reconcile-parts p case_id db w rows h =
    let (_, _, last) = >>=-eq-ok (raise_if p.recovery_lock recovery_required) _ h in
    subst
      (λ (o : Dict Operation × Database).
        (o.1.tasks ≡ db.tasks)
        × (o.1.operations ≡ map_rows (settle case_id (epoch_of case_id db.state)) db.operations)
        × (o.1.holds ≡ release_holds case_id db.holds))
      (ok-injective last) (refl, refl, refl)

-- A row of a mapped table is the image of a row.
pub mapped_row :
    {V : Type 0} (k : ℕ) (f : V → V) (d : Dict V) {v : V}
    → lookup k (map_rows f d) ≡ some v
    → (w : V) × (v ≡ f w)
mapped_row k f d h = elim (Option-cases (lookup k d)) [
  | inl missing ↦ let wrong = rw (lookup-map_rows k f d, missing) at h in absurd (cc)
  | inr (w, found) ↦ let image = rw (lookup-map_rows k f d, found) at h in (w, cc)
]

fences :
    (p : Process) (who : Actor) (case_id reason : ℕ) (db w : Database) (rows : Dict Operation)
    → reconcile p case_id (cancel_open_agent_tasks case_id who reason db).1 ≡ ok (rows, w)
    → IsFenced case_id (epoch_of case_id db.state) w
fences p who case_id reason db w rows h =
    let cancelled = (cancel_open_agent_tasks case_id who reason db).1 in
    let (of_tasks, of_operations, of_holds) = reconcile-parts p case_id cancelled w rows h in
    let tasks = of_tasks ∙ cancelled_tasks case_id who reason db in
    let epoch = epoch_of case_id cancelled.state in
    let fenced : IsFenced case_id epoch w = (
      (λ k t found.
          let (t0, image) =
            mapped_row k (cancel_task case_id reason) db.tasks
              (subst (λ d. lookup k d ≡ some t) tasks found) in
          subst (λ (x : Task). x.case_id ≡ case_id → is_open x.status ≡ false) (sym image)
            (cancelled_is_closed case_id reason t0)),
      (λ k o found.
          let (o0, image) =
            mapped_row k (settle case_id epoch) cancelled.operations
              (subst (λ d. lookup k d ≡ some o) of_operations found) in
          subst
            (λ (x : Operation).
              x.case_id ≡ case_id → x.recording ≡ epoch → is_unresolved x.status ≡ false)
            (sym image) (settled_is_resolved case_id epoch o0)),
      subst (λ hs. any (λ (x : Hold). x.case_id == case_id) hs ≡ false) (sym of_holds)
          (released case_id cancelled.holds),
    ) in
    subst (λ st. IsFenced case_id (epoch_of case_id st) w) (cancelled_state case_id who reason db)
      fenced

-- The database after a resumption, and the case that it stored.
resume-parts :
    (p : Process) (env : Env) (r : Recovery) (c : Case) (db : Database) (o : Case × Database)
    → resume_case_run p env r c db ≡ ok o
    → (settled : Database) × IsQueued r c settled o
      × IsFenced c.case_id (epoch_of c.case_id db.state) settled
unfolding resume_case_run
resume-parts p env r c db o h =
    let (_, _, h1) = >>=-eq-ok (authorize_tool r.actor (approval_decide ∷ []) renewal_tool) _ h in
    let (_, _, h2) = >>=-eq-ok (check_snapshots r c db) _ h1 in
    let ((rows, settled), h3, last) =
      >>=-eq-ok
        (reconcile p c.case_id (cancel_open_agent_tasks c.case_id r.actor fenced_reason db).1) _
        h2 in
    let authorised =
      audit c.case_id r.actor (human_recovery_authorized r.subject (length rows)) settled in
    (
      authorised,
      queue_run-IsQueued env r c _ authorised o last,
      fences p r.actor c.case_id fenced_reason db settled rows h3,
    )

-- A resumption that succeeds leaves no open task of the case, no unresolved operation of its
-- recording and no hold on a channel for it. The case is stored in a status from which the run goes
-- on, with a recovery generation that is one higher and in the same recording.
pub resumption_fences :
    (p : Process) (env : Env) (r : Recovery) (c updated : Case) (db after : Database)
    → resume_case_run p env r c db ≡ ok (updated, after)
    → IsFenced c.case_id (epoch_of c.case_id db.state) after
      × (lookup c.case_id after.cases ≡ some updated)
      × (has_status updated.status (resumable r.rollback) ≡ true)
      × (updated.recovery_generation ≡ c.recovery_generation + 1)
      × (updated.recording_id ≡ c.recording_id)
resumption_fences p env r c updated db after h =
    let (
      settled,
      (_, of_recording, of_run, stored, ready, (of_tasks, of_operations, of_holds)),
      (tasks, operations, holds),
    ) =
      resume-parts p env r c db (updated, after) h in
    (
      (
        (λ k t found. tasks k t (subst (λ d. lookup k d ≡ some t) of_tasks found)),
        (λ k o found. operations k o (subst (λ d. lookup k d ≡ some o) of_operations found)),
        subst (λ hs. any (λ (x : Hold). x.case_id == c.case_id) hs ≡ false) (sym of_holds) holds,
      ),
      stored,
      ready,
      of_run,
      of_recording,
    )

-- After a resumption, a failure that the interrupted run reports, under the generation that the case
-- had before, changes nothing.
pub late_failure_is_ignored :
    (p : Process) (env : Env) (r : Recovery) (c updated : Case) (db after : Database) (f : Failure)
    → resume_case_run p env r c db ≡ ok (updated, after)
    → f.case_id ≡ c.case_id
    → f.generation ≡ c.recovery_generation
    → record_background_failure f after ≡ ok (false, after)
unfolding record_background_failure locked_case
late_failure_is_ignored p env r c updated db after f h of_case of_run =
    let (_, stored, _, newer, _) = resumption_fences p env r c updated db after h in
    let found : lookup f.case_id after.cases ≡ some updated =
      subst (λ k. lookup k after.cases ≡ some updated) (sym of_case) stored in
    let other : is_own_run f updated ≡ false = ground arith in
    rw (found, other, record_background_failure) refl
