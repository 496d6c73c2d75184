-- ===== src/Barrier.antt =====
-- The barrier between requests and destructive actions on recordings (revguard/runtime_barrier.py:
-- `RuntimeLease`, `acquire_runtime_lease`, `assert_recording_quiescent`).
pub mod Leases
pub mod Counts
pub mod Steps
pub mod Exclusion
pub mod Quiet
mod Examples
use revguard.Base.{
  ℕ, ◌+◌, ◌-◌, Bool, true, false, not, ◌&&◌, ◌||◌, Option, none, some, List, [], ◌∷◌, Dict, lookup,
  insert, any, any_row, if◌then◌else◌, ◌==◌, ltb,
}
use revguard.Model.Status.{CaseStatus, TaskStatus}
use revguard.Model.Errors.{Result, ok, ◌>>◌, raise_if, recovery_required, runtime_busy}
use revguard.Model.Tables.{
  Case, TeamRun, RunStatus, queued, starting, in_progress, Task, Operation, Hold, Database,
}
use revguard.Journal.{Process, is_unresolved}
use revguard.Recovery.{has_status}

-- `_Resource`: an open handle of the lock, with the leases that share it; at 0 it is closed.
pub record Resource : Type 0 where
  pub references : ℕ
  pub exclusive : Bool

-- `RuntimeLease`
pub record Lease : Type 0 where
  pub resource : ℕ
  pub exclusive : Bool
  pub closed : Bool

-- The objects of all processes, by their identities; `next` is a fresh one.
pub record Runtime : Type 0 where
  pub resources : Dict Resource
  pub leases : Dict Lease
  pub next : ℕ

abbrev pub no_leases : Runtime
no_leases = record { resources = []; leases = []; next = 0 }

-- The modes of the open handles.
pub held_modes : Dict Resource → List Bool
held_modes [] = []
held_modes ((_, r) ∷ rest) =
    let others = held_modes rest in if ltb 0 r.references then r.exclusive ∷ others else others

-- `acquire_runtime_lease`; none is `RuntimeBusy`. `try_lock` is the system's lock, which knows the
-- modes of the handles that are open.
unfoldable pub acquire : (Bool → List Bool → Bool) → Bool → Runtime → Option (ℕ × Runtime)
unfolding held_modes
acquire try_lock exclusive w =
    if try_lock exclusive (held_modes w.resources)
    then some (
      w.next,
      record {
        resources = insert w.next (record { references = 1; exclusive = exclusive }) w.resources;
        leases =
            insert w.next (record { resource = w.next; exclusive = exclusive; closed = false })
              w.leases;
        next = w.next + 1;
      },
    )
    else none

-- `RuntimeLease.fork` of a lease on an open resource; none is the raised `RuntimeError`.
unfoldable pub fork : Lease → Resource → Runtime → Option (ℕ × Runtime)
fork l r w =
    if l.closed || l.exclusive
    then none
    else some (
      w.next,
      record {
        resources = insert l.resource (record r { references = r.references + 1 }) w.resources;
        leases =
            insert w.next (record { resource = l.resource; exclusive = false; closed = false })
              w.leases;
        next = w.next + 1;
      },
    )

-- `RuntimeLease.close`
unfoldable pub close : ℕ → Lease → Resource → Runtime → Runtime
close i l r w = if l.closed then w else record w {
  leases = insert i (record l { closed = true }) w.leases;
  resources = insert l.resource (record r { references = r.references - 1 }) w.resources;
}

-- `AND case_id=?`, where a case is given.
abbrev pub concerns : Option ℕ → ℕ → Bool
concerns none case_id = true
concerns (some c) case_id = c == case_id

abbrev pub is_live_status : Option RunStatus → Bool
is_live_status (some queued) = true
is_live_status (some starting) = true
is_live_status (some in_progress) = true
is_live_status _ = false

abbrev pub is_live_run : Option TeamRun → Bool
is_live_run none = false
is_live_run (some run) = is_live_status run.status

abbrev pub is_busy_case : Option ℕ → Case → Bool
is_busy_case scope c =
    concerns scope c.case_id
    && (is_live_run c.team_run
        || has_status c.status (
            CaseStatus.ready_to_execute ∷ CaseStatus.executing ∷ CaseStatus.verifying
            ∷ CaseStatus.rollback_required ∷ CaseStatus.recovery_required ∷ []))

-- `status IN ('RUNNING','WAITING_TOOL')`
abbrev pub is_working : TaskStatus → Bool
is_working TaskStatus.running = true
is_working TaskStatus.waiting_tool = true
is_working _ = false

-- `assert_recording_quiescent`
unfoldable pub assert_recording_quiescent : Process → Option ℕ → Database → Result (Unit {0})
assert_recording_quiescent p scope db = do
  raise_if p.recovery_lock recovery_required
  raise_if (any_row (is_busy_case scope) db.cases) runtime_busy
  raise_if (any (λ (h : Hold). concerns scope h.case_id) db.holds) runtime_busy
  raise_if
      (any_row (λ (o : Operation). concerns scope o.case_id && is_unresolved o.status)
        db.operations)
      runtime_busy
  raise_if (any_row (λ (t : Task). concerns scope t.case_id && is_working t.status) db.tasks)
      runtime_busy
