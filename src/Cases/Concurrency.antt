-- ===== src/Cases/Concurrency.antt =====
-- Two coordinators that hold snapshots of one revision (revguard/state_machine.py,
-- revguard/workflow_persistence.py): the second to write is refused.
use revguard.Base.{ℕ, ◌≡◌, ◌≢◌, none, some, arith, lookup, lookup-insert, ==_refl}
use revguard.Model.Status.{CaseStatus}
use revguard.Model.Actors.{Actor}
use revguard.Model.Tables.{Case, Database}
use revguard.Cases.{transition_case, save_case}
use revguard.Cases.Guards.{
  moved, committed_lem, refused_unchanged, commit_parts, save_stale, save_refused_unchanged,
}

-- The row that a committed transition leaves.
row_after :
    (who : Actor) (to : CaseStatus) (reason stamp version : ℕ) (c : Case) (db : Database)
    → (transition_case who to reason stamp version c db).error ≡ none
    → lookup c.case_id (transition_case who to reason stamp version c db).database.cases
      ≡ some (moved to stamp version c)
row_after who to reason stamp version c db h =
    let (_, _, _, _, _, _, e) = committed_lem who to reason stamp version c db h in
    rw e (rw (lookup-insert c.case_id c.case_id, ==_refl))

outdated_refused :
    (who : Actor) (to : CaseStatus) (reason stamp version : ℕ) (c row : Case) (db : Database)
    → lookup c.case_id db.cases ≡ some row
    → row.case_revision ≢ c.case_revision
    → (transition_case who to reason stamp version c db).error ≢ none
outdated_refused who to reason stamp version c row db stored other h =
    let (_, found, _, _, at, (_, _, _, same)) = commit_parts who to reason stamp version c db h in
    other (cc (stored, at, same))

-- Once a transition has committed from a snapshot, a second transition and an ordinary save from
-- any snapshot of the same revision are refused, and leave the first writer's database as it is.
pub second_writer_loses :
    (who : Actor) (to : CaseStatus) (reason stamp version : ℕ) (c : Case) (db : Database)
    (who' : Actor) (to' : CaseStatus) (reason' stamp' version' : ℕ) (c' : Case)
    → (transition_case who to reason stamp version c db).error ≡ none
    → c'.case_id ≡ c.case_id
    → c'.case_revision ≡ c.case_revision
    → let after = (transition_case who to reason stamp version c db).database in
      ((transition_case who' to' reason' stamp' version' c' after).error ≢ none)
      × ((transition_case who' to' reason' stamp' version' c' after).database ≡ after)
      × ((save_case c' after).error ≢ none)
      × ((save_case c' after).database ≡ after)
second_writer_loses who to reason stamp version c db who' to' reason' stamp' version' c' h id rev =
    let after = (transition_case who to reason stamp version c db).database in
    let stored : lookup c'.case_id after.cases ≡ some (moved to stamp version c) =
      rw id (row_after who to reason stamp version c db h) in
    let lost =
      outdated_refused who' to' reason' stamp' version' c' (moved to stamp version c) after stored
        (omega arith) in
    let unsaved = save_stale c' after (moved to stamp version c) stored (omega arith) in
    (
      lost,
      (refused_unchanged who' to' reason' stamp' version' c' after lost).1,
      unsaved,
      (save_refused_unchanged c' after unsaved).1,
    )
