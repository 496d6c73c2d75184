-- ===== src/Recovery/Failures.antt =====
-- What the report of a failed run leaves (`record_background_failure`, revguard/recovery.py).
use revguard.Base.{
  inserted, ℕ, ◌+◌, ◌≡◌, true, false, ◌||◌, some, List, [], ◌∷◌, lookup, insert, Dict, refl, sym,
  ap, subst, ◌∙◌, arith, if◌then◌else◌, option_eq_refl, Bool-cases, inl, inr,
}
use revguard.Model.Status.{CaseStatus, StatusText, known}
use revguard.Model.Actors.{Actor}
use revguard.Model.Tables.{
  Case, Operation, Hold, Database, rollback_phase, execution_phase, state_transition,
  team_run_failed,
}
use revguard.Model.Errors.{ok}
use revguard.Lifecycle.{is_allowed, is_member}
use revguard.Cases.{
  audit, locked_case, versioned_case_write, save_case_with_conn, persist_case_transition,
}
use revguard.Cases.Guards.{same_generation_refl, moved}
use revguard.Journal.Recovery.{has_hold, freeze_rows, freeze_case}
use revguard.Recovery.{
  Failure, has_status, interrupted, background_failed, result_unknown_reason, mark_failed,
  failed_run, is_own_run, is_rollback, record_background_failure,
}
use revguard.Recovery.Channels.{freeze_covers}

-- A transition of the stored image of a case.
persist_lem :
    (who : Actor) (to old : CaseStatus) (reason stamp version : ℕ) (c : Case) (db : Database)
    → lookup c.case_id db.cases ≡ some c
    → c.status ≡ known old
    → is_allowed old to ≡ true
    → persist_case_transition who to reason stamp version c db
      ≡ ok (
        moved to stamp version c,
        audit c.case_id who
            (state_transition old to reason)
            (record db { cases = insert c.case_id (moved to stamp version c) db.cases }),
      )
unfolding persist_case_transition save_case_with_conn versioned_case_write locked_case
persist_lem who to old reason stamp version c db stored is_old allowed =
    ground (arith, same_generation_refl c c refl refl refl, option_eq_refl c.recording_id)

save_lem :
    (c d : Case) (db : Database)
    → lookup c.case_id db.cases ≡ some d
    → d.case_revision ≡ c.case_revision
    → d.recording_id ≡ c.recording_id
    → save_case_with_conn false c db
      ≡ ok (
        record c { case_revision = c.case_revision + 1 },
        record db {
          cases = insert c.case_id (record c { case_revision = c.case_revision + 1 }) db.cases;
        },
      )
unfolding save_case_with_conn versioned_case_write locked_case
save_lem c d db stored revision recording = ground (arith, option_eq_refl c.recording_id)

-- The statuses in which money may have been written, and those that a failure leaves alone.
abbrev pub risky : List CaseStatus
risky = CaseStatus.executing ∷ CaseStatus.verifying ∷ CaseStatus.rollback_required ∷ []

abbrev pub parked : List CaseStatus
parked = CaseStatus.ready_to_execute ∷ CaseStatus.recovery_required ∷ CaseStatus.failed ∷ []

abbrev pub ended : List CaseStatus
ended = CaseStatus.closed ∷ CaseStatus.rolled_back ∷ []

risky_recovers :
    (s : CaseStatus) → is_member s risky ≡ true → is_allowed s CaseStatus.recovery_required ≡ true
unfolding is_allowed
risky_recovers s h = ground arith

other_fails :
    (s : CaseStatus)
    → is_member s ended ≡ false
    → is_member s parked ≡ false
    → is_allowed s CaseStatus.failed ≡ true
unfolding is_allowed
other_fails s alive moving = ground arith

-- Every channel on which the case has an operation is held for it.
abbrev pub IsHeld : ℕ → Dict Operation → List Hold → Type 0
IsHeld case_id operations holds =
    (k : ℕ) (o : Operation)
    → lookup k operations ≡ some o
    → o.case_id ≡ case_id
    → has_hold o.channel case_id holds ≡ true

-- The status and the holds after a failure in a status: where money may have been written, recovery
-- is required and the channels are held; a parked case keeps its status, and any other has failed.
abbrev pub HasEnded : ℕ → CaseStatus → Database → StatusText → List Hold → Type 0
HasEnded case_id old db status holds =
    if is_member old risky
    then (status ≡ known CaseStatus.recovery_required) × IsHeld case_id db.operations holds
    else if is_member old parked
    then status ≡ known old
    else status ≡ known CaseStatus.failed

abbrev IsMarked : Failure → CaseStatus → Case → Database → Case → Database → Type 0
IsMarked f old c db m w =
    (mark_failed f c db ≡ ok (m, w))
    × (m.case_id ≡ c.case_id)
    × (m.team_run ≡ c.team_run)
    × ((d : Case) × (lookup c.case_id w.cases ≡ some d)
        × (d.case_revision ≡ m.case_revision)
        × (d.recording_id ≡ m.recording_id))
    × HasEnded f.case_id old db m.status w.holds

risky_lem :
    (f : Failure) (old : CaseStatus) (c : Case) (db : Database)
    → lookup c.case_id db.cases ≡ some c
    → c.status ≡ known old
    → is_member old risky ≡ true
    → (m : Case) × (w : Database) × IsMarked f old c db m w
unfolding mark_failed freeze_case
risky_lem f old c db stored is_old at_risk =
    let test : has_status c.status risky ≡ true = rw is_old at_risk in
    let frozen = freeze_case f.case_id result_unknown_reason db in
    let moving =
      persist_lem Actor.orchestrator CaseStatus.recovery_required old interrupted f.now f.version c
        frozen stored is_old (risky_recovers old at_risk) in
    let image = moved CaseStatus.recovery_required f.now f.version c in
    let in_row = inserted c.case_id image db.cases in
    let held : IsHeld f.case_id db.operations
        (freeze_rows f.case_id result_unknown_reason db.operations db.holds) =
      λ k o found own.
        freeze_covers f.case_id result_unknown_reason k o db.operations db.holds found own in
    let written : Database =
      audit c.case_id Actor.orchestrator
        (state_transition old CaseStatus.recovery_required interrupted)
        (record frozen { cases = insert c.case_id image db.cases }) in
    let undo = is_rollback f.phase || f.requires_rollback (lookup f.case_id db.verifications) in
    let marked : Case = record image {
      recovery_phase = some (if undo then rollback_phase else execution_phase);
    } in
    (
      marked,
      written,
      (rw (test, moving) refl, refl, refl, (image, in_row, refl, refl), rw at_risk (refl, held)),
    )

parked_lem :
    (f : Failure) (old : CaseStatus) (c : Case) (db : Database)
    → lookup c.case_id db.cases ≡ some c
    → c.status ≡ known old
    → is_member old risky ≡ false
    → is_member old parked ≡ true
    → (m : Case) × (w : Database) × IsMarked f old c db m w
unfolding mark_failed
parked_lem f old c db stored is_old safe waiting =
    let no_risk : has_status c.status risky ≡ false = rw is_old safe in
    let waits : has_status c.status parked ≡ true = rw is_old waiting in
    (
      c,
      db,
      (rw (no_risk, waits) refl, refl, refl, (c, stored, refl, refl), rw (safe, waiting) is_old),
    )

failed_lem :
    (f : Failure) (old : CaseStatus) (c : Case) (db : Database)
    → lookup c.case_id db.cases ≡ some c
    → c.status ≡ known old
    → is_member old ended ≡ false
    → is_member old risky ≡ false
    → is_member old parked ≡ false
    → (m : Case) × (w : Database) × IsMarked f old c db m w
unfolding mark_failed
failed_lem f old c db stored is_old alive safe moving_on =
    let no_risk : has_status c.status risky ≡ false = rw is_old safe in
    let no_park : has_status c.status parked ≡ false = rw is_old moving_on in
    let moving =
      persist_lem Actor.orchestrator CaseStatus.failed old background_failed f.now f.version c db
        stored is_old (other_fails old alive moving_on) in
    let image = moved CaseStatus.failed f.now f.version c in
    let in_row = inserted c.case_id image db.cases in
    let written : Database =
      audit c.case_id Actor.orchestrator (state_transition old CaseStatus.failed background_failed)
        (record db { cases = insert c.case_id image db.cases }) in
    (
      image,
      written,
      (
        rw (no_risk, no_park) moving,
        refl,
        refl,
        (image, in_row, refl, refl),
        rw (safe, moving_on) refl,
      ),
    )

mark_lem :
    (f : Failure) (old : CaseStatus) (c : Case) (db : Database)
    → lookup c.case_id db.cases ≡ some c
    → c.status ≡ known old
    → is_member old ended ≡ false
    → (m : Case) × (w : Database) × IsMarked f old c db m w
mark_lem f old c db stored is_old alive = elim (Bool-cases (is_member old risky)) [
  | inl at_risk ↦ risky_lem f old c db stored is_old at_risk
  | inr safe ↦ elim (Bool-cases (is_member old parked)) [
    | inl waiting ↦ parked_lem f old c db stored is_old safe waiting
    | inr moving_on ↦ failed_lem f old c db stored is_old alive safe moving_on
  ]
]

abbrev pub HasReport : Failure → CaseStatus → Case → Database → Database → Case → Type 0
HasReport f old c db after u =
    (record_background_failure f db ≡ ok (true, after))
    × (lookup f.case_id after.cases ≡ some u)
    × (u.team_run ≡ some (failed_run f c.team_run))
    × HasEnded f.case_id old db u.status after.holds

-- A failure that a run reports under the generation and the recording that its case still has, while
-- the case is in a known status and has not ended, is always recorded: the run of the stored case
-- has failed with the reported error. Where the case was executing, verifying or rolling back,
-- recovery is required, and every channel with an operation of the case is held; where it was ready
-- to execute, in recovery or failed, it keeps its status; in any other status it has failed.
pub own_failure_is_recorded :
    (f : Failure) (old : CaseStatus) (c : Case) (db : Database)
    → lookup f.case_id db.cases ≡ some c
    → c.case_id ≡ f.case_id
    → c.status ≡ known old
    → is_own_run f c ≡ true
    → (after : Database) × (u : Case) × HasReport f old c db after u
unfolding record_background_failure locked_case
own_failure_is_recorded f old c db found own_key is_old own =
    let stored : lookup c.case_id db.cases ≡ some c =
      subst (λ k. lookup k db.cases ≡ some c) (sym own_key) found in
    let status_alive : has_status c.status ended ≡ false = ground arith in
    let alive : is_member old ended ≡ false =
      subst (λ s. has_status s ended ≡ false) is_old status_alive in
    let (m, w, (marks, same_key, same_run, (d, in_row, revision, recording), outcome)) =
      mark_lem f old c db stored is_old alive in
    let next : Case = record m { team_run = some (failed_run f m.team_run) } in
    let u : Case = record next { case_revision = m.case_revision + 1 } in
    let m_row : lookup m.case_id w.cases ≡ some d =
      subst (λ k. lookup k w.cases ≡ some d) (sym same_key) in_row in
    let saves = save_lem next d w m_row revision recording in
    let after : Database =
      audit f.case_id Actor.orchestrator (team_run_failed f.phase f.error_type)
        (record w { cases = insert m.case_id u w.cases }) in
    let at_key : m.case_id ≡ f.case_id = same_key ∙ own_key in
    (
      after,
      u,
      (
        rw (found, own, marks, saves, record_background_failure) refl,
        subst (λ k. lookup k after.cases ≡ some u) at_key (inserted m.case_id u w.cases),
        ap (λ run. some (failed_run f run)) same_run,
        outcome,
      ),
    )
