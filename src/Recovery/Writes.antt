-- ===== src/Recovery/Writes.antt =====
-- What the writes of a resumption leave alone (`resume_case_run`, revguard/recovery.py).
use revguard.Base.{
  ℕ, ◌+◌, ◌≡◌, Bool, true, false, not, ◌||◌, some, List, [], ◌∷◌, lookup, insert, lookup-insert,
  refl, sym, ap, subst, ◌∙◌, if◌then◌else◌, ◌==◌, ==_refl, Bool-cases, inl, inr,
}
use revguard.Model.Status.{CaseStatus, known}
use revguard.Model.Actors.{Actor}
use revguard.Model.Tables.{Case, Database}
use revguard.Model.Errors.{
  ok, raise_if, or_raise, >>=-eq-ok, ok-injective, stale_case_transition, invalid_state_transition,
}
use revguard.Cases.{
  locked_case, versioned_case_write, save_case_with_conn, persist_case_transition, revision_of,
  other_recording, parse_status, same_generation,
}
use revguard.Lifecycle.{is_allowed}
use revguard.Recovery.{has_status}
use revguard.Recovery.Resume.{Recovery}
use revguard.Recovery.Queue.{move_to_rollback, move_to_check, move_to_execution, move_to_resume}

-- Two images of a case that agree on what the recovery goes by.
abbrev pub SameRun : Case → Case → Type 0
SameRun a b =
    (a.case_id ≡ b.case_id)
    × (a.recording_id ≡ b.recording_id)
    × (a.recovery_generation ≡ b.recovery_generation)

-- Nothing but cases, approvals, executions, events and the gateway's image differs.
abbrev pub SameWork : Database → Database → Type 0
SameWork before after =
    (after.tasks ≡ before.tasks)
    × (after.operations ≡ before.operations)
    × (after.holds ≡ before.holds)

pub SameRun-trans : (a b c : Case) → SameRun a b → SameRun b c → SameRun a c
SameRun-trans a b c (i, r, g) (j, s, h) = (i ∙ j, r ∙ s, g ∙ h)

pub SameWork-trans : (a b c : Database) → SameWork a b → SameWork b c → SameWork a c
SameWork-trans a b c (t, o, h) (u, p, i) = (u ∙ t, p ∙ o, i ∙ h)

versioned-image :
    (c u : Case) (db : Database)
    → versioned_case_write false c db ≡ ok u
    → (n : ℕ) × (u ≡ record c { case_revision = n })
unfolding versioned_case_write
versioned-image c u db h =
    let current = locked_case db c.case_id in
    let refused = not (c.case_revision == revision_of current) || other_recording false current c in
    elim (Bool-cases refused) [
      | inl stale ↦ let wrong = rw stale at h in absurd (cc)
      | inr fresh ↦ (revision_of current + 1, sym (ok-injective (rw fresh at h)))
    ]

-- What a write of a case leaves: the new image differs from the given one in what `P` says, is
-- stored, and nothing else of the work is touched.
abbrev pub IsWritten : Case → Database → Case × Database → Type 0
IsWritten c db (u, w) =
    SameRun u c × (lookup c.case_id w.cases ≡ some u) × SameWork db w × (w.state ≡ db.state)

pub saved_lem :
    (c u : Case) (db w : Database)
    → save_case_with_conn false c db ≡ ok (u, w)
    → IsWritten c db (u, w) × (u.status ≡ c.status) × (u.team_run ≡ c.team_run)
unfolding save_case_with_conn
saved_lem c u db w h =
    let (v, run, last) = >>=-eq-ok (versioned_case_write false c db) _ h in
    let (n, image) = versioned-image c v db run in
    let same : v.case_id ≡ c.case_id = ap (λ (x : Case). x.case_id) image in
    let stored : lookup c.case_id (insert v.case_id v db.cases) ≡ some v =
      rw (lookup-insert c.case_id v.case_id v db.cases, same, ==_refl c.case_id) refl in
    subst (λ r. IsWritten c db r × (r.0.status ≡ c.status) × (r.0.team_run ≡ c.team_run))
      (ok-injective last)
      (
        (
          (
            same,
            ap (λ (x : Case). x.recording_id) image,
            ap (λ (x : Case). x.recovery_generation) image,
          ),
          stored,
          (refl, refl, refl),
          refl,
        ),
        ap (λ (x : Case). x.status) image,
        ap (λ (x : Case). x.team_run) image,
      )

pub moved_lem :
    (who : Actor) (to : CaseStatus) (reason stamp version : ℕ) (c u : Case) (db w : Database)
    → persist_case_transition who to reason stamp version c db ≡ ok (u, w)
    → IsWritten c db (u, w) × (u.status ≡ known to)
unfolding persist_case_transition
moved_lem who to reason stamp version c u db w h =
    let (old, _, h1) = >>=-eq-ok (parse_status c.status) _ h in
    let (_, _, h2) = >>=-eq-ok (raise_if (not (is_allowed old to)) invalid_state_transition) _ h1 in
    let (current, _, h3) =
      >>=-eq-ok (or_raise (locked_case db c.case_id) stale_case_transition) _ h2 in
    let (_, _, h4) =
      >>=-eq-ok (raise_if (not (same_generation current c)) stale_case_transition) _ h3 in
    let next : Case = record c {
      status = known to;
      updated_at = stamp;
      state_version = some version;
    } in
    let ((v, x), run, last) = >>=-eq-ok (save_case_with_conn false next db) _ h4 in
    let (written, of_status, _) = saved_lem next v db x run in
    subst (λ r. IsWritten c db r × (r.0.status ≡ known to)) (ok-injective last) (written, of_status)

-- The statuses from which a resumed run goes on.
abbrev pub resumable : Bool → List CaseStatus
resumable rollback =
    if rollback
    then CaseStatus.rollback_required ∷ []
    else CaseStatus.ready_to_execute ∷ CaseStatus.executing ∷ []

abbrev pub IsResumable : Recovery → Case → Database → Case × Database → Type 0
IsResumable r c db (u, w) =
    SameRun u c × SameWork db w × (has_status u.status (resumable r.rollback) ≡ true)

rollback_lem :
    (r : Recovery) (c : Case) (db : Database) (o : Case × Database)
    → move_to_rollback r c db ≡ ok o
    → SameRun o.0 c
      × SameWork db o.1
      × (has_status o.0.status (CaseStatus.rollback_required ∷ []) ≡ true)
rollback_lem r c db o h =
    elim (Bool-cases (has_status c.status (CaseStatus.rollback_required ∷ []))) [
      | inl there ↦
          subst
            (λ x.
              SameRun x.0 c
              × SameWork db x.1
              × (has_status x.0.status (CaseStatus.rollback_required ∷ []) ≡ true))
            (ok-injective (rw there at h)) ((refl, refl, refl), (refl, refl, refl), there)
      | inr away ↦
          let ((same, _, work, _), at_goal) = moved_lem _ _ _ _ _ c o.0 db o.1 (rw away at h) in
          (same, work, rw at_goal refl)
    ]

check_lem :
    (r : Recovery) (c : Case) (db : Database) (o : Case × Database)
    → move_to_check r c db ≡ ok o
    → SameRun o.0 c × SameWork db o.1
check_lem r c db o h = elim (Bool-cases (has_status c.status (CaseStatus.recovery_required ∷ []))) [
  | inl there ↦
      subst (λ x. SameRun x.0 c × SameWork db x.1) (ok-injective (rw there at h))
        ((refl, refl, refl), (refl, refl, refl))
  | inr away ↦
      let ((same, _, work, _), _) = moved_lem _ _ _ _ _ c o.0 db o.1 (rw away at h) in (same, work)
]

execution_lem :
    (r : Recovery) (c : Case) (db : Database) (o : Case × Database)
    → move_to_execution r c db ≡ ok o
    → SameRun o.0 c
      × SameWork db o.1
      × (has_status o.0.status (CaseStatus.ready_to_execute ∷ CaseStatus.executing ∷ []) ≡ true)
execution_lem r c db o h =
    elim (Bool-cases
      (has_status c.status (CaseStatus.ready_to_execute ∷ CaseStatus.executing ∷ []))) [
        | inl there ↦
            subst
              (λ x.
                SameRun x.0 c
                × SameWork db x.1
                × (has_status x.0.status (CaseStatus.ready_to_execute ∷ CaseStatus.executing ∷ [])
                    ≡ true))
              (ok-injective (rw there at h)) ((refl, refl, refl), (refl, refl, refl), there)
        | inr away ↦
            let ((pending, middle), first, last) =
              >>=-eq-ok (move_to_check r c db) _ (rw away at h) in
            let (same, work) = check_lem r c db (pending, middle) first in
            let ((same2, _, work2, _), at_goal) = moved_lem _ _ _ _ _ pending o.0 middle o.1 last in
            (
              SameRun-trans o.0 pending c same2 same,
              SameWork-trans db middle o.1 work work2,
              rw at_goal refl,
            )
      ]

pub move_lem :
    (r : Recovery) (c : Case) (db : Database) (o : Case × Database)
    → move_to_resume r c db ≡ ok o
    → IsResumable r c db o
unfolding move_to_resume
move_lem r c db o h = elim (Bool-cases r.rollback) [
  | inl undo ↦ rw undo (rollback_lem r c db o (rw undo at h))
  | inr again ↦ rw again (execution_lem r c db o (rw again at h))
]
