-- ===== src/Cases/History.antt =====
-- The audit rows of a case are its history (revguard/state_machine.py: `tx.audit(...,
-- "STATE_TRANSITION", ...)` in the transaction that writes the status).
use revguard.Base.{
  ◌⊎◌, ℕ, ◌≡◌, refl, ap, ◌∙◌, true, none, some, List, [], ◌∷◌, arith, lookup, lookup-insert,
  Option-cases, Bool-cases, inl, inr, ◌==◌, ==_iff, if◌then◌else◌, Option,
}
use revguard.Model.Status.{CaseStatus, known}
use revguard.Model.Actors.{Actor}
use revguard.Model.Tables.{Case, Database, Event, EventDetail, state_transition}
use revguard.Lifecycle.{is_allowed}
use revguard.Lifecycle.Paths.{Trail, here, next, steps, Enters, is_before_review, review_or_failure}
use revguard.Cases.{transition_case, save_case}
use revguard.Cases.Guards.{
  moved, committed_lem, refused_unchanged, save_case_lem, save_refused_unchanged,
}

abbrev add_step : EventDetail → List (CaseStatus × CaseStatus) → List (CaseStatus × CaseStatus)
add_step (state_transition s t reason) l = (s, t) ∷ l
add_step _ l = l

-- The status changes that the audit log records for a case, the newest first.
abbrev pub history : ℕ → List Event → List (CaseStatus × CaseStatus)
history id [] = []
history id (e ∷ l) = if id == e.case_id then add_step e.detail (history id l) else history id l

-- A write of a case: a transition from any snapshot, an ordinary save that keeps the stored
-- status, or the first save of a new case.
pub data Write : Database → Database → Type 0 where
  transition :
      (who : Actor) (to : CaseStatus) (reason stamp version : ℕ) (c : Case) (db : Database)
      → Write db (transition_case who to reason stamp version c db).database
  save :
      (c row : Case) (db : Database)
      → lookup c.case_id db.cases ≡ some row
      → row.status ≡ c.status
      → Write db (save_case c db).database
  create :
      (c : Case) (db : Database)
      → lookup c.case_id db.cases ≡ none
      → c.status ≡ known CaseStatus.created
      → Write db (save_case c db).database

pub data Writes (start : Database) : Database → Type 0 where
  done : Writes start start
  more : {db : Database} (next' : Database) → Writes start db → Write db next' → Writes start next'

-- The audit rows of the case are the steps of an allowed trail from CREATED to its status; a case
-- with no row in the table has none.
abbrev pub Logged : ℕ → Option Case → List Event → Type 0
Logged id none log = history id log ≡ []
Logged id (some c) log =
    (t : CaseStatus) × (p : Trail CaseStatus.created t) × (c.status ≡ known t)
    × (history id log ≡ steps p)

abbrev pub IsLogged : Database → Type 0
IsLogged db = (id : ℕ) → Logged id (lookup id db.cases) db.audit

extend_trail :
    (id : ℕ) (log : List Event) (row : Case) (old to : CaseStatus)
    → row.status ≡ known old
    → is_allowed old to ≡ true
    → Logged id (some row) log
    → (p : Trail CaseStatus.created to) × ((old, to) ∷ history id log ≡ steps p)
unfolding steps
extend_trail id log row old to e allowed (t, p, at, h) =
    let q : old ≡ t = cc in rw q (next to p (rw q at allowed), ap (λ l. (t, to) ∷ l) h)

Logged-same :
    (id : ℕ) (o : Option Case) (log log' : List Event)
    → history id log' ≡ history id log
    → Logged id o log
    → Logged id o log'
Logged-same id none log log' e h = e ∙ h
Logged-same id (some c) log log' e (t, p, at, h) = (t, p, at, e ∙ h)

transition-IsLogged :
    (who : Actor) (to : CaseStatus) (reason stamp version : ℕ) (c : Case) (db : Database)
    → IsLogged db
    → IsLogged (transition_case who to reason stamp version c db).database
transition-IsLogged who to reason stamp version c db logged id =
    elim (Option-cases (transition_case who to reason stamp version c db).error) [
      | inr (e, failed) ↦
          rw ((refused_unchanged who to reason stamp version c db (λ h. cc)).1) (logged id)
      | inl success ↦
          let (old, row, known_old, allowed, stored, (same_status, _, _, _), result) =
            committed_lem who to reason stamp version c db success in
          rw result (elim (Bool-cases (id == c.case_id)) [
            | inr other ↦
                rw (lookup-insert id c.case_id (moved to stamp version c) db.cases, other)
                  (Logged-same id (lookup id db.cases) db.audit _ (rw other) (logged id))
            | inl same ↦
                let at : id ≡ c.case_id = (==_iff id c.case_id).0 same in
                let entry : Logged id (some row) db.audit =
                  rw at (rw stored at (logged c.case_id)) in
                let (p, h) =
                  extend_trail id db.audit row old to (same_status ∙ known_old) allowed entry in
                rw (lookup-insert id c.case_id (moved to stamp version c) db.cases, same)
                  (to, p, refl, rw same h)
          ])
    ]

save-IsLogged :
    (c row : Case) (db : Database)
    → lookup c.case_id db.cases ≡ some row
    → row.status ≡ c.status
    → IsLogged db
    → IsLogged (save_case c db).database
save-IsLogged c row db stored same_status logged id = elim (Option-cases (save_case c db).error) [
  | inr (e, failed) ↦ rw (save_refused_unchanged c db (λ h. cc)).1 (logged id)
  | inl success ↦ rw (save_case_lem c db success) (elim (Bool-cases (id == c.case_id)) [
    | inr other ↦ rw (lookup-insert id c.case_id _ db.cases, other) (logged id)
    | inl same ↦
        let at : id ≡ c.case_id = (==_iff id c.case_id).0 same in
        let entry : Logged id (some row) db.audit = rw at (rw stored at (logged c.case_id)) in
        rw (lookup-insert id c.case_id _ db.cases, same, ← same_status) entry
  ])
]

create-IsLogged :
    (c : Case) (db : Database)
    → lookup c.case_id db.cases ≡ none
    → c.status ≡ known CaseStatus.created
    → IsLogged db
    → IsLogged (save_case c db).database
unfolding steps
create-IsLogged c db absent fresh logged id = elim (Option-cases (save_case c db).error) [
  | inr (e, failed) ↦ rw (save_refused_unchanged c db (λ h. cc)).1 (logged id)
  | inl success ↦ rw (save_case_lem c db success) (elim (Bool-cases (id == c.case_id)) [
    | inr other ↦ rw (lookup-insert id c.case_id _ db.cases, other) (logged id)
    | inl same ↦
        let at : id ≡ c.case_id = (==_iff id c.case_id).0 same in
        let entry : Logged id none db.audit = rw at (rw absent at (logged c.case_id)) in
        rw (lookup-insert id c.case_id _ db.cases, same) (CaseStatus.created, here, fresh, entry)
  ])
]

Write-IsLogged : {db after : Database} → Write db after → IsLogged db → IsLogged after
Write-IsLogged (transition who to reason stamp version c db) h =
    transition-IsLogged who to reason stamp version c db h
Write-IsLogged (save c row db stored same) h = save-IsLogged c row db stored same h
Write-IsLogged (create c db absent fresh) h = create-IsLogged c db absent fresh h

-- Through any sequence of case writes the audit log stays the history of every case: its rows for a
-- case are exactly the steps of an allowed trail from CREATED to the status in the table.
pub audit_is_history : {start end : Database} → Writes start end → IsLogged start → IsLogged end
audit_is_history done h = h
audit_is_history (more _ w step) h = Write-IsLogged step (audit_is_history w h)

reviewed_early : (t : CaseStatus) → is_before_review t ≡ true → t ≡ CaseStatus.executing → ⊥
reviewed_early t early e = ground arith

-- Where the log has been the history from the start, a case that is in EXECUTING has an audit row
-- that enters RISK_REVIEW, or one that enters FAILED.
pub executing_case_was_reviewed :
    {start end : Database} (id : ℕ) (c : Case)
    → Writes start end
    → IsLogged start
    → lookup id end.cases ≡ some c
    → c.status ≡ known CaseStatus.executing
    → Enters CaseStatus.risk_review (history id end.audit)
      ⊎ Enters CaseStatus.failed (history id end.audit)
executing_case_was_reviewed {end} id c w h stored status =
    let (t, p, at, log) = rw stored at (audit_is_history w h id) in
    elim (review_or_failure p refl) [
      | inl early ↦ absurd (reviewed_early t early (cc))
      | inr entered ↦ rw log entered
    ]
