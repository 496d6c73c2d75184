-- ===== src/Cases.antt =====
-- Writes of case snapshots: `locked_case`, `persist_case_transition` and `transition_case` of
-- revguard/state_machine.py, `versioned_case_write` of revguard/workflow_persistence.py and
-- `_save_case_with_conn`, `save_case` of revguard/store.py. A transaction that raises leaves the
-- database as it was, so a raised error carries no database.
pub mod Guards
pub mod Concurrency
pub mod History
mod Examples
use revguard.Base.{
  ℕ, ◌+◌, Bool, true, false, not, ◌&&◌, ◌||◌, Option, none, some, ◌∷◌, lookup, insert, option_eq,
  if◌then◌else◌, ◌==◌,
}
use revguard.Model.Status.{CaseStatus, StatusText, known, unknown, status_text_eq}
use revguard.Model.Errors.{
  Error, Result, ok, err, ◌>>=◌, ◌>>◌, raise_if, or_raise, stale_case_transition,
  invalid_state_transition,
}
use revguard.Model.Actors.{Actor}
use revguard.Model.Tables.{Case, Event, EventDetail, Database, state_transition}
use revguard.Lifecycle.{is_allowed}

unfoldable pub locked_case : Database → ℕ → Option Case
locked_case db case_id = lookup case_id db.cases

-- `tx.audit`
abbrev pub audit : ℕ → Actor → EventDetail → Database → Database
audit case_id who what db = record db {
  audit = record { case_id = case_id; actor = who; detail = what } ∷ db.audit;
}

-- `(current or {}).get("_case_revision", 0)`
abbrev pub revision_of : Option Case → ℕ
revision_of none = 0
revision_of (some c) = c.case_revision

-- `current is not None and not recording_replace and ...`
abbrev pub other_recording : Bool → Option Case → Case → Bool
other_recording replace none c = false
other_recording replace (some d) c = not replace && not (option_eq d.recording_id c.recording_id)

-- `now` stands for the time that the row is stamped with, which no guard reads.
unfoldable pub versioned_case_write : Bool → Case → Database → Result Case
unfolding locked_case
versioned_case_write replace c db =
    let current = locked_case db c.case_id in
    if not (c.case_revision == revision_of current) || other_recording replace current c
    then err stale_case_transition
    else ok (record c { case_revision = revision_of current + 1 })

-- `_save_case_with_conn`: the checked snapshot replaces the row.
unfoldable pub save_case_with_conn : Bool → Case → Database → Result (Case × Database)
unfolding versioned_case_write
save_case_with_conn replace c db = do
  updated ← versioned_case_write replace c db
  ok (updated, record db { cases = insert updated.case_id updated db.cases })

-- `current.get(key) != case.get(key)` for none of status, recording_id, _state_version
abbrev pub same_generation : Case → Case → Bool
same_generation d c =
    status_text_eq d.status c.status
    && option_eq d.recording_id c.recording_id
    && option_eq d.state_version c.state_version

-- `CaseStatus(case.get("status"))`
abbrev pub parse_status : StatusText → Result CaseStatus
parse_status (known s) = ok s
parse_status (unknown n) = err invalid_state_transition

-- `stamp` is the new `updated_at`, `version` the new `_state_version`.
unfoldable pub persist_case_transition :
    Actor → CaseStatus → ℕ → ℕ → ℕ → Case → Database → Result (Case × Database)
unfolding save_case_with_conn
persist_case_transition who to reason stamp version c db = do
  old ← parse_status c.status
  raise_if (not (is_allowed old to)) invalid_state_transition
  current ← or_raise (locked_case db c.case_id) stale_case_transition
  raise_if (not (same_generation current c)) stale_case_transition
  (updated, written) ←
      save_case_with_conn false
        (record c { status = known to; updated_at = stamp; state_version = some version }) db
  ok (updated, audit c.case_id who (state_transition old to reason) written)

-- The caller's copy of the case, its database and the error that it sees.
pub record Outcome : Type 0 where
  pub caller : Case
  pub database : Database
  pub error : Option Error

-- A transaction around a write of the case: the caller's copy changes only after the commit.
abbrev pub commit : Case → Database → Result (Case × Database) → Outcome
commit c db (ok (updated, written)) = record { caller = updated; database = written; error = none }
commit c db (err e) = record { caller = c; database = db; error = some e }

unfoldable pub transition_case : Actor → CaseStatus → ℕ → ℕ → ℕ → Case → Database → Outcome
unfolding persist_case_transition
transition_case who to reason stamp version c db =
    commit c db (persist_case_transition who to reason stamp version c db)

-- `Store.save_case`
pub save_case : Case → Database → Outcome
unfolding save_case_with_conn
save_case c db = commit c db (save_case_with_conn false c db)
