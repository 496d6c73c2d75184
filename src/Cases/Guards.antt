-- ===== src/Cases/Guards.antt =====
-- When a case transition commits, and what it then writes (revguard/state_machine.py).
use revguard.Base.{
  ℕ, ◌+◌, ◌≡◌, ◌≢◌, ◌↔◌, ◌⊎◌, refl, true, Option, none, some, ◌∷◌, arith, lookup, insert,
  option_eq_iff, option_eq_refl, Option-cases, inl, inr, ==_refl,
}
use revguard.Model.Status.{CaseStatus, StatusText, known, unknown, status_text_eq, case_status_eq}
use revguard.Model.Actors.{Actor}
use revguard.Model.Tables.{Case, Database, state_transition}
use revguard.Lifecycle.{is_allowed}
use revguard.Cases.{Outcome, same_generation, transition_case, save_case}

case_status_eq-eq : (s t : CaseStatus) → case_status_eq s t ≡ true → s ≡ t
case_status_eq-eq s t h = ground arith

case_status_eq_refl : (s : CaseStatus) → case_status_eq s s ≡ true
case_status_eq_refl s = ==_refl _

status_text_eq-eq : (s t : StatusText) → status_text_eq s t ≡ true → s ≡ t
status_text_eq-eq (known s) (known t) h = ground (arith, case_status_eq-eq s t)
status_text_eq-eq (unknown a) (unknown b) h = ground arith
status_text_eq-eq (known s) (unknown b) h = cc
status_text_eq-eq (unknown a) (known t) h = cc

status_text_eq_refl : (s : StatusText) → status_text_eq s s ≡ true
status_text_eq_refl (known s) = case_status_eq_refl s
status_text_eq_refl (unknown n) = ==_refl n

-- The row exists, at the snapshot's own generation and revision.
abbrev pub Matches : Option Case → Case → Type 0
Matches none c = ⊥
Matches (some d) c =
    (d.status ≡ c.status)
    × (d.recording_id ≡ c.recording_id)
    × (d.state_version ≡ c.state_version)
    × (d.case_revision ≡ c.case_revision)

abbrev pub IsCurrent : Case → Database → Type 0
IsCurrent c db = Matches (lookup c.case_id db.cases) c

-- The whitelist admits the move away from the snapshot's status.
abbrev pub Permits : StatusText → CaseStatus → Type 0
Permits (known s) t = is_allowed s t ≡ true
Permits (unknown n) t = ⊥

pub same_generation_refl :
    (d c : Case)
    → d.status ≡ c.status
    → d.recording_id ≡ c.recording_id
    → d.state_version ≡ c.state_version
    → same_generation d c ≡ true
same_generation_refl d c hs hr hv = rw (
  hs,
  hr,
  hv,
  status_text_eq_refl c.status,
  option_eq_refl c.recording_id,
  option_eq_refl c.state_version,
)

pub same_generation-eq :
    (d c : Case)
    → same_generation d c ≡ true
    → (d.status ≡ c.status)
      × (d.recording_id ≡ c.recording_id)
      × (d.state_version ≡ c.state_version)
same_generation-eq d c h = ground (
  arith,
  status_text_eq-eq d.status c.status,
  option_eq_iff d.recording_id c.recording_id,
  option_eq_iff d.state_version c.state_version,
)

-- The snapshot after a committed move.
abbrev pub moved : CaseStatus → ℕ → ℕ → Case → Case
moved to stamp version c = record c {
  status = known to;
  updated_at = stamp;
  state_version = some version;
  case_revision = c.case_revision + 1;
}

module _ (who : Actor) (to : CaseStatus) (reason stamp version : ℕ) (c : Case) (db : Database) where
  abbrev outcome : Outcome
  outcome = transition_case who to reason stamp version c db

  commits_lem :
      (old : CaseStatus) (row : Case)
      → c.status ≡ known old
      → is_allowed old to ≡ true
      → lookup c.case_id db.cases ≡ some row
      → Matches (some row) c
      → transition_case who to reason stamp version c db ≡ record {
        caller = moved to stamp version c;
        database = record db {
          cases = insert c.case_id (moved to stamp version c) db.cases;
          audit =
              record { case_id = c.case_id; actor = who; detail = state_transition old to reason }
              ∷ db.audit;
        };
        error = none;
      }
  unfolding transition_case
  commits_lem old row known_old allowed stored m =
      ground (arith, same_generation_refl row c m.0 m.1 m.2, option_eq_refl c.recording_id)

  commits_only_if :
      (old : CaseStatus)
      → c.status ≡ known old
      → outcome.error ≡ none
      → (is_allowed old to ≡ true) × IsCurrent c db
  unfolding transition_case
  commits_only_if old known_old h = elim (Option-cases (lookup c.case_id db.cases)) [
    | inl absent ↦ ground arith
    | inr (row, stored) ↦ ground (arith, same_generation-eq row c)
  ]

  unknown_refused : (n : ℕ) → c.status ≡ unknown n → outcome.error ≢ none
  unfolding transition_case
  unknown_refused n e = ground arith

StatusText-cases :
    (s : StatusText) → ((t : CaseStatus) × (s ≡ known t)) ⊎ ((n : ℕ) × (s ≡ unknown n))
StatusText-cases (known t) = inl (t, refl)
StatusText-cases (unknown n) = inr (n, refl)

module _ (who : Actor) (to : CaseStatus) (reason stamp version : ℕ) (c : Case) (db : Database) where
  abbrev attempt : Outcome
  attempt = transition_case who to reason stamp version c db

  -- What a commit needs, in the parts that a proof takes apart.
  pub commit_parts :
      attempt.error ≡ none
      → (old : CaseStatus) × (row : Case) × (c.status ≡ known old)
        × (is_allowed old to ≡ true)
        × (lookup c.case_id db.cases ≡ some row)
        × Matches (some row) c
  commit_parts h = elim (StatusText-cases c.status) [
    | inr (n, e) ↦ absurd (unknown_refused who to reason stamp version c db n e h)
    | inl (old, e) ↦
        let (allowed, m) = commits_only_if who to reason stamp version c db old e h in
        elim (Option-cases (lookup c.case_id db.cases)) [
          | inl absent ↦ absurd (rw absent at m)
          | inr (row, stored) ↦ (old, row, e, allowed, stored, rw stored at m)
        ]
  ]

  commits : Permits c.status to → IsCurrent c db → attempt.error ≡ none
  commits permitted current = elim (StatusText-cases c.status) [
    | inr (n, e) ↦ absurd (rw e at permitted)
    | inl (old, e) ↦ elim (Option-cases (lookup c.case_id db.cases)) [
      | inl absent ↦ absurd (rw absent at current)
      | inr (row, stored) ↦ rw (
          commits_lem who to reason stamp version c db old row e (rw e at permitted) stored
            (rw stored at current))
    ]
  ]

  -- A transition commits exactly when the whitelist permits the move from the snapshot's status and
  -- the stored row has the snapshot's status, recording, state version and revision.
  pub transition_case-commits_iff : (attempt.error ≡ none) ↔ (Permits c.status to × IsCurrent c db)
  transition_case-commits_iff = (
    λ h. let (old, row, e, allowed, stored, m) = commit_parts h in (rw e allowed, rw stored m),
    λ (permitted, current). commits permitted current,
  )

module _ (who : Actor) (to : CaseStatus) (reason stamp version : ℕ) (c : Case) (db : Database) where
  -- What a committed transition leaves: the moved snapshot for the caller and in the table, and one
  -- more audit row.
  pub committed_lem :
      (transition_case who to reason stamp version c db).error ≡ none
      → (old : CaseStatus) × (row : Case) × (c.status ≡ known old)
        × (is_allowed old to ≡ true)
        × (lookup c.case_id db.cases ≡ some row)
        × Matches (some row) c
        × (transition_case who to reason stamp version c db ≡ record {
          caller = moved to stamp version c;
          database = record db {
            cases = insert c.case_id (moved to stamp version c) db.cases;
            audit =
                record { case_id = c.case_id; actor = who; detail = state_transition old to reason }
                ∷ db.audit;
          };
          error = none;
        })
  committed_lem h =
      let (old, row, e, allowed, stored, m) = commit_parts who to reason stamp version c db h in
      (
        old,
        row,
        e,
        allowed,
        stored,
        m,
        commits_lem who to reason stamp version c db old row e allowed stored m,
      )

  -- A refused transition changes neither the caller's copy nor the database.
  pub refused_unchanged :
      (transition_case who to reason stamp version c db).error ≢ none
      → ((transition_case who to reason stamp version c db).caller ≡ c)
        × ((transition_case who to reason stamp version c db).database ≡ db)
  unfolding transition_case
  refused_unchanged h = ground arith

module _ (c : Case) (db : Database) where
  pub save_case_lem :
      (save_case c db).error ≡ none
      → (save_case c db).database ≡ record db {
        cases = insert c.case_id (record c { case_revision = c.case_revision + 1 }) db.cases;
      }
  unfolding save_case
  save_case_lem h = ground arith

  pub save_refused_unchanged :
      (save_case c db).error ≢ none
      → ((save_case c db).caller ≡ c) × ((save_case c db).database ≡ db)
  unfolding save_case
  save_refused_unchanged h = ground arith

  pub save_stale :
      (row : Case)
      → lookup c.case_id db.cases ≡ some row
      → row.case_revision ≢ c.case_revision
      → (save_case c db).error ≢ none
  unfolding save_case
  save_stale row stored other = ground arith
