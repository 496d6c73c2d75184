-- ===== src/Stages/Commits.antt =====
-- When a stage commits (`commit_case_stage`, revguard/workflow_persistence.py).
use revguard.Base.{
  ℕ, ◌+◌, ◌≡◌, ◌≢◌, ◌↔◌, true, false, not, Option, none, some, List, [], ◌∷◌, lookup, insert,
  option_eq_refl, option_eq, Bool, Option-cases, ◌==◌, arith, refl, sym, ◌∙◌, inl, inr, subst,
}
use revguard.Model.Status.{CaseStatus}
use revguard.Model.Errors.{
  Result, ok, err, raise_if, value_error, stale_case_transition, Result-cases, >>=-eq-ok,
  raise_if-eq-ok,
}
use revguard.Model.Actors.{Actor}
use revguard.Model.Money.{Execution}
use revguard.Model.Tables.{Case, Projection, Database}
use revguard.Cases.{
  Outcome, versioned_case_write, locked_case, commit, save_case_with_conn, persist_case_transition,
  transition_case,
}
use revguard.Cases.Guards.{
  Matches, IsCurrent, Permits, same_generation-eq, same_generation_refl,
  transition_case-commits_iff,
}
use revguard.Stages.{
  Stage, all_belong, is_current, save_evidence, save_approval, save_execution, save_verification,
  save_audit, save_projections, save_progress, stage_writes, commit_case_stage,
}

-- A projection leaves the cases alone.
evidence_keeps_cases :
    (ps : List Projection) (db : Database) → (save_evidence ps db).cases ≡ db.cases
evidence_keeps_cases [] db = refl
evidence_keeps_cases (p ∷ ps) db =
    evidence_keeps_cases ps (record db { evidence = insert p.projection_id p db.evidence })

projections_keep_cases :
    (case_id : ℕ) (s : Stage) (db : Database) → (save_projections case_id s db).cases ≡ db.cases
projections_keep_cases case_id s db =
    audit_keeps s.audit_entry (save_verification case_id s.verification executed)
    ∙ verification_keeps s.verification executed
    ∙ execution_keeps s.execution approved
    ∙ approval_keeps s.approval gathered
    ∙ evidence_keeps_cases s.evidence db
  where
    gathered : Database
    gathered = save_evidence s.evidence db

    approved : Database
    approved = save_approval s.approval gathered

    executed : Database
    executed = save_execution s.execution approved

    approval_keeps : (p : Option Projection) (d : Database) → (save_approval p d).cases ≡ d.cases
    approval_keeps none d = refl
    approval_keeps (some p) d = refl

    execution_keeps : (e : Option Execution) (d : Database) → (save_execution e d).cases ≡ d.cases
    execution_keeps none d = refl
    execution_keeps (some e) d = refl

    verification_keeps :
        (v : Option ℕ) (d : Database) → (save_verification case_id v d).cases ≡ d.cases
    verification_keeps none d = refl
    verification_keeps (some v) d = refl

    audit_keeps : (a : Option (Actor × ℕ)) (d : Database) → (save_audit case_id a d).cases ≡ d.cases
    audit_keeps none d = refl
    audit_keeps (some a) d = refl

module _ (c : Case) (db : Database) (m : Result (Case × Database)) where
  commit-eq-none : (commit c db m).error ≡ none → (r : Case × Database) × (m ≡ ok r)
  commit-eq-none h = elim (Result-cases m) [
    | inl found ↦ found
    | inr (e, failed) ↦ absurd (let seen : some e ≡ none = rw failed at h in cc)
  ]

  ok-commit : (r : Case × Database) → m ≡ ok r → (commit c db m).error ≡ none
  ok-commit r h = rw h refl

-- The move that a stage asks for is in the whitelist, if it asks for one.
abbrev pub MayMove : Case → Option CaseStatus → Type 0
MayMove c none = Unit
MayMove c (some to) = Permits c.status to

is_current-IsCurrent :
    (c : Case) (db : Database) → is_current (lookup c.case_id db.cases) c ≡ true → IsCurrent c db
is_current-IsCurrent c db h = elim (Option-cases (lookup c.case_id db.cases)) [
  | inl absent ↦ absurd (let impossible : false ≡ true = rw absent at h in cc)
  | inr (d, stored) ↦
      let here : is_current (some d) c ≡ true = rw stored at h in
      let (status, recording, version) = same_generation-eq d c (ground arith) in
      rw stored (status, recording, version, ground arith)
]

IsCurrent-is_current :
    (c : Case) (db : Database) → IsCurrent c db → is_current (lookup c.case_id db.cases) c ≡ true
IsCurrent-is_current c db m = elim (Option-cases (lookup c.case_id db.cases)) [
  | inl absent ↦ absurd (rw absent at m)
  | inr (d, stored) ↦
      let (status, recording, version, revision) = rw stored at m in
      let same = same_generation_refl d c status recording version in rw stored (ground arith)
]

saves :
    (c : Case) (db : Database)
    → IsCurrent c db
    → (r : Case × Database) × (save_case_with_conn false c db ≡ ok r)
unfolding save_case_with_conn versioned_case_write locked_case
saves c db m = elim (Option-cases (lookup c.case_id db.cases)) [
  | inl absent ↦ absurd (rw absent at m)
  | inr (d, stored) ↦
      let (status, recording, version, revision) = rw stored at m in
      let updated = record c { case_revision = d.case_revision + 1 } in
      let same : (c.case_revision == d.case_revision) ≡ true = ground arith in
      let kept : option_eq d.recording_id c.recording_id ≡ true =
        rw recording (option_eq_refl c.recording_id) in
      (
        (updated, record db { cases = insert c.case_id updated db.cases }),
        simp (save_case_with_conn, versioned_case_write, locked_case, stored, same, kept),
      )
]

save_progress-ok :
    (to : Option CaseStatus) (reason stamp version : ℕ) (c : Case) (db : Database)
    → IsCurrent c db
    → MayMove c to
    → (r : Case × Database) × (save_progress to reason stamp version c db ≡ ok r)
unfolding transition_case
save_progress-ok none reason stamp version c db current may = saves c db current
save_progress-ok (some to) reason stamp version c db current may =
    commit-eq-none c db (persist_case_transition Actor.orchestrator to reason stamp version c db) (
      (transition_case-commits_iff Actor.orchestrator to reason stamp version c db).1
        (may, current))

may_move :
    (to : Option CaseStatus) (reason stamp version : ℕ) (c : Case) (db : Database)
    (r : Case × Database)
    → save_progress to reason stamp version c db ≡ ok r
    → MayMove c to
unfolding transition_case
may_move none reason stamp version c db r h = tt
may_move (some to) reason stamp version c db r h =
    ((transition_case-commits_iff Actor.orchestrator to reason stamp version c db).0 (
      ok-commit c db (persist_case_transition Actor.orchestrator to reason stamp version c db) r
        h)).0

refused_stays :
    (c : Case) (db : Database) (m : Result (Case × Database))
    → (commit c db m).error ≢ none
    → ((commit c db m).caller ≡ c) × ((commit c db m).database ≡ db)
refused_stays c db (err e) h = (refl, refl)
refused_stays c db (ok r) h = absurd (h refl)

module _ (s : Stage) (stamp version : ℕ) (c : Case) (db : Database) where
  abbrev projected : Database
  projected = save_projections c.case_id s db

  abbrev HasPassed : Type 0
  HasPassed = (all_belong c.case_id s ≡ true) × IsCurrent c db × MayMove c s.to

  projected-IsCurrent : IsCurrent c db → IsCurrent c projected
  projected-IsCurrent m =
      subst (λ cases. Matches (lookup c.case_id cases) c)
        (sym (projections_keep_cases c.case_id s db)) m

  writes_only_if : (r : Case × Database) → stage_writes s stamp version c db ≡ ok r → HasPassed
  unfolding stage_writes locked_case
  writes_only_if r h =
      let (_, belong, h1) = >>=-eq-ok (raise_if (not (all_belong c.case_id s)) value_error) _ h in
      let (_, current, h2) =
        >>=-eq-ok (raise_if (not (is_current (lookup c.case_id db.cases) c)) stale_case_transition)
          _ h1 in
      let fresh = raise_if-eq-ok _ _ current in
      (
        belongs_all (raise_if-eq-ok _ _ belong),
        is_current-IsCurrent c db (belongs_all fresh),
        may_move s.to s.reason stamp version c projected r h2,
      )
    where
      belongs_all : {b : Bool} → not b ≡ false → b ≡ true
      belongs_all {b} h = ground arith

  writes_if : HasPassed → (r : Case × Database) × (stage_writes s stamp version c db ≡ ok r)
  unfolding stage_writes locked_case
  writes_if (belong, current, may) =
      let fresh = IsCurrent-is_current c db current in
      let (r, written) =
        save_progress-ok s.to s.reason stamp version c projected (projected-IsCurrent current)
          may in
      (r, rw (stage_writes, belong, fresh, written) refl)

  abbrev staged : Outcome
  staged = commit_case_stage s stamp version c db

  -- A stage commits exactly if its projections belong to the case, the stored case is at the
  -- generation and revision of the snapshot, and the whitelist admits the move that it asks for, if
  -- any; otherwise the snapshot and the whole database stay as they were.
  pub stage_commits_iff :
      ((staged.error ≡ none) ↔ HasPassed)
      × (staged.error ≢ none → (staged.caller ≡ c) × (staged.database ≡ db))
  unfolding commit_case_stage
  stage_commits_iff = (
    (
      (λ h.
          let (r, written) = commit-eq-none c db (stage_writes s stamp version c db) h in
          writes_only_if r written),
      (λ passed.
          let (r, written) = writes_if passed in
          ok-commit c db (stage_writes s stamp version c db) r written),
    ),
    λ refused. refused_stays c db (stage_writes s stamp version c db) refused,
  )
