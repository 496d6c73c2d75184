-- ===== src/Cases/Examples.antt =====
-- Runs of revguard/state_machine.py on a small database, and its theorems at concrete inputs.
use revguard.Base.{false, ℕ, ◌≡◌, ◌≢◌, refl, none, some, List, length, [], ◌∷◌, lookup, ◌⊎◌}
use revguard.Model.Status.{CaseStatus, known}
use revguard.Model.Errors.{stale_case_transition, invalid_state_transition}
use revguard.Model.Actors.{Actor}
use revguard.Model.Tables.{Case, Database, Event, state_transition}
use revguard.Model.Samples.{empty}
use revguard.Lifecycle.Paths.{Enters}
use revguard.Lifecycle.{is_allowed}
use revguard.Cases.{transition_case, save_case}
use revguard.Cases.Guards.{Permits, IsCurrent, transition_case-commits_iff}
use revguard.Cases.Concurrency.{second_writer_loses}
use revguard.Cases.History.{
  history, Writes, done, more, transition, create, IsLogged, audit_is_history,
  executing_case_was_reviewed,
}

abbrev fresh : Case
fresh = record {
  case_id = 7;
  status = known CaseStatus.created;
  recording_id = none;
  state_version = none;
  case_revision = 0;
  updated_at = 0;
  team_run = none;
  recovery_generation = 0;
  recovery_phase = none;
  approval_required = false;
  body = 0;
}

abbrev opened : Database
opened = (save_case fresh empty).database

abbrev stored : Case
stored = record fresh { case_revision = 1 }

abbrev first : Database
first = (transition_case Actor.orchestrator CaseStatus.normalizing 1 10 100 stored opened).database

test_opened : lookup 7 opened.cases ≡ some stored
unfolding save_case
test_opened = refl

test_first :
    lookup 7 first.cases
    ≡ some (record stored {
      status = known CaseStatus.normalizing;
      updated_at = 10;
      state_version = some 100;
      case_revision = 2;
    })
unfolding save_case transition_case is_allowed
test_first = refl

test_stale :
    (transition_case Actor.orchestrator CaseStatus.failed 1 11 101 stored first).error
    ≡ some stale_case_transition
unfolding save_case transition_case is_allowed
test_stale = refl

test_illegal :
    (transition_case Actor.orchestrator CaseStatus.executing 1 11 101 stored opened).error
    ≡ some invalid_state_transition
unfolding save_case transition_case is_allowed
test_illegal = refl

transition_case-commits_iff_example :
    Permits stored.status CaseStatus.normalizing × IsCurrent stored opened
unfolding save_case transition_case is_allowed
transition_case-commits_iff_example =
    (transition_case-commits_iff Actor.orchestrator CaseStatus.normalizing 1 10 100 stored opened).0
      refl

second_writer_loses_example :
    let rival = transition_case Actor.risk CaseStatus.failed 2 11 101 stored first in
    (rival.error ≢ none)
    × (rival.database ≡ first)
    × ((save_case stored first).error ≢ none)
    × ((save_case stored first).database ≡ first)
second_writer_loses_example =
    second_writer_loses Actor.orchestrator CaseStatus.normalizing 1 10 100 stored opened Actor.risk
      CaseStatus.failed 2 11 101 stored (unfold save_case transition_case is_allowed in refl) refl
      refl

empty-IsLogged : IsLogged empty
empty-IsLogged id = refl

opening : Writes empty first
opening =
    more first (more opened done (create fresh empty refl refl))
      (transition Actor.orchestrator CaseStatus.normalizing 1 10 100 stored opened)

audit_is_history_example : IsLogged first
audit_is_history_example = audit_is_history opening empty-IsLogged

-- The row and the tables of a case that went through the listed statuses, the newest first.
abbrev row_at : CaseStatus → ℕ → Case
row_at s n = record fresh {
  status = known s;
  state_version = some n;
  updated_at = n;
  case_revision = n;
}

abbrev log_at : List CaseStatus → List Event
log_at [] = []
log_at (t ∷ []) = []
log_at (t ∷ s ∷ l) =
    record { case_id = 7; actor = Actor.orchestrator; detail = state_transition s t 1 }
    ∷ log_at (s ∷ l)

abbrev db_at : List CaseStatus → Database
db_at [] = empty
db_at (s ∷ l) = record empty { cases = (7, row_at s (length (s ∷ l))) ∷ []; audit = log_at (s ∷ l) }

abbrev at_created : List CaseStatus
at_created = CaseStatus.created ∷ []

abbrev at_normalizing : List CaseStatus
at_normalizing = CaseStatus.normalizing ∷ at_created

abbrev at_evidence_collecting : List CaseStatus
at_evidence_collecting = CaseStatus.evidence_collecting ∷ at_normalizing

abbrev at_policy_matching : List CaseStatus
at_policy_matching = CaseStatus.policy_matching ∷ at_evidence_collecting

abbrev at_calculating : List CaseStatus
at_calculating = CaseStatus.calculating ∷ at_policy_matching

abbrev at_root_cause_analyzing : List CaseStatus
at_root_cause_analyzing = CaseStatus.root_cause_analyzing ∷ at_calculating

abbrev at_risk_review : List CaseStatus
at_risk_review = CaseStatus.risk_review ∷ at_root_cause_analyzing

abbrev at_ready_to_execute : List CaseStatus
at_ready_to_execute = CaseStatus.ready_to_execute ∷ at_risk_review

abbrev at_executing : List CaseStatus
at_executing = CaseStatus.executing ∷ at_ready_to_execute

to_created : Writes empty (db_at at_created)
unfolding save_case
to_created =
    more _ done (create (record fresh { state_version = some 1; updated_at = 1 }) empty refl refl)

to_normalizing : Writes empty (db_at at_normalizing)
unfolding transition_case is_allowed
to_normalizing = more _ to_created (
    transition Actor.orchestrator CaseStatus.normalizing 1 2 2 (row_at CaseStatus.created 1)
      (db_at at_created))

to_evidence_collecting : Writes empty (db_at at_evidence_collecting)
unfolding transition_case is_allowed
to_evidence_collecting = more _ to_normalizing (
    transition Actor.orchestrator CaseStatus.evidence_collecting 1 3 3
      (row_at CaseStatus.normalizing 2) (db_at at_normalizing))

to_policy_matching : Writes empty (db_at at_policy_matching)
unfolding transition_case is_allowed
to_policy_matching = more _ to_evidence_collecting (
    transition Actor.orchestrator CaseStatus.policy_matching 1 4 4
      (row_at CaseStatus.evidence_collecting 3) (db_at at_evidence_collecting))

to_calculating : Writes empty (db_at at_calculating)
unfolding transition_case is_allowed
to_calculating = more _ to_policy_matching (
    transition Actor.orchestrator CaseStatus.calculating 1 5 5 (row_at CaseStatus.policy_matching 4)
      (db_at at_policy_matching))

to_root_cause_analyzing : Writes empty (db_at at_root_cause_analyzing)
unfolding transition_case is_allowed
to_root_cause_analyzing = more _ to_calculating (
    transition Actor.orchestrator CaseStatus.root_cause_analyzing 1 6 6
      (row_at CaseStatus.calculating 5) (db_at at_calculating))

to_risk_review : Writes empty (db_at at_risk_review)
unfolding transition_case is_allowed
to_risk_review = more _ to_root_cause_analyzing (
    transition Actor.orchestrator CaseStatus.risk_review 1 7 7
      (row_at CaseStatus.root_cause_analyzing 6) (db_at at_root_cause_analyzing))

to_ready_to_execute : Writes empty (db_at at_ready_to_execute)
unfolding transition_case is_allowed
to_ready_to_execute = more _ to_risk_review (
    transition Actor.orchestrator CaseStatus.ready_to_execute 1 8 8
      (row_at CaseStatus.risk_review 7) (db_at at_risk_review))

to_executing : Writes empty (db_at at_executing)
unfolding transition_case is_allowed
to_executing = more _ to_ready_to_execute (
    transition Actor.orchestrator CaseStatus.executing 1 9 9 (row_at CaseStatus.ready_to_execute 8)
      (db_at at_ready_to_execute))

executing_case_was_reviewed_example :
    Enters CaseStatus.risk_review (history 7 (log_at at_executing))
    ⊎ Enters CaseStatus.failed (history 7 (log_at at_executing))
executing_case_was_reviewed_example =
    executing_case_was_reviewed 7 (row_at CaseStatus.executing 9) to_executing empty-IsLogged refl
      refl
