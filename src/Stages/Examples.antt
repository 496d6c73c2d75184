-- ===== src/Stages/Examples.antt =====
-- A stage that commits, one that is stale, and the theorem at its values.
use revguard.Base.{false, ◌≡◌, ◌≢◌, ◌↔◌, refl, true, none, some, [], ◌∷◌}
use revguard.Model.Status.{CaseStatus, known}
use revguard.Model.Errors.{stale_case_transition, value_error}
use revguard.Model.Actors.{Actor}
use revguard.Model.Tables.{Case, TeamRun, in_progress, execution_phase, Database}
use revguard.Model.Samples.{empty}
use revguard.Cases.{locked_case, save_case_with_conn, versioned_case_write}
use revguard.Cases.Guards.{IsCurrent}
use revguard.Stages.{
  Stage, all_belong, stage_writes, commit_case_stage, run_writes, update_case_run,
}
use revguard.Stages.Commits.{MayMove, stage_commits_iff}

abbrev case : Case
case = record {
  case_id = 7;
  status = known CaseStatus.calculating;
  recording_id = none;
  state_version = some 1;
  case_revision = 4;
  updated_at = 0;
  team_run = none;
  recovery_generation = 0;
  recovery_phase = none;
  approval_required = false;
  body = 55;
}

abbrev run : TeamRun
run = record {
  run_id = some 1;
  status = some in_progress;
  phase = some execution_phase;
  updated_at = 9;
  error = none;
  cancelled_task_ids = [];
  body = 6;
}

abbrev start : Database
start = record empty { cases = (7, case) ∷ [] }

abbrev stage : Stage
stage = record {
  evidence = record { projection_id = 1; case_id = 7; body = 3 } ∷ [];
  approval = none;
  execution = none;
  verification = some 2;
  to = none;
  reason = 0;
  audit_entry = some (Actor.calculation, 5);
}

test_commit : (commit_case_stage stage 9 9 case start).error ≡ none
unfolding commit_case_stage stage_writes locked_case save_case_with_conn versioned_case_write
test_commit = refl

-- A coordinator that read an older revision.
test_stale :
    (commit_case_stage stage 9 9 (record case { case_revision = 3 }) start).error
    ≡ some stale_case_transition
unfolding commit_case_stage stage_writes locked_case
test_stale = refl

-- Evidence of another case.
test_foreign :
    (commit_case_stage
      (record stage { evidence = record { projection_id = 1; case_id = 8; body = 3 } ∷ [] })
      9
      9
      case
      start).error
    ≡ some value_error
unfolding commit_case_stage stage_writes
test_foreign = refl

-- The progress of the run reaches the caller's copy with the new revision.
test_run :
    (update_case_run (λ old. run) case start).caller
    ≡ record case { team_run = some run; case_revision = 5 }
unfolding update_case_run run_writes locked_case save_case_with_conn versioned_case_write
test_run = refl

stage_commits_iff_example :
    (((commit_case_stage stage 9 9 case start).error ≡ none)
      ↔ ((all_belong 7 stage ≡ true) × IsCurrent case start × MayMove case none))
    × ((commit_case_stage stage 9 9 case start).error ≢ none
        → ((commit_case_stage stage 9 9 case start).caller ≡ case)
          × ((commit_case_stage stage 9 9 case start).database ≡ start))
stage_commits_iff_example = stage_commits_iff stage 9 9 case start
