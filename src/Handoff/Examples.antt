-- ===== src/Handoff/Examples.antt =====
-- A case that waits for approval, and is rejected.
use revguard.Base.{◌≡◌, refl, true, false, none, some, [], ◌∷◌, Bool}
use revguard.Base.Int.{pos}
use revguard.Model.Status.{CaseStatus, known, TaskStatus}
use revguard.Model.Actors.{Actor}
use revguard.Model.Skills.{Skill}
use revguard.Model.Errors.{ok, err, security_error, stale_case_transition}
use revguard.Model.Money.{Approval, pending, rejected}
use revguard.Model.Samples.{empty, no_state}
use revguard.Model.Tables.{
  Case, Task, Database, agent_tasks_cancelled, state_transition, approval_decided,
}
use revguard.Access.{authorize_tool, allowed_scopes}
use revguard.Cases.{locked_case, save_case_with_conn, versioned_case_write, persist_case_transition}
use revguard.Lifecycle.{is_allowed}
use revguard.Gateway.{Env}
use revguard.Approvals.{decide_approval}
use revguard.Tasks.Lifecycle.{cancel_open_agent_tasks}
use revguard.Recovery.{has_status}
use revguard.Handoff.{
  Decision, decision_receipt, hand_over, approval_rejected, decide_case_approval,
}
use revguard.Handoff.Decided.{HasOutcome, decision_settles_case}

abbrev case : CaseStatus → Case
case s = record {
  case_id = 7;
  status = known s;
  recording_id = none;
  state_version = some 1;
  case_revision = 4;
  updated_at = 0;
  team_run = none;
  recovery_generation = 0;
  recovery_phase = none;
  approval_required = true;
  body = 55;
}

abbrev task : Task
task = record {
  task_id = 30;
  case_id = 7;
  status = TaskStatus.running;
  attempt = 1;
  case_version = 55;
  skill_name = Skill.commission_calculate;
  assigned_actor = Actor.calculation;
  case_status = known CaseStatus.risk_review;
  input = 3;
  result = none;
  skill_receipt = none;
  error = none;
  metadata = [];
  matrix_retry_event_ids = [];
  replaced_by_task_id = none;
  supersedes_task_id = none;
  cancellation_reason = none;
}

abbrev approval : Approval
approval = record {
  approval_id = 40;
  case_id = 7;
  action_summary = 1;
  amount = pos 100;
  component_quota = (2, pos 100) ∷ [];
  currency = 3;
  risk_level = 2;
  status = pending;
  release_version = none;
  parameters_digest = none;
  approver_role = 1;
  approver = none;
  approval_token = none;
  remaining_component_quota = none;
}

abbrev decided : Approval
decided = record approval { status = rejected; approver = some Actor.finance_lead }

abbrev start : CaseStatus → Database
start s = record empty {
  cases = (7, case s) ∷ [];
  tasks = (30, task) ∷ [];
  state = record no_state { approvals = (40, approval) ∷ [] };
}

abbrev env : Env
env = record {
  open_token = λ t. none;
  seal = λ p. [];
  digest = λ m. 0;
  amount_scale = 0;
  issuer = 5;
  now = 1000;
  release = none;
  require_references = false;
  tamper_amount = pos 0;
  tamper_targets = λ _. false;
}

abbrev decision : Actor → Decision
decision who = record {
  approval_id = 40;
  verdict = some false;
  actor = who;
  subject = 11;
  assertion_ref = 12;
  token = 13;
  receipt = 14;
  now = 20;
  version = 21;
  document = λ a assertion. assertion;
  in_team = λ c. true;
}

abbrev closed : Case
closed = record (case CaseStatus.rejected) {
  state_version = some 21;
  case_revision = 5;
  updated_at = 20;
}

abbrev after : Database
after = record (start CaseStatus.waiting_for_approval) {
  cases = (7, closed) ∷ [];
  tasks =
      (
        30,
        record task { status = TaskStatus.cancelled; cancellation_reason = some approval_rejected },
      )
      ∷ [];
  approvals = (40, record { projection_id = 40; case_id = 7; body = 12 }) ∷ [];
  state = record no_state {
    approvals = (40, decided) ∷ [];
    receipts = decision_receipt (decision Actor.finance_lead) 7 ∷ [];
  };
  audit =
      record {
        case_id = 7;
        actor = Actor.finance_lead;
        detail =
            state_transition CaseStatus.waiting_for_approval CaseStatus.rejected approval_rejected;
      }
      ∷ record {
        case_id = 7;
        actor = Actor.finance_lead;
        detail = agent_tasks_cancelled (30 ∷ []) approval_rejected;
      }
      ∷ record { case_id = 7; actor = Actor.finance_lead; detail = approval_decided false 11 12 }
      ∷ [];
}

deciding :
    decide_case_approval env
      (decision Actor.finance_lead)
      (case CaseStatus.waiting_for_approval)
      (start CaseStatus.waiting_for_approval)
    ≡ ok (closed, after)
unfolding decide_case_approval decide_approval hand_over cancel_open_agent_tasks authorize_tool
    allowed_scopes locked_case save_case_with_conn versioned_case_write persist_case_transition
    is_allowed
deciding = refl

-- The executor has no scope to decide, and a case that does not wait is not decided.
test_executor :
    decide_case_approval env
      (decision Actor.executor)
      (case CaseStatus.waiting_for_approval)
      (start CaseStatus.waiting_for_approval)
    ≡ err security_error
unfolding decide_case_approval authorize_tool allowed_scopes
test_executor = refl

test_early :
    decide_case_approval env
      (decision Actor.finance_lead)
      (case CaseStatus.risk_review)
      (start CaseStatus.risk_review)
    ≡ err stale_case_transition
unfolding decide_case_approval authorize_tool allowed_scopes locked_case
test_early = refl

decision_settles_case_example :
    (verdict : Bool) × (some false ≡ some verdict)
    × (has_status (known CaseStatus.waiting_for_approval) (CaseStatus.waiting_for_approval ∷ [])
        ≡ true)
    × HasOutcome verdict (case CaseStatus.waiting_for_approval) (closed, after)
decision_settles_case_example =
    decision_settles_case env (decision Actor.finance_lead) (case CaseStatus.waiting_for_approval)
      (start CaseStatus.waiting_for_approval) (closed, after) deciding
