-- ===== src/Handoff.antt =====
-- A human decision on an approval and the handoff of its case, in one transaction
-- (revguard/mocks.py: `decide_case_approval`). A raised error leaves the database as it was.
pub mod Decided
mod Examples
use revguard.Base.{
  ℕ, Bool, true, false, not, ◌&&◌, Option, none, some, [], ◌∷◌, ◌++◌, lookup, insert, if◌then◌else◌,
  ◌==◌,
}
use revguard.Model.Status.{CaseStatus}
use revguard.Model.Errors.{
  Result, ok, err, ◌>>=◌, ◌>>◌, raise_if, or_raise, tool_error, invalid_params, auth_failed,
  stale_case_transition,
}
use revguard.Model.Actors.{Actor, decide_approval as decision_tool}
use revguard.Model.Money.{Approval, Receipt, GatewayState}
use revguard.Model.Tables.{
  Case, TeamRun, queued, execution_phase, Projection, Database, approval_decided,
}
use revguard.Access.{authorize_tool, approval_decide}
use revguard.Cases.{audit, locked_case, persist_case_transition}
use revguard.Tasks.Lifecycle.{cancel_open_agent_tasks}
use revguard.Gateway.{Env}
use revguard.Gateway.Submission.{is_approved}
use revguard.Approvals.{decide_approval}
use revguard.Recovery.{has_status, run_of}
use revguard.Recovery.Resume.{same_case}

-- The parameters of a decision: `verdict` is none where the text is neither APPROVED nor REJECTED,
-- `document` the JSON of the decided approval with its assertion, `in_team` whether agents execute
-- the case.
pub record Decision : Type 0 where
  pub approval_id : ℕ
  pub verdict : Option Bool
  pub actor : Actor
  pub subject : ℕ
  pub assertion_ref : ℕ
  pub token : ℕ
  pub receipt : ℕ
  pub now : ℕ
  pub version : ℕ
  pub document : Approval → ℕ → ℕ
  pub in_team : Case → Bool

abbrev pub is_of_case : ℕ → Option Approval → Bool
is_of_case case_id none = false
is_of_case case_id (some a) = a.case_id == case_id

abbrev pub decision_receipt : Decision → ℕ → Receipt
decision_receipt d case_id = record {
  tool_receipt = d.receipt;
  tool_name = some decision_tool;
  case_id = case_id;
  is_success = true;
  order_id = none;
  partner_id = none;
  currency = none;
  fact_digest = none;
}

-- The writes before the transition: the gateway's image, the row of the approval, and the event.
abbrev pub record_decision : Decision → ℕ → Approval → GatewayState → Database → Database
record_decision d case_id decided state db =
    let row : Projection = record {
      projection_id = decided.approval_id;
      case_id = decided.case_id;
      body = d.document decided d.assertion_ref;
    } in
    audit case_id d.actor (approval_decided (is_approved decided.status) d.subject d.assertion_ref)
      (record db {
        state = record state {
          approvals = insert decided.approval_id decided state.approvals;
          receipts = state.receipts ++ (decision_receipt d case_id ∷ []);
        };
        approvals = insert decided.approval_id row db.approvals;
      })

-- `approval_rejected`, `approval_passed`: the texts of the reasons.
abbrev pub approval_passed : ℕ
approval_passed = 8

abbrev pub approval_rejected : ℕ
approval_rejected = 9

-- An approved case of a team is queued for execution. The number of its tasks, its stage and the time,
-- which no guard reads, are left out.
abbrev pub handed_over : Decision → Case → Case
handed_over d c =
    if d.in_team c
    then record c {
      team_run = some (record (run_of c.team_run) {
        status = some queued;
        phase = some execution_phase;
        updated_at = d.now;
        error = none;
      });
    }
    else c

-- The handoff, by whether the decided approval is approved.
unfoldable pub hand_over : Decision → Bool → Case → Database → Result (Case × Database)
hand_over d true c db =
    persist_case_transition d.actor CaseStatus.ready_to_execute approval_passed d.now d.version
      (handed_over d c) db
hand_over d false c db =
    persist_case_transition d.actor CaseStatus.rejected approval_rejected d.now d.version c
      (cancel_open_agent_tasks c.case_id d.actor approval_rejected db).1

-- `decide_case_approval`: the caller's case and the database after the commit.
unfoldable pub decide_case_approval : Env → Decision → Case → Database → Result (Case × Database)
unfolding locked_case authorize_tool decide_approval hand_over
decide_case_approval env d c db = do
  _ ← authorize_tool d.actor (approval_decide ∷ []) decision_tool
  verdict ← or_raise d.verdict (tool_error invalid_params)
  raise_if
      (not (
        same_case (locked_case db c.case_id) c
        && has_status c.status (CaseStatus.waiting_for_approval ∷ [])))
      stale_case_transition
  raise_if (not (is_of_case c.case_id (lookup d.approval_id db.state.approvals)))
      (tool_error auth_failed)
  let (reply, state) = decide_approval env d.token d.actor d.approval_id verdict db.state
  decided ← reply
  hand_over d (is_approved decided.status) c (record_decision d c.case_id decided state db)
