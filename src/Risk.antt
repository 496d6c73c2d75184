-- ===== src/Risk.antt =====
-- Risk grading and approval routing (revguard/risk.py; `RiskDecision` of revguard/models.py).
-- Amounts count hundredths of the currency unit. An evidence score counts hundredths: the score that
-- the evidence stage computes is rounded to two places.
pub mod Levels
mod Examples
use revguard.Base.{
  ℕ, ◌<◌, Bool, true, false, not, ◌&&◌, ◌||◌, Option, none, some, List, [], ◌∷◌, ◌++◌, ◌==◌, ltb,
  leb, if◌then◌else◌,
}
use revguard.Base.Int.{ℤ, pos, abs_ℤ, ltb_ℤ}
use revguard.Model.Status.{RiskLevel, l0, l1, l2, l3}

-- `action_type`; `other` is any other text.
pub data ActionType : Type 0 where
  readonly draft ledger_adjust ledger_reverse batch : ActionType
  other : ℕ → ActionType

abbrev pub is_readonly : ActionType → Bool
is_readonly ActionType.readonly = true
is_readonly _ = false

abbrev pub is_batch : ActionType → Bool
is_batch ActionType.batch = true
is_batch _ = false

pub data ApproverRole : Type 0 where
  finance_lead finance_head_and_ops_head : ApproverRole

-- `reason_codes`, with the numbers that they print.
pub data ReasonCode : Type 0 where
  readonly_or_zero_amount policy_conflict batch_operation negative_adjustment_requires_approval
        requires_human_approval :
      ReasonCode
  evidence_score_below_min evidence_score_ok evidence_score_below_auto : ℕ → ReasonCode
  amount_exceeds amount_within : ℕ → ReasonCode

-- `execution_constraints`: what `write` says, with the maximal amount where one is given.
pub data WriteConstraint : Type 0 where
  no_write : WriteConstraint
  no_auto_execute : WriteConstraint
  draft_only : ℕ → WriteConstraint
  write_with_approval : ℕ → WriteConstraint

pub record RiskDecision : Type 0 where
  pub risk_level : RiskLevel
  pub approval_required : Bool
  pub approver_role : Option ApproverRole
  pub execution_constraints : WriteConstraint
  pub rollback_plan_required : Bool
  pub reason_codes : List ReasonCode

abbrev pub l1_auto_draft_max : ℕ
l1_auto_draft_max = 500000

abbrev pub l2_approval_max : ℕ
l2_approval_max = 5000000

abbrev pub evidence_score_auto : ℕ
evidence_score_auto = 90

abbrev pub evidence_score_min : ℕ
evidence_score_min = 60

abbrev pub append_if : Bool → ReasonCode → List ReasonCode → List ReasonCode
append_if true code l = l ++ code ∷ []
append_if false code l = l

-- `hard_l3`
pub hard_l3 : ActionType → ℕ → ℕ → Bool → ℕ → List ReasonCode
hard_l3 action amount score conflict orders =
    append_if (ltb 1 orders || is_batch action) ReasonCode.batch_operation (
      append_if (ltb l2_approval_max amount) (amount_exceeds l2_approval_max) (
        append_if (ltb score evidence_score_min) (evidence_score_below_min score)
          (append_if conflict ReasonCode.policy_conflict [])))

abbrev pub is_empty {ℓ} : {A : Type ℓ} → List A → Bool
is_empty [] = true
is_empty (x ∷ xs) = false

-- The grades below L3.
pub classify_soft : Bool → ℕ → ℕ → RiskDecision
classify_soft negative amount score =
    let reasons = append_if negative ReasonCode.negative_adjustment_requires_approval [] in
    if not negative && leb amount l1_auto_draft_max && leb evidence_score_auto score
    then record {
      risk_level = l1;
      approval_required = false;
      approver_role = none;
      execution_constraints = draft_only l1_auto_draft_max;
      rollback_plan_required = true;
      reason_codes = reasons ++ amount_within l1_auto_draft_max ∷ evidence_score_ok score ∷ [];
    }
    else record {
      risk_level = l2;
      approval_required = true;
      approver_role = some ApproverRole.finance_lead;
      execution_constraints = write_with_approval l2_approval_max;
      rollback_plan_required = true;
      reason_codes =
          append_if (ltb score evidence_score_auto) (evidence_score_below_auto score)
            (reasons ++ ReasonCode.requires_human_approval ∷ []);
    }

unfoldable pub classify_risk : ActionType → ℤ → ℕ → Bool → ℕ → RiskDecision
unfolding hard_l3 classify_soft
classify_risk action adjustment score conflict orders =
    let amount = abs_ℤ adjustment in
    let hard = hard_l3 action amount score conflict orders in
    if is_readonly action || amount == 0
    then record {
      risk_level = l0;
      approval_required = false;
      approver_role = none;
      execution_constraints = no_write;
      rollback_plan_required = false;
      reason_codes = ReasonCode.readonly_or_zero_amount ∷ [];
    }
    else if not (is_empty hard)
    then record {
      risk_level = l3;
      approval_required = true;
      approver_role = some ApproverRole.finance_head_and_ops_head;
      execution_constraints = no_auto_execute;
      rollback_plan_required = true;
      reason_codes = hard;
    }
    else classify_soft (ltb_ℤ adjustment (pos 0)) amount score
