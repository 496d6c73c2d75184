-- ===== src/Model/Status.antt =====
-- The enumerations of revguard/models.py. A `StrEnum` member is compared by its text, so equality
-- is that of the position in the enumeration.
use revguard.Base.{ℕ, Bool, false, ◌==◌}

pub data CaseStatus : Type 0 where
  created normalizing evidence_collecting waiting_for_evidence policy_matching calculating
        root_cause_analyzing risk_review waiting_for_approval ready_to_execute executing verifying
        resolved rollback_required rolled_back rejected knowledge_archived closed recovery_required
        failed :
      CaseStatus

abbrev pub case_status_index : CaseStatus → ℕ
case_status_index CaseStatus.created = 0
case_status_index CaseStatus.normalizing = 1
case_status_index CaseStatus.evidence_collecting = 2
case_status_index CaseStatus.waiting_for_evidence = 3
case_status_index CaseStatus.policy_matching = 4
case_status_index CaseStatus.calculating = 5
case_status_index CaseStatus.root_cause_analyzing = 6
case_status_index CaseStatus.risk_review = 7
case_status_index CaseStatus.waiting_for_approval = 8
case_status_index CaseStatus.ready_to_execute = 9
case_status_index CaseStatus.executing = 10
case_status_index CaseStatus.verifying = 11
case_status_index CaseStatus.resolved = 12
case_status_index CaseStatus.rollback_required = 13
case_status_index CaseStatus.rolled_back = 14
case_status_index CaseStatus.rejected = 15
case_status_index CaseStatus.knowledge_archived = 16
case_status_index CaseStatus.closed = 17
case_status_index CaseStatus.recovery_required = 18
case_status_index CaseStatus.failed = 19

abbrev pub case_status_eq : CaseStatus → CaseStatus → Bool
case_status_eq s t = case_status_index s == case_status_index t

-- What the `status` field of a stored case holds: a member, or a text that is none.
pub data StatusText : Type 0 where
  known : CaseStatus → StatusText
  unknown : ℕ → StatusText

abbrev pub status_text_eq : StatusText → StatusText → Bool
status_text_eq (known s) (known t) = case_status_eq s t
status_text_eq (unknown a) (unknown b) = a == b
status_text_eq _ _ = false

pub data TaskStatus : Type 0 where
  pending running waiting_tool waiting_human succeeded result_unknown failed_retryable failed_final
        cancelled :
      TaskStatus

-- `status` of `money_operations`.
pub data OperationStatus : Type 0 where
  prepared committed not_committed result_unknown : OperationStatus

pub data RiskLevel : Type 0 where
  l0 l1 l2 l3 : RiskLevel
