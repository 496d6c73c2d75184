-- ===== src/Lifecycle.antt =====
-- The whitelist of case transitions (revguard/state_machine.py: `ALLOWED_TRANSITIONS`,
-- `_FAILURE_SOURCES`, and the guard of `persist_case_transition`).
pub mod Paths
mod Examples
use revguard.Base.{Bool, true, false, ◌&&◌, ◌||◌, not, List, [], ◌∷◌, any}
use revguard.Model.Status.{CaseStatus, case_status_eq}

pub allowed_transitions : CaseStatus → List CaseStatus
allowed_transitions CaseStatus.created = CaseStatus.normalizing ∷ []
allowed_transitions CaseStatus.normalizing =
    CaseStatus.evidence_collecting ∷ CaseStatus.waiting_for_evidence ∷ []
allowed_transitions CaseStatus.evidence_collecting =
    CaseStatus.policy_matching ∷ CaseStatus.waiting_for_evidence ∷ []
allowed_transitions CaseStatus.waiting_for_evidence = CaseStatus.normalizing ∷ []
allowed_transitions CaseStatus.policy_matching = CaseStatus.calculating ∷ []
allowed_transitions CaseStatus.calculating = CaseStatus.root_cause_analyzing ∷ []
allowed_transitions CaseStatus.root_cause_analyzing = CaseStatus.risk_review ∷ []
allowed_transitions CaseStatus.risk_review =
    CaseStatus.resolved ∷ CaseStatus.waiting_for_approval ∷ CaseStatus.ready_to_execute
    ∷ CaseStatus.closed ∷ []
allowed_transitions CaseStatus.waiting_for_approval =
    CaseStatus.ready_to_execute ∷ CaseStatus.rejected ∷ []
allowed_transitions CaseStatus.ready_to_execute = CaseStatus.executing ∷ []
allowed_transitions CaseStatus.executing = CaseStatus.verifying ∷ CaseStatus.resolved ∷ []
allowed_transitions CaseStatus.verifying = CaseStatus.resolved ∷ CaseStatus.rollback_required ∷ []
allowed_transitions CaseStatus.resolved = CaseStatus.knowledge_archived ∷ []
allowed_transitions CaseStatus.rollback_required = CaseStatus.rolled_back ∷ []
allowed_transitions CaseStatus.rejected = CaseStatus.knowledge_archived ∷ []
allowed_transitions CaseStatus.knowledge_archived = CaseStatus.closed ∷ []
allowed_transitions CaseStatus.rolled_back = []
allowed_transitions CaseStatus.closed = []
allowed_transitions CaseStatus.failed =
    CaseStatus.rollback_required ∷ CaseStatus.recovery_required ∷ []
allowed_transitions CaseStatus.recovery_required =
    CaseStatus.executing ∷ CaseStatus.rollback_required ∷ []

-- `status in members`
abbrev pub is_member : CaseStatus → List CaseStatus → Bool
is_member s = any (case_status_eq s)

-- `old in _FAILURE_SOURCES`
pub is_failure_source : CaseStatus → Bool
is_failure_source s =
    not (is_member s (CaseStatus.rolled_back ∷ CaseStatus.closed ∷ CaseStatus.failed ∷ []))

-- `recovery` in `persist_case_transition`
pub is_recovery : CaseStatus → CaseStatus → Bool
is_recovery old to =
    case_status_eq to CaseStatus.recovery_required
    && is_member old
        (CaseStatus.executing ∷ CaseStatus.verifying ∷ CaseStatus.rollback_required ∷ [])

-- `allowed` in `persist_case_transition`
unfoldable pub is_allowed : CaseStatus → CaseStatus → Bool
unfolding allowed_transitions is_failure_source is_recovery
is_allowed old to =
    is_recovery old to
    || is_member to (allowed_transitions old)
    || (case_status_eq to CaseStatus.failed && is_failure_source old)
