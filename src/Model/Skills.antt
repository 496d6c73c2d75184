-- ===== src/Model/Skills.antt =====
-- The skills that tasks are made of (`SKILL_REGISTRY`, `SKILL_ACTORS`, revguard/skill_runtime.py).
pub data Skill : Type 0 where
  case_normalize entity_resolve evidence_collect policy_version_match commission_calculate
        difference_explain risk_classify approval_route permission_check idempotency_guard
        adjustment_draft ledger_adjust ledger_reverse post_action_verify post_rollback_verify
        case_to_dataset :
      Skill
