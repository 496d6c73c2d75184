-- ===== src/Model/Actors.antt =====
-- The server-side identities and the tools of revguard/security.py.
use revguard.Base.{ℕ, Bool, ◌==◌, ◌+◌}

-- The keys of `ACTOR_ALLOWED_SCOPES`; `stranger` is any other text.
pub data Actor : Type 0 where
  orchestrator intake evidence policy calculation rootcause risk executor verifier knowledge
        finance_lead api_operator api_viewer agentteams_worker :
      Actor
  stranger : ℕ → Actor

abbrev pub actor_index : Actor → ℕ
actor_index Actor.orchestrator = 0
actor_index Actor.intake = 1
actor_index Actor.evidence = 2
actor_index Actor.policy = 3
actor_index Actor.calculation = 4
actor_index Actor.rootcause = 5
actor_index Actor.risk = 6
actor_index Actor.executor = 7
actor_index Actor.verifier = 8
actor_index Actor.knowledge = 9
actor_index Actor.finance_lead = 10
actor_index Actor.api_operator = 11
actor_index Actor.api_viewer = 12
actor_index Actor.agentteams_worker = 13
actor_index (Actor.stranger n) = 14 + n

abbrev pub actor_eq : Actor → Actor → Bool
actor_eq a b = actor_index a == actor_index b

-- The keys of `TOOL_REQUIRED_SCOPES`; `unregistered` is any other text.
pub data Tool : Type 0 where
  get_order get_partner get_partner_tier_history list_orders_by_partner get_contract
        get_effective_terms search_versions get_rule_dsl get_payment get_refund get_invoice
        get_commission_ledger create_adjustment_draft submit_adjustment reverse_adjustment
        create_approval get_approval_status decide_approval renew_approval_capability
        renew_rollback_capability update_case create_reply_draft :
      Tool
  unregistered : ℕ → Tool
