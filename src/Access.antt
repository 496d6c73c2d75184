-- ===== src/Access.antt =====
-- The scopes of tools and actors, and `authorize_tool` (revguard/security.py).
pub mod Duties
mod Examples
use revguard.Base.{ℕ, Bool, not, Option, none, some, List, [], ◌∷◌, any, ◌==◌}
use revguard.Model.Errors.{Result, ok, err, ◌>>=◌, ◌>>◌, raise_if, or_raise, security_error}
use revguard.Model.Actors.{
  Actor, Tool, get_order, get_partner, get_partner_tier_history, list_orders_by_partner,
  get_contract, get_effective_terms, search_versions, get_rule_dsl, get_payment, get_refund,
  get_invoice, get_commission_ledger, create_adjustment_draft, submit_adjustment,
  reverse_adjustment, create_approval, get_approval_status, decide_approval,
  renew_approval_capability, renew_rollback_capability, update_case, create_reply_draft,
  unregistered,
}

pub data Scope : Type 0 where
  order_read partner_read contract_read policy_read payment_read ledger_read commission_draft
        commission_write commission_reverse approval_write approval_read approval_decide
        ticket_write mail_draft :
      Scope

abbrev pub scope_index : Scope → ℕ
scope_index order_read = 0
scope_index partner_read = 1
scope_index contract_read = 2
scope_index policy_read = 3
scope_index payment_read = 4
scope_index ledger_read = 5
scope_index commission_draft = 6
scope_index commission_write = 7
scope_index commission_reverse = 8
scope_index approval_write = 9
scope_index approval_read = 10
scope_index approval_decide = 11
scope_index ticket_write = 12
scope_index mail_draft = 13

-- `scope in scopes`
abbrev pub has_scope : Scope → List Scope → Bool
has_scope s = any (λ t. scope_index s == scope_index t)

-- `TOOL_REQUIRED_SCOPES.get(tool_name)`
pub required_scope : Tool → Option Scope
required_scope get_order = some order_read
required_scope get_partner = some partner_read
required_scope get_partner_tier_history = some partner_read
required_scope list_orders_by_partner = some order_read
required_scope get_contract = some contract_read
required_scope get_effective_terms = some contract_read
required_scope search_versions = some policy_read
required_scope get_rule_dsl = some policy_read
required_scope get_payment = some payment_read
required_scope get_refund = some payment_read
required_scope get_invoice = some payment_read
required_scope get_commission_ledger = some ledger_read
required_scope create_adjustment_draft = some commission_draft
required_scope submit_adjustment = some commission_write
required_scope reverse_adjustment = some commission_reverse
required_scope create_approval = some approval_write
required_scope get_approval_status = some approval_read
required_scope decide_approval = some approval_decide
required_scope renew_approval_capability = some approval_decide
required_scope renew_rollback_capability = some approval_decide
required_scope update_case = some ticket_write
required_scope create_reply_draft = some mail_draft
required_scope (unregistered n) = none

abbrev pub fact_scopes : List Scope
fact_scopes =
    order_read ∷ partner_read ∷ contract_read ∷ policy_read ∷ payment_read ∷ ledger_read ∷ []

-- `ACTOR_ALLOWED_SCOPES.get(actor)`
unfoldable pub allowed_scopes : Actor → Option (List Scope)
allowed_scopes Actor.orchestrator = some []
allowed_scopes Actor.intake = some (partner_read ∷ order_read ∷ ticket_write ∷ [])
allowed_scopes Actor.evidence = some fact_scopes
allowed_scopes Actor.policy = some (policy_read ∷ partner_read ∷ [])
allowed_scopes Actor.calculation = some (order_read ∷ [])
allowed_scopes Actor.rootcause = some []
allowed_scopes Actor.risk = some (approval_write ∷ approval_read ∷ [])
allowed_scopes Actor.executor = some (commission_draft ∷ commission_write ∷ commission_reverse ∷ [])
allowed_scopes Actor.verifier = some (ledger_read ∷ [])
allowed_scopes Actor.knowledge = some (ticket_write ∷ mail_draft ∷ [])
allowed_scopes Actor.finance_lead = some (approval_read ∷ approval_decide ∷ [])
allowed_scopes Actor.api_operator = some []
allowed_scopes Actor.api_viewer = some []
allowed_scopes Actor.agentteams_worker = some fact_scopes
allowed_scopes (Actor.stranger n) = none

-- A claimed text that is no scope of a tool never counts, and is left out of `claimed`.
unfoldable pub authorize_tool : Actor → List Scope → Tool → Result Scope
unfolding required_scope allowed_scopes
authorize_tool actor claimed tool = do
  required ← or_raise (required_scope tool) security_error
  allowed ← or_raise (allowed_scopes actor) security_error
  raise_if (not (has_scope required claimed)) security_error
  raise_if (not (has_scope required allowed)) security_error
  ok required
