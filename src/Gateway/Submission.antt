-- ===== src/Gateway/Submission.antt =====
-- `_submit_single` (revguard/mocks.py): one draft is posted to the ledger.
use revguard.Base.{
  Text, ℕ, ◌+◌, Bool, true, false, not, ◌&&◌, ◌||◌, Option, none, some, [], ◌∷◌, List, ◌++◌, Dict,
  lookup, insert, adjust, any, ltb, ◌==◌, option_eq, if◌then◌else◌,
}
use revguard.Base.Int.{ℤ, pos, negsuc, abs_ℤ, ◌+ℤ◌}
use revguard.Model.Errors.{
  Result, ok, ◌>>=◌, ◌>>◌, raise_if, or_raise, tool_error, auth_failed, not_found, data_conflict,
  idempotency_conflict, invalid_params, evidence_gap,
}
use revguard.Model.Actors.{Actor, actor_eq}
use revguard.Model.Money.{
  ApprovalStatus, Draft, DraftStatus, submitted, LedgerEntry, GatewayState, Reference,
}
use revguard.References.{Problem, has_problems, verify_execution_references}
use revguard.Commitment.{approval_digest}
use revguard.Gateway.{Claims, Env, verify, ledger_adjust, or_auth_failed}

-- `value > limit` for a limit that a token names.
abbrev pub exceeds : ℕ → ℤ → Bool
exceeds n (pos limit) = ltb limit n
exceeds n (negsuc _) = true

-- `table.get(key, 0)`
abbrev pub amount_at : ℕ → Dict ℕ → ℕ
amount_at key d = elim (lookup key d) [ none ↦ 0 | some n ↦ n ]

abbrev pub usage_of : ℕ → GatewayState → Dict ℕ
usage_of jti st = elim (lookup jti st.token_consumed_by_component) [ none ↦ [] | some d ↦ d ]

abbrev pub is_draft : DraftStatus → Bool
is_draft DraftStatus.draft = true
is_draft _ = false

abbrev pub is_approved : ApprovalStatus → Bool
is_approved ApprovalStatus.approved = true
is_approved _ = false

abbrev pub contains {ℓ} : {V : Type ℓ} → ℕ → Dict V → Bool
contains key d = elim (lookup key d) [ none ↦ false | some _ ↦ true ]

-- `approved_release and current_release and approved_release != current_release`
abbrev pub other_release : Option ℕ → Option ℕ → Bool
other_release (some a) (some b) = not (a == b)
other_release _ _ = false

unfoldable pub check_identity : Actor → ℕ → Claims → Draft → Result (Unit {0})
check_identity actor case_id claims draft = do
  raise_if (not (actor_eq actor Actor.executor)) (tool_error auth_failed)
  raise_if (not (claims.case_id == draft.case_id && case_id == draft.case_id))
      (tool_error auth_failed)
  raise_if (not (claims.currency == draft.currency)) (tool_error auth_failed)

-- The digests of the approval, of the token and of the approval as it is now must agree.
unfoldable pub check_approval : Env → Claims → GatewayState → Result (Unit {0})
check_approval env claims st = do
  approval ← or_raise (lookup claims.approval_id st.approvals) (tool_error auth_failed)
  raise_if (not (is_approved approval.status)) (tool_error auth_failed)
  committed ← or_raise approval.parameters_digest (tool_error auth_failed)
  raise_if (not (option_eq claims.parameters_digest (some committed))) (tool_error auth_failed)
  digest ← approval_digest env.digest env.amount_scale approval
  raise_if (not (digest == committed)) (tool_error auth_failed)
  raise_if (other_release approval.release_version env.release) (tool_error auth_failed)

unfoldable pub check_amount : Claims → Draft → GatewayState → Result (Unit {0})
check_amount claims draft st = do
  let requested = abs_ℤ draft.amount
  raise_if
      (requested == 0
        || exceeds (amount_at claims.jti st.token_consumed_amount + requested) claims.max_amount)
      (tool_error auth_failed)
  quotas ← or_raise claims.component_quota (tool_error auth_failed)
  limit ← or_raise (lookup draft.component quotas) (tool_error auth_failed)
  raise_if (exceeds (amount_at draft.component (usage_of claims.jti st) + requested) limit)
      (tool_error auth_failed)

-- The facts of the case that the posting rests on, and what is wrong with them.
abbrev pub references_for : ℕ → Draft → GatewayState → List Reference × List Problem
references_for case_id draft st =
    verify_execution_references case_id (some draft.order_id) (some draft.currency) st.receipts

-- The amount that is posted, with the injected fault.
abbrev pub is_tampered : Env → Draft → GatewayState → Bool
is_tampered env draft st =
    not (abs_ℤ env.tamper_amount == 0)
    && env.tamper_targets draft.case_id
    && not (any (λ c. draft.case_id == c) st.posting_tamper_used_cases)

abbrev pub posted_amount : Env → Draft → GatewayState → ℤ
posted_amount env draft st =
    if is_tampered env draft st then draft.amount +ℤ env.tamper_amount else draft.amount

abbrev pub entry_of : Env → ℕ → Draft → GatewayState → LedgerEntry
entry_of env ledger_id draft st = record {
  ledger_id = ledger_id;
  order_id = draft.order_id;
  component = draft.component;
  amount = posted_amount env draft st;
  currency = draft.currency;
  is_posted = true;
  source = some draft.case_id;
  reversal_of = none;
  reversed_by = none;
  execution_references =
      if env.require_references then (references_for draft.case_id draft st).0 else [];
}

-- The state after the posting. `ledger_id` is the fresh identifier of the entry.
unfoldable pub post : Env → ℕ → ℕ → ℕ → Claims → Draft → GatewayState → GatewayState
post env ledger_id key action_id claims draft st =
    let requested = abs_ℤ draft.amount in
    record st {
      ledger = st.ledger ++ (entry_of env ledger_id draft st ∷ []);
      adjustments = adjust action_id (λ d. record d { status = submitted }) st.adjustments;
      idempotency = insert key draft.action_id st.idempotency;
      token_consumed_amount =
          insert claims.jti (amount_at claims.jti st.token_consumed_amount + requested)
            st.token_consumed_amount;
      token_consumed_by_component =
          insert claims.jti
            (insert draft.component (amount_at draft.component (usage_of claims.jti st) + requested)
              (usage_of claims.jti st))
            st.token_consumed_by_component;
      posting_tamper_used_cases =
          if is_tampered env draft st
          then draft.case_id ∷ st.posting_tamper_used_cases
          else st.posting_tamper_used_cases;
    }

-- The draft that `action_id` names, which must be open.
unfoldable pub open_draft : ℕ → GatewayState → Result Draft
open_draft action_id st = do
  draft ← or_raise (lookup action_id st.adjustments) (tool_error not_found)
  raise_if (not (is_draft draft.status)) (tool_error data_conflict)
  ok draft

unfoldable pub submit_single :
    Env
    → ℕ
    → Option ℕ
    → Option Text
    → Actor
    → ℕ
    → ℕ
    → GatewayState
    → Result (LedgerEntry × GatewayState)
unfolding verify check_identity check_approval check_amount open_draft post
submit_single env ledger_id key token actor case_id action_id st = do
  k ← or_raise key (tool_error invalid_params)
  t ← or_raise token (tool_error auth_failed)
  raise_if (contains k st.idempotency) (tool_error idempotency_conflict)
  draft ← open_draft action_id st
  claims ← or_auth_failed (verify env t ledger_adjust)
  check_identity actor case_id claims draft
  check_approval env claims st
  check_amount claims draft st
  raise_if (env.require_references && has_problems (references_for case_id draft st).1)
      (tool_error evidence_gap)
  ok (entry_of env ledger_id draft st, post env ledger_id k action_id claims draft st)
