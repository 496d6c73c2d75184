-- ===== src/Gateway/Examples.antt =====
-- Runs of `_submit_single` (revguard/mocks.py), and its theorems at concrete inputs.
use revguard.Base.{insert, ◌++◌, ◌⊎◌, ℕ, ◌≡◌, ◌+◌, refl, true, false, none, some, [], ◌∷◌}
use revguard.Base.Int.{◌+ℤ◌, pos, negsuc}
use revguard.Model.Errors.{Error, ok, err, tool_error, auth_failed, evidence_gap}
use revguard.Model.Actors.{Actor}
use revguard.Model.Money.{Approval, approved, Draft, DraftStatus, LedgerEntry, GatewayState}
use revguard.Model.Samples.{no_state}
use revguard.Commitment.{approval_digest, approval_commitment, canonical_amount, canonical_quota}
use revguard.Gateway.{Claims, Payload, Purpose, Env}
use revguard.Gateway.Submission.{exceeds, amount_at, submit_single, post, entry_of}
use revguard.Gateway.Reversal.{reverse_single, reversal_entry, mark_reversed, find_ledger}
use revguard.Gateway.Balance.{order_total, reversal_restores_balance, reversal_happens_once}
use revguard.Gateway.Posting.{HasAuthority, posting_is_authorised}
use revguard.Gateway.Limits.{
  Postings, none_yet, then_one, IsUnique, total_posted, tokens_are_not_overspent,
}
use revguard.Gateway.Facts.{HasEvidence, posting_rests_on_facts}
use revguard.References.{check_slot, verify_execution_references}
use revguard.References.Examples.{receipts}
use revguard.Gateway.Replay.{posting_is_not_repeated}

-- An approval of 100 for component 2 of case 7, and its token, which is the text 20.
abbrev approval : Approval
approval = record {
  approval_id = 40;
  case_id = 7;
  action_summary = 1;
  amount = pos 100;
  component_quota = (2, pos 100) ∷ [];
  currency = 0;
  risk_level = 2;
  status = approved;
  release_version = none;
  parameters_digest = some 7040;
  approver_role = 4;
  approver = some Actor.finance_lead;
  approval_token = some (20 ∷ []);
  remaining_component_quota = none;
}

abbrev claims : Claims
claims = record {
  jti = 90;
  case_id = 7;
  currency = 0;
  approval_id = 40;
  parameters_digest = some 7040;
  max_amount = pos 100;
  component_quota = some ((2, pos 100) ∷ []);
  ledger_id = 0;
  human = none;
}

abbrev payload : Payload
payload = record {
  version = 1;
  issuer = 5;
  purpose = Purpose.ledger_adjust;
  issued_at = some 1000;
  expires_at = some 1900;
  claims = claims;
}

abbrev env : Env
env = record {
  open_token = λ t. some payload;
  issuer = 5;
  now = 1100;
  seal = λ p. 20 ∷ [];
  digest = λ c. 7000 + c.approval_id;
  amount_scale = 2;
  release = none;
  require_references = false;
  tamper_amount = pos 0;
  tamper_targets = λ _. false;
}

abbrev draft_of : ℕ → Draft
draft_of n = record {
  action_id = n;
  order_id = 9;
  case_id = 7;
  component = 2;
  amount = negsuc 59;
  currency = 0;
  status = DraftStatus.draft;
}

abbrev ready : GatewayState
ready = record no_state {
  adjustments = (1, draft_of 1) ∷ (2, draft_of 2) ∷ [];
  approvals = (40, approval) ∷ [];
}

abbrev entry : LedgerEntry
entry = entry_of env 11 (draft_of 1) ready

abbrev posted : GatewayState
posted = post env 11 3 1 claims (draft_of 1) ready

first_posting :
    submit_single env 11 (some 3) (some (20 ∷ [])) Actor.executor 7 1 ready ≡ ok (entry, posted)
unfolding submit_single approval_digest approval_commitment canonical_amount canonical_quota
first_posting = refl

-- A second draft of 60 would take the token over its 100.
test_over_limit :
    submit_single env 12 (some 4) (some (20 ∷ [])) Actor.executor 7 2 posted
    ≡ err (tool_error auth_failed)
unfolding submit_single post approval_digest approval_commitment canonical_amount canonical_quota
test_over_limit = refl

posting_is_authorised_example : HasAuthority env (some (20 ∷ [])) Actor.executor 7 1 ready
posting_is_authorised_example =
    posting_is_authorised env 11 (some 3) (some (20 ∷ [])) Actor.executor 7 1 ready entry posted
      first_posting

one_payload : IsUnique env.open_token
one_payload t u p q read read' same = cc

abbrev postings : Postings env.open_token ready posted
postings =
    then_one env 11 (some 3) (some (20 ∷ [])) Actor.executor 7 1 entry posted none_yet (λ t. refl)
      first_posting

test_total : total_posted 90 postings ≡ 60
test_total = refl

tokens_are_not_overspent_example :
    (total_posted 90 postings ≡ 0)
    ⊎ (exceeds (amount_at 90 ready.token_consumed_amount + total_posted 90 postings) (pos 100)
        ≡ false)
tokens_are_not_overspent_example =
    tokens_are_not_overspent postings (20 ∷ []) payload one_payload (tt, refl) refl

posting_is_not_repeated_example :
    ((e : Error) × (submit_single env 12 (some 3) (some (20 ∷ [])) Actor.executor 7 2 posted
        ≡ err e))
    × ((e : Error) × (submit_single env 12 (some 5) (some (20 ∷ [])) Actor.executor 7 1 posted
          ≡ err e))
posting_is_not_repeated_example =
    posting_is_not_repeated env env 11 3 (some (20 ∷ [])) Actor.executor 7 1 ready posted entry 12
      (some 5) (some (20 ∷ [])) Actor.executor 7 2 first_posting

-- The token that takes back entry 11 of case 7.
abbrev undo : Env
undo = record env {
  open_token = λ t. some (record payload {
    purpose = Purpose.ledger_reverse;
    claims = record claims { jti = 91; ledger_id = 11 };
  });
}

abbrev undone_entry : LedgerEntry
undone_entry = reversal_entry 12 7 entry

abbrev undone : GatewayState
undone = record posted {
  ledger = mark_reversed 11 12 posted.ledger ++ (undone_entry ∷ []);
  idempotency = insert 8 12 posted.idempotency;
  used_rollback_tokens = 91 ∷ [];
}

first_reversal :
    reverse_single undo 12 (some 8) (some (21 ∷ [])) Actor.executor 7 11 posted
    ≡ ok (undone_entry, undone)
unfolding reverse_single post
first_reversal = refl

reversal_restores_balance_example :
    (target : LedgerEntry) × (find_ledger 11 posted.ledger ≡ some target)
    × (undone_entry.order_id ≡ target.order_id)
    × (undone_entry.reversal_of ≡ some target.ledger_id)
    × (order_total target.order_id undone.ledger +ℤ target.amount
        ≡ order_total target.order_id posted.ledger)
reversal_restores_balance_example =
    reversal_restores_balance undo 12 (some 8) (some (21 ∷ [])) Actor.executor 7 11 posted
      undone_entry undone first_reversal

reversal_happens_once_example :
    (e : Error) × (reverse_single undo 13 (some 9) (some (21 ∷ [])) Actor.executor 7 11 undone
      ≡ err e)
reversal_happens_once_example =
    reversal_happens_once undo undo 12 (some 8) (some (21 ∷ [])) Actor.executor 7 11 posted
      undone_entry undone 13 (some 9) (some (21 ∷ [])) Actor.executor 7 first_reversal

-- The same posting where the order, its contract and its ledger were read.
abbrev strict : Env
strict = record env { require_references = true }

abbrev informed : GatewayState
informed = record ready { receipts = receipts }

abbrev informed_entry : LedgerEntry
informed_entry = entry_of strict 11 (draft_of 1) informed

informed_posting :
    submit_single strict 11 (some 3) (some (20 ∷ [])) Actor.executor 7 1 informed
    ≡ ok (informed_entry, post strict 11 3 1 claims (draft_of 1) informed)
unfolding submit_single verify_execution_references check_slot approval_digest approval_commitment
    canonical_amount canonical_quota
informed_posting = refl

-- Without the receipts it is refused.
test_uninformed :
    submit_single strict 11 (some 3) (some (20 ∷ [])) Actor.executor 7 1 ready
    ≡ err (tool_error evidence_gap)
unfolding submit_single verify_execution_references check_slot approval_digest approval_commitment
    canonical_amount canonical_quota
test_uninformed = refl

posting_rests_on_facts_example : HasEvidence 7 informed informed_entry
posting_rests_on_facts_example =
    posting_rests_on_facts strict 11 (some 3) (some (20 ∷ [])) Actor.executor 7 1 informed
      informed_entry (post strict 11 3 1 claims (draft_of 1) informed) refl informed_posting
