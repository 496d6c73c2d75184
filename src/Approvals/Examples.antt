-- ===== src/Approvals/Examples.antt =====
-- An approval from its request to its renewal, and the theorems at its values.
use revguard.Base.{
  none, Text, not, ◌&&◌, ◌==◌, option_eq, option_eq_iff, any, Bool, if◌then◌else◌, ℕ, ◌≡◌, refl,
  true, false, some, [], ◌∷◌, Dict, arith,
}
use revguard.Base.Int.{ℤ, pos, negsuc, ◌+ℤ◌}
use revguard.Model.Errors.{ok, err, tool_error, invalid_params, data_conflict, security_error}
use revguard.Model.Actors.{Actor}
use revguard.Model.Money.{Approval, Draft, DraftStatus, GatewayState, LedgerEntry}
use revguard.Model.Samples.{no_state}
use revguard.Commitment.{
  CanonicalAmount, Commitment, canonical_amount, canonical_quota, approval_commitment,
  approval_digest,
}
use revguard.Gateway.{Claims, Purpose, Env, issue, verify}
use revguard.Gateway.Tokens.{
  at_time, Seals, with_jti, is_good, issued_token_is_good, issued_token_verifies,
}
use revguard.Gateway.Submission.{contains, submit_single, post, entry_of}
use revguard.Gateway.Reversal.{find_ledger}
use revguard.Gateway.Coding.{read, write, read-write}
use revguard.Approvals.{
  ApprovalRequest, new_approval, create_approval, approved_by, commit_approval, decide_approval,
  store_approval,
}
use revguard.Approvals.Renewal.{
  renewed, renew_approval_capability, renew_rollback_capability, check_rollback, reverse_claims,
}
use revguard.Approvals.Decision.{GivesCapability, approval_authorises_posting}
use revguard.Approvals.Drift.{HoldsDocument, posting_keeps_commitment}
use revguard.Approvals.Remaining.{IsFreshCapability, renewed_quota_is_what_is_left}

abbrev request : ApprovalRequest
request = record {
  case_id = 7;
  action_summary = 1;
  amount = some (pos 100);
  component_quota = some ((2, some (pos 60)) ∷ (3, some (pos 40)) ∷ []);
  currency = 0;
  risk_level = 2;
  approver_role = 4;
}

abbrev quota : Dict ℤ
quota = (2, pos 60) ∷ (3, pos 40) ∷ []

abbrev waiting : Approval
waiting = new_approval 40 request (pos 100) quota

abbrev with_waiting : GatewayState
with_waiting = store_approval 40 waiting no_state

test_creation : create_approval 40 request no_state ≡ ok (waiting, with_waiting)
unfolding create_approval ◌+ℤ◌
test_creation = refl

-- An amount that is not the sum, a component without amount, and no quota at all.
test_bad_sum :
    create_approval 40 (record request { amount = some (pos 99) }) no_state
    ≡ err (tool_error invalid_params)
unfolding create_approval ◌+ℤ◌
test_bad_sum = refl

test_zero_component :
    create_approval 40
      (record request { component_quota = some ((2, some (pos 100)) ∷ (3, some (pos 0)) ∷ []) })
      no_state
    ≡ err (tool_error invalid_params)
unfolding create_approval ◌+ℤ◌
test_zero_component = refl

test_no_quota :
    create_approval 40 (record request { component_quota = some [] }) no_state
    ≡ err (tool_error invalid_params)
unfolding create_approval ◌+ℤ◌
test_no_quota = refl

abbrev claims : Claims
claims = record {
  jti = 0;
  case_id = 7;
  currency = 0;
  approval_id = 40;
  parameters_digest = some 99;
  max_amount = pos 100;
  component_quota = some quota;
  ledger_id = 0;
  human = none;
}

-- The gateway at time 1000, with tokens that are not signed.
abbrev document : Commitment
document = record {
  action_summary = 1;
  amount = record { is_negative = false; cents = 10000 };
  approval_id = 40;
  case_id = 7;
  component_quota =
      (2, record { is_negative = false; cents = 6000 })
      ∷ (3, record { is_negative = false; cents = 4000 })
      ∷ [];
  currency = 0;
  release_version = some 8;
  risk_level = 2;
}

abbrev is_amount : ℕ → CanonicalAmount → Bool
is_amount n a = not a.is_negative && a.cents == n

abbrev is_quota : Dict CanonicalAmount → Bool
is_quota ((c, a) ∷ (d, b) ∷ []) = c == 2 && is_amount 6000 a && d == 3 && is_amount 4000 b
is_quota _ = false

abbrev is_document : Commitment → Bool
is_document m =
    m.action_summary == 1
    && is_amount 10000 m.amount
    && m.approval_id == 40
    && m.case_id == 7
    && is_quota m.component_quota
    && m.currency == 0
    && option_eq m.release_version (some 8)
    && m.risk_level == 2

abbrev env : Env
env = record {
  open_token = read;
  seal = write;
  digest = λ m. if is_document m then 99 else 0;
  amount_scale = 0;
  issuer = 5;
  now = 1000;
  release = some 8;
  require_references = false;
  tamper_amount = pos 0;
  tamper_targets = λ _. false;
}

env-Seals : Seals env
env-Seals p = read-write p

abbrev granted : Approval
granted = commit_approval env 90 99 (approved_by env Actor.finance_lead waiting)

abbrev with_granted : GatewayState
with_granted = store_approval 40 granted with_waiting

granting :
    decide_approval env 90 Actor.finance_lead 40 true with_waiting ≡ (ok granted, with_granted)
unfolding decide_approval approval_digest approval_commitment canonical_amount canonical_quota
granting = refl

test_second_decision :
    (decide_approval env 91 Actor.finance_lead 40 false with_granted).0
    ≡ err (tool_error data_conflict)
unfolding decide_approval
test_second_decision = refl

approval_authorises_posting_example : GivesCapability env 1500 granted with_granted
approval_authorises_posting_example =
    approval_authorises_posting env 90 Actor.finance_lead 40 with_waiting granted with_granted 1500
      env-Seals granting refl (omega arith) (omega arith)

issued_token_verifies_example :
    verify (at_time 1900 env) (issue env Purpose.ledger_adjust claims 900 90) Purpose.ledger_adjust
    ≡ (if is_good 1000 900 1900 Purpose.ledger_adjust Purpose.ledger_adjust
        then ok (with_jti 90 claims)
        else err security_error)
issued_token_verifies_example =
    issued_token_verifies env env-Seals Purpose.ledger_adjust Purpose.ledger_adjust claims 900 90
      1900

abbrev draft_of : ℕ → Draft
draft_of n = record {
  action_id = n;
  order_id = 9;
  case_id = 7;
  component = 2;
  amount = negsuc 59;
  currency = 0;
  status = DraftStatus.draft;
}

abbrev drafted : GatewayState
drafted = record with_granted { adjustments = (1, draft_of 1) ∷ (2, draft_of 2) ∷ [] }

abbrev token : Text
token = issue env Purpose.ledger_adjust claims 900 90

abbrev entry : LedgerEntry
entry = entry_of env 11 (draft_of 1) drafted

abbrev posted : GatewayState
posted = post env 11 3 1 (with_jti 90 claims) (draft_of 1) drafted

posting : submit_single env 11 (some 3) (some token) Actor.executor 7 1 drafted ≡ ok (entry, posted)
unfolding submit_single issue approval_digest approval_commitment canonical_amount canonical_quota
posting = refl

verified : verify env token Purpose.ledger_adjust ≡ ok (with_jti 90 claims)
verified =
    issued_token_is_good env env-Seals Purpose.ledger_adjust claims 900 90 1000 (omega arith)
      (omega arith)

is_amount-eq :
    (n : ℕ) (a : CanonicalAmount)
    → is_amount n a ≡ true
    → a ≡ record { is_negative = false; cents = n }
is_amount-eq n a h =
    let sign : a.is_negative ≡ false = ground arith in
    let size : a.cents ≡ n = ground arith in rw (← sign, ← size) refl

is_quota-eq : (q : Dict CanonicalAmount) → is_quota q ≡ true → q ≡ document.component_quota
is_quota-eq [] h = absurd (cc)
is_quota-eq (x ∷ []) h = absurd (cc)
is_quota-eq ((c, a) ∷ (d, b) ∷ []) h =
    let first = is_amount-eq 6000 a (ground arith) in
    let second = is_amount-eq 4000 b (ground arith) in
    let key : c ≡ 2 = ground arith in
    let other : d ≡ 3 = ground arith in rw (first, second, key, other) refl
is_quota-eq (x ∷ y ∷ z ∷ q) h = absurd (cc)

same_parts :
    (m : Commitment)
    → m.amount ≡ document.amount
    → m.component_quota ≡ document.component_quota
    → m.release_version ≡ some 8
    → m.action_summary ≡ 1
    → m.approval_id ≡ 40
    → m.case_id ≡ 7
    → m.currency ≡ 0
    → m.risk_level ≡ 2
    → m ≡ document
same_parts m a b c d e f g h = λ i. record {
  action_summary = d i;
  amount = a i;
  approval_id = e i;
  case_id = f i;
  component_quota = b i;
  currency = g i;
  release_version = c i;
  risk_level = h i;
}

is_document-eq : (m : Commitment) → is_document m ≡ true → m ≡ document
is_document-eq m h =
    let amount = is_amount-eq 10000 m.amount (ground arith) in
    let quota_eq = is_quota-eq m.component_quota (ground arith) in
    let release = (option_eq_iff m.release_version (some 8)).0 (ground arith) in
    let summary : m.action_summary ≡ 1 = ground arith in
    let id : m.approval_id ≡ 40 = ground arith in
    let case : m.case_id ≡ 7 = ground arith in
    let currency : m.currency ≡ 0 = ground arith in
    let risk : m.risk_level ≡ 2 = ground arith in
    same_parts m amount quota_eq release summary id case currency risk

only_document : (n : Commitment) → env.digest n ≡ env.digest document → n ≡ document
only_document n h = is_document-eq n (ground arith)

posting_keeps_commitment_example : HoldsDocument env (with_jti 90 claims) document drafted
posting_keeps_commitment_example =
    posting_keeps_commitment env 11 (some 3) token Actor.executor 7 1 drafted entry posted
      (with_jti 90 claims) document only_document verified refl posting

-- The renewal after the posting of 60 leaves the 40 of the other component.
abbrev rest : Approval
rest = renewed env 91 granted posted

renewing :
    renew_approval_capability env 91 40 (some 7) posted ≡ ok (rest, store_approval 40 rest posted)
unfolding renew_approval_capability approval_digest approval_commitment canonical_amount
    canonical_quota post
renewing = refl

test_rest : rest.remaining_component_quota ≡ some ((3, pos 40) ∷ [])
unfolding post
test_rest = refl

renewed_quota_is_what_is_left_example : IsFreshCapability env 1500 posted rest
renewed_quota_is_what_is_left_example =
    renewed_quota_is_what_is_left env 91 40 (some 7) posted rest (store_approval 40 rest posted)
      1500 env-Seals renewing (omega arith) (omega arith)

in_ledger : find_ledger 11 posted.ledger ≡ some entry
unfolding post
in_ledger = refl

free : contains 6 posted.idempotency ≡ false
unfolding post
free = refl

unused : any (λ j. 92 == j) posted.used_rollback_tokens ≡ false
unfolding post
unused = refl

-- The entry can be reversed under a renewed rollback.
abbrev rollback : Text
rollback = issue env Purpose.ledger_reverse (reverse_claims 7 11 0) 3600 92

rolling_back : renew_rollback_capability env 92 7 11 1 posted ≡ ok rollback
unfolding renew_rollback_capability check_rollback post
rolling_back = refl

-- A capability that is renewed before it is used: both tokens can be spent, 120 of the 60 that the
-- component was given.
abbrev early : Approval
early = renewed env 91 granted drafted

abbrev spare : Text
spare = issue env Purpose.ledger_adjust claims 900 91

test_renewed_early : early.approval_token ≡ some spare
unfolding issue
test_renewed_early = refl

test_both_tokens :
    submit_single env 12 (some 4) (some spare) Actor.executor 7 2 posted
    ≡ ok (
      entry_of env 12 (draft_of 2) posted,
      post env 12 4 2 (with_jti 91 claims) (draft_of 2) posted,
    )
unfolding submit_single issue approval_digest approval_commitment canonical_amount canonical_quota
    post
test_both_tokens = refl
