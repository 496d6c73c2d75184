-- ===== src/Gateway/Posting.antt =====
-- What a posting of `_submit_single` (revguard/mocks.py) has passed.
use revguard.Base.{
  Text, ◌∙◌, ℕ, ◌≡◌, true, false, not, ◌&&◌, Option, some, lookup, ◌==◌, option_eq, option_eq_iff,
  arith, sym, ap,
}
use revguard.Model.Errors.{
  raise_if-eq-ok, or_raise-eq-ok, Result, ok, err, raise_if, or_raise, tool_error, auth_failed,
  not_found, data_conflict, idempotency_conflict, invalid_params, evidence_gap, >>=-eq-ok,
  ok-injective,
}
use revguard.Model.Actors.{Actor, actor_eq}
use revguard.Model.Money.{Approval, approved, Draft, DraftStatus, LedgerEntry, GatewayState}
use revguard.References.{has_problems}
use revguard.Commitment.{approval_digest}
use revguard.Gateway.{Claims, Env, verify, ledger_adjust, or_auth_failed}
use revguard.Gateway.Submission.{
  is_draft, is_approved, contains, check_identity, check_approval, check_amount, open_draft,
  submit_single, post, entry_of, references_for,
}

or_auth_failed-eq-ok : {A : Type 0} (m : Result A) {a : A} → or_auth_failed m ≡ ok a → m ≡ ok a
or_auth_failed-eq-ok (ok a) h = h
or_auth_failed-eq-ok (err e) h = absurd (ground arith)

-- The parts of a posting.
pub record Posting (env : Env) (ledger_id : ℕ) (key : Option ℕ) (token : Option Text)
    (actor : Actor) (case_id action_id : ℕ) (st : GatewayState) (entry : LedgerEntry)
    (st' : GatewayState) : Type 0 where
  pub k : ℕ
  pub t : Text
  pub draft : Draft
  pub claims : Claims
  pub at_key : key ≡ some k
  pub at_token : token ≡ some t
  pub unused : contains k st.idempotency ≡ false
  pub opened : open_draft action_id st ≡ ok draft
  pub verified : verify env t ledger_adjust ≡ ok claims
  pub identity : check_identity actor case_id claims draft ≡ ok tt
  pub approval : check_approval env claims st ≡ ok tt
  pub amount : check_amount claims draft st ≡ ok tt
  pub grounds : env.require_references && has_problems (references_for case_id draft st).1 ≡ false
  pub posted : entry ≡ entry_of env ledger_id draft st
  pub after : st' ≡ post env ledger_id k action_id claims draft st

pub submit_single-Posting :
    (env : Env) (ledger_id : ℕ) (key : Option ℕ) (token : Option Text) (actor : Actor)
    (case_id action_id : ℕ) (st : GatewayState) {entry : LedgerEntry} {st' : GatewayState}
    → submit_single env ledger_id key token actor case_id action_id st ≡ ok (entry, st')
    → Posting env ledger_id key token actor case_id action_id st entry st'
unfolding submit_single
submit_single-Posting env ledger_id key token actor case_id action_id st h =
    let (k, at_key, h1) = >>=-eq-ok (or_raise key (tool_error invalid_params)) _ h in
    let (t, at_token, h2) = >>=-eq-ok (or_raise token (tool_error auth_failed)) _ h1 in
    let (_, unused, h3) =
      >>=-eq-ok (raise_if (contains k st.idempotency) (tool_error idempotency_conflict)) _ h2 in
    let (draft, opened, h4) = >>=-eq-ok (open_draft action_id st) _ h3 in
    let (claims, verified, h5) = >>=-eq-ok (or_auth_failed (verify env t ledger_adjust)) _ h4 in
    let (_, identity, h6) = >>=-eq-ok (check_identity actor case_id claims draft) _ h5 in
    let (_, approval, h7) = >>=-eq-ok (check_approval env claims st) _ h6 in
    let (_, amount, h8) = >>=-eq-ok (check_amount claims draft st) _ h7 in
    let (_, grounds, h9) =
      >>=-eq-ok
        (raise_if (env.require_references && has_problems (references_for case_id draft st).1)
          (tool_error evidence_gap))
        _ h8 in
    record {
      k = k;
      t = t;
      draft = draft;
      claims = claims;
      at_key = or_raise-eq-ok key _ at_key;
      at_token = or_raise-eq-ok token _ at_token;
      unused = raise_if-eq-ok _ _ unused;
      opened = opened;
      verified = or_auth_failed-eq-ok _ verified;
      identity = identity;
      approval = approval;
      amount = amount;
      grounds = raise_if-eq-ok _ _ grounds;
      posted = sym (ap (λ r. r.0) (ok-injective h9));
      after = sym (ap (λ r. r.1) (ok-injective h9));
    }

executor_only : (a : Actor) → actor_eq a Actor.executor ≡ true → a ≡ Actor.executor
executor_only a h = ground arith

pub identity_parts :
    (actor : Actor) (case_id : ℕ) (claims : Claims) (draft : Draft)
    → check_identity actor case_id claims draft ≡ ok tt
    → (actor ≡ Actor.executor)
      × (draft.case_id ≡ case_id)
      × (claims.case_id ≡ case_id)
      × (claims.currency ≡ draft.currency)
unfolding check_identity
identity_parts actor case_id claims draft h =
    let (_, a, h1) =
      >>=-eq-ok (raise_if (not (actor_eq actor Actor.executor)) (tool_error auth_failed)) _ h in
    let (_, b, c) =
      >>=-eq-ok
        (raise_if (not (claims.case_id == draft.case_id && case_id == draft.case_id))
          (tool_error auth_failed))
        _ h1 in
    (executor_only actor (ground arith), ground arith, ground arith, ground arith)

approval_parts :
    (env : Env) (claims : Claims) (st : GatewayState)
    → check_approval env claims st ≡ ok tt
    → (approval : Approval) × (digest : ℕ) × (lookup claims.approval_id st.approvals
        ≡ some approval)
      × (approval.status ≡ approved)
      × (approval.parameters_digest ≡ some digest)
      × (claims.parameters_digest ≡ some digest)
      × (approval_digest env.digest env.amount_scale approval ≡ ok digest)
unfolding check_approval
approval_parts env claims st h =
    let (approval, a, h1) =
      >>=-eq-ok (or_raise (lookup claims.approval_id st.approvals) (tool_error auth_failed)) _ h in
    let (_, b, h2) =
      >>=-eq-ok (raise_if (not (is_approved approval.status)) (tool_error auth_failed)) _ h1 in
    let (digest, c, h3) =
      >>=-eq-ok (or_raise approval.parameters_digest (tool_error auth_failed)) _ h2 in
    let (_, d, h4) =
      >>=-eq-ok
        (raise_if (not (option_eq claims.parameters_digest (some digest))) (tool_error auth_failed))
        _ h3 in
    let (recomputed, e, h5) =
      >>=-eq-ok (approval_digest env.digest env.amount_scale approval) _ h4 in
    let (_, f, _) =
      >>=-eq-ok (raise_if (not (recomputed == digest)) (tool_error auth_failed)) _ h5 in
    let same : recomputed ≡ digest = ground arith in
    (
      approval,
      digest,
      or_raise-eq-ok _ _ a,
      ground arith,
      or_raise-eq-ok _ _ c,
      (option_eq_iff claims.parameters_digest (some digest)).0 (ground arith),
      e ∙ ap ok same,
    )

pub open_draft-eq-ok :
    (action_id : ℕ) (st : GatewayState) {draft : Draft}
    → open_draft action_id st ≡ ok draft
    → (lookup action_id st.adjustments ≡ some draft) × (draft.status ≡ DraftStatus.draft)
unfolding open_draft
open_draft-eq-ok action_id st {draft} h =
    let (found, a, h1) =
      >>=-eq-ok (or_raise (lookup action_id st.adjustments) (tool_error not_found)) _ h in
    let (_, b, h2) =
      >>=-eq-ok (raise_if (not (is_draft found.status)) (tool_error data_conflict)) _ h1 in
    let same : found ≡ draft = ok-injective h2 in
    let status : found.status ≡ DraftStatus.draft = ground arith in
    (or_raise-eq-ok _ _ a ∙ ap some same, rw (← same) status)

-- The executor asks; the draft is open and of the named case; the token is valid, for that case and
-- the draft's currency; its approval is stored as approved, and the digest in the approval is the
-- digest in the token and that of the approval as it stands.
abbrev pub HasAuthority : Env → Option Text → Actor → ℕ → ℕ → GatewayState → Type 0
HasAuthority env token actor case_id action_id st =
    (draft : Draft) × (t : Text) × (claims : Claims) × (approval : Approval) × (digest : ℕ) × (actor
      ≡ Actor.executor)
    × (lookup action_id st.adjustments ≡ some draft)
    × (draft.status ≡ DraftStatus.draft)
    × (draft.case_id ≡ case_id)
    × (token ≡ some t)
    × (verify env t ledger_adjust ≡ ok claims)
    × (claims.case_id ≡ case_id)
    × (claims.currency ≡ draft.currency)
    × (lookup claims.approval_id st.approvals ≡ some approval)
    × (approval.status ≡ approved)
    × (approval.parameters_digest ≡ some digest)
    × (claims.parameters_digest ≡ some digest)
    × (approval_digest env.digest env.amount_scale approval ≡ ok digest)

-- A posting that succeeds was authorised: the executor made it, for an open draft of the case that
-- it names, under a valid token for that case and the draft's currency, whose approval is stored as
-- approved with the digest that the token carries and that the approval still has.
pub posting_is_authorised :
    (env : Env) (ledger_id : ℕ) (key : Option ℕ) (token : Option Text) (actor : Actor)
    (case_id action_id : ℕ) (st : GatewayState) (entry : LedgerEntry) (st' : GatewayState)
    → submit_single env ledger_id key token actor case_id action_id st ≡ ok (entry, st')
    → HasAuthority env token actor case_id action_id st
posting_is_authorised env ledger_id key token actor case_id action_id st entry st' h =
    let p = submit_single-Posting env ledger_id key token actor case_id action_id st h in
    let (by_executor, of_case, token_case, currency) =
      identity_parts actor case_id p.claims p.draft p.identity in
    let (approval, digest, found, status, stored, claimed, recomputed) =
      approval_parts env p.claims st p.approval in
    let (at, pending) = open_draft-eq-ok action_id st p.opened in
    (
      p.draft, p.t, p.claims, approval, digest, by_executor, at, pending, of_case, p.at_token,
      p.verified, token_case, currency, found, status, stored, claimed, recomputed,
    )
