-- ===== src/Approvals/Decision.antt =====
-- What a decision gives (`_tool_workflow_decide_approval`, revguard/mocks.py), and what the gateway
-- later makes of it (`_submit_single`).
use revguard.Base.{
  Text, ℕ, ◌+◌, ◌<◌, ◌≤◌, ◌≡◌, true, false, Option, none, some, lookup, lookup-insert, ==_refl,
  ◌==◌, arith, refl, sym, ap, ◌∙◌, Option-cases, Bool-cases, inl, inr,
}
use revguard.Model.Errors.{ok, err, ok-injective, Result-cases}
use revguard.Model.Actors.{Actor}
use revguard.Model.Money.{Approval, approved, GatewayState}
use revguard.Commitment.{approval_commitment, approval_digest}
use revguard.Gateway.{Claims, Env, issue, verify, ledger_adjust}
use revguard.Gateway.Tokens.{at_time, Seals, with_jti, issued_token_is_good}
use revguard.Gateway.Submission.{other_release, check_approval}
use revguard.Approvals.{
  is_pending, approved_by, commit_approval, adjust_claims, store_approval, approve, decide_approval,
}

-- An approval that was approved: it was pending, and its digest could be computed.
pub record Decided (env : Env) (jti : ℕ) (actor : Actor) (approval_id : ℕ) (st : GatewayState)
    (a : Approval) (st' : GatewayState) : Type 0 where
  pub before : Approval
  pub digest : ℕ
  pub found : lookup approval_id st.approvals ≡ some before
  pub digested :
      approval_digest env.digest env.amount_scale (approved_by env actor before) ≡ ok digest
  pub result : a ≡ commit_approval env jti digest (approved_by env actor before)
  pub after : st' ≡ store_approval approval_id a st

approve-Decided :
    (env : Env) (jti : ℕ) (actor : Actor) (approval_id : ℕ) (st : GatewayState) (b a : Approval)
    (st' : GatewayState)
    → lookup approval_id st.approvals ≡ some b
    → approve env jti actor approval_id b st ≡ (ok a, st')
    → Decided env jti actor approval_id st a st'
approve-Decided env jti actor approval_id st b a st' found h =
    elim (Result-cases (approval_digest env.digest env.amount_scale (approved_by env actor b))) [
      | inr (e, failed) ↦ absurd (
          let impossible : (err e, store_approval approval_id (approved_by env actor b) st)
              ≡ (ok a, st') =
            rw (approve, failed) at h in
          let first : err e ≡ ok a = ap (λ p. p.0) impossible in cc)
      | inl (digest, digested) ↦
          let committed = commit_approval env jti digest (approved_by env actor b) in
          let e : (ok committed, store_approval approval_id committed st) ≡ (ok a, st') =
            rw (approve, digested) at h in
          let same : committed ≡ a = ok-injective (ap (λ p. p.0) e) in
          record {
            before = b;
            digest = digest;
            found = found;
            digested = digested;
            result = sym same;
            after = sym (ap (λ p. p.1) e) ∙ ap (λ x. store_approval approval_id x st) same;
          }
    ]

pub decide_approval-Decided :
    (env : Env) (jti : ℕ) (actor : Actor) (approval_id : ℕ) (st : GatewayState) (a : Approval)
    (st' : GatewayState)
    → decide_approval env jti actor approval_id true st ≡ (ok a, st')
    → Decided env jti actor approval_id st a st'
unfolding decide_approval
decide_approval-Decided env jti actor approval_id st a st' h =
    elim (Option-cases (lookup approval_id st.approvals)) [
      | inl missing ↦ absurd (let first = ap (λ p. p.0) (rw (decide_approval, missing) at h) in cc)
      | inr (b, found) ↦ elim (Bool-cases (is_pending b.status)) [
        | inr decided ↦
            absurd (let first = ap (λ p. p.0) (rw (decide_approval, found, decided) at h) in cc)
        | inl waiting ↦
            approve-Decided env jti actor approval_id st b a st' found
              (rw (decide_approval, found, waiting) at h)
      ]
    ]

-- The token of an approval passes at a later time, gives its amount and quota, and the gateway then
-- finds the approval as it was committed to.
abbrev pub GivesCapability : Env → ℕ → Approval → GatewayState → Type 0
GivesCapability env now a st =
    (t : Text) × (claims : Claims) × (a.approval_token ≡ some t)
    × (verify (at_time now env) t ledger_adjust ≡ ok claims)
    × (claims.case_id ≡ a.case_id)
    × (claims.currency ≡ a.currency)
    × (claims.max_amount ≡ a.amount)
    × (claims.component_quota ≡ some a.component_quota)
    × (check_approval (at_time now env) claims st ≡ ok tt)

same_release : (r : Option ℕ) → other_release r r ≡ false
same_release none = refl
same_release (some r) = rw (==_refl r) refl

check_approval-holds :
    (env : Env) (claims : Claims) (st : GatewayState) (a : Approval) (digest : ℕ)
    → lookup claims.approval_id st.approvals ≡ some a
    → a.status ≡ approved
    → a.parameters_digest ≡ some digest
    → claims.parameters_digest ≡ some digest
    → approval_digest env.digest env.amount_scale a ≡ ok digest
    → other_release a.release_version env.release ≡ false
    → check_approval env claims st ≡ ok tt
unfolding check_approval approval_digest approval_commitment
check_approval-holds env claims st a digest found status committed claimed recomputed release =
    rw
      (
        check_approval,
        found,
        status,
        committed,
        claimed,
        ==_refl digest,
        recomputed,
        ==_refl digest,
        release,
      )
      refl

pub commitment_is_stable :
    (env : Env) (jti digest : ℕ) (b : Approval)
    → approval_digest env.digest env.amount_scale (commit_approval env jti digest b)
      ≡ approval_digest env.digest env.amount_scale b
unfolding approval_digest approval_commitment
commitment_is_stable env jti digest b = refl

-- Where opening a token undoes sealing it, and the approval is stored under its own identifier, an
-- approval that is decided positively gives a token which for less than 900 seconds verifies for the
-- approval's case, currency, amount and quota, and under which the gateway's check of the approval
-- passes in the state after the decision.
pub approval_authorises_posting :
    (env : Env) (jti : ℕ) (actor : Actor) (approval_id : ℕ) (st : GatewayState) (a : Approval)
    (st' : GatewayState) (now : ℕ)
    → Seals env
    → decide_approval env jti actor approval_id true st ≡ (ok a, st')
    → a.approval_id ≡ approval_id
    → env.now ≤ now
    → now < env.now + 900
    → GivesCapability env now a st'
approval_authorises_posting env jti actor approval_id st a st' now seals h keyed from till =
    let d = decide_approval-Decided env jti actor approval_id st a st' h in
    let decided = approved_by env actor d.before in
    let claims =
      adjust_claims (record decided { parameters_digest = some d.digest }) decided.amount
        decided.component_quota in
    let here : (a.approval_id == approval_id) ≡ true = ground arith in
    let stored : lookup a.approval_id st'.approvals ≡ some a =
      ap (λ s. lookup a.approval_id s.approvals) d.after
      ∙ lookup-insert a.approval_id approval_id a st.approvals
      ∙ rw here refl in
    let recomputed : approval_digest env.digest env.amount_scale a ≡ ok d.digest =
      ap (approval_digest env.digest env.amount_scale) d.result
      ∙ commitment_is_stable env jti d.digest decided
      ∙ d.digested in
    let same_id : claims.approval_id ≡ a.approval_id = ap (λ x. x.approval_id) (sym d.result) in
    (
      issue env ledger_adjust claims 900 jti,
      with_jti jti claims,
      ap (λ x. x.approval_token) d.result,
      issued_token_is_good env seals ledger_adjust claims 900 jti now from till,
      ap (λ x. x.case_id) (sym d.result),
      ap (λ x. x.currency) (sym d.result),
      ap (λ x. x.amount) (sym d.result),
      ap (λ x. some x.component_quota) (sym d.result),
      check_approval-holds (at_time now env) (with_jti jti claims) st' a d.digest
          (rw same_id stored) (ap (λ x. x.status) d.result) (ap (λ x. x.parameters_digest) d.result)
          refl recomputed
          (ap (λ x. other_release x.release_version env.release) d.result
            ∙ same_release env.release),
    )
