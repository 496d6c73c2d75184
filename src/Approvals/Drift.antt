-- ===== src/Approvals/Drift.antt =====
-- A posting rests on the parameters that its token was issued for (`approval_digest`,
-- revguard/commitment.py, in `_submit_single`, revguard/mocks.py).
use revguard.Base.{Text, ℕ, ◌≡◌, Option, some, lookup, sym, ap, ◌∙◌}
use revguard.Model.Errors.{ok, >>=-eq-ok, ok-injective}
use revguard.Model.Actors.{Actor}
use revguard.Model.Money.{Approval, LedgerEntry, GatewayState}
use revguard.Commitment.{Commitment, approval_commitment, approval_digest}
use revguard.Gateway.{Claims, Env, verify, ledger_adjust}
use revguard.Gateway.Submission.{submit_single}
use revguard.Gateway.Posting.{posting_is_authorised}

some-injective {ℓ} : {A : Type ℓ} {a b : A} → some a ≡ some b → a ≡ b
some-injective h = cc

digest_determines :
    (hash : Commitment → ℕ) (scale : ℕ) (a : Approval) (m : Commitment)
    → ((n : Commitment) → hash n ≡ hash m → n ≡ m)
    → approval_digest hash scale a ≡ ok (hash m)
    → approval_commitment scale a ≡ ok m
unfolding approval_digest
digest_determines hash scale a m collision_free h =
    let (n, e, f) = >>=-eq-ok (approval_commitment scale a) _ h in
    e ∙ ap ok (collision_free n (ok-injective f))

-- The approval that the claims name is stored, and its parameters are those of the document.
abbrev pub HoldsDocument : Env → Claims → Commitment → GatewayState → Type 0
HoldsDocument env claims m st =
    (a : Approval) × (lookup claims.approval_id st.approvals ≡ some a)
    × (approval_commitment env.amount_scale a ≡ ok m)

-- Where no other document has the digest of a given one, a posting that succeeds under a token with
-- that digest finds the approval of the token with exactly the parameters of the document: action,
-- amount, quota of each component, identifiers, currency, risk level and release.
pub posting_keeps_commitment :
    (env : Env) (ledger_id : ℕ) (key : Option ℕ) (t : Text) (actor : Actor) (case_id action_id : ℕ)
    (st : GatewayState) (entry : LedgerEntry) (st' : GatewayState) (claims : Claims)
    (m : Commitment)
    → ((n : Commitment) → env.digest n ≡ env.digest m → n ≡ m)
    → verify env t ledger_adjust ≡ ok claims
    → claims.parameters_digest ≡ some (env.digest m)
    → submit_single env ledger_id key (some t) actor case_id action_id st ≡ ok (entry, st')
    → HoldsDocument env claims m st
posting_keeps_commitment env ledger_id key t actor case_id action_id st entry st' claims m
      collision_free verified committed h =
    let (
      draft, t2, claims2, a, digest, _, _, _, _, same_token, verified2, _, _, found, _, _, claimed,
      recomputed,
    ) =
      posting_is_authorised env ledger_id key (some t) actor case_id action_id st entry st' h in
    let token_eq : t ≡ t2 = some-injective same_token in
    let claims_eq : claims2 ≡ claims =
      ok-injective
        (sym verified2 ∙ ap (λ x. verify env x ledger_adjust) (sym token_eq) ∙ verified) in
    let digest_eq : digest ≡ env.digest m =
      some-injective (sym claimed ∙ ap (λ c. c.parameters_digest) claims_eq ∙ committed) in
    (
      a,
      ap (λ c. lookup c.approval_id st.approvals) (sym claims_eq) ∙ found,
      digest_determines env.digest env.amount_scale a m collision_free
          (recomputed ∙ ap ok digest_eq),
    )
