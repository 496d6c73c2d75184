-- ===== src/Gateway/Limits.antt =====
-- What a token allows over any number of postings (`_submit_single`, revguard/mocks.py).
use revguard.Base.{
  Text, ℕ, ◌≡◌, ◌+◌, Bool, true, false, not, ◌&&◌, ◌||◌, Option, none, some, Dict, refl,
  if◌then◌else◌, insert, lookup-insert, ◌==◌, ==_iff, ◌⊎◌, inl, inr, arith, sym, ap, ◌∙◌,
  Bool-cases,
}
use revguard.Base.Int.{pos, abs_ℤ}
use revguard.Model.Errors.{
  ok, raise_if, or_raise, tool_error, auth_failed, >>=-eq-ok, raise_if-eq-ok, or_raise-eq-ok,
  security_error, ok-injective,
}
use revguard.Model.Actors.{Actor}
use revguard.Model.Money.{Draft, LedgerEntry, GatewayState}
use revguard.Gateway.{Claims, Env, Payload, Purpose, verify, purpose_eq, is_expired, is_from_future}
use revguard.Gateway.Submission.{exceeds, amount_at, check_amount, submit_single, post}
use revguard.Gateway.Posting.{Posting, submit_single-Posting}

verify-eq-ok :
    (env : Env) (t : Text) (purpose : Purpose) {claims : Claims}
    → verify env t purpose ≡ ok claims
    → (payload : Payload) × (env.open_token t ≡ some payload) × (payload.claims ≡ claims)
unfolding verify
verify-eq-ok env t purpose h =
    let (payload, a, h1) = >>=-eq-ok (or_raise (env.open_token t) security_error) _ h in
    let (_, _, h2) = >>=-eq-ok (raise_if (not (payload.version == 1)) security_error) _ h1 in
    let (_, _, h3) =
      >>=-eq-ok
        (raise_if (not (payload.issuer == env.issuer && purpose_eq payload.purpose purpose))
          security_error)
        _ h2 in
    let (_, _, h4) =
      >>=-eq-ok (raise_if (is_expired env.now payload.expires_at) security_error) _ h3 in
    let (_, _, h5) =
      >>=-eq-ok (raise_if (is_from_future env.now payload.issued_at) security_error) _ h4 in
    (payload, or_raise-eq-ok _ _ a, ok-injective h5)

check_amount-eq-ok :
    (claims : Claims) (draft : Draft) (st : GatewayState)
    → check_amount claims draft st ≡ ok tt
    → exceeds (amount_at claims.jti st.token_consumed_amount + abs_ℤ draft.amount) claims.max_amount
      ≡ false
unfolding check_amount
check_amount-eq-ok claims draft st h =
    let (_, a, _) =
      >>=-eq-ok
        (raise_if
          (abs_ℤ draft.amount == 0
            || exceeds (amount_at claims.jti st.token_consumed_amount + abs_ℤ draft.amount)
                claims.max_amount)
          (tool_error auth_failed))
        _ h in
    let b = raise_if-eq-ok _ _ a in ground arith

-- Any number of successful postings, by any callers, where tokens are read in one way.
pub data Postings (open_token : Text → Option Payload) (start : GatewayState)
    : GatewayState → Type 0 where
  none_yet : Postings open_token start start
  then_one :
      {st : GatewayState} (env : Env) (ledger_id : ℕ) (key : Option ℕ) (token : Option Text)
      (actor : Actor) (case_id action_id : ℕ) (entry : LedgerEntry) (st' : GatewayState)
      → Postings open_token start st
      → ((t : Text) → env.open_token t ≡ open_token t)
      → submit_single env ledger_id key token actor case_id action_id st ≡ ok (entry, st')
      → Postings open_token start st'

-- `jti` is drawn at random when a token is issued: two tokens with one `jti` have one limit.
abbrev pub IsUnique : (Text → Option Payload) → Type 0
IsUnique open_token =
    (t u : Text) (p q : Payload)
    → open_token t ≡ some p
    → open_token u ≡ some q
    → p.claims.jti ≡ q.claims.jti
    → p.claims.max_amount ≡ q.claims.max_amount

amount_at-insert :
    (j k n : ℕ) (d : Dict ℕ)
    → amount_at j (insert k n d) ≡ (elim (j == k) [ true ↦ n | false ↦ amount_at j d ])
amount_at-insert j k n d = ground (arith, lookup-insert j k n d)

abbrev pub has_identifier : ℕ → Option Payload → Bool
has_identifier jti none = false
has_identifier jti (some p) = jti == p.claims.jti

-- Whether a posting is made under a token with the identifier `jti`.
abbrev pub spends : (Text → Option Payload) → ℕ → Option Text → Bool
spends open_token jti none = false
spends open_token jti (some t) = has_identifier jti (open_token t)

-- The sum of the sizes of the ledger entries that are posted under the tokens with one identifier.
abbrev pub total_posted :
    {open_token : Text → Option Payload} {start end : GatewayState}
    → ℕ
    → Postings open_token start end
    → ℕ
total_posted jti none_yet = 0
total_posted {open_token} jti
      (then_one env ledger_id key token actor case_id action_id entry st' before same_reading
        success) =
    total_posted jti before + (if spends open_token jti token then abs_ℤ entry.amount else 0)

-- No posting is made with an amount that the ablation runs inject.
abbrev pub HasNoFaults :
    {open_token : Text → Option Payload} {start end : GatewayState}
    → Postings open_token start end
    → Type 0
HasNoFaults none_yet = Unit
HasNoFaults
      (then_one env ledger_id key token actor case_id action_id entry st' before same_reading
        success) =
    HasNoFaults before × (env.tamper_amount ≡ pos 0)

module _ {open_token : Text → Option Payload} {env : Env} {ledger_id : ℕ} {key : Option ℕ}
    {token : Option Text} {actor : Actor} {case_id action_id : ℕ} {st : GatewayState}
    {entry : LedgerEntry} {st' : GatewayState}
    (same_reading : (t : Text) → env.open_token t ≡ open_token t)
    (no_fault : env.tamper_amount ≡ pos 0)
    (posting : Posting env ledger_id key token actor case_id action_id st entry st') where
  -- The payload of the posting's token.
  token_of_posting : (q : Payload) × (open_token posting.t ≡ some q) × (q.claims ≡ posting.claims)
  token_of_posting =
      let (q, read, is_claims) =
        verify-eq-ok env posting.t Purpose.ledger_adjust posting.verified in
      (q, sym (same_reading posting.t) ∙ read, is_claims)

  spends-posting : (jti : ℕ) → spends open_token jti token ≡ (jti == posting.claims.jti)
  spends-posting jti =
      let (q, read, is_claims) = token_of_posting in
      rw (posting.at_token, read) (ap (λ c. jti == c.jti) is_claims)

  amount_of_posting : entry.amount ≡ posting.draft.amount
  amount_of_posting = ground (arith, posting.posted)

  -- The counter of an identifier grows by what is posted under it.
  posting_is_counted :
      (jti : ℕ)
      → amount_at jti st'.token_consumed_amount
        ≡ amount_at jti st.token_consumed_amount
          + (if spends open_token jti token then abs_ℤ entry.amount else 0)
  unfolding post
  posting_is_counted jti =
      let new =
        amount_at posting.claims.jti st.token_consumed_amount + abs_ℤ posting.draft.amount in
      rw
        (
          posting.after,
          amount_at-insert jti posting.claims.jti new st.token_consumed_amount,
          spends-posting jti,
          amount_of_posting,
        )
        (elim (Bool-cases (jti == posting.claims.jti)) [
          | inr other ↦ rw other (omega arith)
          | inl same ↦
              let at : jti ≡ posting.claims.jti = (==_iff jti posting.claims.jti).0 same in
              rw (same, at) refl
        ])

  posting_is_allowed :
      (t : Text) (p : Payload)
      → IsUnique open_token
      → open_token t ≡ some p
      → spends open_token p.claims.jti token ≡ true
      → exceeds
          (amount_at p.claims.jti st.token_consumed_amount + abs_ℤ entry.amount)
          p.claims.max_amount
        ≡ false
  posting_is_allowed t p unique read this =
      let (q, read', is_claims) = token_of_posting in
      let same : p.claims.jti ≡ posting.claims.jti =
        (==_iff p.claims.jti posting.claims.jti).0 (sym (spends-posting p.claims.jti) ∙ this) in
      let limit : p.claims.max_amount ≡ q.claims.max_amount =
        unique t posting.t p q read read' (same ∙ sym (ap (λ c. c.jti) is_claims)) in
      rw (limit ∙ ap (λ c. c.max_amount) is_claims, same, amount_of_posting)
        (check_amount-eq-ok posting.claims posting.draft st posting.amount)

counter_is_total :
    {open_token : Text → Option Payload} {start end : GatewayState}
    (postings : Postings open_token start end)
    → HasNoFaults postings
    → (jti : ℕ)
    → amount_at jti end.token_consumed_amount
      ≡ amount_at jti start.token_consumed_amount + total_posted jti postings
counter_is_total none_yet _ jti = omega arith
counter_is_total
      (then_one {st} env ledger_id key token actor case_id action_id entry st' before same_reading
        success)
      (clean, no_fault) jti =
    omega (
      arith,
      counter_is_total before clean jti,
      posting_is_counted same_reading no_fault
          (submit_single-Posting env ledger_id key token actor case_id action_id st success) jti,
    )

-- Where tokens with one identifier allow one amount and no faulty amount is injected: if anything is
-- posted under the identifier of a token, then the sizes of all the ledger entries that are posted
-- under it and what had been consumed before them add up to no more than the token allows.
pub tokens_are_not_overspent :
    {open_token : Text → Option Payload} {start end : GatewayState}
    (postings : Postings open_token start end) (t : Text) (p : Payload)
    → IsUnique open_token
    → HasNoFaults postings
    → open_token t ≡ some p
    → (total_posted p.claims.jti postings ≡ 0)
      ⊎ (exceeds
            (amount_at p.claims.jti start.token_consumed_amount
              + total_posted p.claims.jti postings)
            p.claims.max_amount
          ≡ false)
tokens_are_not_overspent none_yet t p unique _ read = inl refl
tokens_are_not_overspent {open_token} {start}
      (then_one {st} env ledger_id key token actor case_id action_id entry st' before same_reading
        success)
      t p unique (clean, no_fault) read =
    let posting =
      submit_single-Posting env ledger_id key token actor case_id action_id st success in
    elim (Bool-cases (spends open_token p.claims.jti token)) [
      | inr other ↦
          let unchanged : total_posted p.claims.jti before + 0 ≡ total_posted p.claims.jti before =
            omega arith in
          rw (other, unchanged) (tokens_are_not_overspent before t p unique clean read)
      | inl this ↦
          let allowed = posting_is_allowed same_reading no_fault posting t p unique read this in
          let counted : amount_at p.claims.jti start.token_consumed_amount
                + (total_posted p.claims.jti before + abs_ℤ entry.amount)
              ≡ amount_at p.claims.jti st.token_consumed_amount + abs_ℤ entry.amount =
            omega (arith, counter_is_total before clean p.claims.jti) in
          rw (this, counted) (inr allowed)
    ]
