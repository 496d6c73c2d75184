-- ===== src/Gateway/Tokens.antt =====
-- What becomes of a token that was issued (`CapabilityTokenSigner`, revguard/security.py).
use revguard.Base.{
  ℕ, ◌+◌, ◌≤◌, ◌<◌, ◌≡◌, Bool, true, ◌&&◌, some, ltb, leb, ==_refl, arith, refl, if◌then◌else◌,
}
use revguard.Model.Errors.{ok, err, security_error}
use revguard.Gateway.{Claims, Payload, Purpose, purpose_eq, Env, issue, verify}

-- The same gateway at another time.
abbrev pub at_time : ℕ → Env → Env
at_time now env = record env { now = now }

-- The encoding of a token keeps its payload: the signature is that of the same key.
abbrev pub Seals : Env → Type 0
Seals env = (p : Payload) → env.open_token (env.seal p) ≡ some p

abbrev pub with_jti : ℕ → Claims → Claims
with_jti jti claims = record claims { jti = jti }

-- When a token that was issued at one time for one purpose is good for another.
abbrev pub is_good : ℕ → ℕ → ℕ → Purpose → Purpose → Bool
is_good issued ttl now given wanted =
    purpose_eq given wanted && ltb now (issued + ttl) && leb issued (now + 30)

-- Where opening a token undoes sealing it, a token verifies at a time and for a purpose exactly when
-- it was issued for that purpose, its lifetime has not passed, and its issue lies at most 30 seconds
-- ahead; it then gives back the claims it was issued with under its new identifier, and otherwise a
-- security error.
pub issued_token_verifies :
    (env : Env) (seals : Seals env) (given wanted : Purpose) (claims : Claims) (ttl jti now : ℕ)
    → verify (at_time now env) (issue env given claims ttl jti) wanted ≡ (
        if is_good env.now ttl now given wanted
        then ok (with_jti jti claims)
        else err security_error)
unfolding issue verify
issued_token_verifies env seals given wanted claims ttl jti now = rw (seals, ==_refl) (ground arith)

purpose_eq_refl : (p : Purpose) → purpose_eq p p ≡ true
purpose_eq_refl Purpose.ledger_adjust = refl
purpose_eq_refl Purpose.ledger_reverse = refl
purpose_eq_refl Purpose.human_assertion = refl

pub issued_token_is_good :
    (env : Env) (seals : Seals env) (purpose : Purpose) (claims : Claims) (ttl jti now : ℕ)
    → env.now ≤ now
    → now < env.now + ttl
    → verify (at_time now env) (issue env purpose claims ttl jti) purpose ≡ ok (with_jti jti claims)
issued_token_is_good env seals purpose claims ttl jti now from till =
    let same : purpose_eq purpose purpose ≡ true = purpose_eq_refl purpose in
    let good : is_good env.now ttl now purpose purpose ≡ true = ground arith in
    rw (issued_token_verifies env seals purpose purpose claims ttl jti now, good) refl
