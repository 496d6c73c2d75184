-- ===== src/Gateway.antt =====
-- The money handlers of the tool gateway (revguard/mocks.py: `_submit_single`, `_reverse_single`)
-- and the capability tokens that they check (`CapabilityTokenSigner.verify`, revguard/security.py).
pub mod Submission
pub mod Posting
pub mod Facts
pub mod Tokens
pub mod Coding
pub mod Limits
pub mod Replay
pub mod Reversal
pub mod Balance
mod Examples
use revguard.Base.{
  Text, ℕ, ◌+◌, Bool, true, false, not, ◌&&◌, ◌||◌, Option, none, some, List, Dict, lookup, ltb,
  leb, ◌==◌, option_eq, if◌then◌else◌,
}
use revguard.Base.Int.{ℤ, pos, negsuc}
use revguard.Model.Errors.{
  Error, ToolErrorType, Result, ok, err, ◌>>=◌, ◌>>◌, raise_if, or_raise, security_error,
  tool_error, auth_failed,
}
use revguard.Model.Actors.{Actor}
use revguard.Commitment.{Commitment}

-- The claims of a human assertion (revguard/hitl.py); what is absent or of another kind is `none`.
pub record HumanClaims : Type 0 where
  pub sub : ℕ
  pub actor : Actor
  pub action : ℕ
  pub display_name : Option ℕ
  pub auth_time : Option ℕ
  pub auth_method : Option ℕ

-- The claims that the handlers read. `component_quota` is `none` where it is no object.
pub record Claims : Type 0 where
  pub jti : ℕ
  pub case_id : ℕ
  pub currency : ℕ
  pub approval_id : ℕ
  pub parameters_digest : Option ℕ
  pub max_amount : ℤ
  pub component_quota : Option (Dict ℤ)
  pub ledger_id : ℕ
  pub human : Option HumanClaims

pub data Purpose : Type 0 where
  ledger_adjust ledger_reverse human_assertion : Purpose

abbrev pub purpose_eq : Purpose → Purpose → Bool
purpose_eq ledger_adjust ledger_adjust = true
purpose_eq ledger_reverse ledger_reverse = true
purpose_eq human_assertion human_assertion = true
purpose_eq _ _ = false

-- The payload of a token; a time that is no integer is `none`.
pub record Payload : Type 0 where
  pub version : ℕ
  pub issuer : ℕ
  pub purpose : Purpose
  pub issued_at : Option ℕ
  pub expires_at : Option ℕ
  pub claims : Claims

-- What a gateway brings: `open_token` splits a token, checks its HMAC signature and reads its JSON;
-- `seal` writes a token with its signature; `digest` is the SHA-256 digest of a commitment, whose
-- amounts count units of 10^-amount_scale; `tamper_amount` and
-- `tamper_targets` are the fault injection of the ablation runs.
pub record Env : Type 0 where
  pub open_token : Text → Option Payload
  pub issuer : ℕ
  pub now : ℕ
  pub seal : Payload → Text
  pub digest : Commitment → ℕ
  pub amount_scale : ℕ
  pub release : Option ℕ
  pub require_references : Bool
  pub tamper_amount : ℤ
  pub tamper_targets : ℕ → Bool

abbrev pub is_expired : ℕ → Option ℕ → Bool
is_expired now none = true
is_expired now (some expires) = leb expires now

abbrev pub is_from_future : ℕ → Option ℕ → Bool
is_from_future now none = true
is_from_future now (some issued) = ltb (now + 30) issued

-- `CapabilityTokenSigner.issue`; `jti` is the random identifier that it draws.
unfoldable pub issue : Env → Purpose → Claims → ℕ → ℕ → Text
issue env purpose claims ttl_seconds jti = env.seal (record {
  version = 1;
  issuer = env.issuer;
  purpose = purpose;
  issued_at = some env.now;
  expires_at = some (env.now + ttl_seconds);
  claims = record claims { jti = jti };
})

-- `CapabilityTokenSigner.verify`
unfoldable pub verify : Env → Text → Purpose → Result Claims
verify env token purpose = do
  payload ← or_raise (env.open_token token) security_error
  raise_if (not (payload.version == 1)) security_error
  raise_if (not (payload.issuer == env.issuer && purpose_eq payload.purpose purpose)) security_error
  raise_if (is_expired env.now payload.expires_at) security_error
  raise_if (is_from_future env.now payload.issued_at) security_error
  ok payload.claims

-- `except SecurityError as exc: raise ToolError("AUTH_FAILED", ...)`
abbrev pub or_auth_failed {ℓ} : {A : Type ℓ} → Result A → Result A
or_auth_failed (ok a) = ok a
or_auth_failed (err security_error) = err (tool_error auth_failed)
or_auth_failed (err e) = err e
