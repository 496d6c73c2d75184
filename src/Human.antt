-- ===== src/Human.antt =====
-- The assertions of human approvers (revguard/hitl.py).
pub mod Assertions
mod Examples
use revguard.Base.{
  ℕ, ◌+◌, ◌-◌, Bool, true, false, not, ◌&&◌, Option, none, some, List, [], ◌∷◌, Dict, lookup,
  insert, ltb, ◌==◌, if◌then◌else◌, Text,
}
use revguard.Model.Errors.{Result, ok, err, ◌>>=◌, ◌>>◌, raise_if, or_raise, security_error}
use revguard.Base.Int.{pos}
use revguard.Model.Actors.{Actor, actor_eq}
use revguard.Access.{Scope, approval_decide, allowed_scopes, has_scope}
use revguard.Gateway.{Claims, HumanClaims, Env, Purpose, issue, verify}

-- An entry of the configured users: its subject, `none` where that is no full user identifier, and
-- its object, `none` where it is none; the actor of an object may be missing.
pub record ApproverEntry : Type 0 where
  pub actor : Option Actor
  pub display_name : Option ℕ

-- An entry of the allow-list.
pub record Approver : Type 0 where
  pub actor : Actor
  pub display_name : ℕ

-- `allowed is None or "approval:decide" not in allowed`
abbrev pub may_decide : Actor → Bool
may_decide actor = elim (allowed_scopes actor) [
  | none ↦ false
  | some scopes ↦ has_scope approval_decide scopes
]

abbrev pub name_or : Option ℕ → ℕ → ℕ
name_or none other = other
name_or (some n) other = n

abbrev pub check_entry : ℕ → Option ApproverEntry → Result Approver
check_entry subject item = do
  entry ← or_raise item security_error
  actor ← or_raise entry.actor security_error
  raise_if (not (may_decide actor)) security_error
  ok (record { actor = actor; display_name = name_or entry.display_name subject })

-- The loop of `load_human_approvers`, from the allow-list so far.
abbrev pub load_entries :
    List (Option ℕ × Option ApproverEntry) → Dict Approver → Result (Dict Approver)
load_entries [] approvers = ok approvers
load_entries ((subject, item) ∷ entries) approvers = do
  sub ← or_raise subject security_error
  approver ← check_entry sub item
  load_entries entries (insert sub approver approvers)

-- `load_human_approvers`, where `raw` is the object in the text, without members for an empty text, and
-- `none` for any other text that holds no object.
unfoldable pub load_human_approvers :
    Option (List (Option ℕ × Option ApproverEntry)) → Result (Dict Approver)
load_human_approvers raw = do entries ← or_raise raw security_error; load_entries entries []

pub record HumanIdentity : Type 0 where
  pub sub : ℕ
  pub actor : Actor
  pub display_name : ℕ
  pub auth_time : ℕ
  pub auth_method : ℕ

-- `identity_for_subject`
unfoldable pub identity_for_subject : Dict Approver → ℕ → ℕ → ℕ → Result HumanIdentity
identity_for_subject approvers subject auth_method auth_time = do
  mapped ← or_raise (lookup subject approvers) security_error
  ok (record {
    sub = subject;
    actor = mapped.actor;
    display_name = mapped.display_name;
    auth_time = auth_time;
    auth_method = auth_method;
  })

abbrev pub human_claims : HumanIdentity → ℕ → ℕ → ℕ → Claims
human_claims identity case_id approval_id action = record {
  jti = 0;
  case_id = case_id;
  currency = 0;
  approval_id = approval_id;
  parameters_digest = none;
  max_amount = pos 0;
  component_quota = none;
  ledger_id = 0;
  human = some (record {
    sub = identity.sub;
    actor = identity.actor;
    action = action;
    display_name = some identity.display_name;
    auth_time = some identity.auth_time;
    auth_method = some identity.auth_method;
  });
}

-- `issue_human_action_assertion`
unfoldable pub issue_human_action_assertion : Env → HumanIdentity → ℕ → ℕ → ℕ → ℕ → ℕ → Text
issue_human_action_assertion env identity case_id approval_id action ttl_seconds jti =
    issue env Purpose.human_assertion (human_claims identity case_id approval_id action) ttl_seconds
      jti

pub record HumanActionProof : Type 0 where
  pub identity : HumanIdentity
  pub case_id : ℕ
  pub approval_id : ℕ
  pub action : ℕ
  pub assertion_id : ℕ

-- `verify_human_action_assertion`; `default_method` is the text `matrix-password`, and a `jti` of 0
-- is the empty text.
unfoldable pub verify_human_action_assertion :
    Env → Text → Dict Approver → ℕ → ℕ → ℕ → ℕ → ℕ → Result HumanActionProof
verify_human_action_assertion env token approvers case_id approval_id action max_auth_age_seconds
      default_method =
    do
      claims ← verify env token Purpose.human_assertion
      raise_if (not (claims.case_id == case_id)) security_error
      raise_if (not (claims.approval_id == approval_id)) security_error
      human ← or_raise claims.human security_error
      raise_if (not (human.action == action)) security_error
      mapped ← or_raise (lookup human.sub approvers) security_error
      raise_if (not (actor_eq human.actor mapped.actor)) security_error
      auth_time ← or_raise human.auth_time security_error
      raise_if (ltb (env.now + 30) auth_time) security_error
      raise_if (ltb max_auth_age_seconds (env.now - auth_time)) security_error
      raise_if (claims.jti == 0) security_error
      ok (record {
        identity = record {
          sub = human.sub;
          actor = mapped.actor;
          display_name = name_or human.display_name mapped.display_name;
          auth_time = auth_time;
          auth_method = name_or human.auth_method default_method;
        };
        case_id = case_id;
        approval_id = approval_id;
        action = action;
        assertion_id = claims.jti;
      })
