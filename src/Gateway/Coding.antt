-- ===== src/Gateway/Coding.antt =====
-- A way to write the payload of a token as a text and to read it back, without a signature: the
-- concrete functions with which the tests run.
use revguard.Base.{List, Text, ℕ, zero, suc, ◌≡◌, Option, none, some, [], ◌∷◌, ◌++◌, Dict, refl, ap}
use revguard.Base.Int.{ℤ, pos, negsuc}
use revguard.Model.Actors.{Actor, actor_index}
use revguard.Gateway.{HumanClaims, Payload, Purpose}

abbrev purpose_code : Purpose → ℕ
purpose_code Purpose.ledger_adjust = 0
purpose_code Purpose.ledger_reverse = 1
purpose_code Purpose.human_assertion = 2

abbrev code_purpose : ℕ → Purpose
code_purpose zero = Purpose.ledger_adjust
code_purpose (suc zero) = Purpose.ledger_reverse
code_purpose _ = Purpose.human_assertion

abbrev option_code : Option ℕ → ℕ
option_code none = 0
option_code (some n) = suc n

abbrev code_option : ℕ → Option ℕ
code_option zero = none
code_option (suc n) = some n

abbrev sign_code : ℤ → ℕ
sign_code (pos n) = 0
sign_code (negsuc n) = 1

abbrev size_code : ℤ → ℕ
size_code (pos n) = n
size_code (negsuc n) = n

abbrev code_int : ℕ → ℕ → ℤ
code_int zero n = pos n
code_int (suc _) n = negsuc n

abbrev listed_actors : List Actor
listed_actors =
    Actor.orchestrator ∷ Actor.intake ∷ Actor.evidence ∷ Actor.policy ∷ Actor.calculation
    ∷ Actor.rootcause ∷ Actor.risk ∷ Actor.executor ∷ Actor.verifier ∷ Actor.knowledge
    ∷ Actor.finance_lead ∷ Actor.api_operator ∷ Actor.api_viewer ∷ Actor.agentteams_worker ∷ []

abbrev stranger_code : Actor → ℕ
stranger_code (Actor.stranger n) = suc n
stranger_code _ = 0

abbrev nth_actor : List Actor → ℕ → Actor
nth_actor [] n = Actor.orchestrator
nth_actor (a ∷ rest) zero = a
nth_actor (a ∷ rest) (suc n) = nth_actor rest n

abbrev code_actor : ℕ → ℕ → Actor
code_actor zero i = nth_actor listed_actors i
code_actor (suc n) i = Actor.stranger n

abbrev human_code : Option HumanClaims → Text
human_code none = 0 ∷ 0 ∷ 0 ∷ 0 ∷ 0 ∷ 0 ∷ 0 ∷ 0 ∷ []
human_code (some h) =
    1
    ∷ h.sub
    ∷ stranger_code h.actor
    ∷ actor_index h.actor
    ∷ h.action
    ∷ option_code h.display_name
    ∷ option_code h.auth_time
    ∷ option_code h.auth_method
    ∷ []

abbrev code_human : Text → Option HumanClaims
code_human (suc _ ∷ s ∷ x ∷ i ∷ a ∷ d ∷ t ∷ m ∷ _) = some (record {
  sub = s;
  actor = code_actor x i;
  action = a;
  display_name = code_option d;
  auth_time = code_option t;
  auth_method = code_option m;
})
code_human _ = none

abbrev after_human : Text → Text
after_human (_ ∷ _ ∷ _ ∷ _ ∷ _ ∷ _ ∷ _ ∷ _ ∷ rest) = rest
after_human _ = []

abbrev quota_code : Dict ℤ → Text
quota_code [] = []
quota_code ((c, n) ∷ quota) = c ∷ sign_code n ∷ size_code n ∷ quota_code quota

abbrev code_quota : Text → Dict ℤ
code_quota (c ∷ s ∷ n ∷ rest) = (c, code_int s n) ∷ code_quota rest
code_quota _ = []

abbrev quota_option_code : Option (Dict ℤ) → Text
quota_option_code none = []
quota_option_code (some quota) = 0 ∷ quota_code quota

abbrev code_quota_option : Text → Option (Dict ℤ)
code_quota_option [] = none
code_quota_option (_ ∷ rest) = some (code_quota rest)

abbrev pub write : Payload → Text
write p =
    p.version
    ∷ p.issuer
    ∷ purpose_code p.purpose
    ∷ option_code p.issued_at
    ∷ option_code p.expires_at
    ∷ p.claims.jti
    ∷ p.claims.case_id
    ∷ p.claims.currency
    ∷ p.claims.approval_id
    ∷ option_code p.claims.parameters_digest
    ∷ sign_code p.claims.max_amount
    ∷ size_code p.claims.max_amount
    ∷ p.claims.ledger_id
    ∷ (human_code p.claims.human ++ quota_option_code p.claims.component_quota)

abbrev pub read : Text → Option Payload
read (v ∷ i ∷ u ∷ a ∷ e ∷ j ∷ c ∷ y ∷ r ∷ d ∷ s ∷ n ∷ l ∷ rest) = some (record {
  version = v;
  issuer = i;
  purpose = code_purpose u;
  issued_at = code_option a;
  expires_at = code_option e;
  claims = record {
    jti = j;
    case_id = c;
    currency = y;
    approval_id = r;
    parameters_digest = code_option d;
    max_amount = code_int s n;
    component_quota = code_quota_option (after_human rest);
    ledger_id = l;
    human = code_human rest;
  };
})
read _ = none

purpose_back : (p : Purpose) → code_purpose (purpose_code p) ≡ p
purpose_back Purpose.ledger_adjust = refl
purpose_back Purpose.ledger_reverse = refl
purpose_back Purpose.human_assertion = refl

option_back : (o : Option ℕ) → code_option (option_code o) ≡ o
option_back none = refl
option_back (some n) = refl

int_back : (n : ℤ) → code_int (sign_code n) (size_code n) ≡ n
int_back (pos n) = refl
int_back (negsuc n) = refl

quota_back : (quota : Dict ℤ) → code_quota (quota_code quota) ≡ quota
quota_back [] = refl
quota_back ((c, n) ∷ quota) = rw (int_back n, quota_back quota) refl

quota_option_back : (o : Option (Dict ℤ)) → code_quota_option (quota_option_code o) ≡ o
quota_option_back none = refl
quota_option_back (some quota) = ap some (quota_back quota)

actor_back : (a : Actor) → code_actor (stranger_code a) (actor_index a) ≡ a
actor_back Actor.orchestrator = refl
actor_back Actor.intake = refl
actor_back Actor.evidence = refl
actor_back Actor.policy = refl
actor_back Actor.calculation = refl
actor_back Actor.rootcause = refl
actor_back Actor.risk = refl
actor_back Actor.executor = refl
actor_back Actor.verifier = refl
actor_back Actor.knowledge = refl
actor_back Actor.finance_lead = refl
actor_back Actor.api_operator = refl
actor_back Actor.api_viewer = refl
actor_back Actor.agentteams_worker = refl
actor_back (Actor.stranger n) = refl

human_back : (o : Option HumanClaims) (rest : Text) → code_human (human_code o ++ rest) ≡ o
human_back none rest = refl
human_back (some h) rest = simp (
  actor_back h.actor,
  option_back h.display_name,
  option_back h.auth_time,
  option_back h.auth_method,
)

rest_back : (o : Option HumanClaims) (rest : Text) → after_human (human_code o ++ rest) ≡ rest
rest_back none rest = refl
rest_back (some h) rest = refl

-- Reading what was written gives the payload back.
pub read-write : (p : Payload) → read (write p) ≡ some p
read-write p = simp (
  purpose_back p.purpose,
  option_back p.issued_at,
  option_back p.expires_at,
  option_back p.claims.parameters_digest,
  int_back p.claims.max_amount,
  human_back p.claims.human (quota_option_code p.claims.component_quota),
  rest_back p.claims.human (quota_option_code p.claims.component_quota),
  quota_option_back p.claims.component_quota,
)
