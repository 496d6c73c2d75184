-- ===== src/Human/Examples.antt =====
-- A sign-in, its assertion, and the theorem at its values.
use revguard.Base.{◌≡◌, Option, none, some, [], ◌∷◌, Dict, Text, refl, false}
use revguard.Base.Int.{pos}
use revguard.Model.Errors.{ok, err, security_error}
use revguard.Model.Actors.{Actor}
use revguard.Access.{allowed_scopes}
use revguard.Gateway.{Env, issue, verify}
use revguard.Gateway.Coding.{read, write}
use revguard.Human.{
  ApproverEntry, Approver, load_human_approvers, HumanIdentity, identity_for_subject,
  issue_human_action_assertion, HumanActionProof, verify_human_action_assertion,
}
use revguard.Human.Assertions.{IsDecisionOfLead, accepted_assertion_is_of_lead}

abbrev env : Env
env = record {
  open_token = read;
  seal = write;
  digest = λ _. 0;
  amount_scale = 2;
  issuer = 5;
  now = 1000;
  release = none;
  require_references = false;
  tamper_amount = pos 0;
  tamper_targets = λ _. false;
}

abbrev entry_of : Actor → Option ApproverEntry
entry_of actor = some (record { actor = some actor; display_name = none })

abbrev approvers : Dict Approver
approvers = (61, record { actor = Actor.finance_lead; display_name = 61 }) ∷ []

loading : load_human_approvers (some ((some 61, entry_of Actor.finance_lead) ∷ [])) ≡ ok approvers
unfolding load_human_approvers allowed_scopes
loading = refl

-- The executor cannot be made an approver.
test_executor :
    load_human_approvers (some ((some 61, entry_of Actor.executor) ∷ [])) ≡ err security_error
unfolding load_human_approvers allowed_scopes
test_executor = refl

abbrev identity : HumanIdentity
identity = record {
  sub = 61;
  actor = Actor.finance_lead;
  display_name = 61;
  auth_time = 990;
  auth_method = 2;
}

test_identity : identity_for_subject approvers 61 2 990 ≡ ok identity
unfolding identity_for_subject
test_identity = refl

abbrev token : Text
token = issue_human_action_assertion env identity 7 40 1 120 77

abbrev proof : HumanActionProof
proof = record { identity = identity; case_id = 7; approval_id = 40; action = 1; assertion_id = 77 }

accepting : verify_human_action_assertion env token approvers 7 40 1 300 9 ≡ ok proof
unfolding verify_human_action_assertion issue_human_action_assertion issue verify
accepting = refl

-- The same assertion for another approval, and for a shorter age.
test_other_approval :
    verify_human_action_assertion env token approvers 7 41 1 300 9 ≡ err security_error
unfolding verify_human_action_assertion issue_human_action_assertion issue verify
test_other_approval = refl

test_too_old : verify_human_action_assertion env token approvers 7 40 1 5 9 ≡ err security_error
unfolding verify_human_action_assertion issue_human_action_assertion issue verify
test_too_old = refl

accepted_assertion_is_of_lead_example : IsDecisionOfLead env token approvers 7 40 1 300 proof
accepted_assertion_is_of_lead_example =
    accepted_assertion_is_of_lead env (some ((some 61, entry_of Actor.finance_lead) ∷ [])) approvers
      token 7 40 1 300 9 proof loading accepting
