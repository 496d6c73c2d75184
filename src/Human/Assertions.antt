-- ===== src/Human/Assertions.antt =====
-- Whose decision a verified assertion is (revguard/hitl.py, with the scopes of revguard/security.py).
use revguard.Base.{
  ℕ, ◌+◌, ◌-◌, ◌≤◌, ◌≡◌, true, false, not, Option, some, List, [], ◌∷◌, Dict, lookup, insert,
  lookup-insert, ltb, ◌==◌, Text, arith, refl, sym, ap, ◌∙◌, Bool-cases, inl, inr, subst,
}
use revguard.Model.Errors.{
  ok, raise_if, or_raise, security_error, >>=-eq-ok, ok-injective, or_raise-eq-ok, raise_if-eq-ok,
}
use revguard.Model.Actors.{Actor, actor_eq}
use revguard.Access.{allowed_scopes}
use revguard.Gateway.{Claims, HumanClaims, Env, Purpose, verify}
use revguard.Human.{
  ApproverEntry, Approver, may_decide, check_entry, load_entries, load_human_approvers,
  HumanActionProof, verify_human_action_assertion,
}

finance_lead_only : (a : Actor) → may_decide a ≡ true → a ≡ Actor.finance_lead
unfolding allowed_scopes
finance_lead_only a h = ground arith

-- Everyone on the allow-list is the finance lead.
abbrev pub ListsFinanceLeads : Dict Approver → Type 0
ListsFinanceLeads approvers =
    (sub : ℕ) (a : Approver) → lookup sub approvers ≡ some a → a.actor ≡ Actor.finance_lead

check_entry-finance_lead :
    (sub : ℕ) (item : Option ApproverEntry) (a : Approver)
    → check_entry sub item ≡ ok a
    → a.actor ≡ Actor.finance_lead
check_entry-finance_lead sub item a h =
    let (entry, _, h1) = >>=-eq-ok (or_raise item security_error) _ h in
    let (actor, _, h2) = >>=-eq-ok (or_raise entry.actor security_error) _ h1 in
    let (_, allowed, h3) = >>=-eq-ok (raise_if (not (may_decide actor)) security_error) _ h2 in
    let decides : may_decide actor ≡ true = ground arith in
    ap (λ x. x.actor) (sym (ok-injective h3)) ∙ finance_lead_only actor decides

load_entries-ListsFinanceLeads :
    (entries : List (Option ℕ × Option ApproverEntry)) (start approvers : Dict Approver)
    → ListsFinanceLeads start
    → load_entries entries start ≡ ok approvers
    → ListsFinanceLeads approvers
load_entries-ListsFinanceLeads [] start approvers before h =
    subst ListsFinanceLeads (ok-injective h) before
load_entries-ListsFinanceLeads ((subject, item) ∷ entries) start approvers before h =
    let (sub, _, h1) = >>=-eq-ok (or_raise subject security_error) _ h in
    let (a, checked, h2) = >>=-eq-ok (check_entry sub item) _ h1 in
    load_entries-ListsFinanceLeads entries (insert sub a start) approvers
      (with_entry sub a start before (check_entry-finance_lead sub item a checked)) h2
  where
    with_entry :
        (sub : ℕ) (a : Approver) (d : Dict Approver)
        → ListsFinanceLeads d
        → a.actor ≡ Actor.finance_lead
        → ListsFinanceLeads (insert sub a d)
    with_entry sub a d before lead j b at = elim (Bool-cases (j == sub)) [
      | inl here ↦
          let stored : lookup j (insert sub a d) ≡ some a =
            lookup-insert j sub a d ∙ rw here refl in
          let found : some a ≡ some b = sym stored ∙ at in let same : a ≡ b = cc in rw (← same) lead
      | inr other ↦
          let kept : lookup j (insert sub a d) ≡ lookup j d =
            lookup-insert j sub a d ∙ rw other refl in
          before j b (sym kept ∙ at)
    ]

pub load_human_approvers-ListsFinanceLeads :
    (raw : Option (List (Option ℕ × Option ApproverEntry))) (approvers : Dict Approver)
    → load_human_approvers raw ≡ ok approvers
    → ListsFinanceLeads approvers
unfolding load_human_approvers
load_human_approvers-ListsFinanceLeads raw approvers h =
    let (entries, _, h1) = >>=-eq-ok (or_raise raw security_error) _ h in
    load_entries-ListsFinanceLeads entries [] approvers (λ sub a at. absurd (cc)) h1

-- The proof is of the demanded action, by an account of the allow-list that is the finance lead's,
-- from a token for just this case, approval and action, and the account signed in recently.
abbrev pub IsDecisionOfLead : Env → Text → Dict Approver → ℕ → ℕ → ℕ → ℕ → HumanActionProof → Type 0
IsDecisionOfLead env token approvers case_id approval_id action max_age proof =
    (claims : Claims) × (human : HumanClaims) × (a : Approver) × (verify env token
        Purpose.human_assertion
      ≡ ok claims)
    × (claims.human ≡ some human)
    × (claims.case_id ≡ case_id)
    × (claims.approval_id ≡ approval_id)
    × (human.action ≡ action)
    × (proof.assertion_id ≡ claims.jti)
    × (lookup proof.identity.sub approvers ≡ some a)
    × (proof.identity.actor ≡ Actor.finance_lead)
    × (proof.identity.auth_time ≤ env.now + 30)
    × (env.now ≤ proof.identity.auth_time + max_age)

-- If the allow-list was loaded from the configuration, an assertion that is accepted comes from a
-- valid token for exactly the demanded case, approval and action, of an account on the list that acts
-- as the finance lead and signed in at most the allowed age before and 30 seconds after the present.
pub accepted_assertion_is_of_lead :
    (env : Env) (raw : Option (List (Option ℕ × Option ApproverEntry))) (approvers : Dict Approver)
    (token : Text) (case_id approval_id action max_age default_method : ℕ)
    (proof : HumanActionProof)
    → load_human_approvers raw ≡ ok approvers
    → verify_human_action_assertion env token approvers case_id approval_id action max_age
        default_method
      ≡ ok proof
    → IsDecisionOfLead env token approvers case_id approval_id action max_age proof
unfolding verify_human_action_assertion
accepted_assertion_is_of_lead env raw approvers token case_id approval_id action max_age
      default_method proof loaded h =
    let leads = load_human_approvers-ListsFinanceLeads raw approvers loaded in
    let (claims, e1, h1) = >>=-eq-ok (verify env token Purpose.human_assertion) _ h in
    let (_, e2, h2) = >>=-eq-ok (raise_if (not (claims.case_id == case_id)) security_error) _ h1 in
    let (_, e3, h3) =
      >>=-eq-ok (raise_if (not (claims.approval_id == approval_id)) security_error) _ h2 in
    let (human, e4, h4) = >>=-eq-ok (or_raise claims.human security_error) _ h3 in
    let (_, e5, h5) = >>=-eq-ok (raise_if (not (human.action == action)) security_error) _ h4 in
    let (mapped, e6, h6) = >>=-eq-ok (or_raise (lookup human.sub approvers) security_error) _ h5 in
    let (_, _, h7) =
      >>=-eq-ok (raise_if (not (actor_eq human.actor mapped.actor)) security_error) _ h6 in
    let (auth_time, _, h8) = >>=-eq-ok (or_raise human.auth_time security_error) _ h7 in
    let (_, e9, h9) = >>=-eq-ok (raise_if (ltb (env.now + 30) auth_time) security_error) _ h8 in
    let (_, e10, h10) =
      >>=-eq-ok (raise_if (ltb max_age (env.now - auth_time)) security_error) _ h9 in
    let (_, _, h11) = >>=-eq-ok (raise_if (claims.jti == 0) security_error) _ h10 in
    let listed = or_raise-eq-ok _ _ e6 in
    subst (IsDecisionOfLead env token approvers case_id approval_id action max_age)
      (ok-injective h11)
      (
        claims,
        human,
        mapped,
        e1,
        or_raise-eq-ok _ _ e4,
        same_number (raise_if-eq-ok _ _ e2),
        same_number (raise_if-eq-ok _ _ e3),
        same_number (raise_if-eq-ok _ _ e5),
        refl,
        listed,
        leads human.sub mapped listed,
        not_later (raise_if-eq-ok _ _ e9),
        not_older max_age env.now auth_time (raise_if-eq-ok _ _ e10),
      )
  where
    same_number : {a b : ℕ} → not (a == b) ≡ false → a ≡ b
    same_number {a} {b} h = ground arith

    not_later : {a b : ℕ} → ltb a b ≡ false → b ≤ a
    not_later {a} {b} h = ground arith

    not_older : (m n t : ℕ) → ltb m (n - t) ≡ false → n ≤ t + m
    not_older m n t h = ground arith
