-- ===== src/Approvals/Remaining.antt =====
-- What a renewed capability allows (`_tool_workflow_renew_approval_capability`, revguard/mocks.py).
use revguard.Base.{
  Text, ℕ, ◌+◌, ◌-◌, ◌<◌, ◌≤◌, ◌≡◌, subst, true, not, Option, none, some, [], ◌∷◌, Dict, lookup,
  ltb, ◌==◌, arith, refl, ap, ◌⊎◌, inl, inr, Bool-cases,
}
use revguard.Base.Int.{ℤ, pos, negsuc, pos_part}
use revguard.Model.Errors.{
  ok, raise_if, or_raise, tool_error, auth_failed, not_found, data_conflict, >>=-eq-ok,
  ok-injective,
}
use revguard.Model.Money.{Approval, GatewayState}
use revguard.Commitment.{approval_digest}
use revguard.Gateway.{Claims, Env, verify, ledger_adjust, issue}
use revguard.Gateway.Tokens.{at_time, Seals, with_jti, issued_token_is_good}
use revguard.Gateway.Submission.{is_approved}
use revguard.Approvals.{adjust_claims}
use revguard.Approvals.Renewal.{
  consumed, left_of, remaining_quota, sum_positive, is_other_case, renewed,
  renew_approval_capability,
}

-- The entry stands in the table.
abbrev pub Listed : ℕ → ℤ → Dict ℤ → Type 0
Listed c n [] = ⊥
Listed c n ((k, v) ∷ d) = ((c ≡ k) × (n ≡ v)) ⊎ Listed c n d

-- The component has a limit in the quota, and what was used and what is left add up to it.
abbrev pub CompletesLimit : (ℕ → ℕ) → Dict ℤ → ℕ → ℤ → Type 0
CompletesLimit used quota c n =
    (limit : ℤ) × Listed c limit quota × (limit ≡ pos (used c + pos_part n)) × (0 < pos_part n)

further :
    (used : ℕ → ℕ) (quota : Dict ℤ) (k : ℕ) (limit : ℤ) (c : ℕ) (n : ℤ)
    → CompletesLimit used quota c n
    → CompletesLimit used ((k, limit) ∷ quota) c n
further used quota k limit c n (l, listed, adds, some_left) = (l, inr listed, adds, some_left)

adds_up : (limit : ℤ) (u : ℕ) → ltb 0 (left_of limit u) ≡ true → limit ≡ pos (u + left_of limit u)
adds_up (pos l) u h = ap pos (ground arith)
adds_up (negsuc l) u h = absurd (ground arith)

first_entry :
    (used : ℕ → ℕ) (quota : Dict ℤ) (k : ℕ) (limit : ℤ) (c : ℕ) (n : ℤ)
    → ltb 0 (left_of limit (used k)) ≡ true
    → c ≡ k
    → n ≡ pos (left_of limit (used k))
    → CompletesLimit used ((k, limit) ∷ quota) c n
first_entry used quota k limit c n some_left same value =
    rw (same, value) (limit, inl (refl, refl), adds_up limit (used k) some_left, ground arith)

remaining_quota-Listed :
    (used : ℕ → ℕ) (quota : Dict ℤ) (c : ℕ) (n : ℤ)
    → Listed c n (remaining_quota used quota)
    → CompletesLimit used quota c n
remaining_quota-Listed used [] c n h = elim h [ ]
remaining_quota-Listed used ((k, limit) ∷ quota) c n h =
    elim (Bool-cases (ltb 0 (left_of limit (used k)))) [
      | inl some_left ↦
          let h' : Listed c n ((k, pos (left_of limit (used k))) ∷ remaining_quota used quota) =
            rw some_left at h in
          elim h' [
            | inl (same, value) ↦ first_entry used quota k limit c n some_left same value
            | inr later ↦
                further used quota k limit c n (remaining_quota-Listed used quota c n later)
          ]
      | inr none_left ↦
          further used quota k limit c n (remaining_quota-Listed used quota c n (rw none_left at h))
    ]

remaining_quota_complete :
    (used : ℕ → ℕ) (quota : Dict ℤ) (c limit : ℕ)
    → Listed c (pos limit) quota
    → used c < limit
    → Listed c (pos (limit - used c)) (remaining_quota used quota)
remaining_quota_complete used [] c limit listed below = elim listed [ ]
remaining_quota_complete used ((k, l) ∷ quota) c limit (inl (same, value)) below =
    let some_left : ltb 0 (left_of l (used k)) ≡ true = rw (← same, ← value) (ground arith) in
    rw some_left (inl (same, rw (← same, ← value) refl))
remaining_quota_complete used ((k, l) ∷ quota) c limit (inr later) below =
    let rest = remaining_quota_complete used quota c limit later below in
    elim (Bool-cases (ltb 0 (left_of l (used k)))) [
      | inl some_left ↦ rw some_left (inr rest)
      | inr none_left ↦ rw none_left rest
    ]

-- The token, if any, verifies for what is left of each component and for the sum of it.
abbrev pub Offers : Env → ℕ → Approval → Dict ℤ → Type 0
Offers env now a quota =
    ((a.approval_token ≡ none) × (sum_positive quota ≡ 0))
    ⊎ ((t : Text) × (claims : Claims) × (a.approval_token ≡ some t)
        × (verify (at_time now env) t ledger_adjust ≡ ok claims)
        × (claims.case_id ≡ a.case_id)
        × (claims.max_amount ≡ pos (sum_positive quota))
        × (claims.component_quota ≡ some quota)
        × (0 < sum_positive quota))

-- What is left of an approval: a listed component has a limit in the approval, which is the sum of
-- what the submitted drafts of the case have consumed and what is left, and a component that is not
-- used up is listed.
abbrev pub IsRemainder : Approval → GatewayState → Dict ℤ → Type 0
IsRemainder a st quota =
    let used = λ (c : ℕ). consumed a.case_id c st.adjustments in
    ((c : ℕ) (n : ℤ) → Listed c n quota → CompletesLimit used a.component_quota c n)
    × ((c limit : ℕ)
        → Listed c (pos limit) a.component_quota
        → used c < limit
        → Listed c (pos (limit - used c)) quota)

abbrev left_over : Approval → GatewayState → Dict ℤ
left_over b st = remaining_quota (λ (c : ℕ). consumed b.case_id c st.adjustments) b.component_quota

offers :
    (env : Env) (jti : ℕ) (b : Approval) (st : GatewayState) (now : ℕ)
    → Seals env
    → env.now ≤ now
    → now < env.now + 900
    → Offers env now (renewed env jti b st) (left_over b st)
offers env jti b st now seals from till =
    let quota = left_over b st in
    let claims = adjust_claims b (pos (sum_positive quota)) quota in
    elim (Bool-cases (ltb 0 (sum_positive quota))) [
      | inr used_up ↦ inl (rw used_up refl, ground arith)
      | inl some_left ↦ inr (
        issue env ledger_adjust claims 900 jti,
        with_jti jti claims,
        rw some_left refl,
        issued_token_is_good env seals ledger_adjust claims 900 jti now from till,
        refl,
        refl,
        refl,
        ground arith,
      )
    ]

-- The renewed approval, as the caller gets it.
abbrev pub IsFreshCapability : Env → ℕ → GatewayState → Approval → Type 0
IsFreshCapability env now st a =
    (quota : Dict ℤ) × (a.remaining_component_quota ≡ some quota)
    × IsRemainder a st quota
    × Offers env now a quota

-- Where opening a token undoes sealing it, a renewal that succeeds lists for each component what the
-- submitted drafts of the case have left of its limit, where that is more than nothing, and no other
-- amount. If the list is empty in sum there is no token, and otherwise the token verifies for less
-- than 900 seconds for the approval's case, the listed amounts and their sum.
pub renewed_quota_is_what_is_left :
    (env : Env) (jti approval_id : ℕ) (case_id : Option ℕ) (st : GatewayState) (a : Approval)
    (st' : GatewayState) (now : ℕ)
    → Seals env
    → renew_approval_capability env jti approval_id case_id st ≡ ok (a, st')
    → env.now ≤ now
    → now < env.now + 900
    → IsFreshCapability env now st a
unfolding renew_approval_capability
renewed_quota_is_what_is_left env jti approval_id case_id st a st' now seals h from till =
    let (b, _, h1) =
      >>=-eq-ok (or_raise (lookup approval_id st.approvals) (tool_error not_found)) _ h in
    let (_, _, h2) =
      >>=-eq-ok (raise_if (not (is_approved b.status)) (tool_error data_conflict)) _ h1 in
    let (_, _, h3) =
      >>=-eq-ok (raise_if (is_other_case case_id b.case_id) (tool_error auth_failed)) _ h2 in
    let (committed, _, h4) =
      >>=-eq-ok (or_raise b.parameters_digest (tool_error auth_failed)) _ h3 in
    let (digest, _, h5) = >>=-eq-ok (approval_digest env.digest env.amount_scale b) _ h4 in
    let (_, _, h6) =
      >>=-eq-ok (raise_if (not (digest == committed)) (tool_error auth_failed)) _ h5 in
    let used = λ (c : ℕ). consumed b.case_id c st.adjustments in
    subst (λ r. IsFreshCapability env now st r.0) (ok-injective h6)
      (
        left_over b st,
        refl,
        (
          remaining_quota-Listed used b.component_quota,
          remaining_quota_complete used b.component_quota,
        ),
        offers env jti b st now seals from till,
      )
