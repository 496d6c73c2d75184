-- ===== src/Approvals/Creation.antt =====
-- What an approval holds when it is created (`_tool_workflow_create_approval`, revguard/mocks.py).
use revguard.Base.{
  ℕ, ◌≡◌, true, not, Option, none, some, [], ◌∷◌, Dict, All, lookup, insert, lookup-insert, arith,
  refl, if◌then◌else◌, ap, ◌∙◌, inl, inr, ◌==◌, Option-cases, ◌≢◌, ◌≤◌, subst, ◌<◌,
}
use revguard.Base.Int.{ℤ, pos_part, neg_part, eq_ℤ, eq_of_parts, +ℤ_parts}
use revguard.Model.Errors.{
  ok, raise_if, or_raise, tool_error, invalid_params, >>=-eq-ok, or_raise-eq-ok, ok-injective,
}
use revguard.Model.Money.{Approval, pending, GatewayState}
use revguard.Approvals.{
  ApprovalRequest, read_amounts, all_positive, sum_amounts, non_empty, new_approval,
  create_approval,
}

abbrev pub IsAboveZero : ℤ → Type 0
IsAboveZero n = neg_part n < pos_part n

all_positive-All : (q : Dict ℤ) → all_positive q ≡ true → All (λ e. IsAboveZero e.1) q
all_positive-All [] h = tt
all_positive-All ((c, n) ∷ q) h = (ground arith, all_positive-All q (ground arith))

sum_is_not_negative :
    (q : Dict ℤ)
    → All (λ e. IsAboveZero e.1) q
    → neg_part (sum_amounts q) ≤ pos_part (sum_amounts q)
sum_is_not_negative [] h = omega arith
sum_is_not_negative ((c, n) ∷ q) (head, tail) =
    omega (arith, sum_is_not_negative q tail, +ℤ_parts n (sum_amounts q))

sum_is_positive :
    (c : ℕ) (n : ℤ) (q : Dict ℤ)
    → All (λ e. IsAboveZero e.1) ((c, n) ∷ q)
    → IsAboveZero (sum_amounts ((c, n) ∷ q))
sum_is_positive c n q (head, tail) =
    omega (arith, sum_is_not_negative q tail, +ℤ_parts n (sum_amounts q))

total_is_positive :
    (q : Dict ℤ) → All (λ e. IsAboveZero e.1) q → q ≢ [] → IsAboveZero (sum_amounts q)
total_is_positive [] every filled = absurd (filled refl)
total_is_positive ((c, n) ∷ q) every filled = sum_is_positive c n q every

read_amounts-empty : (raw : Dict (Option ℤ)) → read_amounts raw ≡ some [] → raw ≡ []
read_amounts-empty [] h = refl
read_amounts-empty ((c, none) ∷ raw) h = absurd (cc)
read_amounts-empty ((c, some n) ∷ raw) h = elim (Option-cases (read_amounts raw)) [
  | inl e ↦ absurd (let impossible : none ≡ some [] = rw e at h in cc)
  | inr (q, e) ↦ absurd (let impossible : some ((c, n) ∷ q) ≡ some [] = rw e at h in cc)
]

quota_is_not_empty :
    (raw : Option (Dict (Option ℤ))) (read : Dict (Option ℤ))
    → non_empty raw ≡ some read
    → read_amounts read ≢ some []
quota_is_not_empty none read h e = absurd (cc)
quota_is_not_empty (some []) read h e = absurd (cc)
quota_is_not_empty (some (entry ∷ rest)) read h e =
    let same : entry ∷ rest ≡ read = ground arith in
    let empty = read_amounts-empty read e in absurd (cc)

-- A new approval waits for a decision, each component of its quota is positive, and they add up to
-- its amount, which is positive.
abbrev pub IsSound : Approval → Type 0
IsSound a =
    (a.status ≡ pending)
    × All (λ e. IsAboveZero e.1) a.component_quota
    × (sum_amounts a.component_quota ≡ a.amount)
    × IsAboveZero a.amount

abbrev pub IsNewApproval : ℕ → GatewayState → Approval → GatewayState → Type 0
IsNewApproval approval_id st a st' =
    IsSound a
    × (a.approval_id ≡ approval_id)
    × ((j : ℕ)
        → lookup j st'.approvals ≡ (if j == approval_id then some a else lookup j st.approvals))

-- An approval that is created waits for a decision, has a positive amount for each component, whose
-- sum is its positive total, and is stored under its identifier, while every other approval stays.
created_approval_is_balanced :
    (approval_id : ℕ) (request : ApprovalRequest) (st : GatewayState) (a : Approval)
    (st' : GatewayState)
    → create_approval approval_id request st ≡ ok (a, st')
    → IsNewApproval approval_id st a st'
unfolding create_approval
created_approval_is_balanced approval_id request st a st' h =
    let (raw, e1, h1) =
      >>=-eq-ok (or_raise (non_empty request.component_quota) (tool_error invalid_params)) _ h in
    let (quota, e2, h2) =
      >>=-eq-ok (or_raise (read_amounts raw) (tool_error invalid_params)) _ h1 in
    let (amount, e3, h3) = >>=-eq-ok (or_raise request.amount (tool_error invalid_params)) _ h2 in
    let (_, e4, h4) =
      >>=-eq-ok (raise_if (not (all_positive quota)) (tool_error invalid_params)) _ h3 in
    let (_, e5, h5) =
      >>=-eq-ok (raise_if (not (eq_ℤ (sum_amounts quota) amount)) (tool_error invalid_params)) _
        h4 in
    let every = all_positive-All quota (ground arith) in
    let same : sum_amounts quota ≡ amount = eq_of_parts (sum_amounts quota) amount (ground arith) in
    let every = all_positive-All quota (ground arith) in
    let same : sum_amounts quota ≡ amount = eq_of_parts (sum_amounts quota) amount (ground arith) in
    let approval = new_approval approval_id request amount quota in
    let made : approval ≡ a = ap (λ r. r.0) (ok-injective h5) in
    let after : record st { approvals = insert approval_id approval st.approvals } ≡ st' =
      ap (λ r. r.1) (ok-injective h5) in
    let filled = quota_is_not_empty request.component_quota raw (or_raise-eq-ok _ _ e1) in
    let total =
      total_is_positive quota every
        (λ none_left. filled (or_raise-eq-ok _ _ e2 ∙ ap some none_left)) in
    let stored = λ (j : ℕ).
      lookup-insert j approval_id (new_approval approval_id request amount quota) st.approvals in
    subst (λ r. IsNewApproval approval_id st r.0 r.1) (ok-injective h5)
      ((refl, every, same, subst IsAboveZero same total), refl, stored)
