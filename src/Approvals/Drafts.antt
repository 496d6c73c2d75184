-- ===== src/Approvals/Drafts.antt =====
-- Asking for a draft twice (`_tool_commission_create_adjustment_draft`, revguard/mocks.py).
use revguard.Base.{
  ℕ, ◌≡◌, true, ◌&&◌, none, some, [], ◌∷◌, Dict, insert, ◌==◌, arith, refl, Bool-cases,
  Option-cases, inl, inr,
}
use revguard.Model.Money.{Draft, GatewayState}
use revguard.Gateway.Submission.{is_draft}
use revguard.Approvals.{is_same_request, find_draft, new_draft, create_adjustment_draft}

new_draft_is_same : (n : ℕ) (request : Draft) → is_same_request (new_draft n request) request ≡ true
new_draft_is_same n request = ground arith

find_draft-insert :
    (n : ℕ) (request : Draft) (d : Dict Draft)
    → find_draft request d ≡ none
    → find_draft request (insert n (new_draft n request) d) ≡ some (new_draft n request)
find_draft-insert n request [] h = rw (new_draft_is_same n request) refl
find_draft-insert n request ((k, existing) ∷ d) h = elim (Bool-cases (n == k)) [
  | inl here ↦ rw (here, new_draft_is_same n request) refl
  | inr further ↦ elim (Bool-cases (is_same_request existing request && is_draft existing.status)) [
    | inl other ↦ absurd (let found : some existing ≡ none = rw other at h in cc)
    | inr different ↦
        let rest : find_draft request d ≡ none = rw different at h in
        rw (further, different) (find_draft-insert n request d rest)
  ]
]

abbrev with_draft : ℕ → Draft → GatewayState → GatewayState
with_draft n request st = record st { adjustments = insert n (new_draft n request) st.adjustments }

found_draft :
    (n : ℕ) (request existing : Draft) (st : GatewayState)
    → find_draft request st.adjustments ≡ some existing
    → create_adjustment_draft n request st ≡ (existing, st)
unfolding create_adjustment_draft
found_draft n request existing st found = rw (create_adjustment_draft, found) refl

drafted :
    (n : ℕ) (request : Draft) (st : GatewayState)
    → find_draft request st.adjustments ≡ none
    → create_adjustment_draft n request st ≡ (new_draft n request, with_draft n request st)
unfolding create_adjustment_draft
drafted n request st missing = rw (create_adjustment_draft, missing) refl

-- Asking again for the draft that was just asked for returns the same draft and leaves the state as
-- it is, whatever identifier is drawn the second time.
drafting_is_idempotent :
    (first second : ℕ) (request : Draft) (st : GatewayState)
    → let made = create_adjustment_draft first request st in
      create_adjustment_draft second request made.1 ≡ made
drafting_is_idempotent first second request st =
    elim (Option-cases (find_draft request st.adjustments)) [
      | inr (existing, found) ↦
          let made = found_draft first request existing st found in
          rw (made, found_draft second request existing st found) refl
      | inl missing ↦
          let after = find_draft-insert first request st.adjustments missing in
          let made = drafted first request st missing in
          rw
            (
              made,
              found_draft second request (new_draft first request) (with_draft first request st)
                  after,
            )
            refl
    ]
