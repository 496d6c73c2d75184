-- ===== src/Gateway/Balance.antt =====
-- What a reversal does to the balance of an order (`_reverse_single`, revguard/mocks.py).
use revguard.Base.{
  Text, ◌&&◌, any, inl, inr, Bool-cases, ℕ, ◌≡◌, ◌∙◌, true, false, not, Option, some, List, [], ◌∷◌,
  ◌++◌, ◌==◌, ==_refl, arith, refl, sym, ap, if◌then◌else◌,
}
use revguard.Base.Int.{ℤ, pos, ◌+ℤ◌, neg_ℤ, +ℤ_assoc, +ℤ_neg_cancel, +ℤ_zero_comm}
use revguard.Model.Errors.{
  Error, ok, err, raise_if, or_raise, tool_error, auth_failed, not_found, data_conflict,
  idempotency_conflict, invalid_params, >>=-eq-ok, raise_if-eq-ok, or_raise-eq-ok, ok-injective,
  Result-cases,
}
use revguard.Model.Actors.{Actor, actor_eq}
use revguard.Model.Money.{LedgerEntry, GatewayState}
use revguard.Gateway.{Claims, Env, verify, ledger_reverse, or_auth_failed}
use revguard.Gateway.Submission.{contains}
use revguard.Gateway.Reversal.{
  find_ledger, mark_reversed, reversal_entry, check_reversal, reverse_single, is_some,
}

-- The sum of the amounts of an order's entries.
abbrev pub order_total : ℕ → List LedgerEntry → ℤ
order_total order [] = pos 0
order_total order (e ∷ es) =
    if order == e.order_id then e.amount +ℤ order_total order es else order_total order es

total-append :
    (order : ℕ) (es : List LedgerEntry) (e : LedgerEntry)
    → order == e.order_id ≡ true
    → order_total order (es ++ (e ∷ [])) ≡ order_total order es +ℤ e.amount
total-append order [] e same = rw same (+ℤ_zero_comm e.amount)
total-append order (d ∷ es) e same = elim (Bool-cases (order == d.order_id)) [
  | inl counts ↦
      rw (counts, total-append order es e same)
        (sym (+ℤ_assoc d.amount (order_total order es) e.amount))
  | inr other ↦ rw other (total-append order es e same)
]

total-mark :
    (order id by : ℕ) (es : List LedgerEntry)
    → order_total order (mark_reversed id by es) ≡ order_total order es
total-mark order id by [] = refl
total-mark order id by (e ∷ es) = ground (arith, total-mark order id by es)

marked_entry :
    (id by : ℕ) (es rest : List LedgerEntry) (e : LedgerEntry)
    → find_ledger id es ≡ some e
    → find_ledger id (mark_reversed id by es ++ rest) ≡ some (record e { reversed_by = some by })
marked_entry id by [] rest e h = absurd (cc)
marked_entry id by (d ∷ es) rest e h = ground (arith, marked_entry id by es rest e)

-- The parts of a reversal.
pub record Reversed (case_id target_id ledger_id : ℕ) (st : GatewayState) (entry : LedgerEntry)
    (st' : GatewayState) : Type 0 where
  pub target : LedgerEntry
  pub found : find_ledger target_id st.ledger ≡ some target
  pub fresh : (is_some target.reversal_of ≡ false) × (is_some target.reversed_by ≡ false)
  pub is_entry : entry ≡ reversal_entry ledger_id case_id target
  pub after : st'.ledger ≡ mark_reversed target_id ledger_id st.ledger ++ (entry ∷ [])

check_reversal-eq-ok :
    (actor : Actor) (case_id target_id : ℕ) (claims : Claims) (st : GatewayState)
    {target : LedgerEntry}
    → check_reversal actor case_id target_id claims st ≡ ok target
    → (find_ledger target_id st.ledger ≡ some target)
      × ((is_some target.reversal_of ≡ false) × (is_some target.reversed_by ≡ false))
unfolding check_reversal
check_reversal-eq-ok actor case_id target_id claims st h =
    let (_, _, h1) =
      >>=-eq-ok (raise_if (not (actor_eq actor Actor.executor)) (tool_error auth_failed)) _ h in
    let (_, _, h2) =
      >>=-eq-ok
        (raise_if (not (claims.case_id == case_id && claims.ledger_id == target_id))
          (tool_error auth_failed))
        _ h1 in
    let (_, _, h3) =
      >>=-eq-ok
        (raise_if (any (λ j. claims.jti == j) st.used_rollback_tokens) (tool_error auth_failed)) _
        h2 in
    let (e, found, h4) =
      >>=-eq-ok (or_raise (find_ledger target_id st.ledger) (tool_error not_found)) _ h3 in
    let (_, a, h5) = >>=-eq-ok (raise_if (is_some e.reversal_of) (tool_error data_conflict)) _ h4 in
    let (_, b, h6) = >>=-eq-ok (raise_if (is_some e.reversed_by) (tool_error data_conflict)) _ h5 in
    rw (← ok-injective h6) (or_raise-eq-ok _ _ found, (raise_if-eq-ok _ _ a, raise_if-eq-ok _ _ b))

pub reverse_single-Reversed :
    (env : Env) (ledger_id : ℕ) (key : Option ℕ) (token : Option Text) (actor : Actor)
    (case_id target_id : ℕ) (st : GatewayState) {entry : LedgerEntry} {st' : GatewayState}
    → reverse_single env ledger_id key token actor case_id target_id st ≡ ok (entry, st')
    → Reversed case_id target_id ledger_id st entry st'
unfolding reverse_single
reverse_single-Reversed env ledger_id key token actor case_id target_id st h =
    let (k, _, h1) = >>=-eq-ok (or_raise key (tool_error invalid_params)) _ h in
    let (t, _, h2) = >>=-eq-ok (or_raise token (tool_error auth_failed)) _ h1 in
    let (_, _, h3) =
      >>=-eq-ok (raise_if (contains k st.idempotency) (tool_error idempotency_conflict)) _ h2 in
    let (claims, _, h4) = >>=-eq-ok (or_auth_failed (verify env t ledger_reverse)) _ h3 in
    let (target, checked, h5) = >>=-eq-ok (check_reversal actor case_id target_id claims st) _ h4 in
    let (found, fresh) = check_reversal-eq-ok actor case_id target_id claims st checked in
    let result = ok-injective h5 in
    record {
      target = target;
      found = found;
      fresh = fresh;
      is_entry = sym (ap (λ r. r.0) result);
      after =
          sym (ap (λ r. r.1.ledger) result)
          ∙ ap (λ e. mark_reversed target_id ledger_id st.ledger ++ (e ∷ []))
              (ap (λ r. r.0) result);
    }

-- A successful reversal posts the entry that cancels its target: it is for the target's order,
-- names the target, and adding the target's amount to the new balance of that order gives the
-- balance before.
pub reversal_restores_balance :
    (env : Env) (ledger_id : ℕ) (key : Option ℕ) (token : Option Text) (actor : Actor)
    (case_id target_id : ℕ) (st : GatewayState) (entry : LedgerEntry) (st' : GatewayState)
    → reverse_single env ledger_id key token actor case_id target_id st ≡ ok (entry, st')
    → (target : LedgerEntry) × (find_ledger target_id st.ledger ≡ some target)
      × (entry.order_id ≡ target.order_id)
      × (entry.reversal_of ≡ some target.ledger_id)
      × (order_total target.order_id st'.ledger +ℤ target.amount
          ≡ order_total target.order_id st.ledger)
reversal_restores_balance env ledger_id key token actor case_id target_id st entry st' h =
    let r = reverse_single-Reversed env ledger_id key token actor case_id target_id st h in
    let e = reversal_entry ledger_id case_id r.target in
    let order = r.target.order_id in
    let total : order_total order st'.ledger
        ≡ order_total order st.ledger +ℤ neg_ℤ r.target.amount =
      rw (r.after, r.is_entry)
        (total-append order (mark_reversed target_id ledger_id st.ledger) e (==_refl order)
          ∙ ap (λ t. t +ℤ neg_ℤ r.target.amount)
              (total-mark order target_id ledger_id st.ledger)) in
    (
      r.target,
      r.found,
      rw r.is_entry refl,
      rw r.is_entry refl,
      rw total (+ℤ_neg_cancel (order_total order st.ledger) r.target.amount),
    )

-- After a successful reversal, every further reversal of the same entry fails.
pub reversal_happens_once :
    (env env' : Env) (ledger_id : ℕ) (key : Option ℕ) (token : Option Text) (actor : Actor)
    (case_id target_id : ℕ) (st : GatewayState) (entry : LedgerEntry) (st' : GatewayState)
    (ledger_id' : ℕ) (key' : Option ℕ) (token' : Option Text) (actor' : Actor) (case_id' : ℕ)
    → reverse_single env ledger_id key token actor case_id target_id st ≡ ok (entry, st')
    → (e : Error) × (reverse_single env' ledger_id' key' token' actor' case_id' target_id st'
        ≡ err e)
reversal_happens_once env env' ledger_id key token actor case_id target_id st entry st' ledger_id'
      key' token' actor' case_id' h =
    let r = reverse_single-Reversed env ledger_id key token actor case_id target_id st h in
    let marked : find_ledger target_id st'.ledger
        ≡ some (record r.target { reversed_by = some ledger_id }) =
      rw r.after (marked_entry target_id ledger_id st.ledger (entry ∷ []) r.target r.found) in
    elim (Result-cases (reverse_single env' ledger_id' key' token' actor' case_id' target_id st')) [
      | inr failed ↦ failed
      | inl ((_, _), success) ↦
          let r' =
            reverse_single-Reversed env' ledger_id' key' token' actor' case_id' target_id st'
              success in
          let found = r'.found in let (_, unmarked) = r'.fresh in absurd (ground arith)
    ]
