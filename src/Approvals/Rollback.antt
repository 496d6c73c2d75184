-- ===== src/Approvals/Rollback.antt =====
-- What a renewed rollback capability is good for (`_tool_workflow_renew_rollback_capability` and
-- `_reverse_single`, revguard/mocks.py).
use revguard.Base.{
  Text, ℕ, ◌+◌, ◌≤◌, ◌<◌, ◌≡◌, true, false, not, ◌&&◌, some, [], ◌∷◌, ◌++◌, insert, lookup, any,
  ◌==◌, option_eq, arith, refl, sym, ap, ◌∙◌,
}
use revguard.Model.Errors.{
  ok, raise_if, or_raise, tool_error, not_found, auth_failed, data_conflict, >>=-eq-ok,
  ok-injective, or_raise-eq-ok, raise_if-eq-ok, or_raise,
}
use revguard.Model.Actors.{Actor}
use revguard.Model.Money.{LedgerEntry, GatewayState}
use revguard.Gateway.{Claims, Env, verify, ledger_reverse}
use revguard.Gateway.Tokens.{at_time, Seals, with_jti, issued_token_is_good}
use revguard.Gateway.Submission.{contains}
use revguard.Gateway.Reversal.{
  find_ledger, is_some, mark_reversed, reversal_entry, check_reversal, reverse_single,
}
use revguard.Approvals.Renewal.{reverse_claims, check_rollback, renew_rollback_capability}

check_rollback-eq-ok :
    (case_id ledger_id action_id : ℕ) (st : GatewayState) {e : LedgerEntry}
    → check_rollback case_id ledger_id action_id st ≡ ok e
    → (find_ledger ledger_id st.ledger ≡ some e) × (is_some e.reversed_by ≡ false)
unfolding check_rollback
check_rollback-eq-ok case_id ledger_id action_id st {e} h =
    let (entry, found, h1) =
      >>=-eq-ok (or_raise (find_ledger ledger_id st.ledger) (tool_error not_found)) _ h in
    let (draft, _, h2) =
      >>=-eq-ok (or_raise (lookup action_id st.adjustments) (tool_error not_found)) _ h1 in
    let (_, _, h3) =
      >>=-eq-ok
        (raise_if
          (not (
            draft.case_id == case_id
            && option_eq entry.source (some case_id)
            && draft.action_id == action_id))
          (tool_error auth_failed))
        _ h2 in
    let (_, live, h4) =
      >>=-eq-ok (raise_if (is_some entry.reversed_by) (tool_error data_conflict)) _ h3 in
    let same : entry ≡ e = ok-injective h4 in
    (
      or_raise-eq-ok _ _ found ∙ ap some same,
      ap (λ x. is_some x.reversed_by) (sym same) ∙ raise_if-eq-ok _ _ live,
    )

check_reversal-holds :
    (claims : Claims) (case_id ledger_id : ℕ) (st : GatewayState) (e : LedgerEntry)
    → claims.case_id ≡ case_id
    → claims.ledger_id ≡ ledger_id
    → any (λ j. claims.jti == j) st.used_rollback_tokens ≡ false
    → find_ledger ledger_id st.ledger ≡ some e
    → is_some e.reversal_of ≡ false
    → is_some e.reversed_by ≡ false
    → check_reversal Actor.executor case_id ledger_id claims st ≡ ok e
unfolding check_reversal
check_reversal-holds claims case_id ledger_id st e of_case of_ledger unused found original live =
    let names : (claims.case_id == case_id && claims.ledger_id == ledger_id) ≡ true =
      ground arith in
    simp (check_reversal, names, unused, found, original, live)

-- Where opening a token undoes sealing it, the token of a renewed rollback lets the executor reverse
-- the named entry for less than 3600 seconds, if the entry is no reversal itself and neither the key
-- of the call nor the identifier of the token was used.
renewed_rollback_can_be_used :
    (env : Env) (jti case_id ledger_id action_id : ℕ) (st : GatewayState) (t : Text)
    (now k new_id : ℕ) (e : LedgerEntry)
    → Seals env
    → renew_rollback_capability env jti case_id ledger_id action_id st ≡ ok t
    → env.now ≤ now
    → now < env.now + 3600
    → find_ledger ledger_id st.ledger ≡ some e
    → is_some e.reversal_of ≡ false
    → contains k st.idempotency ≡ false
    → any (λ j. jti == j) st.used_rollback_tokens ≡ false
    → (st' : GatewayState) × (reverse_single
          (at_time now env)
          new_id
          (some k)
          (some t)
          Actor.executor
          case_id
          ledger_id
          st
        ≡ ok (reversal_entry new_id case_id e, st'))
unfolding renew_rollback_capability reverse_single
renewed_rollback_can_be_used env jti case_id ledger_id action_id st t now k new_id e seals h from
      till found original free unused =
    let (entry, checked, issued) = >>=-eq-ok (check_rollback case_id ledger_id action_id st) _ h in
    let (found2, live) = check_rollback-eq-ok case_id ledger_id action_id st checked in
    let same : some entry ≡ some e = sym found2 ∙ found in
    let same_entry : entry ≡ e = cc in
    let claims = reverse_claims case_id ledger_id entry.currency in
    let good = issued_token_is_good env seals ledger_reverse claims 3600 jti now from till in
    let verified : verify (at_time now env) t ledger_reverse ≡ ok (with_jti jti claims) =
      ap (λ x. verify (at_time now env) x ledger_reverse) (sym (ok-injective issued)) ∙ good in
    let passed =
      check_reversal-holds (with_jti jti claims) case_id ledger_id st e refl refl unused found
        original (ap (λ x. is_some x.reversed_by) (sym same_entry) ∙ live) in
    (
      record st {
        ledger = mark_reversed ledger_id new_id st.ledger ++ (reversal_entry new_id case_id e ∷ []);
        idempotency = insert k new_id st.idempotency;
        used_rollback_tokens = jti ∷ st.used_rollback_tokens;
      },
      rw (reverse_single, free, verified, passed) refl,
    )
