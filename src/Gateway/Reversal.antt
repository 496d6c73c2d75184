-- ===== src/Gateway/Reversal.antt =====
-- `_reverse_single` (revguard/mocks.py): a ledger entry is undone by an entry of the opposite amount.
use revguard.Base.{
  Text, ℕ, Bool, true, false, not, ◌&&◌, Option, none, some, List, [], ◌∷◌, ◌++◌, insert, any, ◌==◌,
  if◌then◌else◌,
}
use revguard.Base.Int.{neg_ℤ}
use revguard.Model.Errors.{
  Result, ok, ◌>>=◌, ◌>>◌, raise_if, or_raise, tool_error, auth_failed, not_found, data_conflict,
  idempotency_conflict, invalid_params,
}
use revguard.Model.Actors.{Actor, actor_eq}
use revguard.Model.Money.{LedgerEntry, GatewayState}
use revguard.Gateway.{Claims, Env, verify, ledger_reverse, or_auth_failed}
use revguard.Gateway.Submission.{contains}

-- `_find_ledger`
abbrev pub find_ledger : ℕ → List LedgerEntry → Option LedgerEntry
find_ledger id [] = none
find_ledger id (e ∷ es) = if id == e.ledger_id then some e else find_ledger id es

-- `target["reversed_by"] = ...` on the entry that `_find_ledger` returns.
abbrev pub mark_reversed : ℕ → ℕ → List LedgerEntry → List LedgerEntry
mark_reversed id by [] = []
mark_reversed id by (e ∷ es) =
    if id == e.ledger_id
    then record e { reversed_by = some by } ∷ es
    else e ∷ mark_reversed id by es

abbrev pub is_some : Option ℕ → Bool
is_some none = false
is_some (some _) = true

abbrev pub reversal_entry : ℕ → ℕ → LedgerEntry → LedgerEntry
reversal_entry ledger_id case_id target = record target {
  ledger_id = ledger_id;
  amount = neg_ℤ target.amount;
  is_posted = true;
  reversal_of = some target.ledger_id;
  source = some case_id;
}

unfoldable pub check_reversal : Actor → ℕ → ℕ → Claims → GatewayState → Result LedgerEntry
check_reversal actor case_id target_id claims st = do
  raise_if (not (actor_eq actor Actor.executor)) (tool_error auth_failed)
  raise_if (not (claims.case_id == case_id && claims.ledger_id == target_id))
      (tool_error auth_failed)
  raise_if (any (λ j. claims.jti == j) st.used_rollback_tokens) (tool_error auth_failed)
  target ← or_raise (find_ledger target_id st.ledger) (tool_error not_found)
  raise_if (is_some target.reversal_of) (tool_error data_conflict)
  raise_if (is_some target.reversed_by) (tool_error data_conflict)
  ok target

-- `ledger_id` is the fresh identifier of the reversal.
unfoldable pub reverse_single :
    Env
    → ℕ
    → Option ℕ
    → Option Text
    → Actor
    → ℕ
    → ℕ
    → GatewayState
    → Result (LedgerEntry × GatewayState)
unfolding check_reversal verify
reverse_single env ledger_id key token actor case_id target_id st = do
  k ← or_raise key (tool_error invalid_params)
  t ← or_raise token (tool_error auth_failed)
  raise_if (contains k st.idempotency) (tool_error idempotency_conflict)
  claims ← or_auth_failed (verify env t ledger_reverse)
  target ← check_reversal actor case_id target_id claims st
  let reversal = reversal_entry ledger_id case_id target
  ok (
    reversal,
    record st {
      ledger = mark_reversed target_id ledger_id st.ledger ++ (reversal ∷ []);
      idempotency = insert k ledger_id st.idempotency;
      used_rollback_tokens = claims.jti ∷ st.used_rollback_tokens;
    },
  )
