-- ===== src/Gateway/Replay.antt =====
-- A posting cannot be made again (`_submit_single`, revguard/mocks.py).
use revguard.Base.{
  Text, inl, inr, ℕ, ◌≡◌, true, Option, some, lookup, lookup-insert, lookup-adjust, ==_refl, arith,
  refl,
}
use revguard.Model.Errors.{Error, ok, err, Result-cases}
use revguard.Model.Actors.{Actor}
use revguard.Model.Money.{Draft, submitted, LedgerEntry, GatewayState}
use revguard.Gateway.{Env}
use revguard.Gateway.Submission.{contains, submit_single, post}
use revguard.Gateway.Posting.{Posting, submit_single-Posting, open_draft-eq-ok}

abbrev IsUsed : ℕ → ℕ → GatewayState → Type 0
IsUsed key action_id st =
    (contains key st.idempotency ≡ true)
    × ((draft : Draft) × (lookup action_id st.adjustments ≡ some draft)
        × (draft.status ≡ submitted))

post-IsUsed :
    {env : Env} {ledger_id : ℕ} {token : Option Text} {actor : Actor} {case_id : ℕ}
    (key action_id : ℕ) {st : GatewayState} {entry : LedgerEntry} {st' : GatewayState}
    → Posting env ledger_id (some key) token actor case_id action_id st entry st'
    → IsUsed key action_id st'
unfolding post
post-IsUsed key action_id {st} p =
    let same : key ≡ p.k = some-injective p.at_key in
    let (at, _) = open_draft-eq-ok action_id st p.opened in
    rw (p.after, same)
      (
        rw (contains, lookup-insert p.k p.k p.draft.action_id st.idempotency, ==_refl) refl,
        (
          record p.draft { status = submitted },
          rw
              (
                lookup-adjust action_id action_id (λ d. record d { status = submitted })
                    st.adjustments,
                ==_refl,
                at,
              )
              refl,
          refl,
        ),
      )
  where
    some-injective : {a b : ℕ} → some a ≡ some b → a ≡ b
    some-injective h = ground arith

-- After a successful posting, a submission that names its key, or that names its draft, fails,
-- whatever its other arguments.
pub posting_is_not_repeated :
    (env env' : Env) (ledger_id key : ℕ) (token : Option Text) (actor : Actor)
    (case_id action_id : ℕ) (st st' : GatewayState) (entry : LedgerEntry) (ledger_id' : ℕ)
    (other_key : Option ℕ) (token' : Option Text) (actor' : Actor) (case_id' other_action : ℕ)
    → submit_single env ledger_id (some key) token actor case_id action_id st ≡ ok (entry, st')
    → ((e : Error) × (submit_single env' ledger_id'
            (some key)
            token'
            actor'
            case_id'
            other_action
            st'
          ≡ err e))
      × ((e : Error) × (submit_single env' ledger_id' other_key token' actor' case_id' action_id st'
            ≡ err e))
posting_is_not_repeated env env' ledger_id key token actor case_id action_id st st' entry ledger_id'
      other_key token' actor' case_id' other_action h =
    let (used, (draft, at, final)) =
      post-IsUsed key action_id
        (submit_single-Posting env ledger_id (some key) token actor case_id action_id st h) in
    (
      elim (Result-cases
          (submit_single env' ledger_id' (some key) token' actor' case_id' other_action st')) [
            | inr failed ↦ failed
            | inl ((_, _), success) ↦
                let p =
                  submit_single-Posting env' ledger_id' (some key) token' actor' case_id'
                    other_action st' success in
                let unused = p.unused in let at_key = p.at_key in absurd (ground arith)
          ],
      elim (Result-cases
          (submit_single env' ledger_id' other_key token' actor' case_id' action_id st')) [
            | inr failed ↦ failed
            | inl ((_, _), success) ↦
                let p =
                  submit_single-Posting env' ledger_id' other_key token' actor' case_id' action_id
                    st' success in
                let (at', pending) = open_draft-eq-ok action_id st' p.opened in
                absurd (ground arith)
          ],
    )
