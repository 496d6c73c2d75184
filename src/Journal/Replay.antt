-- ===== src/Journal/Replay.antt =====
-- A repeated call of a money tool (`ToolGateway.call`, revguard/mocks.py) gets the stored result.
use revguard.Base.{
  ℕ, ◌≡◌, ◌∙◌, false, Option, some, List, inl, inr, arith, lookup, refl, sym, ap, lookup-insert,
  lookup-adjust, ==_refl,
}
use revguard.Model.Status.{committed}
use revguard.Model.Errors.{Error, Result, ok, Result-cases}
use revguard.Model.Money.{Execution, GatewayState}
use revguard.Model.Tables.{Operation, Database}
use revguard.Journal.{Process, prepare, prepare_row, assert_active_claim, commit_result}
use revguard.Journal.Recovery.{epoch_of}
use revguard.Journal.Calls.{
  MoneyTool, channel_of, run_effect, effect_row, Reply, success, settle_error, refuse,
  operation_key, finish_call, continue_call, call_money,
}
use revguard.Journal.Rows.{Preparation, fresh, again, replay, prepare-cases}
use revguard.Journal.Steps.{Effect, repeated, applied, run_effect-cases}

refuse-fails :
    (e : Error) (db : Database) {results : List Execution} {db' : Database}
    → refuse e db ≡ (success results, db')
    → ⊥
refuse-fails e db h = ground arith

settle_error-fails :
    (key : ℕ) (e : Error) (db : Database) {results : List Execution} {db' : Database}
    → settle_error key e db ≡ (success results, db')
    → ⊥
unfolding settle_error
settle_error-fails key e db h = ground arith

row_unique : {o : Option Operation} {a b : Operation} → o ≡ some a → o ≡ some b → a ≡ b
row_unique h h' = cc

-- The row that `prepare` returns is the row that it leaves.
prepared_row :
    {key recording case_id channel kind digest : ℕ} {op : Operation} {db db' : Database}
    → Preparation key recording case_id channel kind digest op db db'
    → (lookup key db'.operations ≡ some op) × (op.request_hash ≡ digest) × (op.case_id ≡ case_id)
prepared_row {key} {op = op} {db} (fresh absent free new after) =
    (rw after (rw (lookup-insert key key op db.operations, ==_refl)), rw new refl, rw new refl)
prepared_row {key} {op = op} {db} (again old found retired (same_hash, same_case) free new after) =
    (
      rw after (rw (lookup-adjust key key _ db.operations, ==_refl, found) (ap some (sym new))),
      rw new same_hash,
      rw new same_case,
    )
prepared_row (replay found final (same_hash, same_case) after) =
    (rw after found, same_hash, same_case)

-- The row of an operation whose result has been given out.
abbrev Settled : ℕ → ℕ → ℕ → List Execution → Database → Type 0
Settled key digest case_id results db =
    (op : Operation) × (lookup key db.operations ≡ some op)
    × (op.status ≡ committed)
    × (op.executions ≡ results)
    × (op.request_hash ≡ digest)
    × (op.case_id ≡ case_id)

row_left :
    {key digest case_id : ℕ} {op : Operation}
    {handler : GatewayState → Result (List Execution × GatewayState)} {results : List Execution}
    {ready db' : Database}
    → (lookup key ready.operations ≡ some op) × (op.request_hash ≡ digest) × (op.case_id ≡ case_id)
    → Effect key op handler results ready db'
    → Settled key digest case_id results db'
unfolding commit_result
row_left {key} {op = op} {ready = ready} (at, same_hash, same_case)
      (repeated current found same final out after) =
    let same_row : op ≡ current = row_unique at found in
    (current, rw after found, final, sym out, rw (← same_row) same_hash, rw (← same_row) same_case)
row_left {key} {op = op} {results = results} {ready = ready} (at, same_hash, same_case)
      (applied current state found same live run after) =
    let same_row : op ≡ current = row_unique at found in
    (
      record current { status = committed; executions = results },
      rw after (rw (lookup-adjust key key _ ready.operations, ==_refl, found) refl),
      refl,
      refl,
      rw (← same_row) same_hash,
      rw (← same_row) same_case,
    )

prepared_row-IsSettled :
    (key recording case_id channel kind digest : ℕ) (op : Operation) (db : Database)
    → op.status ≡ committed
    → op.request_hash ≡ digest
    → op.case_id ≡ case_id
    → prepare_row key recording case_id channel kind digest (some op) db ≡ ok (op, db)
unfolding prepare_row
prepared_row-IsSettled key recording case_id channel kind digest op db final same_hash same_case =
    ground arith

settled_prepare :
    (p : Process) (key recording case_id channel kind digest : ℕ) (op : Operation) (db : Database)
    → p.recovery_lock ≡ false
    → assert_active_claim p case_id db ≡ ok tt
    → lookup key db.operations ≡ some op
    → op.status ≡ committed
    → op.request_hash ≡ digest
    → op.case_id ≡ case_id
    → prepare p (some key) recording case_id channel kind digest db ≡ ok (op, db)
unfolding prepare
settled_prepare p key recording case_id channel kind digest op db unlocked active found final
      same_hash same_case =
    rw (unlocked, active, found)
      (prepared_row-IsSettled key recording case_id channel kind digest op db final same_hash
        same_case)

settled_effect :
    (p : Process) (key case_id : ℕ) (op : Operation)
    (handler : GatewayState → Result (List Execution × GatewayState)) (db : Database)
    → p.recovery_lock ≡ false
    → assert_active_claim p case_id db ≡ ok tt
    → lookup key db.operations ≡ some op
    → op.status ≡ committed
    → run_effect p key case_id op handler db ≡ ok (op.executions, db)
unfolding run_effect effect_row
settled_effect p key case_id op handler db unlocked active found final =
    rw (active, found, unlocked, ==_refl, final) refl

Settled-reply :
    (key digest case_id : ℕ) {out results : List Execution} {after db' : Database}
    → ◌≡◌ {A = Reply × Database} (success out, after) (success results, db')
    → Settled key digest case_id out after
    → Settled key digest case_id results db'
Settled-reply key digest case_id {out} {results} h settled =
    let same_out : out ≡ results = success-injective (ap (λ r. r.0) h) in
    rw (← same_out, ← ap (λ r. r.1) h) settled
  where
    success-injective : {a b : List Execution} → success a ≡ success b → a ≡ b
    success-injective e = cc

-- What a successful call has done.
success_of_call :
    (p : Process) (key case_id : ℕ) (tool : MoneyTool) (db : Database) {results : List Execution}
    {db' : Database}
    → call_money p (some key) case_id tool db ≡ (success results, db')
    → Settled
        (operation_key p key (epoch_of case_id db.state))
        tool.request_hash
        case_id
        results
        db'
unfolding call_money
success_of_call p key case_id tool db h = elim (Result-cases (assert_active_claim p case_id db)) [
  | inr (e, failed) ↦ absurd (refuse-fails e db (rw (call_money, failed) at h))
  | inl (_, passed) ↦
      let k = operation_key p key (epoch_of case_id db.state) in
      let attempt =
        prepare p (some k) (epoch_of case_id db.state) case_id (channel_of tool case_id db.state)
          tool.kind tool.request_hash db in
      let h1 = rw (call_money, passed) at h in
      elim (Result-cases attempt) [
        | inr (e, failed) ↦ absurd (refuse-fails e db (rw failed at h1))
        | inl ((operation, ready), ready_eq) ↦
            let h2 = rw ready_eq at h1 in
            let row = prepared_row (
              prepare-cases p k (epoch_of case_id db.state) case_id _ tool.kind tool.request_hash db
                ready_eq) in
            elim (Result-cases (run_effect p k case_id operation (tool.handler k) ready)) [
              | inr (e, failed) ↦ absurd (settle_error-fails k e ready (rw failed at h2))
              | inl ((out, after), ran) ↦
                  let h3 = rw ran at h2 in
                  Settled-reply k tool.request_hash case_id h3 (
                    row_left row
                      (run_effect-cases p k case_id operation (tool.handler k) ready ran))
            ]
      ]
]

-- A successful call of a money tool is idempotent: a call that repeats its key, case and request in
-- the same recording epoch, by any process without a recovery lock and with a live claim, gets the
-- same executions, whatever its handler would do, and leaves the database as it is.
pub repeated_call_replays :
    (p p' : Process) (key key' case_id : ℕ) (tool tool' : MoneyTool) (db db' : Database)
    (results : List Execution)
    → call_money p (some key) case_id tool db ≡ (success results, db')
    → p'.recovery_lock ≡ false
    → assert_active_claim p' case_id db' ≡ ok tt
    → operation_key p' key' (epoch_of case_id db'.state)
      ≡ operation_key p key (epoch_of case_id db.state)
    → tool'.request_hash ≡ tool.request_hash
    → call_money p' (some key') case_id tool' db' ≡ (success results, db')
unfolding call_money
repeated_call_replays p p' key key' case_id tool tool' db db' results h unlocked active same_key
      same_request =
    let (op, found, final, out, same_hash, same_case) = success_of_call p key case_id tool db h in
    let k = operation_key p' key' (epoch_of case_id db'.state) in
    let row : lookup k db'.operations ≡ some op = rw same_key found in
    rw (call_money, active)
      (ap (continue_call p' k case_id tool' db') (
          settled_prepare p' k (epoch_of case_id db'.state) case_id
            (channel_of tool' case_id db'.state) tool'.kind tool'.request_hash op db' unlocked
            active row final (same_hash ∙ sym same_request) same_case)
        ∙ ap (finish_call k db')
            (settled_effect p' k case_id op (tool'.handler k) db' unlocked active row final)
        ∙ ap (λ r. (success r, db')) out)
