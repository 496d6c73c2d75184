-- ===== src/Journal/Steps.antt =====
-- The transactions that write `money_operations` (revguard/money_journal.py, and those of
-- `ToolGateway.call` in revguard/mocks.py) as steps between databases.
use revguard.Base.{
  ℕ, ◌≡◌, not, some, List, ◌⊎◌, inl, inr, arith, lookup, lookup-adjust, ◌==◌, ==_iff, Bool-cases,
  refl, sym, ap, Dict,
}
use revguard.Model.Status.{OperationStatus, prepared, committed}
use revguard.Model.Errors.{
  Result, ok, raise_if, >>=-eq-ok, ok-injective, recovery_required, or_raise, lookup_error,
}
use revguard.Model.Money.{Execution, GatewayState}
use revguard.Model.Tables.{Operation, Database}
use revguard.Journal.{
  Process, assert_active_claim, prepare, commit_result, abort_operation, mark_unknown,
}
use revguard.Journal.Recovery.{reconcile, hold, freeze_case}
use revguard.Journal.Calls.{run_effect, effect_row}
use revguard.Journal.Rows.{
  unchanged, effected, MayOpen, RowsStep, RowsStep-prepare, RowsStep-mark_unknown,
  RowsStep-abort_operation, RowsStep-reconcile,
}

-- The outcomes of a successful `run_effect`, by the row that it finds.
pub data Effect (key : ℕ) (operation : Operation)
    (handler : GatewayState → Result (List Execution × GatewayState)) (results : List Execution)
    (db db' : Database) : Type 0 where
  repeated :
      (current : Operation)
      → lookup key db.operations ≡ some current
      → current.generation ≡ operation.generation
      → current.status ≡ committed
      → results ≡ current.executions
      → db' ≡ db
      → Effect key operation handler results db db'
  applied :
      (current : Operation) (state : GatewayState)
      → lookup key db.operations ≡ some current
      → current.generation ≡ operation.generation
      → current.status ≡ prepared
      → handler db.state ≡ ok (results, state)
      → db' ≡ commit_result key current results state db
      → Effect key operation handler results db db'

effect_row-cases :
    (s : OperationStatus) (handler : GatewayState → Result (List Execution × GatewayState))
    (key : ℕ) (current : Operation) (db : Database) {results : List Execution} {db' : Database}
    → effect_row s handler key current db ≡ ok (results, db')
    → ((s ≡ committed) × (results ≡ current.executions) × (db' ≡ db))
      ⊎ ((state : GatewayState) × (s ≡ prepared)
          × (handler db.state ≡ ok (results, state))
          × (db' ≡ commit_result key current results state db))
unfolding effect_row
effect_row-cases OperationStatus.committed handler key current db h =
    let same = ok-injective h in inl (refl, sym (ap (λ r. r.0) same), sym (ap (λ r. r.1) same))
effect_row-cases OperationStatus.prepared handler key current db {results} h =
    let ((out, state), run, e) = >>=-eq-ok (handler db.state) _ h in
    let same = ok-injective e in
    let out_eq : out ≡ results = ap (λ r. r.0) same in
    inr (state, refl, rw (← out_eq) run, rw (← out_eq) (sym (ap (λ r. r.1) same)))
effect_row-cases OperationStatus.not_committed handler key current db h = absurd (cc)
effect_row-cases OperationStatus.result_unknown handler key current db h = absurd (cc)

pub run_effect-cases :
    (p : Process) (key case_id : ℕ) (operation : Operation)
    (handler : GatewayState → Result (List Execution × GatewayState)) (db : Database)
    {results : List Execution} {db' : Database}
    → run_effect p key case_id operation handler db ≡ ok (results, db')
    → Effect key operation handler results db db'
unfolding run_effect
run_effect-cases p key case_id operation handler db h =
    let (_, _, h1) = >>=-eq-ok (assert_active_claim p case_id db) _ h in
    let (current, found, h2) = >>=-eq-ok (or_raise (lookup key db.operations) lookup_error) _ h1 in
    let (_, _, h3) = >>=-eq-ok (raise_if p.recovery_lock recovery_required) _ h2 in
    let (_, same, h4) =
      >>=-eq-ok (raise_if (not (current.generation == operation.generation)) recovery_required) _
        h3 in
    elim (effect_row-cases current.status handler key current db h4) [
      | inl (final, out, after) ↦ repeated current (ground arith) (ground arith) final out after
      | inr (state, live, run, after) ↦
          applied current state (ground arith) (ground arith) live run after
    ]

-- A step of some process.
pub data JournalStep : Database → Database → Type 0 where
  by_prepare :
      (p : Process) (key recording case_id channel kind digest : ℕ) (op : Operation)
      (db db' : Database)
      → prepare p (some key) recording case_id channel kind digest db ≡ ok (op, db')
      → JournalStep db db'
  by_effect :
      (p : Process) (key case_id : ℕ) (operation : Operation)
      (handler : GatewayState → Result (List Execution × GatewayState)) (results : List Execution)
      (db db' : Database)
      → run_effect p key case_id operation handler db ≡ ok (results, db')
      → JournalStep db db'
  by_abort : (key : ℕ) (db : Database) → JournalStep db (abort_operation key db)
  by_loss : (key : ℕ) (db : Database) → JournalStep db (mark_unknown key db)
  by_reconcile :
      (p : Process) (case_id : ℕ) (rows : Dict Operation) (db db' : Database)
      → reconcile p case_id db ≡ ok (rows, db')
      → JournalStep db db'
  by_hold :
      (channel case_id reason : ℕ) (db : Database) → JournalStep db (hold channel case_id reason db)
  by_freeze : (case_id reason : ℕ) (db : Database) → JournalStep db (freeze_case case_id reason db)

pub data JournalSteps (start : Database) : Database → Type 0 where
  done : JournalSteps start start
  more :
      {db : Database} (next' : Database)
      → JournalSteps start db
      → JournalStep db next'
      → JournalSteps start next'

pub RowsStep-commit_result :
    (Free : ℕ → ℕ → Type 0) (key : ℕ) (current : Operation) (results : List Execution)
    (state : GatewayState) (db : Database)
    → lookup key db.operations ≡ some current
    → current.status ≡ prepared
    → RowsStep Free db (commit_result key current results state db)
unfolding commit_result
RowsStep-commit_result Free key current results state db found live k =
    elim (Bool-cases (k == key)) [
      | inr other ↦ (
        0,
        rw
            (
              lookup-adjust k key (λ o. record o { status = committed; executions = results })
                  db.operations,
              other,
            )
            (unchanged _),
        rw other (omega arith),
      )
      | inl same ↦
          let at : k ≡ key = (==_iff k key).0 same in
          let here : lookup k db.operations ≡ some current = rw at found in
          (
            1,
            rw
                (
                  lookup-adjust k key (λ o. record o { status = committed; executions = results })
                      db.operations,
                  same,
                  here,
                )
                (effected current results live),
            rw same (omega arith),
          )
    ]

-- What a step needs, where rows open only on the channels `Free`.
abbrev pub Opens : (ℕ → ℕ → Type 0) → {db db' : Database} → JournalStep db db' → Type 0
Opens Free (by_prepare p key recording case_id channel kind digest op db db' h) =
    MayOpen Free key channel db
Opens Free (by_effect p key case_id operation handler results db db' h) = Unit
Opens Free (by_abort key db) = Unit
Opens Free (by_loss key db) = Unit
Opens Free (by_reconcile p case_id rows db db' h) = Unit
Opens Free (by_hold channel case_id reason db) = Unit
Opens Free (by_freeze case_id reason db) = Unit

pub step-RowsStep :
    (Free : ℕ → ℕ → Type 0) {db db' : Database} (step : JournalStep db db')
    → Opens Free step
    → RowsStep Free db db'
unfolding hold freeze_case
step-RowsStep Free (by_prepare p key recording case_id channel kind digest op db db' h) may =
    RowsStep-prepare Free p key recording case_id channel kind digest db may h
step-RowsStep Free (by_effect p key case_id operation handler results db db' h) _ =
    elim (run_effect-cases p key case_id operation handler db h) [
      | repeated _ _ _ _ _ after ↦ λ k. rw after (0, unchanged _, omega arith)
      | applied current state found _ live _ after ↦
          rw after (RowsStep-commit_result Free key current results state db found live)
    ]
step-RowsStep Free (by_abort key db) _ = RowsStep-abort_operation Free key db
step-RowsStep Free (by_loss key db) _ = RowsStep-mark_unknown Free key db
step-RowsStep Free (by_reconcile p case_id rows db db' h) _ = RowsStep-reconcile Free p case_id db h
step-RowsStep Free (by_hold channel case_id reason db) _ = λ k. (0, unchanged _, omega arith)
step-RowsStep Free (by_freeze case_id reason db) _ = λ k. (0, unchanged _, omega arith)

abbrev AnyChannel : ℕ → ℕ → Type 0
AnyChannel key channel = Unit

step-Opens : {db db' : Database} (step : JournalStep db db') → Opens AnyChannel step
step-Opens (by_prepare p key recording case_id channel kind digest op db db' h) =
    λ free. (tt, λ old found. tt)
step-Opens (by_effect p key case_id operation handler results db db' h) = tt
step-Opens (by_abort key db) = tt
step-Opens (by_loss key db) = tt
step-Opens (by_reconcile p case_id rows db db' h) = tt
step-Opens (by_hold channel case_id reason db) = tt
step-Opens (by_freeze case_id reason db) = tt

-- Every step moves every row by the moves of `RowStep`, and adds to the outbox the effects that it
-- commits.
pub step_moves_rows : {db db' : Database} → JournalStep db db' → RowsStep (λ _ _. Unit {0}) db db'
step_moves_rows step = step-RowsStep AnyChannel step (step-Opens step)
