-- ===== src/Journal/Fence.antt =====
-- The generation fence of `reconcile_with_tx` (revguard/money_journal.py), which `ToolGateway.call`
-- (revguard/mocks.py) checks before it runs the handler.
use revguard.Base.{
  ℕ, ◌≡◌, ◌+◌, ◌≤◌, Option, none, some, List, arith, lookup, lookup-map_rows, ap, true, inl, inr,
}
use revguard.Model.Errors.{
  Error, Result, ok, err, >>=-eq-ok, ok-injective, raise_if, recovery_required, Result-cases,
}
use revguard.Model.Money.{Execution, GatewayState}
use revguard.Model.Tables.{Operation, Database}
use revguard.Journal.{Process, is_unresolved}
use revguard.Journal.Recovery.{epoch_of, reconcile, settle}
use revguard.Journal.Calls.{run_effect}
use revguard.Journal.Rows.{RowStep, unchanged, opened, reopened, lost, retired, effected}
use revguard.Journal.Steps.{
  JournalSteps, done, more, step_moves_rows, repeated, applied, run_effect-cases,
}

-- The row exists and its generation is at least `n`.
abbrev HasGeneration : ℕ → Option Operation → Type 0
HasGeneration n none = ⊥
HasGeneration n (some op) = n ≤ op.generation

RowStep-HasGeneration :
    {Free : ℕ → Type 0} {o o' : Option Operation} {m : ℕ} (n : ℕ)
    → RowStep Free o o' m
    → HasGeneration n o
    → HasGeneration n o'
RowStep-HasGeneration n (unchanged o) h = h
RowStep-HasGeneration n (opened op e _) h = absurd h
RowStep-HasGeneration n (reopened op e _) h = h
RowStep-HasGeneration n (lost op e) h = h
RowStep-HasGeneration n (retired op e) h = omega arith
RowStep-HasGeneration n (effected op results e) h = h

steps-HasGeneration :
    {start end : Database} (n key : ℕ)
    → JournalSteps start end
    → HasGeneration n (lookup key start.operations)
    → HasGeneration n (lookup key end.operations)
steps-HasGeneration n key done h = h
steps-HasGeneration n key (more _ steps step) h =
    let (_, move, _) = step_moves_rows step key in
    RowStep-HasGeneration n move (steps-HasGeneration n key steps h)

settle-generation :
    (case_id epoch : ℕ) (op : Operation)
    → op.case_id ≡ case_id
    → op.recording ≡ epoch
    → is_unresolved op.status ≡ true
    → op.generation + 1 ≤ (settle case_id epoch op).generation
settle-generation case_id epoch op of_case of_epoch unresolved = ground arith

reconcile-HasGeneration :
    (p : Process) (case_id key : ℕ) (op : Operation) (db : Database) {rows : _} {db' : Database}
    → reconcile p case_id db ≡ ok (rows, db')
    → lookup key db.operations ≡ some op
    → op.case_id ≡ case_id
    → op.recording ≡ epoch_of case_id db.state
    → is_unresolved op.status ≡ true
    → HasGeneration (op.generation + 1) (lookup key db'.operations)
unfolding reconcile
reconcile-HasGeneration p case_id key op db h found of_case of_epoch unresolved =
    let (_, _, h1) = >>=-eq-ok (raise_if p.recovery_lock recovery_required) _ h in
    rw (← ap (λ r. r.1) (ok-injective h1)) (
      rw (lookup-map_rows key (settle case_id (epoch_of case_id db.state)) db.operations, found)
        (settle-generation case_id (epoch_of case_id db.state) op of_case of_epoch unresolved))

outdated :
    {o : Option Operation} (op current : Operation)
    → HasGeneration (op.generation + 1) o
    → o ≡ some current
    → current.generation ≡ op.generation
    → ⊥
outdated op current newer at same =
    let current_newer : HasGeneration (op.generation + 1) (some current) = rw at at newer in
    omega (arith, current_newer, same)

-- After a reconciliation of its case, an operation that was unresolved at the time, and that is held
-- by a worker from before, can never be carried out: whatever happens later in the journal, its
-- effect is refused.
pub reconciled_operations_are_fenced :
    (p : Process) (case_id key : ℕ) (op : Operation) (db db' later : Database)
    (rows : List (ℕ × Operation)) (p' : Process) (case_id' : ℕ)
    (handler : GatewayState → Result (List Execution × GatewayState))
    → reconcile p case_id db ≡ ok (rows, db')
    → lookup key db.operations ≡ some op
    → op.case_id ≡ case_id
    → op.recording ≡ epoch_of case_id db.state
    → is_unresolved op.status ≡ true
    → JournalSteps db' later
    → (e : Error) × (run_effect p' key case_id' op handler later ≡ err e)
reconciled_operations_are_fenced p case_id key op db db' later rows p' case_id' handler h found
      of_case of_epoch unresolved steps =
    let newer =
      steps-HasGeneration (op.generation + 1) key steps
        (reconcile-HasGeneration p case_id key op db h found of_case of_epoch unresolved) in
    elim (Result-cases (run_effect p' key case_id' op handler later)) [
      | inr failed ↦ failed
      | inl ((results, after), success) ↦
          absurd (elim (run_effect-cases p' key case_id' op handler later success) [
            | repeated current at same _ _ _ ↦ outdated op current newer at same
            | applied current _ at same _ _ _ ↦ outdated op current newer at same
          ])
    ]
