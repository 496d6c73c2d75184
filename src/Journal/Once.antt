-- ===== src/Journal/Once.antt =====
-- Money operations over any run of the journal (revguard/money_journal.py).
use revguard.Base.{ℕ, ◌≡◌, ◌+◌, Option, none, some, arith, lookup}
use revguard.Model.Status.{OperationStatus, committed}
use revguard.Model.Tables.{Operation, Database}
use revguard.Journal.Rows.{
  RowStep, unchanged, opened, reopened, lost, retired, effected, occurrences,
}
use revguard.Journal.Steps.{JournalStep, JournalSteps, done, more, step_moves_rows}

-- 1 for a committed row, 0 else.
abbrev pub committed_count : Option Operation → ℕ
committed_count none = 0
committed_count (some op) = elim op.status [ OperationStatus.committed ↦ 1 | _ ↦ 0 ]

abbrev pub IsCounted : Database → Type 0
IsCounted db = (k : ℕ) → occurrences k db.outbox ≡ committed_count (lookup k db.operations)

RowStep-count :
    {Free : ℕ → Type 0} {o o' : Option Operation} {n : ℕ}
    → RowStep Free o o' n
    → committed_count o' ≡ n + committed_count o
RowStep-count (unchanged o) = omega arith
RowStep-count (opened op h _) = rw h (omega arith)
RowStep-count (reopened op h _) = rw h (omega arith)
RowStep-count (lost op h) = rw h (omega arith)
RowStep-count (retired op h) = ground arith
RowStep-count (effected op results h) = rw h (omega arith)

step-IsCounted : {db db' : Database} → JournalStep db db' → IsCounted db → IsCounted db'
step-IsCounted {db} {db'} step counted k =
    let (n, move, outbox) = step_moves_rows step k in
    let count : committed_count (lookup k db'.operations)
        ≡ n + committed_count (lookup k db.operations) =
      RowStep-count move in
    omega (arith, outbox, counted k, count)

-- Through any run of the journal the outbox holds one row for each committed operation and no
-- other row: the effect of an operation is committed once, and never again.
pub effects_happen_once :
    {start end : Database} → JournalSteps start end → IsCounted start → IsCounted end
effects_happen_once done h = h
effects_happen_once (more _ steps step) h = step-IsCounted step (effects_happen_once steps h)

RowStep-final :
    {Free : ℕ → Type 0} {o o' : Option Operation} {n : ℕ} (op : Operation)
    → RowStep Free o o' n
    → op.status ≡ committed
    → o ≡ some op
    → o' ≡ some op
RowStep-final op (unchanged o) final at = at
RowStep-final op (opened new h _) final at = cc
RowStep-final op (reopened old h _) final at = absurd (ground arith)
RowStep-final op (lost old h) final at = absurd (ground arith)
RowStep-final op (retired old h) final at = absurd (ground arith)
RowStep-final op (effected old results h) final at = absurd (ground arith)

-- Once an operation is committed, no later run of the journal changes its row.
committed_is_final :
    {start end : Database} (key : ℕ) (op : Operation)
    → JournalSteps start end
    → lookup key start.operations ≡ some op
    → op.status ≡ committed
    → lookup key end.operations ≡ some op
committed_is_final key op done at final = at
committed_is_final key op (more _ steps step) at final =
    let (_, move, _) = step_moves_rows step key in
    RowStep-final op move final (committed_is_final key op steps at final)
