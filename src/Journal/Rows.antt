-- ===== src/Journal/Rows.antt =====
-- What the writes of revguard/money_journal.py do to one row of `money_operations`.
use revguard.Base.{
  ℕ, ◌≡◌, ◌+◌, true, false, Option, none, some, List, [], ◌∷◌, ◌⊎◌, inl, inr, arith, lookup, insert,
  adjust, lookup-insert, lookup-adjust, lookup-map_rows, if◌then◌else◌, ◌==◌, ==_iff, Dict, ap,
  ◌&&◌, Bool-cases, Option-cases, refl,
}
use revguard.Model.Status.{OperationStatus, prepared, committed, not_committed}
use revguard.Model.Errors.{ok, raise_if, >>=-eq-ok, ok-injective, recovery_required}
use revguard.Model.Money.{Execution}
use revguard.Model.Tables.{Operation, Database}
use revguard.Journal.{
  Process, assert_active_claim, prepare, prepare_row, is_frozen, new_operation, with_status,
  is_unresolved, retire, if_prepared, mark_unknown, abort_operation,
}
use revguard.Journal.Recovery.{settle, is_concerned, reconcile, epoch_of}

-- The outcomes of `prepare`: a new row, a retired row taken up again, or the replay of a committed
-- one.
pub data Preparation (key recording case_id channel kind digest : ℕ) (op : Operation)
    (db db' : Database) : Type 0 where
  fresh :
      lookup key db.operations ≡ none
      → is_frozen channel db ≡ false
      → op ≡ new_operation recording case_id channel kind digest
      → db' ≡ record db { operations = insert key op db.operations }
      → Preparation key recording case_id channel kind digest op db db'
  again :
      (old : Operation)
      → lookup key db.operations ≡ some old
      → old.status ≡ not_committed
      → (old.request_hash ≡ digest) × (old.case_id ≡ case_id)
      → is_frozen channel db ≡ false
      → op ≡ with_status prepared old
      → db' ≡ record db { operations = adjust key (with_status prepared) db.operations }
      → Preparation key recording case_id channel kind digest op db db'
  replay :
      lookup key db.operations ≡ some op
      → op.status ≡ committed
      → (op.request_hash ≡ digest) × (op.case_id ≡ case_id)
      → db' ≡ db
      → Preparation key recording case_id channel kind digest op db db'

prepare_fresh :
    (key recording case_id channel kind digest : ℕ) {op : Operation} (db : Database)
    {db' : Database}
    → prepare_row key recording case_id channel kind digest none db ≡ ok (op, db')
    → (is_frozen channel db ≡ false)
      × (op ≡ new_operation recording case_id channel kind digest)
      × (db' ≡ record db { operations = insert key op db.operations })
unfolding prepare_row
prepare_fresh key recording case_id channel kind digest {op} db {db'} h =
    elim (Bool-cases (is_frozen channel db)) [ inl frozen ↦ absurd (cc) | inr free ↦ ground arith ]

prepare_found :
    (key recording case_id channel kind digest : ℕ) (old : Operation) {op : Operation}
    (db : Database) {db' : Database}
    → prepare_row key recording case_id channel kind digest (some old) db ≡ ok (op, db')
    → (old.request_hash ≡ digest)
      × (old.case_id ≡ case_id)
      × (((old.status ≡ not_committed)
            × (is_frozen channel db ≡ false)
            × (op ≡ with_status prepared old)
            × (db' ≡ record db { operations = adjust key (with_status prepared) db.operations }))
          ⊎ ((old.status ≡ committed) × (op ≡ old) × (db' ≡ db)))
unfolding prepare_row
prepare_found key recording case_id channel kind digest old {op} db {db'} h = ground arith

pub prepare-cases :
    (p : Process) (key recording case_id channel kind digest : ℕ) {op : Operation} (db : Database)
    {db' : Database}
    → prepare p (some key) recording case_id channel kind digest db ≡ ok (op, db')
    → Preparation key recording case_id channel kind digest op db db'
unfolding prepare
prepare-cases p key recording case_id channel kind digest db h =
    let (_, _, h1) = >>=-eq-ok (raise_if p.recovery_lock recovery_required) _ h in
    let (_, _, h2) = >>=-eq-ok (assert_active_claim p case_id db) _ h1 in
    elim (Option-cases (lookup key db.operations)) [
      | inl absent ↦
          let (free, new, after) =
            prepare_fresh key recording case_id channel kind digest db (rw absent at h2) in
          fresh absent free new after
      | inr (old, found) ↦
          let (same_hash, same_case, rest) =
            prepare_found key recording case_id channel kind digest old db (rw found at h2) in
          elim rest [
            | inl (retired, free, new, after) ↦
                again old found retired (same_hash, same_case) free new after
            | inr (final, same, after) ↦
                replay (rw same found) (rw same final) (rw same (same_hash, same_case)) after
          ]
    ]

-- The moves of one row: it is opened only on a `Free` channel. The number counts the committed
-- effects.
pub data RowStep (Free : ℕ → Type 0) : Option Operation → Option Operation → ℕ → Type 0 where
  unchanged : (o : Option Operation) → RowStep Free o o 0
  opened : (op : Operation) → op.status ≡ prepared → Free op.channel → RowStep Free none (some op) 0
  reopened :
      (op : Operation)
      → op.status ≡ not_committed
      → Free op.channel
      → RowStep Free (some op) (some (with_status prepared op)) 0
  lost :
      (op : Operation)
      → op.status ≡ prepared
      → RowStep Free (some op) (some (with_status OperationStatus.result_unknown op)) 0
  retired :
      (op : Operation)
      → is_unresolved op.status ≡ true
      → RowStep Free (some op) (some (retire op)) 0
  effected :
      (op : Operation) (results : List Execution)
      → op.status ≡ prepared
      → RowStep Free (some op) (some (record op { status = committed; executions = results })) 1

-- The rows with a given key in the outbox.
abbrev pub occurrences : ℕ → List ℕ → ℕ
occurrences k [] = 0
occurrences k (j ∷ js) = if k == j then 1 + occurrences k js else occurrences k js

-- Every row makes one of the moves, where `Free k` are the channels on which the row at k may open, and
-- the outbox gains a row for exactly the committed effects.
abbrev pub RowsStep : (ℕ → ℕ → Type 0) → Database → Database → Type 0
RowsStep Free db db' =
    (k : ℕ)
    → (n : ℕ) × RowStep (Free k) (lookup k db.operations) (lookup k db'.operations) n
      × (occurrences k db'.outbox ≡ n + occurrences k db.outbox)

pub row-adjust :
    {Free : ℕ → Type 0} (k key : ℕ) (f : Operation → Operation) (d : Dict Operation)
    → ((op : Operation) → k ≡ key → lookup key d ≡ some op → RowStep Free (some op) (some (f op)) 0)
    → RowStep Free (lookup k d) (lookup k (adjust key f d)) 0
row-adjust k key f d move = elim (Bool-cases (k == key)) [
  | inr other ↦ rw (lookup-adjust k key f d, other) (unchanged _)
  | inl same ↦
      let at : k ≡ key = (==_iff k key).0 same in
      rw (lookup-adjust k key f d, same)
        (elim (Option-cases (lookup k d)) [
          | inl absent ↦ rw absent (unchanged _)
          | inr (op, found) ↦ rw found (move op at (cc))
        ])
]

-- What the row at `key` needs, to open on a free channel or on the one that it was stored with.
abbrev pub MayOpen : (ℕ → ℕ → Type 0) → ℕ → ℕ → Database → Type 0
MayOpen Free key channel db =
    is_frozen channel db ≡ false
    → Free key channel
      × ((old : Operation) → lookup key db.operations ≡ some old → Free key old.channel)

pub RowsStep-prepare :
    (Free : ℕ → ℕ → Type 0) (p : Process) (key recording case_id channel kind digest : ℕ)
    {op : Operation} (db : Database) {db' : Database}
    → MayOpen Free key channel db
    → prepare p (some key) recording case_id channel kind digest db ≡ ok (op, db')
    → RowsStep Free db db'
RowsStep-prepare Free p key recording case_id channel kind digest {op} db may h k =
    elim (prepare-cases p key recording case_id channel kind digest db h) [
      | replay _ _ _ after ↦ rw after (0, unchanged _, omega arith)
      | fresh absent free new after ↦ rw after (
        0,
        elim (Bool-cases (k == key)) [
          | inr other ↦ rw (lookup-insert k key op db.operations, other) (unchanged _)
          | inl same ↦
              let at : k ≡ key = (==_iff k key).0 same in
              rw (lookup-insert k key op db.operations, same, at, absent)
                (opened op (rw new refl) (rw new (may free).0))
        ],
        omega arith,
      )
      | again old found retired_ _ free _ after ↦ rw after (
        0,
        row-adjust k key (with_status prepared) db.operations (λ o same_key at.
            let same : o ≡ old = cc in
            rw (same, same_key) (reopened old retired_ ((may free).1 old found))),
        omega arith,
      )
    ]

if_prepared-RowStep :
    {Free : ℕ → Type 0} (f : Operation → Operation) (op : Operation) (s : OperationStatus)
    → (s ≡ prepared → RowStep Free (some op) (some (f op)) 0)
    → RowStep Free (some op) (some (elim s [ OperationStatus.prepared ↦ f op | _ ↦ op ])) 0
if_prepared-RowStep f op OperationStatus.prepared move = move refl
if_prepared-RowStep f op OperationStatus.committed move = unchanged _
if_prepared-RowStep f op OperationStatus.not_committed move = unchanged _
if_prepared-RowStep f op OperationStatus.result_unknown move = unchanged _

pub RowsStep-mark_unknown :
    (Free : ℕ → ℕ → Type 0) (key : ℕ) (db : Database) → RowsStep Free db (mark_unknown key db)
unfolding mark_unknown
RowsStep-mark_unknown Free key db k = (
  0,
  row-adjust k key (if_prepared (with_status OperationStatus.result_unknown)) db.operations
      (λ op _ at.
        if_prepared-RowStep (with_status OperationStatus.result_unknown) op op.status (lost op)),
  omega arith,
)

pub RowsStep-abort_operation :
    (Free : ℕ → ℕ → Type 0) (key : ℕ) (db : Database) → RowsStep Free db (abort_operation key db)
unfolding abort_operation
RowsStep-abort_operation Free key db k = (
  0,
  row-adjust k key (if_prepared retire) db.operations
      (λ op _ at. if_prepared-RowStep retire op op.status (λ h. retired op (rw h refl))),
  omega arith,
)

pub RowsStep-settle :
    {Free : ℕ → Type 0} (case_id epoch : ℕ) (op : Operation)
    → RowStep Free (some op) (some (settle case_id epoch op)) 0
RowsStep-settle case_id epoch op =
    elim (Bool-cases (is_concerned case_id epoch op && is_unresolved op.status)) [
      | inr other ↦ rw other (unchanged _)
      | inl both ↦ rw both (retired op (ground arith))
    ]

pub RowsStep-reconcile :
    (Free : ℕ → ℕ → Type 0) (p : Process) (case_id : ℕ) (db : Database) {rows : Dict Operation}
    {db' : Database}
    → reconcile p case_id db ≡ ok (rows, db')
    → RowsStep Free db db'
unfolding reconcile
RowsStep-reconcile Free p case_id db h k =
    let (_, _, h1) = >>=-eq-ok (raise_if p.recovery_lock recovery_required) _ h in
    rw (← ap (λ r. r.1) (ok-injective h1)) (
      0,
      rw (lookup-map_rows k (settle case_id (epoch_of case_id db.state)) db.operations)
          (elim (Option-cases (lookup k db.operations)) [
            | inl absent ↦ rw absent (unchanged _)
            | inr (op, found) ↦ rw found (RowsStep-settle case_id (epoch_of case_id db.state) op)
          ]),
      omega arith,
    )
