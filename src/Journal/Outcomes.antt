-- ===== src/Journal/Outcomes.antt =====
-- A money call whose tool fails (`ToolGateway.call`, revguard/mocks.py; revguard/money_journal.py).
use revguard.Base.{ℕ, ◌≡◌, Bool, true, false, some, ◌⊎◌, lookup}
use revguard.Model.Status.{committed}
use revguard.Model.Errors.{Error, ok, tool_error}
use revguard.Model.Tables.{Operation, Database}
use revguard.Journal.{Process, prepare, is_unresolved, retire}
use revguard.Journal.Calls.{Reply, failure}

-- The tool says that it has done nothing.
abbrev pub is_refusal : Error → Bool
is_refusal (tool_error _) = true
is_refusal _ = false

-- Neither the tool's tables nor those of the effects have changed.
abbrev pub HasNoEffect : Database → Database → Type 0
HasNoEffect db db' =
    (db'.state ≡ db.state)
    × (db'.money_ledger ≡ db.money_ledger)
    × (db'.executions ≡ db.executions)
    × (db'.outbox ≡ db.outbox)

-- On the channel, any process gets no operation but one that is committed already.
abbrev pub OnlyReplays : ℕ → Database → Type 0
OnlyReplays channel db =
    (p : Process) (key recording case_id kind digest : ℕ) (op : Operation) (db' : Database)
    → prepare p (some key) recording case_id channel kind digest db ≡ ok (op, db')
    → op.status ≡ committed

-- The stored operation may have had its effect, and the channel stays closed for it.
abbrev pub IsPending : ℕ → Operation → Database → Type 0
IsPending key operation db =
    (row : Operation) × (lookup key db.operations ≡ some row)
    × (is_unresolved row.status ≡ true)
    × (row.generation ≡ operation.generation)
    × OnlyReplays operation.channel db

-- What the failure of a handler leaves behind.
abbrev pub IsSettled : ℕ → Operation → Error → Database → Reply × Database → Type 0
IsSettled key operation e db (reply, db') =
    HasNoEffect db db'
    × ((is_refusal e ≡ true)
          × (reply ≡ failure e)
          × (lookup key db'.operations ≡ some (retire operation))
        ⊎ (is_refusal e ≡ false) × IsPending key operation db')
