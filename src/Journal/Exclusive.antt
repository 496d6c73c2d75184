-- ===== src/Journal/Exclusive.antt =====
-- The freeze of a money channel (revguard/money_journal.py: `hold or pending` in `prepare`).
use revguard.Base.{
  ℕ, ◌≡◌, ◌∙◌, true, false, ◌&&◌, Option, some, ◌⊎◌, inl, inr, arith, lookup, any_row-lookup, refl,
  sym, subst, ◌==◌,
}
use revguard.Model.Tables.{Operation, Database}
use revguard.Journal.{is_frozen, is_unresolved}
use revguard.Journal.Rows.{RowStep, unchanged, opened, reopened, lost, retired, effected}
use revguard.Journal.Steps.{
  JournalStep, JournalSteps, done, more, by_prepare, by_effect, by_abort, by_loss, by_reconcile,
  by_hold, by_freeze, Opens, step-RowsStep,
}

-- No two unresolved operations stand on one channel.
abbrev pub IsExclusive : Database → Type 0
IsExclusive db =
    (j k : ℕ) (a b : Operation)
    → lookup j db.operations ≡ some a
    → lookup k db.operations ≡ some b
    → is_unresolved a.status ≡ true
    → is_unresolved b.status ≡ true
    → a.channel ≡ b.channel
    → j ≡ k

-- A channel that is not frozen carries no unresolved operation.
pub free_channel :
    (channel k : ℕ) (db : Database) (op : Operation)
    → is_frozen channel db ≡ false
    → lookup k db.operations ≡ some op
    → is_unresolved op.status ≡ true
    → op.channel ≡ channel
    → ⊥
unfolding is_frozen
free_channel channel k db op free found unresolved on =
    let clear =
      any_row-lookup (λ o. o.channel == channel && is_unresolved o.status) k op db.operations
        (ground arith) found in
    ground arith

channel_eq : {a b : Operation} → some a ≡ some b → a.channel ≡ b.channel
channel_eq h = ground arith

-- Where an unresolved row comes from: it was unresolved on its channel before, or it was opened.
origin :
    {Free : ℕ → Type 0} {o o' : Option Operation} {n : ℕ} (b : Operation)
    → RowStep Free o o' n
    → o' ≡ some b
    → is_unresolved b.status ≡ true
    → ((a : Operation) × (o ≡ some a) × (is_unresolved a.status ≡ true) × (a.channel ≡ b.channel))
      ⊎ Free b.channel
origin {Free} b (unchanged o) at unresolved = inl (b, at, unresolved, refl)
origin {Free} b (opened op h free) at unresolved = inr (subst Free (channel_eq at) free)
origin {Free} b (reopened op h free) at unresolved = inr (subst Free (channel_eq at) free)
origin {Free} b (lost op h) at unresolved = inl (op, refl, rw h refl, channel_eq at)
origin {Free} b (retired op h) at unresolved = absurd (ground arith)
origin {Free} b (effected op results h) at unresolved = absurd (ground arith)

-- A call names the channel of the operation that is stored at its key, if any. `prepare` does not
-- check this.
abbrev pub NamesChannel : {db db' : Database} → JournalStep db db' → Type 0
NamesChannel (by_prepare p key recording case_id channel kind digest op db db' h) =
    (old : Operation) → lookup key db.operations ≡ some old → old.channel ≡ channel
NamesChannel (by_effect p key case_id operation handler results db db' h) = Unit
NamesChannel (by_abort key db) = Unit
NamesChannel (by_loss key db) = Unit
NamesChannel (by_reconcile p case_id rows db db' h) = Unit
NamesChannel (by_hold channel case_id reason db) = Unit
NamesChannel (by_freeze case_id reason db) = Unit

-- Each call of a run does.
abbrev pub NamesChannels : {start end : Database} → JournalSteps start end → Type 0
NamesChannels done = Unit
NamesChannels (more _ steps step) = NamesChannels steps × NamesChannel step

-- Rows open only at one key, and on channels that are free before the step.
abbrev CanOpen : ℕ → Database → ℕ → ℕ → Type 0
CanOpen key db k channel = (k ≡ key) × (is_frozen channel db ≡ false)

named_step-Opens :
    {db db' : Database} (step : JournalStep db db')
    → NamesChannel step
    → (key : ℕ) × Opens (CanOpen key db) step
named_step-Opens (by_prepare p key recording case_id channel kind digest op db db' h) named =
    (key, λ free. ((refl, free), λ old found. (refl, rw (named old found) free)))
named_step-Opens (by_effect p key case_id operation handler results db db' h) _ = (0, tt)
named_step-Opens (by_abort key db) _ = (0, tt)
named_step-Opens (by_loss key db) _ = (0, tt)
named_step-Opens (by_reconcile p case_id rows db db' h) _ = (0, tt)
named_step-Opens (by_hold channel case_id reason db) _ = (0, tt)
named_step-Opens (by_freeze case_id reason db) _ = (0, tt)

step-IsExclusive :
    {db db' : Database} (step : JournalStep db db')
    → NamesChannel step
    → IsExclusive db
    → IsExclusive db'
step-IsExclusive {db} step named exclusive j k a b at_j at_k unresolved_a unresolved_b same =
    let (key, opens_rows) = named_step-Opens step named in
    let rows = step-RowsStep (CanOpen key db) step opens_rows in
    elim (origin a (rows j).1 at_j unresolved_a) [
      | inl (a', at_j', unresolved_a', same_a) ↦ elim (origin b (rows k).1 at_k unresolved_b) [
        | inl (b', at_k', unresolved_b', same_b) ↦
            exclusive j k a' b' at_j' at_k' unresolved_a' unresolved_b' (same_a ∙ same ∙ sym same_b)
        | inr (opens, free) ↦
            absurd (free_channel b.channel j db a' free at_j' unresolved_a' (same_a ∙ same))
      ]
      | inr (opens, free) ↦ elim (origin b (rows k).1 at_k unresolved_b) [
        | inl (b', at_k', unresolved_b', same_b) ↦
            absurd (free_channel a.channel k db b' free at_k' unresolved_b' (same_b ∙ sym same))
        | inr (opens', _) ↦ opens ∙ sym opens'
      ]
    ]

-- Through any run of the journal in which each call names the channel of the operation that is stored
-- at its key, if there is one: where at the start no two operations on one channel are unresolved,
-- none are at the end.
pub one_live_operation_per_channel :
    {start end : Database} (steps : JournalSteps start end)
    → NamesChannels steps
    → IsExclusive start
    → IsExclusive end
one_live_operation_per_channel done _ h = h
one_live_operation_per_channel (more _ steps step) (before, named) h =
    step-IsExclusive step named (one_live_operation_per_channel steps before h)
