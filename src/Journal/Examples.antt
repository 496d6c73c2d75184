-- ===== src/Journal/Examples.antt =====
-- Runs of revguard/money_journal.py and of `ToolGateway.call`, and their theorems at concrete inputs.
use revguard.Base.{insert, ◌≡◌, ◌+◌, ◌*◌, refl, false, none, some, [], ◌∷◌, lookup}
use revguard.Base.Int.{pos}
use revguard.Model.Status.{committed, not_committed}
use revguard.Model.Errors.{
  Error, ok, err, integrity_error, recovery_required, value_error, tool_error, not_found,
}
use revguard.Model.Money.{Execution}
use revguard.Model.Tables.{Operation, Database, money_recovery_reconciled}
use revguard.Model.Actors.{Actor}
use revguard.Model.Samples.{empty}
use revguard.Journal.{
  mark_unknown, is_frozen, prepare, Process, assert_active_claim, new_operation, retire,
  commit_result,
}
use revguard.Journal.Recovery.{reconcile}
use revguard.Journal.Calls.{MoneyTool, call_money, success, failure, crash, run_effect}
use revguard.Journal.Steps.{JournalSteps, done, more, by_prepare, by_loss}
use revguard.Journal.Once.{IsCounted, effects_happen_once}
use revguard.Journal.Exclusive.{IsExclusive, one_live_operation_per_channel}
use revguard.Journal.Fence.{reconciled_operations_are_fenced}
use revguard.Journal.Runs.{call_money-JournalSteps}
use revguard.Journal.Replay.{repeated_call_replays}

abbrev executor : Process
executor = record {
  recovery_lock = false;
  claim = none;
  digest = λ c. c.body;
  recording_key = λ key epoch. key + 1000 * epoch;
}

abbrev execution : Execution
execution = record {
  action_id = 1;
  case_id = 7;
  idempotency_key = 3;
  amount = pos 450;
  currency = 0;
  component = 2;
  ledger_id = 11;
  is_rolled_back = false;
  rollback_token = none;
}

-- A tool on order 9 that always succeeds, and one that refuses.
abbrev submit : MoneyTool
submit = record {
  kind = 1;
  request_hash = 55;
  target_order = λ s. some 9;
  handler = λ key s. ok (execution ∷ [], s);
}

abbrev refusing : MoneyTool
refusing = record submit { handler = λ key s. err (tool_error not_found) }

abbrev after_call : Database
after_call = (call_money executor (some 3) 7 submit empty).1

test_call : (call_money executor (some 3) 7 submit empty).0 ≡ success (execution ∷ [])
unfolding call_money
test_call = refl

-- A handler that refuses leaves its operation retired, one generation on.
test_refused :
    lookup 3 (call_money executor (some 3) 7 refusing empty).1.operations
    ≡ some (retire (new_operation 0 7 9 1 55))
unfolding call_money
test_refused = refl

-- Another request under the key of a committed one.
test_other_request :
    (call_money executor (some 3) 7 (record submit { request_hash = 56 }) after_call).0
    ≡ failure value_error
unfolding call_money commit_result
test_other_request = refl

abbrev pending_row : Operation
pending_row = new_operation 0 7 9 1 55

abbrev pending : Database
pending = record empty { operations = (3, pending_row) ∷ [] }

-- A second operation on the channel of a pending one.
test_frozen : (call_money executor (some 4) 7 submit pending).0 ≡ failure recovery_required
unfolding call_money
test_frozen = refl

empty-IsCounted : IsCounted empty
empty-IsCounted k = refl

empty-IsExclusive : IsExclusive empty
empty-IsExclusive j k a b at_j = absurd (cc)

run : JournalSteps empty after_call
run = call_money-JournalSteps executor 3 7 submit empty

effects_happen_once_example : IsCounted after_call
effects_happen_once_example = effects_happen_once run empty-IsCounted

-- An operation on order 9 whose outcome is lost, and then another on order 8, and one on order 9.
abbrev lost_db : Database
lost_db = mark_unknown 3 pending

abbrev second_row : Operation
second_row = new_operation 0 7 8 1 56

abbrev both : Database
both = record lost_db { operations = insert 4 second_row lost_db.operations }

test_two_channels :
    (prepare executor (some 3) 0 7 9 1 55 empty ≡ ok (pending_row, pending))
    × (prepare executor (some 4) 0 7 8 1 56 lost_db ≡ ok (second_row, both))
    × (prepare executor (some 5) 0 7 9 1 57 both ≡ err recovery_required)
unfolding prepare is_frozen mark_unknown
test_two_channels = (refl, refl, refl)

abbrev two_channels : JournalSteps empty both
two_channels =
    more both
      (more lost_db
        (more pending done
          (by_prepare executor 3 0 7 9 1 55 pending_row empty pending (test_two_channels.0)))
        (by_loss 3 pending))
      (by_prepare executor 4 0 7 8 1 56 second_row lost_db both (test_two_channels.1))

one_live_operation_per_channel_example : IsExclusive both
unfolding mark_unknown
one_live_operation_per_channel_example =
    one_live_operation_per_channel two_channels
      (((tt, λ old at. absurd (cc)), tt), λ old at. absurd (cc)) empty-IsExclusive

-- A retired operation of order 9 is taken up again by a call that names order 8, while another
-- operation on order 9 is pending: both are then prepared on one channel.
test_other_channel :
    prepare executor
      (some 3)
      0
      7
      8
      1
      55
      (record empty { operations = (3, retire pending_row) ∷ (4, pending_row) ∷ [] })
    ≡ ok (
      record pending_row { generation = 2 },
      record empty {
        operations = (3, record pending_row { generation = 2 }) ∷ (4, pending_row) ∷ [];
      },
    )
unfolding prepare is_frozen
test_other_channel = refl

-- The outcome of a call whose handler is stopped by an error of a table.
abbrev broken : MoneyTool
broken = record submit { handler = λ key s. err integrity_error }

test_broken : call_money executor (some 3) 7 broken empty ≡ (crash integrity_error, lost_db)
unfolding call_money is_frozen mark_unknown
test_broken = refl

abbrev committed_row : Operation
committed_row = record pending_row { status = committed; executions = execution ∷ [] }

repeated_call_replays_example :
    call_money executor (some 3) 7 refusing after_call ≡ (success (execution ∷ []), after_call)
unfolding commit_result
repeated_call_replays_example =
    repeated_call_replays executor executor 3 3 7 submit refusing empty after_call (execution ∷ [])
      (unfold call_money in refl) refl (unfold assert_active_claim in refl)
      (unfold call_money in refl) refl

abbrev reconciled : Database
reconciled = record pending {
  operations = (3, retire pending_row) ∷ [];
  audit =
      record {
        case_id = 7;
        actor = Actor.executor;
        detail = money_recovery_reconciled ((3, not_committed, 2) ∷ []);
      }
      ∷ [];
}

-- A new worker has taken the operation up again and committed it.
abbrev retried : Database
retried = (call_money executor (some 3) 7 submit reconciled).1

retried-JournalSteps : JournalSteps reconciled retried
retried-JournalSteps = call_money-JournalSteps executor 3 7 submit reconciled

reconciled_operations_are_fenced_example :
    (e : Error) × (run_effect executor 3 7 pending_row (submit.handler 3) retried ≡ err e)
reconciled_operations_are_fenced_example =
    reconciled_operations_are_fenced executor 7 3 pending_row pending reconciled retried
      ((3, retire pending_row) ∷ []) executor 7 (submit.handler 3) (unfold reconcile in refl) refl
      refl refl refl retried-JournalSteps
