-- ===== src/Journal/Calls.antt =====
-- A money tool through the journal: the branch for `MONEY_TOOLS` of `ToolGateway.call`
-- (revguard/mocks.py), after its authorization. The tool itself is a value of `MoneyTool`.
use revguard.Base.{ℕ, not, Option, none, some, List, lookup, if◌then◌else◌, ◌==◌}
use revguard.Model.Status.{OperationStatus}
use revguard.Model.Errors.{
  integrity_error, Error, Result, ok, err, ◌>>=◌, ◌>>◌, raise_if, or_raise, recovery_required,
  tool_error, lookup_error, policy_match_error, formula_error, decimal_error, runtime_busy,
  invalid_params,
}
use revguard.Model.Money.{Execution, GatewayState}
use revguard.Model.Tables.{Operation, Database}
use revguard.Journal.{
  Process, assert_active_claim, prepare, commit_result, abort_operation, mark_unknown,
}
use revguard.Journal.Recovery.{epoch_of}

-- A registered money tool with the parameters of one call: the digest of its request, the order that
-- its target belongs to, and its handler, which gets the key of the operation.
pub record MoneyTool : Type 0 where
  pub kind : ℕ
  pub request_hash : ℕ
  pub target_order : GatewayState → Option ℕ
  pub handler : ℕ → GatewayState → Result (List Execution × GatewayState)

-- `"order:" + str(target.get("order_id") or case_id)`
abbrev pub channel_of : MoneyTool → ℕ → GatewayState → ℕ
channel_of tool case_id state = elim (tool.target_order state) [ none ↦ case_id | some o ↦ o ]

-- The row of the operation, read again under the lock, by its status. The snapshot of the handler's
-- state is committed with the result.
unfoldable pub effect_row :
    OperationStatus
    → (GatewayState → Result (List Execution × GatewayState))
    → ℕ
    → Operation
    → Database
    → Result (List Execution × Database)
effect_row OperationStatus.committed handler key current db = ok (current.executions, db)
effect_row OperationStatus.prepared handler key current db = do
  (results, state) ← handler db.state
  ok (results, commit_result key current results state db)
effect_row _ handler key current db = err recovery_required

-- The second transaction. No statement deletes an operation, so a missing row is a crash.
unfoldable pub run_effect :
    Process
    → ℕ
    → ℕ
    → Operation
    → (GatewayState → Result (List Execution × GatewayState))
    → Database
    → Result (List Execution × Database)
unfolding effect_row assert_active_claim
run_effect p key case_id operation handler db = do
  assert_active_claim p case_id db
  current ← or_raise (lookup key db.operations) lookup_error
  raise_if p.recovery_lock recovery_required
  raise_if (not (current.generation == operation.generation)) recovery_required
  effect_row current.status handler key current db

-- What the caller of `call` sees: a result, an error reply, or a raised exception.
pub data Reply : Type 0 where
  success : List Execution → Reply
  failure : Error → Reply
  crash : Error → Reply

-- The two `except` clauses, for an error after `prepare`.
unfoldable pub settle_error : ℕ → Error → Database → Reply × Database
unfolding abort_operation mark_unknown
settle_error key (tool_error e) db = (failure (tool_error e), abort_operation key db)
settle_error key lookup_error db = (crash lookup_error, mark_unknown key db)
settle_error key policy_match_error db = (crash policy_match_error, mark_unknown key db)
settle_error key formula_error db = (crash formula_error, mark_unknown key db)
settle_error key integrity_error db = (crash integrity_error, mark_unknown key db)
settle_error key decimal_error db = (crash decimal_error, mark_unknown key db)
settle_error key runtime_busy db = (crash runtime_busy, mark_unknown key db)
settle_error key e db = (failure e, db)

-- A raised error before the operation is prepared.
abbrev pub refuse : Error → Database → Reply × Database
refuse lookup_error db = (crash lookup_error, db)
refuse policy_match_error db = (crash policy_match_error, db)
refuse formula_error db = (crash formula_error, db)
refuse integrity_error db = (crash integrity_error, db)
refuse decimal_error db = (crash decimal_error, db)
refuse runtime_busy db = (crash runtime_busy, db)
refuse e db = (failure e, db)

abbrev pub operation_key : Process → ℕ → ℕ → ℕ
operation_key p key epoch = if epoch == 0 then key else p.recording_key key epoch

abbrev pub finish_call : ℕ → Database → Result (List Execution × Database) → Reply × Database
finish_call key prepared_db (ok (results, db)) = (success results, db)
finish_call key prepared_db (err e) = settle_error key e prepared_db

abbrev pub continue_call :
    Process → ℕ → ℕ → MoneyTool → Database → Result (Operation × Database) → Reply × Database
continue_call p key case_id tool db (err e) = refuse e db
continue_call p key case_id tool db (ok (operation, prepared_db)) =
    finish_call key prepared_db (run_effect p key case_id operation (tool.handler key) prepared_db)

-- The first transaction: the claim, the epoch of the case, the key and the channel.
abbrev pub open_call : Process → Option ℕ → ℕ → MoneyTool → Database → Result (ℕ × ℕ × ℕ)
open_call p key case_id tool db = do
  assert_active_claim p case_id db
  k ← or_raise key (tool_error invalid_params)
  let epoch = epoch_of case_id db.state
  ok (operation_key p k epoch, epoch, channel_of tool case_id db.state)

unfoldable pub call_money : Process → Option ℕ → ℕ → MoneyTool → Database → Reply × Database
unfolding prepare run_effect settle_error
call_money p key case_id tool db = elim (open_call p key case_id tool db) [
  | err e ↦ refuse e db
  | ok (k, epoch, channel) ↦
      continue_call p k case_id tool db
        (prepare p (some k) epoch case_id channel tool.kind tool.request_hash db)
]
