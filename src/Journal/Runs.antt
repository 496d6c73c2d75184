-- ===== src/Journal/Runs.antt =====
-- A whole call of a money tool (`ToolGateway.call`, revguard/mocks.py) over the journal.
use revguard.Base.{ℕ, ◌≡◌, some, inl, inr, arith}
use revguard.Model.Errors.{
  integrity_error, Error, recovery_required, tool_error, lookup_error, policy_match_error,
  formula_error, decimal_error, runtime_busy, Result-cases, invalid_state_transition,
  stale_case_transition, stale_task_execution, security_error, value_error,
}
use revguard.Model.Tables.{Database}
use revguard.Journal.{Process, prepare, assert_active_claim}
use revguard.Journal.Recovery.{epoch_of}
use revguard.Journal.Calls.{
  MoneyTool, channel_of, run_effect, settle_error, refuse, operation_key, continue_call, call_money,
}
use revguard.Journal.Steps.{JournalSteps, done, more, by_prepare, by_effect, by_abort, by_loss}

refuse-keeps : (e : Error) (db : Database) → (refuse e db).1 ≡ db
refuse-keeps e db = ground arith

settle_error-steps :
    (key : ℕ) (e : Error) {start : Database} (db : Database)
    → JournalSteps start db
    → JournalSteps start (settle_error key e db).1
unfolding settle_error
settle_error-steps key (tool_error e) db steps = more _ steps (by_abort key db)
settle_error-steps key lookup_error db steps = more _ steps (by_loss key db)
settle_error-steps key policy_match_error db steps = more _ steps (by_loss key db)
settle_error-steps key formula_error db steps = more _ steps (by_loss key db)
settle_error-steps key integrity_error db steps = more _ steps (by_loss key db)
settle_error-steps key decimal_error db steps = more _ steps (by_loss key db)
settle_error-steps key runtime_busy db steps = more _ steps (by_loss key db)
settle_error-steps key invalid_state_transition db steps = steps
settle_error-steps key stale_case_transition db steps = steps
settle_error-steps key recovery_required db steps = steps
settle_error-steps key stale_task_execution db steps = steps
settle_error-steps key security_error db steps = steps
settle_error-steps key value_error db steps = steps

module _ (p : Process) (key case_id : ℕ) (tool : MoneyTool) (db : Database) where
  abbrev key_of_call : ℕ
  key_of_call = operation_key p key (epoch_of case_id db.state)

  continue_call-steps :
      let attempt =
        prepare p
          (some key_of_call)
          (epoch_of case_id db.state)
          case_id
          (channel_of tool case_id db.state)
          tool.kind
          tool.request_hash
          db in
      JournalSteps db (continue_call p key_of_call case_id tool db attempt).1
  unfolding call_money
  continue_call-steps =
      let attempt =
        prepare p (some key_of_call) (epoch_of case_id db.state) case_id
          (channel_of tool case_id db.state) tool.kind tool.request_hash db in
      elim (Result-cases attempt) [
        | inr (e, failed) ↦ rw (failed, refuse-keeps e db) done
        | inl ((operation, ready), success') ↦
            let start = more ready done (
              by_prepare p key_of_call (epoch_of case_id db.state) case_id
                (channel_of tool case_id db.state) tool.kind tool.request_hash operation db ready
                success') in
            rw success'
              (elim (Result-cases
                (run_effect p key_of_call case_id operation (tool.handler key_of_call) ready)) [
                  | inr (e, failed) ↦ rw failed (settle_error-steps key_of_call e ready start)
                  | inl ((results, after), ran) ↦ rw ran (
                      more after start (
                        by_effect p key_of_call case_id operation (tool.handler key_of_call) results
                          ready after ran))
                ])
      ]

  -- A call of a money tool, whatever its reply, is a run of the journal.
  pub call_money-JournalSteps : JournalSteps db (call_money p (some key) case_id tool db).1
  unfolding call_money
  call_money-JournalSteps = elim (Result-cases (assert_active_claim p case_id db)) [
    | inr (e, failed) ↦ rw (call_money, failed, refuse-keeps e db) done
    | inl (_, passed) ↦ rw (call_money, passed) continue_call-steps
  ]
