-- ===== src/Model/Samples.antt =====
-- A database and a gateway state without rows, for the tests.
use revguard.Base.{[]}
use revguard.Model.Money.{GatewayState}
use revguard.Model.Tables.{Database}

abbrev pub no_state : GatewayState
no_state = record {
  ledger = [];
  adjustments = [];
  approvals = [];
  idempotency = [];
  receipts = [];
  token_consumed_amount = [];
  token_consumed_by_component = [];
  used_rollback_tokens = [];
  posting_tamper_used_cases = [];
  execution_results = [];
  recording_epochs = [];
}

abbrev pub empty : Database
empty = record {
  cases = [];
  audit = [];
  operations = [];
  holds = [];
  outbox = [];
  executions = [];
  tasks = [];
  results = [];
  evidence = [];
  approvals = [];
  verifications = [];
  money_ledger = [];
  state = no_state;
}
