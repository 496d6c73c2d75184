-- ===== src/Lib.antt =====
-- RevGuard: the controlled core of a revenue-commission reconciliation service, as executable
-- definitions with the theorems that hold of them.
--
-- The program keeps cases in a database and moves each through a fixed life cycle. A case is
-- created from a message, its evidence is collected, the policy version of the business date is
-- selected, amounts are computed, the proposed change is graded for risk, a human may have to
-- approve it, and only then is it written to a ledger through the tool gateway. Every write of
-- money goes through a journal that makes it happen once and that freezes the channel of an
-- operation whose outcome is unknown. The files follow these parts:
--
--   Base: names, dictionaries (`Dict`, a Python dict or a table with a primary key), tests and
--     integers that the other files share.
--   Model: data of revguard/models.py, revguard/store.py and revguard/money_journal.py; raised
--     exceptions (`Errors`); identities of revguard/security.py (`Actors`).
--   Lifecycle: the table of transitions of revguard/state_machine.py; `Lifecycle.Paths` is about
--     sequences of them.
--   Cases: `transition_case`, `persist_case_transition` (revguard/state_machine.py),
--     `versioned_case_write` (revguard/workflow_persistence.py), `save_case` (revguard/store.py).
--   Risk: `classify_risk` (revguard/risk.py).
--   Policy: `select_policy_version` and `resolve_tier_at_date` (revguard/policy_matcher.py).
--   Journal: `MoneyJournal` and `MoneyTransaction` (revguard/money_journal.py), the claim check
--     (revguard/task_guard.py), and in `Journal.Calls` the branch of `ToolGateway.call` for money
--     tools (revguard/mocks.py). The handler of a tool is a parameter there.
--   Access: the scopes of tools and actors, and `authorize_tool` (revguard/security.py).
--   Stages: `commit_case_stage` and `update_case_run` (revguard/workflow_persistence.py), the writes
--     of the coordinator around a case.
--   Tasks: the tasks of the workers (revguard/agent_bridge.py, revguard/store.py,
--     revguard/workflow_persistence.py), from `create_agent_task` to `execute_agent_task`; a claimed
--     task is what the claim check of the journal reads.
--   Commitment: the canonical parameters of an approval (revguard/commitment.py).
--   References: `verify_execution_references` (revguard/execution_reference.py) over the receipts.
--   Gateway: the capability tokens of revguard/security.py (`issue`, `verify`), and `_submit_single`
--     and `_reverse_single` (revguard/mocks.py), which post a draft to the ledger and undo an entry.
--     A posting checks its token, its approval by Commitment and its facts by References.
--   Approvals: drafts, approvals, the decision on them, and the renewal of capabilities
--     (revguard/mocks.py), which issue the tokens that the gateway verifies.
--   Decimals, Formula, Rules: commission formulas, the conditions of rules and the calculation of a
--     policy (revguard/rule_engine.py), on numbers of Python's `decimal`.
--   Recovery: `resume_case_run` and `record_background_failure` (revguard/recovery.py), which fence,
--     reconcile and queue an interrupted run, and freeze a case whose run has failed; they call Cases,
--     Journal, Tasks and Approvals.
--   Handoff: `decide_case_approval` (revguard/mocks.py), which decides an approval by Approvals and
--     moves its case by Cases in one transaction.
--   Barrier: the leases of running requests and the check that a recording is quiescent
--     (revguard/runtime_barrier.py), which guard its reset. The lock of the system is a parameter.
--   Human: the allow-list of approvers and their assertions (revguard/hitl.py).
--
-- How the code is read. A text that the program only compares (identifiers, hashes, reasons,
-- times, component names) is a natural number. An amount is an integer that counts the smallest
-- unit in which the amounts are written (hundredths in `Risk`, with evidence scores in hundredths
-- too); Python's `Decimal` adds these exactly, up to 28 digits. A date is the number of its day.
-- A raised exception is a value of `Result`; a transaction that raises leaves the database as it
-- was, so an error carries no database. Appended tables (audit events, the outbox) have their
-- newest row first, and columns that no guard reads are left out or are one number. The UNIQUE
-- columns of the tables that the journal writes a result to (`executions.idempotency_key`,
-- `money_ledger.reversal_of`) are taken to be respected by the tools. Each transaction is one
-- step, since the program takes the lock of its database around it; other processes act between
-- the transactions of a call, which is what `JournalStep` lists.
-- Hashes (`hashlib`), signatures, the environment, and the texts of keys are parameters
-- (`Process`, `Env`). A random identifier, or the present time, is an argument. The skill that a
-- task runs and the schema of its input are functions that the execution takes.
-- A decimal number is its coefficient and its scale, in the default context: 28 digits of
-- precision, and exponents from -999999 to 999999, beyond which a result is an error or is
-- rounded to the finest scale. Infinities and NaN are left out, and a float and a `Decimal` of
-- one text are one number. A formula is the tree that `ast.parse` makes of its text.
-- All functions are total by recursion on their data. Only the count of the digits of a number
-- has fuel, the number itself, which is at least its count of digits.
--
-- Not modelled: the parsing of room replies, the orchestrator with its skills, the recording of
-- receipts, the reading tools of the gateway, the HTTP interface with its middleware, the MCP and
-- Matrix transports, reports, telemetry, traces, the PostgreSQL variant of the store, the adapters of
-- outside systems, the scripts, and the parts of revguard/mocks.py that read fixtures or reset them.
pub mod Base
pub mod Model
pub mod Lifecycle
pub mod Cases
pub mod Risk
pub mod Policy
pub mod Journal
pub mod Gateway
pub mod Access
pub mod References
pub mod Decimals
pub mod Formula
pub mod Rules
pub mod Recovery
pub mod Barrier
pub mod Handoff
pub mod Human
pub mod Stages
pub mod Tasks
pub mod Approvals
pub mod Commitment
