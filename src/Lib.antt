-- ===== src/Lib.antt =====
-- Synthetic order executor: a model of the services that turn limit orders into swaps on a chain,
-- and theorems on it.
--
-- The API (apps/backend) stores an order as PENDING. The trigger engine (apps/worker) reads a
-- validated price, claims the orders whose condition it meets (TRIGGERED) and queues them. The
-- execution service quotes, claims the order (EXECUTING), signs, records the hash, and only then
-- broadcasts. The transaction monitor polls until chain evidence settles the order (EXECUTED or
-- FAILED). The reconciler compares the table with the chain and corrects it. All of them share one
-- table of orders, and all writes to it go through the order repository (packages/core), whose
-- UPDATE statements carry the expected status or version in their WHERE.
--
-- Base.antt: library names, Boolean tests, lists, texts (a text is the list of its code units).
-- Order.antt: the row of an order; Order/StateMachine.antt: packages/core/src/domain/orderStatus.ts.
-- Trigger.antt: packages/core/src/domain/trigger.ts.
-- Effects.antt: what an asynchronous method is here. `M A` takes an environment and a world to an
--   outcome (a value, or a failure for a rejected promise) and a world. The world holds the table,
--   the checkpoint, the log of the reconciler, its report and the record of calls: the changes of status
--   and the hashes that an UPDATE has left in its row, what was broadcast and what was queued. Inserts
--   and counted polls are seen in the table only. Before each
--   statement the other processes may have changed the table in any way (`others`), and the database
--   may fail (`db_fault`). Effects/Rules.antt, Traces.antt and Contracts.antt have the rules for
--   reasoning on it: inversions, predicates on the calls that a method preserves, and contracts from a
--   kind of table and calls to another.
-- Repository.antt: packages/core/src/repositories/order.repository.ts, each UPDATE as a function on
--   tables (`*_stmt`, `*_row`) and each method as an effect. Its children: Rows (parameters and
--   statements), Statements (schedules of statements), Claims (the optimistic lock), Lifecycle
--   (histories), Refinement (the table of orders against the table of transitions), Effects (methods),
--   Labels (what the record of calls says of each UPDATE: a change or a hash is read off the row before
--   and after the UPDATE) and Ends (a method that has returned).
-- Chain.antt: the values that packages/chain exchanges with its callers. Its children: Outcome and
--   Monitor (packages/chain/src/monitor), Client (packages/chain/src/contract/executorClient.ts),
--   Uniswap (packages/chain/src/dex).
-- Price.antt: packages/chain/src/price, price.service.ts and static.provider.ts. Its children: Trust,
--   Feeds (chainlink.provider.ts, coingecko.provider.ts), Factory (factory.ts), Rounds and Sources (on
--   them), Digits.
-- Execution.antt: apps/worker/src/execution/execution.service.ts (`execute_order` is `executeOrder`,
--   `handle_failure` is `handleFailure`). Its children: Reads (what precedes the claim), Stages (how
--   far an execution has come and how it may end), Marks, Claim, Recovery, Safety and Failures.
-- TxMonitor.antt: apps/worker/src/monitor/txMonitor.service.ts (`check`, `apply`, `sweep_stuck`).
-- TriggerEngine.antt: apps/worker/src/trigger/triggerEngine.ts (`run`, `claim`). Its
--   children: Passed (the loop over the candidates) and Passes (a whole pass).
-- Reconciler.antt: apps/worker/src/reconcile/reconciler.service.ts and
--   packages/core/src/repositories/reconciliation.repository.ts (Ledger; Entries: what is logged);
--   Report.antt: its report.
-- Backend.antt: apps/backend/src/services/order.service.ts and packages/core/src/domain/executionId.ts.
--   Its children: Errors (apps/backend/src/domain/errors.ts), Tokens (apps/backend/src/config/tokens.ts),
--   Requests (new orders), Cancellation, Transitions, Amounts (printed amounts).
-- Http.antt: apps/backend/src/api, the controller of orders, its serializer and the terminal error
--   handler. Its children: Schemas and Queries (what a request may hold), Decimals and Accepted (on
--   them), Answers, Routes (the routes of prices and of health), Cached, App (apps/backend/src/app.ts
--   and the routers), Start (apps/backend/src/index.ts).
-- Config.antt: packages/chain/src/config.ts; its children: Worker (apps/worker/src/config/env.ts),
--   Api (apps/backend/src/config/env.ts), Ranges.
-- Workers.antt: apps/worker/src/index.ts, apps/worker/src/workers and the job ids of
--   apps/worker/src/queues/queues.ts: what the worker checks before it starts, and its jobs, which are
--   the services above with the values of the configuration. Its children: Ready, Rechecks.
-- Scripts.antt: what the scripts of contracts/script share; its children Preflight, Deploy, Configure
--   and Deposit (depositVault.ts) are the scripts, Passed and Guarded are on them.
-- Vault.antt: contracts/src/SyntheticOrderExecutor.sol. A function takes a state to a value and a state
--   or reverts, which leaves no trace. Functions has the functions in the order of the source (`call` is
--   a call of another contract), Messages what happens on a message and when a called contract sends
--   messages back, to any depth that is left. Keeps, Frame and Leaves have rules, Accounts, Replay,
--   Shifts, Safe, Solvency and Withdrawals what is proved. A balance is below 2^256 by the checked
--   arithmetic, which reverts.
-- Frontend.antt: apps/frontend/src, the client of lib/api.ts and what the form and the table do on a
--   click. Its children: Typed (what its texts are to the schemas of the API), Wire (from the client
--   through the server and back, with what the client's URLs are read as), Calls and Clicks (on them), Wallet (lib/wallet.ts and
--   hooks/useWallet.ts, whose code between two awaits is an event) and Ready (on it).
-- Scenarios.antt: concrete runs.
--
-- Bounds. Loops run over lists, so no fuel is needed but for the decimal text of a number n, which
-- has at most n + 1 digits. Ids, hashes and addresses are the numbers that their hexadecimal text
-- spells. A `Decimal(38, 18)` is a number of units of 10^-18, so comparisons are exact. A time is a
-- number of milliseconds. Differences of times and blocks stop at 0, as `maxBigInt(0n, ..)` does;
-- an age is only compared with a positive limit.
--
-- Calls that the code makes at once (`Promise.all`) are made one after the other, in the order in
-- which the code lists them, each with a reply of its own. The list `triggered` of a pass of the
-- trigger engine is the field `fired`.
--
-- A JSON number of a price feed is given by what the code asks of it. The text of a `string` with at
-- most 18 decimal places is positive as a number exactly if it has a digit other than 0.
--
-- What is not modelled: logging and printing; the reads of the contract beyond one call each; viem,
-- zod, Prisma, Express and BullMQ, which are parameters or fields of the environment with any replies
-- whatever (that a queue drops a job whose id it has is not used); how the text of a URL is read into a path and a
-- query, which is a parameter of the server (the client writes ids and addresses into its URLs
-- unescaped); a cap on the price of gas that is a fraction of a gwei; whom the
-- rate limiter turns away, which is a parameter; the headers of the API, and the `details` of an error;
-- of the frontend the markup, the ticker of prices and the refresh of the
-- list of orders. Letters other than ASCII keep their case.
-- OpenZeppelin, the tokens, WETH and the router are parameters of the contract; that a view of a token
-- reverts, and the ETH that the contract holds, are left out.
pub mod Base
pub mod Order
pub mod Trigger
pub mod Report
pub mod Chain
pub mod Effects
pub mod Repository
pub mod Traces
pub mod Contracts
pub mod TxMonitor
pub mod Execution
pub mod TriggerEngine
pub mod Reconciler
pub mod Price
pub mod Backend
pub mod Http
pub mod Scripts
pub mod Config
pub mod Workers
mod Scenarios
pub mod Frontend
pub mod Vault
