-- ===== src/Effects.antt =====
-- What an asynchronous method does to the world. A method runs against an environment: the clock,
-- the replies of the node and of the queues, the faults of the database, and what other processes
-- commit to the table of orders before each query. It may throw; what was written before stays.
pub mod Rules
pub mod Ensures
use synthetic_order_executor.Base.{
  ℕ, suc, Bool, true, false, Option, none, some, List, [], ◌∷◌, ◌++◌, Text, if◌then◌else◌,
}
use synthetic_order_executor.Order.{OrderId, Hex, Address, Decimal, Status, Order}
use synthetic_order_executor.Report.{ReconcileReport}
use synthetic_order_executor.Chain.{
  ExecutionParams, QuoteRequest, ExecutorContractState, TransactionRequest, SwapExecutedLog,
  ReceiptLog, DecodedEvent, TransactionReceipt, ReplayError,
}

-- The classes that a `catch` tells apart; `other` is any other `Error`.
pub data ErrorKind : Type 0 where
  price_unavailable price_untrusted execution_rejected no_liquidity quote_stale no_signer :
      ErrorKind
  validation order_not_found invalid_transition token_not_supported trade_too_large : ErrorKind
  contract_paused duplicate transaction_not_found receipt_not_found other : ErrorKind

pub record Failure : Type 0 where
  pub kind : ErrorKind
  pub message : Text

pub data Outcome {ℓ} (A : Type ℓ) : Type ℓ where
  done : A → Outcome A
  threw : Failure → Outcome A

abbrev pub is_done {ℓ} : {A : Type ℓ} → Outcome A → Bool
is_done (done a) = true
is_done (threw e) = false

-- The table of orders, by its primary key.
abbrev pub Table : Type 0
Table = OrderId → Option Order

pub data OrderBy : Type 0 where
  created_desc created_asc updated_desc submitted_asc : OrderBy

pub data LogKind : Type 0 where
  stuck_executing log_backfill failed_but_executed executed_no_evidence : LogKind

pub record LogEntry : Type 0 where
  pub order_id : Option OrderId
  pub kind : LogKind
  pub discrepancy : Text
  pub resolution : Text
  pub tx_hash : Option Hex
  pub block_number : Option ℕ

-- What a method has done so far, the latest first.
pub data Call : Type 0 where
  changed : OrderId → Status → Status → Call  -- an UPDATE: the status in its row, before and after
  recorded : OrderId → Hex → Call  -- an UPDATE of the hash: the hash in its row after it
  sent_to_executor sent_to_monitor : OrderId → Call  -- an accepted job
  broadcast : ℕ → Call  -- a raw transaction handed to the node

pub record World : Type 0 where
  pub tick : ℕ
  pub orders : Table
  pub checkpoint : Option ℕ
  pub logs : List LogEntry
  pub report : ReconcileReport
  pub decimals_cache : Option ℕ  -- `decimalsCache` of the one Chainlink provider of the process
  pub calls : List Call

-- Replies may differ from tick to tick.
pub record Env : Type 0 where
  -- the clock, in milliseconds
  pub now : ℕ → ℕ
  -- PostgreSQL through Prisma
  pub others : ℕ → Table → Table
  pub db_fault : ℕ → Option Failure
  pub find_many : (Order → Bool) → OrderBy → ℕ → Table → List Order
  pub count_rows : (Order → Bool) → Table → ℕ
  pub find_execution : Hex → Table → Option Order
  -- BullMQ
  pub queue_fault : ℕ → Option Failure
  -- the node, through viem
  pub is_executed : ℕ → Hex → Outcome Bool
  pub get_state : ℕ → Outcome ExecutorContractState
  pub get_balance : ℕ → Address → Address → Outcome ℕ
  pub get_block_number : ℕ → Outcome ℕ
  pub get_logs : ℕ → ℕ → ℕ → Outcome (List SwapExecutedLog)
  pub get_receipt : ℕ → Hex → Outcome TransactionReceipt
  pub get_transaction : ℕ → Hex → Outcome (Unit {0})
  -- `none` where the replayed call succeeds
  pub replay_call : ℕ → Hex → ℕ → Option ReplayError
  pub decode_event_log : ReceiptLog → Option DecodedEvent
  pub simulate : ℕ → Address → ExecutionParams → Outcome ℕ
  pub estimate_fees : ℕ → Outcome (ℕ × ℕ)
  pub prepare : ℕ → TransactionRequest → Outcome TransactionRequest
  pub sign : TransactionRequest → Outcome ℕ
  pub send_raw : ℕ → ℕ → Outcome Hex
  -- pure functions of viem and of Prisma's Decimal
  pub keccak256 : ℕ → Hex
  pub encode_execute_swap : ExecutionParams → ℕ
  pub parse_units : Text → ℕ → Outcome ℕ
  pub parse_decimal : Text → Decimal
  pub decimal_text : Decimal → Text

abbrev pub M {ℓ} : Type ℓ → Type ℓ
M A = Env → World → Outcome A × World

module _ {ℓ} {A : Type ℓ} where
  unfoldable pub pure : A → M A
  pure a env w = (done a, w)

  unfoldable pub throw : Failure → M A
  throw e env w = (threw e, w)

  unfoldable pub lift : Outcome A → M A
  lift r env w = (r, w)

module _ {ℓ κ} {A : Type ℓ} {B : Type κ} where
  abbrev pub continue : (A → M B) → Env → Outcome A × World → Outcome B × World
  continue f env (done a, w) = f a env w
  continue f env (threw e, w) = (threw e, w)

  infixl 5 ◌>>=◌
  unfoldable pub ◌>>=◌ : M A → (A → M B) → M B
  unfolding pure throw lift
  ◌>>=◌ m f env w = continue f env (m env w)

infixl 5 ◌>>◌
abbrev pub ◌>>◌ {ℓ} : {B : Type ℓ} → M (Unit {0}) → M B → M B
m >> k = m >>= λ _. k

module _ {ℓ} {A : Type ℓ} where
  abbrev pub recover : (Failure → M A) → Env → Outcome A × World → Outcome A × World
  recover h env (done a, w) = (done a, w)
  recover h env (threw e, w) = h e env w

  -- try { m } catch (e) { h(e) }
  unfoldable pub try : M A → (Failure → M A) → M A
  try m h env w = recover h env (m env w)

  -- A call that only reads from the outside. Its reply is that of the current tick.
  unfoldable pub ask : (Env → ℕ → Outcome A) → M A
  ask f env w = (f env w.tick, record w { tick = suc w.tick })

  abbrev pub run_query :
      ℕ → (ℕ → Table → A × Table × List Call) → World → Option Failure → Outcome A × World
  run_query now q w (some e) = (threw e, w)
  run_query now q w none =
      let (a, t, cs) = q now w.orders in (done a, record w { orders = t; calls = cs ++ w.calls })

  -- One statement to the database: what other processes have committed by then is seen, and the
  -- statement is atomic.
  unfoldable pub query : (ℕ → Table → A × Table × List Call) → M A
  query q env w =
      run_query (env.now w.tick) q
        (record w { tick = suc w.tick; orders = env.others w.tick w.orders }) (env.db_fault w.tick)

-- if (b) throw e
abbrev pub refuse_if : Bool → Failure → M (Unit {0})
refuse_if true e = throw e
refuse_if false e = pure tt

-- `new Date()`, `Date.now()`
unfoldable pub current_time : M ℕ
current_time env w = (done (env.now w.tick), w)

unfoldable pub environment : M Env
environment env w = (done env, w)

-- `await pipeline.enqueue(id)`: the queue takes the job, or the call throws.
abbrev pub run_enqueue : Call → World → Option Failure → Outcome (Unit {0}) × World
run_enqueue c w (some e) = (threw e, w)
run_enqueue c w none = (done tt, record w { calls = c ∷ w.calls })

unfoldable pub enqueue : Call → M (Unit {0})
enqueue c env w = run_enqueue c (record w { tick = suc w.tick }) (env.queue_fault w.tick)
