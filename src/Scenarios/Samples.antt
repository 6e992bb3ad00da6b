-- ===== src/Scenarios/Samples.antt =====
-- An order, a table that holds it, and an environment in which every call is answered.
use synthetic_order_executor.Base.{
  ℕ, zero, suc, ◌≤◌, Bool, true, false, ◌&&◌, Option, none, some, List, [], ◌∷◌, text, ◌≡◌, refl,
  arith, Bool-cases, inl, inr, ◌==◌, if◌then◌else◌, All, length,
}
use synthetic_order_executor.Order.{Status, sell, Order}
use synthetic_order_executor.Report.{ReconcileReport}
use synthetic_order_executor.Chain.{ExecutorContractState, DexQuote, PriceQuote}
use synthetic_order_executor.Effects.{
  Env, World, Table, Failure, done, threw, receipt_not_found, transaction_not_found,
}
use synthetic_order_executor.Repository.Effects.{IsFindMany, IsQuiet}

abbrev pub order_in : Status → Order
order_in s = record {
  id = 7;
  user_address = 500;
  token_in = text "WETH";
  token_out = text "USDC";
  side = sell;
  amount = 1000;
  trigger_price = 3000;
  status = s;
  execution_id = 77;
  tx_hash = some 99;
  error_message = none;
  submitted_at = some 1000;
  confirmed_at = none;
  block_number = none;
  gas_used = none;
  amount_out = none;
  monitor_attempts = 0;
  version = 2;
  created_at = 10;
  updated_at = 20;
}

abbrev pub table_with : Order → Table
table_with o k = if k == 7 then some o else none

abbrev blank : ReconcileReport
blank = record {
  stuck_checked = 0;
  stuck_resolved = 0;
  logs_scanned = 0;
  backfilled = 0;
  failed_but_executed = 0;
  executed_without_evidence = 0;
  from_block = none;
  to_block = none;
  errors = [];
}

abbrev pub world_with : Order → World
world_with o = record {
  tick = 0;
  orders = table_with o;
  checkpoint = some 100;
  logs = [];
  report = blank;
  decimals_cache = none;
  calls = [];
}

abbrev row_7 : (Order → Bool) → ℕ → Option Order → List Order
row_7 p zero o = []
row_7 p (suc n) none = []
row_7 p (suc n) (some o) = if o.id == 7 && p o then o ∷ [] else []

abbrev pub open_state : ExecutorContractState
open_state = record { paused = false; executor = 1; swap_router = 2; weth = 3 }

abbrev pub gone : Failure
gone = record { kind = transaction_not_found; message = [] }

abbrev pub no_receipt : Failure
no_receipt = record { kind = receipt_not_found; message = [] }

-- The node knows neither receipt nor transaction, and the contract says that nothing was executed.
abbrev pub env : Env
env = record {
  now = λ n. 1000000;
  others = λ n t. t;
  db_fault = λ n. none;
  find_many = λ p order n t. row_7 p n (t 7);
  count_rows = λ p t. 1;
  find_execution = λ e t. t 7;
  queue_fault = λ n. none;
  is_executed = λ n e. done false;
  get_state = λ n. done open_state;
  get_balance = λ n a b. done 5000;
  get_block_number = λ n. done 5000;
  get_logs = λ n a b. done [];
  get_receipt = λ n h. threw no_receipt;
  get_transaction = λ n h. threw gone;
  replay_call = λ n h b. none;
  decode_event_log = λ l. none;
  simulate = λ n a p. done 10;
  estimate_fees = λ n. done (5, 1);
  prepare = λ n r. done r;
  sign = λ r. done 1234;
  send_raw = λ n raw. done 4321;
  keccak256 = λ raw. 4321;
  encode_execute_swap = λ p. 9;
  parse_units = λ t d. done 1000;
  parse_decimal = λ t. 2900;
  decimal_text = λ d. text "1000";
}

abbrev pub quote : PriceQuote
quote = record {
  asset = text "ETH/USD";
  price = text "2900";
  source = text "static";
  observed_at = 1000000;
  round_id = none;
}

abbrev pub dex_quote : DexQuote
dex_quote = record {
  token_in = 3;
  token_out = 4;
  amount_in = 1000;
  amount_out = 2900;
  pool_fee = 500;
  gas_estimate = 100000;
  quoted_at = 990000;
}

row_7-selected :
    (p : Order → Bool) (n : ℕ) (t : Table)
    → All (λ o. (t o.id ≡ some o) × (p o ≡ true)) (row_7 p n (t 7))
row_7-selected p zero t = tt
row_7-selected p (suc n) t = go (t 7) refl
  where
    go :
        (found : Option Order)
        → t 7 ≡ found
        → All (λ o. (t o.id ≡ some o) × (p o ≡ true)) (row_7 p (suc n) found)
    go none e = tt
    go (some o) e = elim (Bool-cases (o.id == 7 && p o)) [
      | inl b ↦ rw b ((ground arith, ground arith), tt)
      | inr b ↦ rw b tt
    ]

row_7-limited : (p : Order → Bool) (n : ℕ) (o : Option Order) → length (row_7 p n o) ≤ n
row_7-limited p n o = ground arith

pub env-IsFindMany : IsFindMany env
env-IsFindMany = record {
  selected = λ p order n t. row_7-selected p n t;
  limited = λ p order n t. row_7-limited p n (t 7);
}

pub env-IsQuiet : IsQuiet env
env-IsQuiet = record { alone = λ n t. refl; sound = λ n. refl }
