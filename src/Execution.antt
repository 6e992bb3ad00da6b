-- ===== src/Execution.antt =====
-- apps/worker/src/execution/execution.service.ts: from a TRIGGERED order to a submitted
-- transaction. The constructor's `DexAdapter` and token registry are arguments; logging is left out.
pub mod Reads
pub mod Stages
pub mod Marks
pub mod Claim
pub mod Recovery
pub mod Safety
pub mod Failures
use synthetic_order_executor.Base.{
  ℕ, Bool, true, false, not, Option, none, some, List, [], ◌∷◌, ◌++◌, Text, text, take, number_text,
  same_text, to_upper, ltb, if◌then◌else◌,
}
use synthetic_order_executor.Order.{
  status_text, OrderId, Hex, Address, Order, Status, triggered, executing, executed, failed,
  same_status,
}
use synthetic_order_executor.Chain.{ExecutionParams, DexQuote}
use synthetic_order_executor.Chain.Uniswap.{DexAdapter}
use synthetic_order_executor.Effects.{
  M, Env, Failure, Outcome, done, threw, execution_rejected, sent_to_monitor, pure, lift, refuse_if,
  ◌>>=◌, ◌>>◌, try, ask, environment, enqueue,
}
use synthetic_order_executor.Repository.{
  TransitionParams, find_by_id, transition_status, record_tx_hash,
}

pub data OutcomeStatus : Type 0 where
  submitted settled unsuccessful skipped : OutcomeStatus

pub record ExecutionOutcome : Type 0 where
  pub order_id : OrderId
  pub status : OutcomeStatus
  pub tx_hash : Option Hex
  pub reason : Option Text

pub record Token : Type 0 where
  pub address : Address
  pub decimals : ℕ

pub record ChainTokens : Type 0 where
  pub weth : Address
  pub usdc : Address

rejected : Text → Failure
rejected message = record { kind = execution_rejected; message = message }

insufficient : ℕ → ℕ → Failure
unfolding rejected
insufficient balance amount_in = rejected (
    text "insufficient vault balance: has "
    ++ (number_text balance ++ (text ", needs " ++ number_text amount_in)))

-- createTokenRegistry(config).resolve(symbol)
unfoldable pub resolve : ChainTokens → Text → Outcome Token
unfolding rejected
resolve config symbol =
    let s = to_upper symbol in
    if same_text s (text "ETH")
    then done (record { address = config.weth; decimals = 18 })
    else if same_text s (text "WETH")
    then done (record { address = config.weth; decimals = 18 })
    else if same_text s (text "USDC")
    then done (record { address = config.usdc; decimals = 6 })
    else threw (rejected (text "Unsupported token " ++ symbol))

abbrev outcome : OrderId → OutcomeStatus → Option Hex → Option Text → ExecutionOutcome
outcome id status tx_hash reason = record {
  order_id = id;
  status = status;
  tx_hash = tx_hash;
  reason = reason;
}

-- The transition of the row that `order` was read from.
abbrev pub from_row : Order → Status → Option (Option Text) → TransitionParams
from_row o next message = record {
  id = o.id;
  expected_status = o.status;
  expected_version = o.version;
  next_status = next;
  tx_hash = none;
  error_message = message;
}

-- Where the row is as it was read at step 1, its status is TRIGGERED.
abbrev pub from_triggered : Order → Status → Option (Option Text) → TransitionParams
from_triggered o next message = record {
  id = o.id;
  expected_status = triggered;
  expected_version = o.version;
  next_status = next;
  tx_hash = none;
  error_message = message;
}

-- A hash was recorded: hand the order to the monitor, and leave the status to it.
unfoldable pub defer_to_monitor : Order → Hex → Text → M ExecutionOutcome
defer_to_monitor o tx_hash reason = do
  try (enqueue (sent_to_monitor o.id)) λ e. pure tt
  pure (outcome o.id submitted (some tx_hash) (some reason))

unfoldable pub fail_unsigned : Order → Order → Text → M ExecutionOutcome
fail_unsigned o current reason = do
  _ ←
      transition_status
        (record (from_row current failed (some (some (take 500 reason)))) { id = o.id })
  pure (outcome o.id unsuccessful none (some reason))

abbrev pub handle_current : Order → Text → Option Order → M ExecutionOutcome
handle_current o reason none = pure (outcome o.id skipped none (some reason))
handle_current o reason (some current) =
    if same_status current.status executing
    then elim current.tx_hash [
      | some h ↦ defer_to_monitor o h reason
      | none ↦ fail_unsigned o current reason
    ]
    else fail_unsigned o current reason

unfoldable pub handle_failure : Order → Failure → M ExecutionOutcome
unfolding defer_to_monitor fail_unsigned
handle_failure o e = do current ← find_by_id o.id; handle_current o e.message current

module _ (dex : DexAdapter) (tokens : ChainTokens) where
  -- Steps 2a to 4: the vault, a fresh quote, the arguments.
  unfoldable pub prepare_params : Order → M ExecutionParams
  unfolding insufficient
  prepare_params o = do
    state ← ask (λ env tick. env.get_state tick)
    refuse_if state.paused (rejected (text "executor contract is paused"))
    token_in ← lift (resolve tokens o.token_in)
    token_out ← lift (resolve tokens o.token_out)
    env ← environment
    amount_in ← lift (env.parse_units (env.decimal_text o.amount) token_in.decimals)
    balance ← ask (λ env tick. env.get_balance tick o.user_address token_in.address)
    refuse_if (ltb balance amount_in) (insufficient balance amount_in)
    quote ← dex.get_quote (record {
      token_in = token_in.address;
      token_out = token_out.address;
      amount_in = amount_in;
    })
    dex.build_execution_params
        (record { execution_id = o.execution_id; owner = o.user_address; quote = quote })

  -- Steps 6 and 7, once the order is claimed.
  unfoldable pub submit_claimed : Order → ExecutionParams → M ExecutionOutcome
  submit_claimed o params = do
    tx_hash ←
        dex.submit_params params (λ signed_hash. record_tx_hash o.id signed_hash >>= λ _. pure tt)
    enqueue (sent_to_monitor o.id)
    pure (outcome o.id submitted (some tx_hash) none)

  abbrev pub if_claimed : Order → ExecutionParams → Option Order → M ExecutionOutcome
  if_claimed o params none =
      pure (outcome o.id skipped none (some (text "claimed by another worker")))
  if_claimed o params (some claimed) = submit_claimed o params

  -- Step 5, the claim, and what follows it.
  unfoldable pub claim_and_submit : Order → ExecutionParams → M ExecutionOutcome
  unfolding submit_claimed
  claim_and_submit o params = do
    claimed ← transition_status (from_triggered o executing none)
    if_claimed o params claimed

  -- Step 2 found the execution id spent.
  unfoldable pub already_consumed : Order → M ExecutionOutcome
  already_consumed o = do
    _ ← transition_status (
        from_triggered o executed
          (some (some (text "reconciled: executionId already consumed on-chain"))))
    pure (outcome o.id settled none (some (text "already consumed on-chain")))

  -- The `try` of steps 2a to 7.
  unfoldable pub attempt : Order → M ExecutionOutcome
  attempt o = try (do params ← prepare_params o; claim_and_submit o params) (handle_failure o)

  unfoldable pub execute_triggered : Order → M ExecutionOutcome
  unfolding already_consumed attempt
  execute_triggered o = do
    consumed ← ask (λ env tick. env.is_executed tick o.execution_id)
    if consumed then already_consumed o else attempt o

  abbrev execute_found : OrderId → Option Order → M ExecutionOutcome
  execute_found id none = pure (outcome id skipped none (some (text "order not found")))
  execute_found id (some o) =
      if same_status o.status triggered
      then execute_triggered o
      else pure (outcome id skipped none (some (text "status is " ++ status_text o.status)))

  unfoldable pub execute_order : OrderId → M ExecutionOutcome
  unfolding status_text execute_triggered
  execute_order id = do o ← find_by_id id; execute_found id o
