-- ===== src/Chain.antt =====
-- The values that @soe/chain exchanges with its callers: DexAdapter.ts, executorClient.ts,
-- PriceProvider.ts.
pub mod Outcome
pub mod Monitor
pub mod Client
pub mod Uniswap
use synthetic_order_executor.Base.{ℕ, Bool, Option, List, Text}
use synthetic_order_executor.Order.{Hex, Address}

pub record QuoteRequest : Type 0 where
  pub token_in : Address
  pub token_out : Address
  pub amount_in : ℕ

pub record DexQuote : Type 0 where
  pub token_in : Address
  pub token_out : Address
  pub amount_in : ℕ
  pub amount_out : ℕ
  pub pool_fee : ℕ
  pub gas_estimate : ℕ
  pub quoted_at : ℕ

pub record ExecutionParams : Type 0 where
  pub execution_id : Hex
  pub owner : Address
  pub token_in : Address
  pub token_out : Address
  pub pool_fee : ℕ
  pub amount_in : ℕ
  pub min_amount_out : ℕ
  pub deadline : ℕ

pub record BuildParamsInput : Type 0 where
  pub execution_id : Hex
  pub owner : Address
  pub quote : DexQuote

pub record SwapExecutedLog : Type 0 where
  pub execution_id : Hex
  pub owner : Address
  pub amount_in : ℕ
  pub amount_out : ℕ
  pub tx_hash : Hex
  pub block_number : ℕ

pub record ExecutorContractState : Type 0 where
  pub paused : Bool
  pub executor : Address
  pub swap_router : Address
  pub weth : Address

-- The argument of `prepareTransactionRequest` in `submit`.
pub record TransactionRequest : Type 0 where
  pub account : Address
  pub to : Address
  pub input : ℕ
  pub max_fee_per_gas : ℕ
  pub max_priority_fee_per_gas : ℕ

pub record PriceQuote : Type 0 where
  pub asset : Text
  pub price : Text
  pub source : Text
  pub observed_at : ℕ
  pub round_id : Option ℕ

-- A log of a receipt, before its event is decoded.
pub record ReceiptLog : Type 0 where
  pub address : Address
  pub input : Hex
  pub topics : List Hex

pub record DecodedEvent : Type 0 where
  pub event_name : Text
  pub amount_out : ℕ

pub record TransactionReceipt : Type 0 where
  pub success : Bool
  pub block_number : ℕ
  pub gas_used : ℕ
  pub logs : List ReceiptLog

-- What the replay of a reverted call may throw: a viem `BaseError` that wraps a
-- `ContractFunctionRevertedError`, another `BaseError`, another `Error`, or no `Error` at all.
pub data ReplayError : Type 0 where
  contract_revert : Option Text → List Text → Option Text → Text → Text → ReplayError
  base_error : Text → Text → ReplayError
  plain_error : Text → ReplayError
  not_error : ReplayError
