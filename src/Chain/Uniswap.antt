-- ===== src/Chain/Uniswap.antt =====
-- packages/chain/src/dex/uniswapAdapter.ts, and the interface of packages/chain/src/dex/DexAdapter.ts
-- that it implements.
pub mod Quotes
use synthetic_order_executor.Base.{
  ℕ, ◌+◌, ◌-◌, ◌*◌, ◌/◌, ◌≤◌, Bool, true, false, not, ◌&&◌, Option, none, some, List, [], ◌∷◌, ◌++◌,
  number_text, text, ltb, ◌==◌, is_some, if◌then◌else◌,
}
use synthetic_order_executor.Order.{Hex, Address}
use synthetic_order_executor.Chain.{QuoteRequest, DexQuote, BuildParamsInput, ExecutionParams}
use synthetic_order_executor.Chain.Client.{ClientConfig, submit}
use synthetic_order_executor.Effects.{
  M, Env, Failure, no_liquidity, quote_stale, Outcome, done, threw, pure, lift, ◌>>=◌, try, ask,
  current_time,
}

-- The venue abstraction.
pub record DexAdapter : Type 0 where
  pub get_quote : QuoteRequest → M DexQuote
  pub build_execution_params : BuildParamsInput → M ExecutionParams
  pub submit_params : ExecutionParams → (Hex → M (Unit {0})) → M Hex

-- What the factory, a pool and QuoterV2 answer.
pub record Venue : Type 0 where
  pub get_pool : ℕ → QuoteRequest → ℕ → Outcome Address
  pub liquidity : ℕ → Address → Outcome ℕ
  pub quote_exact_input_single : ℕ → QuoteRequest → ℕ → Outcome (ℕ × ℕ)

pub record UniswapConfig : Type 0 where
  pub fee_tiers : List ℕ
  pub slippage_bps : ℕ
  pub deadline_window_sec : ℕ
  pub client : ClientConfig

abbrev pub bps : ℕ
bps = 10000

abbrev pub max_quote_age_ms : ℕ
max_quote_age_ms = 30000

module _ (venue : Venue) where
  unfoldable pub quote_pool : QuoteRequest → ℕ → Address → M (Option DexQuote)
  quote_pool request fee pool = do
    l ← ask (λ env tick. venue.liquidity tick pool)
    if l == 0 then pure none else do
      (amount_out, gas_estimate) ← ask (λ env tick. venue.quote_exact_input_single tick request fee)
      now ← current_time
      pure (
          some (record {
            token_in = request.token_in;
            token_out = request.token_out;
            amount_in = request.amount_in;
            amount_out = amount_out;
            pool_fee = fee;
            gas_estimate = gas_estimate;
            quoted_at = now;
          }))

  -- A tier with no pool, with no liquidity, or whose calls throw, gives no quote.
  unfoldable pub quote_tier : QuoteRequest → ℕ → M (Option DexQuote)
  unfolding quote_pool
  quote_tier request fee =
      try
        (do
          pool ← ask (λ env tick. venue.get_pool tick request fee)
          if pool == 0 then pure none else quote_pool request fee pool)
        λ e. pure none

  unfoldable pub quote_tiers : QuoteRequest → List ℕ → M (List (Option DexQuote))
  quote_tiers request [] = pure []
  quote_tiers request (fee ∷ fees) = do
    q ← quote_tier request fee
    qs ← quote_tiers request fees
    pure (q ∷ qs)

-- q !== undefined && q.amountOut > 0n
unfoldable pub usable : List (Option DexQuote) → List DexQuote
usable [] = []
usable (none ∷ qs) = usable qs
usable (some q ∷ qs) = let rest = usable qs in if ltb 0 q.amount_out then q ∷ rest else rest

-- usable.reduce((best, q) => (q.amountOut > best.amountOut ? q : best))
unfoldable pub best_of : DexQuote → List DexQuote → DexQuote
best_of best [] = best
best_of best (q ∷ qs) = best_of (if ltb best.amount_out q.amount_out then q else best) qs

-- Addresses are printed as numbers in the messages.
no_liquidity_error : QuoteRequest → Failure
no_liquidity_error request = record {
  kind = no_liquidity;
  message =
      text "No usable liquidity for "
      ++ (number_text request.token_in
          ++ (text " -> "
              ++ (number_text request.token_out ++ text " on any configured fee tier")));
}

unfoldable pub choose : QuoteRequest → List DexQuote → Outcome DexQuote
unfolding no_liquidity_error
choose request [] = threw (no_liquidity_error request)
choose request (q ∷ qs) = done (best_of q qs)

unfoldable pub get_quote : Venue → UniswapConfig → QuoteRequest → M DexQuote
get_quote venue config request = do
  quotes ← quote_tiers venue request config.fee_tiers
  lift (choose request (usable quotes))

stale_error : ℕ → Failure
stale_error age_ms = record {
  kind = quote_stale;
  message =
      text "Quote is "
      ++ (number_text age_ms
          ++ (text "ms old, exceeding the " ++ (number_text max_quote_age_ms ++ text "ms limit")));
}

-- `slippageBps` is at most 5000 by the schema of the configuration, so the subtraction is exact.
unfoldable pub min_amount_out : ℕ → ℕ → ℕ
min_amount_out slippage_bps amount_out = amount_out * (bps - slippage_bps) / bps

unfoldable pub params_at : UniswapConfig → BuildParamsInput → ℕ → Outcome ExecutionParams
unfolding min_amount_out stale_error
params_at config input now =
    if ltb max_quote_age_ms (now - input.quote.quoted_at)
    then threw (stale_error (now - input.quote.quoted_at))
    else done (record {
      execution_id = input.execution_id;
      owner = input.owner;
      token_in = input.quote.token_in;
      token_out = input.quote.token_out;
      pool_fee = input.quote.pool_fee;
      amount_in = input.quote.amount_in;
      min_amount_out = min_amount_out config.slippage_bps input.quote.amount_out;
      deadline = now / 1000 + config.deadline_window_sec;
    })

unfoldable pub build_execution_params : UniswapConfig → BuildParamsInput → M ExecutionParams
build_execution_params config input = do now ← current_time; lift (params_at config input now)

unfoldable pub uniswap_adapter : Venue → UniswapConfig → DexAdapter
uniswap_adapter venue config = record {
  get_quote = get_quote venue config;
  build_execution_params = build_execution_params config;
  submit_params = submit config.client;
}
