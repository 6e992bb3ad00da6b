-- ===== src/Http/Routes.antt =====
-- apps/backend/src/api/routes: price.routes.ts with its cache, and health.routes.ts.
use synthetic_order_executor.Base.{
  ℕ, ◌+◌, ◌-◌, ◌/◌, Bool, true, false, not, ◌&&◌, Option, none, some, [], ◌++◌, Text, text,
  number_text, ltb, ◌==◌, to_upper, if◌then◌else◌,
}
use synthetic_order_executor.Order.{Address}
use synthetic_order_executor.Chain.{PriceQuote, ExecutorContractState}
use synthetic_order_executor.Effects.{
  M, Failure, Outcome, pure, lift, ◌>>=◌, try, ask, query, current_time,
}
use synthetic_order_executor.Price.{get_validated_price}
use synthetic_order_executor.Price.Factory.{PriceService}
use synthetic_order_executor.Http.{PriceView, Check, price_data, health_data, error_body, Response}

-- `cache`: the last value served from the feed, and when.
pub record CachedPrice : Type 0 where
  pub value : PriceView
  pub at : ℕ

unfoldable pub cache_ttl_ms : ℕ
cache_ttl_ms = 5000

unfoldable pub is_live : Option CachedPrice → ℕ → Bool
unfolding cache_ttl_ms
is_live none now = false
is_live (some c) now = ltb (now - c.at) cache_ttl_ms

abbrev pub ok_price : PriceView → Response
ok_price view = record { status = 200; body = price_data view }

abbrev pub no_price : Text → Response
no_price message = record { status = 503; body = error_body (text "PRICE_UNAVAILABLE") message }

-- `Math.max(0, Math.round((Date.now() - observedAt) / 1000))`
unfoldable pub view_of : PriceQuote → ℕ → PriceView
view_of quote now = record {
  pair = quote.asset;
  price = quote.price;
  source = quote.source;
  observed_at = quote.observed_at;
  age_seconds = (now - quote.observed_at + 500) / 1000;
}

-- What follows a miss: the price of the pair, which is kept.
unfoldable pub fresh_price : Outcome PriceService → Text → M (Response × Option CachedPrice)
unfolding view_of
fresh_price service pair = do
  s ← lift service
  quote ← get_validated_price s.primary s.cross_check s.options pair
  now ← current_time
  later ← current_time
  pure (ok_price (view_of quote now), some (record { value = view_of quote now; at = later }))

abbrev pub serve :
    Outcome PriceService → Option CachedPrice → Text → Bool → M (Response × Option CachedPrice)
serve service none pair live = fresh_price service pair
serve service (some c) pair live =
    if live then pure (ok_price c.value, some c) else fresh_price service pair

-- `service` is what `buildPriceService` gives for the configuration; `decode` is
-- `decodeURIComponent`, which may throw.
unfoldable pub price_handler :
    Outcome PriceService
    → (Text → Outcome Text)
    → Option CachedPrice
    → Text
    → M (Response × Option CachedPrice)
unfolding is_live fresh_price
price_handler service decode cache param =
    try
      (do
        decoded ← lift (decode param)
        now ← current_time
        serve service cache (to_upper decoded) (is_live cache now))
      λ e. pure (no_price e.message, cache)

abbrev failed_check : Failure → M Check
failed_check e = pure (record { ok = false; detail = some e.message })

abbrev pub database_check : M Check
database_check =
    try
      (query (λ now t. (tt, t, [])) >>= λ (_ : Unit {0}).
        pure (record { ok = true; detail = none }))
      failed_check

abbrev pub rpc_check : (ℕ → Outcome ℕ) → ℕ → M Check
rpc_check get_chain_id chain_id =
    try
      (ask (λ env tick. get_chain_id tick) >>= λ id.
        pure (record { ok = id == chain_id; detail = some (text "chainId=" ++ number_text id) }))
      failed_check

abbrev pub contract_state_check : (Address → Text) → ExecutorContractState → Check
contract_state_check address_text state = record {
  ok = not state.paused;
  detail = some (
      if state.paused
      then text "contract is PAUSED"
      else text "executor=" ++ address_text state.executor);
}

abbrev pub contract_check : (Address → Text) → M Check
contract_check address_text =
    try
      (ask (λ env tick. env.get_state tick) >>= λ state.
        pure (contract_state_check address_text state))
      failed_check

abbrev pub report_of : Check → Check → Check → Response
report_of database rpc contract =
    let healthy : Bool = database.ok && rpc.ok && contract.ok in
    record {
      status = if healthy then 200 else 503;
      body =
          health_data
            (record { healthy = healthy; database = database; rpc = rpc; contract = contract });
    }

unfoldable pub health_handler : (ℕ → Outcome ℕ) → ℕ → (Address → Text) → M Response
health_handler get_chain_id chain_id address_text = do
  database ← database_check
  rpc ← rpc_check get_chain_id chain_id
  contract ← contract_check address_text
  pure (report_of database rpc contract)
