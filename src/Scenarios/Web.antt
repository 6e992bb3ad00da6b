-- ===== src/Scenarios/Web.antt =====
-- The theorems on prices from the outside, on amounts and on the API, used at concrete values.
use synthetic_order_executor.Base.{
  ◌*◌, ◌^◌, ◌-◌, true, false, none, some, [], ◌∷◌, ◌⊎◌, ◌≡◌, refl, arith, text, to_upper,
}
use synthetic_order_executor.Order.{pending, triggered}
use synthetic_order_executor.Effects.{done}
use synthetic_order_executor.Price.{to_scaled}
use synthetic_order_executor.Price.Feeds.{ℤ, RoundData, PriceSources, chainlink_provider}
use synthetic_order_executor.Price.Factory.{
  PriceProviderConfig, chainlink, coingecko, build_price_service,
}
use synthetic_order_executor.Price.Sources.{Independent, build_price_service-Independent}
use synthetic_order_executor.Price.Rounds.{Reported, chainlink-Reported}
use synthetic_order_executor.Backend.{format_base_units}
use synthetic_order_executor.Backend.Amounts.{to_scaled-format_base_units}
use synthetic_order_executor.Http.Schemas.{text_value, Body, object, create_order_schema}
use synthetic_order_executor.Http.Accepted.{Holds, ValidInput, create_order_schema-ValidInput}
use synthetic_order_executor.Http.Answers.{HandlersAnswer, handlers-answer}
use synthetic_order_executor.Http.Routes.{CachedPrice, is_live, ok_price, price_handler}
use synthetic_order_executor.Http.Cached.{FromFeed, price_handler-answers}
use synthetic_order_executor.Scenarios.Samples.{order_in, world_with, env}
use synthetic_order_executor.Scenarios.Services.{tokens}
use synthetic_order_executor.Scenarios.Passes.{api}

abbrev round : RoundData
round = record {
  round_id = 12;
  answer = ℤ.pos 290000000000;
  updated_at = 990;
  answered_in_round = 12;
}

abbrev pub sources : PriceSources
sources = record {
  latest_round_data = λ feed tick. done round;
  decimals = λ feed tick. done 8;
  format_units = λ n d. text "2900";
  fetch = λ url tick. done (record { ok = false; status = 429; usd = λ id. done none });
}

chainlink-Reported_example :
    Reported sources 694 3600 env
      (world_with (order_in pending))
      ((chainlink_provider sources 694 3600).get_price
        (text "ETH/USD")
        env
        (world_with (order_in pending))).0
chainlink-Reported_example =
    chainlink-Reported sources 694 3600 (text "ETH/USD") env (world_with (order_in pending))

abbrev two_sources : PriceProviderConfig
two_sources = record {
  provider = chainlink;
  cross_check = some coingecko;
  static_price = none;
  rpc_url = some (text "https://node");
  chainlink_feed = none;
  max_staleness_sec = none;
  max_divergence_bps = some 100;
}

build_price_service-Independent_example :
    Independent two_sources (build_price_service sources two_sources)
build_price_service-Independent_example = build_price_service-Independent sources two_sources

-- 1.5 USDC
to_scaled-format_base_units_example :
    to_scaled (format_base_units 1500000 6) ≡ done (1500000 * 10 ^ (18 - 6))
to_scaled-format_base_units_example = to_scaled-format_base_units 1500000 6 (omega arith)

abbrev payload : Body
payload = object (
    (text "userAddress", text_value (text "0x00000000000000000000000000000000000000aB"))
    ∷ (text "tokenIn", text_value (text " WETH "))
    ∷ (text "tokenOut", text_value (text "USDC"))
    ∷ (text "side", text_value (text "SELL"))
    ∷ (text "amount", text_value (text "0.25"))
    ∷ (text "triggerPrice", text_value (text "2900"))
    ∷ [])

create_order_schema-ValidInput_example : Holds ValidInput (create_order_schema payload)
create_order_schema-ValidInput_example = create_order_schema-ValidInput payload

handlers-answer_example :
    HandlersAnswer api tokens
      (λ v. some 5)
      (λ id. some 7)
      payload
      []
      (text "7")
      env
      (world_with (order_in triggered))
handlers-answer_example =
    handlers-answer api tokens (λ v. some 5) (λ id. some 7) payload [] (text "7") env
      (world_with (order_in triggered))

abbrev eth_price : CachedPrice
eth_price = record {
  value = record {
    pair = text "ETH/USD";
    price = text "2900";
    source = text "chainlink";
    observed_at = 990000;
    age_seconds = 8;
  };
  at = 998000;
}

-- A request for another pair, two seconds after the price of ETH was kept.
price_handler-answers_example :
    let w = world_with (order_in pending) in
    let service = build_price_service sources two_sources in
    ((c : CachedPrice) × (some eth_price ≡ some c)
      × (is_live (some eth_price) (env.now 0) ≡ true)
      × (price_handler service (λ p. done p) (some eth_price) (text "btc/usd") env w
          ≡ (done (ok_price c.value, some eth_price), w)))
    ⊎ ((is_live (some eth_price) (env.now 0) ≡ false)
        × FromFeed service
            (some eth_price)
            (to_upper (text "btc/usd"))
            env
            w
            (price_handler service (λ p. done p) (some eth_price) (text "btc/usd") env w))
price_handler-answers_example =
    price_handler-answers (build_price_service sources two_sources) (λ p. done p) (some eth_price)
      (text "btc/usd") (text "btc/usd") env (world_with (order_in pending)) refl
