-- ===== src/Scenarios/Passes.antt =====
-- The theorems on the passes of the worker and on the API, used at concrete runs.
use synthetic_order_executor.Base.{
  ◌+◌, ◌*◌, ◌≤◌, true, none, some, [], ◌≡◌, ◌≢◌, refl, text, same_text, to_upper,
}
use synthetic_order_executor.Order.{pending, sell, Order}
use synthetic_order_executor.Execution.{ChainTokens}
use synthetic_order_executor.Effects.{
  Env, World, Outcome, done, threw, pure, current_time, try, environment, query, enqueue, ask,
  ◌>>=◌,
}
use synthetic_order_executor.Price.{
  PriceProvider, PriceServiceOptions, get_validated_price, to_scaled, compare_prices,
}
use synthetic_order_executor.Price.Trust.{trusted_price, Checked}
use synthetic_order_executor.TriggerEngine.{TriggerRunResult, run, evaluate, evaluate_all}
use synthetic_order_executor.Repository.{
  find_triggerable, read_many, transition_status, update, transition_stmt, transition_matches,
  find_by_id, create,
}
use synthetic_order_executor.Trigger.{triggerable, is_triggered}
use synthetic_order_executor.TriggerEngine.Passes.{run-Accounts, Accounts}
use synthetic_order_executor.Repository.Ends.{KeepsRows}
use synthetic_order_executor.Backend.{
  Api, CreateOrderInput, create_order, derive_execution_id, resolve_token,
}
use synthetic_order_executor.Backend.Requests.{
  create_order_stores, create_order_checks, unpaused, token_address, token_decimals, at_most,
}
use synthetic_order_executor.Scenarios.Samples.{order_in, world_with, env, quote, env-IsFindMany}

abbrev before : World
before = world_with (order_in pending)

abbrev limits : PriceServiceOptions
limits = record { max_staleness_sec = 3600; max_divergence_bps = 200 }

-- A provider that always gives the same quote.
abbrev fixed : PriceProvider
fixed = record { name = text "fixed"; supports = λ asset. true; get_price = λ asset. pure quote }

fixed_passes :
    get_validated_price fixed (some fixed) limits (text "ETH/USD") env before ≡ (done quote, before)
unfolding get_validated_price ◌>>=◌ current_time try to_scaled compare_prices
fixed_passes = refl

trusted_price_example :
    (w₁ : World) × (fixed.get_price (text "ETH/USD") env before ≡ (done quote, w₁))
    × (1000000 ≤ 1000000 + 3600 * 1000)
    × Checked 200 (some fixed) (text "ETH/USD") quote env w₁
trusted_price_example =
    trusted_price fixed (some fixed) limits (text "ETH/USD") env before before quote fixed_passes

abbrev pass_result : Outcome TriggerRunResult × World
pass_result = run (λ asset. pure quote) 10 (text "ETH/USD") env before

abbrev report_of : Outcome TriggerRunResult → TriggerRunResult
report_of (done r) = r
report_of (threw e) = record {
  price = [];
  source = [];
  candidates = 0;
  fired = [];
  skipped = 0;
  handoff_failures = [];
}

pass_returns : pass_result ≡ (done (report_of pass_result.0), pass_result.1)
unfolding run ◌>>=◌ environment find_triggerable read_many query evaluate_all evaluate triggerable
    is_triggered transition_status update transition_stmt transition_matches find_by_id try enqueue
pass_returns = refl

env-KeepsRows : KeepsRows env
env-KeepsRows = record { kept = λ n t id o found. (o, found) }

run-Accounts_example :
    Accounts
      (λ asset. pure quote)
      10
      (text "ETH/USD")
      env
      before
      (report_of pass_result.0)
      pass_result.1
run-Accounts_example =
    run-Accounts (λ asset. pure quote) 10 (text "ETH/USD") env before pass_result.1
      (report_of pass_result.0) env-IsFindMany env-KeepsRows pass_returns

abbrev pub api : Api
api = record {
  is_token_allowed = λ n a. done true;
  get_max_trade_amount = λ n a. done 1000000;
  random_uuid = λ n. 8;
  uuid_text = λ id. text "8";
}

abbrev input : CreateOrderInput
input = record {
  user_address = 500;
  token_in = text "WETH";
  token_out = text "USDC";
  side = sell;
  amount = text "0.001";
  trigger_price = text "2900";
}

abbrev tokens : ChainTokens
tokens = record { weth = 3; usdc = 4 }

-- No order is stored yet.
abbrev empty_world : World
empty_world = record before { orders = λ k. none }

abbrev empty_env : Env
empty_env = record env { find_execution = λ e t. none }

abbrev created_result : Outcome Order × World
created_result = create_order api tokens input empty_env empty_world

abbrev order_of : Outcome Order → Order
order_of (done o) = o
order_of (threw e) = order_in pending

creation_returns : created_result ≡ (done (order_of created_result.0), created_result.1)
unfolding create_order ◌>>=◌ resolve_token same_text to_upper ask environment create query
creation_returns = refl

create_order_stores_example :
    let o = order_of created_result.0 in
    (o.status ≡ pending)
    × (o.version ≡ 0)
    × (o.execution_id ≡ derive_execution_id empty_env.keccak256 api.uuid_text o.id)
    × (created_result.1.orders o.id ≡ some o)
create_order_stores_example =
    create_order_stores api tokens input empty_env empty_world created_result.1
      (order_of created_result.0) creation_returns

create_order_checks_example :
    (unpaused (empty_env.get_state 0) ≡ true)
    × (api.is_token_allowed 1 (token_address (resolve_token tokens (text "WETH"))) ≡ done true)
    × (api.is_token_allowed 2 (token_address (resolve_token tokens (text "USDC"))) ≡ done true)
    × (at_most
          (empty_env.parse_units
            (text "0.001")
            (token_decimals (resolve_token tokens (text "WETH"))))
          (api.get_max_trade_amount 3 (token_address (resolve_token tokens (text "WETH"))))
        ≡ true)
    × (token_address (resolve_token tokens (text "WETH"))
        ≢ token_address (resolve_token tokens (text "USDC")))
create_order_checks_example =
    create_order_checks api tokens input empty_env empty_world created_result.1
      (order_of created_result.0) creation_returns
