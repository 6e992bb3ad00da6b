-- ===== src/Config/Api.antt =====
-- The configuration of the API: apps/backend/src/config/env.ts.
use synthetic_order_executor.Base.{ℕ, Option, none, some, Text, text}
use synthetic_order_executor.Order.{Address}
use synthetic_order_executor.Effects.{Outcome, done, threw}
use synthetic_order_executor.Execution.{ChainTokens}
use synthetic_order_executor.Price.Feeds.{ℤ}
use synthetic_order_executor.Price.Factory.{ProviderKind, coingecko}
use synthetic_order_executor.Http.Schemas.{◌>>=◌}
use synthetic_order_executor.Config.{
  Parsing, Variables, config_error, with_default, optionally, required, when, address_text,
  the_text, number_at, exactly,
}
use synthetic_order_executor.Config.Worker.{
  NodeEnv, node_env_text, is_log_level, provider_text, nonempty,
}

pub record ApiEnv : Type 0 where
  pub node_env : NodeEnv
  pub api_port : ℕ
  pub log_level : Text
  pub database_url : Text
  pub chain_id : ℕ
  pub sepolia_rpc_url : Text
  pub sepolia_rpc_url_fallback : Option Text
  pub executor_contract_address : Address
  pub weth_address : Address
  pub usdc_address : Address
  pub execution_slippage_bps : ℕ
  pub deadline_window_sec : ℕ
  pub default_pool_fee : ℤ
  pub price_provider : ProviderKind
  pub static_price : Option Text

-- `int` is `z.coerce.number().int()` without a lower bound.
module _ (zod : Parsing) (int : Text → Option ℤ) (vars : Variables) where
  unfoldable pub parse_api_env : Option ApiEnv
  unfolding node_env_text is_log_level provider_text nonempty address_text
  parse_api_env = do
    mode ← with_default NodeEnv.development node_env_text (vars (text "NODE_ENV"))
    port ← number_at zod vars (text "API_PORT") 1 4000 none
    level ← with_default (text "info") (when is_log_level the_text) (vars (text "LOG_LEVEL"))
    database ← required nonempty (vars (text "DATABASE_URL"))
    id ← required (exactly zod vars 11155111) (vars (text "CHAIN_ID"))
    rpc_url ← required (when zod.is_url the_text) (vars (text "SEPOLIA_RPC_URL"))
    second_url ← optionally (when zod.is_url the_text) (vars (text "SEPOLIA_RPC_URL_FALLBACK"))
    contract ← required address_text (vars (text "EXECUTOR_CONTRACT_ADDRESS"))
    weth ← required address_text (vars (text "WETH_ADDRESS"))
    usdc ← required address_text (vars (text "USDC_ADDRESS"))
    slippage ← number_at zod vars (text "EXECUTION_SLIPPAGE_BPS") 0 100 (some 10000)
    deadline ← number_at zod vars (text "DEADLINE_WINDOW_SEC") 1 120 none
    fee ← with_default (ℤ.pos 3000) int (vars (text "DEFAULT_POOL_FEE"))
    provider ← with_default coingecko provider_text (vars (text "PRICE_PROVIDER"))
    some (record {
      node_env = mode;
      api_port = port;
      log_level = level;
      database_url = database;
      chain_id = id;
      sepolia_rpc_url = rpc_url;
      sepolia_rpc_url_fallback = second_url;
      executor_contract_address = contract;
      weth_address = weth;
      usdc_address = usdc;
      execution_slippage_bps = slippage;
      deadline_window_sec = deadline;
      default_pool_fee = fee;
      price_provider = provider;
      static_price = vars (text "STATIC_PRICE");
    })

  -- The issues that follow the first line of the message are left out.
  unfoldable pub load_api_env : Outcome ApiEnv
  unfolding parse_api_env config_error
  load_api_env = elim parse_api_env [
    | none ↦ threw (config_error (text "Invalid environment configuration:"))
    | some e ↦ done e
  ]

-- The addresses of the registry of tokens, apps/backend/src/config/tokens.ts.
abbrev pub registry_tokens : ApiEnv → ChainTokens
registry_tokens e = record { weth = e.weth_address; usdc = e.usdc_address }
