-- ===== src/Config/Worker.antt =====
-- The configuration of the worker: apps/worker/src/config/env.ts.
use synthetic_order_executor.Base.{
  ℕ, Bool, true, false, ◌&&◌, ◌||◌, Option, none, some, [], ◌∷◌, Text, text, same_text, length, leb,
  if◌then◌else◌,
}
use synthetic_order_executor.Order.{Address}
use synthetic_order_executor.Effects.{Outcome, done, threw}
use synthetic_order_executor.Price.Factory.{ProviderKind, chainlink, coingecko, static}
use synthetic_order_executor.Http.Schemas.{◌>>=◌}
use synthetic_order_executor.Config.{
  Parsing, Variables, config_error, with_default, optionally, required, when, address_text,
  the_text, number_at,
}

pub data NodeEnv : Type 0 where
  development test production : NodeEnv

pub record WorkerEnv : Type 0 where
  pub node_env : NodeEnv
  pub log_level : Text
  pub database_url : Text
  pub redis_url : Text
  pub price_provider : ProviderKind
  pub price_crosscheck_provider : Option ProviderKind
  pub static_price : Option Text
  pub sepolia_rpc_url : Option Text
  pub chainlink_eth_usd_feed : Address
  pub price_poll_interval_ms : ℕ
  pub max_price_staleness_sec : ℕ
  pub max_price_divergence_bps : ℕ
  pub trigger_batch_size : ℕ
  pub tx_recheck_delay_ms : ℕ
  pub pending_grace_ms : ℕ
  pub tx_stuck_after_ms : ℕ
  pub tx_sweep_interval_ms : ℕ
  pub reconcile_interval_ms : ℕ
  pub reorg_buffer_blocks : ℕ
  pub reconcile_max_block_range : ℕ
  pub reconcile_audit_limit : ℕ

unfoldable pub node_env_text : Text → Option NodeEnv
node_env_text v =
    if same_text v (text "development")
    then some NodeEnv.development
    else if same_text v (text "test")
    then some NodeEnv.test
    else if same_text v (text "production")
    then some NodeEnv.production
    else none

unfoldable pub is_log_level : Text → Bool
is_log_level v =
    same_text v (text "fatal")
    || same_text v (text "error")
    || same_text v (text "warn")
    || same_text v (text "info")
    || same_text v (text "debug")
    || same_text v (text "trace")

unfoldable pub provider_text : Text → Option ProviderKind
provider_text v =
    if same_text v (text "chainlink")
    then some chainlink
    else if same_text v (text "coingecko")
    then some coingecko
    else if same_text v (text "static")
    then some static
    else none

-- 'none' is no provider; 'static' is refused.
unfoldable pub crosscheck_text : Text → Option (Option ProviderKind)
crosscheck_text v =
    if same_text v (text "chainlink")
    then some (some chainlink)
    else if same_text v (text "coingecko")
    then some (some coingecko)
    else if same_text v (text "none")
    then some none
    else none

unfoldable pub nonempty : Text → Option Text
nonempty = when (λ v. leb 1 (length v)) the_text

module _ (zod : Parsing) (vars : Variables) where
  unfoldable pub parse_worker_env : Option WorkerEnv
  unfolding node_env_text is_log_level provider_text crosscheck_text nonempty address_text
  parse_worker_env = do
    mode ← with_default NodeEnv.development node_env_text (vars (text "NODE_ENV"))
    level ← with_default (text "info") (when is_log_level the_text) (vars (text "LOG_LEVEL"))
    database ← required nonempty (vars (text "DATABASE_URL"))
    redis ← with_default (text "redis://localhost:6379") nonempty (vars (text "REDIS_URL"))
    provider ← with_default coingecko provider_text (vars (text "PRICE_PROVIDER"))
    cross ← with_default none crosscheck_text (vars (text "PRICE_CROSSCHECK_PROVIDER"))
    rpc_url ← optionally (when zod.is_url the_text) (vars (text "SEPOLIA_RPC_URL"))
    feed ←
        with_default 0x694AA1769357215DE4FAC081bf1f309aDC325306 address_text
          (vars (text "CHAINLINK_ETH_USD_FEED"))
    poll ← number_at zod vars (text "PRICE_POLL_INTERVAL_MS") 1000 10000 none
    staleness ← number_at zod vars (text "MAX_PRICE_STALENESS_SEC") 1 3600 none
    divergence ← number_at zod vars (text "MAX_PRICE_DIVERGENCE_BPS") 1 200 none
    batch ← number_at zod vars (text "TRIGGER_BATCH_SIZE") 1 100 (some 1000)
    recheck ← number_at zod vars (text "TX_RECHECK_DELAY_MS") 1000 15000 none
    grace ← number_at zod vars (text "PENDING_GRACE_MS") 10000 180000 none
    stuck ← number_at zod vars (text "TX_STUCK_AFTER_MS") 30000 300000 none
    sweep ← number_at zod vars (text "TX_SWEEP_INTERVAL_MS") 10000 60000 none
    reconcile ← number_at zod vars (text "RECONCILE_INTERVAL_MS") 10000 60000 none
    reorg ← number_at zod vars (text "REORG_BUFFER_BLOCKS") 0 12 none
    range ← number_at zod vars (text "RECONCILE_MAX_BLOCK_RANGE") 1 5000 none
    audit ← number_at zod vars (text "RECONCILE_AUDIT_LIMIT") 1 100 (some 1000)
    some (record {
      node_env = mode;
      log_level = level;
      database_url = database;
      redis_url = redis;
      price_provider = provider;
      price_crosscheck_provider = cross;
      static_price = vars (text "STATIC_PRICE");
      sepolia_rpc_url = rpc_url;
      chainlink_eth_usd_feed = feed;
      price_poll_interval_ms = poll;
      max_price_staleness_sec = staleness;
      max_price_divergence_bps = divergence;
      trigger_batch_size = batch;
      tx_recheck_delay_ms = recheck;
      pending_grace_ms = grace;
      tx_stuck_after_ms = stuck;
      tx_sweep_interval_ms = sweep;
      reconcile_interval_ms = reconcile;
      reorg_buffer_blocks = reorg;
      reconcile_max_block_range = range;
      reconcile_audit_limit = audit;
    })

  abbrev pub is_production : NodeEnv → Bool
  is_production NodeEnv.production = true
  is_production _ = false

  abbrev pub is_static : ProviderKind → Bool
  is_static static = true
  is_static _ = false

  abbrev pub is_chainlink : ProviderKind → Bool
  is_chainlink chainlink = true
  is_chainlink _ = false

  abbrev pub no_text : Option Text → Bool
  no_text none = true
  no_text (some []) = true
  no_text (some (c ∷ s)) = false

  abbrev pub permitted : WorkerEnv → Outcome WorkerEnv
  permitted env =
      if is_production env.node_env && is_static env.price_provider
      then threw
          (config_error (text "PRICE_PROVIDER=static is not permitted when NODE_ENV=production"))
      else if is_chainlink env.price_provider && no_text env.sepolia_rpc_url
      then threw (config_error (text "PRICE_PROVIDER=chainlink requires SEPOLIA_RPC_URL"))
      else done env

  unfoldable pub load_env : Outcome WorkerEnv
  unfolding parse_worker_env config_error
  load_env = elim parse_worker_env [
    | none ↦ threw (config_error (text "Invalid worker environment:"))
    | some env ↦ permitted env
  ]
