-- ===== src/Workers.antt =====
-- The worker process: apps/worker/src/index.ts, apps/worker/src/workers, the job ids of
-- apps/worker/src/queues/queues.ts, and packages/chain/src/clients.ts.
pub mod Ready
pub mod Rechecks
use synthetic_order_executor.Base.{
  ℕ, Bool, true, false, not, Option, none, some, List, [], ◌∷◌, ◌++◌, Text, text, number_text, ◌==◌,
  if◌then◌else◌,
}
use synthetic_order_executor.Order.{OrderId, Hex, Address, Order}
use synthetic_order_executor.Report.{ReconcileReport}
use synthetic_order_executor.Chain.{PriceQuote}
use synthetic_order_executor.Chain.Monitor.{get_outcome}
use synthetic_order_executor.Chain.Uniswap.{Venue, UniswapConfig, uniswap_adapter}
use synthetic_order_executor.Effects.{
  Env, World, M, Failure, ErrorKind, price_unavailable, price_untrusted, other, sent_to_monitor,
  Outcome, done, threw, pure, throw, lift, refuse_if, ◌>>=◌, ◌>>◌, try, ask, enqueue,
}
use synthetic_order_executor.TxMonitor.{MonitorResult, check, sweep_stuck}
use synthetic_order_executor.TriggerEngine.{TriggerRunResult}
use synthetic_order_executor.TriggerEngine
use synthetic_order_executor.Execution.{ChainTokens, ExecutionOutcome, execute_order}
use synthetic_order_executor.Reconciler
use synthetic_order_executor.Reconciler.{ReconcilerOptions}
use synthetic_order_executor.Price.{get_validated_price}
use synthetic_order_executor.Price.Feeds.{PriceSources}
use synthetic_order_executor.Price.Factory.{PriceService, PriceProviderConfig, build_price_service}
use synthetic_order_executor.Config.{Parsing, Variables, ChainConfig, load_chain_config}
use synthetic_order_executor.Config.Worker.{WorkerEnv, load_env}

-- What the job of the price watcher returns: the report of the pass, or why the tick was skipped.
pub data WatcherResult : Type 0 where
  ran : TriggerRunResult → WatcherResult
  skipped_tick : Text → WatcherResult

abbrev pub skip_bad_price : ErrorKind → Failure → M WatcherResult
skip_bad_price price_unavailable e = pure (skipped_tick e.message)
skip_bad_price price_untrusted e = pure (skipped_tick e.message)
skip_bad_price _ e = throw e

unfoldable pub watch_prices : M TriggerRunResult → M WatcherResult
watch_prices pass = try (pass >>= λ r. pure (ran r)) λ e. skip_bad_price e.kind e

-- A job of the transaction monitor: the sweep, or the check of one order.
pub data MonitorJob : Type 0 where
  sweep_job : MonitorJob
  check_job : OrderId → MonitorJob

pub data MonitorJobResult : Type 0 where
  swept : List MonitorResult → MonitorJobResult
  checked : MonitorResult → MonitorJobResult

-- The ids of the jobs of the monitor, on the text of the order's id.
unfoldable pub initial_job_id : Text → Text
initial_job_id id = text "monitor--" ++ (id ++ text "--initial")

unfoldable pub recheck_job_id : Text → ℕ → Text
recheck_job_id id now = text "monitor--" ++ (id ++ (text "--" ++ number_text now))

-- `if (result.requeue) await queue.add(..)`
abbrev pub requeue_if : Bool → OrderId → M (Unit {0})
requeue_if true id = enqueue (sent_to_monitor id)
requeue_if false id = pure tt

abbrev pub recheck : MonitorResult → M MonitorJobResult
recheck r = requeue_if r.requeue r.order_id >> pure (checked r)

unfoldable pub monitor_job :
    (OrderId → M MonitorResult) → M (List MonitorResult) → MonitorJob → M MonitorJobResult
monitor_job check sweep sweep_job = sweep >>= λ rs. pure (swept rs)
monitor_job check sweep (check_job id) = check id >>= recheck

abbrev report_now : M ReconcileReport
report_now env w = (done w.report, w)

unfoldable pub reconcile_job : M (Unit {0}) → M ReconcileReport
reconcile_job run = run >> report_now

-- Everything that `main` puts together.
pub record Started : Type 0 where
  pub signer : Address
  pub chain : ChainConfig
  pub env : WorkerEnv
  pub prices : PriceService

-- The outside of the start: the key's account through viem, the chain id of the node, and BullMQ,
-- which takes a repeatable job or fails.
pub record Startup : Type 0 where
  pub account_of : Text → Outcome Address
  pub get_chain_id : ℕ → Outcome ℕ
  pub add_repeatable : ℕ → Text → ℕ → Outcome (Unit {0})

unfoldable pub start_error : Text → Failure
start_error message = record { kind = other; message = message }

abbrev pub uniswap_config : Started → UniswapConfig
uniswap_config s = record {
  fee_tiers = s.chain.fee_tiers;
  slippage_bps = s.chain.slippage_bps;
  deadline_window_sec = s.chain.deadline_window_sec;
  client = record {
    address = s.chain.executor_contract;
    signer = some s.signer;
    max_fee_per_gas_gwei = s.chain.max_fee_per_gas_gwei;
  };
}

abbrev pub price_config : WorkerEnv → PriceProviderConfig
price_config env = record {
  provider = env.price_provider;
  cross_check = env.price_crosscheck_provider;
  static_price = env.static_price;
  rpc_url = env.sepolia_rpc_url;
  chainlink_feed = some env.chainlink_eth_usd_feed;
  max_staleness_sec = some env.max_price_staleness_sec;
  max_divergence_bps = some env.max_price_divergence_bps;
}

module _ (outside : Startup) (sources : PriceSources) (zod : Parsing) (vars : Variables) where
  unfoldable pub assert_chain : ℕ → M (Unit {0})
  unfolding start_error
  assert_chain expected = do
    actual ← ask (λ env tick. outside.get_chain_id tick)
    refuse_if (not (actual == expected)) (
        start_error (
          text "RPC reports chain id "
          ++ (number_text actual
              ++ (text ", expected " ++ (number_text expected ++ text " (Sepolia)")))))

  -- `createSigningClient`, and the refusal to start without a signer; the key is never empty.
  abbrev pub signer_from : Option Text → Outcome Address
  signer_from none =
      threw
        (start_error (text "EXECUTOR_PRIVATE_KEY is required: the worker cannot submit without it"))
  signer_from (some key) = outside.account_of key

  unfoldable pub start_worker : M Started
  unfolding assert_chain start_error
  start_worker = do
    env ← lift (load_env zod vars)
    chain ← lift (load_chain_config zod vars)
    assert_chain chain.chain_id
    signer ← lift (signer_from chain.executor_private_key)
    state ← ask (λ e tick. e.get_state tick)
    refuse_if (not (state.executor == signer))
        (start_error (text "Configured key is not the contract's executor"))
    prices ← lift (build_price_service sources (price_config env))
    ask (λ e tick. outside.add_repeatable tick (text "price-watcher") env.price_poll_interval_ms)
    ask (λ e tick. outside.add_repeatable tick (text "tx-monitor") env.tx_sweep_interval_ms)
    ask (λ e tick. outside.add_repeatable tick (text "reconciler") env.reconcile_interval_ms)
    pure (record { signer = signer; chain = chain; env = env; prices = prices })

-- The jobs of a worker that has started.
module _ (venue : Venue) (s : Started) where
  abbrev tokens : ChainTokens
  tokens = record { weth = s.chain.weth; usdc = s.chain.usdc }

  abbrev pub check_order : OrderId → M MonitorResult
  check_order = check (get_outcome s.chain.executor_contract s.env.pending_grace_ms)

  unfoldable pub price_watcher_worker : M WatcherResult
  unfolding watch_prices
  price_watcher_worker = watch_prices (
      TriggerEngine.run (get_validated_price s.prices.primary s.prices.cross_check s.prices.options)
        s.env.trigger_batch_size (text "ETH/USD"))

  unfoldable pub executor_worker : OrderId → M ExecutionOutcome
  executor_worker = execute_order (uniswap_adapter venue (uniswap_config s)) tokens

  unfoldable pub monitor_worker : MonitorJob → M MonitorJobResult
  unfolding monitor_job
  monitor_worker = monitor_job check_order (
      sweep_stuck (get_outcome s.chain.executor_contract s.env.pending_grace_ms)
        s.env.tx_stuck_after_ms 50)

  abbrev pub reconciler_options : ReconcilerOptions
  reconciler_options = record {
    stuck_after_ms = s.env.tx_stuck_after_ms;
    reorg_buffer_blocks = s.env.reorg_buffer_blocks;
    max_block_range = s.env.reconcile_max_block_range;
    audit_limit = s.env.reconcile_audit_limit;
  }

  unfoldable pub reconciler_worker : M ReconcileReport
  unfolding reconcile_job
  reconciler_worker = reconcile_job (Reconciler.run check_order reconciler_options)
