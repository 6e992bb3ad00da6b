-- ===== src/Scenarios/Services.antt =====
-- The theorems on the execution service, the monitor, the reconciler and cancellation, used at
-- concrete runs.
use synthetic_order_executor.Base.{some, [], ◌∷◌, ◌≡◌, refl, text, take}
use synthetic_order_executor.Order.{triggered, executing, failed, cancelled, Order}
use synthetic_order_executor.Order.StateMachine.{is_user_cancellable}
use synthetic_order_executor.Chain.Monitor.{get_outcome}
use synthetic_order_executor.Chain.Uniswap.{Venue, UniswapConfig, uniswap_adapter}
use synthetic_order_executor.Effects.{changed, World, Failure, done, execution_rejected}
use synthetic_order_executor.Execution.{ChainTokens, execute_triggered, handle_failure}
use synthetic_order_executor.Execution.Stages.{LeavesExecuting, Ending}
use synthetic_order_executor.Execution.Safety.{execute_triggered-ends}
use synthetic_order_executor.Execution.Failures.{handle_failure-fails}
use synthetic_order_executor.TxMonitor.{check}
use synthetic_order_executor.TxMonitor.Evidence.{check-Settles, Checked}
use synthetic_order_executor.Report.{empty_report}
use synthetic_order_executor.Reconciler.{
  default_options, run, sweep_stuck_executing, backfill_from_logs, audit_failed, audit_executed,
}
use synthetic_order_executor.Reconciler.Isolation.{run-eq, after_pass}
use synthetic_order_executor.Backend.{cancel_order}
use synthetic_order_executor.Backend.Cancellation.{cancelled_order, cancel_order-decides}
use synthetic_order_executor.Repository.{put}
use synthetic_order_executor.Scenarios.Samples.{order_in, world_with, env, env-IsQuiet}

abbrev pub venue : Venue
venue = record {
  get_pool = λ n r fee. done 11;
  liquidity = λ n a. done 1000000;
  quote_exact_input_single = λ n r fee. done (2900, 100000);
}

abbrev config : UniswapConfig
config = record {
  fee_tiers = 500 ∷ 3000 ∷ [];
  slippage_bps = 50;
  deadline_window_sec = 300;
  client = record { address = 1; signer = some 5; max_fee_per_gas_gwei = 50 };
}

abbrev pub tokens : ChainTokens
tokens = record { weth = 3; usdc = 4 }

-- No other process is at work in the environment.
env-LeavesExecuting : LeavesExecuting env
env-LeavesExecuting = record { left = λ n t id r found status. (r, found, status, refl) }

execute_triggered-ends_example :
    Ending
      (λ raw. 4321)
      7
      []
      (execute_triggered
        (uniswap_adapter venue config)
        tokens
        (order_in triggered)
        env
        (world_with (order_in triggered))).1.calls
execute_triggered-ends_example =
    execute_triggered-ends venue config tokens (order_in triggered) env
      (world_with (order_in triggered)) env-LeavesExecuting

check-Settles_example :
    Checked 1 600000 env
      (world_with (order_in executing))
      7
      (check (get_outcome 1 600000) 7 env (world_with (order_in executing))).1.calls
check-Settles_example = check-Settles 1 600000 env 7 (world_with (order_in executing))

cancel_order-decides_example :
    let w = world_with (order_in triggered) in
    let o' = cancelled_order (order_in triggered) (env.now 1) in
    cancel_order 7 env w ≡ (
      done o',
      record w { tick = 3; orders = put w.orders 7 o'; calls = changed 7 triggered cancelled ∷ [] },
    )
unfolding is_user_cancellable
cancel_order-decides_example =
    cancel_order-decides env-IsQuiet 7 (world_with (order_in triggered)) (order_in triggered) refl

run-eq_example :
    let start : World = record (world_with (order_in executing)) { report = empty_report } in
    let swept : World =
      after_pass
        (text "sweepStuckExecuting")
        (sweep_stuck_executing (check (get_outcome 1 600000)) default_options env start) in
    let filled : World =
      after_pass (text "backfillFromLogs") (backfill_from_logs default_options env swept) in
    let audited : World =
      after_pass (text "auditFailed") (audit_failed default_options env filled) in
    run (check (get_outcome 1 600000)) default_options env (world_with (order_in executing))
    ≡ (done tt, after_pass (text "auditExecuted") (audit_executed default_options env audited))
run-eq_example =
    run-eq (check (get_outcome 1 600000)) default_options env (world_with (order_in executing))

abbrev no_balance : Failure
no_balance = record { kind = execution_rejected; message = text "insufficient vault balance" }

-- The user has cancelled the order in the meantime.
handle_failure-fails_example :
    (after : Order) × ((handle_failure
          (order_in triggered)
          no_balance
          env
          (world_with (order_in cancelled))).1.orders
        7
      ≡ some after)
    × (after.status ≡ failed)
    × (after.error_message ≡ some (take 500 no_balance.message))
    × (after.tx_hash ≡ some 99)
handle_failure-fails_example =
    handle_failure-fails (order_in triggered) (order_in cancelled) no_balance env
      (world_with (order_in cancelled)) env-IsQuiet refl λ h. cc
