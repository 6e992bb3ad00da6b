-- ===== src/Scenarios/Chains.antt =====
-- The theorems on quotes, prices, transactions and the monitor, used at concrete runs.
use synthetic_order_executor.Base.{
  ◌*◌, ◌+◌, ◌≤◌, ◌<◌, true, false, Option, none, some, List, [], ◌∷◌, ◌≡◌, ◌↔◌, arith,
}
use synthetic_order_executor.Order.{executing}
use synthetic_order_executor.Chain.{DexQuote, QuoteRequest}
use synthetic_order_executor.Chain.Monitor.{get_outcome}
use synthetic_order_executor.Chain.Monitor.Evidence.{
  get_outcome_reads, dropped_evidence, safe_outcome, executed_unseen, Gone, replied,
}
use synthetic_order_executor.Chain.Uniswap.{choose, usable, min_amount_out}
use synthetic_order_executor.Chain.Uniswap.Quotes.{choose-Best, min_amount_out_bounds, Best}
use synthetic_order_executor.Effects.{is_done}
use synthetic_order_executor.Scenarios.Samples.{order_in, world_with, env, dex_quote}

-- A transaction that the node does not know, ten seconds after the grace period.
dropped_evidence_example :
    let w = world_with (order_in executing) in
    let r = (get_outcome 1 600000 99 77 390000 env w).0 in
    ((safe_outcome r ≡ true)
      ↔ (Gone env 1 600000 99 77 390000 w × (replied (env.is_executed 2 77) ≡ some false)))
    × ((executed_unseen r ≡ true)
        ↔ (Gone env 1 600000 99 77 390000 w × (replied (env.is_executed 2 77) ≡ some true)))
dropped_evidence_example =
    dropped_evidence env 1 600000 99 77 390000 (world_with (order_in executing))

get_outcome_reads_example :
    let w = world_with (order_in executing) in
    let (r, w') = get_outcome 1 600000 99 77 390000 env w in
    (is_done r ≡ true)
    × (w'.orders ≡ w.orders)
    × (w'.checkpoint ≡ w.checkpoint)
    × (w'.logs ≡ w.logs)
    × (w'.report ≡ w.report)
    × (w'.calls ≡ w.calls)
get_outcome_reads_example =
    get_outcome_reads env 1 600000 99 77 390000 (world_with (order_in executing))

abbrev request : QuoteRequest
request = record { token_in = 3; token_out = 4; amount_in = 1000 }

abbrev answers : List (Option DexQuote)
answers =
    none ∷ some dex_quote ∷ some (record dex_quote { amount_out = 2950; pool_fee = 3000 }) ∷ []

choose-Best_example : Best answers (choose request (usable answers))
choose-Best_example = choose-Best request answers

min_amount_out_example :
    (min_amount_out 50 2999 ≤ 2999)
    × (min_amount_out 0 2999 ≡ 2999)
    × (min_amount_out 100 2999 ≤ min_amount_out 50 2999)
    × (min_amount_out 50 2999 * 10000 + 50 * 2999 ≤ 2999 * 10000)
    × (2999 * 10000 < min_amount_out 50 2999 * 10000 + 50 * 2999 + 10000)
min_amount_out_example = min_amount_out_bounds 50 100 2999 (omega arith) (omega arith)
