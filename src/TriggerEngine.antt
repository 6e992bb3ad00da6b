-- ===== src/TriggerEngine.antt =====
-- apps/worker/src/trigger/triggerEngine.ts: one evaluation pass. The constructor's `PriceService` is
-- the argument `prices`; logging is left out.
pub mod Passed
pub mod Passes
use synthetic_order_executor.Base.{
  ℕ, zero, suc, ◌+◌, Bool, true, false, Option, none, some, List, [], ◌∷◌, ◌++◌, Text, length,
  if◌then◌else◌,
}
use synthetic_order_executor.Order.{OrderId, Decimal, Order, pending, triggered}
use synthetic_order_executor.Trigger.{is_triggered}
use synthetic_order_executor.Chain.{PriceQuote}
use synthetic_order_executor.Effects.{
  M, sent_to_executor, pure, ◌>>=◌, ◌>>◌, try, environment, enqueue,
}
use synthetic_order_executor.Repository.{TransitionParams, transition_status, find_triggerable}

pub record TriggerRunResult : Type 0 where
  pub price : Text
  pub source : Text
  pub candidates : ℕ
  pub fired : List OrderId
  pub skipped : ℕ
  pub handoff_failures : List OrderId

-- PENDING -> TRIGGERED on the version that the candidate was read with.
abbrev pub claim_params : Order → TransitionParams
claim_params o = record {
  id = o.id;
  expected_status = pending;
  expected_version = o.version;
  next_status = triggered;
  tx_hash = none;
  error_message = none;
}

unfoldable pub claim : Order → M (Option Order)
claim o = transition_status (claim_params o)

-- The handoff: the failures, with the order added if the queue refuses it.
unfoldable pub hand_off : OrderId → List OrderId → M (List OrderId)
hand_off id failures =
    try (enqueue (sent_to_executor id) >> pure failures) λ e. pure (failures ++ id ∷ [])

abbrev if_claimed : Order → TriggerRunResult → Option Order → M TriggerRunResult
if_claimed o r none = pure (record r { skipped = r.skipped + 1 })
if_claimed o r (some claimed) = do
  failures ← hand_off o.id r.handoff_failures
  pure (record r { fired = r.fired ++ o.id ∷ []; handoff_failures = failures })

-- The body of the loop.
unfoldable pub evaluate : Decimal → Order → TriggerRunResult → M TriggerRunResult
unfolding claim hand_off
evaluate price o r =
    if is_triggered o.side o.trigger_price price then (claim o >>= if_claimed o r) else pure r

unfoldable pub evaluate_all : Decimal → List Order → TriggerRunResult → M TriggerRunResult
evaluate_all price [] r = pure r
evaluate_all price (o ∷ os) r = do r' ← evaluate price o r; evaluate_all price os r'

abbrev pub start : PriceQuote → List Order → TriggerRunResult
start quote candidates = record {
  price = quote.price;
  source = quote.source;
  candidates = length candidates;
  fired = [];
  skipped = 0;
  handoff_failures = [];
}

-- Steps 2 to 5, at the price as a decimal.
abbrev pub evaluate_found : PriceQuote → Decimal → List Order → M TriggerRunResult
evaluate_found quote price candidates = evaluate_all price candidates (start quote candidates)

abbrev pub pass_at : ℕ → PriceQuote → Decimal → M TriggerRunResult
pass_at batch_size quote price = find_triggerable price batch_size >>= evaluate_found quote price

unfoldable pub pass : ℕ → PriceQuote → M TriggerRunResult
pass batch_size quote =
    environment >>= λ env. pass_at batch_size quote (env.parse_decimal quote.price)

unfoldable pub run : (Text → M PriceQuote) → ℕ → Text → M TriggerRunResult
unfolding pass
run prices batch_size asset = prices asset >>= pass batch_size
