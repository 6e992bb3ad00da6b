-- ===== src/Chain/Monitor/Calls.antt =====
-- A classification makes no call that changes anything.
use synthetic_order_executor.Base.{ℕ, List}
use synthetic_order_executor.Order.{Hex, Address}
use synthetic_order_executor.Effects.{Env, Call}
use synthetic_order_executor.Chain.Monitor.{get_outcome}
use synthetic_order_executor.Chain.Monitor.Evidence.{get_outcome_reads}
use synthetic_order_executor.Traces.{Preserves}

pub Preserves-get_outcome :
    {P : List Call → Type 0} {env : Env} (executor : Address) (grace : ℕ) (tx eid : Hex) (at : ℕ)
    → Preserves P env (get_outcome executor grace tx eid at)
Preserves-get_outcome {P} {env} executor grace tx eid at = record {
  at = λ w h. rw (get_outcome_reads env executor grace tx eid at w).5 h;
}
