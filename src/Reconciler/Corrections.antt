-- ===== src/Reconciler/Corrections.antt =====
-- What the passes of apps/worker/src/reconcile/reconciler.service.ts may change.
use synthetic_order_executor.Base.{List, ◌∷◌}
use synthetic_order_executor.Order.{OrderId, Status, Order, executed}
use synthetic_order_executor.Effects.{Call, changed}

-- After `before` nothing was done but orders set to EXECUTED.
pub data OnlyForces (before : List Call) : List Call → Type 0 where
  nothing : OnlyForces before before
  forced :
      {l : List Call} (id : OrderId) (from : Status)
      → OnlyForces before l
      → OnlyForces before (changed id from executed ∷ l)
