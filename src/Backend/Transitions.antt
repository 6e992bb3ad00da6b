-- ===== src/Backend/Transitions.antt =====
-- The guard of `transition` in apps/backend/src/services/order.service.ts.
use synthetic_order_executor.Base.{
  true, false, Option, ◌∷◌, ◌≡◌, refl, ◌⊎◌, inl, inr, Bool-cases, Text,
}
use synthetic_order_executor.Order.{Hex, Status, Order}
use synthetic_order_executor.Order.StateMachine.{can_transition}
use synthetic_order_executor.Effects.{Env, World, changed, throw, pure, ◌>>=◌, threw}
use synthetic_order_executor.Repository.Effects.{transition_status-calls}
use synthetic_order_executor.Backend.{transition, row_transition, transition_error}

-- A transition that the table does not allow is refused with nothing changed; one that it allows
-- changes at most the status of its order, and as asked, whatever other processes and the database
-- do.
pub transition-guarded :
    (o : Order) (next : Status) (tx_hash : Option (Option Hex)) (message : Option (Option Text))
    (env : Env) (w : World)
    → let (r, w') = transition o next tx_hash message env w in
      ((can_transition o.status next ≡ false)
        × (r ≡ threw (transition_error o.status next))
        × (w'.calls ≡ w.calls))
      ⊎ ((can_transition o.status next ≡ true)
          × ((w'.calls ≡ w.calls) ⊎ (w'.calls ≡ changed o.id o.status next ∷ w.calls)))
unfolding transition throw pure ◌>>=◌
transition-guarded o next tx_hash message env w = elim (Bool-cases (can_transition o.status next)) [
  | inl e ↦ rw e (inr (refl, transition_status-calls (row_transition o next tx_hash message) env w))
  | inr e ↦ rw e (inl (refl, refl, refl))
]
