-- ===== src/Backend/Cancellation.antt =====
-- What `cancelOrder` of apps/backend/src/services/order.service.ts may do to an order.
use synthetic_order_executor.Base.{
  ℕ, suc, ◌+◌, if◌then◌else◌, true, not, none, some, List, ◌∷◌, ◌≡◌, refl, arith, ◌⊎◌, inl, inr,
  Bool-cases,
}
use synthetic_order_executor.Order.{OrderId, Status, Order, cancelled}
use synthetic_order_executor.Order.StateMachine.{is_user_cancellable}
use synthetic_order_executor.Effects.{
  M, Env, World, done, threw, Call, changed, ◌>>=◌, pure, throw, refuse_if,
}
use synthetic_order_executor.Repository.{
  transition_status, TransitionParams, transition_matches, transition_row, transition_stmt,
  status_seen, put,
}
use synthetic_order_executor.Repository.Effects.{IsQuiet, find_by_id-quiet, update-quiet}
use synthetic_order_executor.Backend.{
  get_order, cancel_order, report_state, row_transition, transition_error,
}

-- What a cancellation changes: nothing, or the status of the order from one that the user may
-- cancel from.
abbrev pub Cancels : OrderId → List Call → List Call → Type 0
Cancels id before after =
    (after ≡ before)
    ⊎ ((s : Status) × (is_user_cancellable s ≡ true) × (after ≡ changed id s cancelled ∷ before))

-- The part of a cancellation that follows the read.
abbrev after_read : OrderId → Order → M Order
after_read id o =
    refuse_if (not (is_user_cancellable o.status)) (transition_error o.status cancelled) >>= λ _.
    (transition_status (record (row_transition o cancelled none none) { id = id })
      >>= report_state id)

-- The row of a cancelled order: only its status, its version and its time of change are new.
abbrev pub cancelled_order : Order → ℕ → Order
cancelled_order o now = record o { status = cancelled; version = o.version + 1; updated_at = now }

own_version :
    (id : OrderId) (o : Order)
    → transition_matches (record (row_transition o cancelled none none) { id = id }) o ≡ true
unfolding transition_matches
own_version id o = ground arith

-- Where nothing fails and no other process is at work, a cancellation of an order decides by its
-- status alone: where the user may cancel, the row is replaced by the same row with the status
-- CANCELLED, the next version and the time of the change, no other row is touched, and the new row is
-- returned; where not, the call throws the invalid transition and the table stays as it is.
pub cancel_order-decides :
    {env : Env}
    → IsQuiet env
    → (id : OrderId) (w : World) (o : Order) → w.orders id ≡ some o
    → cancel_order id env w ≡ (
        if is_user_cancellable o.status
        then (let o' = cancelled_order o (env.now (suc w.tick)) in
            (
              done o',
              record w {
                tick = suc (suc (suc w.tick));
                orders = put w.orders id o';
                calls = changed id o.status cancelled ∷ w.calls;
              },
            ))
        else (threw (transition_error o.status cancelled), record w { tick = suc w.tick }))
unfolding cancel_order get_order ◌>>=◌ pure throw transition_status transition_stmt transition_row
cancel_order-decides {env} quiet id w o found = elim (Bool-cases (is_user_cancellable o.status)) [
  | inl e ↦
      rw
        (
          find_by_id-quiet quiet id w,
          found,
          e,
          update-quiet quiet (status_seen id) id (transition_matches p) (transition_row p)
              (record w { tick = suc w.tick }) o found (own_version id o),
        )
        refl
  | inr e ↦ rw (find_by_id-quiet quiet id w, found, e) refl
]
  where
    p : TransitionParams
    p = record (row_transition o cancelled none none) { id = id }
