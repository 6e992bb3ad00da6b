-- ===== src/Execution/Recovery.antt =====
-- The recovery from a failure at any stage: `handleFailure` of
-- apps/worker/src/execution/execution.service.ts.
use synthetic_order_executor.Base.{
  true, Option, none, some, List, ◌≡◌, inl, inr, refl, take, Text, Bool-cases,
}
use synthetic_order_executor.Order.{Hex, Order, executing, failed, same_status}
use synthetic_order_executor.Execution.{
  handle_failure, defer_to_monitor, fail_unsigned, handle_current, from_row,
}
use synthetic_order_executor.Effects.{Env, Table, Call, sent_to_monitor, Failure}
use synthetic_order_executor.Repository.{transition_stmt, TransitionParams}
use synthetic_order_executor.Repository.Labels.{transition_status-labelled}
use synthetic_order_executor.Contracts.{
  Meets, Meets-weaken, Meets-pure, Meets-try, Meets-bind, Updated, Meets-enqueue, Meets-find_by_id,
  Meets-labelled,
}
use synthetic_order_executor.Execution.Stages.{
  Stage, is_unsigned, stopped, handed, gave_up, LeavesExecuting,
}
use synthetic_order_executor.Execution.Marks.{
  At, Open, Ended, Read, Unsigned, Open-Ended, ends, is_unsigned-Unsigned, Open-stable,
}

module _ (env : Env) (o : Order) (before : List Call) (rely : LeavesExecuting env) where
  -- The recovery from a failure at any stage.
  Meets-fail_unsigned :
      (current : Order) (reason : Text)
      → Meets env
          (λ t l. (s : Stage) × (is_unsigned s ≡ true) × (At env o before) s t l)
          (fail_unsigned o current reason)
          (λ _. (Ended env o before))
          (Ended env o before)
  unfolding fail_unsigned
  Meets-fail_unsigned current reason = rw (transition_status-labelled q) (
      Meets-bind {Q = λ _. (Ended env o before)} _ _
        (Meets-weaken
          (Meets-labelled
            {P = λ t l. (s : Stage) × (is_unsigned s ≡ true) × (At env o before) s t l}
            {N = (Ended env o before)} {Y = (Ended env o before)} {E = (Ended env o before)} _ o.id
            _
            (λ now n t l (s, u, h). (
              (ends env o before) _ l (transition_stmt q now (env.others n t)) (rw h.0 (stopped s))
                  (rw h.0 (gave_up s current.status u)),
              rw h.0 (stopped s),
            ))
            (λ n t l h. h) (λ t l h. h))
          (λ t l h. h) over (λ t l h. h))
        λ found. Meets-pure _ λ t l h. h)
    where
      q : TransitionParams
      q = record (from_row current failed (some (some (take 500 reason)))) { id = o.id }

      over :
          (found : Option Order) (t : Table) (l : List Call)
          → Updated (Ended env o before) (Ended env o before) o.id found t l
          → (Ended env o before) t l
      over found t l (inl (e, h)) = h
      over found t l (inr (e, h)) = h

  Meets-defer_to_monitor :
      (h : Hex) (reason : Text)
      → Meets env
          (Open env o before)
          (defer_to_monitor o h reason)
          (λ _. (Ended env o before))
          (Ended env o before)
  unfolding defer_to_monitor
  Meets-defer_to_monitor h reason =
      Meets-bind {Q = λ _. (Ended env o before)} _ _
        (Meets-try _ _ {F = (Open env o before)}
          (Meets-enqueue (sent_to_monitor o.id) λ t l (s, k). (rw k.0 (handed s), (s, k)))
          λ e. Meets-pure _ (Open-Ended env o before))
        λ u. Meets-pure _ λ t l k. k

  Meets-fail_read :
      (c : Order) (reason : Text)
      → Unsigned c
      → Meets env
          ((Read env o before) (some c))
          (fail_unsigned o c reason)
          (λ _. (Ended env o before))
          (Ended env o before)
  Meets-fail_read c reason u =
      Meets-weaken (Meets-fail_unsigned c reason)
        (λ t l (e, (s, h)). (s, (is_unsigned-Unsigned env o before) s t l c u e h, h))
        (λ a t l h. h) (λ t l h. h)

  Meets-handle_executing :
      (c : Order) (reason : Text) (h : Option Hex)
      → c.tx_hash ≡ h
      → Meets env
          ((Read env o before) (some c))
          (elim h [ some h' ↦ defer_to_monitor o h' reason | none ↦ fail_unsigned o c reason ])
          (λ _. (Ended env o before))
          (Ended env o before)
  Meets-handle_executing c reason none e = Meets-fail_read c reason λ k. e
  Meets-handle_executing c reason (some h) e =
      Meets-weaken (Meets-defer_to_monitor h reason) (λ t l k. k.1) (λ a t l k. k) (λ t l k. k)

  Meets-handle_current :
      (reason : Text) (found : Option Order)
      → Meets env
          ((Read env o before) found)
          (handle_current o reason found)
          (λ _. (Ended env o before))
          (Ended env o before)
  Meets-handle_current reason none = Meets-pure _ λ t l h. (Open-Ended env o before) t l h.1
  Meets-handle_current reason (some c) = elim (Bool-cases (same_status c.status executing)) [
    | inl e ↦ rw e (Meets-handle_executing c reason c.tx_hash refl)
    | inr e ↦ rw e (Meets-fail_read c reason λ k. cc)
  ]

  pub Meets-handle_failure :
      (e : Failure)
      → Meets env
          (Open env o before)
          (handle_failure o e)
          (λ _. (Ended env o before))
          (Ended env o before)
  unfolding handle_failure
  Meets-handle_failure e =
      Meets-bind _ _
        (Meets-find_by_id (Open-stable env o before rely) (Open-Ended env o before) o.id)
        λ found. Meets-handle_current e.message found
