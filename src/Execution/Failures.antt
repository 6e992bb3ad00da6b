-- ===== src/Execution/Failures.antt =====
-- What `handleFailure` of apps/worker/src/execution/execution.service.ts does to a row for which it
-- finds no signed transaction.
use synthetic_order_executor.Base.{
  suc, true, Option, none, some, ◌≡◌, refl, arith, ==_self, if◌then◌else◌, Bool-cases, Text, take,
  ap, ◌∙◌, inl, inr,
}
use synthetic_order_executor.Order.{Order, Hex, executing, failed, same_status}
use synthetic_order_executor.Effects.{Env, World, Failure, Outcome}
use synthetic_order_executor.Effects.Rules.{bind-done, then_pure-world}
use synthetic_order_executor.Repository.{
  find_by_id, TransitionParams, put, transition_status, transition_stmt, transition_matches,
  transition_row,
}
use synthetic_order_executor.Repository.Effects.{IsQuiet, find_by_id-quiet, update-quiet}
use synthetic_order_executor.Execution.{
  handle_failure, fail_unsigned, handle_current, from_row, ExecutionOutcome, unsuccessful,
  defer_to_monitor,
}

-- The transition that a failure makes from the row that it reads.
abbrev giving_up : Order → Order → Text → TransitionParams
giving_up o c reason = record (from_row c failed (some (some (take 500 reason)))) { id = o.id }

own_version : (o c : Order) (reason : Text) → transition_matches (giving_up o c reason) c ≡ true
unfolding transition_matches
own_version o c reason = ground arith

module _ {env : Env} (quiet : IsQuiet env) (o c : Order) (reason : Text) where
  fail_unsigned-quiet :
      (w : World)
      → w.orders o.id ≡ some c
      → (fail_unsigned o c reason env w).1.orders
        ≡ put w.orders o.id (transition_row (giving_up o c reason) (env.now w.tick) c)
  unfolding fail_unsigned transition_status transition_stmt
  fail_unsigned-quiet w found =
      rw
        (then_pure-world {B = ExecutionOutcome} (transition_status (giving_up o c reason))
          (record { order_id = o.id; status = unsuccessful; tx_hash = none; reason = some reason })
          env w)
        (ap (λ (r : Outcome (Option Order) × World). r.1.orders)
          (update-quiet quiet _ o.id (transition_matches (giving_up o c reason))
            (transition_row (giving_up o c reason)) w c found (own_version o c reason)))

  handle_current-unsigned :
      (w : World)
      → (c.status ≡ executing → c.tx_hash ≡ none)
      → handle_current o reason (some c) env w ≡ fail_unsigned o c reason env w
  handle_current-unsigned w unsigned = elim (Bool-cases (same_status c.status executing)) [
    | inl e ↦ executing_case (unsigned (ground arith)) e
    | inr e ↦ rw e refl
  ]
    where
      executing_case :
          c.tx_hash ≡ none
          → same_status c.status executing ≡ true
          → handle_current o reason (some c) env w ≡ fail_unsigned o c reason env w
      executing_case h e = go c.tx_hash h
        where
          go :
              (k : Option Hex)
              → k ≡ none
              → (if same_status c.status executing
                    then elim k [
                      | some h' ↦ defer_to_monitor o h' reason
                      | none ↦ fail_unsigned o c reason
                    ]
                    else fail_unsigned o c reason)
                  env w
                ≡ fail_unsigned o c reason env w
          go none h = rw e refl
          go (some h') h = cc

-- With no fault and no other process at work, a failure marks an order FAILED with the reason, cut
-- to 500 code units, from whatever status it finds it in, a terminal one included, unless the order
-- is EXECUTING with a hash.
pub handle_failure-fails :
    (o c : Order) (e : Failure) (env : Env) (w : World)
    → IsQuiet env
    → w.orders o.id ≡ some c
    → (c.status ≡ executing → c.tx_hash ≡ none)
    → (after : Order) × ((handle_failure o e env w).1.orders o.id ≡ some after)
      × (after.status ≡ failed)
      × (after.error_message ≡ some (take 500 e.message))
      × (after.tx_hash ≡ c.tx_hash)
unfolding handle_failure transition_row
handle_failure-fails o c e env w quiet found unsigned =
    let w₁ : World = record w { tick = suc w.tick } in
    let read = find_by_id-quiet quiet o.id w in
    let rest =
      bind-done (find_by_id o.id) (handle_current o e.message) env w w₁ (some c)
        (rw found at read) in
    let same = handle_current-unsigned quiet o c e.message w₁ unsigned in
    let orders =
      ap (λ (r : Outcome ExecutionOutcome × World). r.1.orders) (rest ∙ same)
      ∙ fail_unsigned-quiet quiet o c e.message w₁ found in
    (
      transition_row (giving_up o c e.message) (env.now (suc w.tick)) c,
      rw orders (rw (==_self o.id) refl),
      refl,
      refl,
      refl,
    )
