-- ===== src/Execution/Safety.antt =====
-- What apps/worker/src/execution/execution.service.ts leaves behind, over the adapter of
-- packages/chain/src/dex/uniswapAdapter.ts and the client of
-- packages/chain/src/contract/executorClient.ts.
use synthetic_order_executor.Base.{Option, some, List, inl, inr, refl, text}
use synthetic_order_executor.Order.{Order, executed}
use synthetic_order_executor.Chain.Uniswap.{Venue, UniswapConfig, uniswap_adapter}
use synthetic_order_executor.Execution.{
  ChainTokens, already_consumed, attempt, execute_triggered, from_triggered, ExecutionOutcome,
}
use synthetic_order_executor.Effects.{Env, World, Table, Call, Outcome, done, threw}
use synthetic_order_executor.Repository.{transition_stmt, TransitionParams}
use synthetic_order_executor.Repository.Labels.{transition_status-labelled}
use synthetic_order_executor.Contracts.{
  Post, Meets, Meets-weaken, Meets-pure, Meets-if, Meets-try, Meets-bind, Meets-ask, Updated,
  Meets-labelled,
}
use synthetic_order_executor.Execution.Reads.{Meets-prepare_params}
use synthetic_order_executor.Execution.Stages.{idle, Ending, stopped, settled, LeavesExecuting}
use synthetic_order_executor.Execution.Marks.{At, Open, Ended, ends}
use synthetic_order_executor.Execution.Claim.{Meets-claim_and_submit}
use synthetic_order_executor.Execution.Recovery.{Meets-handle_failure}

module _ (env : Env) (o : Order) (before : List Call) (rely : LeavesExecuting env) where
  -- The whole execution.
  module _ (venue : Venue) (config : UniswapConfig) (tokens : ChainTokens) where
    Meets-already_consumed :
        Meets env
          ((At env o before) idle)
          (already_consumed (uniswap_adapter venue config) tokens o)
          (λ _. (Ended env o before))
          (Ended env o before)
    unfolding already_consumed
    Meets-already_consumed = rw (transition_status-labelled q) (
        Meets-bind {Q = λ _. (Ended env o before)} _ _
          (Meets-weaken
            (Meets-labelled {P = (At env o before) idle} {N = (Ended env o before)}
              {Y = (Ended env o before)} {E = (Ended env o before)} _ o.id _
              (λ now n t l h. (
                (ends env o before) _ l (transition_stmt q now (env.others n t))
                    (rw h.0 (stopped idle)) (rw h.0 settled),
                rw h.0 (stopped idle),
              ))
              (λ n t l h. h) (λ t l h. h))
            (λ t l h. h) over (λ t l h. h))
          λ found. Meets-pure _ λ t l h. h)
      where
        q : TransitionParams
        q =
            from_triggered o executed
              (some (some (text "reconciled: executionId already consumed on-chain")))

        over :
            (found : Option Order) (t : Table) (l : List Call)
            → Updated (Ended env o before) (Ended env o before) o.id found t l
            → (Ended env o before) t l
        over found t l (inl (e, h)) = h
        over found t l (inr (e, h)) = h

    Meets-execute_triggered :
        Meets env
          ((At env o before) idle)
          (execute_triggered (uniswap_adapter venue config) tokens o)
          (λ _. (Ended env o before))
          (Ended env o before)
    unfolding execute_triggered attempt
    Meets-execute_triggered =
        Meets-bind _ _ (Meets-ask {P = (At env o before) idle} _ λ t l h. rw h.0 (stopped idle))
          λ consumed. Meets-if consumed _ _ Meets-already_consumed (
            Meets-try _ _ {F = (Open env o before)}
              (Meets-bind _ _
                (Meets-prepare_params {P = (At env o before) idle} (λ t l h. (idle, h)) venue config
                  tokens o)
                λ params. Meets-claim_and_submit env o before rely venue config tokens params)
              (Meets-handle_failure env o before rely))

-- Whatever the node and the contract answer, whatever the database or the queue refuse, and whatever
-- other processes write, as long as they leave an EXECUTING order EXECUTING with the hash it has: an
-- execution of a TRIGGERED order broadcasts at most one transaction, and only after it has moved the
-- order from TRIGGERED to EXECUTING and has recorded the hash of just that transaction. It marks the
-- order FAILED only where it has recorded no hash; after a recorded hash, nothing follows but the
-- broadcast and the handoff to the monitor.
pub execute_triggered-ends :
    (venue : Venue) (config : UniswapConfig) (tokens : ChainTokens) (o : Order) (env : Env)
    (w : World)
    → LeavesExecuting env
    → Ending env.keccak256 o.id w.calls
        (execute_triggered (uniswap_adapter venue config) tokens o env w).1.calls
execute_triggered-ends venue config tokens o env w rely =
    let r = execute_triggered (uniswap_adapter venue config) tokens o env w in
    either r.0 r.1.calls
      ((Meets-execute_triggered env o w.calls rely venue config tokens).at w (refl, tt))
  where
    either :
        (r : Outcome ExecutionOutcome) (l : List Call)
        → Post
            (λ _ t l. Ending env.keccak256 o.id w.calls l)
            (λ t l. Ending env.keccak256 o.id w.calls l)
            r
            (execute_triggered (uniswap_adapter venue config) tokens o env w).1.orders
            l
        → Ending env.keccak256 o.id w.calls l
    either (done a) l h = h
    either (threw e) l h = h
