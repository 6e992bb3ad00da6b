-- ===== src/Execution/Claim.antt =====
-- The claim of an order, the record of its hash, its submission and its handoff: steps 5 to 7 of
-- apps/worker/src/execution/execution.service.ts.
use synthetic_order_executor.Base.{
  ℕ, zero, suc, Option, none, some, List, [], ◌∷◌, ◌≡◌, inl, inr, refl, ap, ==_self,
}
use synthetic_order_executor.Order.{Order, triggered, executing}
use synthetic_order_executor.Chain.{ExecutionParams}
use synthetic_order_executor.Chain.Client.Submission.{Meets-submit}
use synthetic_order_executor.Chain.Uniswap.{Venue, UniswapConfig, uniswap_adapter}
use synthetic_order_executor.Execution.{
  ChainTokens, submit_claimed, claim_and_submit, if_claimed, from_triggered,
}
use synthetic_order_executor.Effects.{
  Env, Table, Call, changed, recorded, broadcast, sent_to_monitor, ◌>>=◌, pure,
}
use synthetic_order_executor.Repository.{
  record_tx_hash, transition_stmt, record_hash_stmt, record_hash_row, TransitionParams,
}
use synthetic_order_executor.Repository.Labels.{transition_status-labelled, record_tx_hash-labelled}
use synthetic_order_executor.Contracts.{
  Matched, Meets, Meets-weaken, Meets-pure, Meets-bind, Updated, Meets-enqueue, Meets-labelled,
}
use synthetic_order_executor.Execution.Stages.{
  idle, claimed, signed, sent, handed, LeavesExecuting, claimed_row, recorded_row,
}
use synthetic_order_executor.Execution.Marks.{
  At, Open, Ended, Never, Sent, matched_row, Sent-Open, Open-Ended, At-stable,
}

module _ (env : Env) (o : Order) (before : List Call) (rely : LeavesExecuting env) where
  -- The claim and the record of the hash.
  claim-Matched :
      (now : ℕ) (t : Table)
      → Matched
          (Open env o before)
          ((At env o before) claimed)
          (changed o.id triggered executing)
          before
          (transition_stmt (from_triggered o executing none) now t)
  claim-Matched now t = go (transition_stmt q now t) (claimed_row q now t refl)
    where
      q : TransitionParams
      q = from_triggered o executing none

      go :
          (r : Table × ℕ)
          → Matched
              (λ t' l. Unit)
              (λ t' l. (r : Order) × (t' o.id ≡ some r) × (r.status ≡ executing))
              (changed o.id triggered executing)
              []
              r
          → Matched
              (Open env o before)
              ((At env o before) claimed)
              (changed o.id triggered executing)
              before
              r
      go (t', zero) h = (idle, (refl, tt))
      go (t', suc rows) h = (refl, h)

  record-Matched :
      (raw now : ℕ) (t : Table) (l : List Call)
      → (At env o before) claimed t l
      → Matched
          (Never env o before)
          ((At env o before) (signed raw))
          (recorded o.id (env.keccak256 raw))
          l
          (record_hash_stmt o.id (env.keccak256 raw) now t)
  unfolding record_hash_row
  record-Matched raw now t l (e, (r, found, status)) =
      rw (recorded_row o.id (env.keccak256 raw) now t r found status) (
        ap (λ k. recorded o.id (env.keccak256 raw) ∷ k) e,
        (record_hash_row (env.keccak256 raw) now r, rw (==_self o.id) refl, status, refl),
      )

  -- The hash is on record before the transaction is out.
  Meets-record :
      (raw : ℕ)
      → Meets env
          ((At env o before) claimed)
          (record_tx_hash o.id (env.keccak256 raw) >>= λ _. pure (tt {0}))
          (λ _. (At env o before) (signed raw))
          (Open env o before)
  Meets-record raw = rw (record_tx_hash-labelled o.id (env.keccak256 raw)) (
      Meets-bind _ _
        (Meets-labelled {P = (At env o before) claimed} {N = (Never env o before)}
          {Y = (At env o before) (signed raw)} {E = (Open env o before)} _ o.id _
          (λ now n t l h. (
            record-Matched raw now (env.others n t) l
                ((At-stable env o before rely) claimed n t l h),
            (claimed, (At-stable env o before rely) claimed n t l h),
          ))
          ((At-stable env o before rely) (signed raw)) (λ t l h. (signed raw, h)))
        λ found. Meets-pure tt ((matched_row env o before) ((At env o before) (signed raw)) found))

  -- After the claim.
  module _ (venue : Venue) (config : UniswapConfig) (tokens : ChainTokens) where
    Meets-submit_claimed :
        (params : ExecutionParams)
        → Meets env
            ((At env o before) claimed)
            (submit_claimed (uniswap_adapter venue config) tokens o params)
            (λ _. (Ended env o before))
            (Open env o before)
    unfolding submit_claimed uniswap_adapter
    Meets-submit_claimed params =
        Meets-bind _ _
          (Meets-submit (λ raw. (At env o before) (signed raw)) config.client params _
            (λ t l h. (claimed, h)) (Sent-Open env o before) Meets-record
            λ raw t l h. (raw, (ap (λ k. broadcast raw ∷ k) h.0, h.1)))
          λ tx_hash.
            Meets-bind _ _
              (Meets-enqueue {P = (Sent env o before)} {Q = (Ended env o before)}
                {E = (Open env o before)} (sent_to_monitor o.id)
                λ t l (raw, h). (rw h.0 (handed (sent raw)), (sent raw, h)))
              λ u. Meets-pure _ λ t l h. h

    Meets-if_claimed :
        (params : ExecutionParams) (found : Option Order)
        → Meets env
            (Updated (Open env o before) ((At env o before) claimed) o.id found)
            (if_claimed (uniswap_adapter venue config) tokens o params found)
            (λ _. (Ended env o before))
            (Open env o before)
    Meets-if_claimed params none = Meets-pure _ λ t l h. lost t l h
      where
        lost :
            (t : Table) (l : List Call)
            → Updated (Open env o before) ((At env o before) claimed) o.id none t l
            → (Ended env o before) t l
        lost t l (inl (e, h)) = (Open-Ended env o before) t l h
        lost t l (inr (e, h)) = (Open-Ended env o before) t l (claimed, h)
    Meets-if_claimed params (some row) =
        Meets-weaken (Meets-submit_claimed params) won (λ a t l h. h) (λ t l h. h)
      where
        won :
            (t : Table) (l : List Call)
            → Updated (Open env o before) ((At env o before) claimed) o.id (some row) t l
            → (At env o before) claimed t l
        won t l (inl (e, h)) = cc
        won t l (inr (e, h)) = h

    pub Meets-claim_and_submit :
        (params : ExecutionParams)
        → Meets env
            ((At env o before) idle)
            (claim_and_submit (uniswap_adapter venue config) tokens o params)
            (λ _. (Ended env o before))
            (Open env o before)
    unfolding claim_and_submit
    Meets-claim_and_submit params =
        rw (transition_status-labelled (from_triggered o executing none)) (
          Meets-bind _ _
            (Meets-labelled {P = (At env o before) idle} {N = (Open env o before)}
              {Y = (At env o before) claimed} {E = (Open env o before)} _ o.id _
              (λ now n t l h. (rw h.0 (claim-Matched now (env.others n t)), (idle, h)))
              ((At-stable env o before rely) claimed) (λ t l h. (claimed, h)))
            λ found. Meets-if_claimed params found)
