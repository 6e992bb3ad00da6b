-- ===== src/Execution/Reads.antt =====
-- The part of apps/worker/src/execution/execution.service.ts before the claim, over the adapter of
-- packages/chain/src/dex/uniswapAdapter.ts, changes nothing.
use synthetic_order_executor.Base.{ℕ, none, List, [], ◌∷◌}
use synthetic_order_executor.Order.{Order}
use synthetic_order_executor.Chain.{QuoteRequest}
use synthetic_order_executor.Chain.Uniswap.{
  Venue, UniswapConfig, uniswap_adapter, quote_pool, quote_tier, quote_tiers, get_quote,
  build_execution_params,
}
use synthetic_order_executor.Execution.{ChainTokens, prepare_params}
use synthetic_order_executor.Effects.{Env, Table, Call, Outcome, done, threw, lift}
use synthetic_order_executor.Contracts.{
  Mark, Post, Meets, Meets-pure, Meets-lift, Meets-if, Meets-try, Meets-bind, Meets-ask, Meets-now,
  Meets-environment, Meets-refuse_if,
}

module _ {env : Env} {P E : Mark} (p : (t : Table) (l : List Call) → P t l → E t l) where
  Meets-lifted : {A : Type 0} (r : Outcome A) → Meets env P (lift r) (λ _. P) E
  Meets-lifted {A} r = Meets-lift r (go r)
    where
      go : (r : Outcome A) (t : Table) (l : List Call) → P t l → Post (λ _. P) E r t l
      go (done a) t l h = h
      go (threw e) t l h = p t l h

  module _ (venue : Venue) where
    Meets-quote_tier :
        (request : QuoteRequest) (fee : ℕ) → Meets env P (quote_tier venue request fee) (λ _. P) E
    unfolding quote_tier quote_pool
    Meets-quote_tier request fee =
        Meets-try _ _ {F = P}
          (Meets-bind _ _ (Meets-ask _ λ t l h. h) λ pool.
            Meets-if _ _ _ (Meets-pure none λ t l h. h) (
              Meets-bind _ _ (Meets-ask _ λ t l h. h) λ liquidity.
                Meets-if _ _ _ (Meets-pure none λ t l h. h) (
                  Meets-bind _ _ (Meets-ask _ λ t l h. h)
                    λ answer. Meets-bind _ _ Meets-now λ now. Meets-pure _ λ t l h. h)))
          λ e. Meets-pure none λ t l h. h

    Meets-quote_tiers :
        (request : QuoteRequest) (fees : List ℕ)
        → Meets env P (quote_tiers venue request fees) (λ _. P) E
    unfolding quote_tiers
    Meets-quote_tiers request [] = Meets-pure [] λ t l h. h
    Meets-quote_tiers request (fee ∷ fees) =
        Meets-bind _ _ (Meets-quote_tier request fee)
          λ q. Meets-bind _ _ (Meets-quote_tiers request fees) λ qs. Meets-pure (q ∷ qs) λ t l h. h

    -- Everything before the claim only reads.
    pub Meets-prepare_params :
        (config : UniswapConfig) (tokens : ChainTokens) (o : Order)
        → Meets env P (prepare_params (uniswap_adapter venue config) tokens o) (λ _. P) E
    unfolding prepare_params uniswap_adapter get_quote build_execution_params
    Meets-prepare_params config tokens o = Meets-bind _ _ (Meets-ask _ p) λ state.
        Meets-bind _ _ (Meets-refuse_if _ _ p) λ u. Meets-bind _ _ (Meets-lifted _) λ token_in.
          Meets-bind _ _ (Meets-lifted _) λ token_out. Meets-environment _ (
            Meets-bind _ _ (Meets-lifted _) λ amount_in. Meets-bind _ _ (Meets-ask _ p) λ balance.
              Meets-bind _ _ (Meets-refuse_if _ _ p) λ v.
                Meets-bind _ _ (Meets-bind _ _ (Meets-quote_tiers _ _) λ quotes. Meets-lifted _)
                  λ quote. Meets-bind _ _ Meets-now λ now. Meets-lifted _)
