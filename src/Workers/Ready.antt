-- ===== src/Workers/Ready.antt =====
-- What is known of a worker that apps/worker/src/index.ts has started.
use mathlib.Core.Path.{subst}
use synthetic_order_executor.Base.{ℕ, false, not, ◌==◌, ◌≡◌, ap, ◌∙◌, arith}
use synthetic_order_executor.Chain.{ExecutorContractState}
use synthetic_order_executor.Effects.{Env, done, World}
use synthetic_order_executor.Effects.Ensures.{
  Ensures, IfDone, Ensures-then, Ensures-bind, Ensures-weaken, Ensures-ask, Ensures-lift,
  Ensures-refuse_if, Ensures-pure,
}
use synthetic_order_executor.Price.Feeds.{PriceSources}
use synthetic_order_executor.Price.Factory.{build_price_service}
use synthetic_order_executor.Price.Sources.{Independent, build_price_service-Independent}
use synthetic_order_executor.Config.{Parsing, Variables, load_chain_config}
use synthetic_order_executor.Config.Worker.{load_env}
use synthetic_order_executor.Config.Ranges.{
  InRange, Permitted, load_env-Permitted, load_chain_config-InRange,
}
use synthetic_order_executor.Workers.{
  Started, Startup, price_config, assert_chain, signer_from, start_worker,
}

module _ (outside : Startup) (sources : PriceSources) (zod : Parsing) (vars : Variables)
    (env : Env) where
  -- The node and the contract have answered for the configuration.
  abbrev pub Confirmed : Started → Type 0
  Confirmed s =
      ((tick : ℕ) × (outside.get_chain_id tick ≡ done s.chain.chain_id))
      × ((tick : ℕ) × (state : ExecutorContractState) × (env.get_state tick ≡ done state)
          × (state.executor ≡ s.signer))

  abbrev pub Ready : Started → Type 0
  Ready s =
      InRange zod vars s.chain
      × Permitted zod vars s.env
      × Confirmed s
      × (signer_from outside sources zod vars s.chain.executor_private_key ≡ done s.signer)
      × Independent (price_config s.env) (done s.prices)

  agreed : {expected : ℕ} (actual : ℕ) → not (actual == expected) ≡ false → actual ≡ expected
  agreed actual h = ground arith

  pub assert_chain-Ensures :
      (expected : ℕ)
      → Ensures
          (λ u. (tick : ℕ) × (outside.get_chain_id tick ≡ done expected))
          env
          (assert_chain outside sources zod vars expected)
  unfolding assert_chain
  assert_chain-Ensures expected = Ensures-bind _ _ _ _ (Ensures-ask _) λ actual read.
      Ensures-weaken _ _ _ (Ensures-refuse_if _ _)
        λ u same. (read.0, read.1 ∙ ap done (agreed actual same))

  started-Ready : Ensures Ready env (start_worker outside sources zod vars)
  unfolding start_worker
  started-Ready = Ensures-bind _ _ _ _ (Ensures-lift (load_env zod vars)) λ e loaded.
      Ensures-bind _ _ _ _ (Ensures-lift (load_chain_config zod vars)) λ chain configured.
        Ensures-bind _ _ _ _ (assert_chain-Ensures chain.chain_id) λ u₁ on_chain.
          Ensures-bind _ _ _ _ (Ensures-lift _) λ signer known.
            Ensures-bind _ _ _ _ (Ensures-ask _) λ state read.
              Ensures-bind _ _ _ _ (Ensures-refuse_if _ _) λ u₂ appointed.
                Ensures-bind _ _ _ _ (Ensures-lift (build_price_service sources (price_config e)))
                  λ prices built. Ensures-then _ _ _ λ u₃. Ensures-then _ _ _ λ u₄.
                    Ensures-then _ _ _ λ u₅. Ensures-pure Ready _ (
                      subst (IfDone (InRange zod vars)) configured
                          (load_chain_config-InRange zod vars),
                      subst (IfDone (Permitted zod vars)) loaded (load_env-Permitted zod vars),
                      (on_chain, (read.0, state, read.1, ground arith)),
                      known,
                      subst (Independent (price_config e)) built
                          (build_price_service-Independent sources (price_config e)),
                    )

  -- A worker that starts has its chain id, slippage and deadline in range, does not trade on a price
  -- that was typed in where that is production, has been told by the node that this is Sepolia and by
  -- the contract that its executor is the account of the key, and has a price service whose second
  -- source is another one and, asked, never throws.
  pub start_worker-Ready :
      (w : World) → IfDone Ready (start_worker outside sources zod vars env w).0
  start_worker-Ready w = started-Ready.at w
