-- ===== src/Http/Start.antt =====
-- The start of the API, apps/backend/src/index.ts with apps/backend/src/blockchain/executor.ts, and
-- what is known of an API that has started.
use mathlib.Core.Path.{subst}
use synthetic_order_executor.Base.{ℕ, Option, none, some, Text, text, ◌≡◌, refl, ap, ◌∙◌}
use synthetic_order_executor.Effects.{Env, World, M, done, threw, Failure, pure, lift, ◌>>=◌, ◌>>◌}
use synthetic_order_executor.Effects.Ensures.{
  Ensures, IfDone, Ensures-bind, Ensures-lift, Ensures-pure,
}
use synthetic_order_executor.Execution.{ChainTokens}
use synthetic_order_executor.Price.Feeds.{ℤ, PriceSources}
use synthetic_order_executor.Config.{
  Parsing, Variables, ChainConfig, with_default, required, address_text, parse_chain_config,
  load_chain_config,
}
use synthetic_order_executor.Config.Api.{ApiEnv, parse_api_env, load_api_env, registry_tokens}
use synthetic_order_executor.Config.Ranges.{
  IfSome, Parses, Parses-bind, Parses-then, Parses-some, InRange, load_chain_config-InRange,
}
use synthetic_order_executor.Workers.{Startup, assert_chain}
use synthetic_order_executor.Workers.Ready.{assert_chain-Ensures}

pub record ApiStarted : Type 0 where
  pub env : ApiEnv
  pub chain : ChainConfig

module _ (outside : Startup) (sources : PriceSources) (zod : Parsing) (int : Text → Option ℤ)
    (vars : Variables) where
  -- `main`, up to the listener.
  unfoldable pub start_api : M ApiStarted
  start_api = do
    env ← lift (load_api_env zod int vars)
    chain ← lift (load_chain_config zod vars)
    assert_chain outside sources zod vars chain.chain_id
    pure (record { env = env; chain = chain })

-- What the environment of the API and the configuration of the chain have read of a variable.
module _ {A : Type 0} where
  Parses-read : (o : Option A) → Parses (λ a. o ≡ some a) o
  Parses-read none = record { at = tt }
  Parses-read (some a) = record { at = refl }

  read_same :
      (d a b : A) (schema : Text → Option A) (v : Option Text)
      → required schema v ≡ some a
      → with_default d schema v ≡ some b
      → a ≡ b
  read_same d a b schema none h k = cc
  read_same d a b schema (some t) h k = cc

abbrev ApiRead : Variables → ApiEnv → Type 0
ApiRead vars e =
    (required address_text (vars (text "EXECUTOR_CONTRACT_ADDRESS"))
      ≡ some e.executor_contract_address)
    × (required address_text (vars (text "WETH_ADDRESS")) ≡ some e.weth_address)
    × (required address_text (vars (text "USDC_ADDRESS")) ≡ some e.usdc_address)

abbrev ChainRead : Variables → ChainConfig → Type 0
ChainRead vars c =
    (required address_text (vars (text "EXECUTOR_CONTRACT_ADDRESS")) ≡ some c.executor_contract)
    × (with_default 0xfFf9976782d46CC05630D1f6eBAb18b2324d6B14 address_text
          (vars (text "WETH_ADDRESS"))
        ≡ some c.weth)
    × (with_default 0x1c7D4B196Cb0C7B01d743Fbc6116a902379C7238 address_text
          (vars (text "USDC_ADDRESS"))
        ≡ some c.usdc)

parse_api_env-ApiRead :
    (zod : Parsing) (int : Text → Option ℤ) (vars : Variables)
    → Parses (ApiRead vars) (parse_api_env zod int vars)
unfolding parse_api_env
parse_api_env-ApiRead zod int vars = Parses-then _ _ _ λ mode. Parses-then _ _ _ λ port.
    Parses-then _ _ _ λ level. Parses-then _ _ _ λ database. Parses-then _ _ _ λ id.
      Parses-then _ _ _ λ rpc_url. Parses-then _ _ _ λ second_url.
        Parses-bind _ _ _ _ (Parses-read _) λ contract c.
          Parses-bind _ _ _ _ (Parses-read _) λ weth w.
            Parses-bind _ _ _ _ (Parses-read _) λ usdc u. Parses-then _ _ _ λ slippage.
              Parses-then _ _ _ λ deadline.
                Parses-then _ _ _
                  λ fee. Parses-then _ _ _ λ provider. Parses-some (ApiRead vars) _ (c, w, u)

parse_chain_config-ChainRead :
    (zod : Parsing) (vars : Variables) → Parses (ChainRead vars) (parse_chain_config zod vars)
unfolding parse_chain_config
parse_chain_config-ChainRead zod vars = Parses-then _ _ _ λ id. Parses-then _ _ _ λ rpc_url.
    Parses-then _ _ _ λ second_url. Parses-bind _ _ _ _ (Parses-read _) λ contract c.
      Parses-then _ _ _ λ key. Parses-then _ _ _ λ router. Parses-then _ _ _ λ quoter.
        Parses-then _ _ _ λ factory. Parses-then _ _ _ λ tiers.
          Parses-bind _ _ _ _ (Parses-read _) λ weth w.
            Parses-bind _ _ _ _ (Parses-read _) λ usdc u. Parses-then _ _ _ λ slippage.
              Parses-then _ _ _
                λ deadline. Parses-then _ _ _ λ max_fee. Parses-some (ChainRead vars) _ (c, w, u)

loaded-ApiRead :
    (zod : Parsing) (int : Text → Option ℤ) (vars : Variables)
    → IfDone (ApiRead vars) (load_api_env zod int vars)
unfolding load_api_env
loaded-ApiRead zod int vars =
    go _ (parse_api_env zod int vars) (parse_api_env-ApiRead zod int vars).at
  where
    go :
        (f : Failure) (o : Option ApiEnv)
        → IfSome (ApiRead vars) o
        → IfDone (ApiRead vars) (elim o [ none ↦ threw f | some e ↦ done e ])
    go f none h = tt
    go f (some e) h = h

loaded-ChainRead :
    (zod : Parsing) (vars : Variables) → IfDone (ChainRead vars) (load_chain_config zod vars)
unfolding load_chain_config
loaded-ChainRead zod vars =
    go _ (parse_chain_config zod vars) (parse_chain_config-ChainRead zod vars).at
  where
    go :
        (f : Failure) (o : Option ChainConfig)
        → IfSome (ChainRead vars) o
        → IfDone (ChainRead vars) (elim o [ none ↦ threw f | some e ↦ done e ])
    go f none h = tt
    go f (some e) h = h

-- The tokens that the worker's configuration gives to its services.
abbrev pub chain_tokens : ChainConfig → ChainTokens
chain_tokens c = record { weth = c.weth; usdc = c.usdc }

module _ (outside : Startup) (sources : PriceSources) (zod : Parsing) (int : Text → Option ℤ)
    (vars : Variables) where
  abbrev pub Agrees : ApiStarted → Type 0
  Agrees s =
      ((tick : ℕ) × (outside.get_chain_id tick ≡ done 11155111))
      × (s.env.executor_contract_address ≡ s.chain.executor_contract)
      × (registry_tokens s.env ≡ chain_tokens s.chain)
      × (load_chain_config zod vars ≡ done s.chain)

  agree :
      (e : ApiEnv) (c : ChainConfig)
      → ApiRead vars e
      → ChainRead vars c
      → (e.executor_contract_address ≡ c.executor_contract) × (registry_tokens e ≡ chain_tokens c)
  agree e c (a₁, a₂, a₃) (c₁, c₂, c₃) =
      let weth =
        read_same _ e.weth_address c.weth address_text (vars (text "WETH_ADDRESS")) a₂ c₂ in
      let usdc =
        read_same _ e.usdc_address c.usdc address_text (vars (text "USDC_ADDRESS")) a₃ c₃ in
      (cc, rw (weth, usdc) refl)

  started-Agrees : (env : Env) → Ensures Agrees env (start_api outside sources zod int vars)
  unfolding start_api
  started-Agrees env = Ensures-bind _ _ _ _ (Ensures-lift (load_api_env zod int vars)) λ e loaded.
      Ensures-bind _ _ _ _ (Ensures-lift (load_chain_config zod vars)) λ chain configured.
        Ensures-bind _ _ _ _ (assert_chain-Ensures outside sources zod vars env chain.chain_id)
          λ u on_chain. Ensures-pure Agrees _ (
            let range =
              subst (IfDone (InRange zod vars)) configured (load_chain_config-InRange zod vars) in
            let same =
              agree e chain (subst (IfDone (ApiRead vars)) loaded (loaded-ApiRead zod int vars))
                (subst (IfDone (ChainRead vars)) configured (loaded-ChainRead zod vars)) in
            ((on_chain.0, on_chain.1 ∙ ap done range.0), same.0, same.1, configured))

  -- An API that starts has been told by the node that this is Sepolia, and its own variables name
  -- the contract and the tokens of the configuration that the worker reads from the same variables:
  -- the addresses that new orders are checked against are those that the worker trades with.
  pub start_api-Agrees :
      (env : Env) (w : World) → IfDone Agrees (start_api outside sources zod int vars env w).0
  start_api-Agrees env w = (started-Agrees env).at w
