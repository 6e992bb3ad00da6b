-- ===== src/Scripts/Configure.antt =====
-- contracts/script/configure.ts.
use synthetic_order_executor.Base.{
  ℕ, suc, Bool, true, false, not, ◌&&◌, List, [], ◌∷◌, ◌++◌, Text, text, number_text, same_text,
  trim, or_else, ◌==◌, if◌then◌else◌,
}
use synthetic_order_executor.Order.{Address}
use synthetic_order_executor.Effects.{
  M, Outcome, done, threw, pure, lift, refuse_if, ◌>>=◌, ◌>>◌, ask,
}
use synthetic_order_executor.Scripts.{
  Node, set_token_allowed, set_executor, local_allowed, sepolia_chain_id, zero_key, script_error,
  signer_of, send,
}
use synthetic_order_executor.Scripts.Deploy.{DeploymentRecord}

-- A write that is skipped where the chain holds the value.
abbrev pub unless : Bool → M (Unit {0}) → M (Unit {0})
unless true m = pure tt
unless false m = m

module _ (node : Node) where
  abbrev from_key : Text → Outcome Address
  from_key [] = threw (script_error (text "Set EXECUTOR_ADDRESS or EXECUTOR_PRIVATE_KEY"))
  from_key (c ∷ key) =
      if same_text (c ∷ key) zero_key
      then threw (script_error (text "EXECUTOR_PRIVATE_KEY is still the .env.example placeholder"))
      else node.key_address (c ∷ key)

  abbrev explicit_or_key : Text → Outcome Address
  explicit_or_key [] = from_key (trim (or_else (node.variable (text "EXECUTOR_PRIVATE_KEY")) []))
  explicit_or_key (c ∷ explicit) =
      if not (node.is_address (c ∷ explicit))
      then threw (script_error (text "EXECUTOR_ADDRESS is not a valid address"))
      else done (node.get_address (c ∷ explicit))

  unfoldable pub resolve_executor_address : Outcome Address
  resolve_executor_address =
      explicit_or_key (trim (or_else (node.variable (text "EXECUTOR_ADDRESS")) []))

  -- One turn of the loop over the tokens: the write is skipped where the chain holds the value.
  unfoldable pub allow_token : Text → Address → ℕ → M (Unit {0})
  allow_token symbol token limit = do
    allowed ← ask (λ env tick. node.allowed_token tick token)
    current ← ask (λ env tick. node.max_trade_amount tick token)
    unless (allowed && (current == limit)) (
        send node (text "setTokenAllowed(" ++ (symbol ++ text ")")) (set_token_allowed token limit))

  unfoldable pub appoint : Address → M (Unit {0})
  appoint executor = do
    current ← ask (λ env tick. node.executor tick)
    unless (current == executor) (send node (text "setExecutor") (set_executor executor))

  -- The number of read-backs that differ.
  abbrev failures : List Bool → ℕ
  failures [] = 0
  failures (true ∷ checks) = failures checks
  failures (false ∷ checks) = suc (failures checks)

  -- `if (failed > 0) throw`
  abbrev pub assert_all : List Bool → M (Unit {0})
  assert_all checks = refuse_if (not (failures checks == 0)) (
      script_error (
        number_text (failures checks)
        ++ text " configuration assertion(s) failed. Do NOT use this deployment."))

  unfoldable pub read_back : Address → Address → ℕ → ℕ → Address → Address → Address → M (List Bool)
  read_back weth usdc max_weth max_usdc executor deployer admin = do
    weth_allowed ← ask (λ env tick. node.allowed_token tick weth)
    usdc_allowed ← ask (λ env tick. node.allowed_token tick usdc)
    weth_cap ← ask (λ env tick. node.max_trade_amount tick weth)
    usdc_cap ← ask (λ env tick. node.max_trade_amount tick usdc)
    appointed ← ask (λ env tick. node.executor tick)
    executor_role ← ask (λ env tick. node.executor_role tick)
    admin_role ← ask (λ env tick. node.admin_role tick)
    holds ← ask (λ env tick. node.has_role tick executor_role executor)
    deployer_holds ← ask (λ env tick. node.has_role tick executor_role deployer)
    admin_holds ← ask (λ env tick. node.has_role tick admin_role admin)
    is_paused ← ask (λ env tick. node.paused tick)
    pure (
        weth_allowed
        ∷ usdc_allowed
        ∷ (weth_cap == max_weth)
        ∷ (usdc_cap == max_usdc)
        ∷ (appointed == executor)
        ∷ holds
        ∷ not deployer_holds
        ∷ admin_holds
        ∷ not is_paused
        ∷ [])

  -- `process.env.WETH_ADDRESS!`; a text that is no address makes `getAddress` throw.
  abbrev pub address_of : Text → Outcome Address
  address_of value =
      if node.is_address value
      then done (node.get_address value)
      else threw (script_error (text "invalid address"))

  -- The writes and the assertions, once the parameters are known; what is written back is the
  -- record with the executor.
  unfoldable pub apply_configuration :
      DeploymentRecord → Address → Address → Address → ℕ → ℕ → Address → M DeploymentRecord
  unfolding allow_token appoint read_back
  apply_configuration deployment admin weth usdc max_weth max_usdc executor = do
    allow_token (text "WETH") weth max_weth
    allow_token (text "USDC") usdc max_usdc
    appoint executor
    checks ← read_back weth usdc max_weth max_usdc executor admin deployment.admin
    assert_all checks
    pure (record deployment { executor = executor })

  unfoldable pub configure : Outcome DeploymentRecord → M DeploymentRecord
  unfolding apply_configuration resolve_executor_address
  configure loaded = do
    id ← ask (λ env tick. node.get_chain_id tick)
    refuse_if (not (id == sepolia_chain_id) && not (local_allowed node id)) (
        script_error
          (text "Refusing to configure: chain id " ++ (number_text id ++ text " is not Sepolia.")))
    deployment ← lift loaded
    wallet ← ask (λ env tick. node.get_wallet tick)
    admin ← lift (signer_of node (text "No signer available.") wallet)
    weth ← lift (address_of (or_else (node.variable (text "WETH_ADDRESS")) []))
    usdc ← lift (address_of (or_else (node.variable (text "USDC_ADDRESS")) []))
    max_weth ← lift (
        node.parse_big_int
          (or_else (node.variable (text "MAX_TRADE_SIZE_WETH")) (text "1000000000000000000")))
    max_usdc ← lift (
        node.parse_big_int
          (or_else (node.variable (text "MAX_TRADE_SIZE_USDC")) (text "5000000000")))
    executor ← lift resolve_executor_address
    apply_configuration deployment admin weth usdc max_weth max_usdc executor
