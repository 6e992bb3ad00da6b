-- ===== src/Scripts/Preflight.antt =====
-- contracts/script/preflight.ts, which every deployment runs first.
use synthetic_order_executor.Base.{
  ℕ, Bool, true, not, ◌&&◌, ◌||◌, Option, none, some, [], ◌++◌, Text, text, number_text, same_text,
  or_else, ltb, ◌==◌, if◌then◌else◌,
}
use synthetic_order_executor.Order.{Address}
use synthetic_order_executor.Effects.{
  M, Failure, Outcome, done, threw, pure, lift, refuse_if, ◌>>=◌, ◌>>◌, ask,
}
use synthetic_order_executor.Scripts.{
  Node, sepolia_chain_id, script_error, zero_address, absent, require_address_env,
  reject_placeholders, local_allowed, signer_of,
}

unfoldable pub forbidden_name : ℕ → Option Text
forbidden_name id =
    if id == 1
    then some (text "Ethereum Mainnet")
    else if id == 10
    then some (text "OP Mainnet")
    else if id == 56
    then some (text "BNB Smart Chain")
    else if id == 137
    then some (text "Polygon Mainnet")
    else if id == 8453
    then some (text "Base Mainnet")
    else if id == 42161
    then some (text "Arbitrum One")
    else if id == 43114
    then some (text "Avalanche C-Chain")
    else none

abbrev pub min_deployer_balance_wei : ℕ
min_deployer_balance_wei = 10000000000000000

pub record PreflightResult : Type 0 where
  pub chain_id : ℕ
  pub deployer : Address
  pub deployer_balance : ℕ
  pub swap_router : Address
  pub weth : Address
  pub admin : Address
  pub executor : Address
  pub executor_is_zero : Bool

module _ (node : Node) where
  wrong_network : ℕ → Failure
  unfolding script_error
  wrong_network id = script_error (
      text "Wrong network: RPC reports chain id "
      ++ (number_text id ++ text ", expected 11155111 (Sepolia). Check SEPOLIA_RPC_URL."))

  forbidden_error : ℕ → Text → Failure
  unfolding script_error
  forbidden_error id name = script_error (
      text "REFUSING TO PROCEED: RPC reports chain id "
      ++ (number_text id
          ++ (text " (" ++ (name ++ text "). This project deploys to Ethereum Sepolia only."))))

  abbrev not_forbidden : ℕ → Option Text → Outcome (Unit {0})
  not_forbidden id none = done tt
  not_forbidden id (some name) = threw (forbidden_error id name)

  unfoldable pub check_chain : ℕ → Outcome (Unit {0})
  unfolding forbidden_name local_allowed wrong_network forbidden_error
  check_chain id = elim (not_forbidden id (forbidden_name id)) [
    | done u ↦
        if not (id == sepolia_chain_id) && not (local_allowed node id)
        then threw (wrong_network id)
        else done tt
    | threw e ↦ threw e
  ]

  poor : ℕ → Failure
  unfolding script_error
  poor balance = script_error (
      text "Deployer balance "
      ++ (node.format_ether balance
          ++ (text " ETH is below the "
              ++ (node.format_ether min_deployer_balance_wei
                  ++ text " ETH minimum. Fund it from a Sepolia faucet."))))

  -- `!code || code === '0x'`
  unfoldable pub no_code : Option Text → Bool
  no_code code = absent code || same_text (or_else code []) (text "0x")

  unfoldable pub require_code : Text → Address → ℕ → M (Unit {0})
  unfolding script_error no_code
  require_code label address id = do
    code ← ask (λ env tick. node.get_code tick address)
    refuse_if (no_code code) (
        script_error (
          label
          ++ (text " has no bytecode on chain "
              ++ (number_text id ++ text ". Wrong address or wrong network."))))

  -- The admin that is configured, where the variable is set to a text that is not empty.
  unfoldable pub admin_of : Address → Outcome Address
  unfolding require_address_env
  admin_of deployer =
      if absent (node.variable (text "CONTRACT_ADMIN_ADDRESS"))
      then done deployer
      else require_address_env node (text "CONTRACT_ADMIN_ADDRESS")

  unfoldable pub preflight : M PreflightResult
  unfolding reject_placeholders check_chain signer_of poor require_address_env admin_of require_code
  preflight = do
    _ ← lift (reject_placeholders node)
    id ← ask (λ env tick. node.get_chain_id tick)
    _ ← lift (check_chain id)
    block ← ask (λ env tick. node.get_block_number tick)
    wallet ← ask (λ env tick. node.get_wallet tick)
    deployer ←
        lift (signer_of node (text "No signer available. Is DEPLOYER_PRIVATE_KEY set?") wallet)
    balance ← ask (λ env tick. node.get_balance tick deployer)
    refuse_if (ltb balance min_deployer_balance_wei) (poor balance)
    swap_router ← lift (require_address_env node (text "UNISWAP_SWAP_ROUTER_02"))
    weth ← lift (require_address_env node (text "WETH_ADDRESS"))
    admin ← lift (admin_of deployer)
    require_code (text "swapRouter") swap_router id
    require_code (text "weth") weth id
    pure (record {
      chain_id = id;
      deployer = deployer;
      deployer_balance = balance;
      swap_router = swap_router;
      weth = weth;
      admin = admin;
      executor = zero_address;
      executor_is_zero = true;
    })
