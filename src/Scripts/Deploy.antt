-- ===== src/Scripts/Deploy.antt =====
-- contracts/script/deploy.ts.
use synthetic_order_executor.Base.{
  ℕ, suc, ◌+◌, ◌*◌, Bool, false, not, ◌&&◌, Option, none, some, List, [], ◌∷◌, ◌++◌, Text, text,
  number_text, same_text, to_lower, or_else, length, leb, ltb, ◌==◌, if◌then◌else◌,
}
use synthetic_order_executor.Order.{Hex, Address}
use synthetic_order_executor.Effects.{
  M, Outcome, done, threw, pure, lift, refuse_if, ◌>>=◌, ◌>>◌, ask, current_time,
}
use synthetic_order_executor.Scripts.{
  Node, Transaction, deploy_contract, allows_local, local_chain_id, sepolia_chain_id, zero_address,
  script_error, signer_of, absent, write_transaction,
}
use synthetic_order_executor.Scripts.Preflight.{PreflightResult, preflight}

-- The record that is written, without the constants that name the compiler.
pub record DeploymentRecord : Type 0 where
  pub contract_name : Text
  pub address : Address
  pub deployment_tx_hash : Hex
  pub block_number : ℕ
  pub network : Text
  pub chain_id : ℕ
  pub deployer : Address
  pub admin : Address
  pub executor : Address
  pub swap_router : Address
  pub weth : Address
  pub git_commit : Text
  pub deployed_at : ℕ
  pub bytecode_verified : Bool
  pub etherscan_verified : Bool

-- The text with the places from `low` on and before `high` set to '0', from place `i` on.
unfoldable pub zero_between : ℕ → ℕ → ℕ → Text → Text
zero_between low high i [] = []
zero_between low high i (c ∷ s) =
    (if leb low i && ltb i high then b'0' else c) ∷ zero_between low high (suc i) s

-- The slots of the immutable values, each with its start and length in bytes.
unfoldable pub zero_slots : List (ℕ × ℕ) → Text → Text
unfolding zero_between
zero_slots [] s = s
zero_slots ((start, size) ∷ refs) s =
    zero_slots refs (zero_between (start * 2) ((start + size) * 2) 0 s)

-- `replace(/^0x/, '')`
unfoldable pub drop_0x : Text → Text
drop_0x [] = []
drop_0x (c ∷ []) = c ∷ []
drop_0x (c ∷ d ∷ s) = if (c == b'0') && (d == b'x') then s else c ∷ d ∷ s

unfoldable pub mask : List (ℕ × ℕ) → Text → Text
unfolding zero_slots drop_0x
mask refs hex = zero_slots refs (drop_0x (to_lower hex))

unfoldable pub verify_bytecode : List (ℕ × ℕ) → Option Text → Text → Bool
unfolding mask
verify_bytecode refs on_chain artifact =
    if absent on_chain
    then false
    else if same_text (or_else on_chain []) (text "0x")
    then false
    else if not (length (mask refs (or_else on_chain [])) == length (mask refs artifact))
    then false
    else same_text (mask refs (or_else on_chain [])) (mask refs artifact)

abbrev contract_of : Option Address → Outcome Address
contract_of none = threw (script_error (text "Receipt contained no contract address."))
contract_of (some a) = done a

-- The artifact of the compiler: the deployed code and the slots of its immutable values.
pub record Artifact : Type 0 where
  pub deployed_bytecode : Text
  pub immutable_references : List (ℕ × ℕ)

module _ (node : Node) (artifact : Artifact) (git_commit : Text) where
  abbrev pub is_local_dry_run : ℕ → Bool
  is_local_dry_run id = (id == local_chain_id) && allows_local node

  abbrev pub constructor_transaction : PreflightResult → Transaction
  constructor_transaction pre = deploy_contract pre.swap_router pre.weth pre.admin zero_address

  -- What follows the broadcast.
  unfoldable pub record_deployment : PreflightResult → Hex → M DeploymentRecord
  unfolding verify_bytecode
  record_deployment pre hash = do
    receipt ← ask (λ env tick. node.wait_for_receipt tick hash)
    refuse_if (not receipt.is_success)
        (script_error (text "Deployment transaction reverted: " ++ number_text hash))
    address ← lift (contract_of receipt.contract_address)
    balance_after ← ask (λ env tick. node.get_balance tick pre.deployer)
    on_chain_code ← ask (λ env tick. node.get_code tick address)
    now ← current_time
    pure (record {
      contract_name = text "SyntheticOrderExecutor";
      address = address;
      deployment_tx_hash = hash;
      block_number = receipt.block_number;
      network = if is_local_dry_run pre.chain_id then text "localhost" else text "sepolia";
      chain_id = pre.chain_id;
      deployer = pre.deployer;
      admin = pre.admin;
      executor = zero_address;
      swap_router = pre.swap_router;
      weth = pre.weth;
      git_commit = git_commit;
      deployed_at = now;
      bytecode_verified =
          verify_bytecode artifact.immutable_references on_chain_code artifact.deployed_bytecode;
      etherscan_verified = false;
    })

  unfoldable pub deploy_after : PreflightResult → M DeploymentRecord
  unfolding record_deployment
  deploy_after pre = do
    refuse_if (not (pre.chain_id == sepolia_chain_id) && not (is_local_dry_run pre.chain_id)) (
        script_error (
          text "Refusing to deploy: chain id "
          ++ (number_text pre.chain_id ++ text " is not Sepolia.")))
    balance_before ← ask (λ env tick. node.get_balance tick pre.deployer)
    wallet ← ask (λ env tick. node.get_wallet tick)
    _ ← lift (signer_of node (text "No signer available.") wallet)
    hash ← write_transaction node (constructor_transaction pre)
    record_deployment pre hash

  unfoldable pub deploy : M DeploymentRecord
  unfolding deploy_after
  deploy = preflight node >>= deploy_after
