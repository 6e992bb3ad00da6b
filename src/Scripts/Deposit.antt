-- ===== src/Scripts/Deposit.antt =====
-- contracts/script/depositVault.ts.
use synthetic_order_executor.Base.{
  ℕ, ◌+◌, not, [], ◌++◌, Text, text, number_text, or_else, ltb, ◌==◌,
}
use synthetic_order_executor.Order.{Address}
use synthetic_order_executor.Effects.{M, Outcome, lift, refuse_if, ◌>>=◌, ◌>>◌, ask}
use synthetic_order_executor.Scripts.{
  Node, wrap, approve, deposit, sepolia_chain_id, script_error, signer_of, send,
}
use synthetic_order_executor.Scripts.Deploy.{DeploymentRecord}
use synthetic_order_executor.Scripts.Configure.{address_of}

-- 0.005 ETH, for gas
abbrev pub gas_reserve_wei : ℕ
gas_reserve_wei = 5000000000000000

module _ (node : Node) where
  insufficient_gas : ℕ → ℕ → Text
  insufficient_gas gas amount =
      text "Insufficient balance: have "
      ++ (node.format_ether gas
          ++ (text " ETH, need " ++ (node.format_ether amount ++ text " plus gas.")))

  -- The three writes, and the balance read back.
  unfoldable pub fund_vault : Address → Address → Address → ℕ → M (Unit {0})
  fund_vault me weth contract amount = do
    send node (text "WETH.deposit") (wrap weth amount)
    send node (text "WETH.approve") (approve weth contract amount)
    send node (text "executor.deposit") (deposit weth amount)
    vault_balance ← ask (λ env tick. node.vault_balance tick me weth)
    held ← ask (λ env tick. node.token_balance tick weth contract)
    refuse_if (ltb vault_balance amount) (
        script_error
          (text "Vault balance did not increase as expected. Investigate before proceeding."))

  unfoldable pub deposit_vault : Outcome DeploymentRecord → M (Unit {0})
  unfolding fund_vault insufficient_gas
  deposit_vault loaded = do
    id ← ask (λ env tick. node.get_chain_id tick)
    refuse_if (not (id == sepolia_chain_id)) (
        script_error
          (text "Refusing to run: chain id " ++ (number_text id ++ text " is not Sepolia.")))
    wallet ← ask (λ env tick. node.get_wallet tick)
    me ← lift (signer_of node (text "No signer available. Is DEPLOYER_PRIVATE_KEY set?") wallet)
    weth ← lift (address_of node (or_else (node.variable (text "WETH_ADDRESS")) []))
    deployment ← lift loaded
    amount ← lift (node.parse_ether (or_else (node.variable (text "DEPOSIT_ETH")) (text "0.02")))
    gas ← ask (λ env tick. node.get_balance tick me)
    refuse_if (ltb gas (amount + gas_reserve_wei)) (script_error (insufficient_gas gas amount))
    fund_vault me weth deployment.address amount
