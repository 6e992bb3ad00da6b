-- ===== src/Chain/Client.antt =====
-- packages/chain/src/contract/executorClient.ts, the methods that decide something: `simulate`,
-- `submit`. The read methods pass one call on to the node and are fields of the environment.
pub mod Submission
use synthetic_order_executor.Base.{ℕ, ◌*◌, Option, none, some, ◌∷◌, text, ltb, if◌then◌else◌}
use synthetic_order_executor.Order.{Hex, Address}
use synthetic_order_executor.Chain.{ExecutionParams, TransactionRequest}
use synthetic_order_executor.Effects.{
  M, broadcast, Failure, no_signer, pure, throw, ◌>>=◌, ◌>>◌, ask, environment,
}

-- The part of the `ChainConfig` and of the signer that `submit` reads.
pub record ClientConfig : Type 0 where
  pub address : Address
  pub signer : Option Address
  pub max_fee_per_gas_gwei : ℕ

-- `this.signer?.account.address ?? (await this.getState()).executor`
abbrev simulation_account : Option Address → M Address
simulation_account (some a) = pure a
simulation_account none = do state ← ask (λ env tick. env.get_state tick); pure state.executor

unfoldable pub simulate : ClientConfig → ExecutionParams → M ℕ
simulate config params = do
  account ← simulation_account config.signer
  ask (λ env tick. env.simulate tick account params)

-- parseGwei
abbrev gwei : ℕ
gwei = 1000000000

unfoldable pub capped_fee : ClientConfig → ℕ → ℕ
capped_fee config estimate =
    let cap = config.max_fee_per_gas_gwei * gwei in if ltb cap estimate then cap else estimate

unfoldable pub no_signer_error : Failure
no_signer_error = record {
  kind = no_signer;
  message = text "No executor key configured; this process cannot submit transactions";
}

-- A raw transaction is handed to the node whatever the node then answers.
unfoldable pub send : ℕ → M Hex
send raw env w =
    ask (λ e tick. e.send_raw tick raw) env (record w { calls = broadcast raw ∷ w.calls })

unfoldable pub build_request : ClientConfig → Address → ℕ → ℕ × ℕ → TransactionRequest
unfolding capped_fee
build_request config account input fees = record {
  account = account;
  to = config.address;
  input = input;
  max_fee_per_gas = capped_fee config fees.0;
  max_priority_fee_per_gas = fees.1;
}

submit_signed : ClientConfig → Address → ExecutionParams → (Hex → M (Unit {0})) → M Hex
unfolding simulate build_request send
submit_signed config account params on_signed = do
  _ ← simulate config params
  fees ← ask (λ env tick. env.estimate_fees tick)
  env ← environment
  request ← ask (λ env tick.
      env.prepare tick (build_request config account (env.encode_execute_swap params) fees))
  raw ← ask (λ env tick. env.sign request)
  on_signed (env.keccak256 raw)
  send raw

unfoldable pub submit : ClientConfig → ExecutionParams → (Hex → M (Unit {0})) → M Hex
unfolding submit_signed no_signer_error
submit config params on_signed = elim config.signer [
  | none ↦ throw no_signer_error
  | some account ↦ submit_signed config account params on_signed
]
