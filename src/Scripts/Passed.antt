-- ===== src/Scripts/Passed.antt =====
-- What the preflight of contracts/script/preflight.ts has established when it returns.
use synthetic_order_executor.Base.{
  ℕ, true, false, not, ◌&&◌, Option, none, List, Text, text, ◌⊎◌, ◌≡◌, ◌≤◌, refl, arith, ◌==◌,
}
use synthetic_order_executor.Effects.{Env, done, Call}
use synthetic_order_executor.Effects.Ensures.{
  Ensures, Ensures-then, Ensures-bind, Ensures-weaken, Ensures-ask, Ensures-lift, Ensures-refuse_if,
  Ensures-pure,
}
use synthetic_order_executor.Order.{Address}
use synthetic_order_executor.Traces.{Preserves, preserves_rules}
use synthetic_order_executor.Scripts.{
  Node, sepolia_chain_id, local_chain_id, zero_address, local_allowed, allows_local,
}
use synthetic_order_executor.Scripts.Preflight.{
  PreflightResult, min_deployer_balance_wei, forbidden_name, check_chain, require_code, no_code,
  preflight,
}

module _ (node : Node) (env : Env) where
  pub preflight-Preserves : (P : List Call → Type 0) → Preserves P env (preflight node)
  unfolding preflight require_code
  preflight-Preserves P = search preserves_rules depth 40 fits 4000

-- Ethereum Sepolia, or the local chain where that is asked for.
abbrev pub Allowed : Node → ℕ → Type 0
Allowed node id = (id ≡ sepolia_chain_id) ⊎ ((id ≡ local_chain_id) × (allows_local node ≡ true))

pub local_allowed-Allowed :
    (node : Node) (id : ℕ)
    → (not (id == sepolia_chain_id) && not (local_allowed node id)) ≡ false
    → Allowed node id
unfolding local_allowed
local_allowed-Allowed node id h = ground arith

-- At some time the node has reported code at the address.
abbrev pub HasCode : Node → Address → Type 0
HasCode node a =
    (code : Option Text) × (tick : ℕ) × (node.get_code tick a ≡ done code)
    × (no_code node code ≡ false)

-- What a preflight has established when it returns: the chain id and the balance of the deployer are
-- those that the node has reported.
abbrev pub Passed : Node → PreflightResult → Type 0
Passed node r =
    ((tick : ℕ) × (node.get_chain_id tick ≡ done r.chain_id))
    × ((tick : ℕ) × (node.get_balance tick r.deployer ≡ done r.deployer_balance))
    × Allowed node r.chain_id
    × (forbidden_name r.chain_id ≡ none)
    × (min_deployer_balance_wei ≤ r.deployer_balance)
    × (r.executor ≡ zero_address)
    × HasCode node r.swap_router
    × HasCode node r.weth

module _ (node : Node) (env : Env) where
  require_code-HasCode :
      (label : Text) (a : Address) (id : ℕ)
      → Ensures (λ u. HasCode node a) env (require_code node label a id)
  unfolding require_code
  require_code-HasCode label a id = Ensures-bind _ _ _ _ (Ensures-ask _) λ code read.
      Ensures-weaken _ _ _ (Ensures-refuse_if _ _) λ u found. (code, read.0, read.1, found)

  check_chain-Allowed :
      (id : ℕ) → check_chain node id ≡ done tt → (Allowed node id) × (forbidden_name id ≡ none)
  unfolding check_chain
  check_chain-Allowed id h = (ground arith, ground arith)

  pub preflight-Passed : Ensures (Passed node) env (preflight node)
  unfolding preflight
  preflight-Passed = Ensures-then _ _ _ λ u₁. Ensures-bind _ _ _ _ (Ensures-ask _) λ id told.
      Ensures-bind _ _ _ _ (Ensures-lift (check_chain node id)) λ u₂ chain.
        Ensures-then _ _ _ λ block. Ensures-then _ _ _ λ wallet. Ensures-then _ _ _ λ deployer.
          Ensures-bind _ _ _ _ (Ensures-ask _) λ balance owned.
            Ensures-bind _ _ _ _ (Ensures-refuse_if _ _) λ u₃ rich.
              Ensures-then _ _ _ λ swap_router. Ensures-then _ _ _ λ weth.
                Ensures-then _ _ _ λ admin.
                  Ensures-bind _ _ _ _ (require_code-HasCode (text "swapRouter") swap_router id)
                    λ u₄ router_code.
                      Ensures-bind _ _ _ _ (require_code-HasCode (text "weth") weth id)
                        λ u₅ weth_code.
                          let passed = check_chain-Allowed id chain in
                          Ensures-pure _ _ (
                            told,
                            owned,
                            passed.0,
                            passed.1,
                            ground arith,
                            refl,
                            router_code,
                            weth_code,
                          )
