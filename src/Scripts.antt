-- ===== src/Scripts.antt =====
-- What the scripts of contracts/script share: the node they talk to, the variables they read
-- (contracts/script/preflight.ts), and the transactions they send.
pub mod Preflight
pub mod Deploy
pub mod Configure
pub mod Deposit
pub mod Passed
pub mod Guarded
use synthetic_order_executor.Base.{
  ℕ, suc, ◌+◌, Bool, true, false, not, ◌&&◌, ◌||◌, Option, none, some, List, [], ◌∷◌, ◌++◌, Text,
  text, number_text, same_text, contains, trim, replicate, or_else, is_some, ltb, ◌==◌,
  if◌then◌else◌,
}
use synthetic_order_executor.Order.{Hex, Address}
use synthetic_order_executor.Effects.{
  Env, World, M, Failure, ErrorKind, other, Outcome, done, threw, broadcast, pure, throw, lift,
  refuse_if, ◌>>=◌, ◌>>◌, ask,
}

-- What the scripts have the signer send.
pub data Transaction : Type 0 where
  deploy_contract : Address → Address → Address → Address → Transaction
  set_token_allowed : Address → ℕ → Transaction
  set_executor : Address → Transaction
  wrap : Address → ℕ → Transaction
  approve : Address → Address → ℕ → Transaction
  deposit : Address → ℕ → Transaction

pub record ScriptReceipt : Type 0 where
  pub is_success : Bool
  pub contract_address : Option Address
  pub block_number : ℕ

-- The variables of the process, the node and the contract through Hardhat and viem, and functions of
-- viem on texts. Replies may differ from tick to tick.
pub record Node : Type 0 where
  pub variable : Text → Option Text
  pub is_address : Text → Bool
  pub get_address : Text → Address
  pub parse_ether : Text → Outcome ℕ
  pub parse_big_int : Text → Outcome ℕ
  pub key_address : Text → Outcome Address
  pub format_ether : ℕ → Text
  pub encode : Transaction → ℕ
  pub get_chain_id : ℕ → Outcome ℕ
  pub get_block_number : ℕ → Outcome ℕ
  -- the first wallet client, if there is one
  pub get_wallet : ℕ → Outcome (Option Address)
  pub get_balance : ℕ → Address → Outcome ℕ
  pub get_code : ℕ → Address → Outcome (Option Text)
  pub write : ℕ → Transaction → Outcome Hex
  pub wait_for_receipt : ℕ → Hex → Outcome ScriptReceipt
  -- reads of the contract and of WETH
  pub allowed_token : ℕ → Address → Outcome Bool
  pub max_trade_amount : ℕ → Address → Outcome ℕ
  pub executor : ℕ → Outcome Address
  pub executor_role : ℕ → Outcome Hex
  pub admin_role : ℕ → Outcome Hex
  pub has_role : ℕ → Hex → Address → Outcome Bool
  pub paused : ℕ → Outcome Bool
  pub vault_balance : ℕ → Address → Address → Outcome ℕ
  pub token_balance : ℕ → Address → Address → Outcome ℕ

abbrev pub sepolia_chain_id : ℕ
sepolia_chain_id = 11155111

abbrev pub local_chain_id : ℕ
local_chain_id = 31337

unfoldable pub script_error : Text → Failure
script_error message = record { kind = other; message = message }

abbrev pub zero_address : Address
zero_address = 0

-- `0x` and 64 zeros: the key of .env.example
abbrev pub zero_key : Text
zero_key = b'0' ∷ b'x' ∷ replicate 64 b'0'

abbrev pub absent : Option Text → Bool
absent none = true
absent (some []) = true
absent (some (c ∷ s)) = false

module _ (node : Node) where
  abbrev required : Text → Text → Outcome Text
  required name [] = threw (script_error (text "Missing required environment variable: " ++ name))
  required name (c ∷ s) = done (c ∷ s)

  -- `value.trim()`, which is not empty; an absent value is as an empty one.
  unfoldable pub require_env : Text → Outcome Text
  unfolding script_error trim
  require_env name = required name (trim (or_else (node.variable name) []))

  abbrev checked_address : Text → Outcome Text → Outcome Address
  checked_address name (threw e) = threw e
  checked_address name (done value) =
      if node.is_address value
      then done (node.get_address value)
      else threw (script_error (name ++ (text " is not a valid EVM address: " ++ value)))

  unfoldable pub require_address_env : Text → Outcome Address
  unfolding require_env
  require_address_env name = checked_address name (require_env name)

  abbrev is_zero_key : Option Text → Bool
  is_zero_key none = false
  is_zero_key (some key) = same_text (trim key) zero_key

  unfoldable pub reject_placeholders : Outcome (Unit {0})
  unfolding script_error
  reject_placeholders =
      let rpc = or_else (node.variable (text "SEPOLIA_RPC_URL")) [] in
      if is_zero_key (node.variable (text "DEPLOYER_PRIVATE_KEY"))
      then threw (script_error (text "DEPLOYER_PRIVATE_KEY is still the .env.example placeholder"))
      else if contains (text "YOUR_INFURA_KEY") rpc || contains (text "YOUR_") rpc
      then threw (script_error (text "SEPOLIA_RPC_URL still contains a .env.example placeholder"))
      else done tt

  -- `process.env.ALLOW_LOCAL_DEPLOY === '1'`
  unfoldable pub allows_local : Bool
  allows_local = same_text (or_else (node.variable (text "ALLOW_LOCAL_DEPLOY")) []) (text "1")

  unfoldable pub local_allowed : ℕ → Bool
  unfolding allows_local
  local_allowed id = (id == local_chain_id) && allows_local

  unfoldable pub signer_of : Text → Option Address → Outcome Address
  unfolding script_error
  signer_of message none = threw (script_error message)
  signer_of message (some a) = done a

  -- A write: the transaction is handed to the node, which gives its hash or throws.
  unfoldable pub write_transaction : Transaction → M Hex
  unfolding ask
  write_transaction tx env w =
      ask (λ e tick. node.write tick tx) env
        (record w { calls = broadcast (node.encode tx) ∷ w.calls })

  -- `send`: a write and its receipt.
  unfoldable pub send : Text → Transaction → M (Unit {0})
  unfolding write_transaction script_error
  send label tx = do
    hash ← write_transaction tx
    receipt ← ask (λ env tick. node.wait_for_receipt tick hash)
    refuse_if (not receipt.is_success)
        (script_error (label ++ (text " reverted (tx " ++ (number_text hash ++ text ")"))))
