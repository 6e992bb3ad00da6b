-- ===== src/Vault.antt =====
-- The state of contracts/src/SyntheticOrderExecutor.sol, and the language of its functions. What it
-- takes from OpenZeppelin, the tokens and the router are parameters.
pub mod Functions
pub mod Messages
pub mod Keeps
pub mod Frame
pub mod Accounts
pub mod Replay
pub mod Leaves
pub mod Shifts
pub mod Safe
pub mod Solvency
pub mod Withdrawals
use synthetic_order_executor.Base.{
  ℕ, ◌+◌, ◌-◌, ◌^◌, Bool, true, false, ◌||◌, Option, none, some, List, [], ◌∷◌, ltb, leb, ◌==◌,
  if◌then◌else◌,
}
use synthetic_order_executor.Order.{Hex, Address}
use synthetic_order_executor.Chain.{ExecutionParams}

pub data Role : Type 0 where
  default_admin_role executor_role pauser_role : Role

abbrev pub Roles : Type 0
Roles = Role → Address → Bool

pub data VaultError : Type 0 where
  zero_address zero_amount identical_tokens invalid_execution_id : VaultError
  nothing_to_sweep eth_transfer_failed direct_eth_not_accepted : VaultError
  token_not_allowed : Address → VaultError
  execution_already_processed : Hex → VaultError
  trade_too_large insufficient_balance deadline_expired slippage_exceeded : ℕ → ℕ → VaultError
  -- of OpenZeppelin, of checked arithmetic, and of a call that reverts
  missing_role : Role → Address → VaultError
  not_permitted overflow call_failed : VaultError

pub data Event : Type 0 where
  swap_executed : Address → ExecutionParams → ℕ → Event
  executor_updated : Address → Address → Event
  token_allowed : Address → ℕ → Event
  token_removed : Address → Event
  max_trade_amount_updated : Address → ℕ → ℕ → Event
  deposited withdrawn : Address → Address → ℕ → Event
  unaccounted_swept : Address → Address → ℕ → Event

pub record Vault : Type 0 where
  pub swap_router : Address
  pub weth : Address
  pub balances : Address → Address → ℕ
  pub total_accounted : Address → ℕ
  pub allowed_token : Address → Bool
  pub max_trade_amount : Address → ℕ
  pub executed_ids : Hex → Bool
  pub executor : Address
  -- AccessControl, Pausable and ReentrancyGuard
  pub roles : Roles
  pub is_paused : Bool
  pub is_entered : Bool
  -- `IERC20(token).balanceOf(address(this))`
  pub held : Address → ℕ
  -- the last that was emitted first
  pub events : List Event

-- OpenZeppelin; `none` where it reverts.
pub record OpenZeppelin : Type 0 where
  pub grant_role : Role → Address → Roles → Roles
  pub revoke_role : Role → Address → Roles → Roles
  pub pause : Bool → Option Bool
  pub unpause : Bool → Option Bool
  pub enter : Bool → Option Bool
  pub leave : Bool → Bool

-- What is sent to the contract. `change_roles` stands for the functions that it inherits from
-- AccessControl: they may leave any roles.
pub data Message : Type 0 where
  deposit withdraw : Address → ℕ → Message
  deposit_eth withdraw_eth : ℕ → Message
  execute_swap : ExecutionParams → Message
  set_executor remove_token : Address → Message
  set_token_allowed set_max_trade_amount : Address → ℕ → Message
  pause unpause : Message
  sweep_unaccounted : Address → Address → Message
  receive_eth : Message
  change_roles : Roles → Message

-- What the contract calls: tokens, WETH, an account that is sent ETH, the router.
pub data Interaction : Type 0 where
  safe_transfer_from safe_transfer force_approve : Address → Address → ℕ → Interaction
  weth_deposit weth_withdraw : ℕ → Interaction
  send_eth : Address → ℕ → Interaction
  exact_input_single : ExecutionParams → Interaction

-- A call that succeeds gives a value and moves tokens of the contract; before and after it does, it
-- may call back.
pub record Reply : Type 0 where
  pub value : ℕ
  pub before : List (Address × Message)
  pub move : (Address → ℕ) → Address → ℕ
  pub after : List (Address × Message)

pub record Outside : Type 0 where
  pub timestamp : ℕ
  pub answer : Interaction → Vault → Option Reply

-- A function returns, with the state it leaves, or reverts.
pub data Result (A : Type 0) : Type 0 where
  returned : A → Vault → Result A
  reverted : VaultError → Result A

abbrev pub Function : Type 0 → Type 0
Function A = Vault → Result A

module _ {A : Type 0} where
  unfoldable pub pure : A → Function A
  pure a v = returned a v

  unfoldable pub revert : VaultError → Function A
  revert e v = reverted e

module _ {A B : Type 0} where
  abbrev pub continue : (A → Function B) → Result A → Result B
  continue f (returned a v) = f a v
  continue f (reverted e) = reverted e

  infixl 5 ◌>>=◌
  unfoldable pub ◌>>=◌ : Function A → (A → Function B) → Function B
  ◌>>=◌ m f v = continue f (m v)

infixl 5 ◌>>◌
abbrev pub ◌>>◌ : {B : Type 0} → Function (Unit {0}) → Function B → Function B
m >> k = m >>= λ _. k

unfoldable pub get : Function Vault
get v = returned v v

unfoldable pub modify : (Vault → Vault) → Function (Unit {0})
modify f v = returned tt (f v)

-- if (b) revert e
unfoldable pub revert_if : Bool → VaultError → Function (Unit {0})
revert_if true e v = reverted e
revert_if false e v = returned tt v

unfoldable pub emit : Event → Function (Unit {0})
unfolding modify
emit e = modify (λ v. record v { events = e ∷ v.events })

-- A mapping after a write at one key.
abbrev pub set_at {ℓ} : {A : Type ℓ} → (ℕ → A) → ℕ → A → ℕ → A
set_at f k a i = if i == k then a else f i

unfoldable pub uint256_limit : ℕ
uint256_limit = 2 ^ 256

unfoldable pub checked_sub : ℕ → ℕ → Function ℕ
unfolding pure revert
checked_sub a b = if ltb a b then revert overflow else pure (a - b)

abbrev pub with_balance : Address → Address → ℕ → ℕ → Vault → Vault
with_balance user token balance total v = record v {
  balances = set_at v.balances user (set_at (v.balances user) token balance);
  total_accounted = set_at v.total_accounted token total;
}

-- balances[user][token] += n; totalAccounted[token] += n
unfoldable pub credit : Address → Address → ℕ → Function (Unit {0})
unfolding uint256_limit
credit user token n v =
    let balance = v.balances user token + n in
    let total = v.total_accounted token + n in
    if leb uint256_limit balance || leb uint256_limit total
    then reverted overflow
    else returned tt (with_balance user token balance total v)

-- balances[user][token] -= n; totalAccounted[token] -= n
unfoldable pub debit : Address → Address → ℕ → Function (Unit {0})
debit user token n v =
    if ltb (v.balances user token) n || ltb (v.total_accounted token) n
    then reverted overflow
    else returned tt
        (with_balance user token (v.balances user token - n) (v.total_accounted token - n) v)
