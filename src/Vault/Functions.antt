-- ===== src/Vault/Functions.antt =====
-- The functions of contracts/src/SyntheticOrderExecutor.sol, in the order of the source. `call` is a
-- call of another contract, which may call back.
use synthetic_order_executor.Base.{
  ℕ, ◌-◌, Bool, true, false, not, Option, none, some, ltb, ◌==◌, if◌then◌else◌,
}
use synthetic_order_executor.Order.{Hex, Address}
use synthetic_order_executor.Chain.{ExecutionParams}
use synthetic_order_executor.Vault.{
  Role, default_admin_role, executor_role, pauser_role, zero_address, zero_amount, identical_tokens,
  invalid_execution_id, nothing_to_sweep, direct_eth_not_accepted, token_not_allowed,
  execution_already_processed, trade_too_large, insufficient_balance, deadline_expired,
  slippage_exceeded, missing_role, not_permitted, swap_executed, executor_updated, token_allowed,
  token_removed, max_trade_amount_updated, deposited, withdrawn, unaccounted_swept, Vault,
  OpenZeppelin, Interaction, safe_transfer_from, safe_transfer, force_approve, weth_deposit,
  weth_withdraw, send_eth, exact_input_single, Function, pure, revert, ◌>>=◌, ◌>>◌, get, modify,
  revert_if, emit, set_at, checked_sub, credit, debit,
}

-- onlyRole(role)
unfoldable pub only_role : Role → Address → Function (Unit {0})
only_role role sender = do v ← get; revert_if (not (v.roles role sender)) (missing_role role sender)

unfoldable pub when_not_paused : Function (Unit {0})
when_not_paused = do v ← get; revert_if v.is_paused not_permitted

abbrev pub set_entered : Option Bool → Function (Unit {0})
set_entered none = revert not_permitted
set_entered (some b) = modify (λ v. record v { is_entered = b })

abbrev pub set_paused : Option Bool → Function (Unit {0})
set_paused none = revert not_permitted
set_paused (some b) = modify (λ v. record v { is_paused = b })

unfoldable pub allowed : Address → Function (Unit {0})
allowed token = do v ← get; revert_if (not (v.allowed_token token)) (token_not_allowed token)

unfoldable pub mark_executed : Hex → Function (Unit {0})
mark_executed id = modify (λ v. record v { executed_ids = set_at v.executed_ids id true })

unfoldable pub unaccounted_balance : Address → Vault → ℕ
unaccounted_balance token v =
    let held = v.held token in
    let owed = v.total_accounted token in if ltb owed held then held - owed else 0

-- The balance is tested, then debited.
unfoldable pub take : Address → Address → ℕ → Function (Unit {0})
take user token amount = do
  v ← get
  revert_if (ltb (v.balances user token) amount)
      (insufficient_balance (v.balances user token) amount)
  debit user token amount

-- `receive`
unfoldable pub receive : Address → Function (Unit {0})
receive sender = do v ← get; revert_if (not (sender == v.weth)) direct_eth_not_accepted

-- The checks of `executeSwap`.
unfoldable pub check_swap : ℕ → ExecutionParams → Function (Unit {0})
unfolding allowed
check_swap timestamp params = do
  v ← get
  revert_if (params.execution_id == 0) invalid_execution_id
  revert_if (v.executed_ids params.execution_id) (execution_already_processed params.execution_id)
  revert_if (ltb params.deadline timestamp) (deadline_expired params.deadline timestamp)
  revert_if (params.owner == 0) zero_address
  revert_if (params.token_in == params.token_out) identical_tokens
  allowed params.token_in
  allowed params.token_out
  revert_if (params.amount_in == 0) zero_amount
  revert_if (ltb (v.max_trade_amount params.token_in) params.amount_in)
      (trade_too_large params.amount_in (v.max_trade_amount params.token_in))
  revert_if (ltb (v.balances params.owner params.token_in) params.amount_in)
      (insufficient_balance (v.balances params.owner params.token_in) params.amount_in)

-- `isExecuted`, `getBalance`
unfoldable pub is_executed : Hex → Vault → Bool
is_executed id v = v.executed_ids id

unfoldable pub get_balance : Address → Address → Vault → ℕ
get_balance user token v = v.balances user token

module _ (call : Interaction → Function ℕ) where
  -- `_swapExactInputSingle`
  unfoldable pub swap_exact_input_single : ExecutionParams → Function ℕ
  swap_exact_input_single params = do
    v ← get
    _ ← call (force_approve params.token_in v.swap_router params.amount_in)
    amount_out ← call (exact_input_single params)
    _ ← call (force_approve params.token_in v.swap_router 0)
    pure amount_out

  -- The effects of a swap and its interactions.
  unfoldable pub swap_funds : ExecutionParams → Function ℕ
  unfolding mark_executed swap_exact_input_single
  swap_funds params = do
    mark_executed params.execution_id
    debit params.owner params.token_in params.amount_in
    amount_out ← swap_exact_input_single params
    revert_if (ltb amount_out params.min_amount_out)
        (slippage_exceeded amount_out params.min_amount_out)
    credit params.owner params.token_out amount_out
    pure amount_out

  unfoldable pub execute_swap_body : ℕ → Address → ExecutionParams → Function ℕ
  unfolding check_swap swap_funds
  execute_swap_body timestamp sender params = do
    check_swap timestamp params
    amount_out ← swap_funds params
    emit (swap_executed sender params amount_out)
    pure amount_out

module _ (oz : OpenZeppelin) where
  -- nonReentrant
  unfoldable pub non_reentrant : {A : Type 0} → Function A → Function A
  non_reentrant body = do
    v ← get
    set_entered (oz.enter v.is_entered)
    a ← body
    modify (λ w. record w { is_entered = oz.leave w.is_entered })
    pure a

  unfoldable pub grant_role : Role → Address → Function (Unit {0})
  grant_role role account = modify (λ v. record v { roles = oz.grant_role role account v.roles })

  unfoldable pub revoke_role : Role → Address → Function (Unit {0})
  revoke_role role account = modify (λ v. record v { roles = oz.revoke_role role account v.roles })

  -- The branch on whether there is an executor to revoke, or to appoint.
  unfoldable pub replace_executor : Address → Address → Function (Unit {0})
  unfolding grant_role revoke_role
  replace_executor previous new_executor = do
    if previous == 0 then pure tt else revoke_role executor_role previous
    modify (λ v. record v { executor = new_executor })
    if new_executor == 0 then pure tt else grant_role executor_role new_executor
    emit (executor_updated previous new_executor)

  unfoldable pub set_executor : Address → Address → Function (Unit {0})
  unfolding only_role
  set_executor sender new_executor = do
    only_role default_admin_role sender
    v ← get
    if v.executor == new_executor then pure tt else replace_executor v.executor new_executor

  unfoldable pub set_token_allowed : Address → Address → ℕ → Function (Unit {0})
  unfolding only_role
  set_token_allowed sender token max_amount = do
    only_role default_admin_role sender
    revert_if (token == 0) zero_address
    revert_if (max_amount == 0) zero_amount
    modify (λ v. record v {
      allowed_token = set_at v.allowed_token token true;
      max_trade_amount = set_at v.max_trade_amount token max_amount;
    })
    emit (token_allowed token max_amount)

  unfoldable pub remove_token : Address → Address → Function (Unit {0})
  unfolding only_role allowed
  remove_token sender token = do
    only_role default_admin_role sender
    allowed token
    modify (λ v. record v {
      allowed_token = set_at v.allowed_token token false;
      max_trade_amount = set_at v.max_trade_amount token 0;
    })
    emit (token_removed token)

  unfoldable pub set_max_trade_amount : Address → Address → ℕ → Function (Unit {0})
  unfolding only_role allowed
  set_max_trade_amount sender token new_amount = do
    only_role default_admin_role sender
    allowed token
    revert_if (new_amount == 0) zero_amount
    v ← get
    modify (λ w. record w { max_trade_amount = set_at w.max_trade_amount token new_amount })
    emit (max_trade_amount_updated token (v.max_trade_amount token) new_amount)

  unfoldable pub pause : Address → Function (Unit {0})
  unfolding only_role
  pause sender = do only_role pauser_role sender; v ← get; set_paused (oz.pause v.is_paused)

  unfoldable pub unpause : Address → Function (Unit {0})
  unfolding only_role
  unpause sender = do
    only_role default_admin_role sender
    v ← get
    set_paused (oz.unpause v.is_paused)

  module _ (call : Interaction → Function ℕ) where
    unfoldable pub deposit_body : Address → Address → ℕ → Function (Unit {0})
    unfolding allowed
    deposit_body sender token amount = do
      allowed token
      revert_if (amount == 0) zero_amount
      v ← get
      _ ← call (safe_transfer_from token sender amount)
      w ← get
      received ← checked_sub (w.held token) (v.held token)
      revert_if (received == 0) zero_amount
      credit sender token received
      emit (deposited sender token received)

    unfoldable pub deposit : Address → Address → ℕ → Function (Unit {0})
    unfolding deposit_body
    deposit sender token amount = do
      when_not_paused
      non_reentrant (deposit_body sender token amount)

    unfoldable pub deposit_eth_body : Address → ℕ → Function (Unit {0})
    unfolding allowed
    deposit_eth_body sender value = do
      revert_if (value == 0) zero_amount
      v ← get
      allowed v.weth
      _ ← call (weth_deposit value)
      credit sender v.weth value
      emit (deposited sender v.weth value)

    unfoldable pub deposit_eth : Address → ℕ → Function (Unit {0})
    unfolding deposit_eth_body
    deposit_eth sender value = do when_not_paused; non_reentrant (deposit_eth_body sender value)

    unfoldable pub withdraw_body : Address → Address → ℕ → Function (Unit {0})
    unfolding take
    withdraw_body sender token amount = do
      revert_if (amount == 0) zero_amount
      take sender token amount
      _ ← call (safe_transfer token sender amount)
      emit (withdrawn sender token amount)

    unfoldable pub withdraw : Address → Address → ℕ → Function (Unit {0})
    unfolding withdraw_body
    withdraw sender token amount = non_reentrant (withdraw_body sender token amount)

    -- `EthTransferFailed` where the account does not take the ETH: here `call` reverts.
    unfoldable pub withdraw_eth_body : Address → ℕ → Function (Unit {0})
    unfolding take
    withdraw_eth_body sender amount = do
      revert_if (amount == 0) zero_amount
      v ← get
      take sender v.weth amount
      _ ← call (weth_withdraw amount)
      _ ← call (send_eth sender amount)
      emit (withdrawn sender v.weth amount)

    unfoldable pub withdraw_eth : Address → ℕ → Function (Unit {0})
    unfolding withdraw_eth_body
    withdraw_eth sender amount = non_reentrant (withdraw_eth_body sender amount)

    unfoldable pub execute_swap : ℕ → Address → ExecutionParams → Function ℕ
    unfolding only_role execute_swap_body
    execute_swap timestamp sender params = do
      only_role executor_role sender
      when_not_paused
      non_reentrant (execute_swap_body call timestamp sender params)

    unfoldable pub sweep_unaccounted : Address → Address → Address → Function (Unit {0})
    unfolding only_role unaccounted_balance
    sweep_unaccounted sender token to = do
      only_role default_admin_role sender
      revert_if (to == 0) zero_address
      v ← get
      revert_if (unaccounted_balance token v == 0) nothing_to_sweep
      _ ← call (safe_transfer token to (unaccounted_balance token v))
      emit (unaccounted_swept token to (unaccounted_balance token v))
