-- ===== src/Vault/Messages.antt =====
-- What contracts/src/SyntheticOrderExecutor.sol does on a message, and what happens when it calls out:
-- the other contract may send it messages before it returns. `depth` is what is left of the call
-- depth of the EVM; at 0 a call reverts.
use synthetic_order_executor.Base.{
  ℕ, zero, suc, false, ◌||◌, ◌==◌, if◌then◌else◌, Option, none, some, List, [], ◌∷◌,
}
use synthetic_order_executor.Order.{Address}
use synthetic_order_executor.Vault.{
  Message, change_roles, Interaction, Reply, Outside, OpenZeppelin, Vault, Result, returned,
  reverted, call_failed, zero_address, Roles, default_admin_role, executor_role, pauser_role,
  executor_updated, Function, pure, ◌>>=◌, modify,
}
use synthetic_order_executor.Vault.Functions.{
  deposit, deposit_eth, withdraw, withdraw_eth, execute_swap, set_executor, set_token_allowed,
  remove_token, set_max_trade_amount, pause, unpause, sweep_unaccounted, receive,
}

abbrev pub settled : Vault → Result (Unit {0}) → Vault
settled v (returned u w) = w
settled v (reverted e) = v

abbrev pub moved : ((Address → ℕ) → Address → ℕ) → Vault → Vault
moved f v = record v { held = f v.held }

module _ (oz : OpenZeppelin) (outside : Outside) where
  unfoldable pub perform : (Interaction → Function ℕ) → Address → Message → Function (Unit {0})
  perform call sender (Message.deposit token n) = deposit oz call sender token n
  perform call sender (Message.deposit_eth n) = deposit_eth oz call sender n
  perform call sender (Message.withdraw token n) = withdraw oz call sender token n
  perform call sender (Message.withdraw_eth n) = withdraw_eth oz call sender n
  perform call sender (Message.execute_swap params) =
      execute_swap oz call outside.timestamp sender params >>= λ amount_out. pure tt
  perform call sender (Message.set_executor a) = set_executor oz sender a
  perform call sender (Message.remove_token token) = remove_token oz sender token
  perform call sender (Message.set_token_allowed token n) = set_token_allowed oz sender token n
  perform call sender (Message.set_max_trade_amount token n) =
      set_max_trade_amount oz sender token n
  perform call sender Message.pause = pause oz sender
  perform call sender Message.unpause = unpause oz sender
  perform call sender (Message.sweep_unaccounted token to) =
      sweep_unaccounted oz call sender token to
  perform call sender Message.receive_eth = receive sender
  perform call sender (change_roles roles) = modify (λ v. record v { roles = roles })

  -- A message that reverts leaves the state.
  unfoldable pub perform_all : (Interaction → Function ℕ) → List (Address × Message) → Vault → Vault
  perform_all call [] v = v
  perform_all call ((sender, m) ∷ rest) v =
      perform_all call rest (settled v (perform call sender m v))

  abbrev pub answered : (Interaction → Function ℕ) → Option Reply → Function ℕ
  answered call none v = reverted call_failed
  answered call (some r) v =
      returned r.value (perform_all call r.after (moved r.move (perform_all call r.before v)))

  unfoldable pub call_out : ℕ → Interaction → Function ℕ
  call_out zero i v = reverted call_failed
  call_out (suc depth) i v = answered (call_out depth) (outside.answer i v) v

-- Transactions: each with what is outside the contract when it is carried out.
unfoldable pub transact : OpenZeppelin → ℕ → List (Outside × Address × Message) → Vault → Vault
unfolding call_out perform
transact oz depth [] v = v
transact oz depth ((outside, sender, m) ∷ rest) v =
    transact oz depth rest (settled v (perform oz outside (call_out oz outside depth) sender m v))

-- The constructor: `no_roles` is what AccessControl starts with, `held` the tokens that were sent to
-- the address before.
unfoldable pub construct :
    OpenZeppelin → Roles → (Address → ℕ) → Address → Address → Address → Address → Result (Unit {0})
construct oz no_roles held swap_router weth admin executor =
    if swap_router == 0 || weth == 0 || admin == 0
    then reverted zero_address
    else (let roles =
          oz.grant_role pauser_role admin (oz.grant_role default_admin_role admin no_roles) in
        returned tt (record {
          swap_router = swap_router;
          weth = weth;
          balances = λ user token. 0;
          total_accounted = λ token. 0;
          allowed_token = λ token. false;
          max_trade_amount = λ token. 0;
          executed_ids = λ id. false;
          executor = executor;
          roles = if executor == 0 then roles else oz.grant_role executor_role executor roles;
          is_paused = false;
          is_entered = false;
          held = held;
          events = if executor == 0 then [] else executor_updated 0 executor ∷ [];
        }))
