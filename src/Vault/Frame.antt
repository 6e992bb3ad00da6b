-- ===== src/Vault/Frame.antt =====
-- What the functions of contracts/src/SyntheticOrderExecutor.sol keep, all but `executeSwap`, from what
-- each of their writes keeps.
use synthetic_order_executor.Base.{ℕ, Bool, false, ◌≡◌, true, List, ◌∷◌}
use synthetic_order_executor.Order.{Address}
use synthetic_order_executor.Vault.{
  Vault, Event, swap_executed, Roles, Interaction, OpenZeppelin, Outside, Message, Function, credit,
  debit, emit,
}
use synthetic_order_executor.Vault.Functions.{
  deposit, deposit_eth, withdraw, withdraw_eth, sweep_unaccounted, execute_swap, set_executor,
  set_token_allowed, remove_token, set_max_trade_amount, pause, unpause, receive, only_role,
  replace_executor, grant_role, revoke_role, take, non_reentrant, allowed, when_not_paused,
}
use synthetic_order_executor.Vault.Messages.{perform, transact}
use synthetic_order_executor.Chain.{ExecutionParams}
use synthetic_order_executor.Vault.Keeps.{
  Keeps, IsPreorder, keeps_rules, Keeps-modify, Keeps-bind, Keeps-pure, transact-Keeps,
}

abbrev pub is_swap : Event → Bool
is_swap (swap_executed sender params n) = true
is_swap _ = false

-- The writes of the functions of the admin.
pub record IsAdminFrame (R : Vault → Vault → Type 0) : Type 0 where
  pub order : IsPreorder R
  pub pauses : (v : Vault) (b : Bool) → R v (record v { is_paused = b })
  pub grants : (v : Vault) (roles : Roles) → R v (record v { roles = roles })
  pub appoints : (v : Vault) (a : Address) → R v (record v { executor = a })
  pub lists :
      (v : Vault) (f : Address → Bool) (g : Address → ℕ)
      → R v (record v { allowed_token = f; max_trade_amount = g })
  pub limits : (v : Vault) (g : Address → ℕ) → R v (record v { max_trade_amount = g })
  pub emits : (v : Vault) (e : Event) → is_swap e ≡ false → R v (record v { events = e ∷ v.events })

pub record IsFrame (R : Vault → Vault → Type 0) : Type 0 where
  pub admin : IsAdminFrame R
  pub credits : (user token n : ℕ) → Keeps R (credit user token n)
  pub debits : (user token n : ℕ) → Keeps R (debit user token n)
  pub enters : (v : Vault) (b : Bool) → R v (record v { is_entered = b })
  pub moves : (v : Vault) (held : Address → ℕ) → R v (record v { held = held })

-- The fields as rules.
module _ {R : Vault → Vault → Type 0} where
  by_admin : IsFrame R → IsAdminFrame R
  by_admin frame = frame.admin

  by_order : IsAdminFrame R → IsPreorder R
  by_order frame = frame.order

  by_credit : (user token n : ℕ) → IsFrame R → Keeps R (credit user token n)
  by_credit user token n frame = frame.credits user token n

  by_debit : (user token n : ℕ) → IsFrame R → Keeps R (debit user token n)
  by_debit user token n frame = frame.debits user token n

  by_enter : (v : Vault) (b : Bool) → IsFrame R → R v (record v { is_entered = b })
  by_enter v b frame = frame.enters v b

  by_pause : (v : Vault) (b : Bool) → IsAdminFrame R → R v (record v { is_paused = b })
  by_pause v b frame = frame.pauses v b

  by_grant : (v : Vault) (roles : Roles) → IsAdminFrame R → R v (record v { roles = roles })
  by_grant v roles frame = frame.grants v roles

  by_appoint : (v : Vault) (a : Address) → IsAdminFrame R → R v (record v { executor = a })
  by_appoint v a frame = frame.appoints v a

  by_list :
      (v : Vault) (f : Address → Bool) (g : Address → ℕ)
      → IsAdminFrame R
      → R v (record v { allowed_token = f; max_trade_amount = g })
  by_list v f g frame = frame.lists v f g

  by_limit :
      (v : Vault) (g : Address → ℕ) → IsAdminFrame R → R v (record v { max_trade_amount = g })
  by_limit v g frame = frame.limits v g

  by_emit : (e : Event) → is_swap e ≡ false → IsAdminFrame R → Keeps R (emit e)
  unfolding emit
  by_emit e h frame = Keeps-modify _ (λ v. frame.emits v e h)

ruleset frame_rules = (
  keeps_rules, by_admin, by_order, by_credit, by_debit, by_enter, by_pause, by_grant, by_appoint,
  by_list, by_limit, by_emit,
)

module _ {R : Vault → Vault → Type 0} (frame : IsAdminFrame R) (oz : OpenZeppelin) where
  pub set_executor-Keeps : (sender account : ℕ) → Keeps R (set_executor oz sender account)
  unfolding set_executor only_role replace_executor grant_role revoke_role
  set_executor-Keeps sender account = search (frame_rules, frame) depth 40 fits 4000

  pub set_token_allowed-Keeps :
      (sender token amount : ℕ) → Keeps R (set_token_allowed oz sender token amount)
  unfolding set_token_allowed only_role
  set_token_allowed-Keeps sender token amount = search (frame_rules, frame) depth 40 fits 4000

  pub remove_token-Keeps : (sender token : ℕ) → Keeps R (remove_token oz sender token)
  unfolding remove_token only_role allowed
  remove_token-Keeps sender token = search (frame_rules, frame) depth 40 fits 4000

  pub set_max_trade_amount-Keeps :
      (sender token amount : ℕ) → Keeps R (set_max_trade_amount oz sender token amount)
  unfolding set_max_trade_amount only_role allowed
  set_max_trade_amount-Keeps sender token amount = search (frame_rules, frame) depth 40 fits 4000

  pub pause-Keeps : (sender : ℕ) → Keeps R (pause oz sender)
  unfolding pause only_role
  pause-Keeps sender = search (frame_rules, frame) depth 40 fits 4000

  pub unpause-Keeps : (sender : ℕ) → Keeps R (unpause oz sender)
  unfolding unpause only_role
  unpause-Keeps sender = search (frame_rules, frame) depth 40 fits 4000

pub receive-Keeps :
    {R : Vault → Vault → Type 0} → IsAdminFrame R → (sender : ℕ) → Keeps R (receive sender)
unfolding receive
receive-Keeps frame sender = search (frame_rules, frame)

module _ {R : Vault → Vault → Type 0} (frame : IsFrame R) where
  module _ (oz : OpenZeppelin) (call : Interaction → Function ℕ)
      (hc : (i : Interaction) → Keeps R (call i)) where
    deposit-Keeps : (sender token amount : ℕ) → Keeps R (deposit oz call sender token amount)
    unfolding deposit non_reentrant allowed when_not_paused
    deposit-Keeps sender token amount = search (frame_rules, frame, hc) depth 40 fits 4000

    deposit_eth-Keeps : (sender value : ℕ) → Keeps R (deposit_eth oz call sender value)
    unfolding deposit_eth non_reentrant allowed when_not_paused
    deposit_eth-Keeps sender value = search (frame_rules, frame, hc) depth 40 fits 4000

    withdraw-Keeps : (sender token amount : ℕ) → Keeps R (withdraw oz call sender token amount)
    unfolding withdraw non_reentrant take
    withdraw-Keeps sender token amount = search (frame_rules, frame, hc) depth 40 fits 4000

    withdraw_eth-Keeps : (sender amount : ℕ) → Keeps R (withdraw_eth oz call sender amount)
    unfolding withdraw_eth non_reentrant take
    withdraw_eth-Keeps sender amount = search (frame_rules, frame, hc) depth 40 fits 4000

    sweep_unaccounted-Keeps :
        (sender token to : ℕ) → Keeps R (sweep_unaccounted oz call sender token to)
    unfolding sweep_unaccounted only_role
    sweep_unaccounted-Keeps sender token to = search (frame_rules, frame, hc) depth 40 fits 4000

    -- So on every message, where `executeSwap` does.
    pub perform-Keeps :
        (outside : Outside)
        → ((sender : Address) (params : ExecutionParams)
            → Keeps R (execute_swap oz call outside.timestamp sender params))
        → (sender : Address) (m : Message) → Keeps R (perform oz outside call sender m)
    unfolding perform
    perform-Keeps outside hs sender (Message.deposit token n) = deposit-Keeps sender token n
    perform-Keeps outside hs sender (Message.deposit_eth n) = deposit_eth-Keeps sender n
    perform-Keeps outside hs sender (Message.withdraw token n) = withdraw-Keeps sender token n
    perform-Keeps outside hs sender (Message.withdraw_eth n) = withdraw_eth-Keeps sender n
    perform-Keeps outside hs sender (Message.execute_swap params) =
        Keeps-bind _ _ frame.admin.order (hs sender params) (λ n. Keeps-pure tt frame.admin.order)
    perform-Keeps outside hs sender (Message.set_executor a) =
        set_executor-Keeps frame.admin oz sender a
    perform-Keeps outside hs sender (Message.remove_token token) =
        remove_token-Keeps frame.admin oz sender token
    perform-Keeps outside hs sender (Message.set_token_allowed token n) =
        set_token_allowed-Keeps frame.admin oz sender token n
    perform-Keeps outside hs sender (Message.set_max_trade_amount token n) =
        set_max_trade_amount-Keeps frame.admin oz sender token n
    perform-Keeps outside hs sender Message.pause = pause-Keeps frame.admin oz sender
    perform-Keeps outside hs sender Message.unpause = unpause-Keeps frame.admin oz sender
    perform-Keeps outside hs sender (Message.sweep_unaccounted token to) =
        sweep_unaccounted-Keeps sender token to
    perform-Keeps outside hs sender Message.receive_eth = receive-Keeps frame.admin sender
    perform-Keeps outside hs sender (Message.change_roles roles) =
        Keeps-modify _ (λ v. frame.admin.grants v roles)

module _ (R : Vault → Vault → Type 0) (frame : IsFrame R) (oz : OpenZeppelin)
    (swaps : (call : Interaction → Function ℕ)
      → ((i : Interaction) → Keeps R (call i))
      → (now sender : ℕ) (params : ExecutionParams)
      → Keeps R (execute_swap oz call now sender params)) where
  -- Whatever transactions are sent, and however the contracts that are called call back.
  pub transactions-Keeps :
      (depth : ℕ) (ts : List (Outside × Address × Message)) (v : Vault)
      → R v (transact oz depth ts v)
  transactions-Keeps depth ts v =
      transact-Keeps R frame.admin.order oz
        (λ outside call hc.
          perform-Keeps frame oz call hc outside (swaps call hc outside.timestamp))
        (λ f w. frame.moves w (f w.held)) depth ts v v (frame.admin.order.same v)
