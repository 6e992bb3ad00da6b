-- ===== src/Vault/Solvency.antt =====
-- Whether contracts/src/SyntheticOrderExecutor.sol holds the tokens that it owes, one token at a time.
use synthetic_order_executor.Base.{
  ℕ, ◌+◌, ◌≤◌, List, [], ◌∷◌, ◌≡◌, refl, arith, inl, inr, ==_iff, ◌⊎◌,
}
use synthetic_order_executor.Order.{Address}
use synthetic_order_executor.Vault.{
  Vault, Message, Outside, OpenZeppelin, Result, returned, reverted,
}
use synthetic_order_executor.Vault.Functions.{unaccounted_balance}
use synthetic_order_executor.Vault.Messages.{perform, call_out, settled, transact}
use synthetic_order_executor.Vault.Keeps.{After}
use synthetic_order_executor.Vault.Shifts.{part}
use synthetic_order_executor.Vault.Leaves.{Leaves-weaken, Leaves}
use synthetic_order_executor.Vault.Safe.{
  IsGuard, Spares, IsHonest, perform-Safe, sweep-Shifted, call_out-IsFair,
}

module _ (t : Address) where
  abbrev pub AllHonest : List (Outside × Address × Message) → Type 0
  AllHonest [] = Unit
  AllHonest ((outside, sender, m) ∷ ts) = IsHonest t outside × AllHonest ts

  -- The contract holds of the token at least what it owes its users.
  abbrev pub IsSolvent : Vault → Type 0
  IsSolvent v = v.total_accounted t ≤ v.held t

  unaccounted-le :
      (token : Address) (v : Vault)
      → IsSolvent v
      → v.total_accounted t + part t token (unaccounted_balance token v) ≤ v.held t
  unfolding unaccounted_balance
  unaccounted-le token v h = ground (arith, ==_iff token t)

  safely :
      (oz : OpenZeppelin)
      → IsGuard oz
      → (outside : Outside) → IsHonest t outside
      → (depth : ℕ) (sender : Address) (m : Message) (v : Vault) → Spares t m
      → IsSolvent v
      → Leaves IsSolvent (perform oz outside (call_out oz outside depth) sender m) v
  safely oz guard outside honest depth sender m v p h =
      Leaves-weaken _ _ _ v
        (perform-Safe t oz guard outside (call_out oz outside depth)
          (call_out-IsFair t oz guard outside honest depth) sender m v p)
        (λ w s. omega (arith, s.0.2, h))

  message_cases :
      (m : Message)
      → Spares t m ⊎ ((token : Address) × (to : Address) × (m ≡ Message.sweep_unaccounted token to))
  message_cases (Message.deposit a n) = inl tt
  message_cases (Message.deposit_eth n) = inl tt
  message_cases (Message.withdraw a n) = inl tt
  message_cases (Message.withdraw_eth n) = inl tt
  message_cases (Message.execute_swap p) = inl tt
  message_cases (Message.set_executor a) = inl tt
  message_cases (Message.remove_token a) = inl tt
  message_cases (Message.set_token_allowed a n) = inl tt
  message_cases (Message.set_max_trade_amount a n) = inl tt
  message_cases (Message.pause) = inl tt
  message_cases (Message.unpause) = inl tt
  message_cases (Message.receive_eth) = inl tt
  message_cases (Message.change_roles r) = inl tt
  message_cases (Message.sweep_unaccounted token to) = inr (token, to, refl)

  -- Also a sweep of the token itself leaves what is owed.
  perform-IsSolvent :
      (oz : OpenZeppelin)
      → IsGuard oz
      → (outside : Outside) → IsHonest t outside
      → (depth : ℕ) (sender : Address) (m : Message) (v : Vault) → IsSolvent v
      → Leaves IsSolvent (perform oz outside (call_out oz outside depth) sender m) v
  unfolding perform
  perform-IsSolvent oz guard outside honest depth sender m v h = elim (message_cases m) [
    | inl p ↦ safely oz guard outside honest depth sender m v p h
    | inr (token, to, e) ↦ rw e (
        Leaves-weaken _ _ _ v
          (sweep-Shifted t oz guard outside (call_out oz outside depth)
            (call_out-IsFair t oz guard outside honest depth) sender token to v)
          (λ w s. omega (arith, unaccounted-le token v h, s.2, h)))
  ]

  settled-IsSolvent :
      (v : Vault) (r : Result (Unit {0}))
      → IsSolvent v
      → After IsSolvent r
      → IsSolvent (settled v r)
  settled-IsSolvent v (returned u w) h k = k
  settled-IsSolvent v (reverted e) h k = h

-- With a guard against reentrancy as documented: whatever transactions are sent to the contract, if
-- the contracts that it calls move a token as is documented of ERC-20 tokens, WETH and the router,
-- and none of them has the contract swept of the token while it is being called, then a contract
-- that holds of the token what it owes its users still does after them.
pub transact-IsSolvent :
    (t : Address) (oz : OpenZeppelin)
    → IsGuard oz
    → (depth : ℕ) (ts : List (Outside × Address × Message)) (v : Vault) → AllHonest t ts
    → IsSolvent t v
    → IsSolvent t (transact oz depth ts v)
unfolding transact
transact-IsSolvent t oz guard depth [] v honest h = h
transact-IsSolvent t oz guard depth ((outside, sender, m) ∷ ts) v honest h =
    transact-IsSolvent t oz guard depth ts _ honest.1 (
      settled-IsSolvent t v (perform oz outside (call_out oz outside depth) sender m v) h
        ((perform-IsSolvent t oz guard outside honest.0 depth sender m v h).at))
