-- ===== src/Vault/Withdrawals.antt =====
-- That users of contracts/src/SyntheticOrderExecutor.sol get out what is theirs.
use synthetic_order_executor.Base.{
  ℕ, ◌≤◌, ◌<◌, ◌-◌, true, false, ◌≡◌, refl, arith, inl, inr, Bool-cases, ltb, List, [], ◌∷◌, ==_iff,
  ◌==◌,
}
use synthetic_order_executor.Order.{Address}
use synthetic_order_executor.Vault.{
  Vault, Interaction, safe_transfer, OpenZeppelin, returned, Function, pure, ◌>>=◌, get, modify,
  revert_if, emit, debit, withdrawn, with_balance,
}
use synthetic_order_executor.Vault.Functions.{withdraw, withdraw_body, take, non_reentrant}
use synthetic_order_executor.Vault.Safe.{IsGuard}
use synthetic_order_executor.Vault.Accounts.{IsAccounted, Totals, among, sum_of}

sum-above :
    (f : Address → ℕ) (us : List Address) (u : Address) → among us u ≡ true → f u ≤ sum_of f us
sum-above f [] u h = cc
sum-above f (w ∷ ws) u h = ground (arith, sum-above f ws u, ==_iff u w)

-- A balance is no more than the total.
Totals-above : (f : Address → ℕ) (total : ℕ) (u : Address) → Totals f total → f u ≤ total
Totals-above f total u c = elim (Bool-cases (among c.users u)) [
  | inl e ↦ omega (arith, sum-above f c.users u e, c.sum)
  | inr e ↦ omega (arith, c.others u e)
]

le→not-ltb : (a b : ℕ) → b ≤ a → ltb a b ≡ false
le→not-ltb a b h = ground arith

-- The state of the call while it runs: the guard is set, and the amount is debited.
abbrev pub debited : Address → Address → ℕ → Vault → Vault
debited sender token n v =
    with_balance sender token (v.balances sender token - n) (v.total_accounted token - n)
      (record v { is_entered = true })

-- Whether or not the contract is paused, whether or not the token is still allowed, and whoever has
-- which role: a withdrawal of some of the caller's own balance, not from within another call of the
-- contract and with the accounts in order, debits the caller and the total by just the amount and
-- has the token transferred to the caller. It reverts only if that one transfer does; otherwise it
-- ends in the state that the transfer leaves, with the withdrawal logged and the guard released.
pub withdraw-pays :
    (oz : OpenZeppelin)
    → IsGuard oz
    → (call : Interaction → Function ℕ) (sender token n : ℕ) (v w : Vault) (a : ℕ)
    → call (safe_transfer token sender n) (debited sender token n v) ≡ returned a w
    → IsAccounted v
    → v.is_entered ≡ false
    → 0 < n
    → n ≤ v.balances sender token
    → withdraw oz call sender token n v
      ≡ returned tt (record w { events = withdrawn sender token n ∷ w.events; is_entered = false })
unfolding withdraw withdraw_body non_reentrant take get modify revert_if debit emit pure ◌>>=◌
withdraw-pays oz guard call sender token n v w a pays accounted free pos enough =
    rw
      (
        free,
        guard.enters,
        positive,
        le→not-ltb (v.balances sender token) n enough,
        le→not-ltb (v.total_accounted token) n covered,
        le→not-ltb (v.balances sender token) n enough,
        pays,
        guard.leaves,
      )
      refl
  where
    owed : v.balances sender token ≤ v.total_accounted token
    owed = Totals-above (λ u. v.balances u token) _ sender (accounted token)

    covered : n ≤ v.total_accounted token
    covered = omega (arith, owed, enough)

    positive : (n == 0) ≡ false
    positive = ground arith
