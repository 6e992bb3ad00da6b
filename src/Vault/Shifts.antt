-- ===== src/Vault/Shifts.antt =====
-- What the functions of contracts/src/SyntheticOrderExecutor.sol bring the contract of one token and what
-- they take of it, against what it owes.
use synthetic_order_executor.Base.{ℕ, ◌+◌, ◌≤◌, true, ◌≡◌, arith, ◌==◌, if◌then◌else◌}
use synthetic_order_executor.Order.{Address}
use synthetic_order_executor.Chain.{ExecutionParams}
use synthetic_order_executor.Vault.{
  Vault, Interaction, safe_transfer, weth_deposit, weth_withdraw, exact_input_single, OpenZeppelin,
  Result, returned, reverted, Function, ◌>>=◌, continue, credit, debit,
}
use synthetic_order_executor.Vault.Functions.{
  deposit_body, deposit_eth_body, withdraw_body, withdraw_eth_body, swap_funds, mark_executed,
  swap_exact_input_single, take,
}
use synthetic_order_executor.Vault.Keeps.{After}
use synthetic_order_executor.Vault.Leaves.{
  Leaves, Leaves-allowed, Leaves-assoc, Leaves-checked_sub, Leaves-emit, Leaves-end, Leaves-get,
  Leaves-modify, Leaves-part, Leaves-pure, Leaves-revert_if,
}

module _ (t : Address) where
  abbrev pub part : Address → ℕ → ℕ
  part token n = if token == t then n else 0

  -- What a call that gives `n` brings the contract of the token at least, and takes of it at most.
  abbrev pub brought : Address → Interaction → ℕ → ℕ
  brought weth (weth_deposit value) n = part weth value
  brought weth (exact_input_single params) n = part params.token_out n
  brought weth _ n = 0

  abbrev pub taken : Address → Interaction → ℕ
  taken weth (safe_transfer token to n) = part token n
  taken weth (weth_withdraw n) = part weth n
  taken weth (exact_input_single params) = part params.token_in params.amount_in
  taken weth _ = 0

  -- From `v` to `w` the contract gained at least `a` and lost at most `b` against what it owes.
  abbrev pub Shifted : ℕ → ℕ → Vault → Vault → Type 0
  Shifted a b v w =
      (w.weth ≡ v.weth)
      × (w.is_entered ≡ v.is_entered)
      × (v.held t + w.total_accounted t + a ≤ w.held t + v.total_accounted t + b)

  -- Of a call, also that nothing is owed or paid off while the guard is entered.
  abbrev pub Yields : Interaction → Vault → Result ℕ → Type 0
  Yields i v (reverted e) = Unit
  Yields i v (returned n w) =
      Shifted (brought v.weth i n) (taken v.weth i) v w
      × (v.is_entered ≡ true → w.total_accounted t ≡ v.total_accounted t)

  abbrev pub IsFair : (Interaction → Function ℕ) → Type 0
  IsFair call = (i : Interaction) (v : Vault) → Yields i v (call i v)

  module _ {B : Type 0} {Q : Vault → Type 0} where
    pub Leaves-call :
        (call : Interaction → Function ℕ) (i : Interaction) (f : ℕ → Function B) (v : Vault)
        → Yields i v (call i v)
        → ((n : ℕ) (w : Vault) → Yields i v (returned n w) → Leaves Q (f n) w)
        → Leaves Q (call i >>= f) v
    unfolding ◌>>=◌
    Leaves-call call i f v y k = record { at = go (call i v) y }
      where
        go : (r : Result ℕ) → Yields i v r → After Q (continue f r)
        go (returned n w) p = (k n w p).at
        go (reverted e) p = tt

  credit-Shifted :
      (user token n : ℕ) (v : Vault) → Leaves (Shifted 0 (part token n) v) (credit user token n) v
  unfolding credit
  credit-Shifted user token n v = record { at = ground arith }

  debit-Shifted :
      (user token n : ℕ) (v : Vault) → Leaves (Shifted (part token n) 0 v) (debit user token n) v
  unfolding debit
  debit-Shifted user token n v = record { at = ground arith }

  Leaves-take :
      {B : Type 0} (Q : Vault → Type 0) (user token n : ℕ) (f : Unit {0} → Function B) (v : Vault)
      → ((w : Vault) → Shifted (part token n) 0 v w → Leaves Q (f tt) w)
      → Leaves Q (take user token n >>= f) v
  unfolding take
  Leaves-take Q user token n f v k =
      Leaves-part (Shifted (part token n) 0 v) _ f v
        (Leaves-get _ v (Leaves-revert_if _ _ _ v (λ _. debit-Shifted user token n v)))
        (λ u w s. k w s)

  module _ (call : Interaction → Function ℕ) (fair : IsFair call) where
    pub deposit_body-Shifted :
        (oz : OpenZeppelin) (sender token amount : Address) (v : Vault)
        → v.is_entered ≡ true
        → Leaves (Shifted 0 0 v) (deposit_body oz call sender token amount) v
    unfolding deposit_body
    deposit_body-Shifted oz sender token amount v h = Leaves-allowed token _ v (
        Leaves-revert_if _ _ _ v (λ _. Leaves-get _ v (
          Leaves-call call _ _ v (fair _ v) (λ n w y. Leaves-get _ w (
            Leaves-checked_sub _ _ _ w (λ enough. Leaves-revert_if _ _ _ w (λ _.
              Leaves-part _ _ _ w (credit-Shifted sender token _ w)
                (λ u x s. Leaves-emit _ _ x (ground arith)))))))))

    pub deposit_eth_body-Shifted :
        (oz : OpenZeppelin) (sender value : ℕ) (v : Vault)
        → v.is_entered ≡ true
        → Leaves (Shifted 0 0 v) (deposit_eth_body oz call sender value) v
    unfolding deposit_eth_body
    deposit_eth_body-Shifted oz sender value v h = Leaves-revert_if _ _ _ v (λ _. Leaves-get _ v (
        Leaves-allowed v.weth _ v (
          Leaves-call call _ _ v (fair _ v) (λ n w y.
            Leaves-part _ _ _ w (credit-Shifted sender v.weth value w)
              (λ u x s. Leaves-emit _ _ x (ground arith))))))

    pub withdraw_body-Shifted :
        (oz : OpenZeppelin) (sender token amount : ℕ) (v : Vault)
        → v.is_entered ≡ true
        → Leaves (Shifted 0 0 v) (withdraw_body oz call sender token amount) v
    unfolding withdraw_body
    withdraw_body-Shifted oz sender token amount v h = Leaves-revert_if _ _ _ v (λ _.
        Leaves-take _ sender token amount _ v
          (λ w s. Leaves-call call _ _ w (fair _ w) (λ n x y. Leaves-emit _ _ x (ground arith))))

    pub withdraw_eth_body-Shifted :
        (oz : OpenZeppelin) (sender amount : ℕ) (v : Vault)
        → v.is_entered ≡ true
        → Leaves (Shifted 0 0 v) (withdraw_eth_body oz call sender amount) v
    unfolding withdraw_eth_body
    withdraw_eth_body-Shifted oz sender amount v h = Leaves-revert_if _ _ _ v (λ _. Leaves-get _ v (
        Leaves-take _ sender v.weth amount _ v (λ w s. Leaves-call call _ _ w (fair _ w) (λ n x y.
          Leaves-call call _ _ x (fair _ x) (λ m z y'. Leaves-emit _ _ z (ground arith))))))

    -- Approved, swapped and approved for nothing.
    Leaves-swap :
        {B : Type 0} (Q : Vault → Type 0) (params : ExecutionParams) (f : ℕ → Function B)
        (v : Vault)
        → v.is_entered ≡ true
        → ((n : ℕ) (w : Vault)
            → Shifted (part params.token_out n) (part params.token_in params.amount_in) v w
            → Leaves Q (f n) w)
        → Leaves Q (swap_exact_input_single call params >>= f) v
    unfolding swap_exact_input_single
    Leaves-swap Q params f v h k = Leaves-assoc _ _ f v (
        Leaves-get _ v (
          Leaves-assoc _ _ f v (
            Leaves-call call _ _ v (fair _ v) (λ a w x. Leaves-assoc _ _ f w (
              Leaves-call call _ _ w (fair _ w) (λ n w' y. Leaves-assoc _ _ f w' (
                Leaves-call call _ _ w' (fair _ w')
                  (λ c w'' z. Leaves-pure n f w'' (k n w'' (ground arith))))))))))

    pub swap_funds-Shifted :
        (params : ExecutionParams) (v : Vault)
        → v.is_entered ≡ true
        → Leaves (Shifted 0 0 v) (swap_funds call params) v
    unfolding swap_funds mark_executed
    swap_funds-Shifted params v h = Leaves-modify _ _ v (
        Leaves-part _ _ _ _ (debit-Shifted params.owner params.token_in params.amount_in _)
          (λ u w s. Leaves-swap _ params _ w (ground arith) (λ n x y. Leaves-revert_if _ _ _ x (λ _.
            Leaves-part _ _ _ x (credit-Shifted params.owner params.token_out n x)
              (λ u' z s'. Leaves-end _ _ z (ground arith))))))
