-- ===== src/Vault/Accounts.antt =====
-- The accounts of contracts/src/SyntheticOrderExecutor.sol: `totalAccounted` against `balances`.
use mathlib.Core.Path.{subst}
use synthetic_order_executor.Base.{
  ℕ, ◌+◌, Bool, true, false, ◌||◌, List, [], ◌∷◌, ◌≡◌, refl, arith, inl, inr, Bool-cases, ltb, leb,
  ◌==◌, ==_iff, if◌then◌else◌,
}
use synthetic_order_executor.Order.{Address}
use synthetic_order_executor.Vault.{
  Vault, Message, Interaction, Outside, OpenZeppelin, Roles, returned, Function, with_balance,
  credit, debit, emit, uint256_limit,
}
use synthetic_order_executor.Vault.Functions.{
  execute_swap_body, check_swap, swap_funds, execute_swap, only_role, mark_executed,
  swap_exact_input_single, non_reentrant, allowed, when_not_paused,
}
use synthetic_order_executor.Vault.Messages.{transact, construct}
use synthetic_order_executor.Chain.{ExecutionParams}
use synthetic_order_executor.Vault.Frame.{IsFrame, transactions-Keeps}
use synthetic_order_executor.Vault.Keeps.{After, Keeps, IsPreorder, keeps_rules}

abbrev pub among : List Address → Address → Bool
among [] u = false
among (w ∷ ws) u = let rest = among ws u in (u == w) || rest

abbrev pub Distinct : List Address → Type 0
Distinct [] = Unit
Distinct (u ∷ us) = (among us u ≡ false) × Distinct us

abbrev pub sum_of : (Address → ℕ) → List Address → ℕ
sum_of f [] = 0
sum_of f (u ∷ us) = f u + sum_of f us

-- `total` is the sum of `f` over all addresses: over a list that names an address once, and names
-- every one at which `f` is not 0.
pub record Totals (f : Address → ℕ) (total : ℕ) : Type 0 where
  pub users : List Address
  pub distinct : Distinct users
  pub others : (u : Address) → among users u ≡ false → f u ≡ 0
  pub sum : sum_of f users ≡ total

module _ (f g : Address → ℕ) (u : Address) (x : ℕ)
    (set : (w : Address) → g w ≡ (if w == u then x else f w)) where
  sum-other : (us : List Address) → among us u ≡ false → sum_of g us ≡ sum_of f us
  sum-other [] h = refl
  sum-other (w ∷ ws) h = ground (arith, sum-other ws, set w)

  sum-set :
      (us : List Address) → Distinct us → among us u ≡ true → sum_of g us + f u ≡ sum_of f us + x
  sum-set [] d h = cc
  sum-set (w ∷ ws) d h = ground (arith, sum-set ws d.1, sum-other ws, set w)

  Totals-set : (total total' : ℕ) → total' + f u ≡ total + x → Totals f total → Totals g total'
  Totals-set total total' e c = elim (Bool-cases (among c.users u)) [
    | inl named ↦ record {
      users = c.users;
      distinct = c.distinct;
      others = λ w h. ground (arith, set w, c.others w h, ==_iff w u);
      sum = omega (arith, sum-set c.users c.distinct named, c.sum);
    }
    | inr fresh ↦ record {
      users = u ∷ c.users;
      distinct = (fresh, c.distinct);
      others = λ w h. ground (arith, set w, c.others w);
      sum = ground (arith, sum-other c.users fresh, c.sum, c.others u fresh, set u);
    }
  ]

-- Of every token, the contract has on record as the total just the sum of its users' balances.
abbrev pub IsAccounted : Vault → Type 0
IsAccounted v = (token : Address) → Totals (λ u. v.balances u token) (v.total_accounted token)

abbrev pub StaysAccounted : Vault → Vault → Type 0
StaysAccounted v w = IsAccounted v → IsAccounted w

with_balance-StaysAccounted :
    (user token balance total : ℕ) (v : Vault)
    → total + v.balances user token ≡ v.total_accounted token + balance
    → StaysAccounted v (with_balance user token balance total v)
with_balance-StaysAccounted user token balance total v e h t =
    Totals-set (λ u. v.balances u t) _ user (if t == token then balance else v.balances user t)
      (λ w. ground arith) (v.total_accounted t) (if t == token then total else v.total_accounted t)
      (ground (arith, ==_iff t token)) (h t)

abbrev Accountable : {A : Type 0} → Function A → Type 0
Accountable m = Keeps StaysAccounted m

credit-Accountable : (user token n : ℕ) → Accountable (credit user token n)
unfolding credit
credit-Accountable user token n = record {
  at = λ v.
      elim (Bool-cases (
        leb uint256_limit (v.balances user token + n)
        || leb uint256_limit (v.total_accounted token + n))) [
          | inl e ↦ rw e tt
          | inr e ↦ rw e (with_balance-StaysAccounted user token _ _ v (omega arith))
        ];
}

debit-Accountable : (user token n : ℕ) → Accountable (debit user token n)
unfolding debit
debit-Accountable user token n = record {
  at = λ v. elim (Bool-cases (ltb (v.balances user token) n || ltb (v.total_accounted token) n)) [
    | inl e ↦ rw e tt
    | inr e ↦ rw e (with_balance-StaysAccounted user token _ _ v (ground arith))
  ];
}

accounts_order : IsPreorder StaysAccounted
accounts_order = record { same = λ v h. h; then_on = λ u v w h k a. k (h a) }

accounts_frame : IsFrame StaysAccounted
accounts_frame = record {
  admin = record {
    order = accounts_order;
    pauses = λ v b h. h;
    grants = λ v roles h. h;
    appoints = λ v a h. h;
    lists = λ v f g h. h;
    limits = λ v g h. h;
    emits = λ v e _ h. h;
  };
  credits = credit-Accountable;
  debits = debit-Accountable;
  enters = λ v b h. h;
  moves = λ v held h. h;
}

execute_swap-Accountable :
    (oz : OpenZeppelin) (call : Interaction → Function ℕ)
    → ((i : Interaction) → Accountable (call i))
    → (now sender : ℕ) (params : ExecutionParams)
    → Accountable (execute_swap oz call now sender params)
unfolding execute_swap execute_swap_body check_swap swap_funds only_role non_reentrant allowed
    when_not_paused mark_executed swap_exact_input_single emit
execute_swap-Accountable oz call hc now sender params =
    search (keeps_rules, accounts_order, credit-Accountable, debit-Accountable, hc) depth 60 fits
      8000

transact-IsAccounted :
    (oz : OpenZeppelin) (depth : ℕ) (ts : List (Outside × Address × Message)) (v : Vault)
    → IsAccounted v
    → IsAccounted (transact oz depth ts v)
transact-IsAccounted oz depth ts v =
    transactions-Keeps StaysAccounted accounts_frame oz (execute_swap-Accountable oz) depth ts v

construct-IsAccounted :
    (oz : OpenZeppelin) (no_roles : Roles) (held : Address → ℕ)
    (swap_router weth admin executor : Address)
    → After IsAccounted (construct oz no_roles held swap_router weth admin executor)
unfolding construct
construct-IsAccounted oz no_roles held swap_router weth admin executor =
    elim (Bool-cases (swap_router == 0 || weth == 0 || admin == 0)) [
      | inl e ↦ rw e tt
      | inr e ↦
          rw e (λ token. record { users = []; distinct = tt; others = λ u h. refl; sum = refl })
    ]

-- Whatever transactions are sent to a contract that was constructed, with whatever the tokens, the
-- router and the other accounts answer, how they move the tokens that it holds, and what they send to
-- it while it waits for them: the total on record of each token is the sum of its users' balances.
pub deployed-IsAccounted :
    (oz : OpenZeppelin) (no_roles : Roles) (held : Address → ℕ)
    (swap_router weth admin executor : Address) (depth : ℕ)
    (ts : List (Outside × Address × Message)) (v : Vault)
    → construct oz no_roles held swap_router weth admin executor ≡ returned tt v
    → IsAccounted (transact oz depth ts v)
deployed-IsAccounted oz no_roles held swap_router weth admin executor depth ts v h =
    transact-IsAccounted oz depth ts v (
      subst (After IsAccounted) h
        (construct-IsAccounted oz no_roles held swap_router weth admin executor))
