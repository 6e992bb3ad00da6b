-- ===== src/Scenarios/Vaults.antt =====
-- The theorems on the contract, used at concrete runs.
use mathlib.Core.Path.{subst}
use synthetic_order_executor.Base.{
  ℕ, ◌+◌, ◌-◌, ◌≤◌, Bool, true, false, none, some, List, [], ◌∷◌, ◌≡◌, refl, arith, ◌==◌,
  if◌then◌else◌,
}
use synthetic_order_executor.Order.{Address}
use synthetic_order_executor.Chain.{ExecutionParams}
use synthetic_order_executor.Vault.{
  Vault, Roles, Role, OpenZeppelin, Message, Interaction, safe_transfer_from, safe_transfer,
  force_approve, weth_deposit, weth_withdraw, send_eth, exact_input_single, Reply, Outside, Result,
  returned, reverted, withdrawn, set_at, executor_updated, get, modify, revert_if, emit,
  checked_sub, credit, debit, pure, revert, ◌>>=◌, uint256_limit,
}
use synthetic_order_executor.Vault.Functions.{
  set_token_allowed, only_role, when_not_paused, non_reentrant, allowed, deposit_eth, execute_swap,
  execute_swap_body, check_swap, swap_funds, mark_executed, swap_exact_input_single, withdraw, take,
  sweep_unaccounted, unaccounted_balance, is_executed,
}
use synthetic_order_executor.Vault.Messages.{construct, transact, perform, perform_all, call_out}
use synthetic_order_executor.Vault.Accounts.{IsAccounted, deployed-IsAccounted}
use synthetic_order_executor.Vault.Replay.{swap_count, flag, deployed-AtMostOnce}
use synthetic_order_executor.Vault.Safe.{IsGuard, IsHonest, AllSpare}
use synthetic_order_executor.Vault.Shifts.{brought, taken}
use synthetic_order_executor.Vault.Solvency.{IsSolvent, transact-IsSolvent}
use synthetic_order_executor.Vault.Withdrawals.{debited, withdraw-pays}

abbrev role_number : Role → ℕ
role_number Role.default_admin_role = 0
role_number Role.executor_role = 1
role_number Role.pauser_role = 2

abbrev with_role : Bool → Role → Address → Roles → Roles
with_role b role account roles r a =
    if role_number r == role_number role then set_at (roles r) account b a else roles r a

abbrev open_zeppelin : OpenZeppelin
open_zeppelin = record {
  grant_role = with_role true;
  revoke_role = with_role false;
  pause = λ b. if b then none else some true;
  unpause = λ b. if b then some false else none;
  enter = λ b. if b then none else some true;
  leave = λ b. false;
}

guard : IsGuard open_zeppelin
guard = record { enters = refl; refuses = refl; leaves = λ b. refl }

abbrev no_roles : Roles
no_roles role account = false

abbrev nothing_held : Address → ℕ
nothing_held token = 0

-- The state that a function leaves.
abbrev state_of : Vault → Result (Unit {0}) → Vault
state_of d (returned u v) = v
state_of d (reverted e) = d

-- Router 5, WETH 10, admin 1, executor 2.
abbrev deployed : Vault
deployed = record {
  swap_router = 5;
  weth = 10;
  balances = λ user token. 0;
  total_accounted = λ token. 0;
  allowed_token = λ token. false;
  max_trade_amount = λ token. 0;
  executed_ids = λ id. false;
  executor = 2;
  roles =
      with_role true Role.executor_role 2
        (with_role true Role.pauser_role 1 (with_role true Role.default_admin_role 1 no_roles));
  is_paused = false;
  is_entered = false;
  held = nothing_held;
  events = executor_updated 0 2 ∷ [];
}

constructed : construct open_zeppelin no_roles nothing_held 5 10 1 2 ≡ returned tt deployed
unfolding construct
constructed = refl

-- A router that gives 90 for any amount.
abbrev tokens_move : Address → Interaction → (Address → ℕ) → Address → ℕ
tokens_move weth (safe_transfer_from token from n) held = set_at held token (held token + n)
tokens_move weth (safe_transfer token to n) held = set_at held token (held token - n)
tokens_move weth (weth_deposit n) held = set_at held weth (held weth + n)
tokens_move weth (weth_withdraw n) held = set_at held weth (held weth - n)
tokens_move weth (exact_input_single p) held =
    set_at (set_at held p.token_in (held p.token_in - p.amount_in)) p.token_out
      (held p.token_out + 90)
tokens_move weth (force_approve token spender n) held = held
tokens_move weth (send_eth to n) held = held

abbrev reply_to : Address → Interaction → Reply
reply_to weth i = record { value = 90; before = []; move = tokens_move weth i; after = [] }

abbrev outside : Outside
outside = record { timestamp = 1000; answer = λ i v. some (reply_to v.weth i) }

abbrev swap_weth : ExecutionParams
swap_weth = record {
  execution_id = 77;
  owner = 7;
  token_in = 10;
  token_out = 20;
  pool_fee = 500;
  amount_in = 60;
  min_amount_out = 80;
  deadline = 2000;
}

-- Two tokens are allowed, user 7 deposits 100 WETH, 60 of them are swapped, and a second time in vain.
abbrev setup : List (Outside × Address × Message)
setup =
    (outside, 1, Message.set_token_allowed 10 1000)
    ∷ (outside, 1, Message.set_token_allowed 20 1000)
    ∷ (outside, 7, Message.deposit_eth 100)
    ∷ []

abbrev swaps : List (Outside × Address × Message)
swaps =
    (outside, 2, Message.execute_swap swap_weth)
    ∷ (outside, 2, Message.execute_swap swap_weth)
    ∷ (outside, 7, Message.withdraw 20 30)
    ∷ (outside, 1, Message.sweep_unaccounted 20 1)
    ∷ []

-- What is asked of the balances: WETH and token 20 of user 7, what is held of the token, and events.
abbrev seen : Vault → ℕ × ℕ × ℕ × ℕ
seen v = (v.balances 7 10, v.balances 7 20, v.held 20, swap_count 77 v.events)

abbrev funded : Vault
funded = transact open_zeppelin 3 setup deployed

swapped_once : seen (transact open_zeppelin 3 swaps funded) ≡ (40, 60, 60, 1)
unfolding transact perform call_out perform_all set_token_allowed only_role when_not_paused
    non_reentrant allowed deposit_eth execute_swap execute_swap_body check_swap swap_funds
    mark_executed swap_exact_input_single withdraw take sweep_unaccounted unaccounted_balance get
    modify revert_if emit checked_sub credit debit pure revert ◌>>=◌ uint256_limit
swapped_once = refl

funded_state : (funded.is_entered ≡ false) × IsSolvent 20 funded × (25 ≤ funded.balances 7 10)
unfolding transact perform call_out perform_all set_token_allowed only_role when_not_paused
    non_reentrant allowed deposit_eth get modify revert_if emit credit pure ◌>>=◌ uint256_limit
funded_state = (refl, omega arith, omega arith)

deployed-IsAccounted_example : IsAccounted (transact open_zeppelin 3 setup deployed)
deployed-IsAccounted_example =
    deployed-IsAccounted open_zeppelin no_roles nothing_held 5 10 1 2 3 setup deployed constructed

deployed-AtMostOnce_example :
    let w = transact open_zeppelin 3 setup deployed in
    let later = transact open_zeppelin 3 swaps w in
    (swap_count 77 w.events ≤ flag (is_executed 77 w))
    × (is_executed 77 w ≡ true
        → (is_executed 77 later ≡ true) × (swap_count 77 later.events ≡ swap_count 77 w.events))
deployed-AtMostOnce_example =
    deployed-AtMostOnce open_zeppelin no_roles nothing_held 5 10 1 2 3 setup swaps deployed 77
      constructed

some_injective : {A : Type 0} {a b : A} → some a ≡ some b → a ≡ b
some_injective h = cc

-- Tokens, WETH and the router of these runs move as documented.
reply_moves :
    (weth : Address) (i : Interaction) (held : Address → ℕ)
    → held 20 + brought 20 weth i 90 ≤ tokens_move weth i held 20 + taken 20 weth i
reply_moves weth (safe_transfer_from token from n) held = ground arith
reply_moves weth (safe_transfer token to n) held = ground arith
reply_moves weth (force_approve token spender n) held = omega arith
reply_moves weth (weth_deposit n) held = ground arith
reply_moves weth (weth_withdraw n) held = ground arith
reply_moves weth (send_eth to n) held = omega arith
reply_moves weth (exact_input_single p) held = ground arith

honest : IsHonest 20 outside
honest = record {
  moves = λ i v r e held.
      subst (λ q. held 20 + brought 20 v.weth i q.value ≤ q.move held 20 + taken 20 v.weth i)
        (some_injective e) (reply_moves v.weth i held);
  spares = λ i v r e.
      subst (λ q. AllSpare 20 q.before × AllSpare 20 q.after) (some_injective e) (tt, tt);
}

transact-IsSolvent_example : IsSolvent 20 (transact open_zeppelin 3 swaps funded)
transact-IsSolvent_example =
    transact-IsSolvent 20 open_zeppelin guard 3 swaps funded
      (honest, (honest, (honest, (honest, tt)))) funded_state.1

-- The transfer of the withdrawal, and where it leaves the contract.
abbrev transfer_25 : Result ℕ
transfer_25 = call_out open_zeppelin outside 3 (safe_transfer 10 7 25) (debited 7 10 25 funded)

abbrev after_transfer : Result ℕ → Vault
after_transfer (returned a v) = v
after_transfer (reverted e) = funded

transferred : transfer_25 ≡ returned 90 (after_transfer transfer_25)
unfolding call_out perform_all
transferred = refl

withdraw-pays_example : withdraw open_zeppelin (call_out open_zeppelin outside 3) 7 10 25 funded ≡ (
    let w = after_transfer transfer_25 in
    returned tt (record w { events = withdrawn 7 10 25 ∷ w.events; is_entered = false }))
withdraw-pays_example =
    withdraw-pays open_zeppelin guard (call_out open_zeppelin outside 3) 7 10 25 funded
      (after_transfer transfer_25) 90 transferred deployed-IsAccounted_example funded_state.0
      (omega arith) funded_state.2

-- A router that has the admin sweep what it has just paid in: 90 are owed then, and none is held.
abbrev sweeping_reply : Address → Interaction → Reply
sweeping_reply weth (exact_input_single p) = record {
  value = 90;
  before = [];
  move = tokens_move weth (exact_input_single p);
  after = (1, Message.sweep_unaccounted 20 1) ∷ [];
}
sweeping_reply weth i = reply_to weth i

abbrev sweeping : Outside
sweeping = record { timestamp = 1000; answer = λ i v. some (sweeping_reply v.weth i) }

abbrev owed_and_held : Vault → ℕ × ℕ
owed_and_held v = (v.total_accounted 20, v.held 20)

swept_while_called :
    owed_and_held
      (transact open_zeppelin 3 ((sweeping, 2, Message.execute_swap swap_weth) ∷ []) funded)
    ≡ (90, 0)
unfolding transact perform call_out perform_all set_token_allowed only_role when_not_paused
    non_reentrant allowed deposit_eth execute_swap execute_swap_body check_swap swap_funds
    mark_executed swap_exact_input_single sweep_unaccounted unaccounted_balance get modify revert_if
    emit checked_sub credit debit pure revert ◌>>=◌ uint256_limit
swept_while_called = refl
