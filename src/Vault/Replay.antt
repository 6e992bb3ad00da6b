-- ===== src/Vault/Replay.antt =====
-- Replay of an execution in contracts/src/SyntheticOrderExecutor.sol: `executedIds` against the events.
use mathlib.Core.Path.{subst}
use synthetic_order_executor.Base.{
  ℕ, ◌+◌, ◌≤◌, Bool, true, false, ◌||◌, List, [], ◌∷◌, ◌≡◌, refl, arith, inl, inr, Bool-cases, ◌==◌,
  ◌∙◌, if◌then◌else◌, ==_iff, ltb, leb,
}
use synthetic_order_executor.Order.{Address, Hex}
use synthetic_order_executor.Chain.{ExecutionParams}
use synthetic_order_executor.Vault.{
  Vault, Event, swap_executed, executor_updated, token_allowed, token_removed,
  max_trade_amount_updated, deposited, withdrawn, unaccounted_swept, Message, Interaction, Outside,
  OpenZeppelin, Roles, Result, returned, reverted, Function, set_at, credit, debit, emit, modify,
  uint256_limit, pure, continue, ◌>>=◌,
}
use synthetic_order_executor.Vault.Functions.{
  execute_swap, execute_swap_body, check_swap, swap_funds, only_role, non_reentrant,
  when_not_paused, mark_executed, is_executed, swap_exact_input_single,
}
use synthetic_order_executor.Vault.Leaves.{check_swap-fresh}
use synthetic_order_executor.Vault.Messages.{transact, construct}
use synthetic_order_executor.Vault.Frame.{IsFrame, is_swap, transactions-Keeps}
use synthetic_order_executor.Vault.Keeps.{After, Keeps, IsPreorder, keeps_rules}

abbrev pub swaps_of : Hex → Event → ℕ
swaps_of id (swap_executed sender params n) = if params.execution_id == id then 1 else 0
swaps_of id _ = 0

-- How often `SwapExecuted` was emitted for an execution.
abbrev pub swap_count : Hex → List Event → ℕ
swap_count id [] = 0
swap_count id (e ∷ es) = swaps_of id e + swap_count id es

abbrev pub flag : Bool → ℕ
flag true = 1
flag false = 0

abbrev pub AtMostOnce : Vault → Hex → Type 0
AtMostOnce v id = swap_count id v.events ≤ flag (v.executed_ids id)

-- What is executed stays so and is not swapped again; an id with at most one event keeps to that.
pub record Once (v w : Vault) : Type 0 where
  pub final :
      (id : Hex)
      → v.executed_ids id ≡ true
      → (w.executed_ids id ≡ true) × (swap_count id w.events ≡ swap_count id v.events)
  pub bounded : (id : Hex) → AtMostOnce v id → AtMostOnce w id

replay_order : IsPreorder Once
replay_order = record {
  same = λ v. record { final = λ id h. (h, refl); bounded = λ id h. h };
  then_on = λ u v w h k. record {
    final = λ id e. let a = h.final id e in let b = k.final id a.0 in (b.0, b.1 ∙ a.1);
    bounded = λ id b. k.bounded id (h.bounded id b);
  };
}

-- A write to another part of the state.
unmarked : (v w : Vault) → w.executed_ids ≡ v.executed_ids → w.events ≡ v.events → Once v w
unmarked v w h k = record { final = λ id e. (rw h e, rw k refl); bounded = λ id b. rw (h, k) b }

not_swap : (e : Event) (id : Hex) → is_swap e ≡ false → swaps_of id e ≡ 0
not_swap (swap_executed s p n) id h = cc
not_swap (executor_updated a b) id h = refl
not_swap (token_allowed a n) id h = refl
not_swap (token_removed a) id h = refl
not_swap (max_trade_amount_updated a m n) id h = refl
not_swap (deposited a b n) id h = refl
not_swap (withdrawn a b n) id h = refl
not_swap (unaccounted_swept a b n) id h = refl

credit-Once : (user token n : ℕ) → Keeps Once (credit user token n)
unfolding credit
credit-Once user token n = record {
  at = λ v.
      elim (Bool-cases (
        leb uint256_limit (v.balances user token + n)
        || leb uint256_limit (v.total_accounted token + n))) [
          | inl e ↦ rw e tt
          | inr e ↦ rw e (unmarked v _ refl refl)
        ];
}

debit-Once : (user token n : ℕ) → Keeps Once (debit user token n)
unfolding debit
debit-Once user token n = record {
  at = λ v. elim (Bool-cases (ltb (v.balances user token) n || ltb (v.total_accounted token) n)) [
    | inl e ↦ rw e tt
    | inr e ↦ rw e (unmarked v _ refl refl)
  ];
}

replay_frame : IsFrame Once
replay_frame = record {
  admin = record {
    order = replay_order;
    pauses = λ v b. unmarked v _ refl refl;
    grants = λ v roles. unmarked v _ refl refl;
    appoints = λ v a. unmarked v _ refl refl;
    lists = λ v f g. unmarked v _ refl refl;
    limits = λ v g. unmarked v _ refl refl;
    emits = λ v e h. record {
      final = λ id x. (x, omega (arith, not_swap e id h));
      bounded = λ id b. omega (arith, not_swap e id h, b);
    };
  };
  credits = credit-Once;
  debits = debit-Once;
  enters = λ v b. unmarked v _ refl refl;
  moves = λ v held. unmarked v _ refl refl;
}

-- A swap is marked first. What follows may send messages to the contract, but none that swaps again.
mark-Once :
    (id : Hex) (v : Vault) → Once v (record v { executed_ids = set_at v.executed_ids id true })
mark-Once id v = record { final = λ i e. (ground arith, refl); bounded = λ i b. ground arith }

-- One more event for an execution that had none, once it is marked.
emit-Once :
    (sender : Address) (params : ExecutionParams) (n : ℕ) (v w : Vault)
    → v.executed_ids params.execution_id ≡ false
    → Once v (record v { executed_ids = set_at v.executed_ids params.execution_id true })
    → Once (record v { executed_ids = set_at v.executed_ids params.execution_id true }) w
    → Once v (record w { events = swap_executed sender params n ∷ w.events })
emit-Once sender params n v w fresh h k =
    let whole = replay_order.then_on v _ w h k in
    record {
      final = λ i e. elim (Bool-cases (params.execution_id == i)) [
        | inl named ↦ let at = (==_iff params.execution_id i).0 named in cc
        | inr other ↦ rw other (let (a, b) = whole.final i e in (a, omega (arith, b)))
      ];
      bounded = λ i b. elim (Bool-cases (params.execution_id == i)) [
        | inl named ↦
            let at = (==_iff params.execution_id i).0 named in
            let unseen : v.executed_ids i ≡ false = cc in
            let none_yet : swap_count i v.events ≤ 0 = rw unseen at b in
            let marked = k.final i (ground (arith, at)) in
            rw (named, marked.0) (omega (arith, marked.1, none_yet))
        | inr other ↦ rw other (omega (arith, whole.bounded i b))
      ];
    }

After-mark :
    {A : Type 0} (id : Hex) (k : Unit {0} → Function A) (v : Vault)
    → ((u : Unit {0}) → Keeps Once (k u))
    → After
        (Once (record v { executed_ids = set_at v.executed_ids id true }))
        ((mark_executed id >>= k) v)
unfolding mark_executed modify ◌>>=◌
After-mark id k v h = (h tt).at (record v { executed_ids = set_at v.executed_ids id true })

module _ (call : Interaction → Function ℕ) (hc : (i : Interaction) → Keeps Once (call i)) where
  swap_funds-Once :
      (params : ExecutionParams) (v : Vault)
      → After
          (Once (record v { executed_ids = set_at v.executed_ids params.execution_id true }))
          (swap_funds call params v)
  unfolding swap_funds swap_exact_input_single
  swap_funds-Once params v =
      After-mark params.execution_id _ v
        (λ u. search (keeps_rules, replay_order, credit-Once, debit-Once, hc) depth 40 fits 4000)

  swapped :
      (sender : Address) (params : ExecutionParams) (v : Vault) (r : Result ℕ)
      → v.executed_ids params.execution_id ≡ false
      → After (Once (record v { executed_ids = set_at v.executed_ids params.execution_id true })) r
      → After (Once v) (continue (λ n. emit (swap_executed sender params n) >>= λ u. pure n) r)
  unfolding emit modify pure ◌>>=◌
  swapped sender params v (returned n w) fresh h =
      emit-Once sender params n v w fresh (mark-Once params.execution_id v) h
  swapped sender params v (reverted e) fresh h = tt

  checked :
      (sender : Address) (params : ExecutionParams) (v : Vault) (r : Result (Unit {0}))
      → After (λ w. (w ≡ v) × (v.executed_ids params.execution_id ≡ false)) r
      → After (Once v) (
          continue
            (λ u.
              swap_funds call params >>= λ n. emit (swap_executed sender params n) >>= λ u. pure n)
            r)
  unfolding ◌>>=◌
  checked sender params v (returned u w) (e, fresh) =
      rw e (swapped sender params v (swap_funds call params v) fresh (swap_funds-Once params v))
  checked sender params v (reverted e) h = tt

  body-Once :
      (now sender : ℕ) (params : ExecutionParams)
      → Keeps Once (execute_swap_body call now sender params)
  unfolding execute_swap_body ◌>>=◌
  body-Once now sender params = record {
    at = λ v. checked sender params v (check_swap now params v) (check_swap-fresh now params v).at;
  }

execute_swap-Once :
    (oz : OpenZeppelin) (call : Interaction → Function ℕ)
    → ((i : Interaction) → Keeps Once (call i))
    → (now sender : ℕ) (params : ExecutionParams)
    → Keeps Once (execute_swap oz call now sender params)
unfolding execute_swap only_role when_not_paused non_reentrant
execute_swap-Once oz call hc now sender params =
    search (keeps_rules, replay_order, replay_frame.enters, body-Once call hc) depth 40 fits 4000

construct-AtMostOnce :
    (oz : OpenZeppelin) (no_roles : Roles) (held : Address → ℕ)
    (swap_router weth admin executor : Address) (id : Hex)
    → After (λ v. AtMostOnce v id) (construct oz no_roles held swap_router weth admin executor)
unfolding construct
construct-AtMostOnce oz no_roles held swap_router weth admin executor id = ground arith

-- Whatever transactions are sent to a contract that was constructed, with whatever the contracts that
-- it calls answer and send to it meanwhile: `SwapExecuted` was emitted at most once for an execution
-- id, and not at all while the contract does not report the id as executed. Of an id that is
-- reported as executed, no transactions after that change the report or emit another event.
pub deployed-AtMostOnce :
    (oz : OpenZeppelin) (no_roles : Roles) (held : Address → ℕ)
    (swap_router weth admin executor : Address) (depth : ℕ)
    (before after : List (Outside × Address × Message)) (v : Vault) (id : Hex)
    → construct oz no_roles held swap_router weth admin executor ≡ returned tt v
    → let w = transact oz depth before v in
      let later = transact oz depth after w in
      (swap_count id w.events ≤ flag (is_executed id w))
      × (is_executed id w ≡ true
          → (is_executed id later ≡ true) × (swap_count id later.events ≡ swap_count id w.events))
unfolding is_executed
deployed-AtMostOnce oz no_roles held swap_router weth admin executor depth before after v id h =
    let once = transactions-Keeps Once replay_frame oz (execute_swap-Once oz) depth in
    (
      (once before v).bounded id (
          subst (After (λ a. AtMostOnce a id)) h
            (construct-AtMostOnce oz no_roles held swap_router weth admin executor id)),
      (once after (transact oz depth before v)).final id,
    )
