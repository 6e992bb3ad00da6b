-- ===== src/Vault/Safe.antt =====
-- What a message to contracts/src/SyntheticOrderExecutor.sol does to what it holds of one token against
-- what it owes, when the contracts that it calls may send messages back.
use synthetic_order_executor.Base.{
  ℕ, zero, suc, ◌+◌, ◌≤◌, Bool, true, false, Option, none, some, List, [], ◌∷◌, ◌≡◌, refl, sym, ◌∙◌,
  arith, ◌==◌,
}
use synthetic_order_executor.Order.{Address}
use synthetic_order_executor.Chain.{ExecutionParams}
use synthetic_order_executor.Vault.{
  Vault, Message, Interaction, Reply, Outside, OpenZeppelin, Result, returned, reverted, Function,
  Role, ◌>>◌, ◌>>=◌,
}
use synthetic_order_executor.Vault.Functions.{
  deposit, deposit_eth, withdraw, withdraw_eth, execute_swap, non_reentrant, set_entered,
  when_not_paused, only_role, execute_swap_body, sweep_unaccounted, unaccounted_balance,
}
use synthetic_order_executor.Vault.Messages.{
  perform, perform_all, call_out, answered, moved, settled,
}
use synthetic_order_executor.Vault.Frame.{
  IsAdminFrame, set_executor-Keeps, remove_token-Keeps, set_token_allowed-Keeps,
  set_max_trade_amount-Keeps, pause-Keeps, unpause-Keeps, receive-Keeps,
}
use synthetic_order_executor.Vault.Keeps.{After, Keeps, IsPreorder, Keeps-modify}
use synthetic_order_executor.Vault.Shifts.{
  Shifted, Yields, IsFair, Leaves-call, swap_funds-Shifted, deposit_body-Shifted,
  deposit_eth_body-Shifted, withdraw_body-Shifted, withdraw_eth_body-Shifted, brought, taken, part,
}
use synthetic_order_executor.Vault.Leaves.{
  check_swap-fresh, Leaves-weaken, Leaves, Leaves-assoc, Leaves-emit, Leaves-end, Leaves-get,
  Leaves-modify, Leaves-part, Leaves-revert, Leaves-revert_if,
}

-- What is documented of ReentrancyGuard.
pub record IsGuard (oz : OpenZeppelin) : Type 0 where
  pub enters : oz.enter false ≡ some true
  pub refuses : oz.enter true ≡ none
  pub leaves : (b : Bool) → oz.leave b ≡ false

guard_let_in :
    (oz : OpenZeppelin)
    → IsGuard oz
    → (before after : Bool) → oz.enter before ≡ some after
    → (before ≡ false) × (after ≡ true)
guard_let_in oz guard true b h = let refused = guard.refuses in cc
guard_let_in oz guard false true h = (refl, refl)
guard_let_in oz guard false false h = let entered = guard.enters in cc

Leaves-set_entered :
    {B : Type 0} {Q : Vault → Type 0} (o : Option Bool) (f : Unit {0} → Function B) (v : Vault)
    → ((b : Bool) → o ≡ some b → Leaves Q (f tt) (record v { is_entered = b }))
    → Leaves Q (set_entered o >>= f) v
Leaves-set_entered none f v k = Leaves-revert _ _ f v
Leaves-set_entered (some b) f v k = Leaves-modify _ f v (k b refl)

module _ (t : Address) where
  -- Nothing is lost against what is owed, and while the guard is entered nothing owed changes.
  abbrev pub Safe : Vault → Vault → Type 0
  Safe v w = Shifted t 0 0 v w × (v.is_entered ≡ true → w.total_accounted t ≡ v.total_accounted t)

  pub safe_order : IsPreorder Safe
  safe_order = record {
    same = λ v. ((refl, refl, omega arith), λ e. refl);
    then_on = λ u v w h k. ground arith;
  }

  safe_frame : IsAdminFrame Safe
  safe_frame = record {
    order = safe_order;
    pauses = λ v b. safe_order.same v;
    grants = λ v roles. safe_order.same v;
    appoints = λ v a. safe_order.same v;
    lists = λ v f g. safe_order.same v;
    limits = λ v g. safe_order.same v;
    emits = λ v e h. safe_order.same v;
  }

  -- The guard lets a block in only where it is not entered, and is not entered after it.
  non_reentrant-Safe :
      {A : Type 0} (oz : OpenZeppelin) (body : Function A)
      → IsGuard oz
      → ((v : Vault) → v.is_entered ≡ true → Leaves (Shifted t 0 0 v) body v)
      → (v : Vault) → Leaves (Safe v) (non_reentrant oz body) v
  unfolding non_reentrant
  non_reentrant-Safe oz body guard h v = Leaves-get _ v (
      Leaves-set_entered _ _ v (λ b o.
        let (free, entered) = guard_let_in oz guard v.is_entered b o in
        Leaves-part _ _ _ _ (h _ entered) (λ a w s. Leaves-modify _ _ w (
          Leaves-end _ _ _
            (let left = guard.leaves w.is_entered in ((s.0, left ∙ sym free, s.2), λ e. cc))))))

  -- A message that does not sweep the token.
  abbrev pub Spares : Message → Type 0
  Spares (Message.sweep_unaccounted token to) = (token == t) ≡ false
  Spares _ = Unit

  abbrev pub AllSpare : List (Address × Message) → Type 0
  AllSpare [] = Unit
  AllSpare ((sender, m) ∷ ms) = Spares m × AllSpare ms

  -- The contracts that are called move the token as is documented of an ERC-20 token, of WETH and of
  -- the router, and none of them has the contract swept of it before it returns.
  pub record IsHonest (outside : Outside) : Type 0 where
    pub moves :
        (i : Interaction) (v : Vault) (r : Reply)
        → outside.answer i v ≡ some r
        → (held : Address → ℕ)
        → held t + brought t v.weth i r.value ≤ r.move held t + taken t v.weth i
    pub spares :
        (i : Interaction) (v : Vault) (r : Reply)
        → outside.answer i v ≡ some r
        → AllSpare r.before × AllSpare r.after

  safe : {A : Type 0} (m : Function A) → Keeps Safe m → (v : Vault) → Leaves (Safe v) m v
  safe m h v = record { at = h.at v }

  pub Leaves-when_not_paused :
      {A : Type 0} (Q : Vault → Type 0) (m : Function A) (v : Vault)
      → Leaves Q m v
      → Leaves Q (when_not_paused >> m) v
  unfolding when_not_paused
  Leaves-when_not_paused Q m v k =
      Leaves-assoc _ _ _ v (Leaves-get _ v (Leaves-revert_if _ _ _ v (λ e. k)))

  pub Leaves-only_role :
      {A : Type 0} (Q : Vault → Type 0) (role : Role) (sender : Address) (m : Function A)
      (v : Vault)
      → Leaves Q m v
      → Leaves Q (only_role role sender >> m) v
  unfolding only_role
  Leaves-only_role Q role sender m v k =
      Leaves-assoc _ _ _ v (Leaves-get _ v (Leaves-revert_if _ _ _ v (λ e. k)))

  settled-Safe : (v : Vault) (r : Result (Unit {0})) → After (Safe v) r → Safe v (settled v r)
  settled-Safe v (returned u w) h = h
  settled-Safe v (reverted e) h = safe_order.same v

  module _ (oz : OpenZeppelin) (guard : IsGuard oz) (outside : Outside)
      (call : Interaction → Function ℕ) (fair : IsFair t call) where
    execute_swap_body-Shifted :
        (sender : Address) (params : ExecutionParams) (v : Vault)
        → v.is_entered ≡ true
        → Leaves (Shifted t 0 0 v) (execute_swap_body call outside.timestamp sender params) v
    unfolding execute_swap_body
    execute_swap_body-Shifted sender params v h =
        Leaves-part _ _ _ v (check_swap-fresh outside.timestamp params v) (λ u w e. rw e.0 (
          Leaves-part _ _ _ v (swap_funds-Shifted t call fair params v h) (λ n x s.
            Leaves-part _ _ _ x (Leaves-emit (Shifted t 0 0 v) _ x s)
              (λ u' y s'. Leaves-end _ _ y s'))))

    pub sweep-Shifted :
        (sender token to : ℕ) (v : Vault)
        → Leaves
            (λ w.
              (w.weth ≡ v.weth)
              × (w.is_entered ≡ v.is_entered)
              × (v.held t + w.total_accounted t
                  ≤ w.held t + v.total_accounted t + part t token (unaccounted_balance token v))
              × (v.is_entered ≡ true → w.total_accounted t ≡ v.total_accounted t))
            (sweep_unaccounted oz call sender token to)
            v
    unfolding sweep_unaccounted
    sweep-Shifted sender token to v = Leaves-only_role _ _ _ _ v (
        Leaves-revert_if _ _ _ v (λ e. Leaves-get _ v (
          Leaves-revert_if _ _ _ v (λ e'.
            Leaves-call t call _ _ v (fair _ v) (λ n w y. Leaves-emit _ _ w (ground arith))))))

    guarded :
        {A : Type 0} (body : Function A)
        → ((v : Vault) → v.is_entered ≡ true → Leaves (Shifted t 0 0 v) body v)
        → (v : Vault) → Leaves (Safe v) (non_reentrant oz body) v
    guarded body h v = non_reentrant-Safe oz body guard h v

    pub perform-Safe :
        (sender : Address) (m : Message) (v : Vault)
        → Spares m
        → Leaves (Safe v) (perform oz outside call sender m) v
    unfolding perform deposit deposit_eth withdraw withdraw_eth execute_swap
    perform-Safe sender (Message.deposit token n) v p =
        Leaves-when_not_paused _ _ v
          (guarded _ (deposit_body-Shifted t call fair oz sender token n) v)
    perform-Safe sender (Message.deposit_eth n) v p =
        Leaves-when_not_paused _ _ v
          (guarded _ (deposit_eth_body-Shifted t call fair oz sender n) v)
    perform-Safe sender (Message.withdraw token n) v p =
        guarded _ (withdraw_body-Shifted t call fair oz sender token n) v
    perform-Safe sender (Message.withdraw_eth n) v p =
        guarded _ (withdraw_eth_body-Shifted t call fair oz sender n) v
    perform-Safe sender (Message.execute_swap params) v p =
        Leaves-part _ _ _ v
          (Leaves-only_role _ _ _ _ v
            (Leaves-when_not_paused _ _ v (guarded _ (execute_swap_body-Shifted sender params) v)))
          (λ n w s. Leaves-end _ _ w s)
    perform-Safe sender (Message.set_executor a) v p =
        safe _ (set_executor-Keeps safe_frame oz sender a) v
    perform-Safe sender (Message.remove_token token) v p =
        safe _ (remove_token-Keeps safe_frame oz sender token) v
    perform-Safe sender (Message.set_token_allowed token n) v p =
        safe _ (set_token_allowed-Keeps safe_frame oz sender token n) v
    perform-Safe sender (Message.set_max_trade_amount token n) v p =
        safe _ (set_max_trade_amount-Keeps safe_frame oz sender token n) v
    perform-Safe sender Message.pause v p = safe _ (pause-Keeps safe_frame oz sender) v
    perform-Safe sender Message.unpause v p = safe _ (unpause-Keeps safe_frame oz sender) v
    perform-Safe sender (Message.sweep_unaccounted token to) v p =
        Leaves-weaken _ _ _ v (sweep-Shifted sender token to v) (λ w h. ground (arith, p))
    perform-Safe sender Message.receive_eth v p = safe _ (receive-Keeps safe_frame sender) v
    perform-Safe sender (Message.change_roles roles) v p =
        safe _ (Keeps-modify _ (λ w. safe_frame.grants w roles)) v

    perform_all-Safe :
        (ms : List (Address × Message)) (v : Vault)
        → AllSpare ms
        → Safe v (perform_all oz outside call ms v)
    unfolding perform_all
    perform_all-Safe [] v p = safe_order.same v
    perform_all-Safe ((sender, m) ∷ ms) v p =
        let first = settled v (perform oz outside call sender m v) in
        safe_order.then_on v first (perform_all oz outside call ms first)
          (settled-Safe v (perform oz outside call sender m v) (perform-Safe sender m v p.0).at)
          (perform_all-Safe ms first p.1)

    answered-Yields :
        (i : Interaction) (v : Vault) (reply : Option Reply)
        → outside.answer i v ≡ reply
        → IsHonest outside
        → Yields t i v (answered oz outside call reply v)
    answered-Yields i v none e honest = tt
    answered-Yields i v (some r) e honest =
        let (p, q) = honest.spares i v r e in
        let before = perform_all-Safe r.before v p in
        let now = perform_all oz outside call r.before v in
        let after = perform_all-Safe r.after (moved r.move now) q in
        let move = honest.moves i v r e now.held in
        (
          (
            after.0.0 ∙ before.0.0,
            after.0.1 ∙ before.0.1,
            omega (arith, before.0.2, after.0.2, move),
          ),
          λ h. after.1 (before.0.1 ∙ h) ∙ before.1 h,
        )

  pub call_out-IsFair :
      (oz : OpenZeppelin)
      → IsGuard oz
      → (outside : Outside) → IsHonest outside
      → (depth : ℕ) → IsFair t (call_out oz outside depth)
  unfolding call_out
  call_out-IsFair oz guard outside honest zero i v = tt
  call_out-IsFair oz guard outside honest (suc depth) i v =
      answered-Yields oz guard outside (call_out oz outside depth)
        (call_out-IsFair oz guard outside honest depth) i v (outside.answer i v) refl honest
