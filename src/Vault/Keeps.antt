-- ===== src/Vault/Keeps.antt =====
-- Relations between the state before and after a function of the contract, with one rule for each way
-- to build a function, and what the contract keeps however the contracts that it calls call back.
use synthetic_order_executor.Base.{
  ℕ, ◌-◌, ltb, zero, suc, Bool, true, false, Option, none, some, List, [], ◌∷◌, if◌then◌else◌,
}
use synthetic_order_executor.Order.{Address}
use synthetic_order_executor.Vault.{
  Vault, VaultError, Message, Interaction, Reply, Outside, OpenZeppelin, Result, returned, reverted,
  Function, pure, revert, ◌>>=◌, get, modify, revert_if, continue, checked_sub, overflow,
  not_permitted,
}
use synthetic_order_executor.Vault.Functions.{set_entered, set_paused}
use synthetic_order_executor.Vault.Messages.{
  perform, perform_all, call_out, answered, moved, settled, transact,
}

-- Nothing is asked of a call that reverts: it leaves no trace.
abbrev pub After {ℓ} : {A : Type 0} → (Vault → Type ℓ) → Result A → Type ℓ
After Q (returned a w) = Q w
After Q (reverted e) = Unit

pub record Keeps {A : Type 0} (R : Vault → Vault → Type 0) (m : Function A) : Type 0 where
  pub at : (v : Vault) → After (R v) (m v)

pub record IsPreorder (R : Vault → Vault → Type 0) : Type 0 where
  pub same : (v : Vault) → R v v
  pub then_on : (u v w : Vault) → R u v → R v w → R u w

module _ {R : Vault → Vault → Type 0} where
  pub Keeps-revert : {A : Type 0} (e : VaultError) → Keeps R (revert {A = A} e)
  unfolding revert
  Keeps-revert e = record { at = λ v. tt }

  pub Keeps-modify : (f : Vault → Vault) → ((v : Vault) → R v (f v)) → Keeps R (modify f)
  unfolding modify
  Keeps-modify f h = record { at = h }

  pub Keeps-if :
      {A : Type 0} (b : Bool) (m n : Function A)
      → Keeps R m
      → Keeps R n
      → Keeps R (if b then m else n)
  Keeps-if true m n hm hn = hm
  Keeps-if false m n hm hn = hn

  pub Keeps-pure : {A : Type 0} (a : A) → IsPreorder R → Keeps R (pure a)
  unfolding pure
  Keeps-pure a order = record { at = order.same }

  pub Keeps-get : IsPreorder R → Keeps R get
  unfolding get
  Keeps-get order = record { at = order.same }

  pub Keeps-revert_if : (b : Bool) (e : VaultError) → IsPreorder R → Keeps R (revert_if b e)
  unfolding revert_if
  Keeps-revert_if true e order = record { at = λ v. tt }
  Keeps-revert_if false e order = record { at = order.same }

  pub After-trans :
      {A : Type 0} (u v : Vault) (r : Result A)
      → IsPreorder R
      → R u v
      → After (R v) r
      → After (R u) r
  After-trans u v (returned a w) order h k = order.then_on u v w h k
  After-trans u v (reverted e) order h k = tt

  After-continue :
      {A B : Type 0} (u : Vault) (r : Result A) (f : A → Function B)
      → IsPreorder R
      → After (R u) r
      → ((a : A) → Keeps R (f a))
      → After (R u) (continue f r)
  After-continue u (returned a v) f order h k = After-trans u v (f a v) order h ((k a).at v)
  After-continue u (reverted e) f order h k = tt

  pub Keeps-bind :
      {A B : Type 0} (m : Function A) (f : A → Function B)
      → IsPreorder R
      → Keeps R m
      → ((a : A) → Keeps R (f a))
      → Keeps R (m >>= f)
  unfolding ◌>>=◌
  Keeps-bind m f order h k = record { at = λ v. After-continue v (m v) f order (h.at v) k }

  pub Keeps-checked_sub : (a b : ℕ) → IsPreorder R → Keeps R (checked_sub a b)
  unfolding checked_sub
  Keeps-checked_sub a b order =
      Keeps-if (ltb a b) _ _ (Keeps-revert overflow) (Keeps-pure (a - b) order)

  pub Keeps-set_entered :
      (b : Option Bool)
      → ((v : Vault) (c : Bool) → R v (record v { is_entered = c }))
      → Keeps R (set_entered b)
  Keeps-set_entered none h = Keeps-revert not_permitted
  Keeps-set_entered (some c) h = Keeps-modify _ (λ v. h v c)

  pub Keeps-set_paused :
      (b : Option Bool)
      → ((v : Vault) (c : Bool) → R v (record v { is_paused = c }))
      → Keeps R (set_paused b)
  Keeps-set_paused none h = Keeps-revert not_permitted
  Keeps-set_paused (some c) h = Keeps-modify _ (λ v. h v c)

pub ruleset keeps_rules = (
  Keeps-revert, Keeps-modify, Keeps-if, Keeps-pure, Keeps-get, Keeps-revert_if, Keeps-bind,
  Keeps-checked_sub, Keeps-set_entered, Keeps-set_paused,
)

module _ (R : Vault → Vault → Type 0) (order : IsPreorder R) (oz : OpenZeppelin) where
  settled-Keeps : (u v : Vault) (r : Result (Unit {0})) → R u v → After (R v) r → R u (settled v r)
  settled-Keeps u v (returned a w) h k = order.then_on u v w h k
  settled-Keeps u v (reverted e) h k = h

  module _ (outside : Outside)
      (keeps : (call : Interaction → Function ℕ)
        → ((i : Interaction) → Keeps R (call i))
        → (sender : Address) (m : Message) → Keeps R (perform oz outside call sender m))
      (moves : (f : (Address → ℕ) → Address → ℕ) (v : Vault) → R v (moved f v)) where
    perform_all-Keeps :
        (call : Interaction → Function ℕ)
        → ((i : Interaction) → Keeps R (call i))
        → (ms : List (Address × Message)) (u v : Vault) → R u v
        → R u (perform_all oz outside call ms v)
    unfolding perform_all
    perform_all-Keeps call hc [] u v h = h
    perform_all-Keeps call hc ((sender, m) ∷ ms) u v h =
        perform_all-Keeps call hc ms u _
          (settled-Keeps u v (perform oz outside call sender m v) h ((keeps call hc sender m).at v))

    answered-Keeps :
        (call : Interaction → Function ℕ)
        → ((i : Interaction) → Keeps R (call i))
        → (v : Vault) (reply : Option Reply) → After (R v) (answered oz outside call reply v)
    answered-Keeps call hc v none = tt
    answered-Keeps call hc v (some r) =
        let before = perform_all-Keeps call hc r.before v v (order.same v) in
        perform_all-Keeps call hc r.after v _ (order.then_on v _ _ before (moves r.move _))

    -- What is kept where the called contracts keep it is kept at whatever depth they call back.
    pub call_out-Keeps : (depth : ℕ) (i : Interaction) → Keeps R (call_out oz outside depth i)
    unfolding call_out
    call_out-Keeps zero i = record { at = λ v. tt }
    call_out-Keeps (suc depth) i = record {
      at = λ v.
          answered-Keeps (call_out oz outside depth) (call_out-Keeps depth) v (outside.answer i v);
    }

  module _
      (keeps : (outside : Outside) (call : Interaction → Function ℕ)
        → ((i : Interaction) → Keeps R (call i))
        → (sender : Address) (m : Message) → Keeps R (perform oz outside call sender m))
      (moves : (f : (Address → ℕ) → Address → ℕ) (v : Vault) → R v (moved f v)) where
    pub transact-Keeps :
        (depth : ℕ) (ts : List (Outside × Address × Message)) (u v : Vault)
        → R u v
        → R u (transact oz depth ts v)
    unfolding transact
    transact-Keeps depth [] u v h = h
    transact-Keeps depth ((outside, sender, m) ∷ ts) u v h = transact-Keeps depth ts u _ (
        settled-Keeps u v (perform oz outside (call_out oz outside depth) sender m v) h (
          (keeps outside (call_out oz outside depth)
              (call_out-Keeps outside (keeps outside) moves depth) sender m).at
            v))
