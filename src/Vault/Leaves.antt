-- ===== src/Vault/Leaves.antt =====
-- What holds of the state that a function of the contract leaves, from one state on: one rule for each
-- way a block may begin.
use synthetic_order_executor.Base.{
  ℕ, ◌-◌, ◌≤◌, Bool, true, false, ◌∷◌, ◌≡◌, refl, arith, inl, inr, Bool-cases, ltb, not,
}
use synthetic_order_executor.Order.{Address}
use synthetic_order_executor.Chain.{ExecutionParams}
use synthetic_order_executor.Vault.{
  Vault, VaultError, Result, returned, reverted, Function, revert, ◌>>=◌, continue, get, modify,
  revert_if, emit, pure, checked_sub, Event, token_not_allowed,
}
use synthetic_order_executor.Vault.Functions.{check_swap, allowed}
use synthetic_order_executor.Vault.Keeps.{After}

pub record Leaves {A : Type 0} (Q : Vault → Type 0) (m : Function A) (v : Vault) : Type 0 where
  pub at : After Q (m v)

module _ {B : Type 0} {Q : Vault → Type 0} where
  pub Leaves-revert_if :
      (b : Bool) (e : VaultError) (f : Unit {0} → Function B) (v : Vault)
      → (b ≡ false → Leaves Q (f tt) v)
      → Leaves Q (revert_if b e >>= f) v
  unfolding revert_if ◌>>=◌
  Leaves-revert_if true e f v k = record { at = tt }
  Leaves-revert_if false e f v k = record { at = (k refl).at }

  pub Leaves-get : (f : Vault → Function B) (v : Vault) → Leaves Q (f v) v → Leaves Q (get >>= f) v
  unfolding get ◌>>=◌
  Leaves-get f v k = record { at = k.at }

  pub Leaves-modify :
      (g : Vault → Vault) (f : Unit {0} → Function B) (v : Vault)
      → Leaves Q (f tt) (g v)
      → Leaves Q (modify g >>= f) v
  unfolding modify ◌>>=◌
  Leaves-modify g f v k = record { at = k.at }

  pub Leaves-allowed :
      (token : Address) (f : Unit {0} → Function B) (v : Vault)
      → Leaves Q (f tt) v
      → Leaves Q (allowed token >>= f) v
  unfolding allowed get ◌>>=◌
  Leaves-allowed token f v k = record {
    at = (Leaves-revert_if (not (v.allowed_token token)) (token_not_allowed token) f v (λ e. k)).at;
  }

  pub Leaves-checked_sub :
      (a b : ℕ) (f : ℕ → Function B) (v : Vault)
      → (b ≤ a → Leaves Q (f (a - b)) v)
      → Leaves Q (checked_sub a b >>= f) v
  unfolding checked_sub ◌>>=◌
  Leaves-checked_sub a b f v k = record {
    at = elim (Bool-cases (ltb a b)) [ inl e ↦ rw e tt | inr e ↦ rw e (k (ground arith)).at ];
  }

  pub Leaves-pure :
      {A : Type 0} (a : A) (f : A → Function B) (v : Vault)
      → Leaves Q (f a) v
      → Leaves Q (pure a >>= f) v
  unfolding pure ◌>>=◌
  Leaves-pure a f v k = record { at = k.at }

  pub Leaves-assoc :
      {A C : Type 0} (m : Function A) (g : A → Function C) (f : C → Function B) (v : Vault)
      → Leaves Q (m >>= λ a. g a >>= f) v
      → Leaves Q (m >>= g >>= f) v
  unfolding ◌>>=◌
  Leaves-assoc {A} {C} m g f v k = record { at = go (m v) k.at }
    where
      go :
          (r : Result A)
          → After Q (continue (λ a w. continue f (g a w)) r)
          → After Q (continue f (continue g r))
      go (returned a w) p = p
      go (reverted e) p = tt

  -- A part of which it is known what it leaves.
  pub Leaves-part :
      {A : Type 0} (P : Vault → Type 0) (m : Function A) (f : A → Function B) (v : Vault)
      → Leaves P m v
      → ((a : A) (w : Vault) → P w → Leaves Q (f a) w)
      → Leaves Q (m >>= f) v
  unfolding ◌>>=◌
  Leaves-part {A} P m f v h k = record { at = go (m v) h.at }
    where
      go : (r : Result A) → After P r → After Q (continue f r)
      go (returned a w) p = (k a w p).at
      go (reverted e) p = tt

pub Leaves-emit :
    (Q : Vault → Type 0) (e : Event) (v : Vault)
    → Q (record v { events = e ∷ v.events })
    → Leaves Q (emit e) v
unfolding emit modify
Leaves-emit Q e v q = record { at = q }

pub Leaves-end : {A : Type 0} (Q : Vault → Type 0) (a : A) (v : Vault) → Q v → Leaves Q (pure a) v
unfolding pure
Leaves-end Q a v q = record { at = q }

pub Leaves-revert :
    {A B : Type 0} (Q : Vault → Type 0) (e : VaultError) (f : A → Function B) (v : Vault)
    → Leaves Q (revert e >>= f) v
unfolding revert ◌>>=◌
Leaves-revert Q e f v = record { at = tt }

-- What the checks of a swap have found when they return.
pub check_swap-fresh :
    (now : ℕ) (params : ExecutionParams) (v : Vault)
    → Leaves (λ w. (w ≡ v) × (v.executed_ids params.execution_id ≡ false)) (check_swap now params) v
unfolding check_swap allowed get revert_if ◌>>=◌
check_swap-fresh now params v = record { at = ground arith }

pub Leaves-weaken :
    {A : Type 0} (P Q : Vault → Type 0) (m : Function A) (v : Vault)
    → Leaves P m v
    → ((w : Vault) → P w → Q w)
    → Leaves Q m v
Leaves-weaken {A} P Q m v h k = record { at = go (m v) h.at }
  where
    go : (r : Result A) → After P r → After Q r
    go (returned a w) p = k w p
    go (reverted e) p = tt
