-- ===== src/Order/StateMachine.antt =====
-- packages/core/src/domain/orderStatus.ts: the table of legal transitions and the policies on it.
use synthetic_order_executor.Base.{
  Bool, true, false, List, [], ◌∷◌, ◌||◌, ◌≡◌, refl, ◌↔◌, arith, ◌⊎◌,
}
use synthetic_order_executor.Order.{
  Status, pending, triggered, executing, executed, failed, cancelled, same_status,
}

pub allowed_transitions : Status → List Status
allowed_transitions pending = triggered ∷ cancelled ∷ []
allowed_transitions triggered = executing ∷ cancelled ∷ failed ∷ []
allowed_transitions executing = executed ∷ failed ∷ []
allowed_transitions failed = triggered ∷ []
allowed_transitions executed = []
allowed_transitions cancelled = []

abbrev pub terminal_statuses : List Status
terminal_statuses = executed ∷ cancelled ∷ []

abbrev pub user_cancellable_statuses : List Status
user_cancellable_statuses = pending ∷ triggered ∷ []

-- `includes`
pub includes : List Status → Status → Bool
includes [] s = false
includes (t ∷ ts) s = let rest = includes ts s in same_status t s || rest

unfoldable pub can_transition : Status → Status → Bool
unfolding allowed_transitions includes
can_transition from to = includes (allowed_transitions from) to

unfoldable pub is_terminal : Status → Bool
unfolding includes
is_terminal s = includes terminal_statuses s

unfoldable pub is_user_cancellable : Status → Bool
unfolding includes
is_user_cancellable s = includes user_cancellable_statuses s

-- A history of an order in which every change of status is one that the table allows.
infix 40 ◌⟶*◌
pub data ◌⟶*◌ : Status → Status → Type 0 where
  here : {s : Status} → s ⟶* s
  step : {s t u : Status} → s ⟶* t → can_transition t u ≡ true → s ⟶* u

-- A status is terminal exactly when the table has no way out of it.
pub is_terminal_iff :
    (s : Status) → (is_terminal s ≡ true) ↔ ((t : Status) → can_transition s t ≡ false)
unfolding is_terminal can_transition
is_terminal_iff executed = (λ h t. refl, λ h. refl)
is_terminal_iff cancelled = (λ h t. refl, λ h. refl)
is_terminal_iff pending = (λ h. ground arith, λ h. ground (arith, h triggered))
is_terminal_iff triggered = (λ h. ground arith, λ h. ground (arith, h executing))
is_terminal_iff executing = (λ h. ground arith, λ h. ground (arith, h executed))
is_terminal_iff failed = (λ h. ground arith, λ h. ground (arith, h triggered))

-- A user may cancel from exactly those statuses from which the table allows `CANCELLED`.
pub is_user_cancellable-eq-can_transition :
    (s : Status) → is_user_cancellable s ≡ can_transition s cancelled
unfolding is_user_cancellable can_transition
is_user_cancellable-eq-can_transition s = ground arith

-- No transition leads back to `PENDING`, and none leads from a status to itself.
can_transition_targets :
    (s t : Status) → can_transition s t ≡ true → (t ≡ pending → ⊥) × (s ≡ t → ⊥)
unfolding can_transition
can_transition_targets s t h = ground arith

-- The status `CANCELLED` is reached only from `PENDING` or `TRIGGERED`, `EXECUTED` only from
-- `EXECUTING`.
pub last_step :
    (s t : Status)
    → can_transition s t ≡ true
    → (t ≡ executed → s ≡ executing) × (t ≡ cancelled → (s ≡ pending) ⊎ (s ≡ triggered))
unfolding can_transition
last_step s t h = ground arith

-- After a terminal status a history stays where it is.
pub terminal-⟶* : {s t : Status} → is_terminal s ≡ true → s ⟶* t → s ≡ t
unfolding is_terminal can_transition
terminal-⟶* h here = refl
terminal-⟶* {s} h (step {t = t} r e) = ground (arith, terminal-⟶* h r)
