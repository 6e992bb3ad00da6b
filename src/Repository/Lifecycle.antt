-- ===== src/Repository/Lifecycle.antt =====
-- The statements of packages/core/src/repositories/order.repository.ts against the table of
-- packages/core/src/domain/orderStatus.ts, and what they never write.
use mathlib.Core.Path.{subst}
use synthetic_order_executor.Base.{
  ◌⊎◌, inl, inr, Bool-cases, ℕ, false, true, Option, none, some, List, ◌≡◌, refl, arith,
}
use synthetic_order_executor.Order.{OrderId, Status, Order}
use synthetic_order_executor.Order.StateMachine.{
  can_transition, is_terminal, ◌⟶*◌, here, step, terminal-⟶*,
}
use synthetic_order_executor.Effects.{Table}
use synthetic_order_executor.Repository.{
  TransitionParams, transition_row, transition_matches, record_hash_row, confirmed_row, failed_row,
  forced_row,
}
use synthetic_order_executor.Repository.Statements.{
  Statement, insert, transition, record_hash, confirm, fail, poll, force, commit, matches, assigned,
  OnRow, AllOf, OnRow-commit, AnyStatement, AllOf-any,
}

-- The statements that respect the table: a transition that it allows, and every other but the
-- forced one.
abbrev pub IsGuarded : Statement → Type 0
IsGuarded (transition p) = can_transition p.expected_status p.next_status ≡ true
IsGuarded (force p) = ⊥
IsGuarded _ = Unit

abbrev Follows : Order → Order → Type 0
Follows o o' = o.status ⟶* o'.status

⟶*-trans : {s t u : Status} → s ⟶* t → t ⟶* u → s ⟶* u
⟶*-trans r here = r
⟶*-trans r (step q e) = step (⟶*-trans r q) e

one_step : {s t u : Status} → s ≡ t → can_transition t u ≡ true → s ⟶* u
one_step e h = step here (rw e h)

matched_status :
    (p : TransitionParams) (o : Order)
    → transition_matches p o ≡ true
    → o.status ≡ p.expected_status
unfolding transition_matches
matched_status p o h = ground arith

assigned-Follows :
    (s : Statement) (now : ℕ) (o : Order)
    → IsGuarded s
    → matches s o ≡ true
    → Follows o (assigned s now o)
unfolding transition_row record_hash_row confirmed_row failed_row can_transition
assigned-Follows (insert d) now o g m = here
assigned-Follows (transition p) now o g m = one_step (matched_status p o m) g
assigned-Follows (record_hash k h) now o g m = here
assigned-Follows (confirm p) now o g m = step here (ground arith)
assigned-Follows (fail p) now o g m = step here (ground arith)
assigned-Follows (poll k) now o g m = here
assigned-Follows (force p) now o g m = absurd g

commit-Follows :
    (ss : List (ℕ × Statement)) (t : Table) (id : OrderId)
    → AllOf IsGuarded ss
    → OnRow Follows (t id) (commit ss t id)
commit-Follows =
    OnRow-commit Follows (λ o. here) (λ o p q h k. ⟶*-trans h k) IsGuarded assigned-Follows

kept : {s t : Status} → s ⟶* t → (is_terminal s ≡ false) ⊎ (s ≡ t)
kept {s} h = elim (Bool-cases (is_terminal s)) [ inl e ↦ inr (terminal-⟶* e h) | inr e ↦ inl e ]

-- Under a schedule in which every transition is one that the table allows and nothing is forced, a
-- row that is there stays there, and its status goes from the one before to the one after by steps
-- of the table; a row in a terminal status keeps that status.
pub guarded_history :
    (ss : List (ℕ × Statement)) (t : Table) (id : OrderId) (o : Order)
    → AllOf IsGuarded ss
    → t id ≡ some o
    → (o' : Order) × (commit ss t id ≡ some o')
      × (o.status ⟶* o'.status)
      × ((is_terminal o.status ≡ false) ⊎ (o.status ≡ o'.status))
guarded_history ss t id o g found =
    go (commit ss t id)
      (subst (λ a. OnRow Follows a (commit ss t id)) found (commit-Follows ss t id g))
  where
    go :
        (after : Option Order)
        → OnRow Follows (some o) after
        → (o' : Order) × (after ≡ some o')
          × (o.status ⟶* o'.status)
          × ((is_terminal o.status ≡ false) ⊎ (o.status ≡ o'.status))
    go none h = absurd h
    go (some o') h = (o', refl, h, kept h)

-- What the user ordered.
abbrev pub SameTerms : Order → Order → Type 0
SameTerms o o' =
    (o'.id ≡ o.id)
    × (o'.user_address ≡ o.user_address)
    × (o'.token_in ≡ o.token_in)
    × (o'.token_out ≡ o.token_out)
    × (o'.side ≡ o.side)
    × (o'.amount ≡ o.amount)
    × (o'.trigger_price ≡ o.trigger_price)
    × (o'.execution_id ≡ o.execution_id)
    × (o'.created_at ≡ o.created_at)

assigned-SameTerms :
    (s : Statement) (now : ℕ) (o : Order)
    → AnyStatement s
    → matches s o ≡ true
    → SameTerms o (assigned s now o)
unfolding transition_row record_hash_row confirmed_row failed_row forced_row
assigned-SameTerms (insert d) now o g m = (refl, refl, refl, refl, refl, refl, refl, refl, refl)
assigned-SameTerms _ now o g m = (refl, refl, refl, refl, refl, refl, refl, refl, refl)

-- No schedule of statements removes an order or changes its owner, tokens, side, amount, trigger
-- price, execution id or creation time.
pub terms_kept :
    (ss : List (ℕ × Statement)) (t : Table) (id : OrderId) → OnRow SameTerms (t id) (commit ss t id)
terms_kept ss t id =
    OnRow-commit SameTerms (λ o. (refl, refl, refl, refl, refl, refl, refl, refl, refl))
      (λ o p q h k. ground arith) AnyStatement assigned-SameTerms ss t id (AllOf-any ss)
