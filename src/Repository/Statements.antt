-- ===== src/Repository/Statements.antt =====
-- Any statement that packages/core/src/repositories/order.repository.ts may issue, schedules of
-- them, and how a relation between the rows before and after is carried along a schedule.
use synthetic_order_executor.Base.{
  ℕ, Bool, true, false, Option, none, some, List, [], ◌∷◌, ◌≡◌, arith, inl, inr, Bool-cases,
  Option-cases, ==_iff, ◌==◌, if◌then◌else◌, is_some,
}
use synthetic_order_executor.Order.{OrderId, Hex, Order}
use synthetic_order_executor.Effects.{Table}
use synthetic_order_executor.Repository.{
  CreateOrderData, TransitionParams, ConfirmParams, FailParams, ForceParams, put, new_row,
  update_many, transition_stmt, transition_row, transition_matches, record_hash_stmt,
  record_hash_row, confirmed_stmt, confirmed_row, failed_stmt, failed_row, polled_stmt, polled_row,
  forced_stmt, forced_row, forced_matches, is_executing,
}

pub data Statement : Type 0 where
  insert : CreateOrderData → Statement
  transition : TransitionParams → Statement
  record_hash : OrderId → Hex → Statement
  confirm : ConfirmParams → Statement
  fail : FailParams → Statement
  poll : OrderId → Statement
  force : ForceParams → Statement

-- The new table and the number of rows that matched.
unfoldable pub apply : Statement → ℕ → Table → Table × ℕ
apply (insert d) now t = if is_some (t d.id) then (t, 0) else (put t d.id (new_row d now), 1)
apply (transition p) now t = transition_stmt p now t
apply (record_hash id h) now t = record_hash_stmt id h now t
apply (confirm p) now t = confirmed_stmt p now t
apply (fail p) now t = failed_stmt p now t
apply (poll id) now t = polled_stmt id now t
apply (force p) now t = forced_stmt p now t

-- A schedule: the statements in the order in which the database commits them, with their times.
unfoldable pub commit : List (ℕ × Statement) → Table → Table
commit [] t = t
commit ((now, s) ∷ rest) t = commit rest (apply s now t).0

-- The WHERE of an UPDATE beyond its key, and what it assigns. An INSERT matches no row.
abbrev pub matches : Statement → Order → Bool
matches (insert d) o = false
matches (transition p) o = transition_matches p o
matches (record_hash id h) o = is_executing o
matches (confirm p) o = is_executing o
matches (fail p) o = is_executing o
matches (poll id) o = true
matches (force p) o = forced_matches p o

abbrev pub assigned : Statement → ℕ → Order → Order
assigned (insert d) now o = o
assigned (transition p) now o = transition_row p now o
assigned (record_hash id h) now o = record_hash_row h now o
assigned (confirm p) now o = confirmed_row p now o
assigned (fail p) now o = failed_row p now o
assigned (poll id) now o = polled_row now o
assigned (force p) now o = forced_row p now o

-- What an UPDATE leaves in a row that its WHERE may match.
abbrev pub set_if : (Order → Bool) → (Order → Order) → Option Order → Option Order
set_if p f none = none
set_if p f (some o) = some (if p o then f o else o)

pub update_many-at :
    (t : Table) (k : OrderId) (p : Order → Bool) (f : Order → Order) (id : OrderId)
    → (update_many t k p f).0 id ≡ (if id == k then set_if p f (t id) else t id)
unfolding update_many
update_many-at t k p f id = elim (Option-cases (t k)) [
  | inl e ↦ rw e (ground arith)
  | inr (o, e) ↦ rw e (ground arith)
]

-- A row that was there is still there, and `R` relates the two.
abbrev pub OnRow : (Order → Order → Type 0) → Option Order → Option Order → Type 0
OnRow R none after = Unit
OnRow R (some o) none = ⊥
OnRow R (some o) (some o') = R o o'

abbrev pub AllOf : (Statement → Type 0) → List (ℕ × Statement) → Type 0
AllOf G [] = Unit
AllOf G ((now, s) ∷ ss) = G s × AllOf G ss

module _ (R : Order → Order → Type 0) (R-refl : (o : Order) → R o o)
    (R-trans : (o p q : Order) → R o p → R p q → R o q) where
  OnRow-refl : (a : Option Order) → OnRow R a a
  OnRow-refl none = tt
  OnRow-refl (some o) = R-refl o

  OnRow-trans : (a b c : Option Order) → OnRow R a b → OnRow R b c → OnRow R a c
  OnRow-trans none b c h k = tt
  OnRow-trans (some o) none c h k = absurd h
  OnRow-trans (some o) (some p) none h k = absurd k
  OnRow-trans (some o) (some p) (some q) h k = R-trans o p q h k

  OnRow-set_if :
      (p : Order → Bool) (f : Order → Order)
      → ((o : Order) → p o ≡ true → R o (f o))
      → (b : Bool) (a : Option Order) → OnRow R a (if b then set_if p f a else a)
  OnRow-set_if p f h false a = OnRow-refl a
  OnRow-set_if p f h true none = tt
  OnRow-set_if p f h true (some o) = elim (Bool-cases (p o)) [
    | inl e ↦ rw e (h o e)
    | inr e ↦ rw e (R-refl o)
  ]

  OnRow-update_many :
      (p : Order → Bool) (f : Order → Order)
      → ((o : Order) → p o ≡ true → R o (f o))
      → (t : Table) (k id : OrderId) → OnRow R (t id) ((update_many t k p f).0 id)
  OnRow-update_many p f h t k id =
      rw (update_many-at t k p f id) (OnRow-set_if p f h (id == k) (t id))

  OnRow-put :
      (t : Table) (k : OrderId) (o : Order) (id : OrderId)
      → t k ≡ none
      → OnRow R (t id) (put t k o id)
  OnRow-put t k o id h = elim (Bool-cases (id == k)) [
    | inl e ↦ rw ((==_iff id k).0 e) (rw h tt)
    | inr e ↦ rw e (OnRow-refl (t id))
  ]

  OnRow-insert :
      (d : CreateOrderData) (now : ℕ) (t : Table) (id : OrderId)
      → OnRow R (t id) ((apply (insert d) now t).0 id)
  unfolding apply
  OnRow-insert d now t id = elim (Option-cases (t d.id)) [
    | inl e ↦ rw e (OnRow-put t d.id (new_row d now) id e)
    | inr (o, e) ↦ rw e (OnRow-refl (t id))
  ]

module _ (R : Order → Order → Type 0) (R-refl : (o : Order) → R o o)
    (R-trans : (o p q : Order) → R o p → R p q → R o q) (G : Statement → Type 0)
    (keeps : (s : Statement) (now : ℕ) (o : Order)
      → G s
      → matches s o ≡ true
      → R o (assigned s now o)) where
  OnRow-apply :
      (s : Statement) (now : ℕ) (t : Table) (id : OrderId)
      → G s
      → OnRow R (t id) ((apply s now t).0 id)
  unfolding apply transition_stmt record_hash_stmt confirmed_stmt failed_stmt polled_stmt
      forced_stmt
  OnRow-apply (insert d) now t id g = OnRow-insert R R-refl R-trans d now t id
  OnRow-apply (transition p) now t id g =
      OnRow-update_many R R-refl R-trans (transition_matches p) (transition_row p now)
        (λ o. keeps (transition p) now o g) t p.id id
  OnRow-apply (record_hash k h) now t id g =
      OnRow-update_many R R-refl R-trans is_executing (record_hash_row h now)
        (λ o. keeps (record_hash k h) now o g) t k id
  OnRow-apply (confirm p) now t id g =
      OnRow-update_many R R-refl R-trans is_executing (confirmed_row p now)
        (λ o. keeps (confirm p) now o g) t p.id id
  OnRow-apply (fail p) now t id g =
      OnRow-update_many R R-refl R-trans is_executing (failed_row p now)
        (λ o. keeps (fail p) now o g) t p.id id
  OnRow-apply (poll k) now t id g =
      OnRow-update_many R R-refl R-trans (λ o. true) (polled_row now) (λ o. keeps (poll k) now o g)
        t k id
  OnRow-apply (force p) now t id g =
      OnRow-update_many R R-refl R-trans (forced_matches p) (forced_row p now)
        (λ o. keeps (force p) now o g) t p.id id

  -- Along a schedule of statements that `G` allows, `R` relates each row to what becomes of it.
  pub OnRow-commit :
      (ss : List (ℕ × Statement)) (t : Table) (id : OrderId)
      → AllOf G ss
      → OnRow R (t id) (commit ss t id)
  unfolding commit
  OnRow-commit [] t id g = OnRow-refl R R-refl R-trans (t id)
  OnRow-commit ((now, s) ∷ ss) t id g =
      OnRow-trans R R-refl R-trans (t id) ((apply s now t).0 id) _ (OnRow-apply s now t id g.0)
        (OnRow-commit ss (apply s now t).0 id g.1)

abbrev pub AnyStatement : Statement → Type 0
AnyStatement s = Unit

pub AllOf-any : (ss : List (ℕ × Statement)) → AllOf AnyStatement ss
AllOf-any [] = tt
AllOf-any ((now, s) ∷ ss) = (tt, AllOf-any ss)
