-- ===== src/Repository/Refinement.antt =====
-- The life of an order that packages/core/src/domain/orderStatus.ts describes, as a machine on
-- statuses alone, and the table of packages/core/src/repositories/order.repository.ts against it.
use synthetic_order_executor.Base.{
  ◌⊎◌, inl, inr, ◌==◌, Bool-cases, Option-cases, ℕ, true, Bool, Option, none, some, List, [], ◌∷◌,
  ◌≡◌, refl, arith, if◌then◌else◌,
}
use synthetic_order_executor.Order.{OrderId, Status, pending, Order}
use synthetic_order_executor.Order.StateMachine.{can_transition, ◌⟶*◌, here, step}
use synthetic_order_executor.Effects.{Table}
use synthetic_order_executor.Repository.{
  CreateOrderData, new_row, update_many, transition_stmt, record_hash_stmt, confirmed_stmt,
  failed_stmt, polled_stmt, polled_row, forced_stmt,
}
use synthetic_order_executor.Repository.Statements.{
  Statement, insert, transition, record_hash, confirm, fail, poll, force, apply, commit, AllOf,
  update_many-at, set_if,
}
use synthetic_order_executor.Repository.Lifecycle.{IsGuarded, guarded_history}

-- An order is not there, or it has a status: it is created in `PENDING`, and then moves as the table
-- allows.
infix 40 ◌↝*◌
pub data ◌↝*◌ : Option Status → Option Status → Type 0 where
  stays : {a : Option Status} → a ↝* a
  created : {a : Option Status} → a ↝* none → a ↝* some pending
  moved : {a : Option Status} {s t : Status} → a ↝* some s → can_transition s t ≡ true → a ↝* some t

-- What the machine sees of a row.
abbrev pub seen : Option Order → Option Status
seen none = none
seen (some o) = some o.status

runs : {a : Option Status} {s t : Status} → a ↝* some s → s ⟶* t → a ↝* some t
runs h here = h
runs h (step r e) = moved (runs h r) e

-- Where there was no row there is none after, or a new one.
IsBorn : Option Order → Type 0
IsBorn a = (a ≡ none) ⊎ ((o : Order) × (a ≡ some o) × (o.status ≡ pending))

absent-set_if :
    (p : Order → Bool) (f : Order → Order) (b : Bool) (a : Option Order)
    → a ≡ none
    → (if b then set_if p f a else a) ≡ none
absent-set_if p f b a h = rw h (ground arith)

absent-update_many :
    (t : Table) (k id : OrderId) (p : Order → Bool) (f : Order → Order)
    → t id ≡ none
    → IsBorn ((update_many t k p f).0 id)
unfolding IsBorn
absent-update_many t k id p f h =
    inl (rw (update_many-at t k p f id) (absent-set_if p f (id == k) (t id) h))

absent-insert :
    (d : CreateOrderData) (now : ℕ) (t : Table) (id : OrderId)
    → t id ≡ none
    → IsBorn ((apply (insert d) now t).0 id)
unfolding apply IsBorn new_row
absent-insert d now t id h = elim (Option-cases (t d.id)) [
  | inl e ↦ rw e (elim (Bool-cases (id == d.id)) [
    | inl same ↦ rw same (inr (new_row d now, refl, refl))
    | inr other ↦ rw other (inl h)
  ])
  | inr (o, e) ↦ rw e (inl h)
]

absent-apply :
    (s : Statement) (now : ℕ) (t : Table) (id : OrderId)
    → t id ≡ none
    → IsBorn ((apply s now t).0 id)
unfolding apply transition_stmt record_hash_stmt confirmed_stmt failed_stmt polled_stmt forced_stmt
absent-apply (insert d) now t id h = absent-insert d now t id h
absent-apply (transition p) now t id h = absent-update_many t p.id id _ _ h
absent-apply (record_hash k x) now t id h = absent-update_many t k id _ _ h
absent-apply (confirm p) now t id h = absent-update_many t p.id id _ _ h
absent-apply (fail p) now t id h = absent-update_many t p.id id _ _ h
absent-apply (poll k) now t id h = absent-update_many t k id (λ o. true) (polled_row now) h
absent-apply (force p) now t id h = absent-update_many t p.id id _ _ h

-- A row that is there runs as the machine does.
row-runs :
    (a : Option Status) (ss : List (ℕ × Statement)) (t : Table) (id : OrderId) (o : Order)
    → AllOf IsGuarded ss
    → t id ≡ some o
    → a ↝* some o.status
    → a ↝* seen (commit ss t id)
row-runs a ss t id o g found h =
    let (o', after, steps, kept) = guarded_history ss t id o g found in rw after (runs h steps)

absent-runs :
    (ss : List (ℕ × Statement)) (t : Table) (id : OrderId)
    → AllOf IsGuarded ss
    → t id ≡ none
    → none ↝* seen (commit ss t id)
unfolding commit IsBorn
absent-runs [] t id g h = rw h stays
absent-runs ((now, s) ∷ ss) t id g h =
    let rest = absent-runs ss (apply s now t).0 id g.1 in
    elim (absent-apply s now t id h) [
      | inl e ↦ rest e
      | inr (o, e, fresh) ↦ row-runs none ss _ id o g.1 e (rw fresh (created stays))
    ]

-- Under a schedule in which every transition is one that the table allows and nothing is forced,
-- what becomes of an order, whether or not it has a row to begin with, is a run of the machine that
-- the table describes: created once, in `PENDING`, then moved by steps of the table, never removed.
pub commit-Refines :
    (ss : List (ℕ × Statement)) (t : Table) (id : OrderId)
    → AllOf IsGuarded ss
    → seen (t id) ↝* seen (commit ss t id)
commit-Refines ss t id g = elim (Option-cases (t id)) [
  | inl e ↦ rw e (absent-runs ss t id g e)
  | inr (o, e) ↦ rw e (row-runs (some o.status) ss t id o g e stays)
]
