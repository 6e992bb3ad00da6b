-- ===== src/Repository/Claims.antt =====
-- The compare-and-swap of packages/core/src/repositories/order.repository.ts among all the
-- statements that any number of processes may issue, in any order.
use synthetic_order_executor.Base.{
  ℕ, suc, ◌<◌, Bool, true, false, Option, none, some, List, ◌≡◌, ◌⊎◌, refl, arith, inl, inr,
  Bool-cases, ==_self,
}
use mathlib.Core.Path.{subst₂}
use synthetic_order_executor.Order.{OrderId, Order}
use synthetic_order_executor.Effects.{Table}
use synthetic_order_executor.Repository.Statements.{
  Statement, insert, commit, matches, assigned, OnRow, OnRow-commit, AnyStatement, AllOf-any,
}
use synthetic_order_executor.Repository.{
  TransitionParams, transition_stmt, transition_row, transition_matches, record_hash_row,
  confirmed_row, failed_row, forced_row, update_row,
}

abbrev Advances : Order → Order → Type 0
Advances o o' = ((o'.version ≡ o.version) × (o'.status ≡ o.status)) ⊎ (o.version < o'.version)

assigned-Advances :
    (s : Statement) (now : ℕ) (o : Order)
    → AnyStatement s
    → matches s o ≡ true
    → Advances o (assigned s now o)
unfolding transition_row record_hash_row confirmed_row failed_row forced_row
assigned-Advances (insert d) now o g m = cc
assigned-Advances _ now o g m = ground arith

-- A statement leaves the version and the status of a row, or it raises the version.
commit-Advances :
    (ss : List (ℕ × Statement)) (t : Table) (id : OrderId) → OnRow Advances (t id) (commit ss t id)
commit-Advances ss t id =
    OnRow-commit Advances (λ o. ground arith) (λ o p q h k. ground arith) AnyStatement
      assigned-Advances ss t id (AllOf-any ss)

-- The optimistic lock: after any schedule, a row whose version is what it was has the status that
-- it had.
pub same_version-same_status :
    (ss : List (ℕ × Statement)) (t : Table) (id : OrderId) (o o' : Order)
    → t id ≡ some o
    → commit ss t id ≡ some o'
    → o'.version ≡ o.version
    → o'.status ≡ o.status
same_version-same_status ss t id o o' before after v =
    ground (arith, subst₂ (OnRow Advances) before after (commit-Advances ss t id))

module _ (t : Table) (k : OrderId) (p : Order → Bool) (f : Order → Order) where
  update_row-matched :
      (a : Option Order)
      → (update_row t k p f a).1 ≡ 1
      → (o : Order) × (a ≡ some o) × (p o ≡ true) × ((update_row t k p f a).0 k ≡ some (f o))
  update_row-matched none h = absurd (omega arith)
  update_row-matched (some o) h = elim (Bool-cases (p o)) [
    | inl e ↦ (o, refl, e, rw (e, ==_self k) refl)
    | inr e ↦ absurd (ground arith)
  ]

  update_row-unmatched :
      (a : Option Order) → ((o : Order) → a ≡ some o → p o ≡ false) → update_row t k p f a ≡ (t, 0)
  update_row-unmatched none h = refl
  update_row-unmatched (some o) h = rw (h o refl) refl

-- A claim that matches a row finds it in the expected status and version, and leaves it in the next
-- status with the version after.
pub transition-matched :
    (p : TransitionParams) (now : ℕ) (t : Table)
    → (transition_stmt p now t).1 ≡ 1
    → (o : Order) × (t p.id ≡ some o)
      × (transition_matches p o ≡ true)
      × ((transition_stmt p now t).0 p.id ≡ some (transition_row p now o))
unfolding transition_stmt
transition-matched p now t h =
    update_row-matched t p.id (transition_matches p) (transition_row p now) (t p.id) h

past_claim :
    (a b : Option Order) (v : ℕ) (o o' : Order)
    → a ≡ some o
    → b ≡ some o'
    → o.version ≡ suc v
    → OnRow Advances a b
    → v < o'.version
past_claim a b v o o' ha hb hv h = ground (arith, subst₂ (OnRow Advances) ha hb h)

-- A claim matches no row once the row's version has passed the expected one.
stale_claim :
    (q : TransitionParams) (later : ℕ) (t : Table)
    → ((o : Order) → t q.id ≡ some o → q.expected_version < o.version)
    → transition_stmt q later t ≡ (t, 0)
unfolding transition_stmt transition_matches
stale_claim q later t h =
    update_row-unmatched t q.id (transition_matches q) (transition_row q later) (t q.id)
      (λ o e. ground (arith, h o e))

-- Of two claims that expect the same version of the same order, the first of which matched a row,
-- the second matches no row and changes nothing, whatever statements any processes commit in between.
pub claims_exclusive :
    (p q : TransitionParams) (now later : ℕ) (ss : List (ℕ × Statement)) (t : Table)
    → q.id ≡ p.id
    → q.expected_version ≡ p.expected_version
    → (transition_stmt p now t).1 ≡ 1
    → transition_stmt q later (commit ss (transition_stmt p now t).0)
      ≡ (commit ss (transition_stmt p now t).0, 0)
unfolding transition_row transition_matches
claims_exclusive p q now later ss t same_id same_version won =
    let (o, found, matched, left) = transition-matched p now t won in
    stale_claim q later (commit ss (transition_stmt p now t).0) λ o' e. rw same_version (
      past_claim ((transition_stmt p now t).0 p.id) (commit ss (transition_stmt p now t).0 p.id)
        p.expected_version (transition_row p now o) o' left (rw same_id at e) (ground arith)
        (commit-Advances ss (transition_stmt p now t).0 p.id))
