-- ===== src/Repository/Effects.antt =====
-- What the methods of packages/core/src/repositories/order.repository.ts do, as effects.
use synthetic_order_executor.Base.{
  Option, ℕ, suc, Bool, true, none, some, List, [], ◌∷◌, ◌++◌, ◌≡◌, refl, arith, ◌⊎◌, ==_self, All,
  length, ◌≤◌,
}
use synthetic_order_executor.Order.{OrderId, Order, executing, executed, failed}
use synthetic_order_executor.Effects.{
  Env, World, Table, done, Call, changed, OrderBy, environment, ◌>>=◌, query,
}
use synthetic_order_executor.Repository.Labels.{
  labelled, transition_status-labelled, mark_confirmed-labelled, mark_failed-labelled,
}
use synthetic_order_executor.Repository.{
  update, find_by_id, increment_monitor_attempts, update_many, put, read_many, transition_status,
  mark_confirmed, mark_failed, TransitionParams, ConfirmParams, FailParams, transition_stmt,
  confirmed_stmt, failed_stmt,
}

module _ {ℓ} {A : Type ℓ} (q : ℕ → Table → A × Table × List Call) (env : Env) (w : World) where
  -- A query adds to the calls what its statement leaves, or nothing where it throws.
  pub query-calls :
      ((query q env w).1.calls ≡ w.calls)
      ⊎ ((query q env w).1.calls ≡ (q (env.now w.tick) (env.others w.tick w.orders)).2 ++ w.calls)
  unfolding query
  query-calls = ground arith

-- `labelled c id stmt` adds `c`, if anything.
pub labelled-calls :
    (c : Call) (id : OrderId) (stmt : ℕ → Table → Table × ℕ) (env : Env) (w : World)
    → ((labelled c id stmt env w).1.calls ≡ w.calls)
      ⊎ ((labelled c id stmt env w).1.calls ≡ c ∷ w.calls)
unfolding labelled find_by_id query ◌>>=◌
labelled-calls c id stmt env w = ground arith

pub transition_status-calls :
    (p : TransitionParams) (env : Env) (w : World)
    → let after = (transition_status p env w).1.calls in
      (after ≡ w.calls) ⊎ (after ≡ changed p.id p.expected_status p.next_status ∷ w.calls)
transition_status-calls p env w =
    rw (transition_status-labelled p) (labelled-calls _ p.id (transition_stmt p) env w)

pub mark_confirmed-calls :
    (p : ConfirmParams) (env : Env) (w : World)
    → let after = (mark_confirmed p env w).1.calls in
      (after ≡ w.calls) ⊎ (after ≡ changed p.id executing executed ∷ w.calls)
mark_confirmed-calls p env w =
    rw (mark_confirmed-labelled p) (labelled-calls _ p.id (confirmed_stmt p) env w)

pub mark_failed-calls :
    (p : FailParams) (env : Env) (w : World)
    → let after = (mark_failed p env w).1.calls in
      (after ≡ w.calls) ⊎ (after ≡ changed p.id executing failed ∷ w.calls)
mark_failed-calls p env w =
    rw (mark_failed-labelled p) (labelled-calls _ p.id (failed_stmt p) env w)

-- A read leaves the calls, and gives the row as it is when the read is made.
pub find_by_id-reads :
    (id : OrderId) (env : Env) (w : World)
    → let (r, w') = find_by_id id env w in
      (w'.calls ≡ w.calls) × ((o : Option Order) → r ≡ done o → env.others w.tick w.orders id ≡ o)
unfolding find_by_id query
find_by_id-reads id env w = (ground arith, λ o h. ground arith)

pub increment-calls :
    (id : OrderId) (env : Env) (w : World) → (increment_monitor_attempts id env w).1.calls ≡ w.calls
unfolding increment_monitor_attempts query
increment-calls id env w = ground arith

-- No fault of the database, and no other process at work.
pub record IsQuiet (env : Env) : Type 0 where
  pub alone : (n : ℕ) (t : Table) → env.others n t ≡ t
  pub sound : (n : ℕ) → env.db_fault n ≡ none

module _ {env : Env} (quiet : IsQuiet env) where
  pub query-quiet {ℓ} :
      {A : Type ℓ} (q : ℕ → Table → A × Table × List Call) (w : World)
      → query q env w ≡ (
          let r = q (env.now w.tick) w.orders in
          (done r.0, record w { tick = suc w.tick; orders = r.1; calls = r.2 ++ w.calls }))
  unfolding query
  query-quiet q w = rw (quiet.sound w.tick, quiet.alone w.tick w.orders) refl

  pub find_by_id-quiet :
      (id : OrderId) (w : World)
      → find_by_id id env w ≡ (done (w.orders id), record w { tick = suc w.tick })
  unfolding find_by_id
  find_by_id-quiet id w = query-quiet (λ now t. (t id, t, [])) w

  -- A guarded UPDATE that matches its row returns the new row.
  pub update-quiet :
      (see : Order → Order → List Call) (id : OrderId) (p : Order → Bool) (f : ℕ → Order → Order)
      (w : World) (o : Order)
      → w.orders id ≡ some o
      → p o ≡ true
      → update see id (λ now t. update_many t id p (f now)) env w ≡ (
          let o' = f (env.now w.tick) o in
          (
            done (some o'),
            record w {
              tick = suc (suc w.tick);
              orders = put w.orders id o';
              calls = see o o' ++ w.calls;
            },
          ))
  unfolding update update_many ◌>>=◌
  update-quiet see id p f w o found m =
      rw query-quiet (rw found (rw m (rw find_by_id-quiet (rw (found, ==_self id) refl))))

-- What a `findMany` promises: rows of the table that its WHERE selects, at most as many as asked for.
pub record IsFindMany (env : Env) : Type 0 where
  pub selected :
      (p : Order → Bool) (order : OrderBy) (n : ℕ) (t : Table)
      → All (λ o. (t o.id ≡ some o) × (p o ≡ true)) (env.find_many p order n t)
  pub limited :
      (p : Order → Bool) (order : OrderBy) (n : ℕ) (t : Table)
      → length (env.find_many p order n t) ≤ n

pub read_many-done :
    (p : ℕ → Order → Bool) (order : OrderBy) (n : ℕ) (env : Env) (w w' : World) (os : List Order)
    → read_many p order n env w ≡ (done os, w')
    → env.find_many (p (env.now w.tick)) order n (env.others w.tick w.orders) ≡ os
unfolding read_many query ◌>>=◌ environment
read_many-done p order n env w w' os h = ground arith
