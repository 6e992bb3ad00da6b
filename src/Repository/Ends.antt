-- ===== src/Repository/Ends.antt =====
-- How an UPDATE of packages/core/src/repositories/order.repository.ts that returns has ended.
use synthetic_order_executor.Base.{
  ◌++◌, ◌∙◌, ℕ, zero, suc, Bool, Bool-cases, Option, none, some, List, ◌∷◌, ◌≡◌, refl, arith, inl,
  inr, ==_self, ap,
}
use synthetic_order_executor.Order.{OrderId, Order}
use synthetic_order_executor.Effects.{Env, World, Table, done, Failure, Call, query, pure}
use synthetic_order_executor.Effects.Rules.{bind-eq-done}
use synthetic_order_executor.Repository.{update_many, update_row, put, find_by_id, row_if_matched}
use synthetic_order_executor.Repository.Labels.{labelled, labelled_count}

-- No process deletes an order.
pub record KeepsRows (env : Env) : Type 0 where
  pub kept :
      (n : ℕ) (t : Table) (id : OrderId) (o : Order)
      → t id ≡ some o
      → (o' : Order) × (env.others n t id ≡ some o')

-- With a row, the UPDATE has matched and is on the record; without, nothing has been done.
abbrev pub Ends : Call → List Call → Option Order → List Call → Type 0
Ends c before none after = after ≡ before
Ends c before (some o) after = after ≡ c ∷ before

query-done :
    (q : ℕ → Table → ℕ × Table × List Call) (env : Env) (w w' : World) (n : ℕ)
    → query q env w ≡ (done n, w')
    → let r = q (env.now w.tick) (env.others w.tick w.orders) in
      (n ≡ r.0) × (w'.orders ≡ r.1) × (w'.calls ≡ r.2 ++ w.calls)
unfolding query
query-done q env w w' n h = go (env.db_fault w.tick) refl
  where
    go :
        (fault : Option Failure)
        → env.db_fault w.tick ≡ fault
        → let r = q (env.now w.tick) (env.others w.tick w.orders) in
          (n ≡ r.0) × (w'.orders ≡ r.1) × (w'.calls ≡ r.2 ++ w.calls)
    go none e = let k = rw e at h in (cc, cc, cc)
    go (some f) e = let k = rw e at h in absurd (ground arith)

module _ (c : Call) (id : OrderId) (p : Order → Bool) (f : ℕ → Order → Order) {env : Env}
    (keeps : KeepsRows env) where
  -- The row that is read after the UPDATE.
  reread :
      (w w' : World) (a : Option Order)
      → ((o : Order) × (w.orders id ≡ some o))
      → find_by_id id env w ≡ (done a, w')
      → ((o : Order) × (a ≡ some o)) × (w'.calls ≡ w.calls)
  unfolding find_by_id query
  reread w w' a (o, found) h =
      let (o', still) = keeps.kept w.tick w.orders id o found in
      go (env.db_fault w.tick) refl o' still
    where
      go :
          (fault : Option Failure)
          → env.db_fault w.tick ≡ fault
          → (o' : Order) → env.others w.tick w.orders id ≡ some o'
          → ((x : Order) × (a ≡ some x)) × (w'.calls ≡ w.calls)
      go fault e o' still = ground arith

  -- What follows the statement, by the number of rows that it matched.
  counted :
      (n : ℕ) (w w' : World) (a : Option Order) (before : List Call)
      → ((m : ℕ) → n ≡ suc m → ((o : Order) × (w.orders id ≡ some o)) × (w.calls ≡ c ∷ before))
      → (n ≡ 0 → w.calls ≡ before)
      → row_if_matched id n env w ≡ (done a, w')
      → Ends c before a w'.calls
  unfolding pure
  counted zero w w' none before some_row no_row h = ground (arith, no_row refl)
  counted zero w w' (some x) before some_row no_row h = absurd (ground arith)
  counted (suc m) w w' a before some_row no_row h =
      let (row, logged) = some_row m refl in
      let ((x, is_x), same) = reread w w' a row h in rw is_x (same ∙ logged)

  matched :
      (now : ℕ) (t : Table) (row : Option Order)
      → (t' : Table) × (n : ℕ) × (update_row t id p (f now) row ≡ (t', n))
        × ((m : ℕ) → n ≡ suc m → (o : Order) × (t' id ≡ some o))
  matched now t none = (t, 0, refl, λ m h. absurd (ground arith))
  matched now t (some o) = elim (Bool-cases (p o)) [
    | inl e ↦ (put t id (f now o), 1, rw e refl, λ m h. (f now o, rw (==_self id) refl))
    | inr e ↦ (t, 0, rw e refl, λ m h. absurd (ground arith))
  ]

  closed :
      (t' : Table) (n k : ℕ) (w w' : World) (a : Option Order) (before : List Call)
      → k ≡ (labelled_count c (t', n)).0
      → w.orders ≡ (labelled_count c (t', n)).1
      → w.calls ≡ (labelled_count c (t', n)).2 ++ before
      → ((m : ℕ) → n ≡ suc m → (o : Order) × (t' id ≡ some o))
      → row_if_matched id k env w ≡ (done a, w')
      → Ends c before a w'.calls
  closed t' zero k w w' a before is_k orders calls found rest =
      counted 0 w w' a before (λ m e. absurd (ground arith)) (λ e. calls) (rw is_k at rest)
  closed t' (suc m) k w w' a before is_k orders calls found rest =
      let (o, at_id) = found m refl in
      counted (suc m) w w' a before (λ m' e. ((o, ap (λ (t : Table). t id) orders ∙ at_id), calls))
        (λ e. absurd (ground arith)) (rw is_k at rest)

  pub labelled-Ends :
      (w w' : World) (a : Option Order)
      → labelled c id (λ now t. update_many t id p (f now)) env w ≡ (done a, w')
      → Ends c w.calls a w'.calls
  unfolding labelled update_many
  labelled-Ends w w' a h =
      let t = env.others w.tick w.orders in
      let (t', n, e, found) = matched (env.now w.tick) t (t id) in
      let (k, w₁, ran, rest) =
        bind-eq-done (query (λ now t. labelled_count c (update_row t id p (f now) (t id))))
          (row_if_matched id) env w {b = a} {w' = w'} h in
      let (is_k, orders, calls) = query-done _ env w w₁ k ran in
      closed t' n k w₁ w' a w.calls (rw e at is_k) (rw e at orders) (rw e at calls) found rest
