-- ===== src/TriggerEngine/Passes.antt =====
-- What one evaluation pass of apps/worker/src/trigger/triggerEngine.ts reports and does.
use mathlib.Core.Path.{subst}
use synthetic_order_executor.Base.{ℕ, ◌≤◌, true, some, List, [], ◌∷◌, ◌≡◌, arith, Text, length, All}
use synthetic_order_executor.Order.{OrderId, Decimal, Order}
use synthetic_order_executor.Trigger.{triggerable, triggerable-eq-is_triggered}
use synthetic_order_executor.Chain.{PriceQuote}
use synthetic_order_executor.Effects.Rules.{bind-eq-done}
use synthetic_order_executor.Effects.{
  M, Env, World, done, ◌>>=◌, Table, Call, query, environment, created_asc,
}
use synthetic_order_executor.Repository.Effects.{IsFindMany, read_many-done}
use synthetic_order_executor.Repository.Ends.{KeepsRows}
use synthetic_order_executor.Repository.{find_triggerable, read_many}
use synthetic_order_executor.TriggerEngine.{TriggerRunResult, start, pass, evaluate_found, run}
use synthetic_order_executor.TriggerEngine.Passed.{Passed, AllMeet, evaluate_all-Reports}

all_meet :
    (price : Decimal) (t : Table) (os : List Order)
    → All (λ o. (t o.id ≡ some o) × (triggerable price o ≡ true)) os
    → AllMeet price os
all_meet price t [] h = tt
all_meet price t (o ∷ os) h =
    (ground (arith, h.0.1, triggerable-eq-is_triggered price o), all_meet price t os h.1)

find_triggerable-calls :
    (price : Decimal) (batch : ℕ) (env : Env) (w w' : World) (os : List Order)
    → find_triggerable price batch env w ≡ (done os, w')
    → w'.calls ≡ w.calls
unfolding find_triggerable read_many query ◌>>=◌ environment
find_triggerable-calls price batch env w w' os h = ground arith

as_reported :
    (r : TriggerRunResult) (os : List Order) (f x : List OrderId) (n : ℕ) (l l₁ l' : List Call)
    → r.fired ≡ f
    → r.handoff_failures ≡ x
    → r.skipped ≡ n
    → l₁ ≡ l
    → Passed os f x n l₁ l'
    → Passed os r.fired r.handoff_failures r.skipped l l'
as_reported r os f x n l l₁ l' a b c same p = rw (a, b, c) (rw same at p)

-- What a pass that has returned this report has found and done: the price, the candidates with their
-- rows at the time of the query, and the changes and the handoffs of just the orders reported.
abbrev pub Accounts :
    (Text → M PriceQuote) → ℕ → Text → Env → World → TriggerRunResult → World → Type 0
Accounts prices batch asset env w r w' =
    (quote : PriceQuote) × (w₁ : World) × (os : List Order) × (prices asset env w
      ≡ (done quote, w₁))
    × All
        (λ o.
          (env.others w₁.tick w₁.orders o.id ≡ some o)
          × (triggerable (env.parse_decimal quote.price) o ≡ true))
        os
    × (length os ≤ batch)
    × (r.candidates ≡ length os)
    × Passed os r.fired r.handoff_failures r.skipped w₁.calls w'.calls

-- Where a pass returns: the candidates were at most as many as the batch size, each was PENDING in
-- the table with its condition met by the price, and each, in turn, was either moved from PENDING to
-- TRIGGERED and reported as fired, and then handed to the executor or reported as a failed handoff,
-- or was counted as skipped with nothing done to it. The pass changed no other status and sent nothing
-- else. The hypotheses are what a `findMany` promises, and that no process deletes an order.
pub run-Accounts :
    (prices : Text → M PriceQuote) (batch : ℕ) (asset : Text) (env : Env) (w w' : World)
    (r : TriggerRunResult)
    → IsFindMany env
    → KeepsRows env
    → run prices batch asset env w ≡ (done r, w')
    → Accounts prices batch asset env w r w'
unfolding run find_triggerable ◌>>=◌ environment
run-Accounts prices batch asset env w w' r law keeps h =
    let (quote, w₁, priced, k) =
      bind-eq-done (prices asset) (pass batch) env w {b = r} {w' = w'} h in
    let price = env.parse_decimal quote.price in
    let (os, w₂, e, j) =
      bind-eq-done (find_triggerable price batch) (evaluate_found quote price) env w₁ {b = r}
        {w' = w'} k in
    let rows = env.others w₁.tick w₁.orders in
    let found = read_many-done (λ now. triggerable price) created_asc batch env w₁ w₂ os e in
    let Chosen =
      λ (l : List Order). All (λ o. (rows o.id ≡ some o) × (triggerable price o ≡ true)) l in
    let chosen = subst Chosen found (law.selected (triggerable price) created_asc batch rows) in
    let few =
      subst (λ (l : List Order). length l ≤ batch) found
        (law.limited (triggerable price) created_asc batch rows) in
    let (f, x, n, a, b, c, d, p) =
      evaluate_all-Reports price os (start quote os) r env w₂ w' keeps
        (all_meet price rows os chosen) j in
    (
      quote,
      w₁,
      os,
      priced,
      chosen,
      few,
      d,
      as_reported r os f x n w₁.calls w₂.calls w'.calls a b (omega (arith, c))
          (find_triggerable-calls price batch env w₁ w₂ os e) p,
    )
