-- ===== src/TriggerEngine/Passed.antt =====
-- What the loop of apps/worker/src/trigger/triggerEngine.ts does with each candidate of a pass.
use mathlib.Core.Path.{subst}
use mathlib.Core.List.{append_assoc, append-nil}
use synthetic_order_executor.Base.{
  ◌∙◌, sym, Option, none, ◌++◌, ◌⊎◌, inl, inr, ℕ, suc, ◌+◌, true, some, List, [], ◌∷◌, ◌≡◌, refl,
  ap, arith, All,
}
use synthetic_order_executor.Order.{OrderId, Decimal, Order, pending, triggered}
use synthetic_order_executor.Trigger.{is_triggered}
use synthetic_order_executor.Effects.Rules.{bind-eq-done}
use synthetic_order_executor.Effects.{
  Env, World, done, ◌>>=◌, try, enqueue, Failure, Call, changed, sent_to_executor, pure,
}
use synthetic_order_executor.Repository.Labels.{transition_status-labelled}
use synthetic_order_executor.Repository.Ends.{KeepsRows, Ends, labelled-Ends}
use synthetic_order_executor.Repository.{transition_stmt, transition_matches, transition_row}
use synthetic_order_executor.TriggerEngine.{
  claim, claim_params, if_claimed, TriggerRunResult, evaluate, evaluate_all, hand_off,
}

-- What a pass has done with its candidates, in their order: the orders fired, the handoffs that
-- failed, how many were lost to another process, and the calls before and after.
pub data Passed
    : List Order → List OrderId → List OrderId → ℕ → List Call → List Call → Type 0 where
  finished : {l : List Call} → Passed [] [] [] 0 l l
  fired :
      (o : Order) {os : List Order} {f x : List OrderId} {n : ℕ} {l l' : List Call}
      → Passed os f x n (sent_to_executor o.id ∷ changed o.id pending triggered ∷ l) l'
      → Passed (o ∷ os) (o.id ∷ f) x n l l'
  unsent :
      (o : Order) {os : List Order} {f x : List OrderId} {n : ℕ} {l l' : List Call}
      → Passed os f x n (changed o.id pending triggered ∷ l) l'
      → Passed (o ∷ os) (o.id ∷ f) (o.id ∷ x) n l l'
  lost :
      (o : Order) {os : List Order} {f x : List OrderId} {n : ℕ} {l l' : List Call}
      → Passed os f x n l l'
      → Passed (o ∷ os) f x (suc n) l l'

-- A candidate whose condition is met, by what the report and the calls become.
abbrev Step : Order → TriggerRunResult → TriggerRunResult → List Call → List Call → Type 0
Step o r r' l l' =
    ((r' ≡ record r { fired = r.fired ++ o.id ∷ [] })
      × (l' ≡ sent_to_executor o.id ∷ changed o.id pending triggered ∷ l))
    ⊎ (((r' ≡ record r {
      fired = r.fired ++ o.id ∷ [];
      handoff_failures = r.handoff_failures ++ o.id ∷ [];
    })
          × (l' ≡ changed o.id pending triggered ∷ l))
        ⊎ ((r' ≡ record r { skipped = r.skipped + 1 }) × (l' ≡ l)))

claim-Ends :
    (o : Order) (env : Env) (w w' : World) (a : Option Order)
    → KeepsRows env
    → claim o env w ≡ (done a, w')
    → Ends (changed o.id pending triggered) w.calls a w'.calls
unfolding claim transition_stmt
claim-Ends o env w w' a keeps h =
    labelled-Ends (changed o.id pending triggered) o.id (transition_matches (claim_params o))
      (transition_row (claim_params o)) keeps w w' a
      (rw (transition_status-labelled (claim_params o)) at h)

handed :
    (o c : Order) (r r' : TriggerRunResult) (env : Env) (w w' : World) (l : List Call)
    → w.calls ≡ changed o.id pending triggered ∷ l
    → if_claimed o r (some c) env w ≡ (done r', w')
    → Step o r r' l w'.calls
unfolding hand_off try enqueue ◌>>=◌ pure
handed o c r r' env w w' l logged h = go (env.queue_fault w.tick) refl
  where
    go : (fault : Option Failure) → env.queue_fault w.tick ≡ fault → Step o r r' l w'.calls
    go none e = let k = rw e at h in inl (cc, ground (arith, logged))
    go (some f) e = let k = rw e at h in inr (inl (cc, ground (arith, logged)))

evaluate-Step :
    (price : Decimal) (o : Order) (r r' : TriggerRunResult) (env : Env) (w w' : World)
    → KeepsRows env
    → is_triggered o.side o.trigger_price price ≡ true
    → evaluate price o r env w ≡ (done r', w')
    → Step o r r' w.calls w'.calls
unfolding evaluate
evaluate-Step price o r r' env w w' keeps meets h =
    let (a, w₁, e, k) =
      bind-eq-done (claim o) (if_claimed o r) env w {b = r'} {w' = w'} (rw meets at h) in
    go a w₁ k (claim-Ends o env w w₁ a keeps e)
  where
    go :
        (a : Option Order) (w₁ : World)
        → if_claimed o r a env w₁ ≡ (done r', w')
        → Ends (changed o.id pending triggered) w.calls a w₁.calls
        → Step o r r' w.calls w'.calls
    go none w₁ k ends = unfold pure in inr (inr (cc, ground (arith, ends)))
    go (some c) w₁ k ends = handed o c r r' env w₁ w' w.calls ends k

-- The report of a pass over the candidates, from the report before.
abbrev Reports : List Order → TriggerRunResult → TriggerRunResult → List Call → List Call → Type 0
Reports os r r' l l' =
    (f : List OrderId) × (x : List OrderId) × (n : ℕ) × (r'.fired ≡ r.fired ++ f)
    × (r'.handoff_failures ≡ r.handoff_failures ++ x)
    × (r'.skipped ≡ r.skipped + n)
    × (r'.candidates ≡ r.candidates)
    × Passed os f x n l l'

one_more : {A : Type 0} (a b c : List A) (y : A) → a ≡ (b ++ y ∷ []) ++ c → a ≡ b ++ y ∷ c
one_more a b c y h = h ∙ append_assoc b (y ∷ []) c

Step-Reports :
    (o : Order) (os : List Order) (r r₁ r' : TriggerRunResult) (l l₁ l' : List Call)
    → Step o r r₁ l l₁
    → Reports os r₁ r' l₁ l'
    → Reports (o ∷ os) r r' l l'
Step-Reports o os r r₁ r' l l₁ l' (inl (e, k)) (f, x, n, a, b, c, d, p) = (
  o.id ∷ f,
  x,
  n,
  one_more r'.fired r.fired f o.id (rw e at a),
  rw e at b,
  rw e at c,
  rw e at d,
  fired o (rw k at p),
)
Step-Reports o os r r₁ r' l l₁ l' (inr (inl (e, k))) (f, x, n, a, b, c, d, p) = (
  o.id ∷ f,
  o.id ∷ x,
  n,
  one_more r'.fired r.fired f o.id (rw e at a),
  one_more r'.handoff_failures r.handoff_failures x o.id (rw e at b),
  rw e at c,
  rw e at d,
  unsent o (rw k at p),
)
Step-Reports o os r r₁ r' l l₁ l' (inr (inr (e, k))) (f, x, n, a, b, c, d, p) =
    (f, x, suc n, rw e at a, rw e at b, counted, rw e at d, lost o (rw k at p))
  where
    counted : r'.skipped ≡ r.skipped + suc n
    counted = omega (arith, rw e at c)

empty :
    (r r' : TriggerRunResult) (w w' : World) → r ≡ r' → w ≡ w' → Reports [] r r' w.calls w'.calls
empty r r' w w' same still = (
  [],
  [],
  0,
  sym (append-nil r.fired ∙ ap (λ x. x.fired) same),
  sym (append-nil r.handoff_failures ∙ ap (λ x. x.handoff_failures) same),
  omega (arith, ap (λ x. x.skipped) same),
  sym (ap (λ x. x.candidates) same),
  subst (λ (v : World). Passed [] [] [] 0 w.calls v.calls) still finished,
)

-- Every candidate meets the condition.
abbrev pub AllMeet : Decimal → List Order → Type 0
AllMeet price os = All (λ o. is_triggered o.side o.trigger_price price ≡ true) os

pub evaluate_all-Reports :
    (price : Decimal) (os : List Order) (r r' : TriggerRunResult) (env : Env) (w w' : World)
    → KeepsRows env
    → AllMeet price os
    → evaluate_all price os r env w ≡ (done r', w')
    → Reports os r r' w.calls w'.calls
unfolding evaluate_all pure
evaluate_all-Reports price [] r r' env w w' keeps meet h =
    let same : r ≡ r' = cc in let still : w ≡ w' = cc in empty r r' w w' same still
evaluate_all-Reports price (o ∷ os) r r' env w w' keeps meet h =
    let (r₁, w₁, e, k) =
      bind-eq-done (evaluate price o r) (evaluate_all price os) env w {b = r'} {w' = w'} h in
    Step-Reports o os r r₁ r' w.calls w₁.calls w'.calls
      (evaluate-Step price o r r₁ env w w₁ keeps meet.0 e)
      (evaluate_all-Reports price os r₁ r' env w₁ w' keeps meet.1 k)
