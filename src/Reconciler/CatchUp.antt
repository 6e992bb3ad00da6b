-- ===== src/Reconciler/CatchUp.antt =====
-- How the scan of apps/worker/src/reconcile/reconciler.service.ts catches up with the chain, one pass
-- after the other.
use synthetic_order_executor.Base.{
  ℕ, zero, suc, ◌+◌, ◌-◌, ◌*◌, ◌≤◌, ◌<◌, ◌⊎◌, Bool, true, false, Bool-cases, inl, inr, Option, none,
  some, List, [], ◌∷◌, leb, ltb, if◌then◌else◌, ◌≡◌, refl, ap, ◌∙◌, arith,
}
use synthetic_order_executor.Order.{OrderId, Order, executed, same_status}
use synthetic_order_executor.Chain.{SwapExecutedLog}
use synthetic_order_executor.Report.{ReconcileReport}
use synthetic_order_executor.Effects.{
  Env, World, M, Table, Call, done, pure, ◌>>=◌, ask, query, environment,
}
use synthetic_order_executor.Effects.Rules.{bind-done}
use synthetic_order_executor.Repository.{
  update, row_if_matched, find_by_id, find_by_execution_id, ForceParams,
  force_executed_from_reconciliation,
}
use synthetic_order_executor.Reconciler.{
  LogEntry, ReconcilerOptions, get_checkpoint, set_checkpoint, write_checkpoint, log, max_big_int,
  min_big_int, scan_from, scan_to, modify_report, scan, apply_log, apply_logs, apply_found,
  backfill_corrected, backfill_from_logs,
}

-- The database and the node answer, and the head of the chain stands still.
pub record Healthy (env : Env) (head : ℕ) : Type 0 where
  pub no_fault : (n : ℕ) → env.db_fault n ≡ none
  pub head_at : (n : ℕ) → env.get_block_number n ≡ done head
  pub logs_at : (n from to : ℕ) → (l : List SwapExecutedLog) × (env.get_logs n from to ≡ done l)

-- A method that returns and leaves the checkpoint as it is: one rule for each way to build it.
record Keeps {A : Type 0} (env : Env) (m : M A) : Type 0 where
  at :
      (w : World)
      → (a : A) × (w' : World) × (m env w ≡ (done a, w')) × (w'.checkpoint ≡ w.checkpoint)

module _ {env : Env} where
  Keeps-pure : {A : Type 0} (a : A) → Keeps env (pure a)
  unfolding pure
  Keeps-pure a = record { at = λ w. (a, w, refl, refl) }

  Keeps-modify_report : (f : ReconcileReport → ReconcileReport) → Keeps env (modify_report f)
  unfolding modify_report
  Keeps-modify_report f = record { at = λ w. (tt, _, refl, refl) }

  Keeps-environment : Keeps env environment
  unfolding environment
  Keeps-environment = record { at = λ w. (env, w, refl, refl) }

  Keeps-bind :
      {A B : Type 0} (m : M A) (f : A → M B)
      → Keeps env m
      → ((a : A) → Keeps env (f a))
      → Keeps env (m >>= f)
  Keeps-bind m f km kf = record {
    at = λ w.
        let (a, w₁, e, k) = km.at w in
        let (b, w₂, g, l) = (kf a).at w₁ in (b, w₂, bind-done m f env w w₁ a e ∙ g, l ∙ k);
  }

  Keeps-if :
      {A : Type 0} (b : Bool) (m n : M A)
      → Keeps env m
      → Keeps env n
      → Keeps env (if b then m else n)
  Keeps-if true m n hm hn = hm
  Keeps-if false m n hm hn = hn

  module _ {head : ℕ} (healthy : Healthy env head) where
    Keeps-query : {A : Type 0} (q : ℕ → Table → A × Table × List Call) → Keeps env (query q)
    unfolding query
    Keeps-query q = record { at = λ w. rw (healthy.no_fault w.tick) (_, _, refl, refl) }

    Keeps-log : (entry : LogEntry) → Keeps env (log entry)
    unfolding log
    Keeps-log entry = record { at = λ w. rw (healthy.no_fault w.tick) (tt, _, refl, refl) }

    Keeps-row_if_matched : (id : OrderId) (n : ℕ) → Keeps env (row_if_matched id n)
    unfolding find_by_id
    Keeps-row_if_matched id zero = Keeps-pure none
    Keeps-row_if_matched id (suc n) = Keeps-query _

    Keeps-force : (params : ForceParams) → Keeps env (force_executed_from_reconciliation params)
    unfolding force_executed_from_reconciliation update
    Keeps-force params = Keeps-bind _ _ (Keeps-query _) λ n. Keeps-row_if_matched params.id n

    Keeps-corrected :
        (o : Order) (swap : SwapExecutedLog) (r : Option Order)
        → Keeps env (backfill_corrected o swap r)
    Keeps-corrected o swap none = Keeps-pure false
    Keeps-corrected o swap (some r) = Keeps-bind _ _ (Keeps-log _) λ u. Keeps-pure true

    Keeps-apply_found : (swap : SwapExecutedLog) (o : Option Order) → Keeps env (apply_found swap o)
    Keeps-apply_found swap none = Keeps-bind _ _ (Keeps-log _) λ u. Keeps-pure false
    Keeps-apply_found swap (some o) =
        Keeps-if (same_status o.status executed) _ _ (Keeps-pure false)
          (Keeps-bind _ _ (Keeps-force _) λ r. Keeps-corrected o swap r)

    Keeps-apply_logs : (swaps : List SwapExecutedLog) → Keeps env (apply_logs swaps)
    unfolding apply_logs apply_log find_by_execution_id
    Keeps-apply_logs [] = Keeps-pure tt
    Keeps-apply_logs (swap ∷ swaps) =
        Keeps-bind _ _
          (Keeps-bind _ _ (Keeps-bind _ _ Keeps-environment λ e. Keeps-query _)
            λ o. Keeps-apply_found swap o)
          λ c. Keeps-bind _ _ (Keeps-modify_report _) λ u. Keeps-apply_logs swaps

module _ (options : ReconcilerOptions) {env : Env} {head : ℕ} (healthy : Healthy env head) where
  -- The checkpoint after a pass.
  abbrev next : ℕ → ℕ
  next c =
      let to = scan_to options (some c) head in
      if ltb to (scan_from options (some c) head) then c else if leb to c then c else to

  abbrev Moved : M (Unit {0}) → World → ℕ → Type 0
  Moved m w c = (w' : World) × (m env w ≡ (done tt, w')) × (w'.checkpoint ≡ some c)

  bind-Moved :
      {A : Type 0} (m : M A) (f : A → M (Unit {0})) (w w₁ : World) (a : A) (c : ℕ)
      → m env w ≡ (done a, w₁)
      → Moved (f a) w₁ c
      → Moved (m >>= f) w c
  bind-Moved m f w w₁ a c e (w₂, g, at_c) = (w₂, bind-done m f env w w₁ a e ∙ g, at_c)

  Keeps-Moved :
      {A : Type 0} (m : M A) (f : A → M (Unit {0})) (w : World) (c d : ℕ)
      → Keeps env m
      → w.checkpoint ≡ some c
      → ((a : A) (w₁ : World) → w₁.checkpoint ≡ some c → Moved (f a) w₁ d)
      → Moved (m >>= f) w d
  Keeps-Moved m f w c d km at_c kf =
      let (a, w₁, e, k) = km.at w in bind-Moved m f w w₁ a d e (kf a w₁ (k ∙ at_c))

  set_checkpoint-Moved :
      (to c : ℕ) (w : World)
      → w.checkpoint ≡ some c
      → Moved (set_checkpoint to) w (if leb to c then c else to)
  unfolding set_checkpoint get_checkpoint write_checkpoint ◌>>=◌ pure
  set_checkpoint-Moved to c w at_c = elim (Bool-cases (leb to c)) [
    | inl reached ↦ rw (healthy.no_fault w.tick, at_c, reached) (_, refl, refl)
    | inr beyond ↦
        rw (healthy.no_fault w.tick, at_c, beyond, healthy.no_fault (suc w.tick)) (_, refl, refl)
  ]

  Keeps-get_logs : (from to : ℕ) → Keeps env (ask (λ e tick. e.get_logs tick from to))
  unfolding ask
  Keeps-get_logs from to = record {
    at = λ w. let (swaps, e) = healthy.logs_at w.tick from to in rw e (swaps, _, refl, refl);
  }

  scan-Moved :
      (from to c : ℕ) (w : World)
      → w.checkpoint ≡ some c
      → Moved (scan from to) w (if leb to c then c else to)
  unfolding scan
  scan-Moved from to c w at_c = Keeps-Moved _ _ w c _ (Keeps-get_logs from to) at_c λ swaps w₁ k₁.
      Keeps-Moved _ _ w₁ c _ (Keeps-modify_report _) k₁ λ u w₂ k₂.
        Keeps-Moved _ _ w₂ c _ (Keeps-apply_logs healthy swaps) k₂
          λ u' w₃ k₃. set_checkpoint-Moved to c w₃ k₃

  scan_or_not-Moved :
      (from to c : ℕ) (w : World)
      → w.checkpoint ≡ some c
      → Moved
          (if ltb to from then pure tt else scan from to)
          w
          (if ltb to from then c else if leb to c then c else to)
  unfolding pure
  scan_or_not-Moved from to c w at_c = elim (Bool-cases (ltb to from)) [
    | inl empty ↦ rw empty (w, refl, at_c)
    | inr some_blocks ↦ rw some_blocks (scan-Moved from to c w at_c)
  ]

  backfill-Moved :
      (c : ℕ) (w : World) → w.checkpoint ≡ some c → Moved (backfill_from_logs options) w (next c)
  unfolding backfill_from_logs get_checkpoint ask
  backfill-Moved c w at_c =
      bind-Moved _ _ w (record w { tick = suc w.tick }) head _ (rw (healthy.head_at w.tick) refl)
        (bind-Moved _ _ _ (record w { tick = suc (suc w.tick) }) (some c) _
          (rw (healthy.no_fault (suc w.tick), at_c) refl)
          (scan_or_not-Moved (scan_from options (some c) head) (scan_to options (some c) head) c _
            at_c))

  next-progress :
      (c : ℕ)
      → c ≤ head
      → options.reorg_buffer_blocks < options.max_block_range
      → (next c ≤ head)
        × (head ≤ next c ⊎ c + (options.max_block_range - options.reorg_buffer_blocks) ≤ next c)
  unfolding scan_from scan_to max_big_int min_big_int
  next-progress c behind advances = (ground arith, ground arith)

-- `n` passes, one after the other.
abbrev pub passes : ReconcilerOptions → ℕ → M (Unit {0})
passes options zero = pure tt
passes options (suc n) = backfill_from_logs options >>= λ _. passes options n

distance : (c c' n d head : ℕ) → head ≤ c + suc n * d → head ≤ c' ⊎ c + d ≤ c' → head ≤ c' + n * d
distance c c' n d head near (inl there) = grind arith
distance c c' n d head near (inr moved) = grind arith

-- While the database and the node answer and the head stands still, `n` passes return, and have
-- brought the checkpoint to the head if they span the distance, each with its range less its buffer.
pub passes-catch_up :
    (options : ReconcilerOptions) (env : Env) (head : ℕ)
    → Healthy env head
    → options.reorg_buffer_blocks < options.max_block_range
    → (n c : ℕ) (w : World) → w.checkpoint ≡ some c
    → c ≤ head
    → head ≤ c + n * (options.max_block_range - options.reorg_buffer_blocks)
    → (w' : World) × (passes options n env w ≡ (done tt, w')) × (w'.checkpoint ≡ some head)
unfolding pure
passes-catch_up options env head healthy advances zero c w at_c behind near =
    (w, refl, at_c ∙ ap some (omega arith))
passes-catch_up options env head healthy advances (suc n) c w at_c behind near =
    let (w₁, e, at_next) = backfill-Moved options healthy c w at_c in
    let (below, moved) = next-progress options healthy c behind advances in
    let (w₂, g, at_head) =
      passes-catch_up options env head healthy advances n (next options healthy c) w₁ at_next below
        (distance c _ n _ head near moved) in
    (w₂, bind-done _ _ env w w₁ tt e ∙ g, at_head)
