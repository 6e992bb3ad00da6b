-- ===== src/Reconciler/Ledger.antt =====
-- The options of apps/worker/src/reconcile/reconciler.service.ts, and
-- packages/core/src/repositories/reconciliation.repository.ts.
use synthetic_order_executor.Base.{
  ℕ, suc, Bool, false, Option, none, some, List, ◌∷◌, take, leb, ltb, if◌then◌else◌,
}
use synthetic_order_executor.Effects.{
  M, World, Outcome, done, threw, Failure, LogEntry, pure, ◌>>=◌,
}

pub record ReconcilerOptions : Type 0 where
  pub stuck_after_ms : ℕ
  pub reorg_buffer_blocks : ℕ
  pub max_block_range : ℕ
  pub audit_limit : ℕ

-- `options.x ?? default`
unfoldable pub default_options : ReconcilerOptions
default_options = record {
  stuck_after_ms = 300000;
  reorg_buffer_blocks = 12;
  max_block_range = 5000;
  audit_limit = 100;
}

-- The statements of the reconciliation repository meet the same faults as those on orders.
abbrev pub faulty {ℓ} : {A : Type ℓ} → Option Failure → A → World → World → Outcome A × World
faulty none a w w' = (done a, w')
faulty (some e) a w w' = (threw e, w)

unfoldable pub get_checkpoint : M (Option ℕ)
get_checkpoint env w =
    let w' = record w { tick = suc w.tick } in faulty (env.db_fault w.tick) w.checkpoint w' w'

-- `upsert`
unfoldable pub write_checkpoint : ℕ → M (Unit {0})
write_checkpoint block env w =
    let w' = record w { tick = suc w.tick } in
    faulty (env.db_fault w.tick) tt w' (record w' { checkpoint = some block })

abbrev pub reached : Option ℕ → ℕ → Bool
reached none block = false
reached (some c) block = leb block c

unfoldable pub set_checkpoint : ℕ → M (Unit {0})
set_checkpoint block = do
  existing ← get_checkpoint
  if reached existing block then pure tt else write_checkpoint block

unfoldable pub log : LogEntry → M (Unit {0})
log entry env w =
    let w' = record w { tick = suc w.tick } in
    let cut = record entry {
      discrepancy = take 1000 entry.discrepancy;
      resolution = take 1000 entry.resolution;
    } in
    faulty (env.db_fault w.tick) tt w' (record w' { logs = cut ∷ w.logs })

-- The entries with the latest times first; `logs` has the last that was written first.
unfoldable pub recent_logs : ℕ → M (List LogEntry)
recent_logs limit env w =
    let w' = record w { tick = suc w.tick } in
    faulty (env.db_fault w.tick) (take limit w.logs) w' w'

unfoldable pub max_big_int : ℕ → ℕ → ℕ
max_big_int a b = if ltb b a then a else b

unfoldable pub min_big_int : ℕ → ℕ → ℕ
min_big_int a b = if ltb a b then a else b
