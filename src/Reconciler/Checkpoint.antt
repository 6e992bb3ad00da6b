-- ===== src/Reconciler/Checkpoint.antt =====
-- The range of blocks that pass 2 of apps/worker/src/reconcile/reconciler.service.ts scans, and the
-- checkpoint of packages/core/src/repositories/reconciliation.repository.ts.
use synthetic_order_executor.Base.{◌⊎◌, false, ℕ, ◌+◌, ◌≤◌, Option, none, some, ◌≡◌, arith}
use synthetic_order_executor.Effects.{Env, World, is_done, ◌>>=◌}
use synthetic_order_executor.Reconciler.{
  ReconcilerOptions, set_checkpoint, get_checkpoint, write_checkpoint, scan_from, scan_to,
}

abbrev pub NotBefore : Option ℕ → Option ℕ → Type 0
NotBefore none after = Unit
NotBefore (some a) none = ⊥
NotBefore (some a) (some b) = a ≤ b

-- Whatever fails, the checkpoint never moves backwards, and a `setCheckpoint` that returns leaves it
-- at the given block or beyond; where it throws, nothing else is promised.
pub set_checkpoint_monotone :
    (block : ℕ) (env : Env) (w : World)
    → let (r, w') = set_checkpoint block env w in
      NotBefore w.checkpoint w'.checkpoint
      × ((is_done r ≡ false) ⊎ NotBefore (some block) w'.checkpoint)
unfolding set_checkpoint get_checkpoint write_checkpoint ◌>>=◌
set_checkpoint_monotone block env w = (ground arith, ground arith)

-- A pass with a checkpoint re-reads the whole reorganisation buffer below it (down to block 0),
-- never spans more than the maximal range, and never reads past the head.
pub scan_window :
    (options : ReconcilerOptions) (c head : ℕ)
    → let from = scan_from options (some c) head in
      let to = scan_to options (some c) head in
      (c ≤ from + options.reorg_buffer_blocks)
      × (from ≤ c)
      × (to ≤ from + options.max_block_range)
      × (to ≤ head)
unfolding scan_from scan_to
scan_window options c head = (ground arith, ground arith, ground arith, ground arith)
