-- ===== src/Execution/Marks.antt =====
-- What is known of the row of an order and of the calls at each stage of its execution by
-- apps/worker/src/execution/execution.service.ts.
use synthetic_order_executor.Base.{
  ℕ, zero, suc, true, Option, none, some, List, ◌∷◌, ◌≡◌, inl, inr, refl, ◌∙◌, arith,
}
use synthetic_order_executor.Order.{Hex, Order, executing}
use synthetic_order_executor.Effects.{Env, Table, Call}
use synthetic_order_executor.Contracts.{Mark, Matched, Updated}
use synthetic_order_executor.Execution.Stages.{
  Stage, idle, claimed, signed, sent, is_unsigned, done_at, Ending, stopped, LeavesExecuting,
}

-- A row that is not EXECUTING, or has no hash, is one for which nothing was signed.
abbrev pub Unsigned : Order → Type 0
Unsigned c = c.status ≡ executing → c.tx_hash ≡ none

module _ (env : Env) (o : Order) (before : List Call) where
  abbrev pub Row : Option (Option Hex) → Table → Type 0
  Row none t = (r : Order) × (t o.id ≡ some r) × (r.status ≡ executing)
  Row (some h) t = (r : Order) × (t o.id ≡ some r) × (r.status ≡ executing) × (r.tx_hash ≡ h)

  -- What the row is known to be at a stage.
  abbrev pub Holds : Stage → Table → Type 0
  Holds idle t = Unit
  Holds claimed t = Row none t
  Holds (signed raw) t = Row (some (some (env.keccak256 raw))) t
  Holds (sent raw) t = Row (some (some (env.keccak256 raw))) t

  abbrev pub At : Stage → Mark
  At s t l = (l ≡ done_at env.keccak256 o.id before s) × Holds s t

  abbrev pub Open : Mark
  Open t l = (s : Stage) × At s t l

  abbrev pub Ended : Mark
  Ended t l = Ending env.keccak256 o.id before l

  pub Open-Ended : (t : Table) (l : List Call) → Open t l → Ended t l
  Open-Ended t l (s, h) = rw h.0 (stopped s)

  abbrev pub Never : Mark
  Never t l = ⊥

  pub matched_row :
      (Y : Mark) (found : Option Order) (t : Table) (l : List Call)
      → Updated Never Y o.id found t l
      → Y t l
  matched_row Y found t l (inl (e, h)) = absurd h
  matched_row Y found t l (inr (e, h)) = h

  abbrev pub Sent : Mark
  Sent t l = (raw : ℕ) × At (sent raw) t l

  pub Sent-Open : (t : Table) (l : List Call) → Sent t l → Open t l
  Sent-Open t l (raw, h) = (sent raw, h)

  -- An UPDATE of the status that ends an execution, whatever it matches.
  pub ends :
      (c : Call) (l : List Call) (r : Table × ℕ)
      → Ending env.keccak256 o.id before l
      → Ending env.keccak256 o.id before (c ∷ l)
      → Matched Ended Ended c l r
  ends c l (t, zero) h k = h
  ends c l (t, suc rows) h k = k

  pub is_unsigned-Unsigned :
      (s : Stage) (t : Table) (l : List Call) (c : Order)
      → Unsigned c
      → t o.id ≡ some c
      → At s t l
      → is_unsigned s ≡ true
  is_unsigned-Unsigned idle t l c u e h = refl
  is_unsigned-Unsigned claimed t l c u e h = refl
  is_unsigned-Unsigned (signed raw) t l c u e (k, (r, found, status, hash)) = ground (arith, u)
  is_unsigned-Unsigned (sent raw) t l c u e (k, (r, found, status, hash)) = ground (arith, u)

  abbrev pub Read : Option Order → Mark
  Read found t l = (t o.id ≡ found) × Open t l

module _ (env : Env) (o : Order) (before : List Call) (rely : LeavesExecuting env) where
  pub Row-stable :
      (h : Option (Option Hex)) (n : ℕ) (t : Table)
      → (Row env o before) h t
      → (Row env o before) h (env.others n t)
  Row-stable none n t (r, found, status) =
      let (r', found', status', same) = rely.left n t o.id r found status in (r', found', status')
  Row-stable (some h) n t (r, found, status, hash) =
      let (r', found', status', same) = rely.left n t o.id r found status in
      (r', found', status', same ∙ hash)

  pub At-stable :
      (s : Stage) (n : ℕ) (t : Table) (l : List Call)
      → (At env o before) s t l
      → (At env o before) s (env.others n t) l
  At-stable idle n t l h = h
  At-stable claimed n t l h = (h.0, Row-stable none n t h.1)
  At-stable (signed raw) n t l h = (h.0, Row-stable (some (some (env.keccak256 raw))) n t h.1)
  At-stable (sent raw) n t l h = (h.0, Row-stable (some (some (env.keccak256 raw))) n t h.1)

  pub Open-stable :
      (n : ℕ) (t : Table) (l : List Call)
      → (Open env o before) t l
      → (Open env o before) (env.others n t) l
  Open-stable n t l (s, h) = (s, At-stable s n t l h)
