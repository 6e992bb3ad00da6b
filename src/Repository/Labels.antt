-- ===== src/Repository/Labels.antt =====
-- The record of calls against the statements of packages/core/src/repositories/order.repository.ts:
-- what each UPDATE is seen to do follows from its WHERE and its SET.
use mathlib.Core.Path.{fun_ext}
use synthetic_order_executor.Base.{
  ℕ, zero, suc, Bool, true, Bool-cases, Option, none, some, List, [], ◌∷◌, inl, inr, ◌≡◌, refl, ap,
  arith, ==_self,
}
use synthetic_order_executor.Order.{
  OrderId, Hex, Status, executing, executed, failed, Order, same_status,
}
use synthetic_order_executor.Effects.{M, Table, Call, changed, recorded, query, ◌>>=◌}
use synthetic_order_executor.Repository.{
  update, row_if_matched, observed, status_seen, hash_seen, update_many, update_row,
  transition_status, record_tx_hash, mark_confirmed, mark_failed,
  force_executed_from_reconciliation, TransitionParams, ConfirmParams, FailParams, ForceParams,
  transition_stmt, record_hash_stmt, confirmed_stmt, failed_stmt, forced_stmt, transition_matches,
  transition_row, record_hash_row, confirmed_row, failed_row, forced_row, is_executing,
  forced_matches,
}

-- An UPDATE under a label that is known beforehand.
abbrev pub labelled_count : Call → Table × ℕ → ℕ × Table × List Call
labelled_count c (t, zero) = (0, t, [])
labelled_count c (t, suc n) = (suc n, t, c ∷ [])

unfoldable pub labelled : Call → OrderId → (ℕ → Table → Table × ℕ) → M (Option Order)
labelled c id stmt = query (λ now t. labelled_count c (stmt now t)) >>= row_if_matched id

module _ (see : Order → Order → List Call) (c : Call) (id : OrderId) (p : Order → Bool)
    (f : ℕ → Order → Order)
    (sees : (now : ℕ) (o : Order) → p o ≡ true → see o (f now o) ≡ c ∷ []) where
  row-labelled :
      (now : ℕ) (t : Table) (row : Option Order)
      → t id ≡ row
      → observed see id t (update_row t id p (f now) row)
        ≡ labelled_count c (update_row t id p (f now) row)
  row-labelled now t none h = refl
  row-labelled now t (some o) h = elim (Bool-cases (p o)) [
    | inl e ↦ rw (e, h, ==_self id, sees now o e) refl
    | inr e ↦ rw e refl
  ]

  update-labelled :
      update see id (λ now t. update_many t id p (f now))
      ≡ labelled c id (λ now t. update_many t id p (f now))
  unfolding update labelled update_many
  update-labelled =
      ap (λ q. query q >>= row_if_matched id)
        (fun_ext λ now. fun_ext λ t. row-labelled now t (t id) refl)

status-eq : (s t : Status) → same_status s t ≡ true → s ≡ t
status-eq s t h = ground arith

-- The status in the WHERE of a claim.
transition_matches-status :
    (p : TransitionParams) (o : Order)
    → transition_matches p o ≡ true
    → o.status ≡ p.expected_status
unfolding transition_matches
transition_matches-status p o h = ground arith

pub transition_status-labelled :
    (p : TransitionParams)
    → transition_status p
      ≡ labelled (changed p.id p.expected_status p.next_status) p.id (transition_stmt p)
unfolding transition_status transition_stmt transition_row
transition_status-labelled p =
    update-labelled (status_seen p.id) _ p.id (transition_matches p) (transition_row p)
      λ now o h. ap (λ s. changed p.id s p.next_status ∷ []) (transition_matches-status p o h)

pub record_tx_hash-labelled :
    (id : OrderId) (hash : Hex)
    → record_tx_hash id hash ≡ labelled (recorded id hash) id (record_hash_stmt id hash)
unfolding record_tx_hash record_hash_stmt record_hash_row
record_tx_hash-labelled id hash =
    update-labelled (hash_seen id) _ id is_executing (record_hash_row hash) λ now o h. refl

pub mark_confirmed-labelled :
    (p : ConfirmParams)
    → mark_confirmed p ≡ labelled (changed p.id executing executed) p.id (confirmed_stmt p)
unfolding mark_confirmed confirmed_stmt confirmed_row
mark_confirmed-labelled p =
    update-labelled (status_seen p.id) _ p.id is_executing (confirmed_row p)
      λ now o h. ap (λ s. changed p.id s executed ∷ []) (status-eq o.status executing h)

pub mark_failed-labelled :
    (p : FailParams) → mark_failed p ≡ labelled (changed p.id executing failed) p.id (failed_stmt p)
unfolding mark_failed failed_stmt failed_row
mark_failed-labelled p =
    update-labelled (status_seen p.id) _ p.id is_executing (failed_row p)
      λ now o h. ap (λ s. changed p.id s failed ∷ []) (status-eq o.status executing h)

pub force_executed-labelled :
    (p : ForceParams)
    → force_executed_from_reconciliation p
      ≡ labelled (changed p.id p.expected_status executed) p.id (forced_stmt p)
unfolding force_executed_from_reconciliation forced_stmt forced_row
force_executed-labelled p =
    update-labelled (status_seen p.id) _ p.id (forced_matches p) (forced_row p)
      λ now o h. ap (λ s. changed p.id s executed ∷ []) (status-eq o.status p.expected_status h)
