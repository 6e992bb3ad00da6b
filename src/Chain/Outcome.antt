-- ===== src/Chain/Outcome.antt =====
-- packages/chain/src/monitor/transactionOutcome.ts: what may have become of a transaction.
use synthetic_order_executor.Base.{ℕ, Bool, true, false, Option, Text, ◌≡◌, not, ◌&&◌, arith}
use synthetic_order_executor.Order.{Hex}

pub data TransactionOutcome : Type 0 where
  success : Hex → ℕ → ℕ → Option ℕ → TransactionOutcome
  reverted : Hex → ℕ → ℕ → Text → TransactionOutcome
  pending : Hex → ℕ → TransactionOutcome
  dropped_not_executed : Hex → TransactionOutcome
  dropped_but_executed : Hex → TransactionOutcome
  rpc_error : Hex → Text → TransactionOutcome

unfoldable pub is_terminal : TransactionOutcome → Bool
is_terminal (success h b g a) = true
is_terminal (reverted h b g r) = true
is_terminal (dropped_not_executed h) = true
is_terminal (dropped_but_executed h) = true
is_terminal _ = false

unfoldable pub should_keep_polling : TransactionOutcome → Bool
should_keep_polling (pending h age) = true
should_keep_polling (rpc_error h e) = true
should_keep_polling _ = false

unfoldable pub is_safe_to_resubmit : TransactionOutcome → Bool
is_safe_to_resubmit (dropped_not_executed h) = true
is_safe_to_resubmit _ = false

-- The monitor polls again exactly while the outcome is not terminal, and never polls on
-- where a fresh submission is safe.
pub polling-eq-not-terminal :
    (o : TransactionOutcome)
    → (should_keep_polling o ≡ not (is_terminal o))
      × ((is_safe_to_resubmit o && should_keep_polling o) ≡ false)
unfolding is_terminal should_keep_polling is_safe_to_resubmit
polling-eq-not-terminal o = (ground arith, ground arith)
