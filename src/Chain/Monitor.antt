-- ===== src/Chain/Monitor.antt =====
-- packages/chain/src/monitor/transactionMonitor.ts: what a node and the contract say of a
-- transaction, turned into one outcome.
pub mod Evidence
pub mod Calls
use synthetic_order_executor.Base.{
  ℕ, ◌+◌, ◌-◌, Bool, true, false, ◌||◌, Option, none, some, List, [], ◌∷◌, ◌++◌, Text, text,
  text_or, contains, to_lower, join, same_text, ltb, ◌==◌, if◌then◌else◌,
}
use synthetic_order_executor.Order.{Hex, Address}
use synthetic_order_executor.Chain.{
  ReceiptLog, DecodedEvent, TransactionReceipt, ReplayError, contract_revert, base_error,
  plain_error, not_error,
}
use synthetic_order_executor.Chain.Outcome.{
  TransactionOutcome, success, reverted, pending, dropped_not_executed, dropped_but_executed,
  rpc_error,
}
use synthetic_order_executor.Effects.{
  M, Env, Failure, transaction_not_found, receipt_not_found, ErrorKind, pure, throw, ◌>>=◌, try,
  ask, current_time, environment, done,
}

abbrev not_found_kind : ErrorKind → Bool
not_found_kind transaction_not_found = true
not_found_kind receipt_not_found = true
not_found_kind _ = false

-- /not be found|not found/i
unfoldable pub is_not_found : Failure → Bool
is_not_found e =
    not_found_kind e.kind
    || contains (text "not be found") (to_lower e.message)
    || contains (text "not found") (to_lower e.message)

-- The first log of the contract that decodes to `SwapExecuted`.
abbrev swap_amount : Option DecodedEvent → Option ℕ
swap_amount none = none
swap_amount (some e) =
    if same_text e.event_name (text "SwapExecuted") then some e.amount_out else none

abbrev first_of : Option ℕ → Option ℕ → Option ℕ
first_of none rest = rest
first_of (some a) rest = some a

unfoldable pub decode_amount_out :
    (ReceiptLog → Option DecodedEvent) → Address → List ReceiptLog → Option ℕ
decode_amount_out decode executor [] = none
decode_amount_out decode executor (log ∷ logs) =
    let rest = decode_amount_out decode executor logs in
    if log.address == executor then first_of (swap_amount (decode log)) rest else rest

abbrev with_args : Text → List Text → Text
with_args name [] = name
with_args name (a ∷ args) = name ++ (text "(" ++ (join (text ", ") (a ∷ args) ++ text ")"))

-- `if (revert.reason) return revert.reason`; the empty text is falsy here as it is for the name
abbrev named_or_reason : Text → List Text → Text → Text → Text
named_or_reason [] args [] short = short
named_or_reason [] args (c ∷ reason) short = c ∷ reason
named_or_reason (c ∷ name) args reason short = with_args (c ∷ name) args

abbrev empty_if_none : Option Text → Text
empty_if_none none = []
empty_if_none (some s) = s

unfoldable pub revert_text : Option ReplayError → Text
revert_text none = text "reverted (reason not reproducible at block)"
revert_text (some (contract_revert name args reason short message)) =
    named_or_reason (empty_if_none name) args (empty_if_none reason) (text_or short message)
revert_text (some (base_error short message)) = text_or short message
revert_text (some (plain_error message)) = message
revert_text (some not_error) = text "reverted"

-- Reading the transaction back and replaying it are one reply here: whichever throws is caught.
decode_revert_reason : Hex → ℕ → M Text
decode_revert_reason tx_hash block =
    ask (λ env tick. done (revert_text (env.replay_call tick tx_hash block)))

rpc_failure : Hex → Failure → M TransactionOutcome
rpc_failure tx_hash e = pure (rpc_error tx_hash e.message)

-- The decisive check: only the contract knows whether the execution happened.
consult_contract : Hex → Hex → M TransactionOutcome
unfolding rpc_failure
consult_contract tx_hash execution_id =
    try
      (do
        consumed ← ask (λ env tick. env.is_executed tick execution_id)
        pure (if consumed then dropped_but_executed tx_hash else dropped_not_executed tx_hash))
      λ e. pure (rpc_error tx_hash (text "could not verify executionId on-chain: " ++ e.message))

-- Whether the node still shows the transaction: the outcome that this settles, or none.
look_in_mempool : Hex → ℕ → M (Option TransactionOutcome)
look_in_mempool tx_hash age_ms =
    try
      (do
        _ ← ask (λ env tick. env.get_transaction tick tx_hash)
        pure (some (pending tx_hash age_ms)))
      λ e. pure (if is_not_found e then none else some (rpc_error tx_hash e.message))

abbrev settled_or : Option TransactionOutcome → M TransactionOutcome → M TransactionOutcome
settled_or none rest = rest
settled_or (some o) rest = pure o

-- `now < submittedAt + pendingGraceMs` is `ageMs < pendingGraceMs`, for an age below 0 too.
investigate_missing : ℕ → Hex → Hex → ℕ → M TransactionOutcome
unfolding consult_contract look_in_mempool
investigate_missing pending_grace_ms tx_hash execution_id submitted_at = do
  now ← current_time
  seen ← look_in_mempool tx_hash (now - submitted_at)
  settled_or seen (
      if ltb now (submitted_at + pending_grace_ms)
      then pure (pending tx_hash (now - submitted_at))
      else consult_contract tx_hash execution_id)

classify_receipt : Address → Hex → TransactionReceipt → M TransactionOutcome
unfolding decode_revert_reason
classify_receipt executor tx_hash receipt =
    if receipt.success
    then (do
      env ← environment
      pure (
          success tx_hash receipt.block_number receipt.gas_used
            (decode_amount_out env.decode_event_log executor receipt.logs)))
    else (do
      reason ← decode_revert_reason tx_hash receipt.block_number
      pure (reverted tx_hash receipt.block_number receipt.gas_used reason))

unfoldable pub get_outcome : Address → ℕ → Hex → Hex → ℕ → M TransactionOutcome
unfolding investigate_missing classify_receipt rpc_failure
get_outcome executor pending_grace_ms tx_hash execution_id submitted_at =
    try
      (do
        receipt ← ask (λ env tick. env.get_receipt tick tx_hash)
        classify_receipt executor tx_hash receipt)
      λ e.
        if is_not_found e
        then investigate_missing pending_grace_ms tx_hash execution_id submitted_at
        else rpc_failure tx_hash e
