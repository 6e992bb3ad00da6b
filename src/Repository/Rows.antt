-- ===== src/Repository/Rows.antt =====
-- The parameters, rows and statements of packages/core/src/repositories/order.repository.ts.
use synthetic_order_executor.Base.{
  ℕ, zero, suc, ◌+◌, Bool, true, ◌&&◌, Option, none, some, List, [], ◌∷◌, Text, take, given, ◌==◌,
  if◌then◌else◌,
}
use synthetic_order_executor.Order.{
  OrderId, Hex, Address, Decimal, Status, executing, executed, failed, Side, Order, same_status,
}
use synthetic_order_executor.Effects.{Table, Call, changed, recorded}

pub record CreateOrderData : Type 0 where
  pub id : OrderId
  pub user_address : Address
  pub token_in : Text
  pub token_out : Text
  pub side : Side
  pub amount : Decimal
  pub trigger_price : Decimal
  pub execution_id : Hex

pub record TransitionParams : Type 0 where
  pub id : OrderId
  pub expected_status : Status
  pub expected_version : ℕ
  pub next_status : Status
  pub tx_hash : Option (Option Hex)
  pub error_message : Option (Option Text)

pub record ConfirmParams : Type 0 where
  pub id : OrderId
  pub tx_hash : Hex
  pub block_number : ℕ
  pub gas_used : ℕ
  pub amount_out : Option ℕ

pub record FailParams : Type 0 where
  pub id : OrderId
  pub error_message : Text
  pub tx_hash : Option Hex
  pub block_number : Option ℕ
  pub gas_used : Option ℕ

pub record ForceParams : Type 0 where
  pub id : OrderId
  pub expected_status : Status
  pub tx_hash : Option Hex
  pub block_number : Option ℕ
  pub amount_out : Option ℕ
  pub note : Text

abbrev pub put : Table → OrderId → Order → Table
put t k o i = if i == k then some o else t i

abbrev pub update_row :
    Table → OrderId → (Order → Bool) → (Order → Order) → Option Order → Table × ℕ
update_row t k p f none = (t, 0)
update_row t k p f (some o) = if p o then (put t k (f o), 1) else (t, 0)

-- UPDATE orders SET f WHERE id = k AND p: the new table and the number of rows that matched.
unfoldable pub update_many : Table → OrderId → (Order → Bool) → (Order → Order) → Table × ℕ
update_many t k p f = update_row t k p f (t k)

-- The columns that `transitionStatus` writes; a field left `undefined` keeps its value.
abbrev pub written : Option (Option Text) → Option Text → Option Text
written none old = old
written (some v) old = v

abbrev pub written_hash : Option (Option Hex) → Option Hex → Option Hex
written_hash none old = old
written_hash (some v) old = v

unfoldable pub transition_matches : TransitionParams → Order → Bool
transition_matches params o =
    same_status o.status params.expected_status && o.version == params.expected_version

unfoldable pub transition_row : TransitionParams → ℕ → Order → Order
transition_row params now o = record o {
  status = params.next_status;
  version = o.version + 1;
  tx_hash = written_hash params.tx_hash o.tx_hash;
  error_message = written params.error_message o.error_message;
  updated_at = now;
}

abbrev pub is_executing : Order → Bool
is_executing o = same_status o.status executing

unfoldable pub record_hash_row : Hex → ℕ → Order → Order
record_hash_row tx_hash now o = record o {
  tx_hash = some tx_hash;
  submitted_at = some now;
  updated_at = now;
}

unfoldable pub confirmed_row : ConfirmParams → ℕ → Order → Order
confirmed_row params now o = record o {
  status = executed;
  tx_hash = some params.tx_hash;
  block_number = some params.block_number;
  gas_used = some params.gas_used;
  amount_out = given params.amount_out o.amount_out;
  confirmed_at = some now;
  error_message = none;
  version = o.version + 1;
  updated_at = now;
}

unfoldable pub failed_row : FailParams → ℕ → Order → Order
failed_row params now o = record o {
  status = failed;
  error_message = some (take 500 params.error_message);
  tx_hash = given params.tx_hash o.tx_hash;
  block_number = given params.block_number o.block_number;
  gas_used = given params.gas_used o.gas_used;
  confirmed_at = some now;
  version = o.version + 1;
  updated_at = now;
}

unfoldable pub forced_row : ForceParams → ℕ → Order → Order
forced_row params now o = record o {
  status = executed;
  tx_hash = given params.tx_hash o.tx_hash;
  block_number = given params.block_number o.block_number;
  amount_out = given params.amount_out o.amount_out;
  confirmed_at = some now;
  error_message = some (take 500 params.note);
  version = o.version + 1;
  updated_at = now;
}

abbrev pub forced_matches : ForceParams → Order → Bool
forced_matches params o = same_status o.status params.expected_status

abbrev pub polled_row : ℕ → Order → Order
polled_row now o = record o { monitor_attempts = o.monitor_attempts + 1; updated_at = now }

-- What an UPDATE that matched has done to its row, read off the row before and after it.
abbrev pub status_seen : OrderId → Order → Order → List Call
status_seen id o o' = changed id o.status o'.status ∷ []

abbrev pub hash_in : OrderId → Option Hex → List Call
hash_in id none = []
hash_in id (some h) = recorded id h ∷ []

abbrev pub hash_seen : OrderId → Order → Order → List Call
hash_seen id o o' = hash_in id o'.tx_hash

abbrev pub seen : (Order → Order → List Call) → Option Order → Option Order → List Call
seen see (some o) (some o') = see o o'
seen see _ _ = []

-- One UPDATE, on the table it finds, with what it leaves in the record of calls.
abbrev pub observed :
    (Order → Order → List Call) → OrderId → Table → Table × ℕ → ℕ × Table × List Call
observed see id t (t', zero) = (0, t', [])
observed see id t (t', suc n) = (suc n, t', seen see (t id) (t' id))

-- The UPDATE statements of the writing methods.
unfoldable pub transition_stmt : TransitionParams → ℕ → Table → Table × ℕ
unfolding update_many
transition_stmt params now t =
    update_many t params.id (transition_matches params) (transition_row params now)

unfoldable pub record_hash_stmt : OrderId → Hex → ℕ → Table → Table × ℕ
unfolding update_many
record_hash_stmt id tx_hash now t = update_many t id is_executing (record_hash_row tx_hash now)

unfoldable pub confirmed_stmt : ConfirmParams → ℕ → Table → Table × ℕ
unfolding update_many
confirmed_stmt params now t = update_many t params.id is_executing (confirmed_row params now)

unfoldable pub failed_stmt : FailParams → ℕ → Table → Table × ℕ
unfolding update_many
failed_stmt params now t = update_many t params.id is_executing (failed_row params now)

unfoldable pub polled_stmt : OrderId → ℕ → Table → Table × ℕ
unfolding update_many
polled_stmt id now t = update_many t id (λ o. true) (polled_row now)

unfoldable pub forced_stmt : ForceParams → ℕ → Table → Table × ℕ
unfolding update_many
forced_stmt params now t = update_many t params.id (forced_matches params) (forced_row params now)
