-- ===== src/Repository.antt =====
-- packages/core/src/repositories/order.repository.ts: the statements that the repository issues,
-- and its methods as effects. Every UPDATE names the primary key in its WHERE, so it changes one
-- row at most.
pub mod Statements
pub mod Claims
pub mod Lifecycle
pub mod Refinement
pub mod Labels
pub mod Ends
pub mod Effects
mod Rows
unfoldable pub use Rows.{
  update_many, transition_matches, transition_row, record_hash_row, confirmed_row, failed_row,
  forced_row, transition_stmt, record_hash_stmt, confirmed_stmt, failed_stmt, polled_stmt,
  forced_stmt,
}
pub use Rows.*
use synthetic_order_executor.Base.{
  ℕ, zero, suc, ◌+◌, Bool, true, false, ◌&&◌, ◌||◌, Option, none, some, List, [], ◌∷◌, Text, text,
  take, drop, given, ◌==◌, ltb, if◌then◌else◌, is_some,
}
use synthetic_order_executor.Order.{
  OrderId, Hex, Address, Decimal, Status, pending, executing, Side, Order, same_status,
}
use synthetic_order_executor.Trigger.{triggerable}
use synthetic_order_executor.Effects.{
  M, Table, Call, pure, throw, ◌>>=◌, ◌>>◌, query, environment, duplicate, OrderBy, created_desc,
  created_asc, updated_desc, submitted_asc,
}

unfoldable pub find_by_id : OrderId → M (Option Order)
find_by_id id = query (λ now t. (t id, t, []))

-- `if (result.count === 0) return null; return this.findById(id)`
abbrev pub row_if_matched : OrderId → ℕ → M (Option Order)
row_if_matched id zero = pure none
row_if_matched id (suc n) = find_by_id id

unfoldable pub update :
    (Order → Order → List Call) → OrderId → (ℕ → Table → Table × ℕ) → M (Option Order)
update see id stmt = do
  count ← query (λ now t. observed see id t (stmt now t))
  row_if_matched id count

-- `INSERT`: the primary key and the execution id are unique.
unfoldable pub new_row : CreateOrderData → ℕ → Order
new_row d now = record {
  id = d.id;
  user_address = d.user_address;
  token_in = d.token_in;
  token_out = d.token_out;
  side = d.side;
  amount = d.amount;
  trigger_price = d.trigger_price;
  status = pending;
  execution_id = d.execution_id;
  tx_hash = none;
  error_message = none;
  submitted_at = none;
  confirmed_at = none;
  block_number = none;
  gas_used = none;
  amount_out = none;
  monitor_attempts = 0;
  version = 0;
  created_at = now;
  updated_at = now;
}

unfoldable pub transition_status : TransitionParams → M (Option Order)
transition_status params = update (status_seen params.id) params.id (transition_stmt params)

unfoldable pub record_tx_hash : OrderId → Hex → M (Option Order)
record_tx_hash id tx_hash = update (hash_seen id) id (record_hash_stmt id tx_hash)

unfoldable pub mark_confirmed : ConfirmParams → M (Option Order)
mark_confirmed params = update (status_seen params.id) params.id (confirmed_stmt params)

unfoldable pub mark_failed : FailParams → M (Option Order)
mark_failed params = update (status_seen params.id) params.id (failed_stmt params)

unfoldable pub increment_monitor_attempts : OrderId → M (Unit {0})
increment_monitor_attempts id = query (λ now t. let (t', n) = polled_stmt id now t in (tt, t', []))

unfoldable pub force_executed_from_reconciliation : ForceParams → M (Option Order)
force_executed_from_reconciliation params =
    update (status_seen params.id) params.id (forced_stmt params)

abbrev inserted : Option Order → M Order
inserted none = throw (record { kind = duplicate; message = text "Unique constraint failed" })
inserted (some o) = pure o

unfoldable pub create : CreateOrderData → M Order
create d = do
  env ← environment
  row ← query (λ now t.
      if is_some (t d.id) || is_some (env.find_execution d.execution_id t)
      then (none, t, [])
      else (some (new_row d now), put t d.id (new_row d now), []))
  inserted row

-- The reads. Which rows come first among equals, and the LIMIT, are the database's.
unfoldable pub read_many : (ℕ → Order → Bool) → OrderBy → ℕ → M (List Order)
read_many p order limit = do
  env ← environment
  query (λ now t. (env.find_many (p now) order limit t, t, []))

-- submittedAt < now - olderThanMs; a row that has none is not selected
abbrev is_stuck : ℕ → ℕ → Order → Bool
is_stuck older_than_ms now o =
    same_status o.status executing
    && elim o.submitted_at [ none ↦ false | some at ↦ ltb (at + older_than_ms) now ]

unfoldable pub find_stuck_executing : ℕ → ℕ → M (List Order)
find_stuck_executing older_than_ms limit = read_many (is_stuck older_than_ms) submitted_asc limit

unfoldable pub find_many_by_status : Status → ℕ → M (List Order)
find_many_by_status s limit = read_many (λ now o. same_status o.status s) updated_desc limit

unfoldable pub find_triggerable : Decimal → ℕ → M (List Order)
find_triggerable price limit = read_many (λ now. triggerable price) created_asc limit

unfoldable pub find_by_execution_id : Hex → M (Option Order)
find_by_execution_id e = do env ← environment; query (λ now t. (env.find_execution e t, t, []))

pub record ListOrderFilters : Type 0 where
  pub user_address : Option Address
  pub status : Option Status
  pub limit : ℕ
  pub offset : ℕ

abbrev same_address : Option Address → Order → Bool
same_address none o = true
same_address (some a) o = o.user_address == a

abbrev has_status : Option Status → Order → Bool
has_status none o = true
has_status (some s) o = same_status o.status s

-- The `where` of `list`.
unfoldable pub listed : ListOrderFilters → Order → Bool
listed filters o = same_address filters.user_address o && has_status filters.status o

-- `skip: offset, take: limit`, and the count of all rows that match.
unfoldable pub list : ListOrderFilters → M (List Order × ℕ)
list filters = do
  env ← environment
  found ← read_many (λ now. listed filters) created_desc (filters.offset + filters.limit)
  total ← query (λ now t. (env.count_rows (listed filters) t, t, []))
  pure (drop filters.offset found, total)
