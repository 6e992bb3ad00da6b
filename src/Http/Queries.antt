-- ===== src/Http/Queries.antt =====
-- apps/backend/src/api/schemas/order.schema.ts: what the query string of a list of orders may hold.
use synthetic_order_executor.Base.{
  ℕ, ◌&&◌, Option, none, some, List, [], ◌∷◌, Text, text, same_text, leb, if◌then◌else◌,
}
use synthetic_order_executor.Order.{
  Address, Status, pending, triggered, executing, executed, failed, cancelled,
}
use synthetic_order_executor.Repository.{ListOrderFilters}
use synthetic_order_executor.Http.Schemas.{
  Json, text_value, other_value, address_schema, known_keys, ◌>>=◌,
}

unfoldable pub order_status_schema : Json → Option Status
order_status_schema (text_value s) =
    if same_text s (text "PENDING")
    then some pending
    else if same_text s (text "TRIGGERED")
    then some triggered
    else if same_text s (text "EXECUTING")
    then some executing
    else if same_text s (text "EXECUTED")
    then some executed
    else if same_text s (text "FAILED")
    then some failed
    else if same_text s (text "CANCELLED")
    then some cancelled
    else none
order_status_schema other_value = none

module _ {A : Type 0} where
  -- `.default(d)`, where the schema of a value that is given may still refuse it
  abbrev pub default_at : Text → (Json → Option A) → A → List (Text × Json) → Option A
  default_at key schema d [] = some d
  default_at key schema d ((k, v) ∷ fields) =
      let rest = default_at key schema d fields in if same_text k key then schema v else rest

abbrev pub optional : {A : Type 0} → (Json → Option A) → Json → Option (Option A)
optional schema v = schema v >>= λ a. some (some a)

abbrev pub assemble_query :
    Option (Option Address) → Option (Option Status) → Option ℕ → Option ℕ → Option ListOrderFilters
assemble_query user_address status limit offset = do
  address ← user_address
  which ← status
  most ← limit
  from ← offset
  some (record { user_address = address; status = which; limit = most; offset = from })

abbrev pub in_range : ℕ → Option ℕ → ℕ → Option ℕ
in_range low none n = if leb low n then some n else none
in_range low (some high) n = if leb low n && leb n high then some n else none

abbrev pub query_keys : List Text
query_keys = text "userAddress" ∷ text "status" ∷ text "limit" ∷ text "offset" ∷ []

-- `z.coerce.number().int()` of zod: the integer that `Number(v)` is, where that is not negative.
module _ (coerce : Json → Option ℕ) where
  abbrev pub limit_schema : Json → Option ℕ
  limit_schema v = coerce v >>= in_range 1 (some 100)

  abbrev pub offset_schema : Json → Option ℕ
  offset_schema v = coerce v >>= in_range 0 none

  abbrev pub query_fields : List (Text × Json) → Option ListOrderFilters
  query_fields fields =
      assemble_query (default_at (text "userAddress") (optional address_schema) none fields)
        (default_at (text "status") (optional order_status_schema) none fields)
        (default_at (text "limit") limit_schema 20 fields)
        (default_at (text "offset") offset_schema 0 fields)

  unfoldable pub list_orders_query_schema : List (Text × Json) → Option ListOrderFilters
  unfolding known_keys address_schema order_status_schema
  list_orders_query_schema fields =
      if known_keys query_keys fields then query_fields fields else none
