-- ===== src/Frontend/Typed.antt =====
-- What the texts of apps/frontend/src/lib/api.ts are to the schemas of
-- apps/backend/src/api/schemas/order.schema.ts.
use synthetic_order_executor.Base.{
  ℕ, Option, none, some, List, [], ◌∷◌, Text, text, same_text, ◌≡◌, refl,
}
use synthetic_order_executor.Order.{Address, Side, buy, sell}
use synthetic_order_executor.Repository.{ListOrderFilters}
use synthetic_order_executor.Backend
use synthetic_order_executor.Http.Schemas.{
  Json, text_value, object, create_order_schema, assemble_input, address_schema, symbol_schema,
  side_schema, decimal_string, known_keys, ◌>>=◌,
}
use synthetic_order_executor.Http.Queries.{list_orders_query_schema, assemble_query}
use synthetic_order_executor.Frontend.{CreateOrderInput, input_fields, side_text}

-- What the form's texts are to the API: the values that the schema makes of them.
abbrev pub typed_input : CreateOrderInput → Option Backend.CreateOrderInput
typed_input input =
    assemble_input (address_schema (text_value input.user_address))
      (symbol_schema (text_value input.token_in)) (symbol_schema (text_value input.token_out))
      (some input.side) (decimal_string (text_value input.amount))
      (decimal_string (text_value input.trigger_price))

side_schema-side_text : (side : Side) → side_schema (text_value (side_text side)) ≡ some side
unfolding side_schema same_text
side_schema-side_text buy = refl
side_schema-side_text sell = refl

-- The schema of the API accepts what the form sends whenever its texts are valid, for either side.
pub create_order_schema-input_fields :
    (input : CreateOrderInput)
    → create_order_schema (object (input_fields input)) ≡ typed_input input
unfolding create_order_schema known_keys same_text
create_order_schema-input_fields input = rw (side_schema-side_text input.side) refl

-- The fields that the query of `listOrders` means.
abbrev limit_field : List (Text × Json)
limit_field = (text "limit", text_value (text "50")) ∷ []

abbrev pub list_query : Option Text → List (Text × Json)
list_query none = limit_field
list_query (some []) = limit_field
list_query (some (c ∷ s)) = (text "userAddress", text_value (c ∷ s)) ∷ limit_field

-- The query of the page: the orders of the address that was given, fifty at most, the latest page.
abbrev query_of : Option Address → ListOrderFilters
query_of a = record { user_address = a; status = none; limit = 50; offset = 0 }

abbrev for_address : Option Address → Option ListOrderFilters
for_address none = none
for_address (some a) = some (query_of (some a))

abbrev pub typed_query : Option Text → Option ListOrderFilters
typed_query none = some (query_of none)
typed_query (some []) = some (query_of none)
typed_query (some (c ∷ s)) = for_address (address_schema (text_value (c ∷ s)))

pub list_orders_query_schema-list_query :
    (coerce : Json → Option ℕ) (user_address : Option Text)
    → coerce (text_value (text "50")) ≡ some 50
    → list_orders_query_schema coerce (list_query user_address) ≡ typed_query user_address
unfolding list_orders_query_schema known_keys same_text ◌>>=◌
list_orders_query_schema-list_query coerce none h = rw h refl
list_orders_query_schema-list_query coerce (some []) h = rw h refl
list_orders_query_schema-list_query coerce (some (c ∷ s)) h =
    rw h (go (address_schema (text_value (c ∷ s))))
  where
    go :
        (a : Option Address)
        → assemble_query (a >>= λ a'. some (some a')) (some none) (some 50) (some 0) ≡ for_address a
    go none = refl
    go (some a) = refl
