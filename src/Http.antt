-- ===== src/Http.antt =====
-- The HTTP side of the API, apps/backend/src/api: the responses, the terminal error middleware, the
-- controller of orders with its serializer, and the routes of prices and of health.
pub mod Schemas
pub mod Queries
pub mod Decimals
pub mod Accepted
pub mod Answers
pub mod Routes
pub mod Cached
pub mod App
pub mod Start
use synthetic_order_executor.Base.{
  ℕ, ◌+◌, ◌-◌, ◌*◌, ◌/◌, Bool, true, false, not, ◌&&◌, Option, none, some, List, [], ◌∷◌, ◌++◌, map,
  Text, text, number_text, ltb, ◌==◌, to_upper, if◌then◌else◌,
}
use synthetic_order_executor.Order.{OrderId, Hex, Address, Side, Status, Order}
use synthetic_order_executor.Chain.{PriceQuote, ExecutorContractState}
use synthetic_order_executor.Effects.{
  Env, World, M, Failure, ErrorKind, validation, order_not_found, invalid_transition,
  token_not_supported, trade_too_large, contract_paused, duplicate, Outcome, done, threw, pure,
  throw, lift, ◌>>=◌, ◌>>◌, try, ask, query, current_time, environment,
}
use synthetic_order_executor.Execution.{ChainTokens}
use synthetic_order_executor.Price.{get_validated_price}
use synthetic_order_executor.Price.Factory.{PriceService}
use synthetic_order_executor.Backend.{
  Api, http_status, validation_error, create_order, list_orders, get_order, cancel_order, OrderPage,
}
use synthetic_order_executor.Http.Schemas.{Json, Body, create_order_schema}
use synthetic_order_executor.Http.Queries.{list_orders_query_schema}

-- An order as the API shows it; ids, addresses, hashes and times stand for their texts. It has no
-- `version`.
pub record OrderResponse : Type 0 where
  pub id : OrderId
  pub user_address : Address
  pub token_in : Text
  pub token_out : Text
  pub side : Side
  pub amount : Text
  pub trigger_price : Text
  pub status : Status
  pub execution_id : Hex
  pub tx_hash : Option Hex
  pub error_message : Option Text
  pub created_at : ℕ
  pub updated_at : ℕ

pub record PriceView : Type 0 where
  pub pair : Text
  pub price : Text
  pub source : Text
  pub observed_at : ℕ
  pub age_seconds : ℕ

pub record Check : Type 0 where
  pub ok : Bool
  pub detail : Option Text

pub record HealthReport : Type 0 where
  pub healthy : Bool
  pub database : Check
  pub rpc : Check
  pub contract : Check

-- What a response carries, without the `details` of an error.
pub data ResponseBody : Type 0 where
  order_data : OrderResponse → ResponseBody
  order_page : List OrderResponse → ℕ → ℕ → ℕ → ResponseBody
  price_data : PriceView → ResponseBody
  health_data : HealthReport → ResponseBody
  error_body : Text → Text → ResponseBody

pub record Response : Type 0 where
  pub status : ℕ
  pub body : ResponseBody

unfoldable pub serialize_order : Env → Order → OrderResponse
serialize_order env o = record {
  id = o.id;
  user_address = o.user_address;
  token_in = o.token_in;
  token_out = o.token_out;
  side = o.side;
  amount = env.decimal_text o.amount;
  trigger_price = env.decimal_text o.trigger_price;
  status = o.status;
  execution_id = o.execution_id;
  tx_hash = o.tx_hash;
  error_message = o.error_message;
  created_at = o.created_at;
  updated_at = o.updated_at;
}

-- The `code` of a domain error; any other error has none.
unfoldable pub error_code : ErrorKind → Option Text
error_code validation = some (text "VALIDATION_ERROR")
error_code order_not_found = some (text "ORDER_NOT_FOUND")
error_code invalid_transition = some (text "INVALID_TRANSITION")
error_code token_not_supported = some (text "TOKEN_NOT_SUPPORTED")
error_code trade_too_large = some (text "TRADE_TOO_LARGE")
error_code contract_paused = some (text "CONTRACT_PAUSED")
error_code _ = none

abbrev pub internal_error : Response
internal_error = record {
  status = 500;
  body = error_body (text "INTERNAL_ERROR") (text "An unexpected error occurred");
}

abbrev pub duplicate_error : Response
duplicate_error = record {
  status = 409;
  body =
      error_body (text "DUPLICATE_RESOURCE")
        (text "A record with this unique value already exists");
}

-- An error of the code's own classes is shown; a unique constraint and anything else is not.
abbrev pub other_error : ErrorKind → Response
other_error duplicate = duplicate_error
other_error _ = internal_error

abbrev pub coded_error : Option Text → Failure → Response
coded_error (some code) e = record { status = http_status e.kind; body = error_body code e.message }
coded_error none e = other_error e.kind

unfoldable pub error_handler : Failure → Response
unfolding error_code http_status
error_handler e = coded_error (error_code e.kind) e

-- `try { .. } catch (error) { next(error) }`, up to the terminal middleware.
unfoldable pub respond : M Response → M Response
unfolding error_handler
respond m = try m λ e. pure (error_handler e)

-- `if (!parsed.success) throw new ValidationError(..)`
abbrev pub parsed {ℓ} : {A : Type ℓ} → Text → Option A → M A
parsed message none = throw (validation_error message)
parsed message (some a) = pure a

abbrev pub order_answer : ℕ → M Order → M Response
order_answer status m = m >>= λ o. environment >>= λ env.
    pure (record { status = status; body = order_data (serialize_order env o) })

module _ (api : Api) (tokens : ChainTokens) where
  unfoldable pub create_order_handler : Body → M Response
  unfolding respond serialize_order
  create_order_handler body = respond (
      order_answer 201 (
        parsed (text "Invalid order payload") (create_order_schema body)
        >>= create_order api tokens))

abbrev pub page_answer : OrderPage → M Response
page_answer page = environment >>= λ env. pure (record {
  status = 200;
  body = order_page (map (serialize_order env) page.orders) page.total page.limit page.offset;
})

unfoldable pub list_orders_handler : (Json → Option ℕ) → List (Text × Json) → M Response
unfolding respond serialize_order
list_orders_handler coerce fields = respond (
    parsed (text "Invalid query parameters") (list_orders_query_schema coerce fields)
    >>= list_orders
    >>= page_answer)

-- `z.string().uuid()` of zod, and the key that such a text is in the table of orders.
module _ (uuid : Text → Option OrderId) where
  unfoldable pub get_order_handler : Text → M Response
  unfolding respond serialize_order
  get_order_handler id =
      respond (order_answer 200 (parsed (text "Invalid order id") (uuid id) >>= get_order))

  unfoldable pub cancel_order_handler : Text → M Response
  unfolding respond serialize_order
  cancel_order_handler id =
      respond (order_answer 200 (parsed (text "Invalid order id") (uuid id) >>= cancel_order))
