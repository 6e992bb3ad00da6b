-- ===== src/Frontend.antt =====
-- The web page, apps/frontend/src: the client of the API in lib/api.ts, the form of
-- components/CreateOrderForm.tsx and the table of components/OrderTable.tsx.
pub mod Typed
pub mod Wire
pub mod Calls
pub mod Clicks
pub mod Wallet
pub mod Ready
use synthetic_order_executor.Base.{
  ℕ, Bool, true, false, ◌&&◌, ◌||◌, Option, none, some, List, [], ◌∷◌, ◌++◌, Text, text,
  number_text, leb, join, if◌then◌else◌,
}
use synthetic_order_executor.Order.{Side, buy, sell, pending, triggered, same_status}
use synthetic_order_executor.Effects.{World, M, Failure, Outcome, done, threw, pure, ◌>>=◌}
use synthetic_order_executor.Http.Schemas.{Json, text_value, object}
use synthetic_order_executor.Http.{OrderResponse, PriceView}
use synthetic_order_executor.Http.App.{Method, get, post, Request}

pub record CreateOrderInput : Type 0 where
  pub user_address : Text
  pub token_in : Text
  pub token_out : Text
  pub side : Side
  pub amount : Text
  pub trigger_price : Text

-- What a caller of the client takes `body.data` for.
pub data Data : Type 0 where
  order_item : OrderResponse → Data
  order_items : List OrderResponse → Data
  price_item : PriceView → Data

-- The parts of a JSON body that the client reads, each if it is there.
pub record JsonBody : Type 0 where
  pub data' : Option Data
  pub code : Option Text
  pub message : Option Text

-- `response.json().catch(() => ({}))`: a body that is no JSON is the empty object.
abbrev pub empty_body : JsonBody
empty_body = record { data' = none; code = none; message = none }

pub record Reply : Type 0 where
  pub status : ℕ
  pub body : JsonBody

pub record ApiError : Type 0 where
  pub code : Text
  pub message : Text
  pub status : ℕ

-- `request` returns what is under `data`, or throws an `ApiError`; `fetch` itself may throw too.
pub data Requested : Type 0 where
  received : Option Data → Requested
  refused : ApiError → Requested

-- `response.ok`
unfoldable pub is_ok : ℕ → Bool
is_ok status = leb 200 status && leb status 299

-- `a ?? b`
abbrev or_else : Option Text → Text → Text
or_else none d = d
or_else (some s) d = s

unfoldable pub read_reply : Reply → Requested
unfolding is_ok
read_reply r =
    if is_ok r.status
    then received r.body.data'
    else refused (record {
      code = or_else r.body.code (text "UNKNOWN");
      message =
          or_else r.body.message (text "Request failed (" ++ (number_text r.status ++ text ")"));
      status = r.status;
    })

-- `fetch` is the browser's, for the one server of `API_URL`.
unfoldable pub request : (Request → M Reply) → Request → M Requested
unfolding read_reply
request fetch req = fetch req >>= λ r. pure (read_reply r)

abbrev pub side_text : Side → Text
side_text buy = text "BUY"
side_text sell = text "SELL"

-- `JSON.stringify(input)`
abbrev pub input_fields : CreateOrderInput → List (Text × Json)
input_fields input =
    (text "userAddress", text_value input.user_address)
    ∷ (text "tokenIn", text_value input.token_in)
    ∷ (text "tokenOut", text_value input.token_out)
    ∷ (text "side", text_value (side_text input.side))
    ∷ (text "amount", text_value input.amount)
    ∷ (text "triggerPrice", text_value input.trigger_price)
    ∷ []

-- A request without a body: Express reads it as the empty object.
abbrev bare : Method → Text → Request
bare m url = record { method = m; url = url; body = done (object []) }

abbrev pub orders_url : Text
orders_url = text "/api/orders"

-- An address that is missing or empty does not filter. The address is not escaped.
abbrev pub list_url : Option Text → Text
list_url none = orders_url ++ text "?limit=50"
list_url (some []) = orders_url ++ text "?limit=50"
list_url (some (c ∷ s)) = orders_url ++ (text "?userAddress=" ++ ((c ∷ s) ++ text "&limit=50"))

-- The id is not escaped.
abbrev pub order_url : Text → Text
order_url id = text "/api/orders/" ++ id

abbrev pub cancel_url : Text → Text
cancel_url id = order_url id ++ text "/cancel"

unfoldable pub create_order_request : CreateOrderInput → Request
create_order_request input = record {
  method = post;
  url = orders_url;
  body = done (object (input_fields input));
}

unfoldable pub list_orders_request : Option Text → Request
list_orders_request user_address = bare get (list_url user_address)

unfoldable pub get_order_request : Text → Request
get_order_request id = bare get (order_url id)

unfoldable pub cancel_order_request : Text → Request
cancel_order_request id = bare post (cancel_url id)

-- `encode` is `encodeURIComponent`.
unfoldable pub get_price_request : (Text → Text) → Text → Request
get_price_request encode pair = bare get (text "/api/prices/" ++ encode pair)

-- What the form and the table show after a call: an error, or none and a refresh of the page.
pub data Shown : Type 0 where
  refreshed : Shown
  error : Text → Shown

abbrev pub form_shows : Requested → Shown
form_shows (received d) = refreshed
form_shows (refused e) = error (e.code ++ (text ": " ++ e.message))

abbrev pub table_shows : Requested → Shown
table_shows (received d) = refreshed
table_shows (refused e) = error e.message

-- `catch (err)`: an error that is no `ApiError` shows its message.
abbrev pub shown_after : (Requested → Shown) → Outcome Requested × World → Outcome Shown × World
shown_after show (done r, w) = (done (show r), w)
shown_after show (threw e, w) = (done (error e.message), w)

module _ (fetch : Request → M Reply) where
  unfoldable pub submit : CreateOrderInput → M Shown
  submit input env w = shown_after form_shows (request fetch (create_order_request input) env w)

  unfoldable pub cancel : Text → M Shown
  cancel id env w = shown_after table_shows (request fetch (cancel_order_request id) env w)

-- The row of an order has a Cancel button: `CANCELLABLE.has(order.status)`.
unfoldable pub offers_cancel : OrderResponse → Bool
offers_cancel o = same_status o.status pending || same_status o.status triggered

-- The description of the order that the form would create.
unfoldable pub summary : CreateOrderInput → Text
summary input = described input.side
  where
    described : Side → Text
    described sell =
        text "SELL "
        ++ (input.amount
            ++ (text " "
                ++ (input.token_in
                    ++ (text " when "
                        ++ (input.token_in ++ (text " <= $" ++ input.trigger_price))))))
    described buy =
        text "BUY "
        ++ (input.token_out
            ++ (text " with "
                ++ (input.amount
                    ++ (text " "
                        ++ (input.token_in
                            ++ (text " when "
                                ++ (input.token_out ++ (text " >= $" ++ input.trigger_price))))))))
