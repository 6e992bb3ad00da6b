-- ===== src/Http/Answers.antt =====
-- What the API of orders answers, in apps/backend/src/api/controllers/order.controller.ts and
-- apps/backend/src/api/middleware/errorHandler.ts.
use synthetic_order_executor.Base.{ℕ, Option, none, some, List, map, Text, text, ◌≡◌, refl}
use synthetic_order_executor.Order.{OrderId, Order}
use synthetic_order_executor.Effects.{
  Env, World, M, Failure, ErrorKind, validation, Outcome, done, threw, ◌>>=◌, continue, try,
  recover, pure, throw, environment,
}
use synthetic_order_executor.Execution.{ChainTokens}
use synthetic_order_executor.Backend.{
  Api, validation_error, http_status, OrderPage, create_order, list_orders, get_order, cancel_order,
}
use synthetic_order_executor.Http.Schemas.{Json, Body, create_order_schema}
use synthetic_order_executor.Http.Queries.{list_orders_query_schema}
use synthetic_order_executor.Http.{
  Response, order_data, order_page, error_body, serialize_order, error_code, internal_error,
  duplicate_error, error_handler, respond, parsed, page_answer, create_order_handler,
  list_orders_handler, get_order_handler, cancel_order_handler,
}

-- What a failure is shown as: an error of the code's own classes in full, of any other a fixed text.
abbrev pub shown : Failure → Response
shown e = shown_as (error_code e.kind) e.kind
  where
    shown_as : Option Text → ErrorKind → Response
    shown_as (some code) k = record {
      status = http_status e.kind;
      body = error_body code e.message;
    }
    shown_as none ErrorKind.duplicate = duplicate_error
    shown_as none _ = internal_error

error_handler-shown : (e : Failure) → error_handler e ≡ shown e
unfolding error_handler error_code http_status
error_handler-shown e = go e.kind refl
  where
    go : (k : ErrorKind) → e.kind ≡ k → error_handler e ≡ shown e
    go ErrorKind.price_unavailable h = rw h refl
    go ErrorKind.price_untrusted h = rw h refl
    go ErrorKind.execution_rejected h = rw h refl
    go ErrorKind.no_liquidity h = rw h refl
    go ErrorKind.quote_stale h = rw h refl
    go ErrorKind.no_signer h = rw h refl
    go ErrorKind.validation h = rw h refl
    go ErrorKind.order_not_found h = rw h refl
    go ErrorKind.invalid_transition h = rw h refl
    go ErrorKind.token_not_supported h = rw h refl
    go ErrorKind.trade_too_large h = rw h refl
    go ErrorKind.contract_paused h = rw h refl
    go ErrorKind.duplicate h = rw h refl
    go ErrorKind.transaction_not_found h = rw h refl
    go ErrorKind.receipt_not_found h = rw h refl
    go ErrorKind.other h = rw h refl

-- The answer to an outcome of a use-case.
abbrev pub answered_with :
    {A : Type 0} → (A → Response) → Outcome A × World → Outcome Response × World
answered_with show (done a, w) = (done (show a), w)
answered_with show (threw e, w) = (done (shown e), w)

-- The outcome of a use-case on a request: one that its schema refuses is invalid, and nothing is done.
abbrev pub asked : {A B : Type 0} → Text → Option A → (A → M B) → Env → World → Outcome B × World
asked message none use_case env w = (threw (record { kind = validation; message = message }), w)
asked message (some a) use_case env w = use_case a env w

module _ {A B : Type 0} (message : Text) (use_case : A → M B) (show : B → M Response)
    (response : Env → B → Response)
    (shows : (env : Env) (b : B) (w : World) → show b env w ≡ (done (response env b), w)) where
  respond-answered :
      (input : Option A) (env : Env) (w : World)
      → respond ((parsed message input >>= use_case) >>= show) env w
        ≡ answered_with (response env) (asked message input use_case env w)
  unfolding respond try ◌>>=◌ pure throw validation_error
  respond-answered none env w =
      rw (error_handler-shown (record { kind = validation; message = message })) refl
  respond-answered (some a) env w = go (use_case a env w)
    where
      go :
          (r : Outcome B × World)
          → recover (λ e. pure (error_handler e)) env (continue show env r)
            ≡ answered_with (response env) r
      go (done b, w') = rw (shows env b w') refl
      go (threw e, w') = rw (error_handler-shown e) refl

abbrev pub order_response : ℕ → Env → Order → Response
order_response status env o = record { status = status; body = order_data (serialize_order env o) }

abbrev pub page_response : Env → OrderPage → Response
page_response env page = record {
  status = 200;
  body = order_page (map (serialize_order env) page.orders) page.total page.limit page.offset;
}

order_shows :
    (status : ℕ) (env : Env) (o : Order) (w : World)
    → (environment >>= λ env'.
          pure (record { status = status; body = order_data (serialize_order env' o) }))
        env w
      ≡ (done (order_response status env o), w)
unfolding ◌>>=◌ environment pure
order_shows status env o w = refl

page_shows :
    (env : Env) (page : OrderPage) (w : World)
    → page_answer page env w ≡ (done (page_response env page), w)
unfolding ◌>>=◌ environment pure
page_shows env page w = refl

-- What each call answers, by the outcome of its use-case on the request.
abbrev pub HandlersAnswer :
    Api
    → ChainTokens
    → (Json → Option ℕ)
    → (Text → Option OrderId)
    → Body
    → List (Text × Json)
    → Text
    → Env
    → World
    → Type 0
HandlersAnswer api tokens coerce uuid body fields id env w =
    (create_order_handler api tokens body env w
      ≡ answered_with (order_response 201 env) (
          asked (text "Invalid order payload") (create_order_schema body) (create_order api tokens)
            env w))
    × (list_orders_handler coerce fields env w
        ≡ answered_with (page_response env) (
            asked (text "Invalid query parameters") (list_orders_query_schema coerce fields)
              list_orders env w))
    × (get_order_handler uuid id env w
        ≡ answered_with (order_response 200 env)
            (asked (text "Invalid order id") (uuid id) get_order env w))
    × (cancel_order_handler uuid id env w
        ≡ answered_with (order_response 200 env)
            (asked (text "Invalid order id") (uuid id) cancel_order env w))

-- Each call of the API of orders runs its use-case once, on what its schema has made of the request,
-- and answers with just the order or the page that the use-case returned, serialized. Where the
-- use-case threw, the answer shows the error: its code, message and status where it is of the code's
-- own classes, and a fixed text where it is any other. A request that its schema refuses is answered
-- with 400, and nothing else has happened.
pub handlers-answer :
    (api : Api) (tokens : ChainTokens) (coerce : Json → Option ℕ) (uuid : Text → Option OrderId)
    (body : Body) (fields : List (Text × Json)) (id : Text) (env : Env) (w : World)
    → HandlersAnswer api tokens coerce uuid body fields id env w
unfolding create_order_handler list_orders_handler get_order_handler cancel_order_handler
handlers-answer api tokens coerce uuid body fields id env w = (
  respond-answered _ _ _ (order_response 201) (order_shows 201) (create_order_schema body) env w,
  respond-answered _ _ _ page_response page_shows (list_orders_query_schema coerce fields) env w,
  respond-answered _ _ _ (order_response 200) (order_shows 200) (uuid id) env w,
  respond-answered _ _ _ (order_response 200) (order_shows 200) (uuid id) env w,
)
