-- ===== src/Http/App.antt =====
-- apps/backend/src/app.ts with apps/backend/src/api/routes/order.routes.ts: which handler of the API
-- a request reaches. A HEAD request is not one of these.
use synthetic_order_executor.Base.{
  ℕ, Bool, ◌&&◌, Option, List, [], ◌∷◌, ◌++◌, Text, text, same_text, to_lower, if◌then◌else◌,
}
use synthetic_order_executor.Order.{OrderId, Address}
use synthetic_order_executor.Effects.{M, Outcome, done, threw, pure, lift, ◌>>=◌}
use synthetic_order_executor.Execution.{ChainTokens}
use synthetic_order_executor.Price.Factory.{PriceService}
use synthetic_order_executor.Backend.{Api}
use synthetic_order_executor.Http.Schemas.{Json, Body}
use synthetic_order_executor.Http.{
  Response, error_body, respond, create_order_handler, list_orders_handler, get_order_handler,
  cancel_order_handler,
}
use synthetic_order_executor.Http.Routes.{CachedPrice, price_handler, health_handler}

pub data Method : Type 0 where
  get post : Method
  other_method : Text → Method

-- What `fetch` and Express make of the text of a URL: the segments of the path as Express decodes
-- them, the fields of the query, and `req.path`.
pub record Url : Type 0 where
  pub path : List Text
  pub query : List (Text × Json)
  pub req_path : Text

-- `url` is the text that the client has written; `body` is what `express.json` makes of the body,
-- which may throw.
pub record Request : Type 0 where
  pub method : Method
  pub url : Text
  pub body : Outcome Body

-- What `createApp` is assembled from, with what the libraries do: `read_url` is the reading of a
-- URL, `uuid` and `coerce` are zod's, `decode` is `decodeURIComponent`, `limited` is the decision of
-- express-rate-limit.
pub record Server : Type 0 where
  pub api : Api
  pub tokens : ChainTokens
  pub read_url : Text → Url
  pub coerce : Json → Option ℕ
  pub uuid : Text → Option OrderId
  pub price_service : Outcome PriceService
  pub decode : Text → Outcome Text
  pub get_chain_id : ℕ → Outcome ℕ
  pub chain_id : ℕ
  pub address_text : Address → Text
  pub limited : ℕ → Bool

-- A JSON body of the handlers, the reply of the liveness route, or the text of the rate limiter.
pub data Served : Type 0 where
  answered : Response → Served
  alive : Served
  turned_away : Served

pub data Route : Type 0 where
  health deep_health create_order list_orders : Route
  get_order cancel_order price_of : Text → Route
  no_route : Route

-- Paths are matched in any case.
unfoldable pub is_segment : Text → Text → Bool
is_segment name s = same_text (to_lower s) name

abbrev on_get : Method → Route → Route
on_get get r = r
on_get post r = no_route
on_get (other_method m) r = no_route

abbrev on_post : Method → Route → Route
on_post get r = no_route
on_post post r = r
on_post (other_method m) r = no_route

abbrev collection : Method → Route
collection get = list_orders
collection post = create_order
collection (other_method m) = no_route

-- The routers of /health, /api/prices and /api/orders.
unfoldable pub route : Method → List Text → Route
unfolding is_segment
route m [] = no_route
route m (a ∷ []) = if is_segment (text "health") a then on_get m health else no_route
route m (a ∷ b ∷ []) =
    if is_segment (text "health") a && is_segment (text "deep") b
    then on_get m deep_health
    else if is_segment (text "api") a && is_segment (text "orders") b
    then collection m
    else no_route
route m (a ∷ b ∷ c ∷ []) =
    if is_segment (text "api") a && is_segment (text "prices") b
    then on_get m (price_of c)
    else if is_segment (text "api") a && is_segment (text "orders") b
    then on_get m (get_order c)
    else no_route
route m (a ∷ b ∷ c ∷ d ∷ []) =
    if is_segment (text "api") a && is_segment (text "orders") b && is_segment (text "cancel") d
    then on_post m (cancel_order c)
    else no_route
route m (a ∷ b ∷ c ∷ d ∷ e ∷ rest) = no_route

abbrev method_text : Method → Text
method_text get = text "GET"
method_text post = text "POST"
method_text (other_method m) = m

unfoldable pub not_found_handler : Method → Text → Response
not_found_handler m req_path = record {
  status = 404;
  body =
      error_body (text "NOT_FOUND")
        (text "No route for " ++ (method_text m ++ (text " " ++ req_path)));
}

-- The module's `cache` of the price route goes through every request.
abbrev keeping : Option CachedPrice → M Response → M (Served × Option CachedPrice)
keeping cache m = m >>= λ r. pure (answered r, cache)

module _ (s : Server) where
  unfoldable pub routed :
      Option CachedPrice → Request → Body → Route → M (Served × Option CachedPrice)
  unfolding not_found_handler
  routed cache req body health = pure (alive, cache)
  routed cache req body deep_health =
      keeping cache (health_handler s.get_chain_id s.chain_id s.address_text)
  routed cache req body (price_of pair) =
      price_handler s.price_service s.decode cache pair >>= λ r. pure (answered r.0, r.1)
  routed cache req body create_order = keeping cache (create_order_handler s.api s.tokens body)
  routed cache req body list_orders =
      keeping cache (list_orders_handler s.coerce (s.read_url req.url).query)
  routed cache req body (get_order id) = keeping cache (get_order_handler s.uuid id)
  routed cache req body (cancel_order id) = keeping cache (cancel_order_handler s.uuid id)
  routed cache req body no_route =
      pure (answered (not_found_handler req.method (s.read_url req.url).req_path), cache)

  -- A client that sends too much is turned away.
  abbrev admitted : Option CachedPrice → Request → Body → Bool → M (Served × Option CachedPrice)
  admitted cache req body turned =
      let ordinary = routed cache req body (route req.method (s.read_url req.url).path) in
      if turned then pure (turned_away, cache) else ordinary

  -- A body that cannot be read goes to the terminal middleware.
  abbrev parsed_request :
      Option CachedPrice → Request → Outcome Body → M (Served × Option CachedPrice)
  parsed_request cache req (done body) env w = admitted cache req body (s.limited w.tick) env w
  parsed_request cache req (threw e) env w = keeping cache (respond (lift (threw e))) env w

  -- The middleware of `createApp`, in its order.
  unfoldable pub handle : Option CachedPrice → Request → M (Served × Option CachedPrice)
  unfolding routed route respond
  handle cache req = parsed_request cache req req.body
