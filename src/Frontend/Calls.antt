-- ===== src/Frontend/Calls.antt =====
-- The client of the API, apps/frontend/src/lib/api.ts, over the server of apps/backend/src/app.ts.
use synthetic_order_executor.Base.{
  List, [], ◌∷◌, ℕ, true, false, Option, some, map, Text, text, same_text, to_lower, ◌≡◌, refl,
}
use synthetic_order_executor.Order.{Order}
use synthetic_order_executor.Effects.{Env, World, M, done, pure, ◌>>=◌, environment}
use synthetic_order_executor.Backend.{OrderPage, create_order, list_orders, get_order, cancel_order}
use synthetic_order_executor.Http.{
  Response, order_data, serialize_order, parsed, create_order_handler, cancel_order_handler,
}
use synthetic_order_executor.Http.Routes.{CachedPrice}
use synthetic_order_executor.Http.App.{Server, Request, answered, handle, routed, route, is_segment}
use synthetic_order_executor.Frontend.{
  orders_url, list_url, order_url, cancel_url, CreateOrderInput, Data, order_item, order_items,
  received, is_ok, read_reply, request, create_order_request, list_orders_request,
  get_order_request, cancel_order_request,
}
use synthetic_order_executor.Frontend.Wire.{reply_of, fetch_from, told, through-respond}
use synthetic_order_executor.Frontend.Typed.{
  typed_input, create_order_schema-input_fields, list_query, typed_query,
}

abbrev pub order_of : Env → Order → Data
order_of env o = order_item (serialize_order env o)

abbrev pub orders_of : Env → OrderPage → Data
orders_of env page = order_items (map (serialize_order env) page.orders)

abbrev shown_order : ℕ → Order → M Response
shown_order status o = environment >>= λ env.
    pure (record { status = status; body = order_data (serialize_order env o) })

order_reads :
    (status : ℕ)
    → is_ok status ≡ true
    → (env : Env) (o : Order) (w : World)
    → (r : Response) × (shown_order status o env w ≡ (done r, w))
      × (read_reply (reply_of (answered r)) ≡ received (some (order_of env o)))
unfolding ◌>>=◌ environment pure read_reply
order_reads status ok env o w = (_, refl, rw ok refl)

ok_200 : is_ok 200 ≡ true
unfolding is_ok
ok_200 = refl

ok_201 : is_ok 201 ≡ true
unfolding is_ok
ok_201 = refl

-- The server reads the path of the URL as these segments.
abbrev pub ReadAs : Server → Text → List Text → Type 0
ReadAs s url segments = (s.read_url url).path ≡ segments

abbrev pub orders_path : List Text
orders_path = text "api" ∷ text "orders" ∷ []

abbrev pub order_path : Text → List Text
order_path id = text "api" ∷ text "orders" ∷ id ∷ []

abbrev pub cancel_path : Text → List Text
cancel_path id = text "api" ∷ text "orders" ∷ id ∷ text "cancel" ∷ []

abbrev pub Tells :
    {A : Type 0}
    → Server
    → Option CachedPrice
    → Request
    → M A
    → (Env → A → Data)
    → Env
    → World
    → Type 0
Tells s cache req m item env w = request (fetch_from s cache) req env w ≡ told (item env) (m env w)

module _ (s : Server) (cache : Option CachedPrice) (env : Env) (w : World)
    (admitted : s.limited w.tick ≡ false) where
  pub create_order-Tells :
      (input : CreateOrderInput)
      → ReadAs s orders_url orders_path
      → Tells s cache
          (create_order_request input)
          (parsed (text "Invalid order payload") (typed_input input)
            >>= create_order s.api s.tokens)
          order_of
          env
          w
  unfolding request create_order_request handle routed route is_segment same_text to_lower
      create_order_handler ◌>>=◌ pure
  create_order-Tells input path =
      rw (admitted, path, create_order_schema-input_fields input)
        (through-respond _ (shown_order 201) order_of (order_reads 201 ok_201) cache env w)

  pub cancel_order-Tells :
      (id : Text)
      → ReadAs s (cancel_url id) (cancel_path id)
      → Tells s cache
          (cancel_order_request id)
          (parsed (text "Invalid order id") (s.uuid id) >>= cancel_order)
          order_of
          env
          w
  unfolding request cancel_order_request handle routed route is_segment same_text to_lower
      cancel_order_handler ◌>>=◌ pure
  cancel_order-Tells id path =
      rw (admitted, path)
        (through-respond _ (shown_order 200) order_of (order_reads 200 ok_200) cache env w)

abbrev pub CallsTell :
    Server → Option CachedPrice → CreateOrderInput → Option Text → Text → Env → World → Type 0
CallsTell s cache input user_address id env w =
    Tells s cache (create_order_request input)
      (parsed (text "Invalid order payload") (typed_input input) >>= create_order s.api s.tokens)
      order_of env w
    × Tells s cache (list_orders_request user_address)
        (parsed (text "Invalid query parameters") (typed_query user_address) >>= list_orders)
        orders_of env w
    × Tells s cache (get_order_request id)
        (parsed (text "Invalid order id") (s.uuid id) >>= get_order) order_of env w
    × Tells s cache (cancel_order_request id)
        (parsed (text "Invalid order id") (s.uuid id) >>= cancel_order) order_of env w

-- The server reads the URLs of the four calls as what they are written for. So it does where the id
-- and the address need no escape, as the ids of the API and the addresses of a wallet: the client
-- writes both into the URL as they are.
pub record ReadsUrls (s : Server) (user_address : Option Text) (id : Text) : Type 0 where
  pub orders : ReadAs s orders_url orders_path
  pub listed : ReadAs s (list_url user_address) orders_path
  pub fields : (s.read_url (list_url user_address)).query ≡ list_query user_address
  pub one : ReadAs s (order_url id) (order_path id)
  pub cancelled : ReadAs s (cancel_url id) (cancel_path id)
