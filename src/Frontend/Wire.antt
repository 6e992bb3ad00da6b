-- ===== src/Frontend/Wire.antt =====
-- A request of apps/frontend/src/lib/api.ts on its way through the server of
-- apps/backend/src/app.ts, and the response on its way back.
use synthetic_order_executor.Base.{Option, none, some, Text, text, ◌≡◌, refl}
use synthetic_order_executor.Effects.{
  Env, World, M, Failure, ErrorKind, Outcome, done, threw, pure, ◌>>=◌, continue, try, recover,
}
use synthetic_order_executor.Backend.{http_status}
use synthetic_order_executor.Http.{
  Response, ResponseBody, order_data, order_page, price_data, health_data, error_body, error_code,
  error_handler, respond,
}
use synthetic_order_executor.Http.Routes.{CachedPrice}
use synthetic_order_executor.Http.App.{
  Server, Request, Served, answered, alive, turned_away, handle,
}
use synthetic_order_executor.Frontend.{
  Data, order_item, order_items, price_item, JsonBody, empty_body, Reply, ApiError, Requested,
  received, refused, is_ok, read_reply,
}

-- What the client finds in a body that the API writes.
abbrev pub json_of : ResponseBody → JsonBody
json_of (order_data o) = record empty_body { data' = some (order_item o) }
json_of (order_page orders total limit offset) = record empty_body {
  data' = some (order_items orders);
}
json_of (price_data p) = record empty_body { data' = some (price_item p) }
json_of (health_data r) = empty_body
json_of (error_body code message) = record {
  data' = none;
  code = some code;
  message = some message;
}

abbrev pub reply_of : Served → Reply
reply_of (answered r) = record { status = r.status; body = json_of r.body }
reply_of alive = record { status = 200; body = empty_body }
reply_of turned_away = record { status = 429; body = empty_body }

-- A `fetch` that reaches the server.
abbrev pub fetch_from : Server → Option CachedPrice → Request → M Reply
fetch_from s cache req = handle s cache req >>= λ r. pure (reply_of r.0)

-- What the API may tell of an error: its own errors in full, of any other a fixed text.
abbrev pub api_error : Failure → ApiError
api_error e = told_of (error_code e.kind) e.kind
  where
    told_of : Option Text → ErrorKind → ApiError
    told_of (some code) k = record { code = code; message = e.message; status = http_status e.kind }
    told_of none ErrorKind.duplicate = record {
      code = text "DUPLICATE_RESOURCE";
      message = text "A record with this unique value already exists";
      status = 409;
    }
    told_of none _ = record {
      code = text "INTERNAL_ERROR";
      message = text "An unexpected error occurred";
      status = 500;
    }

abbrev pub told : {A : Type 0} → (A → Data) → Outcome A × World → Outcome Requested × World
told show (done a, w) = (done (received (some (show a))), w)
told show (threw e, w) = (done (refused (api_error e)), w)

pub read-error_handler :
    (e : Failure) → read_reply (reply_of (answered (error_handler e))) ≡ refused (api_error e)
unfolding read_reply is_ok error_handler error_code http_status
read-error_handler e = go e.kind refl
  where
    go :
        (k : ErrorKind)
        → e.kind ≡ k
        → read_reply (reply_of (answered (error_handler e))) ≡ refused (api_error e)
    go ErrorKind.price_unavailable h = rw h refl
    go ErrorKind.price_untrusted h = rw h refl
    go ErrorKind.execution_rejected h = rw h refl
    go ErrorKind.no_liquidity h = rw h refl
    go ErrorKind.quote_stale h = rw h refl
    go ErrorKind.no_signer h = rw h refl
    go ErrorKind.validation h = rw h refl
    go ErrorKind.order_not_found h = rw h refl
    go ErrorKind.invalid_transition h = rw h refl
    go ErrorKind.token_not_supported h = rw h refl
    go ErrorKind.trade_too_large h = rw h refl
    go ErrorKind.contract_paused h = rw h refl
    go ErrorKind.duplicate h = rw h refl
    go ErrorKind.transaction_not_found h = rw h refl
    go ErrorKind.receipt_not_found h = rw h refl
    go ErrorKind.other h = rw h refl

-- What the page learns of a response on its way through the server and the client.
abbrev through : Option CachedPrice → Env → Outcome Response × World → Outcome Requested × World
through cache env r =
    continue (λ r'. pure (read_reply r')) env
      (continue (λ (r' : Served × Option CachedPrice). pure (reply_of r'.0)) env
        (continue (λ r'. pure (answered r', cache)) env r))

-- The caller's view of a handler that answers with what a use-case returned.
module _ {A : Type 0} (m : M A) (show : A → M Response) (item : Env → A → Data)
    (shows : (env : Env) (a : A) (w : World)
      → (r : Response) × (show a env w ≡ (done r, w))
        × (read_reply (reply_of (answered r)) ≡ received (some (item env a)))) where
  pub through-respond :
      (cache : Option CachedPrice) (env : Env) (w : World)
      → through cache env (respond (m >>= show) env w) ≡ told (item env) (m env w)
  unfolding respond try ◌>>=◌ pure
  through-respond cache env w = go (m env w)
    where
      go :
          (r : Outcome A × World)
          → through cache env (recover (λ e. pure (error_handler e)) env (continue show env r))
            ≡ told (item env) r
      go (done a, w') = let (r, e, d) = shows env a w' in rw (e, d) refl
      go (threw e, w') = rw (read-error_handler e) refl
