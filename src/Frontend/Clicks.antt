-- ===== src/Frontend/Clicks.antt =====
-- What the form of apps/frontend/src/components/CreateOrderForm.tsx and the table of
-- apps/frontend/src/components/OrderTable.tsx show after a click, over the server of
-- apps/backend/src/app.ts.
use synthetic_order_executor.Base.{Option, ◌++◌, Text, text, ◌≡◌}
use synthetic_order_executor.Order.{OrderId, Order, cancelled}
use synthetic_order_executor.Order.StateMachine.{can_transition}
use synthetic_order_executor.Effects.{Env, World, Outcome, done, threw, ◌>>=◌}
use synthetic_order_executor.Backend.{create_order, cancel_order}
use synthetic_order_executor.Backend.Cancellation.{Cancels}
use synthetic_order_executor.Http.{OrderResponse, parsed}
use synthetic_order_executor.Http.Routes.{CachedPrice}
use synthetic_order_executor.Http.App.{Server}
use synthetic_order_executor.Frontend.{
  CreateOrderInput, ApiError, Shown, refreshed, error, submit, cancel, offers_cancel,
}
use synthetic_order_executor.Frontend.Typed.{typed_input}
use synthetic_order_executor.Frontend.Wire.{fetch_from, api_error}

-- What the user learns of an outcome: the refreshed page, or the text of the error.
abbrev pub learnt : {A : Type 0} → (ApiError → Text) → Outcome A × World → Outcome Shown × World
learnt words (done a, w) = (done refreshed, w)
learnt words (threw e, w) = (done (error (words (api_error e))), w)

abbrev pub coded_words : ApiError → Text
coded_words e = e.code ++ (text ": " ++ e.message)

-- The two clicks, by the text of an order's id and its key.
abbrev pub ClicksLearnt :
    Server
    → Option CachedPrice
    → OrderResponse
    → CreateOrderInput
    → Text
    → OrderId
    → Env
    → World
    → Type 0
ClicksLearnt s cache row input id key env w =
    (offers_cancel row ≡ can_transition row.status cancelled)
    × (submit (fetch_from s cache) input env w
        ≡ learnt coded_words (
            (parsed (text "Invalid order payload") (typed_input input)
                >>= create_order s.api s.tokens)
              env w))
    × (cancel (fetch_from s cache) id env w ≡ learnt (λ e. e.message) (cancel_order key env w))
    × Cancels key w.calls (cancel (fetch_from s cache) id env w).1.calls
