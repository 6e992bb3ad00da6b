-- ===== src/Backend/Errors.antt =====
-- The domain errors of apps/backend/src/domain/errors.ts.
use synthetic_order_executor.Base.{ℕ, ◌++◌, Text, text, number_text}
use synthetic_order_executor.Order.{status_text, OrderId, Status}
use synthetic_order_executor.Effects.{
  Failure, ErrorKind, validation, order_not_found, invalid_transition, token_not_supported,
  trade_too_large, contract_paused, duplicate,
}

-- The HTTP status that each domain error carries; any other error is a 500.
unfoldable pub http_status : ErrorKind → ℕ
http_status validation = 400
http_status order_not_found = 404
http_status invalid_transition = 409
http_status token_not_supported = 400
http_status trade_too_large = 400
http_status contract_paused = 503
http_status duplicate = 409
http_status _ = 500

unfoldable pub validation_error : Text → Failure
validation_error message = record { kind = validation; message = message }

unfoldable pub not_found_error : OrderId → Failure
not_found_error id = record {
  kind = order_not_found;
  message = text "Order " ++ (number_text id ++ text " not found");
}

unfoldable pub transition_error : Status → Status → Failure
unfolding status_text
transition_error from to = record {
  kind = invalid_transition;
  message =
      text "Cannot transition order from " ++ (status_text from ++ (text " to " ++ status_text to));
}
