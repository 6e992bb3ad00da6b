-- ===== src/Backend.antt =====
-- apps/backend/src/services/order.service.ts: the use-cases of the API. Errors.antt has
-- the domain errors, Tokens.antt the token registry.
pub mod Requests
pub mod Cancellation
pub mod Transitions
pub mod Amounts
mod Errors
unfoldable pub use Errors.{http_status, validation_error, not_found_error, transition_error}
mod Tokens
unfoldable pub use Tokens.{resolve_token}
pub use Tokens.*
use synthetic_order_executor.Base.{
  ℕ, suc, ◌+◌, ◌-◌, ◌*◌, Bool, true, false, not, Option, none, some, List, [], ◌∷◌, ◌++◌, Text,
  text, number_text, same_text, to_upper, length, take, drop, replicate, ltb, ◌==◌, if◌then◌else◌,
}
use synthetic_order_executor.Order.{
  status_text, OrderId, Hex, Address, Side, Status, Order, pending, triggered, cancelled,
}
use synthetic_order_executor.Order.StateMachine.{can_transition, is_user_cancellable}
use synthetic_order_executor.Effects.{
  M, Env, Failure, ErrorKind, validation, order_not_found, invalid_transition, token_not_supported,
  trade_too_large, contract_paused, duplicate, Outcome, done, threw, pure, throw, lift, refuse_if,
  ◌>>=◌, ◌>>◌, ask, environment,
}
use synthetic_order_executor.Execution.{ChainTokens}
use synthetic_order_executor.Repository.{
  CreateOrderData, TransitionParams, ListOrderFilters, create, find_by_id, list, transition_status,
}

pub record CreateOrderInput : Type 0 where
  pub user_address : Address
  pub token_in : Text
  pub token_out : Text
  pub side : Side
  pub amount : Text
  pub trigger_price : Text

-- What the API asks of the contract and of the run time beyond the environment.
pub record Api : Type 0 where
  pub is_token_allowed : ℕ → Address → Outcome Bool
  pub get_max_trade_amount : ℕ → Address → Outcome ℕ
  pub random_uuid : ℕ → OrderId
  pub uuid_text : OrderId → Text

-- `s.padStart(n, '0')`
unfoldable pub pad_start : ℕ → Text → Text
pad_start n s = replicate (n - length s) b'0' ++ s

-- `frac.replace(/0+$/, '')`
unfoldable pub drop_zeros : Text → Text
drop_zeros [] = []
drop_zeros (c ∷ s) =
    let rest = drop_zeros s in
    elim rest [ [] ↦ if c == b'0' then [] else c ∷ [] | d ∷ t ↦ c ∷ d ∷ t ]

abbrev with_frac : Text → Text → Text
with_frac whole [] = whole
with_frac whole (c ∷ frac) = whole ++ b'.' ∷ c ∷ frac

unfoldable pub format_base_units : ℕ → ℕ → Text
unfolding pad_start
format_base_units value decimals =
    let s = pad_start (decimals + 1) (number_text value) in
    with_frac (take (length s - decimals) s) (drop_zeros (drop (length s - decimals) s))

-- keccak256(toHex(`soe:order:v1:${orderId}`)): `toHex` reads the text as base-256 digits.
unfoldable pub to_hex : ℕ → Text → Hex
to_hex acc [] = acc
to_hex acc (c ∷ s) = to_hex (acc * 256 + c) s

unfoldable pub derive_execution_id : (ℕ → Hex) → (OrderId → Text) → OrderId → Hex
unfolding to_hex
derive_execution_id keccak256 uuid_text id =
    keccak256 (to_hex 0 (text "soe:order:v1:" ++ uuid_text id))

paused_error : Failure
paused_error = record {
  kind = contract_paused;
  message = text "The executor contract is paused; execution is unavailable";
}

not_allowed : Text → Failure
unfolding validation_error
not_allowed symbol =
    validation_error (text "Token " ++ (symbol ++ text " is not allowlisted on-chain"))

too_large : Text → ℕ → TokenInfo → Failure
too_large amount max token = record {
  kind = trade_too_large;
  message =
      text "Amount "
      ++ (amount
          ++ (text " "
              ++ (token.symbol
                  ++ (text " exceeds the on-chain maximum of "
                      ++ (format_base_units max token.decimals ++ (text " " ++ token.symbol))))));
}

module _ (api : Api) (tokens : ChainTokens) where
  -- The checks of a new order, and what is to be stored.
  unfoldable pub checked_data : CreateOrderInput → M CreateOrderData
  unfolding paused_error not_allowed too_large
  checked_data input = do
    token_in ← lift (resolve_token tokens input.token_in)
    token_out ← lift (resolve_token tokens input.token_out)
    refuse_if (token_in.address == token_out.address)
        (validation_error (text "tokenIn and tokenOut must differ"))
    state ← ask (λ env tick. env.get_state tick)
    refuse_if state.paused paused_error
    in_allowed ← ask (λ env tick. api.is_token_allowed tick token_in.address)
    out_allowed ← ask (λ env tick. api.is_token_allowed tick token_out.address)
    max_trade_amount ← ask (λ env tick. api.get_max_trade_amount tick token_in.address)
    refuse_if (not in_allowed) (not_allowed token_in.symbol)
    refuse_if (not out_allowed) (not_allowed token_out.symbol)
    env ← environment
    amount ← lift (env.parse_units input.amount token_in.decimals)
    refuse_if (ltb max_trade_amount amount) (too_large input.amount max_trade_amount token_in)
    id ← ask (λ env tick. done (api.random_uuid tick))
    pure (record {
      id = id;
      user_address = input.user_address;
      token_in = token_in.symbol;
      token_out = token_out.symbol;
      side = input.side;
      amount = env.parse_decimal input.amount;
      trigger_price = env.parse_decimal input.trigger_price;
      execution_id = derive_execution_id env.keccak256 api.uuid_text id;
    })

  unfoldable pub create_order : CreateOrderInput → M Order
  unfolding checked_data
  create_order input = checked_data input >>= create

abbrev or_not_found : OrderId → Option Order → M Order
or_not_found id none = throw (not_found_error id)
or_not_found id (some o) = pure o

unfoldable pub get_order : OrderId → M Order
get_order id = find_by_id id >>= or_not_found id

-- The transition of the row that `o` was read from.
abbrev pub row_transition :
    Order → Status → Option (Option Hex) → Option (Option Text) → TransitionParams
row_transition o next tx_hash message = record {
  id = o.id;
  expected_status = o.status;
  expected_version = o.version;
  next_status = next;
  tx_hash = tx_hash;
  error_message = message;
}

abbrev pub report_state : OrderId → Option Order → M Order
report_state id (some updated) = pure updated
report_state id none = do current ← get_order id; throw (transition_error current.status cancelled)

unfoldable pub cancel_order : OrderId → M Order
cancel_order id = do
  o ← get_order id
  refuse_if (not (is_user_cancellable o.status)) (transition_error o.status cancelled)
  updated ← transition_status (record (row_transition o cancelled none none) { id = id })
  report_state id updated

unfoldable pub mark_triggered : OrderId → M (Option Order)
mark_triggered id = do
  o ← get_order id
  refuse_if (not (can_transition o.status triggered)) (transition_error o.status triggered)
  transition_status (record (row_transition o triggered none none) { id = id })

unfoldable pub transition :
    Order → Status → Option (Option Hex) → Option (Option Text) → M (Option Order)
transition o next tx_hash message = do
  refuse_if (not (can_transition o.status next)) (transition_error o.status next)
  transition_status (row_transition o next tx_hash message)

pub record OrderPage : Type 0 where
  pub orders : List Order
  pub total : ℕ
  pub limit : ℕ
  pub offset : ℕ

unfoldable pub list_orders : ListOrderFilters → M OrderPage
list_orders query = do
  page ← list query
  pure (record { orders = page.0; total = page.1; limit = query.limit; offset = query.offset })
