-- ===== src/Http/Schemas.antt =====
-- apps/backend/src/api/schemas/order.schema.ts: what a new order may hold. A schema gives what it
-- parsed, or nothing.
use synthetic_order_executor.Base.{
  trim, ℕ, ◌+◌, ◌-◌, ◌*◌, Bool, true, false, not, ◌&&◌, ◌||◌, Option, none, some, List, [], ◌∷◌,
  Text, text, same_text, length, take, drop, leb, ◌==◌, if◌then◌else◌,
}
use synthetic_order_executor.Order.{Address, Side, buy, sell}
use synthetic_order_executor.Price.{whole_part, after_dot, frac_part}
use synthetic_order_executor.Backend.{CreateOrderInput}

-- A value in a JSON body or a query string; only texts are told apart from the rest.
pub data Json : Type 0 where
  text_value : Text → Json
  other_value : Json

pub data Body : Type 0 where
  object : List (Text × Json) → Body
  not_object : Body

abbrev pub is_digit : ℕ → Bool
is_digit c = leb b'0' c && leb c b'9'

abbrev pub all_of : (ℕ → Bool) → Text → Bool
all_of p [] = true
all_of p (c ∷ s) = p c && all_of p s

abbrev pub any_of : (ℕ → Bool) → Text → Bool
any_of p [] = false
any_of p (c ∷ s) = p c || any_of p s

abbrev pub is_empty : Text → Bool
is_empty [] = true
is_empty (c ∷ s) = false

-- `\d+`
unfoldable pub digits_only : Text → Bool
digits_only s = not (is_empty s) && all_of is_digit s

-- /^\d+(\.\d+)?$/
unfoldable pub matches_decimal : Text → Bool
unfolding digits_only
matches_decimal s =
    digits_only (whole_part s) && (not (any_of (λ c. c == b'.') s) || digits_only (after_dot s))

-- `Number(v) > 0` of a decimal with at most 18 decimal places: some digit is not 0.
unfoldable pub is_positive : Text → Bool
is_positive = any_of (λ c. leb b'1' c && leb c b'9')

-- The checks of `decimalString`, after the trim.
unfoldable pub accepts_decimal : Text → Bool
unfolding matches_decimal is_positive
accepts_decimal v = matches_decimal v && is_positive v && leb (length (frac_part v)) 18

unfoldable pub decimal_string : Json → Option Text
unfolding accepts_decimal trim
decimal_string (text_value s) = let v = trim s in if accepts_decimal v then some v else none
decimal_string other_value = none

unfoldable pub is_hex_digit : ℕ → Bool
is_hex_digit c = is_digit c || (leb b'a' c && leb c b'f') || (leb b'A' c && leb c b'F')

unfoldable pub hex_digit : ℕ → ℕ
hex_digit c = if leb b'a' c then c - 87 else if leb b'A' c then c - 55 else c - 48

-- The number that hexadecimal digits spell.
unfoldable pub hex_value : ℕ → Text → ℕ
unfolding hex_digit
hex_value acc [] = acc
hex_value acc (c ∷ s) = hex_value (acc * 16 + hex_digit c) s

-- /^0x[a-fA-F0-9]{40}$/
unfoldable pub accepts_address : Text → Bool
unfolding is_hex_digit
accepts_address s =
    same_text (take 2 s) (text "0x") && all_of is_hex_digit (drop 2 s) && (length s == 42)

unfoldable pub address_schema : Json → Option Address
unfolding accepts_address trim hex_value
address_schema (text_value s) =
    let v = trim s in if accepts_address v then some (hex_value 0 (drop 2 v)) else none
address_schema other_value = none

-- `z.string().trim().min(1).max(16)`
unfoldable pub symbol_schema : Json → Option Text
unfolding trim
symbol_schema (text_value s) =
    let v = trim s in if leb 1 (length v) && leb (length v) 16 then some v else none
symbol_schema other_value = none

unfoldable pub side_schema : Json → Option Side
side_schema (text_value s) =
    if same_text s (text "BUY")
    then some buy
    else if same_text s (text "SELL")
    then some sell
    else none
side_schema other_value = none

module _ {A : Type 0} where
  abbrev pub at_key : Text → (Json → Option A) → List (Text × Json) → Option A
  at_key key schema [] = none
  at_key key schema ((k, v) ∷ fields) =
      let rest = at_key key schema fields in if same_text k key then schema v else rest

module _ {A B : Type 0} where
  infixl 5 ◌>>=◌
  unfoldable pub ◌>>=◌ : Option A → (A → Option B) → Option B
  ◌>>=◌ none f = none
  ◌>>=◌ (some a) f = f a

-- `.strict()`
unfoldable pub known_keys : List Text → List (Text × Json) → Bool
known_keys keys [] = true
known_keys keys ((k, v) ∷ fields) = is_key keys k && known_keys keys fields
  where
    is_key : List Text → Text → Bool
    is_key [] s = false
    is_key (t ∷ ts) s = same_text t s || is_key ts s

abbrev pub create_keys : List Text
create_keys =
    text "userAddress"
    ∷ text "tokenIn"
    ∷ text "tokenOut"
    ∷ text "side"
    ∷ text "amount"
    ∷ text "triggerPrice"
    ∷ []

abbrev pub assemble_input :
    Option Address
    → Option Text
    → Option Text
    → Option Side
    → Option Text
    → Option Text
    → Option CreateOrderInput
assemble_input user_address token_in token_out side amount trigger_price = do
  address ← user_address
  symbol_in ← token_in
  symbol_out ← token_out
  which ← side
  size ← amount
  price ← trigger_price
  some (record {
    user_address = address;
    token_in = symbol_in;
    token_out = symbol_out;
    side = which;
    amount = size;
    trigger_price = price;
  })

abbrev pub create_fields : List (Text × Json) → Option CreateOrderInput
create_fields fields =
    assemble_input (at_key (text "userAddress") address_schema fields)
      (at_key (text "tokenIn") symbol_schema fields) (at_key (text "tokenOut") symbol_schema fields)
      (at_key (text "side") side_schema fields) (at_key (text "amount") decimal_string fields)
      (at_key (text "triggerPrice") decimal_string fields)

unfoldable pub create_order_schema : Body → Option CreateOrderInput
unfolding known_keys address_schema symbol_schema side_schema decimal_string
create_order_schema (object fields) =
    if known_keys create_keys fields then create_fields fields else none
create_order_schema not_object = none
