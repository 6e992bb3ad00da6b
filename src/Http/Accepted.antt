-- ===== src/Http/Accepted.antt =====
-- What is known of a request that the schemas of apps/backend/src/api/schemas accept.
use native.Mathlib.Omega.{pow_step}
use synthetic_order_executor.Base.{
  trim, ℕ, ◌+◌, ◌*◌, ◌^◌, ◌≤◌, ◌<◌, Bool, true, false, ◌&&◌, inl, inr, leb→le, ==_iff, same_text,
  Bool-cases, Option, none, some, List, [], ◌∷◌, Text, text, length, take, drop, leb, if◌then◌else◌,
  ◌≡◌, refl, arith,
}
use synthetic_order_executor.Order.{Address, Side, Status}
use synthetic_order_executor.Price.Digits.{length-drop}
use synthetic_order_executor.Backend.{CreateOrderInput}
use synthetic_order_executor.Repository.{ListOrderFilters}
use synthetic_order_executor.Http.Schemas.{
  Json, text_value, other_value, Body, object, not_object, all_of, decimal_string, is_hex_digit,
  hex_digit, hex_value, accepts_address, address_schema, symbol_schema, create_order_schema, at_key,
  assemble_input, create_keys, create_fields, known_keys, ◌>>=◌,
}
use synthetic_order_executor.Http.Queries.{
  list_orders_query_schema, default_at, assemble_query, limit_schema, in_range, query_keys,
  query_fields,
}
use synthetic_order_executor.Http.Decimals.{ExactDecimal, accepts-ExactDecimal, and_true}

-- What holds of a parsed value, if there is one.
abbrev pub Holds {ℓ} : {A : Type ℓ} → (A → Type 0) → Option A → Type 0
Holds P none = Unit
Holds P (some a) = P a

module _ {A : Type 0} (P : A → Type 0) (key : Text) (schema : Json → Option A)
    (holds : (v : Json) → Holds P (schema v)) where
  at_key-Holds : (fields : List (Text × Json)) → Holds P (at_key key schema fields)
  at_key-Holds [] = tt
  at_key-Holds ((k, v) ∷ fields) = elim (Bool-cases (same_text k key)) [
    | inl found ↦ rw found (holds v)
    | inr other ↦ rw other (at_key-Holds fields)
  ]

  default_at-Holds :
      (d : A) (fields : List (Text × Json)) → P d → Holds P (default_at key schema d fields)
  default_at-Holds d [] h = h
  default_at-Holds d ((k, v) ∷ fields) h = elim (Bool-cases (same_text k key)) [
    | inl found ↦ rw found (holds v)
    | inr other ↦ rw other (default_at-Holds d fields h)
  ]

if-Holds :
    {A : Type 0} (P : A → Type 0) (b : Bool) (o : Option A)
    → (b ≡ true → Holds P o)
    → Holds P (if b then o else none)
if-Holds P true o h = h refl
if-Holds P false o h = tt

abbrev ShortSymbol : Text → Type 0
ShortSymbol s = (1 ≤ length s) × (length s ≤ 16)

decimal_string-Holds : (v : Json) → Holds ExactDecimal (decimal_string v)
unfolding decimal_string
decimal_string-Holds (text_value s) = if-Holds ExactDecimal _ _ (accepts-ExactDecimal (trim s))
decimal_string-Holds other_value = tt

symbol_schema-Holds : (v : Json) → Holds ShortSymbol (symbol_schema v)
unfolding symbol_schema
symbol_schema-Holds (text_value s) =
    if-Holds ShortSymbol (leb 1 (length (trim s)) && leb (length (trim s)) 16) (some (trim s))
      (lengths (trim s))
  where
    lengths : (v : Text) → (leb 1 (length v) && leb (length v) 16) ≡ true → ShortSymbol v
    lengths v h =
        let both = and_true (leb 1 (length v)) (leb (length v) 16) h in
        (leb→le _ _ both.0, leb→le _ _ both.1)
symbol_schema-Holds other_value = tt

hex_digit-bound : (c : ℕ) → is_hex_digit c ≡ true → hex_digit c ≤ 15
unfolding is_hex_digit hex_digit
hex_digit-bound c h = ground arith

widen : (acc d x p : ℕ) → d ≤ 15 → x < (acc * 16 + d + 1) * p → x < (acc + 1) * (16 * p)
widen acc d x p h k = grind arith

hex_value-bound :
    (acc : ℕ) (s : Text)
    → all_of is_hex_digit s ≡ true
    → hex_value acc s < (acc + 1) * 16 ^ length s
unfolding hex_value
hex_value-bound acc [] h = omega arith
hex_value-bound acc (c ∷ s) h = rw (pow_step 16 (length s)) (
    widen acc (hex_digit c) _ (16 ^ length s) (hex_digit-bound c parts.0)
      (hex_value-bound (acc * 16 + hex_digit c) s parts.1))
  where
    parts : (is_hex_digit c ≡ true) × (all_of is_hex_digit s ≡ true)
    parts = and_true (is_hex_digit c) (all_of is_hex_digit s) h

abbrev pub IsAddress : Address → Type 0
IsAddress a = a < 16 ^ 40

address_schema-Holds : (v : Json) → Holds IsAddress (address_schema v)
unfolding address_schema accepts_address
address_schema-Holds (text_value s) =
    if-Holds IsAddress (accepts_address (trim s)) (some (hex_value 0 (drop 2 (trim s))))
      (bounded (trim s))
  where
    forty : (v : Text) → length v ≡ 42 → length (drop 2 v) ≡ 40
    forty v h = omega (arith, length-drop 2 v)

    once : (x a : ℕ) → x < (0 + 1) * a → x < a
    once x a h = omega arith

    bounded : (v : Text) → accepts_address v ≡ true → IsAddress (hex_value 0 (drop 2 v))
    bounded v h =
        let outer =
          and_true (same_text (take 2 v) (text "0x") && all_of is_hex_digit (drop 2 v)) _ h in
        let inner = and_true (same_text (take 2 v) (text "0x")) _ outer.0 in
        once _ _ (
          rw (forty v ((==_iff (length v) 42).0 outer.1)) at (hex_value-bound 0 (drop 2 v) inner.1))
address_schema-Holds other_value = tt

-- What the service may rely on in the input of a new order.
abbrev pub ValidInput : CreateOrderInput → Type 0
ValidInput input =
    IsAddress input.user_address
    × ShortSymbol input.token_in
    × ShortSymbol input.token_out
    × ExactDecimal input.amount
    × ExactDecimal input.trigger_price

assemble_input-Holds :
    (a : Option Address) (i o : Option Text) (s : Option Side) (m t : Option Text)
    → Holds IsAddress a
    → Holds ShortSymbol i
    → Holds ShortSymbol o
    → Holds ExactDecimal m
    → Holds ExactDecimal t
    → Holds ValidInput (assemble_input a i o s m t)
unfolding ◌>>=◌
assemble_input-Holds none i o s m t ha hi ho hm ht = tt
assemble_input-Holds (some a) none o s m t ha hi ho hm ht = tt
assemble_input-Holds (some a) (some i) none s m t ha hi ho hm ht = tt
assemble_input-Holds (some a) (some i) (some o) none m t ha hi ho hm ht = tt
assemble_input-Holds (some a) (some i) (some o) (some s) none t ha hi ho hm ht = tt
assemble_input-Holds (some a) (some i) (some o) (some s) (some m) none ha hi ho hm ht = tt
assemble_input-Holds (some a) (some i) (some o) (some s) (some m) (some t) ha hi ho hm ht =
    (ha, hi, ho, hm, ht)

-- In whatever body the schema of a new order accepts, the address has at most 160 bits, the symbols
-- have 1 to 16 code units, and the amount and the trigger price are decimals with at most 18 places
-- that the price service reads as positive numbers of units of 10^-18, to the last digit.
pub create_order_schema-ValidInput : (body : Body) → Holds ValidInput (create_order_schema body)
unfolding create_order_schema
create_order_schema-ValidInput not_object = tt
create_order_schema-ValidInput (object fields) =
    if-Holds ValidInput (known_keys create_keys fields) (create_fields fields) λ known.
      assemble_input-Holds _ _ _ _ _ _ (at_key-Holds IsAddress _ _ address_schema-Holds fields)
        (at_key-Holds ShortSymbol _ _ symbol_schema-Holds fields)
        (at_key-Holds ShortSymbol _ _ symbol_schema-Holds fields)
        (at_key-Holds ExactDecimal _ _ decimal_string-Holds fields)
        (at_key-Holds ExactDecimal _ _ decimal_string-Holds fields)

abbrev pub BoundedPage : ListOrderFilters → Type 0
BoundedPage query = (1 ≤ query.limit) × (query.limit ≤ 100)

limit_schema-Holds :
    (coerce : Json → Option ℕ) (v : Json) → Holds (λ n. (1 ≤ n) × (n ≤ 100)) (limit_schema coerce v)
unfolding ◌>>=◌
limit_schema-Holds coerce v = go (coerce v)
  where
    go : (o : Option ℕ) → Holds (λ n. (1 ≤ n) × (n ≤ 100)) (o >>= in_range 1 (some 100))
    go none = tt
    go (some n) =
        if-Holds _ (leb 1 n && leb n 100) (some n)
          λ h. let both = and_true (leb 1 n) (leb n 100) h in (leb→le _ _ both.0, leb→le _ _ both.1)

assemble_query-Holds :
    (a : Option (Option Address)) (s : Option (Option Status)) (m f : Option ℕ)
    → Holds (λ n. (1 ≤ n) × (n ≤ 100)) m
    → Holds BoundedPage (assemble_query a s m f)
unfolding ◌>>=◌
assemble_query-Holds none s m f h = tt
assemble_query-Holds (some a) none m f h = tt
assemble_query-Holds (some a) (some s) none f h = tt
assemble_query-Holds (some a) (some s) (some m) none h = tt
assemble_query-Holds (some a) (some s) (some m) (some f) h = h

-- A page that is asked for has 1 to 100 orders, whatever the query string holds.
pub list_orders_query_schema-BoundedPage :
    (coerce : Json → Option ℕ) (fields : List (Text × Json))
    → Holds BoundedPage (list_orders_query_schema coerce fields)
unfolding list_orders_query_schema
list_orders_query_schema-BoundedPage coerce fields =
    if-Holds BoundedPage (known_keys query_keys fields) (query_fields coerce fields) λ known.
      assemble_query-Holds _ _ _ _ (
        default_at-Holds _ (text "limit") (limit_schema coerce) (limit_schema-Holds coerce) 20
          fields (omega arith, omega arith))
