-- ===== src/Order.antt =====
-- The order row of packages/database/prisma/schema.prisma and the enumerations of
-- packages/shared/src/types/order.ts. Ids, hashes and addresses are the numbers that their
-- hexadecimal text spells; a `Decimal(38, 18)` is a number of units of 10^-18; a `Date` is a number
-- of milliseconds.
pub mod StateMachine
use synthetic_order_executor.Base.{ℕ, Option, Text, text, Bool, true, false}

pub data Status : Type 0 where
  pending triggered executing executed failed cancelled : Status

unfoldable pub status_text : Status → Text
status_text pending = text "PENDING"
status_text triggered = text "TRIGGERED"
status_text executing = text "EXECUTING"
status_text executed = text "EXECUTED"
status_text failed = text "FAILED"
status_text cancelled = text "CANCELLED"

pub data Side : Type 0 where
  buy sell : Side

abbrev pub OrderId : Type 0
OrderId = ℕ

abbrev pub Hex : Type 0
Hex = ℕ

abbrev pub Address : Type 0
Address = ℕ

abbrev pub Decimal : Type 0
Decimal = ℕ

pub record Order : Type 0 where
  pub id : OrderId
  pub user_address : Address
  pub token_in : Text
  pub token_out : Text
  pub side : Side
  pub amount : Decimal
  pub trigger_price : Decimal
  pub status : Status
  pub execution_id : Hex
  pub tx_hash : Option Hex
  pub error_message : Option Text
  pub submitted_at : Option ℕ
  pub confirmed_at : Option ℕ
  pub block_number : Option ℕ
  pub gas_used : Option ℕ
  pub amount_out : Option ℕ
  pub monitor_attempts : ℕ
  pub version : ℕ
  pub created_at : ℕ
  pub updated_at : ℕ

pub Status-discrete : Discrete Status
Status-discrete = hlevel

-- `===` on statuses
abbrev pub same_status : Status → Status → Bool
same_status pending pending = true
same_status triggered triggered = true
same_status executing executing = true
same_status executed executed = true
same_status failed failed = true
same_status cancelled cancelled = true
same_status _ _ = false
