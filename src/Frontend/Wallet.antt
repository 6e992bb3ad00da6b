-- ===== src/Frontend/Wallet.antt =====
-- The wallet of the page: apps/frontend/src/lib/wallet.ts, the state of
-- apps/frontend/src/hooks/useWallet.ts, and when apps/frontend/src/app/page.tsx shows the form.
use synthetic_order_executor.Base.{
  ℕ, Bool, true, false, not, ◌&&◌, ◌||◌, Option, none, some, List, [], ◌∷◌, Text, text, same_text,
  take, drop, ◌==◌, trim_start, if◌then◌else◌,
}
use synthetic_order_executor.Http.Schemas.{is_hex_digit, hex_value}

abbrev pub sepolia_chain_id : ℕ
sepolia_chain_id = 11155111

-- A chain id as `number | undefined`: NaN is a number too.
pub data ChainId : Type 0 where
  undefined not_a_number : ChainId
  chain negative : ℕ → ChainId

-- The codes of a wallet's errors that the page tells apart: 4001, 4902, any other or none.
pub data ErrorCode : Type 0 where
  user_rejected unknown_chain other_code : ErrorCode

pub record WalletError : Type 0 where
  pub code : ErrorCode
  pub message : Text

-- What `provider.request` comes to.
pub data Reply (A : Type 0) : Type 0 where
  replied : A → Reply A
  rejected : WalletError → Reply A

abbrev hex_prefix : Text → Text
hex_prefix [] = []
hex_prefix (c ∷ s) = let rest = hex_prefix s in if is_hex_digit c then c ∷ rest else []

-- after the sign: `0x` is optional
-- after the sign: `0x` is optional
abbrev after_0x : Text → Text
after_0x s =
    if same_text (take 2 s) (text "0x") || same_text (take 2 s) (text "0X") then drop 2 s else s

abbrev read_digits : (ℕ → ChainId) → Text → ChainId
read_digits sign [] = not_a_number
read_digits sign (c ∷ s) = sign (hex_value 0 (c ∷ s))

abbrev read_signed : Text → ChainId
read_signed [] = not_a_number
read_signed (c ∷ s) =
    if c == b'-'
    then read_digits negative (hex_prefix (after_0x s))
    else if c == b'+'
    then read_digits chain (hex_prefix (after_0x s))
    else read_digits chain (hex_prefix (after_0x (c ∷ s)))

-- `Number.parseInt(hex, 16)`
unfoldable pub parse_int_16 : Text → ChainId
unfolding hex_value is_hex_digit trim_start
parse_int_16 s = read_signed (trim_start s)

-- The functions of wallet.ts. Their argument is what the wallet replies, if there is a wallet.
unfoldable pub request_accounts : Option (Reply (List Text)) → Reply (List Text)
request_accounts none =
    rejected (record {
      code = other_code;
      message = text "No wallet found. Install MetaMask to continue.";
    })
request_accounts (some r) = r

unfoldable pub get_accounts : Option (Reply (List Text)) → List Text
get_accounts none = []
get_accounts (some (replied accounts)) = accounts
get_accounts (some (rejected e)) = []

unfoldable pub get_chain_id : Option (Reply Text) → ChainId
unfolding parse_int_16
get_chain_id none = undefined
get_chain_id (some (replied hex)) = parse_int_16 hex
get_chain_id (some (rejected e)) = undefined

abbrev on_unknown : WalletError → ErrorCode → Reply (Unit {0}) → Reply (Unit {0})
on_unknown e unknown_chain added = added
on_unknown e user_rejected added = rejected e
on_unknown e other_code added = rejected e

-- The replies to `wallet_switchEthereumChain` and, if it comes to that, `wallet_addEthereumChain`.
unfoldable pub switch_to_sepolia : Option (Reply (Unit {0}) × Reply (Unit {0})) → Reply (Unit {0})
switch_to_sepolia none = rejected (record { code = other_code; message = text "No wallet found." })
switch_to_sepolia (some (replied ok, added)) = replied ok
switch_to_sepolia (some (rejected e, added)) = on_unknown e e.code added

-- The state of `useWallet`.
pub record WalletState : Type 0 where
  pub address : Option Text
  pub chain_id : ChainId
  pub installed : Bool
  pub connecting : Bool
  pub error : Option Text

abbrev pub initial : WalletState
initial = record {
  address = none;
  chain_id = undefined;
  installed = false;
  connecting = false;
  error = none;
}

-- The stretches of the hook's code from one `await` to the next. Those of different calls mix in
-- any order, and `rejected` ends the call that it answers.
pub data Event : Type 0 where
  mounted : Bool → Event
  restored : Option (Reply (List Text)) → Option (Reply Text) → Event
  accounts_changed : List Text → Event
  chain_changed : Text → Event
  connect_clicked switch_clicked disconnect_clicked : Event
  accounts_requested : Option (Reply (List Text)) → Event
  connect_read_chain switch_read_chain : Option (Reply Text) → Event
  switch_requested : Option (Reply (Unit {0}) × Reply (Unit {0})) → Event

-- `accounts[0] ?? null`
abbrev pub first : List Text → Option Text
first [] = none
first (a ∷ accounts) = some a

abbrev pub restore : List Text → WalletState → WalletState
restore [] v = v
restore (a ∷ accounts) v = record v { address = some a }

abbrev shown_error : WalletError → ErrorCode → Option Text
shown_error e user_rejected = none
shown_error e unknown_chain = some e.message
shown_error e other_code = some e.message

abbrev pub after_accounts : Reply (List Text) → WalletState → WalletState
after_accounts (replied accounts) v = record v { address = first accounts }
after_accounts (rejected e) v = record v { error = shown_error e e.code; connecting = false }

abbrev pub after_switch : Reply (Unit {0}) → WalletState → WalletState
after_switch (replied ok) v = v
after_switch (rejected e) v = record v { error = some e.message }

unfoldable pub apply : Event → WalletState → WalletState
unfolding request_accounts get_accounts get_chain_id switch_to_sepolia
apply (mounted installed) v = record v { installed = installed }
apply (restored accounts hex) v = record (restore (get_accounts accounts) v) {
  chain_id = get_chain_id hex;
}
apply (accounts_changed accounts) v = record v { address = first accounts }
apply (chain_changed hex) v = record v { chain_id = parse_int_16 hex }
apply connect_clicked v = record v { connecting = true; error = none }
apply (accounts_requested r) v = after_accounts (request_accounts r) v
apply (connect_read_chain hex) v = record v { chain_id = get_chain_id hex; connecting = false }
apply switch_clicked v = record v { error = none }
apply (switch_requested r) v = after_switch (switch_to_sepolia r) v
apply (switch_read_chain hex) v = record v { chain_id = get_chain_id hex }
apply disconnect_clicked v = record v { address = none; error = none }

unfoldable pub after : List Event → WalletState → WalletState
unfolding apply
after [] v = v
after (e ∷ events) v = after events (apply e v)

abbrev pub is_other_chain : ChainId → Bool
is_other_chain undefined = false
is_other_chain not_a_number = true
is_other_chain (chain n) = not (n == sepolia_chain_id)
is_other_chain (negative n) = true

abbrev pub has_address : Option Text → Bool
has_address none = false
has_address (some a) = true

unfoldable pub wrong_network : WalletState → Bool
wrong_network v = has_address v.address && is_other_chain v.chain_id

abbrev pub is_truthy : Option Text → Bool
is_truthy none = false
is_truthy (some []) = false
is_truthy (some (c ∷ s)) = true

-- `ready` of the page: the form is shown, for the address of the wallet.
unfoldable pub ready : WalletState → Bool
unfolding wrong_network
ready v = is_truthy v.address && not (wrong_network v)
