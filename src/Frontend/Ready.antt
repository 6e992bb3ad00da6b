-- ===== src/Frontend/Ready.antt =====
-- When the page of apps/frontend/src/app/page.tsx shows the form of a new order, by what the wallet
-- and the user have last said to apps/frontend/src/hooks/useWallet.ts.
use synthetic_order_executor.Base.{
  not, ◌&&◌, Option, none, some, List, [], ◌∷◌, Text, ◌≡◌, refl, ap, ◌∙◌,
}
use synthetic_order_executor.Frontend.Wallet.{
  ChainId, undefined, Reply, replied, rejected, WalletState, initial, Event, mounted, restored,
  accounts_changed, chain_changed, connect_clicked, switch_clicked, disconnect_clicked,
  accounts_requested, connect_read_chain, switch_read_chain, switch_requested, first, get_accounts,
  get_chain_id, request_accounts, parse_int_16, apply, after, is_other_chain, is_truthy, ready,
  wrong_network, after_accounts, after_switch, switch_to_sepolia, restore,
}

-- What an event says of the account to use: an account, that there is none, or nothing.
abbrev granted : Reply (List Text) → Option (Option Text)
granted (replied accounts) = some (first accounts)
granted (rejected e) = none

abbrev known : List Text → Option (Option Text)
known [] = none
known (a ∷ accounts) = some (some a)

abbrev pub account_word : Event → Option (Option Text)
account_word (restored accounts hex) = known (get_accounts accounts)
account_word (accounts_changed accounts) = some (first accounts)
account_word (accounts_requested r) = granted (request_accounts r)
account_word disconnect_clicked = some none
account_word _ = none

-- What an event says of the chain.
abbrev pub chain_word : Event → Option ChainId
chain_word (restored accounts hex) = some (get_chain_id hex)
chain_word (chain_changed hex) = some (parse_int_16 hex)
chain_word (connect_read_chain hex) = some (get_chain_id hex)
chain_word (switch_read_chain hex) = some (get_chain_id hex)
chain_word _ = none

abbrev said_later : {A : Type 0} → Option A → Option A → Option A
said_later (some a) earlier = some a
said_later none earlier = earlier

-- The last that the events say.
abbrev pub last_word : {A : Type 0} → (Event → Option A) → List Event → Option A
last_word word [] = none
last_word word (e ∷ events) = said_later (last_word word events) (word e)

abbrev pub from_word : {A : Type 0} → A → Option A → A
from_word a none = a
from_word a (some b) = b

from-said_later :
    {A : Type 0} (a : A) (later earlier : Option A)
    → from_word (from_word a earlier) later ≡ from_word a (said_later later earlier)
from-said_later a none earlier = refl
from-said_later a (some b) earlier = refl

-- A part of the state that each event sets to what it says of it follows the last word.
module _ {A : Type 0} (part : WalletState → A) (word : Event → Option A)
    (sets : (e : Event) (v : WalletState) → part (apply e v) ≡ from_word (part v) (word e)) where
  after-last_word :
      (events : List Event) (v : WalletState)
      → part (after events v) ≡ from_word (part v) (last_word word events)
  unfolding after
  after-last_word [] v = refl
  after-last_word (e ∷ events) v =
      after-last_word events (apply e v)
      ∙ ap (λ a. from_word a (last_word word events)) (sets e v)
      ∙ from-said_later (part v) (last_word word events) (word e)

apply-address :
    (e : Event) (v : WalletState) → (apply e v).address ≡ from_word v.address (account_word e)
unfolding apply
apply-address (mounted installed) v = refl
apply-address (restored accounts hex) v = go (get_accounts accounts)
  where
    go : (a : List Text) → (restore a v).address ≡ from_word v.address (known a)
    go [] = refl
    go (a ∷ rest) = refl
apply-address (accounts_changed accounts) v = refl
apply-address (chain_changed hex) v = refl
apply-address connect_clicked v = refl
apply-address switch_clicked v = refl
apply-address disconnect_clicked v = refl
apply-address (accounts_requested r) v = go (request_accounts r)
  where
    go : (q : Reply (List Text)) → (after_accounts q v).address ≡ from_word v.address (granted q)
    go (replied accounts) = refl
    go (rejected e) = refl
apply-address (connect_read_chain hex) v = refl
apply-address (switch_read_chain hex) v = refl
apply-address (switch_requested r) v = go (switch_to_sepolia r)
  where
    go : (q : Reply (Unit {0})) → (after_switch q v).address ≡ v.address
    go (replied ok) = refl
    go (rejected e) = refl

apply-chain_id :
    (e : Event) (v : WalletState) → (apply e v).chain_id ≡ from_word v.chain_id (chain_word e)
unfolding apply
apply-chain_id (mounted installed) v = refl
apply-chain_id (restored accounts hex) v = refl
apply-chain_id (accounts_changed accounts) v = refl
apply-chain_id (chain_changed hex) v = refl
apply-chain_id connect_clicked v = refl
apply-chain_id switch_clicked v = refl
apply-chain_id disconnect_clicked v = refl
apply-chain_id (accounts_requested r) v = go (request_accounts r)
  where
    go : (q : Reply (List Text)) → (after_accounts q v).chain_id ≡ v.chain_id
    go (replied accounts) = refl
    go (rejected e) = refl
apply-chain_id (connect_read_chain hex) v = refl
apply-chain_id (switch_read_chain hex) v = refl
apply-chain_id (switch_requested r) v = go (switch_to_sepolia r)
  where
    go : (q : Reply (Unit {0})) → (after_switch q v).chain_id ≡ v.chain_id
    go (replied ok) = refl
    go (rejected e) = refl

-- The account and the chain that events leave the page with.
abbrev pub account_after : List Event → Option Text
account_after events = from_word none (last_word account_word events)

abbrev pub chain_after : List Event → ChainId
chain_after events = from_word undefined (last_word chain_word events)

ready-parts :
    (v : WalletState) (account : Option Text) (id : ChainId)
    → v.address ≡ account
    → v.chain_id ≡ id
    → ready v ≡ (is_truthy account && not (is_other_chain id))
unfolding ready wrong_network
ready-parts v none id a c = rw a refl
ready-parts v (some []) id a c = rw a refl
ready-parts v (some (b ∷ s)) id a c = rw (a, c) refl

-- However the replies of the wallet, its events and the clicks of the user mix, the page orders for
-- the account that was last given, by the wallet on request or unasked, and for none once the user
-- has disconnected or the wallet has none left; a refused request and an empty restored list say
-- nothing. The form is shown exactly if there is such an account, its text not empty, and the chain
-- last read is Sepolia or is not known.
pub after-ready :
    (events : List Event)
    → ((after events initial).address ≡ account_after events)
      × (ready (after events initial)
          ≡ (is_truthy (account_after events) && not (is_other_chain (chain_after events))))
after-ready events = (
  address,
  ready-parts (after events initial) _ _ address
      (after-last_word (λ v. v.chain_id) chain_word apply-chain_id events initial),
)
  where
    address : (after events initial).address ≡ account_after events
    address = after-last_word (λ v. v.address) account_word apply-address events initial
