-- ===== src/Scenarios/Pages.antt =====
-- The theorems on the web page, used at concrete values, and runs of its functions.
use synthetic_order_executor.Base.{
  true, false, not, ◌&&◌, none, some, List, [], ◌∷◌, text, same_text, to_lower, number_text,
  if◌then◌else◌, ◌≡◌, refl, ℕ, ◌==◌, Text,
}
use synthetic_order_executor.Order.{sell}
use synthetic_order_executor.Effects.{done, threw, ErrorKind}
use synthetic_order_executor.Http.Schemas.{Json, text_value, other_value, is_hex_digit, hex_value}
use synthetic_order_executor.Http.App.{
  Url, get, post, price_of, no_route, cancel_order, route, is_segment, Server,
}
use synthetic_order_executor.Frontend.{
  CreateOrderInput, summary, read_reply, is_ok, refused, empty_body,
}
use synthetic_order_executor.Frontend.Wallet.{
  Event, mounted, restored, connect_clicked, accounts_requested, connect_read_chain, chain_changed,
  replied, rejected, user_rejected, chain, negative, not_a_number, parse_int_16, initial, after,
  is_other_chain, is_truthy, ready, apply,
}
use synthetic_order_executor.Frontend.Ready.{account_after, chain_after, after-ready}
use synthetic_order_executor.Scenarios.Services.{tokens}
use synthetic_order_executor.Scenarios.Passes.{api}

-- A reading of URLs that need no escape.
abbrev cut : ℕ → Text → List Text
cut c [] = [] ∷ []
cut c (d ∷ s) =
    let rest = cut c s in
    if d == c
    then [] ∷ rest
    else elim rest [ [] ↦ (d ∷ []) ∷ [] | part ∷ parts ↦ (d ∷ part) ∷ parts ]

abbrev segments : List Text → List Text
segments [] = []
segments ([] ∷ ps) = segments ps
segments ((c ∷ p) ∷ ps) = (c ∷ p) ∷ segments ps

abbrev field : List Text → Text × Json
field (k ∷ v ∷ rest) = (k, text_value v)
field (k ∷ []) = (k, text_value [])
field [] = ([], other_value)

abbrev fields_of : List Text → List (Text × Json)
fields_of [] = []
fields_of (f ∷ fs) = field (cut b'=' f) ∷ fields_of fs

abbrev read : List Text → Url
read (path ∷ query ∷ rest) = record {
  path = segments (cut b'/' path);
  query = fields_of (cut b'&' query);
  req_path = path;
}
read (path ∷ []) = record { path = segments (cut b'/' path); query = []; req_path = path }
read [] = record { path = []; query = []; req_path = [] }

abbrev server : Server
server = record {
  api = api;
  tokens = tokens;
  read_url = λ url. read (cut b'?' url);
  coerce = λ v. some 50;
  uuid = λ id. if same_text id (text "7") then some 7 else none;
  price_service = threw (record { kind = ErrorKind.other; message = text "no feed" });
  decode = λ s. done s;
  get_chain_id = λ tick. done 11155111;
  chain_id = 11155111;
  address_text = λ a. text "0x";
  limited = λ tick. false;
}

abbrev form : CreateOrderInput
form = record {
  user_address = text "0x00000000000000000000000000000000000000aB";
  token_in = text "WETH";
  token_out = text "USDC";
  side = sell;
  amount = text "0.01";
  trigger_price = text "3500";
}

abbrev events : List Event
events =
    mounted true
    ∷ restored (some (replied [])) (some (replied (text "0x1")))
    ∷ connect_clicked
    ∷ accounts_requested (some (replied (text "0xab" ∷ [])))
    ∷ connect_read_chain (some (replied (text "0x1")))
    ∷ chain_changed (text "0xaa36a7")
    ∷ []

after-ready_example :
    ((after events initial).address ≡ account_after events)
    × (ready (after events initial)
        ≡ (is_truthy (account_after events) && not (is_other_chain (chain_after events))))
after-ready_example = after-ready events

connected : ready (after events initial) ≡ true
unfolding ready after apply is_hex_digit hex_value same_text
connected = refl

-- Nothing is known of the chain, and the form is shown.
without_chain :
    ready (
      after
        (accounts_requested (some (replied (text "0xab" ∷ [])))
          ∷ connect_read_chain (some (rejected (record { code = user_rejected; message = [] })))
          ∷ [])
        initial)
    ≡ true
unfolding ready after apply
without_chain = refl

parsed_ids :
    (parse_int_16 (text " 0xAa36A7") ≡ chain 11155111)
    × (parse_int_16 (text "-0x1g") ≡ negative 1)
    × (parse_int_16 (text "0x") ≡ not_a_number)
unfolding parse_int_16 is_hex_digit hex_value same_text
parsed_ids = (refl, refl, refl)

routes :
    (route get (text "API" ∷ text "prices" ∷ text "ETH/USD" ∷ []) ≡ price_of (text "ETH/USD"))
    × (route post (text "api" ∷ text "orders" ∷ text "7" ∷ text "cancel" ∷ [])
        ≡ cancel_order (text "7"))
    × (route get (text "api" ∷ text "orders" ∷ text "7" ∷ text "cancel" ∷ []) ≡ no_route)
unfolding route is_segment to_lower same_text
routes = (refl, refl, refl)

-- The rate limiter's text is no JSON.
turned_away_reads :
    read_reply (record { status = 429; body = empty_body })
    ≡ refused
        (record { code = text "UNKNOWN"; message = text "Request failed (429)"; status = 429 })
unfolding read_reply is_ok number_text
turned_away_reads = refl

summary_of_form : summary form ≡ text "SELL 0.01 WETH when WETH <= $3500"
unfolding summary
summary_of_form = refl
