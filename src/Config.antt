-- ===== src/Config.antt =====
-- Configuration from the variables of the process: the schemas of one variable, and
-- packages/chain/src/config.ts.
pub mod Worker
pub mod Api
pub mod Ranges
use synthetic_order_executor.Base.{
  ℕ, suc, Bool, true, false, not, ◌&&◌, ◌||◌, Option, none, some, List, [], ◌∷◌, ◌++◌, map, Text,
  text, number_text, same_text, trim, length, take, drop, or_else, is_some, leb, ltb, ◌==◌,
  if◌then◌else◌,
}
use synthetic_order_executor.Order.{Address}
use synthetic_order_executor.Effects.{Failure, ErrorKind, other, Outcome, done, threw}
use synthetic_order_executor.Price.Factory.{ProviderKind, chainlink, coingecko, static}
use synthetic_order_executor.Http.Schemas.{accepts_address, hex_value, all_of, is_hex_digit, ◌>>=◌}
use synthetic_order_executor.Http.Queries.{in_range}

-- What zod makes of a text: `z.coerce.number().int()` where that is an integer and not negative,
-- `z.coerce.number().positive()`, `z.string().url()`; and `Number` on a fee tier.
pub record Parsing : Type 0 where
  pub coerce : Text → Option ℕ
  pub coerce_positive : Text → Option ℕ
  pub is_url : Text → Bool
  pub number : Text → ℕ

abbrev pub Variables : Type 0
Variables = Text → Option Text

unfoldable pub config_error : Text → Failure
config_error message = record { kind = other; message = message }

-- A schema at a variable, with `.default(d)`, and with `.optional()`.
module _ {A : Type 0} where
  abbrev pub with_default : A → (Text → Option A) → Option Text → Option A
  with_default d schema none = some d
  with_default d schema (some v) = schema v

  abbrev pub optionally : (Text → Option A) → Option Text → Option (Option A)
  optionally schema none = some none
  optionally schema (some v) = elim (schema v) [ none ↦ none | some a ↦ some (some a) ]

  abbrev pub required : (Text → Option A) → Option Text → Option A
  required schema none = none
  required schema (some v) = schema v

  abbrev pub when : (Text → Bool) → (Text → A) → Text → Option A
  when test f v = if test v then some (f v) else none

abbrev pub between : ℕ → Option ℕ → Option ℕ → Option ℕ
between low high none = none
between low high (some n) = in_range low high n

-- /^0x[a-fA-F0-9]{64}$/
unfoldable pub accepts_key : Text → Bool
unfolding is_hex_digit
accepts_key s =
    same_text (take 2 s) (text "0x") && all_of is_hex_digit (drop 2 s) && (length s == 66)

unfoldable pub address_text : Text → Option Address
unfolding accepts_address hex_value
address_text = when accepts_address (λ v. hex_value 0 (drop 2 v))

abbrev pub the_text : Text → Text
the_text v = v

-- `split(',')`
unfoldable pub split_commas : Text → List Text
split_commas [] = [] ∷ []
split_commas (c ∷ s) =
    let rest = split_commas s in
    if c == b','
    then [] ∷ rest
    else elim rest [ [] ↦ (c ∷ []) ∷ [] | part ∷ parts ↦ (c ∷ part) ∷ parts ]

pub record ChainConfig : Type 0 where
  pub chain_id : ℕ
  pub rpc_urls : List Text
  pub executor_contract : Address
  pub executor_private_key : Option Text
  pub swap_router : Address
  pub quoter_v2 : Address
  pub factory : Address
  pub fee_tiers : List ℕ
  pub weth : Address
  pub usdc : Address
  pub slippage_bps : ℕ
  pub deadline_window_sec : ℕ
  pub max_fee_per_gas_gwei : ℕ

-- `filter(Boolean)`: the empty text is falsy.
abbrev pub add_url : Option Text → List Text → List Text
add_url none urls = urls
add_url (some []) urls = urls
add_url (some (c ∷ url)) urls = (c ∷ url) ∷ urls

module _ (zod : Parsing) (vars : Variables) where
  abbrev pub number_at : Text → ℕ → ℕ → Option ℕ → Option ℕ
  number_at name low d high = with_default d (λ v. between low high (zod.coerce v)) (vars name)

  abbrev pub exactly : ℕ → Text → Option ℕ
  exactly n v = elim (zod.coerce v) [ none ↦ none | some m ↦ if m == n then some m else none ]

  abbrev url : Text → Option Text
  url = when zod.is_url the_text

  unfoldable pub parse_chain_config : Option ChainConfig
  unfolding address_text accepts_key
  parse_chain_config = do
    id ← required (exactly 11155111) (vars (text "CHAIN_ID"))
    rpc_url ← required url (vars (text "SEPOLIA_RPC_URL"))
    second_url ← optionally url (vars (text "SEPOLIA_RPC_URL_FALLBACK"))
    contract ← required address_text (vars (text "EXECUTOR_CONTRACT_ADDRESS"))
    key ← optionally (when accepts_key the_text) (vars (text "EXECUTOR_PRIVATE_KEY"))
    router ←
        with_default 0x3bFA4769FB09eefC5a80d6E87c3B9C650f7Ae48E address_text
          (vars (text "UNISWAP_SWAP_ROUTER_02"))
    quoter ←
        with_default 0xEd1f6473345F45b75F8179591dd5bA1888cf2FB3 address_text
          (vars (text "UNISWAP_QUOTER_V2"))
    factory ←
        with_default 0x0227628f3F023bb0B980b67D528571c95c6DaC1c address_text
          (vars (text "UNISWAP_V3_FACTORY"))
    tiers ← some (or_else (vars (text "UNISWAP_POOL_FEE_TIERS")) (text "500,3000,10000"))
    weth ←
        with_default 0xfFf9976782d46CC05630D1f6eBAb18b2324d6B14 address_text
          (vars (text "WETH_ADDRESS"))
    usdc ←
        with_default 0x1c7D4B196Cb0C7B01d743Fbc6116a902379C7238 address_text
          (vars (text "USDC_ADDRESS"))
    slippage ← number_at (text "EXECUTION_SLIPPAGE_BPS") 1 100 (some 5000)
    deadline ← number_at (text "DEADLINE_WINDOW_SEC") 1 120 (some 300)
    max_fee ← with_default 100 zod.coerce_positive (vars (text "MAX_FEE_PER_GAS_GWEI"))
    some (record {
      chain_id = id;
      rpc_urls = add_url (some rpc_url) (add_url second_url []);
      executor_contract = contract;
      executor_private_key = key;
      swap_router = router;
      quoter_v2 = quoter;
      factory = factory;
      fee_tiers = map (λ f. zod.number (trim f)) (split_commas tiers);
      weth = weth;
      usdc = usdc;
      slippage_bps = slippage;
      deadline_window_sec = deadline;
      max_fee_per_gas_gwei = max_fee;
    })

  -- The issues that follow the first line of the message are left out.
  unfoldable pub load_chain_config : Outcome ChainConfig
  unfolding parse_chain_config config_error
  load_chain_config = elim parse_chain_config [
    | none ↦ threw (config_error (text "Invalid chain configuration:"))
    | some c ↦ done c
  ]
