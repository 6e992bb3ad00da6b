-- ===== src/Price/Feeds.antt =====
-- The providers of packages/chain/src/price that ask the outside: chainlink.provider.ts and
-- coingecko.provider.ts.
use synthetic_order_executor.Base.{
  ℕ, suc, ◌-◌, ◌*◌, ◌/◌, Bool, not, ◌||◌, Option, none, some, ◌∷◌, ◌++◌, Text, text, number_text,
  same_text, ltb, if◌then◌else◌,
}
use synthetic_order_executor.Order.{Address}
use synthetic_order_executor.Chain.{PriceQuote}
use synthetic_order_executor.Effects.{
  M, Failure, ErrorKind, price_unavailable, Outcome, done, threw, pure, throw, lift, refuse_if,
  ◌>>=◌, ◌>>◌, try, ask, current_time,
}
use synthetic_order_executor.Price.{PriceProvider, unavailable}

-- An `int256`: `negsuc n` is -(n + 1).
pub data ℤ : Type 0 where
  pos negsuc : ℕ → ℤ

unfoldable pub integer_text : ℤ → Text
integer_text (ℤ.pos n) = number_text n
integer_text (ℤ.negsuc n) = b'-' ∷ number_text (suc n)

-- What `latestRoundData` returns, without the start of the round, which is not read.
pub record RoundData : Type 0 where
  pub round_id : ℕ
  pub answer : ℤ
  pub updated_at : ℕ
  pub answered_in_round : ℕ

-- A JSON number, by what the code asks of it; `shown` is its `toString()`.
pub record Double : Type 0 where
  pub is_finite : Bool
  pub is_positive : Bool
  pub shown : Text

pub record HttpReply : Type 0 where
  pub ok : Bool
  pub status : ℕ
  -- `body[id]?.usd` of the body as JSON, where that is a number; reading it may throw
  pub usd : Text → Outcome (Option Double)

-- The network: the aggregator contract through viem, and `fetch`, which throws on a time-out.
pub record PriceSources : Type 0 where
  pub latest_round_data : Address → ℕ → Outcome RoundData
  pub decimals : Address → ℕ → Outcome ℕ
  pub format_units : ℕ → ℕ → Text
  pub fetch : Text → ℕ → Outcome HttpReply

unfoldable pub eth_usd : Text
eth_usd = text "ETH/USD"

-- `catch`: an error of the provider's own class passes, any other becomes one.
abbrev pub as_unavailable : Text → Text → ErrorKind → Failure → M PriceQuote
as_unavailable name asset price_unavailable e = throw e
as_unavailable name asset _ e = throw (unavailable name asset e.message)

abbrev pub guarded : Text → Text → M PriceQuote → M PriceQuote
guarded name asset m = try m λ e. as_unavailable name asset e.kind e

unfoldable pub stale_by : ℕ → ℕ → Text
stale_by age limit =
    text "stale by " ++ (number_text age ++ (text "s (max " ++ (number_text limit ++ text "s)")))

unfoldable pub incomplete : RoundData → Text
incomplete round =
    text "incomplete round (answeredInRound="
    ++ (number_text round.answered_in_round
        ++ (text " < roundId=" ++ (number_text round.round_id ++ text ")")))

unfoldable pub refused : Text → Failure
unfolding eth_usd
refused reason = unavailable (text "chainlink") eth_usd reason

-- The age of a round is at least 0 where it exceeds the limit.
abbrev pub accept_answer : ℕ → ℕ → RoundData → ℤ → Outcome ℕ
accept_answer limit now round (ℤ.pos (suc n)) =
    if ltb round.answered_in_round round.round_id
    then threw (refused (incomplete round))
    else if ltb limit (now / 1000 - round.updated_at)
    then threw (refused (stale_by (now / 1000 - round.updated_at) limit))
    else done (suc n)
accept_answer limit now round z = threw (refused (text "non-positive answer " ++ integer_text z))

-- The checks of a round, which give its answer.
unfoldable pub accept_round : ℕ → ℕ → RoundData → Outcome ℕ
unfolding refused incomplete stale_by integer_text
accept_round limit now round = accept_answer limit now round round.answer

module _ (sources : PriceSources) where
  abbrev store_decimals : ℕ → M ℕ
  store_decimals n env w = (done n, record w { decimals_cache = some n })

  abbrev decimals_from : Address → Option ℕ → M ℕ
  decimals_from feed (some n) = pure n
  decimals_from feed none = ask (λ env tick. sources.decimals feed tick) >>= store_decimals

  unfoldable pub get_decimals : Address → M ℕ
  get_decimals feed env w = decimals_from feed w.decimals_cache env w

  -- What stands inside the `try`, for `ETH/USD`.
  unfoldable pub read_round : Address → ℕ → M PriceQuote
  unfolding eth_usd get_decimals
  read_round feed max_staleness_sec = do
    round ← ask (λ env tick. sources.latest_round_data feed tick)
    now ← current_time
    answer ← lift (accept_round max_staleness_sec now round)
    decimals ← get_decimals feed
    pure (record {
      asset = eth_usd;
      price = sources.format_units answer decimals;
      source = text "chainlink";
      observed_at = round.updated_at * 1000;
      round_id = some round.round_id;
    })

  unfoldable pub chainlink_provider : Address → ℕ → PriceProvider
  unfolding eth_usd
  chainlink_provider feed max_staleness_sec = record {
    name = text "chainlink";
    supports = same_text eth_usd;
    get_price = λ asset.
        if same_text eth_usd asset
        then guarded (text "chainlink") asset (read_round feed max_staleness_sec)
        else throw (unavailable (text "chainlink") asset (text "unsupported asset"));
  }

  unfoldable pub coingecko_url : Text → Text
  coingecko_url base_url = base_url ++ text "/simple/price?ids=ethereum&vs_currencies=usd"

  abbrev spot_quote : Text → ℕ → Option Double → Outcome PriceQuote
  spot_quote asset now none =
      threw (unavailable (text "coingecko") asset (text "malformed payload"))
  spot_quote asset now (some value) =
      if not value.is_finite || not value.is_positive
      then threw (unavailable (text "coingecko") asset (text "malformed payload"))
      else done (record {
        asset = asset;
        price = value.shown;
        source = text "coingecko";
        observed_at = now;
        round_id = none;
      })

  unfoldable pub read_spot : Text → Text → M PriceQuote
  unfolding coingecko_url
  read_spot base_url asset = do
    response ← ask (λ env tick. sources.fetch (coingecko_url base_url) tick)
    refuse_if (not response.ok)
        (unavailable (text "coingecko") asset (text "HTTP " ++ number_text response.status))
    value ← lift (response.usd (text "ethereum"))
    now ← current_time
    lift (spot_quote asset now value)

  -- `in` also finds the names that every object inherits; no asset is one of them.
  unfoldable pub coingecko_provider : Text → PriceProvider
  unfolding eth_usd
  coingecko_provider base_url = record {
    name = text "coingecko";
    supports = same_text eth_usd;
    get_price = λ asset.
        if same_text eth_usd asset
        then guarded (text "coingecko") asset (read_spot base_url asset)
        else throw (unavailable (text "coingecko") asset (text "unsupported asset"));
  }
