-- ===== src/Price.antt =====
-- packages/chain/src/price: price.service.ts, which decides whether a price may be acted on, with the
-- interface of PriceProvider.ts and static.provider.ts.
pub mod Trust
pub mod Feeds
pub mod Factory
pub mod Rounds
pub mod Sources
pub mod Digits
use synthetic_order_executor.Base.{
  ℕ, zero, suc, ◌+◌, ◌-◌, ◌*◌, ◌/◌, Bool, true, false, ◌&&◌, Option, none, some, List, [], ◌∷◌,
  ◌++◌, Text, text, number_text, take, length, replicate, leb, ltb, ◌==◌, if◌then◌else◌,
}
use synthetic_order_executor.Chain.{PriceQuote}
use synthetic_order_executor.Effects.{
  M, Failure, ErrorKind, price_unavailable, price_untrusted, other, Outcome, done, threw, pure,
  throw, lift, refuse_if, ◌>>=◌, ◌>>◌, try, current_time,
}

pub record PriceProvider : Type 0 where
  pub name : Text
  pub supports : Text → Bool
  pub get_price : Text → M PriceQuote

unfoldable pub untrusted : Text → Failure
untrusted reason = record {
  kind = price_untrusted;
  message = text "price failed validation: " ++ reason;
}

unfoldable pub unavailable : Text → Text → Text → Failure
unavailable provider asset reason = record {
  kind = price_unavailable;
  message =
      text "["
      ++ (provider ++ (text "] price unavailable for " ++ (asset ++ (text ": " ++ reason))));
}

-- The text before the first dot, and the text between the first dot and the second.
unfoldable pub whole_part : Text → Text
whole_part [] = []
whole_part (c ∷ s) = let rest = whole_part s in if c == b'.' then [] else c ∷ rest

unfoldable pub after_dot : Text → Text
after_dot [] = []
after_dot (c ∷ s) = let rest = after_dot s in if c == b'.' then s else rest

unfoldable pub frac_part : Text → Text
unfolding whole_part after_dot
frac_part s = whole_part (after_dot s)

-- `frac.padEnd(n, '0').slice(0, n)`
unfoldable pub pad_end : ℕ → Text → Text
pad_end n s = take n (s ++ replicate n b'0')

-- `BigInt(text)` on decimal digits; the program only passes prices, which have no sign, blank or
-- hexadecimal prefix.
unfoldable pub big_int_from : ℕ → Text → Outcome ℕ
big_int_from acc [] = done acc
big_int_from acc (c ∷ s) =
    let rest = big_int_from (acc * 10 + (c - 48)) s in
    if leb b'0' c && leb c b'9'
    then rest
    else threw (record { kind = other; message = text "Cannot convert to a BigInt" })

unfoldable pub to_scaled : Text → Outcome ℕ
unfolding big_int_from frac_part pad_end
to_scaled value = big_int_from 0 (whole_part value ++ pad_end 18 (frac_part value))

pub record PriceServiceOptions : Type 0 where
  pub max_staleness_sec : ℕ
  pub max_divergence_bps : ℕ

unfoldable pub default_options : PriceServiceOptions
default_options = record { max_staleness_sec = 3600; max_divergence_bps = 200 }

-- `diff * 10000n / a`
unfoldable pub divergence : ℕ → ℕ → ℕ
divergence a b = (if ltb b a then a - b else b - a) * 10000 / a

diverge_error : ℕ → ℕ → Failure
unfolding untrusted
diverge_error d limit = untrusted (
    text "sources diverge by "
    ++ (number_text d ++ (text "bps (max " ++ (number_text limit ++ text ")"))))

-- The comparison of the two prices.
unfoldable pub compare_prices : ℕ → ℕ → ℕ → Outcome (Unit {0})
unfolding diverge_error divergence untrusted
compare_prices limit a b =
    if a == 0
    then threw (untrusted (text "primary price is zero"))
    else if ltb limit (divergence a b)
    then threw (diverge_error (divergence a b) limit)
    else done tt

-- `await this.crossCheck!.getPrice(asset)`, where a source that is merely down gives none.
abbrev pub ignore_down : ErrorKind → Failure → M (Option PriceQuote)
ignore_down price_unavailable e = pure none
ignore_down _ e = throw e

unfoldable pub secondary_quote : PriceProvider → Text → M (Option PriceQuote)
secondary_quote p asset = try (p.get_price asset >>= λ q. pure (some q)) λ e. ignore_down e.kind e

abbrev agree : ℕ → PriceQuote → Option PriceQuote → M (Unit {0})
agree limit primary none = pure tt
agree limit primary (some secondary) = do
  a ← lift (to_scaled primary.price)
  b ← lift (to_scaled secondary.price)
  lift (compare_prices limit a b)

unfoldable pub assert_agreement : ℕ → PriceProvider → Text → PriceQuote → M (Unit {0})
unfolding secondary_quote
assert_agreement limit p asset primary = secondary_quote p asset >>= agree limit primary

-- The age is compared in milliseconds: `ageSec > maxStalenessSec` with a fraction of a second kept.
unfoldable pub stale : ℕ → ℕ → ℕ → Bool
stale max_staleness_sec observed_at now = ltb (observed_at + max_staleness_sec * 1000) now

stale_error : ℕ → Failure
unfolding untrusted
stale_error age_ms =
    untrusted (text "primary price is " ++ (number_text ((age_ms + 500) / 1000) ++ text "s stale"))

abbrev cross_check : ℕ → Option PriceProvider → Text → PriceQuote → M (Unit {0})
cross_check limit none asset quote = pure tt
cross_check limit (some p) asset quote =
    if p.supports asset then assert_agreement limit p asset quote else pure tt

unfoldable pub get_validated_price :
    PriceProvider → Option PriceProvider → PriceServiceOptions → Text → M PriceQuote
unfolding assert_agreement stale stale_error
get_validated_price primary secondary options asset = do
  quote ← primary.get_price asset
  now ← current_time
  refuse_if (stale options.max_staleness_sec quote.observed_at now)
      (stale_error (now - quote.observed_at))
  cross_check options.max_divergence_bps secondary asset quote
  pure quote

-- The provider of static.provider.ts: the price that was set, now.
abbrev static_quote : Text → Text → ℕ → Outcome PriceQuote
static_quote [] asset now = threw (unavailable (text "static") asset (text "no price configured"))
static_quote (c ∷ price) asset now = done (record {
  asset = asset;
  price = c ∷ price;
  source = text "static";
  observed_at = now;
  round_id = none;
})

unfoldable pub static_provider : Text → PriceProvider
static_provider price = record {
  name = text "static";
  supports = λ asset. true;
  get_price = λ asset. current_time >>= λ now. lift (static_quote price asset now);
}
