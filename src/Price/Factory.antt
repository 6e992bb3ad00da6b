-- ===== src/Price/Factory.antt =====
-- packages/chain/src/price/factory.ts: which providers a configuration asks for.
use synthetic_order_executor.Base.{
  ℕ, Bool, true, false, Option, none, some, [], ◌∷◌, Text, text, or_else, if◌then◌else◌,
}
use synthetic_order_executor.Order.{Address}
use synthetic_order_executor.Effects.{Failure, other, Outcome, done, threw}
use synthetic_order_executor.Price.{
  PriceProvider, PriceServiceOptions, static_provider, default_options,
}
use synthetic_order_executor.Price.Feeds.{PriceSources, chainlink_provider, coingecko_provider}

pub data ProviderKind : Type 0 where
  chainlink coingecko static : ProviderKind

pub record PriceProviderConfig : Type 0 where
  pub provider : ProviderKind
  pub cross_check : Option ProviderKind  -- none where it is absent or 'none'
  pub static_price : Option Text
  pub rpc_url : Option Text
  pub chainlink_feed : Option Address
  pub max_staleness_sec : Option ℕ
  pub max_divergence_bps : Option ℕ

unfoldable pub default_feed : Address
default_feed = 0x694AA1769357215DE4FAC081bf1f309aDC325306

unfoldable pub no_rpc_error : Failure
no_rpc_error = record {
  kind = other;
  message = text "chainlink price provider requires an RPC url";
}

abbrev pub chainlink_from : PriceSources → PriceProviderConfig → Text → Outcome PriceProvider
chainlink_from sources config [] = threw no_rpc_error
chainlink_from sources config (c ∷ url) = done (
    chainlink_provider sources (or_else config.chainlink_feed default_feed)
      (or_else config.max_staleness_sec 3600))

unfoldable pub build_price_provider :
    PriceSources → ProviderKind → PriceProviderConfig → Outcome PriceProvider
unfolding default_feed no_rpc_error
build_price_provider sources ProviderKind.chainlink config =
    chainlink_from sources config (or_else config.rpc_url [])
build_price_provider sources ProviderKind.coingecko config =
    done (coingecko_provider sources (text "https://api.coingecko.com/api/v3"))
build_price_provider sources ProviderKind.static config =
    done (static_provider (or_else config.static_price (text "3500")))

unfoldable pub same_kind : ProviderKind → ProviderKind → Bool
same_kind ProviderKind.chainlink ProviderKind.chainlink = true
same_kind ProviderKind.coingecko ProviderKind.coingecko = true
same_kind ProviderKind.static ProviderKind.static = true
same_kind _ _ = false

pub record PriceService : Type 0 where
  pub primary : PriceProvider
  pub cross_check : Option PriceProvider
  pub options : PriceServiceOptions

abbrev pub then_some : Outcome PriceProvider → Outcome (Option PriceProvider)
then_some (done p) = done (some p)
then_some (threw e) = threw e

abbrev pub build_cross_check :
    PriceSources → PriceProviderConfig → Option ProviderKind → Outcome (Option PriceProvider)
build_cross_check sources config none = done none
build_cross_check sources config (some kind) =
    if same_kind kind config.provider
    then done none
    else then_some (build_price_provider sources kind config)

abbrev pub service_of :
    PriceProviderConfig
    → Outcome PriceProvider
    → Outcome (Option PriceProvider)
    → Outcome PriceService
service_of config (threw e) _ = threw e
service_of config (done p) (threw e) = threw e
service_of config (done p) (done c) = done (record {
  primary = p;
  cross_check = c;
  options = record {
    max_staleness_sec = or_else config.max_staleness_sec default_options.max_staleness_sec;
    max_divergence_bps = or_else config.max_divergence_bps default_options.max_divergence_bps;
  };
})

unfoldable pub build_price_service : PriceSources → PriceProviderConfig → Outcome PriceService
unfolding same_kind default_options
build_price_service sources config =
    service_of config (build_price_provider sources config.provider config)
      (build_cross_check sources config config.cross_check)
