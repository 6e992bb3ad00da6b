-- ===== src/Price/Sources.antt =====
-- What can be relied on in the providers and the factory of packages/chain/src/price.
use synthetic_order_executor.Base.{
  ℕ, false, inl, inr, Bool-cases, Option, none, some, Text, text, [], ◌∷◌, or_else, same_text, ◌≡◌,
  refl,
}
use synthetic_order_executor.Order.{Address}
use synthetic_order_executor.Chain.{PriceQuote}
use synthetic_order_executor.Effects.{
  Env, World, Outcome, done, threw, ◌>>=◌, lift, try, throw, recover, continue, current_time, pure,
}
use synthetic_order_executor.Price.{
  PriceProvider, unavailable, static_provider, secondary_quote, ignore_down,
}
use synthetic_order_executor.Price.Feeds.{
  PriceSources, eth_usd, coingecko_provider, read_spot, chainlink_provider,
}
use synthetic_order_executor.Price.Factory.{
  ProviderKind, PriceProviderConfig, build_price_provider, build_price_service, PriceService,
  chainlink_from, no_rpc_error, service_of, then_some, build_cross_check, same_kind,
}
use synthetic_order_executor.Price.Rounds.{Down, Reported, guarded-elim, chainlink-Reported}

-- A provider that only fails as unavailable.
abbrev pub OnlyDown : PriceProvider → Type 0
OnlyDown p = (asset : Text) (env : Env) (w : World) → Down (p.get_price asset env w).0

Reported-Down :
    (sources : PriceSources) (feed : Address) (limit : ℕ) (env : Env) (w : World)
    (r : Outcome PriceQuote)
    → Reported sources feed limit env w r
    → Down r
Reported-Down sources feed limit env w (done q) h = tt
Reported-Down sources feed limit env w (threw e) h = h

chainlink-OnlyDown :
    (sources : PriceSources) (feed : Address) (limit : ℕ)
    → OnlyDown (chainlink_provider sources feed limit)
chainlink-OnlyDown sources feed limit asset env w =
    Reported-Down sources feed limit env w _ (chainlink-Reported sources feed limit asset env w)

coingecko-OnlyDown :
    (sources : PriceSources) (base_url : Text) → OnlyDown (coingecko_provider sources base_url)
unfolding coingecko_provider throw unavailable
coingecko-OnlyDown sources base_url asset env w = elim (Bool-cases (same_text eth_usd asset)) [
  | inl same ↦ rw same (
      guarded-elim Down (text "coingecko") asset (read_spot sources base_url asset) env w
        (λ q w' h. tt) (λ e h. h))
  | inr differs ↦ rw differs refl
]

static-OnlyDown : (price : Text) → OnlyDown (static_provider price)
unfolding static_provider ◌>>=◌ current_time lift unavailable
static-OnlyDown [] asset env w = refl
static-OnlyDown (c ∷ price) asset env w = tt

abbrev BuiltDown : Outcome PriceProvider → Type 0
BuiltDown (done p) = OnlyDown p
BuiltDown (threw e) = Unit

build_price_provider-OnlyDown :
    (sources : PriceSources) (kind : ProviderKind) (config : PriceProviderConfig)
    → BuiltDown (build_price_provider sources kind config)
unfolding build_price_provider
build_price_provider-OnlyDown sources ProviderKind.chainlink config =
    with_url (or_else config.rpc_url [])
  where
    with_url : (url : Text) → BuiltDown (chainlink_from sources config url)
    with_url [] = tt
    with_url (c ∷ url) = chainlink-OnlyDown sources _ _
build_price_provider-OnlyDown sources ProviderKind.coingecko config = coingecko-OnlyDown sources _
build_price_provider-OnlyDown sources ProviderKind.static config =
    static-OnlyDown (or_else config.static_price (text "3500"))

-- Asking a secondary source that can only be down never throws.
secondary_quote-done :
    (p : PriceProvider) (asset : Text) (env : Env) (w : World)
    → OnlyDown p
    → (s : Option PriceQuote) × (w' : World) × (secondary_quote p asset env w ≡ (done s, w'))
unfolding secondary_quote ◌>>=◌ try pure
secondary_quote-done p asset env w down = go (p.get_price asset env w) (down asset env w)
  where
    go :
        (r : Outcome PriceQuote × World)
        → Down r.0
        → (s : Option PriceQuote) × (w' : World) × (recover
              (λ e. ignore_down e.kind e)
              env
              (continue (λ q. pure (some q)) env r)
            ≡ (done s, w'))
    go (done q, w') h = (some q, w', refl)
    go (threw e, w') h = (none, w', rw h refl)

-- A second source is not the first one, and asking it never throws.
abbrev AskedSafely : Option PriceProvider → Text → Type 0
AskedSafely none primary = Unit
AskedSafely (some p) primary =
    (same_text p.name primary ≡ false)
    × ((asset : Text) (env : Env) (w : World)
        → (s : Option PriceQuote) × (w' : World) × (secondary_quote p asset env w ≡ (done s, w')))

abbrev pub Independent : PriceProviderConfig → Outcome PriceService → Type 0
Independent config (done s) = AskedSafely s.cross_check s.primary.name
Independent config (threw e) = (e ≡ no_rpc_error) × (or_else config.rpc_url [] ≡ [])

abbrev kind_name : ProviderKind → Text
kind_name ProviderKind.chainlink = text "chainlink"
kind_name ProviderKind.coingecko = text "coingecko"
kind_name ProviderKind.static = text "static"

abbrev Named : PriceProviderConfig → ProviderKind → Outcome PriceProvider → Type 0
Named config kind (done p) = p.name ≡ kind_name kind
Named config kind (threw e) = (e ≡ no_rpc_error) × (or_else config.rpc_url [] ≡ [])

build_price_provider-Named :
    (sources : PriceSources) (kind : ProviderKind) (config : PriceProviderConfig)
    → Named config kind (build_price_provider sources kind config)
unfolding build_price_provider chainlink_provider coingecko_provider static_provider
build_price_provider-Named sources ProviderKind.chainlink config =
    with_url (or_else config.rpc_url []) refl
  where
    with_url :
        (url : Text)
        → or_else config.rpc_url [] ≡ url
        → Named config ProviderKind.chainlink (chainlink_from sources config url)
    with_url [] h = (refl, h)
    with_url (c ∷ url) h = refl
build_price_provider-Named sources ProviderKind.coingecko config = refl
build_price_provider-Named sources ProviderKind.static config = refl

names_differ :
    (a b : ProviderKind) → same_kind a b ≡ false → same_text (kind_name a) (kind_name b) ≡ false
unfolding same_kind same_text
names_differ ProviderKind.chainlink ProviderKind.chainlink h = h
names_differ ProviderKind.chainlink ProviderKind.coingecko h = refl
names_differ ProviderKind.chainlink ProviderKind.static h = refl
names_differ ProviderKind.coingecko ProviderKind.chainlink h = refl
names_differ ProviderKind.coingecko ProviderKind.coingecko h = h
names_differ ProviderKind.coingecko ProviderKind.static h = refl
names_differ ProviderKind.static ProviderKind.chainlink h = refl
names_differ ProviderKind.static ProviderKind.coingecko h = refl
names_differ ProviderKind.static ProviderKind.static h = h

-- The factory fails only for want of the URL that the Chainlink provider needs. In a service that it
-- makes, a second source is of another kind than the first, and asking it never throws: the source is
-- either down, and skipped, or gives a quote.
pub build_price_service-Independent :
    (sources : PriceSources) (config : PriceProviderConfig)
    → Independent config (build_price_service sources config)
unfolding build_price_service
build_price_service-Independent sources config = crossed config.cross_check
  where
    named : Named config config.provider (build_price_provider sources config.provider config)
    named = build_price_provider-Named sources config.provider config

    alone :
        (r : Outcome PriceProvider)
        → Named config config.provider r
        → Independent config (service_of config r (done none))
    alone (done p) h = tt
    alone (threw e) h = h

    both :
        (kind : ProviderKind)
        → same_kind kind config.provider ≡ false
        → (r s : Outcome PriceProvider) → Named config config.provider r
        → Named config kind s
        → BuiltDown s
        → Independent config (service_of config r (then_some s))
    both kind differs (threw e) s h k down = h
    both kind differs (done p) (threw e) h k down = k
    both kind differs (done p) (done c) h k down = (
      rw (h, k) (names_differ kind config.provider differs),
      λ asset env w. secondary_quote-done c asset env w down,
    )

    crossed :
        (cross : Option ProviderKind)
        → Independent config (
            service_of config
              (build_price_provider sources config.provider config)
              (build_cross_check sources config cross))
    crossed none = alone _ named
    crossed (some kind) = elim (Bool-cases (same_kind kind config.provider)) [
      | inl same ↦ rw same (alone _ named)
      | inr differs ↦ rw differs (
          both kind differs _ _ named (build_price_provider-Named sources kind config)
            (build_price_provider-OnlyDown sources kind config))
    ]
