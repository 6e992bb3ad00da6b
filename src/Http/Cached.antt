-- ===== src/Http/Cached.antt =====
-- What apps/backend/src/api/routes/price.routes.ts answers, from its cache and from the feed.
use synthetic_order_executor.Base.{
  true, false, Bool-cases, Option, none, some, Text, to_upper, ◌⊎◌, inl, inr, ◌≡◌, refl,
}
use synthetic_order_executor.Chain.{PriceQuote}
use synthetic_order_executor.Effects.{
  Env, World, M, Failure, Outcome, done, threw, ◌>>=◌, continue, try, recover, lift, pure,
  current_time,
}
use synthetic_order_executor.Price.{get_validated_price}
use synthetic_order_executor.Price.Factory.{PriceService}
use synthetic_order_executor.Http.{Response}
use synthetic_order_executor.Http.Routes.{
  CachedPrice, is_live, ok_price, no_price, view_of, fresh_price, price_handler,
}

abbrev pub validated : PriceService → Text → M PriceQuote
validated s pair = get_validated_price s.primary s.cross_check s.options pair

-- A response from the feed: a validated price of the pair, which is kept; or, where there is no
-- service or it has refused the pair, a 503 with just that error's message, after which the cache is
-- the old one.
abbrev pub FromFeed :
    Outcome PriceService
    → Option CachedPrice
    → Text
    → Env
    → World
    → Outcome (Response × Option CachedPrice) × World
    → Type 0
FromFeed service cache pair env w (threw e, w') = ⊥
FromFeed service cache pair env w (done (r, kept), w') =
    ((s : PriceService) × (quote : PriceQuote) × (service ≡ done s)
      × (validated s pair env w ≡ (done quote, w'))
      × (let view = view_of quote (env.now w'.tick) in
          (r ≡ ok_price view) × (kept ≡ some (record { value = view; at = env.now w'.tick }))))
    ⊎ ((e : Failure) × (r ≡ no_price e.message)
        × (kept ≡ cache)
        × ((service ≡ threw e)
            ⊎ ((s : PriceService) × (service ≡ done s) × (validated s pair env w ≡ (threw e, w')))))

from_feed :
    (service : Outcome PriceService) (cache : Option CachedPrice) (pair : Text) (env : Env)
    (w : World)
    → FromFeed service cache pair env w
        (recover (λ e. pure (no_price e.message, cache)) env (fresh_price service pair env w))
unfolding fresh_price ◌>>=◌ lift pure current_time
from_feed (threw e) cache pair env w = inr (e, refl, refl, inl refl)
from_feed (done s) cache pair env w = go (validated s pair env w) refl
  where
    go :
        (r : Outcome PriceQuote × World)
        → validated s pair env w ≡ r
        → FromFeed (done s) cache pair env w (
            recover
              (λ e. pure (no_price e.message, cache))
              env
              (continue
                (λ quote. current_time >>= λ now. current_time >>= λ later. pure (
                  ok_price (view_of quote now),
                  some (record { value = view_of quote now; at = later }),
                ))
                env
                r))
    go (done quote, w') h = inl (s, quote, refl, h, (refl, refl))
    go (threw e, w') h = inr (e, refl, refl, inr (s, refl, h))

-- While the kept price is younger than five seconds, it is the answer to a request for any pair
-- whatever, also for another pair than the one that it is the price of. After that the answer is
-- from the feed: the price of the pair where the price service gives one, which is kept, and a 503
-- with the message of the error exactly where it gives none.
pub price_handler-answers :
    (service : Outcome PriceService) (decode : Text → Outcome Text) (cache : Option CachedPrice)
    (param pair : Text) (env : Env) (w : World)
    → decode param ≡ done pair
    → ((c : CachedPrice) × (cache ≡ some c)
        × (is_live cache (env.now w.tick) ≡ true)
        × (price_handler service decode cache param env w ≡ (done (ok_price c.value, cache), w)))
      ⊎ ((is_live cache (env.now w.tick) ≡ false)
          × FromFeed service cache
              (to_upper pair)
              env
              w
              (price_handler service decode cache param env w))
unfolding price_handler try ◌>>=◌ lift current_time pure is_live
price_handler-answers service decode none param pair env w h =
    inr (refl, rw h (from_feed service none (to_upper pair) env w))
price_handler-answers service decode (some c) param pair env w h =
    elim (Bool-cases (is_live (some c) (env.now w.tick))) [
      | inl live ↦ inl (c, refl, live, rw (h, live) refl)
      | inr old ↦ inr (old, rw (h, old) (from_feed service (some c) (to_upper pair) env w))
    ]
