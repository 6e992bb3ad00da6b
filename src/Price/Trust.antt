-- ===== src/Price/Trust.antt =====
-- When packages/chain/src/price/price.service.ts hands on a price.
use synthetic_order_executor.Base.{
  false, ◌⊎◌, inl, inr, Bool-cases, ℕ, suc, ◌+◌, ◌-◌, ◌*◌, ◌/◌, ◌≤◌, ◌<◌, Option, none, some, ◌≡◌,
  ap, arith, ◌↔◌, Text, ltb, if◌then◌else◌,
}
use synthetic_order_executor.Chain.{PriceQuote}
use synthetic_order_executor.Effects.{Env, World, Outcome, done, ◌>>=◌, current_time, lift}
use synthetic_order_executor.Effects.Rules.{bind-eq-done}
use synthetic_order_executor.Price.{
  PriceProvider, PriceServiceOptions, get_validated_price, divergence, compare_prices, to_scaled,
  secondary_quote, cross_check, assert_agreement, agree,
}

-- The two prices differ by at most `limit` basis points of the first, up to one basis point.
abbrev pub Close : ℕ → ℕ → ℕ → Type 0
Close limit a b =
    (0 < a) × (a * 10000 < b * 10000 + (limit + 1) * a) × (b * 10000 < a * 10000 + (limit + 1) * a)

mul_mono : (a x y : ℕ) → x ≤ y → x * a ≤ y * a
mul_mono a x y h = grind arith

-- Division rounds down.
div_bounds : (n a : ℕ) → 0 < a → (n / a * a ≤ n) × (n < n / a * a + a)
div_bounds n a h = (grind arith, grind arith)

divergence_le : (limit a d : ℕ) → 0 < a → d * 10000 / a ≤ limit → d * 10000 < (limit + 1) * a
divergence_le limit a d h k =
    omega (arith, div_bounds (d * 10000) a h, mul_mono a (d * 10000 / a) limit k)

divergence_lt : (limit a d : ℕ) → 0 < a → limit < d * 10000 / a → (limit + 1) * a ≤ d * 10000
divergence_lt limit a d h k =
    omega (arith, div_bounds (d * 10000) a h, mul_mono a (suc limit) (d * 10000 / a) k)

lifted :
    {A : Type 0} {r : Outcome A} {a : A} (env : Env) (w w' : World)
    → lift r env w ≡ (done a, w')
    → r ≡ done a
unfolding lift
lifted {A} env w w' h = ap (λ (p : Outcome A × World). p.0) h

-- Two prices pass the comparison exactly if the first is not zero and they are that close.
pub compare_prices_iff : (limit a b : ℕ) → (compare_prices limit a b ≡ done tt) ↔ Close limit a b
unfolding compare_prices divergence
compare_prices_iff limit a b = (forth, back)
  where
    d : ℕ
    d = if ltb b a then a - b else b - a

    forth : compare_prices limit a b ≡ done tt → Close limit a b
    forth h = ground (arith, divergence_le limit a d)

    back : Close limit a b → compare_prices limit a b ≡ done tt
    back h = ground (arith, divergence_lt limit a d h.0)

abbrev pub Agrees : ℕ → PriceQuote → Option PriceQuote → Type 0
Agrees limit q none = Unit
Agrees limit q (some s) =
    (a : ℕ) × (b : ℕ) × (to_scaled q.price ≡ done a)
    × (to_scaled s.price ≡ done b)
    × Close limit a b

-- What the cross-check of a quote, run at a world, has established.
abbrev pub Checked : ℕ → Option PriceProvider → Text → PriceQuote → Env → World → Type 0
Checked limit none asset q env w = Unit
Checked limit (some p) asset q env w =
    (p.supports asset ≡ false)
    ⊎ ((s : Option PriceQuote) × (w₁ : World) × (secondary_quote p asset env w ≡ (done s, w₁))
        × Agrees limit q s)

agree-done :
    (limit : ℕ) (q : PriceQuote) (s : Option PriceQuote) (env : Env) (w w' : World)
    → agree limit q s env w ≡ (done tt, w')
    → Agrees limit q s
agree-done limit q none env w w' h = tt
agree-done limit q (some s) env w w' h =
    let (a, w₁, e, k) = bind-eq-done _ _ env w h in
    let (b, w₂, f, l) = bind-eq-done _ _ env w₁ k in
    (
      a,
      b,
      lifted env w w₁ e,
      lifted env w₁ w₂ f,
      (compare_prices_iff limit a b).0 (lifted env w₂ w' l),
    )

check-done :
    (limit : ℕ) (secondary : Option PriceProvider) (asset : Text) (q : PriceQuote) (env : Env)
    (w w' : World)
    → cross_check limit secondary asset q env w ≡ (done tt, w')
    → Checked limit secondary asset q env w
unfolding assert_agreement
check-done limit none asset q env w w' h = tt
check-done limit (some p) asset q env w w' h = elim (Bool-cases (p.supports asset)) [
  | inl yes_supports ↦ inr (asserted (rw yes_supports at h))
  | inr no_support ↦ inl no_support
]
  where
    asserted :
        assert_agreement limit p asset q env w ≡ (done tt, w')
        → (s : Option PriceQuote) × (w₁ : World) × (secondary_quote p asset env w ≡ (done s, w₁))
          × Agrees limit q s
    asserted k =
        let (s, w₁, e, l) = bind-eq-done _ _ env w k in (s, w₁, e, agree-done limit q s env w₁ w' l)

-- A price that the service hands on is the primary's, is no older than the limit, and where a second
-- source that supports the asset is configured, that source was asked and either was down or gave a
-- price within the allowed divergence.
pub trusted_price :
    (primary : PriceProvider) (secondary : Option PriceProvider) (options : PriceServiceOptions)
    (asset : Text) (env : Env) (w w' : World) (q : PriceQuote)
    → get_validated_price primary secondary options asset env w ≡ (done q, w')
    → (w₁ : World) × (primary.get_price asset env w ≡ (done q, w₁))
      × (env.now w₁.tick ≤ q.observed_at + options.max_staleness_sec * 1000)
      × Checked options.max_divergence_bps secondary asset q env w₁
unfolding get_validated_price ◌>>=◌ current_time
trusted_price primary secondary options asset env w w' q h =
    let w₁ = (primary.get_price asset env w).1 in
    (
      w₁,
      ground arith,
      ground arith,
      check-done options.max_divergence_bps secondary asset q env w₁ w' (ground arith),
    )
