-- ===== src/Chain/Uniswap/Quotes.antt =====
-- The quote that packages/chain/src/dex/uniswapAdapter.ts takes, and the arguments that it derives.
use mathlib.Core.Path.{subst}
use synthetic_order_executor.Base.{
  ℕ, ◌+◌, ◌-◌, ◌*◌, ◌≤◌, ◌<◌, Bool, true, false, Option, none, some, List, [], ◌∷◌, ◌≡◌, refl, ap,
  arith, ltb, ◌⊎◌, inl, inr, All, if◌then◌else◌,
}
use synthetic_order_executor.Chain.{DexQuote, BuildParamsInput, ExecutionParams, QuoteRequest}
use synthetic_order_executor.Chain.Uniswap.{
  usable, best_of, choose, no_liquidity_error, min_amount_out, params_at, UniswapConfig,
  max_quote_age_ms,
}
use synthetic_order_executor.Effects.{Outcome, done, threw, Failure, no_liquidity}

-- The quote is one of the answers of the tiers.
abbrev pub Among : DexQuote → List (Option DexQuote) → Type 0
Among q [] = ⊥
Among q (none ∷ qs) = Among q qs
Among q (some r ∷ qs) = (q ≡ r) ⊎ Among q qs

abbrev pub NoneAbove : ℕ → List (Option DexQuote) → Type 0
NoneAbove n [] = Unit
NoneAbove n (none ∷ qs) = NoneAbove n qs
NoneAbove n (some q ∷ qs) = (q.amount_out ≤ n) × NoneAbove n qs

abbrev In : DexQuote → List DexQuote → Type 0
In q [] = ⊥
In q (r ∷ qs) = (q ≡ r) ⊎ In q qs

either_of :
    {X : Type 0} (b : Bool) (r best q : DexQuote)
    → (r ≡ (if b then q else best)) ⊎ X
    → (r ≡ best) ⊎ ((r ≡ q) ⊎ X)
either_of true r best q (inl e) = inr (inl e)
either_of false r best q (inl e) = inl e
either_of b r best q (inr x) = inr (inr x)

best_of-In : (best : DexQuote) (qs : List DexQuote) → In (best_of best qs) (best ∷ qs)
unfolding best_of
best_of-In best [] = inl refl
best_of-In best (q ∷ qs) =
    either_of (ltb best.amount_out q.amount_out) _ best q
      (best_of-In (if ltb best.amount_out q.amount_out then q else best) qs)

le-best_of :
    (best : DexQuote) (qs : List DexQuote)
    → (best.amount_out ≤ (best_of best qs).amount_out)
      × All (λ q. q.amount_out ≤ (best_of best qs).amount_out) qs
unfolding best_of
le-best_of best [] = (omega arith, tt)
le-best_of best (q ∷ qs) =
    let ih = le-best_of (if ltb best.amount_out q.amount_out then q else best) qs in
    (ground (arith, ih.0), (ground (arith, ih.0), ih.1))

usable-Among :
    (q : DexQuote) (qs : List (Option DexQuote))
    → In q (usable qs)
    → Among q qs × (0 < q.amount_out)
unfolding usable
usable-Among q [] h = absurd h
usable-Among q (none ∷ qs) h = usable-Among q qs h
usable-Among q (some r ∷ qs) h = let b = ltb 0 r.amount_out in go b refl h (usable-Among q qs)
  where
    go :
        (b : Bool)
        → ltb 0 r.amount_out ≡ b
        → In q (if b then r ∷ usable qs else usable qs)
        → (In q (usable qs) → Among q qs × (0 < q.amount_out))
        → ((q ≡ r) ⊎ Among q qs) × (0 < q.amount_out)
    go true e (inl p) ih = (inl p, ground arith)
    go true e (inr p) ih = (inr (ih p).0, (ih p).1)
    go false e p ih = (inr (ih p).0, (ih p).1)

NoneAbove-usable :
    (n : ℕ) (qs : List (Option DexQuote)) → All (λ q. q.amount_out ≤ n) (usable qs) → NoneAbove n qs
unfolding usable
NoneAbove-usable n [] h = tt
NoneAbove-usable n (none ∷ qs) h = NoneAbove-usable n qs h
NoneAbove-usable n (some r ∷ qs) h = go (ltb 0 r.amount_out) refl h (NoneAbove-usable n qs)
  where
    go :
        (b : Bool)
        → ltb 0 r.amount_out ≡ b
        → All (λ q. q.amount_out ≤ n) (if b then r ∷ usable qs else usable qs)
        → (All (λ q. q.amount_out ≤ n) (usable qs) → NoneAbove n qs)
        → (r.amount_out ≤ n) × NoneAbove n qs
    go true e p ih = (p.0, ih p.1)
    go false e p ih = (ground arith, ih p)

choose-done :
    (request : QuoteRequest) (us : List DexQuote) (q : DexQuote)
    → choose request us ≡ done q
    → In q us × All (λ r. r.amount_out ≤ q.amount_out) us
unfolding choose
choose-done request [] q h = cc
choose-done request (u ∷ us) q h =
    let e : best_of u us ≡ q = cc in
    subst (λ (r : DexQuote). In r (u ∷ us) × All (λ x. x.amount_out ≤ r.amount_out) (u ∷ us)) e
      (best_of-In u us, le-best_of u us)

choose-threw :
    (request : QuoteRequest) (us : List DexQuote) (e : Failure)
    → choose request us ≡ threw e
    → All (λ r. r.amount_out ≤ 0) us × (e.kind ≡ no_liquidity)
unfolding choose no_liquidity_error
choose-threw request [] e h = (tt, cc)
choose-threw request (u ∷ us) e h = cc

-- What is chosen among the answers of the tiers.
abbrev pub Best : List (Option DexQuote) → Outcome DexQuote → Type 0
Best qs (done q) = Among q qs × (0 < q.amount_out) × NoneAbove q.amount_out qs
Best qs (threw e) = NoneAbove 0 qs × (e.kind ≡ no_liquidity)

-- A quote that is chosen is the answer of a tier, offers something, and no tier answered with more.
-- Where the choice fails, it is for lack of liquidity, and no tier offered anything.
pub choose-Best :
    (request : QuoteRequest) (qs : List (Option DexQuote)) → Best qs (choose request (usable qs))
choose-Best request qs = go (choose request (usable qs)) refl
  where
    go : (r : Outcome DexQuote) → choose request (usable qs) ≡ r → Best qs r
    go (done q) h =
        let (a, b) = choose-done request (usable qs) q h in
        let (c, d) = usable-Among q qs a in (c, d, NoneAbove-usable q.amount_out qs b)
    go (threw e) h =
        let (none_left, kind) = choose-threw request (usable qs) e h in
        (NoneAbove-usable 0 qs none_left, kind)

split_amount : (amount s : ℕ) → s ≤ 10000 → amount * (10000 - s) + s * amount ≡ amount * 10000
split_amount amount s h =
    let e : (10000 - s) + s ≡ 10000 = omega arith in omega (arith, ap (λ (t : ℕ). amount * t) e)

mul_mono : (amount s more : ℕ) → s ≤ more → s * amount ≤ more * amount
mul_mono amount s more h = grind arith

-- The floor never exceeds the quoted amount, at no slippage it is the quoted amount, more slippage
-- never raises it, and up to 100 % slippage it is within one unit of the exact fraction.
pub min_amount_out_bounds :
    (slippage more amount : ℕ)
    → slippage ≤ more
    → more ≤ 10000
    → (min_amount_out slippage amount ≤ amount)
      × (min_amount_out 0 amount ≡ amount)
      × (min_amount_out more amount ≤ min_amount_out slippage amount)
      × (min_amount_out slippage amount * 10000 + slippage * amount ≤ amount * 10000)
      × (amount * 10000 < min_amount_out slippage amount * 10000 + slippage * amount + 10000)
unfolding min_amount_out
min_amount_out_bounds slippage more amount h k =
    let e = split_amount amount slippage (omega arith) in
    let f = split_amount amount more k in
    let g = mul_mono amount slippage more h in
    (omega (arith, e), omega arith, omega (arith, e, f, g), omega (arith, e), omega (arith, e))

-- Arguments are built only from a quote that is at most 30 s old: the quote's tokens, tier and
-- input, the order's id and owner, the floor for the configured slippage, and a deadline within the
-- configured window of the current second.
pub params_at_faithful :
    (config : UniswapConfig) (input : BuildParamsInput) (now : ℕ) (p : ExecutionParams)
    → params_at config input now ≡ done p
    → (now ≤ input.quote.quoted_at + max_quote_age_ms)
      × (p.execution_id ≡ input.execution_id)
      × (p.owner ≡ input.owner)
      × (p.token_in ≡ input.quote.token_in)
      × (p.token_out ≡ input.quote.token_out)
      × (p.pool_fee ≡ input.quote.pool_fee)
      × (p.amount_in ≡ input.quote.amount_in)
      × (p.min_amount_out ≡ min_amount_out config.slippage_bps input.quote.amount_out)
      × (p.deadline * 1000 ≤ now + config.deadline_window_sec * 1000)
      × (now < p.deadline * 1000 + 1000)
unfolding params_at
params_at_faithful config input now p h = ground arith
