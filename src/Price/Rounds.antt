-- ===== src/Price/Rounds.antt =====
-- What a quote of packages/chain/src/price/chainlink.provider.ts says of the feed.
use mathlib.Core.Path.{subst}
use synthetic_order_executor.Base.{
  ℕ, zero, suc, ◌+◌, ◌*◌, ◌/◌, ◌≤◌, ◌<◌, inl, inr, Bool-cases, some, Text, text, same_text, ◌≡◌,
  refl, ap, arith,
}
use synthetic_order_executor.Order.{Address}
use synthetic_order_executor.Chain.{PriceQuote}
use synthetic_order_executor.Effects.{
  Env, World, M, Failure, ErrorKind, price_unavailable, Outcome, done, threw, lift, try, ask, throw,
  recover, current_time, pure,
}
use synthetic_order_executor.Effects.Rules.{bind-elim}
use synthetic_order_executor.Price.{unavailable}
use synthetic_order_executor.Price.Feeds.{
  ℤ, RoundData, PriceSources, eth_usd, accept_round, accept_answer, as_unavailable, refused,
  guarded, read_round, chainlink_provider,
}

-- The failure, if there is one, is of the providers' own class.
abbrev pub Down {ℓ} : {A : Type ℓ} → Outcome A → Type 0
Down (done a) = Unit
Down (threw e) = e.kind ≡ price_unavailable

-- What a quote of the feed says of the round that was read at the first tick of a world.
abbrev pub Quoted : PriceSources → Address → ℕ → Env → World → PriceQuote → Type 0
Quoted sources feed limit env w q =
    (round : RoundData) × (answer : ℕ) × (decimals : ℕ) × (sources.latest_round_data feed w.tick
      ≡ done round)
    × (round.answer ≡ ℤ.pos answer)
    × (0 < answer)
    × (round.round_id ≤ round.answered_in_round)
    × (env.now (suc w.tick) / 1000 ≤ round.updated_at + limit)
    × (q ≡ record {
      asset = eth_usd;
      price = sources.format_units answer decimals;
      source = text "chainlink";
      observed_at = round.updated_at * 1000;
      round_id = some round.round_id;
    })

abbrev pub Reported : PriceSources → Address → ℕ → Env → World → Outcome PriceQuote → Type 0
Reported sources feed limit env w (done q) = Quoted sources feed limit env w q
Reported sources feed limit env w (threw e) = e.kind ≡ price_unavailable

done-injective : {A : Type 0} {a b : A} → done a ≡ done b → a ≡ b
done-injective h = cc

abbrev Accepted : ℕ → ℕ → RoundData → Outcome ℕ → Type 0
Accepted limit now round (threw e) = e.kind ≡ price_unavailable
Accepted limit now round (done n) =
    (round.answer ≡ ℤ.pos n)
    × (0 < n)
    × (round.round_id ≤ round.answered_in_round)
    × (now / 1000 ≤ round.updated_at + limit)

accept_round-Accepted :
    (limit now : ℕ) (round : RoundData) → Accepted limit now round (accept_round limit now round)
unfolding accept_round refused unavailable
accept_round-Accepted limit now round = go round.answer refl
  where
    go : (z : ℤ) → round.answer ≡ z → Accepted limit now round (accept_answer limit now round z)
    go (ℤ.pos (suc n)) h = ground arith
    go (ℤ.pos zero) h = refl
    go (ℤ.negsuc n) h = refl

-- What holds of a call inside `guarded`, from what holds where it returns.
pub guarded-elim :
    (K : Outcome PriceQuote → Type 0) (name asset : Text) (m : M PriceQuote) (env : Env) (w : World)
    → ((q : PriceQuote) (w' : World) → m env w ≡ (done q, w') → K (done q))
    → ((e : Failure) → e.kind ≡ price_unavailable → K (threw e))
    → K (guarded name asset m env w).0
unfolding try throw unavailable
guarded-elim K name asset m env w returned failed = go (m env w) refl
  where
    handled :
        (k : ErrorKind) (e : Failure) (w' : World)
        → e.kind ≡ k
        → K (as_unavailable name asset k e env w').0
    handled price_unavailable e w' h = failed e h
    handled ErrorKind.price_untrusted e w' h = failed _ refl
    handled ErrorKind.execution_rejected e w' h = failed _ refl
    handled ErrorKind.no_liquidity e w' h = failed _ refl
    handled ErrorKind.quote_stale e w' h = failed _ refl
    handled ErrorKind.no_signer e w' h = failed _ refl
    handled ErrorKind.validation e w' h = failed _ refl
    handled ErrorKind.order_not_found e w' h = failed _ refl
    handled ErrorKind.invalid_transition e w' h = failed _ refl
    handled ErrorKind.token_not_supported e w' h = failed _ refl
    handled ErrorKind.trade_too_large e w' h = failed _ refl
    handled ErrorKind.contract_paused e w' h = failed _ refl
    handled ErrorKind.duplicate e w' h = failed _ refl
    handled ErrorKind.transaction_not_found e w' h = failed _ refl
    handled ErrorKind.receipt_not_found e w' h = failed _ refl
    handled ErrorKind.other e w' h = failed _ refl

    go :
        (r : Outcome PriceQuote × World)
        → m env w ≡ r
        → K (recover (λ e. as_unavailable name asset e.kind e) env r).0
    go (done q, w') h = returned q w' h
    go (threw e, w') h = handled e.kind e w' refl

abbrev QuotedIfDone : PriceSources → Address → ℕ → Env → World → Outcome PriceQuote → Type 0
QuotedIfDone sources feed limit env w (done q) = Quoted sources feed limit env w q
QuotedIfDone sources feed limit env w (threw e) = Unit

module _ (sources : PriceSources) (feed : Address) (limit : ℕ) (env : Env) (w : World) where
  abbrev Ends : Outcome PriceQuote × World → Type 0
  Ends p = QuotedIfDone sources feed limit env w p.0

  ask-Quoted :
      (round : RoundData) (now answer decimals : ℕ) (w₁ w₂ w₃ : World)
      → ask (λ env tick. sources.latest_round_data feed tick) env w ≡ (done round, w₁)
      → current_time env w₁ ≡ (done now, w₂)
      → lift (accept_round limit now round) env w₂ ≡ (done answer, w₃)
      → Quoted sources feed limit env w (record {
        asset = eth_usd;
        price = sources.format_units answer decimals;
        source = text "chainlink";
        observed_at = round.updated_at * 1000;
        round_id = some round.round_id;
      })
  unfolding ask current_time lift
  ask-Quoted round now answer decimals w₁ w₂ w₃ e₁ e₂ e₃ =
      let (at_answer, positive, complete, fresh) = accepted in
      (
        round,
        answer,
        decimals,
        ap (λ (p : Outcome RoundData × World). p.0) e₁,
        at_answer,
        positive,
        complete,
        rw read_at fresh,
        refl,
      )
    where
      read_at : env.now (suc w.tick) ≡ now
      read_at = done-injective (
          rw (ap (λ (p : Outcome RoundData × World). p.1.tick) e₁)
            (ap (λ (p : Outcome ℕ × World). p.0) e₂))

      accepted : Accepted limit now round (done answer)
      accepted =
          subst (λ r. Accepted limit now round r) (ap (λ (p : Outcome ℕ × World). p.0) e₃)
            (accept_round-Accepted limit now round)

  read_round-Ends : Ends (read_round sources feed limit env w)
  unfolding read_round ask current_time lift pure
  read_round-Ends =
      bind-elim Ends _ _ env w
        (λ round w₁ e₁.
          bind-elim Ends _ _ env w₁
            (λ now w₂ e₂.
              bind-elim Ends _ _ env w₂
                (λ answer w₃ e₃.
                  bind-elim Ends _ _ env w₃
                    (λ decimals w₄ e₄. ask-Quoted round now answer decimals w₁ w₂ w₃ e₁ e₂ e₃)
                    (λ e w₄ h. tt))
                (λ e w₃ h. tt))
            (λ e w₂ h. tt))
        (λ e w₁ h. tt)

-- The Chainlink provider fails in no other way than as unavailable. A quote that it gives is of the
-- round that the feed last reported: its answer is positive and complete, is at most the limit old,
-- and the quote has its price in decimals, its time and its number.
pub chainlink-Reported :
    (sources : PriceSources) (feed : Address) (limit : ℕ) (asset : Text) (env : Env) (w : World)
    → Reported sources feed limit env w
        ((chainlink_provider sources feed limit).get_price asset env w).0
unfolding chainlink_provider throw unavailable
chainlink-Reported sources feed limit asset env w = elim (Bool-cases (same_text eth_usd asset)) [
  | inl same ↦ rw same (
      guarded-elim (Reported sources feed limit env w) (text "chainlink") asset
        (read_round sources feed limit) env w
        (λ q w' h.
          subst (Ends sources feed limit env w) h (read_round-Ends sources feed limit env w))
        (λ e h. h))
  | inr differs ↦ rw differs refl
]
