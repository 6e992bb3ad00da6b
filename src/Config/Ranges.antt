-- ===== src/Config/Ranges.antt =====
-- What is known of a configuration that packages/chain/src/config.ts and
-- apps/worker/src/config/env.ts accept.
use synthetic_order_executor.Base.{
  ℕ, ◌≤◌, Bool, true, false, ◌&&◌, Bool-cases, Option, none, some, Text, text, leb, leb→le, ◌==◌,
  ==_iff, if◌then◌else◌, inl, inr, ◌≡◌, refl, sym, arith,
}
use synthetic_order_executor.Effects.{Failure, done, threw}
use synthetic_order_executor.Effects.Ensures.{IfDone}
use synthetic_order_executor.Http.Schemas.{◌>>=◌}
use synthetic_order_executor.Config.{
  Parsing, Variables, ChainConfig, with_default, required, between, exactly, number_at,
  parse_chain_config, load_chain_config,
}
use synthetic_order_executor.Config.Worker.{
  WorkerEnv, parse_worker_env, load_env, permitted, is_production, is_static,
}

-- What a parsed value satisfies, if there is one: one rule for each way to parse.
abbrev pub IfSome : {A : Type 0} → (A → Type 0) → Option A → Type 0
IfSome Q none = Unit
IfSome Q (some a) = Q a

pub record Parses {A : Type 0} (Q : A → Type 0) (o : Option A) : Type 0 where
  pub at : IfSome Q o

module _ {A B : Type 0} where
  pub Parses-bind :
      (P : A → Type 0) (Q : B → Type 0) (o : Option A) (f : A → Option B)
      → Parses P o
      → ((a : A) → P a → Parses Q (f a))
      → Parses Q (o >>= f)
  unfolding ◌>>=◌
  Parses-bind P Q none f h k = record { at = tt }
  Parses-bind P Q (some a) f h k = k a h.at

  pub Parses-then :
      (Q : B → Type 0) (o : Option A) (f : A → Option B)
      → ((a : A) → Parses Q (f a))
      → Parses Q (o >>= f)
  unfolding ◌>>=◌
  Parses-then Q none f k = record { at = tt }
  Parses-then Q (some a) f k = k a

pub Parses-some : {A : Type 0} (Q : A → Type 0) (a : A) → Q a → Parses Q (some a)
Parses-some Q a h = record { at = h }

abbrev pub Within : ℕ → ℕ → ℕ → Type 0
Within low high n = (low ≤ n) × (n ≤ high)

between-Within :
    (low high : ℕ) (o : Option ℕ) → IfSome (Within low high) (between low (some high) o)
between-Within low high none = tt
between-Within low high (some n) = elim (Bool-cases (leb low n)) [
  | inl above ↦ elim (Bool-cases (leb n high)) [
    | inl below ↦ rw (above, below) (leb→le _ _ above, leb→le _ _ below)
    | inr over ↦ rw (above, over) tt
  ]
  | inr under ↦ rw under tt
]

module _ (zod : Parsing) (vars : Variables) where
  number_at-Within :
      (name : Text) (low d high : ℕ)
      → Within low high d
      → Parses (Within low high) (number_at zod vars name low d (some high))
  number_at-Within name low d high h = record { at = go (vars name) }
    where
      go :
          (v : Option Text)
          → IfSome
              (Within low high)
              (with_default d (λ t. between low (some high) (zod.coerce t)) v)
      go none = h
      go (some t) = between-Within low high (zod.coerce t)

  exactly-eq : (n : ℕ) (v : Option Text) → Parses (λ m. m ≡ n) (required (exactly zod vars n) v)
  exactly-eq n v = record { at = go v }
    where
      read :
          (o : Option ℕ)
          → IfSome (λ m. m ≡ n) (elim o [ none ↦ none | some m ↦ if m == n then some m else none ])
      read none = tt
      read (some m) = elim (Bool-cases (m == n)) [
        | inl same ↦ rw same ((==_iff m n).0 same)
        | inr differs ↦ rw differs tt
      ]

      go : (o : Option Text) → IfSome (λ m. m ≡ n) (required (exactly zod vars n) o)
      go none = tt
      go (some t) = read (zod.coerce t)

  -- Sepolia, a slippage of 1 to 5000 basis points, a deadline of 1 to 300 seconds.
  abbrev pub InRange : ChainConfig → Type 0
  InRange c =
      (c.chain_id ≡ 11155111) × Within 1 5000 c.slippage_bps × Within 1 300 c.deadline_window_sec

  parse_chain_config-InRange : Parses InRange (parse_chain_config zod vars)
  unfolding parse_chain_config
  parse_chain_config-InRange = Parses-bind _ _ _ _ (exactly-eq 11155111 _) λ id sepolia.
      Parses-then _ _ _ λ rpc_url. Parses-then _ _ _ λ second_url. Parses-then _ _ _ λ contract.
        Parses-then _ _ _ λ key. Parses-then _ _ _ λ router. Parses-then _ _ _ λ quoter.
          Parses-then _ _ _ λ factory. Parses-then _ _ _ λ tiers. Parses-then _ _ _ λ weth.
            Parses-then _ _ _ λ usdc.
              Parses-bind _ _ _ _
                (number_at-Within (text "EXECUTION_SLIPPAGE_BPS") 1 100 5000
                  (omega arith, omega arith))
                λ slippage s.
                  Parses-bind _ _ _ _
                    (number_at-Within (text "DEADLINE_WINDOW_SEC") 1 120 300
                      (omega arith, omega arith))
                    λ deadline d. Parses-then _ _ _ λ max_fee. Parses-some InRange _ (sepolia, s, d)

  pub load_chain_config-InRange : IfDone InRange (load_chain_config zod vars)
  unfolding load_chain_config
  load_chain_config-InRange = go _ (parse_chain_config zod vars) parse_chain_config-InRange.at
    where
      go :
          (e : Failure) (o : Option ChainConfig)
          → IfSome InRange o
          → IfDone InRange (elim o [ none ↦ threw e | some c ↦ done c ])
      go e none h = tt
      go e (some c) h = h

  -- No trading on a price that was typed in.
  abbrev pub Permitted : WorkerEnv → Type 0
  Permitted env =
      (is_production zod vars env.node_env && is_static zod vars env.price_provider) ≡ false

  pub load_env-Permitted : IfDone Permitted (load_env zod vars)
  unfolding load_env
  load_env-Permitted = go _ (parse_worker_env zod vars)
    where
      checked :
          (e : WorkerEnv) (b c : Bool) (f g : Failure)
          → b ≡ (is_production zod vars e.node_env && is_static zod vars e.price_provider)
          → IfDone Permitted (if b then threw f else if c then threw g else done e)
      checked e true c f g h = tt
      checked e false true f g h = tt
      checked e false false f g h = sym h

      go :
          (f : Failure) (o : Option WorkerEnv)
          → IfDone Permitted (elim o [ none ↦ threw f | some e ↦ permitted zod vars e ])
      go f none = tt
      go f (some e) = checked e _ _ _ _ refl
