-- ===== src/Effects/Ensures.antt =====
-- What the value of a method satisfies where the method returns, whatever the environment does: one
-- rule for each way to build a method.
use synthetic_order_executor.Base.{ℕ, Bool, true, false, ◌≡◌, refl}
use synthetic_order_executor.Effects.{
  Env, World, M, Outcome, done, threw, Failure, pure, throw, lift, ◌>>=◌, continue, refuse_if, ask,
  environment,
}

abbrev pub IfDone {ℓ} : {A : Type ℓ} → (A → Type 0) → Outcome A → Type 0
IfDone Q (done a) = Q a
IfDone Q (threw e) = Unit

pub record Ensures {ℓ} {A : Type ℓ} (Q : A → Type 0) (env : Env) (m : M A) : Type 0 where
  pub at : (w : World) → IfDone Q (m env w).0

module _ {env : Env} where
  module _ {ℓ} {A : Type ℓ} where
    pub Ensures-pure : (Q : A → Type 0) (a : A) → Q a → Ensures Q env (pure a)
    unfolding pure
    Ensures-pure Q a h = record { at = λ w. h }

  module _ {A : Type 0} where
    pub Ensures-lift : (r : Outcome A) → Ensures (λ a. r ≡ done a) env (lift r)
    unfolding lift
    Ensures-lift r = record { at = λ w. go r }
      where
        go : (s : Outcome A) → IfDone (λ a. s ≡ done a) s
        go (done a) = refl
        go (threw e) = tt

    pub Ensures-ask :
        (f : Env → ℕ → Outcome A) → Ensures (λ a. (tick : ℕ) × (f env tick ≡ done a)) env (ask f)
    unfolding ask
    Ensures-ask f = record { at = λ w. go w.tick (f env w.tick) refl }
      where
        go :
            (tick : ℕ) (s : Outcome A)
            → f env tick ≡ s
            → IfDone (λ a. (n : ℕ) × (f env n ≡ done a)) s
        go tick (done a) h = (tick, h)
        go tick (threw e) h = tt

  pub Ensures-refuse_if : (b : Bool) (e : Failure) → Ensures (λ u. b ≡ false) env (refuse_if b e)
  unfolding pure throw
  Ensures-refuse_if true e = record { at = λ w. tt }
  Ensures-refuse_if false e = record { at = λ w. refl }

  pub Ensures-environment : Ensures (λ e. e ≡ env) env environment
  unfolding environment
  Ensures-environment = record { at = λ w. refl }

  module _ {ℓ κ} {A : Type ℓ} {B : Type κ} where
    -- From what the first method ensures.
    pub Ensures-bind :
        (P : A → Type 0) (Q : B → Type 0) (m : M A) (f : A → M B)
        → Ensures P env m
        → ((a : A) → P a → Ensures Q env (f a))
        → Ensures Q env (m >>= f)
    unfolding ◌>>=◌
    Ensures-bind P Q m f km kf = record { at = λ w. go (m env w) (km.at w) }
      where
        go : (r : Outcome A × World) → IfDone P r.0 → IfDone Q (continue f env r).0
        go (done a, w) p = (kf a p).at w
        go (threw e, w) p = tt

    -- Whatever the first method gives.
    pub Ensures-then :
        (Q : B → Type 0) (m : M A) (f : A → M B)
        → ((a : A) → Ensures Q env (f a))
        → Ensures Q env (m >>= f)
    unfolding ◌>>=◌
    Ensures-then Q m f kf = record { at = λ w. go (m env w) }
      where
        go : (r : Outcome A × World) → IfDone Q (continue f env r).0
        go (done a, w) = (kf a).at w
        go (threw e, w) = tt

module _ {ℓ} {A : Type ℓ} {env : Env} where
  pub Ensures-weaken :
      (P Q : A → Type 0) (m : M A) → Ensures P env m → ((a : A) → P a → Q a) → Ensures Q env m
  Ensures-weaken P Q m km h = record { at = λ w. go (m env w).0 (km.at w) }
    where
      go : (r : Outcome A) → IfDone P r → IfDone Q r
      go (done a) p = h a p
      go (threw e) p = tt
