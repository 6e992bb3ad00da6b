-- ===== src/Effects/Rules.antt =====
-- Equations for the ways in which methods are put together.
use synthetic_order_executor.Base.{◌≡◌, refl, sym, ap}
use synthetic_order_executor.Effects.{
  Env, World, M, Outcome, done, threw, Failure, pure, ◌>>=◌, continue,
}

done≢threw {ℓ} : {A : Type ℓ} {a : A} {e : Failure} → done a ≡ threw e → ⊥
done≢threw h = cc

module _ {ℓ κ} {A : Type ℓ} {B : Type κ} where
  -- A call whose value is dropped, and then a value.
  pub then_pure-world :
      (m : M A) (b : B) (env : Env) (w : World) → ((m >>= λ _. pure b) env w).1 ≡ (m env w).1
  unfolding ◌>>=◌
  then_pure-world m b env w = go (m env w).0 (m env w).1
    where
      go : (r : Outcome A) (w' : World) → (continue (λ _. pure b) env (r, w')).1 ≡ w'
      go (done a) w' = refl
      go (threw e) w' = refl

  -- A call that returns.
  pub bind-done :
      (m : M A) (f : A → M B) (env : Env) (w w' : World) (a : A)
      → m env w ≡ (done a, w')
      → (m >>= f) env w ≡ f a env w'
  unfolding ◌>>=◌
  bind-done m f env w w' a h = rw h refl

  -- A call that throws.
  pub bind-threw :
      (m : M A) (f : A → M B) (env : Env) (w w' : World) (e : Failure)
      → m env w ≡ (threw e, w')
      → (m >>= f) env w ≡ (threw e, w')
  unfolding ◌>>=◌
  bind-threw m f env w w' e h = rw h refl

  -- Inversion of a call that returned.
  pub bind-eq-done :
      (m : M A) (f : A → M B) (env : Env) (w : World) {b : B} {w' : World}
      → (m >>= f) env w ≡ (done b, w')
      → (a : A) × (w₁ : World) × (m env w ≡ (done a, w₁)) × (f a env w₁ ≡ (done b, w'))
  unfolding ◌>>=◌
  bind-eq-done m f env w {b} {w'} h = go (m env w) refl h
    where
      go :
          (r : Outcome A × World)
          → m env w ≡ r
          → continue f env r ≡ (done b, w')
          → (a : A) × (w₁ : World) × (m env w ≡ (done a, w₁)) × (f a env w₁ ≡ (done b, w'))
      go (done a, w₁) e h = (a, w₁, e, h)
      go (threw e', w₁) e h = absurd (done≢threw (sym (ap (λ (p : Outcome B × World). p.0) h)))

  -- What holds of a call and its rest where the call returns, and where it throws.
  pub bind-elim {κ'} :
      (K : Outcome B × World → Type κ') (m : M A) (f : A → M B) (env : Env) (w : World)
      → ((a : A) (w₁ : World) → m env w ≡ (done a, w₁) → K (f a env w₁))
      → ((e : Failure) (w₁ : World) → m env w ≡ (threw e, w₁) → K (threw e, w₁))
      → K ((m >>= f) env w)
  unfolding ◌>>=◌
  bind-elim K m f env w returned failed = go (m env w) refl
    where
      go : (r : Outcome A × World) → m env w ≡ r → K (continue f env r)
      go (done a, w₁) e = returned a w₁ e
      go (threw e', w₁) e = failed e' w₁ e
