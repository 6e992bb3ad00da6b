-- ===== src/Traces.antt =====
-- Predicates on the record of calls that a method preserves, whatever the environment does and
-- whether the method returns or throws: one rule for each way to build a method.
use synthetic_order_executor.Base.{
  ℕ, zero, suc, Bool, true, false, Option, none, some, List, [], ◌∷◌, ◌++◌, if◌then◌else◌,
}
use synthetic_order_executor.Order.{OrderId}
use synthetic_order_executor.Effects.{
  Env, World, M, Table, Outcome, done, threw, Failure, Call, pure, throw, lift, ◌>>=◌, try, ask,
  query, current_time, environment, enqueue, refuse_if, continue, recover, run_query, run_enqueue,
}
use synthetic_order_executor.Repository.{row_if_matched, find_by_id}
use synthetic_order_executor.Repository.Labels.{labelled, labelled_count}

pub record Preserves {ℓ} {A : Type ℓ} (P : List Call → Type 0) (env : Env) (m : M A) : Type 0 where
  pub at : (w : World) → P w.calls → P (m env w).1.calls

module _ {P : List Call → Type 0} {env : Env} where
  module _ {ℓ} {A : Type ℓ} where
    pub Preserves-pure : (a : A) → Preserves P env (pure a)
    unfolding pure
    Preserves-pure a = record { at = λ w h. h }

    pub Preserves-throw : (e : Failure) → Preserves P env (throw {A = A} e)
    unfolding throw
    Preserves-throw e = record { at = λ w h. h }

    pub Preserves-lift : (r : Outcome A) → Preserves P env (lift r)
    unfolding lift
    Preserves-lift r = record { at = λ w h. h }

    pub Preserves-ask : (f : Env → ℕ → Outcome A) → Preserves P env (ask f)
    unfolding ask
    Preserves-ask f = record { at = λ w h. h }

    pub Preserves-query :
        (q : ℕ → Table → A × Table × List Call)
        → ((now : ℕ) (t : Table) (l : List Call) → P l → P ((q now t).2 ++ l))
        → Preserves P env (query q)
    unfolding query
    Preserves-query q keep = record { at = λ w h. go w h (env.db_fault w.tick) }
      where
        go :
            (w : World)
            → P w.calls
            → (fault : Option Failure)
            → P
                (run_query
                  (env.now w.tick)
                  q
                  (record w { tick = suc w.tick; orders = env.others w.tick w.orders })
                  fault).1.calls
        go w h none = keep (env.now w.tick) (env.others w.tick w.orders) w.calls h
        go w h (some e) = h

    pub Preserves-if :
        (b : Bool) (m n : M A)
        → Preserves P env m
        → Preserves P env n
        → Preserves P env (if b then m else n)
    Preserves-if true m n hm hn = hm
    Preserves-if false m n hm hn = hn

    pub Preserves-try :
        (m : M A) (h : Failure → M A)
        → Preserves P env m
        → ((e : Failure) → Preserves P env (h e))
        → Preserves P env (try m h)
    unfolding try
    Preserves-try m h km kh = record { at = λ w p. go (m env w) (km.at w p) }
      where
        go : (r : Outcome A × World) → P r.1.calls → P (recover h env r).1.calls
        go (done a, w) p = p
        go (threw e, w) p = (kh e).at w p

  module _ {ℓ κ} {A : Type ℓ} {B : Type κ} where
    pub Preserves-bind :
        (m : M A) (f : A → M B)
        → Preserves P env m
        → ((a : A) → Preserves P env (f a))
        → Preserves P env (m >>= f)
    unfolding ◌>>=◌
    Preserves-bind m f km kf = record { at = λ w p. go (m env w) (km.at w p) }
      where
        go : (r : Outcome A × World) → P r.1.calls → P (continue f env r).1.calls
        go (done a, w) p = (kf a).at w p
        go (threw e, w) p = p

  pub Preserves-now : Preserves P env current_time
  unfolding current_time
  Preserves-now = record { at = λ w h. h }

  pub Preserves-environment : Preserves P env environment
  unfolding environment
  Preserves-environment = record { at = λ w h. h }

  pub Preserves-refuse_if : (b : Bool) (e : Failure) → Preserves P env (refuse_if b e)
  Preserves-refuse_if true e = Preserves-throw e
  Preserves-refuse_if false e = Preserves-pure tt

  pub Preserves-enqueue :
      (c : Call) → ((l : List Call) → P l → P (c ∷ l)) → Preserves P env (enqueue c)
  unfolding enqueue
  Preserves-enqueue c keep = record { at = λ w h. go w h (env.queue_fault w.tick) }
    where
      go :
          (w : World)
          → P w.calls
          → (fault : Option Failure)
          → P (run_enqueue c (record w { tick = suc w.tick }) fault).1.calls
      go w h none = keep w.calls h
      go w h (some e) = h

  pub Preserves-find_by_id : (id : OrderId) → Preserves P env (find_by_id id)
  unfolding find_by_id
  Preserves-find_by_id id = Preserves-query (λ now t. (t id, t, [])) (λ now t l h. h)

  pub Preserves-labelled :
      (c : Call) (id : OrderId) (stmt : ℕ → Table → Table × ℕ)
      → ((l : List Call) → P l → P (c ∷ l))
      → Preserves P env (labelled c id stmt)
  unfolding labelled
  Preserves-labelled c id stmt keep =
      Preserves-bind (query (λ now t. labelled_count c (stmt now t))) (row_if_matched id)
        (Preserves-query (λ now t. labelled_count c (stmt now t))
          (λ now t l h. go (stmt now t) l h))
        rest
    where
      go : (r : Table × ℕ) (l : List Call) → P l → P ((labelled_count c r).2 ++ l)
      go (t, zero) l h = h
      go (t, suc n) l h = keep l h

      rest : (n : ℕ) → Preserves P env (row_if_matched id n)
      rest zero = Preserves-pure none
      rest (suc n) = Preserves-find_by_id id

pub ruleset preserves_rules = (
  Preserves-pure, Preserves-throw, Preserves-lift, Preserves-ask, Preserves-if, Preserves-try,
  Preserves-bind, Preserves-now, Preserves-environment, Preserves-refuse_if, Preserves-find_by_id,
)
