-- ===== src/Contracts.antt =====
-- Contracts of methods: from a table and calls of one kind a method returns in one of a second kind,
-- or throws in one of a third, whatever the environment does. One rule for each way to build a method.
use synthetic_order_executor.Base.{
  ℕ, zero, suc, Bool, true, false, Option, none, some, List, [], ◌∷◌, ◌++◌, ◌≡◌, refl, ◌⊎◌, inl,
  inr, if◌then◌else◌,
}
use synthetic_order_executor.Order.{OrderId, Order}
use synthetic_order_executor.Effects.{
  Env, World, M, Table, Outcome, done, threw, Failure, Call, pure, throw, lift, ◌>>=◌, try, ask,
  query, current_time, environment, enqueue, refuse_if, continue, recover, run_query, run_enqueue,
}
use synthetic_order_executor.Repository.{row_if_matched, find_by_id}
use synthetic_order_executor.Repository.Labels.{labelled, labelled_count}

abbrev pub Mark : Type 1
Mark = Table → List Call → Type 0

abbrev pub Post {ℓ} : {A : Type ℓ} → (A → Mark) → Mark → Outcome A → Mark
Post Q E (done a) t l = Q a t l
Post Q E (threw e) t l = E t l

-- An UPDATE that matched no row, or that matched one and left `c` in the calls.
abbrev pub Matched : Mark → Mark → Call → List Call → Table × ℕ → Type 0
Matched N Y c l (t, zero) = N t l
Matched N Y c l (t, suc rows) = Y t (c ∷ l)

-- What `update` returns: `null` where no row matched, and otherwise the row as it is then.
abbrev pub Updated : Mark → Mark → OrderId → Option Order → Mark
Updated N Y id o t l = ((o ≡ none) × N t l) ⊎ ((t id ≡ o) × Y t l)

pub record Meets {ℓ} {A : Type ℓ} (env : Env) (P : Mark) (m : M A) (Q : A → Mark) (E : Mark)
    : Type 0 where
  pub at :
      (w : World) → P w.orders w.calls → Post Q E (m env w).0 (m env w).1.orders (m env w).1.calls

module _ {env : Env} where
  module _ {ℓ} {A : Type ℓ} {P : Mark} {Q : A → Mark} {E : Mark} where
    pub Meets-weaken :
        {P' : Mark} {Q' : A → Mark} {E' : Mark} {m : M A}
        → Meets env P m Q E
        → ((t : Table) (l : List Call) → P' t l → P t l)
        → ((a : A) (t : Table) (l : List Call) → Q a t l → Q' a t l)
        → ((t : Table) (l : List Call) → E t l → E' t l)
        → Meets env P' m Q' E'
    Meets-weaken {P'} {Q'} {E'} {m} k p q e = record {
      at = λ w h.
          go (m env w).0 (m env w).1.orders (m env w).1.calls (k.at w (p w.orders w.calls h));
    }
      where
        go : (r : Outcome A) (t : Table) (l : List Call) → Post Q E r t l → Post Q' E' r t l
        go (done a) t l h = q a t l h
        go (threw f) t l h = e t l h

    pub Meets-pure :
        (a : A) → ((t : Table) (l : List Call) → P t l → Q a t l) → Meets env P (pure a) Q E
    unfolding pure
    Meets-pure a k = record { at = λ w h. k w.orders w.calls h }

    pub Meets-throw :
        (e : Failure) → ((t : Table) (l : List Call) → P t l → E t l) → Meets env P (throw e) Q E
    unfolding throw
    Meets-throw e k = record { at = λ w h. k w.orders w.calls h }

    pub Meets-lift :
        (r : Outcome A)
        → ((t : Table) (l : List Call) → P t l → Post Q E r t l)
        → Meets env P (lift r) Q E
    unfolding lift
    Meets-lift r k = record { at = λ w h. k w.orders w.calls h }

    pub Meets-query :
        (q : ℕ → Table → A × Table × List Call)
        → ((now n : ℕ) (t : Table) (l : List Call)
            → P t l
            → (let r = q now (env.others n t) in Q r.0 r.1 (r.2 ++ l)) × E (env.others n t) l)
        → Meets env P (query q) Q E
    unfolding query
    Meets-query q k = record { at = λ w h. go w h (env.db_fault w.tick) }
      where
        go :
            (w : World)
            → P w.orders w.calls
            → (fault : Option Failure)
            → let r =
                run_query
                  (env.now w.tick)
                  q
                  (record w { tick = suc w.tick; orders = env.others w.tick w.orders })
                  fault in
              Post Q E r.0 r.1.orders r.1.calls
        go w h none = (k (env.now w.tick) w.tick w.orders w.calls h).0
        go w h (some e) = (k (env.now w.tick) w.tick w.orders w.calls h).1

    pub Meets-if :
        (b : Bool) (m n : M A)
        → Meets env P m Q E
        → Meets env P n Q E
        → Meets env P (if b then m else n) Q E
    Meets-if true m n hm hn = hm
    Meets-if false m n hm hn = hn

    pub Meets-try :
        (m : M A) (h : Failure → M A) {F : Mark}
        → Meets env P m Q F
        → ((e : Failure) → Meets env F (h e) Q E)
        → Meets env P (try m h) Q E
    unfolding try
    Meets-try m h {F} km kh = record { at = λ w p. go (m env w) (km.at w p) }
      where
        go :
            (r : Outcome A × World)
            → Post Q F r.0 r.1.orders r.1.calls
            → Post Q E (recover h env r).0 (recover h env r).1.orders (recover h env r).1.calls
        go (done a, w) p = p
        go (threw e, w) p = (kh e).at w p

  pub Meets-bind {ℓ κ} :
      {A : Type ℓ} {B : Type κ} {P : Mark} {Q : A → Mark} {S : B → Mark} {E : Mark} (m : M A)
      (f : A → M B)
      → Meets env P m Q E
      → ((a : A) → Meets env (Q a) (f a) S E)
      → Meets env P (m >>= f) S E
  unfolding ◌>>=◌
  Meets-bind {A = A} {Q = Q} {S} {E} m f km kf = record { at = λ w p. go (m env w) (km.at w p) }
    where
      go :
          (r : Outcome A × World)
          → Post Q E r.0 r.1.orders r.1.calls
          → Post S E (continue f env r).0 (continue f env r).1.orders (continue f env r).1.calls
      go (done a, w) p = (kf a).at w p
      go (threw e, w) p = p

  -- A call that only reads from the outside.
  pub Meets-ask {ℓ} :
      {A : Type ℓ} {P E : Mark} (f : Env → ℕ → Outcome A)
      → ((t : Table) (l : List Call) → P t l → E t l)
      → Meets env P (ask f) (λ _. P) E
  unfolding ask
  Meets-ask {A = A} {P} {E} f k = record { at = λ w h. go (f env w.tick) w h }
    where
      go : (r : Outcome A) (w : World) → P w.orders w.calls → Post (λ _. P) E r w.orders w.calls
      go (done a) w h = h
      go (threw e) w h = k w.orders w.calls h

  pub Meets-now : {P E : Mark} → Meets env P current_time (λ _. P) E
  unfolding current_time
  Meets-now = record { at = λ w h. h }

  pub Meets-environment {ℓ} :
      {B : Type ℓ} {P : Mark} {S : B → Mark} {E : Mark} (f : Env → M B)
      → Meets env P (f env) S E
      → Meets env P (environment >>= f) S E
  unfolding environment ◌>>=◌
  Meets-environment f k = record { at = λ w h. k.at w h }

  pub Meets-refuse_if :
      {P E : Mark} (b : Bool) (e : Failure)
      → ((t : Table) (l : List Call) → P t l → E t l)
      → Meets env P (refuse_if b e) (λ _. P) E
  Meets-refuse_if true e k = Meets-throw e k
  Meets-refuse_if false e k = Meets-pure tt (λ t l h. h)

  pub Meets-enqueue :
      {P Q E : Mark} (c : Call)
      → ((t : Table) (l : List Call) → P t l → Q t (c ∷ l) × E t l)
      → Meets env P (enqueue c) (λ _. Q) E
  unfolding enqueue
  Meets-enqueue {P} {Q} {E} c k = record { at = λ w h. go w h (env.queue_fault w.tick) }
    where
      go :
          (w : World)
          → P w.orders w.calls
          → (fault : Option Failure)
          → let r = run_enqueue c (record w { tick = suc w.tick }) fault in
            Post (λ _. Q) E r.0 r.1.orders r.1.calls
      go w h none = (k w.orders w.calls h).0
      go w h (some e) = (k w.orders w.calls h).1

  module _ {P E : Mark} (k : (n : ℕ) (t : Table) (l : List Call) → P t l → P (env.others n t) l)
      (e : (t : Table) (l : List Call) → P t l → E t l) where
    -- A row read is that of the table.
    pub Meets-find_by_id :
        (id : OrderId) → Meets env P (find_by_id id) (λ o t l. (t id ≡ o) × P t l) E
    unfolding find_by_id
    Meets-find_by_id id =
        Meets-query (λ now t. (t id, t, []))
          λ now n t l h. ((refl, k n t l h), e (env.others n t) l (k n t l h))

  -- An UPDATE and the read of its row: `N` where it matched no row, `Y` where it matched.
  pub Meets-labelled :
      {P N Y E : Mark} (c : Call) (id : OrderId) (stmt : ℕ → Table → Table × ℕ)
      → ((now n : ℕ) (t : Table) (l : List Call)
          → P t l
          → Matched N Y c l (stmt now (env.others n t)) × E (env.others n t) l)
      → ((n : ℕ) (t : Table) (l : List Call) → Y t l → Y (env.others n t) l)
      → ((t : Table) (l : List Call) → Y t l → E t l)
      → Meets env P (labelled c id stmt) (Updated N Y id) E
  unfolding labelled
  Meets-labelled {P} {N} {Y} {E} c id stmt k stable e =
      Meets-bind {Q = Q} (query (λ now t. labelled_count c (stmt now t))) (row_if_matched id)
        (Meets-query (λ now t. labelled_count c (stmt now t))
          λ now n t l h. (go l (stmt now (env.others n t)) (k now n t l h).0, (k now n t l h).1))
        rest
    where
      Q : ℕ → Mark
      Q zero = N
      Q (suc rows) = Y

      go :
          (l : List Call) (r : Table × ℕ)
          → Matched N Y c l r
          → Q (labelled_count c r).0 (labelled_count c r).1 ((labelled_count c r).2 ++ l)
      go l (t', zero) h = h
      go l (t', suc rows) h = h

      rest : (n : ℕ) → Meets env (Q n) (row_if_matched id n) (Updated N Y id) E
      rest zero = Meets-pure none (λ t l h. inl (refl, h))
      rest (suc n) =
          Meets-weaken (Meets-find_by_id {P = Y} {E = E} stable e id) (λ t l h. h)
            (λ o t l h. inr h) (λ t l h. h)
