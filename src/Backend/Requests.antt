-- ===== src/Backend/Requests.antt =====
-- What the use-cases of apps/backend/src/services/order.service.ts may do to an order.
use mathlib.Core.Path.{subst}
use synthetic_order_executor.Base.{
  ℕ, ◌+◌, Bool, true, false, some, ◌≡◌, ◌≢◌, ap, ◌∙◌, arith, not, ltb,
}
use synthetic_order_executor.Order.{Address, Order, pending}
use synthetic_order_executor.Effects.{
  Env, World, Outcome, done, threw, ◌>>=◌, query, ask, lift, environment,
}
use synthetic_order_executor.Effects.Ensures.{
  Ensures, IfDone, Ensures-then, Ensures-bind, Ensures-pure, Ensures-environment,
}
use synthetic_order_executor.Effects.Rules.{bind-eq-done}
use synthetic_order_executor.Chain.{ExecutorContractState}
use synthetic_order_executor.Execution.{ChainTokens}
use synthetic_order_executor.Repository.{CreateOrderData, create, new_row}
use synthetic_order_executor.Backend.{
  Api, CreateOrderInput, TokenInfo, create_order, checked_data, resolve_token, derive_execution_id,
}

abbrev pub unpaused : Outcome ExecutorContractState → Bool
unpaused (done s) = not s.paused
unpaused (threw e) = false

abbrev pub token_address : Outcome TokenInfo → Address
token_address (done t) = t.address
token_address (threw e) = 0

abbrev pub token_decimals : Outcome TokenInfo → ℕ
token_decimals (done t) = t.decimals
token_decimals (threw e) = 0

abbrev pub at_most : Outcome ℕ → Outcome ℕ → Bool
at_most (done a) (done b) = not (ltb b a)
at_most _ _ = false

-- An order as it is stored anew.
abbrev Stored : CreateOrderData → Order → World → Type 0
Stored d o w =
    (o.status ≡ pending)
    × (o.version ≡ 0)
    × (o.execution_id ≡ d.execution_id)
    × (o.id ≡ d.id)
    × (w.orders o.id ≡ some o)

create-Stored :
    (d : CreateOrderData) (env : Env) (w w' : World) (o : Order)
    → create d env w ≡ (done o, w')
    → Stored d o w'
unfolding create query environment ◌>>=◌ new_row
create-Stored d env w w' o h = ground arith

module _ (api : Api) (tokens : ChainTokens) (env : Env) where
  abbrev Derived : CreateOrderData → Type 0
  Derived d = d.execution_id ≡ derive_execution_id env.keccak256 api.uuid_text d.id

  checked_data-Derived :
      (input : CreateOrderInput) → Ensures Derived env (checked_data api tokens input)
  unfolding checked_data
  checked_data-Derived input = Ensures-then _ _ _ λ token_in. Ensures-then _ _ _ λ token_out.
      Ensures-then _ _ _ λ u₁. Ensures-then _ _ _ λ state. Ensures-then _ _ _ λ u₂.
        Ensures-then _ _ _ λ in_allowed. Ensures-then _ _ _ λ out_allowed.
          Ensures-then _ _ _ λ max_trade_amount. Ensures-then _ _ _ λ u₃. Ensures-then _ _ _ λ u₄.
            Ensures-bind _ _ _ _ Ensures-environment λ env' same. Ensures-then _ _ _ λ amount.
              Ensures-then _ _ _ λ u₅. Ensures-then _ _ _ λ id.
                Ensures-pure Derived _
                  (ap (λ (e : Env). derive_execution_id e.keccak256 api.uuid_text id) same)

module _ (api : Api) (tokens : ChainTokens) (input : CreateOrderInput) (env : Env) (w w' : World)
    (d : CreateOrderData) (returned : checked_data api tokens input env w ≡ (done d, w')) where
  checked_data-checks :
      (unpaused (env.get_state w.tick) ≡ true)
      × (api.is_token_allowed (w.tick + 1) (token_address (resolve_token tokens input.token_in))
          ≡ done true)
      × (api.is_token_allowed (w.tick + 2) (token_address (resolve_token tokens input.token_out))
          ≡ done true)
      × (at_most
            (env.parse_units input.amount (token_decimals (resolve_token tokens input.token_in)))
            (api.get_max_trade_amount
              (w.tick + 3)
              (token_address (resolve_token tokens input.token_in)))
          ≡ true)
      × (token_address (resolve_token tokens input.token_in)
          ≢ token_address (resolve_token tokens input.token_out))
  unfolding checked_data ask lift environment ◌>>=◌
  checked_data-checks = ground arith

module _ (api : Api) (tokens : ChainTokens) (input : CreateOrderInput) (env : Env) (w w' : World)
    (o : Order) (created : create_order api tokens input env w ≡ (done o, w')) where
  -- An order that the API creates is stored under its id, PENDING and in version 0, with the
  -- execution id derived from its id.
  pub create_order_stores :
      (o.status ≡ pending)
      × (o.version ≡ 0)
      × (o.execution_id ≡ derive_execution_id env.keccak256 api.uuid_text o.id)
      × (w'.orders o.id ≡ some o)
  unfolding create_order
  create_order_stores =
      let (d, w₁, e, h) = bind-eq-done _ _ env w created in
      let (is_pending, first, same_execution, same_id, stored) = create-Stored d env w₁ w' o h in
      let derived =
        subst (λ (p : Outcome CreateOrderData × World). IfDone (Derived api tokens env) p.0) e
          ((checked_data-Derived api tokens env input).at w) in
      (is_pending, first, rw same_id (same_execution ∙ derived), stored)

  -- It was created while the contract answered that it is not paused, that both tokens are allowed
  -- and that the amount is within the cap; and its tokens have two addresses.
  pub create_order_checks :
      (unpaused (env.get_state w.tick) ≡ true)
      × (api.is_token_allowed (w.tick + 1) (token_address (resolve_token tokens input.token_in))
          ≡ done true)
      × (api.is_token_allowed (w.tick + 2) (token_address (resolve_token tokens input.token_out))
          ≡ done true)
      × (at_most
            (env.parse_units input.amount (token_decimals (resolve_token tokens input.token_in)))
            (api.get_max_trade_amount
              (w.tick + 3)
              (token_address (resolve_token tokens input.token_in)))
          ≡ true)
      × (token_address (resolve_token tokens input.token_in)
          ≢ token_address (resolve_token tokens input.token_out))
  unfolding create_order
  create_order_checks =
      let (d, w₁, e, h) = bind-eq-done _ _ env w created in
      checked_data-checks api tokens input env w w₁ d e
