-- ===== src/Chain/Client/Submission.antt =====
-- The order of the steps of `submit` in packages/chain/src/contract/executorClient.ts.
use synthetic_order_executor.Base.{ℕ, Option, none, some, List, ◌∷◌}
use synthetic_order_executor.Order.{Hex, Address}
use synthetic_order_executor.Chain.{ExecutionParams}
use synthetic_order_executor.Chain.Client.{
  ClientConfig, simulate, send, submit, submit_signed, no_signer_error, simulation_account,
}
use synthetic_order_executor.Effects.{
  Env, M, Table, Outcome, done, threw, Call, broadcast, ask, throw, ◌>>=◌,
}
use synthetic_order_executor.Contracts.{
  Mark, Post, Meets, Meets-pure, Meets-throw, Meets-bind, Meets-ask, Meets-environment,
}

module _ {env : Env} {P E : Mark} (p : (t : Table) (l : List Call) → P t l → E t l) where
  Meets-simulate :
      (config : ClientConfig) (params : ExecutionParams)
      → Meets env P (simulate config params) (λ _. P) E
  unfolding simulate
  Meets-simulate config params = Meets-bind _ _ (account config.signer) λ a. Meets-ask _ p
    where
      account : (signer : Option Address) → Meets env P (simulation_account signer) (λ _. P) E
      account none = Meets-bind _ _ (Meets-ask _ p) λ state. Meets-pure state.executor (λ t l h. h)
      account (some a) = Meets-pure a (λ t l h. h)

-- A raw transaction counts as broadcast whether or not the node answers.
Meets-send :
    {env : Env} {Q T E : Mark} (raw : ℕ)
    → ((t : Table) (l : List Call) → Q t l → T t (broadcast raw ∷ l))
    → ((t : Table) (l : List Call) → T t l → E t l)
    → Meets env Q (send raw) (λ _. T) E
unfolding send ask
Meets-send {env} {Q} {T} {E} raw q e = record {
  at = λ w h. go (env.send_raw w.tick raw) w.orders w.calls h;
}
  where
    go :
        (r : Outcome Hex) (t : Table) (l : List Call)
        → Q t l
        → Post (λ _. T) E r t (broadcast raw ∷ l)
    go (done a) t l h = q t l h
    go (threw f) t l h = e t (broadcast raw ∷ l) (q t l h)

-- A submission broadcasts at most one transaction, and only where the callback has returned on the
-- hash of just that transaction: with a callback that leads from `P` to `Q raw`, and with `T` what
-- `Q raw` becomes when `raw` is broadcast, a submission that returns leads from `P` to `T`.
pub Meets-submit :
    {env : Env} {P T E : Mark} (Q : ℕ → Mark) (config : ClientConfig) (params : ExecutionParams)
    (on_signed : Hex → M (Unit {0}))
    → ((t : Table) (l : List Call) → P t l → E t l)
    → ((t : Table) (l : List Call) → T t l → E t l)
    → ((raw : ℕ) → Meets env P (on_signed (env.keccak256 raw)) (λ _. Q raw) E)
    → ((raw : ℕ) (t : Table) (l : List Call) → Q raw t l → T t (broadcast raw ∷ l))
    → Meets env P (submit config params on_signed) (λ _. T) E
unfolding submit submit_signed
Meets-submit {env} {P} {T} {E} Q config params on_signed p e signed sent = from config.signer
  where
    sign_and_send :
        (raw : ℕ) → Meets env P (on_signed (env.keccak256 raw) >>= λ _. send raw) (λ _. T) E
    sign_and_send raw = Meets-bind _ _ (signed raw) λ u. Meets-send raw (sent raw) e

    from :
        (signer : Option Address)
        → Meets env P
            (elim signer [
              | none ↦ throw {A = Hex} no_signer_error
              | some account ↦ submit_signed config account params on_signed
            ])
            (λ _. T)
            E
    from none = Meets-throw no_signer_error p
    from (some account) = Meets-bind _ _ (Meets-simulate p config params) λ u.
        Meets-bind _ _ (Meets-ask _ p) λ fees. Meets-environment _ (
          Meets-bind _ _ (Meets-ask _ p)
            λ request. Meets-bind _ _ (Meets-ask _ p) λ raw. sign_and_send raw)
