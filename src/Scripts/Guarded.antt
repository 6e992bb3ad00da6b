-- ===== src/Scripts/Guarded.antt =====
-- On which chains the scripts of contracts/script send transactions, and which.
use synthetic_order_executor.Base.{ℕ, Bool, false, List, ◌∷◌, Text, ◌⊎◌, ◌≡◌}
use synthetic_order_executor.Effects.{Env, World, M, Failure, done, Call, broadcast}
use synthetic_order_executor.Scripts.{Node, sepolia_chain_id}
use synthetic_order_executor.Scripts.Preflight.{PreflightResult, preflight}
use synthetic_order_executor.Scripts.Deploy.{Artifact, constructor_transaction}
use synthetic_order_executor.Scripts.Passed.{Allowed, Passed}

module _ (node : Node) (artifact : Artifact) (git_commit : Text) (env : Env) where
  abbrev ReturnedBy : PreflightResult → Type 0
  ReturnedBy pre = (w : World) × (w₁ : World) × (preflight node env w ≡ (done pre, w₁))

  -- Nothing was sent, or one transaction, the creation of the contract with the arguments that a
  -- preflight has returned.
  abbrev pub Deploys : List Call → List Call → Type 0
  Deploys calls calls' =
      (calls' ≡ calls)
      ⊎ ((pre : PreflightResult) × ReturnedBy pre
          × Passed node pre
          × (calls'
              ≡ broadcast (node.encode (constructor_transaction node artifact git_commit pre))
                ∷ calls))

  module _ (pre : PreflightResult) (calls : List Call) where
    abbrev sent : List Call
    sent = broadcast (node.encode (constructor_transaction node artifact git_commit pre)) ∷ calls

    abbrev AtMostOne : List Call → Type 0
    AtMostOne l = (l ≡ calls) ⊎ (l ≡ sent)

    -- A method that sends nothing, before one that sends at most the transaction.
    record Sends {A : Type 0} (m : M A) : Type 0 where
      at : (w : World) → w.calls ≡ calls → AtMostOne (m env w).1.calls

-- Nothing was sent, or the first read of the chain id gave an allowed one.
abbrev pub OnAllowed : Node → World → List Call → Type 0
OnAllowed node w l =
    (l ≡ w.calls) ⊎ ((id : ℕ) × (node.get_chain_id w.tick ≡ done id) × Allowed node id)

abbrev pub OnSepolia : Node → World → List Call → Type 0
OnSepolia node w l = (l ≡ w.calls) ⊎ (node.get_chain_id w.tick ≡ done sepolia_chain_id)

-- A method that asks for the chain id, refuses some, and goes on.
module _ {A : Type 0} (node : Node) (env : Env) (w : World) (Q : ℕ → Type 0) (bad : ℕ → Bool)
    (good : (id : ℕ) → bad id ≡ false → Q id) (e : ℕ → Failure) (rest : ℕ → M A) where
  abbrev OnGood : List Call → Type 0
  OnGood l = (l ≡ w.calls) ⊎ ((id : ℕ) × (node.get_chain_id w.tick ≡ done id) × Q id)
