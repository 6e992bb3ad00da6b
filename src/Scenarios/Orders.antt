-- ===== src/Scenarios/Orders.antt =====
-- The theorems on orders, their statements and the monitor, used at concrete runs.
use synthetic_order_executor.Base.{ℕ, none, some, List, [], ◌∷◌, ◌≡◌, refl, text}
use synthetic_order_executor.Order.{pending, triggered, executing, executed, cancelled, sell, Order}
use synthetic_order_executor.Order.StateMachine.{can_transition}
use synthetic_order_executor.Repository.{
  TransitionParams, transition_stmt, transition_matches, transition_row, record_hash_stmt,
  polled_stmt, record_hash_row, confirmed_stmt, confirmed_row, new_row,
}
use synthetic_order_executor.Repository.Statements.{
  Statement, insert, transition, poll, record_hash, confirm, fail, commit, apply, OnRow,
}
use synthetic_order_executor.Repository.Claims.{claims_exclusive, same_version-same_status}
use synthetic_order_executor.Repository.Lifecycle.{terms_kept, SameTerms}
use synthetic_order_executor.Repository.Refinement.{◌↝*◌, seen, commit-Refines}
use synthetic_order_executor.Effects.{Table}
use synthetic_order_executor.Scenarios.Samples.{order_in, table_with}

-- The claim of a TRIGGERED order in version 2.
abbrev claim_7 : TransitionParams
claim_7 = record {
  id = 7;
  expected_status = triggered;
  expected_version = 2;
  next_status = executing;
  tx_hash = none;
  error_message = none;
}

abbrev later_statements : List (ℕ × Statement)
later_statements =
    (5, poll 7)
    ∷ (6, record_hash 7 99)
    ∷ (
      9,
      fail (record {
        id = 7;
        error_message = text "reverted";
        tx_hash = none;
        block_number = none;
        gas_used = none;
      }),
    )
    ∷ []

abbrev no_rows : Table
no_rows id = none

abbrev claimed : Table
unfolding transition_stmt
claimed = (transition_stmt claim_7 4 (table_with (order_in triggered))).0

claimed_once : (transition_stmt claim_7 4 (table_with (order_in triggered))).1 ≡ 1
unfolding transition_stmt transition_matches
claimed_once = refl

claims_exclusive_example :
    transition_stmt claim_7 10 (commit later_statements claimed)
    ≡ (commit later_statements claimed, 0)
unfolding claimed transition_stmt
claims_exclusive_example =
    claims_exclusive claim_7 claim_7 4 10 later_statements (table_with (order_in triggered)) refl
      refl claimed_once

-- Statements that leave the version: a poll of an order that is EXECUTING, and its hash.
abbrev same_version_statements : List (ℕ × Statement)
same_version_statements = (5, poll 7) ∷ (6, record_hash 7 99) ∷ []

abbrev polled : Order
polled = record (order_in executing) {
  monitor_attempts = 1;
  tx_hash = some 99;
  submitted_at = some 6;
  updated_at = 6;
}

commit-polled : commit same_version_statements (table_with (order_in executing)) 7 ≡ some polled
unfolding commit apply record_hash_stmt polled_stmt record_hash_row
commit-polled = refl

same_version-same_status_example : executing ≡ executing
same_version-same_status_example =
    same_version-same_status same_version_statements (table_with (order_in executing)) 7
      (order_in executing) polled refl commit-polled refl

-- The life of order 7 from its INSERT to its confirmation, with one UPDATE that comes too late.
abbrev whole_life : List (ℕ × Statement)
whole_life =
    (
      1,
      insert (record {
        id = 7;
        user_address = 12;
        token_in = text "WETH";
        token_out = text "USDC";
        side = sell;
        amount = 1000;
        trigger_price = 3000;
        execution_id = 77;
      }),
    )
    ∷ (
      2,
      transition (record {
        id = 7;
        expected_status = pending;
        expected_version = 0;
        next_status = triggered;
        tx_hash = none;
        error_message = none;
      }),
    )
    ∷ (
      3,
      transition (record {
        id = 7;
        expected_status = pending;
        expected_version = 0;
        next_status = cancelled;
        tx_hash = none;
        error_message = none;
      }),
    )
    ∷ (
      4,
      transition (record {
        id = 7;
        expected_status = triggered;
        expected_version = 1;
        next_status = executing;
        tx_hash = none;
        error_message = none;
      }),
    )
    ∷ (5, record_hash 7 99)
    ∷ (
      6,
      confirm (record {
        id = 7;
        tx_hash = 99;
        block_number = 50;
        gas_used = 21000;
        amount_out = some 1990;
      }),
    )
    ∷ []

whole_life-seen : seen (commit whole_life no_rows 7) ≡ some executed
unfolding commit apply transition_stmt transition_matches transition_row record_hash_stmt
    record_hash_row confirmed_stmt confirmed_row new_row
whole_life-seen = refl

commit-Refines_example : none ↝* seen (commit whole_life no_rows 7)
unfolding can_transition
commit-Refines_example =
    commit-Refines whole_life no_rows 7 (tt, (refl, (refl, (refl, (tt, (tt, tt))))))

terms_kept_example :
    OnRow SameTerms
      (some (order_in executing))
      (commit later_statements (table_with (order_in executing)) 7)
terms_kept_example = terms_kept later_statements (table_with (order_in executing)) 7
