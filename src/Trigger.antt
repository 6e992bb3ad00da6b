-- ===== src/Trigger.antt =====
-- packages/core/src/domain/trigger.ts, and the filter of `findTriggerable` in
-- packages/core/src/repositories/order.repository.ts. Both sides of a comparison are decimals, here
-- numbers of units of 10^-18, so the comparison is exact.
use synthetic_order_executor.Base.{Bool, true, false, ◌&&◌, ◌||◌, ◌≡◌, leb, arith}
use synthetic_order_executor.Order.{Side, buy, sell, Decimal, Order, pending, same_status}

-- `isTriggered(side, triggerPrice, currentPrice)`
unfoldable pub is_triggered : Side → Decimal → Decimal → Bool
is_triggered sell trigger price = leb price trigger
is_triggered buy trigger price = leb trigger price

abbrev same_side : Side → Side → Bool
same_side buy buy = true
same_side sell sell = true
same_side _ _ = false

-- The `where` of `findTriggerable(price)`.
unfoldable pub triggerable : Decimal → Order → Bool
triggerable price o =
    same_status o.status pending
    && (same_side o.side sell && leb price o.trigger_price
        || same_side o.side buy && leb o.trigger_price price)

-- The filter of the query selects exactly the pending orders that the predicate fires.
pub triggerable-eq-is_triggered :
    (price : Decimal) (o : Order)
    → triggerable price o
      ≡ (same_status o.status pending && is_triggered o.side o.trigger_price price)
unfolding triggerable is_triggered
triggerable-eq-is_triggered price o = ground arith

-- A sell order that fires at a price fires at every lower one, a buy order at every higher one, and
-- both fire at the trigger price itself.
pub is_triggered_monotone :
    (trigger p q : Decimal)
    → (leb q p ≡ true → is_triggered sell trigger p ≡ true → is_triggered sell trigger q ≡ true)
      × (leb p q ≡ true → is_triggered buy trigger p ≡ true → is_triggered buy trigger q ≡ true)
      × (is_triggered sell trigger trigger ≡ true)
      × (is_triggered buy trigger trigger ≡ true)
unfolding is_triggered
is_triggered_monotone trigger p q =
    (λ h k. ground arith, λ h k. ground arith, ground arith, ground arith)
