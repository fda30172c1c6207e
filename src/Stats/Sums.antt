-- ===== src/Stats/Sums.antt =====
-- The arithmetic of the counters: saturation in place of wrap-around.
use ramix.Stats.{saturated_sum, saturating_add, decrement_gauge, update_maximum}
use ramix.Prelude.{arith, ℕ, ◌≡◌, ◌≤◌, ◌-◌, ◌+◌}
use Prim.Native.Nat.{min, max}
use ramix.Prelude.Int.{max_uint64}

-- saturatedSum is the sum cut at the limit.
pub saturated_sum-min : (a b limit : ℕ) → saturated_sum a b limit ≡ min (a + b) limit
unfolding saturated_sum
saturated_sum-min a b limit = ground arith

pub saturating_add-min :
    (counter delta limit : ℕ)
    → counter ≤ limit
    → saturating_add counter delta limit ≡ min (counter + delta) limit
unfolding saturating_add
saturating_add-min counter delta limit h = ground arith

pub decrement_gauge-sub :
    (counter : ℕ) → counter ≤ max_uint64 → decrement_gauge counter ≡ counter - 1
unfolding decrement_gauge
decrement_gauge-sub counter le = ground arith

pub update_maximum-max :
    (counter candidate : ℕ) → update_maximum counter candidate ≡ max counter candidate
unfolding update_maximum
update_maximum-max counter candidate = ground arith

pub ruleset counters =
    (arith, saturated_sum-min, saturating_add-min, decrement_gauge-sub, update_maximum-max)
