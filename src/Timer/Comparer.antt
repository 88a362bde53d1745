-- ===== src/Timer/Comparer.antt =====
-- The comparer of timeouts orders them by their due times.
use pixy.Base.{ℕ, arith}
use pixy.Base.Int.{◌-ℤ◌}
use pixy.Timer.{compare_timeouts, compare_numbers}
use pixy.Heap.Sift.{IsComparer}

pub compare_timeouts-IsComparer :
    (due_time : ℕ → ℕ) → IsComparer (compare_timeouts due_time) due_time
unfolding compare_timeouts compare_numbers ◌-ℤ◌
compare_timeouts-IsComparer due_time = record {
  less = λ a b. ground arith;
  greater = λ a b. ground arith;
}
