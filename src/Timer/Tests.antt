-- ===== src/Timer/Tests.antt =====
-- Two timeouts, at the addresses 16 and 24; the one at 24 is due first. A blank timer is one before its
-- first timeout.
use pixy.Base.{
  ℕ, ◌+◌, ◌-◌, ◌≡◌, ◌≤◌, ◌⊎◌, refl, arith, inr, Bool, true, ◌&&◌, ◌||◌, some, ◌==◌, if◌then◌else◌,
}
use pixy.Base.Int.{pos, negsuc}
use pixy.Vector
use pixy.Heap.{Heap, get_slot, locate_slot, initialize}
use pixy.Heap.Whole.{IsHeap, contains}
use pixy.Heap.Insert.{initialize-IsHeap}
use pixy.Async.{Async}
use pixy.Timer.{Timer, set_timeout, tick, calculate_wait_time, time_max}
use pixy.Timer.Ticks.{Ticked, tick-Ticked}
use pixy.Timer.Set.{set_timeout-IsHeap, due_at, calculate_wait_time-cases}

abbrev pub give_zeros : Vector.Realloc
give_zeros old bytes new = some (λ i. 0)

abbrev pub blank_heap : Heap
blank_heap = record {
  segment_vector = Vector.initialize 8;
  number_of_segments = 0;
  number_of_slots = 0;
  number_of_nodes = 0;
  segments = λ i. 0;
  slots = λ s o. 0;
  slot_number = λ p. 0;
}

abbrev pub two_timeouts : Timer
two_timeouts = record {
  timeout_heap = record blank_heap {
    number_of_segments = 1;
    number_of_slots = 256;
    number_of_nodes = 2;
    segments = λ i. 64;
    slots = λ s o. if o == 0 then 24 else 16;
    slot_number = λ p. if p == 24 then 0 else 1;
  };
  due_time = λ t. if t == 24 then 1000 else 2000;
  user_data = λ t. t + 1;
  callback = λ t. 7;
}

abbrev pub blank_timer : Timer
blank_timer = record two_timeouts { timeout_heap = initialize blank_heap }

abbrev no_calls : Async
no_calls = record {
  call_vector = Vector.initialize 16;
  number_of_calls = 0;
  calls = λ i. record { function = 0; argument = 0 };
}

two_timeouts-IsHeap : IsHeap two_timeouts.due_time two_timeouts.timeout_heap
unfolding get_slot locate_slot
two_timeouts-IsHeap = record {
  layout = record { slots = refl; distinct = λ i j p q e. omega arith; nodes = omega arith };
  ordered = λ i p q. ground arith;
  backed = λ i q. ground arith;
}

abbrev at_1500 : Bool × Timer × Async
at_1500 = tick give_zeros 1500 two_timeouts no_calls

tick-Ticked_example : Ticked two_timeouts no_calls 1500 at_1500.0 at_1500.1 at_1500.2
tick-Ticked_example = tick-Ticked give_zeros 1500 two_timeouts no_calls two_timeouts-IsHeap

abbrev was_set : Bool × Timer
was_set = set_timeout give_zeros 500 (some 64) blank_timer 16 (pos 30) 1 2

set_timeout-IsHeap_example :
    IsHeap was_set.1.due_time was_set.1.timeout_heap
    × ((a : ℕ)
        → contains was_set.1.timeout_heap a
          ≡ ((was_set.0 && (a == 16)) || contains blank_timer.timeout_heap a))
    × ((a : ℕ)
        → was_set.1.due_time a ≡ (if a == 16 then due_at 500 (pos 30) else blank_timer.due_time a))
unfolding initialize
set_timeout-IsHeap_example =
    set_timeout-IsHeap give_zeros 500 (some 64) blank_timer 16 (pos 30) 1 2
      (initialize-IsHeap blank_timer.due_time blank_heap) refl (λ s i e p. absurd (omega arith))

calculate_wait_time-cases_example :
    ((calculate_wait_time 900 two_timeouts ≡ negsuc 0)
      × ((a : ℕ)
          → contains two_timeouts.timeout_heap a ≡ true
          → two_timeouts.due_time a ≡ time_max))
    ⊎ ((t : ℕ) × (contains two_timeouts.timeout_heap t ≡ true)
        × ((a : ℕ)
            → contains two_timeouts.timeout_heap a ≡ true
            → two_timeouts.due_time t ≤ two_timeouts.due_time a)
        × (calculate_wait_time 900 two_timeouts ≡ pos (two_timeouts.due_time t - 900)))
calculate_wait_time-cases_example =
    calculate_wait_time-cases 900 two_timeouts two_timeouts-IsHeap (λ a c. ground arith)
      (λ a c. inr (ground arith))
