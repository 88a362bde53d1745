-- ===== src/Timer.antt =====
-- Source/Timer.c and Timer.h. A timeout is its address, and that of the heap node which is its first field; its
-- field `data` is `user_data`. The clock is a parameter: `now` is what GetTime returns in a call. A time has 64 bits.
pub mod Comparer
pub mod Ticks
pub mod Set
pub mod Tests
use pixy.Base.{
  ℕ, zero, suc, ◌+◌, ◌-◌, ◌%◌, ◌*◌, ◌/◌, ◌^◌, Bool, true, false, Option, none, some, ◌==◌, ltb, leb,
  if◌then◌else◌,
}
use pixy.Base.Int.{ℤ, pos, negsuc, ◌-ℤ◌}
use pixy.Vector.{Realloc}
use pixy.Heap.{Heap, insert_node, remove_node, get_top}
use pixy.Heap
use pixy.Async.{Async, add_call}

pub record Timer : Type 0 where
  pub timeout_heap : Heap
  pub due_time : ℕ → ℕ
  pub user_data : ℕ → ℕ
  pub callback : ℕ → ℕ

abbrev pub time_max : ℕ
time_max = 2 ^ 64 - 1

-- COMPARE
unfoldable pub compare_numbers : ℕ → ℕ → ℤ
compare_numbers a b = pos (if ltb b a then 1 else 0) -ℤ pos (if ltb a b then 1 else 0)

-- TimeoutHeapNode_Compare
unfoldable pub compare_timeouts : (due_time : ℕ → ℕ) → ℕ → ℕ → ℤ
unfolding compare_numbers
compare_timeouts due_time self other = compare_numbers (due_time self) (due_time other)

-- GetTime, of what the clock shows
unfoldable pub get_time : (seconds nanoseconds : ℕ) → ℕ
get_time seconds nanoseconds = (seconds * 1000 + nanoseconds / 1000000) % 2 ^ 64

-- Timer_Initialize
unfoldable pub initialize : Timer → Timer
initialize self = record self { timeout_heap = Heap.initialize self.timeout_heap }

-- Timer_SetTimeout; a negative delay is no time limit
unfoldable pub set_timeout :
    Realloc
    → (now : ℕ) → (malloc : Option ℕ) → Timer
    → (timeout : ℕ) → (delay : ℤ) → (user_data callback : ℕ) → Bool × Timer
set_timeout realloc now malloc self timeout delay user_data callback =
    let due : ℕ = elim delay [ pos d ↦ (now + d) % 2 ^ 64 | negsuc d ↦ time_max ] in
    let due_time : ℕ → ℕ = λ t. if t == timeout then due else self.due_time t in
    let (ok, heap) =
      insert_node (compare_timeouts due_time) realloc self.timeout_heap timeout malloc in
    (
      ok,
      record {
        timeout_heap = heap;
        due_time = due_time;
        user_data = λ t. if t == timeout then user_data else self.user_data t;
        callback = λ t. if t == timeout then callback else self.callback t;
      },
    )

-- Timer_ClearTimeout
unfoldable pub clear_timeout : Timer → (timeout : ℕ) → Timer
clear_timeout self timeout = record self {
  timeout_heap = remove_node (compare_timeouts self.due_time) self.timeout_heap timeout;
}

-- the conversion of a uint64_t to an int
unfoldable pub to_int : ℕ → ℤ
to_int n = let low = n % 2 ^ 32 in if ltb low (2 ^ 31) then pos low else (negsuc (2 ^ 32 - low - 1))

-- Timer_CalculateWaitTime
unfoldable pub calculate_wait_time : (now : ℕ) → Timer → ℤ
unfolding to_int
calculate_wait_time now self = elim (get_top self.timeout_heap) [
  | none ↦ negsuc 0
  | some timeout ↦
      let due = self.due_time timeout in
      if due == time_max then negsuc 0 else if leb due now then pos 0 else (to_int (due - now))
]

-- the loop of Timer_Tick; each round removes a timeout, so that their number is enough fuel
unfoldable pub tick_loop : Realloc → (fuel now : ℕ) → Timer → Async → Bool × Timer × Async
unfolding clear_timeout
tick_loop realloc zero now self async = (true, self, async)
tick_loop realloc (suc fuel) now self async = elim (get_top self.timeout_heap) [
  | none ↦ (true, self, async)
  | some timeout ↦
      let (ok, added) = add_call realloc async (self.callback timeout) (self.user_data timeout) in
      let rest = tick_loop realloc fuel now (clear_timeout self timeout) added in
      if ltb now (self.due_time timeout)
      then (true, self, async)
      else if ok
      then rest
      else (false, self, added)
]

-- Timer_Tick
unfoldable pub tick : Realloc → (now : ℕ) → Timer → Async → Bool × Timer × Async
unfolding tick_loop
tick realloc now self async = tick_loop realloc self.timeout_heap.number_of_nodes now self async
