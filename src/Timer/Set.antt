-- ===== src/Timer/Set.antt =====
-- Timer_SetTimeout and Timer_CalculateWaitTime.
use pixy.Base.{
  ℕ, ◌+◌, ◌-◌, ◌/◌, ◌<◌, ◌≤◌, ◌≡◌, ◌⊎◌, refl, arith, inl, inr, ◌==◌, leb, if◌then◌else◌, Bool-cases,
  true, false, ◌&&◌, ◌||◌, Option, ◌%◌, ◌^◌,
}
use pixy.Base.Int.{ℤ, pos, negsuc}
use pixy.Vector.{Realloc}
use pixy.Heap.{Heap}
use pixy.Heap.Whole.{IsHeap, contains, get_top-least}
use pixy.Heap.Insert.{insert_node-IsHeap, IsFresh}
use pixy.Timer.{Timer, time_max, set_timeout, calculate_wait_time, compare_timeouts, to_int}
use pixy.Timer.Comparer.{compare_timeouts-IsComparer}

-- The order does not depend on the due time of a timeout that is not in the heap.
IsHeap-due_time :
    (due_time : ℕ → ℕ) (timeout due : ℕ) (h : Heap)
    → IsHeap due_time h
    → contains h timeout ≡ false
    → IsHeap (λ t. if t == timeout then due else due_time t) h
IsHeap-due_time due_time timeout due h w new = record {
  layout = w.layout;
  ordered = λ i p q.
      ground (arith, new, w.ordered i p q, w.backed i q, w.backed ((i - 1) / 2) (omega arith));
  backed = w.backed;
}

-- the due time that Timer_SetTimeout gives
abbrev pub due_at : (now : ℕ) → (delay : ℤ) → ℕ
due_at now (pos d) = (now + d) % 2 ^ 64
due_at now (negsuc d) = time_max

-- Where the timeouts are a heap and a segment that malloc gives is none of those in use,
-- Timer_SetTimeout of a timeout that is not set gives it its due time, and adds it to the heap if it
-- returns true; the result is a heap, and the other timeouts and their due times stay as they are.
pub set_timeout-IsHeap :
    (realloc : Realloc) (now : ℕ) (malloc : Option ℕ) (self : Timer) (timeout : ℕ) (delay : ℤ)
    (user_data callback : ℕ)
    → IsHeap self.due_time self.timeout_heap
    → contains self.timeout_heap timeout ≡ false
    → IsFresh self.timeout_heap malloc
    → let (ok, t) = set_timeout realloc now malloc self timeout delay user_data callback in
      IsHeap t.due_time t.timeout_heap
      × ((a : ℕ)
          → contains t.timeout_heap a ≡ ((ok && (a == timeout)) || contains self.timeout_heap a))
      × ((a : ℕ) → t.due_time a ≡ (if a == timeout then due_at now delay else self.due_time a))
unfolding set_timeout
set_timeout-IsHeap realloc now malloc self timeout delay user_data callback w new fresh =
    let due = due_at now delay in
    let due_time : ℕ → ℕ = λ t. if t == timeout then due else self.due_time t in
    let (whole, held, free) =
      insert_node-IsHeap due_time realloc (compare_timeouts due_time)
        (compare_timeouts-IsComparer due_time) self.timeout_heap timeout malloc
        (IsHeap-due_time self.due_time timeout due self.timeout_heap w new) new fresh in
    (whole, held, λ a. refl)

-- Where the timeouts are a heap, and each has no time limit or is due in less than 2 ^ 31 milliseconds,
-- Timer_CalculateWaitTime is -1 and no timeout with a time limit is set, or it is the time that is
-- left until the first timeout is due, 0 if that time has come.
pub calculate_wait_time-cases :
    (now : ℕ) (self : Timer)
    → IsHeap self.due_time self.timeout_heap
    → ((a : ℕ) → contains self.timeout_heap a ≡ true → self.due_time a ≤ time_max)
    → ((a : ℕ)
        → contains self.timeout_heap a ≡ true
        → self.due_time a ≡ time_max ⊎ self.due_time a < now + 2 ^ 31)
    → ((calculate_wait_time now self ≡ negsuc 0)
        × ((a : ℕ) → contains self.timeout_heap a ≡ true → self.due_time a ≡ time_max))
      ⊎ ((t : ℕ) × (contains self.timeout_heap t ≡ true)
          × ((a : ℕ) → contains self.timeout_heap a ≡ true → self.due_time t ≤ self.due_time a)
          × (calculate_wait_time now self ≡ pos (self.due_time t - now)))
unfolding calculate_wait_time to_int
calculate_wait_time-cases now self w top short =
    elim (get_top-least self.due_time self.timeout_heap w) [
      | inl (e, f) ↦ inl (rw (e, calculate_wait_time) refl, λ a c. absurd (ground (arith, c, f)))
      | inr (t, e, member, least) ↦ elim (Bool-cases (self.due_time t == time_max)) [
        | inl g ↦
            inl (rw (e, g, calculate_wait_time) refl, λ a c. ground (arith, g, least a c, top a c))
        | inr g ↦ inr (
          t,
          member,
          least,
          rw (e, g, calculate_wait_time)
              (wait (self.due_time t) (ground (arith, g, short t member))),
        )
      ]
    ]
  where
    wait :
        (due : ℕ)
        → due < now + 2 ^ 31
        → (if leb due now then pos 0 else (to_int (due - now))) ≡ pos (due - now)
    wait due p = ground arith
