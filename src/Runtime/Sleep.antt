-- ===== src/Runtime/Sleep.antt =====
-- SleepCurrentFiber and SleepCallback of Source/Runtime.c, over the timer and the scheduler.
use pixy.Base.{
  ℕ, ◌≡◌, refl, ◌∙◌, arith, Bool, true, false, [], ◌∷◌, ◌++◌, Option, none, some, ◌==◌, Bool-cases,
  inl, inr,
}
use pixy.Base.Int.{ℤ}
use pixy.Base.Lists.{has}
use pixy.Vector.{Realloc}
use pixy.Scheduler.{
  Control, returns, get_current_fiber, suspend_current_fiber, resume_fiber, dispatch, save_context,
  is_active,
}
use pixy.Event.Wakes.{resumes-waiter}
use pixy.Heap.Whole.{IsHeap, contains}
use pixy.Heap.Insert.{IsFresh}
use pixy.Timer.{Timer, set_timeout}
use pixy.Timer.Set.{set_timeout-IsHeap, due_at}
use pixy.Runtime.{Runtime, sleep, sleep_callback}

set_timeout-fields :
    (realloc : Realloc) (now : ℕ) (malloc : Option ℕ) (self : Timer) (timeout : ℕ) (delay : ℤ)
    (user_data callback : ℕ)
    → let t = (set_timeout realloc now malloc self timeout delay user_data callback).1 in
      (t.user_data timeout ≡ user_data) × (t.callback timeout ≡ callback)
unfolding set_timeout
set_timeout-fields realloc now malloc self timeout delay user_data callback =
    let same : (timeout == timeout) ≡ true = ground arith in (rw same refl, rw same refl)

module _ {E : Type 0} (realloc : Realloc) (callback now : ℕ) (malloc : Option ℕ) (s : Runtime E)
    (timeout : ℕ) (duration : ℤ) (fiber : ℕ) where
  -- the fiber sleeps: its timeout is set, and the callback of the timeout makes it ready
  abbrev pub Sleeps : Runtime E → Type 0
  Sleeps t =
      (t.timer.due_time timeout ≡ due_at now duration)
      × (contains t.timer.timeout_heap timeout ≡ true)
      × (t.timer.callback timeout ≡ callback)
      × (sleep_callback t (t.timer.user_data timeout)
          ≡ some (record t {
            scheduler = record t.scheduler {
              ready_fibers = t.scheduler.ready_fibers ++ fiber ∷ [];
            };
          }))

  -- what SleepCurrentFiber does: it fails, with no timeout more and the fiber still running, or the fiber sleeps
  abbrev pub Slept : Option (Bool × Runtime E × Control) → Type 0
  Slept none = ⊥
  Slept (some (true, t, c)) = IsHeap t.timer.due_time t.timer.timeout_heap × Sleeps t
  Slept (some (false, t, c)) =
      IsHeap t.timer.due_time t.timer.timeout_heap
      × ((a : ℕ) → contains t.timer.timeout_heap a ≡ contains s.timer.timeout_heap a)
      × (t.scheduler ≡ s.scheduler)
      × (c ≡ returns)

  -- A fiber that is running and not ready sleeps, with a timeout that is not set. Either the timeout gets
  -- its due time and is in the heap, and what its callback does with its data is to put this fiber behind the
  -- ready ones; or there is no memory, the call returns false, and no timeout is set.
  pub sleep-Slept :
      s.scheduler.active_fiber ≡ some fiber
      → has fiber s.scheduler.ready_fibers ≡ false
      → IsHeap s.timer.due_time s.timer.timeout_heap
      → contains s.timer.timeout_heap timeout ≡ false
      → IsFresh s.timer.timeout_heap malloc
      → Slept (sleep realloc now malloc callback s timeout duration)
  unfolding sleep get_current_fiber suspend_current_fiber sleep_callback resume_fiber
  sleep-Slept active away whole new fresh =
      let r = set_timeout realloc now malloc s.timer timeout duration fiber callback in
      let (heap, held, due) =
        set_timeout-IsHeap realloc now malloc s.timer timeout duration fiber callback whole new
          fresh in
      let same : (timeout == timeout) ≡ true = ground arith in
      let (stored, called) =
        set_timeout-fields realloc now malloc s.timer timeout duration fiber callback in
      let quiet : is_active (dispatch (save_context fiber s.scheduler)).0 fiber ≡ false =
        resumes-waiter fiber (save_context fiber s.scheduler) away in
      elim (Bool-cases r.0) [
        | inl e ↦
            rw (active, e)
              (
                heap,
                (
                  due timeout ∙ rw same refl,
                  held timeout ∙ rw (e, same) refl,
                  called,
                  rw (stored, quiet) refl,
                ),
              )
        | inr e ↦ rw (active, e) (heap, λ a. held a ∙ rw e refl, refl, refl)
      ]
