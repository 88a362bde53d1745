-- ===== src/Io/Limited.antt =====
-- WaitForFD of Source/IO.c with a time limit, where the descriptor is ready in time.
use pixy.Base.{
  ℕ, ◌+◌, ◌%◌, ◌^◌, ◌<◌, ◌≤◌, ◌≡◌, refl, ◌∙◌, arith, inl, inr, Bool, true, false, List, [], ◌∷◌,
  ◌++◌, Option, some, ◌==◌, ◌&&◌, not, Bool-cases,
}
use pixy.Base.Int.{pos}
use pixy.Base.Lists.{has}
use pixy.Vector.{Realloc}
use pixy.Vector.Bytes.{IsKeeping}
use pixy.MemoryPool.{memory_chunk_size}
use pixy.MemoryPool.Chains.{holds}
use pixy.Scheduler.{
  Scheduler, Control, get_current_fiber, suspend_current_fiber, resume_fiber, dispatch,
  save_context, is_active,
}
use pixy.Event.Wakes.{resumes-waiter}
use pixy.Heap.Whole.{IsHeap, contains}
use pixy.Heap.Insert.{IsFresh}
use pixy.Heap.Remove.{remove_node-IsHeap}
use pixy.Timer.{Timer, set_timeout, clear_timeout, compare_timeouts}
use pixy.Timer.Comparer.{compare_timeouts-IsComparer}
use pixy.Timer.Set.{set_timeout-IsHeap, due_at}
use pixy.IoPoller.{IoPoller, IoWatch, IoCondition, Flags, set_watch, clear_watch, put}
use pixy.IoPoller.Fit.{watches}
use pixy.IoPoller.Undone.{IsWell, set_watch-Undone}
use pixy.Io.Wait.{
  World, Started, refused, suspended, suspend, wait_limited, limit_wait, wait_for_fd, wait_end,
  wake, wait_for_fd_callback2,
}
use pixy.Io.Woken

-- a timer whose heap is one
abbrev pub IsTimer : Timer → Type 0
IsTimer t = IsHeap t.due_time t.timeout_heap

-- Timer_ClearTimeout
clear_timeout-IsTimer :
    (t : Timer) (timeout : ℕ)
    → IsTimer t
    → contains t.timeout_heap timeout ≡ true
    → IsTimer (clear_timeout t timeout)
      × ((a : ℕ)
          → contains (clear_timeout t timeout).timeout_heap a
            ≡ (contains t.timeout_heap a && not (a == timeout)))
unfolding clear_timeout
clear_timeout-IsTimer t timeout w set =
    let (whole, held, fewer) =
      remove_node-IsHeap (compare_timeouts t.due_time) t.due_time
        (compare_timeouts-IsComparer t.due_time) t.timeout_heap timeout w set in
    (whole, held)

module _ {E : Type 0} (get : E → ℕ → Option (Flags × ℕ)) (k : E) (s : World) (fiber context fd : ℕ)
    (condition : IoCondition) (now delay : ℕ) where
  -- the poller and the timer are well formed, with the watches and the timeouts of `s`
  abbrev pub Restored : (left : ℕ → List ℕ) → World → Type 0
  Restored left t =
      Woken.Restored get k s fiber context fd condition left t.io_poller
      × IsTimer t.timer
      × ((a : ℕ) → contains t.timer.timeout_heap a ≡ contains s.timer.timeout_heap a)

  -- the fiber waits, and what its callback and the end of WaitForFD do
  abbrev pub Waits : (left : ℕ → List ℕ) → World → Type 0
  Waits left t =
      Woken.Watching get k s fiber context fd condition left t.io_poller
      × IsTimer t.timer
      × (contains t.timer.timeout_heap (context + 40) ≡ true)
      × (t.timer.due_time (context + 40) ≡ due_at now (pos delay))
      × ((u : World) × (wait_for_fd_callback2 t context ≡ some u)
          × Restored left u
          × (u.scheduler
              ≡ record t.scheduler { ready_fibers = t.scheduler.ready_fibers ++ fiber ∷ [] })
          × (wait_end u context ≡ (true, u)))

  -- WaitForFD by whether IOPoller_SetWatch and Timer_SetTimeout return true
  abbrev pub Limited : (left : ℕ → List ℕ) → Bool → Option Started → Type 0
  Limited left true (some (suspended t c)) =
      Waits left t × (dispatch (save_context fiber s.scheduler) ≡ (t.scheduler, c))
  Limited left false (some (refused t)) = Restored left t × (t.scheduler ≡ s.scheduler)
  Limited left ok r = ⊥

module _ (s : World) (fiber context : ℕ) (away : has fiber s.scheduler.ready_fibers ≡ false)
    (link : IoPoller) (timer : Timer) where
  abbrev next : Scheduler × Control
  next = dispatch (save_context fiber s.scheduler)

  -- the state in which the fiber waits
  abbrev waiting : World
  waiting = record s {
    scheduler = next.0;
    io_poller = link;
    timer = timer;
    memory = put s.memory (context + 72) fiber;
  }

  abbrev woken : IoPoller → World
  woken p = record waiting {
    scheduler = record next.0 { ready_fibers = next.0.ready_fibers ++ fiber ∷ [] };
    io_poller = p;
    timer = clear_timeout timer (context + 40);
    memory = put waiting.memory (context + 80) 1;
  }

  wakes :
      (r : IoPoller)
      → clear_watch link context ≡ some r
      → (wait_for_fd_callback2 waiting context ≡ some (woken r))
        × (wait_end (woken r) context ≡ (true, woken r))
  unfolding wait_for_fd_callback2 wake resume_fiber wait_end save_context
  wakes r ran =
      let here : context + 0 ≡ context = omega arith in
      let stored : put s.memory (context + 72) fiber (context + 72) ≡ fiber = ground arith in
      let done : put (put s.memory (context + 72) fiber) (context + 80) 1 (context + 80) ≡ 1 =
        ground arith in
      let quiet : is_active next.0 fiber ≡ false =
        resumes-waiter fiber (save_context fiber s.scheduler) away in
      (rw (here, ran, stored, quiet) refl, rw done refl)

-- A fiber that is running and not ready waits, with a time limit, for a descriptor below INT_MAX. Its watch is not
-- in the list for the descriptor and the condition, and its timeout is not set. The invariants of the poller, of its
-- vector and of its pool hold, malloc gives the pool no chunk but a new one, aligned and within 64 bits, the timeouts
-- are a heap, and a segment that malloc gives is none of those in use.
-- If IOPoller_SetWatch or Timer_SetTimeout returns false, WaitForFD returns false, with the scheduler, the watches
-- and the timeouts that are set as before. If both return true, it dispatches the next fiber, with the watch
-- behind the others and the timeout, with its due time, in the heap; WaitForFDCallback2 then
-- takes out both, and makes the fiber the last of the ready ones, for which WaitForFD
-- returns true. All of this keeps the invariants of the poller and of the heap.
pub wait_for_fd-Limited :
    {E : Type 0} (get : E → ℕ → Option (Flags × ℕ)) (realloc : Realloc)
    (callback1 callback2 callback3 : ℕ) (k : E) (s : World) (fiber context fd : ℕ)
    (condition : IoCondition) (allocated malloc : Option ℕ) (free : ℕ → List ℕ) (now delay : ℕ)
    → s.scheduler.active_fiber ≡ some fiber
    → has fiber s.scheduler.ready_fibers ≡ false
    → IsKeeping realloc
    → IsWell get k s.io_poller free
    → fd + 1 < 2 ^ 31
    → ((c : ℕ)
        → allocated ≡ some c
        → (holds s.io_poller.event_memory_pool c ≡ 0)
          × (c % memory_chunk_size ≡ 0)
          × (c + memory_chunk_size ≤ 2 ^ 64))
    → has context (watches s.io_poller condition fd) ≡ false
    → IsTimer s.timer
    → contains s.timer.timeout_heap (context + 40) ≡ false
    → IsFresh s.timer.timeout_heap malloc
    → (ok : Bool) × (p : IoPoller) × (left : ℕ → List ℕ) × (set_watch realloc allocated s.io_poller
          context fd
          (record { condition = condition; user_data = context; callback = callback2 })
        ≡ some (ok, p))
      × (let (set, timer) =
            set_timeout realloc now malloc s.timer (context + 40) (pos delay) context callback3 in
          Limited get k s fiber context fd condition now delay left (ok && set) (
            wait_for_fd realloc callback1 callback2 callback3 allocated now malloc s context fd
              condition
              (pos delay)))
unfolding wait_for_fd wait_limited limit_wait suspend get_current_fiber suspend_current_fiber
    save_context
wait_for_fd-Limited get realloc callback1 callback2 callback3 k s fiber context fd condition
      allocated malloc free now delay active away keeps well small new absent w unset fresh =
    let fields : IoWatch = record {
      condition = condition;
      user_data = context;
      callback = callback2;
    } in
    let (ok, t) =
      set_watch-Undone get realloc k s.io_poller fd allocated context fields free keeps well small
        new absent in
    let (set, timer) =
      set_timeout realloc now malloc s.timer (context + 40) (pos delay) context callback3 in
    let (whole, held, due) =
      set_timeout-IsHeap realloc now malloc s.timer (context + 40) (pos delay) context callback3 w
        unset fresh in
    (
      ok,
      t.after,
      t.left,
      t.run,
      elim (Bool-cases ok) [
        | inr e ↦ rw (active, t.run, e) (((t.well, t.listed ∙ rw e refl), w, λ a. refl), refl)
        | inl e ↦
            let (r, ran, kept, back) = t.undone e in
            elim (Bool-cases set) [
              | inr q ↦
                  rw (active, t.run, e, q, ran)
                    (((kept, back), whole, λ a. held a ∙ rw q refl), refl)
              | inl q ↦
                  let same : (context + 40 == context + 40) ≡ true = ground arith in
                  let set_now = held (context + 40) ∙ rw (q, same) refl in
                  let (good, rest) = clear_timeout-IsTimer timer (context + 40) whole set_now in
                  let (called, ended) = wakes s fiber context away t.after timer r ran in
                  rw (active, t.run, e, q)
                    (
                      (
                        (t.well, t.listed ∙ rw e refl),
                        whole,
                        set_now,
                        due (context + 40) ∙ rw same refl,
                        (
                          woken s fiber context away t.after timer r,
                          called,
                          (
                            (kept, back),
                            good,
                            λ a.
                                rest a
                                ∙ (let held_a = held a in
                                    elim (Bool-cases (a == context + 40)) [
                                      | inl z ↦ ground (arith, z, held_a, q, unset)
                                      | inr z ↦ ground (arith, z, held_a, q)
                                    ]),
                          ),
                          refl,
                          ended,
                        ),
                      ),
                      refl,
                    )
            ]
      ],
    )
