-- ===== src/Io/Woken.antt =====
-- WaitForFD of Source/IO.c and its callbacks, from the wait to the wake-up.
use pixy.Base.{
  ℕ, ◌+◌, ◌%◌, ◌^◌, ◌<◌, ◌≤◌, ◌≡◌, refl, ◌∙◌, inl, inr, Bool, true, false, [], ◌∷◌, ◌++◌, List,
  Option, some, Bool-cases,
}
use pixy.Base.Int.{negsuc}
use pixy.Base.Lists.{has}
use pixy.Vector.{Realloc}
use pixy.Vector.Bytes.{IsKeeping}
use pixy.MemoryPool.{memory_chunk_size}
use pixy.MemoryPool.Chains.{holds}
use pixy.Scheduler.{
  Scheduler, Control, get_current_fiber, suspend_current_fiber, resume_fiber, dispatch,
  save_context, is_active,
}
use pixy.Event.Wakes.{resumes-waiter}
use pixy.IoPoller.{IoPoller, IoWatch, IoCondition, Flags, set_watch, put}
use pixy.IoPoller.Change.{put-at}
use pixy.IoPoller.Fit.{watches}
use pixy.IoPoller.Undone.{IsWell, set_watch-Undone}
use pixy.Io.Wait.{
  World, Started, refused, suspended, suspend, wait_endless, wait_for_fd, wake,
  wait_for_fd_callback1,
}

module _ {E : Type 0} (get : E → ℕ → Option (Flags × ℕ)) (k : E) (s : World) (fiber context fd : ℕ)
    (condition : IoCondition) where
  -- the poller is well formed, with the watches of `s` for the descriptor and the condition
  abbrev pub Restored : (left : ℕ → List ℕ) → IoPoller → Type 0
  Restored left p =
      IsWell get k p left × (watches p condition fd ≡ watches s.io_poller condition fd)

  -- the poller is well formed, with the watch of the context behind those of `s`
  abbrev pub Watching : (left : ℕ → List ℕ) → IoPoller → Type 0
  Watching left p =
      IsWell get k p left
      × (watches p condition fd ≡ watches s.io_poller condition fd ++ context ∷ [])

  -- WaitForFD without a time limit, by the result of IOPoller_SetWatch
  abbrev pub Endless : (left : ℕ → List ℕ) → Bool → Option Started → Type 0
  Endless left true (some (suspended t c)) =
      Watching left t.io_poller
      × (dispatch (save_context fiber s.scheduler) ≡ (t.scheduler, c))
      × ((u : World) × (wait_for_fd_callback1 t context ≡ some u)
          × Restored left u.io_poller
          × (u.scheduler
              ≡ record t.scheduler { ready_fibers = t.scheduler.ready_fibers ++ fiber ∷ [] }))
  Endless left false (some (refused t)) = Restored left t.io_poller × (t.scheduler ≡ s.scheduler)
  Endless left ok r = ⊥

-- A fiber that is running and not ready waits, without a time limit, for a descriptor below INT_MAX, and its watch
-- is not in the list for the descriptor and the condition. The invariants of the poller, of its vector and of its
-- pool hold, and malloc gives the pool no chunk but a new one, aligned and within 64 bits.
-- If IOPoller_SetWatch returns false, WaitForFD returns false at once, with the scheduler and the watches as before.
-- If it returns true, WaitForFD dispatches the next fiber, with the watch behind the others;
-- WaitForFDCallback1 takes the watch out again, and makes this fiber the last of the ready ones.
-- The invariants are kept in each case.
pub wait_for_fd-wakes :
    {E : Type 0} (get : E → ℕ → Option (Flags × ℕ)) (realloc : Realloc)
    (callback1 callback2 callback3 : ℕ) (k : E) (s : World) (fiber context fd : ℕ)
    (condition : IoCondition) (allocated malloc : Option ℕ) (free : ℕ → List ℕ) (now n : ℕ)
    → s.scheduler.active_fiber ≡ some fiber
    → has fiber s.scheduler.ready_fibers ≡ false
    → IsKeeping realloc
    → IsWell get k s.io_poller free
    → fd + 1 < 2 ^ 31
    → ((c : ℕ)
        → allocated ≡ some c
        → (holds s.io_poller.event_memory_pool c ≡ 0)
          × (c % memory_chunk_size ≡ 0)
          × (c + memory_chunk_size ≤ 2 ^ 64))
    → has context (watches s.io_poller condition fd) ≡ false
    → (ok : Bool) × (p : IoPoller) × (left : ℕ → List ℕ) × (set_watch realloc allocated s.io_poller
          context fd
          (record { condition = condition; user_data = context; callback = callback1 })
        ≡ some (ok, p))
      × Endless get k s fiber context fd condition left ok (
          wait_for_fd realloc callback1 callback2 callback3 allocated now malloc s context fd
            condition
            (negsuc n))
unfolding wait_for_fd wait_endless suspend get_current_fiber suspend_current_fiber
    wait_for_fd_callback1 wake resume_fiber save_context
wait_for_fd-wakes get realloc callback1 callback2 callback3 k s fiber context fd condition allocated
      malloc free now n active away keeps well small new absent =
    let fields : IoWatch = record {
      condition = condition;
      user_data = context;
      callback = callback1;
    } in
    let (ok, t) =
      set_watch-Undone get realloc k s.io_poller fd allocated context fields free keeps well small
        new absent in
    let stored = put-at s.memory (context + 40) fiber in
    let next : Scheduler × Control = dispatch (save_context fiber s.scheduler) in
    let quiet : is_active next.0 fiber ≡ false =
      resumes-waiter fiber (save_context fiber s.scheduler) away in
    (
      ok,
      t.after,
      t.left,
      t.run,
      elim (Bool-cases ok) [
        | inr e ↦ rw (active, t.run, e) ((t.well, t.listed ∙ rw e refl), refl)
        | inl e ↦
            let (r, ran, kept, same) = t.undone e in
            rw (active, t.run, e)
              (
                (t.well, t.listed ∙ rw e refl),
                refl,
                (
                  record s {
                    io_poller = r;
                    scheduler = record next.0 { ready_fibers = next.0.ready_fibers ++ fiber ∷ [] };
                    memory = put s.memory (context + 40) fiber;
                  },
                  rw (ran, stored, quiet) refl,
                  (kept, same),
                  refl,
                ),
              )
      ],
    )
