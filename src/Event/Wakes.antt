-- ===== src/Event/Wakes.antt =====
-- An event wakes its waiters one by one, the one that waits longest first.
use mathlib.Core.List.{append-nil, append_assoc}
use pixy.Base.{
  ℕ, zero, suc, ◌≡◌, refl, ◌∙◌, ap, sym, arith, inl, inr, true, false, List, [], ◌∷◌, ◌++◌, Option,
  some, ◌>>=◌,
}
use pixy.Base.Lists.{length, has, List-cases}
use pixy.Scheduler.{
  Scheduler, Control, is_active, resume_fiber, get_current_fiber, suspend_current_fiber, dispatch,
  save_context,
}
use pixy.Event.{Event, wait_for, trigger}

-- `n` calls of Event_Trigger in a row
abbrev pub triggers : ℕ → Event → Scheduler → Option (Event × Scheduler)
triggers zero e s = some (e, s)
triggers (suc n) e s = do (f, t) ← trigger e s; triggers n f t

-- Where no waiter is the running fiber, each call of Event_Trigger makes the waiter that is first in
-- the list ready: `length front` calls take the waiters `front` from the list, and put them behind
-- the ready fibers in the order in which they waited.
pub triggers-ready :
    (front back : List ℕ) (s : Scheduler)
    → ((f : ℕ) → has f front ≡ true → is_active s f ≡ false)
    → triggers (length front) (record { waiters = front ++ back }) s
      ≡ some (record { waiters = back }, record s { ready_fibers = s.ready_fibers ++ front })
unfolding trigger resume_fiber
triggers-ready [] back s away =
    ap (λ fs. some (record { waiters = back }, record s { ready_fibers = fs }))
      (sym (append-nil s.ready_fibers))
triggers-ready (f ∷ front) back s away =
    let e : is_active s f ≡ false = away f (ground arith) in
    let resumed = record s { ready_fibers = s.ready_fibers ++ f ∷ [] } in
    rw (e, resume_fiber)
      (triggers-ready front back resumed (λ g h. away g (ground (arith, h)))
        ∙ ap (λ fs. some (record { waiters = back }, record s { ready_fibers = fs }))
            (append_assoc s.ready_fibers (f ∷ []) front))

pub resumes-waiter :
    (f : ℕ) (s : Scheduler) → has f s.ready_fibers ≡ false → is_active (dispatch s).0 f ≡ false
unfolding dispatch
resumes-waiter f s away = elim (List-cases s.ready_fibers) [
  | inl e ↦ ground (arith, e)
  | inr (g, rest, e) ↦ ground (arith, e, away)
]

-- Event_WaitFor lets the running fiber wait behind the others and runs the next ready fiber, if there
-- is one; a call of Event_Trigger behind it, on an event without other waiters, puts the fiber that
-- waited behind the ready ones and leaves the event as it was.
pub wait_for-trigger :
    (e : Event) (s : Scheduler) (f : ℕ)
    → e.waiters ≡ []
    → s.active_fiber ≡ some f
    → has f s.ready_fibers ≡ false
    → (c : Control) × (t : Scheduler) × (wait_for e s ≡ some (record { waiters = f ∷ [] }, t, c))
      × (trigger (record { waiters = f ∷ [] }) t
          ≡ some (record { waiters = [] }, record t { ready_fibers = t.ready_fibers ++ f ∷ [] }))
      × ((t, c) ≡ dispatch (save_context f s))
unfolding wait_for get_current_fiber suspend_current_fiber trigger resume_fiber save_context
wait_for-trigger e s f none_waits active away =
    let next = dispatch (save_context f s) in
    let quiet : is_active next.0 f ≡ false = resumes-waiter f (save_context f s) away in
    (next.1, next.0, rw (active, none_waits) refl, rw (quiet, resume_fiber) refl, refl)
