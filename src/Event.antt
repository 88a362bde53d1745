-- ===== src/Event.antt =====
-- Source/Event.c and Include/Event.h. A waiter is its fiber, since a waiter stands on the stack of the fiber
-- that it names; the waiter list is a sequence of fibers. Behind its suspension Event_WaitFor only
-- returns. A null event makes each call return at once, and is not modelled.
pub mod Wakes
pub mod Tests
use mathlib.Core.Option
use pixy.Base.{ℕ, Option, none, some, List, [], ◌∷◌, ◌++◌, ◌>>=◌}
use pixy.Scheduler.{Scheduler, Control, get_current_fiber, suspend_current_fiber, resume_fiber}

pub record Event : Type 0 where
  pub waiters : List ℕ

-- Event_Initialize
unfoldable pub initialize : Event
initialize = record { waiters = [] }

-- Event_WaitFor, up to its suspension
unfoldable pub wait_for : Event → Scheduler → Option (Event × Scheduler × Control)
wait_for self scheduler = do
  f ← get_current_fiber scheduler
  (s, c) ← suspend_current_fiber scheduler
  some (record { waiters = self.waiters ++ f ∷ [] }, s, c)

-- Event_Trigger
unfoldable pub trigger : Event → Scheduler → Option (Event × Scheduler)
trigger self scheduler = elim self.waiters [
  | [] ↦ some (self, scheduler)
  | f ∷ rest ↦ Option.map (λ s. (record { waiters = rest }, s)) (resume_fiber scheduler f)
]
