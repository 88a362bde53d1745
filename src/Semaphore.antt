-- ===== src/Semaphore.antt =====
-- Source/Semaphore.c and Include/Semaphore.h. A waiter is its fiber, since a waiter stands on the stack of
-- the fiber that it names; the two waiter lists are sequences of fibers. Semaphore_Down and
-- Semaphore_Up are cut where they suspend the caller: `down` runs up to there, and `down_wake` goes
-- on when the fiber is run again. `none` is a failed assertion, or the removal of an item that is
-- not in the list. A null semaphore makes each call return at once, and is not modelled.
pub mod Invariant
pub mod Moves
pub mod Sides
pub mod Down
pub mod Up
pub mod Others
pub mod Run
pub mod Tests
use mathlib.Core.Option
use pixy.Base.{
  ℕ, Bool, true, false, ◌&&◌, ◌||◌, Option, none, some, List, [], ◌∷◌, ◌++◌, if◌then◌else◌, ◌>>=◌,
}
use pixy.Base.Lists.{take_out}
use pixy.Base.Int.{ℤ, pos, ◌+ℤ◌, ◌-ℤ◌, ltb_ℤ, ◌==ℤ◌}
use pixy.Scheduler.{
  Scheduler, Control, returns, get_current_fiber, suspend_current_fiber, resume_fiber,
  unresume_fiber,
}

pub record Semaphore : Type 0 where
  pub value : ℤ
  pub min_value : ℤ
  pub max_value : ℤ
  pub down_waiters : List ℕ
  pub up_waiters : List ℕ

-- a semaphore and the scheduler of the process
pub record World : Type 0 where
  pub semaphore : Semaphore
  pub scheduler : Scheduler

-- Semaphore_Initialize; `none` is `false` with EINVAL, and nothing is written
pub initialize : (value min_value max_value : ℤ) → Option Semaphore
initialize value min_value max_value =
    if ltb_ℤ value min_value || ltb_ℤ max_value value
    then none
    else some (record {
      value = value;
      min_value = min_value;
      max_value = max_value;
      down_waiters = [];
      up_waiters = [];
    })

-- `if (b && !List_IsEmpty(waiters)) Scheduler_ResumeFiber(front of waiters)`
pub resume_front_if : Bool → List ℕ → Scheduler → Option Scheduler
resume_front_if b [] s = some s
resume_front_if b (f ∷ rest) s = if b then resume_fiber s f else some s

-- the same with Scheduler_UnresumeFiber
pub unresume_front_if : Bool → List ℕ → Scheduler → Option Scheduler
unresume_front_if b [] s = some s
unresume_front_if b (f ∷ rest) s = if b then unresume_fiber s f else some s

abbrev world : Semaphore → Scheduler → World
world m s = record { semaphore = m; scheduler = s }

-- the last statement of Semaphore_Down
pub down_end : Semaphore → Scheduler → Option (World × Control)
down_end m s = do
  t ← resume_front_if (m.value ==ℤ m.max_value -ℤ pos 1) m.up_waiters s
  some (world m t, returns)

-- the last statement of Semaphore_Up
pub up_end : Semaphore → Scheduler → Option (World × Control)
up_end m s = do
  t ← resume_front_if (m.value ==ℤ m.min_value +ℤ pos 1) m.down_waiters s
  some (world m t, returns)

-- Semaphore_Down, up to its return or its suspension
pub down : World → Option (World × Control)
down w =
    let m = w.semaphore in
    let waits : Option (World × Control) = do
      f ← get_current_fiber w.scheduler
      (t, c) ← suspend_current_fiber w.scheduler
      some (world (record m { down_waiters = m.down_waiters ++ f ∷ [] }) t, c)
    in let lowered = record m { value = m.value -ℤ pos 1 } in
      let passes : Option (World × Control) = do
        t ← unresume_front_if (lowered.value ==ℤ m.min_value) m.down_waiters w.scheduler
        down_end lowered t
      in if m.value ==ℤ m.min_value then waits else passes

-- Semaphore_Down, behind its suspension
pub down_wake : World → Option (World × Control)
down_wake w = do
  let m = w.semaphore
  f ← get_current_fiber w.scheduler
  rest ← take_out f m.down_waiters
  let lowered = record m { value = m.value -ℤ pos 1; down_waiters = rest }
  t ← resume_front_if (ltb_ℤ m.min_value lowered.value) rest w.scheduler
  down_end lowered t

-- Semaphore_Up, up to its return or its suspension
pub up : World → Option (World × Control)
up w =
    let m = w.semaphore in
    let waits : Option (World × Control) = do
      f ← get_current_fiber w.scheduler
      (t, c) ← suspend_current_fiber w.scheduler
      some (world (record m { up_waiters = m.up_waiters ++ f ∷ [] }) t, c)
    in let raised = record m { value = m.value +ℤ pos 1 } in
      let passes : Option (World × Control) = do
        t ← unresume_front_if (raised.value ==ℤ m.max_value) m.up_waiters w.scheduler
        up_end raised t
      in if m.value ==ℤ m.max_value then waits else passes

-- Semaphore_Up, behind its suspension
pub up_wake : World → Option (World × Control)
up_wake w = do
  let m = w.semaphore
  f ← get_current_fiber w.scheduler
  rest ← take_out f m.up_waiters
  let raised = record m { value = m.value +ℤ pos 1; up_waiters = rest }
  t ← resume_front_if (ltb_ℤ raised.value m.max_value) rest w.scheduler
  up_end raised t
