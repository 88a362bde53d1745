-- ===== src/Io/Wait.antt =====
-- WaitForFD of Source/IO.c, cut where it suspends its fiber, and its three callbacks. A context is the address
-- of the structure that WaitForFD has on its stack; `memory` has the words of the fields that only this file
-- uses, by address. The layouts are those of x86-64: a watch is of 40 bytes, a timeout of 32, a pointer of 8.
use pixy.Base.{ℕ, ◌+◌, Bool, true, false, Option, some, ◌==◌, if◌then◌else◌, ◌>>=◌}
use pixy.Base.Int.{ℤ, pos, negsuc}
use pixy.Vector.{Realloc}
use pixy.Scheduler.{Scheduler, Control, get_current_fiber, suspend_current_fiber, resume_fiber}
use pixy.Timer.{Timer, set_timeout, clear_timeout}
use pixy.IoPoller.{IoPoller, IoCondition, set_watch, clear_watch, put}
use pixy.Io.{eintr}

-- the global variables, the contexts, and errno
pub record World : Type 0 where
  pub scheduler : Scheduler
  pub io_poller : IoPoller
  pub timer : Timer
  pub memory : ℕ → ℕ
  pub errno : ℕ

-- the offsets of the fields of a context
pub record Layout : Type 0 where
  pub io_watch : ℕ
  pub timeout : ℕ
  pub fiber : ℕ
  pub ok : ℕ
  pub error_number : ℕ

-- the context of a wait without a time limit, in WaitForFD and in WaitForFDCallback1: where the fiber is
abbrev pub endless_fiber : ℕ
endless_fiber = 40

-- the context of a wait with a time limit, in WaitForFD and in WaitForFDCallback2
abbrev pub limited : Layout
limited = record { io_watch = 0; timeout = 40; fiber = 72; ok = 80; error_number = 84 }

-- the context in WaitForFDCallback3
abbrev pub callback3_layout : Layout
callback3_layout = record { io_watch = 8; timeout = 48; fiber = 0; ok = 80; error_number = 84 }

-- WaitForFD returns false at once, or suspends its fiber
pub data Started : Type 0 where
  refused : World → Started
  suspended : World → Control → Started

-- Scheduler_SuspendCurrentFiber
unfoldable pub suspend : World → Option Started
suspend self = do
  (scheduler, control) ← suspend_current_fiber self.scheduler
  some (suspended (record self { scheduler = scheduler }) control)

-- the addresses of the callbacks
module _ (realloc : Realloc) (callback1 callback2 callback3 : ℕ) where
  -- WaitForFD, for a timeout that is negative
  unfoldable pub wait_endless :
      (allocated : Option ℕ) → World → (context fd : ℕ) → IoCondition → Option Started
  unfolding suspend
  wait_endless allocated self context fd condition = do
    fiber ← get_current_fiber self.scheduler
    (ok, poller) ←
        set_watch realloc allocated self.io_poller context fd
          (record { condition = condition; user_data = context; callback = callback1 })
    let watched = record self {
      io_poller = poller;
      memory = put self.memory (context + endless_fiber) fiber;
    }
    if ok then suspend watched else some (refused watched)

  -- WaitForFD, for another timeout: once the watch is set
  unfoldable pub limit_wait :
      (now : ℕ) → (malloc : Option ℕ) → World → (context delay : ℕ) → Option Started
  unfolding suspend
  limit_wait now malloc self context delay =
      let (ok, timer) =
        set_timeout realloc now malloc self.timer (context + limited.timeout) (pos delay) context
          callback3 in
      let timed = record self { timer = timer } in
      let cleared : Option Started = do
        poller ← clear_watch self.io_poller context
        some (refused (record timed { io_poller = poller }))
      in if ok then suspend timed else cleared

  -- WaitForFD, for another timeout
  unfoldable pub wait_limited :
      (allocated : Option ℕ)
      → (now : ℕ) → (malloc : Option ℕ) → World
      → (context fd : ℕ) → IoCondition
      → (delay : ℕ) → Option Started
  unfolding limit_wait
  wait_limited allocated now malloc self context fd condition delay = do
    fiber ← get_current_fiber self.scheduler
    (ok, poller) ←
        set_watch realloc allocated self.io_poller context fd
          (record { condition = condition; user_data = context; callback = callback2 })
    let watched = record self {
      io_poller = poller;
      memory = put self.memory (context + limited.fiber) fiber;
    }
    if ok then limit_wait now malloc watched context delay else some (refused watched)

  -- WaitForFD, up to its suspension
  unfoldable pub wait_for_fd :
      (allocated : Option ℕ)
      → (now : ℕ) → (malloc : Option ℕ) → World
      → (context fd : ℕ) → IoCondition
      → (timeout : ℤ) → Option Started
  unfolding wait_endless wait_limited
  wait_for_fd allocated now malloc self context fd condition (negsuc n) =
      wait_endless allocated self context fd condition
  wait_for_fd allocated now malloc self context fd condition (pos delay) =
      wait_limited allocated now malloc self context fd condition delay

-- WaitForFD with a time limit, behind its suspension; without one it returns true
unfoldable pub wait_end : World → (context : ℕ) → Bool × World
wait_end self context =
    if self.memory (context + limited.ok) == 0
    then (false, record self { errno = self.memory (context + limited.error_number) })
    else (true, self)

-- IOPoller_ClearWatch and Scheduler_ResumeFiber, in each callback
unfoldable pub wake : World → (watch fiber : ℕ) → Option World
wake self watch fiber = do
  poller ← clear_watch self.io_poller watch
  scheduler ← resume_fiber self.scheduler fiber
  some (record self { io_poller = poller; scheduler = scheduler })

-- WaitForFDCallback1
unfoldable pub wait_for_fd_callback1 : World → (context : ℕ) → Option World
unfolding wake
wait_for_fd_callback1 self context = wake self context (self.memory (context + endless_fiber))

-- WaitForFDCallback2; the timer and the flag are no part of the poller and the scheduler
unfoldable pub wait_for_fd_callback2 : World → (context : ℕ) → Option World
unfolding wake
wait_for_fd_callback2 self context =
    wake
      (record self {
        timer = clear_timeout self.timer (context + limited.timeout);
        memory = put self.memory (context + limited.ok) 1;
      })
      (context + limited.io_watch) (self.memory (context + limited.fiber))

-- WaitForFDCallback3, whose structure has the fields of a context in another order
unfoldable pub wait_for_fd_callback3 : World → (context : ℕ) → Option World
unfolding wake
wait_for_fd_callback3 self context =
    wake
      (record self {
        memory =
            put (put self.memory (context + callback3_layout.ok) 0)
              (context + callback3_layout.error_number) eintr;
      })
      (context + callback3_layout.io_watch) (self.memory (context + callback3_layout.fiber))
