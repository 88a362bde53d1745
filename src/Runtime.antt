-- ===== src/Runtime.antt =====
-- Source/Runtime.c and Include/Runtime.h: the calls of the fibers, and the turns of the main loop between two
-- runs of a fiber. A function is its address, 0 for null; `perform` is the call of such a function with
-- an argument, by its address. What epoll_wait gives, one attempt after the other, and what the clock shows before each are
-- parameters. `none` is a fatal error.
pub mod Poll
pub mod Sleep
pub mod Main
pub mod Start
pub mod Tests
use mathlib.Core.Option
use pixy.Base.{
  ℕ, zero, suc, Bool, true, false, List, [], ◌∷◌, Option, none, some, ◌==◌, if◌then◌else◌, ◌>>=◌,
}
use pixy.Base.Int.{ℤ}
use pixy.Vector.{Realloc}
use pixy.Scheduler.{
  Scheduler, Control, returns, add_fiber, add_and_run_fiber, yield_current_fiber,
  exit_current_fiber, get_current_fiber, suspend_current_fiber, resume_fiber, get_fiber_count,
}
use pixy.Scheduler
use pixy.Async.{Async, AsyncCall, dispatch_calls}
use pixy.Timer.{Timer, set_timeout, calculate_wait_time}
use pixy.Timer
use pixy.IoPoller.{IoPoller, EpollCtl, EpollWait, reported, interrupted, broken}
use pixy.IoPoller

-- the global variables that the main loop uses, with the interest list of epoll
pub record Runtime (E : Type 0) : Type 0 where
  pub scheduler : Scheduler
  pub io_poller : IoPoller
  pub kernel : E
  pub timer : Timer

module _ {E : Type 0} where
  -- AddFiber; `allocated` is what Fiber_Allocate returns, if it is called
  unfoldable pub add_runtime_fiber :
      Runtime E → (function argument : ℕ) → (allocated : Option ℕ) → Bool × Runtime E
  add_runtime_fiber self function argument allocated =
      let (ok, scheduler) = add_fiber self.scheduler function argument allocated in
      if function == 0 then (true, self) else (ok, record self { scheduler = scheduler })

  -- AddAndRunFiber
  unfoldable pub add_and_run_runtime_fiber :
      Runtime E
      → (function argument : ℕ) → (allocated : Option ℕ) → Option (Bool × Runtime E × Control)
  add_and_run_runtime_fiber self function argument allocated =
      let run : Option (Bool × Runtime E × Control) = do
        (ok, scheduler, control) ← add_and_run_fiber self.scheduler function argument allocated
        some (ok, record self { scheduler = scheduler }, control)
      in if function == 0 then some (true, self, returns) else run

  -- YieldCurrentFiber
  unfoldable pub yield : Runtime E → Option (Runtime E × Control)
  yield self =
      Option.map (λ r. (record self { scheduler = r.0 }, r.1)) (yield_current_fiber self.scheduler)

  -- ExitCurrentFiber
  unfoldable pub exit : Runtime E → Option (Runtime E × Control)
  exit self =
      Option.map (λ r. (record self { scheduler = r.0 }, r.1)) (exit_current_fiber self.scheduler)

  -- SleepCurrentFiber, up to its suspension; the Boolean is its result. `callback` is the address of SleepCallback.
  unfoldable pub sleep :
      Realloc
      → (now : ℕ) → (malloc : Option ℕ) → (callback : ℕ) → Runtime E
      → (timeout : ℕ) → (duration : ℤ) → Option (Bool × Runtime E × Control)
  sleep realloc now malloc callback self timeout duration = do
    fiber ← get_current_fiber self.scheduler
    let (ok, timer) = set_timeout realloc now malloc self.timer timeout duration fiber callback
    let timed = record self { timer = timer }
    (scheduler, control) ← suspend_current_fiber self.scheduler
    some (
        if ok
        then (true, record timed { scheduler = scheduler }, control)
        else (false, timed, returns))

  -- SleepCallback
  unfoldable pub sleep_callback : Runtime E → (argument : ℕ) → Option (Runtime E)
  sleep_callback self argument =
      Option.map (λ s. record self { scheduler = s }) (resume_fiber self.scheduler argument)

  -- Loop: Async_DispatchCalls, by the calls that it makes
  unfoldable pub perform_all :
      (perform : Runtime E → AsyncCall → Option (Runtime E))
      → List AsyncCall
      → Runtime E
      → Option (Runtime E)
  perform_all perform [] self = some self
  perform_all perform (c ∷ cs) self = do after ← perform self c; perform_all perform cs after

  module _ (realloc : Realloc) (epoll_ctl : EpollCtl E) where
    -- Loop: IOPoller_Tick until it is not interrupted; an attempt is what the clock shows, and epoll_wait
    unfoldable pub poll :
        (attempts : List (ℕ × EpollWait E)) → Runtime E → Async → Option (Runtime E × Async)
    poll [] self async = none
    poll ((now, epoll_wait) ∷ attempts) self async = do
      let timeout = calculate_wait_time now self.timer
      (ok, kernel, poller, called) ←
          IoPoller.tick realloc epoll_ctl self.kernel self.io_poller timeout epoll_wait async
      let ticked = record self { kernel = kernel; io_poller = poller }
      let again = poll attempts ticked called
      if ok then some (ticked, called) else elim (epoll_wait timeout kernel) [
        | interrupted ↦ again
        | reported reports ↦ none
        | broken ↦ none
      ]

    -- Loop: what follows the run of the fibers, `none` too if a call of a callback fails; the result says whether the
    -- loop goes on
    unfoldable pub loop_turn :
        (perform : Runtime E → AsyncCall → Option (Runtime E))
        → (attempts : List (ℕ × EpollWait E)) → (now : ℕ) → Runtime E
        → Async
        → Option (Bool × Runtime E × Async)
    unfolding poll perform_all
    loop_turn perform attempts now self async =
        let go_on : Option (Bool × Runtime E × Async) = do
          (polled, called) ← poll attempts self async
          let (calls, made) = dispatch_calls called
          performed ← perform_all perform calls polled
          let (ok, timer, timed) = Timer.tick realloc now performed.timer made
          let (due, empty) = dispatch_calls timed
          let timed_out = record performed { timer = timer }
          woken ← (if ok then perform_all perform due timed_out else none)
          some (true, woken, empty)
        in if get_fiber_count self.scheduler == 0 then some (false, self, async) else go_on
