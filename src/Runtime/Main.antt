-- ===== src/Runtime/Main.antt =====
-- main, Loop and FiberMainWrapper of Source/Runtime.c. Scheduler_Tick with all that the fibers do until it returns is
-- a parameter, `tick_all`, and so is FiberMain. The context of main is the address of the structure on its
-- stack: the number of arguments, the arguments, and the status, with the offsets of x86-64.
use pixy.Base.{ℕ, zero, suc, ◌+◌, Bool, List, Option, none, some, if◌then◌else◌, ◌>>=◌}
use pixy.Vector.{Realloc}
use pixy.Scheduler.{Scheduler, add_fiber}
use pixy.Scheduler
use pixy.Async.{Async, AsyncCall}
use pixy.Timer
use pixy.Heap
use pixy.IoPoller.{IoPoller, EpollCtl, EpollWait, put}
use pixy.IoPoller
use pixy.ThreadPool.{ThreadPool, start, stop, stop_end}
use pixy.ThreadPool.Setup
use pixy.Io.{System}
use pixy.Runtime.{Runtime, loop_turn}

-- the global variables, the memory of main, and the world of the system calls
pub record Program (E W : Type 0) : Type 0 where
  pub runtime : Runtime E
  pub thread_pool : ThreadPool
  pub memory : ℕ → ℕ
  pub world : W

module _ {E : Type 0} (realloc : Realloc) where
  -- Loop on fuel, behind the initialization of its calls; one turn of fuel for each return of Scheduler_Tick
  unfoldable pub loop :
      (tick_all : Runtime E → Option (Runtime E))
      → EpollCtl E
      → (perform : Runtime E → AsyncCall → Option (Runtime E))
      → (attempts : Runtime E → List (ℕ × EpollWait E)) → (now : Runtime E → ℕ) → (fuel : ℕ)
      → Runtime E
      → Async
      → Option (Runtime E × Async)
  unfolding loop_turn
  loop tick_all epoll_ctl perform attempts now zero self async = none
  loop tick_all epoll_ctl perform attempts now (suc n) self async = do
    ticked ← tick_all self
    (goes_on, turned, left) ←
        loop_turn realloc epoll_ctl perform (attempts ticked) (now ticked) ticked async
    let again = loop tick_all epoll_ctl perform attempts now n turned left
    if goes_on then again else some (turned, left)

-- main: the initialization of the scheduler, the poller and the timer
unfoldable pub initialize_all : {E : Type 0} → Runtime E → Option (Runtime E)
initialize_all self = do
  poller ← IoPoller.initialize self.io_poller
  some (record self {
    scheduler = Scheduler.initialize self.scheduler;
    io_poller = poller;
    timer = Timer.initialize self.timer;
  })

-- main: the context
unfoldable pub fill_main : (ℕ → ℕ) → (context argc argv : ℕ) → ℕ → ℕ
fill_main memory context argc argv = put (put memory context argc) (context + 8) argv

module _ {E W : Type 0} where
  -- main, up to Loop; `wrapper` is the address of FiberMainWrapper. That Scheduler_AddFiber may fail is not
  -- seen.
  unfoldable pub main_begin :
      Realloc
      → System W
      → (tries : ℕ) → (event fiber : Option ℕ) → (callback pool watch wrapper : ℕ) → (fds : ℕ × ℕ)
      → Program E W
      → (context argc argv : ℕ) → Option (Program E W)
  unfolding initialize_all fill_main start
  main_begin realloc system tries event fiber callback pool watch wrapper fds self context argc
        argv =
      do
        ready ← initialize_all self.runtime
        (ok, poller, threads, after) ←
            Setup.initialize system tries realloc event callback self.world ready.io_poller
              self.thread_pool pool watch fds
        let (added, scheduler) = add_fiber ready.scheduler wrapper context fiber
        let begun = record self {
          runtime = record ready { io_poller = poller; scheduler = scheduler };
          thread_pool = start threads;
          memory = fill_main self.memory context argc argv;
          world = after;
        }
        if ok then some begun else none

  -- FiberMainWrapper
  unfoldable pub fiber_main_wrapper :
      (fiber_main : (argc argv : ℕ) → ℕ) → Program E W → (argument : ℕ) → Program E W
  fiber_main_wrapper fiber_main self argument = record self {
    memory =
        put self.memory (argument + 16)
          (fiber_main (self.memory (argument + 0)) (self.memory (argument + 8)));
  }

  -- main behind Loop: the stop signal of ThreadPool_Stop
  unfoldable pub main_stop : (woken : Bool × Bool) → Program E W → Program E W
  unfolding stop
  main_stop woken self = record self { thread_pool = stop self.thread_pool woken }

  -- main behind Loop, once the threads have ended: the status, and what is freed by the scheduler, the poller and
  -- the timer, in order
  unfoldable pub main_end :
      System W
      → (tries : ℕ) → EpollCtl E
      → (fds : ℕ × ℕ) → Program E W
      → (context : ℕ) → Option (ℕ × List ℕ × List ℕ × List ℕ × Program E W)
  unfolding stop_end
  main_end system tries epoll_ctl fds self context = do
    threads ← stop_end self.thread_pool
    (kernel, poller, after) ←
        Setup.finalize system tries epoll_ctl self.runtime.kernel self.runtime.io_poller self.world
          fds
    fibers ← Scheduler.finalize self.runtime.scheduler
    let ended = record self {
      runtime = record self.runtime { kernel = kernel; io_poller = poller };
      thread_pool = threads;
      world = after;
    }
    some (
      self.memory (context + 16),
      fibers,
      IoPoller.finalize poller,
      Heap.finalize self.runtime.timer.timeout_heap,
      ended,
    )
