-- ===== src/Runtime/Start.antt =====
-- The start of main in Source/Runtime.c: the first fiber, or none.
use pixy.Timer
use pixy.Base.{
  ℕ, suc, ◌∙◌, ◌+◌, ◌≡◌, refl, arith, true, false, List, [], ◌∷◌, Option, none, some, ◌==◌,
}
use pixy.Base.Lists.{get_back}
use pixy.Vector.{Realloc}
use pixy.Scheduler.{Scheduler, returns, add_fiber, launch, get_fiber_count}
use pixy.Scheduler
use pixy.Async.{Async, AsyncCall}
use pixy.IoPoller.{IoPoller, EpollCtl, EpollWait, put}
use pixy.IoPoller
use pixy.IoPoller.Change.{put-at}
use pixy.ThreadPool.{ThreadPool, start}
use pixy.ThreadPool.Setup
use pixy.Io.{System}
use pixy.Runtime.{Runtime, loop_turn}
use pixy.Runtime.Main.{Program, loop, initialize_all, fill_main, main_begin, fiber_main_wrapper}

module _ {E W : Type 0} (realloc : Realloc) (system : System W) (tries : ℕ) (event : Option ℕ)
    (callback pool watch wrapper : ℕ) (fds : ℕ × ℕ) (self : Program E W) (context argc argv : ℕ)
    (tick_all : Runtime E → Option (Runtime E))
    (quiet : (r : Runtime E)
      → Scheduler.tick r.scheduler ≡ some (r.scheduler, returns)
      → tick_all r ≡ some r) where
  -- what main has before Loop, with the first fiber that Fiber_Allocate gives
  abbrev pub Begun : (fiber : Option ℕ) → Program E W → Type 0
  Begun (some f) begun =
      (begun.runtime.scheduler.ready_fibers ≡ f ∷ [])
      × (begun.runtime.scheduler.fiber_count ≡ 1)
      × (begun.runtime.scheduler.fibers f
          ≡ record { context = false; function = wrapper; argument = context })
      × ((fiber_main : ℕ → ℕ → ℕ)
          → (fiber_main_wrapper fiber_main begun context).memory (context + 16)
            ≡ fiber_main argc argv)
  Begun none begun =
      (begun.memory (context + 16) ≡ self.memory (context + 16))
      × ((epoll_ctl : EpollCtl E) (perform : Runtime E → AsyncCall → Option (Runtime E))
            (attempts : Runtime E → List (ℕ × EpollWait E)) (now : Runtime E → ℕ) (n : ℕ)
            (async : Async)
          → loop realloc tick_all epoll_ctl perform attempts now (suc n) begun.runtime async
            ≡ some (begun.runtime, async))

  abbrev begun_with : (fiber : Option ℕ) → IoPoller → ThreadPool → W → Program E W
  begun_with fiber poller threads after = record self {
    runtime = record self.runtime {
      scheduler = (add_fiber (Scheduler.initialize self.runtime.scheduler) wrapper context fiber).1;
      io_poller = poller;
      timer = Timer.initialize self.runtime.timer;
    };
    thread_pool = start threads;
    memory = fill_main self.memory context argc argv;
    world = after;
  }

  filled :
      let m = fill_main self.memory context argc argv in
      (m (context + 0) ≡ argc)
      × (m (context + 8) ≡ argv)
      × (m (context + 16) ≡ self.memory (context + 16))
  unfolding fill_main
  filled = (ground arith, ground arith, ground arith)

  main_begin-with :
      (fiber : Option ℕ) (fresh poller : IoPoller) (threads : ThreadPool) (after : W)
      → IoPoller.initialize self.runtime.io_poller ≡ some fresh
      → Setup.initialize system tries realloc event callback self.world fresh self.thread_pool pool
          watch fds
        ≡ some (true, poller, threads, after)
      → main_begin realloc system tries event fiber callback pool watch wrapper fds self context
          argc argv
        ≡ some (begun_with fiber poller threads after)
  unfolding main_begin initialize_all fill_main start
  main_begin-with fiber fresh poller threads after readies sets = rw (readies, sets) refl

  -- the first turn of Loop with no fiber
  loop-none :
      (poller : IoPoller) (threads : ThreadPool) (after : W)
      → let b = (begun_with none poller threads after).runtime in
        (epoll_ctl : EpollCtl E) (perform : Runtime E → AsyncCall → Option (Runtime E))
        (attempts : Runtime E → List (ℕ × EpollWait E)) (now : Runtime E → ℕ) (n : ℕ)
        (async : Async)
        → loop realloc tick_all epoll_ctl perform attempts now (suc n) b async ≡ some (b, async)
  unfolding add_fiber get_back Scheduler.initialize Scheduler.tick loop loop_turn get_fiber_count
  loop-none poller threads after epoll_ctl perform attempts now n async =
      rw (quiet (begun_with none poller threads after).runtime refl) refl

  -- Once the poller and the thread pool are initialized, main goes on. With memory for the first fiber, this
  -- fiber alone is ready, it is to call FiberMainWrapper with the context of main, and what FiberMain returns for the
  -- arguments becomes the status. Without that memory, Loop ends at its first turn, if a
  -- Scheduler_Tick that finds no fiber returns with nothing changed, and the status of main is what its stack held before.
  pub main_begin-Begun :
      (fiber : Option ℕ) (fresh poller : IoPoller) (threads : ThreadPool) (after : W)
      → IoPoller.initialize self.runtime.io_poller ≡ some fresh
      → Setup.initialize system tries realloc event callback self.world fresh self.thread_pool pool
          watch fds
        ≡ some (true, poller, threads, after)
      → (begun : Program E W) × (main_begin realloc system tries event fiber callback pool watch
            wrapper fds self context argc argv
          ≡ some begun)
        × Begun fiber begun
  unfolding start add_fiber launch get_back Scheduler.initialize fiber_main_wrapper
  main_begin-Begun (some f) fresh poller threads after readies sets =
      let same : (f == f) ≡ true = ground arith in
      (
        begun_with (some f) poller threads after,
        main_begin-with (some f) fresh poller threads after readies sets,
        (
          refl,
          refl,
          rw same refl,
          λ fiber_main.
              put-at (fill_main self.memory context argc argv) (context + 16) _
              ∙ rw (filled.0, filled.1) refl,
        ),
      )
  main_begin-Begun none fresh poller threads after readies sets = (
    begun_with none poller threads after,
    main_begin-with none fresh poller threads after readies sets,
    (filled.2, loop-none poller threads after),
  )
