-- ===== src/Runtime/Tests.antt =====
-- Fiber 1 sleeps, and the main loop polls the poller of the poller's tests.
use pixy.Base.{ℕ, Bool, false, Option, none, ◌≡◌, refl, arith, true, false, List, [], ◌∷◌, some}
use pixy.Base.Int.{pos}
use pixy.Heap.{initialize}
use pixy.Heap.Insert.{initialize-IsHeap}
use pixy.Timer.Tests.{give_zeros, blank_timer, blank_heap}
use pixy.Io.Tests.{running_1}
use pixy.IoPoller.{Report}
use pixy.IoPoller.Tests.{
  Interest, get, nothing, one, one-IsPoller, control, control-IsEpoll, no_calls, pool,
}
use pixy.Io.{System, done, retry}
use pixy.ThreadPool.{ThreadPool, locking}
use pixy.ThreadPool.Setup
use pixy.MemoryPool
use pixy.MemoryPool.{allocate_block}
use pixy.Vector
use pixy.Vector.{set_length, resize, get_length, smear}
use pixy.Base.Lists.{get_back}
use pixy.IoPoller.{IoPoller, set_watch, fit_fd, get_event}
use pixy.IoPoller
use pixy.Runtime.Main.{Program, main_begin}
use pixy.Runtime.Start.{Begun, main_begin-Begun}
use pixy.Runtime.{Runtime, sleep}
use pixy.Runtime.Poll.{Settled, poll-Settled}
use pixy.Runtime.Sleep.{Slept, sleep-Slept}

abbrev begun : Runtime Interest
begun = record { scheduler = running_1; io_poller = one; kernel = nothing; timer = blank_timer }

abbrev readable_3 : List Report
readable_3 = record { event = 1000; readable_now = true; writable_now = false; failed = false } ∷ []

poll-Settled_example :
    Settled control get control-IsEpoll give_zeros begun readable_3 (5 ∷ 7 ∷ []) 9 no_calls
poll-Settled_example =
    poll-Settled control get control-IsEpoll give_zeros begun readable_3 (5 ∷ 7 ∷ []) 9 no_calls
      pool one-IsPoller refl

sleep-Slept_example :
    Slept give_zeros 106 500
      (some 64)
      begun
      16
      (pos 30)
      1
      (sleep give_zeros 500 (some 64) 106 begun 16 (pos 30))
unfolding initialize
sleep-Slept_example =
    sleep-Slept give_zeros 106 500 (some 64) begun 16 (pos 30) 1 refl refl
      (initialize-IsHeap blank_timer.due_time blank_heap) refl (λ s i e p. absurd (omega arith))

-- every system call succeeds
abbrev fine : System ℕ
fine = record {
  system_call = λ w call. (done 0, w);
  wait_for_fd = λ w fd condition timeout. (none, w);
  so_error = λ w fd. 0;
}

abbrev threads_blank : ThreadPool
threads_blank = record {
  work_list = [];
  stop_signal = 1;
  first = locking;
  second = locking;
  pipe = [];
  works = λ w. record { function = 0; argument = 0; user_data = 0; callback = 0 };
}

abbrev program : Program Interest ℕ
program = record { runtime = begun; thread_pool = threads_blank; memory = λ i. 77; world = 0 }

abbrev fresh : Option IoPoller
fresh = IoPoller.initialize one

abbrev fresh_poller : IoPoller
fresh_poller = elim fresh [ none ↦ one | some p ↦ p ]

fresh_poller-initialize : IoPoller.initialize one ≡ some fresh_poller
unfolding IoPoller.initialize MemoryPool.initialize
fresh_poller-initialize = refl

abbrev set_up : Option (Bool × IoPoller × ThreadPool × ℕ)
set_up =
    Setup.initialize fine 1 give_zeros (some 65536) 107 0 fresh_poller threads_blank 3000 3100
      (3, 4)

abbrev watching : Bool × IoPoller × ThreadPool × ℕ
watching = elim set_up [ none ↦ (false, one, threads_blank, 0) | some r ↦ r ]

set_up-watching : set_up ≡ some (true, watching.1, watching.2, watching.3)
unfolding Setup.initialize retry set_watch fit_fd get_event allocate_block set_length resize
    IoPoller.initialize MemoryPool.initialize get_length Vector.initialize smear get_back
set_up-watching = refl

main_begin-Begun_example :
    (p : Program Interest ℕ) × (main_begin give_zeros fine 1
        (some 65536)
        (some 9)
        107
        3000
        3100
        108
        (3, 4)
        program
        4000
        1
        5000
      ≡ some p)
    × Begun give_zeros fine 1
        (some 65536)
        107
        3000
        3100
        108
        (3, 4)
        program
        4000
        1
        5000
        some
        (λ r h. refl)
        (some 9)
        p
main_begin-Begun_example =
    main_begin-Begun give_zeros fine 1 (some 65536) 107 3000 3100 108 (3, 4) program 4000 1 5000
      some (λ r h. refl) (some 9) fresh_poller watching.1 watching.2 watching.3
      fresh_poller-initialize set_up-watching
