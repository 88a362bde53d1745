-- ===== src/Io/Tests.antt =====
-- Runs of the I/O calls: a read that is interrupted once and would block once, a wait for a descriptor, and a
-- name that a worker looks up.
use pixy.Base.{
  ℕ, zero, suc, ◌+◌, ◌-◌, ◌<◌, ◌≡◌, refl, arith, true, false, ◌||◌, [], ◌∷◌, none, some, ◌==◌,
}
use pixy.Base.Int.{ℤ, pos, negsuc}
use pixy.Vector
use pixy.Vector.{Realloc, get_length}
use pixy.Scheduler.{Scheduler, Control, get_current_fiber, suspend_current_fiber, main_loop}
use pixy.Timer.{Timer}
use pixy.ThreadPool.{locking}
use pixy.IoPoller.{IoPoller, readable, writable}
use pixy.IoPoller.Tests.{get, nothing, one}
use pixy.Io.{
  System, Outcome, done, failed, sys_read, read, io_loop, eintr, is_blocked, retry, round_end,
}
use pixy.Io.Ends.{Ends}
use pixy.Io.Returns.{io_loop-Ends-io_loop, io_loop-returns, io_loop-Reason, Reason}
use pixy.Io.Wait.{
  World, Started, suspended, suspend, wait_for_fd, wait_limited, limit_wait, wait_for_fd_callback3,
}
use pixy.Io.Limited.{Limited, wait_for_fd-Limited}
use pixy.Heap.{initialize, insert_node}
use pixy.Heap.Whole.{contains}
use pixy.Heap.Insert.{initialize-IsHeap, IsFresh}
use pixy.Timer.Tests.{give_zeros, blank_timer, blank_heap, two_timeouts}
use pixy.Timer.{set_timeout}
use pixy.Io.Woken.{Endless, wait_for_fd-wakes}
use pixy.Io.Lost.{callback3-lost}
use pixy.IoPoller.Absent.{IsAbsent}
use pixy.IoPoller.Undone.{IsWell}
use pixy.IoPoller.Fit.{watches}
use pixy.IoPoller.Tests.{pooled_one, pooled_one-IsPoller, pooled_one-IsFitting, pooled_one-IsStored}
use pixy.MemoryPool.Tests.{free_slots}
use pixy.Vector.Tests.{grow, grow-IsKeeping}
use pixy.Base.{◌&&◌, Bool, List, Option}
use pixy.Base.Lists.{has}
use pixy.IoPoller.{set_watch, fit_fd, get_event}
use pixy.Io.Work.{Office, get_addr_info, get_addr_info_wrapper, get_addr_info_end}
use pixy.Io.Names.{get_addr_info-Posted, Posted}

-- how many system calls were made
abbrev reply : ℕ → Outcome × ℕ
reply zero = (failed 4, 1)
reply (suc zero) = (failed 11, 2)
reply (suc (suc n)) = (done 5, 3)

abbrev kernel : System ℕ
kernel = record {
  system_call = λ w call. reply w;
  wait_for_fd = λ w fd condition timeout. (none, w);
  so_error = λ w fd. 0;
}

abbrev forever : ℤ
forever = negsuc 0

reads : read kernel 4 4 7 4096 100 forever 0 ≡ some (done 5, 3)
unfolding read io_loop retry round_end
reads = refl

io_loop-Ends-io_loop_example :
    ((rounds tries : ℕ)
      → read kernel rounds tries 7 4096 100 forever 0 ≡ some (done 5, 3)
      → Ends kernel (sys_read 7 4096 100) 7 readable forever 0 (done 5) 3)
    × (Ends kernel (sys_read 7 4096 100) 7 readable forever 0 (done 5) 3
        → (rounds : ℕ) × (tries : ℕ) × (read kernel rounds tries 7 4096 100 forever 0
            ≡ some (done 5, 3)))
unfolding read
io_loop-Ends-io_loop_example =
    io_loop-Ends-io_loop kernel (sys_read 7 4096 100) 7 readable forever 0 (done 5) 3

io_loop-Reason_example : Reason kernel (sys_read 7 4096 100) 7 readable forever (done 5) 3
unfolding read
io_loop-Reason_example =
    io_loop-Reason kernel (sys_read 7 4096 100) 7 readable forever 4 4 0 (done 5) 3 reads

replies_less :
    (w v : ℕ) (e : ℕ)
    → reply w ≡ (failed e, v)
    → ((e == eintr) || is_blocked e) ≡ true
    → 2 - v < 2 - w
replies_less zero v e h b = ground (arith, h)
replies_less (suc zero) v e h b = ground (arith, h)
replies_less (suc (suc n)) v e h b = absurd (ground (arith, h))

io_loop-returns_example :
    (o : Outcome) × (u : ℕ) × (read kernel 3 3 7 4096 100 forever 0 ≡ some (o, u))
unfolding read
io_loop-returns_example =
    io_loop-returns kernel (sys_read 7 4096 100) 7 readable forever (λ w. 2 - w) replies_less
      (λ w v h. ground (arith, h)) 3 3 0 (omega arith) (omega arith)

abbrev pub running_1 : Scheduler
running_1 = record {
  active_fiber = some 1;
  ready_fibers = 2 ∷ [];
  dead_fibers = [];
  fiber_count = 2;
  fibers = λ f. record { context = true; function = 0; argument = 0 };
}

abbrev no_timer : Timer
no_timer = record {
  timeout_heap = record {
    segment_vector = Vector.initialize 8;
    number_of_segments = 0;
    number_of_slots = 0;
    number_of_nodes = 0;
    segments = λ i. 0;
    slots = λ i j. 0;
    slot_number = λ i. 0;
  };
  due_time = λ t. 0;
  user_data = λ t. 0;
  callback = λ t. 0;
}

abbrev running : World
running = record {
  scheduler = running_1;
  io_poller = one;
  timer = no_timer;
  memory = λ i. 0;
  errno = 0;
}

-- the same with the poller whose vector is too short for descriptor 20
abbrev short : World
short = record running { io_poller = pooled_one }

pooled_one-IsWell : IsWell get nothing pooled_one free_slots
pooled_one-IsWell = record {
  kept = pooled_one-IsPoller;
  fitting = pooled_one-IsFitting;
  stored = pooled_one-IsStored;
}

unwatched : has 600 (watches pooled_one readable 20) ≡ false
unwatched = refl

wait_for_fd-wakes_example :
    (ok : Bool) × (p : IoPoller) × (left : ℕ → List ℕ) × (set_watch grow none pooled_one 600 20
        (record { condition = readable; user_data = 600; callback = 101 })
      ≡ some (ok, p))
    × Endless get nothing short 1 600 20 readable left ok
        (wait_for_fd grow 101 102 103 none 0 none short 600 20 readable forever)
wait_for_fd-wakes_example =
    wait_for_fd-wakes get grow 101 102 103 nothing short 1 600 20 readable none none free_slots 0 0
      refl refl grow-IsKeeping pooled_one-IsWell (omega arith) (λ c e. absurd (ground (arith, e)))
      unwatched

abbrev timed : World
timed = record short { timer = blank_timer }

timed-unset : contains blank_timer.timeout_heap 640 ≡ false
unfolding initialize
timed-unset = refl

timed-IsFresh : IsFresh blank_timer.timeout_heap (some 64)
unfolding initialize
timed-IsFresh s i e p = absurd (omega arith)

wait_for_fd-Limited_example :
    (ok : Bool) × (p : IoPoller) × (left : ℕ → List ℕ) × (set_watch grow none pooled_one 600 20
        (record { condition = readable; user_data = 600; callback = 102 })
      ≡ some (ok, p))
    × Limited get nothing timed 1 600 20 readable 0 30 left
        (ok && (set_timeout grow 0 (some 64) blank_timer 640 (pos 30) 600 103).0)
        (wait_for_fd grow 101 102 103 none 0 (some 64) timed 600 20 readable (pos 30))
wait_for_fd-Limited_example =
    wait_for_fd-Limited get grow 101 102 103 nothing timed 1 600 20 readable none (some 64)
      free_slots 0 30 refl refl grow-IsKeeping pooled_one-IsWell (omega arith)
      (λ c e. absurd (ground (arith, e))) unwatched
      (initialize-IsHeap blank_timer.due_time blank_heap) timed-unset timed-IsFresh

-- descriptor 3 has an event in the vector, with the watch 500
abbrev timed_3 : World
timed_3 = record running { timer = two_timeouts }

one-IsAbsent : IsAbsent 608 one
one-IsAbsent e readable = ground arith
one-IsAbsent e writable = ground arith

-- WaitForFD suspends the fiber of the context 600
abbrev started_3 : Option Started
started_3 = wait_for_fd give_zeros 101 102 103 none 0 (some 64) timed_3 600 3 readable (pos 30)

abbrev world_of : Option Started → World
world_of (some (suspended t c)) = t
world_of r = timed_3

abbrev control_of : Option Started → Control
control_of (some (suspended t c)) = c
control_of r = main_loop

suspends_3 : started_3 ≡ some (suspended (world_of started_3) (control_of started_3))
unfolding wait_for_fd wait_limited limit_wait suspend get_current_fiber suspend_current_fiber
    set_watch fit_fd get_event get_length set_timeout insert_node
suspends_3 = refl

callback3-lost_example :
    ((world_of started_3).timer.callback 640 ≡ 103)
    × ((world_of started_3).timer.user_data 640 ≡ 600)
    × (wait_for_fd_callback3 (world_of started_3) 600 ≡ none)
callback3-lost_example =
    callback3-lost give_zeros 101 102 103 timed_3 (world_of started_3) 600 3 readable none (some 64)
      0 30 (control_of started_3) one-IsAbsent suspends_3

abbrev office : Office
office = record {
  scheduler = running_1;
  thread_pool = record {
    work_list = 900 ∷ [];
    stop_signal = 1;
    first = locking;
    second = locking;
    pipe = [];
    works = λ w. record { function = 0; argument = 0; user_data = 0; callback = 0 };
  };
  memory = λ i. 0;
}

abbrev sum : ℕ → ℕ → ℕ → ℕ → ℕ
sum a b c d = a + b + c + d

get_addr_info-Posted_example :
    (t : Office) × (c : Control) × (get_addr_info 104 105 (true, false) office 2000 2100 10 20 30 40
      ≡ some (t, c))
    × Posted 104 105 (true, false) office 1 2000 2100 t
    × (get_addr_info_end (get_addr_info_wrapper sum t 2000) 2000 ≡ 100)
get_addr_info-Posted_example =
    get_addr_info-Posted 104 105 (true, false) office 1 2000 2100 refl refl 10 20 30 40 sum
