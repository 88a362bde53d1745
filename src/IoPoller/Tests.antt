-- ===== src/IoPoller/Tests.antt =====
-- A poller with one event, of descriptor 3, that waits to be told to epoll, and an interest list of entries.
use pixy.Base.{
  Bool, ◌||◌, not, subst, ◌&&◌, ◌+◌, ℕ, ◌≡◌, refl, arith, true, false, List, [], ◌∷◌, Option, none,
  some, if◌then◌else◌, ◌==◌, ltb,
}
use pixy.Base.Int.{negsuc}
use pixy.Base.Lists.{take_out}
use pixy.Vector.{Realloc, get_length}
use pixy.Vector
use pixy.MemoryPool.{MemoryPool, allocate_block}
use pixy.Async.{Async}
use pixy.IoPoller.{
  IoPoller, IoEvent, IoWatch, readable, writable, Flags, no_flags, EpollCtl, EpollWait, reported,
  Op, add, del, modify, clear_watch,
}
use pixy.IoPoller.Kept.{IsEpoll, IsPoller}
use pixy.IoPoller.Change.{clear_watch-IsPoller, clear_watches-Cleared, Cleared}
use pixy.Vector.{Vector}
use pixy.Vector.Tests.{grow, grow-IsKeeping}
use pixy.IoPoller.{fit_fd}
use pixy.IoPoller.Fit.{IsFitting}
use pixy.IoPoller.Set.{Watched}
use pixy.IoPoller.Stored.{InUse, IsStored, set_watch-Stored}
use pixy.MemoryPool.{locate_memory_chunk}
use pixy.MemoryPool.Tests.{half, free_slots, half-IsPool, half-HasSlots}
use pixy.IoPoller.Tick.{tick-Polled, Polled}

-- the interest list, by descriptor
abbrev pub Interest : Type 0
Interest = ℕ → Option (Flags × ℕ)

abbrev pub get : Interest → ℕ → Option (Flags × ℕ)
get k fd = k fd

abbrev told : Op → Flags → ℕ → Option (Flags × ℕ)
told add f p = some (f, p)
told del f p = none
told modify f p = some (f, p)

abbrev pub control : EpollCtl Interest
control k op fd f p = some (λ g. if g == fd then told op f p else (k g))

pub control-IsEpoll : IsEpoll control get
control-IsEpoll = record {
  adds = λ k fd f p h. (_, refl, λ g. refl);
  modifies = λ k fd f p old h. (_, refl, λ g. refl);
  deletes = λ k fd f p old h. (_, refl, λ g. refl);
}

abbrev pub nothing : Interest
nothing fd = none

abbrev pub one_event : IoEvent
one_event = record {
  fd = 3;
  flags = no_flags;
  pending_flags = record { in_flag = true; out_flag = false };
  readers = 500 ∷ [];
  writers = [];
}

abbrev pub pool : MemoryPool
pool = record {
  block_size = 64;
  number_of_slots_per_chunk = 1023;
  usable_chunks = 65536 ∷ [];
  unusable_chunks = [];
  free_slot = λ i. 65568;
  number_of_free_slots = λ i. 1023;
  word = λ i. i + 64;
}

abbrev pub one : IoPoller
one = record {
  event_vector = record { element_size = 8; elements = none; size = 8; length = 4 };
  event_memory_pool = pool;
  dirty_events = 1000 ∷ [];
  events = λ i. if i == 3 then 1000 else 0;
  event = λ a. one_event;
  watch = λ w. record { condition = readable; user_data = 7; callback = 8 };
  event_of = λ w. 1000;
}

pub one-IsPoller : IsPoller get nothing one one.dirty_events
one-IsPoller = record {
  own = λ fd q. ground (arith, q);
  pends = λ fd q. refl;
  known = λ fd. ground arith;
  clean = λ fd q h. absurd (ground (arith, q, h));
  listed = λ a h. ground (arith, h);
  once = (refl, tt);
}

abbrev pub no_calls : Async
no_calls = record {
  call_vector = Vector.initialize 16;
  number_of_calls = 0;
  calls = λ i. record { function = 0; argument = 0 };
}

abbrev pub no_realloc : Realloc
no_realloc size elements new = none

abbrev writer : IoWatch
writer = record { condition = writable; user_data = 9; callback = 10 }

abbrev readable_3 : EpollWait Interest
readable_3 timeout k =
    reported
      (record { event = 1000; readable_now = true; writable_now = false; failed = false } ∷ [])

short : (g : ℕ) → ltb g (get_length one.event_vector) ≡ false → one.events g ≡ 0
unfolding get_length
short g h = ground (arith, h)

clear_watch-IsPoller_example :
    (r : IoPoller) × (clear_watch one 500 ≡ some r)
    × IsPoller get nothing r r.dirty_events
    × ((r.event 1000).readers ≡ [])
unfolding take_out
clear_watch-IsPoller_example =
    clear_watch-IsPoller get nothing one one-IsPoller 3 500 refl refl [] refl

clear_watches-Cleared_example : Cleared get control control-IsEpoll nothing one one-IsPoller short 3
clear_watches-Cleared_example =
    clear_watches-Cleared get control control-IsEpoll nothing one one-IsPoller short 3

tick-Polled_example :
    Polled control get control-IsEpoll no_realloc nothing one (negsuc 0) readable_3 no_calls
tick-Polled_example =
    tick-Polled control get control-IsEpoll no_realloc nothing one (negsuc 0) readable_3 no_calls
      pool one-IsPoller refl

-- a vector with room for four events
abbrev four : Vector
four = record { element_size = 8; elements = some (λ i. 0); size = 32; length = 4 }

abbrev short_one : IoPoller
short_one = record one { event_vector = four }

-- the same with its event in the pool of the pool's tests
abbrev pub pooled_one : IoPoller
pooled_one = record short_one {
  event_memory_pool = half;
  dirty_events = 98320 ∷ [];
  events = λ i. if i == 3 then 98320 else 0;
}

pub pooled_one-IsPoller : IsPoller get nothing pooled_one pooled_one.dirty_events
pooled_one-IsPoller = record {
  own = λ fd q. ground (arith, q);
  pends = λ fd q. refl;
  known = λ fd. ground arith;
  clean = λ fd q h. absurd (ground (arith, q, h));
  listed = λ a h. ground (arith, h);
  once = (refl, tt);
}

pub pooled_one-IsFitting : IsFitting pooled_one
pooled_one-IsFitting = record {
  vector = refl;
  wide = refl;
  blank = λ e. absurd (ground (arith, e));
  beyond = λ fd far. ground (arith, far);
  words = λ fd. ground arith;
}

pub pooled_one-IsStored : IsStored pooled_one.events half free_slots
unfolding locate_memory_chunk
pooled_one-IsStored = record {
  whole = half-IsPool;
  chains = half-HasSlots;
  low = λ c q. ground (arith, q);
  sized = record { wide = omega arith; narrow = omega arith; slots = refl };
  in_use = λ fd q.
      let same : 98320 ≡ (if fd == 3 then 98320 else 0) = ground (arith, q) in
      subst (InUse half free_slots) same (omega arith, refl);
}

-- the watch of descriptor 20, which has no event and is behind the end of the vector
set_watch-Stored_example :
    (a : ℕ) × (taken : MemoryPool) × (allocate_block half none ≡ some (a, taken))
    × (grown : Bool) × (v : Vector) × (fit_fd grow pooled_one 20
        ≡ some (grown, record pooled_one { event_vector = v }))
    × (t : Watched get grow nothing pooled_one none a taken 700 20 writer
        (grown && (false || not (a == 0))))
    × (left : ℕ → List ℕ) × IsStored t.after.events t.after.event_memory_pool left
set_watch-Stored_example =
    set_watch-Stored get grow nothing pooled_one 20 none 700 writer free_slots grow-IsKeeping
      pooled_one-IsPoller pooled_one-IsFitting (omega arith) pooled_one-IsStored
      (λ c e. absurd (ground (arith, e)))
