-- ===== src/Runtime/Poll.antt =====
-- The polling of Loop in Source/Runtime.c, over the tick of the poller.
use mathlib.Core.List
use pixy.Base.{ℕ, ◌≡◌, refl, ap, ◌∙◌, Bool, List, [], ◌∷◌, Option, none, some, if◌then◌else◌}
use pixy.Vector.{Realloc}
use pixy.MemoryPool.{MemoryPool}
use pixy.Timer.{calculate_wait_time}
use pixy.Async.{Async}
use pixy.IoPoller.{IoPoller, EpollCtl, EpollWait, Report, reported, interrupted, Flags}
use pixy.IoPoller.Kept.{IsEpoll, IsPoller, wanted}
use pixy.IoPoller.Settle.{free_all, unwatched}
use pixy.IoPoller.Calls.{Adds, reports_calls}
use pixy.IoPoller.Tick.{tick-Polled}
use pixy.Runtime.{Runtime, poll}

-- epoll_wait is interrupted at each of `times`, and then, at `now`, reports `rs`
abbrev pub interrupted_then :
    {E : Type 0} → (times : List ℕ) → (now : ℕ) → List Report → List (ℕ × EpollWait E)
interrupted_then [] now rs = (now, λ timeout k. reported rs) ∷ []
interrupted_then (time ∷ times) now rs =
    (time, λ timeout k. interrupted) ∷ interrupted_then times now rs

module _ {E : Type 0} (epoll_ctl : EpollCtl E) (get : E → ℕ → Option (Flags × ℕ))
    (epoll : IsEpoll epoll_ctl get) (realloc : Realloc) where
  -- what the polling leaves; a false result is a fatal error
  pub record Settled (s : Runtime E) (rs : List Report) (times : List ℕ) (now : ℕ) (a : Async)
      : Type 0 where
    pub result : Bool
    pub kernel : E
    pub poller : IoPoller
    pub called : Async
    pub run :
        poll realloc epoll_ctl (interrupted_then times now rs) s a
        ≡ (if result then some (record s { kernel = kernel; io_poller = poller }, called) else none)
    pub whole : IsPoller get kernel poller poller.dirty_events
    pub told : (fd : ℕ) → get kernel fd ≡ wanted s.io_poller fd
    pub calls : Adds a (reports_calls poller rs) (result, called)

  -- However often epoll_wait is interrupted before it reports: if the pool takes back the blocks of the
  -- dirty events that are no longer watched, the main loop polls again until it reports. Behind that,
  -- epoll has for every descriptor exactly the conditions that it is watched for, the invariant of the poller is
  -- kept, and the calls that the reports ask for are added once; a call that cannot be added is a fatal error.
  pub poll-Settled :
      (s : Runtime E) (rs : List Report) (times : List ℕ) (now : ℕ) (a : Async) (q : MemoryPool)
      → IsPoller get s.kernel s.io_poller s.io_poller.dirty_events
      → free_all s.io_poller.event_memory_pool
          (unwatched s.io_poller.event (List.reverse s.io_poller.dirty_events))
        ≡ some q
      → Settled s rs times now a
  unfolding poll
  poll-Settled s rs [] now a q i frees =
      let t =
        tick-Polled epoll_ctl get epoll realloc s.kernel s.io_poller
          (calculate_wait_time now s.timer) (λ timeout k. reported rs) a q i frees in
      record {
        result = t.result;
        kernel = t.kernel;
        poller = t.rest;
        called = t.called;
        run = rw t.run refl;
        whole = t.whole;
        told = t.told;
        calls = t.calls;
      }
  poll-Settled s rs (time ∷ times) now a q i frees =
      let t =
        tick-Polled epoll_ctl get epoll realloc s.kernel s.io_poller
          (calculate_wait_time time s.timer) (λ timeout k. interrupted) a q i frees in
      let nothing : free_all t.rest.event_memory_pool
            (unwatched t.rest.event (List.reverse t.rest.dirty_events))
          ≡ some t.rest.event_memory_pool =
        rw t.empty refl in
      let later =
        poll-Settled (record s { kernel = t.kernel; io_poller = t.rest }) rs times now a
          t.rest.event_memory_pool t.whole nothing in
      record {
        result = later.result;
        kernel = later.kernel;
        poller = later.poller;
        called = later.called;
        run =
            rw (t.run, t.calls.0)
              (ap
                  (λ c.
                    poll realloc epoll_ctl (interrupted_then times now rs)
                      (record s { kernel = t.kernel; io_poller = t.rest }) c)
                  t.calls.1
                ∙ later.run);
        whole = later.whole;
        told = λ fd. later.told fd ∙ t.same fd;
        calls = later.calls;
      }
