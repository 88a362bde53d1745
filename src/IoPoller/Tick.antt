-- ===== src/IoPoller/Tick.antt =====
-- IOPoller_Tick of Source/IOPoller.c as a whole: what epoll is told, and the calls that are added.
use mathlib.Core.List
use mathlib.Core.List.{reverse-cons}
use pixy.Base.{ℕ, ◌≡◌, refl, sym, ap, ◌∙◌, arith, Bool, false, List, [], ◌∷◌, Option, none, some}
use pixy.Base.Int.{ℤ}
use pixy.Base.Lists.{has, IsDistinct, has-append}
use pixy.Vector.{Realloc}
use pixy.MemoryPool.{MemoryPool}
use pixy.Async.{Async}
use pixy.IoPoller.{
  IoPoller, Flags, EpollCtl, EpollWait, Waited, reported, interrupted, broken, call_reports, tick,
}
use pixy.IoPoller.Kept.{IsEpoll, IsPoller, wanted}
use pixy.IoPoller.Settle.{Told, settle_events-Told, free_all, unwatched}
use pixy.IoPoller.Watch.{IsDistinct-append}
use pixy.IoPoller.Calls.{Adds, reports_calls, call_reports-Adds}

has-reverse : (x : ℕ) (xs : List ℕ) → has x (List.reverse xs) ≡ has x xs
has-reverse x [] = refl
has-reverse x (y ∷ xs) =
    ap (has x) (reverse-cons y xs)
    ∙ has-append x (List.reverse xs) (y ∷ [])
    ∙ ground (arith, has-reverse x xs)

reverse-IsDistinct : (xs : List ℕ) → IsDistinct xs → IsDistinct (List.reverse xs)
reverse-IsDistinct [] d = d
reverse-IsDistinct (y ∷ xs) d =
    rw (reverse-cons y xs)
      (IsDistinct-append (List.reverse xs) y (reverse-IsDistinct xs d.1) (has-reverse y xs ∙ d.0))

module _ {E : Type 0} (epoll_ctl : EpollCtl E) (get : E → ℕ → Option (Flags × ℕ))
    (epoll : IsEpoll epoll_ctl get) (realloc : Realloc) where
  reverse-IsPoller :
      (k : E) (p : IoPoller)
      → IsPoller get k p p.dirty_events
      → IsPoller get k p (List.reverse p.dirty_events)
  reverse-IsPoller k p i = record {
    own = i.own;
    pends = i.pends;
    known = i.known;
    clean = λ fd q h. i.clean fd q (sym (has-reverse (p.events fd) p.dirty_events) ∙ h);
    listed = λ a h. i.listed a (sym (has-reverse a p.dirty_events) ∙ h);
    once = reverse-IsDistinct p.dirty_events i.once;
  }

  -- What epoll_wait gives is answered: nothing is called if it was interrupted or has failed, and else what its
  -- reports ask for.
  abbrev pub Answers : IoPoller → Waited → Async → Bool × Async → Type 0
  Answers p (reported rs) a r = Adds a (reports_calls p rs) r
  Answers p interrupted a (ok, r) = (ok ≡ false) × (r ≡ a)
  Answers p broken a (ok, r) = (ok ≡ false) × (r ≡ a)

  -- another error than EINTR is fatal
  abbrev pub unless_broken : {A : Type 0} → Waited → A → Option A
  unless_broken (reported rs) r = some r
  unless_broken interrupted r = some r
  unless_broken broken r = none

  -- what IOPoller_Tick leaves
  pub record Polled (k : E) (p : IoPoller) (timeout : ℤ) (epoll_wait : EpollWait E) (a : Async)
      : Type 0 where
    pub result : Bool
    pub kernel : E
    pub rest : IoPoller
    pub called : Async
    pub run :
        tick realloc epoll_ctl k p timeout epoll_wait a
        ≡ unless_broken (epoll_wait timeout kernel) (result, kernel, rest, called)
    pub whole : IsPoller get kernel rest rest.dirty_events
    pub same : (fd : ℕ) → wanted rest fd ≡ wanted p fd
    pub empty : rest.dirty_events ≡ []
    pub told : (fd : ℕ) → get kernel fd ≡ wanted p fd
    pub calls : Answers rest (epoll_wait timeout kernel) a (result, called)

  -- If the pool takes back the blocks of the dirty events that are no longer watched, IOPoller_Tick
  -- finishes its first loop: behind it no event is dirty, the interest list of epoll has for every descriptor exactly the
  -- conditions that it is watched for, with its event, and the invariant of the poller is kept. Then the calls of the
  -- watches that the reports ask for are added in order behind those that wait, all of them if the
  -- result is true, and the first of them if not. If epoll_wait is interrupted, no call is added and the result is
  -- false; if it fails in another way, this is a fatal error.
  pub tick-Polled :
      (k : E) (p : IoPoller) (timeout : ℤ) (epoll_wait : EpollWait E) (a : Async) (q : MemoryPool)
      → IsPoller get k p p.dirty_events
      → free_all p.event_memory_pool (unwatched p.event (List.reverse p.dirty_events)) ≡ some q
      → Polled k p timeout epoll_wait a
  unfolding tick
  tick-Polled k p timeout epoll_wait a q i frees =
      let t =
        settle_events-Told epoll_ctl get epoll k p (List.reverse p.dirty_events) q
          (reverse-IsPoller k p i) frees in
      go t (epoll_wait timeout t.kernel) refl
    where
      go :
          (t : Told epoll_ctl get epoll k p (List.reverse p.dirty_events)) (r : Waited)
          → epoll_wait timeout t.kernel ≡ r
          → Polled k p timeout epoll_wait a
      go t broken e = record {
        result = false;
        kernel = t.kernel;
        rest = t.rest;
        called = a;
        run = rw (t.run, e) refl;
        whole = t.whole;
        same = t.same;
        empty = t.empty;
        told = t.told;
        calls = rw e (refl, refl);
      }
      go t interrupted e = record {
        result = false;
        kernel = t.kernel;
        rest = t.rest;
        called = a;
        run = rw (t.run, e) refl;
        whole = t.whole;
        same = t.same;
        empty = t.empty;
        told = t.told;
        calls = rw e (refl, refl);
      }
      go t (reported rs) e =
          let made = call_reports realloc t.rest rs a in
          record {
            result = made.0;
            kernel = t.kernel;
            rest = t.rest;
            called = made.1;
            run = rw (t.run, e) refl;
            whole = t.whole;
            same = t.same;
            empty = t.empty;
            told = t.told;
            calls = rw e (call_reports-Adds realloc t.rest rs a);
          }
