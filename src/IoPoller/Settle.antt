-- ===== src/IoPoller/Settle.antt =====
-- The first loop of IOPoller_Tick: behind it epoll is told exactly of the descriptors and conditions that are
-- watched.
use pixy.Base.{
  ℕ, ◌≡◌, refl, ap, ◌∙◌, inl, inr, arith, true, false, List, [], ◌∷◌, ◌==◌, if◌then◌else◌, Option,
  none, some, Bool-cases, Option-cases,
}
use pixy.MemoryPool.{MemoryPool, free_block}
use pixy.IoPoller.{
  IoPoller, IoEvent, Flags, is_zero, EpollCtl, put, free_event, settled, settle_event,
  settle_events,
}
use pixy.IoPoller.Kept.{IsEpoll, IsPoller, entry, wanted}
use pixy.IoPoller.Update.{Updated, update_flags-Updated}
use pixy.IoPoller.Round.{
  known_fd, updated-wanted, updated-IsPoller, freed-wanted, freed-IsPoller, becomes, same_pending,
  same_fd,
}

-- the dirty events that are not watched, in the order in which they are freed
abbrev pub unwatched : (ℕ → IoEvent) → List ℕ → List ℕ
unwatched event [] = []
unwatched event (a ∷ ds) =
    let rest = unwatched event ds in if is_zero (event a).pending_flags then a ∷ rest else rest

-- the pool once it has taken the blocks back
abbrev pub free_all : MemoryPool → List ℕ → Option MemoryPool
free_all pool [] = some pool
free_all pool (a ∷ ds) = elim (free_block pool a) [ none ↦ none | some rest ↦ free_all rest ds ]

same-unwatched :
    (f g : ℕ → IoEvent)
    → ((x : ℕ) → (f x).pending_flags ≡ (g x).pending_flags)
    → (ds : List ℕ) → unwatched f ds ≡ unwatched g ds
same-unwatched f g same [] = refl
same-unwatched f g same (a ∷ ds) = ground (arith, same a, same-unwatched f g same ds)

module _ {E : Type 0} (epoll_ctl : EpollCtl E) (get : E → ℕ → Option (Flags × ℕ))
    (epoll : IsEpoll epoll_ctl get) where
  -- without dirty events, epoll knows what is wanted
  none_dirty : (k : E) (p : IoPoller) → IsPoller get k p [] → (g : ℕ) → get k g ≡ wanted p g
  none_dirty k p i g = elim (Bool-cases (p.events g == 0)) [
    | inl e ↦ i.known g ∙ rw e refl
    | inr e ↦
        let clean = i.clean g e refl in
        i.known g
        ∙ ap (λ f. if p.events g == 0 then none else (entry f (p.events g))) (clean.0 ∙ i.pends g e)
  ]

  module _ (k : E) (p : IoPoller) (a : ℕ) (ds : List ℕ) (i : IsPoller get k p (a ∷ ds)) where
    u : Updated epoll_ctl get epoll k p a
    u = update_flags-Updated epoll_ctl get epoll k p a (known_fd epoll_ctl get epoll k p a ds i)

    flags_now : is_zero (u.event a).flags ≡ is_zero (p.event a).pending_flags
    flags_now =
        ap (λ v. is_zero v.flags) (becomes epoll_ctl get epoll k p a ds i u a (ground arith))

    settle_event-keeps :
        is_zero (p.event a).pending_flags ≡ false
        → settle_event epoll_ctl k p a ≡ some (u.kernel, record p { event = u.event })
    unfolding settle_event settled
    settle_event-keeps more = rw (u.run, flags_now, more) refl

    settle_event-frees :
        (q : MemoryPool)
        → is_zero (p.event a).pending_flags ≡ true
        → free_block p.event_memory_pool a ≡ some q
        → settle_event epoll_ctl k p a
          ≡ some (
            u.kernel,
            record p {
              event = u.event;
              events = put p.events (p.event a).fd 0;
              event_memory_pool = q;
            },
          )
    unfolding settle_event settled free_event
    settle_event-frees q gone frees =
        rw (u.run, flags_now, gone, frees)
          (ap
            (λ n. some (
              u.kernel,
              record p { event = u.event; events = put p.events n 0; event_memory_pool = q },
            ))
            (same_fd epoll_ctl get epoll k p a ds i u a))

  -- what the first loop leaves
  pub record Told (k : E) (p : IoPoller) (ds : List ℕ) : Type 0 where
    pub kernel : E
    pub rest : IoPoller
    pub run : settle_events epoll_ctl k p ds ≡ some (kernel, rest)
    pub whole : IsPoller get kernel rest rest.dirty_events
    pub same : (g : ℕ) → wanted rest g ≡ wanted p g
    pub empty : rest.dirty_events ≡ []
    pub told : (g : ℕ) → get kernel g ≡ wanted p g

  goes_on :
      (k l : E) (p r : IoPoller) (a : ℕ) (ds : List ℕ)
      → settle_event epoll_ctl k p a ≡ some (l, r)
      → ((g : ℕ) → wanted r g ≡ wanted p g)
      → Told l r ds
      → Told k p (a ∷ ds)
  unfolding settle_events
  goes_on k l p r a ds ran same t = record {
    kernel = t.kernel;
    rest = t.rest;
    run = rw ran t.run;
    whole = t.whole;
    same = λ g. t.same g ∙ same g;
    empty = t.empty;
    told = λ g. t.told g ∙ same g;
  }

  pub settle_events-Told :
      (k : E) (p : IoPoller) (ds : List ℕ) (q : MemoryPool)
      → IsPoller get k p ds
      → free_all p.event_memory_pool (unwatched p.event ds) ≡ some q
      → Told k p ds
  unfolding settle_events
  settle_events-Told k p [] q i frees = record {
    kernel = k;
    rest = record p { dirty_events = [] };
    run = refl;
    whole = record {
      own = i.own;
      pends = i.pends;
      known = i.known;
      clean = i.clean;
      listed = i.listed;
      once = i.once;
    };
    same = λ g. refl;
    empty = refl;
    told = none_dirty k p i;
  }
  settle_events-Told k p (a ∷ ds) q i frees =
      let v = u k p a ds i in
      let same =
        same-unwatched v.event p.event (same_pending epoll_ctl get epoll k p a ds i v) ds in
      elim (Bool-cases (is_zero (p.event a).pending_flags)) [
        | inr more ↦
            goes_on k v.kernel p _ a ds (settle_event-keeps k p a ds i more)
              (updated-wanted epoll_ctl get epoll k p a ds i v)
              (settle_events-Told v.kernel (record p { event = v.event }) ds q
                (updated-IsPoller epoll_ctl get epoll k p a ds i v more)
                (ground (arith, frees, more, same)))
        | inl gone ↦ elim (Option-cases (free_block p.event_memory_pool a)) [
          | inl e ↦ absurd (ground (arith, frees, gone, e))
          | inr (pool, e) ↦
              goes_on k v.kernel p _ a ds (settle_event-frees k p a ds i pool gone e)
                (freed-wanted epoll_ctl get epoll k p a ds i v pool gone)
                (settle_events-Told v.kernel
                  (record p {
                    event = v.event;
                    events = put p.events (p.event a).fd 0;
                    event_memory_pool = pool;
                  })
                  ds q (freed-IsPoller epoll_ctl get epoll k p a ds i v pool gone)
                  (ground (arith, frees, gone, e, same)))
        ]
      ]
