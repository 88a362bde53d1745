-- ===== src/IoPoller/Begin.antt =====
-- IOPoller_SetWatch of Source/IOPoller.c for a descriptor that has no event yet.
use pixy.Base.{
  ℕ, ◌≡◌, refl, sym, ap, subst, ◌∙◌, inl, inr, arith, true, false, [], ◌∷◌, ◌++◌, ◌==◌, ltb,
  if◌then◌else◌, Option, some, Bool-cases, ==→eq,
}
use pixy.Base.Lists.{has, has-append}
use pixy.Vector.{Realloc, get_length}
use pixy.MemoryPool.{MemoryPool, allocate_block}
use pixy.IoPoller.{
  IoPoller, IoEvent, IoWatch, IoCondition, readable, writable, Flags, no_flags, has_flag, set_flag,
  put, make_dirty, fit_fd, get_event, begin_event, link_watch, set_watch, watch_list,
  set_watch_list,
}
use pixy.IoPoller.Kept.{IsPoller, entry, watched, event_at}
use pixy.IoPoller.Watch.{
  IsDistinct-append, changed-IsPoller, watched-append, watch_list-pending, set_watch_list-Leaves,
  watch_list-set,
}
use pixy.IoPoller.Change.{put-at}

abbrev blank : ℕ → IoEvent
blank fd = record {
  fd = fd;
  flags = no_flags;
  pending_flags = no_flags;
  readers = [];
  writers = [];
}

blank-unwatched :
    (c : IoCondition) (fd : ℕ)
    → (has_flag c (blank fd).pending_flags ≡ false) × (watch_list c (blank fd) ≡ [])
blank-unwatched readable fd = (refl, refl)
blank-unwatched writable fd = (refl, refl)

module _ {E : Type 0} (get : E → ℕ → Option (Flags × ℕ)) (k : E) (p : IoPoller)
    (i : IsPoller get k p p.dirty_events) (fd a : ℕ) (pool : MemoryPool)
    (none_yet : p.events fd ≡ 0) (live : (a == 0) ≡ false)
    (fresh : (g : ℕ) → (p.events g == a) ≡ false) (away : has a p.dirty_events ≡ false) where
  abbrev begun : IoPoller
  unfolding begin_event
  begun = begin_event fd a (record p { event_memory_pool = pool })

  -- another descriptor has the event that it had
  stays :
      (g : ℕ)
      → (g == fd) ≡ false
      → (begun.events g ≡ p.events g) × (event_at begun g ≡ event_at p g)
  unfolding begin_event
  stays g q = (rw q refl, rw (q, fresh g) refl)

  -- the events with the new one, which is to be dirty
  begin_event-IsPoller : IsPoller get k begun (p.dirty_events ++ a ∷ [])
  unfolding begin_event
  begin_event-IsPoller =
      let same : (a == a) ≡ true = ground arith in
      record {
        own = λ g q. elim (Bool-cases (g == fd)) [
          | inl f ↦ rw (f, same) (sym (==→eq g fd f))
          | inr f ↦ rw (f, fresh g) (i.own g (ground (arith, q, f)))
        ];
        pends = λ g q. elim (Bool-cases (g == fd)) [
          | inl f ↦ rw (f, same) refl
          | inr f ↦ rw (f, fresh g) (i.pends g (ground (arith, q, f)))
        ];
        known = λ g. elim (Bool-cases (g == fd)) [
          | inl f ↦ rw (f, same, live) (ap (get k) (==→eq g fd f) ∙ i.known fd ∙ rw none_yet refl)
          | inr f ↦ rw (f, fresh g) (i.known g)
        ];
        clean = λ g q h. elim (Bool-cases (g == fd)) [
          | inl f ↦ absurd (ground (arith, f, h, has-append a p.dirty_events (a ∷ [])))
          | inr f ↦
              rw (f, fresh g)
                (i.clean g (ground (arith, q, f))
                  (ground (arith, h, f, has-append (p.events g) p.dirty_events (a ∷ []))))
        ];
        listed = λ x h. elim (Bool-cases (x == a)) [
          | inl f ↦ (ground (arith, live, f), rw f (put-at p.events fd a ∙ sym (==→eq x a f)))
          | inr f ↦
              let (lx, at) =
                i.listed x (ground (arith, h, f, has-append x p.dirty_events (a ∷ []))) in
              let other : ((p.event x).fd == fd) ≡ false =
                elim (Bool-cases ((p.event x).fd == fd)) [
                  | inl e ↦
                      let zero_x : x ≡ 0 =
                        sym at ∙ ap p.events (==→eq ((p.event x).fd) fd e) ∙ none_yet in
                      absurd (ground (arith, lx, zero_x))
                  | inr e ↦ e
                ] in
              (lx, rw (f, other) at)
        ];
        once = IsDistinct-append p.dirty_events a i.once away;
      }

  module _ (w : ℕ) (fields : IoWatch) where
    abbrev c : IoCondition
    c = fields.condition

    abbrev old : IoEvent
    old = begun.event a

    abbrev linked : IoEvent
    linked = set_watch_list c (watch_list c old ++ w ∷ []) old

    abbrev new : IoEvent
    new = record linked { pending_flags = set_flag c true old.pending_flags }

    old-blank : old ≡ blank fd
    unfolding begin_event
    old-blank = put-at p.event a (blank fd)

    at_fd : begun.events fd ≡ a
    unfolding begin_event
    at_fd = put-at p.events fd a

    same_known : (g : ℕ) → get k g ≡ (if g == fd then entry new.flags a else (get k g))
    same_known g =
        let flags : linked.flags ≡ no_flags =
          (set_watch_list-Leaves c old (watch_list c old ++ w ∷ [])).1
          ∙ ap (λ e. e.flags) old-blank in
        elim (Bool-cases (g == fd)) [
          | inl q ↦ rw q (
              ap (get k) (==→eq g fd q)
              ∙ i.known fd
              ∙ (rw none_yet refl)
              ∙ ap (λ f. entry f a) (sym flags))
          | inr q ↦ rw q refl
        ]

    watched-IsPoller :
        IsPoller get k (record begun { event = put begun.event a new }) (p.dirty_events ++ a ∷ [])
    watched-IsPoller =
        changed-IsPoller get k k begun (p.dirty_events ++ a ∷ []) begin_event-IsPoller fd a at_fd
          live new (p.dirty_events ++ a ∷ []) (IsDistinct-append p.dirty_events a i.once away)
          (λ x o. refl)
          ((set_watch_list-Leaves c old (watch_list c old ++ w ∷ [])).0 ∙ ap (λ e. e.fd) old-blank)
          (ap (set_flag c true) (subst (λ e. e.pending_flags ≡ watched e) (sym old-blank) refl)
            ∙ sym (watched-append c old w))
          (λ h. absurd (ground (arith, h, has-append a p.dirty_events (a ∷ [])))) same_known

    -- For a descriptor within the vector that has no event, where the pool gives a block that is no event
    -- and not dirty, IOPoller_SetWatch succeeds: the block is the event of the descriptor, the watch is the only one
    -- for its condition, the events of the other descriptors are as before, and the invariant of the poller is kept.
    pub set_watch-IsPoller :
        (realloc : Realloc) (allocated : Option ℕ)
        → ltb fd (get_length p.event_vector) ≡ true
        → allocate_block p.event_memory_pool allocated ≡ some (a, pool)
        → (r : IoPoller) × (set_watch realloc allocated p w fd fields ≡ some (true, r))
          × IsPoller get k r r.dirty_events
          × (r.events fd ≡ a)
          × (watch_list c (r.event a) ≡ w ∷ [])
          × (r.event_vector ≡ p.event_vector)
          × (r.event_memory_pool ≡ pool)
          × (r.event_of w ≡ a)
          × (r.watch w ≡ fields)
          × ((g : ℕ) → (g == fd) ≡ false → r.events g ≡ p.events g)
    unfolding set_watch fit_fd get_event link_watch make_dirty begin_event
    set_watch-IsPoller realloc allocated inside gives =
        let unset : has_flag c old.pending_flags ≡ false =
          ap (λ e. has_flag c e.pending_flags) old-blank ∙ (blank-unwatched c fd).0 in
        let j = watched-IsPoller in
        (
          record begun {
            dirty_events = p.dirty_events ++ a ∷ [];
            event = put begun.event a new;
            watch = put p.watch w fields;
            event_of = put p.event_of w a;
          },
          rw (inside, none_yet, gives) (rw live (rw unset (rw away refl))),
          record {
            own = j.own;
            pends = j.pends;
            known = j.known;
            clean = j.clean;
            listed = j.listed;
            once = j.once;
          },
          at_fd,
          ap (watch_list c) (put-at begun.event a new)
              ∙ watch_list-pending c linked (set_flag c true old.pending_flags)
              ∙ watch_list-set c old (watch_list c old ++ w ∷ [])
              ∙ ap (λ e. watch_list c e ++ w ∷ []) old-blank
              ∙ ap (λ xs. xs ++ w ∷ []) (blank-unwatched c fd).1,
          refl,
          refl,
          put-at p.event_of w a,
          put-at p.watch w fields,
          λ g q. rw q refl,
        )
