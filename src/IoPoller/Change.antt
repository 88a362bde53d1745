-- ===== src/IoPoller/Change.antt =====
-- IOPoller_SetWatch, IOPoller_ClearWatch and IOPoller_ClearWatches of Source/IOPoller.c keep the invariant
-- of the poller.
use pixy.Base.{
  ℕ, ◌≡◌, refl, sym, ap, ◌∙◌, inl, inr, arith, true, false, List, [], ◌∷◌, ◌++◌, ◌==◌, ltb,
  if◌then◌else◌, Option, none, some, Bool-cases, ==→eq,
}
use pixy.Base.Lists.{has, take_out}
use pixy.Vector.{get_length}
use pixy.IoPoller.{
  IoPoller, IoEvent, IoWatch, IoCondition, Flags, no_flags, is_zero, has_flag, set_flag, EpollCtl,
  put, make_dirty, link_watch, clear_watch, clear_watches, watch_list, set_watch_list,
}
use pixy.IoPoller.Kept.{IsEpoll, IsPoller, entry, watched, wanted, is_nil}
use pixy.IoPoller.Watch.{
  watched-append, watched-nil, watched-same, set_flag-has, set_watch_list-Leaves, watch_list-set,
  watch_list-pending, elsewhere, quiet-IsPoller, dirtied-IsPoller, known_at, pends_at, own_at,
  same_known,
}

take_out-is_nil : (w : ℕ) (xs rest : List ℕ) → take_out w xs ≡ some rest → is_nil xs ≡ false
unfolding take_out
take_out-is_nil w [] rest h = absurd (ground (arith, h))
take_out-is_nil w (x ∷ xs) rest h = refl

pub put-at : {A : Type 0} (f : ℕ → A) (a : ℕ) (new : A) → put f a new a ≡ new
put-at f a new = let same : (a == a) ≡ true = ground arith in rw same refl

make_dirty-event : (a : ℕ) (p : IoPoller) → (make_dirty a p).event ≡ p.event
unfolding make_dirty
make_dirty-event a p = elim (Bool-cases (has a p.dirty_events)) [
  | inl h ↦ rw h refl
  | inr h ↦ rw h refl
]

make_dirty-wanted : (a : ℕ) (p : IoPoller) (g : ℕ) → wanted (make_dirty a p) g ≡ wanted p g
unfolding make_dirty
make_dirty-wanted a p g = elim (Bool-cases (has a p.dirty_events)) [
  | inl h ↦ rw h refl
  | inr h ↦ rw h refl
]

-- the watches once the event is put into the dirty list
pub dirty_list :
    (c : IoCondition) (a : ℕ) (p : IoPoller) (e : IoEvent) (f : Flags) (watch : ℕ → IoWatch)
    (event_of : ℕ → ℕ)
    → let r = make_dirty a (record p {
      event = put p.event a (record e { pending_flags = f });
      watch = watch;
      event_of = event_of;
    }) in
      watch_list c (r.event a) ≡ watch_list c e
dirty_list c a p e f watch event_of =
    let new = record e { pending_flags = f } in
    let r = record p { event = put p.event a new; watch = watch; event_of = event_of } in
    ap (λ event. watch_list c (event a)) (make_dirty-event a r)
    ∙ ap (watch_list c) (put-at p.event a new)
    ∙ watch_list-pending c e f

module _ {E : Type 0} (get : E → ℕ → Option (Flags × ℕ)) where
  module _ (k : E) (p : IoPoller) (i : IsPoller get k p p.dirty_events) (fd a : ℕ)
      (at : p.events fd ≡ a) (live : (a == 0) ≡ false) where
    -- For a descriptor whose event is in the vector, IOPoller_SetWatch keeps the invariant of the poller,
    -- and the watch is behind the other watches of the event for the condition.
    pub link_watch-IsPoller :
        (w : ℕ) (fields : IoWatch)
        → let r = link_watch a w fields p in
          let c = fields.condition in
          IsPoller get k r r.dirty_events
          × (watch_list c (r.event a) ≡ watch_list c (p.event a) ++ w ∷ [])
    unfolding link_watch
    link_watch-IsPoller w fields =
        let c = fields.condition in
        let old = p.event a in
        let linked = set_watch_list c (watch_list c old ++ w ∷ []) old in
        let leaves = set_watch_list-Leaves c old (watch_list c old ++ w ∷ []) in
        let grown = watched-append c old w in
        let pends = pends_at get k p i fd a at live in
        elim (Bool-cases (has_flag c old.pending_flags)) [
          | inl h ↦ rw h (
            quiet-IsPoller get k p i fd a at live linked leaves
                (grown ∙ set_flag-has c (watched old) (ap (has_flag c) (sym pends) ∙ h))
                (put p.watch w fields) (put p.event_of w a),
            ap (watch_list c) (put-at p.event a linked)
                ∙ watch_list-set c old (watch_list c old ++ w ∷ []),
          )
          | inr h ↦
              let more = set_flag c true old.pending_flags in
              rw h (
                dirtied-IsPoller get k k p i fd a at live (record linked { pending_flags = more })
                    (leaves.0 ∙ own_at get k p i fd a at live)
                    (ap (set_flag c true) pends ∙ sym grown)
                    (same_known get k p i fd a at live linked.flags leaves.1) (put p.watch w fields)
                    (put p.event_of w a),
                dirty_list c a p linked more (put p.watch w fields) (put p.event_of w a)
                    ∙ watch_list-set c old (watch_list c old ++ w ∷ []),
              )
        ]

  module _ (k : E) (p : IoPoller) (i : IsPoller get k p p.dirty_events) (fd w : ℕ)
      (at : p.events fd ≡ p.event_of w) (live : (p.event_of w == 0) ≡ false) where
    -- If the watch is in the list of its event and condition, and that event is in the vector,
    -- IOPoller_ClearWatch succeeds, takes the watch out of that list, and keeps the invariant of the
    -- poller, whether or not the watch was the last one for its condition.
    pub clear_watch-IsPoller :
        (rest : List ℕ)
        → take_out w (watch_list (p.watch w).condition (p.event (p.event_of w))) ≡ some rest
        → (r : IoPoller) × (clear_watch p w ≡ some r)
          × IsPoller get k r r.dirty_events
          × (watch_list (p.watch w).condition (r.event (p.event_of w)) ≡ rest)
    unfolding clear_watch
    clear_watch-IsPoller [] takes =
        let c = (p.watch w).condition in
        let old = p.event (p.event_of w) in
        let leaves = set_watch_list-Leaves c old [] in
        let less = set_flag c false old.pending_flags in
        (
          _,
          rw takes refl,
          dirtied-IsPoller get k k p i fd (p.event_of w) at live
              (record (set_watch_list c [] old) { pending_flags = less })
              (leaves.0 ∙ own_at get k p i fd (p.event_of w) at live)
              (ap (set_flag c false) (pends_at get k p i fd (p.event_of w) at live)
                ∙ sym (watched-nil c old))
              (same_known get k p i fd (p.event_of w) at live (set_watch_list c [] old).flags
                leaves.1)
              p.watch p.event_of,
          dirty_list c (p.event_of w) p (set_watch_list c [] old) less p.watch p.event_of
              ∙ watch_list-set c old [],
        )
    clear_watch-IsPoller (v ∷ vs) takes =
        let c = (p.watch w).condition in
        let old = p.event (p.event_of w) in
        let left = set_watch_list c (v ∷ vs) old in
        (
          _,
          rw takes refl,
          quiet-IsPoller get k p i fd (p.event_of w) at live left
              (set_watch_list-Leaves c old (v ∷ vs))
              (watched-same c old (v ∷ vs)
                (sym (take_out-is_nil w (watch_list c old) (v ∷ vs) takes)))
              p.watch p.event_of,
          ap (watch_list c) (put-at p.event (p.event_of w) left) ∙ watch_list-set c old (v ∷ vs),
        )

  module _ (epoll_ctl : EpollCtl E) (epoll : IsEpoll epoll_ctl get) (k : E) (p : IoPoller)
      (i : IsPoller get k p p.dirty_events)
      (short : (g : ℕ) → ltb g (get_length p.event_vector) ≡ false → p.events g ≡ 0) where
    -- what IOPoller_ClearWatches leaves
    pub record Cleared (fd : ℕ) : Type 0 where
      pub kernel : E
      pub rest : IoPoller
      pub run : clear_watches epoll_ctl k p fd ≡ some (kernel, rest)
      pub whole : IsPoller get kernel rest rest.dirty_events
      pub gone : get kernel fd ≡ none
      pub wants : (g : ℕ) → wanted rest g ≡ (if g == fd then none else (wanted p g))

    -- the kernel does not know the descriptor
    unknown :
        (fd : ℕ)
        → (p.events fd == 0) ≡ true
        → (g : ℕ) → wanted p g ≡ (if g == fd then none else (wanted p g))
    unknown fd z g = elim (Bool-cases (g == fd)) [
      | inl q ↦
          let same : p.events g ≡ p.events fd = ap p.events (==→eq g fd q) in
          ground (arith, z, q, same)
      | inr q ↦ rw q refl
    ]

    clear_watches-nothing :
        (fd : ℕ) → (p.events fd == 0) ≡ true → clear_watches epoll_ctl k p fd ≡ some (k, p)
    unfolding clear_watches
    clear_watches-nothing fd z = ground (arith, z)

    -- what is wanted once the event of `fd` is not watched
    wanted-gone :
        (fd : ℕ)
        → (p.events fd == 0) ≡ false
        → (e : IoEvent) → watched e ≡ no_flags
        → (g : ℕ)
        → wanted (make_dirty (p.events fd) (record p { event = put p.event (p.events fd) e })) g
          ≡ (if g == fd then none else (wanted p g))
    wanted-gone fd live e gone g =
        let a = p.events fd in
        let dirty = make_dirty-wanted a (record p { event = put p.event a e }) g in
        elim (Bool-cases (p.events g == 0)) [
          | inl z ↦ dirty ∙ ground (arith, z)
          | inr q ↦ elim (Bool-cases (g == fd)) [
            | inl f ↦
                let same : p.events g ≡ a = ap p.events (==→eq g fd f) in
                let hit : (p.events g == a) ≡ true = ground (arith, same) in
                dirty ∙ rw (q, hit, f) (ap (λ w. entry w (p.events g)) gone)
            | inr f ↦
                let miss = elsewhere get k k p p.dirty_events i fd a refl live e g q f in
                dirty ∙ rw (q, miss, f) refl
          ]
        ]

    -- If the vector has no events behind its length, IOPoller_ClearWatches succeeds on every
    -- descriptor, with an event or without. Behind it epoll does not know the descriptor, nothing is
    -- wanted of it, what is wanted of the others is as before, and the invariant of the poller is kept.
    pub clear_watches-Cleared : (fd : ℕ) → Cleared fd
    unfolding clear_watches
    clear_watches-Cleared fd =
        let a = p.events fd in
        let old = p.event a in
        let gone_from : IoEvent = record old {
          readers = [];
          writers = [];
          pending_flags = no_flags;
        } in
        elim (Bool-cases (a == 0)) [
          | inl z ↦ record {
            kernel = k;
            rest = p;
            run = clear_watches-nothing fd z;
            whole = i;
            gone = ground (arith, z, i.known fd);
            wants = unknown fd z;
          }
          | inr live ↦
              let long : ltb fd (get_length p.event_vector) ≡ true =
                ground (arith, short fd, live) in
              elim (Bool-cases (is_zero old.flags)) [
                | inl f ↦ record {
                  kernel = k;
                  rest = _;
                  run = rw (long, live, f) refl;
                  whole =
                      dirtied-IsPoller get k k p i fd a refl live gone_from
                        (own_at get k p i fd a refl live) refl
                        (same_known get k p i fd a refl live old.flags refl) p.watch p.event_of;
                  gone = ground (arith, known_at get k p i fd a refl live, f);
                  wants = wanted-gone fd live gone_from refl;
                }
                | inr f ↦
                    let (l, ran, now) =
                      epoll.deletes k fd no_flags 0 (old.flags, a)
                        (ground (arith, known_at get k p i fd a refl live, f)) in
                    record {
                      kernel = l;
                      rest = _;
                      run = rw (long, live, f, ran) refl;
                      whole =
                          dirtied-IsPoller get k l p i fd a refl live
                            (record gone_from { flags = no_flags })
                            (own_at get k p i fd a refl live) refl now p.watch p.event_of;
                      gone = now fd ∙ ground arith;
                      wants = wanted-gone fd live (record gone_from { flags = no_flags }) refl;
                    }
              ]
        ]
