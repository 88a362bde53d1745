-- ===== src/IoPoller/Round.antt =====
-- The invariant behind one round of the first loop of IOPoller_Tick in Source/IOPoller.c: the event is told to
-- epoll, and is freed if it is not watched.
use pixy.Base.{
  ℕ, ◌≡◌, refl, sym, ap, subst, ◌∙◌, inl, inr, arith, true, false, List, ◌∷◌, ◌==◌, if◌then◌else◌,
  Option, none, Bool-cases, ==→eq,
}
use pixy.Base.Lists.{has}
use pixy.MemoryPool.{MemoryPool}
use pixy.IoPoller.{IoPoller, IoEvent, Flags, is_zero, EpollCtl, put}
use pixy.IoPoller.Kept.{IsEpoll, IsPoller, watched, entry, event_at, wanted, even}
use pixy.IoPoller.Update.{Updated}

module _ {E : Type 0} (epoll_ctl : EpollCtl E) (get : E → ℕ → Option (Flags × ℕ))
    (epoll : IsEpoll epoll_ctl get) where
  module _ (k : E) (p : IoPoller) (a : ℕ) (dirty : List ℕ) (i : IsPoller get k p (a ∷ dirty)) where
    abbrev pub fd : ℕ
    fd = (p.event a).fd

    pub at_fd : ((a == 0) ≡ false) × (p.events fd ≡ a)
    at_fd = i.listed a (ground arith)

    pub known_fd : get k fd ≡ entry (p.event a).flags a
    known_fd = ground (arith, i.known fd, at_fd, ap p.event at_fd.1)

    pends_fd : (p.event a).pending_flags ≡ watched (p.event a)
    pends_fd =
        subst (λ x. (p.event x).pending_flags ≡ watched (p.event x)) at_fd.1
          (i.pends fd (ground (arith, at_fd)))

    -- the descriptor of another event is another one
    elsewhere : (g : ℕ) → (g == fd) ≡ false → (p.events g == 0) ≡ false → (p.events g == a) ≡ false
    elsewhere g other some_event = elim (Bool-cases (p.events g == a)) [
      | inr q ↦ q
      | inl q ↦
          let same = ==→eq (p.events g) a q in
          absurd (ground (arith, other, i.own g some_event, ap (λ x. (p.event x).fd) same))
    ]

    module _ (u : Updated epoll_ctl get epoll k p a) where
      abbrev pub updated : IoPoller
      updated = record p { event = u.event }

      stays : (x : ℕ) → (x == a) ≡ false → u.event x ≡ p.event x
      stays x other = u.events x ∙ (rw other refl)

      pub becomes : (x : ℕ) → (x == a) ≡ true → u.event x ≡ even (p.event x)
      becomes x same = u.events x ∙ (rw same (ap (λ y. even (p.event y)) (sym (==→eq x a same))))

      -- a field other than the flags
      unmoved :
          {A : Type 0} (field : IoEvent → A)
          → ((e : IoEvent) → field (even e) ≡ field e)
          → (x : ℕ) → field (u.event x) ≡ field (p.event x)
      unmoved field same x = elim (Bool-cases (x == a)) [
        | inl e ↦ ap field (becomes x e) ∙ same (p.event x)
        | inr e ↦ ap field (stays x e)
      ]

      same_watched : (x : ℕ) → watched (u.event x) ≡ watched (p.event x)
      same_watched x = unmoved watched (λ e. refl) x

      pub same_pending : (x : ℕ) → (u.event x).pending_flags ≡ (p.event x).pending_flags
      same_pending x = unmoved (λ e. e.pending_flags) (λ e. refl) x

      pub same_fd : (x : ℕ) → (u.event x).fd ≡ (p.event x).fd
      same_fd x = unmoved (λ e. e.fd) (λ e. refl) x

      pub updated-wanted : (g : ℕ) → wanted updated g ≡ wanted p g
      updated-wanted g =
          ap (λ f. if p.events g == 0 then none else (entry f (p.events g)))
            (same_watched (p.events g))

      updated_flags :
          (g : ℕ)
          → (p.events g == 0) ≡ false
          → (u.event (p.events g)).flags
            ≡ (if g == fd then (p.event a).pending_flags else (p.event (p.events g)).flags)
      updated_flags g q = elim (Bool-cases (g == fd)) [
        | inl e ↦
            let at_a : p.events g ≡ a = ap p.events (==→eq g fd e) ∙ at_fd.1 in
            rw e (
              ap (λ v. v.flags) (becomes (p.events g) (ground (arith, at_a)))
              ∙ ap (λ x. (p.event x).pending_flags) at_a)
        | inr e ↦ rw e (ap (λ v. v.flags) (stays (p.events g) (elsewhere g e q)))
      ]

      updated-known :
          (g : ℕ)
          → get u.kernel g
            ≡ (if p.events g == 0 then none else (entry (event_at updated g).flags (p.events g)))
      updated-known g = elim (Bool-cases (g == fd)) [
        | inl e ↦
            let at_a : p.events g ≡ a = ap p.events (==→eq g fd e) ∙ at_fd.1 in
            let live : (p.events g == 0) ≡ false = ground (arith, at_a, at_fd) in
            u.told g ∙ ground (arith, e, live, at_a, updated_flags g live)
        | inr e ↦ elim (Bool-cases (p.events g == 0)) [
          | inl z ↦ u.told g ∙ ground (arith, e, z, i.known g)
          | inr z ↦ u.told g ∙ ground (arith, e, z, i.known g, updated_flags g z)
        ]
      ]

      updated-listed :
          (x : ℕ) → has x dirty ≡ true → ((x == 0) ≡ false) × (p.events (u.event x).fd ≡ x)
      updated-listed x h =
          let (live, at) = i.listed x (ground (arith, h)) in (live, ap p.events (same_fd x) ∙ at)

      pub updated-IsPoller :
          is_zero (p.event a).pending_flags ≡ false → IsPoller get u.kernel updated dirty
      updated-IsPoller more = record {
        own = λ g q. same_fd (p.events g) ∙ i.own g q;
        pends = λ g q. same_pending (p.events g) ∙ i.pends g q ∙ sym (same_watched (p.events g));
        known = updated-known;
        clean = λ g q h. elim (Bool-cases (g == fd)) [
          | inl e ↦
              let at_a : p.events g ≡ a = ap p.events (==→eq g fd e) ∙ at_fd.1 in
              let flags : (u.event (p.events g)).flags ≡ (p.event a).pending_flags =
                updated_flags g q
                ∙ ap (λ b. if b then (p.event a).pending_flags else (p.event (p.events g)).flags)
                    e in
              (
                flags ∙ sym (same_pending (p.events g) ∙ ap (λ x. (p.event x).pending_flags) at_a),
                ap is_zero flags ∙ more,
              )
          | inr e ↦
              let other = elsewhere g e q in
              let old = i.clean g q (ground (arith, h, other)) in
              let same = stays (p.events g) other in
              (
                ap (λ v. v.flags) same ∙ old.0 ∙ sym (same_pending (p.events g)),
                ap (λ v. is_zero v.flags) same ∙ old.1,
              )
        ];
        listed = updated-listed;
        once = i.once.1;
      }

      -- the state without the event of `fd`
      abbrev pub freed : MemoryPool → IoPoller
      freed q = record updated { events = put p.events fd 0; event_memory_pool = q }

      module _ (q : MemoryPool) (none_left : is_zero (p.event a).pending_flags ≡ true) where
        pub freed-wanted : (g : ℕ) → wanted (freed q) g ≡ wanted p g
        freed-wanted g = elim (Bool-cases (g == fd)) [
          | inl e ↦
              let at_a : p.events g ≡ a = ap p.events (==→eq g fd e) ∙ at_fd.1 in
              let nothing : entry (watched (p.event (p.events g))) (p.events g) ≡ none =
                ap (λ x. entry (watched (p.event x)) x) at_a
                ∙ ap (λ f. entry f a) (sym pends_fd)
                ∙ ground (arith, none_left) in
              ground (arith, e, nothing)
          | inr e ↦ rw e (updated-wanted g)
        ]

        outside :
            (g : ℕ)
            → ((freed q).events g == 0) ≡ false
            → ((g == fd) ≡ false) × ((freed q).events g ≡ p.events g) × ((p.events g == 0) ≡ false)
        outside g r = elim (Bool-cases (g == fd)) [
          | inl e ↦ absurd (ground (arith, e, r))
          | inr e ↦ (e, ground (arith, e), ground (arith, e, r))
        ]

        freed-listed :
            (x : ℕ)
            → has x dirty ≡ true
            → ((x == 0) ≡ false) × ((freed q).events (u.event x).fd ≡ x)
        freed-listed x h =
            let (live, at) = updated-listed x h in
            elim (Bool-cases ((u.event x).fd == fd)) [
              | inl e ↦
                  let same : x ≡ a = sym at ∙ ap p.events (==→eq ((u.event x).fd) fd e) ∙ at_fd.1 in
                  absurd (ground (arith, i.once.0, h, same))
              | inr e ↦ (live, rw e at)
            ]

        pub freed-IsPoller : IsPoller get u.kernel (freed q) dirty
        freed-IsPoller = record {
          own = λ g r.
              let (e, at, live) = outside g r in
              ap (λ x. (u.event x).fd) at ∙ same_fd (p.events g) ∙ i.own g live;
          pends = λ g r.
              let (e, at, live) = outside g r in
              subst (λ x. (u.event x).pending_flags ≡ watched (u.event x)) (sym at)
                (same_pending (p.events g) ∙ i.pends g live ∙ sym (same_watched (p.events g)));
          known = λ g. elim (Bool-cases (g == fd)) [
            | inl e ↦ u.told g ∙ ground (arith, e, none_left)
            | inr e ↦ rw e (updated-known g)
          ];
          clean = λ g r h.
              let (e, at, live) = outside g r in
              let other = elsewhere g e live in
              let old = i.clean g live (ground (arith, h, at, other)) in
              let same : u.event ((freed q).events g) ≡ p.event (p.events g) =
                ap u.event at ∙ stays (p.events g) other in
              subst (λ v. (v.flags ≡ v.pending_flags) × (is_zero v.flags ≡ false)) (sym same) old;
          listed = freed-listed;
          once = i.once.1;
        }
