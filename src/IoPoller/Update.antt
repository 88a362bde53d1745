-- ===== src/IoPoller/Update.antt =====
-- What IOPoller_Tick of Source/IOPoller.c tells epoll of one dirty event.
use pixy.Base.{
  ℕ, ◌≡◌, refl, ap, ◌∙◌, inl, inr, arith, false, ◌==◌, if◌then◌else◌, Option, some, Bool-cases,
  ==→eq,
}
use pixy.IoPoller.{IoPoller, IoEvent, Flags, is_zero, same_flags, EpollCtl, put, update_flags}
use pixy.IoPoller.Kept.{IsEpoll, entry, even, with_flags, same_flags→eq}

module _ {E : Type 0} (epoll_ctl : EpollCtl E) (get : E → ℕ → Option (Flags × ℕ))
    (epoll : IsEpoll epoll_ctl get) where
  pub record Updated (k : E) (p : IoPoller) (a : ℕ) : Type 0 where
    pub kernel : E
    pub event : ℕ → IoEvent
    pub run : update_flags epoll_ctl k p a ≡ some (kernel, record p { event = event })
    pub events : (x : ℕ) → event x ≡ (if x == a then even (p.event a) else (p.event x))
    pub told :
        (g : ℕ)
        → get kernel g
          ≡ (if g == (p.event a).fd then entry (p.event a).pending_flags a else (get k g))

  pub update_flags-Updated :
      (k : E) (p : IoPoller) (a : ℕ)
      → get k (p.event a).fd ≡ entry (p.event a).flags a
      → Updated k p a
  unfolding update_flags
  update_flags-Updated k p a known =
      let old = p.event a in
      elim (Bool-cases (same_flags old.flags old.pending_flags)) [
        | inl e ↦
            let same = same_flags→eq old.flags old.pending_flags e in
            record {
              kernel = k;
              event = p.event;
              run = rw e refl;
              events = λ x. elim (Bool-cases (x == a)) [
                | inl q ↦ rw q (ap p.event (==→eq x a q) ∙ ap (with_flags old) same)
                | inr q ↦ rw q refl
              ];
              told = λ g. ground (arith, known, same);
            }
        | inr e ↦
            let put_even = put p.event a (even old) in
            elim (Bool-cases (is_zero old.flags)) [
              | inl f ↦
                  let (l, ran, now) =
                    epoll.adds k old.fd old.pending_flags a (ground (arith, known, f)) in
                  let more : is_zero old.pending_flags ≡ false = ground (arith, e, f) in
                  record {
                    kernel = l;
                    event = put_even;
                    run = rw (e, f, ran) refl;
                    events = λ x. refl;
                    told = λ g. ground (arith, now g, more);
                  }
              | inr f ↦
                  let before : get k old.fd ≡ some (old.flags, a) = ground (arith, known, f) in
                  elim (Bool-cases (is_zero old.pending_flags)) [
                    | inl z ↦
                        let (l, ran, now) =
                          epoll.deletes k old.fd old.pending_flags a (old.flags, a) before in
                        record {
                          kernel = l;
                          event = put_even;
                          run = rw (e, f, z, ran) refl;
                          events = λ x. refl;
                          told = λ g. ground (arith, now g, z);
                        }
                    | inr z ↦
                        let (l, ran, now) =
                          epoll.modifies k old.fd old.pending_flags a (old.flags, a) before in
                        record {
                          kernel = l;
                          event = put_even;
                          run = rw (e, f, z, ran) refl;
                          events = λ x. refl;
                          told = λ g. ground (arith, now g, z);
                        }
                  ]
            ]
      ]
