-- ===== src/Io/Returns.antt =====
-- Enough fuel for the loops of the I/O calls of Source/IO.c.
use pixy.Base.{
  ℕ, zero, suc, ◌<◌, ◌≤◌, ◌≡◌, ◌⊎◌, refl, ap, ◌∙◌, inl, inr, arith, true, false, ◌||◌, Option, none,
  some, ◌==◌, Bool-cases, Option-cases,
}
use pixy.Base.Int.{ℤ}
use pixy.IoPoller.{IoCondition}
use pixy.Io.{
  System, Outcome, done, failed, Call, is_interrupted, is_blocked, retry, round_end, io_loop, eintr,
}
use pixy.Io.Ends.{
  is_interrupted-failed, Ends, interrupted, waits_for, succeeds, fails, wait_fails, io_loop-Ends,
}

module _ {W : Type 0} (system : System W) (call : Call) (fd : ℕ) (condition : IoCondition)
    (timeout : ℤ) where
  abbrev run : (rounds tries : ℕ) → W → Option (Outcome × W)
  run rounds tries w = io_loop system rounds tries call fd condition timeout w

  -- one more try does not change an outcome
  retry-more :
      (tries : ℕ) (w : W) (r : Outcome × W)
      → retry system tries call w ≡ some r
      → retry system (suc tries) call w ≡ some r
  unfolding retry
  retry-more zero w r h = absurd (ground (arith, h))
  retry-more (suc n) w r h =
      let (o, v) = system.system_call w call in
      elim (Bool-cases (is_interrupted o)) [
        | inl e ↦
            let before : retry system n call v ≡ some r = ground (arith, h, e) in
            rw e (retry-more n v r before)
        | inr e ↦ ground (arith, h, e)
      ]

  round_end-more :
      (o : Outcome) (u : W) (waited : Option ℕ) (x : W) (again more : Option (Outcome × W))
      (r : Outcome × W)
      → (again ≡ some r → more ≡ some r)
      → round_end system o u waited x again ≡ some r
      → round_end system o u waited x more ≡ some r
  unfolding round_end
  round_end-more (done n) u waited x again more r f h = h
  round_end-more (failed e) u none x again more r f h = elim (Bool-cases (is_blocked e)) [
    | inl b ↦ rw b (f (ground (arith, h, b)))
    | inr b ↦ ground (arith, h, b)
  ]
  round_end-more (failed e) u (some errno) x again more r f h = h

  round_end-whole :
      (e : ℕ) (u : W) (waited : Option ℕ) (x : W) (again : Option (Outcome × W))
      → is_blocked e ≡ false
      → round_end system (failed e) u waited x again ≡ some (failed e, u)
  unfolding round_end
  round_end-whole e u none x again b = rw b refl
  round_end-whole e u (some errno) x again b = rw b refl

  round_end-returns :
      (o : Outcome) (u : W) (waited : Option ℕ) (x : W) (again : Option (Outcome × W))
      → ((e : ℕ)
          → o ≡ failed e
          → is_blocked e ≡ true
          → waited ≡ none
          → (p : Outcome) × (y : W) × (again ≡ some (p, y)))
      → (p : Outcome) × (y : W) × (round_end system o u waited x again ≡ some (p, y))
  unfolding round_end
  round_end-returns (done n) u waited x again next = (done n, u, refl)
  round_end-returns (failed e) u none x again next = elim (Bool-cases (is_blocked e)) [
    | inl b ↦ rw b (next e refl b refl)
    | inr b ↦ (failed e, u, rw b refl)
  ]
  round_end-returns (failed e) u (some errno) x again next = elim (Bool-cases (is_blocked e)) [
    | inl b ↦ (failed errno, x, rw b refl)
    | inr b ↦ (failed e, u, rw b refl)
  ]

  io_loop-more :
      (rounds tries : ℕ) (w : W) (r : Outcome × W)
      → run rounds tries w ≡ some r
      → run rounds (suc tries) w ≡ some r
  unfolding io_loop
  io_loop-more zero tries w r h = absurd (ground (arith, h))
  io_loop-more (suc n) tries w r h = elim (Option-cases (retry system tries call w)) [
    | inl e ↦ absurd (ground (arith, rw e at h))
    | inr ((o, u), e) ↦
        let waits = system.wait_for_fd u fd condition timeout in
        rw (retry-more tries w (o, u) e) (
          round_end-more o u waits.0 waits.1 (run n tries waits.1) (run n (suc tries) waits.1) r
            (io_loop-more n tries waits.1 r) (rw e at h))
  ]

  retry-again :
      (tries : ℕ) (w v : W)
      → system.system_call w call ≡ (failed eintr, v)
      → retry system (suc tries) call w ≡ retry system tries call v
  unfolding retry
  retry-again tries w v called = rw called refl

  retry-now :
      (tries : ℕ) (w v : W) (o : Outcome)
      → system.system_call w call ≡ (o, v)
      → is_interrupted o ≡ false
      → retry system (suc tries) call w ≡ some (o, v)
  unfolding retry
  retry-now tries w v o called whole = rw (called, whole) refl

  run-again :
      (rounds tries : ℕ) (w v : W) (r : Outcome × W)
      → system.system_call w call ≡ (failed eintr, v)
      → run rounds tries v ≡ some r
      → run rounds (suc tries) w ≡ some r
  unfolding io_loop
  run-again zero tries w v r called h = absurd (ground (arith, h))
  run-again (suc n) tries w v r called h = elim (Option-cases (retry system tries call v)) [
    | inl e ↦ absurd (ground (arith, rw e at h))
    | inr ((o, u), e) ↦
        let waits = system.wait_for_fd u fd condition timeout in
        rw (retry-again tries w v called, e)
          (round_end-more o u waits.0 waits.1 (run n tries waits.1) (run n (suc tries) waits.1) r
            (io_loop-more n tries waits.1 r) (rw e at h))
  ]

  is_blocked-whole : (e : ℕ) → is_blocked e ≡ true → is_interrupted (failed e) ≡ false
  is_blocked-whole e b = ground (arith, b)

  Ends-io_loop :
      {w : W} {o : Outcome} {u : W}
      → Ends system call fd condition timeout w o u
      → (rounds : ℕ) × (tries : ℕ) × (run rounds tries w ≡ some (o, u))
  unfolding io_loop round_end
  Ends-io_loop (interrupted w v {o} {u} called ends) =
      let (n, t, h) = Ends-io_loop ends in (n, suc t, run-again n t w v (o, u) called h)
  Ends-io_loop (waits_for e w v x {o} {u} called b waits ends) =
      let (n, t, h) = Ends-io_loop ends in
      (
        suc n,
        suc t,
        rw (retry-now t w v (failed e) called (is_blocked-whole e b), waits, b)
            (io_loop-more n t x (o, u) h),
      )
  Ends-io_loop (succeeds n w v called) = (1, 1, rw (retry-now 0 w v (done n) called refl) refl)
  Ends-io_loop (fails e w v called whole b) =
      (1, 1, rw (retry-now 0 w v (failed e) called whole) (round_end-whole e v _ _ _ b))
  Ends-io_loop (wait_fails e errno w v x called b waits) =
      (1, 1, rw (retry-now 0 w v (failed e) called (is_blocked-whole e b), waits, b) refl)

  -- The loops of Read, and of the other calls that retry, give an outcome for some fuel exactly if the
  -- call ends with it: an interrupted system call is made again, one that would have blocked is made
  -- again once the wait for the descriptor has succeeded, and nothing else is tried again.
  pub io_loop-Ends-io_loop :
      (w : W) (o : Outcome) (u : W)
      → ((rounds tries : ℕ)
          → io_loop system rounds tries call fd condition timeout w ≡ some (o, u)
          → Ends system call fd condition timeout w o u)
        × (Ends system call fd condition timeout w o u
            → (rounds : ℕ) × (tries : ℕ) × (io_loop system rounds tries call fd condition timeout w
                ≡ some (o, u)))
  io_loop-Ends-io_loop w o u = (
    λ rounds tries h. io_loop-Ends system call fd condition timeout rounds tries w o u h,
    λ ends. Ends-io_loop ends,
  )

  -- The outcome of a call is an outcome of the system call that is neither EINTR nor EAGAIN nor
  -- EWOULDBLOCK, in the world behind it, or -1 with the errno of a wait that failed.
  abbrev pub Reason : Outcome → W → Type 0
  Reason o u =
      ((v : W) × (system.system_call v call ≡ (o, u))
        × (is_interrupted o ≡ false)
        × ((e : ℕ) → o ≡ failed e → is_blocked e ≡ false))
      ⊎ ((v : W) × (errno : ℕ) × (o ≡ failed errno)
          × (system.wait_for_fd v fd condition timeout ≡ (some errno, u)))

  Ends-Reason :
      {w : W} {o : Outcome} {u : W} → Ends system call fd condition timeout w o u → Reason o u
  Ends-Reason (interrupted w v called ends) = Ends-Reason ends
  Ends-Reason (waits_for e w v x called b waits ends) = Ends-Reason ends
  Ends-Reason (succeeds n w v called) = inl (w, called, refl, λ e h. absurd (ground (arith, h)))
  Ends-Reason (fails e w v called whole b) = inl (w, called, whole, λ f h. ground (arith, h, b))
  Ends-Reason (wait_fails e errno w v x called b waits) = inr (v, errno, refl, waits)

  -- Whatever the loops give: a result is one of the system call; an error is one of the system call that
  -- is neither EINTR nor EAGAIN nor EWOULDBLOCK, or the errno of a wait that failed.
  pub io_loop-Reason :
      (rounds tries : ℕ) (w : W) (o : Outcome) (u : W)
      → io_loop system rounds tries call fd condition timeout w ≡ some (o, u)
      → Reason o u
  io_loop-Reason rounds tries w o u h =
      Ends-Reason (io_loop-Ends system call fd condition timeout rounds tries w o u h)

  module _ (budget : W → ℕ)
      (called_less : (w v : W) (e : ℕ)
        → system.system_call w call ≡ (failed e, v)
        → ((e == eintr) || is_blocked e) ≡ true
        → budget v < budget w)
      (waited_less : (w v : W)
        → system.wait_for_fd w fd condition timeout ≡ (none, v)
        → budget v ≤ budget w) where
    retry-returns :
        (tries : ℕ) (w : W)
        → budget w < tries
        → (o : Outcome) × (u : W) × (v : W) × (retry system tries call w ≡ some (o, u))
          × (system.system_call v call ≡ (o, u))
          × (budget v ≤ budget w)
    unfolding retry
    retry-returns zero w p = absurd (omega arith)
    retry-returns (suc n) w p =
        let (o, v) = system.system_call w call in
        elim (Bool-cases (is_interrupted o)) [
          | inl e ↦
              let less =
                called_less w v eintr (ap (λ x. (x, v)) (is_interrupted-failed o e)) refl in
              let (q, u, last, ran, called, small) = retry-returns n v (omega arith) in
              (q, u, last, rw e ran, called, omega arith)
          | inr e ↦ (o, v, w, rw e refl, refl, omega arith)
        ]

    -- If each system call that is interrupted or would have blocked takes something off a number, and a
    -- wait that succeeds adds nothing to it, then the loops end with an outcome on more fuel than that
    -- number.
    pub io_loop-returns :
        (rounds tries : ℕ) (w : W)
        → budget w < rounds
        → budget w < tries
        → (o : Outcome) × (u : W) × (io_loop system rounds tries call fd condition timeout w
            ≡ some (o, u))
    unfolding io_loop
    io_loop-returns zero tries w p q = absurd (omega arith)
    io_loop-returns (suc n) tries w p q =
        let (o, u, v, ran, called, small) = retry-returns tries w q in
        let (waited, x) = system.wait_for_fd u fd condition timeout in
        rw ran (
          round_end-returns o u waited x (run n tries x) (λ e same b none_failed.
            let less = called_less v u e (called ∙ ap (λ z. (z, u)) same) (ground (arith, b)) in
            let no_more = waited_less u x (ap (λ z. (z, x)) none_failed) in
            io_loop-returns n tries x (omega arith) (omega arith)))
