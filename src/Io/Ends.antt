-- ===== src/Io/Ends.antt =====
-- The loops of the I/O calls of Source/IO.c against a relation: what ends a call.
use pixy.Base.{
  ℕ, zero, suc, ◌≡◌, refl, ap, subst, inl, inr, arith, true, false, Option, none, some, ◌==◌,
  Bool-cases, Option-cases, ==→eq,
}
use pixy.Base.Int.{ℤ}
use pixy.IoPoller.{IoCondition}
use pixy.Io.{
  System, Outcome, done, failed, Call, is_interrupted, is_blocked, retry, round_end, io_loop, eintr,
}

pub is_interrupted-failed : (o : Outcome) → is_interrupted o ≡ true → o ≡ failed eintr
is_interrupted-failed (done n) h = absurd (ground (arith, h))
is_interrupted-failed (failed e) h = ap failed (==→eq e eintr h)

module _ {W : Type 0} (system : System W) (call : Call) (fd : ℕ) (condition : IoCondition)
    (timeout : ℤ) where
  -- A call from the world `w` ends with an outcome in a world: the system call is made again each time
  -- that it is interrupted, and each time that it would have blocked and the wait for the descriptor
  -- has succeeded; any other outcome of it is the outcome, and so is the failure of a wait.
  pub data Ends : W → Outcome → W → Type 0 where
    interrupted :
        (w v : W) {o : Outcome} {u : W}
        → system.system_call w call ≡ (failed eintr, v)
        → Ends v o u
        → Ends w o u
    waits_for :
        (e : ℕ) (w v x : W) {o : Outcome} {u : W}
        → system.system_call w call ≡ (failed e, v)
        → is_blocked e ≡ true
        → system.wait_for_fd v fd condition timeout ≡ (none, x)
        → Ends x o u
        → Ends w o u
    succeeds : (n : ℕ) (w v : W) → system.system_call w call ≡ (done n, v) → Ends w (done n) v
    fails :
        (e : ℕ) (w v : W)
        → system.system_call w call ≡ (failed e, v)
        → (e == eintr) ≡ false
        → is_blocked e ≡ false
        → Ends w (failed e) v
    wait_fails :
        (e errno : ℕ) (w v x : W)
        → system.system_call w call ≡ (failed e, v)
        → is_blocked e ≡ true
        → system.wait_for_fd v fd condition timeout ≡ (some errno, x)
        → Ends w (failed errno) x

  abbrev EndsAt : W → Option (Outcome × W) → Type 0
  EndsAt w none = Unit {0}
  EndsAt w (some (o, u)) = Ends w o u

  -- The retrying of an interrupted call from `w` comes to the outcome `o`: what ends a call with this
  -- outcome ends the call from `w`.
  abbrev SettledAt : W → Option (Outcome × W) → Type 0
  SettledAt w none = Unit {0}
  SettledAt w (some (o, u)) =
      (is_interrupted o ≡ false)
      × ((p : Outcome) (x : W)
          → ((v : W) → system.system_call v call ≡ (o, u) → Ends v p x)
          → Ends w p x)

  SettledAt-later :
      (w v : W) (r : Option (Outcome × W))
      → system.system_call w call ≡ (failed eintr, v)
      → SettledAt v r
      → SettledAt w r
  SettledAt-later w v none called s = tt
  SettledAt-later w v (some (o, u)) called (whole, step) =
      (whole, λ p x next. interrupted w v called (step p x next))

  retry-SettledAt : (tries : ℕ) (w : W) → SettledAt w (retry system tries call w)
  unfolding retry
  retry-SettledAt zero w = tt
  retry-SettledAt (suc n) w =
      let (p, v) = system.system_call w call in
      elim (Bool-cases (is_interrupted p)) [
        | inl e ↦ rw e (
            SettledAt-later w v (retry system n call v)
              (ap (λ x. (x, v)) (is_interrupted-failed p e)) (retry-SettledAt n v))
        | inr e ↦ rw e (e, λ q x next. next w refl)
      ]

  round_end-EndsAt :
      (o : Outcome) (waited : Option ℕ) (w u x : W) (again : Option (Outcome × W))
      → system.system_call w call ≡ (o, u)
      → is_interrupted o ≡ false
      → system.wait_for_fd u fd condition timeout ≡ (waited, x)
      → EndsAt x again
      → EndsAt w (round_end system o u waited x again)
  unfolding round_end
  round_end-EndsAt (done n) waited w u x again called whole waits ends = succeeds n w u called
  round_end-EndsAt (failed e) none w u x none called whole waits ends =
      elim (Bool-cases (is_blocked e)) [
        | inl b ↦ rw b tt
        | inr b ↦ rw b (fails e w u called whole b)
      ]
  round_end-EndsAt (failed e) none w u x (some (o, y)) called whole waits ends =
      elim (Bool-cases (is_blocked e)) [
        | inl b ↦ rw b (waits_for e w u x called b waits ends)
        | inr b ↦ rw b (fails e w u called whole b)
      ]
  round_end-EndsAt (failed e) (some errno) w u x again called whole waits ends =
      elim (Bool-cases (is_blocked e)) [
        | inl b ↦ rw b (wait_fails e errno w u x called b waits)
        | inr b ↦ rw b (fails e w u called whole b)
      ]

  settled-EndsAt :
      (w u : W) (o : Outcome) (r : Option (Outcome × W))
      → SettledAt w (some (o, u))
      → ((v : W) → system.system_call v call ≡ (o, u) → EndsAt v r)
      → EndsAt w r
  settled-EndsAt w u o none s next = tt
  settled-EndsAt w u o (some (p, x)) s next = s.1 p x next

  io_loop-EndsAt :
      (rounds tries : ℕ) (w : W)
      → EndsAt w (io_loop system rounds tries call fd condition timeout w)
  unfolding io_loop
  io_loop-EndsAt zero tries w = tt
  io_loop-EndsAt (suc n) tries w = elim (Option-cases (retry system tries call w)) [
    | inl e ↦ rw e tt
    | inr ((o, u), e) ↦
        let (waited, x) = system.wait_for_fd u fd condition timeout in
        let settled : SettledAt w (some (o, u)) = subst (SettledAt w) e (retry-SettledAt tries w) in
        rw e (
          settled-EndsAt w u o _ settled (λ v called.
            round_end-EndsAt o waited v u x _ called settled.0 refl (io_loop-EndsAt n tries x)))
  ]

  pub io_loop-Ends :
      (rounds tries : ℕ) (w : W) (o : Outcome) (u : W)
      → io_loop system rounds tries call fd condition timeout w ≡ some (o, u)
      → Ends w o u
  io_loop-Ends rounds tries w o u h = subst (EndsAt w) h (io_loop-EndsAt rounds tries w)
