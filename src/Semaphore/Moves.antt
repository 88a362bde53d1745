-- ===== src/Semaphore/Moves.antt =====
-- What the semaphore's calls of the scheduler do to the fibers that are about to run.
use pixy.Base.{
  ℕ, ◌+◌, ◌<◌, ◌≡◌, refl, Bool, true, false, ◌&&◌, some, List, [], ◌∷◌, ◌++◌, arith, ◌==◌,
  if◌then◌else◌,
}
use pixy.Base.Lists.{count, count-append, take_out-some, count-take_out}
use pixy.Scheduler.{
  Scheduler, Control, is_active, save_context, dispatch, suspend_current_fiber, resume_fiber,
  unresume_fiber,
}
use pixy.Semaphore.{resume_front_if, unresume_front_if}
use pixy.Semaphore.Invariant.{runs, is_front}

pub count-is_front : (f : ℕ) (xs : List ℕ) → is_front f xs ≡ true → 0 < count f xs
count-is_front f [] h = cc
count-is_front f (x ∷ xs) h = ground arith

-- `t` is `s` with the first of `waiters` made ready, if `b`
pub record Resumed (b : Bool) (waiters : List ℕ) (s t : Scheduler) : Type 0 where
  pub active : t.active_fiber ≡ s.active_fiber
  pub dead : t.dead_fibers ≡ s.dead_fibers
  pub ready :
      (g : ℕ)
      → count g t.ready_fibers ≡ count g s.ready_fibers + (if is_front g waiters && b then 1 else 0)

-- `t` is `s` with the first of `waiters` no longer ready, if `b`
pub record Unresumed (b : Bool) (waiters : List ℕ) (s t : Scheduler) : Type 0 where
  pub active : t.active_fiber ≡ s.active_fiber
  pub dead : t.dead_fibers ≡ s.dead_fibers
  pub ready :
      (g : ℕ)
      → count g s.ready_fibers ≡ count g t.ready_fibers + (if is_front g waiters && b then 1 else 0)

-- A waiter that does not run can be resumed.
pub resume_front_if-Resumed :
    (b : Bool) (waiters : List ℕ) (s : Scheduler)
    → ((g : ℕ) → is_front g waiters ≡ true → b ≡ true → is_active s g ≡ false)
    → (t : Scheduler) × (resume_front_if b waiters s ≡ some t) × Resumed b waiters s t
unfolding resume_front_if resume_fiber
resume_front_if-Resumed b [] s h =
    (s, refl, record { active = refl; dead = refl; ready = λ g. omega arith })
resume_front_if-Resumed false (f ∷ rest) s h =
    (s, refl, record { active = refl; dead = refl; ready = λ g. ground arith })
resume_front_if-Resumed true (f ∷ rest) s h =
    let off : is_active s f ≡ false = h f (ground arith) refl in
    (
      record s { ready_fibers = s.ready_fibers ++ f ∷ [] },
      ground (arith, off),
      record {
        active = refl;
        dead = refl;
        ready = λ g. ground (arith, count-append g s.ready_fibers (f ∷ []));
      },
    )

-- A waiter that is ready can be taken back.
pub unresume_front_if-Unresumed :
    (b : Bool) (waiters : List ℕ) (s : Scheduler)
    → ((g : ℕ)
        → is_front g waiters ≡ true
        → b ≡ true
        → (is_active s g ≡ false) × (0 < count g s.ready_fibers))
    → (t : Scheduler) × (unresume_front_if b waiters s ≡ some t) × Unresumed b waiters s t
unfolding unresume_front_if unresume_fiber
unresume_front_if-Unresumed b [] s h =
    (s, refl, record { active = refl; dead = refl; ready = λ g. omega arith })
unresume_front_if-Unresumed false (f ∷ rest) s h =
    (s, refl, record { active = refl; dead = refl; ready = λ g. ground arith })
unresume_front_if-Unresumed true (f ∷ rest) s h =
    let (off, here) = h f (ground arith) refl in
    let (ready, e) = take_out-some f s.ready_fibers here in
    (
      record s { ready_fibers = ready },
      ground (arith, off, e),
      record {
        active = refl;
        dead = refl;
        ready = λ g. ground (arith, count-take_out f g s.ready_fibers ready e);
      },
    )

-- After a switch the fibers about to run are those that were ready.
pub runs-dispatch :
    (s : Scheduler) (g : ℕ)
    → (runs (dispatch s).0 g ≡ count g s.ready_fibers)
      × ((dispatch s).0.dead_fibers ≡ s.dead_fibers)
unfolding dispatch
runs-dispatch s g = ground arith

-- A suspended caller no longer runs, and the others run as they did.
pub suspended :
    (s : Scheduler) (a : ℕ)
    → s.active_fiber ≡ some a
    → (t : Scheduler) × (c : Control) × (suspend_current_fiber s ≡ some (t, c))
      × ((f : ℕ) → runs t f + (if a == f then 1 else 0) ≡ runs s f)
      × (t.dead_fibers ≡ s.dead_fibers)
unfolding suspend_current_fiber
suspended s a active =
    let r = dispatch (save_context a s) in
    (
      r.0,
      r.1,
      simp active,
      λ f. ground (arith, active, runs-dispatch (save_context a s) f),
      (runs-dispatch (save_context a s) a).1,
    )
