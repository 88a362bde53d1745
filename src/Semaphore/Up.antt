-- ===== src/Semaphore/Up.antt =====
-- Semaphore_Up keeps the invariant, on each of its courses. It is the mirror image of Semaphore_Down.
use pixy.Base.{
  ℕ, ◌≡◌, refl, Bool, true, false, not, Option, some, List, [], ◌∷◌, ◌++◌, arith, subst,
}
use pixy.Base.Lists.{count, take_out}
use pixy.Base.Int.{pos, ◌+ℤ◌, +ℤ_parts, ◌==ℤ◌, ltb_ℤ}
use pixy.Scheduler.{Scheduler, Control, returns, get_current_fiber}
use pixy.Semaphore.{Semaphore, World, up, up_wake, up_end, resume_front_if, unresume_front_if}
use pixy.Semaphore.Moves.{Resumed, Unresumed, suspended}
use pixy.Semaphore.Invariant.{runs, IsPlaced, IsInRange, Inv, can_go_up, can_go_down, IsPlaced-swap}
use pixy.Semaphore.Down.{IsOutside}
use pixy.Semaphore.Sides.{
  pass_unresumes, pass_resumes, pass_keeps, wake_free, wake_resumes, wake_resumes_theirs,
  wake_keeps, wait_keeps,
}

-- A value below its upper bound, one higher.
module _ (m : Semaphore) (range : IsInRange m) (free : can_go_up m ≡ true) where
  abbrev raised : Semaphore
  raised = record m { value = m.value +ℤ pos 1 }

  raised-IsInRange : IsInRange raised
  raised-IsInRange = ground (arith, range.upper, range.lower, free, +ℤ_parts m.value (pos 1))

  raised_at_max : ((m.value +ℤ pos 1) ==ℤ m.max_value) ≡ not (can_go_up raised)
  raised_at_max = ground (arith, range.upper, free, +ℤ_parts m.value (pos 1))

  raised_above_min : ((m.value +ℤ pos 1) ==ℤ (m.min_value +ℤ pos 1)) ≡ not (can_go_down m)
  raised_above_min =
      ground (arith, range.lower, +ℤ_parts m.value (pos 1), +ℤ_parts m.min_value (pos 1))

  raised-can_go_down : can_go_down raised ≡ true
  raised-can_go_down = ground (arith, range.lower, +ℤ_parts m.value (pos 1))

abbrev at_max : Semaphore → Bool
at_max m = (m.value +ℤ pos 1) ==ℤ m.max_value

abbrev above_min : Semaphore → Bool
above_min m = (m.value +ℤ pos 1) ==ℤ (m.min_value +ℤ pos 1)

-- How a call of Semaphore_Up that does not wait any more ends.
pub record Passed (w : World) (waiters : List ℕ) (r : Option (World × Control)) : Type 0 where
  pub after : World
  pub result : r ≡ some (after, returns)
  pub value : after.semaphore.value ≡ w.semaphore.value +ℤ pos 1
  pub up_waiters : after.semaphore.up_waiters ≡ waiters
  pub down_waiters : after.semaphore.down_waiters ≡ w.semaphore.down_waiters
  pub inv : Inv after

up-run :
    (w : World) (t u : Scheduler)
    → IsInRange w.semaphore
    → can_go_up w.semaphore ≡ true
    → unresume_front_if (at_max w.semaphore) w.semaphore.up_waiters w.scheduler ≡ some t
    → resume_front_if (above_min w.semaphore) w.semaphore.down_waiters t ≡ some u
    → up w
      ≡ some (
        record {
          semaphore = record (w.semaphore) { value = w.semaphore.value +ℤ pos 1 };
          scheduler = u;
        },
        returns,
      )
unfolding up up_end
up-run w t u range free e e' =
    let above : (w.semaphore.value ==ℤ w.semaphore.max_value) ≡ false = ground (arith, free) in
    rw (above, e, e')

up_wake-run :
    (w : World) (a : ℕ) (rest : List ℕ) (t u : Scheduler)
    → w.scheduler.active_fiber ≡ some a
    → w.semaphore.up_waiters ≡ a ∷ rest
    → resume_front_if (ltb_ℤ (w.semaphore.value +ℤ pos 1) w.semaphore.max_value) rest w.scheduler
      ≡ some t
    → resume_front_if (above_min w.semaphore) w.semaphore.down_waiters t ≡ some u
    → up_wake w
      ≡ some (
        record {
          semaphore = record (w.semaphore) {
            value = w.semaphore.value +ℤ pos 1;
            up_waiters = rest;
          };
          scheduler = u;
        },
        returns,
      )
unfolding up_wake up_end take_out get_current_fiber
up_wake-run w a rest t u active waiting e e' =
    let taken : take_out a w.semaphore.up_waiters ≡ some rest = ground (arith, waiting) in
    simp (active, taken, e, e')

-- How a call of Semaphore_Up by `a` that waits is suspended.
pub record Waited (w : World) (a : ℕ) (r : Option (World × Control)) : Type 0 where
  pub after : World
  pub control : Control
  pub result : r ≡ some (after, control)
  pub value : after.semaphore.value ≡ w.semaphore.value
  pub up_waiters : after.semaphore.up_waiters ≡ w.semaphore.up_waiters ++ a ∷ []
  pub down_waiters : after.semaphore.down_waiters ≡ w.semaphore.down_waiters
  pub asleep : runs after.scheduler a ≡ 0
  pub inv : Inv after

module _ (w : World) (inv : Inv w) (a : ℕ) (active : w.scheduler.active_fiber ≡ some a) where
  placed :
      (f : ℕ)
      → IsPlaced w.scheduler w.semaphore.up_waiters w.semaphore.down_waiters
          (can_go_up w.semaphore)
          (can_go_down w.semaphore)
          f
  placed f = IsPlaced-swap (inv.placed f)

  -- With the value below its maximum Semaphore_Up raises it and returns.
  pub up-Passed :
      IsOutside w a → can_go_up w.semaphore ≡ true → Passed w w.semaphore.up_waiters (up w)
  up-Passed outside free =
      let m = w.semaphore in
      let none_here : count a m.up_waiters ≡ 0 = omega (arith, outside) in
      let (t, e, un) = pass_unresumes placed a active none_here free (at_max m) in
      let full = raised_above_min m inv.range free in
      let (u, e', re) =
        pass_resumes placed a active none_here free (at_max m) t (above_min m) un full in
      record {
        after = record { semaphore = raised m inv.range free; scheduler = u };
        result = up-run w t u inv.range free e e';
        value = refl;
        up_waiters = refl;
        down_waiters = refl;
        inv = record {
          range = raised-IsInRange m inv.range free;
          placed = λ f. IsPlaced-swap (
              rw (raised-can_go_down m inv.range free) (
                pass_keeps placed a active none_here free (can_go_up (raised m inv.range free)) t u
                  (subst (λ b. Unresumed b m.up_waiters w.scheduler t)
                    (raised_at_max m inv.range free) un)
                  (subst (λ b. Resumed b m.down_waiters t u) full re) f));
        };
      }

  -- A woken Semaphore_Up takes the caller, the first waiter, off the list, raises the value and returns.
  pub up_wake-Passed :
      (rest : List ℕ) → w.semaphore.up_waiters ≡ a ∷ rest → Passed w rest (up_wake w)
  up_wake-Passed rest waiting =
      let m = w.semaphore in
      let free = wake_free placed a active rest waiting in
      let low = raised m inv.range free in
      let (t, e, re) = wake_resumes placed a active rest waiting (can_go_up low) in
      let full = raised_above_min m inv.range free in
      let (u, e', re') =
        wake_resumes_theirs placed a active rest waiting (can_go_up low) t (above_min m) re full in
      record {
        after = record { semaphore = record low { up_waiters = rest }; scheduler = u };
        result = up_wake-run w a rest t u active waiting e e';
        value = refl;
        up_waiters = refl;
        down_waiters = refl;
        inv = record {
          range = record {
            upper = (raised-IsInRange m inv.range free).upper;
            lower = (raised-IsInRange m inv.range free).lower;
          };
          placed = λ f. IsPlaced-swap (
              rw (raised-can_go_down m inv.range free) (
                wake_keeps placed a active rest waiting (can_go_up low) t u re
                  (subst (λ b. Resumed b m.down_waiters t u) full re') f));
        };
      }

  -- With the value at its maximum Semaphore_Up puts the caller behind all waiters and suspends it.
  pub up-Waited : IsOutside w a → can_go_up w.semaphore ≡ false → Waited w a (up w)
  unfolding up get_current_fiber
  up-Waited outside shut =
      let m = w.semaphore in
      let (t, c, e, parked, buried) = suspended w.scheduler a active in
      let bottom : (m.value ==ℤ m.max_value) ≡ true = ground (arith, inv.range.upper, shut) in
      record {
        after = record {
          semaphore = record m { up_waiters = m.up_waiters ++ a ∷ [] };
          scheduler = t;
        };
        control = c;
        result = simp (bottom, active, e);
        value = refl;
        up_waiters = refl;
        down_waiters = refl;
        asleep = ground (arith, parked a, (placed a).once, active);
        inv = record {
          range = record { lower = inv.range.lower; upper = inv.range.upper };
          placed = λ f.
              IsPlaced-swap
                (wait_keeps placed a active t (omega (arith, outside)) shut parked buried f);
        };
      }
