-- ===== src/Semaphore/Down.antt =====
-- Semaphore_Down keeps the invariant, on each of its courses.
use pixy.Base.{
  ℕ, ◌+◌, ◌≡◌, refl, Bool, true, false, not, Option, some, List, [], ◌∷◌, ◌++◌, arith, subst,
}
use pixy.Base.Lists.{count, take_out}
use pixy.Base.Int.{pos, ◌-ℤ◌, -ℤ_parts, ◌==ℤ◌, ltb_ℤ}
use pixy.Scheduler.{Scheduler, Control, returns, get_current_fiber}
use pixy.Semaphore.{Semaphore, World, down, down_wake, down_end, resume_front_if, unresume_front_if}
use pixy.Semaphore.Moves.{Resumed, Unresumed, suspended}
use pixy.Semaphore.Invariant.{runs, IsInRange, Inv, can_go_down, can_go_up}
use pixy.Semaphore.Sides.{
  pass_unresumes, pass_resumes, pass_keeps, wake_free, wake_resumes, wake_resumes_theirs,
  wake_keeps, wait_keeps,
}

-- The caller is on neither side of the semaphore.
abbrev pub IsOutside : World → ℕ → Type 0
IsOutside w a = count a w.semaphore.down_waiters + count a w.semaphore.up_waiters ≡ 0

-- A value above its lower bound, one lower.
module _ (m : Semaphore) (range : IsInRange m) (free : can_go_down m ≡ true) where
  abbrev lowered : Semaphore
  lowered = record m { value = m.value -ℤ pos 1 }

  lowered-IsInRange : IsInRange lowered
  lowered-IsInRange = ground (arith, range.lower, range.upper, free, -ℤ_parts m.value (pos 1))

  lowered_at_min : ((m.value -ℤ pos 1) ==ℤ m.min_value) ≡ not (can_go_down lowered)
  lowered_at_min = ground (arith, range.lower, free, -ℤ_parts m.value (pos 1))

  lowered_below_max : ((m.value -ℤ pos 1) ==ℤ (m.max_value -ℤ pos 1)) ≡ not (can_go_up m)
  lowered_below_max =
      ground (arith, range.upper, -ℤ_parts m.value (pos 1), -ℤ_parts m.max_value (pos 1))

  lowered-can_go_up : can_go_up lowered ≡ true
  lowered-can_go_up = ground (arith, range.upper, -ℤ_parts m.value (pos 1))

abbrev at_min : Semaphore → Bool
at_min m = (m.value -ℤ pos 1) ==ℤ m.min_value

abbrev below_max : Semaphore → Bool
below_max m = (m.value -ℤ pos 1) ==ℤ (m.max_value -ℤ pos 1)

-- How a call of Semaphore_Down that does not wait any more ends.
pub record Passed (w : World) (waiters : List ℕ) (r : Option (World × Control)) : Type 0 where
  pub after : World
  pub result : r ≡ some (after, returns)
  pub value : after.semaphore.value ≡ w.semaphore.value -ℤ pos 1
  pub down_waiters : after.semaphore.down_waiters ≡ waiters
  pub up_waiters : after.semaphore.up_waiters ≡ w.semaphore.up_waiters
  pub inv : Inv after

down-run :
    (w : World) (t u : Scheduler)
    → IsInRange w.semaphore
    → can_go_down w.semaphore ≡ true
    → unresume_front_if (at_min w.semaphore) w.semaphore.down_waiters w.scheduler ≡ some t
    → resume_front_if (below_max w.semaphore) w.semaphore.up_waiters t ≡ some u
    → down w
      ≡ some (
        record {
          semaphore = record (w.semaphore) { value = w.semaphore.value -ℤ pos 1 };
          scheduler = u;
        },
        returns,
      )
unfolding down down_end
down-run w t u range free e e' =
    let above : (w.semaphore.value ==ℤ w.semaphore.min_value) ≡ false = ground (arith, free) in
    rw (above, e, e')

down_wake-run :
    (w : World) (a : ℕ) (rest : List ℕ) (t u : Scheduler)
    → w.scheduler.active_fiber ≡ some a
    → w.semaphore.down_waiters ≡ a ∷ rest
    → resume_front_if (ltb_ℤ w.semaphore.min_value (w.semaphore.value -ℤ pos 1)) rest w.scheduler
      ≡ some t
    → resume_front_if (below_max w.semaphore) w.semaphore.up_waiters t ≡ some u
    → down_wake w
      ≡ some (
        record {
          semaphore = record (w.semaphore) {
            value = w.semaphore.value -ℤ pos 1;
            down_waiters = rest;
          };
          scheduler = u;
        },
        returns,
      )
unfolding down_wake down_end take_out get_current_fiber
down_wake-run w a rest t u active waiting e e' =
    let taken : take_out a w.semaphore.down_waiters ≡ some rest = ground (arith, waiting) in
    simp (active, taken, e, e')

-- How a call of Semaphore_Down by `a` that waits is suspended.
pub record Waited (w : World) (a : ℕ) (r : Option (World × Control)) : Type 0 where
  pub after : World
  pub control : Control
  pub result : r ≡ some (after, control)
  pub value : after.semaphore.value ≡ w.semaphore.value
  pub down_waiters : after.semaphore.down_waiters ≡ w.semaphore.down_waiters ++ a ∷ []
  pub up_waiters : after.semaphore.up_waiters ≡ w.semaphore.up_waiters
  pub asleep : runs after.scheduler a ≡ 0
  pub inv : Inv after

module _ (w : World) (inv : Inv w) (a : ℕ) (active : w.scheduler.active_fiber ≡ some a) where
  -- With the value above its minimum Semaphore_Down lowers it and returns.
  pub down-Passed :
      IsOutside w a → can_go_down w.semaphore ≡ true → Passed w w.semaphore.down_waiters (down w)
  down-Passed outside free =
      let m = w.semaphore in
      let none_here : count a m.down_waiters ≡ 0 = omega (arith, outside) in
      let (t, e, un) = pass_unresumes inv.placed a active none_here free (at_min m) in
      let full = lowered_below_max m inv.range free in
      let (u, e', re) =
        pass_resumes inv.placed a active none_here free (at_min m) t (below_max m) un full in
      record {
        after = record { semaphore = lowered m inv.range free; scheduler = u };
        result = down-run w t u inv.range free e e';
        value = refl;
        down_waiters = refl;
        up_waiters = refl;
        inv = record {
          range = lowered-IsInRange m inv.range free;
          placed = λ f. rw (lowered-can_go_up m inv.range free) (
              pass_keeps inv.placed a active none_here free (can_go_down (lowered m inv.range free))
                t u
                (subst (λ b. Unresumed b m.down_waiters w.scheduler t)
                  (lowered_at_min m inv.range free) un)
                (subst (λ b. Resumed b m.up_waiters t u) full re) f);
        };
      }

  -- A woken Semaphore_Down takes the caller, the first waiter, off the list, lowers the value and returns.
  pub down_wake-Passed :
      (rest : List ℕ) → w.semaphore.down_waiters ≡ a ∷ rest → Passed w rest (down_wake w)
  down_wake-Passed rest waiting =
      let m = w.semaphore in
      let free = wake_free inv.placed a active rest waiting in
      let low = lowered m inv.range free in
      let (t, e, re) = wake_resumes inv.placed a active rest waiting (can_go_down low) in
      let full = lowered_below_max m inv.range free in
      let (u, e', re') =
        wake_resumes_theirs inv.placed a active rest waiting (can_go_down low) t (below_max m) re
          full in
      record {
        after = record { semaphore = record low { down_waiters = rest }; scheduler = u };
        result = down_wake-run w a rest t u active waiting e e';
        value = refl;
        down_waiters = refl;
        up_waiters = refl;
        inv = record {
          range = record {
            lower = (lowered-IsInRange m inv.range free).lower;
            upper = (lowered-IsInRange m inv.range free).upper;
          };
          placed = λ f. rw (lowered-can_go_up m inv.range free) (
              wake_keeps inv.placed a active rest waiting (can_go_down low) t u re
                (subst (λ b. Resumed b m.up_waiters t u) full re') f);
        };
      }

  -- With the value at its minimum Semaphore_Down puts the caller behind all waiters and suspends it.
  pub down-Waited : IsOutside w a → can_go_down w.semaphore ≡ false → Waited w a (down w)
  unfolding down get_current_fiber
  down-Waited outside shut =
      let m = w.semaphore in
      let (t, c, e, parked, buried) = suspended w.scheduler a active in
      let bottom : (m.value ==ℤ m.min_value) ≡ true = ground (arith, inv.range.lower, shut) in
      record {
        after = record {
          semaphore = record m { down_waiters = m.down_waiters ++ a ∷ [] };
          scheduler = t;
        };
        control = c;
        result = simp (bottom, active, e);
        value = refl;
        down_waiters = refl;
        up_waiters = refl;
        asleep = ground (arith, parked a, (inv.placed a).once, active);
        inv = record {
          range = record { lower = inv.range.lower; upper = inv.range.upper };
          placed = λ f. wait_keeps inv.placed a active t outside shut parked buried f;
        };
      }
