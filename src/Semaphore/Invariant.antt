-- ===== src/Semaphore/Invariant.antt =====
-- Which waiters of a semaphore are about to run. Semaphore_Down and Semaphore_Up are mirror images,
-- so what the proofs need of one side is stated for `mine`, the waiters of the calling side, and
-- `theirs`, those of the other.
use pixy.Base.{
  ℕ, ◌+◌, ◌≤◌, ◌≡◌, Bool, false, ◌&&◌, Option, none, some, List, [], ◌∷◌, arith, ◌==◌,
  if◌then◌else◌,
}
use pixy.Base.Lists.{count}
use pixy.Base.Int.{◌≤ℤ◌, ltb_ℤ}
use pixy.Scheduler.{Scheduler, Control, is_active}
use pixy.Scheduler.Sound.{places}
use pixy.Semaphore.{Semaphore, World}

-- in how many places `f` is about to run: it is running, or ready
abbrev pub runs : Scheduler → ℕ → ℕ
runs s f = (if is_active s f then 1 else 0) + count f s.ready_fibers

abbrev pub is_front : ℕ → List ℕ → Bool
is_front f [] = false
is_front f (x ∷ xs) = x == f

-- What holds of each fiber: it is in one place of the scheduler, waits on one side of the semaphore
-- at most, and, if it waits, is about to run exactly if it is the first there and the value leaves
-- that side free to go on.
pub record IsPlaced (s : Scheduler) (mine theirs : List ℕ) (mine_free theirs_free : Bool) (f : ℕ)
    : Type 0 where
  pub once : places s f ≤ 1
  pub waits_once : count f mine + count f theirs + count f s.dead_fibers ≤ 1
  pub mine_front :
      (if count f mine == 1 then runs s f else 0) ≡ (if is_front f mine && mine_free then 1 else 0)
  pub theirs_front :
      (if count f theirs == 1 then runs s f else 0)
      ≡ (if is_front f theirs && theirs_free then 1 else 0)

pub IsPlaced-swap :
    {s : Scheduler} {mine theirs : List ℕ} {mine_free theirs_free : Bool} {f : ℕ}
    → IsPlaced s mine theirs mine_free theirs_free f
    → IsPlaced s theirs mine theirs_free mine_free f
IsPlaced-swap p = record {
  once = p.once;
  waits_once = omega (arith, p.waits_once);
  mine_front = p.theirs_front;
  theirs_front = p.mine_front;
}

abbrev pub can_go_down : Semaphore → Bool
can_go_down m = ltb_ℤ m.min_value m.value

abbrev pub can_go_up : Semaphore → Bool
can_go_up m = ltb_ℤ m.value m.max_value

-- The value lies between its bounds.
pub record IsInRange (m : Semaphore) : Type 0 where
  pub lower : m.min_value ≤ℤ m.value
  pub upper : m.value ≤ℤ m.max_value

pub record Inv (w : World) : Type 0 where
  pub range : IsInRange w.semaphore
  pub placed :
      (f : ℕ)
      → IsPlaced w.scheduler w.semaphore.down_waiters w.semaphore.up_waiters
          (can_go_down w.semaphore)
          (can_go_up w.semaphore)
          f

-- The call runs to its end or to its suspension, and `P` holds there.
abbrev pub Ensures : (World → Control → Type 0) → Option (World × Control) → Type 0
Ensures P none = ⊥
Ensures P (some (w, c)) = P w c
