-- ===== src/Semaphore/Run.antt =====
-- A semaphore at work among fibers that call it, call the scheduler, and end, in any order.
use pixy.Base.{
  ℕ, ◌≤◌, ◌<◌, ◌≡◌, inl, inr, Bool, true, Option, none, some, List, [], ◌∷◌, arith, ◌⊎◌, ◌&&◌,
  if◌then◌else◌, Bool-cases, ap, ◌∙◌, subst,
}
use native.Mathlib.Decide.{dec_lt}
use pixy.Base.Lists.{count}
use pixy.Base.Int.{ℤ}
use pixy.Scheduler
use pixy.Scheduler.{
  Scheduler, Control, is_active, add_fiber, add_and_run_fiber, yield_current_fiber,
  suspend_current_fiber, resume_fiber, exit_current_fiber, tick, tick_return,
}
use pixy.Scheduler.Sound.{places}
use pixy.Scheduler.Run.{add_and_run_fiber-run_added}
use pixy.Semaphore.{Semaphore, World, initialize, down, down_wake, up, up_wake}
use pixy.Semaphore.Invariant.{
  runs, is_front, IsPlaced, IsInRange, Inv, can_go_down, can_go_up, IsPlaced-swap,
}
use pixy.Semaphore.Down
use pixy.Semaphore.Down.{IsOutside}
use pixy.Semaphore.Up
use pixy.Semaphore.Others.{
  OnlyMoves-Inv, Unmoved-Inv, yield-OnlyMoves, suspend-OnlyMoves, exit-OnlyMoves, resume-OnlyMoves,
  tick-OnlyMoves, tick_return-OnlyMoves, run_added-OnlyMoves, IsFresh, add_fiber-active,
  add_fiber-Inv,
}

abbrev pub Running : World → ℕ → Type 0
Running w a = w.scheduler.active_fiber ≡ some a

-- One step of a process: the running fiber calls the semaphore, or goes on behind its suspension in
-- such a call, or it calls the scheduler; or the main loop does. What is suspended elsewhere is
-- resumed by others, and a waiter of this semaphore is not resumed by others than its own calls.
pub data Step (w : World) : World → Type 0 where
  calls_down :
      {a : ℕ} {w' : World} {c : Control}
      → Running w a
      → IsOutside w a
      → down w ≡ some (w', c)
      → Step w w'
  wakes_in_down :
      {a : ℕ} {w' : World} {c : Control}
      → Running w a
      → 0 < count a w.semaphore.down_waiters
      → down_wake w ≡ some (w', c)
      → Step w w'
  calls_up :
      {a : ℕ} {w' : World} {c : Control}
      → Running w a
      → IsOutside w a
      → up w ≡ some (w', c)
      → Step w w'
  wakes_in_up :
      {a : ℕ} {w' : World} {c : Control}
      → Running w a
      → 0 < count a w.semaphore.up_waiters
      → up_wake w ≡ some (w', c)
      → Step w w'
  adds :
      (function argument : ℕ) (allocated : Option ℕ)
      → IsFresh w allocated
      → Step w (record w { scheduler = (add_fiber w.scheduler function argument allocated).1 })
  adds_and_runs :
      {a : ℕ} (function argument : ℕ) (allocated : Option ℕ) {t : Scheduler} {c : Control}
      → Running w a
      → IsOutside w a
      → IsFresh w allocated
      → add_and_run_fiber w.scheduler function argument allocated ≡ some (true, t, c)
      → Step w (record w { scheduler = t })
  yields :
      {a : ℕ} {t : Scheduler} {c : Control}
      → Running w a
      → IsOutside w a
      → yield_current_fiber w.scheduler ≡ some (t, c)
      → Step w (record w { scheduler = t })
  suspends :
      {a : ℕ} {t : Scheduler} {c : Control}
      → Running w a
      → IsOutside w a
      → suspend_current_fiber w.scheduler ≡ some (t, c)
      → Step w (record w { scheduler = t })
  exits :
      {a : ℕ} {t : Scheduler} {c : Control}
      → Running w a
      → IsOutside w a
      → exit_current_fiber w.scheduler ≡ some (t, c)
      → Step w (record w { scheduler = t })
  resumes :
      (f : ℕ) {t : Scheduler}
      → places w.scheduler f ≡ 0
      → IsOutside w f
      → resume_fiber w.scheduler f ≡ some t
      → Step w (record w { scheduler = t })
  ticks :
      {t : Scheduler} {c : Control}
      → w.scheduler.active_fiber ≡ none
      → tick w.scheduler ≡ some (t, c)
      → Step w (record w { scheduler = t })
  tick_returns :
      w.scheduler.active_fiber ≡ none
      → Step w (record w { scheduler = (tick_return w.scheduler).1 })

-- The worlds reached from an initialised semaphore and scheduler.
pub data Reach : World → Type 0 where
  start :
      (value min_value max_value : ℤ) {m : Semaphore} (s : Scheduler)
      → initialize value min_value max_value ≡ some m
      → Reach (record { semaphore = m; scheduler = Scheduler.initialize s })
  later : {w w' : World} → Reach w → Step w w' → Reach w'

-- A waiter that runs is the first of its side.
front-rest : (a : ℕ) (xs : List ℕ) → is_front a xs ≡ true → (rest : List ℕ) × (xs ≡ a ∷ rest)
front-rest a [] h = cc
front-rest a (x ∷ xs) h = (xs, ground arith)

runs-first :
    {s : Scheduler} {mine theirs : List ℕ} {mine_free theirs_free : Bool} (a : ℕ)
    → IsPlaced s mine theirs mine_free theirs_free a
    → s.active_fiber ≡ some a
    → 0 < count a mine
    → (rest : List ℕ) × (mine ≡ a ∷ rest)
runs-first {mine} a p active waits =
    front-rest a mine (ground (arith, p.mine_front, p.waits_once, active, waits))

same-world :
    {r : Option (World × Control)} {u v : World} {c d : Control}
    → Inv u
    → r ≡ some (u, c)
    → r ≡ some (v, d)
    → Inv v
same-world {u} {v} inv e f = let same : u ≡ v = cc in subst Inv same inv

abbrev once : {w : World} → Inv w → (f : ℕ) → places w.scheduler f ≤ 1
once inv f = (inv.placed f).once

-- Semaphore_Down called from outside, and Semaphore_Up, keep the invariant whether they wait or not.
down-Inv :
    (w : World) (a : ℕ) (w' : World) (c : Control)
    → Inv w
    → Running w a
    → IsOutside w a
    → down w ≡ some (w', c)
    → Inv w'
down-Inv w a w' c inv active outside e = elim (Bool-cases (can_go_down w.semaphore)) [
  | inl free ↦ let p = Down.down-Passed w inv a active outside free in same-world p.inv p.result e
  | inr shut ↦ let p = Down.down-Waited w inv a active outside shut in same-world p.inv p.result e
]

up-Inv :
    (w : World) (a : ℕ) (w' : World) (c : Control)
    → Inv w
    → Running w a
    → IsOutside w a
    → up w ≡ some (w', c)
    → Inv w'
up-Inv w a w' c inv active outside e = elim (Bool-cases (can_go_up w.semaphore)) [
  | inl free ↦ let p = Up.up-Passed w inv a active outside free in same-world p.inv p.result e
  | inr shut ↦ let p = Up.up-Waited w inv a active outside shut in same-world p.inv p.result e
]

Step-Inv : {w w' : World} → Step w w' → Inv w → Inv w'
Step-Inv {w} {w'} (calls_down {a} {c} active outside e) inv = down-Inv w a _ c inv active outside e
Step-Inv {w} (wakes_in_down {a} active waits e) inv =
    let (rest, first) = runs-first a (inv.placed a) active waits in
    let p = Down.down_wake-Passed w inv a active rest first in same-world p.inv p.result e
Step-Inv {w} {w'} (calls_up {a} {c} active outside e) inv = up-Inv w a _ c inv active outside e
Step-Inv {w} (wakes_in_up {a} active waits e) inv =
    let (rest, first) = runs-first a (IsPlaced-swap (inv.placed a)) active waits in
    let p = Up.up_wake-Passed w inv a active rest first in same-world p.inv p.result e
Step-Inv {w} (adds function argument allocated new) inv =
    add_fiber-Inv w function argument allocated inv new
Step-Inv {w} (adds_and_runs {a} function argument allocated {t} {c} active outside new e) inv =
    let (u, added, ran) =
      add_and_run_fiber-run_added w.scheduler a function argument allocated t c active e in
    let is_added = ap (λ (q : Bool × Scheduler). q.1) added in
    let inv' : Inv (record w { scheduler = u }) =
      rw is_added at (add_fiber-Inv w function argument allocated inv new) in
    let still : u.active_fiber ≡ some a =
      rw is_added at (add_fiber-active w.scheduler function argument allocated) ∙ active in
    OnlyMoves-Inv (record w { scheduler = u }) a t inv'
      (run_added-OnlyMoves u (once inv') a t c still ran) outside
Step-Inv {w} (yields {a} {t} {c} active outside e) inv =
    OnlyMoves-Inv w a t inv (yield-OnlyMoves w.scheduler (once inv) a active t c e) outside
Step-Inv {w} (suspends {a} {t} {c} active outside e) inv =
    OnlyMoves-Inv w a t inv (suspend-OnlyMoves w.scheduler (once inv) a active t c e) outside
Step-Inv {w} (exits {a} {t} {c} active outside e) inv =
    OnlyMoves-Inv w a t inv (exit-OnlyMoves w.scheduler (once inv) a active t c e) outside
Step-Inv {w} (resumes f {t} away outside e) inv =
    OnlyMoves-Inv w f t inv (resume-OnlyMoves w.scheduler (once inv) f t away e) outside
Step-Inv {w} (ticks {t} {c} idle e) inv =
    Unmoved-Inv w t inv λ x. tick-OnlyMoves w.scheduler (once inv) x t c idle e
Step-Inv {w} (tick_returns idle) inv =
    Unmoved-Inv w _ inv (tick_return-OnlyMoves w.scheduler (once inv))

initialize-Inv :
    (value min_value max_value : ℤ) (m : Semaphore) (s : Scheduler)
    → initialize value min_value max_value ≡ some m
    → Inv (record { semaphore = m; scheduler = Scheduler.initialize s })
unfolding initialize Scheduler.initialize
initialize-Inv value min_value max_value m s e = record {
  range = ground (arith, e);
  placed = λ f. ground (arith, e);
}

pub Reach-Inv : {w : World} → Reach w → Inv w
Reach-Inv (start value min_value max_value {m} s e) = initialize-Inv value min_value max_value m s e
Reach-Inv (later r st) = Step-Inv st (Reach-Inv r)

-- In every reachable world the value lies between its bounds.
pub value_in_bounds : {w : World} → Reach w → IsInRange w.semaphore
value_in_bounds r = (Reach-Inv r).range

module _ {w : World} (r : Reach w) (f : ℕ) where
  -- In every reachable world a waiter for Semaphore_Down is running or ready exactly if it is the first
  -- and the value is above its minimum.
  pub down_waiter_runs :
      0 < count f w.semaphore.down_waiters
      → runs w.scheduler f
        ≡ (if is_front f w.semaphore.down_waiters && can_go_down w.semaphore then 1 else 0)
  down_waiter_runs waits =
      let p = (Reach-Inv r).placed f in ground (arith, p.mine_front, p.waits_once)

  -- In every reachable world a waiter for Semaphore_Up is running or ready exactly if it is the first
  -- and the value is below its maximum.
  pub up_waiter_runs :
      0 < count f w.semaphore.up_waiters
      → runs w.scheduler f
        ≡ (if is_front f w.semaphore.up_waiters && can_go_up w.semaphore then 1 else 0)
  up_waiter_runs waits =
      let p = (Reach-Inv r).placed f in ground (arith, p.theirs_front, p.waits_once)

abbrev pub Succeeds : Option (World × Control) → Type 0
Succeeds r = (q : World × Control) × (r ≡ some q)

down-Succeeds : (w : World) (a : ℕ) → Inv w → Running w a → IsOutside w a → Succeeds (down w)
down-Succeeds w a inv active outside = elim (Bool-cases (can_go_down w.semaphore)) [
  | inl free ↦ let p = Down.down-Passed w inv a active outside free in (_, p.result)
  | inr shut ↦ let p = Down.down-Waited w inv a active outside shut in (_, p.result)
]

up-Succeeds : (w : World) (a : ℕ) → Inv w → Running w a → IsOutside w a → Succeeds (up w)
up-Succeeds w a inv active outside = elim (Bool-cases (can_go_up w.semaphore)) [
  | inl free ↦ let p = Up.up-Passed w inv a active outside free in (_, p.result)
  | inr shut ↦ let p = Up.up-Waited w inv a active outside shut in (_, p.result)
]

-- In every reachable world the running fiber is in one of three places, and each call that it can make
-- there succeeds: outside the semaphore both calls; among the waiters of a side, the rest of its call.
pub calls_succeed :
    {w : World}
    → Reach w
    → (a : ℕ) → Running w a
    → (IsOutside w a × Succeeds (down w) × Succeeds (up w))
      ⊎ ((0 < count a w.semaphore.down_waiters) × Succeeds (down_wake w))
      ⊎ ((0 < count a w.semaphore.up_waiters) × Succeeds (up_wake w))
calls_succeed {w} r a active =
    let inv = Reach-Inv r in
    let p = inv.placed a in
    elim (dec_lt 0 (count a w.semaphore.down_waiters)) [
      | yes waits ↦
          let (rest, first) = runs-first a p active waits in
          inr (inl (waits, (_, (Down.down_wake-Passed w inv a active rest first).result)))
      | no away ↦ elim (dec_lt 0 (count a w.semaphore.up_waiters)) [
        | yes waits ↦
            let (rest, first) = runs-first a (IsPlaced-swap p) active waits in
            inr (inr (waits, (_, (Up.up_wake-Passed w inv a active rest first).result)))
        | no away' ↦
            let out : IsOutside w a = omega arith in
            inl (out, down-Succeeds w a inv active out, up-Succeeds w a inv active out)
      ]
    ]
