-- ===== src/Scheduler/Tests.antt =====
-- A scheduler with fibers 10, 20 and 30.
use pixy.Base.{ℕ, suc, ◌+◌, ◌%◌, ◌≤◌, ◌≡◌, refl, true, false, none, some, List, [], ◌∷◌, arith}
use pixy.Base.Lists.{get_back, length}
use pixy.Scheduler.{
  Fiber, Scheduler, Control, starts, initialize, add_fiber, add_and_run_fiber, tick,
  exit_current_fiber, dispatch,
}
use pixy.Scheduler.Sound.{IsSound}
use pixy.Scheduler.Run.{
  Reach, start, later, adds, ticks, exits, Launched, Reach-IsSound, Reach-fiber_count-zero,
  add_and_run_fiber-Launched,
}
use pixy.Scheduler.Stack.{Stack, allocate, free, start_pointer, allocate-free}
use pixy.Scheduler.Turns.{yields, Lined, yields-Lined}

abbrev blank : ℕ → Fiber
blank f = record { context = false; function = 0; argument = 0 }

abbrev begun : Scheduler
begun = record {
  active_fiber = none;
  ready_fibers = [];
  dead_fibers = [];
  fiber_count = 0;
  fibers = blank;
}

-- fiber 10 runs, and 20 and 30 are ready
abbrev busy : Scheduler
busy = record begun { active_fiber = some 10; ready_fibers = 20 ∷ 30 ∷ []; fiber_count = 3 }

busy-IsSound : IsSound busy []
busy-IsSound = record { once = λ f. ground arith; counted = refl }

yields-Lined_example :
    (t : Scheduler) × (yields (suc (length {A = ℕ} (20 ∷ []))) busy ≡ some t)
    × Lined t 30 (10 ∷ 20 ∷ [])
yields-Lined_example = yields-Lined busy 10 (20 ∷ []) 30 [] (record { runs = refl; waits = refl })

abbrev joined : Scheduler
joined = (add_fiber busy 7 8 (some 40)).1

add_and_run_fiber-Launched_example :
    (l : Launched busy 10 7 8) × (add_and_run_fiber busy 7 8 (some 40)
      ≡ some (true, l.after, starts l.fiber 7 8))
unfolding add_fiber get_back
add_and_run_fiber-Launched_example =
    add_and_run_fiber-Launched busy [] 10 7 8 (some 40) joined busy-IsSound
      (λ f e. ground (arith, e)) refl refl

abbrev added : Scheduler
added = (add_fiber begun 7 8 (some 10)).1

abbrev ran : Scheduler
ran = (dispatch added).0

abbrev ended : Scheduler
ended = (dispatch (record ran { dead_fibers = 10 ∷ []; fiber_count = 0 })).0

-- a fiber is added, run by the main loop, and exits
ended_Reach : Reach ended []
unfolding initialize add_fiber get_back tick dispatch exit_current_fiber
ended_Reach =
    later
      (later (later (start begun) (adds 7 8 (some 10) λ f e. ground (arith, e)))
        (ticks {c = starts 10 7 8} refl refl))
      (exits {a = 10} {c = Control.main_loop} refl refl)

Reach-IsSound_example : IsSound ended []
Reach-IsSound_example = Reach-IsSound ended_Reach

Reach-fiber_count-zero_example :
    (ended.active_fiber ≡ none) × (ended.ready_fibers ≡ []) × (◌≡◌ {A = List ℕ} [] [])
unfolding ended_Reach
Reach-fiber_count-zero_example = Reach-fiber_count-zero ended_Reach refl

allocate-free_example :
    (s : Stack) × (allocate false (some 32768) ≡ some s)
    × (s.stack ≡ 32768)
    × (s.stack + s.stack_size ≡ s.fiber)
    × (s.fiber + 56 ≡ 98304)
    × (free false s.fiber ≡ 32768)
    × (s.stack ≤ start_pointer s)
    × (start_pointer s + 8 ≡ s.fiber)
    × ((start_pointer s + 8) % 16 ≡ 8)
allocate-free_example = allocate-free false 32768 refl
