-- ===== src/Semaphore/Tests.antt =====
-- A semaphore between 0 and 1 and two fibers: the first waits, the second lets it go on.
use pixy.Base.{◌≡◌, ◌<◌, ◌⊎◌, ◌&&◌, if◌then◌else◌, refl, false, Option, none, some, [], arith}
use pixy.Base.Lists.{count, get_back}
use pixy.Base.Int.{pos, ◌+ℤ◌, ◌-ℤ◌}
use pixy.Scheduler
use pixy.Scheduler.{
  Fiber, Scheduler, Control, starts, returns, add_fiber, tick, dispatch, suspend_current_fiber,
  resume_fiber, get_current_fiber,
}
use pixy.Semaphore.{
  up_wake, Semaphore, World, initialize, down, up, down_wake, up_end, resume_front_if,
  unresume_front_if,
}
use pixy.Semaphore.Run.{
  Reach, start, later, calls_down, calls_up, adds, ticks, value_in_bounds, down_waiter_runs,
  calls_succeed, Succeeds,
}
use pixy.Semaphore.Invariant.{runs, is_front, can_go_down, IsInRange}
use pixy.Semaphore.Down.{IsOutside}

abbrev result : Option (World × Control) → World → World
result none w = w
result (some (w', c)) w = w'

abbrev unused : Scheduler
unused = record {
  active_fiber = none;
  ready_fibers = [];
  dead_fibers = [];
  fiber_count = 0;
  fibers = λ f. record { context = false; function = 0; argument = 0 };
}

abbrev closed : Semaphore
closed = record {
  value = pos 0;
  min_value = pos 0;
  max_value = pos 1;
  down_waiters = [];
  up_waiters = [];
}

abbrev begun : World
begun = record { semaphore = closed; scheduler = Scheduler.initialize unused }

abbrev one_added : World
one_added = record begun { scheduler = (add_fiber begun.scheduler 1 0 (some 10)).1 }

abbrev two_added : World
two_added = record one_added { scheduler = (add_fiber one_added.scheduler 2 0 (some 20)).1 }

-- fiber 10 runs
abbrev first_runs : World
first_runs = record two_added { scheduler = (dispatch two_added.scheduler).0 }

-- fiber 10 waits in Semaphore_Down, and fiber 20 runs
abbrev first_waits : World
first_waits = result (down first_runs) first_runs

-- fiber 20 has called Semaphore_Up, and fiber 10 is ready
abbrev first_ready : World
first_ready = result (up first_waits) first_waits

added_Reach : Reach two_added
unfolding Scheduler.initialize initialize add_fiber get_back
added_Reach =
    later
      (later (start (pos 0) (pos 0) (pos 1) unused refl)
        (adds 1 0 (some 10) λ f e. ground (arith, e)))
      (adds 2 0 (some 20) λ f e. ground (arith, e))

first_waits_Reach : Reach first_waits
unfolding Scheduler.initialize add_fiber get_back tick dispatch down suspend_current_fiber
    get_current_fiber
first_waits_Reach =
    later (later added_Reach (ticks {c = starts 10 1 0} refl refl))
      (calls_down {a = 10} {c = starts 20 2 0} refl refl refl)

ready_Reach : Reach first_ready
unfolding Scheduler.initialize add_fiber get_back tick dispatch down suspend_current_fiber
    get_current_fiber up up_end resume_front_if unresume_front_if resume_fiber ◌+ℤ◌ ◌-ℤ◌
ready_Reach = later first_waits_Reach (calls_up {a = 20} {c = returns} refl refl refl)

value_in_bounds_example : IsInRange first_ready.semaphore
value_in_bounds_example = value_in_bounds ready_Reach

down_waiter_runs_example : runs first_ready.scheduler 10 ≡ (
    if is_front 10 first_ready.semaphore.down_waiters && can_go_down first_ready.semaphore
    then 1
    else 0)
unfolding ready_Reach
down_waiter_runs_example = down_waiter_runs ready_Reach 10 (omega arith)

calls_succeed_example :
    (IsOutside first_ready 20 × Succeeds (down first_ready) × Succeeds (up first_ready))
    ⊎ ((0 < count 20 first_ready.semaphore.down_waiters) × Succeeds (down_wake first_ready))
    ⊎ ((0 < count 20 first_ready.semaphore.up_waiters) × Succeeds (up_wake first_ready))
unfolding ready_Reach
calls_succeed_example = calls_succeed ready_Reach 20 refl
