-- ===== src/Event/Tests.antt =====
-- An event with two waiters.
use pixy.Base.{ℕ, ◌≡◌, true, some, [], ◌∷◌, ◌++◌, arith}
use pixy.Base.Lists.{length}
use pixy.Scheduler.{Scheduler}
use pixy.Event.Wakes.{triggers, triggers-ready}

abbrev running : Scheduler
running = record {
  active_fiber = some 9;
  ready_fibers = 4 ∷ [];
  dead_fibers = [];
  fiber_count = 4;
  fibers = λ f. record { context = true; function = 0; argument = 0 };
}

triggers-ready_example :
    triggers (length {A = ℕ} (7 ∷ 8 ∷ [])) (record { waiters = (7 ∷ 8 ∷ []) ++ [] }) running
    ≡ some (record { waiters = [] }, record running { ready_fibers = (4 ∷ []) ++ 7 ∷ 8 ∷ [] })
triggers-ready_example = triggers-ready (7 ∷ 8 ∷ []) [] running (λ f h. ground (arith, h))
