-- ===== src/Scheduler/Turns.antt =====
-- Fibers that do nothing but yield take turns.
use pixy.Base.{ℕ, zero, suc, ◌≡◌, Option, none, some, List, [], ◌∷◌, ◌++◌, arith}
use mathlib.Core.List.{append_assoc}
use pixy.Base.Lists.{length}
use pixy.Scheduler.{Scheduler, Control, save_context, dispatch, yield_current_fiber}

-- `n` calls of Scheduler_YieldCurrentFiber, each by the fiber that runs then
pub yields : ℕ → Scheduler → Option Scheduler
yields zero s = some s
yields (suc n) s = elim (yield_current_fiber s) [ none ↦ none | some (t, c) ↦ yields n t ]

-- what is run and what is ready
pub record Lined (s : Scheduler) (active : ℕ) (ready : List ℕ) : Type 0 where
  pub runs : s.active_fiber ≡ some active
  pub waits : s.ready_fibers ≡ ready

yield-Lined :
    (s : Scheduler) (a f : ℕ) (rest : List ℕ)
    → Lined s a (f ∷ rest)
    → (t : Scheduler) × (c : Control) × (yield_current_fiber s ≡ some (t, c))
      × Lined t f (rest ++ a ∷ [])
unfolding yield_current_fiber
yield-Lined s a f rest l =
    let parked = record (save_context a s) { ready_fibers = s.ready_fibers ++ a ∷ [] } in
    let r = dispatch parked in
    (r.0, r.1, ground (arith, l.runs, l.waits), ground (arith, l.runs, l.waits))

-- A ready fiber with `n` others before it runs after `n + 1` yields, and then those before it stand
-- behind all others, in their order.
pub yields-Lined :
    (s : Scheduler) (a : ℕ) (before : List ℕ) (f : ℕ) (behind : List ℕ)
    → Lined s a (before ++ f ∷ behind)
    → (t : Scheduler) × (yields (suc (length before)) s ≡ some t) × Lined t f (behind ++ a ∷ before)
unfolding yields
yields-Lined s a [] f behind l =
    let (t, c, e, l') = yield-Lined s a f behind l in (t, ground (arith, e), l')
yields-Lined s a (x ∷ before) f behind l =
    let (t, c, e, l') = yield-Lined s a x (before ++ f ∷ behind) l in
    let (u, e', l'') =
      yields-Lined t x before f (behind ++ a ∷ [])
        (rw (append_assoc before (f ∷ behind) (a ∷ [])) at l') in
    (u, ground (arith, e, e'), rw (append_assoc behind (a ∷ []) (x ∷ before)) at l'')
