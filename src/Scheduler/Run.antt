-- ===== src/Scheduler/Run.antt =====
-- The scheduler at work: its operations in any order, as the fibers and the callbacks call them.
use pixy.Base.{
  ℕ, ◌+◌, ◌≡◌, refl, ap, ◌∙◌, subst, Bool, true, false, Option, none, some, List, [], ◌∷◌, ◌++◌,
  inl, inr, arith, Bool-cases, Option-cases, ◌==◌,
}
use pixy.Base.Lists.{count, count-append, take_out, get_back, get_back-append, get_back-some}
use pixy.Scheduler.{
  Fiber, Scheduler, Control, starts, initialize, is_active, save_context, add_fiber, run_added,
  add_and_run_fiber, yield_current_fiber, suspend_current_fiber, resume_fiber, unresume_fiber,
  exit_current_fiber, tick, tick_return,
}
use pixy.Scheduler.Sound.{
  places, IsSound, Returns, add_fiber-IsSound, yield_current_fiber-IsSound,
  suspend_current_fiber-IsSound, exit_current_fiber-IsSound, resume_fiber-IsSound,
  unresume_fiber-IsSound, tick-IsSound, tick_return-IsSound, run_added-IsSound, fiber_count-zero,
}

-- An allocation gives memory that no fiber uses.
abbrev pub IsFresh : Scheduler → List ℕ → Option ℕ → Type 0
IsFresh s suspended allocated = (f : ℕ) → allocated ≡ some f → places s f + count f suspended ≡ 0

abbrev pub new_fiber : ℕ → ℕ → Fiber
new_fiber function argument = record { context = false; function = function; argument = argument }

-- what a successful Scheduler_AddFiber has done
pub record Added (s : Scheduler) (function argument : ℕ) (t : Scheduler) : Type 0 where
  pub fiber : ℕ
  pub ready : t.ready_fibers ≡ s.ready_fibers ++ fiber ∷ []
  pub active : t.active_fiber ≡ s.active_fiber
  pub filled : t.fibers fiber ≡ new_fiber function argument
  pub inactive : is_active s fiber ≡ false

pub add_fiber-Added :
    (s : Scheduler) (suspended : List ℕ) (function argument : ℕ) (allocated : Option ℕ)
    (t : Scheduler)
    → IsSound s suspended
    → IsFresh s suspended allocated
    → add_fiber s function argument allocated ≡ (true, t)
    → Added s function argument t
unfolding add_fiber
add_fiber-Added s suspended function argument allocated t h new e =
    elim (Option-cases (get_back s.dead_fibers)) [
      | inr ((rest, f), d) ↦ record {
        fiber = f;
        ready = ground (arith, e, d);
        active = ground (arith, e, d);
        filled = ground (arith, e, d);
        inactive = ground (
          arith,
          ap (count f) (get_back-some s.dead_fibers rest f d),
          count-append f rest (f ∷ []),
          h.once f,
        );
      }
      | inl d ↦ elim (Option-cases allocated) [
        | inl failed ↦ ground (arith, e, d, failed)
        | inr (f, given) ↦ record {
          fiber = f;
          ready = ground (arith, e, d, given);
          active = ground (arith, e, d, given);
          filled = ground (arith, e, d, given);
          inactive = ground (arith, new f given);
        }
      ]
    ]

run_added-starts :
    (a : ℕ) (t : Scheduler) (f : ℕ) (r : List ℕ) (function argument : ℕ)
    → t.ready_fibers ≡ r ++ f ∷ []
    → t.fibers f ≡ new_fiber function argument
    → (a == f) ≡ false
    → run_added a t
      ≡ some (
        record (save_context a t) { active_fiber = some f; ready_fibers = a ∷ r },
        starts f function argument,
      )
unfolding run_added
run_added-starts a t f r function argument q fresh other =
    rw (q, get_back-append (a ∷ r) f, run_added) (ground (arith, fresh, other))

-- the outcome of Scheduler_AddAndRunFiber called by `a`: the new fiber runs its function, and the
-- caller is the next to run
pub record Launched (s : Scheduler) (a function argument : ℕ) : Type 0 where
  pub fiber : ℕ
  pub after : Scheduler
  pub active : after.active_fiber ≡ some fiber
  pub ready : after.ready_fibers ≡ a ∷ s.ready_fibers
  pub caller : (after.fibers a).context ≡ true

-- Scheduler_AddAndRunFiber starts the new fiber at once, on its function and argument, and puts the
-- caller, whose context it saves, before all other ready fibers.
pub add_and_run_fiber-Launched :
    (s : Scheduler) (suspended : List ℕ) (a function argument : ℕ) (allocated : Option ℕ)
    (t : Scheduler)
    → IsSound s suspended
    → IsFresh s suspended allocated
    → s.active_fiber ≡ some a
    → add_fiber s function argument allocated ≡ (true, t)
    → (l : Launched s a function argument) × (add_and_run_fiber s function argument allocated
        ≡ some (true, l.after, starts l.fiber function argument))
unfolding add_and_run_fiber
add_and_run_fiber-Launched s suspended a function argument allocated t h new e added =
    let d = add_fiber-Added s suspended function argument allocated t h new added in
    let saved = save_context a t in
    (
      record {
        fiber = d.fiber;
        after = record saved { active_fiber = some d.fiber; ready_fibers = a ∷ s.ready_fibers };
        active = refl;
        ready = refl;
        caller = ground arith;
      },
      ground (
        arith,
        e,
        added,
        run_added-starts a t d.fiber s.ready_fibers function argument d.ready d.filled
            (ground (arith, d.inactive, e)),
      ),
    )

-- One operation, with the fibers that are suspended before and after it. A resumed fiber is one of
-- those: whoever resumes a fiber knows it from its suspension.
pub data Step (s : Scheduler) (suspended : List ℕ) : Scheduler → List ℕ → Type 0 where
  adds :
      (function argument : ℕ) (allocated : Option ℕ)
      → IsFresh s suspended allocated
      → Step s suspended (add_fiber s function argument allocated).1 suspended
  adds_and_runs :
      {a : ℕ} (function argument : ℕ) (allocated : Option ℕ) {t : Scheduler} {c : Control}
      → IsFresh s suspended allocated
      → s.active_fiber ≡ some a
      → add_and_run_fiber s function argument allocated ≡ some (true, t, c)
      → Step s suspended t suspended
  yields :
      {a : ℕ} {t : Scheduler} {c : Control}
      → s.active_fiber ≡ some a
      → yield_current_fiber s ≡ some (t, c)
      → Step s suspended t suspended
  suspends :
      {a : ℕ} {t : Scheduler} {c : Control}
      → s.active_fiber ≡ some a
      → suspend_current_fiber s ≡ some (t, c)
      → Step s suspended t (a ∷ suspended)
  exits :
      {a : ℕ} {t : Scheduler} {c : Control}
      → s.active_fiber ≡ some a
      → exit_current_fiber s ≡ some (t, c)
      → Step s suspended t suspended
  resumes :
      (f : ℕ) {rest : List ℕ} {t : Scheduler}
      → take_out f suspended ≡ some rest
      → resume_fiber s f ≡ some t
      → Step s suspended t rest
  unresumes :
      {f : ℕ} {t : Scheduler} → unresume_fiber s f ≡ some t → Step s suspended t (f ∷ suspended)
  ticks :
      {t : Scheduler} {c : Control}
      → s.active_fiber ≡ none
      → tick s ≡ some (t, c)
      → Step s suspended t suspended
  tick_returns : s.active_fiber ≡ none → Step s suspended (tick_return s).1 suspended

pub data Reach : Scheduler → List ℕ → Type 0 where
  start : (s : Scheduler) → Reach (initialize s) []
  later :
      {s t : Scheduler} {suspended suspended' : List ℕ}
      → Reach s suspended
      → Step s suspended t suspended'
      → Reach t suspended'

Returns-some :
    (P : Scheduler → Control → Type 0) (r : Option (Scheduler × Control)) {t : Scheduler}
    {c : Control}
    → Returns P r
    → r ≡ some (t, c)
    → P t c
Returns-some P r h e = subst (λ q. Returns P q) e h

-- A call that succeeds has added the fiber and run it.
pub add_and_run_fiber-run_added :
    (s : Scheduler) (a function argument : ℕ) (allocated : Option ℕ) (t : Scheduler) (c : Control)
    → s.active_fiber ≡ some a
    → add_and_run_fiber s function argument allocated ≡ some (true, t, c)
    → (u : Scheduler) × (add_fiber s function argument allocated ≡ (true, u))
      × (run_added a u ≡ some (t, c))
unfolding add_and_run_fiber
add_and_run_fiber-run_added s a function argument allocated t c e r =
    let p = add_fiber s function argument allocated in
    elim (Bool-cases p.0) [
      | inl ok ↦ elim (Option-cases (run_added a p.1)) [
        | inl failed ↦ ground (arith, e, r, ok, failed)
        | inr ((u, d), ran) ↦ (p.1, ground (arith, ok), ground (arith, e, r, ok, ran))
      ]
      | inr failed ↦ ground (arith, e, r, failed)
    ]

Step-IsSound :
    {s t : Scheduler} {suspended suspended' : List ℕ}
    → Step s suspended t suspended'
    → IsSound s suspended
    → IsSound t suspended'
Step-IsSound {s} {suspended} (adds function argument allocated new) h =
    add_fiber-IsSound s suspended h function argument allocated new
Step-IsSound {s} {suspended} (adds_and_runs {a} function argument allocated {t} {c} new e r) h =
    let (u, added, ran) = add_and_run_fiber-run_added s a function argument allocated t c e r in
    let d = add_fiber-Added s suspended function argument allocated u h new added in
    let sound : IsSound u suspended =
      rw (ap (λ (q : Bool × Scheduler). q.1) added) at
        (add_fiber-IsSound s suspended h function argument allocated new) in
    Returns-some _ _
      (run_added-IsSound u suspended sound a d.fiber s.ready_fibers (d.active ∙ e) d.ready) ran
Step-IsSound {s} {suspended} (yields {a} e r) h =
    Returns-some _ _ (yield_current_fiber-IsSound s suspended h a e) r
Step-IsSound {s} {suspended} (suspends {a} e r) h =
    Returns-some _ _ (suspend_current_fiber-IsSound s suspended h a e) r
Step-IsSound {s} {suspended} (exits {a} e r) h =
    Returns-some _ _ (exit_current_fiber-IsSound s suspended h a e) r
Step-IsSound {s} {suspended} (resumes f {rest} {t} e r) h =
    resume_fiber-IsSound s suspended h f rest t e r
Step-IsSound {s} {suspended} (unresumes {f} {t} r) h = unresume_fiber-IsSound s suspended h f t r
Step-IsSound {s} {suspended} (ticks e r) h = Returns-some _ _ (tick-IsSound s suspended h e) r
Step-IsSound {s} {suspended} (tick_returns e) h = tick_return-IsSound s suspended h

initialize-IsSound : (s : Scheduler) → IsSound (initialize s) []
unfolding initialize
initialize-IsSound s = record { once = λ f. omega arith; counted = omega arith }

pub Reach-IsSound : {s : Scheduler} {suspended : List ℕ} → Reach s suspended → IsSound s suspended
Reach-IsSound (start s) = initialize-IsSound s
Reach-IsSound (later r st) = Step-IsSound st (Reach-IsSound r)

-- In every reachable state with fiber count zero no fiber runs, is ready or is suspended.
pub Reach-fiber_count-zero :
    {s : Scheduler} {suspended : List ℕ}
    → Reach s suspended
    → s.fiber_count ≡ 0
    → (s.active_fiber ≡ none) × (s.ready_fibers ≡ []) × (suspended ≡ [])
Reach-fiber_count-zero {s} {suspended} r = fiber_count-zero s suspended (Reach-IsSound r)
