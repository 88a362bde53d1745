-- ===== src/Scheduler/Sound.antt =====
-- Every fiber of a scheduler is in one place, and the fiber count tells how many are left. The list
-- of the suspended fibers is kept nowhere in the program; here it is carried along.
use pixy.Base.{
  ℕ, ◌+◌, ◌-◌, ◌≤◌, ◌≡◌, ap, Option, none, some, List, [], ◌∷◌, ◌++◌, inl, inr, arith, Option-cases,
  if◌then◌else◌,
}
use pixy.Base.Lists.{
  length, length-append, count, count-append, take_out, get_back, count-take_out, length-take_out,
  List-cases, length-zero, get_back-append, get_back-some,
}
use pixy.Scheduler.{
  Scheduler, Control, returns, is_active, launch, add_fiber, dispatch, run_added,
  yield_current_fiber, suspend_current_fiber, resume_fiber, unresume_fiber, exit_current_fiber,
  save_context, tick, tick_return,
}

-- in how many places of the scheduler `f` is
abbrev pub places : Scheduler → ℕ → ℕ
places s f = (if is_active s f then 1 else 0) + count f s.ready_fibers + count f s.dead_fibers

abbrev pub active_count : Scheduler → ℕ
active_count s = elim s.active_fiber [ none ↦ 0 | some f ↦ 1 ]

pub record IsSound (s : Scheduler) (suspended : List ℕ) : Type 0 where
  pub once : (f : ℕ) → places s f + count f suspended ≤ 1
  pub counted : s.fiber_count ≡ active_count s + length s.ready_fibers + length suspended

-- the scheduler with no fiber running
abbrev pub idle : Scheduler → Scheduler
idle s = record s { active_fiber = none }

-- The operation returns, and `P` holds of the state and of where execution goes on.
abbrev pub Returns : (Scheduler → Control → Type 0) → Option (Scheduler × Control) → Type 0
Returns P none = ⊥
Returns P (some (s, c)) = P s c

pub dispatch-IsSound :
    (s : Scheduler) (suspended : List ℕ)
    → IsSound (idle s) suspended
    → IsSound (dispatch s).0 suspended
unfolding dispatch
dispatch-IsSound s suspended h = record {
  once = λ f. ground (arith, h.once f);
  counted = ground (arith, h.counted);
}

module _ (s : Scheduler) (suspended : List ℕ) (h : IsSound s suspended) where
  launch-IsSound :
      (f function argument : ℕ)
      → places s f + count f suspended ≡ 0
      → IsSound (launch s f function argument) suspended
  unfolding launch
  launch-IsSound f function argument new = record {
    once = λ g. ground (arith, h.once g, count-append g s.ready_fibers (f ∷ []), new);
    counted = ground (arith, h.counted, length-append s.ready_fibers (f ∷ []));
  }

  -- A dead fiber is used again.
  revived-IsSound :
      (rest : List ℕ) (f : ℕ)
      → s.dead_fibers ≡ rest ++ f ∷ []
      → (function argument : ℕ)
      → IsSound (launch (record s { dead_fibers = rest }) f function argument) suspended
  unfolding launch
  revived-IsSound rest f e function argument = record {
    once = λ g. ground (
      arith,
      h.once g,
      ap (count g) e,
      count-append g rest (f ∷ []),
      count-append g s.ready_fibers (f ∷ []),
    );
    counted = ground (arith, h.counted, length-append s.ready_fibers (f ∷ []));
  }

  pub add_fiber-IsSound :
      (function argument : ℕ) (allocated : Option ℕ)
      → ((f : ℕ) → allocated ≡ some f → places s f + count f suspended ≡ 0)
      → IsSound (add_fiber s function argument allocated).1 suspended
  unfolding add_fiber
  add_fiber-IsSound function argument allocated new = elim (Option-cases (get_back s.dead_fibers)) [
    | inr ((rest, f), e) ↦
        rw (e, add_fiber)
          (revived-IsSound rest f (get_back-some s.dead_fibers rest f e) function argument)
    | inl e ↦ elim (Option-cases allocated) [
      | inl failed ↦ rw (e, failed, add_fiber) h
      | inr (f, given) ↦ rw (e, given, add_fiber) (launch-IsSound f function argument (new f given))
    ]
  ]

  -- The running fiber `a` gives way.
  module _ (a : ℕ) (e : s.active_fiber ≡ some a) where
    abbrev parked : Scheduler
    parked = record (save_context a s) { ready_fibers = s.ready_fibers ++ a ∷ [] }

    abbrev exited : Scheduler
    exited = record s { dead_fibers = s.dead_fibers ++ a ∷ []; fiber_count = s.fiber_count - 1 }

    parked-IsSound : IsSound (idle parked) suspended
    unfolding save_context
    parked-IsSound = record {
      once = λ g. ground (arith, h.once g, count-append g s.ready_fibers (a ∷ []), e);
      counted = ground (arith, h.counted, length-append s.ready_fibers (a ∷ []), e);
    }

    pub yield_current_fiber-IsSound : Returns (λ t c. IsSound t suspended) (yield_current_fiber s)
    unfolding yield_current_fiber
    yield_current_fiber-IsSound = elim (List-cases s.ready_fibers) [
      | inl none_ready ↦
          let unchanged : yield_current_fiber s ≡ some (s, returns) =
            ground (arith, e, none_ready) in
          rw unchanged h
      | inr (f, rest, some_ready) ↦
          let switched : yield_current_fiber s ≡ some (dispatch parked) =
            ground (arith, e, some_ready) in
          rw switched (dispatch-IsSound parked suspended parked-IsSound)
    ]

    pub suspend_current_fiber-IsSound :
        Returns (λ t c. IsSound t (a ∷ suspended)) (suspend_current_fiber s)
    unfolding suspend_current_fiber
    suspend_current_fiber-IsSound = rw e (
        dispatch-IsSound (save_context a s) (a ∷ suspended) (record {
          once = λ g. ground (arith, h.once g, e);
          counted = ground (arith, h.counted, e);
        }))

    pub exit_current_fiber-IsSound : Returns (λ t c. IsSound t suspended) (exit_current_fiber s)
    unfolding exit_current_fiber
    exit_current_fiber-IsSound = rw e (
        dispatch-IsSound exited suspended (record {
          once = λ g. ground (arith, h.once g, count-append g s.dead_fibers (a ∷ []), e);
          counted = ground (arith, h.counted, e);
        }))

  pub resume_fiber-IsSound :
      (f : ℕ) (rest : List ℕ) (t : Scheduler)
      → take_out f suspended ≡ some rest
      → resume_fiber s f ≡ some t
      → IsSound t rest
  unfolding resume_fiber
  resume_fiber-IsSound f rest t e r = record {
    once = λ g. ground (
      arith,
      h.once g,
      count-append g s.ready_fibers (f ∷ []),
      count-take_out f g suspended rest e,
    );
    counted = ground (
      arith,
      h.counted,
      length-append s.ready_fibers (f ∷ []),
      length-take_out f suspended rest e,
    );
  }

  pub unresume_fiber-IsSound :
      (f : ℕ) (t : Scheduler) → unresume_fiber s f ≡ some t → IsSound t (f ∷ suspended)
  unfolding unresume_fiber
  unresume_fiber-IsSound f t r = elim (Option-cases (take_out f s.ready_fibers)) [
    | inl e ↦ ground (arith, e)
    | inr (rest, e) ↦ record {
      once = λ g. ground (arith, h.once g, e, count-take_out f g s.ready_fibers rest e);
      counted = ground (arith, h.counted, e, length-take_out f s.ready_fibers rest e);
    }
  ]

  pub tick-IsSound : s.active_fiber ≡ none → Returns (λ t c. IsSound t suspended) (tick s)
  unfolding tick
  tick-IsSound e = elim (List-cases s.ready_fibers) [
    | inl none_ready ↦
        let unchanged : tick s ≡ some (s, returns) = ground (arith, e, none_ready) in rw unchanged h
    | inr (f, rest, some_ready) ↦
        let switched : tick s ≡ some (dispatch s) = ground (arith, e, some_ready) in
        rw switched (
          dispatch-IsSound s suspended (record {
            once = λ g. ground (arith, h.once g, e);
            counted = ground (arith, h.counted, e);
          }))
  ]

  pub tick_return-IsSound : IsSound (tick_return s).1 suspended
  unfolding tick_return
  tick_return-IsSound = record {
    once = λ g. ground (arith, h.once g);
    counted = ground (arith, h.counted);
  }

  -- When the main loop finds the fiber count at zero, no fiber runs, is ready or is suspended.
  pub fiber_count-zero :
      s.fiber_count ≡ 0 → (s.active_fiber ≡ none) × (s.ready_fibers ≡ []) × (suspended ≡ [])
  fiber_count-zero z = (
    ground (arith, h.counted),
    length-zero s.ready_fibers (omega (arith, h.counted)),
    length-zero suspended (omega (arith, h.counted)),
  )

  -- The caller `a` of Scheduler_AddAndRunFiber, with the new fiber `f` at the back.
  pub run_added-IsSound :
      (a f : ℕ) (r : List ℕ)
      → s.active_fiber ≡ some a
      → s.ready_fibers ≡ r ++ f ∷ []
      → Returns (λ t c. IsSound t suspended) (run_added a s)
  unfolding run_added
  run_added-IsSound a f r e q =
      rw (q, get_back-append (a ∷ r) f, run_added)
        (record {
          once = λ g. ground (arith, h.once g, e, ap (count g) q, count-append g r (f ∷ []));
          counted = ground (arith, h.counted, e, ap (length {A = ℕ}) q, length-append r (f ∷ []));
        })
