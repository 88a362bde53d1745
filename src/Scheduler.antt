-- ===== src/Scheduler.antt =====
-- Source/Scheduler.c and Scheduler.h. A fiber is the address of its `struct Fiber`, and of the list item in
-- it. The two lists of the scheduler are the sequences that `Links.Ring` shows their links to stand
-- for. A stack switch does not return, so each operation ends in a `Control` that says where
-- execution goes on; `none` is a failed assertion, or the removal of a fiber that is not in the list.
pub mod Sound
pub mod Run
pub mod Turns
pub mod Stack
pub mod Tests
use mathlib.Core.Option
use mathlib.Core.List
use pixy.Base.{
  ℕ, ◌+◌, ◌-◌, Bool, true, false, Option, none, some, List, [], ◌∷◌, ◌++◌, ◌==◌, if◌then◌else◌,
}
use pixy.Base.Lists.{take_out, get_back}

-- `struct Fiber` less its list item and stack; `context` says whether the pointer is set
pub record Fiber : Type 0 where
  pub context : Bool
  pub function : ℕ
  pub argument : ℕ

pub record Scheduler : Type 0 where
  pub active_fiber : Option ℕ
  pub ready_fibers : List ℕ
  pub dead_fibers : List ℕ
  pub fiber_count : ℕ
  pub fibers : ℕ → Fiber

-- Where execution goes on: behind the call, in Scheduler_FiberStart on the fiber's own stack, at the
-- context that the fiber saved, or at the context that Scheduler_Tick saved.
pub data Control : Type 0 where
  returns : Control
  starts : (fiber function argument : ℕ) → Control
  continues : (fiber : ℕ) → Control
  main_loop : Control

abbrev pub set_fiber : ℕ → Fiber → Scheduler → Scheduler
set_fiber f v self = record self { fibers = λ g. if f == g then v else self.fibers g }

-- Scheduler_Initialize
unfoldable pub initialize : Scheduler → Scheduler
initialize self = record self {
  active_fiber = none;
  ready_fibers = [];
  dead_fibers = [];
  fiber_count = 0;
}

-- Scheduler_GetCurrentFiber
unfoldable pub get_current_fiber : Scheduler → Option ℕ
get_current_fiber self = self.active_fiber

unfoldable pub get_fiber_count : Scheduler → ℕ
get_fiber_count self = self.fiber_count

-- Scheduler_AddFiber, behind the choice of the fiber
unfoldable pub launch : Scheduler → (fiber function argument : ℕ) → Scheduler
launch self f function argument =
    let filled =
      set_fiber f (record { context = false; function = function; argument = argument }) self in
    record filled { ready_fibers = self.ready_fibers ++ f ∷ []; fiber_count = self.fiber_count + 1 }

-- Scheduler_AddFiber; `allocated` is what Fiber_Allocate returns, if it is called
unfoldable pub add_fiber :
    Scheduler → (function argument : ℕ) → (allocated : Option ℕ) → Bool × Scheduler
unfolding launch
add_fiber self function argument allocated = elim (get_back self.dead_fibers) [
  | none ↦ elim allocated [
    | none ↦ (false, self)
    | some f ↦ (true, launch self f function argument)
  ]
  | some (rest, f) ↦ (true, launch (record self { dead_fibers = rest }) f function argument)
]

-- Scheduler_SwitchToFiber
unfoldable pub switch_to_fiber : Scheduler → ℕ → Scheduler × Control
switch_to_fiber self f =
    let fiber = self.fibers f in
    (
      record self { active_fiber = some f },
      if fiber.context then continues f else starts f fiber.function fiber.argument,
    )

-- Scheduler_SwitchTo
unfoldable pub switch_to : Scheduler → Scheduler × Control
switch_to self = (record self { active_fiber = none }, main_loop)

-- the choice at the end of a suspension and of an exit: the front of the ready list, or the main loop
unfoldable pub dispatch : Scheduler → Scheduler × Control
unfolding switch_to_fiber switch_to
dispatch self = elim self.ready_fibers [
  | [] ↦ switch_to self
  | f ∷ rest ↦ switch_to_fiber (record self { ready_fibers = rest }) f
]

-- `self->activeFiber->context = &context`
unfoldable pub save_context : ℕ → Scheduler → Scheduler
save_context f self = set_fiber f (record (self.fibers f) { context = true }) self

-- Scheduler_AddAndRunFiber, once the new fiber is added: the caller goes to the front of the ready
-- list, and the fiber at its back, the new one, is run
unfoldable pub run_added : ℕ → Scheduler → Option (Scheduler × Control)
unfolding save_context switch_to_fiber
run_added active added =
    let saved = save_context active added in
    Option.map (λ (rest, f). switch_to_fiber (record saved { ready_fibers = rest }) f)
      (get_back (active ∷ added.ready_fibers))

-- Scheduler_AddAndRunFiber; the Boolean is what the call returns, at once or when `active` runs again
unfoldable pub add_and_run_fiber :
    Scheduler
    → (function argument : ℕ) → (allocated : Option ℕ) → Option (Bool × Scheduler × Control)
unfolding add_fiber run_added
add_and_run_fiber self function argument allocated = elim self.active_fiber [
  | none ↦ none
  | some active ↦
      let (ok, added) = add_fiber self function argument allocated in
      if ok
      then Option.map (λ (s, c). (true, s, c)) (run_added active added)
      else (some (false, added, returns))
]

-- Scheduler_YieldCurrentFiber
unfoldable pub yield_current_fiber : Scheduler → Option (Scheduler × Control)
unfolding save_context dispatch
yield_current_fiber self = elim self.active_fiber [
  | none ↦ none
  | some active ↦ elim self.ready_fibers [
    | [] ↦ some (self, returns)
    | f ∷ rest ↦
        let saved = save_context active self in
        some (dispatch (record saved { ready_fibers = self.ready_fibers ++ active ∷ [] }))
  ]
]

-- Scheduler_SuspendCurrentFiber
unfoldable pub suspend_current_fiber : Scheduler → Option (Scheduler × Control)
unfolding save_context dispatch
suspend_current_fiber self =
    Option.map (λ active. dispatch (save_context active self)) self.active_fiber

abbrev pub is_active : Scheduler → ℕ → Bool
is_active self f = elim self.active_fiber [ none ↦ false | some g ↦ g == f ]

-- Scheduler_ResumeFiber
unfoldable pub resume_fiber : Scheduler → ℕ → Option Scheduler
resume_fiber self f =
    if is_active self f
    then none
    else some (record self { ready_fibers = self.ready_fibers ++ f ∷ [] })

-- Scheduler_UnresumeFiber
unfoldable pub unresume_fiber : Scheduler → ℕ → Option Scheduler
unresume_fiber self f =
    if is_active self f
    then none
    else Option.map (λ rest. record self { ready_fibers = rest }) (take_out f self.ready_fibers)

-- Scheduler_ExitCurrentFiber
unfoldable pub exit_current_fiber : Scheduler → Option (Scheduler × Control)
unfolding dispatch
exit_current_fiber self =
    Option.map
      (λ active. dispatch (record self {
        dead_fibers = self.dead_fibers ++ active ∷ [];
        fiber_count = self.fiber_count - 1;
      }))
      self.active_fiber

-- Scheduler_Tick, up to the switch
unfoldable pub tick : Scheduler → Option (Scheduler × Control)
unfolding dispatch
tick self = elim self.active_fiber [
  | some active ↦ none
  | none ↦ elim self.ready_fibers [ [] ↦ some (self, returns) | f ∷ rest ↦ some (dispatch self) ]
]

-- Scheduler_Tick, after a fiber has jumped back to it: the fibers freed, in order, and the new state
unfoldable pub tick_return : Scheduler → List ℕ × Scheduler
tick_return self = (List.reverse self.dead_fibers, record self { dead_fibers = [] })

-- Scheduler_Finalize: the fibers freed, in order
unfoldable pub finalize : Scheduler → Option (List ℕ)
finalize self = elim self.active_fiber [
  | some active ↦ none
  | none ↦ some (List.reverse self.ready_fibers)
]
