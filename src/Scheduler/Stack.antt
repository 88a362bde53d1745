-- ===== src/Scheduler/Stack.antt =====
-- Fiber_Allocate, Fiber_Free and the start of a fiber in Source/Scheduler.c, on x86-64: where the stack of a fiber
-- is in the block that malloc gives. A block, a fiber and the stack pointer are addresses.
use pixy.Base.{
  ℕ, ◌+◌, ◌-◌, ◌%◌, ◌≤◌, ◌≡◌, refl, arith, Bool, true, false, Option, none, some, if◌then◌else◌,
}

-- FIBER_SIZE
abbrev pub fiber_size : ℕ
fiber_size = 65536

-- `sizeof (struct Fiber)`: seven words, and the padded number that Valgrind gives to a stack
abbrev pub struct_size : (use_valgrind : Bool) → ℕ
struct_size use_valgrind = if use_valgrind then 64 else 56

-- the fiber, with the fields that say where its stack is
pub record Stack : Type 0 where
  pub fiber : ℕ
  pub stack : ℕ
  pub stack_size : ℕ

-- Fiber_Allocate; `malloc` is what malloc returns
unfoldable pub allocate : (use_valgrind : Bool) → (malloc : Option ℕ) → Option Stack
allocate use_valgrind none = none
allocate use_valgrind (some region) = some (record {
  fiber = region + fiber_size - struct_size use_valgrind;
  stack = region;
  stack_size = fiber_size - struct_size use_valgrind;
})

-- Fiber_Free: the block that it frees
unfoldable pub free : (use_valgrind : Bool) → (fiber : ℕ) → ℕ
free use_valgrind fiber = fiber + struct_size use_valgrind - fiber_size

-- Scheduler_SwitchToFiber, for a fiber that has no context: the stack pointer with which
-- Scheduler_FiberStart begins, behind a push of eight bytes
unfoldable pub start_pointer : Stack → ℕ
start_pointer self = self.stack + self.stack_size - 8

-- For a block of malloc, which is a multiple of 16, the stack and the `struct Fiber` of Fiber_Allocate
-- fill the block, one behind the other, and Fiber_Free of the fiber frees this block. Scheduler_FiberStart
-- begins with the stack pointer eight bytes below the end of the stack. This end, which a call would have made a
-- multiple of 16, is one with Valgrind, and is eight bytes above one without.
pub allocate-free :
    (use_valgrind : Bool) (region : ℕ)
    → region % 16 ≡ 0
    → (s : Stack) × (allocate use_valgrind (some region) ≡ some s)
      × (s.stack ≡ region)
      × (s.stack + s.stack_size ≡ s.fiber)
      × (s.fiber + struct_size use_valgrind ≡ region + fiber_size)
      × (free use_valgrind s.fiber ≡ region)
      × (s.stack ≤ start_pointer s)
      × (start_pointer s + 8 ≡ s.fiber)
      × ((start_pointer s + 8) % 16 ≡ (if use_valgrind then 0 else 8))
unfolding allocate free start_pointer
allocate-free true region aligned =
    (_, refl, refl, omega arith, omega arith, omega arith, omega arith, omega arith, omega arith)
allocate-free false region aligned =
    (_, refl, refl, omega arith, omega arith, omega arith, omega arith, omega arith, omega arith)
