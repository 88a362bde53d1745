-- ===== src/Async.antt =====
-- Source/Async.c and Async.h. `calls` are the function and argument of each call that the elements of the call
-- vector are; the vector itself says how many fit. Functions are addresses. What `realloc` does is a
-- parameter.
pub mod Order
use pixy.Base.{ℕ, zero, suc, ◌+◌, Bool, true, false, List, [], ◌∷◌, ◌==◌, if◌then◌else◌}
use pixy.Vector.{Vector, Realloc, set_length, get_length}
use pixy.Vector

pub record AsyncCall : Type 0 where
  pub function : ℕ
  pub argument : ℕ

pub record Async : Type 0 where
  pub call_vector : Vector
  pub number_of_calls : ℕ
  pub calls : ℕ → AsyncCall

-- Async_Initialize; a call is of sixteen bytes
unfoldable pub initialize : Async → Async
initialize self = record self { call_vector = Vector.initialize 16; number_of_calls = 0 }

-- `calls[self->numberOfCalls++] = ...`
unfoldable pub put_call : Async → (function argument : ℕ) → Async
put_call self function argument = record self {
  calls = λ i.
      if i == self.number_of_calls
      then (record { function = function; argument = argument })
      else (self.calls i);
  number_of_calls = self.number_of_calls + 1;
}

-- Async_AddCall
unfoldable pub add_call : Realloc → Async → (function argument : ℕ) → Bool × Async
unfolding put_call
add_call realloc self function argument =
    if self.number_of_calls == get_length self.call_vector
    then (let (ok, vector) = set_length realloc self.call_vector (self.number_of_calls + 1) false in
        if ok
        then (true, put_call (record self { call_vector = vector }) function argument)
        else (false, self))
    else (true, put_call self function argument)

-- `count` calls from the one at `i`
unfoldable pub calls_from : (ℕ → AsyncCall) → (i count : ℕ) → List AsyncCall
calls_from calls i zero = []
calls_from calls i (suc count) = calls i ∷ calls_from calls (suc i) count

-- Async_DispatchCalls: the calls made, in order, and the state behind them. A call that is made must
-- not add one.
unfoldable pub dispatch_calls : Async → List AsyncCall × Async
unfolding calls_from
dispatch_calls self =
    (calls_from self.calls 0 self.number_of_calls, record self { number_of_calls = 0 })
