-- ===== src/Async/Order.antt =====
-- The calls that wait are a sequence: a call is added at its end, and all are made in its order.
use pixy.Base.{
  ℕ, zero, suc, ◌+◌, ◌<◌, ◌≡◌, refl, ◌∙◌, ap, arith, inl, inr, false, List, [], ◌∷◌, ◌++◌, ◌==◌,
  Bool-cases, if◌then◌else◌,
}
use pixy.Vector.{Realloc, set_length, get_length}
use pixy.Async.{Async, AsyncCall, add_call, put_call, calls_from}

-- what Async_DispatchCalls would call
abbrev pub waiting : Async → List AsyncCall
waiting a = calls_from a.calls 0 a.number_of_calls

calls_from-end :
    (calls : ℕ → AsyncCall) (i count : ℕ)
    → calls_from calls i (suc count) ≡ calls_from calls i count ++ calls (i + count) ∷ []
unfolding calls_from
calls_from-end calls i zero = ap (λ j. calls j ∷ []) (omega arith)
calls_from-end calls i (suc count) =
    ap (λ cs. calls i ∷ cs)
      (calls_from-end calls (suc i) count
        ∙ ap (λ j. calls_from calls (suc i) count ++ calls j ∷ []) (omega arith))

calls_from-same :
    (f g : ℕ → AsyncCall) (i count : ℕ)
    → ((j : ℕ) → j < i + count → f j ≡ g j)
    → calls_from f i count ≡ calls_from g i count
unfolding calls_from
calls_from-same f g i zero same = refl
calls_from-same f g i (suc count) same =
    rw (same i (omega arith), calls_from-same f g (suc i) count (λ j p. same j (omega arith))) refl

put_call-waiting :
    (a : Async) (function argument : ℕ)
    → waiting (put_call a function argument)
      ≡ waiting a ++ record { function = function; argument = argument } ∷ []
unfolding put_call
put_call-waiting a function argument =
    let n = a.number_of_calls in
    let call : AsyncCall = record { function = function; argument = argument } in
    let calls = (put_call a function argument).calls in
    let last : calls (0 + n) ≡ call = ground arith in
    ap (calls_from calls 0) (omega arith)
    ∙ calls_from-end calls 0 n
    ∙ ap (λ cs. cs ++ calls (0 + n) ∷ []) (calls_from-same calls a.calls 0 n (λ j p. ground arith))
    ∙ ap (λ c. waiting a ++ c ∷ []) last

-- Async_AddCall adds its call behind those that wait, or returns false and changes nothing.
pub add_call-waiting :
    (realloc : Realloc) (a : Async) (function argument : ℕ)
    → let (ok, r) = add_call realloc a function argument in
      waiting r ≡ (
        if ok
        then waiting a ++ record { function = function; argument = argument } ∷ []
        else waiting a)
unfolding add_call
add_call-waiting realloc a function argument =
    elim (Bool-cases (a.number_of_calls == get_length a.call_vector)) [
      | inr e ↦ rw e (put_call-waiting a function argument)
      | inl e ↦
          let grown = set_length realloc a.call_vector (a.number_of_calls + 1) false in
          elim (Bool-cases grown.0) [
            | inl f ↦
                rw (e, f) (put_call-waiting (record a { call_vector = grown.1 }) function argument)
            | inr f ↦ rw (e, f) refl
          ]
    ]
