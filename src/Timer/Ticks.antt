-- ===== src/Timer/Ticks.antt =====
-- Timer_Tick: which timeouts it takes out of the heap, and which calls it adds for them.
use mathlib.Core.List.{append-nil, append_assoc}
use pixy.Base.{
  ℕ, zero, suc, ◌+◌, ◌<◌, ◌≤◌, ◌≡◌, refl, ◌∙◌, ap, sym, arith, inl, inr, Bool, true, false, List,
  [], ◌∷◌, ◌++◌, ◌==◌, Bool-cases, if◌then◌else◌, ltb, not, ◌&&◌,
}
use pixy.Base.Lists.{count}
use pixy.Vector.{Realloc}
use pixy.Heap.Whole.{IsHeap, contains, get_top-least}
use pixy.Heap.Remove.{remove_node-IsHeap}
use pixy.Async.{Async, AsyncCall, add_call}
use pixy.Async.Order.{waiting, add_call-waiting}
use pixy.Timer.{Timer, compare_timeouts, clear_timeout, tick_loop, tick}
use pixy.Timer.Comparer.{compare_timeouts-IsComparer}

abbrev pub one_if : Bool → ℕ
one_if b = if b then 1 else 0

-- The timeouts are in the order of their due times.
abbrev pub IsRising : (due_time : ℕ → ℕ) → List ℕ → Type 0
IsRising due_time [] = Unit {0}
IsRising due_time (t ∷ ts) =
    ((a : ℕ) → 0 < count a ts → due_time t ≤ due_time a) × IsRising due_time ts

-- the calls of timeouts, in order
abbrev pub calls_of : Timer → List ℕ → List AsyncCall
calls_of self [] = []
calls_of self (t ∷ ts) =
    record { function = self.callback t; argument = self.user_data t } ∷ calls_of self ts

-- What a tick at `now` has done once it leaves `t` and `a`: `fired` are the timeouts taken out.
pub record Ticked (self : Timer) (async : Async) (now : ℕ) (ok : Bool) (t : Timer) (a : Async)
    : Type 0 where
  pub fired : List ℕ
  pub whole : IsHeap self.due_time t.timeout_heap
  pub moved :
      (x : ℕ)
      → count x fired + one_if (contains t.timeout_heap x) ≡ one_if (contains self.timeout_heap x)
  pub due : (x : ℕ) → 0 < count x fired → self.due_time x ≤ now
  pub rising : IsRising self.due_time fired
  pub added : waiting a ≡ waiting async ++ calls_of self fired
  pub complete : ok ≡ true → (x : ℕ) → contains t.timeout_heap x ≡ true → now < self.due_time x

module _ (self : Timer) (async : Async) (now : ℕ) (w : IsHeap self.due_time self.timeout_heap) where
  -- the loop ends, with nothing taken out in this round
  ends :
      (ok : Bool) (a : Async)
      → waiting a ≡ waiting async
      → (ok ≡ true → (x : ℕ) → contains self.timeout_heap x ≡ true → now < self.due_time x)
      → Ticked self async now ok self a
  ends ok a same complete = record {
    fired = [];
    whole = w;
    moved = λ x. omega arith;
    due = λ x p. absurd (omega arith);
    rising = tt;
    added = same ∙ sym (append-nil (waiting async));
    complete = complete;
  }

  -- `timeout` is taken out, and the rounds behind that one are as claimed
  goes_on :
      (timeout : ℕ) (ok : Bool) (t : Timer) (a b : Async)
      → contains self.timeout_heap timeout ≡ true
      → ((x : ℕ) → contains self.timeout_heap x ≡ true → self.due_time timeout ≤ self.due_time x)
      → self.due_time timeout ≤ now
      → ((x : ℕ)
          → contains (clear_timeout self timeout).timeout_heap x
            ≡ (contains self.timeout_heap x && not (x == timeout)))
      → waiting b
        ≡ waiting async
          ++ record { function = self.callback timeout; argument = self.user_data timeout } ∷ []
      → Ticked (clear_timeout self timeout) b now ok t a
      → Ticked self async now ok t a
  unfolding clear_timeout
  goes_on timeout ok t a b member least early left added s = record {
    fired = timeout ∷ s.fired;
    whole = s.whole;
    moved = λ x. ground (arith, s.moved x, left x, member);
    due = λ x p. ground (arith, s.due x, early, p);
    rising = (λ x p. ground (arith, s.moved x, left x, p, least x), s.rising);
    added =
        s.added
        ∙ ap (λ cs. cs ++ calls_of self s.fired) added
        ∙ append_assoc (waiting async) _ (calls_of self s.fired);
    complete = s.complete;
  }

module _ (realloc : Realloc) where
  tick_loop-Ticked :
      (fuel now : ℕ) (self : Timer) (async : Async)
      → self.timeout_heap.number_of_nodes ≤ fuel
      → IsHeap self.due_time self.timeout_heap
      → let (ok, t, a) = tick_loop realloc fuel now self async in Ticked self async now ok t a
  unfolding tick_loop clear_timeout
  tick_loop-Ticked zero now self async enough w =
      ends self async now w true async refl (λ e x c. absurd (ground (arith, c)))
  tick_loop-Ticked (suc fuel) now self async enough w =
      elim (get_top-least self.due_time self.timeout_heap w) [
        | inl (e, f) ↦
            rw (e, tick_loop)
              (ends self async now w true async refl (λ g x c. absurd (ground (arith, c, f))))
        | inr (timeout, e, member, least) ↦
            let call = add_call realloc async (self.callback timeout) (self.user_data timeout) in
            let q =
              add_call-waiting realloc async (self.callback timeout) (self.user_data timeout) in
            elim (Bool-cases (ltb now (self.due_time timeout))) [
              | inl f ↦
                  rw (e, f, tick_loop)
                    (ends self async now w true async refl (λ g x c. ground (arith, f, least x c)))
              | inr f ↦ elim (Bool-cases call.0) [
                | inr g ↦
                    rw (e, f, g, tick_loop)
                      (ends self async now w false call.1 (ground (arith, q, g))
                        (λ ok. absurd (ground (arith, ok))))
                | inl g ↦
                    let (whole, left, fewer) =
                      remove_node-IsHeap (compare_timeouts self.due_time) self.due_time
                        (compare_timeouts-IsComparer self.due_time) self.timeout_heap timeout w
                        member in
                    rw (e, f, g, tick_loop)
                      (goes_on self async now w timeout _ _ _ call.1 member least
                        (ground (arith, f)) left (ground (arith, q, g))
                        (tick_loop-Ticked fuel now (clear_timeout self timeout) call.1
                          (omega (arith, fewer)) whole))
              ]
            ]
      ]

  -- Where the timeouts are a heap, Timer_Tick takes timeouts that are due out of it, each once, in the
  -- order of their due times, adds their calls in that order, and leaves a heap of the others. If it
  -- returns true, no timeout that is due is left.
  pub tick-Ticked :
      (now : ℕ) (self : Timer) (async : Async)
      → IsHeap self.due_time self.timeout_heap
      → let (ok, t, a) = tick realloc now self async in Ticked self async now ok t a
  unfolding tick
  tick-Ticked now self async w =
      tick_loop-Ticked self.timeout_heap.number_of_nodes now self async (omega arith) w
