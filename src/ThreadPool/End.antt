-- ===== src/ThreadPool/End.antt =====
-- Behind the stop signal: the workers come to their ends, in any order of their steps.
use pixy.Base.{
  ℕ, suc, ◌+◌, ◌*◌, ◌<◌, ◌≤◌, ◌≡◌, refl, sym, ap, subst, inl, inr, arith, Bool, true, false, ◌&&◌,
  ◌||◌, List, ◌∷◌, ◌==◌, if◌then◌else◌, Bool-cases,
}
use pixy.Base.Lists.{length, List-cases}
use pixy.ThreadPool.{
  ThreadPool, Phase, locking, waiting, running, writing, exited, is_exited, is_empty, wake, signal,
  pipe_capacity,
}
use pixy.ThreadPool.Steps.{
  System, Works, turns, calls, writes, Reach, is_waiting, phase, set_phase, turned,
}
use pixy.ThreadPool.Turns.{worker_on, worker-run, Inv}
use pixy.ThreadPool.Kept.{Reach-Inv}

-- how far a thread is from its exit
abbrev pub distance : Phase → ℕ
distance exited = 0
distance waiting = 1
distance locking = 2
distance (writing w) = 3
distance (running w) = 4

abbrev pub steps_left : ThreadPool → ℕ
steps_left p = 4 * length p.work_list + distance p.first + distance p.second

wake-distance :
    (b : Bool) (f : Phase) → distance (wake b f) ≤ distance f + (if is_waiting f then 1 else 0)
wake-distance b f = ground arith

turn-steps_left :
    (b : Bool) (p : ThreadPool) (woken : Bool × Bool) (item : ℕ) (rest : List ℕ)
    → phase b p ≡ locking
    → p.work_list ≡ item ∷ rest
    → let (f, r) = worker_on p woken (item ∷ rest) in steps_left (set_phase b f r) < steps_left p
unfolding signal
turn-steps_left b p woken item rest at e =
    let list : length p.work_list ≡ suc (length rest) = ap length e in
    let one = wake-distance woken.0 p.first in
    let two = wake-distance woken.1 p.second in
    elim (Bool-cases (item == p.stop_signal)) [
      | inl same ↦ rw same (ground (arith, at, one, two))
      | inr other ↦ elim (Bool-cases (is_empty rest)) [
        | inl k ↦ rw (other, k) (ground (arith, at, list))
        | inr k ↦ rw (other, k) (ground (arith, at, list, one, two))
      ]
    ]

-- the end of the pool has come
stopped_list : (s : System) → Inv s → s.stopped ≡ true → is_empty s.pool.work_list ≡ false
stopped_list s i e = elim (List-cases i.pending) [
  | inl f ↦ ground (arith, i.listed, e, f)
  | inr (x, xs, f) ↦ ground (arith, i.listed, f)
]

-- One of the threads neither waits nor has left.
someone :
    (s : System)
    → Inv s
    → s.stopped ≡ true
    → (is_exited s.pool.first && is_exited s.pool.second) ≡ false
    → (b : Bool) × (is_waiting (phase b s.pool) ≡ false) × (is_exited (phase b s.pool) ≡ false)
someone s i e f = elim (Bool-cases (is_waiting s.pool.first || is_exited s.pool.first)) [
  | inr g ↦ (false, ground (arith, g), ground (arith, g))
  | inl g ↦ (
    true,
    ground (arith, g, f, i.attended (stopped_list s i e)),
    ground (arith, g, f, i.attended (stopped_list s i e)),
  )
]

goes_on :
    (b : Bool) (s : System) (f : Phase)
    → phase b s.pool ≡ f
    → is_waiting f ≡ false
    → is_exited f ≡ false
    → length s.pool.pipe < pipe_capacity
    → (t : System) × Works b s t
goes_on b s locking at p q room =
    (turned b (true, true) s, turns (true, true) at (λ e. ground (arith, e)))
goes_on b s waiting at p q room = absurd (ground (arith, p))
goes_on b s (running w) at p q room = (_, calls w at)
goes_on b s (writing w) at p q room = (_, writes w at room)
goes_on b s exited at p q room = absurd (ground (arith, q))

-- In every reachable state behind the stop signal, where there is room in the pipe, some worker can do a
-- step, unless both have left their loops.
pub stopped-Works :
    {s : System}
    → Reach s
    → s.stopped ≡ true
    → length s.pool.pipe < pipe_capacity
    → (is_exited s.pool.first && is_exited s.pool.second) ≡ false
    → (b : Bool) × (t : System) × Works b s t
stopped-Works {s} r e room f =
    let i = Reach-Inv r in
    let (b, p, q) = someone s i e f in
    let (t, v) = goes_on b s (phase b s.pool) refl p q room in (b, t, v)

-- In every reachable state behind the stop signal, each step of a worker other than coming out of
-- pthread_cond_wait with no signal brings the workers nearer to their ends.
pub Works-steps_left :
    (b : Bool) {s t : System}
    → Reach s
    → s.stopped ≡ true
    → Works b s t
    → steps_left t.pool < steps_left s.pool
Works-steps_left b {s} r e (turns woken at given) = elim (List-cases s.pool.work_list) [
  | inl f ↦ absurd (ground (arith, f, stopped_list s (Reach-Inv r) e))
  | inr (item, rest, f) ↦
      subst (λ x. steps_left (set_phase b x.0 x.1) < steps_left s.pool)
        (sym (worker-run s.pool woken (item ∷ rest) f))
        (turn-steps_left b s.pool woken item rest at f)
]
Works-steps_left b {s} r e (calls w at) = ground (arith, at)
Works-steps_left b {s} r e (writes w at room) = ground (arith, at)
