-- ===== src/ThreadPool/Steps.antt =====
-- The steps of the two workers and of the main thread, in any order.
use pixy.Base.{
  some, ℕ, ◌<◌, ◌≡◌, Bool, true, false, ◌&&◌, ◌||◌, List, [], ◌∷◌, ◌++◌, ◌==◌, if◌then◌else◌,
}
use pixy.Base.Lists.{length}
use pixy.ThreadPool.{
  ThreadPool, Phase, locking, waiting, running, writing, exited, start, post_work, stop, worker,
  worker_callback, pipe_capacity,
}

abbrev pub is_waiting : Phase → Bool
is_waiting waiting = true
is_waiting locking = false
is_waiting (running w) = false
is_waiting (writing w) = false
is_waiting exited = false

-- What pthread_cond_signal promises: if a thread waits, a thread that waits is woken.
abbrev pub IsSignal : ThreadPool → (woken : Bool × Bool) → Type 0
IsSignal p woken =
    (is_waiting p.first || is_waiting p.second) ≡ true
    → ((woken.0 && is_waiting p.first) || (woken.1 && is_waiting p.second)) ≡ true

-- The pool, whether it is stopped, the works that were posted, that were taken from the list, and that
-- the main thread has read from the pipe, each in order.
pub record System : Type 0 where
  pub pool : ThreadPool
  pub stopped : Bool
  pub posted : List ℕ
  pub taken : List ℕ
  pub received : List ℕ

-- the work that a turn has taken
abbrev pub work_of : Phase → List ℕ
work_of (running w) = w ∷ []
work_of (writing w) = w ∷ []
work_of locking = []
work_of waiting = []
work_of exited = []

-- one of the two threads: its phase, and the pool in which it has another
abbrev pub phase : Bool → ThreadPool → Phase
phase b p = if b then p.second else p.first

abbrev pub set_phase : Bool → Phase → ThreadPool → ThreadPool
set_phase b f p = if b then record p { second = f } else (record p { first = f })

abbrev pub turned : Bool → (woken : Bool × Bool) → System → System
turned b woken s =
    let (f, p) = worker s.pool woken in
    record s { pool = set_phase b f p; taken = s.taken ++ work_of f }

-- what a worker does: in turn with the mutex, call the function of its work, write to the pipe, or come
-- out of pthread_cond_wait with no signal
pub data Works (b : Bool) (s : System) : System → Type 0 where
  turns :
      (woken : Bool × Bool)
      → phase b s.pool ≡ locking
      → IsSignal s.pool woken
      → Works b s (turned b woken s)
  calls :
      (w : ℕ)
      → phase b s.pool ≡ running w
      → Works b s (record s { pool = set_phase b (writing w) s.pool })
  writes :
      (w : ℕ)
      → phase b s.pool ≡ writing w
      → length s.pool.pipe < pipe_capacity
      → Works b s
          (record s { pool = set_phase b locking (record s.pool { pipe = s.pool.pipe ++ w ∷ [] }) })

pub data Step (s : System) : System → Type 0 where
  works : (b : Bool) {t : System} → Works b s t → Step s t
  wakes_up :
      (b : Bool)
      → phase b s.pool ≡ waiting
      → Step s (record s { pool = set_phase b locking s.pool })
  posts :
      (w function argument user_data callback : ℕ) (woken : Bool × Bool)
      → s.stopped ≡ false
      → (w == s.pool.stop_signal) ≡ false
      → IsSignal s.pool woken
      → Step s (record s {
        pool = post_work s.pool w function argument user_data callback woken;
        posted = s.posted ++ w ∷ [];
      })
  stops :
      (woken : Bool × Bool)
      → s.stopped ≡ false
      → IsSignal s.pool woken
      → Step s (record s { pool = stop s.pool woken; stopped = true })
  reads :
      (read : List ℕ) (called : List (ℕ × ℕ)) (p : ThreadPool)
      → worker_callback s.pool ≡ some (read, called, p)
      → Step s (record s { pool = p; received = s.received ++ read })

pub data Reach : System → Type 0 where
  begin :
      (p : ThreadPool)
      → p.work_list ≡ []
      → p.pipe ≡ []
      → Reach (record { pool = start p; stopped = false; posted = []; taken = []; received = [] })
  later : {s t : System} → Reach s → Step s t → Reach t
