-- ===== src/ThreadPool.antt =====
-- Source/ThreadPool.c and ThreadPool.h. A work is the address of its `struct Work`, and of the list item in it; the
-- work list is a sequence of addresses. What a thread does with the mutex held is one function: the
-- mutex lets no other thread in between. A worker is in one of five phases; pthread_cond_wait ends
-- one function, and the worker locks the mutex again once it is woken. `woken` is the choice of
-- pthread_cond_signal: which of the threads that wait are woken.
pub mod Steps
pub mod Turns
pub mod Kept
pub mod Run
pub mod End
pub mod Setup
pub mod Posix
pub mod Tests
use pixy.Base.{
  ℕ, zero, suc, ◌+◌, ◌<◌, ◌≡◌, Bool, true, false, ◌&&◌, List, [], ◌∷◌, ◌++◌, ◌==◌, if◌then◌else◌,
  Option, none, some, ltb,
}
use pixy.Base.Lists.{length, take_out}

-- locking the mutex; in pthread_cond_wait; behind the unlocking, with a work to do; behind the call of
-- its function; out of the loop
pub data Phase : Type 0 where
  locking : Phase
  waiting : Phase
  running : (work : ℕ) → Phase
  writing : (work : ℕ) → Phase
  exited : Phase

pub record Work : Type 0 where
  pub function : ℕ
  pub argument : ℕ
  pub user_data : ℕ
  pub callback : ℕ

-- `struct ThreadPool` with the phases of its two threads, the pointers that are in the pipe, and the
-- works in memory
pub record ThreadPool : Type 0 where
  pub work_list : List ℕ
  pub stop_signal : ℕ
  pub first : Phase
  pub second : Phase
  pub pipe : List ℕ
  pub works : ℕ → Work

-- ThreadPool_Start; the work list is empty since ThreadPool_Initialize
unfoldable pub start : ThreadPool → ThreadPool
start self = record self { first = locking; second = locking }

-- what pthread_cond_signal does to a thread
abbrev pub wake : Bool → Phase → Phase
wake chosen waiting = if chosen then locking else waiting
wake chosen locking = locking
wake chosen (running w) = running w
wake chosen (writing w) = writing w
wake chosen exited = exited

-- pthread_cond_signal; the first Boolean is the choice of the first thread
unfoldable pub signal : (woken : Bool × Bool) → ThreadPool → ThreadPool
signal woken self = record self {
  first = wake woken.0 self.first;
  second = wake woken.1 self.second;
}

abbrev pub is_empty : List ℕ → Bool
is_empty [] = true
is_empty (x ∷ xs) = false

-- ThreadPool_InsertWorkListItem
unfoldable pub insert_work_list_item : ThreadPool → (item : ℕ) → (woken : Bool × Bool) → ThreadPool
unfolding signal
insert_work_list_item self item woken =
    let inserted = record self { work_list = self.work_list ++ item ∷ [] } in
    if is_empty self.work_list then signal woken inserted else inserted

-- ThreadPool_PostWork
unfoldable pub post_work :
    ThreadPool
    → (work function argument user_data callback : ℕ) → (woken : Bool × Bool) → ThreadPool
unfolding insert_work_list_item
post_work self work function argument user_data callback woken =
    let fields : Work = record {
      function = function;
      argument = argument;
      user_data = user_data;
      callback = callback;
    } in
    insert_work_list_item
      (record self { works = λ w. if w == work then fields else (self.works w) }) work woken

-- ThreadPool_Stop, up to the joining of the threads
unfoldable pub stop : ThreadPool → (woken : Bool × Bool) → ThreadPool
unfolding insert_work_list_item
stop self woken = insert_work_list_item self self.stop_signal woken

abbrev pub is_exited : Phase → Bool
is_exited exited = true
is_exited locking = false
is_exited waiting = false
is_exited (running w) = false
is_exited (writing w) = false

-- ThreadPool_Stop, once both threads are joined; `none` if a thread still runs, or the stop signal is
-- not in the list
unfoldable pub stop_end : ThreadPool → Option ThreadPool
stop_end self =
    if is_exited self.first && is_exited self.second
    then (elim (take_out self.stop_signal self.work_list) [
      | none ↦ none
      | some rest ↦ some (record self { work_list = rest })
    ])
    else none

-- A turn of ThreadPool_Worker with the mutex held: the phase of the thread behind it, and the pool.
-- The thread itself does not wait, so that a signal does not change its phase.
unfoldable pub worker : ThreadPool → (woken : Bool × Bool) → Phase × ThreadPool
unfolding signal
worker self woken = elim self.work_list [
  | [] ↦ (waiting, self)
  | item ∷ rest ↦
      let removed = record self { work_list = rest } in
      if item == self.stop_signal
      then (exited, signal woken self)
      else (running item, if is_empty rest then removed else signal woken removed)
]

-- the room in the pipe, in pointers
abbrev pub pipe_capacity : ℕ
pipe_capacity = 8192

-- the first `count` pointers of the pipe, and the others
unfoldable pub split_pipe : (count : ℕ) → List ℕ → List ℕ × List ℕ
split_pipe count [] = ([], [])
split_pipe zero (w ∷ ws) = ([], w ∷ ws)
split_pipe (suc count) (w ∷ ws) = let (taken, left) = split_pipe count ws in (w ∷ taken, left)

-- the calls of WorkerCallback
unfoldable pub callbacks : (ℕ → Work) → List ℕ → List (ℕ × ℕ)
callbacks works [] = []
callbacks works (w ∷ ws) = ((works w).callback, (works w).user_data) ∷ callbacks works ws

-- WorkerCallback: the works read, the calls made (function and argument), and the pool; `none` is the fatal error
-- of xread where the pipe, which does not block, is empty
unfoldable pub worker_callback : ThreadPool → Option (List ℕ × List (ℕ × ℕ) × ThreadPool)
unfolding split_pipe callbacks
worker_callback self =
    let (read, left) = split_pipe 8192 self.pipe in
    if is_empty self.pipe
    then none
    else some (read, callbacks self.works read, record self { pipe = left })
