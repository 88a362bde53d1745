-- ===== src/ThreadPool/Posix.antt =====
-- The calls of POSIX threads in Source/ThreadPool.c, with their wrappers. What a call returns is a parameter: 0, or
-- an error number, which is positive. `none` is a fatal error.
use pixy.Base.{
  ℕ, zero, suc, ◌≡◌, refl, ap, ◌∙◌, arith, false, Option, none, some, if◌then◌else◌, ◌>>=◌,
}
use pixy.Base.Int.{ℤ, pos, ltb_ℤ}

pub data PthreadCall : Type 0 where
  mutex_init : PthreadCall
  mutex_destroy : PthreadCall
  mutex_lock : PthreadCall
  mutex_unlock : PthreadCall
  cond_init : PthreadCall
  cond_destroy : PthreadCall
  cond_wait : PthreadCall
  cond_signal : PthreadCall
  create : (thread : ℕ) → PthreadCall
  join : (thread : ℕ) → PthreadCall

module _ {W : Type 0} (pthread : W → PthreadCall → ℤ × W) where
  -- xpthread_mutex_init, and the other nine: the test of each is whether the result is below 0
  unfoldable pub x_pthread : PthreadCall → W → Option W
  x_pthread call w =
      let (result, after) = pthread w call in if ltb_ℤ result (pos 0) then none else some after

  -- the loop of ThreadPool_Start, and that of ThreadPool_Stop: `count` threads from `thread` on
  unfoldable pub create_threads : (count thread : ℕ) → W → Option W
  unfolding x_pthread
  create_threads zero thread w = some w
  create_threads (suc n) thread w = do
    after ← x_pthread (create thread) w
    create_threads n (suc thread) after

  unfoldable pub join_threads : (count thread : ℕ) → W → Option W
  unfolding x_pthread
  join_threads zero thread w = some w
  join_threads (suc n) thread w = do
    after ← x_pthread (join thread) w
    join_threads n (suc thread) after

  -- the calls of ThreadPool_Start
  unfoldable pub start_threads : W → Option W
  unfolding x_pthread create_threads
  start_threads w = do
    one ← x_pthread mutex_init w
    two ← x_pthread cond_init one
    create_threads 2 0 two

  -- the calls of ThreadPool_Stop behind the stop signal
  unfoldable pub stop_threads : W → Option W
  unfolding x_pthread join_threads
  stop_threads w = do
    joined ← join_threads 2 0 w
    one ← x_pthread mutex_destroy joined
    x_pthread cond_destroy one

  module _
      (documented : (w : W) (call : PthreadCall) → (n : ℕ) × ((pthread w call).0 ≡ pos n)) where
    -- the test of a wrapper
    unseen : (w : W) (call : PthreadCall) → ltb_ℤ (pthread w call).0 (pos 0) ≡ false
    unseen w call =
        let (n, same) = documented w call in ap (λ r. ltb_ℤ r (pos 0)) same ∙ ground arith

    -- Where each function returns 0 or a positive error number, as POSIX has it, no wrapper sees an error:
    -- the calls of ThreadPool_Start and of ThreadPool_Stop go on whatever failed, one after the other.
    pub start_threads-unseen :
        (w : W)
        → let call = λ (c : PthreadCall) (v : W). (pthread v c).1 in
          (start_threads w
            ≡ some (call (create 1) (call (create 0) (call cond_init (call mutex_init w)))))
          × (stop_threads w
              ≡ some (call cond_destroy (call mutex_destroy (call (join 1) (call (join 0) w)))))
    unfolding start_threads create_threads stop_threads join_threads
    start_threads-unseen w =
        let call = λ (c : PthreadCall) (v : W). (pthread v c).1 in
        let begun = call cond_init (call mutex_init w) in
        let joined = call (join 1) (call (join 0) w) in
        (
          rw
              (
                unseen w mutex_init,
                unseen (call mutex_init w) cond_init,
                unseen begun (create 0),
                unseen (call (create 0) begun) (create 1),
              )
              refl,
          rw
              (
                unseen w (join 0),
                unseen (call (join 0) w) (join 1),
                unseen joined mutex_destroy,
                unseen (call mutex_destroy joined) cond_destroy,
              )
              refl,
        )
