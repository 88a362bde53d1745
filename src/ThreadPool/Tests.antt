-- ===== src/ThreadPool/Tests.antt =====
-- One work is posted, the stop signal is given, and the workers come to their ends.
use pixy.Base.{ℕ, suc, ◌+◌, ◌<◌, ◌≡◌, refl, arith, Bool, true, false, List, [], ◌∷◌, ◌++◌, some}
use pixy.Base.Int.{ℤ, pos}
use pixy.Base.Lists.{count}
use pixy.ThreadPool.{
  ThreadPool, locking, writing, start, stop, post_work, worker, signal, insert_work_list_item,
  stop_end,
}
use pixy.ThreadPool.Steps.{
  System, Works, turns, calls, writes, works, posts, stops, Reach, begin, later, turned, set_phase,
}
use pixy.ThreadPool.Posix.{PthreadCall, start_threads, stop_threads, start_threads-unseen}
use pixy.ThreadPool.Turns.{IsAttended, ending, in_hand}
use pixy.ThreadPool.Run.{Reach-works, Reach-IsAttended, Reach-stop_end}
use pixy.ThreadPool.End.{stopped-Works, Works-steps_left, steps_left}

abbrev blank : ThreadPool
blank = record {
  work_list = [];
  stop_signal = 1;
  first = locking;
  second = locking;
  pipe = [];
  works = λ w. record { function = 0; argument = 0; user_data = 0; callback = 0 };
}

abbrev all : Bool × Bool
all = (true, true)

abbrev begun : System
begun = record { pool = start blank; stopped = false; posted = []; taken = []; received = [] }

abbrev posted_8 : System
posted_8 = record begun { pool = post_work begun.pool 8 2 3 4 5 all; posted = 8 ∷ [] }

abbrev stopped_8 : System
stopped_8 = record posted_8 { pool = stop posted_8.pool all; stopped = true }

stopped_8-Reach : Reach stopped_8
unfolding start post_work stop insert_work_list_item signal
stopped_8-Reach =
    later
      (later (begin blank refl refl)
        (posts 8 2 3 4 5 all refl refl (λ e. absurd (ground (arith, e)))))
      (stops all refl (λ e. absurd (ground (arith, e))))

abbrev took_8 : System
took_8 = turned false all stopped_8

abbrev ran_8 : System
ran_8 = record took_8 { pool = set_phase false (writing 8) took_8.pool }

abbrev wrote_8 : System
wrote_8 = record ran_8 {
  pool = set_phase false locking (record ran_8.pool { pipe = ran_8.pool.pipe ++ 8 ∷ [] });
}

abbrev one_left : System
one_left = turned false all wrote_8

abbrev both_left : System
both_left = turned true all one_left

both_left-Reach : Reach both_left
unfolding stopped_8-Reach worker
both_left-Reach =
    let took =
      later stopped_8-Reach (works false (turns all refl (λ e. absurd (ground (arith, e))))) in
    let ran = later took (works false (calls 8 refl)) in
    let wrote = later ran (works false (writes 8 refl (omega arith))) in
    let left = later wrote (works false (turns all refl (λ e. absurd (ground (arith, e))))) in
    later left (works true (turns all refl (λ e. absurd (ground (arith, e)))))

Reach-works_example :
    (pending : List ℕ) × (stopped_8.posted ≡ stopped_8.taken ++ pending)
    × (stopped_8.pool.work_list ≡ pending ++ ending stopped_8)
    × ((w : ℕ)
        → count w stopped_8.taken
          ≡ in_hand w stopped_8.pool + count w stopped_8.pool.pipe + count w stopped_8.received)
Reach-works_example = Reach-works stopped_8-Reach

Reach-IsAttended_example : IsAttended stopped_8.pool
Reach-IsAttended_example = Reach-IsAttended stopped_8-Reach

Reach-stop_end_example :
    (stop_end both_left.pool ≡ some (record both_left.pool { work_list = [] }))
    × ((w : ℕ)
        → count w both_left.posted ≡ count w both_left.pool.pipe + count w both_left.received)
unfolding both_left-Reach
Reach-stop_end_example = Reach-stop_end both_left-Reach refl refl

stopped-Works_example : (b : Bool) × (t : System) × Works b stopped_8 t
unfolding stopped_8-Reach
stopped-Works_example = stopped-Works stopped_8-Reach refl (omega arith) refl

Works-steps_left_example : steps_left took_8.pool < steps_left stopped_8.pool
unfolding stopped_8-Reach
Works-steps_left_example =
    Works-steps_left false stopped_8-Reach refl (turns all refl (λ e. absurd (ground (arith, e))))

-- no call succeeds, and each is counted
abbrev failing : ℕ → PthreadCall → ℤ × ℕ
failing w call = (pos 11, suc w)

start_threads-unseen_example :
    (start_threads failing 0 ≡ some 4) × (stop_threads failing 0 ≡ some 4)
start_threads-unseen_example = start_threads-unseen failing (λ w call. (11, refl)) 0
