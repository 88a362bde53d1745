-- ===== src/ThreadPool/Run.antt =====
-- What holds of the pool in every order of the steps: the works, the wake-ups, and the end.
use mathlib.Core.List.{append-nil}
use pixy.Base.{ℕ, ◌+◌, ◌≡◌, ap, ◌∙◌, arith, true, List, [], ◌∷◌, ◌++◌, some}
use pixy.Base.Lists.{count, take_out}
use pixy.ThreadPool.{is_exited, stop_end}
use pixy.ThreadPool.Steps.{System, Reach}
use pixy.ThreadPool.Turns.{IsAttended, ending, in_hand}
use pixy.ThreadPool.Kept.{Reach-Inv}

-- In every reachable state the works have been taken from the list in the order in which they were
-- posted, the list holds the others in that order and behind them the stop signal if it was given, and
-- each work that was taken is in the hands of one worker, in the pipe, or received, and that once.
pub Reach-works :
    {s : System}
    → Reach s
    → (pending : List ℕ) × (s.posted ≡ s.taken ++ pending)
      × (s.pool.work_list ≡ pending ++ ending s)
      × ((w : ℕ) → count w s.taken ≡ in_hand w s.pool + count w s.pool.pipe + count w s.received)
Reach-works r = let i = Reach-Inv r in (i.pending, i.ordered, i.listed, i.once)

-- In every reachable state, if the list is not empty and a worker waits for the condition, then a worker
-- is on its way to the list: no wake-up is lost.
pub Reach-IsAttended : {s : System} → Reach s → IsAttended s.pool
Reach-IsAttended r = (Reach-Inv r).attended

-- Where both workers have left their loops, ThreadPool_Stop finds the stop signal alone in the list, and
-- each posted work has been written to the pipe and is there or received.
pub Reach-stop_end :
    {s : System}
    → Reach s
    → is_exited s.pool.first ≡ true
    → is_exited s.pool.second ≡ true
    → (stop_end s.pool ≡ some (record s.pool { work_list = [] }))
      × ((w : ℕ) → count w s.posted ≡ count w s.pool.pipe + count w s.received)
unfolding stop_end take_out
Reach-stop_end {s} r p q =
    let i = Reach-Inv r in
    let (none_pending, stopped) = i.left (ground (arith, p)) in
    let list : s.pool.work_list ≡ s.pool.stop_signal ∷ [] =
      ground (arith, i.listed, none_pending, stopped) in
    let out : take_out s.pool.stop_signal s.pool.work_list ≡ some [] =
      ap (take_out s.pool.stop_signal) list ∙ ground arith in
    (
      ground (arith, p, q, out),
      λ w. ground (arith, i.once w, ap (count w) i.ordered, none_pending, append-nil s.taken, p, q),
    )
