-- ===== src/ThreadPool/Setup.antt =====
-- ThreadPool_Initialize and ThreadPool_Finalize of Source/ThreadPool.c, and its system calls, which are made again
-- while they are interrupted. The descriptors are those of the pipe. `none` is a fatal error, or no
-- more fuel.
use Prim.Native.Nat.{bit_or}
use pixy.Base.{[], ℕ, Bool, true, false, Option, none, some, if◌then◌else◌, ◌>>=◌}
use pixy.Vector.{Realloc}
use pixy.ThreadPool.{ThreadPool}
use pixy.IoPoller.{IoPoller, readable, set_watch, clear_watches, EpollCtl}
use pixy.Io.{
  System, done, failed, Call, sys_pipe, sys_fcntl, sys_close, sys_read, sys_write, retry, nonblock,
}

-- the numbers of Linux
abbrev f_getfl : ℕ
f_getfl = 3

abbrev f_setfl : ℕ
f_setfl = 4

abbrev f_setpipe_sz : ℕ
f_setpipe_sz = 1031

module _ {W : Type 0} (system : System W) (tries : ℕ) where
  -- a system call that is made again while it is interrupted, and must not fail
  unfoldable pub must : Call → W → Option (ℕ × W)
  unfolding retry
  must call w = do
    (o, after) ← retry system tries call w
    elim o [ done n ↦ some (n, after) | failed e ↦ none ]

  -- xclose; an error is only logged
  unfoldable pub x_close : W → (fd : ℕ) → Option W
  unfolding retry
  x_close w fd = do (o, after) ← retry system tries (sys_close fd) w; some after

  -- xpipe
  unfoldable pub x_pipe : W → Option W
  x_pipe w =
      let (o, after) = system.system_call w sys_pipe in
      elim o [ done n ↦ some after | failed e ↦ none ]

  -- xfcntl
  unfoldable pub x_fcntl : W → (fd command argument : ℕ) → Option (ℕ × W)
  unfolding must
  x_fcntl w fd command argument = must (sys_fcntl fd command argument) w

  -- xread
  unfoldable pub x_read : W → (fd buffer count : ℕ) → Option (ℕ × W)
  unfolding must
  x_read w fd buffer count = must (sys_read fd buffer count) w

  -- xwrite
  unfoldable pub x_write : W → (fd buffer count : ℕ) → Option (ℕ × W)
  unfolding must
  x_write w fd buffer count = must (sys_write fd buffer count) w

  -- ThreadPool_Initialize up to the watch: the pipe, which does not block where it is read, and has
  -- room for 8192 pointers
  unfoldable pub open_pipe : W → (fds : ℕ × ℕ) → Option W
  unfolding x_pipe x_fcntl
  open_pipe w fds = do
    opened ← x_pipe w
    (flags, asked) ← x_fcntl opened fds.0 f_getfl 0
    (zero_0, set) ← x_fcntl asked fds.0 f_setfl (bit_or flags nonblock)
    (zero_1, sized) ← x_fcntl set fds.1 f_setpipe_sz 65536
    some sized

  -- ThreadPool_Initialize; `watch` is the address of the watch in the pool, and `address` that of the pool. The new
  -- pipe is empty.
  unfoldable pub initialize :
      Realloc
      → (allocated : Option ℕ) → (callback : ℕ) → W
      → IoPoller
      → ThreadPool
      → (address watch : ℕ) → (fds : ℕ × ℕ) → Option (Bool × IoPoller × ThreadPool × W)
  unfolding open_pipe x_close
  initialize realloc allocated callback w poller self address watch fds = do
    sized ← open_pipe w fds
    (ok, watched) ←
        set_watch realloc allocated poller watch fds.0
          (record { condition = readable; user_data = address; callback = callback })
    let close_both : Option (Bool × IoPoller × ThreadPool × W) = do
      one ← x_close sized fds.0
      both ← x_close one fds.1
      some (false, watched, self, both)
    if ok
        then some (true, watched, record self { work_list = []; pipe = [] }, sized)
        else close_both

  -- ThreadPool_Finalize
  unfoldable pub finalize :
      {E : Type 0} → EpollCtl E → E → IoPoller → W → (fds : ℕ × ℕ) → Option (E × IoPoller × W)
  unfolding x_close
  finalize epoll_ctl kernel poller w fds = do
    (after, cleared) ← clear_watches epoll_ctl kernel poller fds.0
    one ← x_close w fds.0
    both ← x_close one fds.1
    some (after, cleared, both)
