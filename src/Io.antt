-- ===== src/Io.antt =====
-- Source/IO.c and Include/IO.h: the calls that retry. A system call is a parameter, and so is WaitForFD as its
-- caller sees it, with all that the other fibers do meanwhile; both may change the world `W`. A
-- buffer, a name or a message is an address. An outcome `done` is a result that is not negative, and
-- `failed` is -1 and errno. The two loops of a call run on fuel, `rounds` for the outer and `tries`
-- for the inner.
pub mod Ends
pub mod Returns
pub mod Wait
pub mod Woken
pub mod Limited
pub mod Lost
pub mod Work
pub mod Names
pub mod Tests
use mathlib.Core.Option
use Prim.Native.Nat.{bit_or}
use pixy.Base.{
  ℕ, zero, suc, Bool, true, false, ◌||◌, Option, none, some, ◌==◌, if◌then◌else◌, ◌>>=◌,
}
use pixy.Base.Int.{ℤ}
use pixy.IoPoller.{IoCondition, readable, writable, IoPoller, EpollCtl, clear_watches}

pub data Outcome : Type 0 where
  done : (result : ℕ) → Outcome
  failed : (errno : ℕ) → Outcome

-- the system calls, with their arguments
pub data Call : Type 0 where
  sys_pipe2 : (fds flags : ℕ) → Call
  sys_read : (fd buffer buffer_size : ℕ) → Call
  sys_write : (fd bytes size : ℕ) → Call
  sys_readv : (fd vector vector_length : ℕ) → Call
  sys_writev : (fd vector vector_length : ℕ) → Call
  sys_socket : (domain kind protocol : ℕ) → Call
  sys_accept4 : (fd name name_size flags : ℕ) → Call
  sys_connect : (fd name name_size : ℕ) → Call
  sys_recv : (fd buffer buffer_size flags : ℕ) → Call
  sys_send : (fd bytes size flags : ℕ) → Call
  sys_recvfrom : (fd buffer buffer_size flags name name_size : ℕ) → Call
  sys_sendto : (fd bytes size flags name name_size : ℕ) → Call
  sys_recvmsg : (fd message flags : ℕ) → Call
  sys_sendmsg : (fd message flags : ℕ) → Call
  sys_close : (fd : ℕ) → Call
  sys_pipe : Call
  sys_fcntl : (fd command argument : ℕ) → Call

-- What the calls stand on. The result of `wait_for_fd` is `none` for true, and the errno for false; that of
-- `so_error` is the option SO_ERROR of a socket.
pub record System (W : Type 0) : Type 0 where
  pub system_call : W → Call → Outcome × W
  pub wait_for_fd : W → (fd : ℕ) → IoCondition → (timeout : ℤ) → Option ℕ × W
  pub so_error : W → (fd : ℕ) → ℕ

-- the numbers of Linux
abbrev pub eintr : ℕ
eintr = 4

abbrev pub eagain : ℕ
eagain = 11

abbrev pub ewouldblock : ℕ
ewouldblock = 11

abbrev pub einprogress : ℕ
einprogress = 115

-- O_NONBLOCK, and SOCK_NONBLOCK
abbrev pub nonblock : ℕ
nonblock = 2048

-- `result < 0 && errno == EINTR`
abbrev pub is_interrupted : Outcome → Bool
is_interrupted (done n) = false
is_interrupted (failed e) = e == eintr

-- `errno == EAGAIN || errno == EWOULDBLOCK`
abbrev pub is_blocked : (errno : ℕ) → Bool
is_blocked e = (e == eagain) || (e == ewouldblock)

module _ {W : Type 0} (system : System W) where
  -- `do { result = call(...); } while (result < 0 && errno == EINTR)`
  unfoldable pub retry : (tries : ℕ) → Call → W → Option (Outcome × W)
  retry zero call w = none
  retry (suc n) call w =
      let (o, after) = system.system_call w call in
      let again = retry n call after in if is_interrupted o then again else some (o, after)

  -- The rest of a round: `waited` and `waiting` are what WaitForFD gives if it is called, and `again` the
  -- rounds behind it.
  unfoldable pub round_end :
      Outcome
      → (after : W) → (waited : Option ℕ) → (waiting : W) → (again : Option (Outcome × W))
      → Option (Outcome × W)
  round_end (done n) after waited waiting again = some (done n, after)
  round_end (failed e) after none waiting again =
      if is_blocked e then again else some (failed e, after)
  round_end (failed e) after (some errno) waiting again =
      if is_blocked e then some (failed errno, waiting) else some (failed e, after)

  -- the loop of Read, and of the others
  unfoldable pub io_loop :
      (rounds tries : ℕ) → Call → (fd : ℕ) → IoCondition → (timeout : ℤ) → W → Option (Outcome × W)
  unfolding retry round_end
  io_loop zero tries call fd condition timeout w = none
  io_loop (suc n) tries call fd condition timeout w = do
    (o, after) ← retry tries call w
    let (waited, waiting) = system.wait_for_fd after fd condition timeout
    let again = io_loop n tries call fd condition timeout waiting
    round_end o after waited waiting again

  -- Pipe2
  unfoldable pub pipe2 : W → (fds flags : ℕ) → Outcome × W
  pipe2 w fds flags = system.system_call w (sys_pipe2 fds (bit_or flags nonblock))

  -- Socket
  unfoldable pub socket : W → (domain kind protocol : ℕ) → Outcome × W
  socket w domain kind protocol =
      system.system_call w (sys_socket domain (bit_or kind nonblock) protocol)

  -- Connect
  unfoldable pub connect : W → (fd name name_size : ℕ) → (timeout : ℤ) → Outcome × W
  connect w fd name name_size timeout =
      let (o, after) = system.system_call w (sys_connect fd name name_size) in
      let (waited, waiting) = system.wait_for_fd after fd writable timeout in
      let error = system.so_error waiting fd in
      elim o [
        | done n ↦ (done 0, after)
        | failed e ↦
            if (e == eintr) || (e == einprogress)
            then (elim waited [
              | none ↦ if error == 0 then (done 0, waiting) else (failed error, waiting)
              | some errno ↦ (failed errno, waiting)
            ])
            else (failed e, after)
      ]

  -- Close: IOPoller_ClearWatches, and the loop; `none` if epoll_ctl fails
  unfoldable pub close :
      {E : Type 0}
      → EpollCtl E
      → (tries : ℕ) → E
      → IoPoller
      → W
      → (fd : ℕ) → Option (Outcome × E × IoPoller × W)
  unfolding retry
  close epoll_ctl tries kernel poller w fd = do
    (after, cleared) ← clear_watches epoll_ctl kernel poller fd
    (o, v) ← retry tries (sys_close fd) w
    some (o, after, cleared, v)

  module _ (rounds tries : ℕ) where
    -- Read
    unfoldable pub read : (fd buffer buffer_size : ℕ) → (timeout : ℤ) → W → Option (Outcome × W)
    unfolding io_loop
    read fd buffer buffer_size timeout =
        io_loop rounds tries (sys_read fd buffer buffer_size) fd readable timeout

    -- Write
    unfoldable pub write : (fd bytes size : ℕ) → (timeout : ℤ) → W → Option (Outcome × W)
    unfolding io_loop
    write fd bytes size timeout = io_loop rounds tries (sys_write fd bytes size) fd writable timeout

    -- ReadV
    unfoldable pub read_v : (fd vector vector_length : ℕ) → (timeout : ℤ) → W → Option (Outcome × W)
    unfolding io_loop
    read_v fd vector vector_length timeout =
        io_loop rounds tries (sys_readv fd vector vector_length) fd readable timeout

    -- WriteV
    unfoldable pub write_v :
        (fd vector vector_length : ℕ) → (timeout : ℤ) → W → Option (Outcome × W)
    unfolding io_loop
    write_v fd vector vector_length timeout =
        io_loop rounds tries (sys_writev fd vector vector_length) fd writable timeout

    -- Accept4
    unfoldable pub accept4 :
        (fd name name_size flags : ℕ) → (timeout : ℤ) → W → Option (Outcome × W)
    unfolding io_loop
    accept4 fd name name_size flags timeout =
        io_loop rounds tries (sys_accept4 fd name name_size (bit_or flags nonblock)) fd readable
          timeout

    -- Recv
    unfoldable pub recv :
        (fd buffer buffer_size flags : ℕ) → (timeout : ℤ) → W → Option (Outcome × W)
    unfolding io_loop
    recv fd buffer buffer_size flags timeout =
        io_loop rounds tries (sys_recv fd buffer buffer_size flags) fd readable timeout

    -- Send
    unfoldable pub send : (fd bytes size flags : ℕ) → (timeout : ℤ) → W → Option (Outcome × W)
    unfolding io_loop
    send fd bytes size flags timeout =
        io_loop rounds tries (sys_send fd bytes size flags) fd writable timeout

    -- RecvFrom
    unfoldable pub recv_from :
        (fd buffer buffer_size flags name name_size : ℕ) → (timeout : ℤ) → W → Option (Outcome × W)
    unfolding io_loop
    recv_from fd buffer buffer_size flags name name_size timeout =
        io_loop rounds tries (sys_recvfrom fd buffer buffer_size flags name name_size) fd readable
          timeout

    -- SendTo
    unfoldable pub send_to :
        (fd bytes size flags name name_size : ℕ) → (timeout : ℤ) → W → Option (Outcome × W)
    unfolding io_loop
    send_to fd bytes size flags name name_size timeout =
        io_loop rounds tries (sys_sendto fd bytes size flags name name_size) fd writable timeout

    -- RecvMsg
    unfoldable pub recv_msg : (fd message flags : ℕ) → (timeout : ℤ) → W → Option (Outcome × W)
    unfolding io_loop
    recv_msg fd message flags timeout =
        io_loop rounds tries (sys_recvmsg fd message flags) fd readable timeout

    -- SendMsg
    unfoldable pub send_msg : (fd message flags : ℕ) → (timeout : ℤ) → W → Option (Outcome × W)
    unfolding io_loop
    send_msg fd message flags timeout =
        io_loop rounds tries (sys_sendmsg fd message flags) fd writable timeout
