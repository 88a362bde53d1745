-- ===== src/Io/Work.antt =====
-- The calls of Source/IO.c that the thread pool does: DoWork, cut where it suspends its fiber, GetAddrInfo and
-- GetNameInfo with the wrappers that the workers call. getaddrinfo and getnameinfo are parameters; a context is the
-- address of the structure on the stack of the caller, with its fields at the offsets of x86-64.
use mathlib.Core.Option
use pixy.Base.{ℕ, ◌+◌, Bool, Option, some, ◌>>=◌}
use pixy.Scheduler.{Scheduler, Control, get_current_fiber, suspend_current_fiber, resume_fiber}
use pixy.ThreadPool.{ThreadPool, post_work}
use pixy.IoPoller.{put}

pub record Office : Type 0 where
  pub scheduler : Scheduler
  pub thread_pool : ThreadPool
  pub memory : ℕ → ℕ

-- DoWork, up to its suspension; `callback` is the address of DoWorkCallback
unfoldable pub do_work :
    (callback : ℕ)
    → (woken : Bool × Bool) → Office
    → (work function argument : ℕ) → Option (Office × Control)
do_work callback woken self work function argument = do
  fiber ← get_current_fiber self.scheduler
  (scheduler, control) ← suspend_current_fiber self.scheduler
  some (
    record self {
      scheduler = scheduler;
      thread_pool = post_work self.thread_pool work function argument fiber callback woken;
    },
    control,
  )

-- DoWorkCallback
unfoldable pub do_work_callback : Office → (argument : ℕ) → Option Office
do_work_callback self argument =
    Option.map (λ scheduler. record self { scheduler = scheduler })
      (resume_fiber self.scheduler argument)

-- GetAddrInfo: its context
unfoldable pub fill_addr_info : (ℕ → ℕ) → (context host_name service_name hints result : ℕ) → ℕ → ℕ
fill_addr_info memory context host_name service_name hints result =
    put (put (put (put memory context host_name) (context + 8) service_name) (context + 16) hints)
      (context + 24) result

-- GetAddrInfo, up to its suspension; `wrapper` is the address of GetAddrInfoWrapper
unfoldable pub get_addr_info :
    (callback wrapper : ℕ)
    → (woken : Bool × Bool) → Office
    → (context work host_name service_name hints result : ℕ) → Option (Office × Control)
unfolding do_work fill_addr_info
get_addr_info callback wrapper woken self context work host_name service_name hints result =
    do_work callback woken
      (record self {
        memory = fill_addr_info self.memory context host_name service_name hints result;
      })
      work wrapper context

-- GetAddrInfoWrapper
unfoldable pub get_addr_info_wrapper : (ℕ → ℕ → ℕ → ℕ → ℕ) → Office → (argument : ℕ) → Office
get_addr_info_wrapper getaddrinfo self argument =
    let field = λ (offset : ℕ). self.memory (argument + offset) in
    record self {
      memory =
          put self.memory (argument + 32) (getaddrinfo (field 0) (field 8) (field 16) (field 24));
    }

-- GetAddrInfo, behind its suspension: what it returns
unfoldable pub get_addr_info_end : Office → (context : ℕ) → ℕ
get_addr_info_end self context = self.memory (context + 32)

-- GetNameInfo: its context
unfoldable pub fill_name_info :
    (ℕ → ℕ)
    → (context name name_size host_name host_name_size service_name service_name_size flags : ℕ) → ℕ
    → ℕ
fill_name_info memory context name name_size host_name host_name_size service_name service_name_size
      flags =
    let named = put (put memory context name) (context + 8) name_size in
    let hosted = put (put named (context + 16) host_name) (context + 24) host_name_size in
    let served = put (put hosted (context + 32) service_name) (context + 40) service_name_size in
    put served (context + 44) flags

-- GetNameInfo, up to its suspension; `wrapper` is the address of GetNameInfoWrapper
unfoldable pub get_name_info :
    (callback wrapper : ℕ)
    → (woken : Bool × Bool) → Office
    → (context work name name_size host_name host_name_size service_name service_name_size
        flags : ℕ)
    → Option (Office × Control)
unfolding do_work fill_name_info
get_name_info callback wrapper woken self context work name name_size host_name host_name_size
      service_name service_name_size flags =
    do_work callback woken
      (record self {
        memory =
            fill_name_info self.memory context name name_size host_name host_name_size service_name
              service_name_size flags;
      })
      work wrapper context

-- GetNameInfoWrapper
unfoldable pub get_name_info_wrapper :
    (ℕ → ℕ → ℕ → ℕ → ℕ → ℕ → ℕ → ℕ) → Office → (argument : ℕ) → Office
get_name_info_wrapper getnameinfo self argument =
    let field = λ (offset : ℕ). self.memory (argument + offset) in
    record self {
      memory =
          put self.memory (argument + 48) (
            getnameinfo (field 0) (field 8) (field 16) (field 24) (field 32) (field 40) (field 44));
    }

-- GetNameInfo, behind its suspension: what it returns
unfoldable pub get_name_info_end : Office → (context : ℕ) → ℕ
get_name_info_end self context = self.memory (context + 48)
