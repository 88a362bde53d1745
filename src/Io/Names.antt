-- ===== src/Io/Names.antt =====
-- GetAddrInfo and GetNameInfo of Source/IO.c from their calls to their results.
use pixy.Base.{
  ℕ, ◌+◌, ◌≡◌, refl, ◌∙◌, arith, inl, inr, Bool, true, false, [], ◌∷◌, ◌++◌, some, ◌==◌, Bool-cases,
}
use pixy.Base.Lists.{has}
use pixy.Scheduler.{
  Scheduler, Control, get_current_fiber, suspend_current_fiber, resume_fiber, dispatch,
  save_context, is_active,
}
use pixy.ThreadPool.{ThreadPool, post_work, insert_work_list_item, signal, is_empty}
use pixy.IoPoller.Change.{put-at}
use pixy.Event.Wakes.{resumes-waiter}
use pixy.Io.Work.{
  Office, do_work, do_work_callback, get_addr_info, fill_addr_info, get_addr_info_wrapper,
  get_addr_info_end, get_name_info, fill_name_info, get_name_info_wrapper, get_name_info_end,
}

post_work-list :
    (p : ThreadPool) (work function argument user_data callback : ℕ) (woken : Bool × Bool)
    → let q = post_work p work function argument user_data callback woken in
      (q.work_list ≡ p.work_list ++ work ∷ [])
      × (q.works work ≡ record {
        function = function;
        argument = argument;
        user_data = user_data;
        callback = callback;
      })
unfolding post_work insert_work_list_item signal
post_work-list p work function argument user_data callback woken =
    let same : (work == work) ≡ true = ground arith in
    elim (Bool-cases (is_empty p.work_list)) [
      | inl e ↦ rw e (refl, rw same refl)
      | inr e ↦ rw e (refl, rw same refl)
    ]

addr_info-fields :
    (memory : ℕ → ℕ) (context host_name service_name hints result : ℕ)
    → let m = fill_addr_info memory context host_name service_name hints result in
      (m (context + 0) ≡ host_name)
      × (m (context + 8) ≡ service_name)
      × (m (context + 16) ≡ hints)
      × (m (context + 24) ≡ result)
unfolding fill_addr_info
addr_info-fields memory context host_name service_name hints result =
    (ground arith, ground arith, ground arith, ground arith)

name_info-fields :
    (memory : ℕ → ℕ)
    (context name name_size host_name host_name_size service_name service_name_size flags : ℕ)
    → let m =
        fill_name_info memory context name name_size host_name host_name_size service_name
          service_name_size flags in
      (m (context + 0) ≡ name)
      × (m (context + 8) ≡ name_size)
      × (m (context + 16) ≡ host_name)
      × (m (context + 24) ≡ host_name_size)
      × (m (context + 32) ≡ service_name)
      × (m (context + 40) ≡ service_name_size)
      × (m (context + 44) ≡ flags)
unfolding fill_name_info
name_info-fields memory context name name_size host_name host_name_size service_name
      service_name_size flags =
    (
      ground arith,
      ground arith,
      ground arith,
      ground arith,
      ground arith,
      ground arith,
      ground arith,
    )

module _ (callback wrapper : ℕ) (woken : Bool × Bool) (s : Office) (fiber context work : ℕ) where
  -- The work of the fiber is the last of the list, and is to call the wrapper with the context; once the
  -- main thread calls DoWorkCallback with the data of the work, the fiber is the last of the ready ones.
  abbrev pub Posted : Office → Type 0
  Posted t =
      (t.thread_pool.work_list ≡ s.thread_pool.work_list ++ work ∷ [])
      × (t.thread_pool.works work ≡ record {
        function = wrapper;
        argument = context;
        user_data = fiber;
        callback = callback;
      })
      × (do_work_callback t (t.thread_pool.works work).user_data
          ≡ some (record t {
            scheduler = record t.scheduler {
              ready_fibers = t.scheduler.ready_fibers ++ fiber ∷ [];
            };
          }))

  module _ (active : s.scheduler.active_fiber ≡ some fiber)
      (away : has fiber s.scheduler.ready_fibers ≡ false) where
    next : Scheduler × Control
    next = dispatch (save_context fiber s.scheduler)

    quiet : is_active next.0 fiber ≡ false
    unfolding next save_context
    quiet = resumes-waiter fiber (save_context fiber s.scheduler) away

    do_work-Posted :
        (memory : ℕ → ℕ)
        → (t : Office) × (c : Control) × (do_work callback woken
              (record s { memory = memory })
              work
              wrapper
              context
            ≡ some (t, c))
          × Posted t
          × (t.memory ≡ memory)
    unfolding do_work get_current_fiber suspend_current_fiber do_work_callback resume_fiber next
    do_work-Posted memory =
        let pool = post_work s.thread_pool work wrapper context fiber callback woken in
        let t : Office = record { scheduler = next.0; thread_pool = pool; memory = memory } in
        let (listed, stored) =
          post_work-list s.thread_pool work wrapper context fiber callback woken in
        (t, next.1, rw active refl, (listed, stored, rw (stored, quiet) refl), refl)

    -- A fiber that is running and not ready calls GetAddrInfo. Its work is posted behind the others; when
    -- a worker has called the wrapper with the context, GetAddrInfo returns what getaddrinfo gives for
    -- the arguments, and DoWorkCallback makes the fiber ready again.
    pub get_addr_info-Posted :
        (host_name service_name hints result : ℕ) (getaddrinfo : ℕ → ℕ → ℕ → ℕ → ℕ)
        → (t : Office) × (c : Control) × (get_addr_info callback wrapper woken s context work
              host_name service_name hints result
            ≡ some (t, c))
          × Posted t
          × (get_addr_info_end (get_addr_info_wrapper getaddrinfo t context) context
              ≡ getaddrinfo host_name service_name hints result)
    unfolding get_addr_info get_addr_info_wrapper get_addr_info_end
    get_addr_info-Posted host_name service_name hints result getaddrinfo =
        let (t, c, ran, posted, kept) =
          do_work-Posted (fill_addr_info s.memory context host_name service_name hints result) in
        let fields = addr_info-fields s.memory context host_name service_name hints result in
        (
          t,
          c,
          ran,
          posted,
          put-at t.memory (context + 32) _ ∙ rw (kept, fields.0, fields.1, fields.2, fields.3) refl,
        )

    -- The same of GetNameInfo, its wrapper and getnameinfo.
    pub get_name_info-Posted :
        (name name_size host_name host_name_size service_name service_name_size flags : ℕ)
        (getnameinfo : ℕ → ℕ → ℕ → ℕ → ℕ → ℕ → ℕ → ℕ)
        → (t : Office) × (c : Control) × (get_name_info callback wrapper woken s context work name
              name_size host_name host_name_size service_name service_name_size flags
            ≡ some (t, c))
          × Posted t
          × (get_name_info_end (get_name_info_wrapper getnameinfo t context) context
              ≡ getnameinfo name name_size host_name host_name_size service_name service_name_size
                  flags)
    unfolding get_name_info get_name_info_wrapper get_name_info_end
    get_name_info-Posted name name_size host_name host_name_size service_name service_name_size
          flags getnameinfo =
        let (t, c, ran, posted, kept) = do_work-Posted (
          fill_name_info s.memory context name name_size host_name host_name_size service_name
            service_name_size flags) in
        let fields =
          name_info-fields s.memory context name name_size host_name host_name_size service_name
            service_name_size flags in
        (
          t,
          c,
          ran,
          posted,
          put-at t.memory (context + 48) _
              ∙ rw (kept, fields.0, fields.1, fields.2, fields.3, fields.4, fields.5, fields.6)
                  refl,
        )
