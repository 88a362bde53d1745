-- ===== src/Io/Lost.antt =====
-- WaitForFDCallback3 of Source/IO.c behind a WaitForFD that has set its timeout.
use pixy.Base.{
  ℕ, ◌+◌, ◌≡◌, refl, sym, ap, ◌∙◌, subst, arith, inl, inr, true, false, Option, none, some, ◌==◌,
  Bool-cases, Option-cases,
}
use pixy.Base.Int.{pos}
use pixy.Vector.{Realloc}
use pixy.Scheduler.{Control, get_current_fiber, suspend_current_fiber}
use pixy.Timer.{Timer, set_timeout}
use pixy.IoPoller.{IoWatch, IoCondition, set_watch, clear_watch, put}
use pixy.Io.Wait.{
  World, Started, suspended, suspend, limit_wait, wait_limited, wait_for_fd, wake,
  wait_for_fd_callback3,
}
use pixy.IoPoller.Absent.{IsAbsent, set_watch-IsAbsent, clear_watch-none}

-- the state in which a fiber is suspended
abbrev state_of : World → Option Started → World
state_of d (some (suspended t c)) = t
state_of d r = d

suspend-keeps :
    (w t : World) (c : Control)
    → suspend w ≡ some (suspended t c)
    → (t.io_poller ≡ w.io_poller) × (t.timer ≡ w.timer)
unfolding suspend
suspend-keeps w t c e = elim (Option-cases (suspend_current_fiber w.scheduler)) [
  | inl n ↦ absurd (ground (arith, (rw n at e)))
  | inr ((r, d), n) ↦
      let same = ap (state_of w) (rw n at e) in
      (ap (λ x. x.io_poller) (sym same), ap (λ x. x.timer) (sym same))
]

limit_wait-keeps :
    (realloc : Realloc) (callback1 callback2 callback3 now : ℕ) (malloc : Option ℕ) (w t : World)
    (context delay : ℕ) (c : Control)
    → limit_wait realloc callback1 callback2 callback3 now malloc w context delay
      ≡ some (suspended t c)
    → (t.io_poller ≡ w.io_poller)
      × (t.timer.callback (context + 40) ≡ callback3)
      × (t.timer.user_data (context + 40) ≡ context)
unfolding limit_wait set_timeout
limit_wait-keeps realloc callback1 callback2 callback3 now malloc w t context delay c e =
    let (ok, timer) =
      set_timeout realloc now malloc w.timer (context + 40) (pos delay) context callback3 in
    elim (Bool-cases ok) [
      | inl q ↦
          let (same, timed) = suspend-keeps (record w { timer = timer }) t c (rw q at e) in
          let here : (context + 40 == context + 40) ≡ true = ground arith in
          (
            same,
            ap (λ (x : Timer). x.callback (context + 40)) timed ∙ rw here refl,
            ap (λ (x : Timer). x.user_data (context + 40)) timed ∙ rw here refl,
          )
      | inr q ↦ elim (Option-cases (clear_watch w.io_poller context)) [
        | inl n ↦ absurd (ground (arith, (rw (q, n) at e)))
        | inr (r, n) ↦ absurd (ground (arith, (rw (q, n) at e)))
      ]
    ]

-- No list of the poller has a watch at the address eight bytes behind a context, which is within the
-- context. When WaitForFD with a time limit suspends the fiber of this context, the timeout has
-- WaitForFDCallback3 as its callback, with the context as its data; and this callback, run then, removes from its list
-- a watch that is in no list.
pub callback3-lost :
    (realloc : Realloc) (callback1 callback2 callback3 : ℕ) (s t : World) (context fd : ℕ)
    (condition : IoCondition) (allocated malloc : Option ℕ) (now delay : ℕ) (c : Control)
    → IsAbsent (context + 8) s.io_poller
    → wait_for_fd realloc callback1 callback2 callback3 allocated now malloc s context fd condition
        (pos delay)
      ≡ some (suspended t c)
    → (t.timer.callback (context + 40) ≡ callback3)
      × (t.timer.user_data (context + 40) ≡ context)
      × (wait_for_fd_callback3 t context ≡ none)
unfolding wait_for_fd wait_limited wait_for_fd_callback3 wake
callback3-lost realloc callback1 callback2 callback3 s t context fd condition allocated malloc now
      delay c h e =
    let fields : IoWatch = record {
      condition = condition;
      user_data = context;
      callback = callback2;
    } in
    elim (Option-cases (get_current_fiber s.scheduler)) [
      | inl n ↦ absurd (ground (arith, (rw n at e)))
      | inr (fiber, n) ↦
          elim (Option-cases (set_watch realloc allocated s.io_poller context fd fields)) [
            | inl m ↦ absurd (ground (arith, (rw (n, m) at e)))
            | inr ((ok, p), m) ↦ elim (Bool-cases ok) [
              | inr q ↦ absurd (ground (arith, (rw (n, m, q) at e)))
              | inl q ↦
                  let (same, called, data_of) =
                    limit_wait-keeps realloc callback1 callback2 callback3 now malloc
                      (record s { io_poller = p; memory = put s.memory (context + 72) fiber }) t
                      context delay c (rw (n, m, q) at e) in
                  let other : (context == context + 8) ≡ false = ground arith in
                  let absent =
                    set_watch-IsAbsent realloc allocated s.io_poller p (context + 8) context fd
                      fields ok other h m in
                  let none_there =
                    subst (IsAbsent (context + 8)) (sym same) absent
                      (t.io_poller.event_of (context + 8))
                      (t.io_poller.watch (context + 8)).condition in
                  (called, data_of, rw (clear_watch-none t.io_poller (context + 8) none_there) refl)
            ]
          ]
    ]
