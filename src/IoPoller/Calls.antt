-- ===== src/IoPoller/Calls.antt =====
-- The second loop of IOPoller_Tick in Source/IOPoller.c: the calls that it adds.
use mathlib.Core.List.{append-nil, append_assoc}
use pixy.Base.{
  ℕ, ◌≡◌, refl, sym, ap, ◌∙◌, inl, inr, arith, Bool, true, false, ◌||◌, List, [], ◌∷◌, ◌++◌,
  if◌then◌else◌, Bool-cases,
}
use pixy.Vector.{Realloc}
use pixy.Async.{Async, AsyncCall, add_call}
use pixy.Async.Order.{waiting, add_call-waiting}
use pixy.IoPoller.{IoPoller, Report, call_watches, call_reports}

-- the calls of watches
abbrev pub watch_calls : IoPoller → List ℕ → List AsyncCall
watch_calls p [] = []
watch_calls p (w ∷ ws) =
    record { function = (p.watch w).callback; argument = (p.watch w).user_data } ∷ watch_calls p ws

-- The calls of a report: those of the readers if the event is readable or failed, then those of the
-- writers if it is writable or failed.
abbrev pub report_calls : IoPoller → Report → List AsyncCall
report_calls p r =
    watch_calls p (if r.readable_now || r.failed then (p.event r.event).readers else [])
    ++ watch_calls p (if r.writable_now || r.failed then (p.event r.event).writers else [])

abbrev pub reports_calls : IoPoller → List Report → List AsyncCall
reports_calls p [] = []
reports_calls p (r ∷ rs) = report_calls p r ++ reports_calls p rs

-- The calls `wanted` are added behind those that wait, all of them if the result is true, and else the
-- first of them.
abbrev pub Adds : Async → (wanted : List AsyncCall) → Bool × Async → Type 0
Adds a wanted (ok, r) =
    (done : List AsyncCall) × (left : List AsyncCall) × (wanted ≡ done ++ left)
    × (waiting r ≡ waiting a ++ done)
    × (ok ≡ true → left ≡ [])

Adds-nothing : (a : Async) → Adds a [] (true, a)
Adds-nothing a = ([], [], refl, sym (append-nil (waiting a)), λ h. refl)

Adds-stop :
    (a : Async) (w v : List AsyncCall) (ok : Bool) (r : Async)
    → Adds a w (ok, r)
    → Adds a (w ++ v) (false, r)
Adds-stop a w v ok r (done, left, split, waits, all) = (
  done,
  left ++ v,
  ap (λ xs. xs ++ v) split ∙ append_assoc done left v,
  waits,
  λ h. absurd (ground (arith, h)),
)

Adds-then :
    (a : Async) (w v : List AsyncCall) (ok fine : Bool) (r s : Async)
    → ok ≡ true
    → Adds a w (ok, r)
    → Adds r v (fine, s)
    → Adds a (w ++ v) (fine, s)
Adds-then a w v ok fine r s so (done, left, split, waits, all) (more, rest, cut, waits_too, both) =
    let whole : w ≡ done = split ∙ ap (λ xs. done ++ xs) (all so) ∙ append-nil done in
    (
      done ++ more,
      rest,
      ap (λ xs. xs ++ v) whole ∙ ap (λ xs. done ++ xs) cut ∙ sym (append_assoc done more rest),
      waits_too ∙ ap (λ xs. xs ++ more) waits ∙ append_assoc (waiting a) done more,
      both,
    )

module _ (realloc : Realloc) where
  add_call-Adds :
      (a : Async) (function argument : ℕ)
      → Adds a
          (record { function = function; argument = argument } ∷ [])
          (add_call realloc a function argument)
  add_call-Adds a function argument =
      let one : List AsyncCall = record { function = function; argument = argument } ∷ [] in
      let (ok, r) = add_call realloc a function argument in
      elim (Bool-cases ok) [
        | inl e ↦ (
          one,
          [],
          refl,
          add_call-waiting realloc a function argument
              ∙ ap (λ b. if b then waiting a ++ one else (waiting a)) e,
          λ h. refl,
        )
        | inr e ↦ (
          [],
          one,
          refl,
          add_call-waiting realloc a function argument
              ∙ ap (λ b. if b then waiting a ++ one else (waiting a)) e
              ∙ sym (append-nil (waiting a)),
          λ h. absurd (ground (arith, e, h)),
        )
      ]

  call_watches-Adds :
      (p : IoPoller) (ws : List ℕ) (a : Async)
      → Adds a (watch_calls p ws) (call_watches realloc p ws a)
  unfolding call_watches
  call_watches-Adds p [] a = Adds-nothing a
  call_watches-Adds p (w ∷ ws) a =
      let fields = p.watch w in
      let added = add_call realloc a fields.callback fields.user_data in
      let one : List AsyncCall =
        record { function = fields.callback; argument = fields.user_data } ∷ [] in
      let first = add_call-Adds a fields.callback fields.user_data in
      elim (Bool-cases added.0) [
        | inl e ↦
            let rest = call_watches realloc p ws added.1 in
            rw e (
              Adds-then a one (watch_calls p ws) added.0 rest.0 added.1 rest.1 e first
                (call_watches-Adds p ws added.1))
        | inr e ↦ rw e (Adds-stop a one (watch_calls p ws) added.0 added.1 first)
      ]

  pub call_reports-Adds :
      (p : IoPoller) (rs : List Report) (a : Async)
      → Adds a (reports_calls p rs) (call_reports realloc p rs a)
  unfolding call_reports
  call_reports-Adds p [] a = Adds-nothing a
  call_reports-Adds p (r ∷ rs) a =
      let e = p.event r.event in
      let readers = if r.readable_now || r.failed then e.readers else [] in
      let writers = if r.writable_now || r.failed then e.writers else [] in
      let read = call_watches realloc p readers a in
      let written = call_watches realloc p writers read.1 in
      let rest = call_reports realloc p rs written.1 in
      let reads = call_watches-Adds p readers a in
      let writes = call_watches-Adds p writers read.1 in
      let later = reports_calls p rs in
      elim (Bool-cases read.0) [
        | inr q ↦ rw q (
            rw (append_assoc (watch_calls p readers) (watch_calls p writers) later) (
              Adds-stop a (watch_calls p readers) (watch_calls p writers ++ later) read.0 read.1
                reads))
        | inl q ↦
            let both =
              Adds-then a (watch_calls p readers) (watch_calls p writers) read.0 written.0 read.1
                written.1 q reads writes in
            elim (Bool-cases written.0) [
              | inr f ↦ rw (q, f) (Adds-stop a (report_calls p r) later written.0 written.1 both)
              | inl f ↦
                  rw (q, f)
                    (Adds-then a (report_calls p r) later written.0 rest.0 written.1 rest.1 f both
                      (call_reports-Adds p rs written.1))
            ]
      ]
