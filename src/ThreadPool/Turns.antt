-- ===== src/ThreadPool/Turns.antt =====
-- The invariant of the pool, and that each step keeps it.
use mathlib.Core.List.{append-nil, append_assoc}
use pixy.Base.{
  ℕ, ◌+◌, ◌≡◌, refl, sym, ap, subst, ◌∙◌, inl, inr, arith, Bool, true, false, ◌&&◌, ◌||◌, List, [],
  ◌∷◌, ◌++◌, ◌==◌, if◌then◌else◌, Bool-cases,
}
use pixy.Base.Lists.{count, count-append, has, List-cases}
use pixy.ThreadPool.{
  ThreadPool, Phase, locking, waiting, running, writing, exited, is_exited, is_empty, wake, signal,
  worker, insert_work_list_item,
}
use pixy.ThreadPool.Steps.{System, is_waiting, IsSignal, phase, set_phase, turned, work_of}

abbrev pub is_locking : Phase → Bool
is_locking locking = true
is_locking waiting = false
is_locking (running w) = false
is_locking (writing w) = false
is_locking exited = false

-- the stop signal, if it was given
abbrev pub ending : System → List ℕ
ending s = if s.stopped then s.pool.stop_signal ∷ [] else []

-- the works in the hands of the two workers
abbrev pub in_hand : ℕ → ThreadPool → ℕ
in_hand w p = count w (work_of p.first) + count w (work_of p.second)

-- Where a thread waits although there is work, another one is on its way to the work.
abbrev pub IsAttended : ThreadPool → Type 0
IsAttended p =
    is_empty p.work_list ≡ false
    → (is_waiting p.first || is_waiting p.second) ≡ true
    → (is_locking p.first || is_locking p.second) ≡ true

pub record Inv (s : System) : Type 0 where
  pub pending : List ℕ
  pub listed : s.pool.work_list ≡ pending ++ ending s
  pub ordered : s.posted ≡ s.taken ++ pending
  pub apart : has s.pool.stop_signal pending ≡ false
  pub once : (w : ℕ) → count w s.taken ≡ in_hand w s.pool + count w s.pool.pipe + count w s.received
  pub attended : IsAttended s.pool
  pub left :
      (is_exited s.pool.first || is_exited s.pool.second) ≡ true
      → (pending ≡ []) × (s.stopped ≡ true)

-- a phase in which a thread has no work
abbrev pub idle_phase : Phase → Bool
idle_phase (running w) = false
idle_phase (writing w) = false
idle_phase locking = true
idle_phase waiting = true
idle_phase exited = true

pub wake-work_of : (b : Bool) (f : Phase) → work_of (wake b f) ≡ work_of f
wake-work_of b locking = refl
wake-work_of true waiting = refl
wake-work_of false waiting = refl
wake-work_of b (running w) = refl
wake-work_of b (writing w) = refl
wake-work_of b exited = refl

pub wake-is_exited : (b : Bool) (f : Phase) → is_exited (wake b f) ≡ is_exited f
wake-is_exited b locking = refl
wake-is_exited true waiting = refl
wake-is_exited false waiting = refl
wake-is_exited b (running w) = refl
wake-is_exited b (writing w) = refl
wake-is_exited b exited = refl

-- Behind a signal, a thread that waits is accompanied by one that was woken.
signal-attends :
    (woken : Bool × Bool) (f g : Phase)
    → ((is_waiting f || is_waiting g) ≡ true
        → ((woken.0 && is_waiting f) || (woken.1 && is_waiting g)) ≡ true)
    → (is_waiting (wake woken.0 f) || is_waiting (wake woken.1 g)) ≡ true
    → (is_locking (wake woken.0 f) || is_locking (wake woken.1 g)) ≡ true
signal-attends (a, b) f g h k = attends a b f g h k
  where
    attends :
        (a b : Bool) (f g : Phase)
        → ((is_waiting f || is_waiting g) ≡ true
            → ((a && is_waiting f) || (b && is_waiting g)) ≡ true)
        → (is_waiting (wake a f) || is_waiting (wake b g)) ≡ true
        → (is_locking (wake a f) || is_locking (wake b g)) ≡ true
    attends a b f g h k = ground arith

pub insert-IsAttended :
    (p : ThreadPool) (item : ℕ) (woken : Bool × Bool)
    → IsAttended p
    → IsSignal p woken
    → IsAttended (insert_work_list_item p item woken)
unfolding insert_work_list_item signal
insert-IsAttended p item woken old given = elim (Bool-cases (is_empty p.work_list)) [
  | inl e ↦ rw e (λ k q. signal-attends woken p.first p.second given q)
  | inr e ↦ rw e (λ k q. old e q)
]

-- a turn, by what is in the work list
abbrev pub worker_on : ThreadPool → (woken : Bool × Bool) → List ℕ → Phase × ThreadPool
worker_on p woken xs = elim xs [
  | [] ↦ (waiting, p)
  | item ∷ rest ↦
      let removed = record p { work_list = rest } in
      if item == p.stop_signal
      then (exited, signal woken p)
      else (running item, if is_empty rest then removed else signal woken removed)
]

pub worker-run :
    (p : ThreadPool) (woken : Bool × Bool) (xs : List ℕ)
    → p.work_list ≡ xs
    → worker p woken ≡ worker_on p woken xs
unfolding worker
worker-run p woken xs e = ap (worker_on p woken) e

abbrev turned_by : Bool → System → Phase × ThreadPool → System
turned_by b s (f, p) = record s { pool = set_phase b f p; taken = s.taken ++ work_of f }

-- In an empty list there is no pending work; a first item other than the stop signal is one.
pending_empty : (s : System) (i : Inv s) → s.pool.work_list ≡ [] → i.pending ≡ []
pending_empty s i e = elim (List-cases i.pending) [
  | inl f ↦ f
  | inr (x, xs, f) ↦ absurd (ground (arith, e, f, i.listed))
]

pending_first :
    (s : System) (i : Inv s) (item : ℕ) (rest : List ℕ)
    → s.pool.work_list ≡ item ∷ rest
    → (item == s.pool.stop_signal) ≡ false
    → (xs : List ℕ) × (i.pending ≡ item ∷ xs) × (rest ≡ xs ++ ending s)
pending_first s i item rest e other = elim (List-cases i.pending) [
  | inl f ↦ absurd (ground (arith, e, f, i.listed, other))
  | inr (x, xs, f) ↦ (xs, ground (arith, e, f, i.listed), ground (arith, e, f, i.listed))
]

pending_stop :
    (s : System) (i : Inv s) (item : ℕ) (rest : List ℕ)
    → s.pool.work_list ≡ item ∷ rest
    → (item == s.pool.stop_signal) ≡ true
    → (i.pending ≡ []) × (s.stopped ≡ true)
pending_stop s i item rest e same = elim (List-cases i.pending) [
  | inl f ↦ (f, ground (arith, e, f, i.listed))
  | inr (x, xs, f) ↦ absurd (ground (arith, e, f, i.listed, same, i.apart))
]

-- Only the phases change, and the works in hand are the same.
pub rephased-Inv :
    (s : System) (f g : Phase) (i : Inv s)
    → ((w : ℕ) → count w (work_of f) + count w (work_of g) ≡ in_hand w s.pool)
    → IsAttended (record s.pool { first = f; second = g })
    → ((is_exited f || is_exited g) ≡ true → (i.pending ≡ []) × (s.stopped ≡ true))
    → Inv (record s { pool = record s.pool { first = f; second = g } })
rephased-Inv s f g i hands attended left = record {
  pending = i.pending;
  listed = i.listed;
  ordered = i.ordered;
  apart = i.apart;
  once = λ w. omega (arith, i.once w, hands w);
  attended = attended;
  left = left;
}

taken_nothing : (s : System) → Inv s → Inv (record s { taken = s.taken ++ [] })
taken_nothing s i = subst (λ xs. Inv (record s { taken = xs })) (sym (append-nil s.taken)) i

-- a thread goes to wait at an empty list
waits-Inv :
    (b : Bool) (s : System) (woken : Bool × Bool)
    → Inv s
    → phase b s.pool ≡ locking
    → s.pool.work_list ≡ []
    → Inv (turned_by b s (worker_on s.pool woken []))
waits-Inv true s woken i at e = taken_nothing _ (
    rephased-Inv s s.pool.first waiting i (λ w. ground (arith, at))
      (λ k. absurd (ground (arith, k, e))) (λ q. i.left (ground (arith, q, at))))
waits-Inv false s woken i at e = taken_nothing _ (
    rephased-Inv s waiting s.pool.second i (λ w. ground (arith, at))
      (λ k. absurd (ground (arith, k, e))) (λ q. i.left (ground (arith, q, at))))

-- a thread leaves at the stop signal
leaves-Inv :
    (b : Bool) (s : System) (woken : Bool × Bool) (item : ℕ) (rest : List ℕ)
    → Inv s
    → phase b s.pool ≡ locking
    → IsSignal s.pool woken
    → s.pool.work_list ≡ item ∷ rest
    → (item == s.pool.stop_signal) ≡ true
    → Inv (turned_by b s (exited, signal woken s.pool))
unfolding signal
leaves-Inv true s woken item rest i at given e same = taken_nothing _ (
    rephased-Inv s (wake woken.0 s.pool.first) exited i
      (λ w. ground (arith, at, wake-work_of woken.0 s.pool.first))
      (λ k q. ground (arith, at, q, signal-attends woken s.pool.first s.pool.second given))
      (λ q. pending_stop s i item rest e same))
leaves-Inv false s woken item rest i at given e same = taken_nothing _ (
    rephased-Inv s exited (wake woken.1 s.pool.second) i
      (λ w. ground (arith, at, wake-work_of woken.1 s.pool.second))
      (λ k q. ground (arith, at, q, signal-attends woken s.pool.first s.pool.second given))
      (λ q. pending_stop s i item rest e same))

-- a thread takes the first work, and the other one has the phase `f` behind it
module _ (s : System) (i : Inv s) (item : ℕ) (rest : List ℕ) (e : s.pool.work_list ≡ item ∷ rest)
    (other : (item == s.pool.stop_signal) ≡ false) where
  taken-Inv :
      (f g : Phase)
      → ((w : ℕ)
          → count w (work_of f) + count w (work_of g) ≡ in_hand w s.pool + count w (item ∷ []))
      → IsAttended (record s.pool { first = f; second = g; work_list = rest })
      → ((is_exited f || is_exited g) ≡ true
          → (is_exited s.pool.first || is_exited s.pool.second) ≡ true)
      → Inv (record s {
        pool = record s.pool { first = f; second = g; work_list = rest };
        taken = s.taken ++ item ∷ [];
      })
  taken-Inv f g hands attended out =
      let (xs, p, q) = pending_first s i item rest e other in
      record {
        pending = xs;
        listed = q;
        ordered =
            i.ordered ∙ ap (λ ys. s.taken ++ ys) p ∙ sym (append_assoc s.taken (item ∷ []) xs);
        apart = ground (arith, i.apart, p);
        once = λ w. ground (arith, i.once w, hands w, count-append w s.taken (item ∷ []));
        attended = attended;
        left = λ r. absurd (ground (arith, i.left (out r), p));
      }

  takes-Inv :
      (b : Bool) (woken : Bool × Bool)
      → phase b s.pool ≡ locking
      → IsSignal s.pool woken
      → let removed = record s.pool { work_list = rest } in
        Inv (turned_by b s (running item, if is_empty rest then removed else signal woken removed))
  unfolding signal
  takes-Inv true woken at given = elim (Bool-cases (is_empty rest)) [
    | inl k ↦ rw k (
        taken-Inv s.pool.first (running item) (λ w. ground (arith, at))
          (λ m. absurd (ground (arith, m, k))) (λ r. ground (arith, at, r)))
    | inr k ↦ rw k (
        taken-Inv (wake woken.0 s.pool.first) (running item)
          (λ w. ground (arith, at, wake-work_of woken.0 s.pool.first))
          (λ m q. ground (arith, at, given, q))
          (λ r. ground (arith, r, wake-is_exited woken.0 s.pool.first)))
  ]
  takes-Inv false woken at given = elim (Bool-cases (is_empty rest)) [
    | inl k ↦ rw k (
        taken-Inv (running item) s.pool.second (λ w. ground (arith, at))
          (λ m. absurd (ground (arith, m, k))) (λ r. ground (arith, at, r)))
    | inr k ↦ rw k (
        taken-Inv (running item) (wake woken.1 s.pool.second)
          (λ w. ground (arith, at, wake-work_of woken.1 s.pool.second))
          (λ m q. ground (arith, at, given, q))
          (λ r. ground (arith, r, wake-is_exited woken.1 s.pool.second)))
  ]

pub turns-Inv :
    (b : Bool) (s : System) (woken : Bool × Bool)
    → Inv s
    → phase b s.pool ≡ locking
    → IsSignal s.pool woken
    → Inv (turned b woken s)
turns-Inv b s woken i at given = elim (List-cases s.pool.work_list) [
  | inl e ↦
      subst (λ r. Inv (turned_by b s r)) (sym (worker-run s.pool woken [] e))
        (waits-Inv b s woken i at e)
  | inr (item, rest, e) ↦
      subst (λ r. Inv (turned_by b s r)) (sym (worker-run s.pool woken (item ∷ rest) e))
        (elim (Bool-cases (item == s.pool.stop_signal)) [
          | inl same ↦ rw same (leaves-Inv b s woken item rest i at given e same)
          | inr other ↦ rw other (takes-Inv s i item rest e other b woken at given)
        ])
]
