-- ===== src/ThreadPool/Kept.antt =====
-- Each step keeps the invariant of the pool.
use mathlib.Core.List.{append-nil, append_assoc}
use mathlib.Core.Option.{some-injective}
use pixy.Base.{
  some, subst, ℕ, zero, suc, ◌+◌, ◌≡◌, refl, ap, ◌∙◌, inl, inr, arith, Bool, true, false, ◌||◌,
  List, [], ◌∷◌, ◌++◌, ◌==◌, if◌then◌else◌, Bool-cases,
}
use pixy.Base.Lists.{count, count-append, has-append}
use pixy.ThreadPool.{
  callbacks, ThreadPool, locking, waiting, running, writing, is_exited, is_empty, start, signal,
  post_work, stop, worker_callback, insert_work_list_item, split_pipe,
}
use pixy.ThreadPool.Steps.{
  System, Works, turns, calls, writes, Step, works, wakes_up, posts, stops, reads, Reach, begin,
  later, phase, set_phase,
}
use pixy.ThreadPool.Turns.{
  Inv, IsAttended, in_hand, rephased-Inv, turns-Inv, insert-IsAttended, wake-work_of,
  wake-is_exited,
}

calls-Inv :
    (b : Bool) (s : System) (w : ℕ)
    → Inv s
    → phase b s.pool ≡ running w
    → Inv (record s { pool = set_phase b (writing w) s.pool })
calls-Inv true s w i at =
    rephased-Inv s s.pool.first (writing w) i (λ v. ground (arith, at))
      (λ k q. ground (arith, at, q, i.attended k)) (λ q. i.left (ground (arith, q, at)))
calls-Inv false s w i at =
    rephased-Inv s (writing w) s.pool.second i (λ v. ground (arith, at))
      (λ k q. ground (arith, at, q, i.attended k)) (λ q. i.left (ground (arith, q, at)))

writes-Inv :
    (b : Bool) (s : System) (w : ℕ)
    → Inv s
    → phase b s.pool ≡ writing w
    → Inv (record s { pool = set_phase b locking (record s.pool { pipe = s.pool.pipe ++ w ∷ [] }) })
writes-Inv true s w i at = record {
  pending = i.pending;
  listed = i.listed;
  ordered = i.ordered;
  apart = i.apart;
  once = λ v. ground (arith, i.once v, at, count-append v s.pool.pipe (w ∷ []));
  attended = λ k q. ground arith;
  left = λ q. i.left (ground (arith, q, at));
}
writes-Inv false s w i at = record {
  pending = i.pending;
  listed = i.listed;
  ordered = i.ordered;
  apart = i.apart;
  once = λ v. ground (arith, i.once v, at, count-append v s.pool.pipe (w ∷ []));
  attended = λ k q. ground arith;
  left = λ q. i.left (ground (arith, q, at));
}

wakes_up-Inv :
    (b : Bool) (s : System)
    → Inv s
    → phase b s.pool ≡ waiting
    → Inv (record s { pool = set_phase b locking s.pool })
wakes_up-Inv true s i at =
    rephased-Inv s s.pool.first locking i (λ v. ground (arith, at)) (λ k q. ground arith)
      (λ q. i.left (ground (arith, q, at)))
wakes_up-Inv false s i at =
    rephased-Inv s locking s.pool.second i (λ v. ground (arith, at)) (λ k q. ground arith)
      (λ q. i.left (ground (arith, q, at)))

-- What an insertion leaves as it is.
record Inserted (p r : ThreadPool) (item : ℕ) : Type 0 where
  list : r.work_list ≡ p.work_list ++ item ∷ []
  stop : r.stop_signal ≡ p.stop_signal
  pipe : r.pipe ≡ p.pipe
  hands : (w : ℕ) → in_hand w r ≡ in_hand w p
  out : (is_exited r.first || is_exited r.second) ≡ (is_exited p.first || is_exited p.second)

insert-Inserted :
    (p : ThreadPool) (item : ℕ) (woken : Bool × Bool)
    → Inserted p (insert_work_list_item p item woken) item
unfolding insert_work_list_item signal
insert-Inserted p item woken = elim (Bool-cases (is_empty p.work_list)) [
  | inl e ↦ rw e (record {
    list = refl;
    stop = refl;
    pipe = refl;
    hands = λ w. ground (arith, wake-work_of woken.0 p.first, wake-work_of woken.1 p.second);
    out = ground (arith, wake-is_exited woken.0 p.first, wake-is_exited woken.1 p.second);
  })
  | inr e ↦ rw e (record { list = refl; stop = refl; pipe = refl; hands = λ w. refl; out = refl })
]

posts-Inv :
    (s : System) (r : ThreadPool) (w : ℕ)
    → Inv s
    → s.stopped ≡ false
    → (w == s.pool.stop_signal) ≡ false
    → Inserted s.pool r w
    → IsAttended r
    → Inv (record s { pool = r; posted = s.posted ++ w ∷ [] })
posts-Inv s r w i going other n attended = record {
  pending = i.pending ++ w ∷ [];
  listed =
      ground
        (arith, n.list, i.listed, going, append-nil i.pending, append-nil (i.pending ++ w ∷ []));
  ordered = ap (λ ys. ys ++ w ∷ []) i.ordered ∙ append_assoc s.taken i.pending (w ∷ []);
  apart = ground (arith, i.apart, n.stop, other, has-append s.pool.stop_signal i.pending (w ∷ []));
  once = λ v. ground (arith, i.once v, n.hands v, n.pipe);
  attended = attended;
  left = λ q. absurd (ground (arith, i.left, n.out, q, going));
}

stops-Inv :
    (s : System) (r : ThreadPool)
    → Inv s
    → s.stopped ≡ false
    → Inserted s.pool r s.pool.stop_signal
    → IsAttended r
    → Inv (record s { pool = r; stopped = true })
stops-Inv s r i going n attended = record {
  pending = i.pending;
  listed = ground (arith, n.list, i.listed, going, n.stop, append-nil i.pending);
  ordered = i.ordered;
  apart = ground (arith, i.apart, n.stop);
  once = λ v. ground (arith, i.once v, n.hands v, n.pipe);
  attended = attended;
  left = λ q. absurd (ground (arith, i.left, n.out, q, going));
}

count-split_pipe :
    (v n : ℕ) (ws : List ℕ) → count v (split_pipe n ws).0 + count v (split_pipe n ws).1 ≡ count v ws
unfolding split_pipe
count-split_pipe v n [] = refl
count-split_pipe v zero (w ∷ ws) = omega arith
count-split_pipe v (suc n) (w ∷ ws) = omega (arith, count-split_pipe v n ws)

reads-Inv :
    (s : System)
    → Inv s
    → let (read, left) = split_pipe 8192 s.pool.pipe in
      Inv (record s { pool = record s.pool { pipe = left }; received = s.received ++ read })
reads-Inv s i = record {
  pending = i.pending;
  listed = i.listed;
  ordered = i.ordered;
  apart = i.apart;
  once = λ v. omega (
    arith,
    i.once v,
    count-split_pipe v 8192 s.pool.pipe,
    count-append v s.received (split_pipe 8192 s.pool.pipe).0,
  );
  attended = i.attended;
  left = i.left;
}

worker_callback-Inv :
    (s : System) (read : List ℕ) (called : List (ℕ × ℕ)) (p : ThreadPool)
    → Inv s
    → worker_callback s.pool ≡ some (read, called, p)
    → Inv (record s { pool = p; received = s.received ++ read })
unfolding worker_callback
worker_callback-Inv s read called p i e = elim (Bool-cases (is_empty s.pool.pipe)) [
  | inl f ↦ absurd (ground (arith, e, f))
  | inr f ↦
      let got : some (
        (split_pipe 8192 s.pool.pipe).0,
        callbacks s.pool.works (split_pipe 8192 s.pool.pipe).0,
        record s.pool { pipe = (split_pipe 8192 s.pool.pipe).1 },
      )
          ≡ some (read, called, p) =
        rw f at e in
      let after : List ℕ × List (ℕ × ℕ) × ThreadPool → System =
        λ (r, c, q). record s { pool = q; received = s.received ++ r } in
      subst (λ r. Inv (after r)) (some-injective _ _ got) (reads-Inv s i)
]

pub Works-Inv : (b : Bool) {s t : System} → Inv s → Works b s t → Inv t
Works-Inv b {s} i (turns woken at given) = turns-Inv b s woken i at given
Works-Inv b {s} i (calls w at) = calls-Inv b s w i at
Works-Inv b {s} i (writes w at room) = writes-Inv b s w i at

pub Step-Inv : {s t : System} → Inv s → Step s t → Inv t
unfolding post_work stop
Step-Inv i (works b v) = Works-Inv b i v
Step-Inv {s} i (wakes_up b at) = wakes_up-Inv b s i at
Step-Inv {s} i (posts w function argument user_data callback woken going other given) =
    let filled = record s.pool {
      works = λ v.
          if v == w
          then (record {
            function = function;
            argument = argument;
            user_data = user_data;
            callback = callback;
          })
          else (s.pool.works v);
    } in
    let n = insert-Inserted filled w woken in
    posts-Inv s _ w i going other
      (record { list = n.list; stop = n.stop; pipe = n.pipe; hands = n.hands; out = n.out })
      (insert-IsAttended filled w woken i.attended given)
Step-Inv {s} i (stops woken going given) =
    stops-Inv s _ i going (insert-Inserted s.pool s.pool.stop_signal woken)
      (insert-IsAttended s.pool s.pool.stop_signal woken i.attended given)
Step-Inv {s} i (reads read called p e) = worker_callback-Inv s read called p i e

pub Reach-Inv : {s : System} → Reach s → Inv s
unfolding start
Reach-Inv (begin p no_work no_pointer) = record {
  pending = [];
  listed = no_work;
  ordered = refl;
  apart = refl;
  once = λ w. ground (arith, no_pointer);
  attended = λ k q. ground arith;
  left = λ q. absurd (ground (arith, q));
}
Reach-Inv (later r step) = Step-Inv (Reach-Inv r) step
