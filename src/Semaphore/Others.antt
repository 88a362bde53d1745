-- ===== src/Semaphore/Others.antt =====
-- The scheduler's other operations leave the waiters of a semaphore as they are.
use pixy.Base.{
  ℕ, suc, ◌+◌, ◌≤◌, ◌≡◌, inl, inr, Bool, false, Option, none, some, List, [], ◌∷◌, arith, ◌==◌,
  Bool-cases, Option-cases, ap, ◌∙◌,
}
use pixy.Base.Lists.{count, count-append, get_back, get_back-some, List-cases}
use pixy.Scheduler.{
  Scheduler, Control, add_fiber, run_added, yield_current_fiber, suspend_current_fiber,
  resume_fiber, exit_current_fiber, tick, tick_return,
}
use pixy.Scheduler.Sound.{places}
use pixy.Semaphore.{World}
use pixy.Semaphore.Invariant.{runs, IsPlaced, Inv}

-- `t` is `s` but for what happened to the fiber `x`, and perhaps fewer dead fibers.
pub record OnlyMoves (x : ℕ) (s t : Scheduler) : Type 0 where
  pub once : places t x ≤ 1
  pub same :
      (f : ℕ)
      → (x == f) ≡ false
      → (runs t f ≡ runs s f) × (count f t.dead_fibers ≤ count f s.dead_fibers)

same-IsPlaced :
    (s t : Scheduler) (mine theirs : List ℕ) (mine_free theirs_free : Bool) (f : ℕ)
    → (runs t f ≡ runs s f) × (count f t.dead_fibers ≤ count f s.dead_fibers)
    → IsPlaced s mine theirs mine_free theirs_free f
    → IsPlaced t mine theirs mine_free theirs_free f
same-IsPlaced s t mine theirs mine_free theirs_free f same p = record {
  once = ground (arith, same, p.once);
  waits_once = ground (arith, same, p.waits_once);
  mine_front = ground (arith, same, p.mine_front);
  theirs_front = ground (arith, same, p.theirs_front);
}

OnlyMoves-IsPlaced :
    (x : ℕ) (s t : Scheduler) (mine theirs : List ℕ) (mine_free theirs_free : Bool) (f : ℕ)
    → OnlyMoves x s t
    → count x mine + count x theirs ≡ 0
    → IsPlaced s mine theirs mine_free theirs_free x
    → IsPlaced s mine theirs mine_free theirs_free f
    → IsPlaced t mine theirs mine_free theirs_free f
OnlyMoves-IsPlaced x s t mine theirs mine_free theirs_free f o outside q p =
    elim (Bool-cases (x == f)) [
      | inr other ↦ same-IsPlaced s t mine theirs mine_free theirs_free f (o.same f other) p
      | inl e ↦ record {
        once = ground (arith, o.once, e);
        waits_once = ground (arith, o.once, e, outside);
        mine_front = ground (arith, o.once, e, outside, q.mine_front);
        theirs_front = ground (arith, o.once, e, outside, q.theirs_front);
      }
    ]

-- A fiber that does not wait moves: the invariant is kept.
pub OnlyMoves-Inv :
    (w : World) (x : ℕ) (t : Scheduler)
    → Inv w
    → OnlyMoves x w.scheduler t
    → count x w.semaphore.down_waiters + count x w.semaphore.up_waiters ≡ 0
    → Inv (record w { scheduler = t })
OnlyMoves-Inv w x t inv o outside = record {
  range = record { lower = inv.range.lower; upper = inv.range.upper };
  placed =
      λ f. OnlyMoves-IsPlaced x w.scheduler t _ _ _ _ f o outside (inv.placed x) (inv.placed f);
}

-- No fiber moves: the invariant is kept.
pub Unmoved-Inv :
    (w : World) (t : Scheduler)
    → Inv w
    → ((x : ℕ) → OnlyMoves x w.scheduler t)
    → Inv (record w { scheduler = t })
Unmoved-Inv w t inv none_moves = record {
  range = record { lower = inv.range.lower; upper = inv.range.upper };
  placed = λ f.
      same-IsPlaced w.scheduler t _ _ _ _ f ((none_moves (suc f)).same f (ground arith))
        (inv.placed f);
}

module _ (s : Scheduler) (once : (f : ℕ) → places s f ≤ 1) where
  module _ (a : ℕ) (active : s.active_fiber ≡ some a) (t : Scheduler) (c : Control) where
    pub yield-OnlyMoves : yield_current_fiber s ≡ some (t, c) → OnlyMoves a s t
    unfolding yield_current_fiber
    yield-OnlyMoves e = elim (List-cases s.ready_fibers) [
      | inl nobody ↦ record {
        once = ground (arith, active, nobody, e, once a);
        same = λ f other. ground (arith, active, nobody, e);
      }
      | inr (g, rest, some_ready) ↦ record {
        once =
            ground (arith, active, some_ready, e, once a, count-append a s.ready_fibers (a ∷ []));
        same = λ f other.
            ground (arith, active, some_ready, e, other, count-append f s.ready_fibers (a ∷ []));
      }
    ]

    pub exit-OnlyMoves : exit_current_fiber s ≡ some (t, c) → OnlyMoves a s t
    unfolding exit_current_fiber
    exit-OnlyMoves e = record {
      once = ground (arith, active, e, once a, count-append a s.dead_fibers (a ∷ []));
      same = λ f other. ground (arith, active, e, other, count-append f s.dead_fibers (a ∷ []));
    }

    pub suspend-OnlyMoves : suspend_current_fiber s ≡ some (t, c) → OnlyMoves a s t
    unfolding suspend_current_fiber
    suspend-OnlyMoves e = record {
      once = ground (arith, active, e, once a);
      same = λ f other. ground (arith, active, e, other);
    }

  pub resume-OnlyMoves :
      (x : ℕ) (t : Scheduler) → places s x ≡ 0 → resume_fiber s x ≡ some t → OnlyMoves x s t
  unfolding resume_fiber
  resume-OnlyMoves x t away e = record {
    once = ground (arith, e, away, count-append x s.ready_fibers (x ∷ []));
    same = λ f other. ground (arith, e, other, count-append f s.ready_fibers (x ∷ []));
  }

  pub tick-OnlyMoves :
      (x : ℕ) (t : Scheduler) (c : Control)
      → s.active_fiber ≡ none
      → tick s ≡ some (t, c)
      → OnlyMoves x s t
  unfolding tick
  tick-OnlyMoves x t c idle e = record {
    once = ground (arith, e, idle, once x);
    same = λ f other. ground (arith, e, idle);
  }

  pub tick_return-OnlyMoves : (x : ℕ) → OnlyMoves x s (tick_return s).1
  unfolding tick_return
  tick_return-OnlyMoves x = record { once = ground (arith, once x); same = λ f other. ground arith }

  -- Running the added fiber exchanges it with the caller.
  pub run_added-OnlyMoves :
      (a : ℕ) (t : Scheduler) (c : Control)
      → s.active_fiber ≡ some a
      → run_added a s ≡ some (t, c)
      → OnlyMoves a s t
  unfolding run_added
  run_added-OnlyMoves a t c active e = elim (Option-cases (get_back (a ∷ s.ready_fibers))) [
    | inl nobody ↦ ground (arith, nobody, e)
    | inr ((rest, f), back) ↦
        let exchanged = λ (g : ℕ).
          ap (count g) (get_back-some (a ∷ s.ready_fibers) rest f back)
          ∙ count-append g rest (f ∷ []) in
        record {
          once = ground (arith, back, e, active, exchanged a, once a);
          same = λ g other. ground (arith, back, e, active, exchanged g, other);
        }
  ]

-- An allocation gives memory that no fiber of the world uses.
abbrev pub IsFresh : World → Option ℕ → Type 0
IsFresh w allocated =
    (f : ℕ)
    → allocated ≡ some f
    → (places w.scheduler f ≡ 0)
      × (count f w.semaphore.down_waiters + count f w.semaphore.up_waiters ≡ 0)

pub add_fiber-active :
    (s : Scheduler) (function argument : ℕ) (allocated : Option ℕ)
    → (add_fiber s function argument allocated).1.active_fiber ≡ s.active_fiber
unfolding add_fiber
add_fiber-active s function argument allocated = ground arith

pub add_fiber-Inv :
    (w : World) (function argument : ℕ) (allocated : Option ℕ)
    → Inv w
    → IsFresh w allocated
    → Inv (record w { scheduler = (add_fiber w.scheduler function argument allocated).1 })
unfolding add_fiber
add_fiber-Inv w function argument allocated inv new =
    let s = w.scheduler in
    let t = (add_fiber s function argument allocated).1 in
    elim (Option-cases (get_back s.dead_fibers)) [
      | inr ((rest, x), back) ↦
          let split = λ (g : ℕ).
            ap (count g) (get_back-some s.dead_fibers rest x back) ∙ count-append g rest (x ∷ []) in
          OnlyMoves-Inv w x t inv
            (record {
              once = ground (
                arith,
                back,
                split x,
                (inv.placed x).once,
                count-append x s.ready_fibers (x ∷ []),
              );
              same = λ f other.
                  ground (arith, back, split f, other, count-append f s.ready_fibers (x ∷ []));
            })
            (ground (arith, split x, (inv.placed x).waits_once))
      | inl nobody ↦ elim (Option-cases allocated) [
        | inl failed ↦ ground (arith, nobody, failed)
        | inr (x, given) ↦
            OnlyMoves-Inv w x t inv
              (record {
                once =
                    ground
                      (arith, nobody, given, new x given, count-append x s.ready_fibers (x ∷ []));
                same = λ f other.
                    ground (arith, nobody, given, other, count-append f s.ready_fibers (x ∷ []));
              })
              (new x given).1
      ]
    ]
