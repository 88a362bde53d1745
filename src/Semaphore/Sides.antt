-- ===== src/Semaphore/Sides.antt =====
-- The three courses of a call, for either side: it passes, it is woken, or it waits.
use pixy.Base.{
  ℕ, ◌+◌, ◌≡◌, Bool, true, false, not, ◌&&◌, some, List, [], ◌∷◌, ◌++◌, arith, ◌==◌, if◌then◌else◌,
  ◌∙◌,
}
use pixy.Base.Lists.{count, count-append}
use pixy.Scheduler.{Scheduler}
use pixy.Semaphore.{resume_front_if, unresume_front_if}
use pixy.Semaphore.Invariant.{runs, is_front, IsPlaced}
use pixy.Semaphore.Moves.{
  count-is_front, Resumed, Unresumed, resume_front_if-Resumed, unresume_front_if-Unresumed,
}

module _ {s : Scheduler} {mine theirs : List ℕ} {mine_free theirs_free : Bool}
    (placed : (f : ℕ) → IsPlaced s mine theirs mine_free theirs_free f) (a : ℕ)
    (active : s.active_fiber ≡ some a) where
  -- The caller passes: it does not wait, and its side was free.
  module _ (outside : count a mine ≡ 0) (was_free : mine_free ≡ true) where
    pub pass_unresumes :
        (b : Bool) → (t : Scheduler) × (unresume_front_if b mine s ≡ some t) × Unresumed b mine s t
    pass_unresumes b = unresume_front_if-Unresumed b mine s λ g front _. (
      ground (arith, active, outside, front, count-is_front g mine front),
      ground (
        arith,
        active,
        outside,
        count-is_front g mine front,
        (placed g).mine_front,
        (placed g).waits_once,
        was_free,
      ),
    )

    pub pass_resumes :
        (b : Bool) (t : Scheduler) (c : Bool)
        → Unresumed b mine s t
        → c ≡ not theirs_free
        → (u : Scheduler) × (resume_front_if c theirs t ≡ some u) × Resumed c theirs t u
    pass_resumes b t c un e = resume_front_if-Resumed c theirs t λ g front ce. ground (
      arith,
      active,
      un.active,
      e,
      count-is_front g theirs front,
      (placed g).theirs_front,
      (placed g).waits_once,
    )

    pub pass_keeps :
        (now_free : Bool) (t u : Scheduler)
        → Unresumed (not now_free) mine s t
        → Resumed (not theirs_free) theirs t u
        → (f : ℕ) → IsPlaced u mine theirs now_free true f
    pass_keeps now_free t u un re f =
        let p = placed f in
        let moved : count f s.ready_fibers + (if is_front f theirs && not theirs_free then 1 else 0)
            ≡ count f u.ready_fibers + (if is_front f mine && not now_free then 1 else 0) =
          omega (arith, un.ready f, re.ready f) in
        let still = re.active ∙ un.active in
        let buried = re.dead ∙ un.dead in
        let first = count-is_front f mine in
        let first' = count-is_front f theirs in
        record {
          once = ground (
            arith, p.once, p.waits_once, p.mine_front, p.theirs_front, moved, still, buried, first,
            first', was_free,
          );
          waits_once = ground (arith, p.waits_once, buried);
          mine_front =
              ground (arith, p.waits_once, p.mine_front, moved, still, first, first', was_free);
          theirs_front = ground (arith, p.waits_once, p.theirs_front, moved, still, first, first');
        }

  -- The caller is woken: it is the first that waits on its side, and leaves; the next takes its place.
  module _ (rest : List ℕ) (waiting : mine ≡ a ∷ rest) where
    pub wake_free : mine_free ≡ true
    wake_free = ground (arith, active, waiting, (placed a).mine_front, (placed a).waits_once)

    pub wake_resumes :
        (b : Bool) → (t : Scheduler) × (resume_front_if b rest s ≡ some t) × Resumed b rest s t
    wake_resumes b = resume_front_if-Resumed b rest s λ g front be.
        ground (arith, active, waiting, (placed a).waits_once, count-is_front g rest front)

    pub wake_resumes_theirs :
        (b : Bool) (t : Scheduler) (c : Bool)
        → Resumed b rest s t
        → c ≡ not theirs_free
        → (u : Scheduler) × (resume_front_if c theirs t ≡ some u) × Resumed c theirs t u
    wake_resumes_theirs b t c re e = resume_front_if-Resumed c theirs t λ g front ce. ground (
      arith,
      active,
      re.active,
      e,
      count-is_front g theirs front,
      (placed g).theirs_front,
      (placed g).waits_once,
    )

    pub wake_keeps :
        (now_free : Bool) (t u : Scheduler)
        → Resumed now_free rest s t
        → Resumed (not theirs_free) theirs t u
        → (f : ℕ) → IsPlaced u rest theirs now_free true f
    wake_keeps now_free t u re re' f =
        let p = placed f in
        let moved : count f u.ready_fibers
            ≡ count f s.ready_fibers
              + (if is_front f theirs && not theirs_free then 1 else 0)
              + (if is_front f rest && now_free then 1 else 0) =
          omega (arith, re.ready f, re'.ready f) in
        let still = re'.active ∙ re.active in
        let buried = re'.dead ∙ re.dead in
        let first = count-is_front f rest in
        let first' = count-is_front f theirs in
        record {
          once = ground (
            arith, waiting, p.once, p.waits_once, p.mine_front, p.theirs_front, moved, still,
            buried, first, first',
          );
          waits_once = ground (arith, waiting, p.waits_once, buried);
          mine_front =
              ground (arith, waiting, p.waits_once, p.mine_front, moved, still, first, first');
          theirs_front =
              ground (arith, waiting, p.waits_once, p.theirs_front, moved, still, first, first');
        }

  -- The caller waits: its side is not free, and it goes to the end of its side.
  pub wait_keeps :
      (t : Scheduler)
      → count a mine + count a theirs ≡ 0
      → mine_free ≡ false
      → ((f : ℕ) → runs t f + (if a == f then 1 else 0) ≡ runs s f)
      → t.dead_fibers ≡ s.dead_fibers
      → (f : ℕ) → IsPlaced t (mine ++ a ∷ []) theirs mine_free theirs_free f
  wait_keeps t outside shut parked buried f =
      let p = placed f in
      let appended = count-append f mine (a ∷ []) in
      record {
        once = ground (arith, p.once, buried, parked f);
        waits_once = ground (arith, p.once, p.waits_once, buried, outside, appended, active);
        mine_front =
            ground (arith, p.once, p.mine_front, parked f, outside, appended, active, shut);
        theirs_front = ground (arith, p.theirs_front, parked f, outside);
      }
