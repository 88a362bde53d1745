-- ===== src/IoPoller/Undone.antt =====
-- IOPoller_SetWatch of Source/IOPoller.c, and IOPoller_ClearWatch of the watch that it has set.
use mathlib.Core.Option.{some-injective}
use pixy.Base.{
  ℕ, ◌+◌, ◌%◌, ◌^◌, ◌<◌, ◌≤◌, ◌≡◌, refl, ap, sym, subst, ◌∙◌, arith, inl, inr, Bool, true, false,
  not, ◌&&◌, ◌||◌, List, [], ◌∷◌, ◌++◌, ◌==◌, if◌then◌else◌, Bool-cases, Option, some, Option-cases,
}
use pixy.Base.Lists.{has, take_out, List-cases}
use pixy.Vector.{Realloc}
use pixy.Vector.Bytes.{IsKeeping}
use pixy.MemoryPool.{memory_chunk_size}
use pixy.MemoryPool.Chains.{holds}
use pixy.IoPoller.{
  IoPoller, IoWatch, IoCondition, Flags, watch_list, set_watch, clear_watch, make_dirty, put,
  set_watch_list, set_flag,
}
use pixy.IoPoller.Kept.{IsPoller}
use pixy.IoPoller.Change.{clear_watch-IsPoller}
use pixy.IoPoller.Fit.{IsFitting, watches}
use pixy.IoPoller.Set.{moved-IsFitting}
use pixy.IoPoller.Stored.{IsStored, moved-IsStored, set_watch-Stored}

-- The invariants of the poller, of its vector and of its pool hold; `free` are the free slots of the pool.
pub record IsWell {E : Type 0} (get : E → ℕ → Option (Flags × ℕ)) (k : E) (p : IoPoller)
    (free : ℕ → List ℕ) : Type 0 where
  pub kept : IsPoller get k p p.dirty_events
  pub fitting : IsFitting p
  pub stored : IsStored p.events p.event_memory_pool free

pub take_out-last : (x : ℕ) (xs : List ℕ) → has x xs ≡ false → take_out x (xs ++ x ∷ []) ≡ some xs
unfolding take_out
take_out-last x [] h = ground arith
take_out-last x (y ∷ xs) h =
    let rest = take_out-last x xs (ground (arith, h)) in ground (arith, h, rest)

-- what make_dirty keeps
make_dirty-keeps :
    (a : ℕ) (p : IoPoller)
    → let r = make_dirty a p in
      (r.events ≡ p.events)
      × (r.event_vector ≡ p.event_vector)
      × (r.event_memory_pool ≡ p.event_memory_pool)
unfolding make_dirty
make_dirty-keeps a p = elim (Bool-cases (has a p.dirty_events)) [
  | inl d ↦ rw d (refl, refl, refl)
  | inr d ↦ rw d (refl, refl, refl)
]

kept-by :
    (p q r : IoPoller)
    → some q ≡ some r
    → (q.events ≡ p.events)
      × (q.event_vector ≡ p.event_vector)
      × (q.event_memory_pool ≡ p.event_memory_pool)
    → (r.events ≡ p.events)
      × (r.event_vector ≡ p.event_vector)
      × (r.event_memory_pool ≡ p.event_memory_pool)
kept-by p q r e (a, b, c) =
    let same = sym (some-injective q r e) in
    (
      ap (λ v. v.events) same ∙ a,
      ap (λ v. v.event_vector) same ∙ b,
      ap (λ v. v.event_memory_pool) same ∙ c,
    )

clear_watch-keeps :
    (p r : IoPoller) (w : ℕ)
    → clear_watch p w ≡ some r
    → (r.events ≡ p.events)
      × (r.event_vector ≡ p.event_vector)
      × (r.event_memory_pool ≡ p.event_memory_pool)
unfolding clear_watch
clear_watch-keeps p r w e =
    let c = (p.watch w).condition in
    let event = p.event_of w in
    let old = p.event event in
    elim (Option-cases (take_out w (watch_list (p.watch w).condition (p.event (p.event_of w))))) [
      | inl n ↦ absurd (ground (arith, (rw n at e)))
      | inr (rest, n) ↦ elim (List-cases rest) [
        | inl l ↦ kept-by p _ r (rw (n, l) at e) (
            make_dirty-keeps event (record p {
              event = put p.event event (record (set_watch_list c rest old) {
                pending_flags = set_flag c false old.pending_flags;
              });
            }))
        | inr (y, ys, l) ↦ kept-by p _ r (rw (n, l) at e) (refl, refl, refl)
      ]
    ]

watches-live :
    (p : IoPoller) (c : IoCondition) (fd : ℕ)
    → (p.events fd == 0) ≡ false
    → watches p c fd ≡ watch_list c (p.event (p.events fd))
watches-live p c fd live = rw live refl

-- What a call of IOPoller_SetWatch leaves, and what IOPoller_ClearWatch of its watch then leaves: `ok` is the result
-- of the call.
pub record Undone {E : Type 0} (get : E → ℕ → Option (Flags × ℕ)) (realloc : Realloc) (k : E)
    (p : IoPoller) (allocated : Option ℕ) (watch fd : ℕ) (fields : IoWatch) (ok : Bool)
    : Type 0 where
  pub after : IoPoller
  pub run : set_watch realloc allocated p watch fd fields ≡ some (ok, after)
  pub left : ℕ → List ℕ
  pub well : IsWell get k after left
  pub listed :
      watches after fields.condition fd
      ≡ (if ok then watches p fields.condition fd ++ watch ∷ [] else watches p fields.condition fd)
  pub undone :
      ok ≡ true
      → (r : IoPoller) × (clear_watch after watch ≡ some r)
        × IsWell get k r left
        × (watches r fields.condition fd ≡ watches p fields.condition fd)

pub set_watch-Undone :
    {E : Type 0} (get : E → ℕ → Option (Flags × ℕ)) (realloc : Realloc) (k : E) (p : IoPoller)
    (fd : ℕ) (allocated : Option ℕ) (watch : ℕ) (fields : IoWatch) (free : ℕ → List ℕ)
    → IsKeeping realloc
    → IsWell get k p free
    → fd + 1 < 2 ^ 31
    → ((c : ℕ)
        → allocated ≡ some c
        → (holds p.event_memory_pool c ≡ 0)
          × (c % memory_chunk_size ≡ 0)
          × (c + memory_chunk_size ≤ 2 ^ 64))
    → has watch (watches p fields.condition fd) ≡ false
    → (ok : Bool) × Undone get realloc k p allocated watch fd fields ok
set_watch-Undone get realloc k p fd allocated watch fields free keeps w small new away =
    let (a, pool, gives, grown, v, fits, t, left, stored) =
      set_watch-Stored get realloc k p fd allocated watch fields free keeps w.kept w.fitting small
        w.stored new in
    (
      grown && (not (p.events fd == 0) || not (a == 0)),
      record {
        after = t.after;
        run = t.run;
        left = left;
        well = record { kept = t.kept; fitting = t.fitting; stored = stored };
        listed = t.listed;
        undone = λ q.
            let (live, of, same) = t.linked q in
            let c = fields.condition in
            let list : watch_list c (t.after.event (t.after.events fd))
                ≡ watches p c fd ++ watch ∷ [] =
              sym (watches-live t.after c fd live) ∙ t.listed ∙ rw q refl in
            let (r, ran, kept, rest) =
              clear_watch-IsPoller get k t.after t.kept fd watch (sym of)
                (ap (λ x. x == 0) of ∙ live) (watches p c fd)
                (rw (of, same, list) (take_out-last watch (watches p c fd) away)) in
            let (events, vector, pooled) = clear_watch-keeps t.after r watch ran in
            (
              r,
              ran,
              record {
                kept = kept;
                fitting =
                    moved-IsFitting t.after r vector (λ g far. ap (λ f. f g) events)
                      (λ g. subst (λ f. f g < 2 ^ 64) (sym events) (t.fitting.words g)) t.fitting;
                stored =
                    moved-IsStored t.after.events r.events t.after.event_memory_pool
                      r.event_memory_pool left events pooled stored;
              },
              watches-live r c fd (ap (λ f. f fd == 0) events ∙ live)
                  ∙ ap (λ f. watch_list c (r.event (f fd))) events
                  ∙ ap (λ a. watch_list c (r.event a)) (sym of)
                  ∙ ap (λ (v : IoWatch). watch_list v.condition (r.event (t.after.event_of watch)))
                      (sym same)
                  ∙ rest,
            );
      },
    )
