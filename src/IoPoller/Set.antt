-- ===== src/IoPoller/Set.antt =====
-- IOPoller_SetWatch of Source/IOPoller.c for any descriptor, whether or not it succeeds.
use pixy.Base.{
  ℕ, ◌+◌, ◌^◌, ◌<◌, ◌≤◌, ◌≡◌, refl, sym, ap, subst, ◌∙◌, inl, inr, arith, Bool, true, false, not,
  ◌&&◌, ◌||◌, [], ◌∷◌, ◌++◌, ◌==◌, ltb, if◌then◌else◌, Option, some, Bool-cases, ==→eq,
}
use pixy.Base.Lists.{has}
use pixy.Vector.{Vector, Realloc, get_length}
use pixy.Vector.Bytes.{IsKeeping}
use pixy.Vector.Lengths.{IsVector}
use pixy.MemoryPool.{MemoryPool, allocate_block}
use pixy.IoPoller.{
  IoPoller, IoWatch, Flags, has_flag, make_dirty, fit_fd, get_event, link_watch, set_watch,
  watch_list,
}
use pixy.IoPoller.Kept.{IsPoller}
use pixy.IoPoller.Change.{put-at, link_watch-IsPoller}
use pixy.IoPoller.Begin.{set_watch-IsPoller}
use pixy.IoPoller.Fit.{IsFitting, Fitted, fit_fd-Fitted, watches}

-- what IOPoller_SetWatch keeps once the event is there
link_watch-keeps :
    (a watch : ℕ) (fields : IoWatch) (p : IoPoller)
    → let r = link_watch a watch fields p in
      (r.events ≡ p.events)
      × (r.event_vector ≡ p.event_vector)
      × (r.event_memory_pool ≡ p.event_memory_pool)
      × (r.event_of watch ≡ a)
      × (r.watch watch ≡ fields)
unfolding link_watch make_dirty
link_watch-keeps a watch fields p =
    elim (Bool-cases (has_flag fields.condition (p.event a).pending_flags)) [
      | inl h ↦ rw h (refl, refl, refl, put-at p.event_of watch a, put-at p.watch watch fields)
      | inr h ↦ elim (Bool-cases (has a p.dirty_events)) [
        | inl d ↦
            rw (h, d) (refl, refl, refl, put-at p.event_of watch a, put-at p.watch watch fields)
        | inr d ↦
            rw (h, d) (refl, refl, refl, put-at p.event_of watch a, put-at p.watch watch fields)
      ]
    ]

pub moved-IsFitting :
    (p r : IoPoller)
    → r.event_vector ≡ p.event_vector
    → ((fd : ℕ) → p.event_vector.length ≤ fd → r.events fd ≡ p.events fd)
    → ((fd : ℕ) → r.events fd < 2 ^ 64)
    → IsFitting p
    → IsFitting r
moved-IsFitting p r same stay low w = record {
  words = low;
  blank = λ e. ap (λ v. v.size) same ∙ w.blank (sym (ap (λ v. v.elements) same) ∙ e);
  vector = subst IsVector (sym same) w.vector;
  wide = ap (λ v. v.element_size) same ∙ w.wide;
  beyond =
      λ fd far. let from = subst (λ v. v.length ≤ fd) same far in stay fd from ∙ w.beyond fd from;
}

-- Where the event of the descriptor `fd` is from: it is as before; or the pool has no block; or it is the block `a`
-- of the pool, which is `pool` behind that.
pub data Source (p after : IoPoller) (fd a : ℕ) (pool : MemoryPool) : Type 0 where
  unchanged :
      after.events ≡ p.events
      → after.event_memory_pool ≡ p.event_memory_pool
      → Source p after fd a pool
  no_block :
      (a == 0) ≡ true
      → after.events ≡ p.events
      → after.event_memory_pool ≡ pool
      → Source p after fd a pool
  new_event :
      (a == 0) ≡ false
      → after.events fd ≡ a
      → ((g : ℕ) → (g == fd) ≡ false → after.events g ≡ p.events g)
      → after.event_memory_pool ≡ pool
      → Source p after fd a pool

-- What a call of IOPoller_SetWatch leaves: `ok` is its result, and the pool would give `a` and be `pool` behind that.
pub record Watched {E : Type 0} (get : E → ℕ → Option (Flags × ℕ)) (realloc : Realloc) (k : E)
    (p : IoPoller) (allocated : Option ℕ) (a : ℕ) (pool : MemoryPool) (watch fd : ℕ)
    (fields : IoWatch) (ok : Bool) : Type 0 where
  pub after : IoPoller
  pub run : set_watch realloc allocated p watch fd fields ≡ some (ok, after)
  pub kept : IsPoller get k after after.dirty_events
  pub fitting : IsFitting after
  pub source : Source p after fd a pool
  pub linked :
      ok ≡ true
      → ((after.events fd == 0) ≡ false)
        × (after.event_of watch ≡ after.events fd)
        × (after.watch watch ≡ fields)
  pub listed :
      watches after fields.condition fd
      ≡ (if ok then watches p fields.condition fd ++ watch ∷ [] else watches p fields.condition fd)

-- the invariant does not depend on the vector and on the pool
moved-IsPoller :
    {E : Type 0} (get : E → ℕ → Option (Flags × ℕ)) (k : E) (p : IoPoller) (v : Vector)
    (pool : MemoryPool)
    → IsPoller get k p p.dirty_events
    → IsPoller get k (record p { event_vector = v; event_memory_pool = pool }) p.dirty_events
moved-IsPoller get k p v pool i = record {
  own = i.own;
  pends = i.pends;
  known = i.known;
  clean = i.clean;
  listed = i.listed;
  once = i.once;
}

module _ {E : Type 0} (get : E → ℕ → Option (Flags × ℕ)) (realloc : Realloc) (k : E) (p : IoPoller)
    (i : IsPoller get k p p.dirty_events) (fd : ℕ) (allocated : Option ℕ) (watch : ℕ)
    (fields : IoWatch) (ok : Bool) (v : Vector) where
  abbrev fit : IoPoller
  fit = record p { event_vector = v }

  module _ (run : fit_fd realloc p fd ≡ some (true, fit)) (whole : IsFitting fit)
      (inside : ltb fd v.length ≡ true) where
    fit-again : fit_fd realloc fit fd ≡ some (true, fit)
    unfolding fit_fd get_length
    fit-again = rw inside refl

    again :
        set_watch realloc allocated p watch fd fields
        ≡ set_watch realloc allocated fit watch fd fields
    unfolding set_watch
    again = rw (run, fit-again) refl

    linked-Watched :
        (a : ℕ) (pool : MemoryPool)
        → (p.events fd == 0) ≡ false
        → Watched get realloc k p allocated a pool watch fd fields true
    unfolding set_watch get_event
    linked-Watched a pool live =
        let (j, more) =
          link_watch-IsPoller get k fit (moved-IsPoller get k p v p.event_memory_pool i) fd
            (p.events fd) refl live watch fields in
        let (same, sized, pooled, of, stored) = link_watch-keeps (p.events fd) watch fields fit in
        let r = link_watch (p.events fd) watch fields fit in
        record {
          after = r;
          run = rw (run, live) (rw live refl);
          kept = j;
          fitting =
              moved-IsFitting fit _ sized (λ g far. ap (λ f. f g) same)
                (λ g. subst (λ f. f g < 2 ^ 64) (sym same) (whole.words g)) whole;
          source = unchanged same pooled;
          linked = λ q. (ap (λ f. f fd == 0) same ∙ live, of ∙ sym (ap (λ f. f fd) same), stored);
          listed =
              ap (λ f. if f fd == 0 then [] else watch_list fields.condition (r.event (f fd))) same
              ∙ rw live more;
        }

    begun-Watched :
        (a : ℕ) (pool : MemoryPool)
        → (p.events fd == 0) ≡ true
        → (a == 0) ≡ false
        → a < 2 ^ 64
        → ((g : ℕ) → (p.events g == a) ≡ false)
        → has a p.dirty_events ≡ false
        → allocate_block p.event_memory_pool allocated ≡ some (a, pool)
        → Watched get realloc k p allocated a pool watch fd fields true
    unfolding get_length
    begun-Watched a pool dead live low fresh away gives =
        let none_yet : p.events fd ≡ 0 = ==→eq (p.events fd) 0 dead in
        let (r, ran, j, at, only, sized, pooled, of, stored, others) =
          set_watch-IsPoller get k fit (moved-IsPoller get k p v p.event_memory_pool i) fd a pool
            none_yet live fresh away watch fields realloc allocated inside gives in
        record {
          after = r;
          run = again ∙ ran;
          kept = j;
          fitting =
              moved-IsFitting fit r sized
                (λ g far. others g (elim (Bool-cases (g == fd)) [
                  | inl e ↦ absurd (ground (arith, e, far, inside))
                  | inr e ↦ e
                ]))
                (λ g. elim (Bool-cases (g == fd)) [
                  | inl e ↦ subst (λ x. x < 2 ^ 64) (sym (ap r.events (==→eq g fd e) ∙ at)) low
                  | inr e ↦ subst (λ x. x < 2 ^ 64) (sym (others g e)) (whole.words g)
                ])
                whole;
          linked = λ q. (ap (λ x. x == 0) at ∙ live, of ∙ sym at, stored);
          source = new_event live at others pooled;
          listed =
              ap (λ x. if x == 0 then [] else watch_list fields.condition (r.event x)) at
              ∙ rw (live, dead) only;
        }

  -- What a call of IOPoller_SetWatch does depends on the vector, the event, and the block of the pool.
  set_watch-fit :
      (a : ℕ) (pool : MemoryPool)
      → Fitted realloc p fd ok v
      → allocate_block p.event_memory_pool allocated ≡ some (a, pool)
      → a < 2 ^ 64
      → ((a == 0) ≡ false → ((g : ℕ) → (p.events g == a) ≡ false) × (has a p.dirty_events ≡ false))
      → Watched get realloc k p allocated a pool watch fd fields
          (ok && (not (p.events fd == 0) || not (a == 0)))
  unfolding set_watch get_event
  set_watch-fit a pool f gives low fresh = elim (Bool-cases ok) [
    | inr e ↦ rw e (record {
      after = fit;
      run = rw (f.run, e) refl;
      kept = moved-IsPoller get k p v p.event_memory_pool i;
      fitting = f.whole;
      source = unchanged refl refl;
      linked = λ q. absurd (ground (arith, q));
      listed = refl;
    })
    | inl e ↦
        let runs = f.run ∙ ap (λ b. some (b, fit)) e in
        elim (Bool-cases (p.events fd == 0)) [
          | inr live ↦ rw (e, live) (linked-Watched runs f.whole (f.inside e) a pool live)
          | inl dead ↦ elim (Bool-cases (a == 0)) [
            | inl z ↦
                rw (e, dead, z)
                  (record {
                    after = record fit { event_memory_pool = pool };
                    run = rw (runs, dead, gives) (rw z refl);
                    kept = moved-IsPoller get k p v pool i;
                    fitting = moved-IsFitting fit _ refl (λ g far. refl) f.whole.words f.whole;
                    source = no_block z refl refl;
                    linked = λ q. absurd (ground (arith, q));
                    listed = refl;
                  })
            | inr live ↦
                rw (e, dead, live)
                  (begun-Watched runs f.whole (f.inside e) a pool dead live low (fresh live).0
                    (fresh live).1 gives)
          ]
        ]
  ]

-- For a descriptor below INT_MAX, whether or not it is within the vector and has an event: IOPoller_SetWatch
-- returns true exactly if the vector is long enough or grows, and the descriptor has an event or the
-- pool gives a block of 64 bits for it, which is no event and not dirty. Then the watch is behind the other ones for the
-- descriptor and condition; else these are as before. The invariants of the poller and of its vector are kept in
-- each case.
pub set_watch-Watched :
    {E : Type 0} (get : E → ℕ → Option (Flags × ℕ)) (realloc : Realloc) (k : E) (p : IoPoller)
    (fd : ℕ) (allocated : Option ℕ) (watch : ℕ) (fields : IoWatch) (a : ℕ) (pool : MemoryPool)
    → IsKeeping realloc
    → IsPoller get k p p.dirty_events
    → IsFitting p
    → fd + 1 < 2 ^ 31
    → allocate_block p.event_memory_pool allocated ≡ some (a, pool)
    → a < 2 ^ 64
    → ((a == 0) ≡ false → ((g : ℕ) → (p.events g == a) ≡ false) × (has a p.dirty_events ≡ false))
    → (grown : Bool) × (v : Vector) × (fit_fd realloc p fd
        ≡ some (grown, record p { event_vector = v }))
      × Watched get realloc k p allocated a pool watch fd fields
          (grown && (not (p.events fd == 0) || not (a == 0)))
set_watch-Watched get realloc k p fd allocated watch fields a pool keeps i w small gives low fresh =
    let (ok, v, f) = fit_fd-Fitted realloc keeps p w fd small in
    (
      ok,
      v,
      f.run,
      set_watch-fit get realloc k p i fd allocated watch fields ok v a pool f gives low fresh,
    )
