-- ===== src/IoPoller/Stored.antt =====
-- IOPoller_SetWatch of Source/IOPoller.c with the memory pool of the events.
use native.Mathlib.Nat.{suc-mul}
use pixy.Vector.{Vector}
use pixy.Base.{
  ◌+◌, ℕ, ◌%◌, ◌^◌, ◌<◌, ◌≤◌, ◌/◌, ◌≡◌, ap, sym, subst, ◌∙◌, arith, inl, inr, Bool, false, not,
  ◌&&◌, ◌||◌, List, ◌==◌, Bool-cases, Option, some, ==→eq,
}
use pixy.Base.Lists.{has, count}
use pixy.Vector.{Realloc}
use pixy.Vector.Bytes.{IsKeeping}
use pixy.MemoryPool.{
  MemoryPool, memory_chunk_size, memory_chunk_payload_size, locate_memory_chunk, allocate_block,
}
use pixy.MemoryPool.Blocks.{IsPool}
use pixy.MemoryPool.Chains.{HasSlots, holds}
use pixy.MemoryPool.Fresh.{IsSized}
use pixy.MemoryPool.Given.{Handed, allocate_block-Handed}
use pixy.IoPoller.{IoPoller, IoWatch, Flags, fit_fd}
use pixy.IoPoller.Kept.{IsPoller}
use pixy.IoPoller.Fit.{IsFitting}
use pixy.IoPoller.Set.{Watched, unchanged, no_block, new_event, set_watch-Watched}

-- a block of the pool in use
abbrev pub InUse : MemoryPool → (free : ℕ → List ℕ) → (block : ℕ) → Type 0
InUse pool free block =
    (0 < holds pool (locate_memory_chunk block))
    × (count block (free (locate_memory_chunk block)) ≡ 0)

-- The events of the vector are blocks of the pool in use; `free` are its free slots.
pub record IsStored (events : ℕ → ℕ) (pool : MemoryPool) (free : ℕ → List ℕ) : Type 0 where
  pub whole : IsPool pool
  pub chains : HasSlots pool free
  pub sized : IsSized pool
  pub low : (c : ℕ) → 0 < holds pool c → c + memory_chunk_size ≤ 2 ^ 64
  pub in_use : (fd : ℕ) → (events fd == 0) ≡ false → InUse pool free (events fd)

module _ (events : ℕ → ℕ) (pool r : MemoryPool) (free : ℕ → List ℕ) (w : IsStored events pool free)
    (c slot : ℕ) (h : Handed pool free c slot r) where
  -- the block that the pool gives is no event
  fresh : (slot == 0) ≡ false → (g : ℕ) → (events g == slot) ≡ false
  fresh live g = elim (Bool-cases (events g == slot)) [
    | inr e ↦ e
    | inl e ↦
        let same = ==→eq (events g) slot e in
        let (held, used) = w.in_use g (rw same live) in
        let at_c = ap locate_memory_chunk same ∙ h.at.located in
        let in_c : 0 < holds pool c = subst (λ d. 0 < holds pool d) at_c held in
        let once = h.was_free in_c in
        let zero_times : count slot (free c) ≡ 0 =
          sym (ap (λ b. count b (free c)) same)
          ∙ sym (ap (λ d. count (events g) (free d)) at_c)
          ∙ used in
        absurd (omega (arith, once, zero_times))
  ]

  -- an event stays in use
  stays : (slot == 0) ≡ false → (g : ℕ) → (events g == 0) ≡ false → InUse r h.left (events g)
  stays live g q =
      let (held, used) = w.in_use g q in
      (
        h.still (locate_memory_chunk (events g)) held,
        h.others (events g) held (fresh live g) ∙ used,
      )

  slot-InUse : InUse r h.left slot
  slot-InUse = rw h.at.located (h.present, h.used)

  -- the pool behind the block, with the events as they were
  after-IsSized : IsSized r
  after-IsSized = record {
    wide = subst (λ n. 1 ≤ n) (sym h.same_block) w.sized.wide;
    narrow = subst (λ n. n ≤ memory_chunk_payload_size) (sym h.same_block) w.sized.narrow;
    slots =
        h.same_slots ∙ w.sized.slots ∙ ap (λ n. memory_chunk_payload_size / n) (sym h.same_block);
  }

  -- behind the call of IOPoller_SetWatch that made `slot` the event of `fd`
  begun-IsStored :
      (after : ℕ → ℕ) (fd : ℕ)
      → IsPool r
      → (slot == 0) ≡ false
      → after fd ≡ slot
      → ((g : ℕ) → (g == fd) ≡ false → after g ≡ events g)
      → c + memory_chunk_size ≤ 2 ^ 64
      → IsStored after r h.left
  begun-IsStored after fd whole live at others fits = record {
    low = λ d q. elim (Bool-cases (d == c)) [
      | inl e ↦ subst (λ k. k + memory_chunk_size ≤ 2 ^ 64) (sym (==→eq d c e)) fits
      | inr e ↦ w.low d (h.chunks d q e)
    ];
    whole = whole;
    chains = h.kept;
    sized = after-IsSized;
    in_use = λ g q. elim (Bool-cases (g == fd)) [
      | inl e ↦ subst (InUse r h.left) (sym (ap after (==→eq g fd e) ∙ at)) slot-InUse
      | inr e ↦
          subst (InUse r h.left) (sym (others g e))
            (stays live g (ap (λ x. x == 0) (sym (others g e)) ∙ q))
    ];
  }

pub moved-IsStored :
    (events after : ℕ → ℕ) (pool r : MemoryPool) (free : ℕ → List ℕ)
    → after ≡ events
    → r ≡ pool
    → IsStored events pool free
    → IsStored after r free
moved-IsStored events after pool r free same pooled w =
    subst (λ f. IsStored f r free) (sym same) (subst (λ q. IsStored events q free) (sym pooled) w)

-- For a descriptor below INT_MAX, where the events are blocks of the pool in use, and a chunk that the pool
-- allocates is new, at a multiple of its size, and within 64 bits: IOPoller_SetWatch returns true exactly if the vector is long enough
-- or grows, and the descriptor has an event or the pool gives a block `a`. Then the watch is behind the other ones
-- for the descriptor and condition; else these are as before. No block that is an event is given again: behind
-- the call the events are blocks in use, and the invariants of the poller, of its vector and of its pool are kept.
pub set_watch-Stored :
    {E : Type 0} (get : E → ℕ → Option (Flags × ℕ)) (realloc : Realloc) (k : E) (p : IoPoller)
    (fd : ℕ) (allocated : Option ℕ) (watch : ℕ) (fields : IoWatch) (free : ℕ → List ℕ)
    → IsKeeping realloc
    → IsPoller get k p p.dirty_events
    → IsFitting p
    → fd + 1 < 2 ^ 31
    → IsStored p.events p.event_memory_pool free
    → ((c : ℕ)
        → allocated ≡ some c
        → (holds p.event_memory_pool c ≡ 0)
          × (c % memory_chunk_size ≡ 0)
          × (c + memory_chunk_size ≤ 2 ^ 64))
    → (a : ℕ) × (pool : MemoryPool) × (allocate_block p.event_memory_pool allocated
        ≡ some (a, pool))
      × (grown : Bool) × (v : Vector) × (fit_fd realloc p fd
          ≡ some (grown, record p { event_vector = v }))
      × (t : Watched get realloc k p allocated a pool watch fd fields
          (grown && (not (p.events fd == 0) || not (a == 0))))
      × (left : ℕ → List ℕ) × IsStored t.after.events t.after.event_memory_pool left
set_watch-Stored get realloc k p fd allocated watch fields free keeps i f small w new =
    let (a, pool, gives, whole, handed) =
      allocate_block-Handed p.event_memory_pool free allocated w.whole w.chains w.sized
        (λ c e. ((new c e).0, (new c e).1)) in
    elim handed [
      | inl (z, same, n) ↦
          let (grown, v, fits, t) =
            set_watch-Watched get realloc k p fd allocated watch fields a pool keeps i f small gives
              (omega (arith, z)) (λ live. absurd (ground (arith, live, z))) in
          (
            a,
            pool,
            gives,
            grown,
            v,
            fits,
            t,
            free,
            elim t.source [
              | unchanged e q ↦ moved-IsStored p.events _ p.event_memory_pool _ free e q w
              | no_block y e q ↦ moved-IsStored p.events _ p.event_memory_pool _ free e (q ∙ same) w
              | new_event live e others q ↦ absurd (ground (arith, live, z))
            ],
          )
      | inr (c, from, h) ↦
          let room : c + memory_chunk_size ≤ 2 ^ 64 =
            elim (Bool-cases (holds p.event_memory_pool c == 0)) [
              | inl e ↦ (new c (from (==→eq (holds p.event_memory_pool c) 0 e))).2
              | inr e ↦ w.low c (ground (arith, e))
            ] in
          let end = h.at.apart in
          let low : a < 2 ^ 64 =
            omega (
              arith,
              room,
              end,
              suc-mul h.at.blocks p.event_memory_pool.block_size,
              w.sized.wide,
            ) in
          let live : (a == 0) ≡ false = ground (arith, h.at.behind) in
          let new_block = fresh p.events p.event_memory_pool pool free w c a h live in
          let away : has a p.dirty_events ≡ false = elim (Bool-cases (has a p.dirty_events)) [
            | inr e ↦ e
            | inl e ↦ absurd (ground (arith, new_block ((p.event a).fd), (i.listed a e).1))
          ] in
          let (grown, v, fits, t) =
            set_watch-Watched get realloc k p fd allocated watch fields a pool keeps i f small gives
              low (λ q. (new_block, away)) in
          let (left, stored) = placed t live whole h room in
          (a, pool, gives, grown, v, fits, t, left, stored)
    ]
  where
    placed :
        {a : ℕ} {pool : MemoryPool} {ok : Bool} {c : ℕ}
        (t : Watched get realloc k p allocated a pool watch fd fields ok)
        → (a == 0) ≡ false
        → IsPool pool
        → Handed p.event_memory_pool free c a pool
        → c + memory_chunk_size ≤ 2 ^ 64
        → (left : ℕ → List ℕ) × IsStored t.after.events t.after.event_memory_pool left
    placed {a} {pool} {ok} {c} t live whole h room = elim t.source [
      | unchanged e q ↦ (free, moved-IsStored p.events _ p.event_memory_pool _ free e q w)
      | no_block y e q ↦ absurd (ground (arith, live, y))
      | new_event y e others q ↦ (
        h.left,
        subst (λ r. IsStored t.after.events r h.left) (sym q)
            (begun-IsStored p.events p.event_memory_pool pool free w c a h t.after.events fd whole
              live e others room),
      )
    ]
