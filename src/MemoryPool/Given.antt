-- ===== src/MemoryPool/Given.antt =====
-- Which blocks MemoryPool_AllocateBlock gives and MemoryPool_FreeBlock takes back.
use pixy.Base.{
  ℕ, ◌%◌, ◌<◌, ◌≡◌, ◌⊎◌, refl, ap, sym, subst, ◌∙◌, arith, inl, inr, true, false, List, [], ◌∷◌,
  ◌++◌, ◌==◌, Bool-cases, Option, none, some, ==→eq, Option-cases,
}
use pixy.Base.Lists.{
  count, count-append, length, List-cases, get_back, get_back-none, get_back-some,
}
use pixy.MemoryPool.{
  MemoryPool, memory_chunk_size, locate_memory_chunk, increase_chunks, take_slot, allocate_block,
  free_block,
}
use pixy.MemoryPool.Blocks.{
  IsPool, taken, take_slot-Taken, grown-IsPool, allocates, allocate_block-run,
}
use pixy.MemoryPool.Free.{given, free_block-Freed}
use pixy.MemoryPool.Slots.{IsChain}
use pixy.MemoryPool.Chains.{
  HasSlots, IsSlot, holds, change, with_chunks, taken-HasSlots, given-HasSlots,
}
use pixy.MemoryPool.Fresh.{IsSized, increase_chunks-HasSlots}

-- The block `slot` of the chunk `c` has been free, if the chunk was in the pool, and is free no longer; each
-- other block of the chunks that were in the pool is free in `r` exactly if it was, and these chunks still are there, with no other one but `c`.
pub record Handed (p : MemoryPool) (free : ℕ → List ℕ) (c slot : ℕ) (r : MemoryPool) : Type 0 where
  pub left : ℕ → List ℕ
  pub kept : HasSlots r left
  pub present : 0 < holds r c
  pub at : IsSlot p.block_size c slot
  pub used : count slot (left c) ≡ 0
  pub was_free : 0 < holds p c → count slot (free c) ≡ 1
  pub still : (d : ℕ) → 0 < holds p d → 0 < holds r d
  pub chunks : (d : ℕ) → 0 < holds r d → (d == c) ≡ false → 0 < holds p d
  pub same_block : r.block_size ≡ p.block_size
  pub same_slots : r.number_of_slots_per_chunk ≡ p.number_of_slots_per_chunk
  pub others :
      (b : ℕ)
      → 0 < holds p (locate_memory_chunk b)
      → (b == slot) ≡ false
      → count b (left (locate_memory_chunk b)) ≡ count b (free (locate_memory_chunk b))

module _ (p : MemoryPool) (free : ℕ → List ℕ) (w : IsPool p) (s : HasSlots p free) where
  take_slot-Handed :
      (others : List ℕ) (c : ℕ)
      → p.usable_chunks ≡ others ++ c ∷ []
      → (slot : ℕ) × (r : MemoryPool) × (take_slot p ≡ some (slot, r))
        × IsPool r
        × Handed p free c slot r
  take_slot-Handed others c e =
      let t = take_slot-Taken p others c w e in
      let listed : 0 < count c p.usable_chunks =
        ground (arith, ap (count c) e, count-append c others (c ∷ [])) in
      let inside : 0 < holds p c = omega (arith, listed) in
      elim (List-cases (free c)) [
        | inl n ↦ absurd (ground (arith, ap length n, s.counted c inside, w.usable c listed))
        | inr (x, xs, n) ↦
            let first : p.free_slot c ≡ x =
              (subst (IsChain p.word (p.free_slot c)) n (s.chain c inside)).0 in
            let once = λ (b : ℕ). ap (count b) n in
            let m : (x == p.free_slot c) ≡ true = ground (arith, first) in
            let single = s.once c inside (p.free_slot c) in
            let member : 0 < count (p.free_slot c) (free c) =
              ground (arith, once (p.free_slot c), m) in
            let same_c : (c == c) ≡ true = ground arith in
            (
              p.free_slot c,
              with_chunks (taken p c) t.usable t.unusable,
              t.run,
              t.whole,
              record {
                left = change free c xs;
                kept = taken-HasSlots p free s c t.usable t.unusable inside t.same x xs n;
                present = omega (arith, t.same c, inside);
                at = s.slot c inside (p.free_slot c) member;
                used = rw same_c (ground (arith, once (p.free_slot c), m, single));
                was_free = λ q. ground (arith, member, single);
                still = λ d q. omega (arith, t.same d, q);
                chunks = λ d q other. omega (arith, t.same d, q);
                same_block = refl;
                same_slots = refl;
                others = λ b q away. elim (Bool-cases (locate_memory_chunk b == c)) [
                  | inl f ↦
                      let other : (x == b) ≡ false = ground (arith, away, first) in
                      rw f (
                        ground (arith, once b, other)
                        ∙ sym (ap (λ d. count b (free d)) (==→eq (locate_memory_chunk b) c f)))
                  | inr f ↦ rw f refl
                ];
              },
            )
      ]

-- from a chunk that is new to the pool
grown-Handed :
    (p : MemoryPool) (free : ℕ → List ℕ) (c slot : ℕ) (slots : List ℕ) (r : MemoryPool)
    → holds p c ≡ 0
    → Handed (increase_chunks p (some c)).1 (change free c slots) c slot r
    → Handed p free c slot r
unfolding increase_chunks
grown-Handed p free c slot slots r new h = record {
  left = h.left;
  kept = h.kept;
  present = h.present;
  at = h.at;
  used = h.used;
  was_free = λ q. absurd (omega (arith, new, q));
  still = λ d q. h.still d (omega (arith, q));
  chunks = λ d q other. ground (arith, h.chunks d q other, other);
  same_block = h.same_block;
  same_slots = h.same_slots;
  others = λ b q away. elim (Bool-cases (locate_memory_chunk b == c)) [
    | inl f ↦
        let same = ap (holds p) (==→eq (locate_memory_chunk b) c f) in
        absurd (omega (arith, same, q, new))
    | inr f ↦ h.others b (omega (arith, q)) away ∙ (rw f refl)
  ];
}

-- MemoryPool_AllocateBlock, where a chunk that it allocates is new and at a multiple of its size: it gives a slot
-- of a chunk of the pool that was free, or is one of the new chunk, and from then on is not; all other blocks
-- are free or in use as before. So it gives no block that is in use. It returns the null pointer only
-- where it gets no chunk, and then changes nothing. The invariants of the pool and of its chains are kept.
pub allocate_block-Handed :
    (p : MemoryPool) (free : ℕ → List ℕ) (allocated : Option ℕ)
    → IsPool p
    → HasSlots p free
    → IsSized p
    → ((c : ℕ) → allocated ≡ some c → (holds p c ≡ 0) × (c % memory_chunk_size ≡ 0))
    → (slot : ℕ) × (r : MemoryPool) × (allocate_block p allocated ≡ some (slot, r))
      × IsPool r
      × (((slot ≡ 0) × (r ≡ p) × (allocated ≡ none))
          ⊎ ((c : ℕ) × (holds p c ≡ 0 → allocated ≡ some c) × Handed p free c slot r))
unfolding increase_chunks
allocate_block-Handed p free allocated w s z new = elim (List-cases p.usable_chunks) [
  | inr (x, xs, e) ↦ elim (Option-cases (get_back p.usable_chunks)) [
    | inl n ↦ absurd (ground (arith, e, get_back-none p.usable_chunks n))
    | inr ((others, c), b) ↦
        let (slot, r, run, whole, handed) =
          take_slot-Handed p free w s others c (get_back-some p.usable_chunks others c b) in
        let back = get_back-some p.usable_chunks others c b in
        (
          slot,
          r,
          allocate_block-run p allocated (x ∷ xs) e ∙ run,
          whole,
          inr (
            c,
            (λ q. absurd (ground (arith, q, ap (count c) back, count-append c others (c ∷ [])))),
            handed,
          ),
        )
  ]
  | inl e ↦ elim (Option-cases allocated) [
    | inl n ↦ (
      0,
      p,
      allocate_block-run p allocated [] e ∙ ap (λ a. allocates p a []) n,
      w,
      inl (refl, refl, n),
    )
    | inr (c, n) ↦
        let (slots, chains) = increase_chunks-HasSlots p free c s z (new c n).0 (new c n).1 in
        let (slot, r, run, whole, handed) =
          take_slot-Handed _ (change free c slots) (grown-IsPool p c w e (new c n).0) chains [] c
            (ap (λ xs. c ∷ xs) e) in
        (
          slot,
          r,
          allocate_block-run p allocated [] e ∙ ap (λ a. allocates p a []) n ∙ run,
          whole,
          inr (c, (λ q. n), grown-Handed p free c slot slots r (new c n).0 handed),
        )
  ]
]

-- MemoryPool_FreeBlock, of a slot in use of a chunk of the pool that has not all its slots free already: the slot is
-- the first free one of its chunk, and all other blocks are free or in use as before. The
-- invariants of the pool and of its chains are kept.
pub free_block-HasSlots :
    (p : MemoryPool) (free : ℕ → List ℕ) (c block : ℕ)
    → IsPool p
    → HasSlots p free
    → 0 < holds p c
    → IsSlot p.block_size c block
    → count block (free c) ≡ 0
    → p.number_of_free_slots c < p.number_of_slots_per_chunk
    → (r : MemoryPool) × (free_block p block ≡ some r)
      × IsPool r
      × HasSlots r (change free c (block ∷ free c))
free_block-HasSlots p free c block w s inside at used more =
    let single : holds p c ≡ 1 = omega (arith, w.once c, inside) in
    let back = sym at.located in
    let f =
      free_block-Freed p block w (omega (arith, at.behind)) (subst (λ d. holds p d ≡ 1) back single)
        (subst (λ d. p.number_of_free_slots d < p.number_of_slots_per_chunk) back more) in
    let kept = given-HasSlots p free s c f.usable f.unusable inside f.same block at used in
    (
      _,
      f.run,
      f.whole,
      subst
          (λ d.
            HasSlots (with_chunks (given p block d) f.usable f.unusable)
              (change free c (block ∷ free c)))
          back kept,
    )
