-- ===== src/MemoryPool/Fresh.antt =====
-- MemoryPool_IncreaseChunks of Source/MemoryPool.c: all slots of a new chunk are free.
use native.Mathlib.Nat.{suc-mul}
use pixy.Base.{
  ℕ, ◌+◌, ◌-◌, ◌/◌, ◌%◌, ◌<◌, ◌≤◌, ◌≡◌, ap, sym, subst, ◌∙◌, arith, inl, inr, false, List, ◌∷◌,
  ◌==◌, Bool-cases, some, ==→eq,
}
use pixy.Base.Lists.{count}
use pixy.MemoryPool.{
  MemoryPool, set_at, header_size, memory_chunk_size, memory_chunk_payload_size,
  locate_memory_chunk, link_slots, increase_chunks,
}
use pixy.MemoryPool.Slots.{
  same-IsChain, slots_from, slots_from-bounds, slots_from-apart, slots_from-once, slots_from-length,
  link_slots-other, link_slots-IsChain,
}
use pixy.MemoryPool.Chains.{HasSlots, IsSlot, holds, change}

-- The blocks fill a chunk.
pub record IsSized (p : MemoryPool) : Type 0 where
  pub wide : 1 ≤ p.block_size
  pub narrow : p.block_size ≤ memory_chunk_payload_size
  pub slots : p.number_of_slots_per_chunk ≡ memory_chunk_payload_size / p.block_size

pub located_in :
    (c x : ℕ)
    → c % memory_chunk_size ≡ 0
    → c ≤ x
    → x < c + memory_chunk_size
    → locate_memory_chunk x ≡ c
unfolding locate_memory_chunk
located_in c x aligned from to = omega arith

module _ (p : MemoryPool) (free : ℕ → List ℕ) (s : HasSlots p free) (z : IsSized p) (c : ℕ)
    (new : holds p c ≡ 0) (aligned : c % memory_chunk_size ≡ 0) (fuel : ℕ)
    (enough : memory_chunk_payload_size ≤ fuel) where
  abbrev last : ℕ
  last = c + memory_chunk_size - p.block_size

  abbrev fresh : List ℕ
  fresh = slots_from fuel p.block_size (c + header_size) last

  above : c + header_size ≤ last
  above = omega (arith, z.narrow)

  fresh-IsSlot : (x : ℕ) → 0 < count x fresh → IsSlot p.block_size c x
  fresh-IsSlot x q =
      let (from, to) =
        slots_from-bounds p.block_size (c + header_size) z.wide fuel last above x q in
      let (k, at) = slots_from-apart p.block_size (c + header_size) z.wide fuel last above x q in
      record {
        located =
            located_in c x aligned (omega (arith, from)) (omega (arith, to, z.wide, z.narrow));
        behind = from;
        blocks = k;
        apart = omega (arith, at, suc-mul k p.block_size, z.narrow);
      }

  -- a slot of another chunk is not written
  unwritten :
      (d y : ℕ) → (d == c) ≡ false → 0 < holds p d → 0 < count y (free d) → count y fresh ≡ 0
  unwritten d y f q r = elim (Bool-cases (count y fresh == 0)) [
    | inl e ↦ ==→eq (count y fresh) 0 e
    | inr e ↦
        let same : d ≡ c =
          sym (s.slot d q y r).located ∙ (fresh-IsSlot y (ground (arith, e))).located in
        absurd (ground (arith, f, same))
  ]

  -- MemoryPool_IncreaseChunks, with this fuel
  abbrev grown : MemoryPool
  grown = record p {
    word = link_slots fuel p.block_size (c + header_size) last p.word;
    free_slot = set_at p.free_slot c last;
    number_of_free_slots = set_at p.number_of_free_slots c p.number_of_slots_per_chunk;
    usable_chunks = c ∷ p.usable_chunks;
  }

  grown-HasSlots : HasSlots grown (change free c fresh)
  grown-HasSlots =
      let here : (d : ℕ)
          → (d == c) ≡ false
          → 0 < count d (c ∷ p.usable_chunks) + count d p.unusable_chunks
          → 0 < holds p d =
        λ d f q. ground (arith, f, q) in
      let sized : last - (c + header_size) + p.block_size ≡ memory_chunk_payload_size =
        omega (arith, z.narrow) in
      record {
        chain = λ d q. elim (Bool-cases (d == c)) [
          | inl f ↦
              rw f (link_slots-IsChain p.block_size (c + header_size) z.wide fuel last p.word above)
          | inr f ↦ rw f (
              same-IsChain p.word _ (p.free_slot d) (free d)
                (λ y r. sym (
                  link_slots-other p.block_size (c + header_size) z.wide fuel last p.word y
                    (unwritten d y f (here d f q) r)))
                (s.chain d (here d f q)))
        ];
        counted = λ d q. elim (Bool-cases (d == c)) [
          | inl f ↦ rw f (
              slots_from-length p.block_size (c + header_size) z.wide fuel last above
                (omega (arith, enough))
              ∙ ap (λ n. n / p.block_size) sized
              ∙ sym z.slots)
          | inr f ↦ rw f (s.counted d (here d f q))
        ];
        slot = λ d q y r. elim (Bool-cases (d == c)) [
          | inl f ↦
              subst (λ k. IsSlot p.block_size k y) (sym (==→eq d c f)) (fresh-IsSlot y (rw f at r))
          | inr f ↦ s.slot d (here d f q) y (rw f at r)
        ];
        once = λ d q y. elim (Bool-cases (d == c)) [
          | inl f ↦ rw f (slots_from-once p.block_size (c + header_size) z.wide fuel last above y)
          | inr f ↦ rw f (s.once d (here d f q) y)
        ];
      }

-- A new chunk, at a multiple of its size, has its slots in a chain, and the other chunks keep theirs.
pub increase_chunks-HasSlots :
    (p : MemoryPool) (free : ℕ → List ℕ) (c : ℕ)
    → HasSlots p free
    → IsSized p
    → holds p c ≡ 0
    → c % memory_chunk_size ≡ 0
    → (slots : List ℕ) × HasSlots (increase_chunks p (some c)).1 (change free c slots)
unfolding increase_chunks
increase_chunks-HasSlots p free c s z new aligned =
    (_, grown-HasSlots p free s z c new aligned memory_chunk_size (omega arith))
