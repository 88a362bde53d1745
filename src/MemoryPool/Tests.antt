-- ===== src/MemoryPool/Tests.antt =====
-- A pool with the chunk at 65536, of two slots, of which the one at 131008 is in use.
use pixy.Base.{
  ℕ, ◌<◌, ◌≡◌, refl, arith, ◌⊎◌, Option, List, subst, true, false, none, some, [], ◌∷◌, ◌++◌,
}
use pixy.Base.Lists.{count}
use pixy.MemoryPool.{MemoryPool, shrink_to_fit, allocate_block, free_block, locate_memory_chunk}
use pixy.MemoryPool.Blocks.{is_full, IsPool, shrink_to_fit-IsPool}
use pixy.MemoryPool.Chains.{holds, HasSlots, IsSlot, change}
use pixy.MemoryPool.Given.{Handed, allocate_block-Handed, free_block-HasSlots}

abbrev with_free : (free : ℕ) → MemoryPool
with_free free = record {
  block_size = 32752;
  number_of_slots_per_chunk = 2;
  usable_chunks = 65536 ∷ [];
  unusable_chunks = [];
  free_slot = λ c. 98304;
  number_of_free_slots = λ c. free;
  word = λ a. 0;
}

half_free-IsPool : IsPool (with_free 1)
half_free-IsPool = record {
  slots = omega arith;
  usable = λ c q. (omega arith, omega arith);
  unusable = λ c q. absurd (omega arith);
  once = λ c. ground arith;
  fronted = (λ y p e. absurd (omega arith), tt);
}

all_free-IsPool : IsPool (with_free 2)
all_free-IsPool = record {
  slots = omega arith;
  usable = λ c q. (omega arith, omega arith);
  unusable = λ c q. absurd (omega arith);
  once = λ c. ground arith;
  fronted = (λ y p e. absurd (omega arith), tt);
}

shrink_to_fit-IsPool_example :
    IsPool (shrink_to_fit (with_free 2)).1
    × (65536 ∷ []
        ≡ (shrink_to_fit (with_free 2)).0 ++ (shrink_to_fit (with_free 2)).1.usable_chunks)
    × ((c : ℕ) → 0 < count c (shrink_to_fit (with_free 2)).0 → is_full (with_free 2) c ≡ true)
    × ((c : ℕ)
        → 0 < count c (shrink_to_fit (with_free 2)).1.usable_chunks
        → is_full (with_free 2) c ≡ false)
shrink_to_fit-IsPool_example = shrink_to_fit-IsPool (with_free 2) all_free-IsPool

in_chunk : locate_memory_chunk 131008 ≡ 65536
unfolding locate_memory_chunk
in_chunk = refl

-- the slot at 65568 is free, the one at 98320 is in use
abbrev pub half : MemoryPool
half = record (with_free 1) { free_slot = λ c. 65568 }

abbrev pub free_slots : ℕ → List ℕ
free_slots c = 65568 ∷ []

pub half-IsPool : IsPool half
half-IsPool = record {
  slots = omega arith;
  usable = λ c q. (omega arith, omega arith);
  unusable = λ c q. absurd (omega arith);
  once = λ c. ground arith;
  fronted = (λ y p e. absurd (omega arith), tt);
}

free-IsSlot : IsSlot 32752 65536 65568
unfolding locate_memory_chunk
free-IsSlot = record { located = refl; behind = omega arith; blocks = 1; apart = refl }

used-IsSlot : IsSlot 32752 65536 98320
unfolding locate_memory_chunk
used-IsSlot = record { located = refl; behind = omega arith; blocks = 0; apart = refl }

pub half-HasSlots : HasSlots half free_slots
half-HasSlots = record {
  chain = λ c q. (refl, refl);
  counted = λ c q. refl;
  slot = λ c q x r.
      let same_chunk : 65536 ≡ c = ground (arith, q) in
      let same_slot : 65568 ≡ x = ground (arith, r) in
      subst (λ d. IsSlot 32752 d x) same_chunk (subst (IsSlot 32752 65536) same_slot free-IsSlot);
  once = λ c q x. ground arith;
}

allocate_block-Handed_example :
    (slot : ℕ) × (r : MemoryPool) × (allocate_block half none ≡ some (slot, r))
    × IsPool r
    × (((slot ≡ 0) × (r ≡ half) × (◌≡◌ {A = Option ℕ} none none))
        ⊎ ((c : ℕ) × (holds half c ≡ 0 → ◌≡◌ {A = Option ℕ} none (some c))
            × Handed half free_slots c slot r))
allocate_block-Handed_example =
    allocate_block-Handed half free_slots none half-IsPool half-HasSlots
      (record { wide = omega arith; narrow = omega arith; slots = refl })
      (λ c e. absurd (ground (arith, e)))

free_block-HasSlots_example :
    (r : MemoryPool) × (free_block half 98320 ≡ some r)
    × IsPool r
    × HasSlots r (change free_slots 65536 (98320 ∷ 65568 ∷ []))
free_block-HasSlots_example =
    free_block-HasSlots half free_slots 65536 98320 half-IsPool half-HasSlots (omega arith)
      used-IsSlot refl (omega arith)
