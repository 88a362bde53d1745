-- ===== src/MemoryPool/Chains.antt =====
-- Which blocks of a memory pool are free: the slots that the chains of its chunks reach.
use pixy.Base.{
  ℕ, suc, ◌+◌, ◌*◌, ◌<◌, ◌≤◌, ◌≡◌, refl, ap, sym, subst, ◌∙◌, arith, inl, inr, false, List, ◌∷◌,
  ◌==◌, if◌then◌else◌, Bool-cases, ==→eq,
}
use pixy.Base.Lists.{count, length}
use pixy.MemoryPool.{MemoryPool, set_at, header_size, memory_chunk_size, locate_memory_chunk}
use pixy.MemoryPool.Blocks.{taken}
use pixy.MemoryPool.Free.{given}
use pixy.MemoryPool.Slots.{IsChain, same-IsChain}

-- in how many places of the lists of the pool a chunk is
abbrev pub holds : MemoryPool → (chunk : ℕ) → ℕ
holds p c = count c p.usable_chunks + count c p.unusable_chunks

-- A slot of a chunk: it is in the chunk behind its header, whole blocks before its end.
pub record IsSlot (block_size c x : ℕ) : Type 0 where
  pub located : locate_memory_chunk x ≡ c
  pub behind : c + header_size ≤ x
  pub blocks : ℕ
  pub apart : x + suc blocks * block_size ≡ c + memory_chunk_size

-- The chain of each chunk of the pool reaches the slots `free`, as many as the chunk counts, each once.
pub record HasSlots (p : MemoryPool) (free : ℕ → List ℕ) : Type 0 where
  pub chain : (c : ℕ) → 0 < holds p c → IsChain p.word (p.free_slot c) (free c)
  pub counted : (c : ℕ) → 0 < holds p c → length (free c) ≡ p.number_of_free_slots c
  pub slot : (c : ℕ) → 0 < holds p c → (x : ℕ) → 0 < count x (free c) → IsSlot p.block_size c x
  pub once : (c : ℕ) → 0 < holds p c → (x : ℕ) → count x (free c) ≤ 1

abbrev pub with_chunks : MemoryPool → (usable unusable : List ℕ) → MemoryPool
with_chunks p usable unusable = record p { usable_chunks = usable; unusable_chunks = unusable }

-- the free slots with those of one chunk changed
abbrev pub change : (ℕ → List ℕ) → (c : ℕ) → List ℕ → ℕ → List ℕ
change free c xs d = if d == c then xs else free d

module _ (p : MemoryPool) (free : ℕ → List ℕ) (s : HasSlots p free) (c : ℕ)
    (usable unusable : List ℕ) (inside : 0 < holds p c)
    (same : (d : ℕ) → count d usable + count d unusable ≡ holds p d) where
  pub taken-HasSlots :
      (x : ℕ) (xs : List ℕ)
      → free c ≡ x ∷ xs
      → HasSlots (with_chunks (taken p c) usable unusable) (change free c xs)
  taken-HasSlots x xs e =
      let here : (d : ℕ) → 0 < count d usable + count d unusable → 0 < holds p d =
        λ d q. omega (arith, same d, q) in
      let (first, rest) = subst (IsChain p.word (p.free_slot c)) e (s.chain c inside) in
      record {
        chain = λ d q. elim (Bool-cases (d == c)) [
          | inl f ↦ rw f (rw first rest)
          | inr f ↦ rw f (s.chain d (here d q))
        ];
        counted = λ d q. elim (Bool-cases (d == c)) [
          | inl f ↦ rw f (omega (arith, ap length e, s.counted c inside))
          | inr f ↦ rw f (s.counted d (here d q))
        ];
        slot = λ d q y r. elim (Bool-cases (d == c)) [
          | inl f ↦
              let free_y : 0 < count y (free c) = ground (arith, ap (count y) e, f, r) in
              s.slot d (here d q) y (subst (λ k. 0 < count y (free k)) (sym (==→eq d c f)) free_y)
          | inr f ↦ s.slot d (here d q) y (rw f at r)
        ];
        once = λ d q y. elim (Bool-cases (d == c)) [
          | inl f ↦ rw f (ground (arith, ap (count y) e, s.once c inside y))
          | inr f ↦ rw f (s.once d (here d q) y)
        ];
      }

  module _ (x : ℕ) (at : IsSlot p.block_size c x) (used : count x (free c) ≡ 0) where
    -- a free slot is not `x`
    unwritten : (d y : ℕ) → 0 < holds p d → 0 < count y (free d) → (y == x) ≡ false
    unwritten d y q r = elim (Bool-cases (y == x)) [
      | inr g ↦ g
      | inl g ↦
          let same_chunk : d ≡ c =
            sym (s.slot d q y r).located ∙ ap locate_memory_chunk (==→eq y x g) ∙ at.located in
          let twice : 0 < count x (free c) =
            subst (λ k. 0 < count x (free k)) same_chunk
              (subst (λ z. 0 < count z (free d)) (==→eq y x g) r) in
          absurd (omega (arith, twice, used))
    ]

    pub given-HasSlots :
        HasSlots (with_chunks (given p x c) usable unusable) (change free c (x ∷ free c))
    given-HasSlots =
        let here : (d : ℕ) → 0 < count d usable + count d unusable → 0 < holds p d =
          λ d q. omega (arith, same d, q) in
        record {
          chain = λ d q. elim (Bool-cases (d == c)) [
            | inl f ↦
                let now : set_at p.word x (p.free_slot c) x ≡ p.free_slot c = ground arith in
                rw f (
                  refl,
                  rw now (
                      same-IsChain p.word _ (p.free_slot c) (free c)
                        (λ y r. rw (unwritten c y inside r) refl) (s.chain c inside)),
                )
            | inr f ↦ rw f (
                same-IsChain p.word _ (p.free_slot d) (free d)
                  (λ y r. rw (unwritten d y (here d q) r) refl) (s.chain d (here d q)))
          ];
          counted = λ d q. elim (Bool-cases (d == c)) [
            | inl f ↦ rw f (omega (arith, s.counted c inside))
            | inr f ↦ rw f (s.counted d (here d q))
          ];
          slot = λ d q y r. elim (Bool-cases (d == c)) [
            | inl f ↦
                subst (λ k. IsSlot p.block_size k y) (sym (==→eq d c f))
                  (elim (Bool-cases (x == y)) [
                    | inl g ↦ subst (IsSlot p.block_size c) (==→eq x y g) at
                    | inr g ↦ s.slot c inside y (ground (arith, f, g, r))
                  ])
            | inr f ↦ s.slot d (here d q) y (rw f at r)
          ];
          once = λ d q y. elim (Bool-cases (d == c)) [
            | inl f ↦ rw f (ground (arith, s.once c inside y, used))
            | inr f ↦ rw f (s.once d (here d q) y)
          ];
        }
