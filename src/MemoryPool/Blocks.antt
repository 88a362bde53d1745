-- ===== src/MemoryPool/Blocks.antt =====
-- The invariant of a memory pool, and that MemoryPool_ShrinkToFit and MemoryPool_AllocateBlock keep it.
use pixy.Base.{
  ℕ, ◌+◌, ◌-◌, ◌<◌, ◌≤◌, ◌≡◌, refl, ap, subst, sym, ◌∙◌, arith, inl, inr, Bool, true, false, Option,
  some, List, [], ◌∷◌, ◌++◌, ◌==◌, if◌then◌else◌, Bool-cases, Option-cases,
}
use pixy.Base.Lists.{
  count, count-append, get_back, get_back-some, get_back-append, get_back-none, List-cases,
}
use pixy.MemoryPool.{
  MemoryPool, set_at, split_free, shrink_to_fit, increase_chunks, take_slot, allocate_block,
}
use pixy.MemoryPool.Prefix.{
  IsFronted, same-IsFronted, append-IsFronted, init-IsFronted, split_free-parts,
}

-- whether all slots of a chunk are free
abbrev pub is_full : MemoryPool → ℕ → Bool
is_full p c = p.number_of_free_slots c == p.number_of_slots_per_chunk

-- A usable chunk has a free slot and an unusable one has none; no chunk is twice in the lists; and the
-- usable chunks with all their slots free come first.
pub record IsPool (p : MemoryPool) : Type 0 where
  pub slots : 1 ≤ p.number_of_slots_per_chunk
  pub usable :
      (c : ℕ)
      → 0 < count c p.usable_chunks
      → (1 ≤ p.number_of_free_slots c) × (p.number_of_free_slots c ≤ p.number_of_slots_per_chunk)
  pub unusable : (c : ℕ) → 0 < count c p.unusable_chunks → p.number_of_free_slots c ≡ 0
  pub once : (c : ℕ) → count c p.usable_chunks + count c p.unusable_chunks ≤ 1
  pub fronted : IsFronted (is_full p) p.usable_chunks

-- MemoryPool_ShrinkToFit frees the usable chunks whose slots are all free, and no other chunk.
pub shrink_to_fit-IsPool :
    (p : MemoryPool)
    → IsPool p
    → let (freed, r) = shrink_to_fit p in
      IsPool r
      × (p.usable_chunks ≡ freed ++ r.usable_chunks)
      × ((c : ℕ) → 0 < count c freed → is_full p c ≡ true)
      × ((c : ℕ) → 0 < count c r.usable_chunks → is_full p c ≡ false)
unfolding shrink_to_fit
shrink_to_fit-IsPool p w =
    let (parts, freed, kept, rest) =
      split_free-parts p.number_of_free_slots p.number_of_slots_per_chunk p.usable_chunks
        (λ y q. (w.usable y q).1) w.fronted in
    let s = split_free p.number_of_free_slots p.number_of_slots_per_chunk p.usable_chunks in
    let split = λ (c : ℕ). ap (count c) parts ∙ count-append c s.0 s.1 in
    (
      record {
        slots = w.slots;
        usable = λ c q. w.usable c (omega (arith, split c, q));
        unusable = w.unusable;
        once = λ c. omega (arith, split c, w.once c);
        fronted = rest;
      },
      parts,
      λ c q. ground (arith, freed c q),
      λ c q. ground (arith, kept c q),
    )

-- the pool behind the taking of a slot from `chunk`, if it has slots left, and if it has none
abbrev pub taken : MemoryPool → (chunk : ℕ) → MemoryPool
taken p chunk = record p {
  free_slot = set_at p.free_slot chunk (p.word (p.free_slot chunk));
  number_of_free_slots = set_at p.number_of_free_slots chunk (p.number_of_free_slots chunk - 1);
}

-- what the taking of a slot from `chunk` leaves: the two lists have the same chunks as before
pub record Taken (p : MemoryPool) (chunk : ℕ) : Type 0 where
  pub usable : List ℕ
  pub unusable : List ℕ
  pub run :
      take_slot p
      ≡ some (
        p.free_slot chunk,
        record (taken p chunk) { usable_chunks = usable; unusable_chunks = unusable },
      )
  pub same :
      (d : ℕ)
      → count d usable + count d unusable ≡ count d p.usable_chunks + count d p.unusable_chunks
  pub whole : IsPool (record (taken p chunk) { usable_chunks = usable; unusable_chunks = unusable })

pub take_slot-Taken :
    (p : MemoryPool) (others : List ℕ) (chunk : ℕ)
    → IsPool p
    → p.usable_chunks ≡ others ++ chunk ∷ []
    → Taken p chunk
unfolding take_slot
take_slot-Taken p others chunk w e =
    let free = p.number_of_free_slots chunk in
    let back : get_back p.usable_chunks ≡ some (others, chunk) =
      ap get_back e ∙ get_back-append others chunk in
    let split = λ (c : ℕ). ap (count c) e ∙ count-append c others (chunk ∷ []) in
    let front = subst (IsFronted (is_full p)) e w.fronted in
    let alone : count chunk others ≡ 0 = ground (arith, split chunk, w.once chunk) in
    let bounds = w.usable chunk (ground (arith, split chunk)) in
    elim (Bool-cases ((free - 1) == 0)) [
      | inl f ↦ record {
        usable = others;
        unusable = p.unusable_chunks ++ chunk ∷ [];
        run = rw (back, f) refl;
        same = λ d. ground (arith, split d, count-append d p.unusable_chunks (chunk ∷ []));
        whole = record {
          slots = w.slots;
          usable = λ c q. ground (arith, split c, w.usable c, q, alone);
          unusable = λ c q.
              ground (arith, w.unusable c, q, f, count-append c p.unusable_chunks (chunk ∷ []));
          once =
              λ c. ground (arith, split c, w.once c, count-append c p.unusable_chunks (chunk ∷ []));
          fronted =
              same-IsFronted (is_full p) (is_full (taken p chunk)) others
                (λ y q. ground (arith, alone, q)) (init-IsFronted (is_full p) others chunk front);
        };
      }
      | inr f ↦ record {
        usable = p.usable_chunks;
        unusable = p.unusable_chunks;
        run = rw (back, f) refl;
        same = λ d. refl;
        whole = record {
          slots = w.slots;
          usable = λ c q. ground (arith, w.usable c, q, f);
          unusable = λ c q. ground (arith, w.unusable c q, split c, w.once c, q);
          once = w.once;
          fronted = subst (IsFronted (is_full (taken p chunk))) (sym e) (
              append-IsFronted (is_full (taken p chunk)) others chunk
                (λ g. absurd (ground (arith, g, bounds)))
                (same-IsFronted (is_full p) (is_full (taken p chunk)) others
                  (λ y q. ground (arith, alone, q))
                  (init-IsFronted (is_full p) others chunk front)));
        };
      }
    ]

-- MemoryPool_AllocateBlock, by whether there is a usable chunk
abbrev pub allocates : MemoryPool → (allocated : Option ℕ) → List ℕ → Option (ℕ × MemoryPool)
allocates p allocated usable = elim usable [
  | [] ↦
      let (ok, grown) = increase_chunks p allocated in if ok then take_slot grown else (some (0, p))
  | chunk ∷ chunks ↦ take_slot p
]

pub allocate_block-run :
    (p : MemoryPool) (allocated : Option ℕ) (usable : List ℕ)
    → p.usable_chunks ≡ usable
    → allocate_block p allocated ≡ allocates p allocated usable
unfolding allocate_block
allocate_block-run p allocated usable e = ap (allocates p allocated) e

-- a new chunk, where none is usable
pub grown-IsPool :
    (p : MemoryPool) (c : ℕ)
    → IsPool p
    → p.usable_chunks ≡ []
    → count c p.usable_chunks + count c p.unusable_chunks ≡ 0
    → IsPool (increase_chunks p (some c)).1
unfolding increase_chunks
grown-IsPool p c w e new =
    let grown = (increase_chunks p (some c)).1 in
    record {
      slots = w.slots;
      usable = λ d q. ground (arith, w.slots, e, q);
      unusable = λ d q. ground (arith, w.unusable d, q, new);
      once = λ d. ground (arith, e, w.once d, new);
      fronted =
          (λ d q. absurd (ground (arith, e, q)), subst (IsFronted (is_full grown)) (sym e) tt);
    }

-- MemoryPool_AllocateBlock fails no assertion and keeps the invariant, if a chunk that it allocates is
-- new; it returns the null pointer only where it has to allocate a chunk and gets none.
pub allocate_block-IsPool :
    (p : MemoryPool) (allocated : Option ℕ)
    → IsPool p
    → ((c : ℕ) → allocated ≡ some c → count c p.usable_chunks + count c p.unusable_chunks ≡ 0)
    → (slot : ℕ) × (r : MemoryPool) × (allocate_block p allocated ≡ some (slot, r)) × IsPool r
unfolding increase_chunks
allocate_block-IsPool p allocated w new = elim (List-cases p.usable_chunks) [
  | inr (x, xs, e) ↦ elim (Option-cases (get_back p.usable_chunks)) [
    | inl n ↦ absurd (ground (arith, e, get_back-none p.usable_chunks n))
    | inr ((others, chunk), b) ↦
        let t = take_slot-Taken p others chunk w (get_back-some p.usable_chunks others chunk b) in
        (_, _, allocate_block-run p allocated (x ∷ xs) e ∙ t.run, t.whole)
  ]
  | inl e ↦ elim (Option-cases allocated) [
    | inl n ↦ (0, p, allocate_block-run p allocated [] e ∙ ap (λ a. allocates p a []) n, w)
    | inr (c, n) ↦
        let whole = grown-IsPool p c w e (new c n) in
        let t = take_slot-Taken _ [] c whole (ap (λ xs. c ∷ xs) e) in
        (_, _, allocate_block-run p allocated [] e ∙ ap (λ a. allocates p a []) n ∙ t.run, t.whole)
  ]
]
