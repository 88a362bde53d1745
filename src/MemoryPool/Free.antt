-- ===== src/MemoryPool/Free.antt =====
-- MemoryPool_FreeBlock keeps the invariant of a memory pool.
use pixy.Base.{
  ℕ, ◌+◌, ◌<◌, ◌≤◌, ◌≡◌, refl, arith, inl, inr, true, false, some, List, [], ◌∷◌, ◌++◌, ◌==◌, ltb,
  Bool-cases, Option-cases,
}
use pixy.Base.Lists.{count, count-append, take_out, count-take_out, take_out-some}
use pixy.MemoryPool.{
  MemoryPool, set_at, locate_memory_chunk, chunk_before, move_free_chunk, free_block,
}
use pixy.MemoryPool.Prefix.{
  IsFronted, same-IsFronted, append-IsFronted, first-IsFronted, behind-IsFronted, moved-IsFronted,
  chunk_before_apart,
}
use pixy.MemoryPool.Blocks.{is_full, IsPool}

-- the pool behind the return of `block` to `chunk`
abbrev pub given : MemoryPool → (block chunk : ℕ) → MemoryPool
given p block chunk = record p {
  word = set_at p.word block (p.free_slot chunk);
  free_slot = set_at p.free_slot chunk block;
  number_of_free_slots = set_at p.number_of_free_slots chunk (p.number_of_free_slots chunk + 1);
}

module _ (p : MemoryPool) (w : IsPool p) (block c : ℕ)
    (used : p.number_of_free_slots c < p.number_of_slots_per_chunk) where
  -- the chunk had no free slot
  reused :
      (rest : List ℕ)
      → p.number_of_free_slots c ≡ 0
      → take_out c p.unusable_chunks ≡ some rest
      → IsPool (record (given p block c) {
        unusable_chunks = rest;
        usable_chunks = p.usable_chunks ++ c ∷ [];
      })
  reused rest none_free e =
      let out = λ (d : ℕ). count-take_out c d p.unusable_chunks rest e in
      let absent : count c p.usable_chunks ≡ 0 = ground (arith, w.usable c, none_free) in
      record {
        slots = w.slots;
        usable = λ d q.
            ground
              (arith, none_free, w.slots, w.usable d, q, count-append d p.usable_chunks (c ∷ []));
        unusable = λ d q. ground (arith, w.unusable d, q, out d, w.once d, absent);
        once =
            λ d. ground (arith, w.once d, out d, absent, count-append d p.usable_chunks (c ∷ []));
        fronted =
            append-IsFronted (is_full (given p block c)) p.usable_chunks c
              (λ g d q. ground (arith, g, none_free, w.usable d q, q, absent))
              (same-IsFronted (is_full p) (is_full (given p block c)) p.usable_chunks
                (λ d q. ground (arith, absent, q)) w.fronted);
      }

  -- the chunk has other slots in use
  kept :
      1 ≤ p.number_of_free_slots c
      → p.number_of_free_slots c + 1 < p.number_of_slots_per_chunk
      → IsPool (given p block c)
  kept some_free more = record {
    slots = w.slots;
    usable = λ d q. ground (arith, w.usable d q, more);
    unusable = λ d q. ground (arith, w.unusable d q, some_free);
    once = w.once;
    fronted =
        same-IsFronted (is_full p) (is_full (given p block c)) p.usable_chunks
          (λ d q. ground (arith, more)) w.fronted;
  }

  -- all slots of the chunk are free now, and the usable chunks are `usable`
  rearranged :
      (usable : List ℕ)
      → 1 ≤ p.number_of_free_slots c
      → p.number_of_free_slots c + 1 ≡ p.number_of_slots_per_chunk
      → ((d : ℕ) → count d usable ≡ count d p.usable_chunks)
      → IsFronted (is_full (given p block c)) usable
      → IsPool (record (given p block c) { usable_chunks = usable })
  rearranged usable some_free all same front = record {
    slots = w.slots;
    usable = λ d q. ground (arith, w.usable d, q, same d, all);
    unusable = λ d q. ground (arith, w.unusable d q, some_free);
    once = λ d. ground (arith, w.once d, same d);
    fronted = front;
  }

  filled :
      1 ≤ p.number_of_free_slots c
      → p.number_of_free_slots c + 1 ≡ p.number_of_slots_per_chunk
      → count c p.usable_chunks ≡ 1
      → (usable : List ℕ) × (move_free_chunk (given p block c) c
          ≡ some (record (given p block c) { usable_chunks = usable }))
        × ((d : ℕ) → count d usable ≡ count d p.usable_chunks)
        × IsPool (record (given p block c) { usable_chunks = usable })
  unfolding move_free_chunk
  filled some_free all here =
      let xs = p.usable_chunks in
      let after = given p block c in
      let full : is_full after c ≡ true = ground (arith, all) in
      let others : (y : ℕ) → (y == c) ≡ false → is_full p y ≡ is_full after y =
        λ y q. ground (arith, q) in
      elim (Option-cases (chunk_before c xs)) [
        | inl b ↦ (
          xs,
          rw (b, move_free_chunk) refl,
          λ d. refl,
          rearranged xs some_free all (λ d. refl)
              (first-IsFronted (is_full p) (is_full after) c full others xs b here w.fronted),
        )
        | inr (prev, b) ↦ elim (Bool-cases (is_full after prev)) [
          | inl f ↦ (
            xs,
            rw (b, f, move_free_chunk) refl,
            λ d. refl,
            rearranged xs some_free all (λ d. refl)
                (behind-IsFronted (is_full p) (is_full after) c full others prev xs b
                  (ground (arith, f, chunk_before_apart c prev xs b (omega (arith, here))))
                  (omega (arith, here)) w.fronted),
          )
          | inr f ↦
              let (rest, e) = take_out-some c xs (omega (arith, here)) in
              (
                c ∷ rest,
                rw (b, f, e, move_free_chunk) refl,
                λ d. ground (arith, count-take_out c d xs rest e),
                rearranged (c ∷ rest) some_free all
                    (λ d. ground (arith, count-take_out c d xs rest e))
                    (moved-IsFronted (is_full p) (is_full after) c full others xs rest e here
                      w.fronted),
              )
        ]
      ]

-- what MemoryPool_FreeBlock leaves: the two lists have the same chunks as before
pub record Freed (p : MemoryPool) (block : ℕ) : Type 0 where
  pub usable : List ℕ
  pub unusable : List ℕ
  pub run :
      free_block p block
      ≡ some (record (given p block (locate_memory_chunk block)) {
        usable_chunks = usable;
        unusable_chunks = unusable;
      })
  pub same :
      (d : ℕ)
      → count d usable + count d unusable ≡ count d p.usable_chunks + count d p.unusable_chunks
  pub whole : IsPool (record (given p block (locate_memory_chunk block)) {
    usable_chunks = usable;
    unusable_chunks = unusable;
  })

pub free_block-Freed :
    (p : MemoryPool) (block : ℕ)
    → IsPool p
    → 0 < block
    → count (locate_memory_chunk block) p.usable_chunks
        + count (locate_memory_chunk block) p.unusable_chunks
      ≡ 1
    → p.number_of_free_slots (locate_memory_chunk block) < p.number_of_slots_per_chunk
    → Freed p block
unfolding free_block
free_block-Freed p block w nonzero here used =
    let c = locate_memory_chunk block in
    let count_after = p.number_of_free_slots c + 1 in
    let z : (block == 0) ≡ false = ground (arith, nonzero) in
    elim (Bool-cases (count_after == 1)) [
      | inl e ↦
          let (rest, out) =
            take_out-some c p.unusable_chunks (ground (arith, e, here, w.usable c)) in
          record {
            usable = p.usable_chunks ++ c ∷ [];
            unusable = rest;
            run = rw (z, e, out) refl;
            same = λ d. ground (
              arith,
              count-append d p.usable_chunks (c ∷ []),
              count-take_out c d p.unusable_chunks rest out,
            );
            whole = reused p w block c used rest (ground (arith, e)) out;
          }
      | inr e ↦ elim (Bool-cases (ltb count_after p.number_of_slots_per_chunk)) [
        | inl f ↦ record {
          usable = p.usable_chunks;
          unusable = p.unusable_chunks;
          run = rw (z, e, f) refl;
          same = λ d. refl;
          whole = kept p w block c used (ground (arith, e)) (ground (arith, f));
        }
        | inr f ↦
            let some_free : 1 ≤ p.number_of_free_slots c = ground (arith, e) in
            let (usable, run, same, whole) =
              filled p w block c used some_free (ground (arith, f, used))
                (ground (arith, here, w.unusable c, some_free)) in
            record {
              usable = usable;
              unusable = p.unusable_chunks;
              run = rw (z, e, f) run;
              same = λ d. ground (arith, same d);
              whole = whole;
            }
      ]
    ]

-- MemoryPool_FreeBlock, of a block of a chunk of the pool with a slot in use, fails no assertion,
-- unlinks the chunk only from a list that it is in, and keeps the invariant.
pub free_block-IsPool :
    (p : MemoryPool) (block : ℕ)
    → IsPool p
    → 0 < block
    → count (locate_memory_chunk block) p.usable_chunks
        + count (locate_memory_chunk block) p.unusable_chunks
      ≡ 1
    → p.number_of_free_slots (locate_memory_chunk block) < p.number_of_slots_per_chunk
    → (r : MemoryPool) × (free_block p block ≡ some r) × IsPool r
free_block-IsPool p block w nonzero here used =
    let f = free_block-Freed p block w nonzero here used in (_, f.run, f.whole)
