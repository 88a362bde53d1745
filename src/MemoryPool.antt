-- ===== src/MemoryPool.antt =====
-- Source/MemoryPool.c and MemoryPool.h. An address is a number, and a chunk is the address of its header; the two
-- chunk lists are sequences of chunks. The memory that the operations write is a function: a slot's
-- first word, and the two fields of a chunk's header. `0` is the null pointer. What posix_memalign
-- gives is a parameter of an operation; `none` is ENOMEM. The result `none` is a failed assertion, or the
-- removal of a chunk that is not in its list.
pub mod Prefix
pub mod Blocks
pub mod Free
pub mod Slots
pub mod Chains
pub mod Fresh
pub mod Given
pub mod Tests
use mathlib.Core.Option
use mathlib.Core.List
use pixy.Base.{
  ℕ, zero, suc, ◌+◌, ◌-◌, ◌/◌, ◌%◌, Bool, true, false, Option, none, some, List, [], ◌∷◌, ◌++◌,
  ◌==◌, ltb, leb, if◌then◌else◌, ◌>>=◌,
}
use pixy.Base.Lists.{take_out, get_back}

pub record MemoryPool : Type 0 where
  pub block_size : ℕ
  pub number_of_slots_per_chunk : ℕ
  pub usable_chunks : List ℕ
  pub unusable_chunks : List ℕ
  pub free_slot : ℕ → ℕ
  pub number_of_free_slots : ℕ → ℕ
  pub word : ℕ → ℕ

abbrev pub memory_chunk_size : ℕ
memory_chunk_size = 65536

-- the size of `struct MemoryChunk`: two links, a pointer and an int, padded
abbrev pub header_size : ℕ
header_size = 32

abbrev pub memory_chunk_payload_size : ℕ
memory_chunk_payload_size = memory_chunk_size - header_size

abbrev pub set_at : (ℕ → ℕ) → (at new : ℕ) → ℕ → ℕ
set_at f at new i = if i == at then new else f i

-- MemoryPool_Initialize; `none` if the assertion on the block size fails
unfoldable pub initialize : MemoryPool → (block_size : ℕ) → Option MemoryPool
initialize self block_size =
    let size = if ltb block_size 8 then 8 else block_size in
    if leb block_size memory_chunk_payload_size
    then some (record self {
      block_size = size;
      number_of_slots_per_chunk = memory_chunk_payload_size / size;
      usable_chunks = [];
      unusable_chunks = [];
    })
    else none

-- MemoryPool_Finalize: the chunks freed, in order
unfoldable pub finalize : MemoryPool → List ℕ
finalize self = List.reverse self.usable_chunks ++ List.reverse self.unusable_chunks

-- the loop of MemoryPool_ShrinkToFit: the chunks freed, in order, and those that stay
unfoldable pub split_free : (free : ℕ → ℕ) → (slots : ℕ) → List ℕ → List ℕ × List ℕ
split_free free slots [] = ([], [])
split_free free slots (chunk ∷ chunks) =
    let (freed, kept) = split_free free slots chunks in
    if ltb (free chunk) slots then ([], chunk ∷ chunks) else (chunk ∷ freed, kept)

-- MemoryPool_ShrinkToFit
unfoldable pub shrink_to_fit : MemoryPool → List ℕ × MemoryPool
unfolding split_free
shrink_to_fit self =
    let (freed, kept) =
      split_free self.number_of_free_slots self.number_of_slots_per_chunk self.usable_chunks in
    (freed, record self { usable_chunks = kept })

-- the loop of MemoryPool_IncreaseChunks: the words as it writes them from `slot` down, while the next
-- block is not below `low`
unfoldable pub link_slots : (fuel block_size low slot : ℕ) → (ℕ → ℕ) → ℕ → ℕ
link_slots zero block_size low slot word = set_at word slot 0
link_slots (suc fuel) block_size low slot word =
    let block = slot - block_size in
    let rest = link_slots fuel block_size low block (set_at word slot block) in
    if ltb slot (low + block_size) then set_at word slot 0 else rest

-- MemoryPool_IncreaseChunks; a chunk has no more slots than bytes, so that its size is enough fuel
unfoldable pub increase_chunks : MemoryPool → (allocated : Option ℕ) → Bool × MemoryPool
unfolding link_slots
increase_chunks self none = (false, self)
increase_chunks self (some chunk) =
    let slot = chunk + memory_chunk_size - self.block_size in
    (
      true,
      record self {
        word = link_slots memory_chunk_size self.block_size (chunk + header_size) slot self.word;
        free_slot = set_at self.free_slot chunk slot;
        number_of_free_slots =
            set_at self.number_of_free_slots chunk self.number_of_slots_per_chunk;
        usable_chunks = chunk ∷ self.usable_chunks;
      },
    )

-- MemoryPool_AllocateBlock, once a chunk is usable: the slot taken from the last one
unfoldable pub take_slot : MemoryPool → Option (ℕ × MemoryPool)
take_slot self = do
  (others, chunk) ← get_back self.usable_chunks
  let slot = self.free_slot chunk
  let count = self.number_of_free_slots chunk - 1
  let taken = record self {
    free_slot = set_at self.free_slot chunk (self.word slot);
    number_of_free_slots = set_at self.number_of_free_slots chunk count;
  }
  some (
    slot,
    if count == 0
        then record taken {
          usable_chunks = others;
          unusable_chunks = self.unusable_chunks ++ chunk ∷ [];
        }
        else taken,
  )

-- MemoryPool_AllocateBlock; the null pointer is 0
unfoldable pub allocate_block : MemoryPool → (allocated : Option ℕ) → Option (ℕ × MemoryPool)
unfolding take_slot increase_chunks
allocate_block self allocated = elim self.usable_chunks [
  | [] ↦
      let (ok, grown) = increase_chunks self allocated in
      if ok then take_slot grown else some (0, self)
  | chunk ∷ chunks ↦ take_slot self
]

-- LocateMemoryChunk
unfoldable pub locate_memory_chunk : ℕ → ℕ
locate_memory_chunk block = block - block % memory_chunk_size

-- what is before `chunk` in the list, if anything is
unfoldable pub chunk_before : (chunk : ℕ) → List ℕ → Option ℕ
chunk_before chunk [] = none
chunk_before chunk (x ∷ []) = none
chunk_before chunk (x ∷ y ∷ ys) = if y == chunk then some x else chunk_before chunk (y ∷ ys)

-- the end of MemoryPool_FreeBlock, for a chunk with all its slots free: it goes to the front of the
-- usable chunks, unless it is there or behind another such chunk
unfoldable pub move_free_chunk : MemoryPool → (chunk : ℕ) → Option MemoryPool
unfolding chunk_before
move_free_chunk self chunk = elim (chunk_before chunk self.usable_chunks) [
  | none ↦ some self
  | some prev ↦
      if self.number_of_free_slots prev == self.number_of_slots_per_chunk
      then some self
      else Option.map (λ rest. record self { usable_chunks = chunk ∷ rest })
          (take_out chunk self.usable_chunks)
]

-- MemoryPool_FreeBlock
unfoldable pub free_block : MemoryPool → (block : ℕ) → Option MemoryPool
unfolding locate_memory_chunk move_free_chunk
free_block self block =
    let chunk = locate_memory_chunk block in
    let count = self.number_of_free_slots chunk + 1 in
    let given = record self {
      word = set_at self.word block (self.free_slot chunk);
      free_slot = set_at self.free_slot chunk block;
      number_of_free_slots = set_at self.number_of_free_slots chunk count;
    } in
    if block == 0
    then none
    else if count == 1
    then Option.map
        (λ rest. record given {
          unusable_chunks = rest;
          usable_chunks = self.usable_chunks ++ chunk ∷ [];
        })
        (take_out chunk self.unusable_chunks)
    else if ltb count self.number_of_slots_per_chunk
    then some given
    else move_free_chunk given chunk
