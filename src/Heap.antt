-- ===== src/Heap.antt =====
-- Source/Heap.c and Heap.h. A node and a segment are their addresses, and a slot is a segment with an offset in
-- it. `segments` are the addresses that the elements of the segment vector are; the vector itself
-- says how many fit. The memory that the operations write is a function: from slots to nodes, and from
-- nodes to slot numbers. The comparer is a parameter, and returns an int. `malloc` is a parameter of
-- an operation: what it returns, if it is called. The counters do not reach the bounds of an int.
pub mod Stored
pub mod Order
pub mod Sift
pub mod Down
pub mod Whole
pub mod Insert
pub mod Remove
pub mod Adjust
pub mod Tests
use pixy.Base.{
  ℕ, zero, suc, ◌+◌, ◌-◌, ◌*◌, ◌/◌, ◌%◌, Bool, true, false, not, ◌&&◌, Option, none, some, List, [],
  ◌∷◌, ◌==◌, ltb, leb, if◌then◌else◌,
}
use pixy.Base.Int.{ℤ, pos, ltb_ℤ, ◌==ℤ◌}
use pixy.Vector.{Vector, Realloc, set_length, get_length}
use pixy.Vector

pub record Heap : Type 0 where
  pub segment_vector : Vector
  pub number_of_segments : ℕ
  pub number_of_slots : ℕ
  pub number_of_nodes : ℕ
  pub segments : ℕ → ℕ
  pub slots : ℕ → ℕ → ℕ
  pub slot_number : ℕ → ℕ

abbrev pub segment_length : ℕ
segment_length = 256

-- Heap_Initialize; an element of the vector is a pointer, of eight bytes
unfoldable pub initialize : Heap → Heap
initialize self = record self {
  segment_vector = Vector.initialize 8;
  number_of_segments = 0;
  number_of_slots = 0;
  number_of_nodes = 0;
}

-- Heap_LocateSlot
unfoldable pub locate_slot : Heap → ℕ → ℕ × ℕ
locate_slot self n = (self.segments (n / segment_length), n % segment_length)

-- `*Heap_LocateSlot(self, n)`
unfoldable pub get_slot : Heap → ℕ → ℕ
unfolding locate_slot
get_slot self n = let (segment, offset) = locate_slot self n in self.slots segment offset

-- `(*Heap_LocateSlot(self, n) = node)->slotNumber = number`
unfoldable pub put_node : Heap → (n node number : ℕ) → Heap
unfolding locate_slot
put_node self n node number =
    let (segment, offset) = locate_slot self n in
    record self {
      slots = λ s o. if (s == segment) && (o == offset) then node else self.slots s o;
      slot_number = λ p. if p == node then number else self.slot_number p;
    }

-- Heap_GetTop; the null pointer is `none`
unfoldable pub get_top : Heap → Option ℕ
get_top self = if self.number_of_nodes == 0 then none else some (self.slots (self.segments 0) 0)

-- `i = last + count - 1; do free(segments[i]); while (--i >= last)`
unfoldable pub frees : (ℕ → ℕ) → (last count : ℕ) → List ℕ
frees segments last zero = []
frees segments last (suc count) = segments (last + count) ∷ frees segments last count

module _ (realloc : Realloc) where
  -- Heap_IncreaseSegments, once the vector has room: the call of `malloc` and what follows it
  unfoldable pub add_segment : Heap → Option ℕ → Bool × Heap
  add_segment self none = (false, self)
  add_segment self (some segment) = (
    true,
    record self {
      segments = λ i. if i == self.number_of_segments then segment else self.segments i;
      number_of_segments = self.number_of_segments + 1;
      number_of_slots = self.number_of_slots + segment_length;
    },
  )

  -- Heap_IncreaseSegments
  unfoldable pub increase_segments : Heap → (malloc : Option ℕ) → Bool × Heap
  unfolding add_segment
  increase_segments self malloc =
      if self.number_of_segments == get_length self.segment_vector
      then (let (ok, vector) =
            set_length realloc self.segment_vector (self.number_of_segments + 1) false in
          if ok
          then add_segment (record self { segment_vector = vector }) malloc
          else (false, self))
      else (add_segment self malloc)

  -- Heap_ShrinkToFit: the segments freed, in order, what the call returns, and the new state
  unfoldable pub shrink_to_fit : Heap → List ℕ × Bool × Heap
  unfolding frees
  shrink_to_fit self =
      let n = (self.number_of_nodes + segment_length - 1) / segment_length in
      let shrunk = record self { number_of_segments = n; number_of_slots = n * segment_length } in
      let frees_some = ltb n self.number_of_segments in
      let freed = if frees_some then frees self.segments n (self.number_of_segments - n) else [] in
      let kept : Heap = if frees_some then shrunk else self in
      let (ok, vector) = set_length realloc kept.segment_vector n false in
      (freed, ok, record kept { segment_vector = vector })

-- Heap_Finalize: the segments freed, in order; the vector's elements are freed behind them
unfoldable pub finalize : Heap → List ℕ
unfolding frees
finalize self = frees self.segments 0 self.number_of_segments

module _ (compare_nodes : ℕ → ℕ → ℤ) where
  -- Heap_SiftNodeUp from slot number `x`; each round halves it, so that `x` is enough fuel
  unfoldable pub sift_up : (fuel x node : ℕ) → Heap → Heap
  unfolding get_slot put_node
  sift_up zero x node self = put_node self x node x
  sift_up (suc fuel) x node self =
      let y = (x - 1) / 2 in
      let other = get_slot self y in
      let rest = sift_up fuel y node (put_node self x other x) in
      if (leb 1 x) && ltb_ℤ (compare_nodes node other) (pos 0)
      then rest
      else (put_node self x node x)

  unfoldable pub sift_node_up : Heap → (x : ℕ) → Heap
  unfolding sift_up
  sift_node_up self slot =
      let node = get_slot self slot in let x = self.slot_number node in sift_up x x node self

  -- the lesser of the two slots below `x`, of which the first, y, is in use
  unfoldable pub lesser_slot : Heap → (y : ℕ) → ℕ
  unfolding get_slot
  lesser_slot self y =
      if (ltb (y + 1) self.number_of_nodes)
        && ltb_ℤ (compare_nodes (get_slot self (y + 1)) (get_slot self y)) (pos 0)
      then y + 1
      else y

  -- Heap_SiftNodeDown from slot number `x`; it grows in each round, so that the number of nodes is
  -- enough fuel
  unfoldable pub sift_down : (fuel x node : ℕ) → Heap → Heap
  unfolding get_slot put_node lesser_slot
  sift_down zero x node self = put_node self x node x
  sift_down (suc fuel) x node self =
      let y = lesser_slot self (2 * x + 1) in
      let other = get_slot self y in
      let rest = sift_down fuel y node (put_node self x other x) in
      if (ltb (2 * x + 1) self.number_of_nodes) && ltb_ℤ (pos 0) (compare_nodes node other)
      then rest
      else (put_node self x node x)

  unfoldable pub sift_node_down : Heap → (slot : ℕ) → Heap
  unfolding sift_down
  sift_node_down self slot =
      let node = get_slot self slot in
      sift_down self.number_of_nodes (self.slot_number node) node self

  -- Heap_InsertNode
  unfoldable pub insert_node : Realloc → Heap → (node : ℕ) → (malloc : Option ℕ) → Bool × Heap
  unfolding increase_segments sift_node_up
  insert_node realloc self node malloc =
      let (ok, roomy) =
        if self.number_of_nodes == self.number_of_slots
        then (increase_segments realloc self malloc)
        else (true, self) in
      let n = roomy.number_of_nodes in
      let placed = record (put_node roomy n node n) { number_of_nodes = n + 1 } in
      if ok then (true, sift_node_up placed n) else (false, roomy)

  -- Heap_AdjustNode
  unfoldable pub adjust_node : Heap → (node : ℕ) → Heap
  unfolding sift_node_up sift_node_down
  adjust_node self node =
      let slot = self.slot_number node in
      let raised = sift_node_up self slot in
      if get_slot raised slot == node then sift_node_down raised slot else raised

  -- Heap_RemoveNode
  unfoldable pub remove_node : Heap → (node : ℕ) → Heap
  unfolding sift_node_up sift_node_down
  remove_node self node =
      let slot = self.slot_number node in
      let last = self.number_of_nodes - 1 in
      let moved = get_slot self last in
      let filled = record (put_node self slot moved slot) { number_of_nodes = last } in
      let delta = compare_nodes (get_slot filled slot) node in
      if delta ==ℤ pos 0
      then filled
      else (if ltb_ℤ delta (pos 0) then sift_node_up filled slot else sift_node_down filled slot)
