-- ===== src/Heap/Stored.antt =====
-- The slots as a sequence: where the segments are distinct, a write to one slot is read at that slot only.
use pixy.Base.{ℕ, ◌*◌, ◌/◌, ◌<◌, ◌≤◌, ◌≡◌, arith, ◌==◌, if◌then◌else◌}
use pixy.Heap.{Heap, locate_slot, get_slot, put_node}

-- The segments are distinct, and together they are all the slots.
pub record HasLayout (h : Heap) : Type 0 where
  pub slots : h.number_of_slots ≡ h.number_of_segments * 256
  pub distinct :
      (i j : ℕ)
      → i < h.number_of_segments
      → j < h.number_of_segments
      → h.segments i ≡ h.segments j
      → i ≡ j
  pub nodes : h.number_of_nodes ≤ h.number_of_slots

abbrev pub update : (ℕ → ℕ) → (at new : ℕ) → ℕ → ℕ
update f at new i = if i == at then new else f i

-- the slots in use, read in turn, are `g`
abbrev pub Views : Heap → ℕ → (ℕ → ℕ) → Type 0
Views h n g = (i : ℕ) → i < n → get_slot h i ≡ g i

module _ (h : Heap) (layout : HasLayout h) where
  pub put_node-HasLayout : (x node number : ℕ) → HasLayout (put_node h x node number)
  unfolding put_node
  put_node-HasLayout x node number = record {
    slots = layout.slots;
    distinct = layout.distinct;
    nodes = layout.nodes;
  }

  pub get_slot-put_node :
      (x i node number : ℕ)
      → x < h.number_of_slots
      → i < h.number_of_slots
      → get_slot (put_node h x node number) i ≡ update (get_slot h) x node i
  unfolding get_slot put_node locate_slot
  get_slot-put_node x i node number p q =
      ground (arith, layout.slots, layout.distinct (i / 256) (x / 256))

  pub put_node-Views :
      (n x node number : ℕ) (g : ℕ → ℕ)
      → n ≤ h.number_of_slots
      → x < n
      → Views h n g
      → Views (put_node h x node number) n (update g x node)
  put_node-Views n x node number g m p v i q =
      ground (arith, get_slot-put_node x i node number (omega arith) (omega arith), v i q)
