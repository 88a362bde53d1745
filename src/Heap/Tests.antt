-- ===== src/Heap/Tests.antt =====
-- A heap of nodes that are ordered by their addresses.
use pixy.Base.{ℕ, ◌≡◌, ◌<◌, refl, arith, Bool, true, not, ◌&&◌, ◌||◌, some, ◌==◌, if◌then◌else◌}
use pixy.Base.Int.{ℤ, sub_ℕ}
use pixy.Vector
use pixy.Heap.{Heap, initialize, insert_node, remove_node, get_slot, locate_slot}
use pixy.Heap.Sift.{IsComparer}
use pixy.Heap.Whole.{IsHeap, contains}
use pixy.Heap.Insert.{initialize-IsHeap, insert_node-IsHeap}
use pixy.Heap.Remove.{remove_node-IsHeap}
use pixy.Heap.Adjust.{IsHeapBut}

abbrev blank : Heap
blank = record {
  segment_vector = Vector.initialize 8;
  number_of_segments = 0;
  number_of_slots = 0;
  number_of_nodes = 0;
  segments = λ i. 0;
  slots = λ s o. 0;
  slot_number = λ p. 0;
}

abbrev by_address : ℕ → ℕ → ℤ
by_address a b = sub_ℕ a b

abbrev address : ℕ → ℕ
address a = a

by_address-IsComparer : IsComparer by_address address
by_address-IsComparer = record { less = λ a b. ground arith; greater = λ a b. ground arith }

abbrev give_zeros : Vector.Realloc
give_zeros old bytes new = some (λ i. 0)

abbrev inserted : Bool × Heap
inserted = insert_node by_address give_zeros (initialize blank) 5 (some 64)

insert_node-IsHeap_example :
    IsHeap address inserted.1
    × ((a : ℕ)
        → contains inserted.1 a ≡ ((inserted.0 && (a == 5)) || contains (initialize blank) a))
    × (0 < 0 → inserted.0 ≡ true)
unfolding initialize
insert_node-IsHeap_example =
    insert_node-IsHeap address give_zeros by_address by_address-IsComparer (initialize blank) 5
      (some 64) (initialize-IsHeap address blank) refl (λ s i e p. absurd (omega arith))

-- two nodes, in slot order
abbrev two_nodes : ℕ → ℕ → Heap
two_nodes a b = record blank {
  number_of_segments = 1;
  number_of_slots = 256;
  number_of_nodes = 2;
  segments = λ i. 64;
  slots = λ s o. if o == 0 then a else b;
  slot_number = λ p. if p == a then 0 else 1;
}

sorted-IsHeap : IsHeap address (two_nodes 3 5)
unfolding get_slot locate_slot
sorted-IsHeap = record {
  layout = record { slots = refl; distinct = λ i j p q e. omega arith; nodes = omega arith };
  ordered = λ i p q. ground arith;
  backed = λ i q. ground arith;
}

sorted-has : contains (two_nodes 3 5) 3 ≡ true
unfolding get_slot locate_slot
sorted-has = refl

remove_node-IsHeap_example :
    IsHeap address (remove_node by_address (two_nodes 3 5) 3)
    × ((a : ℕ)
        → contains (remove_node by_address (two_nodes 3 5) 3) a
          ≡ (contains (two_nodes 3 5) a && not (a == 3)))
    × ((remove_node by_address (two_nodes 3 5) 3).number_of_nodes ≡ 1)
remove_node-IsHeap_example =
    remove_node-IsHeap by_address address by_address-IsComparer (two_nodes 3 5) 3 sorted-IsHeap
      sorted-has

unsorted-IsHeapBut : IsHeapBut address (two_nodes 5 3) 1
unfolding get_slot locate_slot
unsorted-IsHeapBut = record {
  layout = record { slots = refl; distinct = λ i j p q e. omega arith; nodes = omega arith };
  ordered = λ i p q e f. ground arith;
  skips = λ i p q r e. absurd (omega arith);
  backed = λ i q. ground arith;
}

unsorted-has : contains (two_nodes 5 3) 3 ≡ true
unfolding get_slot locate_slot
unsorted-has = refl
