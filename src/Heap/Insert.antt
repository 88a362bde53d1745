-- ===== src/Heap/Insert.antt =====
-- Heap_InsertNode, with the allocation of a segment.
use pixy.Base.{
  ℕ, ◌+◌, ◌<◌, ◌≡◌, refl, ◌∙◌, arith, inl, inr, ◌==◌, if◌then◌else◌, Bool-cases, Bool, true, false,
  ◌&&◌, ◌||◌, Option, none, some, ap,
}
use pixy.Base.Int.{ℤ}
use pixy.Vector.{Vector, Realloc, set_length, get_length}
use pixy.Heap.{
  Heap, get_slot, put_node, locate_slot, add_segment, increase_segments, sift_node_up, insert_node,
  initialize,
}
use pixy.Heap.Stored.{update, put_node-Views}
use pixy.Heap.Order.{is_held}
use pixy.Heap.Sift.{IsComparer, Sifted}
use pixy.Heap.Whole.{IsHeap, contains, Sifted-IsHeap, Sifted-contains, sift_node_up-Sifted}

-- An allocated segment is none of those in use.
abbrev pub IsFresh : Heap → Option ℕ → Type 0
IsFresh h malloc =
    (s i : ℕ) → malloc ≡ some s → i < h.number_of_segments → (h.segments i == s) ≡ false

-- `r` is a heap of the nodes of `h`, and has room for one more if `ok`
record HasRoom (rank : ℕ → ℕ) (h r : Heap) (ok : Bool) : Type 0 where
  whole : IsHeap rank r
  room : ok ≡ true → r.number_of_nodes < r.number_of_slots
  same : (a : ℕ) → contains r a ≡ contains h a

pub initialize-IsHeap : (rank : ℕ → ℕ) (h : Heap) → IsHeap rank (initialize h)
unfolding initialize
initialize-IsHeap rank h = record {
  layout = record { slots = refl; distinct = λ i j p. absurd (omega arith); nodes = omega arith };
  ordered = λ i p q. absurd (omega arith);
  backed = λ i q. absurd (omega arith);
}

module _ (rank : ℕ → ℕ) (realloc : Realloc) where
  add_segment-HasRoom :
      (h : Heap) (vector : Vector) (malloc : Option ℕ)
      → IsHeap rank h
      → IsFresh h malloc
      → let (ok, r) = add_segment realloc (record h { segment_vector = vector }) malloc in
        HasRoom rank h r ok
  unfolding add_segment get_slot locate_slot
  add_segment-HasRoom h vector none w fresh = record {
    whole = record {
      layout = record {
        slots = w.layout.slots;
        distinct = w.layout.distinct;
        nodes = w.layout.nodes;
      };
      ordered = w.ordered;
      backed = w.backed;
    };
    room = λ e. absurd (ground (arith, e));
    same = λ a. refl;
  }
  add_segment-HasRoom h vector (some s) w fresh = record {
    whole = record {
      layout = record {
        slots = omega (arith, w.layout.slots);
        distinct = λ i j p q. ground (arith, w.layout.distinct i j, fresh s i refl, fresh s j refl);
        nodes = omega (arith, w.layout.nodes);
      };
      ordered = λ i p q. ground (arith, w.layout.slots, w.layout.nodes, w.ordered i p q);
      backed = λ i q. ground (arith, w.layout.slots, w.layout.nodes, w.backed i q);
    };
    room = λ e. omega (arith, w.layout.nodes);
    same = λ a. ground (arith, w.layout.slots, w.layout.nodes);
  }

  increase_segments-HasRoom :
      (h : Heap) (malloc : Option ℕ)
      → IsHeap rank h
      → IsFresh h malloc
      → HasRoom rank h (increase_segments realloc h malloc).1 (increase_segments realloc h malloc).0
  unfolding increase_segments
  increase_segments-HasRoom h malloc w fresh =
      elim (Bool-cases (h.number_of_segments == get_length h.segment_vector)) [
        | inr e ↦ rw e (add_segment-HasRoom h h.segment_vector malloc w fresh)
        | inl e ↦
            let grown = set_length realloc h.segment_vector (h.number_of_segments + 1) false in
            elim (Bool-cases grown.0) [
              | inl f ↦ rw (e, f) (add_segment-HasRoom h grown.1 malloc w fresh)
              | inr f ↦
                  rw (e, f)
                    (record {
                      whole = w;
                      room = λ ok. absurd (ground (arith, ok));
                      same = λ a. refl;
                    })
            ]
      ]

  module _ (compare_nodes : ℕ → ℕ → ℤ) (law : IsComparer compare_nodes rank) where
    -- the heap with `node` put behind the others, then sifted up
    appended :
        (r : Heap) (node : ℕ)
        → IsHeap rank r
        → r.number_of_nodes < r.number_of_slots
        → contains r node ≡ false
        → Sifted rank
            (sift_node_up compare_nodes
              (record (put_node r r.number_of_nodes node r.number_of_nodes) {
                number_of_nodes = r.number_of_nodes + 1;
              })
              r.number_of_nodes)
            (r.number_of_nodes + 1)
            (update (get_slot r) r.number_of_nodes node)
            (update r.slot_number node r.number_of_nodes)
    unfolding put_node get_slot locate_slot
    appended r node w room new =
        let n = r.number_of_nodes in
        let placed = record (put_node r n node n) { number_of_nodes = n + 1 } in
        let g = update (get_slot r) n node in
        sift_node_up-Sifted compare_nodes rank law placed (n + 1) n g
          (record {
            slots = w.layout.slots;
            distinct = w.layout.distinct;
            nodes = omega (arith, room);
          })
          refl (omega arith)
          (put_node-Views r w.layout (n + 1) n node n (get_slot r) (omega (arith, room))
            (omega arith) (λ i q. refl))
          (λ i q. ground (arith, new, w.backed i))
          (record {
            order = λ i a b c. ground (arith, w.ordered i a);
            skips = λ i a b c d. absurd (omega arith);
          })

    -- the state before the node is put
    abbrev roomy : Heap → Option ℕ → Bool × Heap
    roomy h malloc =
        if h.number_of_nodes == h.number_of_slots
        then (increase_segments realloc h malloc)
        else (true, h)

    roomy-HasRoom :
        (h : Heap) (malloc : Option ℕ)
        → IsHeap rank h
        → IsFresh h malloc
        → HasRoom rank h (roomy h malloc).1 (roomy h malloc).0
    roomy-HasRoom h malloc w fresh = elim (Bool-cases (h.number_of_nodes == h.number_of_slots)) [
      | inl e ↦ rw e (increase_segments-HasRoom h malloc w fresh)
      | inr e ↦
          rw e
            (record { whole = w; room = λ ok. ground (arith, e, w.layout.nodes); same = λ a. refl })
    ]

    -- Where the comparer orders nodes by a number, a segment that malloc gives is none of those in
    -- use, and the node is not in the heap, Heap_InsertNode leaves a heap: of the nodes that there
    -- were and, if it returns true, the new one. It returns true whenever a slot is free.
    pub insert_node-IsHeap :
        (h : Heap) (node : ℕ) (malloc : Option ℕ)
        → IsHeap rank h
        → contains h node ≡ false
        → IsFresh h malloc
        → let (ok, r) = insert_node compare_nodes realloc h node malloc in
          IsHeap rank r
          × ((a : ℕ) → contains r a ≡ ((ok && (a == node)) || contains h a))
          × (h.number_of_nodes < h.number_of_slots → ok ≡ true)
    unfolding insert_node
    insert_node-IsHeap h node malloc w new fresh =
        let v = roomy-HasRoom h malloc w fresh in
        let r = (roomy h malloc).1 in
        let free : h.number_of_nodes < h.number_of_slots → (roomy h malloc).0 ≡ true = λ p.
          let e : (h.number_of_nodes == h.number_of_slots) ≡ false = ground (arith, p) in
          rw e refl in
        elim (Bool-cases (roomy h malloc).0) [
          | inl e ↦
              let s = appended r node v.whole (v.room e) (v.same node ∙ new) in
              rw e (
                Sifted-IsHeap rank _ _ _ _ s,
                λ a.
                    Sifted-contains rank _ _ _ _ s a
                    ∙ held r node a v.whole
                    ∙ ap (λ b. (a == node) || b) (v.same a),
                λ p. refl,
              )
          | inr e ↦ rw e (v.whole, v.same, λ p. absurd (ground (arith, e, free p)))
        ]
      where
        held :
            (r : Heap) (node a : ℕ)
            → IsHeap rank r
            → is_held
                (update (get_slot r) r.number_of_nodes node)
                (update r.slot_number node r.number_of_nodes)
                (r.number_of_nodes + 1)
                a
              ≡ ((a == node) || contains r a)
        held r node a u = ground arith
