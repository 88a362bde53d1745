-- ===== src/Heap/Remove.antt =====
-- Heap_RemoveNode and Heap_AdjustNode.
use pixy.Base.{
  ℕ, suc, ◌-◌, ◌<◌, ◌≤◌, ◌≡◌, refl, ◌∙◌, arith, inl, inr, ◌==◌, if◌then◌else◌, Bool-cases, true,
  not, ◌&&◌,
}
use pixy.Base.Int.{ℤ, pos, ltb_ℤ, ◌==ℤ◌}
use pixy.Heap.{Heap, get_slot, put_node, sift_node_up, sift_node_down, remove_node}
use pixy.Heap.Stored.{get_slot-put_node, HasLayout, update, Views, put_node-Views}
use pixy.Heap.Order.{parent, IsBacked, is_held, IsOrdered, IsUpTo, IsDownTo}
use pixy.Heap.Sift.{IsComparer, Sifted}
use pixy.Heap.Whole.{
  IsHeap, contains, Sifted-IsHeap, Sifted-contains, sift_node_up-Sifted, sift_node_down-Sifted,
}

module _ (compare_nodes : ℕ → ℕ → ℤ) (rank : ℕ → ℕ) (law : IsComparer compare_nodes rank) where
  -- the last node of `h` is put at `x`, in the place of `node`
  module _ (h : Heap) (w : IsHeap rank h) (node x last : ℕ) (nodes : h.number_of_nodes ≡ suc last)
      (inside : x < suc last) (at_x : get_slot h x ≡ node) (back : h.slot_number node ≡ x) where
    abbrev moved : ℕ
    moved = get_slot h last

    abbrev view : ℕ → ℕ
    view = update (get_slot h) x moved

    abbrev filled : Heap
    filled = record (put_node h x moved x) { number_of_nodes = last }

    filled-HasLayout : HasLayout filled
    unfolding put_node
    filled-HasLayout = record {
      slots = w.layout.slots;
      distinct = w.layout.distinct;
      nodes = omega (arith, nodes, w.layout.nodes);
    }

    filled-Views : Views filled last view
    unfolding put_node get_slot
    filled-Views i p =
        put_node-Views h w.layout (suc last) x moved x (get_slot h)
          (omega (arith, nodes, w.layout.nodes)) inside (λ j q. refl) i (omega arith)

    filled-IsBacked : IsBacked view filled.slot_number last
    unfolding put_node
    filled-IsBacked i p = ground (
      arith,
      w.backed i (omega (arith, nodes)),
      w.backed last (omega (arith, nodes)),
      w.backed x (omega (arith, nodes)),
    )

    filled-is_held :
        (a : ℕ) → is_held view filled.slot_number last a ≡ (contains h a && not (a == node))
    unfolding put_node
    filled-is_held a =
        ground (arith, nodes, at_x, back, inside, w.backed last (omega (arith, nodes)))

    ordered : (i : ℕ) → 1 ≤ i → i < suc last → rank (get_slot h (parent i)) ≤ rank (get_slot h i)
    ordered i p q = w.ordered i p (omega (arith, nodes))

    -- the moved node is not above the removed one
    filled-IsUpTo : rank moved ≤ rank node → IsUpTo rank view last x
    filled-IsUpTo less = record {
      order = λ i a b c. ground (arith, at_x, less, ordered i a (omega arith));
      skips =
          λ i a b c d. ground (arith, at_x, less, ordered i b (omega arith), ordered x a inside);
    }

    -- the moved node is not below the removed one
    filled-IsDownTo : rank node ≤ rank moved → IsDownTo rank view last x
    filled-IsDownTo more = record {
      order = λ i a b c. ground (arith, at_x, more, ordered i a (omega arith));
      skips =
          λ i a b c d. ground (arith, at_x, more, ordered i b (omega arith), ordered x a inside);
    }

    filled-IsOrdered : rank moved ≡ rank node → IsOrdered rank view last
    filled-IsOrdered same i p q = ground (arith, at_x, same, ordered i p (omega arith))

    at_slot : get_slot filled x ≡ moved
    unfolding put_node get_slot
    at_slot = ground (
      arith,
      get_slot-put_node h w.layout x x moved x (omega (arith, nodes, w.layout.nodes))
          (omega (arith, nodes, w.layout.nodes)),
    )

    removed : Heap
    removed =
        let delta = compare_nodes (get_slot filled x) node in
        if delta ==ℤ pos 0
        then filled
        else (if ltb_ℤ delta (pos 0)
            then sift_node_up compare_nodes filled x
            else sift_node_down compare_nodes filled x)

    removed-Sifted : Sifted rank removed last view filled.slot_number
    unfolding removed
    removed-Sifted =
        let delta = compare_nodes (get_slot filled x) node in
        let less = law.less (get_slot filled x) node in
        let greater = law.greater (get_slot filled x) node in
        elim (Bool-cases (delta ==ℤ pos 0)) [
          | inl e ↦ rw e (record {
            layout = filled-HasLayout;
            nodes = refl;
            view = view;
            views = filled-Views;
            ordered = filled-IsOrdered (ground (arith, e, at_slot, less, greater));
            backed = filled-IsBacked;
            held = λ a. refl;
          })
          | inr e ↦
              let p : x < last = ground (arith, e, at_slot, less, greater, at_x, inside) in
              elim (Bool-cases (ltb_ℤ delta (pos 0))) [
                | inl f ↦
                    rw (e, f)
                      (sift_node_up-Sifted compare_nodes rank law filled last x view
                        filled-HasLayout refl p filled-Views filled-IsBacked
                        (filled-IsUpTo (ground (arith, e, f, at_slot, less))))
                | inr f ↦
                    rw (e, f)
                      (sift_node_down-Sifted compare_nodes rank law filled last x view
                        filled-HasLayout refl p filled-Views filled-IsBacked
                        (filled-IsDownTo (ground (arith, e, f, at_slot, less))))
              ]
        ]

  -- Where the comparer orders nodes by a number, Heap_RemoveNode, of a node of a heap, leaves a heap of
  -- the other nodes, one fewer.
  pub remove_node-IsHeap :
      (h : Heap) (node : ℕ)
      → IsHeap rank h
      → contains h node ≡ true
      → IsHeap rank (remove_node compare_nodes h node)
        × ((a : ℕ)
            → contains (remove_node compare_nodes h node) a ≡ (contains h a && not (a == node)))
        × ((remove_node compare_nodes h node).number_of_nodes ≡ h.number_of_nodes - 1)
  unfolding remove_node removed
  remove_node-IsHeap h node w member =
      let inside : h.slot_number node < h.number_of_nodes = ground (arith, member) in
      let at_x : get_slot h (h.slot_number node) ≡ node = ground (arith, member) in
      let last = h.number_of_nodes - 1 in
      let nodes : h.number_of_nodes ≡ suc last = omega arith in
      let s = removed-Sifted h w node (h.slot_number node) last nodes (omega arith) at_x refl in
      let n = filled-is_held h w node (h.slot_number node) last nodes (omega arith) at_x refl in
      (Sifted-IsHeap rank _ last _ _ s, λ a. Sifted-contains rank _ last _ _ s a ∙ n a, s.nodes)
