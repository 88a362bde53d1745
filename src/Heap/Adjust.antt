-- ===== src/Heap/Adjust.antt =====
-- Heap_AdjustNode, once the rank of one node has changed.
use pixy.Base.{
  ℕ, zero, suc, ◌<◌, ◌≤◌, ◌≡◌, refl, ◌∙◌, arith, inl, inr, ◌==◌, ltb, leb, if◌then◌else◌,
  Bool-cases, true, false, ◌&&◌, sym, subst, ap,
}
use pixy.Base.Int.{ℤ, pos, ltb_ℤ}
use pixy.Heap.{Heap, get_slot, put_node, sift_up, sift_node_up, sift_node_down, adjust_node}
use pixy.Heap.Stored.{get_slot-put_node, HasLayout, update, put_node-HasLayout, put_node-Views}
use pixy.Heap.Order.{parent, IsBacked, IsSkipping}
use pixy.Heap.Sift.{IsComparer, Sifted}
use pixy.Heap.Whole.{
  restored, IsHeap, contains, Sifted-IsHeap, Sifted-contains, sift_node_up-Sifted,
  sift_node_down-Sifted,
}

-- The node at `x` may be out of order, and the others are in order, also across `x`.
pub record IsHeapBut (rank : ℕ → ℕ) (h : Heap) (x : ℕ) : Type 0 where
  pub layout : HasLayout h
  pub ordered :
      (i : ℕ)
      → 1 ≤ i
      → i < h.number_of_nodes
      → (i == x) ≡ false
      → (parent i == x) ≡ false
      → rank (get_slot h (parent i)) ≤ rank (get_slot h i)
  pub skips : IsSkipping rank (get_slot h) h.number_of_nodes x
  pub backed : IsBacked (get_slot h) h.slot_number h.number_of_nodes

module _ (compare_nodes : ℕ → ℕ → ℤ) (rank : ℕ → ℕ) (law : IsComparer compare_nodes rank) where
  -- the loop ends at once
  sift_up-stays :
      (fuel x node : ℕ) (h : Heap)
      → (1 ≤ x → rank (get_slot h (parent x)) ≤ rank node)
      → sift_up compare_nodes fuel x node h ≡ put_node h x node x
  unfolding sift_up
  sift_up-stays zero x node h stays = refl
  sift_up-stays (suc fuel) x node h stays =
      let other = get_slot h (parent x) in
      let e : (leb 1 x && ltb_ℤ (compare_nodes node other) (pos 0)) ≡ false =
        ground (arith, stays, law.less node other) in
      rw e refl

  module _ (h : Heap) (x : ℕ) (b : IsHeapBut rank h x) (inside : x < h.number_of_nodes) where
    abbrev n : ℕ
    n = h.number_of_nodes

    abbrev node : ℕ
    node = get_slot h x

    back : h.slot_number node ≡ x
    back = b.backed x inside

    -- what Heap_AdjustNode does once the node is sifted up
    abbrev go_down : Heap → Heap
    go_down r = if get_slot r x == node then sift_node_down compare_nodes r x else r

    rises :
        1 ≤ x
        → rank node < rank (get_slot h (parent x))
        → Sifted rank (go_down (sift_node_up compare_nodes h x)) n (get_slot h) h.slot_number
    rises p less =
        let raised = sift_node_up compare_nodes h x in
        let s =
          sift_node_up-Sifted compare_nodes rank law h n x (get_slot h) b.layout refl inside
            (λ i q. refl) b.backed
            (record {
              order = λ i a c d. ground (arith, less, b.ordered i a c d, b.skips i p a c);
              skips = b.skips;
            }) in
        elim (Bool-cases (get_slot raised x == node)) [
          | inl e ↦
              let t =
                sift_node_down-Sifted compare_nodes rank law raised n x s.view s.layout s.nodes
                  inside s.views s.backed
                  (record {
                    order = λ i a c d. s.ordered i a c;
                    skips = λ i a c d f. ground (arith, s.ordered i c d, s.ordered x a inside);
                  }) in
              rw e (record {
                layout = t.layout;
                nodes = t.nodes;
                view = t.view;
                views = t.views;
                ordered = t.ordered;
                backed = t.backed;
                held = λ a. t.held a ∙ s.held a;
              })
          | inr e ↦ rw e s
        ]

    stays_or_falls :
        (1 ≤ x → rank (get_slot h (parent x)) ≤ rank node)
        → Sifted rank (go_down (put_node h x node x)) n (get_slot h) h.slot_number
    unfolding put_node
    stays_or_falls stays =
        let raised = put_node h x node x in
        let e : get_slot raised x ≡ node = ground (
          arith,
          get_slot-put_node h b.layout x x node x (omega (arith, b.layout.nodes, inside))
              (omega (arith, b.layout.nodes, inside)),
        ) in
        let f : (get_slot raised x == node) ≡ true = ground (arith, e) in
        let t =
          sift_node_down-Sifted compare_nodes rank law raised n x (update (get_slot h) x node)
            (put_node-HasLayout h b.layout x node x) refl inside
            (put_node-Views h b.layout n x node x (get_slot h) b.layout.nodes inside (λ i q. refl))
            (λ i q. ground (arith, back, b.backed i q))
            (record {
              order = λ i a c d. ground (arith, stays, b.ordered i a c);
              skips = λ i a c d g. ground (arith, b.skips i a c d g);
            }) in
        rw f (restored compare_nodes rank law _ n x node (get_slot h) h.slot_number refl back t)

    stays :
        (1 ≤ x → rank (get_slot h (parent x)) ≤ rank node)
        → sift_node_up compare_nodes h x ≡ put_node h x node x
    unfolding sift_node_up
    stays above = rw back (sift_up-stays x x node h above)

    go_down-Sifted :
        Sifted rank (go_down (sift_node_up compare_nodes h x)) n (get_slot h) h.slot_number
    go_down-Sifted = elim (Bool-cases (leb 1 x && ltb (rank node) (rank (get_slot h (parent x))))) [
      | inl e ↦ rises (ground (arith, e)) (ground (arith, e))
      | inr e ↦
          let above : 1 ≤ x → rank (get_slot h (parent x)) ≤ rank node = λ p. ground (arith, e) in
          subst (λ r. Sifted rank (go_down r) n (get_slot h) h.slot_number) (sym (stays above))
            (stays_or_falls above)
    ]

  -- Where the comparer orders nodes by a number, Heap_AdjustNode, of a node of a heap in which it alone
  -- may be out of order, leaves a heap of the same nodes.
  pub adjust_node-IsHeap :
      (h : Heap) (node : ℕ)
      → IsHeapBut rank h (h.slot_number node)
      → contains h node ≡ true
      → IsHeap rank (adjust_node compare_nodes h node)
        × ((a : ℕ) → contains (adjust_node compare_nodes h node) a ≡ contains h a)
  unfolding adjust_node
  adjust_node-IsHeap h node b member =
      let x = h.slot_number node in
      let inside : x < h.number_of_nodes = ground (arith, member) in
      let at_x : get_slot h x ≡ node = ground (arith, member) in
      let run =
        ap
          (λ p.
            if get_slot (sift_node_up compare_nodes h x) x == p
            then sift_node_down compare_nodes (sift_node_up compare_nodes h x) x
            else sift_node_up compare_nodes h x)
          (sym at_x) in
      let s =
        subst (λ r. Sifted rank r h.number_of_nodes (get_slot h) h.slot_number) (sym run)
          (go_down-Sifted h x b inside) in
      (Sifted-IsHeap rank _ _ _ _ s, Sifted-contains rank _ _ _ _ s)
