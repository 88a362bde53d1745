-- ===== src/Heap/Down.antt =====
-- Heap_SiftNodeDown: the loop ends with the order of a heap, and holds the nodes that it held.
use pixy.Base.{
  ℕ, zero, suc, ◌+◌, ◌*◌, ◌<◌, ◌≤◌, ◌≡◌, ◌⊎◌, arith, inl, inr, ◌==◌, ltb, Bool-cases, false, ◌&&◌,
}
use pixy.Base.Int.{ℤ, pos, ltb_ℤ}
use pixy.Heap.{Heap, get_slot, put_node, lesser_slot, sift_down}
use pixy.Heap.Stored.{HasLayout, update, Views, put_node-HasLayout, put_node-Views}
use pixy.Heap.Order.{parent, IsBacked, IsDownTo, down_step, down_end, swap-IsBacked}
use pixy.Heap.Sift.{IsComparer, Sifted, put_node-Sifted, swap-Sifted}

-- `y` is a slot in use below `x`, and no other such slot has a lower node
pub record IsLesser (rank : ℕ → ℕ) (h : Heap) (g : ℕ → ℕ) (x y : ℕ) : Type 0 where
  pub inside : y < h.number_of_nodes
  pub positive : 1 ≤ y
  pub below : parent y ≡ x
  pub least :
      (i : ℕ) → 1 ≤ i → i < h.number_of_nodes → parent i ≡ x → rank (get_slot h y) ≤ rank (g i)

module _ (compare_nodes : ℕ → ℕ → ℤ) (rank : ℕ → ℕ) (law : IsComparer compare_nodes rank) where
  lesser_slot-IsLesser :
      (h : Heap) (g : ℕ → ℕ) (x : ℕ)
      → Views h h.number_of_nodes g
      → 2 * x + 1 < h.number_of_nodes
      → IsLesser rank h g x (lesser_slot compare_nodes h (2 * x + 1))
  unfolding lesser_slot
  lesser_slot-IsLesser h g x views p =
      let y = 2 * x + 1 in
      let first = views y p in
      let ranks = law.less (get_slot h (y + 1)) (get_slot h y) in
      elim (Bool-cases (
        ltb (y + 1) h.number_of_nodes
        && ltb_ℤ (compare_nodes (get_slot h (y + 1)) (get_slot h y)) (pos 0))) [
          | inl e ↦ rw e (record {
            inside = ground (arith, e);
            positive = omega arith;
            below = omega arith;
            least = λ i a b c. ground (arith, e, first, ranks, views i b, two i a c);
          })
          | inr e ↦ rw e (record {
            inside = p;
            positive = omega arith;
            below = omega arith;
            least = λ i a b c. ground (arith, e, first, ranks, views i b, two i a c);
          })
        ]
    where
      two : (i : ℕ) → 1 ≤ i → parent i ≡ x → (i ≡ 2 * x + 1) ⊎ (i ≡ 2 * x + 1 + 1)
      two i a c = ground arith

  pub sift_down-Sifted :
      (fuel x node n : ℕ) (h : Heap) (g : ℕ → ℕ)
      → n ≤ fuel + x
      → x < n
      → HasLayout h
      → h.number_of_nodes ≡ n
      → Views h n g
      → IsDownTo rank (update g x node) n x
      → IsBacked (update g x node) (update h.slot_number node x) n
      → Sifted rank
          (sift_down compare_nodes fuel x node h)
          n
          (update g x node)
          (update h.slot_number node x)
  unfolding sift_down put_node
  sift_down-Sifted zero x node n h g enough p layout nodes views u b = absurd (omega arith)
  sift_down-Sifted (suc fuel) x node n h g enough p layout nodes views u b =
      let y = lesser_slot compare_nodes h (2 * x + 1) in
      let other = get_slot h y in
      let lesser = λ (r : 2 * x + 1 < h.number_of_nodes).
        lesser_slot-IsLesser h g x (λ i q. views i (omega (arith, nodes))) r in
      elim (Bool-cases
        (ltb (2 * x + 1) h.number_of_nodes && ltb_ℤ (pos 0) (compare_nodes node other))) [
          | inl e ↦
              let l = lesser (ground (arith, e)) in
              let q : y < n = omega (arith, l.inside, nodes) in
              let less : rank other < rank node = ground (arith, e, law.greater node other) in
              let apart : (x == y) ≡ false = ground (arith, l.positive, l.below) in
              let same : other ≡ g y = views y q in
              rw e (
                swap-Sifted rank _ n x y node other g h.slot_number p q apart same b (
                  sift_down-Sifted fuel y node n (put_node h x other x) (update g x other)
                    (omega (arith, l.positive, l.below)) q (put_node-HasLayout h layout x other x)
                    nodes
                    (put_node-Views h layout n x other x g (omega (arith, layout.nodes)) p views)
                    (down_step rank g n x y node other same l.positive q l.below
                      (λ i a c d. l.least i a (omega (arith, nodes)) d) less u)
                    (swap-IsBacked g h.slot_number n x y node other p q apart same b)))
          | inr e ↦ rw e (
              put_node-Sifted rank h n x node g layout nodes p views
                (down_end rank (update g x node) n x
                  (λ i a c d.
                    let l = lesser (omega (arith, nodes)) in
                    ground (
                      arith,
                      e,
                      nodes,
                      law.greater node other,
                      l.least i a (omega (arith, nodes)) d,
                    ))
                  u)
                b)
        ]
