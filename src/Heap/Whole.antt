-- ===== src/Heap/Whole.antt =====
-- A whole heap between two operations, the nodes in it, its top, and the two sifts as operations on it.
use pixy.Base.{
  ℕ, zero, suc, ◌<◌, ◌≤◌, ◌≡◌, ◌⊎◌, arith, inl, inr, ◌==◌, Bool-cases, Bool, true, none, some,
}
use pixy.Base.Int.{ℤ}
use pixy.Heap.{Heap, get_slot, get_top, locate_slot, sift_node_up, sift_node_down}
use pixy.Heap.Stored.{HasLayout, update, Views}
use pixy.Heap.Order.{parent, IsBacked, is_held, IsOrdered, IsUpTo, IsDownTo}
use pixy.Heap.Sift.{IsComparer, Sifted, sift_up-Sifted}
use pixy.Heap.Down.{sift_down-Sifted}

-- The nodes are in the order of a binary heap, and each knows its slot.
pub record IsHeap (rank : ℕ → ℕ) (h : Heap) : Type 0 where
  pub layout : HasLayout h
  pub ordered : IsOrdered rank (get_slot h) h.number_of_nodes
  pub backed : IsBacked (get_slot h) h.slot_number h.number_of_nodes

-- whether a node is in the heap
abbrev pub contains : Heap → ℕ → Bool
contains h a = is_held (get_slot h) h.slot_number h.number_of_nodes a

module _ (rank : ℕ → ℕ) (h : Heap) (n : ℕ) (g numbers : ℕ → ℕ) where
  pub Sifted-IsHeap : Sifted rank h n g numbers → IsHeap rank h
  Sifted-IsHeap s = record {
    layout = s.layout;
    ordered = λ i p q. ground (
      arith,
      s.nodes,
      s.ordered i p,
      s.views i (omega (arith, s.nodes)),
      s.views (parent i) (omega (arith, s.nodes)),
    );
    backed = λ i p.
        ground (arith, s.backed i (omega (arith, s.nodes)), s.views i (omega (arith, s.nodes)));
  }

  pub Sifted-contains : Sifted rank h n g numbers → (a : ℕ) → contains h a ≡ is_held g numbers n a
  Sifted-contains s a = ground (arith, s.nodes, s.held a, s.views (h.slot_number a))

module _ (compare_nodes : ℕ → ℕ → ℤ) (rank : ℕ → ℕ) (law : IsComparer compare_nodes rank) where
  -- to put a node where it is changes nothing
  pub restored :
      (r : Heap) (n x node : ℕ) (g numbers : ℕ → ℕ)
      → node ≡ g x
      → numbers node ≡ x
      → Sifted rank r n (update g x node) (update numbers node x)
      → Sifted rank r n g numbers
  restored r n x node g numbers same back s = record {
    layout = s.layout;
    nodes = s.nodes;
    view = s.view;
    views = s.views;
    ordered = s.ordered;
    backed = s.backed;
    held = λ a. ground (arith, s.held a, same, back);
  }

  module _ (h : Heap) (n x : ℕ) (g : ℕ → ℕ) (layout : HasLayout h) (nodes : h.number_of_nodes ≡ n)
      (p : x < n) (views : Views h n g) (backed : IsBacked g h.slot_number n) where
    same : get_slot h x ≡ g x
    same = views x p

    back : h.slot_number (get_slot h x) ≡ x
    back = ground (arith, same, backed x p)

    kept-IsBacked : IsBacked (update g x (get_slot h x)) (update h.slot_number (get_slot h x) x) n
    kept-IsBacked i q = ground (arith, same, back, backed i q)

    pub sift_node_up-Sifted :
        IsUpTo rank g n x → Sifted rank (sift_node_up compare_nodes h x) n g h.slot_number
    unfolding sift_node_up
    sift_node_up-Sifted u = rw back (
        restored _ n x (get_slot h x) g h.slot_number same back (
          sift_up-Sifted compare_nodes rank law x x (get_slot h x) n h g (omega arith) p layout
            nodes views
            (record {
              order = λ i a b c. ground (arith, same, u.order i a b c);
              skips = λ i a b c d. ground (arith, same, u.skips i a b c d);
            })
            kept-IsBacked))

    pub sift_node_down-Sifted :
        IsDownTo rank g n x → Sifted rank (sift_node_down compare_nodes h x) n g h.slot_number
    unfolding sift_node_down
    sift_node_down-Sifted u = rw back (
        restored _ n x (get_slot h x) g h.slot_number same back (
          sift_down-Sifted compare_nodes rank law h.number_of_nodes x (get_slot h x) n h g
            (omega (arith, nodes)) p layout nodes views
            (record {
              order = λ i a b c. ground (arith, same, u.order i a b c);
              skips = λ i a b c d. ground (arith, same, u.skips i a b c d);
            })
            kept-IsBacked))

-- The top is below every slot in use.
least :
    (rank : ℕ → ℕ) (g : ℕ → ℕ) (n fuel i : ℕ)
    → IsOrdered rank g n
    → i ≤ fuel
    → i < n
    → rank (g 0) ≤ rank (g i)
least rank g n zero zero o p q = omega arith
least rank g n zero (suc i) o p q = absurd (omega arith)
least rank g n (suc fuel) zero o p q = omega arith
least rank g n (suc fuel) (suc i) o p q = omega (
  arith,
  least rank g n fuel (parent (suc i)) o (omega arith) (omega arith),
  o (suc i) (omega arith) q,
)

-- Of a whole heap, Heap_GetTop gives nothing and the heap is empty, or it gives a node of the heap
-- that no other node of it is below.
pub get_top-least :
    (rank : ℕ → ℕ) (h : Heap)
    → IsHeap rank h
    → ((get_top h ≡ none) × (h.number_of_nodes ≡ 0))
      ⊎ ((t : ℕ) × (get_top h ≡ some t)
          × (contains h t ≡ true)
          × ((a : ℕ) → contains h a ≡ true → rank t ≤ rank a))
unfolding get_top get_slot locate_slot
get_top-least rank h w = elim (Bool-cases (h.number_of_nodes == 0)) [
  | inl e ↦ inl (ground (arith, e), ground (arith, e))
  | inr e ↦ inr (
    get_slot h 0,
    ground (arith, e),
    ground (arith, e, w.backed 0),
    λ a c. ground (
      arith,
      c,
      least rank (get_slot h) h.number_of_nodes (h.slot_number a) (h.slot_number a) w.ordered,
    ),
  )
]
