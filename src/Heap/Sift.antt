-- ===== src/Heap/Sift.antt =====
-- Heap_SiftNodeUp: the loop ends with the order of a heap, and holds the nodes that it held.
use pixy.Base.{
  ℕ, zero, suc, ◌<◌, ◌≤◌, ◌≡◌, refl, ◌∙◌, arith, inl, inr, ◌==◌, ltb, leb, Bool-cases, false, ◌&&◌,
}
use pixy.Base.Int.{ℤ, pos, ltb_ℤ}
use pixy.Heap.{Heap, get_slot, put_node, sift_up}
use pixy.Heap.Stored.{HasLayout, update, Views, put_node-HasLayout, put_node-Views}
use pixy.Heap.Order.{
  parent, IsBacked, is_held, IsOrdered, IsUpTo, up_step, up_end, swap-IsBacked, swap-is_held,
}

-- What the code relies on in a comparer: it orders the nodes by a number of theirs.
pub record IsComparer (compare_nodes : ℕ → ℕ → ℤ) (rank : ℕ → ℕ) : Type 0 where
  pub less : (a b : ℕ) → ltb_ℤ (compare_nodes a b) (pos 0) ≡ ltb (rank a) (rank b)
  pub greater : (a b : ℕ) → ltb_ℤ (pos 0) (compare_nodes a b) ≡ ltb (rank b) (rank a)

-- A heap of `n` nodes, in order, that holds what `g` and `numbers` hold.
pub record Sifted (rank : ℕ → ℕ) (h : Heap) (n : ℕ) (g numbers : ℕ → ℕ) : Type 0 where
  pub layout : HasLayout h
  pub nodes : h.number_of_nodes ≡ n
  pub view : ℕ → ℕ
  pub views : Views h n view
  pub ordered : IsOrdered rank view n
  pub backed : IsBacked view h.slot_number n
  pub held : (a : ℕ) → is_held view h.slot_number n a ≡ is_held g numbers n a

-- the loop's end: `node` is put at `x`
pub put_node-Sifted :
    (rank : ℕ → ℕ) (h : Heap) (n x node : ℕ) (g : ℕ → ℕ)
    → HasLayout h
    → h.number_of_nodes ≡ n
    → x < n
    → Views h n g
    → IsOrdered rank (update g x node) n
    → IsBacked (update g x node) (update h.slot_number node x) n
    → Sifted rank (put_node h x node x) n (update g x node) (update h.slot_number node x)
unfolding put_node
put_node-Sifted rank h n x node g layout nodes p views ordered backed = record {
  layout = put_node-HasLayout h layout x node x;
  nodes = nodes;
  view = update g x node;
  views = put_node-Views h layout n x node x g (omega (arith, layout.nodes)) p views;
  ordered = ordered;
  backed = backed;
  held = λ a. refl;
}

-- a Sifted state that came by exchanging `node` with the node at `y`
pub swap-Sifted :
    (rank : ℕ → ℕ) (h : Heap) (n x y node other : ℕ) (g numbers : ℕ → ℕ)
    → x < n
    → y < n
    → (x == y) ≡ false
    → other ≡ g y
    → IsBacked (update g x node) (update numbers node x) n
    → Sifted rank h n (update (update g x other) y node) (update (update numbers other x) node y)
    → Sifted rank h n (update g x node) (update numbers node x)
swap-Sifted rank h n x y node other g numbers p q apart same b s = record {
  layout = s.layout;
  nodes = s.nodes;
  view = s.view;
  views = s.views;
  ordered = s.ordered;
  backed = s.backed;
  held = λ a. s.held a ∙ swap-is_held g numbers n x y node other p q apart same b a;
}

module _ (compare_nodes : ℕ → ℕ → ℤ) (rank : ℕ → ℕ) (law : IsComparer compare_nodes rank) where
  pub sift_up-Sifted :
      (fuel x node n : ℕ) (h : Heap) (g : ℕ → ℕ)
      → x ≤ fuel
      → x < n
      → HasLayout h
      → h.number_of_nodes ≡ n
      → Views h n g
      → IsUpTo rank (update g x node) n x
      → IsBacked (update g x node) (update h.slot_number node x) n
      → Sifted rank
          (sift_up compare_nodes fuel x node h)
          n
          (update g x node)
          (update h.slot_number node x)
  unfolding sift_up put_node
  sift_up-Sifted zero x node n h g enough p layout nodes views u b =
      put_node-Sifted rank h n x node g layout nodes p views
        (up_end rank (update g x node) n x (λ q. absurd (omega arith)) u) b
  sift_up-Sifted (suc fuel) x node n h g enough p layout nodes views u b =
      let other = get_slot h (parent x) in
      elim (Bool-cases (leb 1 x && ltb_ℤ (compare_nodes node other) (pos 0))) [
        | inl e ↦
            let q : 1 ≤ x = ground (arith, e) in
            let less : rank node < rank other = ground (arith, e, law.less node other) in
            let apart : (x == parent x) ≡ false = ground (arith, q) in
            let same : other ≡ g (parent x) = views (parent x) (omega arith) in
            rw e (
              swap-Sifted rank _ n x (parent x) node other g h.slot_number p (omega arith) apart
                same b
                (sift_up-Sifted fuel (parent x) node n (put_node h x other x) (update g x other)
                  (omega arith) (omega arith) (put_node-HasLayout h layout x other x) nodes
                  (put_node-Views h layout n x other x g (omega (arith, layout.nodes)) p views)
                  (up_step rank g n x node other same q p less u)
                  (swap-IsBacked g h.slot_number n x (parent x) node other p (omega arith) apart
                    same b)))
        | inr e ↦ rw e (
            put_node-Sifted rank h n x node g layout nodes p views
              (up_end rank (update g x node) n x
                (λ q. ground (arith, e, law.less node other, views (parent x) (omega arith))) u)
              b)
      ]
