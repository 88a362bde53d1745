-- ===== src/Heap/Order.antt =====
-- The order of a binary heap, and the two ways in which it may fail at the one slot that is sifted. The nodes in
-- slot order are a function `g`, their slot numbers a function `numbers`.
use pixy.Base.{
  ℕ, ◌-◌, ◌/◌, ◌<◌, ◌≤◌, ◌≡◌, arith, inl, inr, ◌==◌, ltb, Bool-cases, Bool, false, ◌&&◌,
}
use pixy.Heap.Stored.{update}

abbrev pub parent : ℕ → ℕ
parent i = (i - 1) / 2

-- each node in use knows its slot
abbrev pub IsBacked : (ℕ → ℕ) → (ℕ → ℕ) → ℕ → Type 0
IsBacked g numbers n = (i : ℕ) → i < n → numbers (g i) ≡ i

-- whether a node is in one of the slots in use
abbrev pub is_held : (ℕ → ℕ) → (ℕ → ℕ) → ℕ → ℕ → Bool
is_held g numbers n p = ltb (numbers p) n && (g (numbers p) == p)

module _ (rank : ℕ → ℕ) where
  abbrev pub IsOrdered : (ℕ → ℕ) → ℕ → Type 0
  IsOrdered g n = (i : ℕ) → 1 ≤ i → i < n → rank (g (parent i)) ≤ rank (g i)

  -- the nodes below `x` are not below what is above `x`
  abbrev pub IsSkipping : (ℕ → ℕ) → (n x : ℕ) → Type 0
  IsSkipping g n x =
      (i : ℕ) → 1 ≤ x → 1 ≤ i → i < n → parent i ≡ x → rank (g (parent x)) ≤ rank (g i)

  -- ordered but for `x` and what is above it
  pub record IsUpTo (g : ℕ → ℕ) (n x : ℕ) : Type 0 where
    pub order : (i : ℕ) → 1 ≤ i → i < n → (i == x) ≡ false → rank (g (parent i)) ≤ rank (g i)
    pub skips : IsSkipping g n x

  -- ordered but for `x` and what is below it
  pub record IsDownTo (g : ℕ → ℕ) (n x : ℕ) : Type 0 where
    pub order : (i : ℕ) → 1 ≤ i → i < n → (parent i == x) ≡ false → rank (g (parent i)) ≤ rank (g i)
    pub skips : IsSkipping g n x

  -- `x` takes the node of its parent `y`, and the sifted node goes to `y`
  pub up_step :
      (g : ℕ → ℕ) (n x node other : ℕ)
      → other ≡ g (parent x)
      → 1 ≤ x
      → x < n
      → rank node < rank other
      → IsUpTo (update g x node) n x
      → IsUpTo (update (update g x other) (parent x) node) n (parent x)
  up_step g n x node other same p q less u = record {
    order =
        λ i a b c. ground (arith, same, less, u.order i a b, u.skips i p a b, u.order (parent x));
    skips = λ i a b c e.
        ground (arith, same, less, u.order i b c, u.skips i p b c, u.order (parent x) a);
  }

  -- `x` takes the node of the lesser slot `y` below it, and the sifted node goes to `y`
  pub down_step :
      (g : ℕ → ℕ) (n x y node other : ℕ)
      → other ≡ g y
      → 1 ≤ y
      → y < n
      → parent y ≡ x
      → ((i : ℕ) → 1 ≤ i → i < n → parent i ≡ x → rank other ≤ rank (g i))
      → rank other < rank node
      → IsDownTo (update g x node) n x
      → IsDownTo (update (update g x other) y node) n y
  down_step g n x y node other same p q e least less u = record {
    order = λ i a b c. ground (arith, same, less, e, least i a b, u.order i a b, u.skips y);
    skips = λ i a b c f. ground (arith, same, less, e, least i b c, u.order i b c);
  }

  -- a node that is not below the one above it
  pub up_end :
      (g : ℕ → ℕ) (n x : ℕ)
      → (1 ≤ x → rank (g (parent x)) ≤ rank (g x))
      → IsUpTo g n x
      → IsOrdered g n
  up_end g n x h u i p q = elim (Bool-cases (i == x)) [
    | inl e ↦ ground (arith, h, e)
    | inr e ↦ u.order i p q e
  ]

  -- a node that is not above those below it
  pub down_end :
      (g : ℕ → ℕ) (n x : ℕ)
      → ((i : ℕ) → 1 ≤ i → i < n → parent i ≡ x → rank (g x) ≤ rank (g i))
      → IsDownTo g n x
      → IsOrdered g n
  down_end g n x h u i p q = elim (Bool-cases (parent i == x)) [
    | inl e ↦ ground (arith, h i p q, e)
    | inr e ↦ u.order i p q e
  ]

-- The sifted node and the one that it changes places with are held as before.
module _ (g numbers : ℕ → ℕ) (n x y node other : ℕ) (p : x < n) (q : y < n)
    (apart : (x == y) ≡ false) (same : other ≡ g y) where
  pub swap-IsBacked :
      IsBacked (update g x node) (update numbers node x) n
      → IsBacked (update (update g x other) y node) (update (update numbers other x) node y) n
  swap-IsBacked b i r = ground (arith, apart, same, b i r, b x p, b y q)

  pub swap-is_held :
      IsBacked (update g x node) (update numbers node x) n
      → (a : ℕ)
      → is_held (update (update g x other) y node) (update (update numbers other x) node y) n a
        ≡ is_held (update g x node) (update numbers node x) n a
  swap-is_held b a = ground (arith, apart, same, b x p, b y q)
