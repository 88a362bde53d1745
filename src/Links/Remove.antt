-- ===== src/Links/Remove.antt =====
-- Removal of an item, and the test on its neighbours by which the callers see that the list has
-- become empty.
use pixy.Base.{ℕ, ◌≡◌, false, Bool, true, List, [], ◌∷◌, ◌++◌, arith, ◌==◌}
use pixy.Base.Lists.{has, IsDistinct, has-append}
use pixy.Links.{Links, set_prev, set_next, remove, get_prev, get_next, is_empty}
use pixy.Links.Ring.{
  Segment, IsRing, last, first, next-first, prev-last, Segment-split, frame, last-has, last-out,
  IsDistinct-split,
}

-- The item's neighbours linked to each other.
abbrev bridge : ℕ → ℕ → Links → Links
bridge p n s = set_prev n p (set_next p n s)

first-out : (p b : ℕ) (ys : List ℕ) → has p (b ∷ ys) ≡ false → (first ys b == p) ≡ false
first-out p b [] h = ground arith
first-out p b (y ∷ ys) h = ground arith

-- An item between two segments is taken out.
bridge-Segment :
    (s : Links) (x a b : ℕ) (xs ys : List ℕ)
    → Segment s a xs x
    → Segment s x ys b
    → IsDistinct (a ∷ (xs ++ ys))
    → has b (xs ++ ys) ≡ false
    → Segment (bridge (last a xs) (first ys b) s) a (xs ++ ys) b
bridge-Segment s x a b [] [] l r d out = ground arith
bridge-Segment s x a b [] (y ∷ ys) l r d out = (
  ground arith,
  ground arith,
  frame s (bridge a y s) y b ys r.2 (λ q h. ground arith) (λ q h. ground arith),
)
bridge-Segment s x a b (z ∷ xs) ys l r d out = (
  ground (arith, last-has a z xs, has-append a xs ys),
  ground (arith, first-out z b ys, has-append z xs ys),
  bridge-Segment s x z b xs ys l.2 r d.1 (ground arith),
)

remove-bridge : (s : Links) (x : ℕ) → remove x s ≡ bridge (s.prev x) (s.next x) s
unfolding remove
remove-bridge s x = ground arith

abbrev pub is_nil : List ℕ → Bool
is_nil [] = true
is_nil (x ∷ xs) = false

-- The ends of a list meet only if nothing is between them.
ends_meet :
    (a : ℕ) (xs ys : List ℕ)
    → IsDistinct (a ∷ (xs ++ ys))
    → (last a xs == first ys a) ≡ is_nil (xs ++ ys)
ends_meet a [] [] d = ground arith
ends_meet a [] (y ∷ ys) d = ground arith
ends_meet a (x ∷ xs) [] d = ground (arith, last-has a x xs, has-append a xs [])
ends_meet a (x ∷ xs) (y ∷ ys) d =
    ground (arith, last-has a x xs, has-append a xs (y ∷ ys), last-out x xs (y ∷ ys) d.1)

module _ (s : Links) (head self : ℕ) (xs ys : List ℕ) (r : IsRing s head (xs ++ self ∷ ys)) where
  remaining : IsDistinct (head ∷ (xs ++ ys))
  remaining = (
    ground (arith, has-append head xs (self ∷ ys), has-append head xs ys),
    (IsDistinct-split xs self ys r.apart.1).0,
  )

  remove-between : remove self s ≡ bridge (last head xs) (first ys head) s
  remove-between =
      let (l, m) = Segment-split s head head xs self ys r.chain in
      rw (remove-bridge s self, prev-last s head self xs l, next-first s self head ys m)

  -- ListItem_Remove takes the item out of its list and leaves the others in their order.
  pub remove-IsRing : IsRing (remove self s) head (xs ++ ys)
  remove-IsRing =
      let (l, m) = Segment-split s head head xs self ys r.chain in
      rw remove-between (record {
        chain = bridge-Segment s self head head xs ys l m remaining remaining.0;
        apart = remaining;
      })

  -- The neighbours of an item are the same item exactly if it is alone in its list.
  pub get_prev-get_next : (get_prev self s == get_next self s) ≡ is_nil (xs ++ ys)
  unfolding get_prev get_next
  get_prev-get_next =
      let (l, m) = Segment-split s head head xs self ys r.chain in
      rw (prev-last s head self xs l, next-first s self head ys m) (ends_meet head xs ys remaining)

  remove-own_links :
      (get_prev self (remove self s) ≡ get_prev self s)
      × (get_next self (remove self s) ≡ get_next self s)
  unfolding get_prev get_next
  remove-own_links =
      let (l, m) = Segment-split s head head xs self ys r.chain in
      let (_, before, after, _, _) = IsDistinct-split xs self ys r.apart.1 in
      rw (remove-bridge s self) (
        ground (
          arith,
          next-first s self head ys m,
          first-out self head ys,
          has-append head xs (self ∷ ys),
        ),
        ground (
          arith,
          prev-last s head self xs l,
          last-has self head xs,
          has-append head xs (self ∷ ys),
        ),
      )

  -- After ListItem_Remove the item's own links still name its former neighbours, and these are the
  -- same item exactly if the list has become empty.
  pub remove-get_prev-get_next :
      (get_prev self (remove self s) == get_next self (remove self s)) ≡ is_nil (xs ++ ys)
  remove-get_prev-get_next = rw (remove-own_links.0, remove-own_links.1) get_prev-get_next

-- List_IsEmpty tells whether the list holds no item.
pub is_empty-is_nil :
    (s : Links) (head : ℕ) (xs : List ℕ) → IsRing s head xs → is_empty head s ≡ is_nil xs
unfolding is_empty
is_empty-is_nil s head [] r = ground (arith, r.chain)
is_empty-is_nil s head (x ∷ xs) r =
    ground (arith, prev-last s head head (x ∷ xs) r.chain, last-has head x xs r.apart.0)
