-- ===== src/Links/Insert.antt =====
-- Insertion into a list: at the back, at the front, and next to an item.
use pixy.Base.{ℕ, ◌≡◌, refl, sym, ap, ◌∙◌, false, List, [], ◌∷◌, ◌++◌, arith, ◌==◌}
use pixy.Base.Lists.{has, IsDistinct, has-append}
use mathlib.Core.List.{append-nil, append_assoc}
use pixy.Links.{Links, insert, initialize, insert_back, insert_front, insert_before, insert_after}
use pixy.Links.Ring.{
  Segment, IsRing, last, prev-last, Segment-split, Segment-join, frame, last-has, last-out,
  IsDistinct-split,
}

-- A new item between the end of a segment and what follows it.
pub insert-Segment :
    (s : Links) (self a b : ℕ) (xs : List ℕ)
    → Segment s a xs b
    → has self (a ∷ xs) ≡ false
    → (b == self) ≡ false
    → IsDistinct (a ∷ xs)
    → has b xs ≡ false
    → Segment (insert self (last a xs) b s) a (xs ++ self ∷ []) b
unfolding insert
insert-Segment s self a b [] c new other d out = ground arith
insert-Segment s self a b (x ∷ xs) c new other d out = (
  ground (arith, last-has a x xs),
  ground arith,
  insert-Segment s self x b xs c.2 (ground arith) other d.1 (ground arith),
)

-- The rest of the ring, behind the new item, is left as it is.
insert-rest :
    (s : Links) (self p b z : ℕ) (ys : List ℕ)
    → Segment s b ys z
    → has p (b ∷ ys) ≡ false
    → has self (z ∷ b ∷ ys) ≡ false
    → has b (z ∷ ys) ≡ false
    → Segment (insert self p b s) b ys z
unfolding insert
insert-rest s self p b z ys c before new out =
    frame s (insert self p b s) b z ys c (λ q h. ground arith) (λ q h. ground arith)

pub IsDistinct-insert :
    (xs : List ℕ) (x : ℕ) (ys : List ℕ)
    → IsDistinct (xs ++ ys)
    → has x (xs ++ ys) ≡ false
    → IsDistinct (xs ++ x ∷ ys)
IsDistinct-insert [] x ys d new = (new, d)
IsDistinct-insert (z ∷ xs) x ys d new = (
  ground (arith, has-append z xs ys, has-append z xs (x ∷ ys)),
  IsDistinct-insert xs x ys d.1 (ground arith),
)

module _ (s : Links) (head self other : ℕ) (xs ys : List ℕ) (r : IsRing s head (xs ++ other ∷ ys))
    (new : has self (head ∷ (xs ++ other ∷ ys)) ≡ false) where
  abbrev inserted : Links
  inserted = insert self (last head xs) other s

  insert-left : Segment inserted head (xs ++ self ∷ []) other
  insert-left =
      let d = IsDistinct-split xs other ys r.apart.1 in
      insert-Segment s self head other xs (Segment-split s head head xs other ys r.chain).0
        (ground (arith, has-append self xs (other ∷ ys)))
        (ground (arith, has-append self xs (other ∷ ys)))
        (ground (arith, has-append head xs (other ∷ ys)), d.3) d.1

  insert-right : Segment inserted other ys head
  insert-right =
      let d = IsDistinct-split xs other ys r.apart.1 in
      insert-rest s self (last head xs) other head ys
        (Segment-split s head head xs other ys r.chain).1 (last-out head xs (other ∷ ys) r.apart)
        (ground (arith, has-append self xs (other ∷ ys)))
        (ground (arith, has-append head xs (other ∷ ys)))

  -- ListItem_InsertBefore links a new item into the list, directly before the given item.
  pub insert_before-IsRing : IsRing (insert_before self other s) head (xs ++ self ∷ other ∷ ys)
  unfolding insert_before
  insert_before-IsRing =
      let left = Segment-split inserted head other xs self [] insert-left in
      rw (prev-last s head other xs (Segment-split s head head xs other ys r.chain).0) (record {
        chain =
            Segment-join inserted head head xs self (other ∷ ys) left.0
              (left.1.0, left.1.1, insert-right);
        apart = (
          ground (arith, has-append head xs (other ∷ ys), has-append head xs (self ∷ other ∷ ys)),
          IsDistinct-insert xs self (other ∷ ys) r.apart.1 (ground arith),
        );
      })

-- List_InsertBack links a new item into the list, behind all others.
pub insert_back-IsRing :
    (s : Links) (head back : ℕ) (xs : List ℕ)
    → IsRing s head xs
    → has back (head ∷ xs) ≡ false
    → IsRing (insert_back head back s) head (xs ++ back ∷ [])
unfolding insert_back
insert_back-IsRing s head back xs r new = rw (prev-last s head head xs r.chain) (record {
  chain = insert-Segment s back head head xs r.chain new (ground arith) r.apart r.apart.0;
  apart = (
    ground (arith, has-append head xs (back ∷ [])),
    IsDistinct-insert xs back [] (rw append-nil r.apart.1) (rw append-nil (ground arith)),
  );
})

-- Inserting at the front is inserting before what comes first, be it the head itself.
insert_front_before :
    (s : Links) (head front x : ℕ)
    → s.next head ≡ x
    → s.prev x ≡ head
    → insert_front head front s ≡ insert_before front x s
unfolding insert_front insert_before
insert_front_before s head front x e f =
    ap (λ y. insert front head y s) e ∙ ap (λ y. insert front y x s) (sym f)

insert_after_before :
    (s : Links) (self other x : ℕ)
    → s.next other ≡ x
    → s.prev x ≡ other
    → insert_after self other s ≡ insert_before self x s
unfolding insert_after insert_before
insert_after_before s self other x e f =
    ap (λ y. insert self other y s) e ∙ ap (λ y. insert self y x s) (sym f)

insert_before_back :
    (s : Links) (head back : ℕ) → insert_back head back s ≡ insert_before back head s
unfolding insert_back insert_before
insert_before_back s head back = refl

-- ListItem_InsertAfter links a new item into the list, directly behind the given item.
pub insert_after-IsRing :
    (s : Links) (head self other : ℕ) (xs ys : List ℕ)
    → IsRing s head (xs ++ other ∷ ys)
    → has self (head ∷ (xs ++ other ∷ ys)) ≡ false
    → IsRing (insert_after self other s) head (xs ++ other ∷ self ∷ ys)
insert_after-IsRing s head self other xs [] r new =
    let (e, f) = (Segment-split s head head xs other [] r.chain).1 in
    rw (insert_after_before s self other head e f, ← insert_before_back)
      (rw (append_assoc xs (other ∷ []) (self ∷ [])) at
        (insert_back-IsRing s head self (xs ++ other ∷ []) r new))
insert_after-IsRing s head self other xs (y ∷ ys) r new =
    let (e, f, _) = (Segment-split s head head xs other (y ∷ ys) r.chain).1 in
    rw (insert_after_before s self other y e f) (
      rw (append_assoc xs (other ∷ []) (self ∷ y ∷ ys)) at (
        insert_before-IsRing s head self y (xs ++ other ∷ []) ys
          (rw (append_assoc xs (other ∷ []) (y ∷ ys)) r)
          (rw (append_assoc xs (other ∷ []) (y ∷ ys)) new)))

-- List_InsertFront links a new item into the list, before all others.
pub insert_front-IsRing :
    (s : Links) (head front : ℕ) (xs : List ℕ)
    → IsRing s head xs
    → has front (head ∷ xs) ≡ false
    → IsRing (insert_front head front s) head (front ∷ xs)
unfolding insert_front
insert_front-IsRing s head front [] r new =
    rw (insert_front_before s head front head r.chain.0 r.chain.1)
      (rw insert_before_back at (insert_back-IsRing s head front [] r new))
insert_front-IsRing s head front (x ∷ xs) r new =
    rw (insert_front_before s head front x r.chain.0 r.chain.1)
      (insert_before-IsRing s head front x [] xs r new)

-- List_Initialize makes the empty list.
pub initialize-IsRing : (s : Links) (head : ℕ) → IsRing (initialize head s) head []
unfolding initialize
initialize-IsRing s head = record { chain = ground arith; apart = (refl, tt) }
