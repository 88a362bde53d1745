-- ===== src/Links/Ring.antt =====
-- What a list head stands for: the sequence of the items that its links lead through.
use pixy.Base.{ℕ, ◌≡◌, refl, true, false, List, [], ◌∷◌, ◌++◌, arith, ◌==◌}
use pixy.Base.Lists.{has, IsDistinct, has-append}
use pixy.Links.{Links}

-- From `a` the links lead through `xs` to `b`, and back.
abbrev pub Segment : Links → ℕ → List ℕ → ℕ → Type 0
Segment s a [] b = (s.next a ≡ b) × (s.prev b ≡ a)
Segment s a (x ∷ xs) b = (s.next a ≡ x) × (s.prev x ≡ a) × Segment s x xs b

-- The list of `head` holds exactly the items `xs`, in this order, each of them once.
pub record IsRing (s : Links) (head : ℕ) (xs : List ℕ) : Type 0 where
  pub chain : Segment s head xs head
  pub apart : IsDistinct (head ∷ xs)

-- the last item of `a ∷ xs`
abbrev pub last : ℕ → List ℕ → ℕ
last a [] = a
last a (x ∷ xs) = last x xs

-- the first item of `xs`, or `b`
abbrev pub first : List ℕ → ℕ → ℕ
first [] b = b
first (x ∷ xs) b = x

module _ (s : Links) where
  pub next-first : (a b : ℕ) (xs : List ℕ) → Segment s a xs b → s.next a ≡ first xs b
  next-first a b [] c = c.0
  next-first a b (x ∷ xs) c = c.0

  pub prev-last : (a b : ℕ) (xs : List ℕ) → Segment s a xs b → s.prev b ≡ last a xs
  prev-last a b [] c = c.1
  prev-last a b (x ∷ xs) c = prev-last x b xs c.2

  -- A segment is split at any of its items, and joined again.
  pub Segment-split :
      (a b : ℕ) (xs : List ℕ) (x : ℕ) (ys : List ℕ)
      → Segment s a (xs ++ x ∷ ys) b
      → Segment s a xs x × Segment s x ys b
  Segment-split a b [] x ys c = ((c.0, c.1), c.2)
  Segment-split a b (z ∷ xs) x ys c =
      let (l, r) = Segment-split z b xs x ys c.2 in ((c.0, c.1, l), r)

  pub Segment-join :
      (a b : ℕ) (xs : List ℕ) (x : ℕ) (ys : List ℕ)
      → Segment s a xs x
      → Segment s x ys b
      → Segment s a (xs ++ x ∷ ys) b
  Segment-join a b [] x ys l r = (l.0, l.1, r)
  Segment-join a b (z ∷ xs) x ys l r = (l.0, l.1, Segment-join z b xs x ys l.2 r)

  -- Writes to other links leave a segment as it is.
  pub frame :
      (t : Links) (a b : ℕ) (xs : List ℕ)
      → Segment s a xs b
      → ((p : ℕ) → has p (a ∷ xs) ≡ true → t.next p ≡ s.next p)
      → ((p : ℕ) → has p (b ∷ xs) ≡ true → t.prev p ≡ s.prev p)
      → Segment t a xs b
  frame t a b [] c n p = ground (arith, n a, p b)
  frame t a b (x ∷ xs) c n p = (
    ground (arith, n a),
    ground (arith, p x),
    frame t x b xs c.2 (λ q h. n q (ground arith)) (λ q h. p q (ground arith)),
  )

pub last-has : (p a : ℕ) (xs : List ℕ) → has p (a ∷ xs) ≡ false → (last a xs == p) ≡ false
last-has p a [] h = ground arith
last-has p a (x ∷ xs) h = last-has p x xs (ground arith)

pub IsDistinct-split :
    (xs : List ℕ) (x : ℕ) (ys : List ℕ)
    → IsDistinct (xs ++ x ∷ ys)
    → IsDistinct (xs ++ ys)
      × (has x xs ≡ false)
      × (has x ys ≡ false)
      × IsDistinct xs
      × IsDistinct ys
IsDistinct-split [] x ys d = (d.1, refl, d.0, tt, d.1)
IsDistinct-split (z ∷ xs) x ys d =
    let (rest, before, after, l, r) = IsDistinct-split xs x ys d.1 in
    (
      (ground (arith, has-append z xs (x ∷ ys), has-append z xs ys), rest),
      ground (arith, has-append z xs (x ∷ ys)),
      after,
      (ground (arith, has-append z xs (x ∷ ys)), l),
      r,
    )

pub last-out : (a : ℕ) (xs ys : List ℕ) → IsDistinct (a ∷ (xs ++ ys)) → has (last a xs) ys ≡ false
last-out a [] ys d = d.0
last-out a (x ∷ xs) ys d = last-out x xs ys d.1
