-- ===== src/Links/Partition.antt =====
-- The loop of List_Quicksort of Source/List.c, on the ring.
use mathlib.Core.List.{append_assoc}
use pixy.Base.{
  ℕ, zero, suc, ◌≤◌, ◌≡◌, refl, sym, ap, subst, ◌∙◌, inl, inr, Bool, true, false, List, [], ◌∷◌,
  ◌++◌, arith, ◌==◌, ltb, if◌then◌else◌, Bool-cases, Option, some,
}
use pixy.Base.Int.{ℤ, pos, ltb_ℤ}
use pixy.Base.Lists.{has, length, IsDistinct, has-append}
use pixy.Links.{Links, remove, insert_before}
use pixy.Links.Ring.{IsRing, Segment-split, prev-last, IsDistinct-split, last, first}
use pixy.Links.Insert.{insert_before-IsRing}
use pixy.Links.Remove.{remove-IsRing}
use pixy.Links.Sort.{partition}
use pixy.Links.Sorted.{onto, onto-append, last-onto, has-onto, lows, highs}

pub last-middle : (a : ℕ) (xs : List ℕ) (p : ℕ) (ys : List ℕ) → last a (xs ++ p ∷ ys) ≡ last p ys
last-middle a [] p ys = refl
last-middle a (x ∷ xs) p ys = last-middle x xs p ys

-- An item that stands in a sequence with no repetition is not in the rest of it.
pub middle-out :
    (xs : List ℕ) (x : ℕ) (ys : List ℕ) → IsDistinct (xs ++ x ∷ ys) → has x (xs ++ ys) ≡ false
middle-out xs x ys d =
    let (rest, before, after, l, r) = IsDistinct-split xs x ys d in
    ground (arith, before, after, has-append x xs ys)

-- what List_Quicksort asks of a comparer: it is negative exactly if the key of the first item is less
abbrev pub IsKeyed : (compare_items : Links → ℕ → ℕ → ℤ) → (key : ℕ → ℕ) → Type 0
IsKeyed compare_items key =
    (s : Links) (a b : ℕ) → ltb_ℤ (compare_items s a b) (pos 0) ≡ ltb (key a) (key b)

module _ (compare_items : Links → ℕ → ℕ → ℤ) (key : ℕ → ℕ) (keyed : IsKeyed compare_items key)
    (head pivot : ℕ) where
  abbrev Parted : (fuel x : ℕ) → Links → (before after : List ℕ) → (items : List ℕ) → Type 0
  Parted fuel x s before after items =
      (t : Links) × (partition compare_items fuel pivot x s ≡ some t)
      × IsRing t head (before ++ (lows key pivot items ++ pivot ∷ highs key pivot items after))

  module _ (s : Links) (x : ℕ) (items before after : List ℕ)
      (r : IsRing s head (before ++ pivot ∷ onto (x ∷ items) after)) where
    at_x : IsRing s head ((before ++ pivot ∷ onto items []) ++ x ∷ after)
    at_x =
        subst (IsRing s head)
          (ap (λ zs. before ++ pivot ∷ zs) (onto-append items [] (x ∷ after))
            ∙ sym (append_assoc before (pivot ∷ onto items []) (x ∷ after)))
          r

    prev_x : s.prev x ≡ first items pivot
    prev_x =
        prev-last s head x (before ++ pivot ∷ onto items [])
          (Segment-split s head head (before ++ pivot ∷ onto items []) x after at_x.chain).0
        ∙ last-middle head before pivot (onto items [])
        ∙ last-onto pivot items

    -- the ring without `x`
    without : IsRing (remove x s) head (before ++ pivot ∷ onto items after)
    without =
        subst (IsRing (remove x s) head)
          (append_assoc before (pivot ∷ onto items []) after
            ∙ ap (λ zs. before ++ pivot ∷ zs) (sym (onto-append items [] after)))
          (remove-IsRing s head x (before ++ pivot ∷ onto items []) after at_x)

    new_x : has x (head ∷ (before ++ pivot ∷ onto items after)) ≡ false
    new_x =
        subst (λ zs. has x (head ∷ zs) ≡ false)
          (append_assoc before (pivot ∷ onto items []) after
            ∙ ap (λ zs. before ++ pivot ∷ zs) (sym (onto-append items [] after)))
          (ground (
            arith,
            at_x.apart.0,
            has-append head (before ++ pivot ∷ onto items []) (x ∷ after),
            middle-out (before ++ pivot ∷ onto items []) x after at_x.apart.1,
          ))

    -- the ring with `x` before the pivot
    moved :
        IsRing (insert_before x pivot (remove x s)) head (before ++ x ∷ pivot ∷ onto items after)
    moved = insert_before-IsRing (remove x s) head x pivot before (onto items after) without new_x

  -- a round, by the item before `x` and whether `x` is less than the pivot
  round_of : (n x : ℕ) → Links → (before : ℕ) → (less : Bool) → Option Links
  round_of n x s before less =
      let t = if less then insert_before x pivot (remove x s) else s in
      let rest = partition compare_items n pivot before t in
      if before == pivot then some t else rest

  partition-round_of :
      (n x : ℕ) (s : Links) (before : ℕ) (less : Bool)
      → s.prev x ≡ before
      → ltb (key x) (key pivot) ≡ less
      → partition compare_items (suc n) pivot x s ≡ round_of n x s before less
  unfolding partition round_of
  partition-round_of n x s before less p q =
      ap (λ b. round_of n x s b (ltb_ℤ (compare_items s x pivot) (pos 0))) p
      ∙ ap (λ c. round_of n x s before c) (keyed s x pivot ∙ q)

  -- the last round, and another one
  partition-stops :
      (n x : ℕ) (s : Links) (less : Bool)
      → s.prev x ≡ pivot
      → ltb (key x) (key pivot) ≡ less
      → partition compare_items (suc n) pivot x s
        ≡ some (if less then insert_before x pivot (remove x s) else s)
  unfolding round_of
  partition-stops n x s less p q =
      let stop : (pivot == pivot) ≡ true = ground arith in
      partition-round_of n x s pivot less p q ∙ rw stop refl

  partition-goes :
      (n x : ℕ) (s : Links) (before : ℕ) (less : Bool)
      → s.prev x ≡ before
      → ltb (key x) (key pivot) ≡ less
      → (before == pivot) ≡ false
      → partition compare_items (suc n) pivot x s
        ≡ partition compare_items n pivot before
            (if less then insert_before x pivot (remove x s) else s)
  unfolding round_of
  partition-goes n x s before less p q on = partition-round_of n x s before less p q ∙ rw on refl

  -- an item behind the pivot is another one
  other :
      (s : Links) (x y : ℕ) (items before after : List ℕ)
      → IsRing s head (before ++ pivot ∷ onto (x ∷ y ∷ items) after)
      → (y == pivot) ≡ false
  other s x y items before after r =
      let out = IsDistinct-split before pivot (onto (x ∷ y ∷ items) after) r.apart.1 in
      elim (Bool-cases (y == pivot)) [
        | inr e ↦ e
        | inl e ↦ absurd (ground (arith, e, out.2, has-onto pivot (x ∷ y ∷ items) after))
      ]

  -- The loop takes each item behind the pivot, from the back, and moves those that are less before the
  -- pivot.
  pub partition-IsRing :
      (items : List ℕ) (fuel x : ℕ) (s : Links) (before after : List ℕ)
      → IsRing s head (before ++ pivot ∷ onto (x ∷ items) after)
      → length (x ∷ items) ≤ fuel
      → Parted fuel x s before after (x ∷ items)
  partition-IsRing items zero x s before after r enough = absurd (omega arith)
  partition-IsRing [] (suc n) x s before after r enough =
      let prev = prev_x s x [] before after r in
      elim (Bool-cases (ltb (key x) (key pivot))) [
        | inl e ↦ (
          insert_before x pivot (remove x s),
          partition-stops n x s true prev e,
          rw e (moved s x [] before after r),
        )
        | inr e ↦ (s, partition-stops n x s false prev e, rw e r)
      ]
  partition-IsRing (y ∷ items) (suc n) x s before after r enough =
      let on = other s x y items before after r in
      let prev = prev_x s x (y ∷ items) before after r in
      elim (Bool-cases (ltb (key x) (key pivot))) [
        | inl e ↦
            let u = insert_before x pivot (remove x s) in
            let (t, ran, ring) =
              partition-IsRing items n y u (before ++ x ∷ []) after
                (rw (append_assoc before (x ∷ []) (pivot ∷ onto (y ∷ items) after))
                  (moved s x (y ∷ items) before after r))
                (omega arith) in
            (
              t,
              partition-goes n x s y true prev e on ∙ ran,
              rw e (
                  rw
                    (append_assoc before (x ∷ [])
                      (lows key pivot (y ∷ items) ++ pivot ∷ highs key pivot (y ∷ items) after))
                    at ring),
            )
        | inr e ↦
            let (t, ran, ring) = partition-IsRing items n y s before (x ∷ after) r (omega arith) in
            (t, partition-goes n x s y false prev e on ∙ ran, rw e ring)
      ]
