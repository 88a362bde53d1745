-- ===== src/Links/Quicksort.antt =====
-- List_Quicksort and List_Sort of Source/List.c: the ring behind them is the sorted one.
use mathlib.Core.List.{append_assoc, append-nil}
use pixy.Base.{
  ℕ, zero, suc, ◌<◌, ◌≤◌, ◌≡◌, refl, sym, ap, subst, ◌∙◌, true, false, List, [], ◌∷◌, ◌++◌, arith,
  ◌==◌, if◌then◌else◌, Option, some, ◌>>=◌,
}
use pixy.Base.Int.{ℤ}
use pixy.Base.Lists.{length, count-append, IsDistinct, has-append}
use pixy.Links.{Links}
use pixy.Links.Ring.{
  IsRing, Segment, Segment-split, prev-last, IsDistinct-split, last, first, last-has,
}
use pixy.Links.Sort.{partition, quicksort, sort}
use pixy.Links.Sorted.{
  onto, onto-onto, onto-append, last-append, last-onto, length-onto, count-onto, has-onto, lows,
  highs, highs-append, count-lows-highs, length-lows, length-highs, lows-below, highs-above,
  IsSorted, append-IsSorted, SameItems, SameItems-has,
}
use pixy.Links.Partition.{IsKeyed, partition-IsRing, last-middle}

next-last : (s : Links) (a b : ℕ) (xs : List ℕ) → Segment s a xs b → s.next (last a xs) ≡ b
next-last s a b [] c = c.0
next-last s a b (x ∷ xs) c = next-last s x b xs c.2

prev-first :
    (s : Links) (a b : ℕ) (xs ys : List ℕ)
    → Segment s a (xs ++ ys) b
    → s.prev (first ys b) ≡ last a xs
prev-first s a b xs [] c = prev-last s a b xs (rw append-nil at c)
prev-first s a b xs (y ∷ ys) c = prev-last s a y xs (Segment-split s a b xs y ys c).0

module _ (compare_items : Links → ℕ → ℕ → ℤ) where
  -- the body of List_Quicksort, by the two items that it reads first
  body_of : (n front back : ℕ) → Links → (item1 item2 : ℕ) → Option Links
  body_of n front back s item1 item2 =
      let sorted : Option Links = do
        parted ← partition compare_items (suc n) item1 item2 s
        let left = quicksort compare_items n front item1 parted
        less ← (if parted.next front == item1 then some parted else left)
        let right = quicksort compare_items n item1 back less
        if less.prev back == item1 then some less else right
      in if item2 == item1 then some s else sorted

  quicksort-body_of :
      (n front back : ℕ) (s : Links) (item1 item2 : ℕ)
      → s.next front ≡ item1
      → s.prev back ≡ item2
      → quicksort compare_items (suc n) front back s ≡ body_of n front back s item1 item2
  unfolding quicksort body_of
  quicksort-body_of n front back s item1 item2 p q =
      ap (λ a. body_of n front back s a (s.prev back)) p
      ∙ ap (λ b. body_of n front back s item1 b) q

  quicksort-one :
      (n front back : ℕ) (s : Links) (item : ℕ)
      → s.next front ≡ item
      → s.prev back ≡ item
      → quicksort compare_items (suc n) front back s ≡ some s
  unfolding body_of
  quicksort-one n front back s item p q =
      let same : (item == item) ≡ true = ground arith in
      quicksort-body_of n front back s item item p q ∙ rw same refl

  quicksort-more :
      (n front back : ℕ) (s t u v : Links) (item1 item2 : ℕ)
      → s.next front ≡ item1
      → s.prev back ≡ item2
      → (item2 == item1) ≡ false
      → partition compare_items (suc n) item1 item2 s ≡ some t
      → (if t.next front == item1 then some t else quicksort compare_items n front item1 t) ≡ some u
      → (if u.prev back == item1 then some u else quicksort compare_items n item1 back u) ≡ some v
      → quicksort compare_items (suc n) front back s ≡ some v
  unfolding body_of
  quicksort-more n front back s t u v item1 item2 p q more parts left right =
      quicksort-body_of n front back s item1 item2 p q ∙ rw (more, parts, left) right

  module _ (key : ℕ → ℕ) (keyed : IsKeyed compare_items key) (head : ℕ) where
    -- An action sorts the items `items` of the ring, between `before` and `after`.
    abbrev pub Sorts : Option Links → (before items after : List ℕ) → Type 0
    Sorts action before items after =
        (t : Links) × (sorted : List ℕ) × (action ≡ some t)
        × IsRing t head (before ++ (sorted ++ after))
        × IsSorted key sorted
        × SameItems sorted items

    abbrev Sorter : ℕ → Type 0
    Sorter n =
        (p : ℕ) (items before after : List ℕ) (s : Links)
        → IsRing s head (before ++ p ∷ onto items after)
        → length (p ∷ items) ≤ n
        → Sorts (quicksort compare_items n (last head before) (first after head) s) before
            (p ∷ items) after

    -- a sequence as the sorter takes it
    Sorts-forward :
        (n : ℕ)
        → Sorter n
        → (p : ℕ) (xs before after : List ℕ) (s : Links)
        → IsRing s head (before ++ p ∷ (xs ++ after))
        → length (p ∷ xs) ≤ n
        → Sorts
            (quicksort compare_items n (last head before) (first after head) s)
            before
            (p ∷ xs)
            after
    Sorts-forward n sorter p xs before after s r enough =
        let (t, sorted, ran, ring, order, same) =
          sorter p (onto xs []) before after s
            (subst (λ zs. IsRing s head (before ++ p ∷ zs)) (sym (onto-onto xs [] after)) r)
            (omega (arith, length-onto xs [])) in
        (t, sorted, ran, ring, order, λ a. omega (arith, same a, count-onto a xs []))

    left_part :
        (n : ℕ)
        → Sorter n
        → (p : ℕ) (xs before after : List ℕ) (s : Links)
        → IsRing s head (before ++ (xs ++ p ∷ after))
        → length xs ≤ n
        → Sorts
            (if s.next (last head before) == p
              then some s
              else quicksort compare_items n (last head before) p s)
            before
            xs
            (p ∷ after)
    left_part n sorter p [] before after s r enough =
        let next = next-last s head p before (Segment-split s head head before p after r.chain).0 in
        let same : (s.next (last head before) == p) ≡ true = ground (arith, next) in
        (s, [], rw same refl, r, tt, λ a. refl)
    left_part n sorter p (x ∷ xs) before after s r enough =
        let next =
          next-last s head x before
            (Segment-split s head head before x (xs ++ p ∷ after) r.chain).0 in
        let out = (IsDistinct-split before x (xs ++ p ∷ after) r.apart.1).2 in
        let other : (s.next (last head before) == p) ≡ false =
          ground (arith, next, out, has-append x xs (p ∷ after)) in
        rw other (Sorts-forward n sorter x xs before (p ∷ after) s r enough)

    right_part :
        (n : ℕ)
        → Sorter n
        → (p : ℕ) (xs before after : List ℕ) (s : Links)
        → IsRing s head ((before ++ p ∷ []) ++ (xs ++ after))
        → length xs ≤ n
        → Sorts
            (if s.prev (first after head) == p
              then some s
              else quicksort compare_items n p (first after head) s)
            (before ++ p ∷ [])
            xs
            after
    right_part n sorter p [] before after s r enough =
        let prev =
          prev-first s head head (before ++ p ∷ []) after r.chain ∙ last-append head p before in
        let same : (s.prev (first after head) == p) ≡ true = ground (arith, prev) in
        (s, [], rw same refl, r, tt, λ a. refl)
    right_part n sorter p (x ∷ xs) before after s r enough =
        let whole = append_assoc (before ++ p ∷ []) (x ∷ xs) after in
        let prev : s.prev (first after head) ≡ last x xs =
          prev-first s head head ((before ++ p ∷ []) ++ x ∷ xs) after
            (subst (λ zs. Segment s head zs head) (sym whole) r.chain)
          ∙ last-middle head (before ++ p ∷ []) x xs in
        let apart =
          IsDistinct-split before p (x ∷ (xs ++ after))
            (subst IsDistinct (append_assoc before (p ∷ []) (x ∷ (xs ++ after))) r.apart.1) in
        let ends : (last x xs == p) ≡ false =
          last-has p x xs (ground (arith, apart.2, has-append p xs after)) in
        let other : (s.prev (first after head) == p) ≡ false = ground (arith, prev, ends) in
        rw other (
          subst
            (λ f.
              Sorts (quicksort compare_items n f (first after head) s) (before ++ p ∷ []) (x ∷ xs)
                after)
            (last-append head p before)
            (Sorts-forward n sorter x xs (before ++ p ∷ []) after s r enough))

    front_item :
        (s : Links) (p : ℕ) (before rest : List ℕ)
        → IsRing s head (before ++ p ∷ rest)
        → s.next (last head before) ≡ p
    front_item s p before rest r =
        next-last s head p before (Segment-split s head head before p rest r.chain).0

    back_item :
        (s : Links) (p : ℕ) (items before after : List ℕ)
        → IsRing s head (before ++ p ∷ onto items after)
        → s.prev (first after head) ≡ first items p
    back_item s p items before after r =
        let whole : before ++ p ∷ onto items after ≡ (before ++ p ∷ onto items []) ++ after =
          ap (λ zs. before ++ p ∷ zs) (onto-append items [] after)
          ∙ sym (append_assoc before (p ∷ onto items []) after) in
        prev-first s head head (before ++ p ∷ onto items []) after
          (subst (λ zs. Segment s head zs head) whole r.chain)
        ∙ last-middle head before p (onto items [])
        ∙ last-onto p items

    -- the ring is the same, however its sequence is bracketed
    grouped :
        (s : Links) (p : ℕ) (before ys zs : List ℕ)
        → IsRing s head (before ++ (ys ++ p ∷ zs))
        → IsRing s head (((before ++ ys) ++ p ∷ []) ++ zs)
    grouped s p before ys zs r =
        subst (IsRing s head)
          (sym (append_assoc before ys (p ∷ zs)) ∙ sym (append_assoc (before ++ ys) (p ∷ []) zs)) r

    regrouped :
        (s : Links) (p : ℕ) (before ys zs after : List ℕ)
        → IsRing s head (((before ++ ys) ++ p ∷ []) ++ (zs ++ after))
        → IsRing s head (before ++ ((ys ++ p ∷ zs) ++ after))
    regrouped s p before ys zs after r =
        subst (IsRing s head)
          (append_assoc (before ++ ys) (p ∷ []) (zs ++ after)
            ∙ append_assoc before ys (p ∷ (zs ++ after))
            ∙ ap (λ ws. before ++ ws) (sym (append_assoc ys (p ∷ zs) after)))
          r

    quicksort-Sorts : (n : ℕ) → Sorter n
    quicksort-Sorts zero p items before after s r enough = absurd (omega arith)
    quicksort-Sorts (suc n) p [] before after s r enough = (
      s,
      p ∷ [],
      quicksort-one n (last head before) (first after head) s p (front_item s p before after r)
          (back_item s p [] before after r),
      r,
      (λ y h. absurd (ground (arith, h)), tt),
      λ a. refl,
    )
    quicksort-Sorts (suc n) p (x ∷ items) before after s r enough =
        let low = lows key p (x ∷ items) in
        let high = highs key p (x ∷ items) [] in
        let (t, parts, ring) =
          partition-IsRing compare_items key keyed head p items (suc n) x s before after r
            (omega arith) in
        let parted : IsRing t head (before ++ (low ++ p ∷ (high ++ after))) =
          subst (λ zs. IsRing t head (before ++ (low ++ p ∷ zs)))
            (highs-append key p (x ∷ items) [] after) ring in
        let (u, ys, left, left_ring, left_order, left_same) =
          left_part n (quicksort-Sorts n) p low before (high ++ after) t parted
            (omega (arith, length-lows key p (x ∷ items))) in
        let (v, zs, right, right_ring, right_order, right_same) =
          right_part n (quicksort-Sorts n) p high (before ++ ys) after u
            (grouped u p before ys (high ++ after) left_ring)
            (omega (arith, length-highs key p (x ∷ items) [])) in
        (
          v,
          ys ++ p ∷ zs,
          quicksort-more n (last head before) (first after head) s t u v p x
              (front_item s p before (onto (x ∷ items) after) r)
              (back_item s p (x ∷ items) before after r)
              (ground (
                arith,
                (IsDistinct-split before p (onto (x ∷ items) after) r.apart.1).2,
                has-onto p (x ∷ items) after,
              ))
              parts left right,
          regrouped v p before ys zs after right_ring,
          append-IsSorted key ys p zs left_order right_order
              (λ y h. lows-below key p (x ∷ items) y (sym (SameItems-has ys low left_same y) ∙ h))
              (λ y h.
                highs-above key p (x ∷ items) [] (λ z g. absurd (ground (arith, g))) y
                  (sym (SameItems-has zs high right_same y) ∙ h)),
          λ a. omega (
            arith,
            count-append a ys (p ∷ zs),
            left_same a,
            right_same a,
            count-lows-highs key p a (x ∷ items) [],
          ),
        )

    -- List_Sort of a list, with a comparer that is negative exactly if the key of its first item is less,
    -- ends on more fuel than the list has items. Behind it the list holds the same items, each as often,
    -- and no item comes before one with a smaller key.
    pub sort-IsSorted :
        (fuel : ℕ) (xs : List ℕ) (s : Links)
        → IsRing s head xs
        → length xs < fuel
        → (t : Links) × (ys : List ℕ) × (sort compare_items fuel head s ≡ some t)
          × IsRing t head ys
          × IsSorted key ys
          × SameItems ys xs
    unfolding sort
    sort-IsSorted zero xs s r enough = absurd (omega arith)
    sort-IsSorted (suc n) [] s r enough =
        (s, [], quicksort-one n head head s head r.chain.0 r.chain.1, r, tt, λ a. refl)
    sort-IsSorted (suc n) (p ∷ xs) s r enough =
        let (t, ys, ran, ring, order, same) =
          Sorts-forward (suc n) (quicksort-Sorts (suc n)) p xs [] [] s (rw append-nil r)
            (omega arith) in
        (t, ys, ran, rw append-nil at ring, order, same)
