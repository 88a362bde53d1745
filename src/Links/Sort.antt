-- ===== src/Links/Sort.antt =====
-- Source/List.c: List_Sort. A pointer to a link field is the item whose field it is: `front` is the item whose
-- `next` the source's `front` points to, and `back` the one whose `prev` its `back` points to. The comparer
-- is a parameter. The loop and the recursion run on fuel; `none` is no more fuel.
use pixy.Base.{ℕ, zero, suc, Option, none, some, ◌==◌, if◌then◌else◌, ◌>>=◌}
use pixy.Base.Int.{ℤ, pos, ltb_ℤ}
use pixy.Links.{Links, remove, insert_before}

module _ (compare_items : Links → (item other : ℕ) → ℤ) where
  -- List_Quicksort: its loop, which puts the items that are less than `item1` before it
  unfoldable pub partition : (fuel item1 item2 : ℕ) → Links → Option Links
  unfolding remove insert_before
  partition zero item1 item2 s = none
  partition (suc n) item1 item2 s =
      let before = s.prev item2 in
      let moved = insert_before item2 item1 (remove item2 s) in
      let t = if ltb_ℤ (compare_items s item2 item1) (pos 0) then moved else s in
      let rest = partition n item1 before t in if before == item1 then some t else rest

  -- List_Quicksort
  unfoldable pub quicksort : (fuel front back : ℕ) → Links → Option Links
  unfolding partition
  quicksort zero front back s = none
  quicksort (suc n) front back s =
      let item1 = s.next front in
      let sorted : Option Links = do
        parted ← partition (suc n) item1 (s.prev back) s
        let left = quicksort n front item1 parted
        less ← (if parted.next front == item1 then some parted else left)
        let right = quicksort n item1 back less
        if less.prev back == item1 then some less else right
      in if s.prev back == item1 then some s else sorted

  -- List_Sort
  unfoldable pub sort : (fuel head : ℕ) → Links → Option Links
  unfolding quicksort
  sort fuel head s = quicksort fuel head head s
