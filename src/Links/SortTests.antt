-- ===== src/Links/SortTests.antt =====
-- A run of List_Sort of Source/List.c.
use mathlib.Core.Option
use pixy.Base.{List, arith, ℕ, zero, suc, [], ◌∷◌, ◌≡◌, refl, ltb, some, if◌then◌else◌}
use pixy.Base.Int.{ℤ, pos, negsuc}
use pixy.Links.{Links, insert, remove, insert_before}
use pixy.Links.Ring.{IsRing}
use pixy.Links.Sorted.{IsSorted, SameItems}
use pixy.Links.Partition.{IsKeyed}
use pixy.Links.Quicksort.{sort-IsSorted}
use pixy.Links.Sort.{sort, quicksort, partition}

-- a ring of 0 with the items 3, 1 and 2, in the order of their addresses
abbrev three : Links
three = record {
  next = λ p. elim p [
    | zero ↦ 3
    | suc q ↦ elim q [ zero ↦ 2 | suc r ↦ elim r [ zero ↦ 0 | suc t ↦ 1 ] ]
  ];
  prev = λ p. elim p [
    | zero ↦ 2
    | suc q ↦ elim q [ zero ↦ 3 | suc r ↦ elim r [ zero ↦ 1 | suc t ↦ 0 ] ]
  ];
}

abbrev by_address : Links → ℕ → ℕ → ℤ
by_address s a b = if ltb a b then negsuc 0 else (pos 1)

three_sorted :
    Option.map
      (λ (s : Links). s.next 0 ∷ s.next 1 ∷ s.next 2 ∷ s.next 3 ∷ [])
      (sort by_address 3 0 three)
    ≡ some (1 ∷ 2 ∷ 3 ∷ 0 ∷ [])
unfolding sort quicksort partition remove insert_before insert
three_sorted = refl

three-IsRing : IsRing three 0 (3 ∷ 1 ∷ 2 ∷ [])
three-IsRing = record {
  chain = (refl, refl, (refl, refl, (refl, refl, (refl, refl))));
  apart = (refl, (refl, (refl, (refl, tt))));
}

by_address-IsKeyed : IsKeyed by_address (λ a. a)
by_address-IsKeyed s a b = ground arith

sort-IsSorted_example :
    (t : Links) × (ys : List ℕ) × (sort by_address 4 0 three ≡ some t)
    × IsRing t 0 ys
    × IsSorted (λ a. a) ys
    × SameItems ys (3 ∷ 1 ∷ 2 ∷ [])
sort-IsSorted_example =
    sort-IsSorted by_address (λ a. a) by_address-IsKeyed 0 4 (3 ∷ 1 ∷ 2 ∷ []) three three-IsRing
      (omega arith)
