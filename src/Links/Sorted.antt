-- ===== src/Links/Sorted.antt =====
-- What the two parts of List_Quicksort of Source/List.c do to sequences. A sequence that is read from its back
-- is in the reverse order.
use pixy.Base.{
  ℕ, ◌+◌, ◌≤◌, ◌≡◌, refl, sym, ap, ◌∙◌, inl, inr, true, ◌||◌, List, [], ◌∷◌, ◌++◌, arith, ◌==◌, ltb,
  if◌then◌else◌, Bool-cases,
}
use pixy.Base.Lists.{has, count, length, has-append}
use pixy.Links.Ring.{last, first}

-- `items`, from the back, before `after`
abbrev pub onto : (items after : List ℕ) → List ℕ
onto [] after = after
onto (x ∷ items) after = onto items (x ∷ after)

pub onto-append : (items xs ys : List ℕ) → onto items (xs ++ ys) ≡ onto items xs ++ ys
onto-append [] xs ys = refl
onto-append (x ∷ items) xs ys = onto-append items (x ∷ xs) ys

pub onto-onto : (items xs ys : List ℕ) → onto (onto items xs) ys ≡ onto xs (items ++ ys)
onto-onto [] xs ys = refl
onto-onto (x ∷ items) xs ys = onto-onto items (x ∷ xs) ys

pub last-append : (a x : ℕ) (xs : List ℕ) → last a (xs ++ x ∷ []) ≡ x
last-append a x [] = refl
last-append a x (y ∷ xs) = last-append y x xs

pub last-onto : (a : ℕ) (items : List ℕ) → last a (onto items []) ≡ first items a
last-onto a [] = refl
last-onto a (x ∷ items) =
    ap (last a) (onto-append items [] (x ∷ [])) ∙ last-append a x (onto items [])

pub count-onto : (b : ℕ) (items xs : List ℕ) → count b (onto items xs) ≡ count b items + count b xs
count-onto b [] xs = omega arith
count-onto b (x ∷ items) xs = omega (arith, count-onto b items (x ∷ xs))

pub length-onto : (items xs : List ℕ) → length (onto items xs) ≡ length items + length xs
length-onto [] xs = omega arith
length-onto (x ∷ items) xs = omega (arith, length-onto items (x ∷ xs))

pub has-onto : (a : ℕ) (items xs : List ℕ) → has a (onto items xs) ≡ (has a items || has a xs)
has-onto a [] xs = refl
has-onto a (x ∷ items) xs = ground (arith, has-onto a items (x ∷ xs))

-- Two sequences hold the same items, each as often.
abbrev pub SameItems : List ℕ → List ℕ → Type 0
SameItems xs ys = (a : ℕ) → count a xs ≡ count a ys

has-count : (a : ℕ) (xs : List ℕ) → has a xs ≡ ltb 0 (count a xs)
has-count a [] = ground arith
has-count a (x ∷ xs) = ground (arith, has-count a xs)

pub SameItems-has : (xs ys : List ℕ) → SameItems xs ys → (a : ℕ) → has a xs ≡ has a ys
SameItems-has xs ys h a = has-count a xs ∙ ap (ltb 0) (h a) ∙ sym (has-count a ys)

module _ (key : ℕ → ℕ) where
  -- No item comes before one with a smaller key.
  abbrev pub IsSorted : List ℕ → Type 0
  IsSorted [] = Unit {0}
  IsSorted (x ∷ xs) = ((y : ℕ) → has y xs ≡ true → key x ≤ key y) × IsSorted xs

  -- two sorted sequences, with an item between them
  pub append-IsSorted :
      (xs : List ℕ) (x : ℕ) (ys : List ℕ)
      → IsSorted xs
      → IsSorted ys
      → ((y : ℕ) → has y xs ≡ true → key y ≤ key x)
      → ((y : ℕ) → has y ys ≡ true → key x ≤ key y)
      → IsSorted (xs ++ x ∷ ys)
  append-IsSorted [] x ys p q low high = (high, q)
  append-IsSorted (z ∷ xs) x ys p q low high = (
    λ y h. elim (Bool-cases (has y xs)) [
      | inl e ↦ p.0 y e
      | inr e ↦ elim (Bool-cases (x == y)) [
        | inl f ↦ ground (arith, low z, f)
        | inr f ↦
            let below = low z (ground arith) in
            let above = high y (ground (arith, h, e, f, has-append y xs (x ∷ ys))) in omega arith
      ]
    ],
    append-IsSorted xs x ys p.1 q (λ y h. low y (ground (arith, h))) high,
  )

  module _ (pivot : ℕ) where
    -- the items that are less than the pivot, from the back
    abbrev pub lows : List ℕ → List ℕ
    lows [] = []
    lows (x ∷ items) = let rest = lows items in if ltb (key x) (key pivot) then x ∷ rest else rest

    -- the others, before `after`
    abbrev pub highs : (items after : List ℕ) → List ℕ
    highs [] after = after
    highs (x ∷ items) after = highs items (if ltb (key x) (key pivot) then after else (x ∷ after))

    pub highs-append : (items xs ys : List ℕ) → highs items (xs ++ ys) ≡ highs items xs ++ ys
    highs-append [] xs ys = refl
    highs-append (x ∷ items) xs ys = elim (Bool-cases (ltb (key x) (key pivot))) [
      | inl e ↦ rw e (highs-append items xs ys)
      | inr e ↦ rw e (highs-append items (x ∷ xs) ys)
    ]

    pub count-lows-highs :
        (a : ℕ) (items xs : List ℕ)
        → count a (lows items) + count a (highs items xs) ≡ count a items + count a xs
    count-lows-highs a [] xs = omega arith
    count-lows-highs a (x ∷ items) xs = elim (Bool-cases (ltb (key x) (key pivot))) [
      | inl e ↦ ground (arith, e, count-lows-highs a items xs)
      | inr e ↦ ground (arith, e, count-lows-highs a items (x ∷ xs))
    ]

    pub length-lows : (items : List ℕ) → length (lows items) ≤ length items
    length-lows [] = omega arith
    length-lows (x ∷ items) = ground (arith, length-lows items)

    pub length-highs : (items xs : List ℕ) → length (highs items xs) ≤ length items + length xs
    length-highs [] xs = omega arith
    length-highs (x ∷ items) xs = elim (Bool-cases (ltb (key x) (key pivot))) [
      | inl e ↦ ground (arith, e, length-highs items xs)
      | inr e ↦ ground (arith, e, length-highs items (x ∷ xs))
    ]

    pub lows-below : (items : List ℕ) (y : ℕ) → has y (lows items) ≡ true → key y ≤ key pivot
    lows-below [] y h = absurd (ground (arith, h))
    lows-below (x ∷ items) y h = elim (Bool-cases (ltb (key x) (key pivot))) [
      | inl e ↦ elim (Bool-cases (x == y)) [
        | inl f ↦ ground (arith, e, f)
        | inr f ↦ lows-below items y (ground (arith, h, e, f))
      ]
      | inr e ↦ lows-below items y (ground (arith, h, e))
    ]

    pub highs-above :
        (items xs : List ℕ)
        → ((y : ℕ) → has y xs ≡ true → key pivot ≤ key y)
        → (y : ℕ) → has y (highs items xs) ≡ true
        → key pivot ≤ key y
    highs-above [] xs all y h = all y h
    highs-above (x ∷ items) xs all y h = elim (Bool-cases (ltb (key x) (key pivot))) [
      | inl e ↦ highs-above items xs all y (ground (arith, h, e))
      | inr e ↦
          highs-above items (x ∷ xs)
            (λ z g. elim (Bool-cases (x == z)) [
              | inl f ↦ ground (arith, e, f)
              | inr f ↦ all z (ground (arith, g, f))
            ])
            y (ground (arith, h, e))
    ]
