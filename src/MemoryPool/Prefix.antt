-- ===== src/MemoryPool/Prefix.antt =====
-- Lists of chunks in which those with all their slots free come first.
use pixy.Base.{
  ℕ, ◌<◌, ◌≤◌, ◌≡◌, refl, ap, subst, arith, inl, inr, Bool, true, false, none, some, List, [], ◌∷◌,
  ◌++◌, ◌==◌, ltb, Bool-cases, Option-cases,
}
use pixy.Base.Lists.{count, count-append, take_out, count-take_out}
use pixy.MemoryPool.{chunk_before, split_free}

-- Before a chunk that is full of free slots stand only such chunks.
abbrev pub IsFronted : (full : ℕ → Bool) → List ℕ → Type 0
IsFronted full [] = Unit {0}
IsFronted full (x ∷ xs) =
    ((y : ℕ) → 0 < count y xs → full y ≡ true → full x ≡ true) × IsFronted full xs

pub same-IsFronted :
    (f g : ℕ → Bool) (xs : List ℕ)
    → ((y : ℕ) → 0 < count y xs → f y ≡ g y)
    → IsFronted f xs
    → IsFronted g xs
same-IsFronted f g [] same h = tt
same-IsFronted f g (x ∷ xs) same h = (
  λ y p e. ground (arith, same y, same x, h.0 y p, e),
  same-IsFronted f g xs (λ y p. same y (ground (arith, p))) h.1,
)

pub append-IsFronted :
    (f : ℕ → Bool) (xs : List ℕ) (x : ℕ)
    → (f x ≡ true → (y : ℕ) → 0 < count y xs → f y ≡ true)
    → IsFronted f xs
    → IsFronted f (xs ++ x ∷ [])
append-IsFronted f [] x all h = (λ y p. absurd (omega arith), tt)
append-IsFronted f (z ∷ xs) x all h = (
  λ y p e. elim (Bool-cases (x == y)) [
    | inl s ↦ all (ground (arith, s, e)) z (ground arith)
    | inr s ↦ h.0 y (ground (arith, s, p, count-append y xs (x ∷ []))) e
  ],
  append-IsFronted f xs x (λ e y p. all e y (ground (arith, p))) h.1,
)

pub init-IsFronted :
    (f : ℕ → Bool) (xs : List ℕ) (x : ℕ) → IsFronted f (xs ++ x ∷ []) → IsFronted f xs
init-IsFronted f [] x h = tt
init-IsFronted f (z ∷ xs) x h =
    (λ y p e. h.0 y (omega (arith, p, count-append y xs (x ∷ []))) e, init-IsFronted f xs x h.1)

pub take_out-IsFronted :
    (f : ℕ → Bool) (a : ℕ) (xs ys : List ℕ)
    → take_out a xs ≡ some ys
    → IsFronted f xs
    → IsFronted f ys
unfolding take_out
take_out-IsFronted f a [] ys e h = cc
take_out-IsFronted f a (x ∷ xs) ys e h = elim (Bool-cases (x == a)) [
  | inl s ↦ subst (IsFronted f) (ground (arith, e, s)) h.1
  | inr s ↦ elim (Option-cases (take_out a xs)) [
    | inl n ↦ absurd (ground (arith, e, s, n))
    | inr (zs, n) ↦
        let same : x ∷ zs ≡ ys = ground (arith, e, s, n) in
        subst (IsFronted f) same (
          λ y p g. h.0 y (ground (arith, p, count-take_out a y xs zs n)) g,
          take_out-IsFronted f a xs zs n h.1,
        )
  ]
]

-- The loop of MemoryPool_ShrinkToFit frees the full chunks, if they come first.
pub split_free-parts :
    (free : ℕ → ℕ) (slots : ℕ) (xs : List ℕ)
    → ((y : ℕ) → 0 < count y xs → free y ≤ slots)
    → IsFronted (λ y. free y == slots) xs
    → let (freed, kept) = split_free free slots xs in
      (xs ≡ freed ++ kept)
      × ((y : ℕ) → 0 < count y freed → free y ≡ slots)
      × ((y : ℕ) → 0 < count y kept → free y < slots)
      × IsFronted (λ y. free y == slots) kept
unfolding split_free
split_free-parts free slots [] most h =
    (refl, λ y p. absurd (omega arith), λ y p. absurd (omega arith), tt)
split_free-parts free slots (x ∷ xs) most h =
    let (parts, freed, kept, rest) =
      split_free-parts free slots xs (λ y p. most y (ground (arith, p))) h.1 in
    elim (Bool-cases (ltb (free x) slots)) [
      | inl e ↦
          rw e (refl, λ y p. absurd (omega arith), λ y p. ground (arith, e, most y p, h.0 y, p), h)
      | inr e ↦
          rw e (ap (λ zs. x ∷ zs) parts, λ y p. ground (arith, e, freed y, p, most x), kept, rest)
    ]

-- nothing is before the first chunk only
none_before : (c x : ℕ) (xs : List ℕ) → chunk_before c (x ∷ xs) ≡ none → count c xs ≡ 0
unfolding chunk_before
none_before c x [] e = refl
none_before c x (y ∷ ys) e = elim (Bool-cases (y == c)) [
  | inl s ↦ absurd (ground (arith, e, s))
  | inr s ↦ let rest = none_before c y ys (ground (arith, e, s)) in ground (arith, s, rest)
]

some_before : (c prev : ℕ) (xs : List ℕ) → chunk_before c xs ≡ some prev → 0 < count prev xs
unfolding chunk_before
some_before c prev [] e = absurd (ground (arith, e))
some_before c prev (x ∷ []) e = absurd (ground (arith, e))
some_before c prev (x ∷ y ∷ ys) e = elim (Bool-cases (y == c)) [
  | inl s ↦ ground (arith, e, s)
  | inr s ↦ let rest = some_before c prev (y ∷ ys) (ground (arith, e, s)) in ground (arith, rest)
]

pub chunk_before_apart :
    (c prev : ℕ) (xs : List ℕ)
    → chunk_before c xs ≡ some prev
    → count c xs ≤ 1
    → (prev == c) ≡ false
unfolding chunk_before
chunk_before_apart c prev [] e p = absurd (ground (arith, e))
chunk_before_apart c prev (x ∷ []) e p = absurd (ground (arith, e))
chunk_before_apart c prev (x ∷ y ∷ ys) e p = elim (Bool-cases (y == c)) [
  | inl s ↦ ground (arith, e, s, p)
  | inr s ↦ chunk_before_apart c prev (y ∷ ys) (ground (arith, e, s)) (ground (arith, p))
]

-- The chunk `c` becomes full of free slots, and the others are as before.
module _ (f g : ℕ → Bool) (c : ℕ) (now : g c ≡ true)
    (others : (y : ℕ) → (y == c) ≡ false → f y ≡ g y) where
  pub first-IsFronted :
      (xs : List ℕ) → chunk_before c xs ≡ none → count c xs ≡ 1 → IsFronted f xs → IsFronted g xs
  first-IsFronted [] e p h = tt
  first-IsFronted (x ∷ xs) e p h =
      let rest = none_before c x xs e in
      let q : x ≡ c = ground (arith, p, rest) in
      (λ y a b. ground (arith, now, q), same-IsFronted f g xs (λ y a. others y (away y a rest)) h.1)
    where
      away : (y : ℕ) → 0 < count y xs → count c xs ≡ 0 → (y == c) ≡ false
      away y a b = ground (arith, a, b)

  pub behind-IsFronted :
      (prev : ℕ) (xs : List ℕ)
      → chunk_before c xs ≡ some prev
      → f prev ≡ true
      → count c xs ≤ 1
      → IsFronted f xs
      → IsFronted g xs
  unfolding chunk_before
  behind-IsFronted prev [] e full p h = tt
  behind-IsFronted prev (x ∷ []) e full p h = (λ y a b. absurd (omega arith), tt)
  behind-IsFronted prev (x ∷ y ∷ ys) e full p h = elim (Bool-cases (y == c)) [
    | inl s ↦ (
      λ z a b. ground (arith, e, s, full, others x, now),
      (
        λ z a b. ground (arith, s, now),
        same-IsFronted f g ys (λ z a. others z (ground (arith, a, p, s))) h.1.1,
      ),
    )
    | inr s ↦
        let deeper : chunk_before c (y ∷ ys) ≡ some prev = ground (arith, e, s) in
        (
          λ z a b.
              ground (arith, others x, now, h.0 prev (some_before c prev (y ∷ ys) deeper) full),
          behind-IsFronted prev (y ∷ ys) deeper full (ground (arith, p)) h.1,
        )
  ]

  pub moved-IsFronted :
      (xs rest : List ℕ)
      → take_out c xs ≡ some rest
      → count c xs ≡ 1
      → IsFronted f xs
      → IsFronted g (c ∷ rest)
  moved-IsFronted xs rest e p h = (
    λ y a b. now,
    same-IsFronted f g rest (λ y a. others y (ground (arith, a, p, count-take_out c c xs rest e)))
        (take_out-IsFronted f c xs rest e h),
  )
