-- ===== src/Base/Lists.antt =====
-- Lists of addresses: length, membership, removal of one occurrence, distinctness.
use Prim.Native.Nat.{ℕ, suc, ◌+◌, ◌<◌}
use mathlib.Core.Path.{◌≡◌, refl}
use mathlib.Core.Option
use mathlib.Core.Bool.{Bool, false, ◌||◌, or_assoc}
use mathlib.Core.Option.{Option, none, some}
use mathlib.Core.List.{List, [], ◌∷◌, ◌++◌}
use native.Mathlib.Omega.{arith}
use pixy.Base.Tests.{◌==◌, if◌then◌else◌, Bool-cases, Option-cases}
use mathlib.Core.Logic.{◌⊎◌, inl, inr}

abbrev pub length {ℓ} : {A : Type ℓ} → List A → ℕ
length [] = 0
length (x ∷ xs) = suc (length xs)

pub length-append {ℓ} : {A : Type ℓ} (xs ys : List A) → length (xs ++ ys) ≡ length xs + length ys
length-append [] ys = omega arith
length-append (x ∷ xs) ys = omega (arith, length-append xs ys)

abbrev pub has : ℕ → List ℕ → Bool
has a [] = false
has a (x ∷ xs) = (x == a) || has a xs

-- No address occurs twice.
abbrev pub IsDistinct : List ℕ → Type 0
IsDistinct [] = Unit {0}
IsDistinct (x ∷ xs) = (has x xs ≡ false) × IsDistinct xs

pub has-append : (a : ℕ) (xs ys : List ℕ) → has a (xs ++ ys) ≡ (has a xs || has a ys)
has-append a [] ys = refl
has-append a (x ∷ xs) ys = rw (has-append a xs ys, or_assoc)

-- In how many places `item` stands.
abbrev pub count : ℕ → List ℕ → ℕ
count item [] = 0
count item (front ∷ back) = count item back + (if front == item then 1 else 0)

pub count-append :
    (item : ℕ) (front back : List ℕ)
    → count item (front ++ back) ≡ count item front + count item back
count-append item [] back = omega arith
count-append item (x ∷ front) back = omega (arith, count-append item front back)

-- The list without the first occurrence of `a`; `none` if there is none.
unfoldable pub take_out : ℕ → List ℕ → Option (List ℕ)
take_out a [] = none
take_out a (x ∷ xs) = if x == a then some xs else Option.map (λ rest. x ∷ rest) (take_out a xs)

-- The last element, and the list before it; `none` if the list is empty.
unfoldable pub get_back : List ℕ → Option (List ℕ × ℕ)
get_back [] = none
get_back (x ∷ xs) = elim (get_back xs) [ none ↦ some ([], x) | some (rest, y) ↦ some (x ∷ rest, y) ]

pub count-take_out :
    (a b : ℕ) (xs ys : List ℕ)
    → take_out a xs ≡ some ys
    → count b xs ≡ (if a == b then 1 else 0) + count b ys
unfolding take_out
count-take_out a b [] ys h = cc
count-take_out a b (x ∷ xs) ys h = elim (Option-cases (take_out a xs)) [
  | inl e ↦ ground (arith, e)
  | inr (zs, e) ↦ ground (arith, e, count-take_out a b xs zs e)
]

-- An element that occurs can be taken out.
pub take_out-some :
    (a : ℕ) (xs : List ℕ) → 0 < count a xs → (ys : List ℕ) × (take_out a xs ≡ some ys)
unfolding take_out
take_out-some a [] h = absurd (omega arith)
take_out-some a (x ∷ xs) h = elim (Bool-cases (x == a)) [
  | inl e ↦ (xs, ground (arith, e))
  | inr e ↦ let (ys, f) = take_out-some a xs (ground arith) in (x ∷ ys, ground (arith, e, f))
]

pub get_back-append : (xs : List ℕ) (x : ℕ) → get_back (xs ++ x ∷ []) ≡ some (xs, x)
unfolding get_back
get_back-append [] x = refl
get_back-append (y ∷ xs) x = rw (get_back-append xs x)

pub get_back-none : (xs : List ℕ) → get_back xs ≡ none → xs ≡ []
unfolding get_back
get_back-none [] h = refl
get_back-none (y ∷ xs) h = ground arith

pub get_back-some : (xs ys : List ℕ) (x : ℕ) → get_back xs ≡ some (ys, x) → xs ≡ ys ++ x ∷ []
unfolding get_back
get_back-some [] ys x h = cc
get_back-some (y ∷ xs) ys x h = elim (Option-cases (get_back xs)) [
  | inl e ↦ ground (arith, e, get_back-none xs)
  | inr ((zs, z), e) ↦ ground (arith, e, get_back-some xs zs z e)
]

pub length-take_out :
    (a : ℕ) (xs ys : List ℕ) → take_out a xs ≡ some ys → length xs ≡ suc (length ys)
unfolding take_out
length-take_out a [] ys h = cc
length-take_out a (x ∷ xs) ys h = elim (Option-cases (take_out a xs)) [
  | inl e ↦ ground (arith, e)
  | inr (zs, e) ↦ ground (arith, e, length-take_out a xs zs e)
]

pub List-cases {ℓ} :
    {A : Type ℓ} (xs : List A) → (xs ≡ []) ⊎ ((x : A) × (ys : List A) × (xs ≡ x ∷ ys))
List-cases [] = inl refl
List-cases (x ∷ xs) = inr (x, xs, refl)

pub length-zero {ℓ} : {A : Type ℓ} (xs : List A) → length xs ≡ 0 → xs ≡ []
length-zero [] h = refl
length-zero (x ∷ xs) h = absurd (omega arith)
