-- ===== src/Vector/Lengths.antt =====
-- Vector_SetLength: a success gives the length that was asked for, and a failure changes nothing.
use mathlib.Core.Option.{some-injective}
use native.Mathlib.Nat.{le-div_iff_mul-le, mul-pos}
use pixy.Base.{
  ℕ, ◌*◌, ◌/◌, ◌%◌, ◌^◌, ◌<◌, ◌≤◌, ◌≡◌, refl, ap, sym, ◌∙◌, subst, arith, inl, inr, Bool, true,
  false, ◌&&◌, some, ◌==◌, ltb, Bool-cases,
}
use pixy.Vector.{Vector, Realloc, next_power_of_two, resize, set_length, size_max}
use pixy.Vector.Bytes.{IsKeeping, resize-Resized}
use pixy.Vector.Size.{next_power_of_two-left}

-- The length is the number of elements that fit.
abbrev pub IsVector : Vector → Type 0
IsVector v = v.length ≡ v.size / v.element_size

-- the bytes in use before, and behind the call
abbrev pub KeepsBytes : Vector → Vector → Type 0
KeepsBytes v r =
    (old after : ℕ → ℕ)
    → v.elements ≡ some old
    → r.elements ≡ some after
    → (i : ℕ) → i < v.size
    → i < r.size
    → after i ≡ old i

module _ (realloc : Realloc) (keeps : IsKeeping realloc) (v : Vector) (length : ℕ) (zeroes : Bool)
    (w : IsVector v) (sized : 0 < v.element_size) (small : length * v.element_size ≤ 2 ^ 63) where
  abbrev pub size : ℕ
  size = next_power_of_two (length * v.element_size % size_max)

  pub fits : length ≤ size / v.element_size
  fits = elim (Bool-cases (length == 0)) [
    | inl e ↦ ground (arith, e)
    | inr e ↦
        let bytes : length * v.element_size % size_max ≡ length * v.element_size = omega arith in
        let p : 1 ≤ length * v.element_size = mul-pos (ground (arith, e)) sized in
        let enough : length * v.element_size ≤ size =
          subst (λ n. length * v.element_size ≤ next_power_of_two n) (sym bytes)
            (next_power_of_two-left (length * v.element_size) p small) in
        (le-div_iff_mul-le sized).1 enough
  ]

  abbrev Promised : Bool × Vector → Type 0
  Promised (ok, r) =
      IsVector r × KeepsBytes v r × (ok ≡ true → length ≤ r.length) × (ok ≡ false → r ≡ v)

  unchanged : (ok : Bool) → (ok ≡ true → length ≤ v.length) → Promised (ok, v)
  unchanged ok long =
      (w, λ old after e f i p q. ap (λ b. b i) (some-injective _ _ (sym f ∙ e)), long, λ e. refl)

  resize-Promised : (zeroes : Bool) → Promised (resize realloc v size zeroes)
  resize-Promised zeroes = elim (resize-Resized realloc keeps v size zeroes) [
    | inr e ↦ subst Promised (sym e) (unchanged false (λ g. absurd (ground (arith, g))))
    | inl (r, e, s) ↦ subst Promised (sym e) (
      ground (
        arith,
        s.new_length,
        ap (λ n. n / r.element_size) s.new_size,
        ap (λ n. size / n) s.same_elements,
      ),
      λ old after f g i p q.
          ap (λ b. b i) (some-injective _ _ (sym g ∙ s.block))
          ∙ s.kept old f i p (subst (λ n. i < n) s.new_size q),
      λ g. subst (λ n. length ≤ n) (sym s.new_length) fits,
      λ g. absurd (ground (arith, g)),
    )
  ]

  -- Vector_SetLength, where the bytes asked for are at most 2 ^ 63, keeps the length equal to what
  -- fits the size, and keeps the bytes; if it returns true there is room for `length` elements, and if
  -- it returns false nothing has changed.
  pub set_length-Promised :
      let (ok, r) = set_length realloc v length zeroes in
      IsVector r × KeepsBytes v r × (ok ≡ true → length ≤ r.length) × (ok ≡ false → r ≡ v)
  unfolding set_length
  set_length-Promised = elim (Bool-cases (v.size == size)) [
    | inl e ↦
        let same : v.size ≡ size = ground (arith, e) in
        rw e (unchanged true (λ ok. ground (arith, fits, w, ap (λ n. n / v.element_size) same)))
    | inr e ↦ elim (Bool-cases (size == 0)) [
      | inl f ↦
          let none_left : size ≡ 0 = ground (arith, f) in
          rw (e, f)
            (
              ground arith,
              λ old after g h. absurd (ground (arith, h)),
              λ ok. ground (arith, fits, ap (λ n. n / v.element_size) none_left),
              λ no. absurd (ground (arith, no)),
            )
      | inr f ↦ rw (e, f) (resize-Promised (zeroes && ltb v.size size))
    ]
  ]
