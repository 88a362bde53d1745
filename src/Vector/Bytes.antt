-- ===== src/Vector/Bytes.antt =====
-- What a change of a vector's length does to its bytes.
use pixy.Base.{
  ℕ, ◌/◌, ◌<◌, ◌≤◌, ◌≡◌, ◌⊎◌, refl, ap, sym, ◌∙◌, arith, inl, inr, Bool, true, false, some,
  if◌then◌else◌, Bool-cases, Option-cases,
}
use pixy.Vector.{Vector, Realloc, zero_bytes, resize}

-- What the code relies on in realloc: the bytes that the old and the new block have both are kept.
abbrev pub IsKeeping : Realloc → Type 0
IsKeeping realloc =
    (old new : ℕ) (bytes after : ℕ → ℕ)
    → realloc old (some bytes) new ≡ some after
    → (i : ℕ) → i < old
    → i < new
    → after i ≡ bytes i

-- What Vector_SetLength and Vector_Expand leave: the block has `size` bytes and as many elements as
-- fit, keeps the bytes that it had and, if asked, has zeros behind them.
pub record Resized (v r : Vector) (size : ℕ) (zeroes : Bool) : Type 0 where
  pub new_size : r.size ≡ size
  pub new_length : r.length ≡ size / v.element_size
  pub same_elements : r.element_size ≡ v.element_size
  pub after : ℕ → ℕ
  pub block : r.elements ≡ some after
  pub kept :
      (old : ℕ → ℕ) → v.elements ≡ some old → (i : ℕ) → i < v.size → i < size → after i ≡ old i
  pub zeroed : zeroes ≡ true → (i : ℕ) → v.size ≤ i → i < size → after i ≡ 0

module _ (realloc : Realloc) (keeps : IsKeeping realloc) where
  pub resize-Resized :
      (v : Vector) (size : ℕ) (zeroes : Bool)
      → ((r : Vector) × (resize realloc v size zeroes ≡ (true, r)) × Resized v r size zeroes)
        ⊎ (resize realloc v size zeroes ≡ (false, v))
  unfolding resize zero_bytes
  resize-Resized v size zeroes = elim (Option-cases (realloc v.size v.elements size)) [
    | inl e ↦ inr (rw (e, resize) refl)
    | inr (bytes, e) ↦ inl (
      record v {
        elements = some (if zeroes then zero_bytes v.size size bytes else bytes);
        size = size;
        length = size / v.element_size;
      },
      rw (e, resize) refl,
      record {
        new_size = refl;
        new_length = refl;
        same_elements = refl;
        after = if zeroes then zero_bytes v.size size bytes else bytes;
        block = refl;
        kept = λ old f i p q.
            let known : realloc v.size (some old) size ≡ some bytes =
              ap (λ b. realloc v.size b size) (sym f) ∙ e in
            let k = keeps v.size size old bytes known i p q in
            elim (Bool-cases zeroes) [ inl g ↦ rw g (ground (arith, k, p)) | inr g ↦ rw g k ];
        zeroed = λ g i p q. rw g (ground (arith, p, q));
      },
    )
  ]
