-- ===== src/MemoryPool/Slots.antt =====
-- The chain of the free slots of a chunk: each slot has the address of the next one, the last one 0.
use native.Mathlib.Nat.{div-eq_of_lt, div-eq-sub-div, suc-mul}
use pixy.Base.{
  ℕ, zero, suc, ◌+◌, ◌-◌, ◌*◌, ◌/◌, ◌<◌, ◌≤◌, ◌≡◌, refl, ap, sym, ◌∙◌, arith, inl, inr, List, [],
  ◌∷◌, ◌==◌, ltb, if◌then◌else◌, Bool-cases,
}
use pixy.Base.Lists.{count, length}
use pixy.MemoryPool.{set_at, link_slots}

-- The chain that begins at `slot` has these slots, in order.
abbrev pub IsChain : (word : ℕ → ℕ) → (slot : ℕ) → List ℕ → Type 0
IsChain word slot [] = slot ≡ 0
IsChain word slot (x ∷ xs) = (slot ≡ x) × IsChain word (word x) xs

-- a write to a word that is in no slot of the chain
pub same-IsChain :
    (f g : ℕ → ℕ) (slot : ℕ) (xs : List ℕ)
    → ((x : ℕ) → 0 < count x xs → f x ≡ g x)
    → IsChain f slot xs
    → IsChain g slot xs
same-IsChain f g slot [] same h = h
same-IsChain f g slot (x ∷ xs) same (here, rest) = (
  here,
  same-IsChain f g (g x) xs (λ y p. same y (ground (arith, p)))
      (rw (sym (same x (ground arith))) rest),
)

-- the slots that the loop of MemoryPool_IncreaseChunks links, from `slot` down
abbrev pub slots_from : (fuel block_size low slot : ℕ) → List ℕ
slots_from zero block_size low slot = slot ∷ []
slots_from (suc fuel) block_size low slot =
    let rest = slots_from fuel block_size low (slot - block_size) in
    if ltb slot (low + block_size) then slot ∷ [] else slot ∷ rest

module _ (block_size low : ℕ) (wide : 1 ≤ block_size) where
  pub slots_from-bounds :
      (fuel slot : ℕ)
      → low ≤ slot
      → (x : ℕ) → 0 < count x (slots_from fuel block_size low slot)
      → (low ≤ x) × (x ≤ slot)
  slots_from-bounds zero slot above x p = (ground (arith, p, above), ground (arith, p))
  slots_from-bounds (suc fuel) slot above x p = elim (Bool-cases (ltb slot (low + block_size))) [
    | inl e ↦ (ground (arith, p, above, e), ground (arith, p, e))
    | inr e ↦
        let rest = slots_from-bounds fuel (slot - block_size) (ground (arith, e)) x in
        (ground (arith, p, above, e, rest), ground (arith, p, e, rest))
  ]

  -- the slots are whole blocks apart
  pub slots_from-apart :
      (fuel slot : ℕ)
      → low ≤ slot
      → (x : ℕ) → 0 < count x (slots_from fuel block_size low slot)
      → (k : ℕ) × (x + k * block_size ≡ slot)
  slots_from-apart zero slot above x p = (0, ground (arith, p))
  slots_from-apart (suc fuel) slot above x p = elim (Bool-cases (ltb slot (low + block_size))) [
    | inl e ↦ (0, ground (arith, p, e))
    | inr e ↦ elim (Bool-cases (slot == x)) [
      | inl q ↦ (0, ground (arith, q))
      | inr q ↦
          let (k, at) =
            slots_from-apart fuel (slot - block_size) (ground (arith, e)) x
              (ground (arith, p, e, q)) in
          (suc k, ground (arith, at, e, suc-mul k block_size))
    ]
  ]

  pub slots_from-once :
      (fuel slot : ℕ) → low ≤ slot → (x : ℕ) → count x (slots_from fuel block_size low slot) ≤ 1
  slots_from-once zero slot above x = ground arith
  slots_from-once (suc fuel) slot above x = elim (Bool-cases (ltb slot (low + block_size))) [
    | inl e ↦ ground (arith, e)
    | inr e ↦
        let once = slots_from-once fuel (slot - block_size) (ground (arith, e)) x in
        let bounds = slots_from-bounds fuel (slot - block_size) (ground (arith, e)) x in
        ground (arith, e, once, bounds, wide)
  ]

  one_more : (n : ℕ) → (n + block_size) / block_size ≡ n / block_size + 1
  one_more n = div-eq-sub-div wide (omega arith) ∙ ap (λ k. k / block_size + 1) (omega arith)

  pub slots_from-length :
      (fuel slot : ℕ)
      → low ≤ slot
      → slot ≤ low + fuel
      → length (slots_from fuel block_size low slot) ≡ (slot - low + block_size) / block_size
  slots_from-length zero slot above enough =
      let none_left : (slot - low) / block_size ≡ 0 = div-eq_of_lt (omega (arith, wide, enough)) in
      omega (arith, none_left, one_more (slot - low))
  slots_from-length (suc fuel) slot above enough = elim (Bool-cases (ltb slot (low + block_size))) [
    | inl e ↦
        let none_left : (slot - low) / block_size ≡ 0 = div-eq_of_lt (ground (arith, e)) in
        rw e (omega (arith, none_left, one_more (slot - low)))
    | inr e ↦
        let block = slot - block_size in
        let rest =
          slots_from-length fuel block (ground (arith, e)) (ground (arith, e, enough, wide)) in
        let less : block - low + block_size ≡ slot - low = ground (arith, e) in
        rw e (
          ap suc (rest ∙ ap (λ n. n / block_size) less) ∙ omega arith ∙ sym (one_more (slot - low)))
  ]

  pub link_slots-other :
      (fuel slot : ℕ) (word : ℕ → ℕ) (x : ℕ)
      → count x (slots_from fuel block_size low slot) ≡ 0
      → link_slots fuel block_size low slot word x ≡ word x
  unfolding link_slots
  link_slots-other zero slot word x away = ground (arith, away)
  link_slots-other (suc fuel) slot word x away = elim (Bool-cases (ltb slot (low + block_size))) [
    | inl e ↦ ground (arith, away, e)
    | inr e ↦
        let rest =
          link_slots-other fuel (slot - block_size) (set_at word slot (slot - block_size)) x
            (ground (arith, away, e)) in
        rw e (rest ∙ ground (arith, away, e))
  ]

  pub link_slots-IsChain :
      (fuel slot : ℕ) (word : ℕ → ℕ)
      → low ≤ slot
      → IsChain
          (link_slots fuel block_size low slot word)
          slot
          (slots_from fuel block_size low slot)
  unfolding link_slots
  link_slots-IsChain zero slot word above = (refl, ground arith)
  link_slots-IsChain (suc fuel) slot word above = elim (Bool-cases (ltb slot (low + block_size))) [
    | inl e ↦ rw e (refl, ground arith)
    | inr e ↦
        let block = slot - block_size in
        let linked = set_at word slot block in
        let bounds = slots_from-bounds fuel block (ground (arith, e)) slot in
        let next : link_slots fuel block_size low block linked slot ≡ block =
          link_slots-other fuel block linked slot (ground (arith, bounds, wide, e))
          ∙ ground arith in
        rw e (refl, rw next (link_slots-IsChain fuel block linked (ground (arith, e))))
  ]
