-- ===== src/Vector/Size.antt =====
-- NextPowerOfTwo is at least its argument, up to 2 ^ 63.
use Prim.Native.Nat.{bit_or, bit_or-bitwise, digits, max}
use pixy.Base.{
  ℕ, zero, suc, ◌+◌, ◌-◌, ◌*◌, ◌/◌, ◌%◌, ◌^◌, ◌<◌, ◌≤◌, ◌≡◌, sym, arith, inl, inr, ltb, Bool-cases,
  subst,
}
use native.Mathlib.Nat.{div-le_self}
use pixy.Vector.{smear, next_power_of_two, size_max}

max_left : (x y : ℕ) → x ≤ max x y
max_left x y = ground arith

max_bound : (x y : ℕ) → x < 2 → y < 2 → max x y < 2
max_bound x y p q = ground arith

digits_left : (n a b : ℕ) → a ≤ n → a ≤ digits (λ y. y) max n a b
digits_left zero zero b p = omega arith
digits_left zero (suc a) b p = absurd (omega arith)
digits_left (suc n) zero b p = omega arith
digits_left (suc n) (suc a) b p =
    omega (arith, digits_left n (suc a / 2) (b / 2) (omega arith), max_left (suc a % 2) (b % 2))

digits_bound : (k n a b : ℕ) → a < 2 ^ k → b < 2 ^ k → digits (λ y. y) max n a b < 2 ^ k
digits_bound k zero a b p q = q
digits_bound k (suc n) zero b p q = q
digits_bound zero (suc n) (suc a) b p q = absurd (omega arith)
digits_bound (suc k) (suc n) (suc a) b p q = ground (
  arith,
  digits_bound k n (suc a / 2) (b / 2) (ground arith) (ground arith),
  max_bound (suc a % 2) (b % 2) (omega arith) (omega arith),
)

bit_or_left : (a b : ℕ) → a ≤ bit_or a b
bit_or_left a b = subst (λ x. a ≤ x) (sym (bit_or-bitwise a b)) (digits_left a a b (omega arith))

bit_or_bound : (k a b : ℕ) → a < 2 ^ k → b < 2 ^ k → bit_or a b < 2 ^ k
bit_or_bound k a b p q =
    subst (λ x. x < 2 ^ k) (sym (bit_or-bitwise a b)) (digits_bound k a a b p q)

smear_left : (fuel k number : ℕ) → number ≤ smear fuel k number
unfolding smear
smear_left zero k number = omega arith
smear_left (suc fuel) k number = elim (Bool-cases (ltb k 64)) [
  | inl e ↦ rw e (
      omega (
        arith,
        bit_or_left number (number / 2 ^ k),
        smear_left fuel (k * 2) (bit_or number (number / 2 ^ k)),
      ))
  | inr e ↦ rw e (omega arith)
]

smear_bound : (j fuel k number : ℕ) → number < 2 ^ j → smear fuel k number < 2 ^ j
unfolding smear
smear_bound j zero k number p = p
smear_bound j (suc fuel) k number p = elim (Bool-cases (ltb k 64)) [
  | inl e ↦ rw e (
      smear_bound j fuel (k * 2) (bit_or number (number / 2 ^ k))
        (bit_or_bound j number (number / 2 ^ k) p (omega (arith, p, div-le_self number (2 ^ k)))))
  | inr e ↦ rw e p
]

pub next_power_of_two-left :
    (number : ℕ) → 1 ≤ number → number ≤ 2 ^ 63 → number ≤ next_power_of_two number
unfolding next_power_of_two
next_power_of_two-left number p q =
    let m : (number + size_max - 1) % size_max ≡ number - 1 = omega arith in
    rw m (omega (arith, smear_left 7 1 (number - 1), smear_bound 63 7 1 (number - 1) (omega arith)))
