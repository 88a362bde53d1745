-- ===== src/Vector.antt =====
-- Source/Vector.c and Vector.h. The elements of a vector are bytes, a function of their offset, and `none` is
-- the null pointer. `realloc` is a parameter: from the size in bytes and the contents of a block to
-- the contents of the new one, `none` if there is no memory. A size_t has 64 bits.
pub mod Bytes
pub mod Size
pub mod Lengths
pub mod Words
pub mod Tests
use Prim.Native.Nat.{bit_or}
use pixy.Base.{
  ℕ, zero, suc, ◌+◌, ◌-◌, ◌*◌, ◌/◌, ◌%◌, ◌^◌, Bool, true, false, Option, none, some, ◌&&◌, ◌==◌,
  ltb, if◌then◌else◌,
}

pub record Vector : Type 0 where
  pub element_size : ℕ
  pub elements : Option (ℕ → ℕ)
  pub size : ℕ
  pub length : ℕ

abbrev pub size_max : ℕ
size_max = 2 ^ 64

-- Vector_Initialize
unfoldable pub initialize : (element_size : ℕ) → Vector
initialize element_size = record {
  element_size = element_size;
  elements = none;
  size = 0;
  length = 0;
}

-- Vector_GetElements
unfoldable pub get_elements : Vector → Option (ℕ → ℕ)
get_elements self = self.elements

-- Vector_GetLength
unfoldable pub get_length : Vector → ℕ
get_length self = self.length

-- the loop of NextPowerOfTwo, `fuel` more rounds of it: `number |= number >> k` for k, 2 * k, ...
unfoldable pub smear : (fuel k number : ℕ) → ℕ
smear zero k number = number
smear (suc fuel) k number =
    let rest = smear fuel (k * 2) (bit_or number (number / 2 ^ k)) in
    if ltb k 64 then rest else number

-- NextPowerOfTwo; from 1, k reaches the 64 bits of a size_t in six rounds
unfoldable pub next_power_of_two : ℕ → ℕ
next_power_of_two number = (smear 7 1 ((number + size_max - 1) % size_max) + 1) % size_max

-- `memset((char *)elements + from, 0, to - from)`
unfoldable pub zero_bytes : (from to : ℕ) → (ℕ → ℕ) → ℕ → ℕ
zero_bytes from to bytes i = if ltb i from then bytes i else if ltb i to then 0 else bytes i

-- what `realloc` is: the old size and contents, then the new size
abbrev pub Realloc : Type 0
Realloc = ℕ → Option (ℕ → ℕ) → ℕ → Option (ℕ → ℕ)

module _ (realloc : Realloc) where
  -- the end of Vector_SetLength and of Vector_Expand: the block of `size` bytes, zeroed if asked
  unfoldable pub resize : Vector → (size : ℕ) → (zeroes : Bool) → Bool × Vector
  unfolding zero_bytes
  resize self size zeroes = elim (realloc self.size self.elements size) [
    | none ↦ (false, self)
    | some bytes ↦ (
      true,
      record self {
        elements = some (if zeroes then zero_bytes self.size size bytes else bytes);
        size = size;
        length = size / self.element_size;
      },
    )
  ]

  -- Vector_SetLength; `length * self->elementSize` wraps around
  unfoldable pub set_length : Vector → (length : ℕ) → (zero_new_elements : Bool) → Bool × Vector
  unfolding resize next_power_of_two
  set_length self length zero_new_elements =
      let size = next_power_of_two (length * self.element_size % size_max) in
      if self.size == size
      then (true, self)
      else (if size == 0
          then (true, record self { elements = none; size = 0; length = 0 })
          else (resize self size (zero_new_elements && ltb self.size size)))

  -- Vector_Expand; `none` if the assertion fails that the size is not 0
  unfoldable pub expand : Vector → (zero_new_elements : Bool) → Option (Bool × Vector)
  unfolding resize
  expand self zero_new_elements =
      if self.size == 0
      then none
      else (some (resize self (2 * self.size % size_max) zero_new_elements))
