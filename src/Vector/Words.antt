-- ===== src/Vector/Words.antt =====
-- Pointers as the bytes that a vector holds, the lowest first.
use native.Mathlib.Nat.{pow-suc, div-lt_iff_lt-mul}
use pixy.Base.{ℕ, zero, suc, ◌+◌, ◌*◌, ◌/◌, ◌%◌, ◌^◌, ◌<◌, ◌≤◌, ◌≡◌, refl, ap, ◌∙◌, arith}

-- a byte of a number
unfoldable pub byte_of : (value at : ℕ) → ℕ
byte_of value zero = value % 256
byte_of value (suc at) = byte_of (value / 256) at

-- the number of which `count` bytes are at `at`
unfoldable pub load_bytes : (count : ℕ) → (bytes : ℕ → ℕ) → (at : ℕ) → ℕ
load_bytes zero bytes at = 0
load_bytes (suc count) bytes at = bytes at + 256 * load_bytes count bytes (at + 1)

-- the bytes of pointers of eight bytes, one behind the other
unfoldable pub store_words : (words : ℕ → ℕ) → ℕ → ℕ
unfolding byte_of
store_words words i = byte_of (words (i / 8)) (i % 8)

-- the pointer at an index
unfoldable pub load_word : (bytes : ℕ → ℕ) → (index : ℕ) → ℕ
unfolding load_bytes
load_word bytes index = load_bytes 8 bytes (8 * index)

byte_of-zero : (at : ℕ) → byte_of 0 at ≡ 0
unfolding byte_of
byte_of-zero zero = refl
byte_of-zero (suc at) = byte_of-zero at

load_bytes-byte_of :
    (count value : ℕ) (bytes : ℕ → ℕ) (at : ℕ)
    → value < 256 ^ count
    → ((k : ℕ) → k < count → bytes (at + k) ≡ byte_of value k)
    → load_bytes count bytes at ≡ value
unfolding load_bytes byte_of
load_bytes-byte_of zero value bytes at low same = omega (arith, low)
load_bytes-byte_of (suc n) value bytes at low same =
    let first : bytes at ≡ value % 256 = ap bytes (omega arith) ∙ same 0 (omega arith) in
    let rest =
      load_bytes-byte_of n (value / 256) bytes (at + 1)
        ((div-lt_iff_lt-mul (omega arith)).1 (rw (pow-suc 256 n) at low))
        (λ k p. ap bytes (omega arith) ∙ same (suc k) (omega (arith, p))) in
    omega (arith, first, rest)

-- an index whose eight bytes are those of the pointer
pub load_word-store_words :
    (words bytes : ℕ → ℕ) (index : ℕ)
    → words index < 2 ^ 64
    → ((i : ℕ) → i < 8 * index + 8 → 8 * index ≤ i → bytes i ≡ store_words words i)
    → load_word bytes index ≡ words index
unfolding load_word store_words
load_word-store_words words bytes index low same =
    load_bytes-byte_of 8 (words index) bytes (8 * index) (omega (arith, low)) (λ k p.
      let word : (8 * index + k) / 8 ≡ index = omega (arith, p) in
      let place : (8 * index + k) % 8 ≡ k = omega (arith, p) in
      same (8 * index + k) (omega (arith, p)) (omega arith) ∙ rw (word, place) refl)

pub store_words-zero : (words : ℕ → ℕ) (i : ℕ) → words (i / 8) ≡ 0 → store_words words i ≡ 0
unfolding store_words
store_words-zero words i none_there = rw none_there (byte_of-zero (i % 8))
