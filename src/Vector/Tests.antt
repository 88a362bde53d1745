-- ===== src/Vector/Tests.antt =====
-- A vector of elements of eight bytes gets a length of five.
use mathlib.Core.Option.{some-injective}
use pixy.Base.{◌≤◌, ◌≡◌, refl, sym, ap, arith, Bool, true, false, none, some}
use pixy.Vector.{Vector, Realloc, initialize, set_length, next_power_of_two, smear}
use pixy.Vector.Bytes.{IsKeeping}
use pixy.Vector.Lengths.{IsVector, KeepsBytes, set_length-Promised}

-- a block that grows where it is
abbrev pub grow : Realloc
grow old none new = some (λ i. 7)
grow old (some bytes) new = some bytes

pub grow-IsKeeping : IsKeeping grow
grow-IsKeeping old new bytes after e i p q = ap (λ b. b i) (sym (some-injective _ _ e))

abbrev five : Bool × Vector
five = set_length grow (initialize 8) 5 true

set_length-Promised_example :
    IsVector five.1
    × KeepsBytes (initialize 8) five.1
    × (five.0 ≡ true → 5 ≤ five.1.length)
    × (five.0 ≡ false → five.1 ≡ initialize 8)
unfolding initialize
set_length-Promised_example =
    set_length-Promised grow grow-IsKeeping (initialize 8) 5 true refl (omega arith) (omega arith)

five_size : next_power_of_two 40 ≡ 64
unfolding next_power_of_two smear
five_size = refl
