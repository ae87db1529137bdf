-- ===== src/Base/Itoa.antt =====
-- `strconv.Itoa` of a number that is not negative.
use Prim.Native.Nat.{ℕ, zero, suc, ◌/◌, ◌%◌}
use Prim.Native.Char.{Char}
use Prim.Native.String.{String}
use aiman.Base.Tests.{ltb, ◌==◌, if◌then◌else◌}

pub digit : ℕ → Char
digit d =
    if d == 0
    then "0"
    else if d == 1
    then "1"
    else if d == 2
    then "2"
    else if d == 3
    then "3"
    else if d == 4
    then "4"
    else if d == 5
    then "5"
    else if d == 6
    then "6"
    else if d == 7
    then "7"
    else if d == 8
    then "8"
    else "9"

-- The digits of `n` in front of `rest`. A number has fewer digits than it is large, so `suc n` is
-- enough fuel.
pub itoa_onto : ℕ → ℕ → String → String
unfolding digit
itoa_onto zero n rest = rest
itoa_onto (suc fuel) n rest =
    let more = itoa_onto fuel (n / 10) (String.◌∷◌ (digit (n % 10)) rest) in
    if ltb n 10 then String.◌∷◌ (digit n) rest else more

unfoldable pub itoa : ℕ → String
unfolding itoa_onto
itoa n = itoa_onto (suc n) n String.[]
