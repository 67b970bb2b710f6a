-- ===== src/Base/Decimal.antt =====
-- Go's `strconv.Itoa` and `strconv.Atoi`, on 64-bit integers.
use Prim.Native.Nat.{ℕ, zero, suc, ◌+◌, ◌-◌, ◌*◌, ◌/◌, ◌%◌, ◌^◌}
use Prim.Native.Char.{Char, code}
use Prim.Native.String
use Prim.Native.String.{String, [], ◌∷◌}
use mathlib.Core.Bool.{◌&&◌}
use mathlib.Core.Option.{Option, none, some}
use lumen_mcp_server.Base.Tests.{ltb, leb, eqb, if◌then◌else◌}
use lumen_mcp_server.Base.Int.{ℤ, pos, negsuc}

digit : ℕ → Char
digit zero = "0"
digit (suc zero) = "1"
digit (suc (suc zero)) = "2"
digit (suc (suc (suc zero))) = "3"
digit (suc (suc (suc (suc zero)))) = "4"
digit (suc (suc (suc (suc (suc zero))))) = "5"
digit (suc (suc (suc (suc (suc (suc zero)))))) = "6"
digit (suc (suc (suc (suc (suc (suc (suc zero))))))) = "7"
digit (suc (suc (suc (suc (suc (suc (suc (suc zero)))))))) = "8"
digit _ = "9"

-- the digits of a number in front of a text; every round divides by ten, so `n` rounds are enough
digits_onto : ℕ → ℕ → String → String
digits_onto zero n out = digit (n % 10) ∷ out
digits_onto (suc fuel) n out =
    let more = digits_onto fuel (n / 10) (digit (n % 10) ∷ out) in
    if ltb n 10 then digit n ∷ out else more

-- strconv.Itoa
unfoldable pub itoa : ℤ → String
unfolding digits_onto digit
itoa (pos n) = digits_onto n n ""
itoa (negsuc n) = String.◌++◌ "-" (digits_onto n (n + 1) "")

-- the number that a text of digits stands for, from the number read so far
read_digits : ℕ → String → Option ℕ
read_digits n [] = some n
read_digits n (c ∷ s) =
    let rest = read_digits (n * 10 + (code c - b'0')) s in
    if leb b'0' (code c) && leb (code c) b'9' then rest else none

read_number : String → Option ℕ
read_number [] = none
read_number (c ∷ s) = read_digits 0 (c ∷ s)

up_to_max : Option ℕ → Option ℤ
up_to_max none = none
up_to_max (some n) = if ltb n (2 ^ 63) then some (pos n) else none

down_to_min : Option ℕ → Option ℤ
down_to_min none = none
down_to_min (some zero) = some (pos 0)
down_to_min (some (suc n)) = if ltb n (2 ^ 63) then some (negsuc n) else none

-- strconv.Atoi; the error is `none`
unfoldable pub atoi : String → Option ℤ
unfolding read_digits read_number up_to_max down_to_min
atoi [] = none
atoi (c ∷ s) =
    if eqb (code c) b'-'
    then down_to_min (read_number s)
    else if eqb (code c) b'+'
    then up_to_max (read_number s)
    else up_to_max (read_number (c ∷ s))
