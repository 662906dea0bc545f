-- ===== src/Prelude/Decimal.antt =====
-- Decimal numbers as Go prints them (`%d`) and parses them (`strconv.Atoi`, `strconv.ParseUint`).
use Prim.Native.Nat.{ℕ, zero, suc, ◌+◌, ◌-◌, ◌*◌, ◌/◌, ◌%◌, ◌^◌}
use Prim.Native.Char.{code}
use Prim.Native.String.{String, ◌++◌ as ◌<>◌}
use mathlib.Core.Path.{◌≡◌, refl}
use mathlib.Core.Bool.{◌&&◌}
use mathlib.Core.Option.{Option, none, some}
use rbln_container_toolkit.Prelude.Tests.{nat_beq, ltb, leb, if◌then◌else◌}
use rbln_container_toolkit.Prelude.Int.{ℤ, pos, negsuc}

unfoldable pub digit : ℕ → String
digit zero = "0"
digit (suc zero) = "1"
digit (suc (suc zero)) = "2"
digit (suc (suc (suc zero))) = "3"
digit (suc (suc (suc (suc zero)))) = "4"
digit (suc (suc (suc (suc (suc zero))))) = "5"
digit (suc (suc (suc (suc (suc (suc zero)))))) = "6"
digit (suc (suc (suc (suc (suc (suc (suc zero))))))) = "7"
digit (suc (suc (suc (suc (suc (suc (suc (suc zero)))))))) = "8"
digit _ = "9"

-- The fuel is more than the number of digits, since each round divides by ten.
unfoldable pub decimal_fuel : ℕ → ℕ → String
unfolding digit
decimal_fuel zero n = ""
decimal_fuel (suc f) n =
    let higher = decimal_fuel f (n / 10) in if ltb n 10 then digit n else higher <> digit (n % 10)

-- `%d` of a number that is not negative.
unfoldable pub decimal : ℕ → String
unfolding decimal_fuel
decimal n = decimal_fuel (suc n) n

-- The value of a text of digits, with no bound.
unfoldable pub digits_from : ℕ → String → Option ℕ
digits_from acc String.[] = some acc
digits_from acc (String.◌∷◌ c s) =
    let rest = digits_from (acc * 10 + (code c - 48)) s in
    if leb 48 (code c) && leb (code c) 57 then rest else none

-- A text of digits that is not empty.
unfoldable pub digits : String → Option ℕ
unfolding digits_from
digits String.[] = none
digits (String.◌∷◌ c s) = digits_from 0 (String.◌∷◌ c s)

abbrev pub below : ℕ → Option ℕ → Option ℕ
below bound none = none
below bound (some n) = if ltb n bound then some n else none

-- `strconv.ParseUint(s, 10, bits)`: no sign is allowed.
unfoldable pub parse_uint : String → ℕ → Option ℕ
unfolding digits
parse_uint s bits = below (2 ^ bits) (digits s)

abbrev negative : Option ℕ → Option ℤ
negative none = none
negative (some zero) = some (pos 0)
negative (some (suc n)) = if ltb n (2 ^ 63) then some (negsuc n) else none

abbrev positive : Option ℕ → Option ℤ
positive none = none
positive (some n) = if ltb n (2 ^ 63) then some (pos n) else none

-- `strconv.Atoi` on a 64-bit platform: one sign may stand in front.
unfoldable pub atoi : String → Option ℤ
unfolding digits
atoi String.[] = none
atoi (String.◌∷◌ c s) =
    if nat_beq (code c) b'-'
    then negative (digits s)
    else if nat_beq (code c) b'+'
    then positive (digits s)
    else positive (digits (String.◌∷◌ c s))

abbrev clamp_positive : Option ℕ → ℤ
clamp_positive none = pos 0
clamp_positive (some n) = if ltb n (2 ^ 63) then pos n else pos (2 ^ 63 - 1)

abbrev clamp_negative : Option ℕ → ℤ
clamp_negative none = pos 0
clamp_negative (some zero) = pos 0
clamp_negative (some (suc n)) = if ltb n (2 ^ 63) then negsuc n else negsuc (2 ^ 63 - 1)

-- The number that `strconv.Atoi` returns beside its error: 0 for a text that is no number, and the
-- nearest number for one out of range.
unfoldable pub atoi_value : String → ℤ
unfolding digits
atoi_value String.[] = pos 0
atoi_value (String.◌∷◌ c s) =
    if nat_beq (code c) b'-'
    then clamp_negative (digits s)
    else if nat_beq (code c) b'+'
    then clamp_positive (digits s)
    else clamp_positive (digits (String.◌∷◌ c s))

decimal_examples : (decimal 0 ≡ "0") × (decimal 1024 ≡ "1024")
unfolding decimal
decimal_examples = (refl, refl)

atoi_examples :
    (atoi "17" ≡ some (pos 17))
    × (atoi "-1" ≡ some (negsuc 0))
    × (atoi "+5" ≡ some (pos 5))
    × (atoi "fs0" ≡ none)
    × (atoi "" ≡ none)
    × (parse_uint "+5" 32 ≡ none)
    × (atoi "9223372036854775808" ≡ none)
unfolding atoi parse_uint
atoi_examples = (refl, refl, refl, refl, refl, refl, refl)
