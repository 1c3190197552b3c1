-- ===== src/Common/Decimal.antt =====
-- The decimal conversions of the C library that the server uses: `%d`, `strtol(s, &end, 10)` and
-- the cast of its `long` to `int`.
pub mod RoundTrip
use rain_typing_game.Prelude.{
  ℕ, zero, suc, ◌+◌, ◌-◌, ◌*◌, ◌/◌, ◌%◌, ◌^◌, ◌&&◌, ◌||◌, Bool, true, false, Option, none, some,
  List, [], ◌∷◌, ◌++◌, Bytes, ltb, leb, ◌==◌, if◌then◌else◌, ℤ, pos, negsuc,
}

-- The digits of `n` before `out`; each round takes one off, so `n + 1` rounds are enough.
digits : ℕ → ℕ → Bytes → Bytes
digits zero n out = out
digits (suc f) n out =
    let rest = digits f (n / 10) ((b'0' + n % 10) ∷ out) in if n == 0 then out else rest

print_nat : ℕ → Bytes
unfolding digits
print_nat n = if n == 0 then b'0' ∷ [] else digits (suc n) n []

-- `%d`
pub print_int : ℤ → Bytes
unfolding print_nat
print_int (pos n) = print_nat n
print_int (negsuc n) = b'-' ∷ print_nat (suc n)

abbrev is_digit : ℕ → Bool
is_digit c = leb b'0' c && leb c b'9'

-- `isspace` of the C locale
abbrev is_space : ℕ → Bool
is_space c = c == 32 || (leb 9 c && leb c 13)

skip_space : Bytes → Bytes
skip_space [] = []
skip_space (c ∷ s) = if is_space c then skip_space s else c ∷ s

read_digits : Bytes → ℕ → ℕ × Bytes
read_digits [] n = (n, [])
read_digits (c ∷ s) n =
    let rest = read_digits s (n * 10 + (c - b'0')) in if is_digit c then rest else (n, c ∷ s)

-- `LONG_MAX` and `LONG_MIN` stand for what is out of range.
clamp_long : Bool → ℕ → ℤ
clamp_long negative n =
    if negative
    then (if n == 0 then pos 0 else if ltb (2 ^ 63) n then negsuc (2 ^ 63 - 1) else negsuc (n - 1))
    else (if leb (2 ^ 63) n then pos (2 ^ 63 - 1) else pos n)

-- `none` where there is no digit, and so `end == s`
strtol_digits : Bool → Bytes → Option (ℤ × Bytes)
unfolding read_digits clamp_long
strtol_digits negative [] = none
strtol_digits negative (c ∷ s) =
    let (n, end) = read_digits (c ∷ s) 0 in
    if is_digit c then some (clamp_long negative n, end) else none

strtol_sign : Bytes → Option (ℤ × Bytes)
unfolding strtol_digits
strtol_sign [] = none
strtol_sign (c ∷ s) =
    if c == b'-'
    then strtol_digits true s
    else if c == b'+'
    then strtol_digits false s
    else strtol_digits false (c ∷ s)

pub strtol : Bytes → Option (ℤ × Bytes)
unfolding skip_space strtol_sign
strtol s = strtol_sign (skip_space s)

unfoldable pub of_word : ℕ → ℤ
of_word m = if ltb m (2 ^ 31) then pos m else negsuc (2 ^ 32 - m - 1)

-- `(int)x`: the low 32 bits, read as two's complement
pub to_int : ℤ → ℤ
unfolding of_word
to_int (pos n) = of_word (n % 2 ^ 32)
to_int (negsuc n) = of_word (2 ^ 32 - 1 - n % 2 ^ 32)
