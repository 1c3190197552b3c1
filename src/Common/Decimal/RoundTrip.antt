-- ===== src/Common/Decimal/RoundTrip.antt =====
-- What `%d` prints is read back by `strtol`, and fits the line of a score.
use native.Mathlib.Nat.{pow-suc}
use rain_typing_game.Prelude.{
  replicate, ◌++◌, ℕ, zero, suc, ◌+◌, ◌/◌, ◌%◌, ◌^◌, ◌≤◌, ◌<◌, ◌≡◌, ◌≢◌, ◌⊎◌, refl, Bool, true,
  false, some, [], ◌∷◌, Bytes, ℤ, pos, negsuc, IsInt, ◌∙◌, All, Lacks, length, arith,
}
use rain_typing_game.Common.Decimal.{
  skip_space, print_nat, digits, digits, print_nat, print_int, read_digits, clamp_long,
  strtol_digits, strtol, to_int,
}

abbrev IsDigit : ℕ → Type 0
IsDigit c = (b'0' ≤ c) × (c ≤ b'9')

digits-IsDigit : (f n : ℕ) (out : Bytes) → All IsDigit out → All IsDigit (digits f n out)
unfolding digits
digits-IsDigit zero n out h = h
digits-IsDigit (suc f) n out h =
    ground (arith, digits-IsDigit f (n / 10) ((b'0' + n % 10) ∷ out) ((omega arith), h))

read_digits-digits :
    (f n : ℕ) (out : Bytes) → n < f → read_digits (digits f n out) 0 ≡ read_digits out n
unfolding digits read_digits
read_digits-digits zero n out h = absurd (omega arith)
read_digits-digits (suc f) n out h =
    ground (arith, read_digits-digits f (n / 10) ((b'0' + n % 10) ∷ out))

length-digits-le : (k f n : ℕ) (out : Bytes) → n < 10 ^ k → length (digits f n out) ≤ k + length out
unfolding digits
length-digits-le k zero n out h = omega arith
length-digits-le zero (suc f) n out h = ground arith
length-digits-le (suc k) (suc f) n out h =
    let small : n / 10 < 10 ^ k = omega (arith, pow-suc 10 k) in
    ground (arith, length-digits-le k f (n / 10) ((b'0' + n % 10) ∷ out) small)

IsDigit-Lacks : (b : ℕ) (s : Bytes) → (b < b'0') ⊎ (b'9' < b) → All IsDigit s → Lacks b s
IsDigit-Lacks b [] out h = tt
IsDigit-Lacks b (c ∷ s) out (d, h) = (ground arith, IsDigit-Lacks b s out h)

print_nat-IsDigit : (n : ℕ) → All IsDigit (print_nat n)
unfolding print_nat
print_nat-IsDigit n = ground (arith, digits-IsDigit (suc n) n [] tt)

read_digits-print_nat : (n : ℕ) → read_digits (print_nat n) 0 ≡ (n, [])
unfolding print_nat read_digits
read_digits-print_nat n = ground (arith, read_digits-digits (suc n) n [])

length-print_nat-le : (k n : ℕ) → 0 < k → n < 10 ^ k → length (print_nat n) ≤ k
unfolding print_nat
length-print_nat-le k n h small = ground (arith, length-digits-le k (suc n) n [] small)

strtol_digits-print_nat :
    (negative : Bool) (s : Bytes) (n : ℕ)
    → All IsDigit s
    → read_digits s 0 ≡ (n, [])
    → s ≢ []
    → strtol_digits negative s ≡ some (clamp_long negative n, [])
unfolding strtol_digits
strtol_digits-print_nat negative [] n d r h = absurd (h refl)
strtol_digits-print_nat negative (c ∷ s) n d r h = rw r (ground arith)

strtol_plain : (s : Bytes) → All IsDigit s → s ≢ [] → strtol s ≡ strtol_digits false s
unfolding strtol
strtol_plain [] d h = absurd (h refl)
strtol_plain (c ∷ s) d h = ground arith

strtol_minus : (s : Bytes) → strtol (b'-' ∷ s) ≡ strtol_digits true s
unfolding strtol
strtol_minus s = refl

print_nat-ne-nil : (n : ℕ) → print_nat n ≢ []
unfolding print_nat read_digits
print_nat-ne-nil n e = ground (arith, read_digits-print_nat n)

-- A printed `int` is read back whole.
pub strtol-print_int : (z : ℤ) → IsInt z → strtol (print_int z) ≡ some (z, [])
unfolding print_int clamp_long
strtol-print_int (pos n) h =
    strtol_plain _ (print_nat-IsDigit n) (print_nat-ne-nil n)
    ∙ strtol_digits-print_nat false _ n (print_nat-IsDigit n) (read_digits-print_nat n)
        (print_nat-ne-nil n)
    ∙ ground arith
strtol-print_int (negsuc n) h =
    strtol_minus _
    ∙ strtol_digits-print_nat true _ (suc n) (print_nat-IsDigit (suc n))
        (read_digits-print_nat (suc n)) (print_nat-ne-nil (suc n))
    ∙ ground arith

-- An `int` keeps its value through `long`.
pub to_int_lem : (z : ℤ) → IsInt z → to_int z ≡ z
unfolding to_int
to_int_lem (pos n) h = ground arith
to_int_lem (negsuc n) h = ground arith

pub length-print_int-le : (z : ℤ) → IsInt z → length (print_int z) ≤ 11
unfolding print_int
length-print_int-le (pos n) h = omega (arith, length-print_nat-le 10 n (omega arith) (omega arith))
length-print_int-le (negsuc n) h =
    omega (arith, length-print_nat-le 10 (suc n) (omega arith) (omega arith))

pub print_int-Lacks : (b : ℕ) (z : ℤ) → b ≢ b'-' → (b < b'0') ⊎ (b'9' < b) → Lacks b (print_int z)
unfolding print_int
print_int-Lacks b (pos n) m h = IsDigit-Lacks b _ h (print_nat-IsDigit n)
print_int-Lacks b (negsuc n) m h = (ground arith, IsDigit-Lacks b _ h (print_nat-IsDigit (suc n)))

-- Spaces in front of a number are skipped.
pub strtol-spaces : (n : ℕ) (s : Bytes) → strtol (replicate n 32 ++ s) ≡ strtol s
unfolding strtol skip_space
strtol-spaces zero s = refl
strtol-spaces (suc n) s = strtol-spaces n s

pub print_int-digit : (n : ℕ) → n < 10 → print_int (pos n) ≡ (b'0' + n) ∷ []
unfolding print_int print_nat digits
print_int-digit zero h = refl
print_int-digit (suc zero) h = refl
print_int-digit (suc (suc zero)) h = refl
print_int-digit (suc (suc (suc zero))) h = refl
print_int-digit (suc (suc (suc (suc zero)))) h = refl
print_int-digit (suc (suc (suc (suc (suc zero))))) h = refl
print_int-digit (suc (suc (suc (suc (suc (suc zero)))))) h = refl
print_int-digit (suc (suc (suc (suc (suc (suc (suc zero))))))) h = refl
print_int-digit (suc (suc (suc (suc (suc (suc (suc (suc zero)))))))) h = refl
print_int-digit (suc (suc (suc (suc (suc (suc (suc (suc (suc zero))))))))) h = refl
print_int-digit (suc (suc (suc (suc (suc (suc (suc (suc (suc (suc n)))))))))) h =
    absurd (omega arith)
