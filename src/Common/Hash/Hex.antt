-- ===== src/Common/Hash/Hex.antt =====
-- The hexadecimal form of a digest: what the server stores as a password.
use rain_typing_game.Prelude.{
  ℕ, ◌*◌, ◌/◌, ◌%◌, ap₂, ◌≤◌, ◌<◌, ◌≡◌, ◌⊎◌, refl, subst, inl, inr, Bool, some, [], ◌∷◌, Bytes,
  ◌==◌, length, All, Lacks, arith, Bool-cases,
}
use rain_typing_game.Common.Protocol.{max_pw_len}
use rain_typing_game.Common.Hash.{
  digest_length, hex_digit, bytes_to_hex, DigestIo, finish_hash, hash_password_sha256,
}

abbrev pub IsByte : ℕ → Type 0
IsByte b = b < 256

-- A small letter up to `f`, or a decimal digit.
abbrev IsHexDigit : ℕ → Type 0
IsHexDigit c = ((b'0' ≤ c) × (c ≤ b'9')) ⊎ ((b'a' ≤ c) × (c ≤ b'f'))

length-bytes_to_hex : (bytes : Bytes) → length (bytes_to_hex bytes) ≡ 2 * length bytes
unfolding bytes_to_hex
length-bytes_to_hex [] = omega arith
length-bytes_to_hex (b ∷ bytes) = omega (arith, length-bytes_to_hex bytes)

hex_digit-IsHexDigit : (n : ℕ) → n < 16 → IsHexDigit (hex_digit n)
hex_digit-IsHexDigit n h = ground arith

bytes_to_hex-IsHexDigit : (bytes : Bytes) → All IsByte bytes → All IsHexDigit (bytes_to_hex bytes)
unfolding bytes_to_hex
bytes_to_hex-IsHexDigit [] h = tt
bytes_to_hex-IsHexDigit (b ∷ bytes) (k, h) = (
  hex_digit-IsHexDigit _ (omega arith),
  (hex_digit-IsHexDigit _ (omega arith), bytes_to_hex-IsHexDigit bytes h),
)

hex_digit_injective : (m n : ℕ) → m < 16 → n < 16 → hex_digit m ≡ hex_digit n → m ≡ n
hex_digit_injective m n h k e = ground (arith, e)

-- Two digests with the same hexadecimal form are the same.
bytes_to_hex_injective :
    (a b : Bytes) → All IsByte a → All IsByte b → bytes_to_hex a ≡ bytes_to_hex b → a ≡ b
unfolding bytes_to_hex
bytes_to_hex_injective [] [] h k e = refl
bytes_to_hex_injective [] (y ∷ b) h k e = cc
bytes_to_hex_injective (x ∷ a) [] h k e = cc
bytes_to_hex_injective (x ∷ a) (y ∷ b) (p, h) (q, k) e =
    ap₂ ◌∷◌ (byte (first e) (second e)) (bytes_to_hex_injective a b h k (others e))
  where
    first : {c d c' d' : ℕ} → {s s' : Bytes} → c ∷ d ∷ s ≡ c' ∷ d' ∷ s' → c ≡ c'
    first e = cc

    second : {c d c' d' : ℕ} → {s s' : Bytes} → c ∷ d ∷ s ≡ c' ∷ d' ∷ s' → d ≡ d'
    second e = cc

    others : {c d c' d' : ℕ} → {s s' : Bytes} → c ∷ d ∷ s ≡ c' ∷ d' ∷ s' → s ≡ s'
    others e = cc

    byte : hex_digit (x / 16) ≡ hex_digit (y / 16) → hex_digit (x % 16) ≡ hex_digit (y % 16) → x ≡ y
    byte u l = omega (
      arith,
      hex_digit_injective (x / 16) (y / 16) (omega (arith, p)) (omega (arith, q)) u,
      hex_digit_injective (x % 16) (y % 16) (omega arith) (omega arith) l,
    )

-- What a hash is as a password of the users file.
pub record IsStoredHash (hash : Bytes) : Type 0 where
  pub size : length hash ≡ 64
  pub fits : length hash < max_pw_len
  pub digits : All IsHexDigit hash
  pub text : Lacks 0 hash × (Lacks b'\n' hash × Lacks b':' hash)

IsHexDigit-Lacks : (c : ℕ) (s : Bytes) → c < b'0' ⊎ (c ≡ b':') → All IsHexDigit s → Lacks c s
IsHexDigit-Lacks c [] n h = tt
IsHexDigit-Lacks c (x ∷ s) n (d, h) = (ground arith, IsHexDigit-Lacks c s n h)

finish_hash-IsStoredHash :
    (digest hash : Bytes) → All IsByte digest → finish_hash digest ≡ some hash → IsStoredHash hash
unfolding finish_hash
finish_hash-IsStoredHash digest hash h e = elim (Bool-cases (length digest == digest_length)) [
  | inl size ↦
      let same : bytes_to_hex digest ≡ hash = ground (arith, e, size) in
      let digits = bytes_to_hex-IsHexDigit digest h in
      let long = length-bytes_to_hex digest in
      subst IsStoredHash same (record {
        size = ground (arith, long, size);
        fits = ground (arith, long, size);
        digits = digits;
        text = (
          IsHexDigit-Lacks 0 _ (inl (omega arith)) digits,
          (
            IsHexDigit-Lacks b'\n' _ (inl (omega arith)) digits,
            IsHexDigit-Lacks b':' _ (inr refl) digits,
          ),
        );
      })
  | inr other ↦ absurd (ground (arith, e, other))
]

-- For any digest function on bytes, a hash that hash_password_sha256 writes has 64 hexadecimal
-- digits, fits the password field, and has no zero byte, newline or colon.
pub hash_password_sha256-IsStoredHash :
    (sha256 : Bytes → Bytes) (crypto_initialized : Bool) (io : DigestIo) (password hash : Bytes)
    → All IsByte (sha256 password)
    → hash_password_sha256 sha256 crypto_initialized io (some password) ≡ some hash
    → IsStoredHash hash
unfolding hash_password_sha256
hash_password_sha256-IsStoredHash sha256 crypto_initialized io password hash h e =
    finish_hash-IsStoredHash (sha256 password) hash h (ground (arith, e))
