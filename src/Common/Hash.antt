-- ===== src/Common/Hash.antt =====
-- common/src/hash_util.c. SHA-256 is OpenSSL's: a function from the bytes of a password to the bytes
-- of its digest.
pub mod Hex
use rain_typing_game.Prelude.{
  ℕ, ◌+◌, ◌-◌, ◌/◌, ◌%◌, Bool, true, false, not, ◌&&◌, ◌||◌, Option, none, some, List, [], ◌∷◌,
  Bytes, ltb, ◌==◌, if◌then◌else◌, length,
}

-- SHA256_DIGEST_LENGTH of OpenSSL
abbrev pub digest_length : ℕ
digest_length = 32

-- One digit of `%02x`
abbrev hex_digit : ℕ → ℕ
hex_digit n = if ltb n 10 then b'0' + n else b'a' + n - 10

pub bytes_to_hex : Bytes → Bytes
bytes_to_hex [] = []
bytes_to_hex (b ∷ bytes) = hex_digit (b / 16) ∷ hex_digit (b % 16) ∷ bytes_to_hex bytes

-- crypto_initialized after each call, whatever it was.
abbrev crypto_init : Bool → Bool × Bool
crypto_init crypto_initialized = (true, true)

abbrev pub crypto_cleanup : Bool → Bool
crypto_cleanup crypto_initialized = false

-- Which of the calls of OpenSSL succeed.
pub record DigestIo : Type 0 where
  pub ctx_new : Bool
  pub init : Bool
  pub update : Bool
  pub final : Bool

finish_hash : Bytes → Option Bytes
finish_hash hash = if not (length hash == digest_length) then none else some (bytes_to_hex hash)

-- What is written to `hash_output`, or `none` for the result 0. A `hash_output` of NULL is not
-- passed by any caller.
unfoldable pub hash_password_sha256 :
    (Bytes → Bytes) → Bool → DigestIo → Option Bytes → Option Bytes
unfolding finish_hash
hash_password_sha256 sha256 crypto_initialized io none = none
hash_password_sha256 sha256 crypto_initialized io (some password) =
    if not crypto_initialized || not io.ctx_new
    then none
    else if not io.init || not io.update || not io.final
    then none
    else finish_hash (sha256 password)
