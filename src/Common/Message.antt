-- ===== src/Common/Message.antt =====
-- common/include/protocol.h: message types, and how requests lie in a message body.
use rain_typing_game.Prelude.{
  Bool, ◌≢◌, ◌⊎◌, inl, inr, ℕ, zero, suc, ◌+◌, ◌-◌, ◌*◌, ◌/◌, ◌%◌, ◌^◌, ◌<◌, ◌≡◌, refl, ap, ap₂,
  ◌∙◌, length-append, length-replicate, length-str_copy-lt, Option, none, some, List, [], ◌∷◌, ◌++◌,
  append-nil, append_assoc, Bytes, ◌==◌, if◌then◌else◌, length, drop, replicate, Lacks, str_copy,
  str_copy_all, ℤ, pos, negsuc, IsInt, arith,
}
use mathlib.Core.Option
use rain_typing_game.Common.Protocol.{max_id_len, max_pw_len}
use rain_typing_game.Common.Decimal.{of_word}
use rain_typing_game.Common.Run.{Run, ok, crash, Ends, Ends-weaken, Ends-if_cases}

-- MessageHeader, packed: `MessageType type` in four bytes and `uint16_t length` in two, little
-- endian as on the machines that the Makefile builds for.
unfoldable pub encode_header : ℕ → ℕ → Bytes
encode_header type length =
    type % 256
    ∷ type / 256 % 256
    ∷ type / 65536 % 256
    ∷ type / 16777216 % 256
    ∷ length % 256
    ∷ length / 256 % 256
    ∷ []

-- The type and the length, from the six bytes of a header.
pub decode_header : Bytes → Option (ℕ × ℕ)
decode_header (a ∷ b ∷ c ∷ d ∷ e ∷ f ∷ []) =
    some (a + 256 * b + 65536 * c + 16777216 * d, e + 256 * f)
decode_header _ = none

-- A 32-bit type and a 16-bit length come out of the header that holds them.
pub decode-encode_header :
    (type length : ℕ)
    → type < 2 ^ 32
    → length < 2 ^ 16
    → decode_header (encode_header type length) ≡ some (type, length)
unfolding decode_header encode_header
decode-encode_header type length h k = ap some (ap₂ (λ x y. (x, y)) (omega arith) (omega arith))

-- `char field[n]` after `strncpy(field, s, n - 1); field[n - 1] = '\0'`: the rest is zero.
unfoldable char_array : ℕ → Bytes → Bytes
char_array n s = let kept = str_copy n s in kept ++ replicate (n - length kept) 0

-- The string at the start of some bytes, or `none` where no zero ends it within them.
unfoldable pub read_string : Bytes → Option Bytes
read_string [] = none
read_string (c ∷ s) = if c == 0 then some [] else Option.map (◌∷◌ c) (read_string s)

-- RegisterRequest and LoginRequest
pub encode_credentials : Bytes → Bytes → Bytes
encode_credentials username password =
    char_array max_id_len username ++ char_array max_pw_len password

-- The second string has `rest` within the body.
both_strings :
    (Bytes → Bytes → Bool) → Bytes → Option Bytes → Option Bytes → Run (Option Bytes × Option Bytes)
both_strings reads_past rest (some username) (some password) = ok (some username, some password)
both_strings reads_past rest (some username) none =
    if reads_past username rest then crash else ok (some username, some rest)
both_strings reads_past rest none _ = crash

-- `req->username` and `req->password`. An empty body is a NULL request, whose first field is at
-- NULL too; the password is not read then. A name that runs past the body is a crash. A password
-- that does is one where `reads_past` says, from the name and the bytes within the body, that the
-- caller reads it up to its end; else the caller sees those bytes at most.
pub decode_credentials : (Bytes → Bytes → Bool) → Bytes → Run (Option Bytes × Option Bytes)
unfolding both_strings
decode_credentials reads_past [] = ok (none, none)
decode_credentials reads_past (c ∷ body) =
    let rest = drop max_id_len (c ∷ body) in
    both_strings reads_past rest (read_string (c ∷ body)) (read_string rest)

-- One of the two strings of such a request does not end within the body.
abbrev pub Unended : Bytes → Type 0
Unended body = (read_string body ≡ none) ⊎ (read_string (drop max_id_len body) ≡ none)

both_strings-Ends :
    (reads_past : Bytes → Bytes → Bool) (rest : Bytes) (username password : Option Bytes)
    → Ends
        (λ req. req.0 ≢ none)
        ((username ≡ none) ⊎ (password ≡ none))
        (both_strings reads_past rest username password)
unfolding both_strings
both_strings-Ends reads_past rest (some username) (some password) = λ e. cc
both_strings-Ends reads_past rest none password = inl refl
both_strings-Ends reads_past rest (some username) none =
    Ends-if_cases (λ req. req.0 ≢ none) ((some username ≡ none) ⊎ (none ≡ none))
      (reads_past username rest) _ _ (λ e. inr refl) (λ e n. cc)

-- A request is read, where only a request that is NULL has no name, or one of its strings does not
-- end.
pub decode_credentials-Ends :
    (reads_past : Bytes → Bytes → Bool) (body : Bytes)
    → Ends (λ req. req.0 ≡ none → Unended body) (Unended body) (decode_credentials reads_past body)
unfolding decode_credentials read_string
decode_credentials-Ends reads_past [] = λ e. inl refl
decode_credentials-Ends reads_past (c ∷ body) =
    let rest = drop max_id_len (c ∷ body) in
    Ends-weaken {A = Option Bytes × Option Bytes} (λ req. req.0 ≢ none)
      (λ req. req.0 ≡ none → Unended (c ∷ body)) (Unended (c ∷ body)) _
      (decode_credentials reads_past (c ∷ body)) (λ req named e. absurd (named e)) (λ u. u)
      (both_strings-Ends reads_past rest (read_string (c ∷ body)) (read_string rest))

-- A string is what stands before the zero that ends it.
read_string-ended : (s rest : Bytes) → Lacks 0 s → read_string (s ++ (0 ∷ rest)) ≡ some s
unfolding read_string
read_string-ended [] rest h = ground arith
read_string-ended (c ∷ s) rest (m, h) = rw (read_string-ended s rest h) (ground arith)

read_string-padded :
    (s rest : Bytes) (n : ℕ) → Lacks 0 s → read_string (s ++ (replicate (suc n) 0 ++ rest)) ≡ some s
read_string-padded s rest n h = read_string-ended s (replicate n 0 ++ rest) h

pub drop-append {ℓ} : {A : Type ℓ} (xs ys : List A) (n : ℕ) → length xs ≡ n → drop n (xs ++ ys) ≡ ys
drop-append [] ys zero h = refl
drop-append [] ys (suc n) h = absurd (omega arith)
drop-append (x ∷ xs) ys zero h = absurd (omega arith)
drop-append (x ∷ xs) ys (suc n) h = drop-append xs ys n (omega arith)

length-char_array : (n : ℕ) (s : Bytes) → 0 < n → length (char_array n s) ≡ n
unfolding char_array
length-char_array n s h = omega (
  arith,
  length-append (str_copy n s) (replicate (n - length (str_copy n s)) 0),
  length-replicate {A = ℕ} (n - length (str_copy n s)) 0,
  length-str_copy-lt n s h,
)

pub length-encode_credentials :
    (username password : Bytes) → length (encode_credentials username password) ≡ 104
unfolding encode_credentials
length-encode_credentials username password = omega (
  arith,
  length-append (char_array max_id_len username) (char_array max_pw_len password),
  length-char_array max_id_len username (omega arith),
  length-char_array max_pw_len password (omega arith),
)

read_string-char_array :
    (n : ℕ) (s rest : Bytes)
    → Lacks 0 s
    → length s < n
    → read_string (char_array n s ++ rest) ≡ some s
unfolding char_array
read_string-char_array n s rest l h =
    let e : n - length s ≡ suc (n - length s - 1) = omega arith in
    rw (str_copy_all s h, append_assoc s, e) (read_string-padded s rest (n - length s - 1) l)

decode_credentials_strings :
    (reads_past : Bytes → Bytes → Bool) (body username password : Bytes)
    → read_string body ≡ some username
    → read_string (drop max_id_len body) ≡ some password
    → decode_credentials reads_past body ≡ ok (some username, some password)
unfolding decode_credentials read_string
decode_credentials_strings reads_past [] username password u p = cc
decode_credentials_strings reads_past (c ∷ body) username password u p = rw (u, p)

-- A name below 32 bytes and a password below 72 bytes, neither with a zero byte, come out of the
-- request that holds them.
pub decode-encode_credentials :
    (reads_past : Bytes → Bytes → Bool) (username password : Bytes)
    → Lacks 0 username
    → Lacks 0 password
    → length username < max_id_len
    → length password < max_pw_len
    → decode_credentials reads_past (encode_credentials username password)
      ≡ ok (some username, some password)
unfolding encode_credentials
decode-encode_credentials reads_past username password l m h k =
    let rest =
      drop-append (char_array max_id_len username) (char_array max_pw_len password) max_id_len
        (length-char_array max_id_len username (omega arith)) in
    decode_credentials_strings reads_past _ username password
      (read_string-char_array max_id_len username _ l h)
      (ap read_string rest ∙ (rw append-nil at (read_string-char_array max_pw_len password [] m k)))

-- `int score` of ScoreSubmitRequest
int_word : ℤ → ℕ
int_word (pos n) = n
int_word (negsuc n) = 2 ^ 32 - 1 - n

pub encode_int : ℤ → Bytes
unfolding int_word
encode_int z =
    let w = int_word z in w % 256 ∷ w / 256 % 256 ∷ w / 65536 % 256 ∷ w / 16777216 % 256 ∷ []

pub length-encode_int : (z : ℤ) → length (encode_int z) ≡ 4
unfolding encode_int
length-encode_int z = refl

-- `req->score`: a request that is NULL or shorter than the field is a crash.
pub decode_int : Bytes → Run ℤ
decode_int (a ∷ b ∷ c ∷ d ∷ rest) = ok (of_word (a + 256 * b + 65536 * c + 16777216 * d))
decode_int _ = crash

pub decode_int-Ends : (body : Bytes) → Ends (λ score. Unit) (length body < 4) (decode_int body)
unfolding decode_int
decode_int-Ends [] = omega arith
decode_int-Ends (a ∷ []) = omega arith
decode_int-Ends (a ∷ b ∷ []) = omega arith
decode_int-Ends (a ∷ b ∷ c ∷ []) = omega arith
decode_int-Ends (a ∷ b ∷ c ∷ d ∷ rest) = tt

-- A score in the range of `int` comes out of the request that holds it.
decode-encode_int : (z : ℤ) → IsInt z → decode_int (encode_int z) ≡ ok z
unfolding decode_int encode_int of_word
decode-encode_int (pos n) h = ground arith
decode-encode_int (negsuc n) h = ground arith

decode_int-append : (z : ℤ) (rest : Bytes) → IsInt z → decode_int (encode_int z ++ rest) ≡ ok z
unfolding decode_int encode_int
decode_int-append z rest h = decode-encode_int z h
