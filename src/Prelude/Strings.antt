-- ===== src/Prelude/Strings.antt =====
-- C strings: a string is the list of its bytes before the terminating zero, each from 1 to 255.
use Prim.Native.Nat.{ℕ, ◌+◌, ◌-◌, ◌/◌, ◌%◌, ◌<◌, compare, Ordering}
use Prim.Native.Char.{code}
use Prim.Native.String.{String}
use mathlib.Core.Path.{◌≡◌, refl, ap}
use mathlib.Core.Logic.{◌≢◌}
use mathlib.Core.Bool.{Bool, true, false}
use mathlib.Core.List.{List, [], ◌∷◌, ◌++◌}
use mathlib.Core.Option.{Option, none, some}
use native.Mathlib.Omega.{arith}
use rain_typing_game.Prelude.Tests.{ltb, ◌==◌, if◌then◌else◌}
use rain_typing_game.Prelude.Lists.{length, length-take-le, take, take_all, All}

abbrev pub Bytes : Type 0
Bytes = List ℕ

-- The bytes of a literal of the source, which is encoded in UTF-8 (code points below 2 ^ 16).
abbrev pub utf8_char : ℕ → Bytes
utf8_char c =
    if ltb c 0x80
    then c ∷ []
    else if ltb c 0x800
    then (0xc0 + c / 64) ∷ (0x80 + c % 64) ∷ []
    else (0xe0 + c / 4096) ∷ (0x80 + c / 64 % 64) ∷ (0x80 + c % 64) ∷ []

abbrev pub utf8 : String → Bytes
utf8 String.[] = []
utf8 (String.◌∷◌ c s) = utf8_char (code c) ++ utf8 s

-- The sign of `strcmp(a, b)`; bytes are compared as unsigned.
unfoldable pub strcmp : Bytes → Bytes → Ordering
strcmp [] [] = Ordering.eq
strcmp [] (y ∷ ys) = Ordering.lt
strcmp (x ∷ xs) [] = Ordering.gt
strcmp (x ∷ xs) (y ∷ ys) = elim (compare x y) [
  | Ordering.lt ↦ Ordering.lt
  | Ordering.eq ↦ strcmp xs ys
  | Ordering.gt ↦ Ordering.gt
]

abbrev pub is_eq : Ordering → Bool
is_eq Ordering.eq = true
is_eq _ = false

-- `strcmp(a, b) == 0`
abbrev pub str_eq : Bytes → Bytes → Bool
str_eq a b = is_eq (strcmp a b)

pub strcmp-eq : (a b : Bytes) → strcmp a b ≡ Ordering.eq → a ≡ b
unfolding strcmp
strcmp-eq [] [] h = refl
strcmp-eq [] (y ∷ ys) h = cc
strcmp-eq (x ∷ xs) [] h = cc
strcmp-eq (x ∷ xs) (y ∷ ys) h = ground (arith, strcmp-eq xs ys)

pub strcmp_refl : (a : Bytes) → strcmp a a ≡ Ordering.eq
unfolding strcmp
strcmp_refl [] = refl
strcmp_refl (x ∷ xs) = ground (arith, strcmp_refl xs)

pub str_eq_sound : (a b : Bytes) → str_eq a b ≡ true → a ≡ b
str_eq_sound a b h = strcmp-eq a b (ground arith)

pub str_eq_refl : (a : Bytes) → str_eq a a ≡ true
str_eq_refl a = ap is_eq (strcmp_refl a)

pub strcmp_antisym : (a b : Bytes) → strcmp a b ≡ Ordering.lt → strcmp b a ≡ Ordering.gt
unfolding strcmp
strcmp_antisym [] [] h = cc
strcmp_antisym [] (y ∷ ys) h = refl
strcmp_antisym (x ∷ xs) [] h = cc
strcmp_antisym (x ∷ xs) (y ∷ ys) h = ground (arith, strcmp_antisym xs ys)

pub strcmp_lt_trans :
    (a b c : Bytes) → strcmp a b ≡ Ordering.lt → strcmp b c ≡ Ordering.lt → strcmp a c ≡ Ordering.lt
unfolding strcmp
strcmp_lt_trans [] [] c h k = cc
strcmp_lt_trans [] (y ∷ ys) [] h k = cc
strcmp_lt_trans [] (y ∷ ys) (z ∷ zs) h k = refl
strcmp_lt_trans (x ∷ xs) [] c h k = cc
strcmp_lt_trans (x ∷ xs) (y ∷ ys) [] h k = cc
strcmp_lt_trans (x ∷ xs) (y ∷ ys) (z ∷ zs) h k = ground (arith, strcmp_lt_trans xs ys zs)

-- What the C library sees of an array: the bytes before the first zero.
unfoldable pub c_str : Bytes → Bytes
c_str [] = []
c_str (c ∷ cs) = if c == 0 then [] else c ∷ c_str cs

-- `strchr(s, c)`: the text before the first `c` and the text behind it.
unfoldable pub strchr : ℕ → Bytes → Option (Bytes × Bytes)
strchr c [] = none
strchr c (x ∷ xs) =
    if x == c
    then some ([], xs)
    else elim (strchr c xs) [ none ↦ none | some (before, after) ↦ some (x ∷ before, after) ]

-- `strncpy(dst, src, n - 1); dst[n - 1] = '\0'` into an array of `n` bytes, and
-- `snprintf(dst, n, …)` of a text: what the array holds as a string.
unfoldable pub str_copy : ℕ → Bytes → Bytes
str_copy n s = take (n - 1) s

pub str_copy_all : {n : ℕ} (s : Bytes) → length s < n → str_copy n s ≡ s
unfolding str_copy
str_copy_all {n} s h = take_all (n - 1) s (omega arith)

pub length-str_copy-lt : (n : ℕ) (s : Bytes) → 0 < n → length (str_copy n s) < n
unfolding str_copy
length-str_copy-lt n s h = omega (arith, length-take-le (n - 1) s)

abbrev pub Lacks : ℕ → Bytes → Type 0
Lacks b = All (λ c. c ≢ b)

pub c_str_all : (s : Bytes) → Lacks 0 s → c_str s ≡ s
unfolding c_str
c_str_all [] h = refl
c_str_all (c ∷ cs) (n, h) = ground (arith, c_str_all cs h)

pub strchr-append : (c : ℕ) (a b : Bytes) → Lacks c a → strchr c (a ++ c ∷ b) ≡ some (a, b)
unfolding strchr
strchr-append c [] b h = ground arith
strchr-append c (x ∷ xs) b (n, h) = rw (strchr-append c xs b h) (ground arith)
