-- ===== src/Server/Db/Lines.antt =====
-- read_line of db_handler.c, which word_manager.c repeats as read_line_direct, and the loop around
-- it. Both write a file line by line; the laws say that the loop gets those lines back.
use rain_typing_game.Prelude.{
  ℕ, zero, suc, ◌+◌, ◌-◌, ◌≤◌, ◌<◌, ◌≡◌, ◌≢◌, refl, sym, ap, ◌∙◌, Bool, true, false, List, [], ◌∷◌,
  ◌++◌, Bytes, ◌==◌, if◌then◌else◌, All, Lacks, length, length-append, append-nil, append_assoc,
  arith,
}

-- What `read_line` returns: 0 at the end of the file, -1 after a failed `read`, and else the
-- buffer; its length is the result, so an empty buffer is a third case that returns 0.
pub data ReadLine : Type 0 where
  end_of_file failed : ReadLine
  text : Bytes → Bytes → ReadLine

-- The loop: `room` bytes are free in the buffer, `input` is not read yet, and `broken` says that
-- `read` fails behind it.
read_bytes : Bool → ℕ → Bytes → Bytes → ReadLine
read_bytes broken zero buffer input = text buffer input
read_bytes broken (suc room) buffer [] =
    if broken then failed else (if length buffer == 0 then end_of_file else text buffer [])
read_bytes broken (suc room) buffer (ch ∷ input) =
    let rest = read_bytes broken room (buffer ++ ch ∷ []) input in
    if ch == b'\n' then text buffer input else rest

unfoldable pub read_line : Bool → ℕ → Bytes → ReadLine
unfolding read_bytes
read_line broken buffer_size input = read_bytes broken (buffer_size - 1) [] input

-- The body of `while (read_line(…) > 0)` runs for a buffer that is not empty.
pub next_lines : ReadLine → (Bytes → List Bytes) → List Bytes
next_lines (text (c ∷ cs) rest) more = (c ∷ cs) ∷ more rest
next_lines _ more = []

-- The buffers for which the body runs, in order.
unfoldable pub read_lines : ℕ → Bool → ℕ → Bytes → List Bytes
unfolding read_line next_lines
read_lines zero broken size input = []
read_lines (suc fuel) broken size input =
    next_lines (read_line broken size input) (read_lines fuel broken size)

-- The loop with the fuel that it needs.
unfoldable pub all_lines : Bool → ℕ → Bytes → List Bytes
all_lines broken size input = read_lines (suc (length input)) broken size input

abbrev pub print_lines : List Bytes → Bytes
print_lines [] = []
print_lines (l ∷ ls) = l ++ b'\n' ∷ print_lines ls

-- A line that the loop reads back: the buffer has room for it and for the newline behind it.
abbrev pub IsLine : ℕ → Bytes → Type 0
IsLine size l = (l ≢ []) × Lacks b'\n' l × (length l + 2 ≤ size)

read_bytes-line :
    (broken : Bool) (room : ℕ) (buffer l rest : Bytes)
    → Lacks b'\n' l
    → length l < room
    → read_bytes broken room buffer (l ++ b'\n' ∷ rest) ≡ text (buffer ++ l) rest
unfolding read_bytes
read_bytes-line broken zero buffer l rest n h = absurd (omega arith)
read_bytes-line broken (suc room) buffer [] rest n h = rw append-nil
read_bytes-line broken (suc room) buffer (c ∷ l) rest (m, n) h =
    ground (
      arith,
      read_bytes-line broken room (buffer ++ c ∷ []) l rest n,
      append_assoc buffer (c ∷ []) l,
    )

read_bytes-shorter :
    (broken : Bool) (room : ℕ) (buffer input l rest : Bytes)
    → read_bytes broken room buffer input ≡ text l rest
    → length rest + length l ≤ length input + length buffer
unfolding read_bytes
read_bytes-shorter broken zero buffer input l rest e = ground arith
read_bytes-shorter broken (suc room) buffer [] l rest e = ground arith
read_bytes-shorter broken (suc room) buffer (c ∷ input) l rest e = ground (
  arith,
  read_bytes-shorter broken room (buffer ++ c ∷ []) input l rest,
  length-append buffer (c ∷ []),
)

next_lines_congr :
    (r : ReadLine) (f g : Bytes → List Bytes)
    → ((c : ℕ) (cs rest : Bytes) → r ≡ text (c ∷ cs) rest → f rest ≡ g rest)
    → next_lines r f ≡ next_lines r g
unfolding next_lines
next_lines_congr (text (c ∷ cs) rest) f g h = ap (◌∷◌ (c ∷ cs)) (h c cs rest refl)
next_lines_congr (text [] rest) f g h = refl
next_lines_congr end_of_file f g h = refl
next_lines_congr failed f g h = refl

-- The loop of reads makes fewer rounds than the file has bytes: with more fuel than that, further
-- fuel changes nothing.
read_lines-fuel :
    (k fuel : ℕ) (broken : Bool) (size : ℕ) (input : Bytes)
    → length input < fuel
    → read_lines (k + fuel) broken size input ≡ read_lines fuel broken size input
unfolding read_lines
read_lines-fuel k zero broken size input h = absurd (omega arith)
read_lines-fuel k (suc fuel) broken size input h =
    let e : k + suc fuel ≡ suc (k + fuel) = omega arith in
    rw e (
      next_lines_congr _ _ _ λ c cs rest (r : read_line broken size input ≡ text (c ∷ cs) rest).
        read_lines-fuel k fuel broken size rest
          (omega (arith, read_bytes-shorter broken (size - 1) [] input (c ∷ cs) rest r)))

next_lines_empty :
    (broken : Bool) (room : ℕ) (more : Bytes → List Bytes)
    → next_lines (read_bytes broken room [] []) more ≡ []
unfolding next_lines read_bytes
next_lines_empty broken zero more = refl
next_lines_empty true (suc room) more = refl
next_lines_empty false (suc room) more = refl

-- What stands behind the lines of a file, so that the loop stops there.
abbrev Stops : Bool → ℕ → Bytes → Type 0
Stops broken size tail =
    (more : Bytes → List Bytes) → next_lines (read_line broken size tail) more ≡ []

read_lines-print :
    (broken : Bool) (size : ℕ) (tail : Bytes)
    → Stops broken size tail
    → (ls : List Bytes) (fuel : ℕ) → All (IsLine size) ls
    → length (print_lines ls ++ tail) < fuel
    → read_lines fuel broken size (print_lines ls ++ tail) ≡ ls
unfolding read_lines
read_lines-print broken size tail stops ls zero h m = absurd (omega arith)
read_lines-print broken size tail stops [] (suc fuel) h m = stops _
read_lines-print broken size tail stops ([] ∷ ls) (suc fuel) ((ne, n, fits), h) m = absurd (ne refl)
read_lines-print broken size tail stops ((c ∷ cs) ∷ ls) (suc fuel) ((ne, n, fits), h) m =
    ap (λ input. read_lines (suc fuel) broken size input)
      (append_assoc (c ∷ cs) (b'\n' ∷ print_lines ls) tail)
    ∙ ap (λ r. next_lines r (read_lines fuel broken size))
        (read_bytes-line broken (size - 1) [] (c ∷ cs) (print_lines ls ++ tail) n (omega arith))
    ∙ ap (◌∷◌ (c ∷ cs)) (
        read_lines-print broken size tail stops ls fuel h (
          omega (
            arith,
            length-append cs (b'\n' ∷ print_lines ls),
            length-append (cs ++ b'\n' ∷ print_lines ls) tail,
            length-append (print_lines ls) tail,
          )))

-- A file of proper lines is read back as those lines, up to a place where the loop stops.
pub all_lines-print_tail :
    (broken : Bool) (size : ℕ) (tail : Bytes)
    → Stops broken size tail
    → (ls : List Bytes) → All (IsLine size) ls
    → all_lines broken size (print_lines ls ++ tail) ≡ ls
unfolding all_lines
all_lines-print_tail broken size tail stops ls h =
    read_lines-print broken size tail stops ls _ h (omega arith)

-- A file of lines that are not empty, hold no newline and leave two bytes of the buffer free is
-- read back as those lines.
pub all_lines-print :
    (broken : Bool) (size : ℕ) (ls : List Bytes)
    → All (IsLine size) ls
    → all_lines broken size (print_lines ls) ≡ ls
unfolding read_line
all_lines-print broken size ls h =
    rw append-nil at (all_lines-print_tail broken size [] (next_lines_empty broken (size - 1)) ls h)

-- An empty line stops the loop, whatever follows it.
pub Stops-newline :
    (broken : Bool) (size : ℕ) (rest : Bytes) → 2 ≤ size → Stops broken size (b'\n' ∷ rest)
unfolding read_line next_lines
Stops-newline broken size rest h more =
    ap (λ r. next_lines r more) (read_bytes-line broken (size - 1) [] [] rest tt (omega arith))

pub print_lines-append :
    (ls : List Bytes) (l : Bytes) → print_lines (ls ++ l ∷ []) ≡ print_lines ls ++ (l ++ b'\n' ∷ [])
print_lines-append [] l = refl
print_lines-append (x ∷ ls) l =
    rw (print_lines-append ls l) (sym (append_assoc x (b'\n' ∷ print_lines ls) _))
