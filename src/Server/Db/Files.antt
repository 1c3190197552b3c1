-- ===== src/Server/Db/Files.antt =====
-- The system calls of db_handler.c on one file. Their outcomes are arguments, since the operating
-- system decides them; the mutex and flock make each function one step.
use rain_typing_game.Prelude.{
  ℕ, Bool, true, false, not, Option, none, some, [], ◌++◌, Bytes, if◌then◌else◌, take,
}

-- `none` is a file that does not exist.
abbrev pub File : Type 0
File = Option Bytes

abbrev pub contents : File → Bytes
contents none = []
contents (some bytes) = bytes

-- The calls of a function that reads: does `open` succeed on a file that exists, does `flock`, and
-- after how many bytes does `read` fail (`none`: never).
pub record ReadIo : Type 0 where
  pub opens : Bool
  pub locks : Bool
  pub read_fails : Option ℕ

-- The calls of a function that appends: `written` is `none` if `dprintf` writes all of its text,
-- and else the bytes that it wrote before it failed.
pub record WriteIo : Type 0 where
  pub opens : Bool
  pub locks : Bool
  pub written : Option ℕ
  pub closes : Bool

abbrev pub good_read : ReadIo
good_read = record { opens = true; locks = true; read_fails = none }

abbrev pub good_write : WriteIo
good_write = record { opens = true; locks = true; written = none; closes = true }

-- What the loop of reads gets, and whether `read` fails behind it.
abbrev pub readable : Option ℕ → Bytes → Bytes
readable none bytes = bytes
readable (some n) bytes = take n bytes

abbrev pub breaks : Option ℕ → Bool
breaks none = false
breaks (some n) = true

-- `open(…, O_WRONLY | O_CREAT | O_APPEND)`, `flock`, `dprintf`, `fsync` (a failure is only
-- logged) and `close`; the result is the file and the return value.
write_text : WriteIo → Bytes → Bytes → Option ℕ → File × Bool
write_text io old line none = (some (old ++ line), io.closes)
write_text io old line (some n) = (some (old ++ take n line), false)

unfoldable pub append_text : WriteIo → File → Bytes → File × Bool
unfolding write_text
append_text io file line =
    if not io.opens
    then (file, false)
    else if not io.locks
    then (some (contents file), false)
    else write_text io (contents file) line io.written
