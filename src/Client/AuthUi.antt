-- ===== src/Client/AuthUi.antt =====
-- client/src/auth_ui.c: the line editor for a name and a password, and the menu for login and
-- registration.
pub mod Typed
pub mod Login
pub mod Asked
use rain_typing_game.Prelude.{
  ℕ, zero, suc, ◌+◌, ◌-◌, Bool, true, false, not, ◌&&◌, ◌||◌, Option, none, some, List, [], ◌∷◌,
  ◌++◌, Bytes, ltb, leb, ◌==◌, if◌then◌else◌, length, take, str_copy, ℤ, pos, negsuc,
}
use rain_typing_game.Common.Protocol.{max_id_len, Response}
use rain_typing_game.Common.Run.{Run, ok, crash, ◌>>=◌}
use rain_typing_game.Common.Hash.{DigestIo, hash_password_sha256}
use rain_typing_game.Client.Network.{Request}
use rain_typing_game.Client.Network.Requests.{login_request, register_request}

-- KEY_ENTER and KEY_BACKSPACE of ncurses, and `isprint` of the locale for the values of a byte.
pub record Keys : Type 0 where
  pub key_enter : ℕ
  pub key_backspace : ℕ
  pub is_print : ℕ → Bool

-- One round of the editor: sigint_received is seen, or getch returns a key or ERR (`none`).
pub data Event : Type 0 where
  signalled : Event
  got : Option ℕ → Event

-- What a key does: it ends the line, leaves this line, or is no value that `isprint` takes.
pub data Press : Type 0 where
  ends undefined : Press
  line : Bytes → Press

pub press : Keys → ℕ → Bytes → Press
press keys ch buffer =
    if ch == 10 || ch == keys.key_enter
    then ends
    else if ch == keys.key_backspace || ch == 127 || ch == 8
    then line (take (length buffer - 1) buffer)
    else if ltb 255 ch
    then undefined
    else line (if keys.is_print ch then buffer ++ (ch ∷ []) else buffer)

-- The result 0 with the text, the result -1, or an editor that waits for more rounds.
pub data Line : Type 0 where
  entered : Bytes → Line
  stopped waits : Line

-- The rest of a round, where `rest` is the rest of the loop.
abbrev pressed : Bytes → (Bytes → Run Line) → Press → Run Line
pressed buffer rest ends = ok (entered buffer)
pressed buffer rest undefined = crash
pressed buffer rest (line buffer') = rest buffer'

-- The loop with what was typed so far. It goes on while the buffer has room for one byte more than
-- its zero.
pub edit_line : Keys → ℕ → List Event → Bytes → Run Line
edit_line keys max_len [] buffer =
    if ltb (length buffer) (max_len - 1) then ok waits else ok (entered buffer)
edit_line keys max_len (signalled ∷ events) buffer =
    if ltb (length buffer) (max_len - 1) then ok stopped else ok (entered buffer)
edit_line keys max_len (got none ∷ events) buffer =
    let rest = edit_line keys max_len events buffer in
    if ltb (length buffer) (max_len - 1) then rest else ok (entered buffer)
edit_line keys max_len (got (some ch) ∷ events) buffer =
    let rest = pressed buffer (edit_line keys max_len events) (press keys ch buffer) in
    if ltb (length buffer) (max_len - 1) then rest else ok (entered buffer)

pub custom_get_string : Keys → ℕ → List Event → Run Line
custom_get_string keys max_len events = edit_line keys max_len events []

-- One round of the menu: the choice (`none` for ERR), the keys for the name and for the password,
-- the outcomes of OpenSSL, the return value of a request, negated, with its response, and what
-- sigint_received is at each test, in the order of the tests.
pub record Round : Type 0 where
  pub at_start : Bool
  pub choice : Option ℕ
  pub no_choice : Bool
  pub wrong_choice : Bool
  pub id_keys : List Event
  pub after_id : Bool
  pub pw_keys : List Event
  pub after_pw : Bool
  pub digest : DigestIo
  pub no_hash : Bool
  pub ask : Request → ℕ × Response
  pub after_request : Bool
  pub after_message : Bool

-- The return value with `logged_in_user`, another round, or a round that waits for a key.
pub data Left : Type 0 where
  returns : ℤ → Bytes → Left
  stays hangs : Left

abbrev pub auth_ui_exit_normal : ℤ
auth_ui_exit_normal = pos 0

abbrev pub auth_ui_login_success : ℤ
auth_ui_login_success = pos 1

abbrev pub auth_ui_exit_signal : ℤ
auth_ui_exit_signal = negsuc 1

-- `if (sigint_received) return AUTH_UI_EXIT_SIGNAL;`, and what follows.
abbrev unless_signal : Bool → Bytes → Left → Left
unless_signal received user rest = if received then returns auth_ui_exit_signal user else rest

abbrev password_size : ℕ
password_size = 64

pub ask_login : Round → Bytes → ℕ × Response → Left
ask_login r id (ret, res) = unless_signal r.after_request [] (
    if ret == 0 && res.success
    then unless_signal r.after_message (str_copy max_id_len id)
        (returns auth_ui_login_success (str_copy max_id_len id))
    else unless_signal r.after_message [] stays)

pub ask_register : Round → ℕ × Response → Left
ask_register r (ret, res) =
    unless_signal r.after_request [] (unless_signal r.after_message [] stays)

pub send_credentials : Round → Bool → Bytes → Option Bytes → Left
send_credentials r logs_in id none = unless_signal r.no_hash [] stays
send_credentials r logs_in id (some pw_hashed) =
    if logs_in
    then ask_login r id (r.ask (login_request id pw_hashed))
    else ask_register r (r.ask (register_request id pw_hashed))

-- An editor that was stopped has seen the flag, which stays set.
with_pw : (Bytes → Bytes) → Round → Bool → Bytes → Line → Left
with_pw sha256 r logs_in id (entered pw_plain) =
    unless_signal r.after_pw []
      (send_credentials r logs_in id (hash_password_sha256 sha256 true r.digest (some pw_plain)))
with_pw sha256 r logs_in id stopped = returns auth_ui_exit_signal []
with_pw sha256 r logs_in id waits = hangs

with_id : (Bytes → Bytes) → Keys → Round → Bool → Line → Run Left
with_id sha256 keys r logs_in (entered id) =
    if r.after_id
    then ok (returns auth_ui_exit_signal [])
    else do pw ← custom_get_string keys password_size r.pw_keys; ok (with_pw sha256 r logs_in id pw)
with_id sha256 keys r logs_in stopped = ok (returns auth_ui_exit_signal [])
with_id sha256 keys r logs_in waits = ok hangs

pub choose : (Bytes → Bytes) → Keys → Round → Option ℕ → Run Left
unfolding with_id with_pw
choose sha256 keys r none = ok (unless_signal r.no_choice [] stays)
choose sha256 keys r (some c) =
    if c == b'3'
    then ok (returns auth_ui_exit_normal [])
    else if not (c == b'1') && not (c == b'2')
    then ok (unless_signal r.wrong_choice [] stays)
    else do id ← custom_get_string keys max_id_len r.id_keys; with_id sha256 keys r (c == b'1') id

pub auth_round : (Bytes → Bytes) → Keys → Round → Run Left
auth_round sha256 keys r =
    if r.at_start then ok (returns auth_ui_exit_signal []) else choose sha256 keys r r.choice

abbrev pub after_round : Run Left → Left → Run Left
after_round rest (returns code user) = ok (returns code user)
after_round rest stays = rest
after_round rest hangs = ok hangs

-- The loop behind crypto_init, which always succeeds; `stays` is a menu that is open after the
-- rounds given.
pub auth_ui_main : (Bytes → Bytes) → Keys → List Round → Run Left
auth_ui_main sha256 keys [] = ok stays
auth_ui_main sha256 keys (r ∷ rounds) = do
  left ← auth_round sha256 keys r
  after_round (auth_ui_main sha256 keys rounds) left
