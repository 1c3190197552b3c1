-- ===== src/Client/AuthUi/Asked.antt =====
-- What a login of client/src/auth_ui.c sends to the server.
use rain_typing_game.Prelude.{ℕ, ◌≡◌, ◌≢◌, ◌≤◌, Bool, true, some, Bytes, All, All-weaken, arith}
use rain_typing_game.Common.Run.{ok}
use rain_typing_game.Common.Hash.Hex.{IsByte, IsStoredHash, hash_password_sha256-IsStoredHash}
use rain_typing_game.Common.Message.{decode_credentials, decode-encode_credentials}
use rain_typing_game.Client.Network.Requests.{login_request}
use rain_typing_game.Client.AuthUi.{Keys, Round}
use rain_typing_game.Client.AuthUi.Typed.{IsTerminal}
use rain_typing_game.Client.AuthUi.Login.{LogsIn}

-- For a login as auth_ui_main-Says gives it, a terminal as the C standard and ncurses describe
-- it, and a digest of bytes: the hash is one that fits the password field and the file of users,
-- and the server, however it reads the password, reads from the request the name and the hash
-- that were typed.
pub LogsIn-request :
    (sha256 : Bytes → Bytes) (keys : Keys) (r : Round) (user : Bytes)
    (reads_past : Bytes → Bytes → Bool)
    → IsTerminal keys
    → ((password : Bytes) → All IsByte (sha256 password))
    → (l : LogsIn sha256 keys user r)
    → IsStoredHash l.pw_hashed
      × (decode_credentials reads_past (login_request user l.pw_hashed).body
          ≡ ok (some user, some l.pw_hashed))
LogsIn-request sha256 keys r user reads_past terminal bytes l =
    let stored =
      hash_password_sha256-IsStoredHash sha256 true r.digest l.password l.pw_hashed
        (bytes l.password) l.hashed in
    (
      stored,
      decode-encode_credentials reads_past user l.pw_hashed
          (All-weaken (λ c p. prints c (terminal.printing c p.0)) user l.name.1) stored.text.0
          l.name.0 stored.fits,
    )
  where
    prints : (c : ℕ) → (32 ≤ c) × (c ≢ 127) → c ≢ 0
    prints c h = omega (arith, h.0)
