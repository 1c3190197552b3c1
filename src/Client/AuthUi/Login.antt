-- ===== src/Client/AuthUi/Login.antt =====
-- What auth_ui_main of client/src/auth_ui.c returns, and what it asks the server.
use rain_typing_game.Prelude.{
  Some, ℕ, ◌≡◌, ◌⊎◌, inl, inr, refl, ap, ◌∙◌, Bool, true, false, not, ◌&&◌, Option, none, some,
  List, [], ◌∷◌, Bytes, ◌==◌, ==_iff, if◌then◌else◌, str_copy, str_copy_all, arith,
}
use rain_typing_game.Common.Protocol.{max_id_len, Response}
use rain_typing_game.Common.Run.{Run, ok, crash, ◌>>=◌, Ensures, Ensures-if_cases}
use rain_typing_game.Common.Hash.{hash_password_sha256}
use rain_typing_game.Client.Network.Requests.{login_request}
use rain_typing_game.Client.AuthUi.{
  Keys, Line, entered, stopped, waits, custom_get_string, Round, Left, returns, stays, hangs,
  auth_ui_exit_normal, auth_ui_login_success, auth_ui_exit_signal, unless_signal, password_size,
  ask_login, ask_register, send_credentials, with_pw, with_id, choose, auth_round, after_round,
  auth_ui_main,
}
use rain_typing_game.Client.AuthUi.Typed.{IsTyped, OfText, custom_get_string-IsTyped}

-- The user chose to log in, typed this name and a password, and the server accepted the request that
-- holds the name and the hash of the password.
pub record LogsIn (sha256 : Bytes → Bytes) (keys : Keys) (user : Bytes) (r : Round) : Type 0 where
  pub chosen : r.choice ≡ some b'1'
  pub name : IsTyped keys max_id_len user
  pub password : Bytes
  pub pw_hashed : Bytes
  pub typed : IsTyped keys password_size password
  pub hashed : hash_password_sha256 sha256 true r.digest (some password) ≡ some pw_hashed
  pub answered : (r.ask (login_request user pw_hashed)).0 ≡ 0
  pub accepted : (r.ask (login_request user pw_hashed)).1.success ≡ true

-- What a return from the menu says: the user left, a signal was seen, or the user logged in.
abbrev pub Says : (Bytes → Type 0) → Left → Type 0
Says P (returns code user) =
    ((code ≡ auth_ui_exit_normal) × (user ≡ []))
    ⊎ (code ≡ auth_ui_exit_signal)
    ⊎ ((code ≡ auth_ui_login_success) × P user)
Says P _ = Unit

Says-if :
    (P : Bytes → Type 0) (b : Bool) (l k : Left)
    → (b ≡ true → Says P l)
    → (b ≡ false → Says P k)
    → Says P (if b then l else k)
Says-if P true l k h g = h refl
Says-if P false l k h g = g refl

unless_signal-Says :
    (P : Bytes → Type 0) (received : Bool) (user : Bytes) (rest : Left)
    → Says P rest
    → Says P (unless_signal received user rest)
unless_signal-Says P received user rest h = Says-if P received _ rest (λ _. inr (inl refl)) (λ _. h)

module _ (sha256 : Bytes → Bytes) (keys : Keys) (r : Round) where
  abbrev Here : Bytes → Type 0
  Here user = LogsIn sha256 keys user r

  ask_login-Says :
      (id : Bytes) (answer : ℕ × Response)
      → IsTyped keys max_id_len id
      → (answer.0 ≡ 0 → answer.1.success ≡ true → Here id)
      → Says Here (ask_login r id answer)
  unfolding ask_login
  ask_login-Says id (ret, res) (fits, prints) k = unless_signal-Says Here r.after_request [] _ (
      Says-if Here (ret == 0 && res.success) _ _
        (λ e.
          unless_signal-Says Here r.after_message (str_copy max_id_len id) _
            (inr (inr (refl, rw (str_copy_all id fits) (k (ground (arith, e)) (success e))))))
        (λ _. unless_signal-Says Here r.after_message [] stays tt))
    where
      success : (ret == 0 && res.success) ≡ true → res.success ≡ true
      success e = ground (arith, e)

  send_credentials-Says :
      (logs_in : Bool) (id pw : Bytes) (hashed : Option Bytes)
      → (logs_in ≡ true → r.choice ≡ some b'1')
      → IsTyped keys max_id_len id
      → IsTyped keys password_size pw
      → hash_password_sha256 sha256 true r.digest (some pw) ≡ hashed
      → Says Here (send_credentials r logs_in id hashed)
  unfolding send_credentials ask_register
  send_credentials-Says logs_in id pw none c t u e = unless_signal-Says Here r.no_hash [] stays tt
  send_credentials-Says logs_in id pw (some pw_hashed) c t u e =
      Says-if Here logs_in _ _
        (λ on. ask_login-Says id (r.ask (login_request id pw_hashed)) t (λ a b. record {
          chosen = c on;
          name = t;
          password = pw;
          pw_hashed = pw_hashed;
          typed = u;
          hashed = e;
          answered = a;
          accepted = b;
        }))
        (λ _.
          unless_signal-Says Here r.after_request [] _
            (unless_signal-Says Here r.after_message [] stays tt))

  with_pw-Says :
      (logs_in : Bool) (id : Bytes) (l : Line)
      → (logs_in ≡ true → r.choice ≡ some b'1')
      → IsTyped keys max_id_len id
      → OfText (IsTyped keys password_size) l
      → Says Here (with_pw sha256 r logs_in id l)
  unfolding with_pw
  with_pw-Says logs_in id (entered pw) c t u =
      unless_signal-Says Here r.after_pw [] _ (send_credentials-Says logs_in id pw _ c t u refl)
  with_pw-Says logs_in id stopped c t u = inr (inl refl)
  with_pw-Says logs_in id waits c t u = tt

  with_id-Says :
      (logs_in : Bool) (l : Line)
      → (logs_in ≡ true → r.choice ≡ some b'1')
      → OfText (IsTyped keys max_id_len) l
      → Ensures (Says Here) (with_id sha256 keys r logs_in l)
  unfolding with_id
  with_id-Says logs_in (entered id) c t =
      Ensures-if_cases (Says Here) r.after_id _ _ (λ _. inr (inl refl))
        (λ _.
          bound (custom_get_string keys password_size r.pw_keys)
            (custom_get_string-IsTyped keys password_size r.pw_keys (omega arith)))
    where
      bound :
          (m : Run Line)
          → Ensures (OfText (IsTyped keys password_size)) m
          → Ensures (Says Here) (m >>= λ pw. ok (with_pw sha256 r logs_in id pw))
      bound (ok pw) u = with_pw-Says logs_in id pw c t u
      bound crash u = tt
  with_id-Says logs_in stopped c t = inr (inl refl)
  with_id-Says logs_in waits c t = tt

  choose-Says :
      (choice : Option ℕ) → r.choice ≡ choice → Ensures (Says Here) (choose sha256 keys r choice)
  unfolding choose
  choose-Says none e = unless_signal-Says Here r.no_choice [] stays tt
  choose-Says (some c) e =
      Ensures-if_cases (Says Here) (c == b'3') _ _ (λ _. inl (refl, refl))
        (λ _.
          Ensures-if_cases (Says Here) (not (c == b'1') && not (c == b'2')) _ _
            (λ _. unless_signal-Says Here r.wrong_choice [] stays tt)
            (λ _.
              bound (custom_get_string keys max_id_len r.id_keys)
                (custom_get_string-IsTyped keys max_id_len r.id_keys (omega arith))))
    where
      bound :
          (m : Run Line)
          → Ensures (OfText (IsTyped keys max_id_len)) m
          → Ensures (Says Here) (m >>= λ id. with_id sha256 keys r (c == b'1') id)
      bound (ok id) t = with_id-Says (c == b'1') id (λ on. e ∙ ap some ((==_iff _ _).0 on)) t
      bound crash t = tt

  auth_round-Says : Ensures (Says Here) (auth_round sha256 keys r)
  unfolding auth_round
  auth_round-Says =
      Ensures-if_cases (Says Here) r.at_start _ _ (λ _. inr (inl refl))
        (λ _. choose-Says r.choice refl)

weaken :
    (P Q : Bytes → Type 0) → ((user : Bytes) → P user → Q user) → (l : Left) → Says P l → Says Q l
weaken P Q k (returns code user) (inl h) = inl h
weaken P Q k (returns code user) (inr (inl h)) = inr (inl h)
weaken P Q k (returns code user) (inr (inr (e, p))) = inr (inr (e, k user p))
weaken P Q k stays h = tt
weaken P Q k hangs h = tt

-- Where auth_ui_main returns, whatever keys, signals and answers it gets, it says that the user
-- left, with no name; that a signal was seen; or that the user logged in, and then in some round
-- the user chose to log in, typed that name and a password of printing characters that fit their
-- buffers, and the server accepted the request with the name and the hash of the password.
pub auth_ui_main-Says :
    (sha256 : Bytes → Bytes) (keys : Keys) (rounds : List Round)
    → Ensures
        (Says (λ user. Some (LogsIn sha256 keys user) rounds))
        (auth_ui_main sha256 keys rounds)
unfolding auth_ui_main
auth_ui_main-Says sha256 keys [] = tt
auth_ui_main-Says sha256 keys (r ∷ rounds) =
    then_after (auth_round sha256 keys r) (auth_round-Says sha256 keys r)
      (later (auth_ui_main sha256 keys rounds) (auth_ui_main-Says sha256 keys rounds))
  where
    later :
        (m : Run Left)
        → Ensures (Says (λ user. Some (LogsIn sha256 keys user) rounds)) m
        → Ensures (Says (λ user. Some (LogsIn sha256 keys user) (r ∷ rounds))) m
    later (ok l) h =
        weaken (λ user. Some (LogsIn sha256 keys user) rounds)
          (λ user. Some (LogsIn sha256 keys user) (r ∷ rounds)) (λ user p. inr p) l h
    later crash h = tt

    after :
        (l : Left)
        → Says (λ user. LogsIn sha256 keys user r) l
        → Ensures
            (Says (λ user. Some (LogsIn sha256 keys user) (r ∷ rounds)))
            (auth_ui_main sha256 keys rounds)
        → Ensures
            (Says (λ user. Some (LogsIn sha256 keys user) (r ∷ rounds)))
            (after_round (auth_ui_main sha256 keys rounds) l)
    after (returns code user) h k =
        weaken (λ user. LogsIn sha256 keys user r)
          (λ user. Some (LogsIn sha256 keys user) (r ∷ rounds)) (λ user p. inl p)
          (returns code user) h
    after stays h k = k
    after hangs h k = tt

    then_after :
        (m : Run Left)
        → Ensures (Says (λ user. LogsIn sha256 keys user r)) m
        → Ensures
            (Says (λ user. Some (LogsIn sha256 keys user) (r ∷ rounds)))
            (auth_ui_main sha256 keys rounds)
        → Ensures
            (Says (λ user. Some (LogsIn sha256 keys user) (r ∷ rounds)))
            (m >>= after_round (auth_ui_main sha256 keys rounds))
    then_after (ok l) h k = after l h k
    then_after crash h k = tt
