-- ===== src/Client/AuthUi/Typed.antt =====
-- What the line editor of client/src/auth_ui.c returns.
use rain_typing_game.Prelude.{
  ℕ, ◌+◌, ◌-◌, ◌≤◌, ◌<◌, ◌≡◌, ◌≢◌, refl, ap, ◌∙◌, Bool, true, false, ◌||◌, none, some, List, [],
  ◌∷◌, ◌++◌, append-nil, append_assoc, map, Bytes, ltb, ◌==◌, if◌then◌else◌, length, length-append,
  length-take-le, All, All-append, All-take, arith,
}
use rain_typing_game.Common.Run.{Run, ok, Ensures, Ensures-if_cases}
use rain_typing_game.Client.AuthUi.{
  Keys, Event, signalled, got, Press, ends, undefined, line, press, Line, entered, pressed,
  edit_line, custom_get_string,
}

-- What the C standard and ncurses say of `isprint` and of the keys that have no character.
pub record IsTerminal (keys : Keys) : Type 0 where
  pub enter_is_key : 255 < keys.key_enter
  pub backspace_is_key : 255 < keys.key_backspace
  pub printing : (c : ℕ) → keys.is_print c ≡ true → (32 ≤ c) × (c ≢ 127)

-- A character that prints.
abbrev Prints : Keys → ℕ → Type 0
Prints keys c = (keys.is_print c ≡ true) × (c ≤ 255)

-- The text fits its buffer with its zero, and all of it prints.
abbrev pub IsTyped : Keys → ℕ → Bytes → Type 0
IsTyped keys max_len s = (length s < max_len) × All (Prints keys) s

abbrev pub OfText : (Bytes → Type 0) → Line → Type 0
OfText P (entered s) = P s
OfText P _ = Unit

OfPress : (Bytes → Type 0) → Press → Type 0
OfPress P (line s) = P s
OfPress P _ = Unit

OfPress-if :
    (P : Bytes → Type 0) (b : Bool) (p q : Press)
    → (b ≡ true → OfPress P p)
    → (b ≡ false → OfPress P q)
    → OfPress P (if b then p else q)
OfPress-if P true p q h k = h refl
OfPress-if P false p q h k = k refl

module _ (keys : Keys) (max_len : ℕ) where
  press-IsTyped :
      (ch : ℕ) (buffer : Bytes)
      → IsTyped keys max_len buffer
      → ltb (length buffer) (max_len - 1) ≡ true
      → OfPress (IsTyped keys max_len) (press keys ch buffer)
  unfolding press OfPress
  press-IsTyped ch buffer (fits, prints) room =
      OfPress-if _ (ch == 10 || ch == keys.key_enter) _ _ (λ _. tt)
        (λ _.
          OfPress-if _ (ch == keys.key_backspace || ch == 127 || ch == 8) _ _
            (λ _. (
              omega (arith, fits, length-take-le (length buffer - 1) buffer),
              All-take (Prints keys) (length buffer - 1) buffer prints,
            ))
            (λ _.
              OfPress-if _ (ltb 255 ch) _ _ (λ _. tt)
                (λ small. added small (keys.is_print ch) refl)))
    where
      added :
          ltb 255 ch ≡ false
          → (b : Bool) → keys.is_print ch ≡ b
          → IsTyped keys max_len (if b then buffer ++ (ch ∷ []) else buffer)
      added small true e = (
        ground (arith, length-append buffer (ch ∷ []), room),
        All-append (Prints keys) buffer (ch ∷ []) prints ((e, ground (arith, small)), tt),
      )
      added small false e = (fits, prints)

  pressed-IsTyped :
      (buffer : Bytes) (rest : Bytes → Run Line) (p : Press)
      → IsTyped keys max_len buffer
      → ((s : Bytes) → IsTyped keys max_len s → Ensures (OfText (IsTyped keys max_len)) (rest s))
      → OfPress (IsTyped keys max_len) p
      → Ensures (OfText (IsTyped keys max_len)) (pressed buffer rest p)
  unfolding OfPress
  pressed-IsTyped buffer rest ends t k h = t
  pressed-IsTyped buffer rest undefined t k h = tt
  pressed-IsTyped buffer rest (line s) t k h = k s h

  edit_line-IsTyped :
      (events : List Event) (buffer : Bytes)
      → IsTyped keys max_len buffer
      → Ensures (OfText (IsTyped keys max_len)) (edit_line keys max_len events buffer)
  unfolding edit_line
  edit_line-IsTyped [] buffer t =
      Ensures-if_cases _ (ltb (length buffer) (max_len - 1)) _ _ (λ _. tt) (λ _. t)
  edit_line-IsTyped (signalled ∷ events) buffer t =
      Ensures-if_cases _ (ltb (length buffer) (max_len - 1)) _ _ (λ _. tt) (λ _. t)
  edit_line-IsTyped (got none ∷ events) buffer t =
      Ensures-if_cases _ (ltb (length buffer) (max_len - 1)) _ _
        (λ _. edit_line-IsTyped events buffer t) (λ _. t)
  edit_line-IsTyped (got (some ch) ∷ events) buffer t =
      Ensures-if_cases _ (ltb (length buffer) (max_len - 1)) _ _
        (λ room.
          pressed-IsTyped buffer (edit_line keys max_len events) (press keys ch buffer) t
            (λ s u. edit_line-IsTyped events s u) (press-IsTyped ch buffer t room))
        (λ _. t)

-- A text that the editor returns fits its buffer with its zero, and all of its characters print,
-- unless a key comes that `isprint` does not take.
pub custom_get_string-IsTyped :
    (keys : Keys) (max_len : ℕ) (events : List Event)
    → 0 < max_len
    → Ensures (OfText (IsTyped keys max_len)) (custom_get_string keys max_len events)
unfolding custom_get_string
custom_get_string-IsTyped keys max_len events h = edit_line-IsTyped keys max_len events [] (h, tt)

-- The keys of a text.
abbrev pub typed : Bytes → List Event
typed = map (λ c. got (some c))

press-Prints :
    (keys : Keys) (ch : ℕ) (buffer : Bytes)
    → IsTerminal keys
    → Prints keys ch
    → press keys ch buffer ≡ line (buffer ++ (ch ∷ []))
unfolding press
press-Prints keys ch buffer t (p, small) =
    ground (arith, t.printing ch p, t.enter_is_key, t.backspace_is_key, p)

edit_line-typed :
    (keys : Keys) (max_len : ℕ) (s buffer : Bytes) (rest : List Event)
    → IsTerminal keys
    → All (Prints keys) s
    → length buffer + length s < max_len
    → edit_line keys max_len (typed s ++ (got (some 10) ∷ rest)) buffer ≡ ok (entered (buffer ++ s))
unfolding edit_line
edit_line-typed keys max_len [] buffer rest t p fits =
    rw append-nil (ended (ltb (length buffer) (max_len - 1)))
  where
    ended :
        (b : Bool)
        → (if b
            then pressed buffer (edit_line keys max_len rest) (press keys 10 buffer)
            else ok (entered buffer))
          ≡ ok (entered buffer)
    ended true = unfold press in refl
    ended false = refl
edit_line-typed keys max_len (c ∷ s) buffer rest t (p, ps) fits =
    let room : ltb (length buffer) (max_len - 1) ≡ true = ground (arith, fits) in
    rw (room, press-Prints keys c buffer t p)
      (edit_line-typed keys max_len s (buffer ++ (c ∷ [])) rest t ps
          (omega (arith, length-append buffer (c ∷ []), fits))
        ∙ ap (λ b. ok (entered b)) (append_assoc buffer (c ∷ []) s))

-- A text of characters that print, short enough for the buffer, that is typed key by key and
-- ended by Enter is what custom_get_string returns.
pub custom_get_string-typed :
    (keys : Keys) (max_len : ℕ) (s : Bytes) (rest : List Event)
    → IsTerminal keys
    → IsTyped keys max_len s
    → custom_get_string keys max_len (typed s ++ (got (some 10) ∷ rest)) ≡ ok (entered s)
unfolding custom_get_string
custom_get_string-typed keys max_len s rest t (fits, prints) =
    edit_line-typed keys max_len s [] rest t prints (omega (arith, fits))
