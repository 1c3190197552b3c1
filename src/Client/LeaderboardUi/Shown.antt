-- ===== src/Client/LeaderboardUi/Shown.antt =====
-- The leaderboard that the player sees.
use rain_typing_game.Prelude.{
  replicate, drop, length-replicate, zero, inl, inr, Bool-cases, true, some, ◌∙◌, sym, append-nil,
  All, All-take, ℤ, IsInt, ◌-◌, ℕ, suc, ◌+◌, ◌≤◌, ◌<◌, ◌≡◌, refl, ap, false, List, [], ◌∷◌, ◌++◌,
  Bytes, utf8, leb, ltb, ◌==◌, if◌then◌else◌, length, length-append, length-take-le, take, pos,
  arith,
}
use rain_typing_game.Common.Protocol.{LeaderboardEntry}
use rain_typing_game.Client.Printed.{
  Printed, prompt_at, pad_right, pad_left, print_at, x_default_pos,
}
use rain_typing_game.Common.Message.{drop-append}
use rain_typing_game.Common.Decimal.{print_int, strtol}
use rain_typing_game.Common.Decimal.RoundTrip.{strtol-print_int, strtol-spaces, print_int-digit}
use rain_typing_game.Client.LeaderboardUi.{
  username_display, entry_text, entry_lines, display_count, heading, show_leaderboard_ui,
}

-- A name takes at most 15 columns.
length-username_display : (name : Bytes) → length (username_display name) ≤ 15
unfolding username_display
length-username_display name =
    ground (arith, length-append (take 12 name) (utf8 "..."), length-take-le 12 name)

-- The 15 columns of a name: spaces fill a short one, and three dots end a cut one.
abbrev name_cell : Bytes → Bytes
name_cell name =
    if leb (length name) 15 then take 15 (name ++ replicate 15 32) else take 12 name ++ utf8 "..."

-- The line of an entry: its row, the rank in the first two columns, the name, and a score that reads
-- as the number.
pub record ShowsEntry (rank : ℕ) (e : LeaderboardEntry) (p : Printed) : Type 0 where
  pub row : p.row ≡ 5 + rank
  pub column : p.column ≡ 10
  pub rank_cell : take 6 p.text ≡ 32 ∷ (b'0' + rank) ∷ utf8 "    "
  pub name : take 15 (drop 6 p.text) ≡ name_cell e.username
  pub score : strtol (drop 21 p.text) ≡ some (e.score, [])

-- One line for each entry, with ranks that count up from this one.
abbrev pub ShowsEntries : ℕ → List LeaderboardEntry → List Printed → Type 0
ShowsEntries rank [] [] = Unit
ShowsEntries rank (e ∷ es) (p ∷ ps) = ShowsEntry rank e p × ShowsEntries (suc rank) es ps
ShowsEntries rank _ _ = ⊥

length-pad_right : (n : ℕ) (s : Bytes) → length s ≤ n → length (pad_right n s) ≡ n
unfolding pad_right
length-pad_right n s h = omega (
  arith,
  length-append s (replicate (n - length s) 32),
  length-replicate {A = ℕ} (n - length s) 32,
)

filled :
    (n m : ℕ) (s : Bytes)
    → length s ≤ n
    → n ≤ m
    → take n (s ++ replicate m 32) ≡ s ++ replicate (n - length s) 32
filled zero m [] h k = refl
filled (suc n) zero [] h k = absurd (omega arith)
filled (suc n) (suc m) [] h k =
    let room : suc n - 0 ≡ suc n = omega arith in
    let less : n - 0 ≡ n = omega arith in
    rw room (ap (◌∷◌ 32) (filled n m [] (omega arith) (omega arith) ∙ rw less refl))
filled zero m (c ∷ s) h k = absurd (omega arith)
filled (suc n) m (c ∷ s) h k =
    let less : suc n - suc (length s) ≡ n - length s = omega arith in
    rw less (ap (◌∷◌ c) (filled n m s (omega arith) (omega arith)))

length-take_short : (n : ℕ) (s : Bytes) → n ≤ length s → length (take n s) ≡ n
length-take_short zero s h = refl
length-take_short (suc n) [] h = absurd (omega arith)
length-take_short (suc n) (c ∷ s) h = ap suc (length-take_short n s (omega arith))

name_cell_lem : (name : Bytes) → pad_right 15 (username_display name) ≡ name_cell name
unfolding pad_right username_display
name_cell_lem name = elim (Bool-cases (ltb 15 (length name))) [
  | inl cut ↦
      let whole : 15 - length (take 12 name ++ utf8 "...") ≡ 0 = omega (
        arith,
        length-append (take 12 name) (utf8 "..."),
        length-take_short 12 name (ground (arith, cut)),
      ) in
      let long : leb (length name) 15 ≡ false = ground (arith, cut) in
      rw (cut, long) (rw whole (append-nil (take 12 name ++ utf8 "...")))
  | inr short ↦
      let fits : leb (length name) 15 ≡ true = ground (arith, short) in
      rw (short, fits) (sym (filled 15 15 name (ground (arith, short)) (omega arith)))
]

rank_digit : (i : ℕ) → i < 6 → pad_left 2 (print_int (pos (i + 1))) ≡ 32 ∷ (b'1' + i) ∷ []
unfolding pad_left
rank_digit i h =
    let one : b'0' + (i + 1) ≡ b'1' + i = omega arith in
    rw (print_int-digit (i + 1) (omega arith)) (rw one refl)

strtol-pad_left : (n : ℕ) (z : ℤ) → IsInt z → strtol (pad_left n (print_int z)) ≡ some (z, [])
unfolding pad_left
strtol-pad_left n z h =
    strtol-spaces (n - length (print_int z)) (print_int z) ∙ strtol-print_int z h

take-append : (xs ys : Bytes) (n : ℕ) → length xs ≡ n → take n (xs ++ ys) ≡ xs
take-append [] ys zero h = refl
take-append [] ys (suc n) h = absurd (omega arith)
take-append (x ∷ xs) ys zero h = absurd (omega arith)
take-append (x ∷ xs) ys (suc n) h = ap (◌∷◌ x) (take-append xs ys n (omega arith))

-- A line that is made of its cells shows its entry.
entry_text-Shows :
    (i : ℕ) (e : LeaderboardEntry)
    → i < 6
    → IsInt e.score
    → ShowsEntry (suc i) e (print_at (6 + i) x_default_pos (entry_text i e))
unfolding entry_text
entry_text-Shows i e h s =
    let name = pad_right 15 (username_display e.username) in
    let rest = utf8 "  " ++ pad_left 5 (print_int e.score) in
    let text : pad_left 2 (print_int (pos (i + 1))) ++ (utf8 "    " ++ (name ++ rest))
        ≡ 32 ∷ (b'1' + i) ∷ (utf8 "    " ++ (name ++ rest)) =
      ap (λ r. r ++ (utf8 "    " ++ (name ++ rest))) (rank_digit i h) in
    let one : b'1' + i ≡ b'0' + suc i = omega arith in
    let size : length name ≡ 15 =
      length-pad_right 15 (username_display e.username) (length-username_display e.username) in
    rw text (record {
      row = omega arith;
      column = refl;
      rank_cell = ap (λ c. 32 ∷ c ∷ utf8 "    ") one;
      name = take-append name rest 15 size ∙ name_cell_lem e.username;
      score =
          ap strtol (drop-append name rest 15 size)
          ∙ strtol-spaces 2 (pad_left 5 (print_int e.score))
          ∙ strtol-pad_left 5 e.score s;
    })

entry_lines-Shows :
    (count i : ℕ) (entries : List LeaderboardEntry)
    → i + length entries ≤ 6
    → All (λ e. IsInt e.score) entries
    → ShowsEntries (suc i) entries (entry_lines count i entries)
unfolding entry_lines
entry_lines-Shows count i [] h s = tt
entry_lines-Shows count i (e ∷ entries) h (s, ss) =
    let above : leb 12 (6 + i) ≡ false = ground (arith, h) in
    rw above (
      entry_text-Shows i e (omega (arith, h)) s,
      entry_lines-Shows count (suc i) entries (omega (arith, h)) ss,
    )

display_count_lem : (count : ℕ) → display_count count ≡ (if ltb 6 count then 6 else count)
unfolding display_count
display_count_lem count = ground arith

-- For an answer without an error whose count is above 0 and whose scores are values of int, the
-- screen is the title and the two lines of the header, one line for each of the first six
-- entries, the number of players and the prompt. The line of the entry of rank r, from 1 on,
-- stands on row 5 + r at column 10: the digit of r in the first two columns; behind four spaces
-- the name in 15 columns, filled with spaces, or its first 12 bytes and three dots if it is
-- longer; and behind that a number that strtol reads as the score.
pub show_leaderboard_ui_lem :
    (count : ℕ) (entries : List LeaderboardEntry)
    → 0 < count
    → All (λ e. IsInt e.score) entries
    → (lines : List Printed) × (show_leaderboard_ui 0 (pos count) entries
        ≡ print_at 2 10 (utf8 "=== LEADERBOARD ===")
          ∷ print_at 4 10 (utf8 "Rank  Username         Score")
          ∷ print_at 5 10 (utf8 "----  --------         -----")
          ∷ (lines
              ++ (print_at 12 10 (utf8 "Total players: " ++ print_int (pos count))
                  ∷ prompt_at 15 10 (utf8 "Press any key to return...")
                  ∷ [])))
      × ShowsEntries 1 (take (if ltb 6 count then 6 else count) entries) lines
unfolding show_leaderboard_ui heading
show_leaderboard_ui_lem count entries h s =
    let some_count : (count == 0) ≡ false = ground (arith, h) in
    let shown = if ltb 6 count then 6 else count in
    let fits : shown ≤ 6 = ground arith in
    (
      entry_lines count 0 (take shown entries),
      rw (some_count, display_count_lem count) refl,
      entry_lines-Shows count 0 (take shown entries)
          (omega (arith, fits, length-take-le shown entries))
          (All-take (λ e. IsInt e.score) shown entries s),
    )
