-- ===== src/Client/Game/Screen/Framed.antt =====
-- What is drawn on the area stays within the frame.
use rain_typing_game.Prelude.{
  ℕ, some, ◌+◌, ◌-◌, ◌/◌, ◌%◌, ◌^◌, ◌≤◌, ◌<◌, ◌≡◌, ◌⊎◌, inl, inr, refl, Bool, true, false, List, [],
  ◌∷◌, ◌++◌, ap, Bytes, length, All, All-append, if◌then◌else◌, ltb, ℤ, pos, negsuc, arith,
}
use rain_typing_game.Common.Decimal.{of_word}
use rain_typing_game.Client.Game.{Game, Word, start_game}
use rain_typing_game.Client.WordManager.{WordManager}
use rain_typing_game.Client.Game.Steps.{Main, between_keys, Reaches}
use rain_typing_game.Client.Game.Steps.Fits.{FitsWord}
use rain_typing_game.Client.Game.Steps.Reachable.{Reaches-Fits}
use rain_typing_game.Client.Game.Screen.{
  Drawn, Flags, draw_word, draw_words, centred, over_text, any_key_text, draw_over, status_lines,
  input_line, draw_game_screen,
}

-- Right of the frame's first column, and left of its last one, but for a text at the first column
-- of the area.
abbrev Columns : ℕ → ℤ → ℕ → Type 0
Columns width (pos x) len = (1 ≤ x) × ((x + len ≤ width + 1) ⊎ (x ≡ 1))
Columns width (negsuc x) len = ⊥

pub record InFrame (height width : ℕ) (d : Drawn) : Type 0 where
  pub below_top : 1 < d.row
  pub above_bottom : d.row < height + 2
  pub columns : Columns width d.column (length d.text)

inside : (x len width : ℕ) → (x + len ≤ width) ⊎ (x ≡ 0) → (1 + x + len ≤ width + 1) ⊎ (1 + x ≡ 1)
inside x len width (inl h) = inl (omega arith)
inside x len width (inr h) = inr (omega arith)

draw_word-InFrame :
    (height width : ℕ) (has_colors : Bool) (w : Word)
    → FitsWord height width w
    → w.active ≡ true
    → InFrame height width (draw_word has_colors w)
unfolding draw_word
draw_word-InFrame height width has_colors w f e = record {
  below_top = omega arith;
  above_bottom = omega (arith, f.row e);
  columns = (omega arith, inside w.x (length w.text) width (f.columns e));
}

All-if {ℓ κ} :
    {A : Type ℓ} (P : A → Type κ) (b : Bool) (xs ys : List A)
    → (b ≡ true → All P xs)
    → All P ys
    → All P (if b then xs else ys)
All-if P true xs ys h k = h refl
All-if P false xs ys h k = k

draw_words-InFrame :
    (height width : ℕ) (has_colors : Bool) (ws : List Word)
    → All (FitsWord height width) ws
    → All (InFrame height width) (draw_words has_colors ws)
unfolding draw_words
draw_words-InFrame height width has_colors [] h = tt
draw_words-InFrame height width has_colors (w ∷ ws) (f, h) =
    let rest = draw_words-InFrame height width has_colors ws h in
    All-if (InFrame height width) w.active _ _
      (λ e. (draw_word-InFrame height width has_colors w f e, rest)) rest

-- A text that is no longer than the area is printed in its middle.
centred_lem :
    (width : ℕ) (msg : Bytes)
    → length msg ≤ width
    → width < 2 ^ 31
    → centred width msg ≡ pos (1 + (width - length msg) / 2)
unfolding centred of_word
centred_lem width msg h k =
    let small : (1 + (width + 2 ^ 64 - length msg) % 2 ^ 64 / 2) % 2 ^ 32
        ≡ 1 + (width - length msg) / 2 =
      omega arith in
    let low : ltb (1 + (width - length msg) / 2) (2 ^ 31) ≡ true = ground arith in
    rw (small, low) refl

-- A text that is longer than the area by three columns or more is printed left of the screen.
centred_outside :
    (width : ℕ) (msg : Bytes)
    → width + 2 < length msg
    → length msg < 2 ^ 31
    → centred width msg ≡ negsuc ((length msg - width + 1) / 2 - 2)
unfolding centred of_word
centred_outside width msg h k =
    let c = (length msg - width + 1) / 2 in
    let large : (1 + (width + 2 ^ 64 - length msg) % 2 ^ 64 / 2) % 2 ^ 32 ≡ 2 ^ 32 + 1 - c =
      omega arith in
    let high : ltb (2 ^ 32 + 1 - c) (2 ^ 31) ≡ false = ground arith in
    rw (large, high) (ap negsuc (omega arith))

centred-Columns :
    (width : ℕ) (msg : Bytes)
    → length msg ≤ width
    → width < 2 ^ 31
    → Columns width (centred width msg) (length msg)
centred-Columns width msg h k = rw (centred_lem width msg h k) (omega arith, inl (omega arith))

length-over_text : (f : Flags) → length (over_text f) ≤ 28
length-over_text f = ground arith

draw_over-InFrame :
    (f : Flags) (g : Game)
    → 5 ≤ g.area_height
    → 28 ≤ g.area_width
    → g.area_width < 2 ^ 31
    → All (InFrame g.area_height g.area_width) (draw_over f g)
unfolding draw_over
draw_over-InFrame f g tall wide narrow =
    All-if (InFrame g.area_height g.area_width) g.game_is_over _ []
      (λ e. (
        record {
          below_top = omega arith;
          above_bottom = omega arith;
          columns =
              centred-Columns g.area_width (over_text f) (omega (arith, length-over_text f)) narrow;
        },
        (
          record {
            below_top = omega arith;
            above_bottom = omega arith;
            columns = centred-Columns g.area_width any_key_text (omega arith) narrow;
          },
          tt,
        ),
      ))
      tt

-- In every state that a game reaches whose area is at least 5 rows and 28 columns, each word and
-- each text of the end of a game is drawn inside the frame, or from the first column of the area;
-- and the other lines are the status lines.
pub draw_game_screen-InFrame :
    (manager : WordManager) (key_backspace screen_height screen_width : ℕ) (g : Game)
    (t : Game × Main) (f : Flags)
    → start_game screen_height screen_width ≡ some g
    → Reaches manager key_backspace (g, between_keys) t
    → 5 ≤ t.0.area_height
    → 28 ≤ t.0.area_width
    → t.0.area_width < 2 ^ 31
    → (falling over : List Drawn) × (draw_game_screen f t.0
        ≡ status_lines t.0 ++ (falling ++ (input_line t.0 ∷ over)))
      × All (InFrame t.0.area_height t.0.area_width) (falling ++ over)
unfolding draw_game_screen
draw_game_screen-InFrame manager key_backspace screen_height screen_width g t f e r tall wide
      narrow =
    let fits = Reaches-Fits manager key_backspace screen_height screen_width g t e r in
    (
      draw_words f.has_colors t.0.words,
      draw_over f t.0,
      refl,
      All-append _ (draw_words f.has_colors t.0.words) (draw_over f t.0)
          (draw_words-InFrame t.0.area_height t.0.area_width f.has_colors t.0.words fits.words_fit)
          (draw_over-InFrame f t.0 tall wide narrow),
    )
