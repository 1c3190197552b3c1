-- ===== src/Client/Game/Steps/Keys.antt =====
-- A key is handled by steps of the main thread, and what a line is worth.
use rain_typing_game.Prelude.{
  ℕ, ◌+◌, ◌<◌, ◌≡◌, refl, sym, subst, ap, ◌∙◌, Bool, true, false, ◌||◌, Option, none, some, ltb,
  ◌==◌, if◌then◌else◌, length, get_elem?, arith,
}
use rain_typing_game.Client.WordManager.{WordManager}
use rain_typing_game.Client.Game.{Game, Word, WordType, word_normal, word_kill, word_bonus}
use rain_typing_game.Client.Game.Input.{
  Hit, take_target, take_index, take_word, score_hit, clear_input, enter_line, process_game_input,
  select_target,
}
use rain_typing_game.Client.Game.Input.Target.{IsTarget, select_target-IsTarget}
use rain_typing_game.Client.Game.Steps.{
  Main, between_keys, key, take_line, score_line, Reaches, start, next,
}

module _ (manager : WordManager) (key_backspace : ℕ) where
  pub Reaches-if :
      (b : Bool) {s : Game × Main} {g h : Game}
      → Reaches manager key_backspace s (g, between_keys)
      → Reaches manager key_backspace s (h, between_keys)
      → Reaches manager key_backspace s (if b then g else h, between_keys)
  Reaches-if true p q = p
  Reaches-if false p q = q

  -- What a key does in one go is what the steps of the main thread do one after the other.
  pub process_game_input-Reaches :
      (g : Game) (ch : Option ℕ)
      → Reaches manager key_backspace
          (g, between_keys)
          (process_game_input key_backspace ch g, between_keys)
  unfolding process_game_input enter_line
  process_game_input-Reaches g none = start
  process_game_input-Reaches g (some ch) = Reaches-if g.game_is_over start (
      Reaches-if (ch == 10 || ch == 32)
        (Reaches-if (ltb 0 (length g.current_input_buffer)) (next (next start take_line) score_line)
          start)
        (next start (key ch)))

-- The points of a word by its type.
abbrev points : WordType → ℕ → ℕ
points word_kill n = 0
points word_bonus n = 50 + n
points word_normal n = n

abbrev is_end : WordType → Bool
is_end word_kill = true
is_end _ = false

-- What a line does to the game.
abbrev pub Entered : Game → Game → Option ℕ → Type 0
Entered g h none =
    (h.current_game_score ≡ g.current_game_score)
    × (h.game_is_over ≡ g.game_is_over)
    × (h.words ≡ g.words)
Entered g h (some i) =
    (w : Word) × (get_elem? g.words i ≡ some w)
    × (h.current_game_score ≡ g.current_game_score + points w.wtype (length w.text))
    × (h.game_is_over ≡ (is_end w.wtype || g.game_is_over))

score_word :
    (g h : Game) (w : Word)
    → h.current_game_score ≡ g.current_game_score
    → h.game_is_over ≡ g.game_is_over
    → let k = score_hit h (some (record { wtype = w.wtype; text = w.text })) in
      (k.current_game_score ≡ g.current_game_score + points w.wtype (length w.text))
      × (k.game_is_over ≡ (is_end w.wtype || g.game_is_over))
unfolding score_hit
score_word g h w s o =
    elim w.wtype
      as (λ t.
        let k = score_hit h (some (record { wtype = t; text = w.text })) in
        (k.current_game_score ≡ g.current_game_score + points t (length w.text))
        × (k.game_is_over ≡ (is_end t || g.game_is_over))) [
          | word_kill ↦ (omega (arith, s), refl)
          | word_bonus ↦ (omega (arith, s), o)
          | word_normal ↦ (omega (arith, s), o)
        ]

entered :
    (g : Game) (r : Option ℕ)
    → IsTarget g.current_input_buffer g.words r
    → let (g', hit) = take_index g r in Entered g (clear_input (score_hit g' hit)) r
unfolding take_index
entered g none t = unfold score_hit in (refl, refl, refl)
entered g (some i) (w, e, _, _) =
    rw e (unfold take_word in (let (s, o) = score_word g _ w refl refl in (w, refl, s, o)))

hit-lives :
    (g : Game) (hit : Option Hit) → (score_hit g hit).current_game_lives ≡ g.current_game_lives
unfolding score_hit
hit-lives g none = refl
hit-lives g (some hit) =
    elim hit.wtype
      as (λ t.
        (score_hit g (some (record { wtype = t; text = hit.text }))).current_game_lives
        ≡ g.current_game_lives) [ word_kill ↦ refl | word_bonus ↦ refl | word_normal ↦ refl ]

taken-lives :
    (g : Game) (i : ℕ) (r : Option Word)
    → (take_word g i r).0.current_game_lives ≡ g.current_game_lives
unfolding take_word
taken-lives g i none = refl
taken-lives g i (some w) = refl

entered-lives :
    (g : Game) (r : Option ℕ)
    → let (g', hit) = take_index g r in (score_hit g' hit).current_game_lives ≡ g.current_game_lives
unfolding take_index
entered-lives g none = hit-lives g none
entered-lives g (some i) = hit-lives _ _ ∙ taken-lives g i (get_elem? g.words i)

-- While the game is not over, Enter on a typed line picks a target as it is meant to, scores its
-- length, plus 50 for a bonus word, or ends the game for a kill word without points, or changes
-- nothing if no active word matches; then the input is empty and no life is lost.
pub process_game_input_lem :
    (key_backspace : ℕ) (g : Game)
    → g.game_is_over ≡ false
    → 0 < length g.current_input_buffer
    → let target = select_target g.current_input_buffer g.words in
      let h = process_game_input key_backspace (some 10) g in
      IsTarget g.current_input_buffer g.words target
      × Entered g h target
      × (length h.current_input_buffer ≡ 0)
      × (h.current_game_lives ≡ g.current_game_lives)
unfolding process_game_input
process_game_input_lem key_backspace g on typed =
    let pressed : process_game_input key_backspace (some 10) g ≡ enter_line g =
      ground (arith, on, typed) in
    let r = select_target g.current_input_buffer g.words in
    let t = select_target-IsTarget g.current_input_buffer g.words in
    (
      t,
      subst (λ h. Entered g h r) (sym pressed) (unfold enter_line take_target in entered g r t),
      ap (λ (h : Game). length h.current_input_buffer) pressed ∙ (unfold enter_line in refl),
      ap (λ (h : Game). h.current_game_lives) pressed
          ∙ (unfold enter_line take_target in entered-lives g r),
    )
