-- ===== src/Client/Game/Steps/Reachable.antt =====
-- Every state of the game that can be reached keeps its arrays in order.
use rain_typing_game.Prelude.{
  ℕ, ◌-◌, ◌≤◌, ◌<◌, ◌≡◌, inl, inr, refl, sym, ap, subst, ◌∙◌, ◌||◌, none, some, [], ltb,
  if◌then◌else◌, All-replicate, arith, Bool-cases,
}
use rain_typing_game.Client.WordManager.{WordManager}
use rain_typing_game.Client.Game.{Game, no_word, max_words, new_game, start_game}
use rain_typing_game.Client.Game.Steps.{
  Main, between_keys, Step, interrupt, drop, finish, key, take_line, score_line, spawn, clean_up,
  Reaches, start, next,
}
use rain_typing_game.Client.Game.Steps.Fits.{
  FitsWord, Fits, with_words, drop_word-Fits, finish_thread-Fits, cleanup_finished_threads-Fits,
}
use rain_typing_game.Client.Game.Steps.MainThread.{
  take_target-Fits, score_hit-Fits, with_input, edit_input-Fits, spawn_word-Fits,
}

module _ (manager : WordManager) (key_backspace : ℕ) where
  Step-Fits : {s t : Game × Main} → Step manager key_backspace s t → Fits s.0 → Fits t.0
  Step-Fits interrupt f = with_words _ f refl refl f.words_fit refl refl
  Step-Fits (drop {g} {m} i r) f = drop_word-Fits i g f
  Step-Fits (finish {g} {m} i r) f = finish_thread-Fits i g f
  Step-Fits (key {g} ch) f = edit_input-Fits key_backspace ch g f
  Step-Fits (take_line {g}) f = take_target-Fits g f
  Step-Fits (score_line {g} {hit}) f = with_input _ [] (score_hit-Fits g hit f) (omega arith)
  Step-Fits (spawn {g} io k) f = spawn_word-Fits io manager g k f
  Step-Fits (clean_up {g}) f = cleanup_finished_threads-Fits g f

no_word-FitsWord : (height width : ℕ) → FitsWord height width no_word
no_word-FitsWord height width = record {
  text_fits = omega arith;
  row = λ e. cc;
  columns = λ e. cc;
  thread = λ e. cc;
}

new_game-Fits : (height width : ℕ) → 0 < height → Fits (new_game height width)
new_game-Fits height width h =
    let w = no_word-FitsWord height width in
    record {
      slots = refl;
      tall = h;
      words_fit = All-replicate (FitsWord height width) {a = no_word} max_words w;
      input_fits = omega arith;
    }

pub start_game_lem :
    (screen_height screen_width : ℕ) (g : Game)
    → start_game screen_height screen_width ≡ some g
    → (new_game (screen_height - 5) (screen_width - 2) ≡ g) × (5 ≤ screen_height - 5)
unfolding start_game
start_game_lem screen_height screen_width g e =
    elim (Bool-cases (ltb (screen_height - 5) 5 || ltb (screen_width - 2) 20)) [
      | inl small ↦ absurd (
          ground (
            arith,
            sym (
                  ap
                    (λ b.
                      if b then none else some (new_game (screen_height - 5) (screen_width - 2)))
                    small)
                ∙ e,
          ))
      | inr big ↦ (
        some-injective (
            sym (
              ap (λ b. if b then none else some (new_game (screen_height - 5) (screen_width - 2)))
                big)
            ∙ e),
        ground (arith, big),
      )
    ]
  where
    some-injective : {a b : Game} → some a ≡ some b → a ≡ b
    some-injective e = cc

pub start_game-Fits :
    (screen_height screen_width : ℕ) (g : Game)
    → start_game screen_height screen_width ≡ some g
    → Fits g
start_game-Fits screen_height screen_width g e =
    let (same, tall) = start_game_lem screen_height screen_width g e in
    subst Fits same (new_game-Fits _ _ (omega (arith, tall)))

module _ (manager : WordManager) (key_backspace : ℕ) where
  pub steps-Fits : {s t : Game × Main} → Reaches manager key_backspace s t → Fits s.0 → Fits t.0
  steps-Fits start f = f
  steps-Fits (next r step) f = Step-Fits manager key_backspace step (steps-Fits r f)

  -- In every state that critical sections of the main thread, the word threads and the signal
  -- handler reach from the start of a game, in any order: there are 20 slots, the input fits its
  -- buffer, each text fits its array, and each active word stands on a row of the area, within
  -- its columns unless it is at column 0, and has a running thread.
  pub Reaches-Fits :
      (screen_height screen_width : ℕ) (g : Game) (t : Game × Main)
      → start_game screen_height screen_width ≡ some g
      → Reaches manager key_backspace (g, between_keys) t
      → Fits t.0
  Reaches-Fits screen_height screen_width g t e r =
      steps-Fits r (start_game-Fits screen_height screen_width g e)
