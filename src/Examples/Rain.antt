-- ===== src/Examples/Rain.antt =====
-- A short game.
use rain_typing_game.Prelude.{◌≡◌, refl, true, false, some, [], ◌∷◌, utf8, length, arith}
use rain_typing_game.Client.WordManager.{WordManager}
use rain_typing_game.Client.Game.{Game, Word, word_normal, word_bonus, new_game, start_game}
use rain_typing_game.Client.Game.Input.{select_target, edit_input, process_game_input}
use rain_typing_game.Client.Game.Input.Target.{IsTarget}
use rain_typing_game.Client.Game.Spawn.{SpawnIo, IsThread, spawn_word}
use rain_typing_game.Client.Game.Steps.{Main, between_keys, key, spawn, Reaches, start, next}
use rain_typing_game.Client.Game.Steps.Fits.{Fits}
use rain_typing_game.Client.Game.Steps.Reachable.{Reaches-Fits}
use rain_typing_game.Client.Game.Steps.Alive.{Later, Step-Later}
use rain_typing_game.Client.Game.Steps.Tracked.{Tracked}
use rain_typing_game.Client.Game.Steps.Always.{Reaches-Tracked}
use rain_typing_game.Client.Game.Steps.Keys.{Entered, process_game_input_lem}

abbrev pub manager : WordManager
manager = record { words = utf8 "rain" ∷ []; capacity = 100; is_initialized = true }

abbrev pub game : Game
game = new_game 19 78

pub started : start_game 24 80 ≡ some game
unfolding start_game
started = refl

abbrev pub io : SpawnIo
io = record {
  picks = λ k. 41;
  place = 7;
  kill = 50;
  bonus = 10;
  allocates = true;
  created = some 3;
}

pub io-IsThread : IsThread io
io-IsThread e = cc

abbrev typed : Game
typed = edit_input 263 b'r' game

abbrev later : Game × Main
later = (spawn_word io manager typed, between_keys)

reached : Reaches manager 263 (game, between_keys) later
reached = next (next start (key b'r')) (spawn io io-IsThread)

Reaches-Fits_example : Fits later.0
Reaches-Fits_example = Reaches-Fits manager 263 24 80 game later started reached

Reaches-Tracked_example : Tracked later.0
Reaches-Tracked_example = Reaches-Tracked manager 263 24 80 game later started reached

Step-Later_example : Later typed later.0
Step-Later_example = Step-Later manager 263 (typed, between_keys) later (spawn io io-IsThread)

-- Two words of the same text, of which the bonus word is hit, and one line that hits it.
abbrev normal : Word
normal = record {
  text = utf8 "rain";
  x = 0;
  y = 9;
  active = true;
  to_remove = false;
  wtype = word_normal;
  thread_id = 1;
}

abbrev bonus : Word
bonus = record normal { y = 2; wtype = word_bonus; thread_id = 2 }

abbrev pub playing : Game
playing = record game { words = normal ∷ bonus ∷ []; current_input_buffer = utf8 "rain" }

process_game_input_lem_example :
    let target = select_target (utf8 "rain") (normal ∷ bonus ∷ []) in
    let h = process_game_input 263 (some 10) playing in
    IsTarget (utf8 "rain") (normal ∷ bonus ∷ []) target
    × Entered playing h target
    × (length h.current_input_buffer ≡ 0)
    × (h.current_game_lives ≡ playing.current_game_lives)
process_game_input_lem_example = process_game_input_lem 263 playing refl (omega arith)
