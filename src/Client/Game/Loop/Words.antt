-- ===== src/Client/Game/Loop/Words.antt =====
-- A game that returns has dropped its words.
use rain_typing_game.Prelude.{
  ℕ, ◌≡◌, refl, Bool, true, false, Option, none, some, List, if◌then◌else◌,
}
use rain_typing_game.Client.WordManager.{WordManager, cleanup_word_manager}
use rain_typing_game.Client.Game.{Game, Word}
use rain_typing_game.Client.Game.Loop.{
  run_turns, Round, Looped, ended, playing, Played, returned, refused, cleaned, safe_game_cleanup,
  Frame, finish_game, play_game, run_rain_typing_game,
}

-- The manager that a game returns with is the one that cleanup_word_manager leaves.
abbrev pub Drops : WordManager → Played → Type 0
Drops manager (returned score g m) = m ≡ cleanup_word_manager manager
Drops manager _ = Unit

Drops-if :
    (manager : WordManager) (b : Bool) (p q : Played)
    → Drops manager p
    → Drops manager q
    → Drops manager (if b then p else q)
Drops-if manager true p q h k = h
Drops-if manager false p q h k = k

cleaned-Drops :
    (manager : WordManager) (g : Game) (r : Option (List Word))
    → Drops manager (cleaned manager g r)
unfolding cleaned
cleaned-Drops manager g none = tt
cleaned-Drops manager g (some ws) = refl

finish_game-Drops :
    (f : Frame) (manager : WordManager) (l : Looped) → Drops manager (finish_game f manager l)
unfolding finish_game safe_game_cleanup
finish_game-Drops f manager (ended p) = cleaned-Drops manager (run_turns f.at_exit p.game) _
finish_game-Drops f manager (playing p) = tt

play_game-Drops :
    (f : Frame) (manager : WordManager) (key_backspace : ℕ) (rounds : List Round) (g : Option Game)
    → Drops manager (play_game f manager key_backspace rounds g)
unfolding play_game
play_game-Drops f manager key_backspace rounds none = tt
play_game-Drops f manager key_backspace rounds (some g) =
    Drops-if manager f.mutexes _ (refused _) (finish_game-Drops f manager _) tt

pub run_rain_typing_game-Drops :
    (f : Frame) (manager : WordManager) (key_backspace screen_height screen_width : ℕ)
    (rounds : List Round)
    → Drops manager (run_rain_typing_game f manager key_backspace screen_height screen_width rounds)
unfolding run_rain_typing_game
run_rain_typing_game-Drops f manager key_backspace screen_height screen_width rounds =
    Drops-if manager f.table_mutex _ (refused _) (play_game-Drops f manager key_backspace rounds _)
      tt
