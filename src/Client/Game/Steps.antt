-- ===== src/Client/Game/Steps.antt =====
-- How the main thread of client/src/game_logic.c, the word threads and the signal handler may take
-- turns: one step is one critical section.
pub mod Fits
pub mod MainThread
pub mod Reachable
pub mod Alive
pub mod Tracked
pub mod Always
pub mod Keys
use rain_typing_game.Prelude.{
  ℕ, ◌<◌, ◌≤◌, ◌≡◌, ◌≢◌, ◌⊎◌, Bool, true, false, Option, none, some, List, Bytes, get_elem?, length,
}
use rain_typing_game.Client.WordManager.{WordManager}
use rain_typing_game.Client.Game.{
  Game, Word, end_game, drop_word, finish_thread, cleanup_finished_threads, new_game,
}
use rain_typing_game.Client.Game.Input.{Hit, take_target, score_hit, clear_input, edit_input}
use rain_typing_game.Client.Game.Spawn.{SpawnIo, IsThread, spawn_word}

-- The main thread is between its two sections for a line, with what the line hit, or elsewhere.
pub data Main : Type 0 where
  between_keys : Main
  scoring : Option Hit → Main

-- A slot whose thread has not come to its last section.
abbrev pub IsRunning : Game → ℕ → Type 0
IsRunning g i =
    (w : Word) × (get_elem? g.words i ≡ some w) × (w.thread_id ≢ 0) × (w.to_remove ≡ false)

-- A thread leaves its loop when its word is not active or the game is over.
abbrev pub IsLeaving : Game → ℕ → Type 0
IsLeaving g i =
    (w : Word) × (get_elem? g.words i ≡ some w)
    × (w.thread_id ≢ 0)
    × (w.to_remove ≡ false)
    × ((w.active ≡ false) ⊎ (g.game_is_over ≡ true))

module _ (manager : WordManager) (key_backspace : ℕ) where
  pub data Step : Game × Main → Game × Main → Type 0 where
    interrupt : {g : Game} {m : Main} → Step (g, m) (end_game g, m)
    drop : {g : Game} {m : Main} (i : ℕ) → IsRunning g i → Step (g, m) (drop_word i g, m)
    finish : {g : Game} {m : Main} (i : ℕ) → IsLeaving g i → Step (g, m) (finish_thread i g, m)
    key : {g : Game} (ch : ℕ) → Step (g, between_keys) (edit_input key_backspace ch g, between_keys)
    take_line : {g : Game} → Step (g, between_keys) ((take_target g).0, scoring (take_target g).1)
    score_line :
        {g : Game} {hit : Option Hit}
        → Step (g, scoring hit) (clear_input (score_hit g hit), between_keys)
    spawn :
        {g : Game} (io : SpawnIo)
        → IsThread io
        → Step (g, between_keys) (spawn_word io manager g, between_keys)
    clean_up : {g : Game} → Step (g, between_keys) (cleanup_finished_threads g, between_keys)

  pub data Reaches (s : Game × Main) : Game × Main → Type 0 where
    start : Reaches s s
    next : {t u : Game × Main} → Reaches s t → Step t u → Reaches s u
