-- ===== src/Client/Game/Loop.antt =====
-- run_rain_typing_game and safe_game_cleanup of client/src/game_logic.c: the rounds of the main
-- thread, with the turns that the word threads take between them, and the end of a game.
pub mod Turns
pub mod Ends
pub mod Reached
pub mod Words
pub mod Deadlock
pub mod Kept
pub mod Paced
use rain_typing_game.Prelude.{
  ℕ, zero, suc, ◌+◌, ◌-◌, ◌≤◌, Bool, true, false, not, ◌&&◌, ◌||◌, Option, none, some, List, [],
  ◌∷◌, Bytes, leb, ◌==◌, if◌then◌else◌, get_elem?, ℤ, pos, negsuc,
}
use rain_typing_game.Client.ActiveWords.{cleanup_active_word_table}
use rain_typing_game.Client.WordManager.{WordManager, cleanup_word_manager}
use rain_typing_game.Client.Game.{
  Game, Word, end_game, drop_word, finish_thread, cleanup_finished_threads, start_game,
}
use rain_typing_game.Client.Game.Input.{process_game_input}
use rain_typing_game.Client.Game.Spawn.{SpawnIo, spawn_word}

abbrev word_spawn_rate_ms : ℕ
word_spawn_rate_ms = 1500

-- What a word thread does when its turn comes: a signal that it sees, a drop, or its last section.
pub data Turn : Type 0 where
  interrupts : Turn
  drops finishes : ℕ → Turn

-- The thread of a slot has not come to its last section.
abbrev pub is_running : Word → Bool
is_running w = not (w.thread_id == 0) && not w.to_remove

-- A thread drops its word in its loop, and leaves the loop if its word is not active or the game is
-- over.
drop_turn : ℕ → Game → Option Word → Game
drop_turn i g none = g
drop_turn i g (some w) = if is_running w then drop_word i g else g

finish_turn : ℕ → Game → Option Word → Game
finish_turn i g none = g
finish_turn i g (some w) =
    if is_running w && (not w.active || g.game_is_over) then finish_thread i g else g

pub run_turn : Turn → Game → Game
unfolding drop_turn finish_turn
run_turn interrupts g = end_game g
run_turn (drops i) g = drop_turn i g (get_elem? g.words i)
run_turn (finishes i) g = finish_turn i g (get_elem? g.words i)

pub run_turns : List Turn → Game → Game
run_turns [] g = g
run_turns (t ∷ ts) g = run_turns ts (run_turn t g)

-- One round: whether a signal is seen at its start, the key (`none` for ERR), the clock, the system
-- calls of a spawn, and the turns of the threads before the key, before the spawn and at the end.
-- No turn is taken between the two sections of a line.
pub record Round : Type 0 where
  pub signalled : Bool
  pub key : Option ℕ
  pub now_ms : ℕ
  pub spawn : SpawnIo
  pub before_key : List Turn
  pub before_spawn : List Turn
  pub at_end : List Turn

-- The game with `last_spawn_ms`.
pub record Playing : Type 0 where
  pub game : Game
  pub last_spawn_ms : ℕ

-- `if (sigint_received) … else if (sigint_game_exit_requested) …`
abbrev pub see_signal : Bool → Game → Game
see_signal signalled g = if signalled then end_game g else g

-- The loop has ended, or has run for the rounds given.
pub data Looped : Type 0 where
  ended playing : Playing → Looped

module _ (manager : WordManager) (key_backspace : ℕ) where
  pub spawn_if_due : SpawnIo → ℕ → Playing → Playing
  spawn_if_due io now_ms p =
      if not p.game.game_is_over && leb (p.last_spawn_ms + word_spawn_rate_ms) now_ms
      then record { game = spawn_word io manager p.game; last_spawn_ms = now_ms }
      else p

  -- The body of the loop behind the look at game_is_over.
  pub play_round : Round → Playing → Playing
  play_round r p =
      let keyed = process_game_input key_backspace r.key (run_turns r.before_key p.game) in
      let q = spawn_if_due r.spawn r.now_ms (record p { game = run_turns r.before_spawn keyed }) in
      record q { game = run_turns r.at_end (cleanup_finished_threads q.game) }

  pub game_loop : List Round → Playing → Looped
  game_loop [] p = playing p
  game_loop (r ∷ rounds) p =
      let seen = see_signal r.signalled p.game in
      let q = play_round r (record p { game = seen }) in
      let rest = game_loop rounds q in if seen.game_is_over then ended q else rest

-- One slot of the second section of safe_game_cleanup: the thread is joined if it has come to its
-- last section before, or between the two sections (`late`). Else it waits for words_mutex, which
-- the caller of pthread_join holds: `none`. Client.Game.Loop.Deadlock has the section with the mutex
-- and the threads, and relates the two.
pub join_slot : Bool → Word → Option Word
join_slot late w =
    if w.thread_id == 0
    then some w
    else if w.to_remove || late
    then some (record w { thread_id = 0; active = false; to_remove = false; text = [] })
    else none

keep_slot : Option Word → Option (List Word) → Option (List Word)
keep_slot (some w) (some ws) = some (w ∷ ws)
keep_slot _ _ = none

-- The loop from slot `i` on. pthread_join succeeds for a thread that ends, so that one attempt is
-- enough.
pub join_slots : (ℕ → Bool) → ℕ → List Word → Option (List Word)
unfolding join_slot keep_slot
join_slots late i [] = some []
join_slots late i (w ∷ ws) = keep_slot (join_slot (late i) w) (join_slots late (suc i) ws)

-- The score with the game and the word manager that it leaves, the return value of a game that did
-- not start, a loop that goes on, or a main thread that waits for ever.
pub data Played : Type 0 where
  returned : ℕ → Game → WordManager → Played
  refused : ℤ → Played
  plays blocks : Played

cleaned : WordManager → Game → Option (List Word) → Played
cleaned manager g none = blocks
cleaned manager g (some ws) =
    returned g.current_game_score
      (record g { words = ws; active_words = cleanup_active_word_table g.active_words })
      (cleanup_word_manager manager)

pub safe_game_cleanup : (ℕ → Bool) → WordManager → Game → Played
unfolding cleaned
safe_game_cleanup late manager g = cleaned manager g (join_slots late 0 g.words)

-- What happens around the loop: the outcomes of the calls of pthread_mutex_init, the clock at the
-- start, the turns while the main thread waits for a key behind the loop, and `late`.
pub record Frame : Type 0 where
  pub table_mutex : Bool
  pub mutexes : Bool
  pub start_ms : ℕ
  pub at_exit : List Turn
  pub late : ℕ → Bool

finish_game : Frame → WordManager → Looped → Played
finish_game f manager (ended p) = safe_game_cleanup f.late manager (run_turns f.at_exit p.game)
finish_game f manager (playing p) = plays

play_game : Frame → WordManager → ℕ → List Round → Option Game → Played
unfolding finish_game
play_game f manager key_backspace rounds none = refused (negsuc 0)
play_game f manager key_backspace rounds (some g) =
    if f.mutexes
    then finish_game f manager
        (game_loop manager key_backspace rounds (record { game = g; last_spawn_ms = f.start_ms }))
    else refused (negsuc 1)

pub run_rain_typing_game : Frame → WordManager → ℕ → ℕ → ℕ → List Round → Played
unfolding play_game
run_rain_typing_game f manager key_backspace screen_height screen_width rounds =
    if f.table_mutex
    then play_game f manager key_backspace rounds (start_game screen_height screen_width)
    else refused (negsuc 1)
