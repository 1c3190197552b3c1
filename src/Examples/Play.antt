-- ===== src/Examples/Play.antt =====
-- Games from their start to their end, and the screen.
use native.Mathlib.Decide.{dec_lt}
use rain_typing_game.Prelude.{
  ℕ, zero, suc, ◌<◌, ◌≡◌, ◌⊎◌, inl, inr, refl, ap, true, false, none, some, List, [], ◌∷◌, ◌++◌,
  All, get_elem?, arith,
}
use rain_typing_game.Client.Game.{Game, end_game}
use rain_typing_game.Client.Game.Steps.{between_keys, interrupt, start, next}
use rain_typing_game.Client.Game.Loop.{
  Turn, drops, finishes, Round, Playing, ended, game_loop, play_round, blocks, run_turns,
  safe_game_cleanup, Frame, run_rain_typing_game,
}
use rain_typing_game.Client.Game.Loop.Turns.{Finishes}
use rain_typing_game.Client.Game.Loop.Deadlock.{
  IsDone, Waiting, threads_of, CanLeave, second_section, safe_game_cleanup-CanLeave,
}
use rain_typing_game.Client.Game.Loop.Ends.{Returns, run_rain_typing_game-Returns}
use rain_typing_game.Client.Game.Loop.Kept.{AtSlot}
use rain_typing_game.Client.Game.Loop.Paced.{IsReaped, IsDue, NoSpawn, play_round-paced}
use rain_typing_game.Client.Game.Screen.{Drawn, Flags, draw_game_screen, status_lines, input_line}
use rain_typing_game.Client.Game.Screen.Framed.{InFrame, draw_game_screen-InFrame}
use rain_typing_game.Examples.Rain.{io, io-IsThread, game, manager, started, playing}

-- A key and a spawn in the first round, and a signal in the second.
abbrev first_round : Round
first_round = record {
  signalled = false;
  key = some b'r';
  now_ms = 1600;
  spawn = io;
  before_key = [];
  before_spawn = [];
  at_end = drops 0 ∷ [];
}

abbrev pub rounds : List Round
rounds =
    first_round
    ∷ record {
      signalled = true;
      key = none;
      now_ms = 1630;
      spawn = io;
      before_key = drops 0 ∷ [];
      before_spawn = [];
      at_end = finishes 0 ∷ [];
    }
    ∷ []

abbrev beginning : Playing
beginning = record { game = game; last_spawn_ms = 0 }

play_round-paced_example :
    (IsDue manager first_round beginning (play_round manager 263 first_round beginning)
      ⊎ NoSpawn 0 first_round beginning (play_round manager 263 first_round beginning))
    × (Finishes 0 (drops 0 ∷ [])
        ⊎ AtSlot IsReaped (get_elem? (play_round manager 263 first_round beginning).game.words 0))
play_round-paced_example = play_round-paced manager 263 0 first_round beginning

-- Every thread takes its last turn.
abbrev all_finish : ℕ → List Turn
all_finish zero = []
all_finish (suc n) = finishes n ∷ all_finish n

all_finish-Finishes : (n i : ℕ) → i < n → Finishes i (all_finish n)
all_finish-Finishes zero i h = absurd (omega arith)
all_finish-Finishes (suc n) i h = elim (dec_lt i n) [
  | yes before ↦ inr (all_finish-Finishes n i before)
  | no last ↦ inl (ap finishes (omega arith))
]

abbrev pub frame : Frame
frame = record {
  table_mutex = true;
  mutexes = true;
  start_ms = 0;
  at_exit = all_finish 20;
  late = λ i. false;
}

run_rain_typing_game-Returns_example :
    (q : Playing) × (game_loop manager 263 rounds beginning ≡ ended q)
    × Returns
        (run_turns (all_finish 20) q.game)
        manager
        (run_rain_typing_game frame manager 263 24 80 rounds)
run_rain_typing_game-Returns_example =
    run_rain_typing_game-Returns frame manager 263 24 80 rounds game started refl refl
      (io-IsThread, (io-IsThread, tt)) (inr (inl refl)) (all_finish-Finishes 20)

safe_game_cleanup-CanLeave_example :
    (All IsDone (threads_of (λ i. false) 0 playing.words)
      × Returns playing manager (safe_game_cleanup (λ i. false) manager playing)
      × CanLeave (second_section (λ i. false) playing.words))
    ⊎ (Waiting (threads_of (λ i. false) 0 playing.words)
        × (safe_game_cleanup (λ i. false) manager playing ≡ blocks)
        × (CanLeave (second_section (λ i. false) playing.words) → ⊥))
safe_game_cleanup-CanLeave_example = safe_game_cleanup-CanLeave (λ i. false) manager playing

abbrev over : Game
over = end_game game

abbrev flags : Flags
flags = record { sigint_received = false; sigint_game_exit_requested = true; has_colors = true }

draw_game_screen-InFrame_example :
    (falling ending : List Drawn) × (draw_game_screen flags over
      ≡ status_lines over ++ (falling ++ (input_line over ∷ ending)))
    × All (InFrame 19 78) (falling ++ ending)
draw_game_screen-InFrame_example =
    draw_game_screen-InFrame manager 263 24 80 game (over, between_keys) flags started
      (next start interrupt) (omega arith) (omega arith) (omega arith)
