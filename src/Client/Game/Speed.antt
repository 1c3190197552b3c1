-- ===== src/Client/Game/Speed.antt =====
-- Levels and intervals of client/src/game_logic.c.
use rain_typing_game.Prelude.{ℕ, ◌+◌, ◌*◌, ◌≤◌, ◌<◌, ◌≡◌, leb, ltb, if◌then◌else◌, arith}
use rain_typing_game.Client.Game.{Game, WordType, word_normal, word_kill, word_bonus}

pub get_current_level : Game → ℕ
get_current_level g =
    let s = g.current_game_score in
    if leb 200 s
    then 5
    else if leb 150 s
    then 4
    else if leb 100 s
    then 3
    else if leb 50 s
    then 2
    else 1

get_normal_drop_interval : Game → ℕ
get_normal_drop_interval g =
    let s = g.current_game_score in
    if leb 200 s
    then 200
    else if leb 150 s
    then 275
    else if leb 100 s
    then 350
    else if leb 50 s
    then 425
    else 500

-- drop_interval_ms, whose entry for WORD_NORMAL is 0.
record DropIntervals : Type 0 where
  pub kill : ℕ
  pub bonus : ℕ

abbrev drop_interval_ms : DropIntervals
drop_interval_ms = record { kill = 350; bonus = 200 }

-- Of a type of the enumeration; a negative interval is not above 50 either.
set_drop_interval : WordType → ℕ → DropIntervals → DropIntervals
set_drop_interval word_normal interval_ms d = d
set_drop_interval word_kill interval_ms d =
    if ltb 50 interval_ms then record d { kill = interval_ms } else d
set_drop_interval word_bonus interval_ms d =
    if ltb 50 interval_ms then record d { bonus = interval_ms } else d

-- The interval that word_thread_func waits for.
unfoldable drop_interval : DropIntervals → Game → WordType → ℕ
drop_interval d g word_normal = get_normal_drop_interval g
drop_interval d g word_kill = d.kill
drop_interval d g word_bonus = d.bonus

-- The interval of normal words and 75 times the level make 575, the level is from 1 to 5, and
-- with a score that is not lower the level is not lower and the interval not longer.
get_normal_drop_interval_lem :
    (g h : Game)
    → g.current_game_score ≤ h.current_game_score
    → (get_normal_drop_interval g + 75 * get_current_level g ≡ 575)
      × (1 ≤ get_current_level g)
      × (get_current_level g ≤ 5)
      × (get_current_level g ≤ get_current_level h)
      × (get_normal_drop_interval h ≤ get_normal_drop_interval g)
unfolding get_normal_drop_interval get_current_level
get_normal_drop_interval_lem g h k = ground arith

-- No call of set_drop_interval brings an interval that is above 50 ms down to 50 ms or less.
set_drop_interval_lem :
    (d : DropIntervals) (set_type wtype : WordType) (interval_ms : ℕ) (g : Game)
    → 50 < drop_interval d g wtype
    → 50 < drop_interval (set_drop_interval set_type interval_ms d) g wtype
unfolding set_drop_interval drop_interval
set_drop_interval_lem d word_normal wtype interval_ms g h = h
set_drop_interval_lem d word_kill word_normal interval_ms g h = h
set_drop_interval_lem d word_kill word_kill interval_ms g h = ground (arith, h)
set_drop_interval_lem d word_kill word_bonus interval_ms g h = ground (arith, h)
set_drop_interval_lem d word_bonus word_normal interval_ms g h = h
set_drop_interval_lem d word_bonus word_kill interval_ms g h = ground (arith, h)
set_drop_interval_lem d word_bonus word_bonus interval_ms g h = ground (arith, h)
