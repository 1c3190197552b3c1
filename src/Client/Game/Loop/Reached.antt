-- ===== src/Client/Game/Loop/Reached.antt =====
-- The rounds of the main loop, with the turns of the word threads, are steps of the game.
use rain_typing_game.Prelude.{
  ℕ, ◌+◌, ◌≡◌, ◌⊎◌, inl, inr, refl, Bool, true, false, not, ◌&&◌, ◌||◌, Option, none, some, List,
  [], ◌∷◌, leb, get_elem?, All, arith, Bool-cases,
}
use rain_typing_game.Client.WordManager.{WordManager}
use rain_typing_game.Client.Game.{Game, Word, end_game}
use rain_typing_game.Client.Game.Spawn.{SpawnIo, IsThread}
use rain_typing_game.Client.Game.Steps.{
  Main, between_keys, IsRunning, IsLeaving, interrupt, drop, finish, spawn, clean_up, Reaches,
  start, next,
}
use rain_typing_game.Client.Game.Steps.Keys.{process_game_input-Reaches, Reaches-if}
use rain_typing_game.Client.Game.Loop.{
  Turn, interrupts, drops, finishes, is_running, run_turn, drop_turn, finish_turn, run_turns, Round,
  Playing, spawn_if_due, see_signal, play_round, Looped, ended, playing, game_loop,
}

-- The spawns of the rounds make threads.
abbrev pub MakeThreads : List Round → Type 0
MakeThreads = All (λ r. IsThread r.spawn)

abbrev pub game_of : Looped → Game
game_of (ended p) = p.game
game_of (playing p) = p.game

module _ (manager : WordManager) (key_backspace : ℕ) where
  Reaches-trans :
      {s t u : Game × Main}
      → Reaches manager key_backspace s t
      → Reaches manager key_backspace t u
      → Reaches manager key_backspace s u
  Reaches-trans r start = r
  Reaches-trans r (next q step) = next (Reaches-trans r q) step

  -- From a start, the main thread between two keys and this game.
  abbrev pub Gets : Game × Main → Game → Type 0
  Gets s g = Reaches manager key_backspace s (g, between_keys)

  running :
      (g : Game) (i : ℕ) (w : Word)
      → get_elem? g.words i ≡ some w
      → is_running w ≡ true
      → IsRunning g i
  running g i w e on = (w, e, (λ z. ground (arith, z, on)), ground (arith, on))

  leaving :
      (g : Game) (i : ℕ) (w : Word)
      → get_elem? g.words i ≡ some w
      → (is_running w && (not w.active || g.game_is_over)) ≡ true
      → IsLeaving g i
  leaving g i w e on =
      (w, e, (λ z. ground (arith, z, on)), ground (arith, on), out w.active g.game_is_over on)
    where
      out :
          (active over : Bool)
          → (is_running w && (not active || over)) ≡ true
          → (active ≡ false) ⊎ (over ≡ true)
      out false over h = inl refl
      out true true h = inr refl
      out true false h = absurd (ground (arith, h))

  drop_turn-Gets :
      (s : Game × Main) (g : Game) (i : ℕ) (r : Option Word)
      → get_elem? g.words i ≡ r
      → Gets s g
      → Gets s (drop_turn i g r)
  unfolding drop_turn
  drop_turn-Gets s g i none e p = p
  drop_turn-Gets s g i (some w) e p = elim (Bool-cases (is_running w)) [
    | inl on ↦ rw on (next p (drop i (running g i w e on)))
    | inr off ↦ rw off p
  ]

  finish_turn-Gets :
      (s : Game × Main) (g : Game) (i : ℕ) (r : Option Word)
      → get_elem? g.words i ≡ r
      → Gets s g
      → Gets s (finish_turn i g r)
  unfolding finish_turn
  finish_turn-Gets s g i none e p = p
  finish_turn-Gets s g i (some w) e p =
      elim (Bool-cases (is_running w && (not w.active || g.game_is_over))) [
        | inl on ↦ rw on (next p (finish i (leaving g i w e on)))
        | inr off ↦ rw off p
      ]

  pub run_turns-Gets :
      (s : Game × Main) (g : Game) (ts : List Turn) → Gets s g → Gets s (run_turns ts g)
  unfolding run_turns run_turn
  run_turns-Gets s g [] p = p
  run_turns-Gets s g (interrupts ∷ ts) p = run_turns-Gets s (end_game g) ts (next p interrupt)
  run_turns-Gets s g (drops i ∷ ts) p =
      run_turns-Gets s (drop_turn i g (get_elem? g.words i)) ts
        (drop_turn-Gets s g i (get_elem? g.words i) refl p)
  run_turns-Gets s g (finishes i ∷ ts) p =
      run_turns-Gets s (finish_turn i g (get_elem? g.words i)) ts
        (finish_turn-Gets s g i (get_elem? g.words i) refl p)

  spawn_if_due-Gets :
      (s : Game × Main) (io : SpawnIo) (now_ms : ℕ) (p : Playing)
      → IsThread io
      → Gets s p.game
      → Gets s (spawn_if_due manager key_backspace io now_ms p).game
  unfolding spawn_if_due
  spawn_if_due-Gets s io now_ms p thread k =
      elim (Bool-cases (not p.game.game_is_over && leb (p.last_spawn_ms + 1500) now_ms)) [
        | inl e ↦ rw e (next k (spawn io thread))
        | inr e ↦ rw e k
      ]

  play_round-Gets :
      (s : Game × Main) (r : Round) (p : Playing)
      → IsThread r.spawn
      → Gets s p.game
      → Gets s (play_round manager key_backspace r p).game
  unfolding play_round
  play_round-Gets s r p thread k =
      let before = run_turns-Gets s p.game r.before_key k in
      let keyed = Reaches-trans before (process_game_input-Reaches manager key_backspace _ r.key) in
      let spawned =
        spawn_if_due-Gets s r.spawn r.now_ms _ thread (run_turns-Gets s _ r.before_spawn keyed) in
      run_turns-Gets s _ r.at_end (next spawned clean_up)

  -- If the spawns of its rounds make threads with an identifier, then what the loop of
  -- run_rain_typing_game does is a sequence of steps of the game: a state that is reached stays
  -- reached behind any number of rounds, with any keys, clocks, signals and turns of the word
  -- threads.
  pub game_loop-Reaches :
      (s : Game × Main) (rounds : List Round) (p : Playing)
      → MakeThreads rounds
      → Reaches manager key_backspace s (p.game, between_keys)
      → Reaches manager key_backspace s
          (game_of (game_loop manager key_backspace rounds p), between_keys)
  unfolding game_loop
  game_loop-Reaches s [] p threads k = k
  game_loop-Reaches s (r ∷ rounds) p (thread, threads) k =
      let seen = see_signal r.signalled p.game in
      let q = play_round manager key_backspace r (record p { game = seen }) in
      let signal : Gets s seen =
        Reaches-if manager key_backspace r.signalled (next k interrupt) k in
      let played = play_round-Gets s r (record p { game = seen }) thread signal in
      elim (Bool-cases seen.game_is_over) [
        | inl e ↦ rw e played
        | inr e ↦ rw e (game_loop-Reaches s rounds q threads played)
      ]
