-- ===== src/Client/Game/Loop/Ends.antt =====
-- A game that is over comes to its end.
use native.Mathlib.Decide.{dec_lt}
use rain_typing_game.Prelude.{
  ℕ, zero, suc, ◌+◌, ◌≤◌, ◌<◌, ◌≡◌, ◌⊎◌, inl, inr, refl, sym, subst, Bool, true, false, not, ◌&&◌,
  Option, none, some, List, [], ◌∷◌, leb, ◌==◌, get_elem?, length, All, arith, Bool-cases,
}
use rain_typing_game.Client.ActiveWords.{empty_table}
use rain_typing_game.Client.WordManager.{WordManager, cleanup_word_manager}
use rain_typing_game.Client.Game.{Game, Word, cleanup_finished_threads, start_game, max_words}
use rain_typing_game.Client.Game.Input.{process_game_input}
use rain_typing_game.Client.Game.Spawn.{SpawnIo, is_free}
use rain_typing_game.Client.Game.Loop.Turns.{
  FreeSlot, IsQuiet, IsOver, Finishes, run_turns-IsOver, run_turns-Finishes,
}
use rain_typing_game.Client.Game.Steps.{between_keys, Reaches, start}
use rain_typing_game.Client.Game.Steps.Reachable.{Reaches-Fits}
use rain_typing_game.Client.Game.Loop.Reached.{
  MakeThreads, game_of, game_loop-Reaches, run_turns-Gets,
}
use rain_typing_game.Client.Game.Loop.{
  run_turns, Round, Playing, spawn_if_due, see_signal, play_round, ended, game_loop, join_slot,
  join_slots, keep_slot, Played, returned, safe_game_cleanup, cleaned, Frame, finish_game,
  play_game, run_rain_typing_game,
}

-- A slot that holds no thread and no word.
abbrev pub IsEmpty : Word → Type 0
IsEmpty w = w.thread_id ≡ 0

join_slot_lem :
    (late : Bool) (w : Word)
    → is_free w ≡ true
    → (v : Word) × (join_slot late w ≡ some v) × IsEmpty v
unfolding join_slot
join_slot_lem late w free = elim (Bool-cases (w.thread_id == 0)) [
  | inl e ↦ (w, rw e, ground (arith, e))
  | inr e ↦
      let gone : w.to_remove ≡ true = ground (arith, free, e) in
      (record w { thread_id = 0; active = false; to_remove = false; text = [] }, rw (e, gone), refl)
]

join_slots_lem :
    (late : ℕ → Bool) (i : ℕ) (ws : List Word)
    → ((j : ℕ) → FreeSlot (get_elem? ws j))
    → (vs : List Word) × (join_slots late i ws ≡ some vs) × All IsEmpty vs
unfolding join_slots keep_slot
join_slots_lem late i [] free = ([], refl, tt)
join_slots_lem late i (w ∷ ws) free =
    let (v, joined, gone) = join_slot_lem (late i) w (free 0) in
    let (vs, rest, all_gone) = join_slots_lem late (suc i) ws (λ j. free (suc j)) in
    (v ∷ vs, rw (joined, rest), (gone, all_gone))

-- What the end of a game returns with.
abbrev pub Returns : Game → WordManager → Played → Type 0
Returns g manager p =
    (ws : List Word) × (p
      ≡ returned g.current_game_score (record g { words = ws; active_words = empty_table })
          (cleanup_word_manager manager))
    × All IsEmpty ws

safe_game_cleanup-Returns :
    (late : ℕ → Bool) (manager : WordManager) (g : Game)
    → ((j : ℕ) → IsQuiet j g)
    → Returns g manager (safe_game_cleanup late manager g)
unfolding safe_game_cleanup cleaned
safe_game_cleanup-Returns late manager g quiet =
    let (ws, e, gone) = join_slots_lem late 0 g.words quiet in (ws, rw e, gone)

-- A signal is seen in some round.
abbrev Signalled : List Round → Type 0
Signalled [] = ⊥
Signalled (r ∷ rounds) = (r.signalled ≡ true) ⊎ Signalled rounds

module _ (manager : WordManager) (key_backspace : ℕ) where
  -- A key changes nothing once the game is over.
  pub key-IsOver :
      (ch : Option ℕ) (g : Game) → IsOver g → IsOver (process_game_input key_backspace ch g)
  unfolding process_game_input
  key-IsOver none g o = o
  key-IsOver (some ch) g o = rw (o, process_game_input) refl

  spawn-IsOver :
      (io : SpawnIo) (now_ms : ℕ) (p : Playing)
      → IsOver p.game
      → IsOver (spawn_if_due manager key_backspace io now_ms p).game
  unfolding spawn_if_due
  spawn-IsOver io now_ms p o =
      let idle : (not p.game.game_is_over && leb (p.last_spawn_ms + 1500) now_ms) ≡ false =
        ground (arith, o) in
      rw idle o

  play_round-IsOver :
      (r : Round) (p : Playing) → IsOver p.game → IsOver (play_round manager key_backspace r p).game
  unfolding play_round cleanup_finished_threads
  play_round-IsOver r p o =
      let keyed = key-IsOver r.key _ (run_turns-IsOver r.before_key p.game o) in
      run_turns-IsOver r.at_end _
        (spawn-IsOver r.spawn r.now_ms _ (run_turns-IsOver r.before_spawn _ keyed))

  game_loop-ended :
      (rounds : List Round) (p : Playing)
      → IsOver p.game ⊎ Signalled rounds
      → 0 < length rounds
      → (q : Playing) × (game_loop manager key_backspace rounds p ≡ ended q) × IsOver q.game
  unfolding game_loop
  game_loop-ended [] p h n = absurd (omega arith)
  game_loop-ended (r ∷ rounds) p h n =
      let seen = see_signal r.signalled p.game in
      let q = play_round manager key_backspace r (record p { game = seen }) in
      elim (Bool-cases seen.game_is_over) [
        | inl over ↦ (q, rw over refl, play_round-IsOver r (record p { game = seen }) over)
        | inr on ↦
            let later = still_to_come h on in
            let (q', e, o) = game_loop-ended rounds q (inr later) (some_left rounds later) in
            (q', rw on e, o)
      ]
    where
      some_left : (rs : List Round) → Signalled rs → 0 < length rs
      some_left [] s = absurd s
      some_left (r ∷ rs) s = omega arith

      still_to_come :
          IsOver p.game ⊎ Signalled (r ∷ rounds)
          → (see_signal r.signalled p.game).game_is_over ≡ false
          → Signalled rounds
      still_to_come (inl o) on = absurd (ground (arith, o, on))
      still_to_come (inr (inl s)) on = absurd (ground (arith, s, on))
      still_to_come (inr (inr s)) on = s

-- A slot behind the last is at rest, and the others are if their threads had their last turn.
all-IsQuiet :
    (f : Frame) (g : Game)
    → length g.words ≡ max_words
    → IsOver g
    → length (run_turns f.at_exit g).words ≡ max_words
    → ((i : ℕ) → i < max_words → Finishes i f.at_exit)
    → (j : ℕ) → IsQuiet j (run_turns f.at_exit g)
all-IsQuiet f g n o m finishing j = elim (dec_lt j max_words) [
  | yes h ↦ run_turns-Finishes f.at_exit j g (finishing j h) o
  | no h ↦ subst FreeSlot (sym (behind (run_turns f.at_exit g).words j (omega (arith, m)))) tt
]
  where
    behind : (ws : List Word) (j : ℕ) → length ws ≤ j → get_elem? ws j ≡ none
    behind [] j h = refl
    behind (w ∷ ws) zero h = absurd (omega arith)
    behind (w ∷ ws) (suc j) h = behind ws j (omega arith)

-- A game that starts on a screen that is large enough, whose spawned threads have an identifier
-- and whose main thread sees a signal in some round, leaves its loop within the rounds, and
-- returns if each slot's thread gets to its last section before the cleanup: it returns the
-- score, all slots are without a thread, and the word manager and the table of words are cleaned
-- up.
pub run_rain_typing_game-Returns :
    (f : Frame) (manager : WordManager) (key_backspace screen_height screen_width : ℕ)
    (rounds : List Round) (g : Game)
    → start_game screen_height screen_width ≡ some g
    → f.table_mutex ≡ true
    → f.mutexes ≡ true
    → MakeThreads rounds
    → Signalled rounds
    → ((i : ℕ) → i < max_words → Finishes i f.at_exit)
    → (q : Playing) × (game_loop manager key_backspace rounds
          (record { game = g; last_spawn_ms = f.start_ms })
        ≡ ended q)
      × Returns
          (run_turns f.at_exit q.game)
          manager
          (run_rain_typing_game f manager key_backspace screen_height screen_width rounds)
unfolding run_rain_typing_game play_game finish_game
run_rain_typing_game-Returns f manager key_backspace screen_height screen_width rounds g start_ok
      table mutexes threads signal finishing =
    let p : Playing = record { game = g; last_spawn_ms = f.start_ms } in
    let (q, e, over) =
      game_loop-ended manager key_backspace rounds p (inr signal) (some_round rounds signal) in
    let got : Reaches manager key_backspace (g, between_keys) (q.game, between_keys) =
      subst (λ l. Reaches manager key_backspace (g, between_keys) (game_of l, between_keys)) e
        (game_loop-Reaches manager key_backspace (g, between_keys) rounds p threads start) in
    let exited = run_turns-Gets manager key_backspace (g, between_keys) q.game f.at_exit got in
    let fits = Reaches-Fits manager key_backspace screen_height screen_width g _ start_ok got in
    let fits' = Reaches-Fits manager key_backspace screen_height screen_width g _ start_ok exited in
    let r =
      safe_game_cleanup-Returns f.late manager (run_turns f.at_exit q.game)
        (all-IsQuiet f q.game fits.slots over fits'.slots finishing) in
    (q, e, rw (table, start_ok, mutexes, e) r)
  where
    some_round : (rs : List Round) → Signalled rs → 0 < length rs
    some_round [] s = absurd s
    some_round (r ∷ rs) s = omega arith
