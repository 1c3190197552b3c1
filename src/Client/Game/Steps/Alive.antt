-- ===== src/Client/Game/Steps/Alive.antt =====
-- Score, lives and the end of the game, from state to state.
use rain_typing_game.Prelude.{
  ℕ, ◌+◌, ◌-◌, ◌≤◌, ◌≡◌, refl, Bool, true, false, not, ◌&&◌, ◌||◌, Option, none, some, Bytes, ltb,
  leb, ◌==◌, if◌then◌else◌, length, get_elem?, arith, Bool-cases, Option-cases, inl, inr,
}
use rain_typing_game.Client.WordManager.{WordManager}
use rain_typing_game.Client.Game.{
  Game, Word, WordType, word_normal, word_kill, word_bonus, end_game, lose_life, drop_at, drop_word,
  finish_thread, cleanup_finished_threads,
}
use rain_typing_game.Client.Game.Input.{
  Hit, take_word, take_index, take_target, score_hit, clear_input, edit_input, input_buffer_len,
}
use rain_typing_game.Client.Game.Spawn.{
  SpawnIo, placed_word, has_free, start_thread, place_word, spawn_word,
}
use rain_typing_game.Client.Game.Steps.{
  Main, Step, interrupt, drop, finish, key, take_line, score_line, spawn, clean_up,
}

-- A life is left as long as the game is not over.
abbrev IsAlive : Game → Type 0
IsAlive g = g.game_is_over ≡ false → 1 ≤ g.current_game_lives

-- What one game may become: no point is lost, at most one life is, an end is final, and the last
-- life ends the game.
pub record Later (g h : Game) : Type 0 where
  pub score_up : g.current_game_score ≤ h.current_game_score
  pub lives_down : h.current_game_lives ≤ g.current_game_lives
  pub one_life : g.current_game_lives ≤ h.current_game_lives + 1
  pub stays_over :
      g.game_is_over ≡ true
      → (h.game_is_over ≡ true) × (h.current_game_lives ≡ g.current_game_lives)
  pub alive : IsAlive g → IsAlive h

same :
    {g : Game} (h : Game)
    → h.current_game_score ≡ g.current_game_score
    → h.current_game_lives ≡ g.current_game_lives
    → h.game_is_over ≡ g.game_is_over
    → Later g h
same h s l o = record {
  score_up = omega (arith, s);
  lives_down = omega (arith, l);
  one_life = omega (arith, l);
  stays_over = λ e. ground (arith, o, e, l);
  alive = λ k e. ground (arith, o, e, l, k);
}

Later-if : (b : Bool) {g h k : Game} → Later g h → Later g k → Later g (if b then h else k)
Later-if true p q = p
Later-if false p q = q

end_game-Later : (g : Game) → Later g (end_game g)
end_game-Later g = record {
  score_up = omega arith;
  lives_down = omega arith;
  one_life = omega arith;
  stays_over = λ e. (refl, refl);
  alive = λ k e. cc;
}

-- The section keeps every field but the three, of which the score is kept too.
lose_life-Later :
    (wtype : WordType) (g h : Game)
    → h.current_game_score ≡ g.current_game_score
    → h.current_game_lives ≡ g.current_game_lives
    → h.game_is_over ≡ g.game_is_over
    → Later g (lose_life wtype h)
unfolding lose_life
lose_life-Later wtype g h s l o =
    elim (Bool-cases h.game_is_over) as (λ _. Later g (lose_life wtype h)) [
      | inl e ↦ simp e (same h s l o)
      | inr e ↦ simp e (record {
        score_up = omega (arith, s);
        lives_down = ground (arith, l);
        one_life = ground (arith, l);
        stays_over = λ k. absurd (ground (arith, k, o, e));
        alive = λ k q. ground (arith, q);
      })
    ]

drop_at-Later : (i : ℕ) (w : Word) (g : Game) → Later g (drop_at i w g)
unfolding drop_at
drop_at-Later i w g =
    Later-if w.active
      (Later-if (leb g.area_height (w.y + 1)) (lose_life-Later w.wtype g _ refl refl refl)
        (same _ refl refl refl))
      (same g refl refl refl)

drop_word-Later : (i : ℕ) (g : Game) → Later g (drop_word i g)
unfolding drop_word
drop_word-Later i g = elim (Option-cases (get_elem? g.words i)) [
  | inl e ↦ rw (e, drop_word) (same g refl refl refl)
  | inr (w, e) ↦ rw (e, drop_word) (drop_at-Later i w g)
]

finish_thread-Later : (i : ℕ) (g : Game) → Later g (finish_thread i g)
unfolding finish_thread
finish_thread-Later i g = elim (Option-cases (get_elem? g.words i)) [
  | inl e ↦ rw (e, finish_thread) (same g refl refl refl)
  | inr (w, e) ↦ rw (e, finish_thread) (same _ refl refl refl)
]

take_word-Later : (g : Game) (i : ℕ) (r : Option Word) → Later g (take_word g i r).0
unfolding take_word
take_word-Later g i none = same g refl refl refl
take_word-Later g i (some w) = same _ refl refl refl

take_index-Later : (g : Game) (r : Option ℕ) → Later g (take_index g r).0
unfolding take_index
take_index-Later g none = same g refl refl refl
take_index-Later g (some i) = take_word-Later g i (get_elem? g.words i)

more_points :
    (g h : Game)
    → g.current_game_score ≤ h.current_game_score
    → h.current_game_lives ≡ g.current_game_lives
    → h.game_is_over ≡ g.game_is_over
    → Later g h
more_points g h s l o = record {
  score_up = s;
  lives_down = omega (arith, l);
  one_life = omega (arith, l);
  stays_over = λ e. ground (arith, o, e, l);
  alive = λ k e. ground (arith, o, e, l, k);
}

score_hit-Later : (g : Game) (hit : Option Hit) → Later g (clear_input (score_hit g hit))
unfolding score_hit
score_hit-Later g none = same _ refl refl refl
score_hit-Later g (some hit) =
    elim hit.wtype
      as (λ t. Later g (
        clear_input (elim t [
          | word_kill ↦ end_game g
          | word_bonus ↦ record g {
            current_game_score = g.current_game_score + 50 + length hit.text;
          }
          | word_normal ↦ record g { current_game_score = g.current_game_score + length hit.text }
        ]))) [
          | word_kill ↦ record {
            score_up = omega arith;
            lives_down = omega arith;
            one_life = omega arith;
            stays_over = λ e. (refl, refl);
            alive = λ k e. cc;
          }
          | word_bonus ↦ more_points g _ (omega arith) refl refl
          | word_normal ↦ more_points g _ (omega arith) refl refl
        ]

edit_input-Later : (key_backspace ch : ℕ) (g : Game) → Later g (edit_input key_backspace ch g)
unfolding edit_input
edit_input-Later key_backspace ch g =
    Later-if (ch == key_backspace || ch == 127 || ch == 8) (same _ refl refl refl) (
      Later-if
        (leb 32 ch && leb ch 126 && ltb (length g.current_input_buffer) (input_buffer_len - 1))
        (same _ refl refl refl) (same g refl refl refl))

start_thread-Later :
    (g h : Game) (new : Word) (r : Option ℕ)
    → h.current_game_score ≡ g.current_game_score
    → h.current_game_lives ≡ g.current_game_lives
    → h.game_is_over ≡ g.game_is_over
    → Later g (start_thread h new r)
unfolding start_thread
start_thread-Later g h new (some n) s l o = same _ s l o
start_thread-Later g h new none s l o = same _ s l o

place_word-Later : (io : SpawnIo) (g : Game) (text : Bytes) → Later g (place_word io g text)
unfolding place_word
place_word-Later io g text =
    start_thread-Later g _ (placed_word io g.area_width text) io.created refl refl refl

spawn_word-Later :
    (io : SpawnIo) (manager : WordManager) (g : Game) → Later g (spawn_word io manager g)
unfolding spawn_word
spawn_word-Later io manager g =
    Later-if (not manager.is_initialized || length manager.words == 0) (same g refl refl refl)
      (Later-if (has_free g.words) (place_word-Later io g _) (same g refl refl refl))

-- Each critical section takes no point and at most one life; once the game is over it stays over
-- and costs no life; and if a life was left while the game was not over, then that holds behind
-- it.
pub Step-Later :
    (manager : WordManager) (key_backspace : ℕ) (s t : Game × Main)
    → Step manager key_backspace s t
    → Later s.0 t.0
unfolding take_target cleanup_finished_threads
Step-Later manager key_backspace s t (interrupt {g} {m}) = end_game-Later g
Step-Later manager key_backspace s t (drop {g} {m} i r) = drop_word-Later i g
Step-Later manager key_backspace s t (finish {g} {m} i r) = finish_thread-Later i g
Step-Later manager key_backspace s t (key {g} ch) = edit_input-Later key_backspace ch g
Step-Later manager key_backspace s t (take_line {g}) = take_index-Later g _
Step-Later manager key_backspace s t (score_line {g} {hit}) = score_hit-Later g hit
Step-Later manager key_backspace s t (spawn {g} io k) = spawn_word-Later io manager g
Step-Later manager key_backspace s t (clean_up {g}) = same _ refl refl refl
