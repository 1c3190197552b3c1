-- ===== src/Client/Game/Steps/Always.antt =====
-- Every state of the game that can be reached keeps its table in step with its slots.
use rain_typing_game.Prelude.{
  ℕ, ◌+◌, ◌-◌, subst, ◌<◌, ◌≡◌, refl, sym, ◌∙◌, inl, inr, not, ◌&&◌, ◌||◌, Bool, true, Option, none,
  some, List, Bytes, ltb, leb, ◌==◌, length, All, arith, str_eq, str_eq_sound, strcmp-eq,
  strcmp_refl, Bool-cases, length-str_copy-lt,
}
use rain_typing_game.Client.ActiveWords.{
  ActiveWordHashTable, max_word_len, add_active_word, remove_active_word,
}
use rain_typing_game.Client.ActiveWords.Laws.{
  IsTable, Added, add_active_word_lem, init_active_word_table-IsTable, empty_table-member,
}
use rain_typing_game.Client.ActiveWords.Laws.Removal.{Taken, remove_active_word_lem}
use rain_typing_game.Client.WordManager.{WordManager}
use rain_typing_game.Client.Game.{
  Game, Word, word_normal, word_kill, word_bonus, end_game, cleanup_finished_threads, start_game,
  new_game,
}
use rain_typing_game.Client.Game.Input.{
  Hit, take_target, score_hit, clear_input, edit_input, input_buffer_len,
}
use rain_typing_game.Client.Game.Spawn.{
  SpawnIo, has_free, fill_slot, placed_word, start_thread, place_word, spawn_word,
}
use rain_typing_game.Client.Game.Steps.{
  Main, between_keys, Step, interrupt, drop, finish, key, take_line, score_line, spawn, clean_up,
  Reaches, start, next,
}
use rain_typing_game.Client.Game.Steps.Fits.{FitsWord, Fits}
use rain_typing_game.Client.Game.Steps.Reachable.{steps-Fits, start_game-Fits, start_game_lem}
use rain_typing_game.Client.Game.Steps.Tracked.{
  Covered, Tracked, kept, Tracked-if, drop_word-Tracked, finish_thread-Tracked, take_index-Tracked,
  shows-reap, shows-fill_slot, shows-fill_slot_new,
}

score_hit-Tracked :
    (g : Game) (hit : Option Hit) → Tracked g → Tracked (clear_input (score_hit g hit))
unfolding score_hit
score_hit-Tracked g none k = kept _ k refl refl
score_hit-Tracked g (some hit) k =
    elim hit.wtype
      as (λ t. Tracked (
        clear_input (elim t [
          | word_kill ↦ end_game g
          | word_bonus ↦ record g {
            current_game_score = g.current_game_score + 50 + length hit.text;
          }
          | word_normal ↦ record g { current_game_score = g.current_game_score + length hit.text }
        ]))) [
          | word_kill ↦ kept _ k refl refl
          | word_bonus ↦ kept _ k refl refl
          | word_normal ↦ kept _ k refl refl
        ]

edit_input-Tracked :
    (key_backspace ch : ℕ) (g : Game) → Tracked g → Tracked (edit_input key_backspace ch g)
unfolding edit_input
edit_input-Tracked key_backspace ch g k =
    Tracked-if (ch == key_backspace || ch == 127 || ch == 8) (kept _ k refl refl) (
      Tracked-if
        (leb 32 ch && leb ch 126 && ltb (length g.current_input_buffer) (input_buffer_len - 1))
        (kept _ k refl refl) k)

-- The table after the text was added and before the thread is made.
module _ (height width : ℕ) (ws : List Word) (t : ActiveWordHashTable) (text : Bytes)
    (allocates : Bool) (fits : All (FitsWord height width) ws) (table : IsTable t)
    (covered : Covered t ws) (short : length text < max_word_len) (free : has_free ws ≡ true) where
  added : Added t text allocates (add_active_word allocates t (some text))
  added = add_active_word_lem t text allocates table short

  added-Covered :
      (new : Word)
      → new.text ≡ text
      → new.active ≡ true
      → Covered (add_active_word allocates t (some text)).0 (fill_slot new ws)
  added-Covered new e on v m = elim (Bool-cases (str_eq text v)) [
    | inl same ↦ rw (sym (str_eq_sound text v same) ∙ sym e) (shows-fill_slot_new new ws free on)
    | inr other ↦
        shows-fill_slot height width new ws v fits
          (covered v (ground (arith, added.members v, m, other)))
  ]

  undone :
      Taken
        (add_active_word allocates t (some text)).0
        text
        (remove_active_word (add_active_word allocates t (some text)).0 (some text))
  undone = remove_active_word_lem _ text added.still

  undone-Covered :
      (new : Word)
      → Covered
          (remove_active_word (add_active_word allocates t (some text)).0 (some text)).0
          (fill_slot new ws)
  undone-Covered new v m = shows-fill_slot height width new ws v fits (
      covered v
        (ground (arith, m, undone.members v, added.members v, strcmp-eq text v, strcmp_refl v)))

place_word-Tracked :
    (io : SpawnIo) (g : Game) (text : Bytes)
    → Fits g
    → length text < max_word_len
    → has_free g.words ≡ true
    → Tracked g
    → Tracked (place_word io g text)
unfolding place_word start_thread placed_word
place_word-Tracked io g text f short free k =
    elim io.created
      as (λ r. Tracked (
        start_thread
          (record g { active_words = (add_active_word io.allocates g.active_words (some text)).0 })
          (placed_word io g.area_width text) r)) [
            | some n ↦ record {
              table =
                  (added g.area_height g.area_width g.words g.active_words text io.allocates
                    f.words_fit k.table k.covered short free).still;
              covered =
                  added-Covered g.area_height g.area_width g.words g.active_words text io.allocates
                    f.words_fit k.table k.covered short free _ refl refl;
            }
            | none ↦ record {
              table =
                  (undone g.area_height g.area_width g.words g.active_words text io.allocates
                    f.words_fit k.table k.covered short free).still;
              covered =
                  undone-Covered g.area_height g.area_width g.words g.active_words text io.allocates
                    f.words_fit k.table k.covered short free _;
            }
          ]

spawn_word-Tracked :
    (io : SpawnIo) (manager : WordManager) (g : Game)
    → Fits g
    → Tracked g
    → Tracked (spawn_word io manager g)
unfolding spawn_word
spawn_word-Tracked io manager g f k =
    Tracked-if (not manager.is_initialized || length manager.words == 0) k
      (elim (Bool-cases (has_free g.words)) [
        | inl free ↦
            rw free
              (place_word-Tracked io g _ f (length-str_copy-lt max_word_len _ (omega arith)) free k)
        | inr full ↦ rw full k
      ])

clean_up-Tracked : (g : Game) → Fits g → Tracked g → Tracked (cleanup_finished_threads g)
unfolding cleanup_finished_threads
clean_up-Tracked g f k = record {
  table = k.table;
  covered = λ v m. shows-reap g.area_height g.area_width g.words v f.words_fit ∙ k.covered v m;
}

Step-Tracked :
    (manager : WordManager) (key_backspace : ℕ) {s t : Game × Main}
    → Step manager key_backspace s t
    → Fits s.0
    → Tracked s.0
    → Tracked t.0
unfolding take_target
Step-Tracked manager key_backspace (interrupt {g} {m}) f k = kept _ k refl refl
Step-Tracked manager key_backspace (drop {g} {m} i r) f k = drop_word-Tracked i g k
Step-Tracked manager key_backspace (finish {g} {m} i r) f k = finish_thread-Tracked i g k
Step-Tracked manager key_backspace (key {g} ch) f k = edit_input-Tracked key_backspace ch g k
Step-Tracked manager key_backspace (take_line {g}) f k = take_index-Tracked g _ k
Step-Tracked manager key_backspace (score_line {g} {hit}) f k = score_hit-Tracked g hit k
Step-Tracked manager key_backspace (spawn {g} io n) f k = spawn_word-Tracked io manager g f k
Step-Tracked manager key_backspace (clean_up {g}) f k = clean_up-Tracked g f k

steps-Tracked :
    (manager : WordManager) (key_backspace : ℕ) {s t : Game × Main}
    → Reaches manager key_backspace s t
    → Fits s.0
    → Tracked s.0
    → Tracked t.0
steps-Tracked manager key_backspace start f k = k
steps-Tracked manager key_backspace (next r step) f k =
    Step-Tracked manager key_backspace step (steps-Fits manager key_backspace r f)
      (steps-Tracked manager key_backspace r f k)

new_game-Tracked : (height width : ℕ) → Tracked (new_game height width)
new_game-Tracked height width = record {
  table = init_active_word_table-IsTable;
  covered = λ v m. absurd (ground (arith, m, empty_table-member v));
}

-- In every state that can be reached from the start of a game, the table of active words is well
-- formed and each word in it is the text of an active word on the screen.
pub Reaches-Tracked :
    (manager : WordManager) (key_backspace screen_height screen_width : ℕ) (g : Game)
    (t : Game × Main)
    → start_game screen_height screen_width ≡ some g
    → Reaches manager key_backspace (g, between_keys) t
    → Tracked t.0
Reaches-Tracked manager key_backspace screen_height screen_width g t e r =
    steps-Tracked manager key_backspace r (start_game-Fits screen_height screen_width g e)
      (subst Tracked (start_game_lem screen_height screen_width g e).0 (new_game-Tracked _ _))
