-- ===== src/Client/Game/Steps/MainThread.antt =====
-- The sections of the main thread of client/src/game_logic.c keep the arrays of the game in order.
use rain_typing_game.Prelude.{
  ℕ, ◌+◌, ◌-◌, ◌≤◌, ◌<◌, ◌≡◌, ◌≢◌, ◌⊎◌, inl, inr, refl, ap, not, ◌&&◌, ◌||◌, Option, none, some,
  List, [], ◌∷◌, Bytes, ltb, leb, ◌==◌, length, length-append, length-take-le, get_elem?, All,
  arith, Bool-cases, length-str_copy-lt,
}
use rain_typing_game.Client.ActiveWords.{max_word_len}
use rain_typing_game.Client.WordManager.{WordManager}
use rain_typing_game.Client.Game.{Game, Word, word_normal, word_kill, word_bonus, end_game}
use rain_typing_game.Client.Game.Input.{
  Hit, input_buffer_len, inactive, take_word, take_index, take_target, score_hit, edit_input,
  select_target,
}
use rain_typing_game.Client.Game.Spawn.{
  SpawnIo, IsThread, position, is_free, has_free, fill_slot, placed_word, start_thread, place_word,
  spawn_word,
}
use rain_typing_game.Client.Game.Steps.Fits.{
  FitsWord, Fits, All-modify, length-modify, switched_off, with_words, Fits-if,
}

take_word-Fits : (g : Game) (i : ℕ) (r : Option Word) → Fits g → Fits (take_word g i r).0
unfolding take_word
take_word-Fits g i none f = f
take_word-Fits g i (some w) f =
    with_words _ f (length-modify inactive i g.words) refl
      (All-modify _ inactive i g.words (λ v _ h. switched_off (inactive v) h refl refl) f.words_fit)
      refl refl

take_index-Fits : (g : Game) (r : Option ℕ) → Fits g → Fits (take_index g r).0
unfolding take_index
take_index-Fits g none f = f
take_index-Fits g (some i) f = take_word-Fits g i (get_elem? g.words i) f

pub take_target-Fits : (g : Game) → Fits g → Fits (take_target g).0
unfolding take_target
take_target-Fits g f = take_index-Fits g (select_target g.current_input_buffer g.words) f

pub score_hit-Fits : (g : Game) (hit : Option Hit) → Fits g → Fits (score_hit g hit)
unfolding score_hit
score_hit-Fits g none f = f
score_hit-Fits g (some hit) f =
    elim hit.wtype
      as (λ t. Fits (elim t [
        | word_kill ↦ end_game g
        | word_bonus ↦ record g { current_game_score = g.current_game_score + 50 + length hit.text }
        | word_normal ↦ record g { current_game_score = g.current_game_score + length hit.text }
      ])) [
        | word_kill ↦ with_words _ f refl refl f.words_fit refl refl
        | word_bonus ↦ with_words _ f refl refl f.words_fit refl refl
        | word_normal ↦ with_words _ f refl refl f.words_fit refl refl
      ]

pub with_input :
    (g : Game) (input : Bytes)
    → Fits g
    → length input < input_buffer_len
    → Fits (record g { current_input_buffer = input })
with_input g input f h = record {
  slots = f.slots;
  tall = f.tall;
  words_fit = f.words_fit;
  input_fits = h;
}

pub edit_input-Fits :
    (key_backspace ch : ℕ) (g : Game) → Fits g → Fits (edit_input key_backspace ch g)
unfolding edit_input
edit_input-Fits key_backspace ch g f =
    Fits-if (ch == key_backspace || ch == 127 || ch == 8)
      (with_input g _ f (
        omega (
          arith,
          f.input_fits,
          length-take-le (length g.current_input_buffer - 1) g.current_input_buffer,
        )))
      (elim (Bool-cases
        (leb 32 ch && leb ch 126 && ltb (length g.current_input_buffer) (input_buffer_len - 1))) [
          | inl e ↦
              rw e (
                with_input g _ f
                  (ground (arith, e, length-append g.current_input_buffer (ch ∷ []))))
          | inr e ↦ rw e f
        ])

position_lem :
    (width len place : ℕ)
    → (position width len place + len ≤ width) ⊎ (position width len place ≡ 0)
position_lem width len place = ground arith

length-fill_slot : (new : Word) (ws : List Word) → length (fill_slot new ws) ≡ length ws
unfolding fill_slot
length-fill_slot new [] = refl
length-fill_slot new (w ∷ ws) = ground (arith, length-fill_slot new ws)

All-fill_slot {ℓ} :
    (P : Word → Type ℓ) (new : Word) (ws : List Word) → P new → All P ws → All P (fill_slot new ws)
unfolding fill_slot
All-fill_slot P new [] p h = tt
All-fill_slot P new (w ∷ ws) p (q, h) = elim (Bool-cases (is_free w)) [
  | inl e ↦ rw e (p, h)
  | inr e ↦ rw e (q, All-fill_slot P new ws p h)
]

-- What a slot holds after pthread_create.
started-FitsWord :
    (io : SpawnIo) (height width : ℕ) (text : Bytes) (thread_id : ℕ)
    → 0 < height
    → length text < max_word_len
    → thread_id ≢ 0
    → FitsWord height width (record (placed_word io width text) { thread_id = thread_id })
unfolding placed_word
started-FitsWord io height width text thread_id tall fits n = record {
  text_fits = fits;
  row = λ e. tall;
  columns = λ e. position_lem width (length text) io.place;
  thread = λ e. (n, refl);
}

start_thread-Fits :
    (io : SpawnIo) (g : Game) (text : Bytes) (r : Option ℕ)
    → r ≢ some 0
    → length text < max_word_len
    → Fits g
    → Fits (start_thread g (placed_word io g.area_width text) r)
unfolding start_thread
start_thread-Fits io g text (some n) k h f =
    with_words _ f (length-fill_slot _ g.words) refl
      (All-fill_slot _ _ g.words
        (started-FitsWord io g.area_height g.area_width text n f.tall h (λ e. k (ap some e)))
        f.words_fit)
      refl refl
start_thread-Fits io g text none k h f =
    with_words _ f (length-fill_slot _ g.words) refl
      (All-fill_slot _ _ g.words
        (switched_off _
          (started-FitsWord io g.area_height g.area_width text 1 f.tall h (λ e. omega (arith, e)))
          refl refl)
        f.words_fit)
      refl refl

pub spawn_word-Fits :
    (io : SpawnIo) (manager : WordManager) (g : Game)
    → IsThread io
    → Fits g
    → Fits (spawn_word io manager g)
unfolding spawn_word place_word
spawn_word-Fits io manager g k f =
    Fits-if (not manager.is_initialized || length manager.words == 0) f (
      Fits-if (has_free g.words)
        (start_thread-Fits io _ _ io.created k (length-str_copy-lt max_word_len _ (omega arith))
          (with_words _ f refl refl f.words_fit refl refl))
        f)
