-- ===== src/Client/Game/Steps/Fits.antt =====
-- What holds of the arrays of the game and of the screen in every state that can be reached.
use rain_typing_game.Prelude.{
  ℕ, zero, suc, ◌+◌, ◌≤◌, ◌<◌, ◌≡◌, ◌≢◌, ◌⊎◌, inl, inr, refl, ap, ◌∙◌, not, ◌&&◌, Bool, true, false,
  some, List, [], ◌∷◌, map, leb, ◌==◌, if◌then◌else◌, length, get_elem?, All, arith, Bool-cases,
  Option-cases,
}
use rain_typing_game.Client.ActiveWords.{max_word_len}
use rain_typing_game.Client.Game.{
  Game, Word, WordType, max_words, modify, moved, landed, finished, reap, lose_life, drop_at,
  drop_word, finish_thread, cleanup_finished_threads,
}
use rain_typing_game.Client.Game.Input.{input_buffer_len}

-- A word within an area of these sizes: its text fits its array, and while it is active it stands
-- on a row of the area, whole unless it is longer than the row, and has a thread.
pub record FitsWord (height width : ℕ) (w : Word) : Type 0 where
  pub text_fits : length w.text < max_word_len
  pub row : w.active ≡ true → w.y < height
  pub columns : w.active ≡ true → (w.x + length w.text ≤ width) ⊎ (w.x ≡ 0)
  pub thread : w.active ≡ true → (w.thread_id ≢ 0) × (w.to_remove ≡ false)

pub record Fits (g : Game) : Type 0 where
  pub slots : length g.words ≡ max_words
  pub tall : 0 < g.area_height
  pub words_fit : All (FitsWord g.area_height g.area_width) g.words
  pub input_fits : length g.current_input_buffer < input_buffer_len

pub length-modify : (f : Word → Word) (i : ℕ) (ws : List Word) → length (modify f i ws) ≡ length ws
length-modify f i [] = refl
length-modify f zero (w ∷ ws) = refl
length-modify f (suc i) (w ∷ ws) = ap suc (length-modify f i ws)

-- A change of one slot, where the word in it is known.
pub All-modify {ℓ} :
    (P : Word → Type ℓ) (f : Word → Word) (i : ℕ) (ws : List Word)
    → ((w : Word) → get_elem? ws i ≡ some w → P w → P (f w))
    → All P ws
    → All P (modify f i ws)
All-modify P f i [] k h = tt
All-modify P f zero (w ∷ ws) k (p, h) = (k w refl p, h)
All-modify P f (suc i) (w ∷ ws) k (p, h) = (p, All-modify P f i ws k h)

-- Each change of one word keeps it within the area.
pub switched_off :
    {height width : ℕ} {w : Word} (v : Word)
    → FitsWord height width w
    → v.text ≡ w.text
    → v.active ≡ false
    → FitsWord height width v
switched_off v h t off = record {
  text_fits = rw t h.text_fits;
  row = λ e. ground (arith, e, off);
  columns = λ e. absurd (ground (arith, e, off));
  thread = λ e. absurd (ground (arith, e, off));
}

moved-FitsWord :
    {height width : ℕ} (w : Word)
    → w.y + 1 < height
    → FitsWord height width w
    → FitsWord height width (moved w)
moved-FitsWord w k h = record {
  text_fits = h.text_fits;
  row = λ e. k;
  columns = h.columns;
  thread = h.thread;
}

-- A game whose words changed and whose other fields that count are the same.
pub with_words :
    {g : Game} (h : Game)
    → Fits g
    → length h.words ≡ length g.words
    → h.area_height ≡ g.area_height
    → All (FitsWord g.area_height g.area_width) h.words
    → h.area_width ≡ g.area_width
    → h.current_input_buffer ≡ g.current_input_buffer
    → Fits h
with_words h f l e a e' i = record {
  slots = l ∙ f.slots;
  tall = rw e f.tall;
  words_fit = rw (e, e') a;
  input_fits = rw i f.input_fits;
}

pub Fits-if : (b : Bool) {g h : Game} → Fits g → Fits h → Fits (if b then g else h)
Fits-if true p q = p
Fits-if false p q = q

lose_life-Fits : (wtype : WordType) (g : Game) → Fits g → Fits (lose_life wtype g)
unfolding lose_life
lose_life-Fits wtype g f = Fits-if g.game_is_over f (with_words _ f refl refl f.words_fit refl refl)

drop_at-Fits :
    (i : ℕ) (w : Word) (g : Game) → get_elem? g.words i ≡ some w → Fits g → Fits (drop_at i w g)
unfolding drop_at
drop_at-Fits i w g e f = elim (Bool-cases w.active) [
  | inr off ↦ rw off f
  | inl on ↦ elim (Bool-cases (leb g.area_height (w.y + 1))) [
    | inl low ↦
        rw (on, low)
          (lose_life-Fits w.wtype _ (
            with_words _ f (length-modify landed i g.words) refl
              (All-modify _ landed i g.words (λ v _ h. switched_off (landed v) h refl refl)
                f.words_fit)
              refl refl))
    | inr high ↦
        rw (on, high)
          (with_words _ f (length-modify moved i g.words) refl
            (All-modify _ moved i g.words (λ v k h. moved-FitsWord v (ground (arith, e, k, high)) h)
              f.words_fit)
            refl refl)
  ]
]

pub drop_word-Fits : (i : ℕ) (g : Game) → Fits g → Fits (drop_word i g)
unfolding drop_word
drop_word-Fits i g f = elim (Option-cases (get_elem? g.words i)) [
  | inl e ↦ rw (e, drop_word) f
  | inr (w, e) ↦ rw (e, drop_word) (drop_at-Fits i w g e f)
]

pub finish_thread-Fits : (i : ℕ) (g : Game) → Fits g → Fits (finish_thread i g)
unfolding finish_thread
finish_thread-Fits i g f = elim (Option-cases (get_elem? g.words i)) [
  | inl e ↦ rw (e, finish_thread) f
  | inr (w, e) ↦
      rw (e, finish_thread)
        (with_words _ f (length-modify finished i g.words) refl
          (All-modify _ finished i g.words (λ v _ h. switched_off (finished v) h refl refl)
            f.words_fit)
          refl refl)
]

reap-FitsWord :
    {height width : ℕ} (w : Word) → FitsWord height width w → FitsWord height width (reap w)
reap-FitsWord w h = elim (Bool-cases (not (w.thread_id == 0) && w.to_remove)) [
  | inl e ↦
      rw e (record { text_fits = omega arith; row = λ k. cc; columns = λ k. cc; thread = λ k. cc })
  | inr e ↦ rw e h
]

reap-All :
    (height width : ℕ) (ws : List Word)
    → All (FitsWord height width) ws
    → All (FitsWord height width) (map reap ws)
reap-All height width [] h = tt
reap-All height width (w ∷ ws) (p, h) = (reap-FitsWord w p, reap-All height width ws h)

length-map-reap : (ws : List Word) → length (map reap ws) ≡ length ws
length-map-reap [] = refl
length-map-reap (w ∷ ws) = ap suc (length-map-reap ws)

pub cleanup_finished_threads-Fits : (g : Game) → Fits g → Fits (cleanup_finished_threads g)
unfolding cleanup_finished_threads
cleanup_finished_threads-Fits g f =
    with_words _ f (length-map-reap g.words) refl (reap-All _ _ g.words f.words_fit) refl refl
