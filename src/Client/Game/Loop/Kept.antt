-- ===== src/Client/Game/Loop/Kept.antt =====
-- What the turns of the word threads and a key keep of the word of one slot, in
-- client/src/game_logic.c.
use rain_typing_game.Prelude.{
  ℕ, zero, suc, ◌+◌, ◌≡◌, inl, inr, refl, sym, ap, subst, Bool, true, false, not, ◌&&◌, ◌||◌,
  Option, none, some, List, [], ◌∷◌, leb, ltb, length, ◌==◌, if◌then◌else◌, get_elem?, Option-cases,
}
use rain_typing_game.Client.Game.{
  Game, Word, WordType, word_kill, word_bonus, word_normal, modify, moved, landed, finished,
  drop_at, drop_word, finish_thread,
}
use rain_typing_game.Client.Game.Input.{
  Hit, inactive, take_word, take_index, take_target, score_hit, enter_line, edit_input,
  process_game_input, select_target,
}
use rain_typing_game.Client.Game.Loop.Turns.{Finishes, lose_life-same}
use rain_typing_game.Client.Game.Loop.{
  Turn, interrupts, drops, finishes, is_running, run_turn, drop_turn, finish_turn, run_turns,
}

-- A property of the word of a slot, if there is one.
abbrev pub AtSlot : (Word → Type 0) → Option Word → Type 0
AtSlot P none = Unit
AtSlot P (some w) = P w

pub record At (P : Word → Type 0) (i : ℕ) (g : Game) : Type 0 where
  pub word : AtSlot P (get_elem? g.words i)

module _ (P : Word → Type 0) where
  modify-AtSlot :
      (f : Word → Word) (i j : ℕ) (ws : List Word)
      → (j ≡ i → (w : Word) → P w → P (f w))
      → AtSlot P (get_elem? ws i)
      → AtSlot P (get_elem? (modify f j ws) i)
  modify-AtSlot f i j [] h p = p
  modify-AtSlot f zero zero (w ∷ ws) h p = h refl w p
  modify-AtSlot f zero (suc j) (w ∷ ws) h p = p
  modify-AtSlot f (suc i) zero (w ∷ ws) h p = p
  modify-AtSlot f (suc i) (suc j) (w ∷ ws) h p = modify-AtSlot f i j ws (λ e. h (ap suc e)) p

  -- The property is kept by what a turn, but the last one, or a key does to a word.
  pub record IsKept : Type 0 where
    pub by_move : (w : Word) → P w → P (moved w)
    pub by_landing : (w : Word) → P w → P (landed w)
    pub by_hit : (w : Word) → P w → P (inactive w)

  modified :
      (f : Word → Word) (i j : ℕ) (g h : Game)
      → h.words ≡ modify f j g.words
      → (j ≡ i → (w : Word) → P w → P (f w))
      → At P i g
      → At P i h
  modified f i j g h e k p = record {
    word = subst (λ ws. AtSlot P (get_elem? ws i)) (sym e) (modify-AtSlot f i j g.words k p.word);
  }

  same_words : {i : ℕ} {g : Game} (h : Game) → h.words ≡ g.words → At P i g → At P i h
  same_words {i} h e p = record { word = subst (λ ws. AtSlot P (get_elem? ws i)) (sym e) p.word }

  At-if : (b : Bool) (i : ℕ) {g h : Game} → At P i g → At P i h → At P i (if b then g else h)
  At-if true i p q = p
  At-if false i p q = q

  drop_at-At : (k : IsKept) (i j : ℕ) (w : Word) (g : Game) → At P i g → At P i (drop_at j w g)
  unfolding drop_at
  drop_at-At k i j w g p =
      At-if w.active i
        (At-if (leb g.area_height (w.y + 1)) i
          (modified landed i j g _ (lose_life-same w.wtype _).0 (λ e. k.by_landing) p)
          (modified moved i j g _ refl (λ e. k.by_move) p))
        p

  drop_word-At : (k : IsKept) (i j : ℕ) (g : Game) → At P i g → At P i (drop_word j g)
  unfolding drop_word
  drop_word-At k i j g p = elim (Option-cases (get_elem? g.words j)) [
    | inl e ↦ rw (e, drop_word) p
    | inr (w, e) ↦ rw (e, drop_word) (drop_at-At k i j w g p)
  ]

  finish_thread-At :
      (i j : ℕ) (g : Game)
      → (j ≡ i → (w : Word) → P w → P (finished w))
      → At P i g
      → At P i (finish_thread j g)
  unfolding finish_thread
  finish_thread-At i j g h p = elim (Option-cases (get_elem? g.words j)) [
    | inl e ↦ rw (e, finish_thread) p
    | inr (w, e) ↦ rw (e, finish_thread) (modified finished i j g _ refl h p)
  ]

  drop_turn-At :
      (k : IsKept) (i j : ℕ) (g : Game) (r : Option Word) → At P i g → At P i (drop_turn j g r)
  unfolding drop_turn
  drop_turn-At k i j g none p = p
  drop_turn-At k i j g (some w) p = At-if (is_running w) i (drop_word-At k i j g p) p

  finish_turn-At :
      (i j : ℕ) (g : Game) (r : Option Word)
      → (j ≡ i → (w : Word) → P w → P (finished w))
      → At P i g
      → At P i (finish_turn j g r)
  unfolding finish_turn
  finish_turn-At i j g none h p = p
  finish_turn-At i j g (some w) h p =
      At-if (is_running w && (not w.active || g.game_is_over)) i (finish_thread-At i j g h p) p

  pub run_turns-At :
      (k : IsKept) (ts : List Turn) (i : ℕ) (g : Game)
      → (Finishes i ts → (w : Word) → P w → P (finished w))
      → At P i g
      → At P i (run_turns ts g)
  unfolding run_turns run_turn
  run_turns-At k [] i g h p = p
  run_turns-At k (interrupts ∷ ts) i g h p =
      run_turns-At k ts i _ (λ f. h (inr f)) (same_words _ refl p)
  run_turns-At k (drops j ∷ ts) i g h p =
      run_turns-At k ts i _ (λ f. h (inr f)) (drop_turn-At k i j g (get_elem? g.words j) p)
  run_turns-At k (finishes j ∷ ts) i g h p =
      run_turns-At k ts i _ (λ f. h (inr f))
        (finish_turn-At i j g (get_elem? g.words j) (λ e. h (inl (ap finishes e))) p)

  score_hit-At : (hit : Option Hit) (i : ℕ) (g : Game) → At P i g → At P i (score_hit g hit)
  unfolding score_hit
  score_hit-At none i g p = p
  score_hit-At (some hit) i g p = by_type hit.wtype refl
    where
      by_type : (t : WordType) → hit.wtype ≡ t → At P i (score_hit g (some hit))
      by_type word_kill e = rw (e, score_hit) (same_words _ refl p)
      by_type word_bonus e = rw (e, score_hit) (same_words _ refl p)
      by_type word_normal e = rw (e, score_hit) (same_words _ refl p)

  take_word-At :
      (k : IsKept) (i j : ℕ) (r : Option Word) (g : Game) → At P i g → At P i (take_word g j r).0
  unfolding take_word
  take_word-At k i j none g p = p
  take_word-At k i j (some w) g p = modified inactive i j g _ refl (λ e. k.by_hit) p

  take_index-At :
      (k : IsKept) (i : ℕ) (target : Option ℕ) (g : Game)
      → At P i g
      → At P i (take_index g target).0
  unfolding take_index
  take_index-At k i none g p = p
  take_index-At k i (some j) g p = take_word-At k i j (get_elem? g.words j) g p

  enter_line-At : (k : IsKept) (i : ℕ) (g : Game) → At P i g → At P i (enter_line g)
  unfolding enter_line take_target
  enter_line-At k i g p = same_words _ refl (
      score_hit-At (take_target g).1 i (take_target g).0
        (take_index-At k i (select_target g.current_input_buffer g.words) g p))

  edit_input-At :
      (key_backspace ch i : ℕ) (g : Game) → At P i g → At P i (edit_input key_backspace ch g)
  unfolding edit_input
  edit_input-At key_backspace ch i g p =
      At-if (ch == key_backspace || ch == 127 || ch == 8) i (same_words _ refl p) (
        At-if (leb 32 ch && leb ch 126 && ltb (length g.current_input_buffer) 39) i
          (same_words _ refl p) p)

  pub key-At :
      (k : IsKept) (key_backspace : ℕ) (ch : Option ℕ) (i : ℕ) (g : Game)
      → At P i g
      → At P i (process_game_input key_backspace ch g)
  unfolding process_game_input
  key-At k key_backspace none i g p = p
  key-At k key_backspace (some ch) i g p = At-if g.game_is_over i p (
      At-if (ch == 10 || ch == 32) i
        (At-if (ltb 0 (length g.current_input_buffer)) i (enter_line-At k i g p) p)
        (edit_input-At key_backspace ch i g p))
