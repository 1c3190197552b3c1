-- ===== src/Client/Game/Steps/Tracked.antt =====
-- The table of active words follows the slots: it never keeps a word that is not on the screen.
use rain_typing_game.Prelude.{
  ℕ, zero, suc, ◌+◌, ◌≡◌, refl, ap, ◌∙◌, inl, inr, ◌&&◌, ◌||◌, Bool, true, false, Option, none,
  some, List, [], ◌∷◌, map, Bytes, leb, if◌then◌else◌, get_elem?, All, arith, str_eq, str_eq_refl,
  strcmp-eq, strcmp_refl, Option-cases,
}
use rain_typing_game.Client.ActiveWords.{ActiveWordHashTable, remove_active_word}
use rain_typing_game.Client.ActiveWords.Laws.{IsTable, member}
use rain_typing_game.Client.ActiveWords.Laws.Removal.{remove_active_word_lem}
use rain_typing_game.Client.Game.{
  Game, Word, WordType, modify, moved, landed, finished, reap, lose_life, drop_at, drop_word,
  finish_thread,
}
use rain_typing_game.Client.Game.Input.{inactive, take_word, take_index}
use rain_typing_game.Client.Game.Spawn.{has_free, fill_slot}
use rain_typing_game.Client.Game.Steps.Fits.{FitsWord}

-- Some slot shows the word.
unfoldable pub shows : Bytes → List Word → Bool
shows v [] = false
shows v (w ∷ ws) = (w.active && str_eq w.text v) || shows v ws

-- Each word of the table is shown.
abbrev pub Covered : ActiveWordHashTable → List Word → Type 0
Covered t ws = (v : Bytes) → member t v ≡ true → shows v ws ≡ true

pub record Tracked (g : Game) : Type 0 where
  pub table : IsTable g.active_words
  pub covered : Covered g.active_words g.words

pub kept :
    {g : Game} (h : Game)
    → Tracked g
    → h.active_words ≡ g.active_words
    → h.words ≡ g.words
    → Tracked h
kept h k e d = record { table = rw e k.table; covered = rw (e, d) k.covered }

pub Tracked-if : (b : Bool) {g h : Game} → Tracked g → Tracked h → Tracked (if b then g else h)
Tracked-if true p q = p
Tracked-if false p q = q

shows-modify :
    (f : Word → Word) (i : ℕ) (ws : List Word) (w : Word) (v : Bytes)
    → get_elem? ws i ≡ some w
    → str_eq w.text v ≡ false
    → shows v ws ≡ true
    → shows v (modify f i ws) ≡ true
unfolding shows
shows-modify f i [] w v e n h = h
shows-modify f zero (x ∷ ws) w v e n h = ground (arith, e, n, h)
shows-modify f (suc i) (x ∷ ws) w v e n h = ground (arith, h, shows-modify f i ws w v e n)

shows-moved : (i : ℕ) (ws : List Word) (v : Bytes) → shows v (modify moved i ws) ≡ shows v ws
unfolding shows
shows-moved i [] v = refl
shows-moved zero (w ∷ ws) v = refl
shows-moved (suc i) (w ∷ ws) v = ap (◌||◌ _) (shows-moved i ws v)

-- The word of a slot leaves the table, and the slot is changed in any way.
dropped-Tracked :
    (f : Word → Word) (i : ℕ) (w : Word) (g : Game)
    → get_elem? g.words i ≡ some w
    → Tracked g
    → Tracked (record g {
      words = modify f i g.words;
      active_words = (remove_active_word g.active_words (some w.text)).0;
    })
dropped-Tracked f i w g e k =
    let r = remove_active_word_lem g.active_words w.text k.table in
    record {
      table = r.still;
      covered = λ v m.
          shows-modify f i g.words w v e
            (ground (arith, r.members v, m, strcmp-eq w.text v, strcmp_refl v))
            (k.covered v (ground (arith, r.members v, m)));
    }

lose_life-Tracked : (wtype : WordType) (g : Game) → Tracked g → Tracked (lose_life wtype g)
unfolding lose_life
lose_life-Tracked wtype g k = Tracked-if g.game_is_over k (kept _ k refl refl)

drop_at-Tracked :
    (i : ℕ) (w : Word) (g : Game)
    → get_elem? g.words i ≡ some w
    → Tracked g
    → Tracked (drop_at i w g)
unfolding drop_at
drop_at-Tracked i w g e k =
    Tracked-if w.active
      (Tracked-if (leb g.area_height (w.y + 1))
        (lose_life-Tracked w.wtype _ (dropped-Tracked landed i w g e k))
        (record { table = k.table; covered = λ v m. shows-moved i g.words v ∙ k.covered v m }))
      k

pub drop_word-Tracked : (i : ℕ) (g : Game) → Tracked g → Tracked (drop_word i g)
unfolding drop_word
drop_word-Tracked i g k = elim (Option-cases (get_elem? g.words i)) [
  | inl e ↦ rw (e, drop_word) k
  | inr (w, e) ↦ rw (e, drop_word) (drop_at-Tracked i w g e k)
]

pub finish_thread-Tracked : (i : ℕ) (g : Game) → Tracked g → Tracked (finish_thread i g)
unfolding finish_thread
finish_thread-Tracked i g k = elim (Option-cases (get_elem? g.words i)) [
  | inl e ↦ rw (e, finish_thread) k
  | inr (w, e) ↦ rw (e, finish_thread) (dropped-Tracked finished i w g e k)
]

take_word-Tracked :
    (g : Game) (i : ℕ) (r : Option Word)
    → get_elem? g.words i ≡ r
    → Tracked g
    → Tracked (take_word g i r).0
unfolding take_word
take_word-Tracked g i none e k = k
take_word-Tracked g i (some w) e k = dropped-Tracked inactive i w g e k

pub take_index-Tracked : (g : Game) (r : Option ℕ) → Tracked g → Tracked (take_index g r).0
unfolding take_index
take_index-Tracked g none k = k
take_index-Tracked g (some i) k = take_word-Tracked g i _ refl k

pub shows-reap :
    (height width : ℕ) (ws : List Word) (v : Bytes)
    → All (FitsWord height width) ws
    → shows v (map reap ws) ≡ shows v ws
unfolding shows
shows-reap height width [] v h = refl
shows-reap height width (w ∷ ws) v (p, h) = ground (arith, shows-reap height width ws v h, p.thread)

pub shows-fill_slot :
    (height width : ℕ) (new : Word) (ws : List Word) (v : Bytes)
    → All (FitsWord height width) ws
    → shows v ws ≡ true
    → shows v (fill_slot new ws) ≡ true
unfolding shows fill_slot
shows-fill_slot height width new [] v h s = s
shows-fill_slot height width new (w ∷ ws) v (p, h) s =
    ground (arith, shows-fill_slot height width new ws v h, p.thread, s)

pub shows-fill_slot_new :
    (new : Word) (ws : List Word)
    → has_free ws ≡ true
    → new.active ≡ true
    → shows new.text (fill_slot new ws) ≡ true
unfolding shows fill_slot has_free
shows-fill_slot_new new [] h a = cc
shows-fill_slot_new new (w ∷ ws) h a =
    ground (arith, h, a, str_eq_refl new.text, shows-fill_slot_new new ws)
