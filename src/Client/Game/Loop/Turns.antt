-- ===== src/Client/Game/Loop/Turns.antt =====
-- What a turn of a word thread leaves alone, and the last turn of a thread.
use native.Mathlib.Decide.{ℕ_discrete}
use rain_typing_game.Prelude.{
  ℕ, zero, suc, ◌+◌, ◌≡◌, ◌≢◌, ◌⊎◌, inl, inr, refl, sym, ap, subst, ◌∙◌, Bool, true, false, not,
  ◌&&◌, ◌||◌, Option, none, some, List, [], ◌∷◌, leb, if◌then◌else◌, get_elem?, arith, Bool-cases,
  Option-cases,
}
use rain_typing_game.Client.Game.{
  Game, Word, WordType, modify, moved, landed, finished, lose_life, drop_at, drop_word,
  finish_thread,
}
use rain_typing_game.Client.Game.Spawn.{is_free}
use rain_typing_game.Client.Game.Loop.{
  Turn, interrupts, drops, finishes, is_running, run_turn, drop_turn, finish_turn, run_turns,
}

-- The slot has no thread, or one that has come to its last section.
abbrev pub FreeSlot : Option Word → Type 0
FreeSlot none = Unit
FreeSlot (some w) = is_free w ≡ true

abbrev pub IsQuiet : ℕ → Game → Type 0
IsQuiet i g = FreeSlot (get_elem? g.words i)

abbrev pub IsOver : Game → Type 0
IsOver g = g.game_is_over ≡ true

get_elem?-modify_self :
    (f : Word → Word) (i : ℕ) (ws : List Word)
    → ((w : Word) → is_free (f w) ≡ true)
    → FreeSlot (get_elem? (modify f i ws) i)
get_elem?-modify_self f i [] h = tt
get_elem?-modify_self f zero (w ∷ ws) h = h w
get_elem?-modify_self f (suc i) (w ∷ ws) h = get_elem?-modify_self f i ws h

get_elem?-modify_ne :
    (f : Word → Word) (i j : ℕ) (ws : List Word)
    → i ≢ j
    → get_elem? (modify f j ws) i ≡ get_elem? ws i
get_elem?-modify_ne f i j [] n = refl
get_elem?-modify_ne f zero zero (w ∷ ws) n = absurd (n refl)
get_elem?-modify_ne f zero (suc j) (w ∷ ws) n = refl
get_elem?-modify_ne f (suc i) zero (w ∷ ws) n = refl
get_elem?-modify_ne f (suc i) (suc j) (w ∷ ws) n = get_elem?-modify_ne f i j ws (λ e. n (ap suc e))

-- What the turn of one slot may change: that slot, while the game stays over if it was.
record Local (j : ℕ) (g h : Game) : Type 0 where
  others : (i : ℕ) → i ≢ j → get_elem? h.words i ≡ get_elem? g.words i
  over : IsOver g → IsOver h

Local-if :
    (b : Bool) {j : ℕ} {g h k : Game} → Local j g h → Local j g k → Local j g (if b then h else k)
Local-if true p q = p
Local-if false p q = q

unchanged : (j : ℕ) (g : Game) → Local j g g
unchanged j g = record { others = λ i n. refl; over = λ e. e }

changed :
    (j : ℕ) (f : Word → Word) (g h : Game)
    → h.words ≡ modify f j g.words
    → (IsOver g → IsOver h)
    → Local j g h
changed j f g h e over = record {
  others = λ i n. ap (λ ws. get_elem? ws i) e ∙ get_elem?-modify_ne f i j g.words n;
  over = over;
}

pub lose_life-same :
    (wtype : WordType) (g : Game)
    → ((lose_life wtype g).words ≡ g.words) × (IsOver g → IsOver (lose_life wtype g))
unfolding lose_life
lose_life-same wtype g = elim (Bool-cases g.game_is_over) [
  | inl e ↦ rw (e, lose_life) (refl, λ o. refl)
  | inr e ↦ rw (e, lose_life) (refl, λ o. cc)
]

drop_at-Local : (j : ℕ) (w : Word) (g : Game) → Local j g (drop_at j w g)
unfolding drop_at
drop_at-Local j w g =
    Local-if w.active
      (Local-if (leb g.area_height (w.y + 1))
        (changed j landed g _ (lose_life-same w.wtype _).0 (lose_life-same w.wtype _).1)
        (changed j moved g _ refl (λ o. o)))
      (unchanged j g)

drop_word-Local : (j : ℕ) (g : Game) → Local j g (drop_word j g)
unfolding drop_word
drop_word-Local j g = elim (Option-cases (get_elem? g.words j)) [
  | inl e ↦ rw (e, drop_word) (unchanged j g)
  | inr (w, e) ↦ rw (e, drop_word) (drop_at-Local j w g)
]

finish_thread-Local : (j : ℕ) (g : Game) → Local j g (finish_thread j g)
unfolding finish_thread
finish_thread-Local j g = elim (Option-cases (get_elem? g.words j)) [
  | inl e ↦ rw (e, finish_thread) (unchanged j g)
  | inr (w, e) ↦ rw (e, finish_thread) (changed j finished g _ refl (λ o. o))
]

drop_turn-Local : (j : ℕ) (g : Game) (r : Option Word) → Local j g (drop_turn j g r)
unfolding drop_turn
drop_turn-Local j g none = unchanged j g
drop_turn-Local j g (some w) = Local-if (is_running w) (drop_word-Local j g) (unchanged j g)

finish_turn-Local : (j : ℕ) (g : Game) (r : Option Word) → Local j g (finish_turn j g r)
unfolding finish_turn
finish_turn-Local j g none = unchanged j g
finish_turn-Local j g (some w) =
    Local-if (is_running w && (not w.active || g.game_is_over)) (finish_thread-Local j g)
      (unchanged j g)

-- A slot at rest takes no turn.
drop_turn-at_rest : (j : ℕ) (g : Game) (r : Option Word) → FreeSlot r → drop_turn j g r ≡ g
unfolding drop_turn
drop_turn-at_rest j g none q = refl
drop_turn-at_rest j g (some w) q = ground (arith, q)

finish_turn-at_rest : (j : ℕ) (g : Game) (r : Option Word) → FreeSlot r → finish_turn j g r ≡ g
unfolding finish_turn
finish_turn-at_rest j g none q = refl
finish_turn-at_rest j g (some w) q = ground (arith, q)

stays-IsQuiet :
    (i j : ℕ) (g h : Game) → Local j g h → (IsQuiet j g → h ≡ g) → IsQuiet i g → IsQuiet i h
stays-IsQuiet i j g h l rest q = elim (ℕ_discrete i j) [
  | yes e ↦ subst (IsQuiet i) (sym (rest (subst (λ k. IsQuiet k g) e q))) q
  | no n ↦ subst FreeSlot (sym (l.others i n)) q
]

run_turn-IsOver : (t : Turn) (g : Game) → IsOver g → IsOver (run_turn t g)
unfolding run_turn
run_turn-IsOver interrupts g o = refl
run_turn-IsOver (drops j) g o = (drop_turn-Local j g (get_elem? g.words j)).over o
run_turn-IsOver (finishes j) g o = (finish_turn-Local j g (get_elem? g.words j)).over o

run_turn-IsQuiet : (t : Turn) (i : ℕ) (g : Game) → IsQuiet i g → IsQuiet i (run_turn t g)
unfolding run_turn
run_turn-IsQuiet interrupts i g q = q
run_turn-IsQuiet (drops j) i g q =
    stays-IsQuiet i j g _ (drop_turn-Local j g (get_elem? g.words j)) (drop_turn-at_rest j g _) q
run_turn-IsQuiet (finishes j) i g q =
    stays-IsQuiet i j g _ (finish_turn-Local j g (get_elem? g.words j)) (finish_turn-at_rest j g _)
      q

finish_thread-IsQuiet :
    (j : ℕ) (g : Game) (w : Word) → get_elem? g.words j ≡ some w → IsQuiet j (finish_thread j g)
unfolding finish_thread
finish_thread-IsQuiet j g w e =
    rw (e, finish_thread) (get_elem?-modify_self finished j g.words (λ w. ground arith))

-- The last turn of a thread whose game is over leaves its slot at rest.
finish_turn-IsQuiet :
    (j : ℕ) (g : Game) (r : Option Word)
    → get_elem? g.words j ≡ r
    → IsOver g
    → IsQuiet j (finish_turn j g r)
unfolding finish_turn
finish_turn-IsQuiet j g none e o = rw e tt
finish_turn-IsQuiet j g (some w) e o = elim (Bool-cases (is_free w)) [
  | inl free ↦ subst (IsQuiet j) (sym (finish_turn-at_rest j g (some w) free)) (rw e free)
  | inr busy ↦
      let leaves : (is_running w && (not w.active || g.game_is_over)) ≡ true =
        ground (arith, busy, o) in
      rw leaves (finish_thread-IsQuiet j g w e)
]

-- The last section of a slot's thread is among the turns.
abbrev pub Finishes : ℕ → List Turn → Type 0
Finishes i [] = ⊥
Finishes i (t ∷ ts) = (t ≡ finishes i) ⊎ Finishes i ts

run_turns-IsQuiet : (ts : List Turn) (i : ℕ) (g : Game) → IsQuiet i g → IsQuiet i (run_turns ts g)
unfolding run_turns
run_turns-IsQuiet [] i g q = q
run_turns-IsQuiet (t ∷ ts) i g q = run_turns-IsQuiet ts i (run_turn t g) (run_turn-IsQuiet t i g q)

pub run_turns-IsOver : (ts : List Turn) (g : Game) → IsOver g → IsOver (run_turns ts g)
unfolding run_turns
run_turns-IsOver [] g o = o
run_turns-IsOver (t ∷ ts) g o = run_turns-IsOver ts (run_turn t g) (run_turn-IsOver t g o)

pub run_turns-Finishes :
    (ts : List Turn) (i : ℕ) (g : Game) → Finishes i ts → IsOver g → IsQuiet i (run_turns ts g)
unfolding run_turns run_turn
run_turns-Finishes [] i g f o = absurd f
run_turns-Finishes (t ∷ ts) i g (inl e) o =
    run_turns-IsQuiet ts i (run_turn t g)
      (subst (λ u. IsQuiet i (run_turn u g)) (sym e) (finish_turn-IsQuiet i g _ refl o))
run_turns-Finishes (t ∷ ts) i g (inr f) o =
    run_turns-Finishes ts i (run_turn t g) f (run_turn-IsOver t g o)
