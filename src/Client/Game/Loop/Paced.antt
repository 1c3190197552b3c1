-- ===== src/Client/Game/Loop/Paced.antt =====
-- One round of the loop of run_rain_typing_game in client/src/game_logic.c: when a slot gets a word,
-- and which threads are cleaned up.
use native.Mathlib.Decide.{ℕ_discrete}
use rain_typing_game.Prelude.{
  ℕ, zero, suc, ◌+◌, ◌≤◌, ◌<◌, ◌≡◌, ◌⊎◌, inl, inr, refl, sym, ap, subst, true, false, not, ◌&&◌,
  Option, none, some, List, [], ◌∷◌, leb, ◌==◌, get_elem?, map, arith, Bool-cases,
}
use rain_typing_game.Client.WordManager.{WordManager}
use rain_typing_game.Client.Game.{Game, Word, reap, cleanup_finished_threads}
use rain_typing_game.Client.Game.Spawn.{spawn_word}
use rain_typing_game.Client.Game.Input.{process_game_input}
use rain_typing_game.Client.Game.Loop.Turns.{Finishes, run_turns-IsOver}
use rain_typing_game.Client.Game.Loop.Ends.{key-IsOver}
use rain_typing_game.Client.Game.Loop.{
  Turn, interrupts, drops, finishes, run_turns, Round, Playing, spawn_if_due, play_round,
}
use rain_typing_game.Client.Game.Loop.Kept.{AtSlot, At, IsKept, run_turns-At, key-At}

abbrev IsOff : Word → Type 0
IsOff w = w.active ≡ false

-- The slot has no thread that has had its last section.
abbrev pub IsReaped : Word → Type 0
IsReaped w = (w.thread_id ≡ 0) ⊎ (w.to_remove ≡ false)

IsOff-IsKept : IsKept IsOff
IsOff-IsKept = record { by_move = λ w p. p; by_landing = λ w p. refl; by_hit = λ w p. refl }

IsReaped-IsKept : IsKept IsReaped
IsReaped-IsKept = record { by_move = λ w p. p; by_landing = λ w p. p; by_hit = λ w p. p }

Finishes-or_not : (i : ℕ) (ts : List Turn) → Finishes i ts ⊎ (Finishes i ts → ⊥)
Finishes-or_not i [] = inr (λ f. f)
Finishes-or_not i (t ∷ ts) = elim (Finishes-or_not i ts) [
  | inl f ↦ inl (inr f)
  | inr n ↦ elim (turn t) [
    | inl e ↦ inl (inl e)
    | inr d ↦ inr (λ f. elim f [ inl e ↦ d e | inr f' ↦ n f' ])
  ]
]
  where
    turn : (t : Turn) → (t ≡ finishes i) ⊎ (t ≡ finishes i → ⊥)
    turn interrupts = inr (λ e. cc)
    turn (drops j) = inr (λ e. cc)
    turn (finishes j) = elim (ℕ_discrete j i) [
      | yes e ↦ inl (ap finishes e)
      | no d ↦ inr (λ e. d (slot_injective e))
    ]
      where
        slot_injective : finishes j ≡ finishes i → j ≡ i
        slot_injective e = cc

reap-AtSlot : (i : ℕ) (ws : List Word) → AtSlot IsReaped (get_elem? (map reap ws) i)
reap-AtSlot i [] = tt
reap-AtSlot (suc i) (w ∷ ws) = reap-AtSlot i ws
reap-AtSlot zero (w ∷ ws) = elim (Bool-cases (not (w.thread_id == 0) && w.to_remove)) [
  | inl e ↦ rw e (inl refl)
  | inr e ↦ rw e (ground (arith, e))
]

reap-IsOff :
    (i : ℕ) (ws : List Word)
    → AtSlot IsOff (get_elem? ws i)
    → AtSlot IsOff (get_elem? (map reap ws) i)
reap-IsOff i [] p = tt
reap-IsOff (suc i) (w ∷ ws) p = reap-IsOff i ws p
reap-IsOff zero (w ∷ ws) p = elim (Bool-cases (not (w.thread_id == 0) && w.to_remove)) [
  | inl e ↦ rw e refl
  | inr e ↦ rw e p
]

-- Whether a slot has a word that falls.
abbrev IsOn : Option Word → Type 0
IsOn none = ⊥
IsOn (some w) = w.active ≡ true

IsOn-or_IsOff : (r : Option Word) → IsOn r ⊎ AtSlot IsOff r
IsOn-or_IsOff none = inr tt
IsOn-or_IsOff (some w) = Bool-cases w.active

-- The game was not over, and 1500 ms have passed since the last spawn; the clock starts again, and
-- a word is spawned in a game that is not over.
abbrev pub IsDue : WordManager → Round → Playing → Playing → Type 0
IsDue manager r p q =
    (p.game.game_is_over ≡ false)
    × (p.last_spawn_ms + 1500 ≤ r.now_ms)
    × (q.last_spawn_ms ≡ r.now_ms)
    × ((g : Game) × (g.game_is_over ≡ false)
        × (q.game ≡ run_turns r.at_end (cleanup_finished_threads (spawn_word r.spawn manager g))))

-- The game is over or less than 1500 ms have passed, and the slot gets no word that falls.
abbrev pub NoSpawn : ℕ → Round → Playing → Playing → Type 0
NoSpawn i r p q =
    ((q.game.game_is_over ≡ true) ⊎ (r.now_ms < p.last_spawn_ms + 1500))
    × (q.last_spawn_ms ≡ p.last_spawn_ms)
    × (IsOn (get_elem? p.game.words i) ⊎ AtSlot IsOff (get_elem? q.game.words i))

-- In a round of the loop of run_rain_typing_game, with any key, clock and turns of the word
-- threads: either the game was not over, 1500 ms have passed since the last spawn, the time of
-- the last spawn becomes the time of the round, and spawn_word is called in a game that is not
-- over, before the cleanup and the last turns; or the game is over or less than 1500 ms have
-- passed, the time of the last spawn is kept, and a slot without a falling word gets none. And at
-- the end of the round a slot has no thread that has had its last section, unless the thread has
-- it in the turns behind the cleanup.
pub play_round-paced :
    (manager : WordManager) (key_backspace i : ℕ) (r : Round) (p : Playing)
    → (IsDue manager r p (play_round manager key_backspace r p)
        ⊎ NoSpawn i r p (play_round manager key_backspace r p))
      × (Finishes i r.at_end
          ⊎ AtSlot IsReaped (get_elem? (play_round manager key_backspace r p).game.words i))
unfolding play_round spawn_if_due cleanup_finished_threads
play_round-paced manager key_backspace i r p =
    let before = run_turns r.before_key p.game in
    let keyed = process_game_input key_backspace r.key before in
    let g = run_turns r.before_spawn keyed in
    let q = spawn_if_due manager key_backspace r.spawn r.now_ms (record p { game = g }) in
    (
      elim (Bool-cases (not g.game_is_over && leb (p.last_spawn_ms + 1500) r.now_ms)) [
        | inl due ↦ inl (
          elim (Bool-cases p.game.game_is_over) [
            | inl o ↦
                let over : g.game_is_over ≡ true = run_turns-IsOver r.before_spawn keyed (
                  key-IsOver manager key_backspace r.key before
                    (run_turns-IsOver r.before_key p.game o)) in
                absurd (ground (arith, due, over))
            | inr on ↦ on
          ],
          ground (arith, due),
          rw due refl,
          (g, ground (arith, due), rw due refl),
        )
        | inr idle ↦
            let same : q ≡ record p { game = g } = rw idle refl in
            let kept : NoSpawn i r p (ends (record p { game = g })) = (
              elim (Bool-cases g.game_is_over) [
                | inl over ↦ inl (run_turns-IsOver r.at_end (cleanup_finished_threads g) over)
                | inr on ↦ inr (ground (arith, idle, on))
              ],
              refl,
              elim (IsOn-or_IsOff (get_elem? p.game.words i)) [
                | inl on ↦ inl on
                | inr off ↦ inr (ends_off g (before_spawn_off off))
              ],
            ) in
            inr (subst (λ u. NoSpawn i r p (ends u)) (sym same) kept)
      ],
      elim (Finishes-or_not i r.at_end) [
        | inl f ↦ inl f
        | inr n ↦
            inr
              (run_turns-At IsReaped IsReaped-IsKept r.at_end i (cleanup_finished_threads q.game)
                (λ f. absurd (n f)) (record { word = reap-AtSlot i q.game.words })).word
      ],
    )
  where
    ends : Playing → Playing
    ends u = record u { game = run_turns r.at_end (cleanup_finished_threads u.game) }

    before_spawn_off :
        AtSlot IsOff (get_elem? p.game.words i)
        → At IsOff i (
            run_turns r.before_spawn
              (process_game_input key_backspace r.key (run_turns r.before_key p.game)))
    before_spawn_off off =
        run_turns-At IsOff IsOff-IsKept r.before_spawn i _ (λ f w o. refl)
          (key-At IsOff IsOff-IsKept key_backspace r.key i _ (
            run_turns-At IsOff IsOff-IsKept r.before_key i p.game (λ f w o. refl)
              (record { word = off })))

    ends_off :
        (g : Game)
        → At IsOff i g
        → AtSlot IsOff (get_elem? (run_turns r.at_end (cleanup_finished_threads g)).words i)
    ends_off g off =
        (run_turns-At IsOff IsOff-IsKept r.at_end i (cleanup_finished_threads g) (λ f w o. refl)
          (record { word = reap-IsOff i g.words off.word })).word
