-- ===== src/Client/Game/Loop/Deadlock.antt =====
-- The second section of safe_game_cleanup of client/src/game_logic.c with words_mutex and the word
-- threads: the main thread holds the mutex while it joins them.
use native.Mathlib.Decide.{ℕ_discrete}
use rain_typing_game.Prelude.{
  ℕ, zero, suc, ◌+◌, ◌≤◌, ◌≡◌, ◌⊎◌, inl, inr, refl, sym, subst, Bool, false, ◌||◌, none, some, List,
  [], ◌∷◌, ◌==◌, if◌then◌else◌, get_elem?, All, arith, Bool-cases, ap, ◌∙◌,
}
use rain_typing_game.Client.WordManager.{WordManager}
use rain_typing_game.Client.Game.{Game, Word}
use rain_typing_game.Client.Game.Loop.Ends.{IsEmpty, Returns}
use rain_typing_game.Client.Game.Loop.{
  join_slot, join_slots, keep_slot, blocks, safe_game_cleanup, cleaned,
}

-- Who holds words_mutex.
pub data Holder : Type 0 where
  nobody main_thread : Holder
  word_thread : ℕ → Holder

-- The thread of a slot: outside of words_mutex with its last section before it, in a section of its
-- loop, in its last section, or behind it, where it returns.
pub data Thread : Type 0 where
  no_thread outside in_loop in_last exited : Thread

-- The main thread comes to the slot, or has unlocked the mutex behind the last one.
pub data Joiner : Type 0 where
  joins : ℕ → Joiner
  unlocked : Joiner

pub record Joining : Type 0 where
  pub holder : Holder
  pub main : Joiner
  pub threads : List Thread

pub set_thread : Thread → ℕ → List Thread → List Thread
set_thread t i [] = []
set_thread t zero (u ∷ us) = t ∷ us
set_thread t (suc i) (u ∷ us) = u ∷ set_thread t i us

-- A lock is got where nobody holds the mutex, and its holder unlocks it. pthread_join returns where
-- the thread has exited.
pub data Move (s : Joining) : Joining → Type 0 where
  lock_in_loop :
      (i : ℕ)
      → s.holder ≡ nobody
      → get_elem? s.threads i ≡ some outside
      → Move s (record s { holder = word_thread i; threads = set_thread in_loop i s.threads })
  unlock_in_loop :
      (i : ℕ)
      → s.holder ≡ word_thread i
      → get_elem? s.threads i ≡ some in_loop
      → Move s (record s { holder = nobody; threads = set_thread outside i s.threads })
  lock_last :
      (i : ℕ)
      → s.holder ≡ nobody
      → get_elem? s.threads i ≡ some outside
      → Move s (record s { holder = word_thread i; threads = set_thread in_last i s.threads })
  unlock_last :
      (i : ℕ)
      → s.holder ≡ word_thread i
      → get_elem? s.threads i ≡ some in_last
      → Move s (record s { holder = nobody; threads = set_thread exited i s.threads })
  skip :
      (k : ℕ)
      → s.main ≡ joins k
      → get_elem? s.threads k ≡ some no_thread
      → Move s (record s { main = joins (suc k) })
  join :
      (k : ℕ)
      → s.main ≡ joins k
      → get_elem? s.threads k ≡ some exited
      → Move s (record s { main = joins (suc k) })
  unlock_main :
      (k : ℕ)
      → s.main ≡ joins k
      → get_elem? s.threads k ≡ none
      → Move s (record s { holder = nobody; main = unlocked })

pub data Moves : Joining → Joining → Type 0 where
  stay : {s : Joining} → Moves s s
  move : {s t u : Joining} → Move s t → Moves t u → Moves s u

-- The first section has marked every thread, so that each slot with one is joined; the thread has
-- come to its last section before, or between the two sections (`late`), or has it before it.
thread_of : Bool → Word → Thread
thread_of late w =
    if w.thread_id == 0 then no_thread else if w.to_remove || late then exited else outside

pub threads_of : (ℕ → Bool) → ℕ → List Word → List Thread
unfolding thread_of
threads_of late i [] = []
threads_of late i (w ∷ ws) = thread_of (late i) w ∷ threads_of late (suc i) ws

-- The main thread has locked the mutex for the second section.
abbrev pub second_section : (ℕ → Bool) → List Word → Joining
second_section late ws = record {
  holder = main_thread;
  main = joins 0;
  threads = threads_of late 0 ws;
}

-- Some sequence of moves takes the main thread out of the section.
abbrev pub CanLeave : Joining → Type 0
CanLeave s = (t : Joining) × Moves s t × (t.main ≡ unlocked)

-- The main thread is not behind the slot whose thread waits for the mutex, and keeps it.
record Stuck (b : ℕ) (s : Joining) : Type 0 where
  at : ℕ
  held : s.holder ≡ main_thread
  waits : get_elem? s.threads b ≡ some outside
  main : s.main ≡ joins at
  before : at ≤ b

slot : Joiner → ℕ
slot (joins k) = k
slot unlocked = 0

not_behind :
    (ts : List Thread) (k b : ℕ) (t : Thread)
    → get_elem? ts b ≡ some t
    → k ≤ b
    → get_elem? ts k ≡ none
    → ⊥
not_behind [] k b t e h n = cc
not_behind (u ∷ ts) zero b t e h n = cc
not_behind (u ∷ ts) (suc k) zero t e h n = omega arith
not_behind (u ∷ ts) (suc k) (suc b) t e h n = not_behind ts k b t e (omega arith) n

at_slot : (b k : ℕ) (s : Joining) (q : Stuck b s) → s.main ≡ joins k → q.at ≡ k
unfolding slot
at_slot b k s q e = ap slot (sym q.main ∙ e)

further : (b k : ℕ) → k ≤ b → (k ≡ b → ⊥) → suc k ≤ b
further b k h n = elim (ℕ_discrete k b) [ yes e ↦ absurd (n e) | no d ↦ omega arith ]

some_injective : {t u : Thread} → some t ≡ some u → t ≡ u
some_injective e = cc

passes :
    (b k : ℕ) (s : Joining) (t : Thread)
    → Stuck b s
    → s.main ≡ joins k
    → get_elem? s.threads k ≡ some t
    → (t ≡ outside → ⊥)
    → Stuck b (record s { main = joins (suc k) })
passes b k s t q e f other = record {
  at = suc k;
  held = q.held;
  waits = q.waits;
  main = refl;
  before = further b k (subst (λ n. n ≤ b) (at_slot b k s q e) q.before) elsewhere;
}
  where
    elsewhere : k ≡ b → ⊥
    elsewhere p =
        let here : get_elem? s.threads k ≡ some outside =
          subst (λ n. get_elem? s.threads n ≡ some outside) (sym p) q.waits in
        other (some_injective (sym f ∙ here))

Move-Stuck : (b : ℕ) (s t : Joining) → Move s t → Stuck b s → Stuck b t
Move-Stuck b s t (lock_in_loop i free e) q = let h = q.held in cc
Move-Stuck b s t (unlock_in_loop i own e) q = let h = q.held in cc
Move-Stuck b s t (lock_last i free e) q = let h = q.held in cc
Move-Stuck b s t (unlock_last i own e) q = let h = q.held in cc
Move-Stuck b s t (skip k e f) q = passes b k s no_thread q e f (λ x. cc)
Move-Stuck b s t (join k e f) q = passes b k s exited q e f (λ x. cc)
Move-Stuck b s t (unlock_main k e f) q =
    absurd
      (not_behind s.threads k b outside q.waits (subst (λ n. n ≤ b) (at_slot b k s q e) q.before) f)

Moves-Stuck : (b : ℕ) (s t : Joining) → Moves s t → Stuck b s → Stuck b t
Moves-Stuck b s t stay q = q
Moves-Stuck b s t (move m ms) q = Moves-Stuck b _ t ms (Move-Stuck b s _ m q)

-- A slot that the main thread gets past.
abbrev pub IsDone : Thread → Type 0
IsDone t = (t ≡ no_thread) ⊎ (t ≡ exited)

-- A thread waits for the mutex, or comes to it again, with its last section before it.
abbrev pub Waiting : List Thread → Type 0
Waiting ts = (b : ℕ) × (get_elem? ts b ≡ some outside)

behind_slot :
    (s : Joining) (k : ℕ) (rest : List Thread)
    → ((j : ℕ) → get_elem? s.threads (k + j) ≡ get_elem? rest j)
    → get_elem? s.threads k ≡ get_elem? rest 0
behind_slot s k rest f = subst (λ n. get_elem? s.threads n ≡ get_elem? rest 0) (omega arith) (f 0)

leaves :
    (rest : List Thread) (k : ℕ) (s : Joining)
    → s.main ≡ joins k
    → ((j : ℕ) → get_elem? s.threads (k + j) ≡ get_elem? rest j)
    → All IsDone rest
    → CanLeave s
leaves [] k s e f d = (_, move (unlock_main k e (behind_slot s k [] f)) stay, refl)
leaves (t ∷ rest) k s e f (done, d) =
    let later : (j : ℕ) → get_elem? s.threads (suc k + j) ≡ get_elem? rest j =
      λ j. subst (λ n. get_elem? s.threads n ≡ get_elem? rest j) (omega arith) (f (suc j)) in
    let (u, ms, out) = leaves rest (suc k) (record s { main = joins (suc k) }) refl later d in
    (u, move (first done) ms, out)
  where
    first : IsDone t → Move s (record s { main = joins (suc k) })
    first (inl p) = skip k e (behind_slot s k (t ∷ rest) f ∙ ap some p)
    first (inr p) = join k e (behind_slot s k (t ∷ rest) f ∙ ap some p)

join_slot-cases :
    (late : Bool) (w : Word)
    → ((v : Word) × (join_slot late w ≡ some v) × IsEmpty v × IsDone (thread_of late w))
      ⊎ ((join_slot late w ≡ none) × (thread_of late w ≡ outside))
unfolding join_slot thread_of
join_slot-cases late w = elim (Bool-cases (w.thread_id == 0)) [
  | inl e ↦ inl (w, rw e refl, ground (arith, e), rw e (inl refl))
  | inr e ↦ elim (Bool-cases (w.to_remove || late)) [
    | inl gone ↦ inl (
      record w { thread_id = 0; active = false; to_remove = false; text = [] },
      rw (e, gone) refl,
      refl,
      rw (e, gone) (inr refl),
    )
    | inr busy ↦ inr (rw (e, busy) refl, rw (e, busy) refl)
  ]
]

join_slots-cases :
    (late : ℕ → Bool) (i : ℕ) (ws : List Word)
    → ((vs : List Word) × (join_slots late i ws ≡ some vs)
        × All IsEmpty vs
        × All IsDone (threads_of late i ws))
      ⊎ ((join_slots late i ws ≡ none)
          × ((b : ℕ) × (get_elem? (threads_of late i ws) b ≡ some outside)))
unfolding join_slots keep_slot threads_of
join_slots-cases late i [] = inl ([], refl, tt, tt)
join_slots-cases late i (w ∷ ws) = elim (join_slot-cases (late i) w) [
  | inl (v, joined, empty, done) ↦ elim (join_slots-cases late (suc i) ws) [
    | inl (vs, rest, all_empty, all_done) ↦
        inl (v ∷ vs, rw (joined, rest) refl, (empty, all_empty), (done, all_done))
    | inr (rest, (b, waits)) ↦ inr (rw (joined, rest) refl, (suc b, waits))
  ]
  | inr (stops, waits) ↦ inr (rw stops refl, (0, ap some waits))
]

-- Whichever threads have come to their last section before the second section of
-- safe_game_cleanup, one of two things is the case. Either each slot has no thread or one that
-- has come to it: then the cleanup returns, with the score, no slot with a thread and the word
-- manager and the table of words cleaned up, and the main thread, which joins the threads while
-- it holds words_mutex, comes to its unlock by some sequence of moves of the main thread and the
-- word threads, which take the mutex in their loops and at their ends. Or some thread has not
-- come to it: then the cleanup blocks, and no sequence of moves leads to the unlock.
pub safe_game_cleanup-CanLeave :
    (late : ℕ → Bool) (manager : WordManager) (g : Game)
    → (All IsDone (threads_of late 0 g.words)
        × Returns g manager (safe_game_cleanup late manager g)
        × CanLeave (second_section late g.words))
      ⊎ (Waiting (threads_of late 0 g.words)
          × (safe_game_cleanup late manager g ≡ blocks)
          × (CanLeave (second_section late g.words) → ⊥))
unfolding safe_game_cleanup cleaned
safe_game_cleanup-CanLeave late manager g = elim (join_slots-cases late 0 g.words) [
  | inl (vs, e, empty, done) ↦
      let first : (j : ℕ)
          → get_elem? (threads_of late 0 g.words) (0 + j)
            ≡ get_elem? (threads_of late 0 g.words) j =
        λ j. ap (get_elem? (threads_of late 0 g.words)) (omega arith) in
      inl (
        done,
        (vs, rw e refl, empty),
        leaves (threads_of late 0 g.words) 0 (second_section late g.words) refl first done,
      )
  | inr (e, (b, waits)) ↦ inr ((b, waits), rw e refl, λ (t, ms, out). still_joins b t waits ms out)
]
  where
    still_joins :
        (b : ℕ) (t : Joining)
        → get_elem? (threads_of late 0 g.words) b ≡ some outside
        → Moves (second_section late g.words) t
        → t.main ≡ unlocked
        → ⊥
    still_joins b t waits ms out =
        let q =
          Moves-Stuck b (second_section late g.words) t ms
            (record { at = 0; held = refl; waits = waits; main = refl; before = omega arith }) in
        let m = q.main in cc
