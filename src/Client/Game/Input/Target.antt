-- ===== src/Client/Game/Input/Target.antt =====
-- Which word a line hits.
use rain_typing_game.Prelude.{
  ℕ, suc, ◌+◌, ◌≤◌, ◌<◌, ◌≡◌, ◌⊎◌, inl, inr, refl, ap, true, false, ◌&&◌, Option, none, some, List,
  [], ◌∷◌, Bytes, get_elem?, All, arith, Bool-cases, All-weaken,
}
use rain_typing_game.Client.Game.{Word}
use rain_typing_game.Client.Game.Input.{
  Best, priority, is_match, beats, as_best, find_target, target_of, select_target,
}

-- Not better than the best one.
abbrev Below : Best → Word → Type 0
Below b w = (b.prio < priority w.wtype) ⊎ ((b.prio ≡ priority w.wtype) × (w.y ≤ b.y))

-- The loop's result over some words, if `start` was the best one before them.
abbrev Found : Bytes → ℕ → Option Best → List Word → Option Best → Type 0
Found input i start ws none = (start ≡ none) × All (λ w. is_match input w ≡ false) ws
Found input i start ws (some b) =
    ((start ≡ some b)
      ⊎ ((w : Word) × (k : ℕ) × (get_elem? ws k ≡ some w)
          × (is_match input w ≡ true)
          × (b.prio ≡ priority w.wtype)
          × (b.y ≡ w.y)
          × (b.target_idx ≡ i + k)))
    × All (λ w. is_match input w ≡ true → Below b w) ws

-- A best that is kept is not worse than the one before.
abbrev Improves : Option Best → Option Best → Type 0
Improves none r = Unit
Improves (some a) none = ⊥
Improves (some a) (some b) = (b.prio < a.prio) ⊎ ((b.prio ≡ a.prio) × (a.y ≤ b.y))

-- The word takes over.
step_hit :
    (input : Bytes) (i : ℕ) (start : Option Best) (w : Word) (ws : List Word) (r : Option Best)
    → is_match input w ≡ true
    → beats w start ≡ true
    → Found input (suc i) (as_best i w) ws r × Improves (as_best i w) r
    → Found input i start (w ∷ ws) r × Improves start r
step_hit input i start w ws none m k ((e, h), n) = absurd n
step_hit input i start w ws (some b) m k ((inl e, h), n) = (
  (inr (w, 0, refl, m, ground (arith, e), ground (arith, e), ground (arith, e)), ((λ _. n), h)),
  over start k,
)
  where
    over : (start : Option Best) → beats w start ≡ true → Improves start (some b)
    over none k = tt
    over (some a) k = ground (arith, k, n)
step_hit input i start w ws (some b) m k ((inr (v, j, g, q, p, y, t), h), n) =
    ((inr (v, suc j, g, q, p, y, omega (arith, t)), ((λ _. n), h)), over start k)
  where
    over : (start : Option Best) → beats w start ≡ true → Improves start (some b)
    over none k = tt
    over (some a) k = ground (arith, k, n)

-- It does not.
step_miss :
    (input : Bytes) (i : ℕ) (start : Option Best) (w : Word) (ws : List Word) (r : Option Best)
    → (is_match input w && beats w start) ≡ false
    → Found input (suc i) start ws r × Improves start r
    → Found input i start (w ∷ ws) r × Improves start r
step_miss input i start w ws none m ((e, h), n) = ((e, (ground (arith, m, ap (beats w) e), h)), n)
step_miss input i start w ws (some b) m ((f, h), n) = ((first f, (head start m n, h)), n)
  where
    first :
        (start ≡ some b)
          ⊎ ((w : Word) × (k : ℕ) × (get_elem? ws k ≡ some w)
              × (is_match input w ≡ true)
              × (b.prio ≡ priority w.wtype)
              × (b.y ≡ w.y)
              × (b.target_idx ≡ suc i + k))
        → (start ≡ some b)
          ⊎ ((v : Word) × (k : ℕ) × (get_elem? (w ∷ ws) k ≡ some v)
              × (is_match input v ≡ true)
              × (b.prio ≡ priority v.wtype)
              × (b.y ≡ v.y)
              × (b.target_idx ≡ i + k))
    first (inl e) = inl e
    first (inr (v, j, g, q, p, y, t)) = inr (v, suc j, g, q, p, y, omega (arith, t))

    head :
        (start : Option Best)
        → (is_match input w && beats w start) ≡ false
        → Improves start (some b)
        → is_match input w ≡ true
        → Below b w
    head none m n e = ground (arith, m, e)
    head (some a) m n e = ground (arith, m, n, e)

find_target_lem :
    (input : Bytes) (i : ℕ) (start : Option Best) (ws : List Word)
    → let r = find_target input i start ws in Found input i start ws r × Improves start r
unfolding find_target
find_target_lem input i none [] = ((refl, tt), tt)
find_target_lem input i (some b) [] = ((inl refl, tt), inr (refl, omega arith))
find_target_lem input i start (w ∷ ws) = elim (Bool-cases (is_match input w && beats w start)) [
  | inl e ↦ rw e (
      step_hit input i start w ws _ (ground (arith, e)) (ground (arith, e))
        (find_target_lem input (suc i) (as_best i w) ws))
  | inr e ↦ rw e (step_miss input i start w ws _ e (find_target_lem input (suc i) start ws))
]

-- What the index says: the slot that was chosen, or that no slot matches.
abbrev pub IsTarget : Bytes → List Word → Option ℕ → Type 0
IsTarget input ws none = All (λ w. is_match input w ≡ false) ws
IsTarget input ws (some i) =
    (w : Word) × (get_elem? ws i ≡ some w)
    × (is_match input w ≡ true)
    × All
        (λ v.
          is_match input v ≡ true
          → (priority w.wtype < priority v.wtype)
            ⊎ ((priority w.wtype ≡ priority v.wtype) × (v.y ≤ w.y)))
        ws

Found-IsTarget :
    (input : Bytes) (ws : List Word) (r : Option Best)
    → Found input 0 none ws r
    → IsTarget input ws (target_of r)
Found-IsTarget input ws none (e, h) = h
Found-IsTarget input ws (some b) (inl e, h) = cc
Found-IsTarget input ws (some b) (inr (w, k, g, m, p, y, t), h) =
    let e : b.target_idx ≡ k = omega (arith, t) in
    (w, rw e g, m, All-weaken (λ v f n. ground (arith, f n, p, y)) ws h)

-- The target of a line is an active word of that text, such that no other one has a better
-- priority (kill, bonus, normal) or the same priority and a lower place on the screen; there is
-- no target exactly where no active word has the text.
pub select_target-IsTarget :
    (input : Bytes) (ws : List Word) → IsTarget input ws (select_target input ws)
unfolding select_target
select_target-IsTarget input ws = Found-IsTarget input ws _ (find_target_lem input 0 none ws).0
