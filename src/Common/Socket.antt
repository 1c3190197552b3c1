-- ===== src/Common/Socket.antt =====
-- What calls of send and recv do: the outcomes that server/src/server_network.c and
-- client/src/client_network.c meet in their loops.
use rain_typing_game.Prelude.{ℕ, suc, ◌≤◌, List, [], ◌∷◌, All}

-- At most so many bytes, EINTR, or another error.
pub data Outcome : Type 0 where
  part : ℕ → Outcome
  interrupted failed : Outcome

-- No call fails, and a call that is not interrupted moves a byte at least.
abbrev pub IsSteady : Outcome → Type 0
IsSteady (part k) = 1 ≤ k
IsSteady interrupted = Unit
IsSteady failed = ⊥

unfoldable pub parts : List Outcome → ℕ
parts [] = 0
parts (part k ∷ os) = suc (parts os)
parts (interrupted ∷ os) = parts os
parts (failed ∷ os) = parts os

-- Enough calls for so many bytes.
abbrev pub Enough : ℕ → List Outcome → Type 0
Enough n outcomes = All IsSteady outcomes × (n ≤ parts outcomes)
