-- ===== src/Server/Receive/Laws.antt =====
-- A message arrives as it was sent, in whatever pieces it comes.
use rain_typing_game.Prelude.{
  ℕ, zero, suc, ◌+◌, ◌-◌, ◌^◌, ◌≤◌, ◌<◌, ◌≡◌, refl, ap, ◌∙◌, true, false, some, List, [], ◌∷◌, ◌++◌,
  append_assoc, append-nil, Bytes, ltb, ◌==◌, if◌then◌else◌, length, take, drop, All, arith, lt→ltb,
}
use rain_typing_game.Common.Message.{encode_header, decode-encode_header}
use rain_typing_game.Common.Socket.{Outcome, part, interrupted, failed, IsSteady, parts, Enough}
use rain_typing_game.Server.Receive.{
  Received, received, broken, recv_all, message, header_size, max_body, with_body, receive_body,
  with_header, receive_message,
}

-- The result of a receive of some bytes that are followed by others.
abbrev Delivers : ℕ → List Outcome → Bytes → Bytes → Received → Type 0
Delivers n outcomes bytes rest r =
    (outcomes' : List Outcome) × (r ≡ received bytes rest outcomes')
    × All IsSteady outcomes'
    × (parts outcomes ≤ parts outcomes' + n)

split_at :
    (k : ℕ) (xs : Bytes)
    → (take k xs ++ drop k xs ≡ xs) × (length (take k xs) + length (drop k xs) ≡ length xs)
split_at zero xs = (refl, omega arith)
split_at (suc k) [] = (refl, omega arith)
split_at (suc k) (x ∷ xs) = let (e, l) = split_at k xs in (ap (◌∷◌ x) e, omega (arith, l))

take-append : (xs ys : Bytes) → take (length xs) (xs ++ ys) ≡ xs
take-append [] ys = refl
take-append (x ∷ xs) ys = ap (◌∷◌ x) (take-append xs ys)

drop-append_some : (k : ℕ) (xs ys : Bytes) → k ≤ length xs → drop k (xs ++ ys) ≡ drop k xs ++ ys
drop-append_some zero xs ys h = refl
drop-append_some (suc k) [] ys h = absurd (omega arith)
drop-append_some (suc k) (x ∷ xs) ys h = drop-append_some k xs ys (omega arith)

length-take_pos : (k : ℕ) (x : ℕ) (xs : Bytes) → 1 ≤ k → 1 ≤ length (take k (x ∷ xs))
length-take_pos zero x xs h = absurd (omega arith)
length-take_pos (suc k) x xs h = omega arith

drop-length-take : (k : ℕ) (xs : Bytes) → drop (length (take k xs)) xs ≡ drop k xs
drop-length-take zero xs = refl
drop-length-take (suc k) [] = refl
drop-length-take (suc k) (x ∷ xs) = drop-length-take k xs

-- One piece of the missing bytes has come.
piece-Delivers :
    (os : List Outcome) (need k : ℕ) (buf bytes rest : Bytes)
    → length bytes ≡ need
    → 1 ≤ length (take k bytes)
    → Delivers
        (need - length (take k bytes))
        os
        ((buf ++ take k bytes) ++ drop k bytes)
        rest
        (recv_all os (need - length (take k bytes)) (buf ++ take k bytes) (drop k bytes ++ rest))
    → Delivers need (part k ∷ os) (buf ++ bytes) rest (
        if length (take k bytes) == 0
        then broken
        else recv_all os
            (need - length (take k bytes))
            (buf ++ take k bytes)
            (drop (length (take k bytes)) (bytes ++ rest)))
unfolding parts
piece-Delivers os need k buf bytes rest e pos (outcomes', r, s, n) =
    let (whole, l) = split_at k bytes in
    let some_came : (length (take k bytes) == 0) ≡ false = ground (arith, pos) in
    let left : drop (length (take k bytes)) (bytes ++ rest) ≡ drop k bytes ++ rest =
      drop-append_some _ bytes rest (omega (arith, l))
      ∙ ap (λ d. d ++ rest) (drop-length-take k bytes) in
    (
      outcomes',
      rw (some_came, left)
          (r
            ∙ ap (λ b. received b rest outcomes')
                (append_assoc buf (take k bytes) (drop k bytes) ∙ ap (◌++◌ buf) whole)),
      s,
      omega (arith, n, pos, l, e),
    )

pub recv_all-Delivers :
    (outcomes : List Outcome) (need : ℕ) (buf bytes rest : Bytes)
    → length bytes ≡ need
    → Enough need outcomes
    → Delivers need outcomes (buf ++ bytes) rest (recv_all outcomes need buf (bytes ++ rest))
unfolding recv_all parts
recv_all-Delivers outcomes zero buf [] rest e (s, n) =
    (outcomes, rw append-nil refl, s, omega arith)
recv_all-Delivers outcomes zero buf (x ∷ bytes) rest e (s, n) = absurd (omega (arith, e))
recv_all-Delivers outcomes (suc need) buf [] rest e (s, n) = absurd (omega (arith, e))
recv_all-Delivers [] (suc need) buf (x ∷ bytes) rest e (s, n) = absurd (omega (arith, n))
recv_all-Delivers (failed ∷ os) (suc need) buf (x ∷ bytes) rest e ((f, s), n) = absurd f
recv_all-Delivers (interrupted ∷ os) (suc need) buf (x ∷ bytes) rest e ((f, s), n) =
    recv_all-Delivers os (suc need) buf (x ∷ bytes) rest e (s, n)
recv_all-Delivers (part k ∷ os) (suc need) buf (x ∷ bytes) rest e ((f, s), n) =
    let pos = length-take_pos k x bytes f in
    let (whole, l) = split_at k (x ∷ bytes) in
    let chunk : take need (bytes ++ rest) ≡ bytes =
      ap (λ m. take m (bytes ++ rest)) (omega (arith, e)) ∙ take-append bytes rest in
    rw chunk (
      piece-Delivers os (suc need) k buf (x ∷ bytes) rest e pos (
        recv_all-Delivers os (suc need - length (take k (x ∷ bytes))) (buf ++ take k (x ∷ bytes))
          (drop k (x ∷ bytes)) rest (omega (arith, l, e)) (s, omega (arith, n, pos))))

receive_body_lem :
    (type : ℕ) (body rest : Bytes) (outcomes : List Outcome)
    → length body ≤ max_body
    → Enough (length body) outcomes
    → (outcomes' : List Outcome) × (receive_body true outcomes
          (body ++ rest)
          (some (type, length body))
        ≡ message type body rest outcomes')
unfolding receive_body
receive_body_lem type [] rest outcomes b h = (outcomes, refl)
receive_body_lem type (x ∷ body) rest outcomes b (s, n) =
    let (outcomes', r, _, _) =
      recv_all-Delivers outcomes (suc (length body)) [] (x ∷ body) rest refl (s, n) in
    (
      outcomes',
      rw (lt→ltb 0 (length (x ∷ body)) (omega arith), le→not_ltb max_body (length (x ∷ body)) b)
          (ap (with_body type) r),
    )
  where
    le→not_ltb : (a b : ℕ) → b ≤ a → ltb a b ≡ false
    le→not_ltb a b h = ground arith

-- A message of a 32-bit type and a body of at most 10240 bytes is received as it was sent,
-- whatever the pieces and interruptions it comes with, if malloc succeeds, no call of recv fails
-- and there are enough calls.
pub receive_message_lem :
    (type : ℕ) (body rest : Bytes) (outcomes : List Outcome)
    → type < 2 ^ 32
    → length body ≤ max_body
    → Enough (header_size + length body) outcomes
    → (outcomes' : List Outcome) × (receive_message true outcomes
          (encode_header type (length body) ++ (body ++ rest))
        ≡ message type body rest outcomes')
unfolding receive_message
receive_message_lem type body rest outcomes t b (s, n) =
    let (os, r, s', n') =
      recv_all-Delivers outcomes header_size [] (encode_header type (length body)) (body ++ rest)
        (unfold encode_header in refl) (s, omega (arith, n)) in
    let (outcomes', m) = receive_body_lem type body rest os b (s', omega (arith, n, n')) in
    (
      outcomes',
      ap (with_header true) r
          ∙ ap (receive_body true os (body ++ rest))
              (decode-encode_header type (length body) t (omega (arith, b)))
          ∙ m,
    )
