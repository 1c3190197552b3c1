-- ===== src/Client/Network/Laws.antt =====
-- A request whose calls do not fail gets the response that the server sent.
use rain_typing_game.Prelude.{
  ℕ, zero, suc, ◌+◌, ◌-◌, ◌%◌, ◌^◌, ◌≤◌, ◌<◌, ◌≡◌, ◌≢◌, refl, sym, ap, subst, ◌∙◌, true, false,
  some, List, [], ◌∷◌, ◌++◌, map, Bytes, ltb, leb, ◌==◌, if◌then◌else◌, length, take, drop, All,
  arith, Bool-cases, inl, inr, length-drop-lt,
}
use rain_typing_game.Common.MessageType
use rain_typing_game.Common.Message.{encode_header, decode-encode_header}
use rain_typing_game.Common.Socket.{Outcome, part, interrupted, failed, IsSteady, parts, Enough}
use rain_typing_game.Server.Receive
use rain_typing_game.Server.Receive.Laws.{recv_all-Delivers}
use rain_typing_game.Client.Network.{
  call, sent, send_all, Received, received, recv_all, Signals, Request, body_answer,
  receive_response, header_answer, after_body, after_header, send_request_and_receive_response,
}

-- What the server's loop returns, as the client's loop does.
abbrev AsClient : Receive.Received → Received → Type 0
AsClient (Receive.received buf stream os) r = r ≡ received buf stream (map call os)
AsClient _ r = Unit

recv_all-AsClient :
    (os : List Outcome) (need : ℕ) (buf stream : Bytes)
    → AsClient (Receive.recv_all os need buf stream) (recv_all (map call os) need buf stream)
unfolding recv_all Receive.recv_all
recv_all-AsClient os zero buf stream = refl
recv_all-AsClient [] (suc need) buf stream = tt
recv_all-AsClient (failed ∷ os) (suc need) buf stream = tt
recv_all-AsClient (interrupted ∷ os) (suc need) buf stream =
    recv_all-AsClient os (suc need) buf stream
recv_all-AsClient (part k ∷ os) (suc need) buf stream =
    let chunk = take k (take (suc need) stream) in
    elim (Bool-cases (length chunk == 0)) [
      | inl e ↦ rw e tt
      | inr e ↦ rw e (
          recv_all-AsClient os (suc need - length chunk) (buf ++ chunk)
            (drop (length chunk) stream))
    ]

abbrev Leaves : ℕ → List Outcome → List Outcome → Type 0
Leaves n os os' = All IsSteady os' × (parts os ≤ parts os' + n)

recv_all_lem :
    (os : List Outcome) (bytes rest : Bytes)
    → Enough (length bytes) os
    → (os' : List Outcome) × (recv_all (map call os) (length bytes) [] (bytes ++ rest)
        ≡ received bytes rest (map call os'))
      × Leaves (length bytes) os os'
recv_all_lem os bytes rest h =
    let (os', r, s, n) = recv_all-Delivers os (length bytes) [] bytes rest refl h in
    (
      os',
      subst (λ x. AsClient x (recv_all (map call os) (length bytes) [] (bytes ++ rest))) r
          (recv_all-AsClient os (length bytes) [] (bytes ++ rest)),
      (s, n),
    )

send_all_lem :
    (os : List Outcome) (buf : Bytes)
    → Enough (length buf) os
    → (os' : List Outcome) × (send_all (map call os) buf ≡ sent (map call os'))
      × Leaves (length buf) os os'
unfolding send_all parts
send_all_lem os [] (s, n) = (os, refl, (s, omega arith))
send_all_lem [] (b ∷ buf) (s, n) = absurd (omega (arith, n))
send_all_lem (failed ∷ os) (b ∷ buf) ((f, s), n) = absurd f
send_all_lem (interrupted ∷ os) (b ∷ buf) ((f, s), n) = send_all_lem os (b ∷ buf) (s, n)
send_all_lem (part k ∷ os) (b ∷ buf) ((f, s), n) =
    let short = length-drop-lt k b buf f in
    let (os', r, (s', n')) = send_all_lem os (drop k (b ∷ buf)) (s, omega (arith, n, short)) in
    let moves : (k == 0) ≡ false = ground (arith, f) in
    (os', rw moves r, (s', omega (arith, n', short)))

-- No signal is seen at any test.
abbrev pub quiet : Signals
quiet = record {
  at_start = false;
  after_header = false;
  after_body = false;
  after_response = false;
}

-- The request is sent and the header of the response is read.
header_read :
    (req : Request) (os : List Outcome) (type : ℕ) (response rest : Bytes)
    → Enough (12 + length req.body + length response) os
    → type < 2 ^ 32
    → length response < 2 ^ 16
    → (os' : List Outcome) × (send_request_and_receive_response true quiet req
          (map call os)
          (encode_header type (length response) ++ (response ++ rest))
        ≡ receive_response req (map call os') (response ++ rest) (some (type, length response)))
      × Enough (length response) os'
unfolding send_request_and_receive_response
header_read req os type response rest (s, n) t l =
    let stream = encode_header type (length response) ++ (response ++ rest) in
    let head = encode_header req.type (length req.body % 2 ^ 16) in
    let (os₁, r₁, (s₁, n₁)) =
      send_all_lem os head (s, omega (arith, n, six req.type (length req.body % 2 ^ 16))) in
    let (os₂, r₂, (s₂, n₂)) =
      send_all_lem os₁ req.body
        (s₁, omega (arith, n, n₁, six req.type (length req.body % 2 ^ 16))) in
    let (os₃, r₃, (s₃, n₃)) =
      recv_all_lem os₂ (encode_header type (length response)) (response ++ rest) (
        s₂,
        omega
            (arith, n, n₁, n₂, six req.type (length req.body % 2 ^ 16), six type (length response)),
      ) in
    (
      os₃,
      ap (after_header quiet req stream) r₁
          ∙ ap (after_body quiet req stream) r₂
          ∙ ap (header_answer quiet req) (
              sym (ap (λ k. recv_all (map call os₂) k [] stream) (six type (length response))) ∙ r₃)
          ∙ ap (receive_response req (map call os₃) (response ++ rest))
              (decode-encode_header type (length response) t l),
      (
        s₃,
        omega (
          arith,
          n,
          n₁,
          n₂,
          n₃,
          six req.type (length req.body % 2 ^ 16),
          six type (length response),
        ),
      ),
    )
  where
    six : (type size : ℕ) → length (encode_header type size) ≡ 6
    six type size = unfold encode_header in refl

-- A connected client that sees no signal, whose calls of send and recv do not fail and are
-- enough, and that is sent a response of the expected type, which is not the error type, gets 0
-- and its body if the body is no longer than the buffer; else it gets -6, and the body stays in
-- the stream for the next request to read.
pub send_request_lem :
    (req : Request) (os : List Outcome) (response rest : Bytes)
    → Enough (12 + length req.body + length response) os
    → req.expected_resp_type < 2 ^ 32
    → req.expected_resp_type ≢ MessageType.error
    → length response < 2 ^ 16
    → send_request_and_receive_response true quiet req
        (map call os)
        (encode_header req.expected_resp_type (length response) ++ (response ++ rest))
      ≡ some (
          if leb (length response) req.response_body_max_len
          then record { code = 0; connected = true; body = response; stream = rest }
          else record { code = 6; connected = true; body = []; stream = response ++ rest })
unfolding receive_response
send_request_lem req os response rest h t e l =
    let (os', r, h') = header_read req os req.expected_resp_type response rest h t l in
    let (_, read, _) = recv_all_lem os' response rest h' in
    let no_error : (req.expected_resp_type == MessageType.error) ≡ false = ground (arith, e) in
    let expected : (req.expected_resp_type == req.expected_resp_type) ≡ true = ground arith in
    r ∙ elim (Bool-cases (ltb req.response_body_max_len (length response))) [
      | inl large ↦
          let not_small : leb (length response) req.response_body_max_len ≡ false =
            ground (arith, large) in
          rw (no_error, expected, large, not_small) refl
      | inr fits ↦
          let small : leb (length response) req.response_body_max_len ≡ true =
            ground (arith, fits) in
          rw (no_error, expected, fits, small) (ap body_answer read)
    ]
