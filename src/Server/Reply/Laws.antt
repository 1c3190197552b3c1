-- ===== src/Server/Reply/Laws.antt =====
-- The sizes of the structs that a response is, and what a client reads from them.
use rain_typing_game.Prelude.{
  ℕ, zero, suc, ◌+◌, ◌-◌, ◌*◌, ◌%◌, ◌^◌, ◌≤◌, ◌<◌, ◌≡◌, refl, ap, ◌∙◌, false, none, some, List, [],
  ◌∷◌, ◌++◌, append-nil, append_assoc, All, Bytes, ◌==◌, length, take, drop, take-drop,
  length-drop-lt, length-append, length-str_copy-lt, str_copy, pos, negsuc, arith,
}
use rain_typing_game.Common.Protocol.{
  max_id_len, max_msg_len, max_leaderboard_entries, max_wordlist_words, max_word_str_len,
  LeaderboardEntry,
}
use rain_typing_game.Common.Message.{encode_header, encode_int, length-encode_int}
use rain_typing_game.Common.Socket.{Outcome, part, interrupted, failed, IsSteady, parts, Enough}
use rain_typing_game.Server.Handler.{Reply, response, leaderboard, wordlist_reply, error_reply}
use rain_typing_game.Server.Reply.{
  Sent, sent, send_all, unwritten, text_field, of_success, encode_response, encode_entries,
  encode_leaderboard, encode_words, encode_wordlist, entry_size, encode_reply, send_body,
  send_response,
}

length-unwritten : (memory : ℕ → ℕ) (i n : ℕ) → length (unwritten memory i n) ≡ n
unfolding unwritten
length-unwritten memory i zero = refl
length-unwritten memory i (suc n) = omega (arith, length-unwritten memory (suc i) n)

length-text_field :
    (memory : ℕ → ℕ) (i n : ℕ) (s : Bytes) → 0 < n → length (text_field memory i n s) ≡ n
unfolding text_field
length-text_field memory i n s h =
    let kept = str_copy n s in
    let rest = unwritten memory (i + length kept + 1) (n - 1 - length kept) in
    omega (
      arith,
      length-append kept (0 ∷ rest),
      length-unwritten memory (i + length kept + 1) (n - 1 - length kept),
      length-str_copy-lt n s h,
    )

length-encode_entries :
    (memory : ℕ → ℕ) (i : ℕ) (entries : List LeaderboardEntry)
    → length (encode_entries memory i entries) ≡ length entries * entry_size
unfolding encode_entries
length-encode_entries memory i [] = refl
length-encode_entries memory i (e ∷ entries) = omega (
  arith,
  length-append (text_field memory i max_id_len e.username)
      (encode_int e.score ++ encode_entries memory (i + entry_size) entries),
  length-append (encode_int e.score) (encode_entries memory (i + entry_size) entries),
  length-text_field memory i max_id_len e.username (omega arith),
  length-encode_int e.score,
  length-encode_entries memory (i + entry_size) entries,
)

length-encode_words :
    (memory : ℕ → ℕ) (i : ℕ) (words : List Bytes)
    → length (encode_words memory i words) ≡ length words * max_word_str_len
unfolding encode_words
length-encode_words memory i [] = refl
length-encode_words memory i (w ∷ words) = omega (
  arith,
  length-append (text_field memory i max_word_str_len w)
      (encode_words memory (i + max_word_str_len) words),
  length-text_field memory i max_word_str_len w (omega arith),
  length-encode_words memory (i + max_word_str_len) words,
)

-- A leaderboard and a word list have room for so many entries.
abbrev pub HasRoom : Reply → Type 0
HasRoom (leaderboard (some entries)) = length entries ≤ max_leaderboard_entries
HasRoom (wordlist_reply words) = length words ≤ max_wordlist_words
HasRoom _ = Unit

-- `sizeof` of the struct.
abbrev pub reply_size : Reply → ℕ
reply_size (response type resp) = 4 + max_msg_len
reply_size (leaderboard entries) = 4 + max_leaderboard_entries * (max_id_len + 4) + max_msg_len
reply_size (wordlist_reply words) = 4 + max_wordlist_words * max_word_str_len
reply_size (error_reply text) = max_msg_len

-- A reply takes as many bytes as its struct, if a leaderboard has at most 10 entries and a word
-- list at most 256 words, whatever its texts are.
pub length-encode_reply :
    (memory : ℕ → ℕ) (reply : Reply)
    → HasRoom reply
    → length (encode_reply memory reply) ≡ reply_size reply
unfolding encode_response encode_leaderboard encode_wordlist
length-encode_reply memory (response type resp) h = omega (
  arith,
  length-append (encode_int (of_success resp.success))
      (text_field memory 4 max_msg_len resp.message),
  length-encode_int (of_success resp.success),
  length-text_field memory 4 max_msg_len resp.message (omega arith),
)
length-encode_reply memory (leaderboard none) h = omega (
  arith,
  length-append (encode_int (negsuc 0))
      (unwritten memory 4 (max_leaderboard_entries * entry_size + max_msg_len)),
  length-encode_int (negsuc 0),
  length-unwritten memory 4 (max_leaderboard_entries * entry_size + max_msg_len),
)
length-encode_reply memory (leaderboard (some entries)) h =
    let rest =
      unwritten memory (4 + length entries * entry_size)
        ((max_leaderboard_entries - length entries) * entry_size + max_msg_len) in
    omega (
      arith,
      length-append (encode_int (pos (length entries))) (encode_entries memory 4 entries ++ rest),
      length-append (encode_entries memory 4 entries) rest,
      length-encode_int (pos (length entries)),
      length-encode_entries memory 4 entries,
      length-unwritten memory (4 + length entries * entry_size)
          ((max_leaderboard_entries - length entries) * entry_size + max_msg_len),
    )
length-encode_reply memory (wordlist_reply words) h =
    let rest =
      unwritten memory (4 + length words * max_word_str_len)
        ((max_wordlist_words - length words) * max_word_str_len) in
    omega (
      arith,
      length-append (encode_int (pos (length words))) (encode_words memory 4 words ++ rest),
      length-append (encode_words memory 4 words) rest,
      length-encode_int (pos (length words)),
      length-encode_words memory 4 words,
      length-unwritten memory (4 + length words * max_word_str_len)
          ((max_wordlist_words - length words) * max_word_str_len),
    )
length-encode_reply memory (error_reply text) h =
    length-text_field memory 0 max_msg_len text (omega arith)

abbrev Goes : ℕ → List Outcome → Bytes → Sent → Type 0
Goes n outcomes bytes r =
    (outcomes' : List Outcome) × (r ≡ sent bytes outcomes')
    × All IsSteady outcomes'
    × (parts outcomes ≤ parts outcomes' + n)

send_all_lem :
    (outcomes : List Outcome) (out buf : Bytes)
    → Enough (length buf) outcomes
    → Goes (length buf) outcomes (out ++ buf) (send_all outcomes out buf)
unfolding send_all parts
send_all_lem os out [] (s, n) = (os, rw append-nil refl, s, omega arith)
send_all_lem [] out (b ∷ buf) (s, n) = absurd (omega (arith, n))
send_all_lem (failed ∷ os) out (b ∷ buf) ((f, s), n) = absurd f
send_all_lem (interrupted ∷ os) out (b ∷ buf) ((f, s), n) = send_all_lem os out (b ∷ buf) (s, n)
send_all_lem (part k ∷ os) out (b ∷ buf) ((f, s), n) =
    let short = length-drop-lt k b buf f in
    let (os', r, s', n') =
      send_all_lem os (out ++ take k (b ∷ buf)) (drop k (b ∷ buf)) (s, omega (arith, n, short)) in
    let moves : (k == 0) ≡ false = ground (arith, f) in
    (
      os',
      rw moves (
          r
          ∙ ap (λ bytes. sent bytes os')
              (append_assoc out (take k (b ∷ buf)) (drop k (b ∷ buf))
                ∙ ap (◌++◌ out) (take-drop k (b ∷ buf)))),
      s',
      omega (arith, n', short),
    )

-- A response goes out whole, behind a header with its type and size, if the calls of send do not
-- fail and are enough.
pub send_response_lem :
    (outcomes : List Outcome) (type : ℕ) (response_data : Bytes)
    → Enough 8202 outcomes
    → length response_data ≤ 8196
    → (outcomes' : List Outcome) × (send_response outcomes type response_data
        ≡ sent (encode_header type (length response_data % 2 ^ 16) ++ response_data) outcomes')
unfolding send_response
send_response_lem outcomes type response_data (s, n) fits =
    let head = encode_header type (length response_data % 2 ^ 16) in
    let six : length head ≡ 6 = unfold encode_header in refl in
    let (os₁, r₁, s₁, n₁) = send_all_lem outcomes [] head (s, omega (arith, n, six)) in
    let (os₂, r₂, _, _) =
      send_all_lem os₁ head response_data (s₁, omega (arith, n, n₁, six, fits)) in
    (os₂, ap (send_body response_data) r₁ ∙ r₂)
