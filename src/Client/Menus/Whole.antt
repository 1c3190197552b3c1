-- ===== src/Client/Menus/Whole.antt =====
-- The buffer for a message holds the whole answer of the server.
use rain_typing_game.Prelude.{
  ℕ, zero, suc, ◌*◌, ◌<◌, ◌≤◌, ◌≡◌, Bool, true, false, ◌&&◌, ◌++◌, Bytes, utf8, ◌==◌, if◌then◌else◌,
  length, length-append, str_copy_all, arith,
}
use rain_typing_game.Common.Protocol.{max_msg_len, Response}
use rain_typing_game.Common.Decimal.{print_int}
use rain_typing_game.Common.Decimal.RoundTrip.{length-print_int-le}
use rain_typing_game.Client.Menus.{
  return_value, failure_text, login_result, register_result, response_message,
}

length-return_value : (ret : ℕ) → ret ≤ 10 → length (print_int (return_value ret)) ≤ 11
unfolding return_value
length-return_value zero h = length-print_int-le (return_value 0) (omega arith)
length-return_value (suc n) h = length-print_int-le (return_value (suc n)) (omega arith)

length-if :
    (b : Bool) (s t : Bytes) (n : ℕ) → length s < n → length t < n → length (if b then s else t) < n
length-if true s t n h k = h
length-if false s t n h k = k

length-failure_text :
    (prefix : Bytes) (ret : ℕ) (res : Response)
    → length prefix ≤ 19
    → ret ≤ 10
    → length res.message < max_msg_len
    → length (failure_text prefix ret res) < max_msg_len * 2
unfolding failure_text
length-failure_text prefix ret res h k l =
    let said = if ret == 0 then res.message else utf8 "Network/Comm error" in
    let code = print_int (return_value ret) in
    omega (
      arith,
      h,
      length-append prefix (said ++ (utf8 " (ret: " ++ (code ++ utf8 ")"))),
      length-append said (utf8 " (ret: " ++ (code ++ utf8 ")")),
      length-append (utf8 " (ret: ") (code ++ utf8 ")"),
      length-append code (utf8 ")"),
      length-return_value ret k,
      length-if (ret == 0) res.message (utf8 "Network/Comm error") max_msg_len l (omega arith),
    )

-- The text that is shown behind a login or a registration is not cut, for every return value of a
-- request and every message that fits the field of a response.
response_message-whole :
    (logs_in : Bool) (ret : ℕ) (res : Response)
    → ret ≤ 10
    → length res.message < max_msg_len
    → response_message logs_in ret res
      ≡ (if logs_in then login_result ret res else register_result ret res)
unfolding response_message
response_message-whole logs_in ret res h k = str_copy_all _ (
    length-if logs_in _ _ _
      (length-if (ret == 0 && res.success) _ _ _
        (omega (arith, k, length-append (utf8 "Login Success! ") res.message))
        (length-failure_text (utf8 "Login Failed: ") ret res (omega arith) h k))
      (length-if (ret == 0 && res.success) _ _ _
        (omega (
          arith,
          k,
          length-append (utf8 "Register Success! ") (res.message ++ utf8 " Try logging in."),
          length-append res.message (utf8 " Try logging in."),
        ))
        (length-failure_text (utf8 "Register Failed: ") ret res (omega arith) h k)))
