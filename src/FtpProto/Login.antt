-- ===== src/FtpProto/Login.antt =====
-- dkftpbench-0.45/ftp_client_proto.cc: how a client logs in.
use c10kcode.Common.{
  ℕ, ◌+◌, ◌-◌, ◌≤◌, ◌≡◌, refl, true, false, none, some, List, [], ◌∷◌, ◌++◌, ◌==◌, length, take,
  length-take, arith,
}
use c10kcode.CText.{ℤ, pos, negsuc, atoi, within}
use c10kcode.FtpProto.{
  connected, user, pass, idle, Proto, Line, start, get_output, get_status, returned, cr_lf, linelen,
  maxpassword, byte_at, has_lf, advance_output,
}
use c10kcode.FtpProto.Replies.{respond, give_input}
use c10kcode.FtpProto.Requests.{login}
use c10kcode.FtpProto.Valid.{print_line-fits, get_output-printed}
use c10kcode.FtpProto.Session.{log_in, reply, sent, perform, perform_all}

-- A reply of one line whose status is from `lo` up to and without `hi`.
abbrev pub HasStatus : ℕ → ℕ → Line → Type 0
HasStatus lo hi l =
    (has_lf l.text ≡ false)
    × ((byte_at l.text l.stale 3 == b'-') ≡ false)
    × (within lo hi (atoi l.text) ≡ true)

abbrev pub user_line : List ℕ → List ℕ
user_line username = b'U' ∷ b'S' ∷ b'E' ∷ b'R' ∷ b' ' ∷ username

abbrev pub pass_line : List ℕ → List ℕ
pass_line password = b'P' ∷ b'A' ∷ b'S' ∷ b'S' ∷ b' ' ∷ take (maxpassword - 1) password

-- Asking for the login before the server has said hello, with USER sent at once, and asking for it
-- afterwards leave the same client, the hello being one line with a status from 200 to 299 and the
-- user name short enough for the output buffer.
pub hello_and_login_commute :
    (p : Proto) (username password : List ℕ) (hello : Line)
    → length username + 7 ≤ linelen
    → HasStatus 200 300 hello
    → perform_all 0 (start p) (log_in username password ∷ sent ∷ reply hello ∷ [])
      ≡ perform_all 0 (start p) (reply hello ∷ log_in username password ∷ sent ∷ [])
unfolding perform_all perform start login give_input respond advance_output
hello_and_login_commute p username password hello h (hl, dash, ok) =
    let fits : length (user_line username) + 2 ≤ linelen = omega arith in
    let greeted : Proto = record (start p) {
      status = atoi hello.text;
      response = take linelen hello.text;
      state = connected;
    } in
    rw
      (
        print_line-fits (start p) (user_line username) fits,
        hl,
        dash,
        ok,
        print_line-fits greeted (user_line username) fits,
      )
      refl

asks_no_ok : (z : ℤ) → within 300 400 z ≡ true → within 200 300 z ≡ false
asks_no_ok (pos n) h = ground arith
asks_no_ok (negsuc n) h = refl

-- A server that asks for a password and takes it: the client sends USER, then PASS with the first 31
-- bytes of the password, then is idle, with the status and the text of the last answer for
-- `getStatus`. In between `getStatus` gives 0.
pub login_dialogue :
    (p : Proto) (username password : List ℕ) (hello asks accepts : Line)
    → length username + 7 ≤ linelen
    → HasStatus 200 300 hello
    → HasStatus 300 400 asks
    → HasStatus 200 300 accepts
    → (q₁ q₂ q₃ : Proto) × (perform_all 0 (start p) (reply hello ∷ log_in username password ∷ [])
        ≡ returned (0, q₁))
      × (get_output q₁ ≡ some (user_line username ++ cr_lf))
      × (get_status q₁ none ≡ returned (pos 0, none))
      × (perform_all 0 q₁ (sent ∷ reply asks ∷ []) ≡ returned (0, q₂))
      × (get_output q₂ ≡ some (pass_line password ++ cr_lf))
      × (get_status q₂ none ≡ returned (pos 0, none))
      × (perform_all 0 q₂ (sent ∷ reply accepts ∷ []) ≡ returned (0, q₃))
      × (get_output q₃ ≡ none)
      × (q₃.state ≡ idle)
      × (get_status q₃ (some 513)
          ≡ returned (atoi accepts.text, some (take 512 (take linelen accepts.text))))
unfolding perform_all perform start login give_input respond advance_output get_status get_output
login_dialogue p username password hello asks accepts h (hl, dash, ok) (hl', dash', ok')
      (hl'', dash'', ok'') =
    let fits : length (user_line username) + 2 ≤ linelen = omega arith in
    let fits' : length (pass_line password) + 2 ≤ linelen =
      omega (arith, length-take 31 password) in
    let greeted : Proto = record (start p) {
      status = atoi hello.text;
      response = take linelen hello.text;
      state = connected;
    } in
    let named : Proto = record greeted { password = take 31 password; state = user } in
    let text = user_line username ++ cr_lf in
    let q₁ : Proto = record named { obuf = text; obuflen = length text } in
    let asked : Proto = record q₁ {
      obuflen = 0;
      status = atoi asks.text;
      response = take linelen asks.text;
    } in
    let text' = pass_line password ++ cr_lf in
    let q₂ : Proto = record asked { obuf = text'; obuflen = length text'; state = pass } in
    let q₃ : Proto = record q₂ {
      obuflen = 0;
      status = atoi accepts.text;
      response = take linelen accepts.text;
      state = idle;
    } in
    (
      q₁,
      q₂,
      q₃,
      rw (hl, dash, ok, print_line-fits greeted (user_line username) fits) refl,
      get_output-printed named (user_line username),
      refl,
      rw
          (
            hl',
            dash',
            asks_no_ok (atoi asks.text) ok',
            ok',
            print_line-fits asked (pass_line password) fits',
          )
          refl,
      get_output-printed (record asked { state = pass }) (pass_line password),
      refl,
      rw (hl'', dash'', ok'') refl,
      refl,
      refl,
      refl,
    )
