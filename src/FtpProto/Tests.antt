-- ===== src/FtpProto/Tests.antt =====
-- Dialogues of the client of ftp_client_proto.cc, and the theorems about it at concrete clients.
use c10kcode.Common.{
  ℕ, ◌+◌, ◌*◌, ◌≡◌, refl, inl, true, false, none, some, List, [], ◌∷◌, ◌++◌, arith, take,
}
use c10kcode.CText.{pos, atoi, decimal}
use c10kcode.FtpProto.{
  State, uninit, pass, idle, pasv, retr, Proto, Line, start, get_output, get_status, is_port_ready,
  stray, returned, cr_lf, linelen,
}
use c10kcode.FtpProto.Replies.{give_input, respond, retr_line}
use c10kcode.FtpProto.Requests.{commas}
use c10kcode.FtpProto.Valid.{Keeps, IsReply}
use c10kcode.FtpProto.Session.{
  Call, log_in, reply, sent, fetch, poll, perform_all, sessions_are_safe,
}
use c10kcode.FtpProto.Transfer.{AwaitsAddress, passive_address, digits_then_comma_stray}
use c10kcode.FtpProto.Multiline.{give_lines, multiline_reply}
use c10kcode.FtpProto.Login.{user_line, pass_line, login_dialogue}

abbrev blank : Proto
blank = record {
  state = uninit;
  stack = [];
  sent_user = false;
  obuf = [];
  obuflen = 0;
  multiline = false;
  status = pos 0;
  response = [];
  password = [];
  fname = [];
  address_ready = false;
  address = record { addr = 0; port_number = 0 };
}

abbrev line : List ℕ → Line
line t = record { text = t; stale = λ _. 0 }

abbrev hello : Line
hello = line (b'2' ∷ b'2' ∷ b'0' ∷ b' ' ∷ b'a' ∷ [])

abbrev asks : Line
asks = line (b'3' ∷ b'3' ∷ b'1' ∷ b' ' ∷ b'b' ∷ [])

abbrev accepts : Line
accepts = line (b'2' ∷ b'3' ∷ b'0' ∷ b' ' ∷ b'c' ∷ [])

abbrev username : List ℕ
username = (b'm' ∷ b'e' ∷ [])

abbrev password : List ℕ
password = (b'p' ∷ b'w' ∷ [])

abbrev fname : List ℕ
fname = (b'f' ∷ [])

abbrev calls : List Call
calls =
    reply hello
    ∷ log_in username password
    ∷ sent
    ∷ reply asks
    ∷ sent
    ∷ reply accepts
    ∷ fetch fname none
    ∷ sent
    ∷ reply (line ((b'2' ∷ b'2' ∷ b'7' ∷ b' ' ∷ []) ++ commas (10 ∷ 0 ∷ 0 ∷ 1 ∷ 4 ∷ 1 ∷ [])))
    ∷ poll
    ∷ []

sessions_are_safe_example : Keeps (perform_all 0 (start blank) calls)
unfolding IsReply decimal
sessions_are_safe_example = sessions_are_safe blank calls (omega arith) (omega arith) (
  ((refl, refl, refl, inl refl), refl),
  (
    omega arith,
    (
      tt,
      (
        ((refl, refl, refl, inl refl), refl),
        (
          tt,
          (
            ((refl, refl, refl, inl refl), refl),
            (tt, (tt, (((refl, refl, refl, inl refl), refl), (tt, tt)))),
          ),
        ),
      ),
    ),
  ),
)

login_dialogue_example :
    (q₁ q₂ q₃ : Proto) × (perform_all 0 (start blank) (reply hello ∷ log_in username password ∷ [])
      ≡ returned (0, q₁))
    × (get_output q₁ ≡ some (user_line username ++ cr_lf))
    × (get_status q₁ none ≡ returned (pos 0, none))
    × (perform_all 0 q₁ (sent ∷ reply asks ∷ []) ≡ returned (0, q₂))
    × (get_output q₂ ≡ some (pass_line password ++ cr_lf))
    × (get_status q₂ none ≡ returned (pos 0, none))
    × (perform_all 0 q₂ (sent ∷ reply accepts ∷ []) ≡ returned (0, q₃))
    × (get_output q₃ ≡ none)
    × (q₃.state ≡ idle)
    × (get_status q₃ (some 513)
        ≡ returned (atoi accepts.text, some (take 512 (take linelen accepts.text))))
unfolding atoi
login_dialogue_example =
    login_dialogue blank username password hello asks accepts (omega arith) (refl, refl, refl)
      (refl, refl, refl) (refl, refl, refl)

-- A client that asked for `fname`, and waits in the given state.
abbrev fetching : State → Proto
fetching s = record blank { state = s; stack = retr ∷ []; fname = fname }

abbrev entering : Line
entering =
    line (
      (b'2' ∷ b'2' ∷ b'7' ∷ b' ' ∷ [])
      ++ b'(' ∷ (commas (10 ∷ 0 ∷ 0 ∷ 1 ∷ 4 ∷ 1 ∷ []) ++ b')' ∷ []))

passive_address_example :
    (q : Proto) × (give_input (fetching pasv) entering ≡ returned (0, q))
    × (q.state ≡ retr)
    × (q.stack ≡ [])
    × (get_output q ≡ some (retr_line (fetching pasv) ++ cr_lf))
    × ((is_port_ready q).0
        ≡ some (record { addr = ((10 * 256 + 0) * 256 + 0) * 256 + 1; port_number = 4 * 256 + 1 }))
    × ((is_port_ready (is_port_ready q).1).0 ≡ none)
unfolding AwaitsAddress atoi decimal
passive_address_example =
    passive_address (fetching pasv) entering (b'2' ∷ b'2' ∷ b'7' ∷ b' ' ∷ []) b'(' 10 0 0 1 4 1
      (b')' ∷ []) (refl, refl, refl, omega arith) refl (refl, (refl, (refl, (refl, tt)))) refl refl
      refl refl refl (omega arith, omega arith, omega arith, omega arith, omega arith, omega arith)

abbrev only_digits : Line
only_digits = line (b'2' ∷ b'2' ∷ b'7' ∷ b',' ∷ b'1' ∷ [])

digits_then_comma_stray_example : give_input (fetching pasv) only_digits ≡ stray
unfolding AwaitsAddress atoi decimal
digits_then_comma_stray_example =
    digits_then_comma_stray (fetching pasv) only_digits (b'2' ∷ b'2' ∷ b'7' ∷ []) (b'1' ∷ [])
      (refl, refl, refl, omega arith) (refl, (refl, (refl, tt))) refl refl refl

abbrev opens : Line
opens = line (b'2' ∷ b'3' ∷ b'0' ∷ b'-' ∷ b'a' ∷ [])

abbrev middle : Line
middle = line (b'3' ∷ b'3' ∷ b'1' ∷ b' ' ∷ b'b' ∷ [])

abbrev closes : Line
closes = line (b'2' ∷ b'3' ∷ b'0' ∷ b' ' ∷ b'z' ∷ [])

abbrev asked : Proto
asked = record blank { state = pass }

abbrev opened : Proto
opened = record blank { state = idle; status = pos 230; response = opens.text; multiline = true }

multiline_reply_example :
    give_lines asked (opens ∷ (middle ∷ []) ++ closes ∷ [])
    ≡ returned (0, record opened { multiline = false })
unfolding give_input respond atoi
multiline_reply_example =
    multiline_reply asked opened opens (middle ∷ []) closes 0 refl refl refl refl (refl, refl, tt)
      refl refl
