-- ===== src/FtpProto/Session.antt =====
-- dkftpbench-0.45/ftp_client_proto.h: sequences of calls to a client.
use c10kcode.Common.{
  ℕ, ◌+◌, ◌≤◌, ◌≡◌, refl, false, Option, List, [], ◌∷◌, length, arith, Bool-cases, inl, inr,
}
use c10kcode.FtpProto.{
  SockAddr, Proto, Line, Outcome, aborted, stray, returned, ◌>>=◌, linelen, maxfname, maxpassword,
  has_lf, advance_output, is_port_ready, start,
}
use c10kcode.FtpProto.Replies.{give_input}
use c10kcode.FtpProto.Requests.{login, cd, set_type, get_size, get}
use c10kcode.FtpProto.Valid.{IsValid, IsReply, Keeps, give_input-IsValid}
use c10kcode.FtpProto.Sent.{
  login-IsValid, cd-IsValid, set_type-IsValid, get_size-IsValid, get-IsValid,
}

-- A call that changes the client; `reply` is `giveInput`, `sent` is `advanceOutput` and `poll` is
-- `isPortReady`.
pub data Call : Type 0 where
  log_in : List ℕ → List ℕ → Call
  change_to : List ℕ → Call
  use_type : List ℕ → Call
  ask_size : List ℕ → Call
  fetch : List ℕ → Option SockAddr → Call
  reply : Line → Call
  sent : Call
  poll : Call

unfoldable pub perform : Proto → Call → Outcome (ℕ × Proto)
unfolding is_port_ready advance_output
perform p (log_in username password) = login p username password
perform p (change_to dir) = cd p dir
perform p (use_type ttype) = set_type p ttype
perform p (ask_size fname) = get_size p fname
perform p (fetch fname adr) = get p fname adr
perform p (reply l) = give_input p l
perform p sent = returned (advance_output p)
perform p poll = returned (0, (is_port_ready p).1)

-- The calls one after the other, whatever they return; the number is what the last returned.
unfoldable pub perform_all : ℕ → Proto → List Call → Outcome (ℕ × Proto)
unfolding perform
perform_all r p [] = returned (r, p)
perform_all r p (c ∷ cs) = perform p c >>= λ q. perform_all q.0 q.1 cs

-- The names leave room for the command in the output buffer, and the lines are lines of replies.
abbrev pub IsCall : Call → Type 0
IsCall (log_in username password) = length username + 7 ≤ linelen
IsCall (change_to dir) = length dir + 6 ≤ linelen
IsCall (use_type ttype) = length ttype + 7 ≤ linelen
IsCall (ask_size fname) = length fname + 7 ≤ linelen
IsCall (fetch fname adr) = Unit {0}
IsCall (reply l) = IsReply l.text × (has_lf l.text ≡ false)
IsCall sent = Unit {0}
IsCall poll = Unit {0}

abbrev pub AreCalls : List Call → Type 0
AreCalls [] = Unit {0}
AreCalls (c ∷ cs) = IsCall c × AreCalls cs

perform-IsValid : (p : Proto) (c : Call) → IsCall c → IsValid p → Keeps (perform p c)
unfolding perform IsValid
perform-IsValid p (log_in username password) h v = login-IsValid p username password h v
perform-IsValid p (change_to dir) h v = cd-IsValid p dir h v
perform-IsValid p (use_type ttype) h v = set_type-IsValid p ttype h v
perform-IsValid p (ask_size fname) h v = get_size-IsValid p fname h v
perform-IsValid p (fetch fname adr) h v = get-IsValid p fname adr v
perform-IsValid p (reply l) (r, h) v = give_input-IsValid p l r h v
perform-IsValid p sent h (st, su, f) = (st, su, (omega arith, f.1, f.2))
perform-IsValid p poll h v = elim (Bool-cases p.address_ready) [ inl y ↦ rw y v | inr n ↦ rw n v ]

Keeps-bind :
    (m : Outcome (ℕ × Proto)) (k : ℕ × Proto → Outcome (ℕ × Proto))
    → Keeps m
    → ((r : ℕ × Proto) → IsValid r.1 → Keeps (k r))
    → Keeps (m >>= k)
Keeps-bind aborted k h l = absurd h
Keeps-bind stray k h l = absurd h
Keeps-bind (returned r) k h l = l r h

pub perform_all-IsValid :
    (r : ℕ) (p : Proto) (cs : List Call) → AreCalls cs → IsValid p → Keeps (perform_all r p cs)
unfolding perform_all
perform_all-IsValid r p [] h v = v
perform_all-IsValid r p (c ∷ cs) (h, hs) v =
    Keeps-bind (perform p c) _ (perform-IsValid p c h v)
      (λ q w. perform_all-IsValid q.0 q.1 cs hs w)

-- From a client that was just set up, every sequence of calls whose names are short enough for the
-- output buffer, and whose lines begin with three digits and a space or a dash and hold no line
-- feed, runs to its end: no assertion fails, the stack neither overflows nor underflows, no access
-- is outside a buffer, and what is left is a valid client again.
pub sessions_are_safe :
    (p : Proto) (cs : List Call)
    → length p.fname + 1 ≤ maxfname
    → length p.password + 1 ≤ maxpassword
    → AreCalls cs
    → Keeps (perform_all 0 (start p) cs)
unfolding start IsValid
sessions_are_safe p cs hf hp h =
    perform_all-IsValid 0 (start p) cs h (refl, tt, (omega arith, omega arith, omega arith))
