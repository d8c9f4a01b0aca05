-- ===== src/FtpProto.antt =====
-- dkftpbench-0.45/ftp_client_proto.h and ftp_client_proto.cc: the protocol part of an FTP client.
-- A line from the server is its text and the bytes behind the text's NUL, which are still in the
-- line buffer; the code looks at the fourth byte of a line also where the line is shorter.
use c10kcode.Common.{
  ℕ, zero, suc, ◌+◌, ◌-◌, ◌*◌, ◌/◌, ◌%◌, ◌^◌, Bool, true, false, ◌&&◌, ◌||◌, not, Option, none,
  some, List, [], ◌∷◌, ◌++◌, ltb, leb, ◌==◌, if◌then◌else◌, length, take, write, e2big, ewouldblock,
  eacces, einval, enosys, eisconn,
}
use c10kcode.CText.{ℤ, pos, atoi, scan_int, decimal, is_digit, int_eq, within, to_byte}
pub mod Replies
pub mod Requests
pub mod Valid
pub mod Sent
pub mod Session
pub mod Transfer
pub mod Multiline
pub mod Login
pub mod Codes
pub mod Tests

-- `state_t`, without the prefix FCPS_
pub data State : Type 0 where
  uninit init connected user pass idle cwd type size port pasv retr quit : State

-- `struct sockaddr_in`, its address and port in host order
pub record SockAddr : Type 0 where
  pub addr : ℕ
  pub port_number : ℕ

-- `m_obuf` is the text up to its NUL; `stack` holds `m_stack[0..m_stack_ptr)`, its top first.
pub record Proto : Type 0 where
  pub state : State
  pub stack : List State
  pub sent_user : Bool
  pub obuf : List ℕ
  pub obuflen : ℕ
  pub multiline : Bool
  pub status : ℤ
  pub response : List ℕ
  pub password : List ℕ
  pub fname : List ℕ
  pub address_ready : Bool
  pub address : SockAddr

pub record Line : Type 0 where
  pub text : List ℕ
  pub stale : ℕ → ℕ

-- How a call ends: by `assert` or `exit`, by an access outside an object, or by returning.
pub data Outcome {ℓ} (A : Type ℓ) : Type ℓ where
  aborted : Outcome A
  stray : Outcome A
  returned : A → Outcome A

infixl 5 ◌>>=◌
abbrev pub ◌>>=◌ {ℓ κ} : {A : Type ℓ} {B : Type κ} → Outcome A → (A → Outcome B) → Outcome B
aborted >>= f = aborted
stray >>= f = stray
returned a >>= f = f a

-- The text of a string literal in `sprintf`
abbrev pub cr_lf : List ℕ
cr_lf = b'\r' ∷ b'\n' ∷ []

-- `ftp_client_proto_LINELEN`, `_MAXPASSWORD`, `_MAXFNAME` and `_STACKLEN`
abbrev pub linelen : ℕ
linelen = 512

abbrev pub maxpassword : ℕ
maxpassword = 32

abbrev pub maxfname : ℕ
maxfname = 256

abbrev pub stacklen : ℕ
stacklen = 3

-- `p[i]` of a line, the NUL and what stands behind it included
abbrev pub byte_at : List ℕ → (ℕ → ℕ) → ℕ → ℕ
byte_at [] stale zero = 0
byte_at [] stale (suc k) = stale k
byte_at (c ∷ cs) stale zero = c
byte_at (c ∷ cs) stale (suc k) = byte_at cs stale k

abbrev pub has_lf : List ℕ → Bool
has_lf [] = false
has_lf (c ∷ cs) = c == b'\n' || has_lf cs

-- `m_obuflen = sprintf(m_obuf, ...)`, of a line of text without its CR LF. The buffer holds
-- `linelen` bytes and a NUL.
abbrev pub print_line : Proto → List ℕ → Outcome Proto
print_line p text =
    if leb (length (text ++ cr_lf)) linelen
    then returned (record p { obuf = text ++ cr_lf; obuflen = length (text ++ cr_lf) })
    else stray

-- `callState(jump_to, return_to)`
abbrev pub call_state : Proto → State → State → Outcome Proto
call_state p jump_to return_to =
    if leb stacklen (length p.stack)
    then aborted
    else returned (record p { stack = return_to ∷ p.stack; state = jump_to })

-- `popState()`, the state and the rest of the stack
abbrev pub pop_state : Proto → Outcome (State × Proto)
pop_state p = elim p.stack [ [] ↦ aborted | s ∷ rest ↦ returned (s, record p { stack = rest }) ]

-- `returnState()`
abbrev pub return_state : Proto → Outcome Proto
return_state p = pop_state p >>= λ r. returned (record r.1 { state = r.0 })

-- `popState(); SETSTATE(FCPS_IDLE);` at the end of a substate that failed
abbrev pub give_up : Proto → Outcome (ℕ × Proto)
give_up p = pop_state p >>= λ r. returned (0, record r.1 { state = idle })

-- `init()`, which leaves the buffers as they are.
unfoldable pub start : Proto → Proto
start p = record p {
  status = pos 0;
  state = init;
  obuflen = 0;
  multiline = false;
  address_ready = false;
  sent_user = false;
  stack = [];
}

abbrev pub is_input_ready : Proto → Bool
is_input_ready p = elim p.state [ idle ↦ false | _ ↦ true ]

abbrev pub is_output_ready : Proto → Bool
is_output_ready p = not (p.obuflen == 0)

abbrev pub is_quit : Proto → Bool
is_quit p = elim p.state [ quit ↦ true | _ ↦ false ]

-- `isPortReady(&address)`: the address where there is one, once.
unfoldable pub is_port_ready : Proto → Option SockAddr × Proto
is_port_ready p =
    if p.address_ready then (some p.address, record p { address_ready = false }) else (none, p)

-- `getStatus(buf, buflen)`; without a buffer the second argument is `none`.
unfoldable pub get_status : Proto → Option ℕ → Outcome (ℤ × Option (List ℕ))
get_status p buflen =
    let answer : Outcome (ℤ × Option (List ℕ)) = elim buflen [
      | none ↦ returned (p.status, none)
      | some zero ↦ stray
      | some (suc n) ↦ returned (p.status, some (take n p.response))
    ] in
    elim p.state [ idle ↦ answer | init ↦ answer | _ ↦ returned (pos 0, none) ]

unfoldable pub get_output : Proto → Option (List ℕ)
get_output p = if is_output_ready p then some (take p.obuflen p.obuf) else none

unfoldable pub advance_output : Proto → ℕ × Proto
advance_output p = (0, record p { obuflen = 0 })
