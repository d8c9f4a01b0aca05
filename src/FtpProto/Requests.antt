-- ===== src/FtpProto/Requests.antt =====
-- dkftpbench-0.45/ftp_client_proto.cc: the calls by which the user of the client asks for something.
use c10kcode.Common.{
  ℕ, ◌-◌, ◌*◌, ◌/◌, ◌%◌, ◌^◌, Bool, true, false, ◌&&◌, Option, none, some, List, [], ◌∷◌, ◌++◌, leb,
  ◌==◌, if◌then◌else◌, length, take, e2big, ewouldblock, enosys, eisconn,
}
use c10kcode.CText.{decimal}
use c10kcode.FtpProto.{
  State, init, connected, user, idle, cwd, type, size, port, pasv, retr, SockAddr, Proto, Outcome,
  returned, ◌>>=◌, maxpassword, maxfname, print_line, call_state, is_output_ready,
}

-- The USER line is printed, and the password is kept.
abbrev pub send_user : Proto → List ℕ → List ℕ → Outcome Proto
send_user p username password = print_line p (b'U' ∷ b'S' ∷ b'E' ∷ b'R' ∷ b' ' ∷ username) >>= λ q.
    returned (record q { password = take (maxpassword - 1) password })

-- The guards of `login` behind the one on the state; the last argument is what follows them.
abbrev pub when_new : Proto → Outcome (ℕ × Proto) → Outcome (ℕ × Proto)
when_new p go =
    if p.sent_user
    then returned (eisconn, p)
    else if is_output_ready p
    then returned (ewouldblock, p)
    else go

-- `login(username, password)`, in the state that the first argument is.
abbrev pub login_in : State → Proto → List ℕ → List ℕ → Outcome (ℕ × Proto)
login_in connected p username password =
    when_new p (send_user p username password >>= λ q. returned (0, record q { state = user }))
login_in init p username password =
    when_new p (send_user p username password >>= λ q. returned (0, record q { sent_user = true }))
login_in _ p username password = returned (eisconn, p)

-- `login(username, password)`
unfoldable pub login : Proto → List ℕ → List ℕ → Outcome (ℕ × Proto)
login p username password = login_in p.state p username password

-- The guards that `cd`, `type`, `size` and `get` share: the client is idle and its output is sent.
abbrev pub when_idle : Proto → Outcome (ℕ × Proto) → Outcome (ℕ × Proto)
when_idle p go = elim p.state [
  | idle ↦ if is_output_ready p then returned (ewouldblock, p) else go
  | _ ↦ returned (eisconn, p)
]

-- The command `text` is sent, and the client waits in state `s`.
abbrev pub send_in : Proto → List ℕ → State → Outcome (ℕ × Proto)
send_in p text s = print_line p text >>= λ q. returned (0, record q { state = s })

-- `strcmp("..", dir) == 0`
abbrev pub is_parent : List ℕ → Bool
is_parent (a ∷ b ∷ []) = a == b'.' && b == b'.'
is_parent _ = false

-- `cd(dir)`
unfoldable pub cd : Proto → List ℕ → Outcome (ℕ × Proto)
cd p dir = when_idle p (
    if is_parent dir
    then send_in p (b'C' ∷ b'D' ∷ b'U' ∷ b'P' ∷ []) cwd
    else send_in p (b'C' ∷ b'W' ∷ b'D' ∷ b' ' ∷ dir) cwd)

-- `type(ttype)`
unfoldable pub set_type : Proto → List ℕ → Outcome (ℕ × Proto)
set_type p ttype = when_idle p (send_in p (b'T' ∷ b'Y' ∷ b'P' ∷ b'E' ∷ b' ' ∷ ttype) type)

-- `size(fname)`
unfoldable pub get_size : Proto → List ℕ → Outcome (ℕ × Proto)
get_size p fname = when_idle p (send_in p (b'S' ∷ b'I' ∷ b'Z' ∷ b'E' ∷ b' ' ∷ fname) size)

-- `quit()`, which is not implemented.
unfoldable pub log_out : Proto → ℕ × Proto
log_out p = (enosys, p)

-- `ls(dirname, address)`, which is not implemented.
unfoldable pub ls : Proto → List ℕ → Option SockAddr → ℕ × Proto
ls p dirname address = (enosys, p)

-- Numbers with commas between them, as `sprintf` prints them.
abbrev pub commas : List ℕ → List ℕ
commas [] = []
commas (n ∷ []) = decimal n
commas (n ∷ m ∷ ns) = decimal n ++ b',' ∷ commas (m ∷ ns)

-- `GETBYTE0(x >> 8 * k)`
abbrev pub get_byte : ℕ → ℕ → ℕ
get_byte k x = x / 2 ^ (8 * k) % 256

-- `ntohs(adr->sin_addr.s_addr)` where the machine is little-endian: the address is cut to the two
-- bytes that stand first in memory.
abbrev pub port_of : SockAddr → ℕ
port_of a = a.addr / 2 ^ 16 % 2 ^ 16

abbrev pub port_line : SockAddr → List ℕ
port_line a =
    let ip = a.addr in
    b'P'
    ∷ b'O'
    ∷ b'R'
    ∷ b'T'
    ∷ b' '
    ∷ commas (
        get_byte 3 ip
        ∷ get_byte 2 ip
        ∷ get_byte 1 ip
        ∷ get_byte 0 ip
        ∷ get_byte 1 (port_of a)
        ∷ get_byte 0 (port_of a)
        ∷ [])

-- The first command of `get`: the server is told an address, or asked for one.
abbrev pub ask_data : Proto → Option SockAddr → Outcome (ℕ × Proto)
ask_data p (some a) =
    print_line p (port_line a) >>= λ q. call_state q port retr >>= λ r. returned (0, r)
ask_data p none = print_line p (b'P' ∷ b'A' ∷ b'S' ∷ b'V' ∷ []) >>= λ q.
    call_state q pasv retr >>= λ r. returned (0, r)

-- `get(fname, adr)`; the second is `none` for NULL.
unfoldable pub get : Proto → List ℕ → Option SockAddr → Outcome (ℕ × Proto)
get p fname adr = when_idle p (
    if leb maxfname (length fname)
    then returned (e2big, p)
    else ask_data (record p { fname = fname }) adr)
