-- ===== src/Pipe/Ephemeral.antt =====
-- dkftpbench-0.45/ftp_client_pipe.cc: `setNonblocking`, `ephemeral_connect` and `connect`.
pub mod Ports
use Prim.Native.Nat.{bit_or}
use c10kcode.Common.{
  ℕ, zero, suc, ◌+◌, ◌*◌, ◌%◌, ◌^◌, ◌||◌, Bool, true, false, Option, none, some, List, ◌∷◌, ltb,
  ◌==◌, if◌then◌else◌, enoent, einprogress, eaddrinuse,
}
use c10kcode.Eclock.{clock_add, hertz}
use c10kcode.FtpProto.{SockAddr}
use c10kcode.Pipe.{
  Pipe, Os, Outcome, returned, ◌>>=◌, Reply, failed, answered, init, note, opened, added, closed,
  schedule, pollin, pollout,
}

-- `O_NONBLOCK`
abbrev pub o_nonblock : ℕ
o_nonblock = 2048

-- `setNonblocking(fd)`, where O_NONBLOCK is defined.
abbrev pub set_nonblocking : Os → ℕ → Reply
set_nonblocking os fd = elim (os.get_flags fd) [
  | failed _ ↦ os.set_flags fd (bit_or 0 o_nonblock)
  | answered flags ↦ os.set_flags fd (bit_or flags o_nonblock)
]

abbrev pub minport : ℕ
minport = 1024

abbrev pub maxport : ℕ
maxport = 51023

-- The port after `port`, which is an `unsigned short`.
abbrev pub next_port : ℕ → ℕ
next_port port =
    let q = (port + 1) % 2 ^ 16 in if ltb q minport || ltb maxport q then minport else q

-- The loop over `bind`: the error where one other than EADDRINUSE comes, and the port then stored in
-- the address. `remaining` counts down, and `i` is the number of rounds made.
unfoldable pub bind_loop : (ℕ → ℕ → Reply) → ℕ → ℕ → ℕ → Option ℕ × ℕ
bind_loop bind zero i port = (none, port)
bind_loop bind (suc remaining) i port = elim (bind i (next_port port)) [
  | answered _ ↦ (none, next_port port)
  | failed e ↦
      if e == eaddrinuse
      then bind_loop bind remaining (i + 1) (next_port port)
      else (some e, next_port port)
]

-- `ephemeral_connect(sock, dest, src)`: its answer, and the source address, whose port it changes.
unfoldable pub ephemeral_connect : Os → Option SockAddr → Reply × Option SockAddr
ephemeral_connect os none = (os.connect, none)
ephemeral_connect os (some src) =
    let (err, port) = bind_loop os.bind 49999 0 src.port_number in
    (elim err [ none ↦ os.connect | some e ↦ failed e ], some (record src { port_number = port }))

-- The end of `connect`, once the socket exists and its connection is made or being made.
abbrev pub watch_control : Os → Pipe → ℕ → Outcome (ℕ × Pipe)
watch_control os p sock =
    let q = record p { cfd = some sock; log = added sock (pollin + pollout) ∷ p.log } in
    if os.add_fd sock == 0
    then (schedule os (record q { iline_full = false }) (clock_add os.now (5 * hertz)) >>= λ r.
        returned (0, r))
    else returned (os.add_fd sock, q)

-- `connect`, from the answer of `ephemeral_connect` on.
abbrev pub connect_tried : Os → Pipe → ℕ → Reply → Outcome (ℕ × Pipe)
connect_tried os p sock (failed e) =
    if e == einprogress
    then watch_control os (record p { cfd_connecting = true }) sock
    else returned (e, note p (closed sock))
connect_tried os p sock (answered _) = watch_control os (record p { cfd_connecting = false }) sock

-- `connect`, from the answer of `setNonblocking` on.
abbrev pub connect_nonblocking : Os → Pipe → ℕ → Reply → Outcome (ℕ × Pipe)
connect_nonblocking os p sock (failed e) = returned (e, note p (closed sock))
connect_nonblocking os p sock (answered _) =
    let tried = ephemeral_connect os p.local_addr in
    connect_tried os (record p { local_addr = tried.1 }) sock tried.0

-- `connect(hostname, port)`
unfoldable pub connect : Os → Pipe → List ℕ → Outcome (ℕ × Pipe)
connect os p hostname =
    let q = init p p.bytes_per_sec p.local_addr in
    elim (os.lookup hostname) [
      | none ↦ returned (enoent, q)
      | some _ ↦ elim os.socket [
        | failed e ↦ returned (e, q)
        | answered sock ↦
            connect_nonblocking os (note q (opened sock)) sock (set_nonblocking os sock)
      ]
    ]
