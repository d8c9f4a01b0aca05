-- ===== src/Pipe/Control.antt =====
-- dkftpbench-0.45/ftp_client_pipe.cc: `notifyPollEvent_cfd`, the events of the control connection.
pub mod Service
pub mod Loop
pub mod Ending
use c10kcode.Common.{
  ℕ, zero, suc, ◌+◌, Bool, true, false, ◌&&◌, ◌||◌, not, Option, none, some, List, [], ◌∷◌, ◌==◌,
  if◌then◌else◌, length, ◌⊎◌, inl, inr, ewouldblock, einprogress, epipe, ealready,
}
use c10kcode.CText.{ℤ, pos, int_eq}
use c10kcode.Nbbio.{Nbbio, bytes_used, is_empty, readline, flush_to, fill_from}
use c10kcode.Nbbio
use c10kcode.FtpProto.{
  Proto, SockAddr, Line, is_input_ready, is_output_ready, is_quit, is_port_ready, get_status,
  get_output, advance_output,
}
use c10kcode.FtpProto.Replies.{give_input}
use c10kcode.Pipe.{
  Pipe, Os, Outcome, aborted, undefined, unfinished, returned, ◌>>=◌, from_proto, failed, answered,
  note, opened, added, unready, sent, cancel, connect_result, has, pollin, pollout, pollerr,
  pollhup, kickstarted,
}
use c10kcode.Pipe.Data.{is_idle}
use c10kcode.Pipe.Ephemeral.{ephemeral_connect, set_nonblocking}

-- `sizeof(m_iline)`
abbrev pub iline_size : ℕ
iline_size = 501

-- The text of a C string at `i`, up to its NUL; the second argument bounds it.
abbrev pub text_at : (ℕ → ℕ) → ℕ → ℕ → List ℕ
text_at mem zero i = []
text_at mem (suc n) i = if mem i == 0 then [] else mem i ∷ text_at mem n (i + 1)

-- The line buffer as a line: its text, and the bytes behind the NUL.
unfoldable pub line_of : (ℕ → ℕ) → Line
line_of mem = record {
  text = text_at mem iline_size 0;
  stale = λ k. mem (length (text_at mem iline_size 0) + 1 + k);
}

-- Whether the connection has been made: an error to return at once, or the pipe to go on with.
unfoldable pub check_control : Os → Pipe → ℕ → ℕ → ℕ ⊎ Pipe
check_control os p fd revents =
    if p.cfd_connecting && has pollout revents && not (has kickstarted revents)
    then connect_result p (record p { cfd_connecting = false }) fd (os.sock_error fd)
    else inr p

-- Reading what the server has sent: a code to return at once, and the pipe.
unfoldable pub fill_input : Os → Pipe → ℕ → ℕ → Option ℕ × Pipe
fill_input os p fd revents =
    if has pollin revents
    then (let (err, bytes, b) = fill_from os.os_read p.ibuf in
        let q = record p { ibuf = b } in
        if err == 0
        then (none, q)
        else if err == ewouldblock
        then (none, note q (unready fd pollin))
        else (some err, q))
    else (none, p)

-- One round's results: a code to return, or the variables `geterr` and `puterr` and the pipe.
pub data Round : Type 0 where
  stop : ℕ → Pipe → Round
  on : ℕ → ℕ → Pipe → Round

-- `if (!m_iline_full) ...`: the line that may be read.
unfoldable pub read_line : ℕ → ℕ → Pipe → Round
read_line geterr puterr p =
    if p.iline_full
    then on geterr puterr p
    else (let (err, mem, b) = readline p.ibuf p.iline iline_size in
        let q = record p { iline = mem; ibuf = b } in
        if err == 0
        then on 0 puterr (record q { iline_full = true })
        else if err == ewouldblock
        then on err puterr q
        else stop err q)

-- `status = m_proto.getStatus(NULL, 0); if (status) return EALREADY;`
abbrev pub report : ℕ → ℕ → Pipe → Outcome Round
report geterr puterr p = from_proto (get_status p.proto none) >>= λ s.
    returned (if int_eq s.0 (pos 0) then on geterr puterr p else stop ealready p)

-- The line is given to the protocol; it is used up where that succeeds.
abbrev pub give_to : ℕ → ℕ → Pipe → Outcome Round
give_to geterr puterr p = from_proto (give_input p.proto (line_of p.iline)) >>= λ r.
    let q = record p { proto = r.1 } in
    if r.0 == 0
    then report geterr puterr (record q { iline_full = false })
    else if r.0 == ewouldblock
    then report geterr puterr q
    else returned (stop r.0 q)

-- `if (m_iline_full) ...`; an idle pipe's timeout is cancelled.
unfoldable pub give_line : ℕ → ℕ → Pipe → Outcome Round
give_line geterr puterr p =
    if p.iline_full
    then give_to geterr puterr (if is_idle p.state then cancel p else p)
    else returned (on geterr puterr p)

-- `while ((p = m_proto.getOutput(&len)) != NULL) ...`, on fuel
unfoldable pub put_output : ℕ → ℕ → ℕ → Pipe → Outcome Round
unfolding get_output advance_output
put_output zero geterr puterr p = unfinished
put_output (suc fuel) geterr puterr p = elim (get_output p.proto) [
  | none ↦ returned (on geterr puterr p)
  | some text ↦
      let (err, b) = Nbbio.put p.obuf text in
      let q = record p { obuf = b; proto = (advance_output p.proto).1 } in
      if err == 0
      then put_output fuel geterr 0 q
      else returned (if err == ewouldblock then on geterr err p else stop err p)
]

-- One round of the loop over the lines.
unfoldable pub round : ℕ → ℕ → Pipe → Outcome Round
round geterr puterr p = elim (read_line geterr puterr p) [
  | stop e q ↦ returned (stop e q)
  | on g u q ↦ give_line g u q >>= λ r. elim r [
    | stop e q' ↦ returned (stop e q')
    | on g' u' q' ↦ put_output 2 g' u' q'
  ]
]

-- The loop's condition
abbrev pub goes_on : ℕ → ℕ → Pipe → Bool
goes_on geterr puterr p =
    (is_input_ready p.proto && not (geterr == ewouldblock))
    || (is_output_ready p.proto && not (puterr == ewouldblock))

-- The loop over the lines, on fuel: a code to return, or the pipe to go on with.
unfoldable pub service : ℕ → ℕ → ℕ → Pipe → Outcome (Option ℕ × Pipe)
service zero geterr puterr p = unfinished
service (suc fuel) geterr puterr p =
    if goes_on geterr puterr p
    then (round geterr puterr p >>= λ r. elim r [
      | stop e q ↦ returned (some e, q)
      | on g u q ↦ service fuel g u q
    ])
    else returned (none, p)

-- What the flush came to; `none` is where it has not ended.
abbrev pub flushed : Pipe → ℕ → Option (ℕ × List ℕ × Nbbio) → Outcome (Option ℕ × Pipe)
flushed p fd none = unfinished
flushed p fd (some (err, bytes, b)) =
    let q = note (record p { obuf = b }) (sent bytes) in
    returned (
      if err == 0
      then (none, q)
      else if err == ewouldblock
      then (none, note q (unready fd pollout))
      else (some err, q))

-- Writing what is to be sent: a code to return, or the pipe to go on with.
unfoldable pub flush_output : Os → Pipe → ℕ → Outcome (Option ℕ × Pipe)
flush_output os p fd =
    if p.cfd_connecting then returned (none, p) else flushed p fd (flush_to os.os_write p.obuf)

-- The connection to the address that the server has named, once the socket is nonblocking.
abbrev pub connect_data : Os → Pipe → ℕ → ℕ × Pipe
connect_data os p sock =
    let q = record p {
      dfd_connecting = true;
      dfd = some sock;
      log = added sock (pollin + pollout) ∷ p.log;
    } in
    let tried = ephemeral_connect os q.local_addr in
    let r = record q { local_addr = tried.1 } in
    if os.add_fd sock == 0
    then elim tried.0 [
      | failed e ↦ if e == einprogress then (0, r) else (e, record r { dfd_connecting = false })
      | answered _ ↦ (0, record r { dfd_connecting = false })
    ]
    else (os.add_fd sock, q)

-- `if (m_proto.isPortReady(&address)) ...`
unfoldable pub open_data : Os → Pipe → ℕ × Pipe
unfolding is_port_ready
open_data os p =
    let q = record p { proto = (is_port_ready p.proto).1 } in
    elim (is_port_ready p.proto).0 [
      | none ↦ (0, q)
      | some address ↦ elim os.socket [
        | failed e ↦ (e, q)
        | answered sock ↦
            let s = note q (opened sock) in
            elim (set_nonblocking os sock) [
              | failed e ↦ (e, s)
              | answered _ ↦ connect_data os s sock
            ]
      ]
    ]

-- What follows the loop.
unfoldable pub after_lines : Os → ℕ → Pipe → Outcome (ℕ × Pipe)
after_lines os fd p = flush_output os p fd >>= λ r. elim r.0 [
  | some e ↦ returned (e, r.1)
  | none ↦
      returned (if is_empty r.1.obuf && is_quit r.1.proto then (epipe, r.1) else open_data os r.1)
]

-- `notifyPollEvent_cfd(event)`, for an event of the control descriptor `fd`. The fuel is one round
-- for each byte in the buffer and three more.
unfoldable pub notify_control : Os → Pipe → ℕ → ℕ → Outcome (ℕ × Pipe)
notify_control os p fd revents =
    if has pollerr revents || has pollhup revents
    then returned (epipe, p)
    else elim (check_control os p fd revents) [
      | inl e ↦ returned (e, p)
      | inr q ↦
          let (err, s) = fill_input os q fd revents in
          elim err [
            | some e ↦ returned (e, s)
            | none ↦ service (bytes_used s.ibuf + 3) 0 0 s >>= λ r. elim r.0 [
              | some e ↦ returned (e, r.1)
              | none ↦ after_lines os fd r.1
            ]
          ]
    ]
