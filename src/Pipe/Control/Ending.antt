-- ===== src/Pipe/Control/Ending.antt =====
-- dkftpbench-0.45/ftp_client_pipe.cc: the handler of the control connection ends.
use c10kcode.Common.{
  ℕ, ◌+◌, ◌&&◌, ◌||◌, not, ◌⊎◌, inl, inr, Option, none, some, arith, ◌==◌, if◌then◌else◌, if_both,
  ewouldblock, einprogress, epipe, List, Option-cases,
}
use c10kcode.CText.{ℤ}
use c10kcode.Nbbio.{Nbbio, bytes_used, flush_to, fill_from, is_empty}
use c10kcode.Nbbio.Transfer.{ReadsAtMost, WritesAtMost, Flushed, fill_from_lem, flush_to_lem}
use c10kcode.FtpProto.{is_quit, is_port_ready}
use c10kcode.Pipe.{
  Pipe, Os, returned, ◌>>=◌, note, opened, has, pollin, pollout, pollerr, pollhup, kickstarted,
  Reply, failed, answered, Reply-cases, connect_result,
}
use c10kcode.Pipe.Ephemeral.{set_nonblocking, ephemeral_connect}
use c10kcode.Pipe.Control.{
  service, check_control, fill_input, flush_output, flushed, connect_data, open_data, after_lines,
  notify_control,
}
use c10kcode.Pipe.Control.Service.{IsSound, Ends, Ends-bind}
use c10kcode.Pipe.Control.Loop.{Served, Settled, service-Served}

module _ (k : ℤ) where
  -- The pipe to go on with, where there is one, has valid buffers.
  abbrev GoesOn : ℕ ⊎ Pipe → Type 0
  GoesOn (inl e) = Unit {0}
  GoesOn (inr q) = IsSound k q

  connect_result-IsSound :
      (p q : Pipe) (fd : ℕ) (r : Reply)
      → IsSound k p
      → IsSound k q
      → GoesOn (connect_result p q fd r)
  connect_result-IsSound p q fd (failed e) v w = tt
  connect_result-IsSound p q fd (answered e) v w =
      if_both GoesOn (e == einprogress) _ _
        (λ h. record { input = v.input; output = v.output; depth = v.depth })
        (λ h. if_both GoesOn (e == 0) _ _ (λ h. w) (λ h. tt))

  flushed-Served :
      (p : Pipe) (fd : ℕ) (r : Option (ℕ × List ℕ × Nbbio))
      → IsSound k p
      → Flushed p.obuf r
      → Ends (Served k) (flushed p fd r)
  flushed-Served p fd none v h = h
  flushed-Served p fd (some (err, bytes, b)) v (_, valid) =
      if_both (Served k) (err == 0) _ _
        (λ e. record { input = v.input; output = valid; depth = v.depth })
        (λ e.
          if_both (Served k) (err == ewouldblock) _ _
            (λ e. record { input = v.input; output = valid; depth = v.depth })
            (λ e. record { input = v.input; output = valid; depth = v.depth }))

  module _ (os : Os) (reads : ReadsAtMost os.os_read) (writes : WritesAtMost os.os_write) where
    check_control-IsSound :
        (p : Pipe) (fd revents : ℕ) → IsSound k p → GoesOn (check_control os p fd revents)
    unfolding check_control
    check_control-IsSound p fd revents v =
        if_both GoesOn (p.cfd_connecting && has pollout revents && not (has kickstarted revents)) _
          _
          (λ e.
            connect_result-IsSound p _ fd (os.sock_error fd) v
              (record { input = v.input; output = v.output; depth = v.depth }))
          (λ e. v)

    fill_input-IsSound :
        (p : Pipe) (fd revents : ℕ) → IsSound k p → IsSound k (fill_input os p fd revents).1
    unfolding fill_input
    fill_input-IsSound p fd revents v =
        let (_, valid) = fill_from_lem os.os_read reads p.ibuf v.input in
        let sound = λ (q : Option ℕ × Pipe). IsSound k q.1 in
        if_both sound (has pollin revents) _ _
          (λ e.
            if_both sound ((fill_from os.os_read p.ibuf).0 == 0) _ _
              (λ e. record { input = valid; output = v.output; depth = v.depth })
              (λ e.
                if_both sound ((fill_from os.os_read p.ibuf).0 == ewouldblock) _ _
                  (λ e. record { input = valid; output = v.output; depth = v.depth })
                  (λ e. record { input = valid; output = v.output; depth = v.depth })))
          (λ e. v)

    flush_output-IsSound :
        (p : Pipe) (fd : ℕ) → IsSound k p → Ends (Served k) (flush_output os p fd)
    unfolding flush_output
    flush_output-IsSound p fd v =
        if_both (Ends (Served k)) p.cfd_connecting _ _ (λ e. v)
          (λ e.
            flushed-Served p fd (flush_to os.os_write p.obuf) v
              (flush_to_lem os.os_write writes p.obuf v.output))

    connect_data-Settled : (p : Pipe) (sock : ℕ) → IsSound k p → Settled k (connect_data os p sock)
    connect_data-Settled p sock v =
        if_both (Settled k) (os.add_fd sock == 0) _ _
          (λ e. elim (Reply-cases (ephemeral_connect os p.local_addr).0) [
            | inl (err, h) ↦ rw h (
                if_both (Settled k) (err == einprogress) _ _
                  (λ b. (record { input = v.input; output = v.output; depth = v.depth }))
                  (λ b. (record { input = v.input; output = v.output; depth = v.depth })))
            | inr (n, h) ↦ rw h (record { input = v.input; output = v.output; depth = v.depth })
          ])
          (λ e. (record { input = v.input; output = v.output; depth = v.depth }))

    open_data-Settled : (p : Pipe) → IsSound k p → Settled k (open_data os p)
    unfolding open_data
    open_data-Settled p v = elim (Option-cases (is_port_ready p.proto).0) [
      | inl h ↦ rw (open_data, h) (record { input = v.input; output = v.output; depth = v.depth })
      | inr (address, h) ↦ elim (Reply-cases os.socket) [
        | inl (e, h') ↦
            rw (open_data, h, h') (record { input = v.input; output = v.output; depth = v.depth })
        | inr (sock, h') ↦ elim (Reply-cases (set_nonblocking os sock)) [
          | inl (e, h'') ↦
              rw (open_data, h, h', h'')
                (record { input = v.input; output = v.output; depth = v.depth })
          | inr (n, h'') ↦
              rw (open_data, h, h', h'')
                (connect_data-Settled
                  (note (record p { proto = (is_port_ready p.proto).1 }) (opened sock)) sock
                  (record { input = v.input; output = v.output; depth = v.depth }))
        ]
      ]
    ]

    after_lines-Settled : (p : Pipe) (fd : ℕ) → IsSound k p → Ends (Settled k) (after_lines os fd p)
    unfolding after_lines
    after_lines-Settled p fd v =
        Ends-bind (Served k) (Settled k) (flush_output os p fd) _ (flush_output-IsSound p fd v) rest
      where
        rest :
            (r : Option ℕ × Pipe)
            → IsSound k r.1
            → Ends (Settled k) (elim r.0 [
              | some e ↦ returned (e, r.1)
              | none ↦ returned (
                  if is_empty r.1.obuf && is_quit r.1.proto then (epipe, r.1) else open_data os r.1)
            ])
        rest (some e, q) w = w
        rest (none, q) w =
            if_both (Settled k) (is_empty q.obuf && is_quit q.proto) _ _ (λ e. w)
              (λ e. open_data-Settled q w)

    lines-Settled :
        (fd : ℕ) (r : Option ℕ × Pipe)
        → IsSound k r.1
        → Ends (Settled k) (elim r.0 [ some e ↦ returned (e, r.1) | none ↦ after_lines os fd r.1 ])
    lines-Settled fd (some e, q) v = v
    lines-Settled fd (none, q) v = after_lines-Settled q fd v

    filled-Settled :
        (fd : ℕ) (r : Option ℕ × Pipe)
        → IsSound k r.1
        → Ends (Settled k) (elim r.0 [
          | some e ↦ returned (e, r.1)
          | none ↦ service (bytes_used r.1.ibuf + 3) 0 0 r.1 >>= λ s. elim s.0 [
            | some e ↦ returned (e, s.1)
            | none ↦ after_lines os fd s.1
          ]
        ])
    filled-Settled fd (some e, q) v = v
    filled-Settled fd (none, q) v =
        Ends-bind (Served k) (Settled k) (service (bytes_used q.ibuf + 3) 0 0 q) _
          (service-Served k _ 0 0 q v (omega arith)) (lines-Settled fd)

    checked-Settled :
        (p : Pipe) (fd revents : ℕ) (c : ℕ ⊎ Pipe)
        → IsSound k p
        → GoesOn c
        → Ends (Settled k) (elim c [
          | inl e ↦ returned (e, p)
          | inr q ↦ elim (fill_input os q fd revents).0 [
            | some e ↦ returned (e, (fill_input os q fd revents).1)
            | none ↦
                service
                  (bytes_used (fill_input os q fd revents).1.ibuf + 3)
                  0
                  0
                  (fill_input os q fd revents).1
                >>= λ s. elim s.0 [ some e ↦ returned (e, s.1) | none ↦ after_lines os fd s.1 ]
          ]
        ])
    checked-Settled p fd revents (inl e) v w = v
    checked-Settled p fd revents (inr q) v w =
        filled-Settled fd (fill_input os q fd revents) (fill_input-IsSound q fd revents w)

    -- The handler of the control connection runs no loop for ever: it always comes to an end within the
    -- fuel that it is given, and the indices of both buffers stay inside them, whatever the server has
    -- sent and the system answers, as long as `read` gives no more bytes than it is asked for and
    -- `write` takes no more than it is given.
    pub notify_control-Ends :
        (p : Pipe) (fd revents : ℕ)
        → IsSound k p
        → Ends (Settled k) (notify_control os p fd revents)
    unfolding notify_control
    notify_control-Ends p fd revents v =
        if_both (Ends (Settled k)) (has pollerr revents || has pollhup revents) _ _ (λ e. v)
          (λ e.
            checked-Settled p fd revents (check_control os p fd revents) v
              (check_control-IsSound p fd revents v))
