-- ===== src/Pipe/Notify.antt =====
-- dkftpbench-0.45/ftp_client_pipe.cc: `notifyPollEvent` and `skedCallback`.
use c10kcode.Common.{
  ℕ, ◌+◌, Bool, false, ◌&&◌, ◌||◌, not, Option, none, some, List, [], ◌∷◌, ◌==◌, if◌then◌else◌,
  epipe, einval, ealready,
}
use c10kcode.CText.{ℤ, pos, int_eq}
use c10kcode.Eclock.{eclock_after}
use c10kcode.Nbbio.{is_empty, is_full}
use c10kcode.FtpProto.{get_status}
use c10kcode.FtpProto.Replies.{ok2}
use c10kcode.Pipe.{
  Pipe, idle, getting, sleeping, putting, Os, App, Outcome, aborted, returned, ◌>>=◌, from_proto,
  masked, pollin, pollout, drop_fd, is_some, shutdown, call_cmd_done, kickstarted,
}
use c10kcode.Pipe.Data.{is_getting, is_sleeping, is_putting, notify_data}
use c10kcode.Pipe.Control.{notify_control}

abbrev pub is_fd : Option ℕ → ℕ → Bool
is_fd none fd = false
is_fd (some n) fd = n == fd

-- The event's handler, by its descriptor; `none` is where it is neither connection's.
unfoldable pub handle : Os → Pipe → ℕ → ℕ → Option (Outcome (ℕ × Pipe))
handle os p fd revents =
    if is_fd p.dfd fd
    then some (notify_data os p fd revents)
    else if is_fd p.cfd fd
    then some (notify_control os p fd revents)
    else none

-- `cevents` and `devents`
abbrev pub control_mask : Pipe → ℕ
control_mask p = (if is_full p.ibuf then 0 else pollin) + (if is_empty p.obuf then 0 else pollout)

abbrev pub data_mask : Pipe → ℕ
data_mask p =
    if is_getting p.state || (is_sleeping p.state && p.dfd_events == 0)
    then pollin
    else if is_putting p.state
    then pollout
    else 0

-- `m_poller->setMask(fd, events)`, where there is a descriptor; an error ends the program.
abbrev pub ask_for : Os → Option ℕ → ℕ → Pipe → Outcome Pipe
ask_for os none mask p = returned p
ask_for os (some fd) mask p =
    if os.set_mask fd mask == 0
    then returned (record p { log = masked fd mask ∷ p.log })
    else aborted

unfoldable pub update_masks : Os → Pipe → Outcome Pipe
update_masks os p = ask_for os p.cfd (control_mask p) p >>= λ q. ask_for os q.dfd (data_mask q) q

-- The pipe without the data connection of a command that has failed with this status.
abbrev pub without_failed : Pipe → ℤ → Pipe
without_failed p status =
    if not (int_eq status (pos 0)) && not (ok2 status) && is_some p.dfd
    then record p { dfd_connecting = false; dfd = none; log = drop_fd p.dfd p.log }
    else p

-- The application is told where an error has come, or where a status has and no data connection is
-- open.
abbrev pub tell_status : App → Pipe → ℕ → ℤ × Option (List ℕ) → Outcome (ℕ × Pipe)
tell_status app p xerr s =
    let q = without_failed p s.0 in
    if not (xerr == 0) || (not (int_eq s.0 (pos 0)) && not (is_some q.dfd))
    then (call_cmd_done app q xerr s.0 s.1 >>= λ r. returned (0, r))
    else returned (0, q)

-- The end of `notifyPollEvent`, once something is done.
unfoldable pub tell_app : App → Pipe → ℕ → Outcome (ℕ × Pipe)
tell_app app p xerr = from_proto (get_status p.proto (some 256)) >>= tell_status app p xerr

-- What follows the handler.
unfoldable pub conclude : Os → App → ℕ → Pipe → Outcome (ℕ × Pipe)
conclude os app xerr p = update_masks os p >>= λ q.
    if xerr == 0 then returned (0, q) else tell_app app q (if xerr == ealready then 0 else xerr)

-- `notifyPollEvent`, from the handler's result on.
abbrev pub after_handler : Os → App → Pipe → Option (Outcome (ℕ × Pipe)) → Outcome (ℕ × Pipe)
after_handler os app p none = returned (einval, p)
after_handler os app p (some result) = result >>= λ r. conclude os app r.0 r.1

-- `notifyPollEvent(event)`
unfoldable pub notify : Os → App → Pipe → Option ℕ → ℕ → Outcome (ℕ × Pipe)
notify os app p none revents = aborted
notify os app p (some fd) revents = after_handler os app p (handle os p fd revents)

abbrev pub shutdown_text : List ℕ
shutdown_text = b's' ∷ b'h' ∷ b'u' ∷ b't' ∷ b'd' ∷ b'o' ∷ b'w' ∷ b'n' ∷ []

-- `shutdownAndNotify()`
unfoldable pub shutdown_and_notify : Os → App → Pipe → Outcome Pipe
shutdown_and_notify os app p =
    call_cmd_done app (shutdown os p).1 epipe (pos 0) (some shutdown_text)

-- `skedCallback(now)`
unfoldable pub sked_callback : Os → App → Pipe → ℕ → Outcome Pipe
sked_callback os app p now = elim p.state [
  | idle ↦ shutdown_and_notify os app p
  | getting ↦ shutdown_and_notify os app p
  | sleeping ↦
      if p.dfd_events == 0
      then returned (record p { state = getting })
      else if eclock_after p.wakeup now
      then aborted
      else (notify os app (record p { state = getting; dfd_events = 0; wakeup = now }) p.dfd
            p.dfd_events
          >>= λ r. if r.0 == 0 then returned r.1 else shutdown_and_notify os app r.1)
  | putting ↦ aborted
]

-- `kickstart()`
unfoldable pub kickstart : Os → App → Pipe → Outcome (ℕ × Pipe)
kickstart os app p = notify os app p p.cfd (pollout + kickstarted)
