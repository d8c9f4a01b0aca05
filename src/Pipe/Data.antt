-- ===== src/Pipe/Data.antt =====
-- dkftpbench-0.45/ftp_client_pipe.cc: `notifyPollEvent_dfd`, the events of the data connection.
pub mod Throttle
pub mod Fetch
pub mod Held
pub mod Steps
pub mod Rate
use Prim.Native.Nat.{bit_or}
use c10kcode.Common.{
  ℕ, ◌+◌, ◌-◌, ◌*◌, ◌/◌, ◌%◌, ◌^◌, Bool, true, false, ◌&&◌, ◌||◌, not, Option, none, some, ◌∷◌, ltb,
  leb, ◌==◌, if◌then◌else◌, ◌⊎◌, inl, inr, ewouldblock, einprogress, epipe, ealready,
}
use c10kcode.CText.{ℤ, pos, negsuc}
use c10kcode.Eclock.{clock_add, eclock_after, hertz}
use c10kcode.Pipe.{
  Pipe, State, idle, getting, sleeping, putting, Os, Outcome, aborted, undefined, returned, ◌>>=◌,
  failed, answered, note, unready, transfer, closed, removed, schedule, cancel, connect_result, has,
  pollin, pollout, pollhup, kickstarted,
}

abbrev pub is_idle : State → Bool
is_idle idle = true
is_idle _ = false

abbrev pub is_getting : State → Bool
is_getting getting = true
is_getting _ = false

abbrev pub is_sleeping : State → Bool
is_sleeping sleeping = true
is_sleeping _ = false

abbrev pub is_putting : State → Bool
is_putting putting = true
is_putting _ = false

-- Whether the connection has been made: an error to return at once, or the pipe to go on with. The
-- test `(revents & KICKSTART|POLLOUT) == POLLOUT` is that of `revents & KICKSTART` alone.
unfoldable pub check_data : Os → Pipe → ℕ → ℕ → ℕ ⊎ Pipe
check_data os p fd revents =
    if p.dfd_connecting && not (has kickstarted revents)
    then connect_result p (record p { dfd_connecting = false }) fd (os.sock_error fd)
    else inr p

-- Falling asleep where the system is ready before the wake-up time. The assertion on `skedIndex` is
-- that of `addClient` too.
unfoldable pub doze : Os → Pipe → ℕ → Outcome Pipe
doze os p revents =
    if is_getting p.state
      && not (has kickstarted revents || has pollhup revents)
      && eclock_after p.wakeup os.now
    then (schedule os p p.wakeup >>= λ q. returned (record q { state = sleeping }))
    else returned p

-- What a transfer comes to: an end of the connection, an error, or a number of bytes.
pub data Moved : Type 0 where
  hung_up : Pipe → Moved
  broken : Pipe → Moved
  moved : ℕ → Pipe → Moved

-- The application's answer, `nxfer`.
abbrev pub after_io : Pipe → ℕ → ℤ → Moved
after_io p fd (pos n) = if n == 0 then hung_up p else moved n p
after_io p fd (negsuc n) =
    if n + 1 == ewouldblock
    then moved 0 (note p (unready fd (if is_getting p.state then pollin else pollout)))
    else broken p

unfoldable pub move_data : Os → Pipe → ℕ → ℕ → Moved
move_data os p fd revents =
    if is_sleeping p.state
    then moved 0 (record p { dfd_events = bit_or p.dfd_events revents })
    else if (is_getting p.state && has pollin revents)
        || (is_putting p.state && has pollout revents)
    then after_io (note (cancel p) (transfer fd revents)) fd (os.data_io fd revents os.now)
    else if has pollhup revents
    then hung_up p
    else moved 0 p

-- The throttle: from the bytes to sleep for, for how many ticks, and which bytes are left. It is
-- undefined where the C code overflows an `int` or divides by 0.
unfoldable pub sleep_for : ℕ → ℕ → ℕ → Outcome (ℕ × ℕ)
sleep_for bytes_per_sec bytes_per_tick nxfer =
    if leb (2 ^ 31) nxfer
    then undefined
    else if ltb bytes_per_tick 5
    then (if bytes_per_sec == 0 || leb (2 ^ 31) (nxfer * hertz)
        then undefined
        else returned (
          nxfer * hertz / bytes_per_sec,
          nxfer - nxfer * hertz / bytes_per_sec * bytes_per_sec / hertz,
        ))
    else returned (nxfer / bytes_per_tick, nxfer % bytes_per_tick)

-- The end of the handler. A connection that is done is closed.
unfoldable pub finish_data : Os → Moved → ℕ → Outcome (ℕ × Pipe)
finish_data os (hung_up p) fd = returned (
  ealready,
  record p { state = idle; timer = none; dfd = none; log = closed fd ∷ removed fd ∷ p.log },
)
finish_data os (broken p) fd = returned (epipe, p)
finish_data os (moved n p) fd =
    if is_getting p.state
    then (sleep_for p.bytes_per_sec p.bytes_per_tick (n + p.bytes_unslept) >>= λ r.
        returned
          (0, record p { bytes_unslept = r.1; wakeup = clock_add os.now r.0; dfd_events = 0 }))
    else returned (0, p)

-- `notifyPollEvent_dfd(event)`, for an event of the data descriptor `fd`.
unfoldable pub notify_data : Os → Pipe → ℕ → ℕ → Outcome (ℕ × Pipe)
notify_data os p fd revents =
    if is_idle p.state then aborted else elim (check_data os p fd revents) [
      | inl e ↦ returned (e, p)
      | inr q ↦ doze os q revents >>= λ r. finish_data os (move_data os r fd revents) fd
    ]
