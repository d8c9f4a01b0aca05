-- ===== src/Pipe.antt =====
-- dkftpbench-0.45/ftp_client_pipe.h and ftp_client_pipe.cc: the connections of an FTP client. The
-- answers of the operating system, of the poller, of the scheduler's memory and of the application
-- during one call are the record `Os`; what a call does outside the object is added to `log`, the
-- newest first. A descriptor of -1 is `none`; `timer` is this client's entry in the scheduler, whose
-- `skedIndex` is 0 where it is `none`.
pub mod Ephemeral
pub mod Data
pub mod Control
pub mod Notify
pub mod Requests
pub mod Wake
pub mod Closing
pub mod Connecting
pub mod Failure
pub mod Depth
pub mod Reentry
mod Tests
use c10kcode.Common.{
  ℕ, suc, ◌+◌, ◌*◌, ◌/◌, ◌%◌, Bool, true, false, ◌&&◌, not, Option, none, some, List, [], ◌∷◌, ◌==◌,
  if◌then◌else◌, ◌≡◌, refl, ap, ◌⊎◌, inl, inr, einprogress,
}
use c10kcode.CText.{ℤ, pos, negsuc, int_eq}
use c10kcode.Eclock.{hertz}
use c10kcode.Nbbio.{Nbbio, ReadReply, WriteReply}
use c10kcode.Nbbio
use c10kcode.FtpProto.{Proto, SockAddr, start}
use c10kcode.FtpProto

-- `state_t`
pub data State : Type 0 where
  idle getting sleeping putting : State

-- What a call does to descriptors and to the application: `unready` is clearReadiness, `transfer`
-- handle_data_io and `told` ftpCmdDone.
pub data Effect : Type 0 where
  opened : ℕ → Effect
  added : ℕ → ℕ → Effect
  masked : ℕ → ℕ → Effect
  unready : ℕ → ℕ → Effect
  removed : ℕ → Effect
  closed : ℕ → Effect
  sent : List ℕ → Effect
  transfer : ℕ → ℕ → Effect
  told : ℕ → ℤ → Effect

-- The members, without `m_`; `local_addr` is what m_local_addr points to.
pub record Pipe : Type 0 where
  pub state : State
  pub cfd : Option ℕ
  pub cfd_connecting : Bool
  pub dfd : Option ℕ
  pub dfd_connecting : Bool
  pub obuf : Nbbio
  pub ibuf : Nbbio
  pub iline : ℕ → ℕ
  pub iline_full : Bool
  pub bytes_per_tick : ℕ
  pub bytes_per_sec : ℕ
  pub bytes_unslept : ℕ
  pub dfd_events : ℕ
  pub wakeup : ℕ
  pub in_cmd_done : ℤ
  pub local_addr : Option SockAddr
  pub proto : Proto
  pub timer : Option ℕ
  pub log : List Effect

-- A system call fails with an `errno`, or gives a number.
pub data Reply : Type 0 where
  failed : ℕ → Reply
  answered : ℕ → Reply

-- `now` is what `eclock` gives; `sock_error fd` what getsockopt gives for SO_ERROR; `bind i port` the
-- answer to the bind after `i` others; `add_fd` and `set_mask` are the codes of the poller;
-- `data_io` is handle_data_io; `sked_ok` tells whether the scheduler finds the memory for an entry.
pub record Os : Type 0 where
  pub now : ℕ
  pub sock_error : ℕ → Reply
  pub socket : Reply
  pub get_flags : ℕ → Reply
  pub set_flags : ℕ → ℕ → Reply
  pub bind : ℕ → ℕ → Reply
  pub connect : Reply
  pub lookup : List ℕ → Option ℕ
  pub os_read : ℕ → ℕ → ReadReply
  pub os_write : ℕ → ℕ → WriteReply
  pub close_ok : ℕ → Bool
  pub add_fd : ℕ → ℕ
  pub set_mask : ℕ → ℕ → ℕ
  pub data_io : ℕ → ℕ → ℕ → ℤ
  pub sked_ok : Bool

-- How a call ends: an assertion fails or `exit` is called, the behaviour is undefined in C, a loop
-- runs out of fuel, or it returns.
pub data Outcome {ℓ} (A : Type ℓ) : Type ℓ where
  aborted : Outcome A
  undefined : Outcome A
  unfinished : Outcome A
  returned : A → Outcome A

infixl 5 ◌>>=◌
abbrev pub ◌>>=◌ {ℓ κ} : {A : Type ℓ} {B : Type κ} → Outcome A → (A → Outcome B) → Outcome B
aborted >>= f = aborted
undefined >>= f = undefined
unfinished >>= f = unfinished
returned a >>= f = f a

abbrev answer_or {ℓ} : {A : Type ℓ} → A → Outcome A → A
answer_or a (returned b) = b
answer_or a _ = a

pub returned-injective {ℓ} : {A : Type ℓ} (a b : A) → returned a ≡ returned b → a ≡ b
returned-injective a b e = ap (answer_or a) e

abbrev pub from_proto {ℓ} : {A : Type ℓ} → FtpProto.Outcome A → Outcome A
from_proto FtpProto.Outcome.aborted = aborted
from_proto FtpProto.Outcome.stray = undefined
from_proto (FtpProto.Outcome.returned a) = returned a

-- POLLIN, POLLOUT, POLLERR, POLLHUP and KICKSTART, of which `revents` is a sum.
abbrev pub pollin : ℕ
pollin = 1

abbrev pub pollout : ℕ
pollout = 4

abbrev pub pollerr : ℕ
pollerr = 8

abbrev pub pollhup : ℕ
pollhup = 16

abbrev pub kickstarted : ℕ
kickstarted = 32768

-- `revents & flag`, where `flag` is one bit.
abbrev pub has : ℕ → ℕ → Bool
has flag revents = revents / flag % 2 == 1

abbrev pub is_some : Option ℕ → Bool
is_some none = false
is_some (some n) = true

abbrev pub note : Pipe → Effect → Pipe
note p e = record p { log = e ∷ p.log }

-- What getsockopt says of a connection that is being made: an error to return, or the pipe to go on
-- with, which is `connected` where the connection is made.
abbrev pub connect_result : Pipe → Pipe → ℕ → Reply → ℕ ⊎ Pipe
connect_result p connected fd (failed e) = inl e
connect_result p connected fd (answered e) =
    if e == einprogress
    then inr (note p (unready fd pollout))
    else if e == 0
    then inr connected
    else inl e

pub Reply-cases : (r : Reply) → ((e : ℕ) × (r ≡ failed e)) ⊎ ((n : ℕ) × (r ≡ answered n))
Reply-cases (failed e) = inl (e, refl)
Reply-cases (answered n) = inr (n, refl)

-- `m_sked->addClient(this, when)`, whose result is not looked at; it asserts that the client is not
-- scheduled.
abbrev pub schedule : Os → Pipe → ℕ → Outcome Pipe
schedule os p when = elim p.timer [
  | some _ ↦ aborted
  | none ↦ returned (if os.sked_ok then record p { timer = some when } else p)
]

-- `m_sked->delClient(this)`
abbrev pub cancel : Pipe → Pipe
cancel p = record p { timer = none }

-- `init`, with the local address and the rate as arguments. The line buffer's `iline_full`, the
-- unslept bytes, the wake-up time and the scheduler's entry are left as they are.
unfoldable pub init : Pipe → ℕ → Option SockAddr → Pipe
init p max_bytes_per_sec local_addr = record p {
  local_addr = local_addr;
  proto = start p.proto;
  ibuf = Nbbio.init p.ibuf;
  obuf = Nbbio.init p.obuf;
  in_cmd_done = pos 0;
  cfd = none;
  dfd = none;
  iline = λ i. if i == 0 then 0 else p.iline i;
  cfd_connecting = false;
  dfd_connecting = false;
  bytes_per_sec = max_bytes_per_sec;
  bytes_per_tick = max_bytes_per_sec / hertz;
  dfd_events = 0;
  state = idle;
}

-- The calls `m_poller->del(fd); close(fd);`, where there is a descriptor.
abbrev pub drop_fd : Option ℕ → List Effect → List Effect
drop_fd none log = log
drop_fd (some fd) log = closed fd ∷ removed fd ∷ log

-- What `close` returns, where it is called.
abbrev pub close_result : Os → Option ℕ → ℤ
close_result os none = pos 0
close_result os (some fd) = if os.close_ok fd then pos 0 else negsuc 0

-- `shutdown()`
unfoldable pub shutdown : Os → Pipe → ℤ × Pipe
shutdown os p = if not (is_some p.cfd) && not (is_some p.dfd) then (pos 0, p) else (
  if int_eq (close_result os p.cfd) (pos 0) then close_result os p.dfd else close_result os p.cfd,
  record p {
    timer = none;
    state = idle;
    cfd_connecting = false;
    dfd_connecting = false;
    dfd = none;
    cfd = none;
    log = drop_fd p.dfd (drop_fd p.cfd p.log);
  },
)

-- What the application does in `ftpCmdDone`, to this object: the error, the status and its text.
-- The text is `none` where the buffer has not been filled.
abbrev pub App : Type 0
App = ℕ → ℤ → Option (List ℕ) → Pipe → Outcome Pipe

abbrev pub one_less : ℤ → ℤ
one_less (pos ℕ.zero) = negsuc 0
one_less (pos (suc n)) = pos n
one_less (negsuc n) = negsuc (suc n)

-- `call_ftpCmdDone(xerr, status, statusbuf)`
unfoldable pub call_cmd_done : App → Pipe → ℕ → ℤ → Option (List ℕ) → Outcome Pipe
call_cmd_done app p xerr status buf =
    if int_eq p.in_cmd_done (pos 0)
    then (app xerr status buf (record p { in_cmd_done = pos 1; log = told xerr status ∷ p.log })
        >>= λ q. returned (record q { in_cmd_done = one_less q.in_cmd_done }))
    else returned p
