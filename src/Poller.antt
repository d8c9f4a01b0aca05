-- ===== src/Poller.antt =====
-- dkftpbench-0.45/Poller.h and Poller.cc: the pipe by which another thread wakes a poller up. The rest of
-- Poller is its interface.
pub mod Draining
mod Tests
use c10kcode.Common.{
  ℕ, zero, suc, ◌+◌, ◌*◌, Bool, true, false, Option, none, some, List, [], ◌∷◌, ◌==◌, ◌||◌, not,
  if◌then◌else◌, length,
}
use c10kcode.Nbbio.{ReadReply, got, WriteReply, took}
use c10kcode.Pipe.{Outcome, aborted, unfinished, returned, ◌>>=◌, has, pollin, pollerr}

-- What is asked of the operating system and of the poller, of `add` and `clearReadiness`.
pub data WakeEffect : Type 0 where
  closed : ℕ → WakeEffect
  watched : ℕ → ℕ → WakeEffect
  cleared : ℕ → ℕ → WakeEffect

-- The pipe's two ends, with `none` for -1, whether its client has an owner, and the effects, the last
-- one first.
pub record WakePipe : Type 0 where
  pub read_end : Option ℕ
  pub write_end : Option ℕ
  pub owned : Bool
  pub effects : List WakeEffect

-- `init()`
unfoldable pub init : WakePipe → WakePipe
init p = record p { read_end = none; write_end = none; owned = false }

-- What `pipe` answers
pub data PipeReply : Type 0 where
  refused : ℕ → PipeReply
  made : ℕ → ℕ → PipeReply

-- `initWakeUpPipe()`; `set_nonblocking fd` is 0 where fcntl succeeds and the error otherwise.
unfoldable pub init_wake_up_pipe : PipeReply → (ℕ → ℕ) → WakePipe → ℕ × WakePipe
init_wake_up_pipe (refused e) set_nonblocking p = (e, p)
init_wake_up_pipe (made r w) set_nonblocking p =
    let q = record p { read_end = some r; write_end = some w } in
    if not (set_nonblocking r == 0)
    then (set_nonblocking r, q)
    else if not (set_nonblocking w == 0)
    then (set_nonblocking w, q)
    else (0, record q { owned = true; effects = watched r pollin ∷ q.effects })

-- `close` of a descriptor, of -1 nothing
abbrev pub close_end : Option ℕ → List WakeEffect → List WakeEffect
close_end none l = l
close_end (some fd) l = closed fd ∷ l

-- `shutdown()`
unfoldable pub shutdown : WakePipe → WakePipe
shutdown p = elim p.read_end [
  | none ↦ p
  | some r ↦ record p {
    read_end = none;
    write_end = none;
    owned = false;
    effects = close_end p.write_end (closed r ∷ p.effects);
  }
]

-- `wakeUp()`, given what `write` answers; `errno` is what was there before.
unfoldable pub wake_up : WriteReply → ℕ → ℕ
wake_up (took n) errno = if n == 1 then 0 else errno
wake_up (WriteReply.failed e) errno = e

-- The bytes that a read has taken
abbrev pub amount : ReadReply → ℕ
amount (got bytes) = length bytes
amount (ReadReply.failed e) = 0

-- The loop of `WakeUpClient::notifyPollEvent`, on fuel: how many reads it makes. `reads i n` is the
-- answer to a read of `n` bytes after `i` others.
unfoldable pub drain : (ℕ → ℕ → ReadReply) → ℕ → ℕ → Outcome ℕ
drain reads zero i = unfinished
drain reads (suc fuel) i =
    let rest = drain reads fuel (suc i) in
    if amount (reads i 64) == 64 then rest else returned (suc i)

-- `WakeUpClient::notifyPollEvent`, which returns 0: how many reads it makes, and the pipe.
unfoldable pub notify_wake_up : (ℕ → ℕ → ReadReply) → ℕ → ℕ → ℕ → WakePipe → Outcome (ℕ × WakePipe)
notify_wake_up reads fuel fd revents p =
    if has pollerr revents
    then aborted
    else if has pollin revents
    then (drain reads fuel 0 >>= λ n.
        returned (n, record p { effects = cleared fd pollin ∷ p.effects }))
    else returned (0, p)
