-- ===== src/Pipe/Connecting.antt =====
-- dkftpbench-0.45/ftp_client_pipe.cc: what `connect` leaves behind, on every branch.
use c10kcode.Common.{ℕ, ◌+◌, ◌*◌, ◌≡◌, ◌≢◌, ◌⊎◌, true, Option, none, some, List, [], ◌∷◌, enoent}
use c10kcode.Eclock.{clock_add, hertz}
use c10kcode.Pipe.{
  Pipe, idle, Os, Outcome, returned, failed, answered, Effect, opened, added, closed, pollin,
  pollout,
}

-- What `connect` may come to, from `p`, with the code `e`: no socket has been opened; the socket that
-- was opened is closed again; the poller refuses it, and it stays the control descriptor; or the
-- poller watches it, and the five seconds for the server's answer run.
pub data Connects (os : Os) (p : Pipe) (e : ℕ) (q : Pipe) : Type 0 where
  unopened :
      (e ≡ enoent) ⊎ (os.socket ≡ failed e) → q.cfd ≡ none → q.log ≡ p.log → Connects os p e q
  reclosed :
      (s : ℕ)
      → os.socket ≡ answered s
      → q.cfd ≡ none
      → q.log ≡ closed s ∷ opened s ∷ p.log
      → Connects os p e q
  unwatched :
      (s : ℕ)
      → os.socket ≡ answered s
      → q.cfd ≡ some s
      → q.log ≡ added s (pollin + pollout) ∷ opened s ∷ p.log
      → e ≢ 0
      → e ≡ os.add_fd s
      → Connects os p e q
  watched :
      (s : ℕ)
      → os.socket ≡ answered s
      → q.cfd ≡ some s
      → q.log ≡ added s (pollin + pollout) ∷ opened s ∷ p.log
      → e ≡ 0
      → (os.sked_ok ≡ true → q.timer ≡ some (clock_add os.now (5 * hertz)))
      → Connects os p e q

-- The call returns, and the pipe is idle without data connection.
abbrev pub HasConnected : Os → Pipe → Outcome (ℕ × Pipe) → Type 0
HasConnected os p (returned (e, q)) = (q.state ≡ idle) × (q.dfd ≡ none) × Connects os p e q
HasConnected os p _ = ⊥

-- What is known of the pipe between two steps of `connect`.
record IsOpen (p q : Pipe) (s : ℕ) : Type 0 where
  calm : q.state ≡ idle
  no_data : q.dfd ≡ none
  no_control : q.cfd ≡ none
  unscheduled : q.timer ≡ none
  just_opened : q.log ≡ opened s ∷ p.log

-- How many sockets have been opened and not closed again, as far as the log tells: opened ones on the
-- left, closed ones on the right.
abbrev pub opens : List Effect → ℕ
opens [] = 0
opens (opened fd ∷ log) = opens log + 1
opens (_ ∷ log) = opens log

abbrev pub closes : List Effect → ℕ
closes [] = 0
closes (closed fd ∷ log) = closes log + 1
closes (_ ∷ log) = closes log

abbrev pub held : Option ℕ → ℕ
held none = 0
held (some fd) = 1

-- The pipe holds as many descriptors as sockets are open: none is lost.
abbrev pub AllHeld : Pipe → Type 0
AllHeld q = opens q.log ≡ closes q.log + held q.cfd + held q.dfd

-- The same behind a call, of its pipe.
abbrev pub HoldsAll : Outcome (ℕ × Pipe) → Type 0
HoldsAll (returned (e, q)) = AllHeld q
HoldsAll _ = ⊥
