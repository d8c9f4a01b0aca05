-- ===== src/Robouser.antt =====
-- dkftpbench-0.45/robouser.h and robouser.cc: one simulated user. The calls of its connection are the
-- record `Calls`; a user that is not in the table has been deleted, and a call of it is `undefined`.
pub mod Quiet
pub mod Keeping
pub mod Cycle
pub mod Stopping
pub mod Connection
use c10kcode.Common.{
  ℕ, zero, suc, ◌+◌, ◌*◌, ◌<◌, Bool, true, false, ◌&&◌, ◌||◌, not, Option, none, some, List, [],
  ◌∷◌, ◌++◌, ltb, leb, ◌==◌, if◌then◌else◌,
}
use c10kcode.CText.{ℤ, pos, negsuc}
use c10kcode.Eclock.{clock_sub, eclock_after}
use c10kcode.FtpProto.Replies.{ok2}
use c10kcode.FtpProto.{SockAddr}
use c10kcode.Nbbio.{ReadReply, got, failed}
use c10kcode.Pipe.{Pipe, Os, shutdown, Outcome, aborted, undefined, unfinished, returned, ◌>>=◌}
use c10kcode.Pipe
use c10kcode.Platoon.{
  UserState, uninit, connect, connecting, start_type, finish_type, get, getting, stopped, index,
  User, Platoon, wake_up, move_count, put_user,
}

-- The calls of the user's connection, for the user in a slot. They may call the user back.
pub record Calls : Type 0 where
  pub call_connect : Platoon → ℕ → Outcome (ℕ × Platoon)
  pub call_login : Platoon → ℕ → Outcome (ℕ × Platoon)
  pub call_type : Platoon → ℕ → Outcome (ℕ × Platoon)
  pub call_get : Platoon → ℕ → Outcome (ℕ × Platoon)

-- What the platoon's settings, the clock and the scheduler's memory give during one call; `too_slow`
-- compares the rate of some bytes in some ticks with the least rate that is accepted.
pub record World : Type 0 where
  pub now : ℕ
  pub sked_ok : Bool
  pub bytes_per_read : ℕ
  pub max_bytes_per_sec : ℕ
  pub local_addr : ℕ → Option SockAddr
  pub too_slow : ℕ → ℕ → Bool

-- `gotoState(newstate)` of the user `u` in slot `i`, behind the assertion of `countStateChange` on the
-- new state.
abbrev pub moved_to : World → Platoon → ℕ → User → UserState → Outcome Platoon
moved_to w pl i u newstate = move_count pl.in_state (index u.state) (index newstate) >>= λ counts.
    returned (
      wake_up w.sked_ok w.now
        (put_user (record pl { in_state = counts }) i (some (record u { state = newstate }))))

-- That assertion is that the new state is not UNINIT.
abbrev pub goto_state_of : World → Platoon → ℕ → User → UserState → Outcome Platoon
goto_state_of w pl i u uninit = aborted
goto_state_of w pl i u newstate = moved_to w pl i u newstate

-- A call of a user that has been deleted is undefined.
abbrev pub with_user {ℓ} : {A : Type ℓ} → Platoon → ℕ → (User → Outcome A) → Outcome A
with_user pl i f = elim (pl.users i) [ none ↦ undefined | some u ↦ f u ]

unfoldable pub goto_state : World → Platoon → ℕ → UserState → Outcome Platoon
goto_state w pl i newstate = with_user pl i (λ u. goto_state_of w pl i u newstate)

-- `stop()`
unfoldable pub stop : World → Platoon → ℕ → Outcome Platoon
stop w pl i = goto_state w pl i stopped >>= λ q. returned (record q { dead = q.dead ++ (i ∷ []) })

-- `start(usernum)`, of a user that has just been made and is in slot `i`.
unfoldable pub start : World → Platoon → ℕ → Outcome Platoon
start w pl i = with_user pl i (λ u.
    let v = record u {
      fcp = Pipe.init u.fcp w.max_bytes_per_sec (w.local_addr i);
      started_at = 0;
      bytes_fetched = 0;
      reads = 0;
      timer = if w.sked_ok then some w.now else none;
    } in
    goto_state w (put_user pl i (some v)) i connect)

-- One round of the loop of `ftpCmdDone`: whether it goes on, and the platoon.
abbrev pub stops : World → Platoon → ℕ → Outcome (Bool × Platoon)
stops w pl i = stop w pl i >>= λ q. returned (false, q)

abbrev pub goes : World → Platoon → ℕ → UserState → Bool → Outcome (Bool × Platoon)
goes w pl i newstate again = goto_state w pl i newstate >>= λ q. returned (again, q)

-- A call of the connection; where it fails the user stops.
abbrev pub calling :
    World
    → ℕ
    → Outcome (ℕ × Platoon)
    → (Platoon → Outcome (Bool × Platoon))
    → Outcome (Bool × Platoon)
calling w i call next = call >>= λ r. if r.0 == 0 then next r.1 else stops w r.1 i

-- The state GET, once the file has been asked for.
abbrev pub start_fetch : World → Platoon → ℕ → Outcome (Bool × Platoon)
start_fetch w pl i = with_user pl i (λ u.
    goes w (put_user pl i (some (record u { started_at = w.now; bytes_fetched = 0; reads = 0 }))) i
      getting false)

-- Whether the file took a time, and came too slowly.
abbrev pub was_slow : World → User → Bool
was_slow w u =
    eclock_after w.now u.started_at && w.too_slow u.bytes_fetched (clock_sub w.now u.started_at)

-- The `switch (m_state)` of `ftpCmdDone`
abbrev pub in_state_done :
    Calls → World → ℤ → Platoon → ℕ → User → UserState → Outcome (Bool × Platoon)
in_state_done c w status pl i u connect =
    calling w i (c.call_connect pl i)
      (λ q. calling w i (c.call_login q i) (λ r. goes w r i connecting false))
in_state_done c w status pl i u connecting =
    if ok2 status then goes w pl i start_type true else stops w pl i
in_state_done c w status pl i u start_type =
    calling w i (c.call_type pl i) (λ q. goes w q i finish_type false)
in_state_done c w status pl i u finish_type =
    if ok2 status then goes w pl i get true else stops w pl i
in_state_done c w status pl i u get = calling w i (c.call_get pl i) (λ q. start_fetch w q i)
in_state_done c w status pl i u getting =
    if ok2 status
    then (if was_slow w u then stops w pl i else goes w pl i get true)
    else stops w pl i
in_state_done c w status pl i u stopped = returned (false, pl)
in_state_done c w status pl i u uninit = returned (false, pl)

unfoldable pub cmd_round : Calls → World → ℤ → Platoon → ℕ → Outcome (Bool × Platoon)
cmd_round c w status pl i = with_user pl i (λ u. in_state_done c w status pl i u u.state)

-- The loop of `ftpCmdDone`, on fuel
unfoldable pub cmd_loop : Calls → World → ℤ → ℕ → Platoon → ℕ → Outcome Platoon
cmd_loop c w status zero pl i = unfinished
cmd_loop c w status (suc fuel) pl i = cmd_round c w status pl i >>= λ r. elim r.0 [
  | true ↦ cmd_loop c w status fuel r.1 i
  | false ↦ returned r.1
]

-- `ftpCmdDone(xerr, status, buf)`; two rounds are enough.
unfoldable pub ftp_cmd_done : Calls → World → Platoon → ℕ → ℕ → ℤ → Outcome Platoon
ftp_cmd_done c w pl i xerr status = if xerr == 0 then cmd_loop c w status 2 pl i else stop w pl i

-- `skedCallback(now)`
unfoldable pub sked_callback : Calls → World → Platoon → ℕ → Outcome Platoon
sked_callback c w pl i = ftp_cmd_done c w pl i 0 (negsuc 0)

-- `shutDown()`
unfoldable pub shut_down : Os → User → User
shut_down os u = record u { fcp = (shutdown os u.fcp).1 }
