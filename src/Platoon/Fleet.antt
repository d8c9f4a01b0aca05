-- ===== src/Platoon/Fleet.antt =====
-- dkftpbench-0.45/Platoon.cc, and `handle_data_io` of robouser.cc: the platoon's operations.
use c10kcode.Common.{
  ℕ, zero, suc, ◌+◌, ◌*◌, ◌^◌, ◌%◌, Bool, ◌&&◌, Option, none, some, List, [], ◌∷◌, ltb, leb, ◌==◌,
  if◌then◌else◌, length, ealready,
}
use c10kcode.CText.{ℤ, pos, negated}
use c10kcode.Eclock.{clock_sub}
use c10kcode.Nbbio.{ReadReply, got}
use c10kcode.Pipe.{Outcome, aborted, undefined, unfinished, returned, ◌>>=◌}
use c10kcode.Platoon.{
  UserState, uninit, connect, connecting, getting, stopped, User, Platoon, maxusers, wake_up,
  sum_in_state, put_user,
}
use c10kcode.Robouser.{World, with_user, stop, start}

-- `init(...)`, as far as the members that change: the settings are in `World`.
unfoldable pub init : Platoon → Platoon
init pl = record pl {
  last_connecting = connecting;
  users = λ i. if ltb i maxusers then none else pl.users i;
  connecting_target = 1;
  user_target = 0;
  in_state = λ i. if ltb i 8 then 0 else pl.in_state i;
  dead = [];
  bytes_fetched = 0;
  nreads = 0;
}

-- `reap()`. Deleting a user that is not in the table is undefined. What `shutdown` does to the sockets
-- of a deleted user is not kept.
abbrev pub delete_user : Platoon → ℕ → Outcome Platoon
delete_user pl i = with_user pl i (λ u. returned (put_user pl i none))

unfoldable pub reap_all : List ℕ → Platoon → Outcome Platoon
reap_all [] pl = returned (record pl { dead = [] })
reap_all (i ∷ rest) pl = delete_user (record pl { dead = rest }) i >>= reap_all rest

unfoldable pub reap : Platoon → Outcome Platoon
unfolding reap_all
reap pl = reap_all pl.dead pl

-- `reset()`; the last argument is whether the scheduler is empty then, which is asserted.
unfoldable pub reset : Platoon → Bool → Outcome Platoon
reset pl sked_empty = reap pl >>= λ q.
    if sked_empty
    then returned
        (record q { users = λ i. if ltb i maxusers then none else q.users i; timer = none })
    else aborted

-- The slot that is free, from `i` on and going round; `n` slots are looked at.
unfoldable pub find_slot : (ℕ → Option User) → ℕ → ℕ → Option ℕ
find_slot users zero i = none
find_slot users (suc n) i =
    let j = if i == maxusers then 0 else i in
    let rest = find_slot users n (j + 1) in elim (users j) [ none ↦ some j | some _ ↦ rest ]

-- `startUser()`; `made` is the new object as its constructor leaves it. A guess beyond the table is
-- undefined.
unfoldable pub start_user : World → User → Platoon → Outcome (ℕ × Platoon)
unfolding find_slot
start_user w made pl =
    if ltb maxusers (sum_in_state pl connect getting)
    then undefined
    else elim (find_slot pl.users maxusers (sum_in_state pl connect getting)) [
      | none ↦ returned (ealready, pl)
      | some i ↦
          start w (put_user pl i (some (record made { state = uninit }))) i >>= λ q. returned (0, q)
    ]

-- Whether another user is to be started.
abbrev pub wants_user : Platoon → Bool
wants_user pl =
    sum_in_state pl stopped stopped == 0
    && ltb (sum_in_state pl connect getting) pl.user_target
    && ltb (sum_in_state pl connect pl.last_connecting) pl.connecting_target

-- `skedCallback(now)`, on fuel
unfoldable pub ramp_up : World → User → ℕ → Platoon → Outcome Platoon
ramp_up w made zero pl = unfinished
ramp_up w made (suc fuel) pl =
    let more =
      start_user w made pl >>= λ r. if r.0 == 0 then ramp_up w made fuel r.1 else returned r.1 in
    if wants_user pl then more else returned pl

-- `getStatus(&nconnecting, &nalive, &ndead)`: the bytes fetched, and the three counts.
pub record Status : Type 0 where
  pub fetched : ℕ
  pub nconnecting : ℕ
  pub nalive : ℕ
  pub ndead : ℕ

unfoldable pub get_status : Platoon → Outcome (Status × Platoon)
get_status pl = reap pl >>= λ q. returned (
  record {
    fetched = q.bytes_fetched;
    nconnecting = sum_in_state q connect q.last_connecting;
    nalive = sum_in_state q connect getting;
    ndead = sum_in_state q stopped stopped;
  },
  q,
)

-- `set_nuserTarget`, `set_nconnectingTarget` and `set_lastConnectingState`
unfoldable pub set_user_target : Bool → ℕ → Platoon → ℕ → Platoon
set_user_target ok now pl n = wake_up ok now (record pl { user_target = n })

unfoldable pub set_connecting_target : Bool → ℕ → Platoon → ℕ → Platoon
set_connecting_target ok now pl n = wake_up ok now (record pl { connecting_target = n })

unfoldable pub set_last_connecting : Bool → ℕ → Platoon → UserState → Platoon
set_last_connecting ok now pl s = wake_up ok now (record pl { last_connecting = s })

-- What `handle_data_io` does with `n` bytes that were read, for the user as it is then.
abbrev pub counted_read : World → Platoon → ℕ → User → ℕ → Platoon
counted_read w pl i u n =
    put_user (record pl { bytes_fetched = (pl.bytes_fetched + n) % 2 ^ 64; nreads = pl.nreads + 1 })
      i
      (some (record u {
        started_at = if u.bytes_fetched == 0 then w.now else u.started_at;
        bytes_fetched = (u.bytes_fetched + n) % 2 ^ 64;
      }))

-- `(int) bytes > n`
abbrev pub int_exceeds : ℕ → ℕ → Bool
int_exceeds bytes n = let low = bytes % 2 ^ 32 in ltb n low && ltb low (2 ^ 31)

-- Whether the user is stopped early, behind ten packets.
abbrev pub is_too_slow : World → ℕ → User → ℕ → Bool
is_too_slow w time u n =
    int_exceeds ((u.bytes_fetched + n) % 2 ^ 64) (10 * w.bytes_per_read)
    && w.too_slow ((u.bytes_fetched + n) % 2 ^ 64)
        (clock_sub time (if u.bytes_fetched == 0 then w.now else u.started_at))

abbrev pub after_read : World → ℕ → Platoon → ℕ → User → ReadReply → Outcome (ℤ × Platoon)
after_read w time pl i u (ReadReply.failed e) = returned (negated e, pl)
after_read w time pl i u (got bytes) =
    let n = length bytes in
    if n == 0
    then returned (pos 0, pl)
    else if is_too_slow w time u n
    then (stop w (counted_read w pl i u n) i >>= λ q. returned (pos 0, q))
    else (reap (counted_read w pl i u n) >>= λ q. returned (pos n, q))

-- `handle_data_io(fd, revents, now)`, given what `read` answers.
unfoldable pub handle_data_io : World → ℕ → Platoon → ℕ → ReadReply → Outcome (ℤ × Platoon)
handle_data_io w time pl i reply = with_user pl i (λ u.
    if leb w.bytes_per_read 16384
    then (let v = record u { reads = u.reads + 1 } in
        after_read w time (put_user pl i (some v)) i v reply)
    else aborted)
