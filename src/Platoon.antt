-- ===== src/Platoon.antt =====
-- dkftpbench-0.45/Platoon.h, Platoon.cc and robouser.h: the users, the table that holds them, and the
-- counts of users in each state. A user is known by its slot in the table; `timer` is an object's
-- entry in the scheduler. The log of debugging text is left out.
pub mod Census
pub mod Fleet
pub mod Search
pub mod Joining
pub mod Starting
pub mod Ramp
pub mod Reaping
pub mod Lifetime
mod Tests
use c10kcode.Common.{
  ℕ, zero, suc, ◌+◌, ◌-◌, ◌^◌, Bool, true, false, ◌&&◌, Option, none, some, List, [], ◌∷◌, ◌++◌,
  leb, ◌==◌, if◌then◌else◌,
}
use c10kcode.Pipe.{Pipe, Outcome, aborted, undefined, returned}

-- `robouser_t::state_t`
pub data UserState : Type 0 where
  uninit connect connecting start_type finish_type get getting stopped : UserState

-- The value of a state
abbrev pub index : UserState → ℕ
index uninit = 0
index connect = 1
index connecting = 2
index start_type = 3
index finish_type = 4
index get = 5
index getting = 6
index stopped = 7

-- `robouser_t`
pub record User : Type 0 where
  pub state : UserState
  pub started_at : ℕ
  pub bytes_fetched : ℕ
  pub reads : ℕ
  pub fcp : Pipe
  pub timer : Option ℕ

-- What changes of `Platoon`; `dead` is m_deadlist, its front first.
pub record Platoon : Type 0 where
  pub users : ℕ → Option User
  pub in_state : ℕ → ℕ
  pub dead : List ℕ
  pub bytes_fetched : ℕ
  pub nreads : ℕ
  pub user_target : ℕ
  pub connecting_target : ℕ
  pub last_connecting : UserState
  pub timer : Option ℕ

-- `Platoon_MAXUSERS`
abbrev pub maxusers : ℕ
maxusers = 65536

-- `wakeUp()`, at the time `now`; `ok` tells whether the scheduler finds the memory for an entry.
abbrev pub wake_up : Bool → ℕ → Platoon → Platoon
wake_up ok now pl = record pl { timer = if ok then some now else none }

abbrev pub set_count : (ℕ → ℕ) → ℕ → ℕ → ℕ → ℕ
set_count f i n j = if j == i then n else f j

-- `countStateChange(user, oldstate, newstate)` behind its assertions. A count that would fall below 0
-- is `undefined`; `Census` shows that none does.
abbrev pub move_count : (ℕ → ℕ) → ℕ → ℕ → Outcome (ℕ → ℕ)
move_count f zero new = returned (set_count f new (f new + 1))
move_count f (suc old) new =
    if f (suc old) == 0
    then undefined
    else (let g = set_count f (suc old) (f (suc old) - 1) in returned (set_count g new (g new + 1)))

-- `m_nInState[first] + ... + m_nInState[first + n - 1]`
abbrev pub sum_from : (ℕ → ℕ) → ℕ → ℕ → ℕ
sum_from f first zero = 0
sum_from f first (suc n) = f first + sum_from f (first + 1) n

-- `sumInState(first, last)`
abbrev pub sum_in_state : Platoon → UserState → UserState → ℕ
sum_in_state pl first last = sum_from pl.in_state (index first) (index last + 1 - index first)

abbrev pub put_user : Platoon → ℕ → Option User → Platoon
put_user pl i u = record pl { users = λ j. if j == i then u else pl.users j }
