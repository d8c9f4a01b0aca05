-- ===== src/Platoon/Tests.antt =====
-- dkftpbench-0.45/Platoon.cc and robouser.cc at a platoon of one user.
use c10kcode.Common.{
  true, false, ewouldblock, ℕ, ◌≡◌, refl, subst, true, false, none, some, List, [], ◌∷◌, arith,
}
use c10kcode.CText.{pos}
use c10kcode.Nbbio.{Nbbio, ReadReply, took}
use c10kcode.FtpProto.{Proto}
use c10kcode.FtpProto
use c10kcode.Pipe.{Pipe, Os, answered, Outcome, aborted, undefined, unfinished, returned, ◌>>=◌}
use c10kcode.Pipe
use c10kcode.Platoon.{
  connect, UserState, uninit, connecting, get, getting, stopped, User, Platoon, maxusers, put_user,
}
use c10kcode.Platoon.Census.{IsCounted, census-put, census-empty, weight}
use c10kcode.Platoon.Fleet.{reap, start_user, ramp_up}
use c10kcode.Platoon.Starting.{StartUser, start_user-StartUser}
use c10kcode.Platoon.Ramp.{Ramped, ramp_up-Ramped}
use c10kcode.Platoon.Reaping.{AreDead, Reaped, reap-Reaped}
use c10kcode.Platoon.Lifetime.{reap-StartsNobody}
use c10kcode.Robouser.{Calls, World, ftp_cmd_done}
use c10kcode.Robouser.Quiet.{Returns, IsIn}
use c10kcode.Robouser.Cycle.{CallFrom, ftp_cmd_done-Leads}
use c10kcode.Robouser.Keeping.{Keeps, FailsAs}
use c10kcode.Robouser.Connection.{Settings, pipe_calls, pipe_calls-KeepUsers}
use c10kcode.Robouser.Stopping.{two_errors, two_errors_lem}

abbrev no_bytes : Nbbio
no_bytes = record { buf = λ _. 0; get_from = 0; put_to = 0; linelen = 0; lastchar = 0 }

abbrev new_pipe : Pipe
new_pipe = record {
  state = Pipe.State.idle;
  cfd = none;
  cfd_connecting = false;
  dfd = none;
  dfd_connecting = false;
  obuf = no_bytes;
  ibuf = no_bytes;
  iline = λ i. 0;
  iline_full = false;
  bytes_per_tick = 5;
  bytes_per_sec = 50000;
  bytes_unslept = 0;
  dfd_events = 0;
  wakeup = 0;
  in_cmd_done = pos 0;
  local_addr = none;
  proto = record {
    state = FtpProto.State.idle;
    stack = [];
    sent_user = false;
    obuf = [];
    obuflen = 0;
    multiline = false;
    status = pos 0;
    response = [];
    password = [];
    fname = [];
    address_ready = false;
    address = record { addr = 0; port_number = 0 };
  };
  timer = none;
  log = [];
}

abbrev user_in : UserState → User
user_in s = record {
  state = s;
  started_at = 0;
  bytes_fetched = 0;
  reads = 0;
  fcp = new_pipe;
  timer = none;
}

abbrev nobody : Platoon
nobody = record {
  users = λ i. none;
  in_state = λ i. 0;
  dead = [];
  bytes_fetched = 0;
  nreads = 0;
  user_target = 0;
  connecting_target = 1;
  last_connecting = connecting;
  timer = none;
}

-- A platoon of one user, in slot 3.
abbrev lone : UserState → Platoon
lone s = record (put_user nobody 3 (some (user_in s))) { in_state = weight (some (user_in s)) }

lone-IsCounted : (s : UserState) → IsCounted 0 (lone s)
lone-IsCounted s =
    let slot = λ (k : ℕ). census-put maxusers 3 k nobody.users (some (user_in s)) (omega arith) in
    let before = λ (k : ℕ). census-empty maxusers nobody.users k (λ i l. refl) in
    record {
      alive = λ k p l. omega (arith, slot k, before k);
      ended = omega (arith, slot 7, before 7);
    }

lone-IsIn : (s : UserState) → IsIn 0 3 s (lone s)
lone-IsIn s = record {
  counted = lone-IsCounted s;
  in_table = omega arith;
  user = user_in s;
  here = refl;
  its_state = refl;
}

abbrev world : World
world = record {
  now = 1000;
  sked_ok = true;
  bytes_per_read = 1500;
  max_bytes_per_sec = 50000;
  local_addr = λ i. none;
  too_slow = λ bytes ticks. false;
}

-- Calls that succeed and do nothing to the platoon.
abbrev calls : Calls
calls = record {
  call_connect = λ pl i. returned (0, pl);
  call_login = λ pl i. returned (0, pl);
  call_type = λ pl i. returned (0, pl);
  call_get = λ pl i. returned (0, pl);
}

-- The user's own pipe, of a host that is found, and a system that takes what it is given.
abbrev system : Os
system = record {
  now = 1000;
  sock_error = λ fd. answered 0;
  socket = answered 7;
  get_flags = λ fd. answered 0;
  set_flags = λ fd flags. answered 0;
  bind = λ i port. answered 0;
  connect = answered 0;
  lookup = λ host. some 2130706433;
  os_read = λ i n. ReadReply.failed ewouldblock;
  os_write = λ i n. took n;
  close_ok = λ fd. true;
  add_fd = λ fd. 0;
  set_mask = λ fd mask. 0;
  data_io = λ fd revents time. pos 500;
  sked_ok = true;
}

abbrev settings : Settings
settings = record {
  servername = b'h' ∷ [];
  username = b'u' ∷ [];
  passwd = b'p' ∷ [];
  filename = b'f' ∷ [];
}

abbrev own_calls : Calls
own_calls = pipe_calls world system settings 1

ftp_cmd_done-Leads_example :
    Keeps
      (λ b. let zero : ℕ = 0 in (zero ≡ 0) × FailsAs own_calls b)
      (CallFrom 0 3 connect)
      (ftp_cmd_done own_calls world (lone connect) 3 0 (pos 0))
ftp_cmd_done-Leads_example =
    ftp_cmd_done-Leads 0 3 world own_calls (lone connect) connect 0 (pos 0)
      (pipe_calls-KeepUsers world system settings 1) (lone-IsIn connect)

abbrev one_dead : Platoon
one_dead = record (lone stopped) { dead = 3 ∷ [] }

one_dead-IsCounted : IsCounted 0 one_dead
one_dead-IsCounted = let c = lone-IsCounted stopped in record { alive = c.alive; ended = c.ended }

one_dead-AreDead : AreDead one_dead.users one_dead.dead
one_dead-AreDead = (omega arith, (user_in stopped, (refl, refl)), tt)

reap-Reaped_example : Returns (Reaped 0 one_dead (3 ∷ [])) (reap one_dead)
reap-Reaped_example = reap-Reaped 0 one_dead one_dead-IsCounted one_dead-AreDead

abbrev HasSome : List ℕ → Type 0
HasSome [] = ⊥
HasSome (i ∷ l) = Unit {0}

reap-StartsNobody_example :
    Returns (λ q. ramp_up world (user_in uninit) 5 q ≡ returned q) (reap one_dead)
reap-StartsNobody_example =
    reap-StartsNobody world (user_in uninit) 4 0 one_dead one_dead-IsCounted one_dead-AreDead
      (λ e. absurd (subst HasSome e tt))

two_errors_lem_example : two_errors calls world (lone getting) 3 32 110 (pos 0) ≡ undefined
two_errors_lem_example =
    two_errors_lem calls world (lone getting) 0 3 32 110 getting (pos 0) (lone-IsIn getting) refl
      (λ e. absurd (omega (arith, e))) (λ e. absurd (omega (arith, e)))

-- A platoon of one user that is to have five.
abbrev growing : Platoon
growing = record (lone get) { user_target = 5 }

growing-IsCounted : IsCounted 0 growing
growing-IsCounted = let c = lone-IsCounted get in record { alive = c.alive; ended = c.ended }

ramp_up-Ramped_example : Returns (Ramped 0 growing) (ramp_up world (user_in uninit) 5 growing)
ramp_up-Ramped_example =
    ramp_up-Ramped 0 world (user_in uninit) 4 growing growing-IsCounted (omega arith)

start_user-StartUser_example :
    Returns (StartUser 0 growing) (start_user world (user_in uninit) growing)
start_user-StartUser_example =
    start_user-StartUser 0 world (user_in uninit) growing growing-IsCounted
