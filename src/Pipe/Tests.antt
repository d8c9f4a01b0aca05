-- ===== src/Pipe/Tests.antt =====
-- Events and requests of a pipe of ftp_client_pipe.cc, and the theorems about it at concrete pipes.
use c10kcode.Common.{
  ℕ, ◌+◌, if◌then◌else◌, ◌==◌, ◌≡◌, refl, inr, true, false, Option, none, some, List, [], arith,
  ewouldblock, einprogress, eaddrinuse, epipe,
}
use c10kcode.CText.{pos}
use c10kcode.Eclock.{eclock_after}
use c10kcode.Nbbio.{Nbbio, ReadReply, WriteReply, took}
use c10kcode.Nbbio.Transfer.{ReadsAtMost, WritesAtMost}
use c10kcode.FtpProto.{Proto, SockAddr, get_status}
use c10kcode.FtpProto
use c10kcode.Pipe.{
  Pipe, Outcome, idle, getting, Os, aborted, returned, failed, answered, pollin, pollout, shutdown,
}
use c10kcode.Pipe.Ephemeral.{ephemeral_connect, connect}
use c10kcode.Pipe.Ephemeral.Ports.{ephemeral_connect_lem}
use c10kcode.Pipe.Data.{notify_data, check_data, doze, move_data, finish_data, sleep_for}
use c10kcode.Pipe.Data.Throttle.{IsSettled}
use c10kcode.Pipe.Data.Fetch.{IsFetching, after_read}
use c10kcode.Pipe.Data.Steps.{IsOnRate}
use c10kcode.Pipe.Data.Rate.{begun, event, transfer-IsOnRate}
use c10kcode.Pipe.Data.Rate
use c10kcode.Pipe.Control.{notify_control}
use c10kcode.Pipe.Control.Service.{IsSound, Ends}
use c10kcode.Pipe.Control.Loop.{Settled}
use c10kcode.Pipe.Control.Ending.{notify_control-Ends}
use c10kcode.Pipe.Notify.{handle, conclude, update_masks, notify, sked_callback}
use c10kcode.Pipe.Wake.{asleep, woken, held_back_read}
use c10kcode.Pipe.Closing.{HasShut, shutdown_lem}
use c10kcode.Pipe.Failure.{asked, cleared, tell, notify-tells}
use c10kcode.Pipe.Reentry.{notify_agrees}

abbrev no_bytes : Nbbio
no_bytes = record { buf = λ _. 0; get_from = 0; put_to = 0; linelen = 0; lastchar = 0 }

abbrev client : FtpProto.State → Proto
client s = record {
  state = s;
  stack = [];
  sent_user = false;
  obuf = [];
  obuflen = 0;
  multiline = false;
  status = pos 0;
  response = [];
  password = [];
  fname = [];
  address_ready = false;
  address = record { addr = 0; port_number = 0 };
}

abbrev nothing_there : ℕ → ℕ → ReadReply
nothing_there i n = ReadReply.failed ewouldblock

abbrev all_taken : ℕ → ℕ → WriteReply
all_taken i n = took n

nothing_there-most : ReadsAtMost nothing_there
nothing_there-most i n xs e = ground arith

all_taken-most : WritesAtMost all_taken
all_taken-most i n m e = ground arith

abbrev at : ℕ → Os
at time = record {
  now = time;
  sock_error = λ fd. answered 0;
  socket = answered 7;
  get_flags = λ fd. answered 0;
  set_flags = λ fd flags. answered 0;
  bind = λ i port. answered 0;
  connect = failed einprogress;
  lookup = λ host. some 2130706433;
  os_read = nothing_there;
  os_write = all_taken;
  close_ok = λ fd. true;
  add_fd = λ fd. 0;
  set_mask = λ fd mask. 0;
  data_io = λ fd revents time. pos 500;
  sked_ok = true;
}

-- A transfer at 50000 bytes per second, 5 per tick.
abbrev fetching : Pipe
fetching = record {
  state = getting;
  cfd = some 3;
  cfd_connecting = false;
  dfd = some 4;
  dfd_connecting = false;
  obuf = no_bytes;
  ibuf = no_bytes;
  iline = λ i. 0;
  iline_full = false;
  bytes_per_tick = 5;
  bytes_per_sec = 50000;
  bytes_unslept = 0;
  dfd_events = 0;
  wakeup = 1000;
  in_cmd_done = pos 0;
  local_addr = none;
  proto = client FtpProto.State.retr;
  timer = none;
  log = [];
}

fetching-IsFetching : IsFetching fetching
fetching-IsFetching = record {
  in_transfer = refl;
  is_connected = refl;
  positive_rate = omega arith;
  tick_rate = refl;
}

-- An event comes at 900, before the wake-up time: the pipe sleeps, is woken at 1000, and reads then.
abbrev sleeper : Pipe
sleeper = asleep fetching pollin

abbrev of_callback : Outcome Pipe → Pipe
of_callback (returned r) = r
of_callback _ = fetching

abbrev reader : Pipe
reader =
    of_callback (update_masks (at 1000) (after_read (at 1000) (woken fetching 1000) 4 pollin 100 0))

held_back_run : notify_data (at 900) fetching 4 pollin ≡ returned (0, sleeper)
unfolding notify_data check_data doze move_data finish_data sleep_for eclock_after
held_back_run = refl

callback_run :
    sked_callback (at 1000) (λ e s t p. returned p) (record sleeper { timer = none }) 1000
    ≡ returned reader
unfolding sked_callback notify handle notify_data check_data doze move_data finish_data sleep_for
    conclude update_masks eclock_after
callback_run = refl

transfer-IsOnRate_example : IsOnRate fetching 500 reader
unfolding update_masks
transfer-IsOnRate_example =
    transfer-IsOnRate 4 fetching reader 500 fetching-IsFetching (omega arith) (omega arith)
      (omega arith)
      (Rate.woken (at 1000) (λ e s t p. returned p) 1000
        (event (at 900) pollin begun (omega arith) refl refl refl (omega arith) (omega arith)
          held_back_run)
        refl refl (omega arith) (omega arith) refl refl (omega arith) (omega arith) callback_run)

held_back_read_example :
    (notify_data (at 900) fetching 4 pollin ≡ returned (0, asleep fetching pollin))
    × ((howlong left : ℕ) × (sked_callback
            (at 1000)
            (λ e s t p. returned p)
            (record (asleep fetching pollin) { timer = none })
            1000
          ≡ update_masks
              (at 1000)
              (after_read (at 1000) (woken fetching 1000) 4 pollin howlong left))
        × IsSettled 50000 5 500 howlong left)
unfolding eclock_after
held_back_read_example =
    held_back_read (at 900) (at 1000) (λ e s t p. returned p) fetching 4 pollin 500
      fetching-IsFetching refl refl refl refl refl refl refl refl (omega arith)
      (omega arith, inr (omega arith))

fetching-IsSound : IsSound (pos 0) fetching
fetching-IsSound = record { input = omega arith; output = omega arith; depth = refl }

notify_control-Ends_example :
    Ends (Settled (pos 0)) (notify_control (at 1000) fetching 3 (pollin + pollout))
notify_control-Ends_example =
    notify_control-Ends (pos 0) (at 1000) nothing_there-most all_taken-most fetching 3
      (pollin + pollout) fetching-IsSound

notify-tells_example :
    (text : Option (List ℕ)) × (notify (at 1000) (λ e s t p. returned p) fetching (some 3) 16
      ≡ tell (λ e s t p. returned p) (cleared (asked fetching)) (some epipe) (pos 0) text)
unfolding handle notify_control
notify-tells_example =
    notify-tells (at 1000) (λ e s t p. returned p) fetching fetching 3 16 epipe (λ fd mask. refl)
      refl refl (omega arith)

notify_agrees_example :
    notify (at 1000) (λ e s t p. returned p) (record fetching { in_cmd_done = pos 1 }) (some 3) 16
    ≡ notify (at 1000) (λ e s t p. aborted) (record fetching { in_cmd_done = pos 1 }) (some 3) 16
notify_agrees_example =
    notify_agrees (at 1000) (λ e s t p. returned p) (λ e s t p. aborted) (pos 1) refl
      nothing_there-most all_taken-most (record fetching { in_cmd_done = pos 1 }) (some 3) 16
      (record { input = omega arith; output = omega arith; depth = refl })

abbrev unconnected : Pipe
unconnected = record fetching { state = idle; cfd = none; dfd = none }

shutdown_lem_example : HasShut (at 1000) (at 1000) fetching (shutdown (at 1000) fetching)
shutdown_lem_example = shutdown_lem (at 1000) (at 1000) fetching

-- The first port is in use.
abbrev second_free : Os
second_free = record (at 1000) { bind = λ i port. if i == 0 then failed eaddrinuse else answered 0 }

abbrev local : SockAddr
local = record { addr = 167772161; port_number = 0 }

ephemeral_connect_lem_example :
    ephemeral_connect second_free (some local)
    ≡ (failed einprogress, some (record local { port_number = 1025 }))
ephemeral_connect_lem_example =
    ephemeral_connect_lem second_free local 1 (answered 0) (omega arith) (λ j h. ground arith) refl
      tt
