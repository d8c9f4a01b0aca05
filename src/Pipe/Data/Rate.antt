-- ===== src/Pipe/Data/Rate.antt =====
-- dkftpbench-0.45/ftp_client_pipe.cc: how many bytes a transfer reads in a time.
use c10kcode.Common.{
  ℕ, ◌+◌, ◌*◌, ◌^◌, ◌≤◌, ◌<◌, ◌≡◌, refl, true, false, some, none, ◌-◌, ◌||◌, arith, inl,
}
use c10kcode.CText.{pos}
use c10kcode.Pipe.{Pipe, sleeping, Os, App, returned, has, pollin, pollhup, kickstarted}
use c10kcode.Pipe.Data.Held.{transfers}
use c10kcode.Pipe.Notify.{sked_callback}
use c10kcode.Pipe.Data.{notify_data}
use c10kcode.Pipe.Data.Fetch.{IsFetching}
use c10kcode.Pipe.Data.Steps.{IsOnRate, event-IsOnRate, woken-IsOnRate}

-- A transfer on the descriptor `fd` from a pipe `p` on: how many bytes have been read, and the pipe
-- now. At any time the system may say that the descriptor can be read, and the scheduler may call a
-- pipe that sleeps; `handle_data_io`, where it is called, reads at most 16384 bytes. A hang-up, which
-- ends the transfer, and a kickstart are no such events.
pub data Fetch (fd : ℕ) (p : Pipe) : ℕ → Pipe → Type 0 where
  begun : Fetch fd p 0 p
  event :
      {t n : ℕ} {q r : Pipe} (os : Os) (revents : ℕ)
      → Fetch fd p t q
      → os.now < 2 ^ 62
      → has pollin revents ≡ true
      → (has kickstarted revents || has pollhup revents) ≡ false
      → os.data_io fd revents os.now ≡ pos n
      → 0 < n
      → n ≤ 16384
      → notify_data os q fd revents ≡ returned (0, r)
      → Fetch fd p (t + (transfers r.log - transfers q.log) * n) r
  woken :
      {t n : ℕ} {q r : Pipe} (os : Os) (app : App) (now : ℕ)
      → Fetch fd p t q
      → q.state ≡ sleeping
      → q.dfd ≡ some fd
      → now ≤ os.now
      → os.now < 2 ^ 62
      → has pollin q.dfd_events ≡ true
      → os.data_io fd q.dfd_events os.now ≡ pos n
      → 0 < n
      → n ≤ 16384
      → sked_callback os app (record q { timer = none }) now ≡ returned r
      → Fetch fd p (t + (transfers r.log - transfers q.log) * n) r

-- However many events and wake-ups a transfer goes through, and whenever they come, the bytes read since
-- its beginning, less those of at most one tick and one byte more, take as long at the rate of bytes
-- per second as the time from the first wake-up time to the present one: the transfer is not faster
-- than its rate. No event is a hang-up or a kickstart, each read gives 1 to 16384 bytes, a wake-up
-- finds an event of input remembered, the clock does not wrap, and the rate is positive and an `int`.
pub transfer-IsOnRate :
    (fd : ℕ) (p q : Pipe) (t : ℕ)
    → IsFetching p
    → p.bytes_per_sec < 2 ^ 31
    → p.bytes_unslept ≤ p.bytes_per_tick + 1
    → p.wakeup < 2 ^ 63
    → Fetch fd p t q
    → IsOnRate p t q
transfer-IsOnRate fd p q t f rate_fits few start begun = record {
  busy = inl f.in_transfer;
  connected = f.is_connected;
  same_rate = refl;
  tick_rate = f.tick_rate;
  on_rate = omega arith;
  few_left = few;
  in_range = start;
}
transfer-IsOnRate fd p q t f rate_fits few start
      (event {t = t'} {n = n} {q = q'} os revents before in_range readable plain given more small
        run) =
    event-IsOnRate fd revents p q' q t' n os rate_fits f.positive_rate in_range readable plain given
      more small run (transfer-IsOnRate fd p q' t' f rate_fits few start before)
transfer-IsOnRate fd p q t f rate_fits few start
      (woken {t = t'} {n = n} {q = q'} os app now before st at late in_range readable given more
        small run) =
    woken-IsOnRate fd now p q' q t' n os app rate_fits f.positive_rate st at late in_range readable
      given more small run (transfer-IsOnRate fd p q' t' f rate_fits few start before)
