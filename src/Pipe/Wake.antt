-- ===== src/Pipe/Wake.antt =====
-- dkftpbench-0.45/ftp_client_pipe.cc: an event that comes while the pipe has to sleep.
use Prim.Native.Nat.{bit_or}
use c10kcode.Common.{
  ℕ, ◌+◌, ◌<◌, ◌≡◌, refl, ◌∙◌, sym, ap, subst, true, false, ◌||◌, some, none, arith, ◌==◌, if_else,
  if_then, if◌then◌else◌, inl, inr, Bool-cases,
}
use c10kcode.CText.{pos}
use c10kcode.Eclock.{eclock_after}
use c10kcode.Pipe.{
  Pipe, getting, sleeping, Os, App, Outcome, aborted, undefined, unfinished, returned, ◌>>=◌, has,
  pollin, pollhup, kickstarted,
}
use c10kcode.Pipe.Data.{notify_data}
use c10kcode.Pipe.Data.Throttle.{IsSettled, FitsInt}
use c10kcode.Pipe.Data.Fetch.{IsFetching, after_read, read_lem, early_lem}
use c10kcode.Pipe.Notify.{
  is_fd, handle, update_masks, conclude, notify, shutdown_and_notify, sked_callback,
}

-- The data descriptor's events go to its handler.
handle-data :
    (os : Os) (p : Pipe) (fd revents : ℕ)
    → p.dfd ≡ some fd
    → handle os p fd revents ≡ some (notify_data os p fd revents)
unfolding handle
handle-data os p fd revents h =
    let mine : is_fd p.dfd fd ≡ true = rw h (ground arith) in if_then _ _ _ mine

abbrev pub plainly : Outcome Pipe → Outcome (ℕ × Pipe)
plainly m = m >>= λ q. returned (0, q)

conclude-0 : (os : Os) (app : App) (p : Pipe) → conclude os app 0 p ≡ plainly (update_masks os p)
unfolding conclude
conclude-0 os app p = refl

pub unwrapped :
    (m : Outcome Pipe) (f : Pipe → Outcome Pipe)
    → (plainly m >>= λ r. if r.0 == 0 then returned r.1 else f r.1) ≡ m
unwrapped aborted f = refl
unwrapped undefined f = refl
unwrapped unfinished f = refl
unwrapped (returned q) f = refl

-- An event of the data descriptor whose handler returns 0: the masks are updated, and no more.
pub notify-quiet :
    (os : Os) (app : App) (p q : Pipe) (fd revents : ℕ)
    → p.dfd ≡ some fd
    → notify_data os p fd revents ≡ returned (0, q)
    → notify os app p (some fd) revents ≡ plainly (update_masks os q)
unfolding notify
notify-quiet os app p q fd revents at run =
    rw (notify, handle-data os p fd revents at, run) (conclude-0 os app q)

-- The pipe that an early event leaves asleep.
abbrev pub asleep : Pipe → ℕ → Pipe
asleep p revents = record p {
  state = sleeping;
  timer = some p.wakeup;
  dfd_events = bit_or p.dfd_events revents;
}

-- The pipe as its handler sees it when it is woken: the scheduler takes the entry out before it calls.
abbrev pub woken : Pipe → ℕ → Pipe
woken p now = record p { state = getting; timer = none; dfd_events = 0; wakeup = now }

not_after_itself : (now : ℕ) → eclock_after now now ≡ false
unfolding eclock_after
not_after_itself now = ground arith

callback-asleep :
    (os : Os) (app : App) (p q : Pipe) (fd revents : ℕ)
    → (bit_or p.dfd_events revents == 0) ≡ false
    → eclock_after p.wakeup os.now ≡ false
    → p.dfd ≡ some fd
    → notify_data os (woken p os.now) fd (bit_or p.dfd_events revents) ≡ returned (0, q)
    → sked_callback os app (record (asleep p revents) { timer = none }) os.now ≡ update_masks os q
unfolding sked_callback
callback-asleep os app p q fd revents some_events due at run =
    let quiet : notify os app (woken p os.now) p.dfd (bit_or p.dfd_events revents)
        ≡ plainly (update_masks os q) =
      subst
        (λ d.
          notify os app (woken p os.now) d (bit_or p.dfd_events revents)
          ≡ plainly (update_masks os q))
        (sym at) (notify-quiet os app (woken p os.now) q fd (bit_or p.dfd_events revents) at run) in
    if_else _ _ _ some_events
    ∙ if_else _ _ _ due
    ∙ ap (λ m. m >>= λ r. if r.0 == 0 then returned r.1 else shutdown_and_notify os app r.1) quiet
    ∙ unwrapped (update_masks os q) (shutdown_and_notify os app)

-- A read event that comes before the wake-up time is not lost: the pipe sleeps, scheduled for the
-- wake-up time, and the scheduler's call at that time or later reads with the events remembered. The
-- pipe is then no longer asleep, has accounted for the bytes, and asks the poller for its events
-- again.
pub held_back_read :
    (os os' : Os) (app : App) (p : Pipe) (fd revents n : ℕ)
    → IsFetching p
    → p.timer ≡ none
    → p.dfd ≡ some fd
    → os.sked_ok ≡ true
    → (has kickstarted revents || has pollhup revents) ≡ false
    → eclock_after p.wakeup os.now ≡ true
    → eclock_after p.wakeup os'.now ≡ false
    → has pollin (bit_or p.dfd_events revents) ≡ true
    → os'.data_io fd (bit_or p.dfd_events revents) os'.now ≡ pos n
    → 0 < n
    → FitsInt p.bytes_per_tick (n + p.bytes_unslept)
    → (notify_data os p fd revents ≡ returned (0, asleep p revents))
      × ((howlong left : ℕ) × (sked_callback os' app
              (record (asleep p revents) { timer = none })
              os'.now
            ≡ update_masks os'
                (after_read os' (woken p os'.now) fd (bit_or p.dfd_events revents) howlong left))
          × IsSettled p.bytes_per_sec p.bytes_per_tick (n + p.bytes_unslept) howlong left)
held_back_read os os' app p fd revents n f free at memory plain early due readable given more fits =
    let events : ℕ = bit_or p.dfd_events revents in
    let g : IsFetching (woken p os'.now) = record {
      in_transfer = refl;
      is_connected = f.is_connected;
      positive_rate = f.positive_rate;
      tick_rate = f.tick_rate;
    } in
    let (w, left, run, s) =
      read_lem os' (woken p os'.now) fd events n g readable (not_after_itself os'.now) given more
        fits in
    let some_events : (events == 0) ≡ false = elim (Bool-cases (events == 0)) [
      | inl e ↦ absurd (ground arith)
      | inr e ↦ e
    ] in
    (
      early_lem os p fd revents f free memory plain early,
      (w, left, callback-asleep os' app p _ fd revents some_events due at run, s),
    )
