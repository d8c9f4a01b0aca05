-- ===== src/Pipe/Data/Fetch.antt =====
-- dkftpbench-0.45/ftp_client_pipe.cc: the reads of a transfer and the sleep between them.
use Prim.Native.Nat.{bit_or}
use c10kcode.Common.{
  ℕ, ◌+◌, ◌/◌, ◌<◌, ◌≡◌, refl, sym, subst, ap, inr, true, false, none, some, ◌∷◌, arith, ◌==◌, ◌||◌,
  ◌&&◌, not, ◌∙◌, if_then, if_else, &&-false,
}
use c10kcode.CText.{pos}
use c10kcode.Eclock.{clock_add, eclock_after, hertz}
use c10kcode.Pipe.{
  Pipe, getting, sleeping, Os, returned, transfer, has, note, cancel, pollin, pollout, pollhup,
  kickstarted,
}
use c10kcode.Pipe.Data.{
  notify_data, check_data, doze, move_data, moved, after_io, sleep_for, finish_data, is_idle,
  is_getting, is_sleeping, is_putting,
}
use c10kcode.Pipe.Data.Throttle.{IsSettled, FitsInt, sleep_for-IsSettled}

-- A pipe in a transfer, its connection made and its rates as `init` sets them.
pub record IsFetching (p : Pipe) : Type 0 where
  pub in_transfer : p.state ≡ getting
  pub is_connected : p.dfd_connecting ≡ false
  pub positive_rate : 0 < p.bytes_per_sec
  pub tick_rate : p.bytes_per_tick ≡ p.bytes_per_sec / hertz

-- The pipe behind a read.
abbrev pub after_read : Os → Pipe → ℕ → ℕ → ℕ → ℕ → Pipe
after_read os p fd revents howlong left = record p {
  timer = none;
  log = transfer fd revents ∷ p.log;
  bytes_unslept = left;
  wakeup = clock_add os.now howlong;
  dfd_events = 0;
}

pub check_data-connected :
    (os : Os) (p : Pipe) (fd revents : ℕ)
    → p.dfd_connecting ≡ false
    → check_data os p fd revents ≡ inr p
unfolding check_data
check_data-connected os p fd revents h =
    let made : (p.dfd_connecting && not (has kickstarted revents)) ≡ false = rw h refl in
    if_else _ _ _ made

pub doze-awake :
    (os : Os) (p : Pipe) (revents : ℕ)
    → eclock_after p.wakeup os.now ≡ false
    → doze os p revents ≡ returned p
unfolding doze
doze-awake os p revents h = if_else _ _ _ (&&-false _ _ h)

pub move_data-read :
    (os : Os) (p : Pipe) (fd revents n : ℕ)
    → p.state ≡ getting
    → has pollin revents ≡ true
    → os.data_io fd revents os.now ≡ pos n
    → 0 < n
    → move_data os p fd revents ≡ moved n (note (cancel p) (transfer fd revents))
unfolding move_data
move_data-read os p fd revents n st readable given more =
    let awake : is_sleeping p.state ≡ false = rw st refl in
    let reads : ((is_getting p.state && has pollin revents)
          || (is_putting p.state && has pollout revents))
        ≡ true =
      rw (st, readable) refl in
    let some_bytes : (n == 0) ≡ false = ground arith in
    if_else _ _ _ awake ∙ if_then _ _ _ reads ∙ ap (after_io _ fd) given ∙ if_else _ _ _ some_bytes

-- Where the wake-up time is not after the time of a read event, the application is asked to read
-- once, the timeout is cancelled, and the wake-up time is set so that the bytes are accounted for.
pub read_lem :
    (os : Os) (p : Pipe) (fd revents n : ℕ)
    → IsFetching p
    → has pollin revents ≡ true
    → eclock_after p.wakeup os.now ≡ false
    → os.data_io fd revents os.now ≡ pos n
    → 0 < n
    → FitsInt p.bytes_per_tick (n + p.bytes_unslept)
    → (howlong left : ℕ) × (notify_data os p fd revents
        ≡ returned (0, after_read os p fd revents howlong left))
      × IsSettled p.bytes_per_sec p.bytes_per_tick (n + p.bytes_unslept) howlong left
unfolding notify_data finish_data
read_lem os p fd revents n f readable due given more fits =
    let (w, left, run, s) =
      sleep_for-IsSettled p.bytes_per_sec (n + p.bytes_unslept) f.positive_rate
        (subst (λ k. FitsInt k (n + p.bytes_unslept)) f.tick_rate fits) in
    let run' : sleep_for p.bytes_per_sec p.bytes_per_tick (n + p.bytes_unslept)
        ≡ returned (w, left) =
      ap (λ k. sleep_for p.bytes_per_sec k (n + p.bytes_unslept)) f.tick_rate ∙ run in
    let not_idle : is_idle p.state ≡ false = rw f.in_transfer refl in
    let reads : is_getting p.state ≡ true = rw f.in_transfer refl in
    (
      w,
      left,
      rw
          (
            not_idle,
            check_data-connected os p fd revents f.is_connected,
            doze-awake os p revents due,
            move_data-read os p fd revents n f.in_transfer readable given more,
            reads,
            run',
          )
          refl,
      subst (λ k. IsSettled p.bytes_per_sec k (n + p.bytes_unslept) w left) (sym f.tick_rate) s,
    )

-- A read event before the wake-up time is only remembered: nothing is read, the pipe sleeps, and it
-- is scheduled for the wake-up time. A hang-up or a kickstart is not held back.
pub early_lem :
    (os : Os) (p : Pipe) (fd revents : ℕ)
    → IsFetching p
    → p.timer ≡ none
    → os.sked_ok ≡ true
    → (has kickstarted revents || has pollhup revents) ≡ false
    → eclock_after p.wakeup os.now ≡ true
    → notify_data os p fd revents
      ≡ returned (
        0,
        record p {
          state = sleeping;
          timer = some p.wakeup;
          dfd_events = bit_or p.dfd_events revents;
        },
      )
unfolding notify_data check_data doze move_data finish_data
early_lem os p fd revents f free memory plain early =
    rw (f.in_transfer, f.is_connected, plain, early, free, memory) refl
