-- ===== src/Pipe/Data/Held.antt =====
-- dkftpbench-0.45/ftp_client_pipe.cc: the events of a transfer at which nothing is read.
use c10kcode.Common.{
  ℕ, ◌+◌, ◌≡◌, refl, sym, ◌∙◌, ap, subst, true, false, ◌||◌, none, some, List, [], ◌∷◌, ◌==◌,
  if◌then◌else◌, if_then, if_else, if_both, inl, inr, Bool-cases, Option-cases, Option,
}
use c10kcode.Eclock.{eclock_after}
use c10kcode.Pipe.{
  Pipe, getting, sleeping, Os, App, Effect, transfer, aborted, returned, ◌>>=◌, has, pollhup,
  kickstarted,
}
use c10kcode.Pipe.Data.{notify_data, check_data, doze, move_data, finish_data}
use c10kcode.Pipe.Control.Service.{Ends, Ends-bind}
use c10kcode.Pipe.Notify.{
  control_mask, data_mask, ask_for, update_masks, notify, shutdown_and_notify, sked_callback,
}
use c10kcode.Pipe.Wake.{plainly, notify-quiet, unwrapped}

-- How often the application has been asked to transfer data.
abbrev pub transfers : List Effect → ℕ
transfers [] = 0
transfers (transfer fd revents ∷ log) = transfers log + 1
transfers (_ ∷ log) = transfers log

-- What `r` has in common with `q`, of what a transfer goes by.
pub record Alike (q r : Pipe) : Type 0 where
  pub connection : r.dfd_connecting ≡ q.dfd_connecting
  pub per_sec : r.bytes_per_sec ≡ q.bytes_per_sec
  pub per_tick : r.bytes_per_tick ≡ q.bytes_per_tick
  pub unslept : r.bytes_unslept ≡ q.bytes_unslept
  pub wakeup : r.wakeup ≡ q.wakeup
  pub asked : transfers r.log ≡ transfers q.log

-- Behind such an event the pipe sleeps.
abbrev pub Sleeps : Pipe → ℕ × Pipe → Type 0
Sleeps q x = (x.1.state ≡ sleeping) × Alike q x.1

module _ (os : Os) (q : Pipe) (fd revents : ℕ) (connected : q.dfd_connecting ≡ false) where
  -- While the pipe sleeps an event is remembered.
  pub sleeping-Sleeps : q.state ≡ sleeping → Ends (Sleeps q) (notify_data os q fd revents)
  unfolding notify_data check_data doze move_data finish_data
  sleeping-Sleeps st =
      rw (st, connected)
        (
          refl,
          record {
            connection = refl;
            per_sec = refl;
            per_tick = refl;
            unslept = refl;
            wakeup = refl;
            asked = refl;
          },
        )

  -- Before the wake-up time the pipe falls asleep.
  pub early-Sleeps :
      q.state ≡ getting
      → (has kickstarted revents || has pollhup revents) ≡ false
      → eclock_after q.wakeup os.now ≡ true
      → Ends (Sleeps q) (notify_data os q fd revents)
  unfolding notify_data check_data doze move_data finish_data
  early-Sleeps st plain early = elim (Option-cases q.timer) [
    | inl free ↦ elim (Bool-cases os.sked_ok) [
      | inl memory ↦
          rw (st, connected, plain, early, free, memory)
            (
              refl,
              record {
                connection = refl;
                per_sec = refl;
                per_tick = refl;
                unslept = refl;
                wakeup = refl;
                asked = refl;
              },
            )
      | inr none_left ↦
          rw (st, connected, plain, early, free, none_left)
            (
              refl,
              record {
                connection = refl;
                per_sec = refl;
                per_tick = refl;
                unslept = refl;
                wakeup = refl;
                asked = refl;
              },
            )
    ]
    | inr (t, busy) ↦ rw (st, connected, plain, early, busy) tt
  ]

-- Asking the poller for events changes the log only.
ask_for-Alike :
    (os : Os) (d : Option ℕ) (mask : ℕ) (p q : Pipe)
    → Alike p q × (q.state ≡ p.state)
    → Ends (λ r. Alike p r × (r.state ≡ p.state)) (ask_for os d mask q)
ask_for-Alike os none mask p q v = v
ask_for-Alike os (some fd) mask p q (v, st) =
    if_both (Ends (λ r. Alike p r × (r.state ≡ p.state))) (os.set_mask fd mask == 0) _ _
      (λ e. (
        record {
          connection = v.connection;
          per_sec = v.per_sec;
          per_tick = v.per_tick;
          unslept = v.unslept;
          wakeup = v.wakeup;
          asked = v.asked;
        },
        st,
      ))
      (λ e. tt)

pub update_masks-Alike :
    (os : Os) (p : Pipe) → Ends (λ r. Alike p r × (r.state ≡ p.state)) (update_masks os p)
unfolding update_masks
update_masks-Alike os p =
    let K = λ (r : Pipe). Alike p r × (r.state ≡ p.state) in
    Ends-bind K K (ask_for os p.cfd (control_mask p) p) _
      (ask_for-Alike os p.cfd (control_mask p) p p (
        record {
          connection = refl;
          per_sec = refl;
          per_tick = refl;
          unslept = refl;
          wakeup = refl;
          asked = refl;
        },
        refl,
      ))
      (λ r x. ask_for-Alike os r.dfd (data_mask r) p r x)

-- The pipe as its handler sees it when it is woken at `now`.
abbrev pub roused : Pipe → ℕ → Pipe
roused q now = record q { state = getting; dfd_events = 0; wakeup = now }

-- The scheduler's call of a pipe that sleeps on events: the handler gets them, and the masks are
-- updated.
pub sked_callback-roused :
    (os : Os) (app : App) (q x : Pipe) (fd now : ℕ)
    → q.state ≡ sleeping
    → (q.dfd_events == 0) ≡ false
    → eclock_after q.wakeup now ≡ false
    → q.dfd ≡ some fd
    → notify_data os (roused q now) fd q.dfd_events ≡ returned (0, x)
    → sked_callback os app q now ≡ update_masks os x
unfolding sked_callback
sked_callback-roused os app q x fd now st some_events due at run =
    let quiet : notify os app (roused q now) q.dfd q.dfd_events ≡ plainly (update_masks os x) =
      subst (λ d. notify os app (roused q now) d q.dfd_events ≡ plainly (update_masks os x))
        (sym at) (notify-quiet os app (roused q now) x fd q.dfd_events at run) in
    rw (sked_callback, st)
      (if_else _ _ _ some_events
        ∙ if_else _ _ _ due
        ∙ ap (λ m. m >>= λ r. if r.0 == 0 then returned r.1 else shutdown_and_notify os app r.1)
            quiet
        ∙ unwrapped (update_masks os x) (shutdown_and_notify os app))

-- It is not made before the wake-up time: that would fail an assertion.
pub sked_callback-early :
    (os : Os) (app : App) (q : Pipe) (now : ℕ)
    → q.state ≡ sleeping
    → (q.dfd_events == 0) ≡ false
    → eclock_after q.wakeup now ≡ true
    → sked_callback os app q now ≡ aborted
unfolding sked_callback
sked_callback-early os app q now st some_events early =
    rw (sked_callback, st) (if_else _ _ _ some_events ∙ if_then _ _ _ early)
