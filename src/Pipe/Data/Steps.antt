-- ===== src/Pipe/Data/Steps.antt =====
-- dkftpbench-0.45/ftp_client_pipe.cc: what an event and a wake-up do to the rate of a transfer.
use native.Mathlib.Nat.{add-mul, mul-le-mul_right}
use c10kcode.Common.{
  ℕ, ◌+◌, ◌*◌, ◌/◌, ◌^◌, ◌≤◌, ◌<◌, ◌≡◌, refl, sym, ◌∙◌, ap, subst, true, false, some, none,
  Bool-cases, ◌-◌, ◌||◌, ◌==◌, arith, ◌⊎◌, inl, inr,
}
use c10kcode.CText.{pos}
use c10kcode.Eclock.{clock_add, eclock_after, hertz}
use c10kcode.Pipe.{
  Pipe, getting, sleeping, Os, App, Outcome, aborted, returned, returned-injective, has, pollin,
  pollhup, kickstarted,
}
use c10kcode.Pipe.Data.Held.{
  transfers, Alike, Sleeps, sleeping-Sleeps, early-Sleeps, update_masks-Alike, roused,
  sked_callback-roused, sked_callback-early,
}
use c10kcode.Pipe.Control.Service.{Ends}
use c10kcode.Pipe.Notify.{update_masks, sked_callback}
use c10kcode.Pipe.Data.{notify_data}
use c10kcode.Pipe.Data.Throttle.{FitsInt}
use c10kcode.Pipe.Data.Fetch.{IsFetching, read_lem, after_read}

-- What holds all through a transfer that began with `p`: the bytes read so far and those that `p`
-- had not slept for fit, at the rate, in the time to the wake-up, but for the few that are left.
pub record IsOnRate (p : Pipe) (t : ℕ) (q : Pipe) : Type 0 where
  pub busy : (q.state ≡ getting) ⊎ (q.state ≡ sleeping)
  pub connected : q.dfd_connecting ≡ false
  pub same_rate : q.bytes_per_sec ≡ p.bytes_per_sec
  pub tick_rate : q.bytes_per_tick ≡ q.bytes_per_sec / hertz
  pub on_rate :
      (t + p.bytes_unslept) * hertz + p.wakeup * p.bytes_per_sec
      ≤ q.wakeup * p.bytes_per_sec + q.bytes_unslept * hertz
  pub few_left : q.bytes_unslept ≤ q.bytes_per_tick + 1
  pub in_range : q.wakeup < 2 ^ 63

-- What the throttle lets pass is not early.
not_early : (w now : ℕ) → w < 2 ^ 63 → now < 2 ^ 62 → eclock_after w now ≡ false → w ≤ now
unfolding eclock_after
not_early w now range small h = ground arith

le_or_lt : (a b : ℕ) → (a ≤ b) ⊎ (b < a)
le_or_lt a b = ground arith

fits_int :
    (bps n left : ℕ)
    → bps < 2 ^ 31
    → n ≤ 16384
    → left ≤ bps / hertz + 1
    → FitsInt (bps / hertz) (n + left)
fits_int bps n left h few l = (
  omega (arith, h, few, l),
  elim (le_or_lt 5 (bps / hertz)) [
    | inl big ↦ inr big
    | inr slow ↦ inl (omega (arith, few, l, slow))
  ],
)

-- The arithmetic of a read: `n` bytes more, `slept` of which the sleep of `w` ticks accounts for.
step_on_rate :
    (rate start wakeup now w t n unslept before left slept : ℕ)
    → wakeup ≤ now
    → now < 2 ^ 62
    → w < 2 ^ 31
    → (t + unslept) * hertz + start * rate ≤ wakeup * rate + before * hertz
    → slept + left ≡ n + before
    → slept * hertz ≤ w * rate
    → (t + n + unslept) * hertz + start * rate ≤ clock_add now w * rate + left * hertz
step_on_rate rate start wakeup now w t n unslept before left slept due in_range short h all long =
    let no_wrap : clock_add now w ≡ now + w = omega (arith, in_range, short) in
    let later : wakeup * rate ≤ now * rate = mul-le-mul_right rate due in
    rw (no_wrap, add-mul now w rate) (omega (arith, h, all, long, later))

-- The bytes of one read more, and of none
one_more : (t a b n : ℕ) → a ≡ b + 1 → t + n ≡ t + (a - b) * n
one_more t a b n h =
    let one : a - b ≡ 1 = omega (arith, h) in subst (λ k. t + n ≡ t + k * n) (sym one) (omega arith)

none_more : (t a b n : ℕ) → a ≡ b → t ≡ t + (a - b) * n
none_more t a b n h =
    let nothing : a - b ≡ 0 = omega (arith, h) in
    subst (λ k. t ≡ t + k * n) (sym nothing) (omega arith)

-- What a transfer goes by stays as it is.
Alike-IsOnRate :
    (p q r : Pipe) (t : ℕ)
    → (r.state ≡ getting) ⊎ (r.state ≡ sleeping)
    → Alike q r
    → IsOnRate p t q
    → IsOnRate p t r
Alike-IsOnRate p q r t busy a v = record {
  busy = busy;
  connected = a.connection ∙ v.connected;
  same_rate = a.per_sec ∙ v.same_rate;
  tick_rate = a.per_tick ∙ v.tick_rate ∙ ap (λ k. k / hertz) (sym a.per_sec);
  on_rate =
      subst
        (λ k.
          (t + p.bytes_unslept) * hertz + p.wakeup * p.bytes_per_sec
          ≤ k * p.bytes_per_sec + r.bytes_unslept * hertz)
        (sym a.wakeup) (omega (arith, v.on_rate, a.unslept));
  few_left = omega (arith, v.few_left, a.unslept, a.per_tick);
  in_range = omega (arith, v.in_range, a.wakeup);
}

-- A read at a time that is not before the wake-up time.
read-IsOnRate :
    (fd revents : ℕ) (p q : Pipe) (t n : ℕ) (os : Os)
    → p.bytes_per_sec < 2 ^ 31
    → 0 < p.bytes_per_sec
    → q.state ≡ getting
    → os.now < 2 ^ 62
    → has pollin revents ≡ true
    → eclock_after q.wakeup os.now ≡ false
    → os.data_io fd revents os.now ≡ pos n
    → 0 < n
    → n ≤ 16384
    → IsOnRate p t q
    → (w left : ℕ) × (notify_data os q fd revents ≡ returned (0, after_read os q fd revents w left))
      × IsOnRate p (t + n) (after_read os q fd revents w left)
read-IsOnRate fd revents p q t n os rate_fits positive st in_range readable late given more few v =
    let f : IsFetching q = record {
      in_transfer = st;
      is_connected = v.connected;
      positive_rate = omega (arith, positive, v.same_rate);
      tick_rate = v.tick_rate;
    } in
    let due : q.wakeup ≤ os.now = not_early q.wakeup os.now v.in_range in_range late in
    let fits : FitsInt q.bytes_per_tick (n + q.bytes_unslept) =
      subst (λ k. FitsInt k (n + q.bytes_unslept)) (sym v.tick_rate)
        (fits_int q.bytes_per_sec n q.bytes_unslept (omega (arith, rate_fits, v.same_rate)) few
          (omega (arith, v.tick_rate, v.few_left))) in
    let (w, left, run, s) = read_lem os q fd revents n f readable late given more fits in
    (
      w,
      left,
      run,
      record {
        busy = inl st;
        connected = v.connected;
        same_rate = v.same_rate;
        tick_rate = v.tick_rate;
        on_rate =
            step_on_rate p.bytes_per_sec p.wakeup q.wakeup os.now w t n p.bytes_unslept
              q.bytes_unslept left s.slept due in_range s.short v.on_rate s.all_bytes
              (subst (λ k. s.slept * hertz ≤ w * k) v.same_rate s.long_enough);
        few_left = omega (arith, s.few_left);
        in_range = omega (arith, in_range, s.short);
      },
    )

slept_on :
    (p q r : Pipe) (t n : ℕ)
    → Sleeps q (0, r)
    → IsOnRate p t q
    → IsOnRate p (t + (transfers r.log - transfers q.log) * n) r
slept_on p q r t n (st, a) v =
    subst (λ k. IsOnRate p k r) (none_more t (transfers r.log) (transfers q.log) n a.asked)
      (Alike-IsOnRate p q r t (inr st) a v)

abbrev HasReturned : Outcome Pipe → Type 0
HasReturned (returned r) = Unit {0}
HasReturned _ = ⊥

not_returned : (r : Pipe) → aborted ≡ returned r → ⊥
not_returned r e = subst HasReturned (sym e) tt

-- What is known of the result of a call that returns.
of_run {ℓ} : {A : Type ℓ} (P : A → Type 0) (m : Outcome A) (r : A) → m ≡ returned r → Ends P m → P r
of_run P m r run h = subst (Ends P) run h

pub event-IsOnRate :
    (fd revents : ℕ) (p q r : Pipe) (t n : ℕ) (os : Os)
    → p.bytes_per_sec < 2 ^ 31
    → 0 < p.bytes_per_sec
    → os.now < 2 ^ 62
    → has pollin revents ≡ true
    → (has kickstarted revents || has pollhup revents) ≡ false
    → os.data_io fd revents os.now ≡ pos n
    → 0 < n
    → n ≤ 16384
    → notify_data os q fd revents ≡ returned (0, r)
    → IsOnRate p t q
    → IsOnRate p (t + (transfers r.log - transfers q.log) * n) r
event-IsOnRate fd revents p q r t n os rate_fits positive in_range readable plain given more few run
      v =
    elim v.busy [
      | inr st ↦
          slept_on p q r t n
            (of_run (Sleeps q) (notify_data os q fd revents) (0, r) run
              (sleeping-Sleeps os q fd revents v.connected st))
            v
      | inl st ↦ elim (Bool-cases (eclock_after q.wakeup os.now)) [
        | inl early ↦
            slept_on p q r t n
              (of_run (Sleeps q) (notify_data os q fd revents) (0, r) run
                (early-Sleeps os q fd revents v.connected st plain early))
              v
        | inr late ↦
            let (w, left, run', x) =
              read-IsOnRate fd revents p q t n os rate_fits positive st in_range readable late given
                more few v in
            let same : after_read os q fd revents w left ≡ r =
              ap (λ y. y.1)
                (returned-injective (0, after_read os q fd revents w left) (0, r)
                  (sym run' ∙ run)) in
            subst (λ y. IsOnRate p (t + (transfers y.log - transfers q.log) * n) y) same
              (subst (λ k. IsOnRate p k (after_read os q fd revents w left))
                (one_more t (transfers q.log + 1) (transfers q.log) n refl) x)
      ]
    ]

-- A wake-up is not before the wake-up time, so the time up to it counts.
roused-IsOnRate :
    (p q : Pipe) (t now : ℕ)
    → q.wakeup ≤ now
    → now < 2 ^ 62
    → IsOnRate p t q
    → IsOnRate p t (roused (record q { timer = none }) now)
roused-IsOnRate p q t now h in_range v = record {
  busy = inl refl;
  connected = v.connected;
  same_rate = v.same_rate;
  tick_rate = v.tick_rate;
  on_rate = omega (arith, v.on_rate, mul-le-mul_right p.bytes_per_sec h);
  few_left = v.few_left;
  in_range = omega (arith, in_range);
}

past : (now later : ℕ) → now ≤ later → later < 2 ^ 62 → eclock_after now later ≡ false
unfolding eclock_after
past now later h small = ground arith

pub woken-IsOnRate :
    (fd now : ℕ) (p q r : Pipe) (t n : ℕ) (os : Os) (app : App)
    → p.bytes_per_sec < 2 ^ 31
    → 0 < p.bytes_per_sec
    → q.state ≡ sleeping
    → q.dfd ≡ some fd
    → now ≤ os.now
    → os.now < 2 ^ 62
    → has pollin q.dfd_events ≡ true
    → os.data_io fd q.dfd_events os.now ≡ pos n
    → 0 < n
    → n ≤ 16384
    → sked_callback os app (record q { timer = none }) now ≡ returned r
    → IsOnRate p t q
    → IsOnRate p (t + (transfers r.log - transfers q.log) * n) r
woken-IsOnRate fd now p q r t n os app rate_fits positive st at before in_range readable given more
      few run v =
    let some_events : (q.dfd_events == 0) ≡ false = elim (Bool-cases (q.dfd_events == 0)) [
      | inl e ↦ absurd (ground arith)
      | inr e ↦ e
    ] in
    let q' : Pipe = record q { timer = none } in
    elim (Bool-cases (eclock_after q.wakeup now)) [
      | inl early ↦
          absurd
            (not_returned r (sym (sked_callback-early os app q' now st some_events early) ∙ run))
      | inr late ↦
          let due : q.wakeup ≤ now =
            not_early q.wakeup now v.in_range (omega (arith, before, in_range)) late in
          let (w, left, run', x) =
            read-IsOnRate fd q.dfd_events p (roused q' now) t n os rate_fits positive refl in_range
              readable (past now os.now before in_range) given more few
              (roused-IsOnRate p q t now due (omega (arith, before, in_range)) v) in
          let y : Pipe = after_read os (roused q' now) fd q.dfd_events w left in
          let (a, same) =
            of_run (λ r. Alike y r × (r.state ≡ y.state)) (update_masks os y) r
              (sym (sked_callback-roused os app q' y fd now st some_events late at run') ∙ run)
              (update_masks-Alike os y) in
          subst (λ k. IsOnRate p k r) (one_more t (transfers r.log) (transfers q.log) n a.asked)
            (Alike-IsOnRate p y r (t + n) (inl same) a x)
    ]
