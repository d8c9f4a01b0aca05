-- ===== src/PollerPoll/Hole.antt =====
-- dkftpbench-0.45/Poller_poll.cc: how `del` moves the last entry into the hole.
use c10kcode.Common.{
  ℕ, zero, suc, ◌+◌, ◌-◌, ◌≤◌, ◌<◌, ◌≡◌, ◌≢◌, refl, sym, ◌∙◌, ap, ap₂, subst, false, Option, none,
  some, ltb, ◌==◌, if◌then◌else◌, arith, Bool-cases, Option-cases, inl, inr, ==→eq, ltb→lt, ltb→le,
}
use c10kcode.PollerPoll.{PollerPoll, shrink, take_out}
use c10kcode.PollerPoll.Valid.{IsValid, registered}

-- What is cut off the table is empty, and no entry is added.
shrink_lem :
    (table : ℕ → Option ℕ) (n : ℕ)
    → (shrink table n ≤ n) × ((f i : ℕ) → f < n → table f ≡ some i → f < shrink table n)
shrink_lem table zero = (omega arith, λ f i h e. absurd (omega arith))
shrink_lem table (suc n) =
    let (less, kept) = shrink_lem table n in
    elim (Option-cases (table n)) [
      | inl unused ↦
          let cut : shrink table (suc n) ≡ shrink table n = rw (shrink, unused) refl in
          rw cut (
            omega (arith, less),
            λ f i h e. elim (Bool-cases (f == n)) [
              | inl last ↦ absurd (ground arith)
              | inr before ↦ kept f i (ground arith) e
            ],
          )
      | inr (x, at) ↦
          let whole : shrink table (suc n) ≡ suc n = rw (shrink, at) refl in
          rw whole (omega arith, λ f i h e. h)
    ]

-- `q` is `p` with the entry of `last`, the last one, in place of that of `fd`, the entry `i`.
pub record Taken (p : PollerPoll) (fd i last : ℕ) (q : PollerPoll) : Type 0 where
  pub table :
      (f : ℕ)
      → q.fd_to_pfd f ≡ (if f == fd then none else if f == last then some i else p.fd_to_pfd f)
  pub fds :
      (j : ℕ) → j < q.pfds_used → (q.pfds j).fd ≡ (if j == i then some last else (p.pfds j).fd)
  pub masks :
      (j : ℕ)
      → j < q.pfds_used
      → (q.pfds j).events ≡ (p.pfds (if j == i then p.pfds_used - 1 else j)).events
  pub clients :
      (j : ℕ) → j < q.pfds_used → q.clients j ≡ p.clients (if j == i then p.pfds_used - 1 else j)
  pub seen : q.fd_used ≡ shrink q.fd_to_pfd p.fd_used
  pub alloc : q.fd_alloc ≡ p.fd_alloc
  pub slots : q.pfds_alloc ≡ p.pfds_alloc
  pub used : q.pfds_used + 1 ≡ p.pfds_used

-- What is known of `fd` and of the last entry.
pub record Entries (p : PollerPoll) (fd i last : ℕ) : Type 0 where
  pub valid : IsValid p
  pub at : p.fd_to_pfd fd ≡ some i
  pub known : fd < p.fd_used
  pub queued : i < p.pfds_used
  pub ends : (p.pfds (p.pfds_used - 1)).fd ≡ some last
  pub back : p.fd_to_pfd last ≡ some (p.pfds_used - 1)
  pub inside : last < p.fd_alloc
  pub same : i ≡ p.pfds_used - 1 → fd ≡ last

pub take_out-Taken :
    (p : PollerPoll) (fd i last : ℕ) → Entries p fd i last → Taken p fd i last (take_out p fd i)
unfolding take_out
take_out-Taken p fd i last k = elim (Bool-cases (i == p.pfds_used - 1)) [
  | inl is_last ↦ record {
    table = λ f. ground (arith, k.same (==→eq _ _ is_last));
    fds = λ j h. ground arith;
    masks = λ j h. ground arith;
    clients = λ j h. ground arith;
    seen = ground arith;
    alloc = ground arith;
    slots = ground arith;
    used = ground (arith, k.queued);
  }
  | inr hole ↦ record {
    table = λ f. ground (arith, k.ends);
    fds = λ j h. ground (arith, k.ends);
    masks = λ j h. ground arith;
    clients = λ j h. ground arith;
    seen = ground arith;
    alloc = ground arith;
    slots = ground arith;
    used = ground (arith, k.queued);
  }
]

-- Where the entry of a descriptor that is left was before.
before :
    (p q : PollerPoll) (fd i last f j : ℕ)
    → Entries p fd i last
    → Taken p fd i last q
    → f < p.fd_alloc
    → q.fd_to_pfd f ≡ some j
    → (j < q.pfds_used) × ((q.pfds j).fd ≡ some f) × (f < p.fd_used)
before p q fd i last f j k t h e =
    let inside : j < q.pfds_used = ground (
      arith,
      t.table f,
      t.used,
      k.valid.to_used f j,
      k.valid.to_fd f j,
      k.ends,
      k.queued,
      k.same,
    ) in
    (
      inside,
      ground (arith, t.table f, t.fds j inside, k.valid.to_fd f j, k.valid.to_fd fd i),
      ground (arith, t.table f, k.valid.to_seen f j, k.valid.to_seen last (p.pfds_used - 1)),
    )

pub Taken-IsValid :
    (p q : PollerPoll) (fd i last : ℕ) → Entries p fd i last → Taken p fd i last q → IsValid q
Taken-IsValid p q fd i last k t =
    let (short, kept) = shrink_lem q.fd_to_pfd p.fd_used in
    record {
      to_used = λ f j h e. (before p q fd i last f j k t (ground (arith, t.alloc)) e).0;
      to_fd = λ f j h e. (before p q fd i last f j k t (ground (arith, t.alloc)) e).1;
      to_seen = λ f j h e.
          let (_, _, seen) = before p q fd i last f j k t (ground (arith, t.alloc)) e in
          subst (λ n. f < n) (sym t.seen) (kept f j seen e);
      from = λ j h. elim (Bool-cases (j == i)) [
        | inl moved ↦ (
          last,
          ground (arith, t.fds j h),
          ground (arith, t.alloc, k.inside),
          ground (arith, t.table last, t.used, k.at, k.back),
        )
        | inr stays ↦
            let (f, at, inside, back) = k.valid.from j (omega (arith, t.used)) in
            (
              f,
              ground (arith, t.fds j h),
              ground (arith, t.alloc),
              ground (arith, t.table f, t.used, k.at, k.back),
            )
      ];
      fds = ground (arith, short, t.seen, t.alloc, k.valid.fds);
      slots = ground (arith, t.used, t.slots, k.valid.slots);
      some_slots = ground (arith, t.slots, k.valid.some_slots);
    }

registered_at :
    (p : PollerPoll) (f i : ℕ)
    → f < p.fd_used
    → p.fd_to_pfd f ≡ some i
    → registered p f ≡ some (p.clients i, (p.pfds i).events)
registered_at p f i h e = ground arith

registered_unused : (p : PollerPoll) (f : ℕ) → p.fd_to_pfd f ≡ none → registered p f ≡ none
registered_unused p f e = ground arith

registered_beyond : (p : PollerPoll) (f : ℕ) → p.fd_used ≤ f → registered p f ≡ none
registered_beyond p f h = ground arith

-- A descriptor that is left has the same client and mask, wherever its entry is now.
stays_registered :
    (p q : PollerPoll) (fd i last f x : ℕ)
    → Entries p fd i last
    → Taken p fd i last q
    → (f == fd) ≡ false
    → f < p.fd_used
    → p.fd_to_pfd f ≡ some x
    → registered q f ≡ registered p f
stays_registered p q fd i last f x k t other h e =
    let (short, kept) = shrink_lem q.fd_to_pfd p.fd_used in
    elim (Bool-cases (f == last)) [
      | inl moved ↦
          let now : q.fd_to_pfd f ≡ some i = ground (arith, t.table f) in
          let j_used : i < q.pfds_used = ground (arith, t.used, k.queued, k.same) in
          let seen : f < q.fd_used = subst (λ n. f < n) (sym t.seen) (kept f i h now) in
          let was : x ≡ p.pfds_used - 1 = ground (arith, k.back) in
          registered_at q f i seen now
          ∙ ap some (
              ap₂ (λ c m. (c, m)) (ground (arith, t.clients i j_used))
                (ground (arith, t.masks i j_used)))
          ∙ sym (registered_at p f x h e)
      | inr left ↦
          let now : q.fd_to_pfd f ≡ some x = ground (arith, t.table f) in
          let inside = k.valid.fds in
          let here : (p.pfds x).fd ≡ some f = k.valid.to_fd f x (omega (arith, h, inside)) e in
          let x_used : x < p.pfds_used = k.valid.to_used f x (omega (arith, h, inside)) e in
          let apart : x ≢ i =
            ground (arith, k.valid.to_fd fd i (omega (arith, k.known, inside)) k.at) in
          let j_used : x < q.pfds_used = ground (arith, t.used, k.ends) in
          let seen : f < q.fd_used = subst (λ n. f < n) (sym t.seen) (kept f x h now) in
          registered_at q f x seen now
          ∙ ap some (
              ap₂ (λ c m. (c, m)) (ground (arith, t.clients x j_used))
                (ground (arith, t.masks x j_used)))
          ∙ sym (registered_at p f x h e)
    ]

pub Taken-registered :
    (p q : PollerPoll) (fd i last : ℕ)
    → Entries p fd i last
    → Taken p fd i last q
    → (f : ℕ) → registered q f ≡ (if f == fd then none else registered p f)
Taken-registered p q fd i last k t f = elim (Bool-cases (f == fd)) [
  | inl gone ↦ rw gone (registered_unused q f (ground (arith, t.table f)))
  | inr other ↦ elim (Bool-cases (ltb f p.fd_used)) [
    | inl known ↦ elim (Option-cases (p.fd_to_pfd f)) [
      | inl unused ↦ rw other (
          registered_unused q f (ground (arith, t.table f, k.back))
          ∙ sym (registered_unused p f unused))
      | inr (x, at) ↦ rw other (stays_registered p q fd i last f x k t other (ltb→lt _ _ known) at)
    ]
    | inr unknown ↦
        let (short, kept) = shrink_lem q.fd_to_pfd p.fd_used in
        let beyond : p.fd_used ≤ f = ltb→le _ _ unknown in
        rw other (
          registered_beyond q f (ground (arith, short, t.seen))
          ∙ sym (registered_beyond p f beyond))
  ]
]
