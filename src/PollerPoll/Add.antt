-- ===== src/PollerPoll/Add.antt =====
-- dkftpbench-0.45/Poller_poll.cc: `add`.
use c10kcode.Common.{
  ℕ, ◌*◌, ◌≤◌, ◌<◌, ◌≡◌, refl, sym, ◌∙◌, ap, subst, true, none, some, ltb, leb, ◌==◌, if◌then◌else◌,
  arith, Bool-cases, Option-cases, inl, inr, ==→eq, ==→ne, ltb→lt,
}
use c10kcode.PollerPoll.{PollerPoll, grow_fds, place, add_client_slot, add}
use c10kcode.PollerPoll.Valid.{IsValid, registered}

-- What `q` watches is what `p` does, and `fd` with a client and a mask.
abbrev pub Watches : PollerPoll → ℕ → ℕ → ℕ → ℕ × PollerPoll → Type 0
Watches p fd client eventmask (e, q) =
    (e ≡ 0)
    × IsValid q
    × ((f : ℕ)
        → registered q f ≡ (if f == fd then some (some client, eventmask) else registered p f))

registered-place :
    (p : PollerPoll) (fd client eventmask : ℕ)
    → IsValid p
    → fd < p.fd_alloc
    → p.fd_to_pfd fd ≡ none
    → (f : ℕ)
    → registered (place p fd client eventmask) f
      ≡ (if f == fd then some (some client, eventmask) else registered p f)
registered-place p fd client eventmask v inside free f = elim (Bool-cases (f == fd)) [
  | inl same ↦ ground arith
  | inr other ↦ elim (Bool-cases (ltb f p.fd_alloc)) [
    | inl known ↦ elim (Option-cases (p.fd_to_pfd f)) [
      | inl unused ↦ ground arith
      | inr (x, at) ↦
          ground (arith, v.to_used f x (ltb→lt _ _ known) at, v.to_seen f x (ltb→lt _ _ known) at)
    ]
    | inr unknown ↦ ground (arith, v.fds)
  ]
]

place-Watches :
    (p : PollerPoll) (fd client eventmask : ℕ)
    → IsValid p
    → fd < p.fd_alloc
    → p.pfds_used < p.pfds_alloc
    → p.fd_to_pfd fd ≡ none
    → Watches p fd client eventmask (0, place p fd client eventmask)
place-Watches p fd client eventmask v inside_fd room free = (
  refl,
  record {
    to_used = λ f i h e. ground (arith, v.to_used f i);
    to_fd = λ f i h e. ground (arith, v.to_used f i, v.to_fd f i);
    to_seen = λ f i h e. ground (arith, v.to_seen f i);
    from = λ i h. elim (Bool-cases (i == p.pfds_used)) [
      | inl last ↦ (fd, ground arith, inside_fd, ground arith)
      | inr before ↦
          let (f, at, inside, back) = v.from i (omega (arith, ==→ne _ _ before)) in
          (f, ground arith, inside, ground arith)
    ];
    fds = ground (arith, v.fds);
    slots = omega arith;
    some_slots = v.some_slots;
  },
  registered-place p fd client eventmask v inside_fd free,
)

grow_fds-IsValid :
    (p : PollerPoll) (fd : ℕ)
    → IsValid p
    → p.fd_alloc ≤ fd
    → IsValid (grow_fds p fd)
      × ((f : ℕ) → registered (grow_fds p fd) f ≡ registered p f)
      × ((grow_fds p fd).fd_to_pfd fd ≡ none)
      × (fd < (grow_fds p fd).fd_alloc)
grow_fds-IsValid p fd v h = (
  record {
    to_used = λ f i h e. ground (arith, v.to_used f i);
    to_fd = λ f i h e. ground (arith, v.to_fd f i);
    to_seen = λ f i h e. ground (arith, v.to_seen f i);
    from = λ i h. let (f, at, inside, back) = v.from i h in (f, at, ground arith, ground arith);
    fds = ground (arith, v.fds);
    slots = v.slots;
    some_slots = v.some_slots;
  },
  λ f. ground (arith, v.fds),
  ground arith,
  ground arith,
)

-- A descriptor that is not watched has no entry in the table.
free_of :
    (p : PollerPoll) (fd : ℕ)
    → IsValid p
    → fd < p.fd_alloc
    → registered p fd ≡ none
    → p.fd_to_pfd fd ≡ none
free_of p fd v h n = elim (Option-cases (p.fd_to_pfd fd)) [
  | inl unused ↦ unused
  | inr (x, at) ↦ absurd (ground (arith, v.to_seen fd x h at))
]

more_slots-IsValid :
    (p : PollerPoll) → IsValid p → IsValid (record p { pfds_alloc = p.pfds_alloc * 2 })
more_slots-IsValid p v = record {
  to_used = v.to_used;
  to_fd = v.to_fd;
  to_seen = v.to_seen;
  from = v.from;
  fds = v.fds;
  slots = omega (arith, v.slots);
  some_slots = omega (arith, v.some_slots);
}

add_client_slot-Watches :
    (p : PollerPoll) (fd client eventmask : ℕ)
    → IsValid p
    → fd < p.fd_alloc
    → p.fd_to_pfd fd ≡ none
    → Watches p fd client eventmask (add_client_slot true p fd client eventmask)
add_client_slot-Watches p fd client eventmask v h free =
    elim (Bool-cases (p.pfds_used == p.pfds_alloc)) [
      | inl full ↦
          let more : PollerPoll = record p { pfds_alloc = p.pfds_alloc * 2 } in
          let room : p.pfds_used < p.pfds_alloc * 2 = omega (arith, ==→eq _ _ full, v.some_slots) in
          let e : add_client_slot true p fd client eventmask ≡ (0, place more fd client eventmask) =
            rw full refl in
          subst (Watches p fd client eventmask) (sym e)
            (place-Watches more fd client eventmask (more_slots-IsValid p v) h room free)
      | inr left ↦
          let e : add_client_slot true p fd client eventmask ≡ (0, place p fd client eventmask) =
            rw left refl in
          subst (Watches p fd client eventmask) (sym e)
            (place-Watches p fd client eventmask v h (omega (arith, v.slots, ==→ne _ _ left)) free)
    ]

-- Adding a descriptor that is not watched succeeds where memory can be had: it is then watched for
-- its client and mask, every other descriptor as before, and the tables fit each other.
pub add_lem :
    (p : PollerPoll) (fd client eventmask : ℕ)
    → IsValid p
    → registered p fd ≡ none
    → Watches p fd client eventmask (add true true p fd client eventmask)
unfolding add
add_lem p fd client eventmask v n = elim (Bool-cases (leb p.fd_alloc fd)) [
  | inl beyond ↦
      let (w, same, free, inside) = grow_fds-IsValid p fd v (ground arith) in
      let (e, w', all) =
        add_client_slot-Watches (grow_fds p fd) fd client eventmask w inside free in
      let run : add true true p fd client eventmask
          ≡ add_client_slot true (grow_fds p fd) fd client eventmask =
        rw beyond refl in
      subst (Watches p fd client eventmask) (sym run) (
        e,
        w',
        λ f. all f ∙ ap (λ r. if f == fd then some (some client, eventmask) else r) (same f),
      )
  | inr known ↦
      let inside : fd < p.fd_alloc = ground arith in
      let run : add true true p fd client eventmask ≡ add_client_slot true p fd client eventmask =
        rw known refl in
      subst (Watches p fd client eventmask) (sym run)
        (add_client_slot-Watches p fd client eventmask v inside (free_of p fd v inside n))
]
