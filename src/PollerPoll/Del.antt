-- ===== src/PollerPoll/Del.antt =====
-- dkftpbench-0.45/Poller_poll.cc: `del`.
use c10kcode.Common.{
  ℕ, ◌-◌, ◌<◌, ◌≡◌, refl, sym, subst, false, Option, none, some, ltb, leb, ◌==◌, if◌then◌else◌,
  arith, Bool-cases, Option-cases, inl, inr, ltb→lt,
}
use c10kcode.CText.{pos}
use c10kcode.PollerPoll.{PollerPoll, take_out, del, Outcome, returned}
use c10kcode.PollerPoll.Valid.{IsValid, registered}
use c10kcode.PollerPoll.Hole.{Entries, take_out-Taken, Taken-IsValid, Taken-registered}

-- The tables without the entry `i` of `fd`, which is then watched no more.
abbrev pub Forgets : PollerPoll → ℕ → ℕ × PollerPoll → Type 0
Forgets p fd (e, q) =
    (e ≡ 0) × IsValid q × ((f : ℕ) → registered q f ≡ (if f == fd then none else registered p f))

-- The entry of a watched descriptor.
pub registered-entry :
    (p : PollerPoll) (fd : ℕ) (r : Option ℕ × ℕ)
    → registered p fd ≡ some r
    → (fd < p.fd_used) × ((i : ℕ) × (p.fd_to_pfd fd ≡ some i))
registered-entry p fd r e = elim (Bool-cases (ltb fd p.fd_used)) [
  | inl known ↦ elim (Option-cases (p.fd_to_pfd fd)) [
    | inl unused ↦ absurd (ground arith)
    | inr (i, at) ↦ (ltb→lt _ _ known, (i, at))
  ]
  | inr unknown ↦ absurd (ground arith)
]

-- The call succeeds, and the descriptor is watched no more.
abbrev pub Deletes : PollerPoll → ℕ → Outcome (ℕ × PollerPoll) → Type 0
Deletes p fd (returned r) = Forgets p fd r
Deletes p fd _ = ⊥

-- Deleting a descriptor that is watched fails no assertion and returns 0: it is watched no more,
-- every other descriptor is with the same client and mask, also the one whose entry was moved into
-- the hole, and the tables fit each other.
pub del_lem :
    (p : PollerPoll) (fd : ℕ) (r : Option ℕ × ℕ)
    → IsValid p
    → registered p fd ≡ some r
    → Deletes p fd (del p (pos fd))
unfolding del
del_lem p fd r v e =
    let (known, (i, at)) = registered-entry p fd r e in
    let inside : fd < p.fd_alloc = omega (arith, v.fds) in
    let queued : i < p.pfds_used = v.to_used fd i inside at in
    let (last, ends, last_inside, back) = v.from (p.pfds_used - 1) (omega arith) in
    let k : Entries p fd i last = record {
      valid = v;
      at = at;
      known = known;
      queued = queued;
      ends = ends;
      back = back;
      inside = last_inside;
      same = λ s. ground (arith, v.to_fd fd i inside at);
    } in
    let t = take_out-Taken p fd i last k in
    let run : del p (pos fd) ≡ returned (0, take_out p fd i) =
      rw (le_false known, some_used queued, at, le_false queued, ends) refl in
    subst (Deletes p fd) (sym run)
      (refl, Taken-IsValid p _ fd i last k t, Taken-registered p _ fd i last k t)
  where
    le_false : {a b : ℕ} → a < b → leb b a ≡ false
    le_false h = ground arith

    some_used : {a b : ℕ} → a < b → (b == 0) ≡ false
    some_used h = ground arith
