-- ===== src/PollerPoll/Masks.antt =====
-- dkftpbench-0.45/Poller_poll.cc: `setMask`, `orMask` and `andMask`.
use Prim.Native.Nat.{bit_and, bit_or}
use c10kcode.Common.{
  ℕ, ◌<◌, ◌≡◌, ◌≢◌, refl, sym, ap, subst, subst₂, false, Option, some, ltb, leb, ◌==◌,
  if◌then◌else◌, write, arith, Bool-cases, Option-cases, inl, inr, ltb→lt,
}
use mathlib.Core.Option.{some-injective}
use c10kcode.PollerPoll.{PollerPoll, with_events, set_mask, or_mask, and_mask, Outcome, returned}
use c10kcode.PollerPoll.Valid.{IsValid, registered}
use c10kcode.PollerPoll.Del.{registered-entry}

-- The call succeeds, the descriptor has that mask, and all else is as before.
abbrev pub HasMask : PollerPoll → ℕ → Option ℕ → ℕ → Outcome (ℕ × PollerPoll) → Type 0
HasMask p fd client mask (returned (e, q)) =
    (e ≡ 0)
    × IsValid q
    × ((f : ℕ) → registered q f ≡ (if f == fd then some (client, mask) else registered p f))
HasMask p fd client mask _ = ⊥

with_events-HasMask :
    (p : PollerPoll) (fd i : ℕ) (g : ℕ → ℕ)
    → IsValid p
    → fd < p.fd_used
    → p.fd_to_pfd fd ≡ some i
    → HasMask p fd (p.clients i) (g (p.pfds i).events) (with_events p i g)
with_events-HasMask p fd i g v known at =
    let inside : fd < p.fd_alloc = omega (arith, v.fds) in
    let queued : i < p.pfds_used = v.to_used fd i inside at in
    let here : (p.pfds i).fd ≡ some fd = v.to_fd fd i inside at in
    let in_use : leb p.pfds_used i ≡ false = ground arith in
    let q : PollerPoll = record p {
      pfds = write p.pfds i (record (p.pfds i) { events = g (p.pfds i).events });
    } in
    let run : with_events p i g ≡ returned (0, q) = rw in_use refl in
    subst (HasMask p fd (p.clients i) (g (p.pfds i).events)) (sym run) (
      refl,
      record {
        to_used = v.to_used;
        to_fd = λ f j h e. ground (arith, v.to_fd f j h e);
        to_seen = v.to_seen;
        from =
            λ j h. let (f, there, f_inside, back) = v.from j h in (f, ground arith, f_inside, back);
        fds = v.fds;
        slots = v.slots;
        some_slots = v.some_slots;
      },
      λ f. elim (Bool-cases (f == fd)) [
        | inl same ↦ ground arith
        | inr other ↦ elim (Option-cases (p.fd_to_pfd f)) [
          | inl unused ↦ ground arith
          | inr (x, there) ↦ elim (Bool-cases (ltb f p.fd_used)) [
            | inl f_known ↦
                let apart : x ≢ i =
                  ground (arith, v.to_fd f x (omega (arith, v.fds, ltb→lt _ _ f_known)) there) in
                ground arith
            | inr beyond ↦ ground arith
          ]
        ]
      ],
    )

-- Where a descriptor is watched, the three calls fail no assertion and return 0: it then has the
-- given mask, its mask or'ed with the given one, or its mask and'ed with it; its client and all
-- other descriptors are as before, and the tables fit each other.
pub masks_lem :
    (p : PollerPoll) (fd eventmask : ℕ) (client : Option ℕ) (mask : ℕ)
    → IsValid p
    → registered p fd ≡ some (client, mask)
    → HasMask p fd client eventmask (set_mask p fd eventmask)
      × HasMask p fd client (bit_or mask eventmask) (or_mask p fd eventmask)
      × HasMask p fd client (bit_and mask eventmask) (and_mask p fd eventmask)
unfolding set_mask or_mask and_mask
masks_lem p fd eventmask client mask v e =
    let (known, (i, at)) = registered-entry p fd (client, mask) e in
    let inside : leb p.fd_alloc fd ≡ false = ground (arith, v.fds, known) in
    let entry : some (p.clients i, (p.pfds i).events) ≡ some (client, mask) = ground arith in
    let held : Option ℕ × ℕ = (p.clients i, (p.pfds i).events) in
    let given : Option ℕ × ℕ = (client, mask) in
    let here : held ≡ given = some-injective held given entry in
    let set : set_mask p fd eventmask ≡ with_events p i (λ _. eventmask) =
      rw (set_mask, inside, at) refl in
    let or : or_mask p fd eventmask ≡ with_events p i (λ k. bit_or k eventmask) =
      rw (or_mask, inside, at) refl in
    let and : and_mask p fd eventmask ≡ with_events p i (λ k. bit_and k eventmask) =
      rw (and_mask, inside, at) refl in
    let done = λ (g : ℕ → ℕ). with_events-HasMask p fd i g v known at in
    (
      subst₂ (λ z o. HasMask p fd z eventmask o) (ap (λ r. r.0) here) (sym set)
          (done (λ _. eventmask)),
      subst₂ (λ r o. HasMask p fd r.0 (bit_or r.1 eventmask) o) here (sym or)
          (done (λ k. bit_or k eventmask)),
      subst₂ (λ r o. HasMask p fd r.0 (bit_and r.1 eventmask) o) here (sym and)
          (done (λ k. bit_and k eventmask)),
    )
